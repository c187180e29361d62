-- ===== src/Mempool/Pool.antt =====
-- The state of the pool (mem_pool.go), its errors and its queries. The lock is not modelled: a
-- method holds it from its first access of the pool to its last. What is sent to the events channel is
-- appended to `events`.
use koala_tblockchain_golang.Shared.{
  ℕ, ◌≡◌, Bool, true, false, ◌||◌, ◌&&◌, if◌then◌else◌, List, [], ◌∷◌, ◌++◌, Option, none, some,
  length, map, get_elem?,
}
use koala_tblockchain_golang.Shared.Int.{ℤ}
use koala_tblockchain_golang.Shared.Mapping.{Mapping, empty}
use koala_tblockchain_golang.Mempool.Tx.{Transaction, Item, conflict_hashes}

pub data Err : Type 0 where
  insufficient_funds conflict dup oom conflicts_attribute oracle_response_err : Err

-- A method that may dereference nil, or index out of range, panics or is done.
pub data Outcome {ℓ} (A : Type ℓ) : Type ℓ where
  panic : Outcome A
  done : A → Outcome A

infixl 5 ◌>>=◌
abbrev pub ◌>>=◌ {ℓ κ} : {A : Type ℓ} {B : Type κ} → Outcome A → (A → Outcome B) → Outcome B
panic >>= f = panic
done a >>= f = f a

-- dereferencing, or indexing
abbrev pub deref {ℓ} : {A : Type ℓ} → Option A → Outcome A
deref none = panic
deref (some a) = done a

-- utilityBalanceAndFees
pub record BalanceAndFees : Type 0 where
  pub balance : ℤ
  pub fee_sum : ℤ

-- mempoolevent.Event
pub data Event : Type 0 where
  transaction_added transaction_removed : Transaction → Option ℕ → Event

pub record Pool : Type 0 where
  pub verified_map : Mapping Transaction
  pub verified_txes : List Item
  pub fees : Mapping BalanceAndFees
  pub conflicts : Mapping (List ℕ)
  pub oracle_resp : Mapping ℕ
  pub capacity : ℕ
  pub pool_fee_per_byte : ℕ
  pub payer_index : ℕ
  pub resend_threshold : ℕ
  pub subscriptions_on : Bool
  pub events : List Event

-- the interface Feer, at the time of a call
pub record Feer : Type 0 where
  pub feer_fee_per_byte : ℕ
  pub get_utility_token_balance : ℕ → ℤ
  pub block_height : ℕ
  pub p2p_sig_extensions_enabled : Bool

-- New
unfoldable pub new : ℕ → ℕ → Pool
new capacity payer_index = record {
  verified_map = empty;
  verified_txes = [];
  fees = empty;
  conflicts = empty;
  oracle_resp = empty;
  capacity = capacity;
  pool_fee_per_byte = 0;
  payer_index = payer_index;
  resend_threshold = 0;
  subscriptions_on = false;
  events = [];
}

-- `if mp.subscriptionsOn.Load() { mp.events <- event }`
abbrev pub emit : Event → Pool → Pool
emit event mp = record mp {
  events = if mp.subscriptions_on then mp.events ++ event ∷ [] else mp.events;
}

-- tx.Signers[mp.payerIndex].Account
abbrev pub payer_of : Pool → Transaction → Outcome ℕ
payer_of mp tx = deref (get_elem? tx.signers mp.payer_index)

unfoldable pub count : Pool → ℕ
count mp = length mp.verified_txes

abbrev pub is_some {ℓ} : {A : Type ℓ} → Option A → Bool
is_some none = false
is_some (some a) = true

unfoldable pub contains_key : Pool → ℕ → Bool
contains_key mp hash = is_some (mp.verified_map hash)

any_contained : Pool → List ℕ → Bool
any_contained mp [] = false
any_contained mp (h ∷ hs) = contains_key mp h || any_contained mp hs

unfoldable pub has_conflicts : Pool → Transaction → Feer → Bool
unfolding any_contained contains_key
has_conflicts mp t fee =
    contains_key mp t.hash
    || fee.p2p_sig_extensions_enabled
      && (is_some (mp.conflicts t.hash) || any_contained mp (conflict_hashes t.attributes))

-- TryGetValue
unfoldable pub try_get_value : Pool → ℕ → Option Transaction
try_get_value mp hash = mp.verified_map hash

unfoldable pub get_verified_transactions : Pool → List Transaction
get_verified_transactions mp = map (λ itm. itm.txn) mp.verified_txes

-- What holds of the result, if there is one.
abbrev pub Holds {ℓ κ} : {A : Type ℓ} → (A → Type κ) → Outcome A → Type κ
Holds P panic = Unit
Holds P (done a) = P a

pub Holds-bind {ℓ κ ℓ' κ'} :
    {A : Type ℓ} {B : Type ℓ'} (P : A → Type κ) (Q : B → Type κ') (m : Outcome A)
    (f : A → Outcome B)
    → Holds P m
    → ((a : A) → P a → Holds Q (f a))
    → Holds Q (m >>= f)
Holds-bind P Q panic f h k = tt
Holds-bind P Q (done a) f h k = k a h

pub Holds-any {ℓ} : {A : Type ℓ} (m : Outcome A) → Holds (λ (a : A). Unit {0}) m
Holds-any panic = tt
Holds-any (done a) = tt

pub Holds-map {ℓ κ κ'} :
    {A : Type ℓ} {P : A → Type κ} {Q : A → Type κ'} (m : Outcome A)
    → Holds P m
    → ((a : A) → P a → Q a)
    → Holds Q m
Holds-map panic h k = tt
Holds-map (done a) h k = k a h

-- The call does not panic, and P holds of its result.
abbrev pub Returns {ℓ} : {A : Type ℓ} → (A → Type 0) → Outcome A → Type 0
Returns P panic = ⊥
Returns P (done a) = P a

pub Returns-bind {ℓ ℓ'} :
    {A : Type ℓ} {B : Type ℓ'} (P : A → Type 0) (Q : B → Type 0) (m : Outcome A) (f : A → Outcome B)
    → Returns P m
    → ((a : A) → P a → Returns Q (f a))
    → Returns Q (m >>= f)
Returns-bind P Q panic f h k = h
Returns-bind P Q (done a) f h k = k a h

pub Returns-map {ℓ} :
    {A : Type ℓ} {P Q : A → Type 0} (m : Outcome A)
    → Returns P m
    → ((a : A) → P a → Q a)
    → Returns Q m
Returns-map panic h k = h
Returns-map (done a) h k = k a h

pub Returns-deref :
    {A : Type 0} (o : Option A) (a : A) → o ≡ some a → Returns (λ x. x ≡ a) (deref o)
Returns-deref none a e = cc
Returns-deref (some x) a e = cc

-- What holds of every result holds of the result of a call that does not panic.
pub Returns-and-Holds {ℓ} :
    {A : Type ℓ} (P Q : A → Type 0) (m : Outcome A)
    → Returns P m
    → Holds Q m
    → Returns (λ a. P a × Q a) m
Returns-and-Holds P Q panic h k = h
Returns-and-Holds P Q (done a) h k = (h, k)

-- ===== src/Transaction/Condition.antt =====
-- pkg/core/transaction/witness_condition.go: the conditions of witness rules, how they match a
-- script context, and their binary form. The public key type of pkg/crypto/keys, with its own
-- binary form, is a parameter. A Uint160 is its twenty bytes.
pub mod Binary
pub mod Bounds
pub mod RoundTrip
pub mod Matching
use koala_tblockchain_golang.Shared.{
  ℕ, zero, suc, ◌+◌, List, [], ◌∷◌, Bool, true, false, not, ◌&&◌, ◌||◌, ◌==◌, if◌then◌else◌,
}
use koala_tblockchain_golang.Shared.Bytes.{equals}
use koala_tblockchain_golang.Io.Reader.{Err}

mutual
  pub data Condition (K : Type 0) : Type 0 where
    boolean : Bool → Condition K
    not_cond : Condition K → Condition K
    and_cond or_cond : Conditions K → Condition K
    script_hash : List ℕ → Condition K
    group : K → Condition K
    called_by_entry : Condition K
    called_by_contract : List ℕ → Condition K
    called_by_group : K → Condition K

  -- []WitnessCondition
  pub data Conditions (K : Type 0) : Type 0 where
    nil : Conditions K
    cons : Condition K → Conditions K → Conditions K

-- maxSubitems of signer.go
abbrev pub max_subitems : ℕ
max_subitems = 16

abbrev pub max_condition_nesting : ℕ
max_condition_nesting = 2

-- the constants of WitnessConditionType, by the method Type
unfoldable pub type_byte : {K : Type 0} → Condition K → ℕ
type_byte (boolean b) = 0x00
type_byte (not_cond c) = 0x01
type_byte (and_cond cs) = 0x02
type_byte (or_cond cs) = 0x03
type_byte (script_hash h) = 0x18
type_byte (group k) = 0x19
type_byte called_by_entry = 0x20
type_byte (called_by_contract h) = 0x28
type_byte (called_by_group k) = 0x29

abbrev pub count : {K : Type 0} → Conditions K → ℕ
count nil = 0
count (cons c cs) = suc (count cs)

-- `(bool, error)`, of which the first part is false when the second is set
pub data Result : Type 0 where
  ok : Bool → Result
  fail : Err → Result

pub record MatchContext (K : Type 0) : Type 0 where
  pub calling_script_hash : List ℕ
  pub current_script_hash : List ℕ
  pub entry_script_hash : List ℕ
  pub calling_script_has_group : K → Result
  pub current_script_has_group : K → Result

unfoldable pub negate : Result → Result
negate (ok b) = ok (not b)
negate (fail e) = fail e

-- the method Match of the conditions without parts
module _ {K : Type 0} (ctx : MatchContext K) where
  abbrev pub match_script_hash : List ℕ → Result
  match_script_hash h = ok (equals h ctx.current_script_hash)

  abbrev pub match_group : K → Result
  match_group k = ctx.current_script_has_group k

  abbrev pub match_called_by_entry : Result
  match_called_by_entry = ok (
      equals ctx.entry_script_hash ctx.calling_script_hash
      || equals ctx.entry_script_hash ctx.current_script_hash)

  abbrev pub match_called_by_contract : List ℕ → Result
  match_called_by_contract h = ok (equals h ctx.calling_script_hash)

  abbrev pub match_called_by_group : K → Result
  match_called_by_group k = ctx.calling_script_has_group k

-- the method Match of each condition; the loops of And and Or stop at the first condition that
-- decides, or fails
unfoldable mutual
  pub match_cond : {K : Type 0} → MatchContext K → Condition K → Result
  match_cond ctx (boolean b) = ok b
  match_cond ctx (not_cond c) = negate (match_cond ctx c)
  match_cond ctx (and_cond cs) = match_all ctx cs
  match_cond ctx (or_cond cs) = match_any ctx cs
  match_cond ctx (script_hash h) = match_script_hash ctx h
  match_cond ctx (group k) = match_group ctx k
  match_cond ctx called_by_entry = match_called_by_entry ctx
  match_cond ctx (called_by_contract h) = match_called_by_contract ctx h
  match_cond ctx (called_by_group k) = match_called_by_group ctx k

  pub match_all : {K : Type 0} → MatchContext K → Conditions K → Result
  match_all ctx nil = ok true
  match_all ctx (cons c cs) = elim (match_cond ctx c) [
    | fail e ↦ fail e
    | ok res ↦ elim res [ false ↦ ok false | true ↦ match_all ctx cs ]
  ]

  pub match_any : {K : Type 0} → MatchContext K → Conditions K → Result
  match_any ctx nil = ok false
  match_any ctx (cons c cs) = elim (match_cond ctx c) [
    | fail e ↦ fail e
    | ok res ↦ elim res [ true ↦ ok true | false ↦ match_any ctx cs ]
  ]

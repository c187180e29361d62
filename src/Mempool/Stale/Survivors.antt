-- ===== src/Mempool/Stale/Survivors.antt =====
-- RemoveStale against an independent account of which items stay: those that pass the caller's test
-- and the policy, and whose payer can pay for them and for all items that stay before them.
use koala_tblockchain_golang.Shared.{
  ℕ, ◌+◌, ◌≡◌, refl, sym, ap, ◌∙◌, arith, Bool, false, true, not, ◌&&◌, ◌||◌, ltb, leb,
  if◌then◌else◌, List, [], ◌∷◌, ◌++◌, Option, none, some, inl, inr, ◌==◌, Bool-cases, Option-cases,
  get_elem?, All, subst,
}
use koala_tblockchain_golang.Shared.Mapping.{Mapping, put, delete}
use koala_tblockchain_golang.Shared.Int.{pos, ltb_ℤ}
use koala_tblockchain_golang.Mempool.Tx.{Transaction, Item, fee_per_byte}
use koala_tblockchain_golang.Mempool.Pool.{
  Err, insufficient_funds, conflict, done, Pool, Feer, BalanceAndFees, Returns, Returns-bind,
}
use koala_tblockchain_golang.Mempool.Fees.{
  refused, accepted, check_balance, sender_fee, with_fee, try_add_senders_fee, fee_of,
}
use koala_tblockchain_golang.Mempool.Tally.{paid, tally, amount, tally-append, pos+ℤ_lem}
use koala_tblockchain_golang.Mempool.Removal.Invariants.{drop_oracle_resp_frame}
use koala_tblockchain_golang.Mempool.Addition.Safety.{add_conflicts_if_fields}
use koala_tblockchain_golang.Mempool.Stale.{
  Sweep, keep_item, drop_item, sweep_item, sweep_all, remove_stale, check_policy, load_policy,
}
use koala_tblockchain_golang.Mempool.Stale.Kept.{HasSigned}

check_balance-accepted :
    (t : Transaction) (fee : BalanceAndFees) (m : ℕ)
    → fee.fee_sum ≡ pos m
    → ltb_ℤ fee.balance (pos (m + amount t)) ≡ false
    → check_balance t fee ≡ accepted (pos (m + amount t))
unfolding check_balance
check_balance-accepted t fee m e h = rw (e, pos+ℤ_lem m (amount t), h) (ground (arith, h))

check_balance-refused :
    (t : Transaction) (fee : BalanceAndFees) (m : ℕ)
    → fee.fee_sum ≡ pos m
    → ltb_ℤ fee.balance (pos (m + amount t)) ≡ true
    → (err : Err) × (check_balance t fee ≡ refused err)
unfolding check_balance
check_balance-refused t fee m e h = elim (Bool-cases (ltb_ℤ fee.balance (fee_of t))) [
  | inl y ↦ (insufficient_funds, rw y refl)
  | inr n ↦ (conflict, rw (n, e, pos+ℤ_lem m (amount t), h) refl)
]

module _ (is_ok : Transaction → Bool) (feer : Feer) (raised : Bool) (k : ℕ) where
  -- the account has what the items that stay and the transaction cost it
  abbrev covers : List Item → Transaction → Option ℕ → Bool
  covers kept t none = false
  covers kept t (some a) =
      not (ltb_ℤ (feer.get_utility_token_balance a) (pos (tally k a kept + amount t)))

  -- the caller's test, and the policy if it has got stricter
  abbrev passes : Transaction → Bool
  passes t = is_ok t && (not raised || leb feer.feer_fee_per_byte (fee_per_byte t))

  abbrev stays : List Item → Transaction → Bool
  stays kept t = passes t && covers kept t (get_elem? t.signers k)

  -- the items that stay, after those that are known to
  unfoldable pub survivors : List Item → List Item → List Item
  survivors kept [] = kept
  survivors kept (x ∷ xs) = survivors (if stays kept x.txn then kept ++ x ∷ [] else kept) xs

  -- the entry of an account for the items that stay
  abbrev pub HasSum : ℕ → ℕ → Option BalanceAndFees → Type 0
  HasSum m a none = m ≡ 0
  HasSum m a (some e) = (e.balance ≡ feer.get_utility_token_balance a) × (e.fee_sum ≡ pos m)

  abbrev pub IsRight : List Item → ℕ → Option BalanceAndFees → Type 0
  IsRight kept a o = HasSum (tally k a kept) a o

  sender_fee-IsRight :
      (mp : Pool) (kept : List Item) (a : ℕ)
      → IsRight kept a (mp.fees a)
      → IsRight kept a (some (sender_fee mp feer a))
  unfolding sender_fee
  sender_fee-IsRight mp kept a h = elim (Option-cases (mp.fees a)) [
    | inl e ↦ rw (e, sender_fee) (refl, ap pos (sym (rw e at h)))
    | inr (fee, e) ↦ rw (e, sender_fee) (rw e at h)
  ]

  put-IsRight :
      (kept kept' : List Item) (fees : Mapping BalanceAndFees) (a : ℕ) (e : BalanceAndFees)
      → ((b : ℕ) → IsRight kept b (fees b))
      → IsRight kept' a (some e)
      → ((b : ℕ) → (a == b) ≡ false → tally k b kept' ≡ tally k b kept)
      → (b : ℕ) → IsRight kept' b (put fees a e b)
  put-IsRight kept kept' fees a e all this others b = elim (Bool-cases (a == b)) [
    | inl eq ↦
        let same : a ≡ b = ground arith in rw eq (subst (λ c. IsRight kept' c (some e)) same this)
    | inr ne ↦ rw ne (subst (λ m. HasSum m b (fees b)) (sym (others b ne)) (all b))
  ]

  -- the variables of the loop when so many items stay
  record IsRebuilt (kept : List Item) (s : Sweep) : Type 0 where
    right : (a : ℕ) → IsRight kept a (s.pool.fees a)
    items : s.kept ≡ kept
    index : s.pool.payer_index ≡ k
    policy : raised ≡ true → s.pool.pool_fee_per_byte ≡ feer.feer_fee_per_byte

  passes_lem :
      (kept : List Item) (s : Sweep) (t : Transaction)
      → IsRebuilt kept s
      → (is_ok t && check_policy s.pool t raised) ≡ passes t
  unfolding check_policy
  passes_lem kept s t h = elim (Bool-cases raised) [
    | inl y ↦ rw (y, h.policy y) refl
    | inr n ↦ rw n refl
  ]

  drop_item-IsRebuilt :
      (kept : List Item) (itm : Item) (s : Sweep)
      → IsRebuilt kept s
      → IsRebuilt kept (drop_item itm s)
  drop_item-IsRebuilt kept itm s h =
      let e =
        drop_oracle_resp_frame itm.txn
          (record (s.pool) { verified_map = delete s.pool.verified_map itm.txn.hash }) in
      record {
        right = λ a. subst (IsRight kept a) (sym (ap (λ (p : Pool). p.fees a) e)) (h.right a);
        items = h.items;
        index = ap (λ (p : Pool). p.payer_index) e ∙ h.index;
        policy = λ y. ap (λ (p : Pool). p.pool_fee_per_byte) e ∙ h.policy y;
      }

  keep_item-IsRebuilt :
      (kept : List Item) (itm : Item) (s : Sweep)
      → IsRebuilt (kept ++ itm ∷ []) (record s { kept = s.kept ++ itm ∷ [] })
      → IsRebuilt (kept ++ itm ∷ []) (keep_item feer itm s)
  keep_item-IsRebuilt kept itm s h =
      let e = add_conflicts_if_fields feer.p2p_sig_extensions_enabled itm.txn s.pool in
      record {
        right = λ a.
            subst (IsRight (kept ++ itm ∷ []) a) (sym (ap (λ (p : Pool). p.fees a) e)) (h.right a);
        items = h.items;
        index = ap (λ (p : Pool). p.payer_index) e ∙ h.index;
        policy = λ y. ap (λ (p : Pool). p.pool_fee_per_byte) e ∙ h.policy y;
      }

  -- the next item, which account a pays for
  module _ (kept : List Item) (itm : Item) (s : Sweep) (a : ℕ)
      (signs : get_elem? itm.txn.signers k ≡ some a) (h : IsRebuilt kept s) where
    abbrev entry : BalanceAndFees
    entry = sender_fee s.pool feer a

    entry-IsRight : IsRight kept a (some entry)
    entry-IsRight = sender_fee-IsRight s.pool kept a (h.right a)

    payer : get_elem? itm.txn.signers s.pool.payer_index ≡ some a
    payer = rw h.index signs

    abbrev total : ℕ
    total = tally k a kept + amount itm.txn

    added :
        ltb_ℤ (feer.get_utility_token_balance a) (pos total) ≡ false
        → try_add_senders_fee itm.txn feer true s.pool
          ≡ done (with_fee s.pool a (record entry { fee_sum = pos total }), true)
    unfolding try_add_senders_fee
    added enough =
        rw
          (
            payer,
            check_balance-accepted itm.txn entry (tally k a kept) entry-IsRight.1
                (rw (entry-IsRight.0) enough),
          )
          refl

    not_added :
        ltb_ℤ (feer.get_utility_token_balance a) (pos total) ≡ true
        → try_add_senders_fee itm.txn feer true s.pool ≡ done (with_fee s.pool a entry, false)
    unfolding try_add_senders_fee
    not_added short =
        let (err, e) =
          check_balance-refused itm.txn entry (tally k a kept) entry-IsRight.1
            (rw (entry-IsRight.0) short) in
        rw (payer, e) refl

    kept_entry-IsRebuilt : IsRebuilt kept (record s { pool = with_fee s.pool a entry })
    kept_entry-IsRebuilt = record {
      right = put-IsRight kept kept s.pool.fees a entry h.right entry-IsRight (λ b ne. refl);
      items = h.items;
      index = h.index;
      policy = h.policy;
    }

    tally_others : (b : ℕ) → (a == b) ≡ false → tally k b (kept ++ itm ∷ []) ≡ tally k b kept
    tally_others b ne =
        let nothing : paid k b itm.txn ≡ 0 = rw (signs, ne) refl in
        omega (arith, nothing, tally-append k b kept (itm ∷ []))

    tally_payer : tally k a (kept ++ itm ∷ []) ≡ total
    tally_payer =
        let all : paid k a itm.txn ≡ amount itm.txn = rw signs (ground arith) in
        omega (arith, all, tally-append k a kept (itm ∷ []))

    new_entry-IsRebuilt : IsRebuilt (kept ++ itm ∷ []) (record s {
      pool = with_fee s.pool a (record entry { fee_sum = pos total });
      kept = s.kept ++ itm ∷ [];
    })
    new_entry-IsRebuilt = record {
      right =
          put-IsRight kept (kept ++ itm ∷ []) s.pool.fees a (record entry { fee_sum = pos total })
            h.right (entry-IsRight.0, ap pos (sym tally_payer)) tally_others;
      items = ap (λ xs. xs ++ itm ∷ []) h.items;
      index = h.index;
      policy = h.policy;
    }

  abbrev next : List Item → Item → List Item
  next kept itm = if stays kept itm.txn then kept ++ itm ∷ [] else kept

  -- an item that passes, as its payer's balance covers it or not
  paying_item-IsRebuilt :
      (kept : List Item) (itm : Item) (s : Sweep) (a : ℕ)
      → get_elem? itm.txn.signers k ≡ some a
      → passes itm.txn ≡ true
      → IsRebuilt kept s
      → Returns (IsRebuilt (next kept itm)) (sweep_item is_ok raised feer itm s)
  unfolding sweep_item
  paying_item-IsRebuilt kept itm s a signs p h =
      let gate : (is_ok itm.txn && check_policy s.pool itm.txn raised) ≡ true =
        passes_lem kept s itm.txn h ∙ p in
      elim (Bool-cases
        (ltb_ℤ (feer.get_utility_token_balance a) (pos (total kept itm s a signs h)))) [
          | inl short ↦
              rw (p, signs, short, gate, not_added kept itm s a signs h short)
                (drop_item-IsRebuilt kept itm _ (kept_entry-IsRebuilt kept itm s a signs h))
          | inr enough ↦
              rw (p, signs, enough, gate, added kept itm s a signs h enough)
                (keep_item-IsRebuilt kept itm _ (new_entry-IsRebuilt kept itm s a signs h))
        ]

  sweep_item-IsRebuilt :
      (kept : List Item) (itm : Item) (s : Sweep)
      → HasSigned k itm
      → IsRebuilt kept s
      → Returns (IsRebuilt (next kept itm)) (sweep_item is_ok raised feer itm s)
  unfolding sweep_item
  sweep_item-IsRebuilt kept itm s (a, signs) h = elim (Bool-cases (passes itm.txn)) [
    | inl p ↦ paying_item-IsRebuilt kept itm s a signs p h
    | inr p ↦
        let gate : (is_ok itm.txn && check_policy s.pool itm.txn raised) ≡ false =
          passes_lem kept s itm.txn h ∙ p in
        rw (p, gate) (drop_item-IsRebuilt kept itm s h)
  ]

  sweep_all-IsRebuilt :
      (kept itms : List Item) (s : Sweep)
      → All (HasSigned k) itms
      → IsRebuilt kept s
      → Returns (IsRebuilt (survivors kept itms)) (sweep_all is_ok raised feer itms s)
  unfolding sweep_all survivors
  sweep_all-IsRebuilt kept [] s signed h = h
  sweep_all-IsRebuilt kept (itm ∷ itms) s signed h =
      Returns-bind (IsRebuilt (next kept itm)) (IsRebuilt (survivors (next kept itm) itms))
        (sweep_item is_ok raised feer itm s) _ (sweep_item-IsRebuilt kept itm s signed.0 h)
        λ s' h'. sweep_all-IsRebuilt (next kept itm) itms s' signed.1 h'

-- the policy has got stricter
abbrev pub is_raised : Feer → Pool → Bool
is_raised feer mp = ltb mp.pool_fee_per_byte feer.feer_fee_per_byte

load_policy_lem :
    (feer : Feer) (mp : Pool)
    → ((load_policy feer mp).1 ≡ is_raised feer mp)
      × ((load_policy feer mp).0.payer_index ≡ mp.payer_index)
      × (is_raised feer mp ≡ true
          → (load_policy feer mp).0.pool_fee_per_byte ≡ feer.feer_fee_per_byte)
unfolding load_policy
load_policy_lem feer mp = (ground arith, ground arith, λ h. rw h refl)

-- what RemoveStale leaves: the items that stay, and the fees of their payers
abbrev pub IsSurviving : (Transaction → Bool) → Feer → Pool → Pool × List Item → Type 0
IsSurviving is_ok feer mp r =
    let left = survivors is_ok feer (is_raised feer mp) mp.payer_index [] mp.verified_txes in
    (r.0.verified_txes ≡ left)
    × ((a : ℕ) → IsRight is_ok feer (is_raised feer mp) mp.payer_index left a (r.0.fees a))

-- On a pool of which every transaction has a payer, RemoveStale does not panic. It leaves the items
-- that pass the caller's test, have the fee per byte of the policy if that has got higher, and whose
-- payer's balance covers them and all of his items that stay before them, in the order they had;
-- and the fees of every account are its balance and the sum of what it pays for these items, where
-- an account without an entry pays for none.
pub remove_stale-IsSurviving :
    (is_ok : Transaction → Bool) (feer : Feer) (mp : Pool)
    → All (HasSigned mp.payer_index) mp.verified_txes
    → Returns (IsSurviving is_ok feer mp) (remove_stale is_ok feer mp)
unfolding remove_stale
remove_stale-IsSurviving is_ok feer mp signed =
    let (same, index, policy) = load_policy_lem feer mp in
    let raised = is_raised feer mp in
    let left = survivors is_ok feer raised mp.payer_index [] mp.verified_txes in
    rw same (
      Returns-bind (IsRebuilt is_ok feer raised mp.payer_index left) (IsSurviving is_ok feer mp)
        (sweep_all is_ok raised feer mp.verified_txes _) _
        (sweep_all-IsRebuilt is_ok feer raised mp.payer_index [] mp.verified_txes _ signed
          (record { right = λ a. refl; items = refl; index = index; policy = policy }))
        λ s h. (h.items, h.right))

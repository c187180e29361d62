-- ===== src/Mempool/Stale/Kept.antt =====
-- RemoveStale keeps the order and the capacity of the pool.
use koala_tblockchain_golang.Shared.{
  ℕ, ◌≤◌, ◌≡◌, refl, sym, ◌∙◌, ap, Bool, true, false, ◌&&◌, List, [], ◌∷◌, ◌++◌, append_assoc,
  append-nil, some, length, length-append, get_elem?, All, subst, arith, if-elim,
}
use koala_tblockchain_golang.Mempool.Tx.{Transaction, Item}
use koala_tblockchain_golang.Mempool.Pool.{done, Pool, Feer, Returns, Returns-bind}
use koala_tblockchain_golang.Shared.Int.{ℤ}
use koala_tblockchain_golang.Shared.Mapping.{delete}
use koala_tblockchain_golang.Mempool.Order.{above, Sorted}
use koala_tblockchain_golang.Mempool.Fees.{
  Checked, refused, accepted, try_add_senders_fee, check_balance, sender_fee, with_fee,
}
use koala_tblockchain_golang.Mempool.Removal.Invariants.{IsOrdered, drop_oracle_resp_frame}
use koala_tblockchain_golang.Mempool.Addition.Safety.{add_conflicts_if_fields}
use koala_tblockchain_golang.Mempool.Stale.{
  Sweep, keep_item, drop_item, sweep_item, sweep_all, remove_stale, check_policy, load_policy,
}

All-without :
    (P : Item → Type 0) (xs : List Item) (y : Item) (ys : List Item)
    → All P (xs ++ y ∷ ys)
    → All P (xs ++ ys)
All-without P [] y ys h = h.1
All-without P (x ∷ xs) y ys h = (h.0, All-without P xs y ys h.1)

Sorted-without :
    (xs : List Item) (y : Item) (ys : List Item) → Sorted (xs ++ y ∷ ys) → Sorted (xs ++ ys)
Sorted-without [] y ys h = h.1
Sorted-without (x ∷ xs) y ys h =
    (All-without (λ z. above z x ≡ false) xs y ys h.0, Sorted-without xs y ys h.1)

-- the transaction has a payer at the pool's index
abbrev pub HasSigned : ℕ → Item → Type 0
HasSigned payer_index itm = (payer : ℕ) × (get_elem? itm.txn.signers payer_index ≡ some payer)

-- In the sweep of a pool, what is kept and what is to come are in order and within the capacity.
record IsSwept (payer_index capacity : ℕ) (rest : List Item) (s : Sweep) : Type 0 where
  sorted : Sorted (s.kept ++ rest)
  fits : length (s.kept ++ rest) ≤ capacity
  index_same : s.pool.payer_index ≡ payer_index
  capacity_same : s.pool.capacity ≡ capacity

try_add_senders_fee-same :
    (t : Transaction) (fee : Feer) (mp : Pool) (payer : ℕ)
    → get_elem? t.signers mp.payer_index ≡ some payer
    → Returns
        (λ (r : Pool × Bool). (r.0.payer_index ≡ mp.payer_index) × (r.0.capacity ≡ mp.capacity))
        (try_add_senders_fee t fee true mp)
unfolding try_add_senders_fee
try_add_senders_fee-same t fee mp payer e = rw e (go (check_balance t (sender_fee mp fee payer)))
  where
    go :
        (c : Checked ℤ)
        → Returns
            (λ (r : Pool × Bool). (r.0.payer_index ≡ mp.payer_index) × (r.0.capacity ≡ mp.capacity))
            (elim c [
              | refused err ↦ done (with_fee mp payer (sender_fee mp fee payer), false)
              | accepted new_fee_sum ↦ done (
                with_fee mp payer (record (sender_fee mp fee payer) { fee_sum = new_fee_sum }),
                true,
              )
            ])
    go (refused err) = (refl, refl)
    go (accepted new_fee_sum) = (refl, refl)

drop_item-IsSwept :
    (k c : ℕ) (itm : Item) (rest : List Item) (s : Sweep)
    → IsSwept k c (itm ∷ rest) s
    → IsSwept k c rest (drop_item itm s)
drop_item-IsSwept k c itm rest s h =
    let e =
      drop_oracle_resp_frame itm.txn
        (record (s.pool) { verified_map = delete s.pool.verified_map itm.txn.hash }) in
    record {
      sorted = Sorted-without s.kept itm rest h.sorted;
      fits = omega (arith, length-append s.kept rest, length-append s.kept (itm ∷ rest), h.fits);
      index_same = ap (λ (p : Pool). p.payer_index) e ∙ h.index_same;
      capacity_same = ap (λ (p : Pool). p.capacity) e ∙ h.capacity_same;
    }

keep_item-IsSwept :
    (k c : ℕ) (feer : Feer) (itm : Item) (rest : List Item) (s : Sweep)
    → IsSwept k c (itm ∷ rest) s
    → IsSwept k c rest (keep_item feer itm s)
keep_item-IsSwept k c feer itm rest s h =
    let e = add_conflicts_if_fields feer.p2p_sig_extensions_enabled itm.txn s.pool in
    let same = sym (append_assoc s.kept (itm ∷ []) rest) in
    record {
      sorted = subst Sorted same h.sorted;
      fits = subst (λ xs. length xs ≤ c) same h.fits;
      index_same = ap (λ (p : Pool). p.payer_index) e ∙ h.index_same;
      capacity_same = ap (λ (p : Pool). p.capacity) e ∙ h.capacity_same;
    }

sweep_item-IsSwept :
    (is_ok : Transaction → Bool) (changed : Bool) (k c : ℕ) (feer : Feer) (itm : Item)
    (rest : List Item) (s : Sweep)
    → HasSigned k itm
    → IsSwept k c (itm ∷ rest) s
    → Returns (IsSwept k c rest) (sweep_item is_ok changed feer itm s)
unfolding sweep_item
sweep_item-IsSwept is_ok changed k c feer itm rest s signed h =
    if-elim (Returns (IsSwept k c rest)) (is_ok itm.txn && check_policy s.pool itm.txn changed)
      (Returns-bind
        (λ (r : Pool × Bool).
          (r.0.payer_index ≡ s.pool.payer_index) × (r.0.capacity ≡ s.pool.capacity))
        (IsSwept k c rest) (try_add_senders_fee itm.txn feer true s.pool) _
        (try_add_senders_fee-same itm.txn feer s.pool signed.0 (rw h.index_same signed.1))
        λ p same.
          let swept : IsSwept k c (itm ∷ rest) (record s { pool = p.0 }) = record {
            sorted = h.sorted;
            fits = h.fits;
            index_same = same.0 ∙ h.index_same;
            capacity_same = same.1 ∙ h.capacity_same;
          } in
          if-elim (IsSwept k c rest) p.1 (keep_item-IsSwept k c feer itm rest _ swept)
            (drop_item-IsSwept k c itm rest _ swept))
      (drop_item-IsSwept k c itm rest s h)

sweep_all-IsSwept :
    (is_ok : Transaction → Bool) (changed : Bool) (k c : ℕ) (feer : Feer) (itms : List Item)
    (s : Sweep)
    → All (HasSigned k) itms
    → IsSwept k c itms s
    → Returns (IsSwept k c []) (sweep_all is_ok changed feer itms s)
unfolding sweep_all
sweep_all-IsSwept is_ok changed k c feer [] s signed h = h
sweep_all-IsSwept is_ok changed k c feer (itm ∷ itms) s signed h =
    Returns-bind (IsSwept k c itms) (IsSwept k c []) (sweep_item is_ok changed feer itm s) _
      (sweep_item-IsSwept is_ok changed k c feer itm itms s signed.0 h)
      λ s' h'. sweep_all-IsSwept is_ok changed k c feer itms s' signed.1 h'

load_policy-same :
    (feer : Feer) (mp : Pool)
    → ((load_policy feer mp).0.payer_index ≡ mp.payer_index)
      × ((load_policy feer mp).0.capacity ≡ mp.capacity)
unfolding load_policy
load_policy-same feer mp = (ground arith, ground arith)

-- On a pool in order, of which every transaction has a payer, RemoveStale does not panic, and the
-- pool it leaves is in the order of priority, within its capacity, and has the same capacity and
-- index of the payer, whichever transactions the caller's test and the balances let stay.
pub remove_stale-IsOrdered :
    (is_ok : Transaction → Bool) (feer : Feer) (mp : Pool)
    → IsOrdered mp
    → All (HasSigned mp.payer_index) mp.verified_txes
    → Returns
        (λ (r : Pool × List Item).
          IsOrdered r.0 × (r.0.capacity ≡ mp.capacity) × (r.0.payer_index ≡ mp.payer_index))
        (remove_stale is_ok feer mp)
unfolding remove_stale
remove_stale-IsOrdered is_ok feer mp o signed =
    Returns-bind (IsSwept mp.payer_index mp.capacity [])
      (λ (r : Pool × List Item).
        IsOrdered r.0 × (r.0.capacity ≡ mp.capacity) × (r.0.payer_index ≡ mp.payer_index))
      (sweep_all is_ok (load_policy feer mp).1 feer mp.verified_txes _) _
      (sweep_all-IsSwept is_ok (load_policy feer mp).1 mp.payer_index mp.capacity feer
        mp.verified_txes _ signed
        (record {
          sorted = o.0;
          fits = o.1;
          index_same = (load_policy-same feer mp).0;
          capacity_same = (load_policy-same feer mp).1;
        }))
      λ s h. (
        (rw append-nil at h.sorted, rw (append-nil, sym h.capacity_same) at h.fits),
        h.capacity_same,
        h.index_same,
      )

-- ===== src/Mempool/Removal/Invariants.antt =====
-- What a removal leaves as it was: the order and the capacity of the pool, and nothing new in its map.
use koala_tblockchain_golang.Shared.{
  ℕ, zero, suc, ◌≤◌, ◌≡◌, refl, ◌∙◌, Bool, true, false, arith, List, [], ◌∷◌, Option, none, some,
  length, ap, get_elem?, ◌==◌, inl, inr, Bool-cases,
}
use koala_tblockchain_golang.Mempool.Tx.{Transaction, Item, oracle_ids, conflict_hashes}
use koala_tblockchain_golang.Mempool.Pool.{
  Pool, Feer, Holds, Holds-bind, Holds-any, Holds-map, deref, payer_of,
}
use koala_tblockchain_golang.Shared.Mapping.{Mapping, put, delete}
use koala_tblockchain_golang.Shared.Int.{◌-ℤ◌}
use koala_tblockchain_golang.Mempool.Fees.{fee_of}
use koala_tblockchain_golang.Mempool.Order.{Sorted, Sorted-remove_at}
use koala_tblockchain_golang.Mempool.Removal.{
  remove_conflict, remove_conflicts, remove_conflicts_of, remove_conflicts_if, drop_oracle_resp,
  remove_at, find_index, finish_removal, remove_found, remove_internal,
}

-- the items are in the order of priority, and no more than the capacity
abbrev pub IsOrdered : Pool → Type 0
IsOrdered mp = Sorted mp.verified_txes × (length mp.verified_txes ≤ mp.capacity)

remove_conflicts_frame :
    (tx : Transaction) (hashes : List ℕ) (mp : Pool)
    → remove_conflicts tx hashes mp
      ≡ record mp { conflicts = (remove_conflicts tx hashes mp).conflicts }
unfolding remove_conflicts
remove_conflicts_frame tx [] mp = refl
remove_conflicts_frame tx (h ∷ hs) mp =
    ground (arith, remove_conflicts_frame tx hs (remove_conflict tx h mp))

pub remove_conflicts_if_frame :
    (b : Bool) (tx : Transaction) (mp : Pool)
    → remove_conflicts_if b tx mp
      ≡ record mp { conflicts = (remove_conflicts_if b tx mp).conflicts }
unfolding remove_conflicts_of
remove_conflicts_if_frame true tx mp = remove_conflicts_frame tx (conflict_hashes tx.attributes) mp
remove_conflicts_if_frame false tx mp = refl

pub drop_oracle_resp_frame :
    (tx : Transaction) (mp : Pool)
    → drop_oracle_resp tx mp ≡ record mp { oracle_resp = (drop_oracle_resp tx mp).oracle_resp }
drop_oracle_resp_frame tx mp = go (oracle_ids tx.attributes) refl
  where
    go :
        (ids : List ℕ)
        → oracle_ids tx.attributes ≡ ids
        → drop_oracle_resp tx mp ≡ record mp { oracle_resp = (drop_oracle_resp tx mp).oracle_resp }
    go [] e = rw (e, drop_oracle_resp)
    go (id ∷ ids) e = rw (e, drop_oracle_resp)

pub clean_up_frame :
    (b : Bool) (tx : Transaction) (mp : Pool)
    → drop_oracle_resp tx (remove_conflicts_if b tx mp) ≡ record mp {
      conflicts = (remove_conflicts_if b tx mp).conflicts;
      oracle_resp = (drop_oracle_resp tx (remove_conflicts_if b tx mp)).oracle_resp;
    }
clean_up_frame b tx mp =
    let o = (drop_oracle_resp tx (remove_conflicts_if b tx mp)).oracle_resp in
    drop_oracle_resp_frame tx (remove_conflicts_if b tx mp)
    ∙ ap (λ (p : Pool). record p { oracle_resp = o }) (remove_conflicts_if_frame b tx mp)

-- the pool that finish_removal leaves, but for the fees, two maps and the events
pub finish_removal_frame :
    (tx : Transaction) (itm : Item) (feer : Feer) (mp : Pool)
    → Holds
        (λ mp'.
          (mp'.verified_txes ≡ mp.verified_txes)
          × (mp'.capacity ≡ mp.capacity)
          × (mp'.verified_map ≡ mp.verified_map))
        (finish_removal tx itm feer mp)
finish_removal_frame tx itm feer mp =
    Holds-bind (λ a. Unit) Same (payer_of mp itm.txn) _ (Holds-any (payer_of mp itm.txn))
      λ payer _.
        Holds-bind (λ a. Unit) Same (deref (mp.fees payer)) _ (Holds-any (deref (mp.fees payer)))
          λ fee _.
            let e = clean_up_frame feer.p2p_sig_extensions_enabled tx (record mp {
              fees = put mp.fees payer (record fee { fee_sum = fee.fee_sum -ℤ fee_of tx });
            }) in
            (
              ap (λ (p : Pool). p.verified_txes) e,
              ap (λ (p : Pool). p.capacity) e,
              ap (λ (p : Pool). p.verified_map) e,
            )
  where
    Same : Pool → Type 0
    Same mp' =
        (mp'.verified_txes ≡ mp.verified_txes)
        × (mp'.capacity ≡ mp.capacity)
        × (mp'.verified_map ≡ mp.verified_map)

length-remove_at : (n : ℕ) (xs : List Item) → length (remove_at n xs) ≤ length xs
length-remove_at zero [] = omega arith
length-remove_at zero (x ∷ xs) = omega arith
length-remove_at (suc n) [] = omega arith
length-remove_at (suc n) (x ∷ xs) = omega (arith, length-remove_at n xs)

remove_found-IsOrdered :
    (hash : ℕ) (feer : Feer) (mp : Pool) (found : Option Transaction)
    → IsOrdered mp
    → Holds (λ mp'. IsOrdered mp' × (mp'.capacity ≡ mp.capacity)) (remove_found hash feer mp found)
unfolding remove_found
remove_found-IsOrdered hash feer mp none h = (h, refl)
remove_found-IsOrdered hash feer mp (some tx) h =
    let num = find_index hash mp.verified_txes in
    Holds-bind (λ a. Unit) Kept (deref (get_elem? mp.verified_txes num)) _
      (Holds-any (deref (get_elem? mp.verified_txes num)))
      λ itm _.
        Holds-map (finish_removal tx itm feer _) (finish_removal_frame tx itm feer _) λ mp' same. (
          (
            rw same.0 (Sorted-remove_at num mp.verified_txes h.0),
            rw (same.0, same.1) (omega (arith, length-remove_at num mp.verified_txes)),
          ),
          same.1,
        )
  where
    Kept : Pool → Type 0
    Kept mp' = IsOrdered mp' × (mp'.capacity ≡ mp.capacity)

-- A removal keeps the order, and never makes the pool larger.
pub remove_internal-IsOrdered :
    (hash : ℕ) (feer : Feer) (mp : Pool)
    → IsOrdered mp
    → Holds (λ mp'. IsOrdered mp' × (mp'.capacity ≡ mp.capacity)) (remove_internal hash feer mp)
unfolding remove_internal
remove_internal-IsOrdered hash feer mp h =
    remove_found-IsOrdered hash feer mp (mp.verified_map hash) h

-- every entry of the second map is in the first
abbrev pub ShrinksTo : Mapping Transaction → Mapping Transaction → Type 0
ShrinksTo m m' = (h : ℕ) (x : Transaction) → m' h ≡ some x → m h ≡ some x

abbrev pub Shrinks : Pool → Pool → Type 0
Shrinks mp mp' = ShrinksTo mp.verified_map mp'.verified_map

pub ShrinksTo-delete : (m : Mapping Transaction) (hash : ℕ) → ShrinksTo m (delete m hash)
ShrinksTo-delete m hash h x e = elim (Bool-cases (hash == h)) [
  | inl eq ↦ absurd (cc (rw eq at e))
  | inr ne ↦ rw ne at e
]

remove_found-Shrinks :
    (hash : ℕ) (feer : Feer) (mp : Pool) (found : Option Transaction)
    → Holds (Shrinks mp) (remove_found hash feer mp found)
unfolding remove_found
remove_found-Shrinks hash feer mp none = λ h x e. e
remove_found-Shrinks hash feer mp (some tx) =
    let num = find_index hash mp.verified_txes in
    Holds-bind (λ a. Unit) (Shrinks mp) (deref (get_elem? mp.verified_txes num)) _
      (Holds-any (deref (get_elem? mp.verified_txes num)))
      λ itm _.
        Holds-map (finish_removal tx itm feer _) (finish_removal_frame tx itm feer _)
          λ mp' same h x e. ShrinksTo-delete mp.verified_map hash h x (rw same.2 at e)

pub remove_internal-Shrinks :
    (hash : ℕ) (feer : Feer) (mp : Pool) → Holds (Shrinks mp) (remove_internal hash feer mp)
unfolding remove_internal
remove_internal-Shrinks hash feer mp = remove_found-Shrinks hash feer mp (mp.verified_map hash)

-- ===== src/Mempool/Addition/Ordered.antt =====
-- Add keeps the pool in the order of priority and within its capacity, on each of its branches.
use koala_tblockchain_golang.Shared.{
  ℕ, zero, suc, ◌≡◌, refl, ◌∙◌, Bool, true, false, List, [], ◌∷◌, Option, none, some, length, ap,
  take, drop, ◌++◌, leb, if-elim,
}
use koala_tblockchain_golang.Shared.Mapping.{put}
use koala_tblockchain_golang.Mempool.Tx.{Transaction, Item, oracle_ids, conflict_hashes}
use koala_tblockchain_golang.Mempool.Pool.{
  Err, Pool, Feer, Holds, Holds-bind, Holds-any, Holds-map, deref, payer_of, contains_key,
}
use koala_tblockchain_golang.Mempool.Order.{Sorted-insert}
use koala_tblockchain_golang.Mempool.Search.{insert_position}
use koala_tblockchain_golang.Mempool.Fees.{
  Checked, refused, accepted, try_add_senders_fee, check_tx_conflicts,
}
use koala_tblockchain_golang.Mempool.Removal.{remove_internal}
use koala_tblockchain_golang.Mempool.Removal.Invariants.{IsOrdered, remove_internal-IsOrdered}
use koala_tblockchain_golang.Mempool.Addition.{
  add_conflicts, add_conflicts_if, replace_entry, replace_first, replace_oracle_resp, remove_all,
  remove_all_if, place, make_room, insert_item, insert_or_oom, add_item, add_unless, add_checked,
  add,
}
use koala_tblockchain_golang.Mempool.Addition.Room.{
  HasRoom, OnAccepted, place_lem, make_room-HasRoom,
}

add_conflicts_frame :
    (t : ℕ) (hashes : List ℕ) (mp : Pool)
    → ((add_conflicts t hashes mp).verified_txes ≡ mp.verified_txes)
      × ((add_conflicts t hashes mp).capacity ≡ mp.capacity)
unfolding add_conflicts
add_conflicts_frame t [] mp = (refl, refl)
add_conflicts_frame t (h ∷ hs) mp = add_conflicts_frame t hs _

add_conflicts_if_frame :
    (b : Bool) (t : Transaction) (mp : Pool)
    → ((add_conflicts_if b t mp).verified_txes ≡ mp.verified_txes)
      × ((add_conflicts_if b t mp).capacity ≡ mp.capacity)
add_conflicts_if_frame true t mp = add_conflicts_frame t.hash (conflict_hashes t.attributes) mp
add_conflicts_if_frame false t mp = (refl, refl)

-- an unchecked addition of fees
try_add_senders_fee_frame :
    (t : Transaction) (fee : Feer) (mp : Pool)
    → Holds
        (λ r. (r.0.verified_txes ≡ mp.verified_txes) × (r.0.capacity ≡ mp.capacity))
        (try_add_senders_fee t fee false mp)
unfolding try_add_senders_fee
try_add_senders_fee_frame t fee mp =
    Holds-bind (λ a. Unit)
      (λ (r : Pool × Bool). (r.0.verified_txes ≡ mp.verified_txes) × (r.0.capacity ≡ mp.capacity))
      (payer_of mp t) _ (Holds-any (payer_of mp t)) λ payer _. (refl, refl)

-- the pool after Add, with or without an error
abbrev Ordered : ℕ → Pool × Option Err → Type 0
Ordered capacity r = IsOrdered r.0 × (r.0.capacity ≡ capacity)

length-around :
    (n : ℕ) (p : Item) (xs : List Item) → length (take n xs ++ p ∷ drop n xs) ≡ suc (length xs)
length-around zero p xs = refl
length-around (suc n) p [] = refl
length-around (suc n) p (x ∷ xs) = ap suc (length-around n p xs)

insert_item-Ordered :
    (p : Item) (n capacity : ℕ) (fee : Feer) (mp : Pool)
    → HasRoom p n capacity mp
    → Holds (Ordered capacity) (insert_item n p fee mp)
unfolding insert_item
insert_item-Ordered p n capacity fee mp h =
    let mp0 = record mp {
      verified_map = put mp.verified_map p.txn.hash p.txn;
      verified_txes = place n p (mp.verified_txes ++ p ∷ []);
    } in
    let mp1 = add_conflicts_if fee.p2p_sig_extensions_enabled p.txn mp0 in
    let frame = add_conflicts_if_frame fee.p2p_sig_extensions_enabled p.txn mp0 in
    Holds-bind
      (λ (r : Pool × Bool). (r.0.verified_txes ≡ mp1.verified_txes) × (r.0.capacity ≡ mp1.capacity))
      (Ordered capacity) (try_add_senders_fee p.txn fee false mp1) _
      (try_add_senders_fee_frame p.txn fee mp1)
      λ r same.
        let items : r.0.verified_txes ≡ take n mp.verified_txes ++ p ∷ drop n mp.verified_txes =
          same.0 ∙ frame.0 ∙ place_lem n p mp.verified_txes h.in_range in
        let room : r.0.capacity ≡ mp.capacity = same.1 ∙ frame.1 in
        (
          (
            rw items (Sorted-insert p n mp.verified_txes h.sorted h.before h.after),
            rw (items, room, length-around n p mp.verified_txes) h.room,
          ),
          room ∙ h.same_capacity,
        )

insert_or_oom-Ordered :
    (p : Item) (n : ℕ) (fee : Feer) (mp : Pool) (c : Checked Pool)
    → IsOrdered mp
    → OnAccepted (HasRoom p n mp.capacity) c
    → Holds (Ordered mp.capacity) (insert_or_oom n p fee mp c)
insert_or_oom-Ordered p n fee mp (refused e) h k = (h, refl)
insert_or_oom-Ordered p n fee mp (accepted mp') h k = insert_item-Ordered p n mp.capacity fee mp' k

add_item-Ordered :
    (p : Item) (fee : Feer) (mp : Pool)
    → IsOrdered mp
    → Holds (Ordered mp.capacity) (add_item p fee mp)
unfolding add_item
add_item-Ordered p fee mp h =
    Holds-bind (OnAccepted (HasRoom p (insert_position p mp.verified_txes) mp.capacity))
      (Ordered mp.capacity) (make_room (insert_position p mp.verified_txes) fee mp) _
      (make_room-HasRoom p fee mp h)
      λ c k. insert_or_oom-Ordered p (insert_position p mp.verified_txes) fee mp c h k

abbrev Kept : ℕ → Pool → Type 0
Kept capacity mp = IsOrdered mp × (mp.capacity ≡ capacity)

remove_all-Kept :
    (txs : List Transaction) (fee : Feer) (mp : Pool)
    → IsOrdered mp
    → Holds (Kept mp.capacity) (remove_all txs fee mp)
unfolding remove_all
remove_all-Kept [] fee mp h = (h, refl)
remove_all-Kept (tx ∷ txs) fee mp h =
    Holds-bind (Kept mp.capacity) (Kept mp.capacity) (remove_internal tx.hash fee mp)
      (remove_all txs fee) (remove_internal-IsOrdered tx.hash fee mp h)
      λ mp' k.
        Holds-map (remove_all txs fee mp') (remove_all-Kept txs fee mp' k.0) λ m x. (x.0, x.1 ∙ k.1)

remove_all_if-Kept :
    (b : Bool) (txs : List Transaction) (fee : Feer) (mp : Pool)
    → IsOrdered mp
    → Holds (Kept mp.capacity) (remove_all_if b txs fee mp)
remove_all_if-Kept true txs fee mp h = remove_all-Kept txs fee mp h
remove_all_if-Kept false txs fee mp h = (h, refl)

replace_entry-Kept :
    (t : Transaction) (fee : Feer) (mp : Pool) (id : ℕ) (entry : Option ℕ)
    → IsOrdered mp
    → Holds (λ r. Kept mp.capacity r.0) (replace_entry t fee mp id entry)
unfolding replace_entry
replace_entry-Kept t fee mp id none h = (h, refl)
replace_entry-Kept t fee mp id (some x) h =
    Holds-bind (λ a. Unit) KeptFirst (deref (mp.verified_map x)) _
      (Holds-any (deref (mp.verified_map x)))
      λ old _.
        if-elim (Holds KeptFirst) (leb t.network_fee old.network_fee) (h, refl)
          (Holds-bind (Kept mp.capacity) KeptFirst (remove_internal x fee mp) _
            (remove_internal-IsOrdered x fee mp h) λ mp' k. k)
  where
    KeptFirst : Pool × Bool → Type 0
    KeptFirst r = Kept mp.capacity r.0

replace_first-Kept :
    (t : Transaction) (fee : Feer) (mp : Pool) (ids : List ℕ)
    → IsOrdered mp
    → Holds (λ r. Kept mp.capacity r.0) (replace_first t fee mp ids)
unfolding replace_first
replace_first-Kept t fee mp [] h = (h, refl)
replace_first-Kept t fee mp (id ∷ ids) h = replace_entry-Kept t fee mp id (mp.oracle_resp id) h

replace_oracle_resp-Kept :
    (t : Transaction) (fee : Feer) (mp : Pool)
    → IsOrdered mp
    → Holds (λ r. Kept mp.capacity r.0) (replace_oracle_resp t fee mp)
unfolding replace_oracle_resp
replace_oracle_resp-Kept t fee mp h = replace_first-Kept t fee mp (oracle_ids t.attributes) h

add_unless-Ordered :
    (p : Item) (fee : Feer) (txs : List Transaction) (capacity : ℕ) (r : Pool × Bool)
    → Kept capacity r.0
    → Holds (Ordered capacity) (add_unless p fee txs r)
add_unless-Ordered p fee txs capacity (mp, false) k = k
add_unless-Ordered p fee txs capacity (mp, true) k =
    Holds-bind (Kept mp.capacity) (Ordered capacity)
      (remove_all_if fee.p2p_sig_extensions_enabled txs fee mp) (add_item p fee)
      (remove_all_if-Kept fee.p2p_sig_extensions_enabled txs fee mp k.0)
      λ mp' k'.
        Holds-map (add_item p fee mp') (add_item-Ordered p fee mp' k'.0)
          λ m x. (x.0, x.1 ∙ k'.1 ∙ k.1)

add_checked-Ordered :
    (p : Item) (fee : Feer) (mp : Pool) (c : Checked (List Transaction))
    → IsOrdered mp
    → Holds (Ordered mp.capacity) (add_checked p fee mp c)
add_checked-Ordered p fee mp (refused e) h = (h, refl)
add_checked-Ordered p fee mp (accepted txs) h =
    Holds-bind (λ (r : Pool × Bool). Kept mp.capacity r.0) (Ordered mp.capacity)
      (replace_oracle_resp p.txn fee mp) (add_unless p fee txs)
      (replace_oracle_resp-Kept p.txn fee mp h) (add_unless-Ordered p fee txs mp.capacity)

-- Add, whether it adds, refuses, replaces an oracle response, removes conflicting transactions or
-- makes room, leaves a pool that is in the order of priority and within its capacity, if it
-- was so before.
pub add-IsOrdered :
    (t : Transaction) (fee : Feer) (item_data : Option ℕ) (mp : Pool)
    → IsOrdered mp
    → Holds (λ r. IsOrdered r.0 × (r.0.capacity ≡ mp.capacity)) (add t fee item_data mp)
unfolding add
add-IsOrdered t fee item_data mp h =
    if-elim (Holds (Ordered mp.capacity)) (contains_key mp t.hash) (h, refl)
      (Holds-bind (λ a. Unit) (Ordered mp.capacity) (check_tx_conflicts mp t fee) _
        (Holds-any (check_tx_conflicts mp t fee)) λ c _. add_checked-Ordered _ fee mp c h)

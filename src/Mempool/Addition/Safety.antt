-- ===== src/Mempool/Addition/Safety.antt =====
-- Add never panics on a pool that is ready for the transaction, and what it leaves is coherent.
use koala_tblockchain_golang.Shared.{
  ℕ, ◌≤◌, ◌≡◌, ◌⊎◌, refl, sym, ◌∙◌, Bool, true, false, arith, List, [], ◌∷◌, Option, none, some, ap,
  ◌++◌, inl, inr, leb, ◌==◌, ==_iff, get_elem?, All-map, All-around, if-elim, length, take, drop,
  Bool-cases,
}
use koala_tblockchain_golang.Shared.Int.{◌+ℤ◌}
use koala_tblockchain_golang.Shared.Mapping.{put}
use koala_tblockchain_golang.Mempool.Tx.{Transaction, Item, conflict_hashes, oracle_ids}
use koala_tblockchain_golang.Mempool.Pool.{
  Err, Pool, Feer, BalanceAndFees, Returns, Returns-bind, Returns-map, Returns-and-Holds,
  contains_key,
}
use koala_tblockchain_golang.Mempool.Search.{insert_position}
use koala_tblockchain_golang.Mempool.Fees.{
  Checked, refused, accepted, try_add_senders_fee, check_tx_conflicts, sender_fee, fee_of,
}
use koala_tblockchain_golang.Mempool.Removal.{remove_internal}
use koala_tblockchain_golang.Mempool.Removal.Invariants.{IsOrdered, remove_internal-IsOrdered}
use koala_tblockchain_golang.Mempool.Removal.Coherence.{
  Listed, HasPayer, HasPayer-put, IsCoherent, remove_internal-IsCoherent,
}
use koala_tblockchain_golang.Mempool.Addition.{
  add_conflicts, add_conflicts_if, replace_entry, replace_first, replace_oracle_resp, remove_all,
  remove_all_if, place, make_room, insert_item, insert_or_oom, add_item, add_unless, add_checked,
  add,
}
use koala_tblockchain_golang.Mempool.Addition.Room.{
  HasRoom, OnAccepted, place_lem, make_room-HasRoom,
}
use koala_tblockchain_golang.Mempool.Addition.Checks.{IsReady, InPool, check_tx_conflicts-Returns}
use koala_tblockchain_golang.Mempool.Addition.Eviction.{
  IsCoherent-same, Kept, Listed-around, make_room-Kept,
}
use koala_tblockchain_golang.Mempool.Addition.Ordered.{add-IsOrdered}

-- coherent and in order, with the same index of the payer
abbrev IsSound : ℕ → Pool → Type 0
IsSound payer_index mp = IsCoherent mp × (mp.payer_index ≡ payer_index) × IsOrdered mp

remove_internal-IsSound :
    (k hash : ℕ) (fee : Feer) (mp : Pool)
    → IsSound k mp
    → Returns (IsSound k) (remove_internal hash fee mp)
remove_internal-IsSound k hash fee mp s =
    Returns-map (remove_internal hash fee mp)
      (Returns-and-Holds (λ mp'. IsCoherent mp' × (mp'.payer_index ≡ mp.payer_index))
        (λ mp'. IsOrdered mp' × (mp'.capacity ≡ mp.capacity)) (remove_internal hash fee mp)
        (remove_internal-IsCoherent hash fee mp s.0) (remove_internal-IsOrdered hash fee mp s.2))
      λ mp' h. (h.0.0, h.0.1 ∙ s.1, h.1.0)

remove_all-IsSound :
    (k : ℕ) (txs : List Transaction) (fee : Feer) (mp : Pool)
    → IsSound k mp
    → Returns (IsSound k) (remove_all txs fee mp)
unfolding remove_all
remove_all-IsSound k [] fee mp s = s
remove_all-IsSound k (tx ∷ txs) fee mp s =
    Returns-bind (IsSound k) (IsSound k) (remove_internal tx.hash fee mp) (remove_all txs fee)
      (remove_internal-IsSound k tx.hash fee mp s) λ mp' s'. remove_all-IsSound k txs fee mp' s'

remove_all_if-IsSound :
    (k : ℕ) (b : Bool) (txs : List Transaction) (fee : Feer) (mp : Pool)
    → IsSound k mp
    → Returns (IsSound k) (remove_all_if b txs fee mp)
remove_all_if-IsSound k true txs fee mp s = remove_all-IsSound k txs fee mp s
remove_all_if-IsSound k false txs fee mp s = s

replace_entry-IsSound :
    (k : ℕ) (t : Transaction) (fee : Feer) (mp : Pool) (id : ℕ) (entry : Option ℕ)
    → ((h : ℕ) → entry ≡ some h → InPool mp h)
    → IsSound k mp
    → Returns (λ r. IsSound k r.0) (replace_entry t fee mp id entry)
unfolding replace_entry
replace_entry-IsSound k t fee mp id none known s =
    (IsCoherent-same mp _ refl refl refl refl s.0, s.1, s.2)
replace_entry-IsSound k t fee mp id (some x) known s =
    let (old, e) = known x refl in
    rw e (
      if-elim (Returns (λ (r : Pool × Bool). IsSound k r.0)) (leb t.network_fee old.network_fee) s (
        Returns-bind (IsSound k) (λ (r : Pool × Bool). IsSound k r.0) (remove_internal x fee mp) _
          (remove_internal-IsSound k x fee mp s)
          λ mp' s'. (IsCoherent-same mp' _ refl refl refl refl s'.0, s'.1, s'.2)))

replace_first-IsSound :
    (k : ℕ) (t : Transaction) (fee : Feer) (mp : Pool) (ids : List ℕ)
    → ((id h : ℕ) → mp.oracle_resp id ≡ some h → InPool mp h)
    → IsSound k mp
    → Returns (λ r. IsSound k r.0) (replace_first t fee mp ids)
unfolding replace_first
replace_first-IsSound k t fee mp [] known s = s
replace_first-IsSound k t fee mp (id ∷ ids) known s =
    replace_entry-IsSound k t fee mp id (mp.oracle_resp id) (known id) s

add_conflicts_fields :
    (t : ℕ) (hashes : List ℕ) (mp : Pool)
    → add_conflicts t hashes mp ≡ record mp { conflicts = (add_conflicts t hashes mp).conflicts }
unfolding add_conflicts
add_conflicts_fields t [] mp = refl
add_conflicts_fields t (h ∷ hs) mp = add_conflicts_fields t hs _

pub add_conflicts_if_fields :
    (b : Bool) (t : Transaction) (mp : Pool)
    → add_conflicts_if b t mp ≡ record mp { conflicts = (add_conflicts_if b t mp).conflicts }
add_conflicts_if_fields true t mp = add_conflicts_fields t.hash (conflict_hashes t.attributes) mp
add_conflicts_if_fields false t mp = refl

-- the fields that an unchecked addition of fees leaves
try_add_senders_fee_lem :
    (t : Transaction) (fee : Feer) (mp : Pool) (payer : ℕ)
    → get_elem? t.signers mp.payer_index ≡ some payer
    → let new_fee = record (sender_fee mp fee payer) {
      fee_sum = (sender_fee mp fee payer).fee_sum +ℤ fee_of t;
    } in
      Returns
        (λ r. r.0 ≡ record mp { fees = put mp.fees payer new_fee })
        (try_add_senders_fee t fee false mp)
unfolding try_add_senders_fee
try_add_senders_fee_lem t fee mp payer e = rw e refl

-- the map, the list and the fees with a new item, whose payer has an entry now
inserted-IsCoherent :
    (p : Item) (n payer : ℕ) (entry : BalanceAndFees) (mp : Pool)
    → IsCoherent mp
    → get_elem? p.txn.signers mp.payer_index ≡ some payer
    → IsCoherent (record mp {
      verified_map = put mp.verified_map p.txn.hash p.txn;
      verified_txes = take n mp.verified_txes ++ p ∷ drop n mp.verified_txes;
      fees = put mp.fees payer entry;
    })
inserted-IsCoherent p n payer entry mp c signs = record {
  hashed = λ h t e. (there h t e).0;
  listed = λ h t e. Listed-around t n p mp.verified_txes (there h t e).1;
  payers =
      All-around (λ x. HasPayer mp.payer_index (put mp.fees payer entry) x.txn) n mp.verified_txes p
        (All-map (λ x. HasPayer mp.payer_index mp.fees x.txn)
          (λ x. HasPayer mp.payer_index (put mp.fees payer entry) x.txn)
          (λ x h. HasPayer-put mp.payer_index payer mp.fees entry x.txn h) mp.verified_txes
          c.payers)
        (record { account = payer; signs = signs; entry = entry; known = ground arith });
}
  where
    there :
        (h : ℕ) (t : Transaction)
        → put mp.verified_map p.txn.hash p.txn h ≡ some t
        → (t.hash ≡ h) × ((p.txn ≡ t) ⊎ Listed t mp.verified_txes)
    there h t e = elim (Bool-cases (p.txn.hash == h)) [
      | inl eq ↦
          let same : p.txn ≡ t = cc (rw eq at e) in
          (sym (ap (λ (x : Transaction). x.hash) same) ∙ (==_iff _ _).0 eq, inl same)
      | inr ne ↦
          let old : mp.verified_map h ≡ some t = rw ne at e in
          (c.hashed h t old, inr (c.listed h t old))
    ]

insert_item-IsCoherent :
    (p : Item) (n : ℕ) (fee : Feer) (mp : Pool) (payer : ℕ)
    → IsCoherent mp
    → n ≤ length mp.verified_txes
    → get_elem? p.txn.signers mp.payer_index ≡ some payer
    → Returns (λ r. IsCoherent r.0) (insert_item n p fee mp)
unfolding insert_item
insert_item-IsCoherent p n fee mp payer c le signs =
    let mp0 = record mp {
      verified_map = put mp.verified_map p.txn.hash p.txn;
      verified_txes = place n p (mp.verified_txes ++ p ∷ []);
    } in
    let mp1 = add_conflicts_if fee.p2p_sig_extensions_enabled p.txn mp0 in
    let e = add_conflicts_if_fields fee.p2p_sig_extensions_enabled p.txn mp0 in
    let old = sender_fee mp1 fee payer in
    let new_fee = record old { fee_sum = old.fee_sum +ℤ fee_of p.txn } in
    Returns-bind (λ (r : Pool × Bool). r.0 ≡ record mp1 { fees = put mp1.fees payer new_fee })
      (λ (r : Pool × Option Err). IsCoherent r.0) (try_add_senders_fee p.txn fee false mp1) _
      (try_add_senders_fee_lem p.txn fee mp1 payer (rw (ap (λ (m : Pool). m.payer_index) e) signs))
      λ r eq.
        IsCoherent-same _ _
          (ap (λ (m : Pool). m.verified_map) eq ∙ ap (λ (m : Pool). m.verified_map) e)
          (ap (λ (m : Pool). m.verified_txes) eq
            ∙ ap (λ (m : Pool). m.verified_txes) e
            ∙ place_lem n p mp.verified_txes le)
          (ap (λ (m : Pool). m.fees) eq ∙ ap (λ (m : Pool). put m.fees payer new_fee) e)
          (ap (λ (m : Pool). m.payer_index) eq ∙ ap (λ (m : Pool). m.payer_index) e)
          (inserted-IsCoherent p n payer new_fee mp c signs)

insert_or_oom-IsCoherent :
    (p : Item) (fee : Feer) (mp : Pool) (payer : ℕ) (o : Checked Pool)
    → IsCoherent mp
    → get_elem? p.txn.signers mp.payer_index ≡ some payer
    → OnAccepted (Kept mp.payer_index) o
    → OnAccepted (HasRoom p (insert_position p mp.verified_txes) mp.capacity) o
    → Returns (λ r. IsCoherent r.0) (insert_or_oom (insert_position p mp.verified_txes) p fee mp o)
insert_or_oom-IsCoherent p fee mp payer (refused e) c signs kept room = c
insert_or_oom-IsCoherent p fee mp payer (accepted mp') c signs kept room =
    insert_item-IsCoherent p (insert_position p mp.verified_txes) fee mp' payer kept.0 room.in_range
      (rw kept.1 signs)

add_item-IsCoherent :
    (p : Item) (fee : Feer) (mp : Pool) (payer : ℕ)
    → IsCoherent mp
    → IsOrdered mp
    → get_elem? p.txn.signers mp.payer_index ≡ some payer
    → Returns (λ r. IsCoherent r.0) (add_item p fee mp)
unfolding add_item
add_item-IsCoherent p fee mp payer c o signs =
    let kept = OnAccepted (Kept mp.payer_index) in
    let room = OnAccepted (HasRoom p (insert_position p mp.verified_txes) mp.capacity) in
    Returns-bind (λ x. kept x × room x) (λ (r : Pool × Option Err). IsCoherent r.0)
      (make_room (insert_position p mp.verified_txes) fee mp)
      (insert_or_oom (insert_position p mp.verified_txes) p fee mp)
      (Returns-and-Holds kept room (make_room (insert_position p mp.verified_txes) fee mp)
        (make_room-Kept p fee mp c o) (make_room-HasRoom p fee mp o))
      λ x h. insert_or_oom-IsCoherent p fee mp payer x c signs h.0 h.1

add_unless-IsCoherent :
    (p : Item) (fee : Feer) (txs : List Transaction) (k payer : ℕ) (r : Pool × Bool)
    → IsSound k r.0
    → get_elem? p.txn.signers k ≡ some payer
    → Returns (λ x. IsCoherent x.0) (add_unless p fee txs r)
add_unless-IsCoherent p fee txs k payer (mp, false) s signs = s.0
add_unless-IsCoherent p fee txs k payer (mp, true) s signs =
    Returns-bind (IsSound k) (λ (r : Pool × Option Err). IsCoherent r.0)
      (remove_all_if fee.p2p_sig_extensions_enabled txs fee mp) (add_item p fee)
      (remove_all_if-IsSound k fee.p2p_sig_extensions_enabled txs fee mp s)
      λ mp' s'. add_item-IsCoherent p fee mp' payer s'.0 s'.2 (rw s'.1 signs)

add_checked-IsCoherent :
    (p : Item) (fee : Feer) (mp : Pool) (o : Checked (List Transaction))
    → IsReady mp p.txn
    → IsOrdered mp
    → Returns (λ r. IsCoherent r.0) (add_checked p fee mp o)
unfolding replace_oracle_resp
add_checked-IsCoherent p fee mp (refused e) ready o = ready.coherent
add_checked-IsCoherent p fee mp (accepted txs) ready o =
    Returns-bind (λ (r : Pool × Bool). IsSound mp.payer_index r.0)
      (λ (r : Pool × Option Err). IsCoherent r.0) (replace_oracle_resp p.txn fee mp)
      (add_unless p fee txs)
      (replace_first-IsSound mp.payer_index p.txn fee mp (oracle_ids p.txn.attributes)
        ready.oracle_known (ready.coherent, refl, o))
      λ r s. add_unless-IsCoherent p fee txs mp.payer_index ready.payer r s ready.signs

add-IsCoherent :
    (t : Transaction) (fee : Feer) (item_data : Option ℕ) (mp : Pool)
    → IsReady mp t
    → IsOrdered mp
    → Returns (λ r. IsCoherent r.0) (add t fee item_data mp)
unfolding add
add-IsCoherent t fee item_data mp ready o =
    if-elim (Returns (λ (r : Pool × Option Err). IsCoherent r.0)) (contains_key mp t.hash)
      ready.coherent
      (Returns-bind (λ x. Unit) (λ (r : Pool × Option Err). IsCoherent r.0)
        (check_tx_conflicts mp t fee) _ (check_tx_conflicts-Returns mp t fee ready)
        λ c _. add_checked-IsCoherent _ fee mp c ready o)

-- On a pool that is ready for a transaction and in order, Add does not panic: it returns a pool,
-- with or without an error, that is coherent, in the order of priority, and within its capacity,
-- which is the same.
pub add_safe :
    (t : Transaction) (fee : Feer) (item_data : Option ℕ) (mp : Pool)
    → IsReady mp t
    → IsOrdered mp
    → Returns
        (λ r. IsCoherent r.0 × IsOrdered r.0 × (r.0.capacity ≡ mp.capacity))
        (add t fee item_data mp)
add_safe t fee item_data mp ready o =
    Returns-map (add t fee item_data mp)
      (Returns-and-Holds (λ r. IsCoherent r.0) (λ r. IsOrdered r.0 × (r.0.capacity ≡ mp.capacity))
        (add t fee item_data mp) (add-IsCoherent t fee item_data mp ready o)
        (add-IsOrdered t fee item_data mp o))
      λ r h. (h.0, h.1.0, h.1.1)

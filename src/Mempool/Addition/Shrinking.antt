-- ===== src/Mempool/Addition/Shrinking.antt =====
-- The steps of Add before the item is put in: nothing new comes into the map of the pool.
use koala_tblockchain_golang.Shared.{
  ℕ, ◌≡◌, refl, sym, ◌∙◌, ap, Bool, true, false, List, [], ◌∷◌, Option, none, some, ◌-◌, ◌==◌, leb,
  if-elim, length, get_elem?,
}
use koala_tblockchain_golang.Shared.Mapping.{delete}
use koala_tblockchain_golang.Mempool.Tx.{Transaction, Item}
use koala_tblockchain_golang.Mempool.Pool.{
  oom, Pool, Feer, Holds, Holds-bind, Holds-any, Holds-map, deref,
}
use koala_tblockchain_golang.Mempool.Fees.{Checked, refused, accepted}
use koala_tblockchain_golang.Mempool.Removal.{remove_internal}
use koala_tblockchain_golang.Mempool.Removal.Invariants.{
  Shrinks, ShrinksTo-delete, remove_internal-Shrinks, clean_up_frame,
}
use koala_tblockchain_golang.Mempool.Addition.{
  replace_entry, replace_first, remove_all, remove_all_if, ditch_last, evict, make_room,
}

remove_all-Shrinks :
    (txs : List Transaction) (fee : Feer) (mp : Pool) → Holds (Shrinks mp) (remove_all txs fee mp)
unfolding remove_all
remove_all-Shrinks [] fee mp = λ h x e. e
remove_all-Shrinks (tx ∷ txs) fee mp =
    Holds-bind (Shrinks mp) (Shrinks mp) (remove_internal tx.hash fee mp) (remove_all txs fee)
      (remove_internal-Shrinks tx.hash fee mp)
      λ mp' s.
        Holds-map (remove_all txs fee mp') (remove_all-Shrinks txs fee mp')
          λ mp'' s' h x e. s h x (s' h x e)

pub remove_all_if-Shrinks :
    (b : Bool) (txs : List Transaction) (fee : Feer) (mp : Pool)
    → Holds (Shrinks mp) (remove_all_if b txs fee mp)
remove_all_if-Shrinks true txs fee mp = remove_all-Shrinks txs fee mp
remove_all_if-Shrinks false txs fee mp = λ h x e. e

replace_entry-Shrinks :
    (t : Transaction) (fee : Feer) (mp : Pool) (id : ℕ) (entry : Option ℕ)
    → Holds (λ r. Shrinks mp r.0) (replace_entry t fee mp id entry)
unfolding replace_entry
replace_entry-Shrinks t fee mp id none = λ h x e. e
replace_entry-Shrinks t fee mp id (some k) =
    Holds-bind (λ a. Unit) ShrinksFirst (deref (mp.verified_map k)) _
      (Holds-any (deref (mp.verified_map k)))
      λ old _.
        if-elim (Holds ShrinksFirst) (leb t.network_fee old.network_fee) (λ h x e. e)
          (Holds-bind (Shrinks mp) ShrinksFirst (remove_internal k fee mp) _
            (remove_internal-Shrinks k fee mp) λ mp' s. s)
  where
    ShrinksFirst : Pool × Bool → Type 0
    ShrinksFirst r = Shrinks mp r.0

pub replace_first-Shrinks :
    (t : Transaction) (fee : Feer) (mp : Pool) (ids : List ℕ)
    → Holds (λ r. Shrinks mp r.0) (replace_first t fee mp ids)
unfolding replace_first
replace_first-Shrinks t fee mp [] = λ h x e. e
replace_first-Shrinks t fee mp (id ∷ ids) = replace_entry-Shrinks t fee mp id (mp.oracle_resp id)

ditch_last-Shrinks :
    (u : Item) (others : List Item) (fee : Feer) (mp : Pool)
    → Shrinks mp (ditch_last u others fee mp)
unfolding ditch_last
ditch_last-Shrinks u others fee mp h x e =
    let frame =
      clean_up_frame fee.p2p_sig_extensions_enabled u.txn
        (record mp { verified_map = delete mp.verified_map u.txn.hash; verified_txes = others }) in
    ShrinksTo-delete mp.verified_map u.txn.hash h x
      (sym (ap (λ (p : Pool). p.verified_map h) frame) ∙ e)

-- room is made, or the error is ErrOOM
abbrev pub RoomOrOom : Pool → Checked Pool → Type 0
RoomOrOom mp (refused e) = e ≡ oom
RoomOrOom mp (accepted mp') = Shrinks mp mp'

pub make_room-RoomOrOom :
    (n : ℕ) (fee : Feer) (mp : Pool) → Holds (RoomOrOom mp) (make_room n fee mp)
unfolding make_room evict
make_room-RoomOrOom n fee mp =
    let last = deref (get_elem? mp.verified_txes (length mp.verified_txes - 1)) in
    if-elim (Holds (RoomOrOom mp)) (length mp.verified_txes == mp.capacity)
      (if-elim (Holds (RoomOrOom mp)) (n == length mp.verified_txes) refl (
        Holds-bind (λ a. Unit) (RoomOrOom mp) last _ (Holds-any last)
          λ u _. ditch_last-Shrinks u _ fee mp))
      (λ h x e. e)

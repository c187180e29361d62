-- ===== src/Mempool/Addition/Eviction.antt =====
-- Making room for an item, and putting it in, on a coherent pool.
use koala_tblockchain_golang.Shared.{
  ℕ, zero, suc, ◌-◌, ◌≡◌, ◌≢◌, ◌⊎◌, refl, arith, List, [], ◌∷◌, some, ap, ◌++◌, inl, inr, ◌==◌,
  get_elem?, get_elem?_lem, All, if-elim, if-cases, length, take, drop, Bool-cases,
}
use koala_tblockchain_golang.Shared.Mapping.{delete}
use koala_tblockchain_golang.Mempool.Tx.{Transaction, Item}
use koala_tblockchain_golang.Mempool.Pool.{Pool, Feer, Returns}
use koala_tblockchain_golang.Mempool.Search.{insert_position}
use koala_tblockchain_golang.Mempool.Search.Correctness.{insert_position_lem}
use koala_tblockchain_golang.Mempool.Removal.Invariants.{IsOrdered, clean_up_frame}
use koala_tblockchain_golang.Mempool.Removal.Coherence.{Listed, HasPayer, IsCoherent}
use koala_tblockchain_golang.Mempool.Addition.{ditch_last, evict, make_room}
use koala_tblockchain_golang.Mempool.Addition.Room.{OnAccepted}

-- coherence is about three fields and the index of the payer
pub IsCoherent-same :
    (mp mp' : Pool)
    → mp'.verified_map ≡ mp.verified_map
    → mp'.verified_txes ≡ mp.verified_txes
    → mp'.fees ≡ mp.fees
    → mp'.payer_index ≡ mp.payer_index
    → IsCoherent mp
    → IsCoherent mp'
IsCoherent-same mp mp' m x f p c = record {
  hashed = λ h t e. c.hashed h t (rw m at e);
  listed = λ h t e. rw x (c.listed h t (rw m at e));
  payers = rw (x, f, p) c.payers;
}

-- every item but the last is in the list without its last item
Listed-take :
    (t : Transaction) (m : ℕ) (u : Item) (xs : List Item)
    → suc m ≡ length xs
    → get_elem? xs m ≡ some u
    → u.txn.hash ≢ t.hash
    → Listed t xs
    → Listed t (take m xs)
Listed-take t m u [] e g ne l = absurd l
Listed-take t zero u (x ∷ []) e g ne (inl same) = absurd (ne (cc (g, same)))
Listed-take t zero u (x ∷ []) e g ne (inr l) = absurd l
Listed-take t zero u (x ∷ (y ∷ ys)) e g ne l = absurd (omega arith)
Listed-take t (suc m) u (x ∷ xs) e g ne (inl same) = inl same
Listed-take t (suc m) u (x ∷ xs) e g ne (inr l) = inr (Listed-take t m u xs (omega arith) g ne l)

pub Listed-around :
    (t : Transaction) (n : ℕ) (p : Item) (xs : List Item)
    → (p.txn ≡ t) ⊎ Listed t xs
    → Listed t (take n xs ++ p ∷ drop n xs)
Listed-around t zero p xs l = l
Listed-around t (suc n) p [] l = l
Listed-around t (suc n) p (x ∷ xs) (inl e) = inr (Listed-around t n p xs (inl e))
Listed-around t (suc n) p (x ∷ xs) (inr (inl e)) = inl e
Listed-around t (suc n) p (x ∷ xs) (inr (inr l)) = inr (Listed-around t n p xs (inr l))

All-take : (P : Item → Type 0) (m : ℕ) (xs : List Item) → All P xs → All P (take m xs)
All-take P zero xs h = tt
All-take P (suc m) [] h = tt
All-take P (suc m) (x ∷ xs) h = (h.0, All-take P m xs h.1)

-- a coherent pool with the same index of the payer
abbrev pub Kept : ℕ → Pool → Type 0
Kept payer_index mp = IsCoherent mp × (mp.payer_index ≡ payer_index)

ditch_last-Kept :
    (mp : Pool) (fee : Feer) (m : ℕ) (u : Item)
    → IsCoherent mp
    → suc m ≡ length mp.verified_txes
    → get_elem? mp.verified_txes m ≡ some u
    → Kept mp.payer_index (ditch_last u (take m mp.verified_txes) fee mp)
unfolding ditch_last
ditch_last-Kept mp fee m u c len g =
    let mp0 = record mp {
      verified_map = delete mp.verified_map u.txn.hash;
      verified_txes = take m mp.verified_txes;
    } in
    let e = clean_up_frame fee.p2p_sig_extensions_enabled u.txn mp0 in
    (
      IsCoherent-same mp0 _ (ap (λ (p : Pool). p.verified_map) e)
          (ap (λ (p : Pool). p.verified_txes) e) (ap (λ (p : Pool). p.fees) e)
          (ap (λ (p : Pool). p.payer_index) e)
          (record {
            hashed = λ h t x. c.hashed h t (deleted h t x).0;
            listed = λ h t x.
                Listed-take t m u mp.verified_txes len g (deleted h t x).1
                  (c.listed h t (deleted h t x).0);
            payers =
                All-take (λ x. HasPayer mp.payer_index mp.fees x.txn) m mp.verified_txes c.payers;
          }),
      ap (λ (p : Pool). p.payer_index) e,
    )
  where
    deleted :
        (h : ℕ) (t : Transaction)
        → delete mp.verified_map u.txn.hash h ≡ some t
        → (mp.verified_map h ≡ some t) × (u.txn.hash ≢ t.hash)
    deleted h t x = elim (Bool-cases (u.txn.hash == h)) [
      | inl eq ↦ cc (rw eq at x)
      | inr ne ↦
          let there : mp.verified_map h ≡ some t = rw ne at x in
          (there, ground (arith, c.hashed h t there))
    ]

evict-Kept :
    (p : Item) (fee : Feer) (mp : Pool)
    → IsCoherent mp
    → IsOrdered mp
    → Returns (OnAccepted (Kept mp.payer_index)) (evict (insert_position p mp.verified_txes) fee mp)
unfolding evict
evict-Kept p fee mp c o =
    let xs = mp.verified_txes in
    if-cases (Returns (OnAccepted (Kept mp.payer_index))) (insert_position p xs == length xs)
      (λ e. tt)
      λ e.
        let (u, g) =
          get_elem?_lem xs (length xs - 1) (ground (arith, (insert_position_lem p xs o.0).0)) in
        let d =
          ditch_last-Kept mp fee (length xs - 1) u c
            (ground (arith, (insert_position_lem p xs o.0).0)) g in
        rw g (IsCoherent-same _ _ refl refl refl refl d.0, d.1)

-- A coherent pool in order makes room without a panic, and stays coherent.
pub make_room-Kept :
    (p : Item) (fee : Feer) (mp : Pool)
    → IsCoherent mp
    → IsOrdered mp
    → Returns
        (OnAccepted (Kept mp.payer_index))
        (make_room (insert_position p mp.verified_txes) fee mp)
unfolding make_room
make_room-Kept p fee mp c o =
    if-elim (Returns (OnAccepted (Kept mp.payer_index))) (length mp.verified_txes == mp.capacity)
      (evict-Kept p fee mp c o) (c, refl)

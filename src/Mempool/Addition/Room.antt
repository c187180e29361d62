-- ===== src/Mempool/Addition/Room.antt =====
-- Where Add puts its item, and how it makes room for it.
use koala_tblockchain_golang.Shared.{
  ℕ, zero, suc, ◌-◌, ◌≤◌, ◌<◌, ◌≡◌, refl, true, false, arith, List, [], ◌∷◌, length, ap, take, drop,
  ◌++◌, inl, inr, ◌==◌, Bool-cases, get_elem?, length-append, All, length-drop, length-take_le,
  if-cases, take-append,
}
use koala_tblockchain_golang.Shared.Mapping.{delete}
use koala_tblockchain_golang.Mempool.Tx.{Item}
use koala_tblockchain_golang.Mempool.Pool.{Pool, Feer, Holds, Holds-bind, Holds-any, deref}
use koala_tblockchain_golang.Mempool.Order.{above, Sorted}
use koala_tblockchain_golang.Mempool.Search.{insert_position}
use koala_tblockchain_golang.Mempool.Search.Correctness.{insert_position_lem}
use koala_tblockchain_golang.Mempool.Fees.{Checked, refused, accepted}
use koala_tblockchain_golang.Mempool.Removal.Invariants.{IsOrdered, clean_up_frame}
use koala_tblockchain_golang.Mempool.Addition.{place, ditch_last, evict, make_room}

take-append_le {ℓ} :
    {A : Type ℓ} (n : ℕ) (xs ys : List A) → n ≤ length xs → take n (xs ++ ys) ≡ take n xs
take-append_le zero xs ys h = refl
take-append_le (suc n) [] ys h = absurd (omega arith)
take-append_le (suc n) (x ∷ xs) ys h = ap (λ l. x ∷ l) (take-append_le n xs ys (omega arith))

drop-append_le {ℓ} :
    {A : Type ℓ} (n : ℕ) (xs ys : List A) → n ≤ length xs → drop n (xs ++ ys) ≡ drop n xs ++ ys
drop-append_le zero xs ys h = refl
drop-append_le (suc n) [] ys h = absurd (omega arith)
drop-append_le (suc n) (x ∷ xs) ys h = drop-append_le n xs ys (omega arith)

take-length {ℓ} : {A : Type ℓ} (xs : List A) → take (length xs) xs ≡ xs
take-length [] = refl
take-length (x ∷ xs) = ap (λ l. x ∷ l) (take-length xs)

drop-length {ℓ} : {A : Type ℓ} (xs : List A) → drop (length xs) xs ≡ []
drop-length [] = refl
drop-length (x ∷ xs) = drop-length xs

-- the shift by `copy` puts the item in its place
pub place_lem :
    (n : ℕ) (p : Item) (xs : List Item)
    → n ≤ length xs
    → place n p (xs ++ p ∷ []) ≡ take n xs ++ p ∷ drop n xs
unfolding place
place_lem n p xs h = elim (Bool-cases (n == length (xs ++ p ∷ []) - 1)) [
  | inl e ↦
      let at_end : n ≡ length xs = ground (arith, length-append xs (p ∷ [])) in
      rw e (rw at_end (rw (take-length xs, drop-length xs)))
  | inr e ↦
      let m : length (xs ++ p ∷ []) - suc n ≡ length (drop n xs) =
        omega (arith, length-append xs (p ∷ []), length-drop n xs) in
      rw e (
        rw (
          m,
          take-append_le n xs (p ∷ []) h,
          drop-append_le n xs (p ∷ []) h,
          take-append (drop n xs) (p ∷ []),
        ))
]

-- without the items from m on
take-take_le {ℓ} : {A : Type ℓ} (n m : ℕ) (xs : List A) → n ≤ m → take n (take m xs) ≡ take n xs
take-take_le zero m xs h = refl
take-take_le (suc n) zero xs h = absurd (omega arith)
take-take_le (suc n) (suc m) [] h = refl
take-take_le (suc n) (suc m) (x ∷ xs) h = ap (λ l. x ∷ l) (take-take_le n m xs (omega arith))

module _ (P : Item → Type 0) where
  All-take : (m : ℕ) (xs : List Item) → All P xs → All P (take m xs)
  All-take zero xs h = tt
  All-take (suc m) [] h = tt
  All-take (suc m) (x ∷ xs) h = (h.0, All-take m xs h.1)

  All-drop-take : (n m : ℕ) (xs : List Item) → All P (drop n xs) → All P (drop n (take m xs))
  All-drop-take zero m xs h = All-take m xs h
  All-drop-take (suc n) zero xs h = tt
  All-drop-take (suc n) (suc m) [] h = tt
  All-drop-take (suc n) (suc m) (x ∷ xs) h = All-drop-take n m xs h

Sorted-take : (m : ℕ) (xs : List Item) → Sorted xs → Sorted (take m xs)
Sorted-take zero xs h = tt
Sorted-take (suc m) [] h = tt
Sorted-take (suc m) (x ∷ xs) h = (All-take (λ y. above y x ≡ false) m xs h.0, Sorted-take m xs h.1)

-- n is the place of p among the items of a pool that has room for one more
pub record HasRoom (p : Item) (n capacity : ℕ) (mp : Pool) : Type 0 where
  pub sorted : Sorted mp.verified_txes
  pub room : length mp.verified_txes < mp.capacity
  pub same_capacity : mp.capacity ≡ capacity
  pub in_range : n ≤ length mp.verified_txes
  pub before : All (λ x. above p x ≡ false) (take n mp.verified_txes)
  pub after : All (λ x. above p x ≡ true) (drop n mp.verified_txes)

abbrev pub OnAccepted {ℓ} : {A : Type 0} → (A → Type ℓ) → Checked A → Type ℓ
OnAccepted P (refused e) = Unit
OnAccepted P (accepted a) = P a

-- the fields of the pool without its last item
ditch_last_frame :
    (unlucky : Item) (others : List Item) (fee : Feer) (mp : Pool)
    → ((ditch_last unlucky others fee mp).verified_txes ≡ others)
      × ((ditch_last unlucky others fee mp).capacity ≡ mp.capacity)
unfolding ditch_last
ditch_last_frame unlucky others fee mp =
    let e = clean_up_frame fee.p2p_sig_extensions_enabled unlucky.txn (record mp {
      verified_map = delete mp.verified_map unlucky.txn.hash;
      verified_txes = others;
    }) in
    (ap (λ (m : Pool). m.verified_txes) e, ap (λ (m : Pool). m.capacity) e)

module _ (p : Item) (fee : Feer) (mp : Pool) (h : IsOrdered mp) where
  abbrev pub position : ℕ
  position = insert_position p mp.verified_txes

  evict-HasRoom :
      length mp.verified_txes ≡ mp.capacity
      → Holds (OnAccepted (HasRoom p position mp.capacity)) (evict position fee mp)
  unfolding evict
  evict-HasRoom full =
      let xs = mp.verified_txes in
      let place = insert_position_lem p xs h.0 in
      if-cases (Holds (OnAccepted (HasRoom p position mp.capacity))) (position == length xs)
        (λ e. tt)
        λ e.
          Holds-bind (λ a. Unit) (OnAccepted (HasRoom p position mp.capacity))
            (deref (get_elem? xs (length xs - 1))) _
            (Holds-any (deref (get_elem? xs (length xs - 1))))
            λ unlucky _.
              let frame = ditch_last_frame unlucky (take (length xs - 1) xs) fee mp in
              let lt : position < length xs = ground (arith, place.0) in
              let l : length (take (length xs - 1) xs) ≡ length xs - 1 =
                length-take_le (length xs - 1) xs (omega arith) in
              record {
                sorted = rw frame.0 (Sorted-take (length xs - 1) xs h.0);
                room = rw (frame.0, frame.1, l) (omega arith);
                same_capacity = frame.1;
                in_range = rw (frame.0, l) (omega arith);
                before =
                    rw (frame.0, take-take_le position (length xs - 1) xs (omega arith)) place.1;
                after =
                    rw frame.0
                      (All-drop-take (λ x. above p x ≡ true) position (length xs - 1) xs place.2);
              }

  -- A pool in order either has no place for the item, or gets room for it and keeps its order.
  pub make_room-HasRoom :
      Holds (OnAccepted (HasRoom p position mp.capacity)) (make_room position fee mp)
  unfolding make_room
  make_room-HasRoom =
      let place = insert_position_lem p mp.verified_txes h.0 in
      if-cases (Holds (OnAccepted (HasRoom p position mp.capacity)))
        (length mp.verified_txes == mp.capacity) (λ full. evict-HasRoom (ground arith))
        λ space. record {
          sorted = h.0;
          room = ground (arith, h.1);
          same_capacity = refl;
          in_range = place.0;
          before = place.1;
          after = place.2;
        }

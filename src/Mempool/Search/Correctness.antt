-- ===== src/Mempool/Search/Correctness.antt =====
-- The binary search finds the border between the indices at which a monotone test fails and those
-- at which it holds, so Add finds the place of its item.
use koala_tblockchain_golang.Shared.{
  ℕ, zero, suc, ◌+◌, ◌-◌, ◌/◌, ◌≤◌, ◌<◌, ◌≡◌, Bool, true, false, arith, List, [], ◌∷◌, All, take,
  drop, length, Bool-cases, inl, inr, ltb,
}
use koala_tblockchain_golang.Mempool.Tx.{Item}
use koala_tblockchain_golang.Mempool.Order.{above, above_trans, Sorted}
use koala_tblockchain_golang.Mempool.Search.{search_loop, sort_search, at_index, insert_position}

-- the test stays true once it is true, below n
abbrev pub IsMonotone : ℕ → (ℕ → Bool) → Type 0
IsMonotone n f = (a b : ℕ) → a ≤ b → b < n → f a ≡ true → f b ≡ true

-- r is where the test becomes true
pub record IsBorder (n : ℕ) (f : ℕ → Bool) (r : ℕ) : Type 0 where
  pub in_range : r ≤ n
  pub below : (k : ℕ) → k < r → f k ≡ false
  pub from : (k : ℕ) → r ≤ k → k < n → f k ≡ true

module _ {n : ℕ} {f : ℕ → Bool} (mono : IsMonotone n f) where
  not_yet : (a b : ℕ) → b < n → f b ≡ false → a ≤ b → f a ≡ false
  not_yet a b lt no_ le = elim (Bool-cases (f a)) [
    | inl e ↦ absurd (elim (Bool-cases (f b)) [ inl x ↦ cc | inr x ↦ cc (mono a b le lt e) ])
    | inr e ↦ e
  ]

  search_loop-IsBorder :
      (fuel i j : ℕ)
      → j - i ≤ fuel
      → i ≤ j
      → j ≤ n
      → ((k : ℕ) → k < i → f k ≡ false)
      → ((k : ℕ) → j ≤ k → k < n → f k ≡ true)
      → IsBorder n f (search_loop fuel f i j)
  unfolding search_loop
  search_loop-IsBorder zero i j h le top lo hi = record {
    in_range = omega arith;
    below = lo;
    from = λ k p q. hi k (omega arith) q;
  }
  search_loop-IsBorder (suc fuel) i j h le top lo hi = elim (Bool-cases (ltb i j)) [
    | inr e ↦
        rw e (record { in_range = omega arith; below = lo; from = λ k p q. hi k (ground arith) q })
    | inl e ↦ rw e (elim (Bool-cases (f ((i + j) / 2))) [
      | inl t ↦ rw t (
          search_loop-IsBorder fuel i ((i + j) / 2) (ground arith) (ground arith) (ground arith) lo
            (λ k p q. mono ((i + j) / 2) k p q t))
      | inr t ↦ rw t (
          search_loop-IsBorder fuel (suc ((i + j) / 2)) j (ground arith) (ground arith) top
            (λ k p. not_yet k ((i + j) / 2) (ground arith) t (omega arith)) hi)
    ])
  ]

  -- On a test that is monotone below n, sort.Search returns the first index at which it holds, or n.
  pub sort_search-IsBorder : IsBorder n f (sort_search n f)
  unfolding sort_search
  sort_search-IsBorder =
      search_loop-IsBorder n 0 n (omega arith) (omega arith) (omega arith)
        (λ k p. absurd (omega arith)) (λ k p q. absurd (omega arith))

All-take :
    (test : Item → Bool) (xs : List Item) (n : ℕ)
    → n ≤ length xs
    → ((k : ℕ) → k < n → at_index test xs k ≡ false)
    → All (λ x. test x ≡ false) (take n xs)
All-take test xs zero le h = tt
All-take test [] (suc n) le h = tt
All-take test (x ∷ xs) (suc n) le h =
    (h 0 (omega arith), All-take test xs n (omega arith) (λ k p. h (suc k) (omega arith)))

All-drop :
    (test : Item → Bool) (xs : List Item) (n : ℕ)
    → ((k : ℕ) → n ≤ k → k < length xs → at_index test xs k ≡ true)
    → All (λ x. test x ≡ true) (drop n xs)
All-drop test [] zero h = tt
All-drop test (x ∷ xs) zero h = (
  h 0 (omega arith) (omega arith),
  All-drop test xs zero (λ k p q. h (suc k) (omega arith) (omega arith)),
)
All-drop test [] (suc n) h = tt
All-drop test (x ∷ xs) (suc n) h =
    All-drop test xs n (λ k p q. h (suc k) (omega arith) (omega arith))

-- in a list by priority, an item that is above one is above all that follow
All-above :
    (p : Item) (x : Item) (xs : List Item) (k : ℕ)
    → All (λ y. above y x ≡ false) xs
    → above p x ≡ true
    → k < length xs
    → at_index (above p) xs k ≡ true
All-above p x [] k h a lt = absurd (omega arith)
All-above p x (y ∷ ys) zero h a lt = above_trans p x y a h.0
All-above p x (y ∷ ys) (suc k) h a lt = All-above p x ys k h.1 a (omega arith)

Sorted-IsMonotone :
    (p : Item) (xs : List Item) → Sorted xs → IsMonotone (length xs) (at_index (above p) xs)
Sorted-IsMonotone p [] s a b le lt h = absurd (omega arith)
Sorted-IsMonotone p (x ∷ xs) s zero zero le lt h = h
Sorted-IsMonotone p (x ∷ xs) s zero (suc b) le lt h = All-above p x xs b s.0 h (omega arith)
Sorted-IsMonotone p (x ∷ xs) s (suc a) zero le lt h = absurd (omega arith)
Sorted-IsMonotone p (x ∷ xs) s (suc a) (suc b) le lt h =
    Sorted-IsMonotone p xs s.1 a b (omega arith) (omega arith) h

-- In a pool by priority, Add finds the place behind the items that its item is not above, and
-- before those that it is above.
pub insert_position_lem :
    (p : Item) (xs : List Item)
    → Sorted xs
    → (insert_position p xs ≤ length xs)
      × All (λ x. above p x ≡ false) (take (insert_position p xs) xs)
      × All (λ x. above p x ≡ true) (drop (insert_position p xs) xs)
unfolding insert_position
insert_position_lem p xs s =
    let border = sort_search-IsBorder (Sorted-IsMonotone p xs s) in
    (
      border.in_range,
      All-take (above p) xs _ border.in_range border.below,
      All-drop (above p) xs _ border.from,
    )

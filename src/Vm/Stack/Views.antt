-- ===== src/Vm/Stack/Views.antt =====
-- The operations on a stack as its user sees them, by the distance of an element from the top.
use koala_tblockchain_golang.Shared.{
  ℕ, zero, suc, ◌+◌, ◌-◌, ◌*◌, ◌<◌, ◌≤◌, ◌≡◌, refl, ap, ◌∙◌, ◌==◌, ltb, leb, ◌&&◌, if◌then◌else◌,
  Option, none, some, arith, Bool-cases, inl, inr, true, false,
}
use koala_tblockchain_golang.Shared.Int.{pos}
use koala_tblockchain_golang.Vm.Stack.{
  Stack, Err, swap_elems, reverse_loop, swap, reverse_top, roll, push, peek, insert_at, inserted,
  removed, remove_at,
}

-- where the loop of ReverseTop takes the element at k from, with the sum of its ends fixed
abbrev mirrored : ℕ → ℕ → ℕ → ℕ
mirrored i j k = if leb i k && leb k j then i + j - k else k

mirrored-swap_elems :
    {E : Type 0} (i j : ℕ) (a : ℕ → E) (k : ℕ)
    → leb i (suc j) ≡ true
    → swap_elems i (suc j) a (mirrored (suc i) j k) ≡ a (mirrored i (suc j) k)
unfolding swap_elems
mirrored-swap_elems i j a k e = ground (arith, e)

reverse_loop_lem :
    {E : Type 0} (fuel i j : ℕ) (a : ℕ → E) (k : ℕ)
    → j < i + fuel * 2
    → reverse_loop fuel i j a k ≡ a (mirrored i j k)
unfolding reverse_loop swap_elems
reverse_loop_lem zero i j a k le = ground arith
reverse_loop_lem (suc fuel) i zero a k le =
    ground (arith, reverse_loop_lem fuel (suc i) 0 (swap_elems i 0 a) k)
reverse_loop_lem (suc fuel) i (suc j) a k le = elim (Bool-cases (leb i (suc j))) [
  | inr e ↦ rw e (ground (arith, e))
  | inl e ↦
      let p : suc j - 1 ≡ j = omega arith in
      rw (e, p)
        (reverse_loop_lem fuel (suc i) j (swap_elems i (suc j) a) k (omega arith)
          ∙ mirrored-swap_elems i j a k e)
]

-- where the element k below the top comes from
abbrev pub exchanged : ℕ → ℕ → ℕ → ℕ
exchanged n1 n2 k = if k == n1 then n2 else if k == n2 then n1 else k

abbrev pub rolled : ℕ → ℕ → ℕ
rolled n k = if k == 0 then n else if leb k n then k - 1 else k

abbrev pub reversed : ℕ → ℕ → ℕ
reversed n k = if ltb k n then n - 1 - k else k

module _ {E R : Type 0} where
  -- the element k below the top
  abbrev pub below_top : Stack E R → ℕ → E
  below_top s k = s.elems (s.len - 1 - k)

  -- what Swap, ReverseTop and Roll do to a stack whose element k below the top comes from `from k`
  abbrev pub IsPermuted : (ℕ → ℕ) → Stack E R → Stack E R × Option Err → Type 0
  IsPermuted from s r =
      (r.1 ≡ none)
      × (r.0.len ≡ s.len)
      × (r.0.refs ≡ s.refs)
      × ((k : ℕ) → k < s.len → below_top r.0 k ≡ below_top s (from k))

  -- Swap of two positions in the stack exchanges the two elements, and touches nothing else.
  pub swap_lem :
      (n1 n2 : ℕ) (s : Stack E R)
      → n1 < s.len
      → n2 < s.len
      → IsPermuted (exchanged n1 n2) s (swap (pos n1) (pos n2) s)
  unfolding swap swap_elems
  swap_lem n1 n2 s h1 h2 = (ground arith, ground arith, ground arith, λ k lt. ground arith)

  -- Roll of a position in the stack brings its element to the top and moves those above it down.
  pub roll_lem : (n : ℕ) (s : Stack E R) → n < s.len → IsPermuted (rolled n) s (roll (pos n) s)
  unfolding roll
  roll_lem n s h = (ground arith, ground arith, ground arith, λ k lt. ground arith)

  -- ReverseTop of at most all elements reverses the order of the n on top.
  pub reverse_top_lem :
      (n : ℕ) (s : Stack E R) → n ≤ s.len → IsPermuted (reversed n) s (reverse_top (pos n) s)
  unfolding reverse_top
  reverse_top_lem n s h = (
    ground arith,
    ground arith,
    ground arith,
    λ k lt. elim (Bool-cases (leb n 1)) [
      | inl e ↦ rw e (ground (arith, e))
      | inr e ↦ ground (
        arith,
        e,
        reverse_loop_lem n (s.len - n) (s.len - 1) s.elems (s.len - 1 - k) (ground (arith, e)),
      )
    ],
  )

  -- the stack `s'` has the elements of s at the same places
  abbrev pub SameElems : Stack E R → Stack E R → Type 0
  SameElems s s' = (s'.len ≡ s.len) × ((k : ℕ) → k < s.len → below_top s' k ≡ below_top s k)

  module _ (add : E → R → R) (remove : E → R → R) where
    inserted_elem :
        (e : E) (n : ℕ) (s : Stack E R)
        → n ≤ s.len
        → (inserted add remove e n s).elems (suc s.len - 1 - n) ≡ e
    inserted_elem e n s h = ground arith

    in_range : (n : ℕ) (s : Stack E R) → n ≤ s.len → leb (suc s.len) n ≡ false
    in_range n s h = ground arith

    -- What InsertAt puts n below the top is there for Peek, and RemoveAt gives it back and leaves the
    -- elements as they were, the counter with one Add and one Remove of it.
    pub remove_at-insert_at :
        (e : E) (n : ℕ) (s : Stack E R)
        → n ≤ s.len
        → (s' : Stack E R) × (insert_at add remove e n s ≡ some s')
          × (peek n s' ≡ some e)
          × (s'' : Stack E R) × (remove_at add remove n s' ≡ some (s'', e))
          × SameElems s s''
          × (s''.refs ≡ remove e (add e s.refs))
    unfolding insert_at remove_at peek
    remove_at-insert_at e n s h = (
      inserted add remove e n s,
      ground arith,
      ground arith,
      removed add remove n (inserted add remove e n s),
      rw (in_range n s h) (
          ap (λ x. some (removed add remove n (inserted add remove e n s), x))
            (inserted_elem e n s h)),
      (ground arith, λ k lt. ground arith),
      ap (λ x. remove x (add e s.refs)) (inserted_elem e n s h),
    )

    -- InsertAt at 0 is Push: it puts the same elements on the stack, and tells the counter the same.
    pub insert_at-push :
        (e : E) (s : Stack E R)
        → (s' : Stack E R) × (insert_at add remove e 0 s ≡ some s')
          × SameElems (push add remove e s) s'
          × (s'.refs ≡ (push add remove e s).refs)
    unfolding insert_at push
    insert_at-push e s =
        (inserted add remove e 0 s, ground arith, (refl, λ k lt. ground arith), refl)

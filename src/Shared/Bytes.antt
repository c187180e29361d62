-- ===== src/Shared/Bytes.antt =====
-- Byte strings: equality, the order of bytes.Compare, and prefixes.
use Prim.Native.Nat.{ℕ}
use mathlib.Core.Path.{◌≡◌, refl}
use mathlib.Core.Logic.{◌⊎◌, inl, inr}
use mathlib.Core.Bool.{Bool, true, false, ◌&&◌}
use mathlib.Core.List.{List, [], ◌∷◌}
use native.Mathlib.Omega.{arith}
use koala_tblockchain_golang.Shared.Tests.{ltb, ◌==◌, ==_iff, Bool-cases, if◌then◌else◌}

-- bytes.Equal, and equality of hashes
unfoldable pub equals : List ℕ → List ℕ → Bool
equals [] [] = true
equals [] (y ∷ ys) = false
equals (x ∷ xs) [] = false
equals (x ∷ xs) (y ∷ ys) = (x == y) && equals xs ys

pub equals_sound : (a b : List ℕ) → equals a b ≡ true → a ≡ b
unfolding equals
equals_sound [] [] h = refl
equals_sound [] (y ∷ ys) h = absurd cc
equals_sound (x ∷ xs) [] h = absurd cc
equals_sound (x ∷ xs) (y ∷ ys) h = elim (Bool-cases (x == y)) [
  | inl e ↦ cc ((==_iff x y).0 e, equals_sound xs ys (rw e at h))
  | inr e ↦ absurd (ground (arith, e, h))
]

pub equals_self : (a : List ℕ) → equals a a ≡ true
unfolding equals
equals_self [] = refl
equals_self (x ∷ xs) = ground (arith, equals_self xs)

pub equals_complete : (a b : List ℕ) → a ≡ b → equals a b ≡ true
equals_complete a b e = rw e (equals_self b)

-- bytes.Compare(a, b) < 0
unfoldable pub less : List ℕ → List ℕ → Bool
less [] [] = false
less [] (y ∷ ys) = true
less (x ∷ xs) [] = false
less (x ∷ xs) (y ∷ ys) = if x == y then less xs ys else ltb x y

pub less_irrefl : (a : List ℕ) → less a a ≡ false
unfolding less
less_irrefl [] = refl
less_irrefl (x ∷ xs) = ground (arith, less_irrefl xs)

pub less_trans : (a b c : List ℕ) → less a b ≡ true → less b c ≡ true → less a c ≡ true
unfolding less
less_trans [] [] c h k = cc
less_trans [] (y ∷ ys) [] h k = cc
less_trans [] (y ∷ ys) (z ∷ zs) h k = refl
less_trans (x ∷ xs) [] c h k = cc
less_trans (x ∷ xs) (y ∷ ys) [] h k = cc
less_trans (x ∷ xs) (y ∷ ys) (z ∷ zs) h k = ground (arith, less_trans xs ys zs)

-- any two byte strings are comparable
pub less_cases : (a b : List ℕ) → (less a b ≡ true) ⊎ ((a ≡ b) ⊎ (less b a ≡ true))
unfolding less
less_cases [] [] = inr (inl refl)
less_cases [] (y ∷ ys) = inl refl
less_cases (x ∷ xs) [] = inr (inr refl)
less_cases (x ∷ xs) (y ∷ ys) = elim (Bool-cases (x == y)) [
  | inr e ↦ elim (Bool-cases (ltb x y)) [
    | inl l ↦ inl (ground (arith, e, l))
    | inr l ↦ inr (inr (ground (arith, e, l)))
  ]
  | inl e ↦ elim (less_cases xs ys) [
    | inl l ↦ inl (rw e l)
    | inr (inl same) ↦ inr (inl (ground (arith, e, same)))
    | inr (inr l) ↦ inr (inr (ground (arith, e, l)))
  ]
]

pub less_asym : (a b : List ℕ) → less a b ≡ true → less b a ≡ false
unfolding less
less_asym [] [] h = refl
less_asym [] (y ∷ ys) h = refl
less_asym (x ∷ xs) [] h = cc
less_asym (x ∷ xs) (y ∷ ys) h = ground (arith, less_asym xs ys)

pub less-ne : (a b : List ℕ) → less a b ≡ true → equals a b ≡ false
unfolding less equals
less-ne [] [] h = cc
less-ne [] (y ∷ ys) h = refl
less-ne (x ∷ xs) [] h = refl
less-ne (x ∷ xs) (y ∷ ys) h = ground (arith, less-ne xs ys)

pub equals_sym : (a b : List ℕ) → equals a b ≡ equals b a
unfolding equals
equals_sym [] [] = refl
equals_sym [] (y ∷ ys) = refl
equals_sym (x ∷ xs) [] = refl
equals_sym (x ∷ xs) (y ∷ ys) = ground (arith, equals_sym xs ys)

-- bytes.HasPrefix(s, p)
unfoldable pub has_prefix : List ℕ → List ℕ → Bool
has_prefix s [] = true
has_prefix [] (y ∷ ys) = false
has_prefix (x ∷ xs) (y ∷ ys) = (x == y) && has_prefix xs ys

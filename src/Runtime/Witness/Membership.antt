-- ===== src/Runtime/Witness/Membership.antt =====
-- The comparisons and the loops of witness.go that look for an element.
use koala_tblockchain_golang.Shared.{
  ℕ, ◌≡◌, ◌⊎◌, inl, inr, refl, List, [], ◌∷◌, Bool, true, arith, Bool-cases,
}
use koala_tblockchain_golang.Shared.Bytes.{equals, equals_sound, equals_complete}
use koala_tblockchain_golang.Runtime.Witness.{any_equal, contains, any_contained}

-- some element of the list has the property
abbrev pub Any : {A : Type 0} → (A → Type 0) → List A → Type 0
Any P [] = ⊥
Any P (x ∷ xs) = P x ⊎ Any P xs

pub any_equal_sound :
    (h : List ℕ) (hs : List (List ℕ)) → any_equal h hs ≡ true → Any (λ allowed. allowed ≡ h) hs
unfolding any_equal
any_equal_sound h [] e = absurd cc
any_equal_sound h (x ∷ xs) e = elim (Bool-cases (equals x h)) [
  | inl same ↦ inl (equals_sound x h same)
  | inr other ↦ inr (any_equal_sound h xs (rw other at e))
]

pub any_equal_complete :
    (h : List ℕ) (hs : List (List ℕ)) → Any (λ allowed. allowed ≡ h) hs → any_equal h hs ≡ true
unfolding any_equal
any_equal_complete h [] a = absurd a
any_equal_complete h (x ∷ xs) (inl e) = rw (equals_complete x h e) refl
any_equal_complete h (x ∷ xs) (inr a) = ground (arith, any_equal_complete h xs a)

module _ {K : Type 0} (key_equal : K → K → Bool) where
  pub any_contained_sound :
      (gs ks : List K)
      → any_contained key_equal gs ks ≡ true
      → Any (λ k. contains key_equal gs k ≡ true) ks
  unfolding any_contained
  any_contained_sound gs [] e = absurd cc
  any_contained_sound gs (k ∷ ks) e = elim (Bool-cases (contains key_equal gs k)) [
    | inl same ↦ inl same
    | inr other ↦ inr (any_contained_sound gs ks (rw other at e))
  ]

  pub any_contained_complete :
      (gs ks : List K)
      → Any (λ k. contains key_equal gs k ≡ true) ks
      → any_contained key_equal gs ks ≡ true
  unfolding any_contained
  any_contained_complete gs [] a = absurd a
  any_contained_complete gs (k ∷ ks) (inl e) = rw e refl
  any_contained_complete gs (k ∷ ks) (inr a) = ground (arith, any_contained_complete gs ks a)

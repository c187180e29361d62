-- ===== src/Storage/Seek/Sorting.antt =====
-- The snapshot of the maps that a seek takes: sorted, cut down to a prefix, and nothing lost.
use koala_tblockchain_golang.Shared.{
  ◌≡◌, refl, ap, ◌∙◌, List, [], ◌∷◌, none, some, true, if◌then◌else◌, arith, Bool-cases, inl, inr,
}
use koala_tblockchain_golang.Shared.Bytes.{equals, equals_sound, less, equals_sym, has_prefix}
use koala_tblockchain_golang.Storage.Memory.{Bytes, lookup, insert_sorted, sort_by_key, with_prefix}
use koala_tblockchain_golang.Storage.Memory.Changes.{IsMap}
use koala_tblockchain_golang.Storage.Seek.Overlay.{Above, Ascending, Above-trans, less_after}

module _ {A : Type 0} where
  lookup-insert_sorted :
      (j k : Bytes) (a : A) (m : List (Bytes × A))
      → lookup k m ≡ none
      → lookup j (insert_sorted (k, a) m) ≡ (if equals k j then some a else lookup j m)
  unfolding lookup insert_sorted
  lookup-insert_sorted j k a [] h = refl
  lookup-insert_sorted j k a ((i, b) ∷ m) h = elim (Bool-cases (less k i)) [
    | inl l ↦ rw l refl
    | inr l ↦ elim (Bool-cases (equals i k)) [
      | inl e ↦ absurd (cc (rw e at h))
      | inr e ↦
          let h' : lookup k m ≡ none = rw e at h in
          elim (Bool-cases (equals i j)) [
            | inl f ↦ rw (l, f) (rw (← equals_sound i j f, equals_sym k i, e) refl)
            | inr f ↦ rw (l, f) (lookup-insert_sorted j k a m h')
          ]
    ]
  ]

  pub lookup-sort_by_key :
      (j : Bytes) (m : List (Bytes × A)) → IsMap m → lookup j (sort_by_key m) ≡ lookup j m
  unfolding lookup sort_by_key
  lookup-sort_by_key j [] h = refl
  lookup-sort_by_key j ((k, a) ∷ m) h =
      lookup-insert_sorted j k a (sort_by_key m) (lookup-sort_by_key k m h.1 ∙ h.0)
      ∙ ap (λ v. if equals k j then some a else v) (lookup-sort_by_key j m h.1)

  insert_sorted-Above :
      (b k : Bytes) (a : A) (m : List (Bytes × A))
      → less b k ≡ true
      → Above b m
      → Above b (insert_sorted (k, a) m)
  unfolding insert_sorted
  insert_sorted-Above b k a [] l h = (l, tt)
  insert_sorted-Above b k a ((i, x) ∷ m) l h = elim (Bool-cases (less k i)) [
    | inl e ↦ rw e (l, h)
    | inr e ↦ rw e (h.0, insert_sorted-Above b k a m l h.1)
  ]

  insert_sorted-Ascending :
      (k : Bytes) (a : A) (m : List (Bytes × A))
      → lookup k m ≡ none
      → Ascending m
      → Ascending (insert_sorted (k, a) m)
  unfolding insert_sorted lookup
  insert_sorted-Ascending k a [] n h = (tt, tt)
  insert_sorted-Ascending k a ((i, x) ∷ m) n h = elim (Bool-cases (less k i)) [
    | inl l ↦ rw l ((l, Above-trans k i m l h.0), h)
    | inr l ↦ elim (Bool-cases (equals i k)) [
      | inl e ↦ absurd (cc (rw e at n))
      | inr e ↦
          let after : less i k ≡ true = ground (arith, less_after k i l, equals_sym k i, e) in
          rw l
            (insert_sorted-Above i k a m after h.0, insert_sorted-Ascending k a m (rw e at n) h.1)
    ]
  ]

  pub sort_by_key-Ascending : (m : List (Bytes × A)) → IsMap m → Ascending (sort_by_key m)
  unfolding sort_by_key
  sort_by_key-Ascending [] h = tt
  sort_by_key-Ascending ((k, a) ∷ m) h =
      insert_sorted-Ascending k a (sort_by_key m) (lookup-sort_by_key k m h.1 ∙ h.0)
        (sort_by_key-Ascending m h.1)

  pub lookup-with_prefix :
      (j prefix : Bytes) (m : List (Bytes × A))
      → lookup j (with_prefix prefix m) ≡ (if has_prefix j prefix then lookup j m else none)
  unfolding lookup with_prefix
  lookup-with_prefix j prefix [] = ground arith
  lookup-with_prefix j prefix ((k, a) ∷ m) = elim (Bool-cases (equals k j)) [
    | inl e ↦ elim (Bool-cases (has_prefix k prefix)) [
      | inl p ↦ rw (p, e, ← equals_sound k j e, p) refl
      | inr p ↦ rw (p, e, lookup-with_prefix j prefix m, ← equals_sound k j e, p) refl
    ]
    | inr e ↦ elim (Bool-cases (has_prefix k prefix)) [
      | inl p ↦ rw (p, e, lookup-with_prefix j prefix m) refl
      | inr p ↦ rw (p, e, lookup-with_prefix j prefix m) refl
    ]
  ]

  pub with_prefix-IsMap :
      (prefix : Bytes) (m : List (Bytes × A)) → IsMap m → IsMap (with_prefix prefix m)
  unfolding with_prefix
  with_prefix-IsMap prefix [] h = tt
  with_prefix-IsMap prefix ((k, a) ∷ m) h = elim (Bool-cases (has_prefix k prefix)) [
    | inl p ↦ rw p (rw (lookup-with_prefix k prefix m, p) h.0, with_prefix-IsMap prefix m h.1)
    | inr p ↦ rw p (with_prefix-IsMap prefix m h.1)
  ]

-- ===== src/Vm/Slot/Access.antt =====
-- Reading a slot after writing one.
use koala_tblockchain_golang.Shared.{
  ℕ, ◌≡◌, ◌≢◌, ◌==◌, Bool, true, false, if◌then◌else◌, Option, none, some, arith, Bool-cases, inl,
  inr, ap, refl, ==-self,
}
use koala_tblockchain_golang.Vm.Slot.{Slot, in_slice, get, set, is_same, remove_old}

module _ {E R : Type 0} (same : E → E → Bool) (add : E → R → R) (remove : Option E → R → R)
    (same_sound : (a b : E) → same a b ≡ true → a ≡ b) where
  is_same_sound : (o : Option E) (item : E) → is_same same add remove o item ≡ true → o ≡ some item
  is_same_sound none item e = absurd cc
  is_same_sound (some old) item e = ap some (same_sound old item e)

  -- Set at an index in the slice does not panic; after it, Get at that index has the item, at any
  -- other what it had before, and the size is the same. `same` is true of equal items only.
  pub get-set :
      (null item : E) (i : ℕ) (s : Slot E R)
      → in_slice s.slice_len i ≡ true
      → (s' : Slot E R) × (set same add remove i item s ≡ some s')
        × (get null i s' ≡ some item)
        × ((j : ℕ) → j ≢ i → get null j s' ≡ get null j s)
        × (s'.slice_len ≡ s.slice_len)
  unfolding get set
  get-set null item i s h = elim (Bool-cases (is_same same add remove (s.storage i) item)) [
    | inl e ↦
        (s, rw (h, e) refl, rw (h, is_same_sound (s.storage i) item e) refl, (λ j ne. refl), refl)
    | inr e ↦ (
      record s {
        storage = λ j. if j == i then some item else s.storage j;
        refs = add item (remove_old same add remove (s.storage i) s.refs);
      },
      rw (h, e) refl,
      rw (h, ==-self i) refl,
      (λ j ne. rw (differs j i ne) refl),
      refl,
    )
  ]
    where
      differs : (j i : ℕ) → j ≢ i → (j == i) ≡ false
      differs j i ne = ground arith

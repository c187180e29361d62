-- ===== src/Vm/Slot.antt =====
-- pkg/vm/slot.go: the slots of local variables, arguments and static fields. A nil slice has no size;
-- a nil item is `none`. The reference counter, and the comparison of two items as Go interfaces, are
-- parameters. A panic is `none`.
pub mod Access
use koala_tblockchain_golang.Shared.{
  ℕ, zero, suc, ◌==◌, ltb, Bool, true, false, if◌then◌else◌, Option, none, some,
}

pub record Slot (E R : Type 0) : Type 0 where
  pub storage : ℕ → Option E
  pub slice_len : Option ℕ
  pub refs : R

abbrev pub in_slice : Option ℕ → ℕ → Bool
in_slice none i = false
in_slice (some n) i = ltb i n

abbrev pub item_or : {E : Type 0} → E → Option E → E
item_or null none = null
item_or null (some item) = item

module _ {E R : Type 0} where
  unfoldable pub new_slot : R → Slot E R
  new_slot refs = record { storage = λ i. none; slice_len = none; refs = refs }

  unfoldable pub init : ℕ → Slot E R → Option (Slot E R)
  init n s = elim s.slice_len [
    | some m ↦ none
    | none ↦ some (record s { storage = λ i. none; slice_len = some n })
  ]

  -- Get, where `null` is stackitem.Null
  unfoldable pub get : E → ℕ → Slot E R → Option E
  get null i s = if in_slice s.slice_len i then some (item_or null (s.storage i)) else none

  unfoldable pub size : Slot E R → Option ℕ
  size s = s.slice_len

  module _ (same : E → E → Bool) (add : E → R → R) (remove : Option E → R → R) where
    abbrev pub is_same : Option E → E → Bool
    is_same none item = false
    is_same (some old) item = same old item

    abbrev pub remove_old : Option E → R → R
    remove_old none r = r
    remove_old (some old) r = remove (some old) r

    unfoldable pub set : ℕ → E → Slot E R → Option (Slot E R)
    set i item s =
        let changed : Slot E R = record s {
          storage = λ j. if j == i then some item else s.storage j;
          refs = add item (remove_old (s.storage i) s.refs);
        } in
        if in_slice s.slice_len i
        then some (if is_same (s.storage i) item then s else changed)
        else none

    -- the loop of Clear, which leaves the items
    unfoldable pub remove_all : ℕ → (ℕ → Option E) → R → R
    remove_all zero storage r = r
    remove_all (suc n) storage r = remove (storage n) (remove_all n storage r)

    unfoldable pub clear : Slot E R → Slot E R
    clear s = elim s.slice_len [
      | none ↦ s
      | some n ↦ record s { refs = remove_all n s.storage s.refs }
    ]

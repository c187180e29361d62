-- ===== src/Storage/Memory/Maps.antt =====
-- The laws of the maps: a lookup after each change.
use koala_tblockchain_golang.Shared.{
  ◌≡◌, refl, List, [], ◌∷◌, none, some, true, ◌||◌, ◌&&◌, not, if◌then◌else◌, arith,
}
use koala_tblockchain_golang.Shared.Bytes.{equals, equals_sound}
use koala_tblockchain_golang.Storage.Memory.{
  Bytes, lookup, assign, erase, member, add_key, erase_key,
}

-- equal keys compare alike
equals_same : (i j k : Bytes) → equals i j ≡ true → equals i k ≡ equals j k
equals_same i j k h = rw (equals_sound i j h)

equals_same_right : (i j k : Bytes) → equals k j ≡ true → equals i k ≡ equals i j
equals_same_right i j k h = rw (equals_sound k j h)

pub lookup-assign {ℓ} :
    {A : Type ℓ} (j k : Bytes) (v : A) (m : List (Bytes × A))
    → lookup j (assign k v m) ≡ (if equals k j then some v else lookup j m)
unfolding lookup assign
lookup-assign j k v [] = refl
lookup-assign j k v ((i, w) ∷ m) =
    ground (arith, equals_same i k j, equals_same_right i j k, lookup-assign j k v m)

pub lookup-erase {ℓ} :
    {A : Type ℓ} (j k : Bytes) (m : List (Bytes × A))
    → lookup j (erase k m) ≡ (if equals k j then none else lookup j m)
unfolding lookup erase
lookup-erase j k [] = ground arith
lookup-erase j k ((i, w) ∷ m) =
    ground (arith, equals_same i k j, equals_same_right i j k, lookup-erase j k m)

pub member-add_key :
    (j k : Bytes) (d : List Bytes) → member j (add_key k d) ≡ equals k j || member j d
unfolding member add_key
member-add_key j k [] = refl
member-add_key j k (i ∷ d) =
    ground (arith, equals_same i k j, equals_same_right i j k, member-add_key j k d)

pub member-erase_key :
    (j k : Bytes) (d : List Bytes) → member j (erase_key k d) ≡ not (equals k j) && member j d
unfolding member erase_key
member-erase_key j k [] = ground arith
member-erase_key j k (i ∷ d) =
    ground (arith, equals_same i k j, equals_same_right i j k, member-erase_key j k d)

pub ruleset map_laws = (lookup-assign, lookup-erase, member-add_key, member-erase_key)

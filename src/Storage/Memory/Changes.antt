-- ===== src/Storage/Memory/Changes.antt =====
-- The in-memory store as a map from keys to values: what each method does to it.
use koala_tblockchain_golang.Shared.{
  ◌≡◌, refl, ap, sym, ◌∙◌, List, [], ◌∷◌, Option, none, some, true, false, if◌then◌else◌, arith,
  Bool-cases, inl, inr,
}
use koala_tblockchain_golang.Shared.Bytes.{equals, equals_sound, equals_sym}
use koala_tblockchain_golang.Storage.Memory.{
  Bytes, Entries, lookup, assign, erase, member, add_key, erase_key, MemoryStore, memory_get, put,
  drop, put_all, drop_all, put_change_set,
}
use koala_tblockchain_golang.Storage.Memory.Maps.{
  lookup-assign, lookup-erase, member-add_key, member-erase_key,
}

-- the entries have no key twice
abbrev pub IsMap : {A : Type 0} → List (Bytes × A) → Type 0
IsMap [] = Unit
IsMap ((k, v) ∷ m) = (lookup k m ≡ none) × IsMap m

abbrev pub IsSetOfKeys : List Bytes → Type 0
IsSetOfKeys [] = Unit
IsSetOfKeys (k ∷ d) = (member k d ≡ false) × IsSetOfKeys d

-- A key is in at most one of the two maps, and has one value.
pub record IsConsistent (s : MemoryStore) : Type 0 where
  pub apart : (k : Bytes) → member k s.del ≡ true → lookup k s.mem ≡ none
  pub one_value : IsMap s.mem
  pub once : IsSetOfKeys s.del

lookup-assign_ne :
    (j k v : Bytes) (m : Entries) → equals k j ≡ false → lookup j (assign k v m) ≡ lookup j m
lookup-assign_ne j k v m h = rw (lookup-assign j k v m, h)

assign-IsMap : (k v : Bytes) (m : Entries) → IsMap m → IsMap (assign k v m)
unfolding assign lookup
assign-IsMap k v [] h = (refl, tt)
assign-IsMap k v ((j, w) ∷ m) h = elim (Bool-cases (equals j k)) [
  | inl e ↦ rw e h
  | inr e ↦
      rw e (ground (arith, lookup-assign_ne j k v m, equals_sym j k, h.0), assign-IsMap k v m h.1)
]

erase-IsMap : (k : Bytes) (m : Entries) → IsMap m → IsMap (erase k m)
unfolding erase
erase-IsMap k [] h = tt
erase-IsMap k ((j, w) ∷ m) h = elim (Bool-cases (equals j k)) [
  | inl e ↦ rw e (erase-IsMap k m h.1)
  | inr e ↦ rw e (ground (arith, lookup-erase j k m, equals_sym j k, h.0), erase-IsMap k m h.1)
]

add_key-IsSetOfKeys : (k : Bytes) (d : List Bytes) → IsSetOfKeys d → IsSetOfKeys (add_key k d)
unfolding add_key member
add_key-IsSetOfKeys k [] h = (refl, tt)
add_key-IsSetOfKeys k (j ∷ d) h = elim (Bool-cases (equals j k)) [
  | inl e ↦ rw e h
  | inr e ↦
      rw e (ground (arith, member-add_key j k d, equals_sym j k, h.0), add_key-IsSetOfKeys k d h.1)
]

erase_key-IsSetOfKeys : (k : Bytes) (d : List Bytes) → IsSetOfKeys d → IsSetOfKeys (erase_key k d)
unfolding erase_key
erase_key-IsSetOfKeys k [] h = tt
erase_key-IsSetOfKeys k (j ∷ d) h = elim (Bool-cases (equals j k)) [
  | inl e ↦ rw e (erase_key-IsSetOfKeys k d h.1)
  | inr e ↦ rw e (ground (arith, member-erase_key j k d, h.0), erase_key-IsSetOfKeys k d h.1)
]

pub put-IsConsistent : (k v : Bytes) (s : MemoryStore) → IsConsistent s → IsConsistent (put k v s)
unfolding put
put-IsConsistent k v s c = record {
  apart = λ j h. ground (arith, lookup-assign j k v s.mem, member-erase_key j k s.del, c.apart j);
  one_value = assign-IsMap k v s.mem c.one_value;
  once = erase_key-IsSetOfKeys k s.del c.once;
}

pub drop-IsConsistent : (k : Bytes) (s : MemoryStore) → IsConsistent s → IsConsistent (drop k s)
unfolding drop
drop-IsConsistent k s c = record {
  apart = λ j h. ground (arith, lookup-erase j k s.mem, member-add_key j k s.del, c.apart j);
  one_value = erase-IsMap k s.mem c.one_value;
  once = add_key-IsSetOfKeys k s.del c.once;
}

-- the first value that is there
abbrev pub or_else : Option Bytes → Option Bytes → Option Bytes
or_else (some v) w = some v
or_else none w = w

-- the value under a key after a change set
abbrev pub changed : Entries → List Bytes → (Bytes → Option Bytes) → Bytes → Option Bytes
changed puts dels before k = if member k dels then none else or_else (lookup k puts) (before k)

get-put_all :
    (puts : Entries) (s : MemoryStore) (k : Bytes)
    → IsMap puts
    → lookup k (put_all puts s).mem ≡ or_else (lookup k puts) (lookup k s.mem)
unfolding put_all put lookup
get-put_all [] s k h = refl
get-put_all ((j, v) ∷ puts) s k h = elim (Bool-cases (equals j k)) [
  | inl e ↦
      rw (get-put_all puts (put j v s) k h.1, lookup-assign k j v s.mem, e)
        (rw (ap (λ x. lookup x puts) (sym (equals_sound j k e)) ∙ h.0) refl)
  | inr e ↦ rw (get-put_all puts (put j v s) k h.1, lookup-assign k j v s.mem, e) refl
]

get-drop_all :
    (dels : List Bytes) (s : MemoryStore) (k : Bytes)
    → lookup k (drop_all dels s).mem ≡ (if member k dels then none else lookup k s.mem)
unfolding drop_all drop member
get-drop_all [] s k = refl
get-drop_all (j ∷ dels) s k =
    rw (get-drop_all dels (drop j s) k, lookup-erase k j s.mem) (ground arith)

-- After PutChangeSet a key has no value if it is among the deletions, its new value if it is among
-- the puts and not the deletions, and the value it had otherwise.
pub memory_get-put_change_set :
    (puts : Entries) (dels : List Bytes) (s : MemoryStore) (k : Bytes)
    → IsMap puts
    → memory_get k (put_change_set puts dels s) ≡ changed puts dels (λ j. memory_get j s) k
unfolding memory_get put_change_set
memory_get-put_change_set puts dels s k h =
    rw (get-drop_all dels (put_all puts s) k, get-put_all puts s k h)

-- ===== src/Storage/Memory.antt =====
-- pkg/core/storage/memory_store.go. A Go map that is ranged over is an association list with one
-- entry for a key, in the order in which Go happens to visit it. The lock is not modelled: every
-- method holds it to its end. Copies of slices leave no trace.
pub mod Maps
pub mod Changes
use koala_tblockchain_golang.Shared.{
  ℕ, List, [], ◌∷◌, Option, none, some, Bool, false, ◌||◌, if◌then◌else◌,
}
use koala_tblockchain_golang.Shared.Bytes.{equals, less, has_prefix}

-- string(key) and a value
abbrev pub Bytes : Type 0
Bytes = List ℕ

-- map[string][]byte and map[string]bool
abbrev pub Entries : Type 0
Entries = List (Bytes × Bytes)

unfoldable pub lookup {ℓ} : {A : Type ℓ} → Bytes → List (Bytes × A) → Option A
lookup k [] = none
lookup k ((j, v) ∷ m) = let rest = lookup k m in if equals j k then some v else rest

-- m[k] = v
unfoldable pub assign {ℓ} : {A : Type ℓ} → Bytes → A → List (Bytes × A) → List (Bytes × A)
assign k v [] = (k, v) ∷ []
assign k v ((j, w) ∷ m) =
    let rest = assign k v m in if equals j k then (j, v) ∷ m else (j, w) ∷ rest

-- delete(m, k)
unfoldable pub erase {ℓ} : {A : Type ℓ} → Bytes → List (Bytes × A) → List (Bytes × A)
erase k [] = []
erase k ((j, w) ∷ m) = let rest = erase k m in if equals j k then rest else (j, w) ∷ rest

unfoldable pub member : Bytes → List Bytes → Bool
member k [] = false
member k (j ∷ ks) = equals j k || member k ks

-- d[k] = true
unfoldable pub add_key : Bytes → List Bytes → List Bytes
add_key k [] = k ∷ []
add_key k (j ∷ ks) = let rest = add_key k ks in if equals j k then j ∷ ks else j ∷ rest

unfoldable pub erase_key : Bytes → List Bytes → List Bytes
erase_key k [] = []
erase_key k (j ∷ ks) = let rest = erase_key k ks in if equals j k then rest else j ∷ rest

pub record MemoryStore : Type 0 where
  pub mem : Entries
  pub del : List Bytes

-- NewMemoryStore
unfoldable pub new_memory_store : MemoryStore
new_memory_store = record { mem = []; del = [] }

-- Get; `none` is ErrKeyNotFound
unfoldable pub memory_get : Bytes → MemoryStore → Option Bytes
memory_get key s = lookup key s.mem

-- put, and Put behind its lock
unfoldable pub put : Bytes → Bytes → MemoryStore → MemoryStore
put key value s = record { mem = assign key value s.mem; del = erase_key key s.del }

-- drop, and Delete behind its lock
unfoldable pub drop : Bytes → MemoryStore → MemoryStore
drop key s = record { mem = erase key s.mem; del = add_key key s.del }

-- the loops of PutChangeSet
unfoldable pub put_all : Entries → MemoryStore → MemoryStore
put_all [] s = s
put_all ((k, v) ∷ puts) s = put_all puts (put k v s)

unfoldable pub drop_all : List Bytes → MemoryStore → MemoryStore
drop_all [] s = s
drop_all (k ∷ dels) s = drop_all dels (drop k s)

unfoldable pub put_change_set : Entries → List Bytes → MemoryStore → MemoryStore
put_change_set puts dels s = drop_all dels (put_all puts s)

-- sort.Slice by bytes.Compare of the keys, which are different
unfoldable pub insert_sorted {ℓ} : {A : Type ℓ} → Bytes × A → List (Bytes × A) → List (Bytes × A)
insert_sorted (k, a) [] = (k, a) ∷ []
insert_sorted (k, a) ((j, b) ∷ m) =
    let rest = insert_sorted (k, a) m in if less k j then (k, a) ∷ (j, b) ∷ m else (j, b) ∷ rest

unfoldable pub sort_by_key {ℓ} : {A : Type ℓ} → List (Bytes × A) → List (Bytes × A)
sort_by_key [] = []
sort_by_key (kv ∷ m) = insert_sorted kv (sort_by_key m)

-- the entries with a prefix
unfoldable pub with_prefix {ℓ} : {A : Type ℓ} → Bytes → List (Bytes × A) → List (Bytes × A)
with_prefix prefix [] = []
with_prefix prefix ((k, a) ∷ m) =
    let rest = with_prefix prefix m in if has_prefix k prefix then (k, a) ∷ rest else rest

-- seek, and Seek behind its lock: what the callback gets, in order
unfoldable pub memory_seek : Bytes → MemoryStore → Entries
memory_seek prefix s = sort_by_key (with_prefix prefix s.mem)

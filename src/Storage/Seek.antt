-- ===== src/Storage/Seek.antt =====
-- Seek and SeekAsync of pkg/core/storage/memcached_store.go: the snapshot of the maps is merged with
-- what the lower store seeks. The callback's calls are the list of what it gets. That a user cancels
-- SeekAsync is not modelled.
pub mod Overlay
pub mod Sorting
pub mod Agreement
pub mod Cut
use koala_tblockchain_golang.Shared.{
  ℕ, List, [], ◌∷◌, ◌++◌, Option, none, some, Bool, true, false, map, if◌then◌else◌, length, drop,
}
use koala_tblockchain_golang.Shared.Bytes.{equals, less}
use koala_tblockchain_golang.Storage.Memory.{Bytes, Entries, MemoryStore, sort_by_key, with_prefix}
use koala_tblockchain_golang.Storage.Cached.{MemCachedStore}

-- KeyValueExists, where `none` is a deleted key
abbrev pub KeyValueExists : Type 0
KeyValueExists = Bytes × Option Bytes

abbrev live : Bytes × Bytes → KeyValueExists
live (k, v) = (k, some v)

abbrev dead : Bytes → KeyValueExists
dead k = (k, none)

-- memRes, sorted
unfoldable pub mem_results : Bytes → MemoryStore → List KeyValueExists
mem_results key s = sort_by_key (with_prefix key (map live s.mem ++ map dead s.del))

-- `if cutPrefix { k = k[len(key):] }`, where `some n` cuts n bytes
abbrev pub cut_key : Option ℕ → Bytes → Bytes
cut_key none k = k
cut_key (some n) k = drop n k

-- what f gets of kvMem
abbrev pub emit : Option ℕ → KeyValueExists → Entries
emit cut (k, none) = []
emit cut (k, some v) = (cut_key cut k, v) ∷ []

-- kvMem behind the call of f, which has its key cut in place
abbrev pub left_over : Option ℕ → KeyValueExists → KeyValueExists
left_over cut (k, none) = (k, none)
left_over cut (k, some v) = (cut_key cut k, some v)

unfoldable pub emit_all : Option ℕ → List KeyValueExists → Entries
emit_all cut [] = []
emit_all cut (kv ∷ rest) = emit cut kv ++ emit_all cut rest

-- `if !bytes.Equal(kvMem.Key, kvPs.Key) { f(kvPs.Key, kvPs.Value) }`
abbrev pub emit_ps : Option ℕ → KeyValueExists → Bytes × Bytes → Entries
emit_ps cut kv_mem (k, v) = if equals kv_mem.0 k then [] else (cut_key cut k, v) ∷ []

-- the merge once haveMem is false
unfoldable pub merge_done : Option ℕ → KeyValueExists → Entries → Entries
merge_done cut kv_mem [] = []
merge_done cut kv_mem (kv_ps ∷ ps) = emit_ps cut kv_mem kv_ps ++ merge_done cut kv_mem ps

-- The merge while haveMem is true; `rest` is memRes from iMem on.
unfoldable pub merge : Option ℕ → KeyValueExists → List KeyValueExists → Entries → Entries
merge cut kv_mem rest [] = emit_all cut (kv_mem ∷ rest)
merge cut kv_mem [] (kv_ps ∷ ps) =
    let here = emit_ps cut kv_mem kv_ps ++ merge cut kv_mem [] ps in
    if less kv_mem.0 kv_ps.0
    then emit cut kv_mem ++ merge_done cut (left_over cut kv_mem) (kv_ps ∷ ps)
    else here
merge cut kv_mem (next ∷ rest) (kv_ps ∷ ps) =
    let here = emit_ps cut kv_mem kv_ps ++ merge cut kv_mem (next ∷ rest) ps in
    let further = emit cut kv_mem ++ merge cut next rest (kv_ps ∷ ps) in
    if less kv_mem.0 kv_ps.0 then further else here

abbrev merge_all : Option ℕ → List KeyValueExists → Entries → Entries
merge_all cut [] ps = merge_done cut ([], none) ps
merge_all cut (kv_mem ∷ rest) ps = merge cut kv_mem rest ps

-- seek, on what the lower store seeks
unfoldable pub seek_merge : Option ℕ → List KeyValueExists → Entries → Entries
seek_merge cut mem_res ps = merge_all cut mem_res ps

-- Seek, and SeekAsync, which may cut the prefix; `lower_seek` is Seek of the lower store
unfoldable pub cached_seek :
    {S : Type 0} → (Bytes → S → Entries) → Bytes → MemCachedStore S → Entries
cached_seek lower_seek key s = seek_merge none (mem_results key s.store) (lower_seek key s.ps)

unfoldable pub seek_async :
    {S : Type 0} → (Bytes → S → Entries) → Bytes → Bool → MemCachedStore S → Entries
seek_async lower_seek key cut_prefix s =
    seek_merge (if cut_prefix then some (length key) else none) (mem_results key s.store)
      (lower_seek key s.ps)

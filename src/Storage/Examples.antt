-- ===== src/Storage/Examples.antt =====
-- The theorems on stores at concrete inputs.
use koala_tblockchain_golang.Shared.{
  ap, ◌≡◌, refl, [], ◌∷◌, ◌++◌, none, some, true, false, if◌then◌else◌, arith, if-elim, Bool-cases,
  inl, inr,
}
use koala_tblockchain_golang.Shared.Bytes.{equals, equals_sound, less, has_prefix}
use koala_tblockchain_golang.Storage.Memory.{
  Bytes, Entries, lookup, member, memory_seek, sort_by_key, with_prefix, insert_sorted, MemoryStore,
  memory_get, put_change_set,
}
use koala_tblockchain_golang.Storage.Memory.Changes.{
  IsConsistent, changed, memory_get-put_change_set,
}
use koala_tblockchain_golang.Storage.Cached.{
  LowerStore, MemCachedStore, cached_get, cached_lower, persist_begin, persist_end,
}
use koala_tblockchain_golang.Storage.Cached.View.{
  IsLawful, contents, put_change, delete_change, change_all, apply_all,
}
use koala_tblockchain_golang.Storage.Cached.Flush.{persist_lem}
use koala_tblockchain_golang.Storage.Seek.{cached_seek, mem_results, seek_async}
use koala_tblockchain_golang.Storage.Seek.Overlay.{Above, Ascending}
use koala_tblockchain_golang.Storage.Seek.Agreement.{IsSeek, cached_seek-cached_get}
use koala_tblockchain_golang.Storage.Seek.Cut.{cut_loses}

-- the in-memory store as a lower store
abbrev memory_lower : LowerStore MemoryStore
memory_lower = record {
  lower_get = memory_get;
  lower_put = λ puts dels s. some (put_change_set puts dels s);
}

memory_lower-IsLawful : IsLawful memory_lower
memory_lower-IsLawful puts dels s s' k h e =
    rw (← some_eq (put_change_set puts dels s) s' e) (memory_get-put_change_set puts dels s k h)
  where
    some_eq : (t u : MemoryStore) → some t ≡ some u → t ≡ u
    some_eq t u e = cc

-- 1 is new, and 2 is deleted
abbrev small_store : MemoryStore
small_store = record { mem = (1 ∷ [], 10 ∷ []) ∷ []; del = (2 ∷ []) ∷ [] }

abbrev small_cached : MemCachedStore MemoryStore
small_cached = record {
  store = small_store;
  ps = record { mem = (2 ∷ [], 20 ∷ []) ∷ (3 ∷ [], 30 ∷ []) ∷ []; del = [] };
}

small_store-IsConsistent : IsConsistent small_store
unfolding lookup member equals
small_store-IsConsistent = record {
  apart = λ k h. elim (Bool-cases (equals (1 ∷ []) k)) [
    | inl e ↦ absurd (cc (ap (λ j. member j small_store.del) (equals_sound (1 ∷ []) k e), h))
    | inr e ↦ rw e refl
  ];
  one_value = (refl, tt);
  once = (refl, tt);
}

memory_get-put_change_set_example :
    memory_get (2 ∷ []) (put_change_set small_store.mem small_store.del small_cached.ps)
    ≡ changed small_store.mem small_store.del (λ j. memory_get j small_cached.ps) (2 ∷ [])
memory_get-put_change_set_example =
    memory_get-put_change_set small_store.mem small_store.del small_cached.ps (2 ∷ [])
      small_store-IsConsistent.one_value

persist_lem_example :
    let cs = put_change (4 ∷ []) (40 ∷ []) ∷ delete_change (1 ∷ []) ∷ [] in
    let running = change_all cs (persist_begin small_cached) in
    (contents (cached_lower memory_lower) running
      ≡ apply_all cs (contents memory_lower small_cached))
    × (contents memory_lower (
          persist_end
            (memory_lower.lower_put small_store.mem small_store.del small_cached.ps)
            running)
        ≡ apply_all cs (contents memory_lower small_cached))
    × (contents memory_lower (persist_end none running)
        ≡ apply_all cs (contents memory_lower small_cached))
persist_lem_example =
    persist_lem memory_lower memory_lower-IsLawful small_cached
      (put_change (4 ∷ []) (40 ∷ []) ∷ delete_change (1 ∷ []) ∷ []) small_store-IsConsistent

-- a lower store with the one key 2, 5
abbrev one_key : Bytes
one_key = 2 ∷ 5 ∷ []

abbrev one_lower : LowerStore (Unit {0})
one_lower = record {
  lower_get = λ k s. if equals one_key k then some (7 ∷ []) else none;
  lower_put = λ puts dels s. none;
}

abbrev one_seek : Bytes → Unit {0} → Entries
one_seek key s = if has_prefix one_key key then (one_key, 7 ∷ []) ∷ [] else []

one_seek-IsSeek : IsSeek one_lower one_seek
unfolding lookup less
one_seek-IsSeek = record {
  in_order = λ key s. if-elim Ascending (has_prefix one_key key) (tt, tt) tt;
  nonempty = λ key s. if-elim (Above []) (has_prefix one_key key) (refl, tt) tt;
  under_prefix = λ key s k. elim (Bool-cases (has_prefix one_key key)) [
    | inl p ↦ elim (Bool-cases (equals one_key k)) [
      | inl e ↦ rw (p, e, ← equals_sound one_key k e, p) refl
      | inr e ↦ rw (p, e) (ground arith)
    ]
    | inr p ↦ elim (Bool-cases (equals one_key k)) [
      | inl e ↦ rw (p, e, ← equals_sound one_key k e, p) refl
      | inr e ↦ rw (p, e) (ground arith)
    ]
  ];
}

cached_seek-cached_get_example :
    let s : MemCachedStore (Unit {0}) = record { store = small_store; ps = tt } in
    Ascending (cached_seek one_seek (2 ∷ []) s)
    × ((k : Bytes)
        → lookup k (cached_seek one_seek (2 ∷ []) s)
          ≡ (if has_prefix k (2 ∷ []) then cached_get one_lower k s else none))
cached_seek-cached_get_example =
    cached_seek-cached_get one_lower one_seek (2 ∷ []) (record { store = small_store; ps = tt })
      one_seek-IsSeek small_store-IsConsistent

abbrev prefix : Bytes
prefix = 1 ∷ []

before : less (prefix ++ 1 ∷ 5 ∷ []) (1 ∷ 5 ∷ []) ≡ true
unfolding less
before = refl

-- 1, 1, 5 in the maps, and 1, 5 below
abbrev cut_store : MemCachedStore MemoryStore
cut_store = record {
  store = record { mem = (prefix ++ 1 ∷ 5 ∷ [], 8 ∷ []) ∷ []; del = [] };
  ps = record { mem = (1 ∷ 5 ∷ [], 9 ∷ []) ∷ []; del = [] };
}

under_prefix : has_prefix (1 ∷ 5 ∷ []) prefix ≡ true
unfolding has_prefix
under_prefix = refl

in_maps : mem_results prefix cut_store.store ≡ (prefix ++ 1 ∷ 5 ∷ [], some (8 ∷ [])) ∷ []
unfolding mem_results sort_by_key with_prefix has_prefix insert_sorted
in_maps = refl

below : memory_seek prefix cut_store.ps ≡ (1 ∷ 5 ∷ [], 9 ∷ []) ∷ []
unfolding memory_seek sort_by_key with_prefix has_prefix insert_sorted
below = refl

cut_loses_example :
    (seek_async memory_seek prefix true cut_store ≡ (1 ∷ 5 ∷ [], 8 ∷ []) ∷ [])
    × (seek_async memory_seek prefix false cut_store
        ≡ (prefix ++ 1 ∷ 5 ∷ [], 8 ∷ []) ∷ (1 ∷ 5 ∷ [], 9 ∷ []) ∷ [])
cut_loses_example =
    cut_loses memory_seek prefix (1 ∷ 5 ∷ []) (8 ∷ []) (9 ∷ []) cut_store under_prefix before
      in_maps below

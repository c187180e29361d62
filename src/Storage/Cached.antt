-- ===== src/Storage/Cached.antt =====
-- pkg/core/storage/memcached_store.go. The lower store is a parameter: its state, and Get and
-- PutChangeSet on it, of which the latter may fail. Any goroutine may use the store while Persist
-- flushes it, so the flush is two steps: what stands before `tempstore.ps.PutChangeSet` is called,
-- and what stands behind it. In between the lower store is the temporary one.
pub mod View
pub mod Flush
use koala_tblockchain_golang.Shared.{
  ℕ, List, [], ◌∷◌, Option, none, some, Bool, true, false, ◌&&◌, is_empty, if◌then◌else◌, length,
}
use koala_tblockchain_golang.Storage.Memory.{
  Bytes, Entries, lookup, member, MemoryStore, new_memory_store, put, drop, put_all, drop_all,
}

-- the part of the interface Store that the cached store calls, `none` being an error
pub record LowerStore (S : Type 0) : Type 0 where
  pub lower_get : Bytes → S → Option Bytes
  pub lower_put : Entries → List Bytes → S → Option S

pub record MemCachedStore (S : Type 0) : Type 0 where
  pub store : MemoryStore
  pub ps : S

module _ {S : Type 0} where
  -- NewMemCachedStore
  unfoldable pub new_cached : S → MemCachedStore S
  new_cached lower = record { store = new_memory_store; ps = lower }

  unfoldable pub cached_put : Bytes → Bytes → MemCachedStore S → MemCachedStore S
  cached_put k v s = record s { store = put k v s.store }

  unfoldable pub cached_delete : Bytes → MemCachedStore S → MemCachedStore S
  cached_delete k s = record s { store = drop k s.store }

  unfoldable pub cached_put_change_set : Entries → List Bytes → MemCachedStore S → MemCachedStore S
  cached_put_change_set puts dels s = record s { store = drop_all dels (put_all puts s.store) }

  -- `keys == 0 && dkeys == 0`
  unfoldable pub is_clean : MemCachedStore S → Bool
  is_clean s = is_empty s.store.mem && is_empty s.store.del

  -- Persist up to the call of PutChangeSet: tempstore takes the maps, and s starts anew above it.
  unfoldable pub persist_begin : MemCachedStore S → MemCachedStore (MemCachedStore S)
  persist_begin s = record { store = new_memory_store; ps = record { store = s.store; ps = s.ps } }

  -- Persist behind the call, of which `flushed` is the outcome on the lowest store
  unfoldable pub persist_end : Option S → MemCachedStore (MemCachedStore S) → MemCachedStore S
  persist_end (some flushed) s = record { store = s.store; ps = flushed }
  persist_end none s = record {
    store = drop_all s.store.del (put_all s.store.mem s.ps.store);
    ps = s.ps.ps;
  }

module _ {S : Type 0} (lower : LowerStore S) where
  -- Get
  unfoldable pub cached_get : Bytes → MemCachedStore S → Option Bytes
  cached_get k s = elim (lookup k s.store.mem) [
    | some v ↦ some v
    | none ↦ if member k s.store.del then none else lower.lower_get k s.ps
  ]

  -- KeyValueExists of GetBatch: the key, its value if it has one, and whether the lower store has it
  abbrev pub BatchItem : Type 0
  BatchItem = Bytes × Option Bytes × Bool

  abbrev exists_below : S → Bytes → Bool
  exists_below ps k = elim (lower.lower_get k ps) [ none ↦ false | some v ↦ true ]

  unfoldable pub batch_puts : S → Entries → List BatchItem
  batch_puts ps [] = []
  batch_puts ps ((k, v) ∷ m) = (k, some v, exists_below ps k) ∷ batch_puts ps m

  unfoldable pub batch_deletes : S → List Bytes → List BatchItem
  batch_deletes ps [] = []
  batch_deletes ps (k ∷ d) = (k, none, exists_below ps k) ∷ batch_deletes ps d

  unfoldable pub get_batch : MemCachedStore S → List BatchItem × List BatchItem
  get_batch s = (batch_puts s.ps s.store.mem, batch_deletes s.ps s.store.del)

  -- PersistSync, which lets nobody in while it flushes; with the number of keys
  unfoldable pub persist_sync : MemCachedStore S → MemCachedStore S × ℕ
  persist_sync s =
      let flushed = lower.lower_put s.store.mem s.store.del s.ps in
      if is_clean s then (s, 0) else (persist_end flushed (persist_begin s), length s.store.mem)

  -- the store as the lower store of another one
  abbrev pub cached_lower : LowerStore (MemCachedStore S)
  cached_lower = record {
    lower_get = cached_get;
    lower_put = λ puts dels s. some (cached_put_change_set puts dels s);
  }

-- ===== src/Mpt/Trie/Flush.antt =====
-- Flush and updateRefCount of pkg/core/mpt/trie.go, and Collapse. The store is the cached one, and
-- the table is walked in the order of its list: every entry is under a key of its own. A panic is
-- `none`, that of data without a count included.
pub mod Counts
pub mod Table
use koala_tblockchain_golang.Shared.{
  ℕ, zero, suc, ◌+◌, ◌-◌, ◌==◌, ltb, List, [], ◌∷◌, ◌++◌, Option, none, some, Bool, true, false,
  if◌then◌else◌, length, take, drop, replicate, is_empty,
}
use koala_tblockchain_golang.Shared.Int.{ℤ, pos, negsuc, ◌+ℤ◌}
use koala_tblockchain_golang.Io.Bytes.{le_bytes, from_le}
use koala_tblockchain_golang.Storage.Cached.{
  LowerStore, MemCachedStore, cached_get, cached_put, cached_delete,
}
use koala_tblockchain_golang.Mpt.Node.{
  Bytes, Node, empty, leaf, extension, branch, hash_node, hash_of, children_count,
}
use koala_tblockchain_golang.Mpt.Trie.{
  CachedNode, CountTable, Trie, no_refs, make_storage_key, to_int32,
}

-- the bytes of a node in the store and its count, which follow each other
abbrev pub count_of : Bytes → ℤ
count_of bs = to_int32 (from_le (drop (length bs - 4) bs))

unfoldable pub with_count : Bytes → ℕ → Bytes
with_count bs count = take (length bs - 4) bs ++ le_bytes 4 count

abbrev pub bytes_or_nil : Option Bytes → Bytes
bytes_or_nil none = []
bytes_or_nil (some bs) = bs

abbrev pub is_zero : ℤ → Bool
is_zero (pos n) = n == 0
is_zero (negsuc n) = false

abbrev pub is_positive : ℤ → Bool
is_positive (pos n) = ltb 0 n
is_positive (negsuc n) = false

-- `cnt` and `data` before the change: a new item may be in the store
abbrev pub known_count : ℤ → Option Bytes → Option (ℤ × Bytes)
known_count initial none = some (initial, [])
known_count initial (some bs) =
    if is_zero initial
    then if ltb (length bs) 4 then none else some (count_of bs, bs)
    else some (initial, [])

-- `data` if there is none yet
abbrev pub data_or_new : Bytes → Option Bytes → Bytes
data_or_new bs node_bytes = if is_empty bs then bytes_or_nil node_bytes ++ replicate 4 0 else bs

module _ {S : Type 0} (lower : LowerStore S) where
  -- what is stored with a count; a negative one panics
  abbrev pub store_count : Bytes → Bytes → ℤ → MemCachedStore S → Option (ℤ × MemCachedStore S)
  store_count key bs (negsuc n) s = none
  store_count key bs (pos zero) s = some (pos zero, cached_delete key s)
  store_count key bs (pos (suc n)) s = some (pos (suc n), cached_put key (with_count bs (suc n)) s)

  unfoldable pub update_ref_count :
      Bytes → CachedNode → MemCachedStore S → Option (ℤ × MemCachedStore S)
  update_ref_count h node s =
      let key = make_storage_key h in
      elim (known_count node.initial (cached_get lower key s)) [
        | none ↦ none
        | some known ↦ store_count key (data_or_new known.1 node.bytes) (known.0 +ℤ node.refcount) s
      ]

  -- the entry that stays in the table, if any, and the store
  abbrev pub Flushed : Type 0
  Flushed = Option (Option CachedNode × MemCachedStore S)

  abbrev pub recounted : CachedNode → Option (ℤ × MemCachedStore S) → Flushed
  recounted node none = none
  recounted node (some (count, s)) = some (
    if is_zero count
        then none
        else some (record { bytes = node.bytes; initial = count; refcount = pos 0 }),
    s,
  )

  -- the body of the loop of Flush
  unfoldable pub flush_entry : Bool → Bytes → CachedNode → MemCachedStore S → Flushed
  flush_entry enabled h node s =
      let updated = recounted node (update_ref_count h node s) in
      elim node.bytes [
        | none ↦ if is_zero node.refcount then some (none, s) else none
        | some bs ↦
            if is_zero node.refcount
            then some (none, s)
            else if enabled
            then updated
            else some (
              some (record node { refcount = pos 0 }),
              if is_positive node.refcount then cached_put (make_storage_key h) bs s else s,
            )
      ]

  abbrev pub kept : Bytes → Option CachedNode → CountTable → CountTable
  kept h none t = t
  kept h (some node) t = (h, node) ∷ t

  unfoldable pub flush :
      Bool → CountTable → MemCachedStore S → Option (CountTable × MemCachedStore S)
  flush enabled [] s = some ([], s)
  flush enabled ((h, node) ∷ t) s = elim (flush_entry enabled h node s) [
    | none ↦ none
    | some (node', s') ↦ elim (flush enabled t s') [
      | none ↦ none
      | some (t', s'') ↦ some (kept h node' t', s'')
    ]
  ]

module _ (double_sha256 : Bytes → Bytes) where
  -- collapse
  unfoldable pub collapse : ℕ → Node → Node
  collapse zero empty = empty
  collapse zero (hash_node h) = hash_node h
  collapse zero (leaf v) = hash_node (hash_of double_sha256 (leaf v))
  collapse zero (extension k n) = hash_node (hash_of double_sha256 (extension k n))
  collapse zero (branch c) = hash_node (hash_of double_sha256 (branch c))
  collapse (suc depth) empty = empty
  collapse (suc depth) (hash_node h) = hash_node h
  collapse (suc depth) (leaf v) = leaf v
  collapse (suc depth) (extension k n) = extension k (collapse depth n)
  collapse (suc depth) (branch c) = branch (λ i. collapse depth (c i))

  -- Collapse, of a depth that is not negative
  unfoldable pub collapse_trie : ℕ → Trie → Trie
  collapse_trie depth tr = record { root = collapse depth tr.root; refcounts = no_refs }

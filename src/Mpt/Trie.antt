-- ===== src/Mpt/Trie.antt =====
-- pkg/core/mpt/trie.go: the trie, its table of reference counts, the nodes got from the store, and
-- lookups. A node is changed in place by the source, and returned here; the table is passed along.
-- A call without a result is `none`: an error, or a panic, which is set in what is passed along. What
-- such a call has done to the nodes on its way is not modelled. The
-- fuel is the levels that are entered, counting each hash node that is looked up as one.
pub mod Put
pub mod Delete
pub mod Flush
pub mod Contents
use koala_tblockchain_golang.Shared.{
  ℕ, zero, suc, ◌-◌, ◌/◌, ◌^◌, ◌==◌, ltb, List, [], ◌∷◌, ◌++◌, Option, none, some, Bool, true,
  false, ◌&&◌, ◌||◌, not, if◌then◌else◌, length, take, drop, replicate, is_empty,
}
use koala_tblockchain_golang.Shared.Int.{ℤ, pos, negsuc, ◌+ℤ◌, sub_ℕ}
use koala_tblockchain_golang.Shared.Bytes.{has_prefix}
use koala_tblockchain_golang.Io.Reader.{BinReader, new_from_buf, read_u32_le}
use koala_tblockchain_golang.Storage.Memory.{lookup, assign}
use koala_tblockchain_golang.Mpt.Node.{
  Bytes, Node, empty, leaf, extension, branch, hash_node, set_child, last_child, split_path,
  is_empty_node, hash_of, max_path_length, decode_node,
}
use koala_tblockchain_golang.Mpt.Nibbles.{to_nibbles}

-- cachedNode. The counts are int32, which no count of nodes reaches.
pub record CachedNode : Type 0 where
  pub bytes : Option Bytes
  pub initial : ℤ
  pub refcount : ℤ

-- the table of reference counts
abbrev pub CountTable : Type 0
CountTable = List (Bytes × CachedNode)

-- what a call has changed beside the nodes: the table, and whether it has panicked
pub record Refs : Type 0 where
  pub table : CountTable
  pub panicked : Bool

abbrev pub no_refs : Refs
no_refs = record { table = []; panicked = false }

-- What does not change while a trie is read or changed: the hash function, the Get of its store and
-- whether nodes are counted in the store.
pub record Backing : Type 0 where
  pub double_sha256 : Bytes → Bytes
  pub store_get : Bytes → Option Bytes
  pub refcount_enabled : Bool

-- the rest of Trie
pub record Trie : Type 0 where
  pub root : Node
  pub refcounts : Refs

-- NewTrie, where a nil root is `empty`
abbrev pub new_trie : Node → Trie
new_trie n = record { root = n; refcounts = no_refs }

-- the key prefix DataMPT
abbrev pub make_storage_key : Bytes → Bytes
make_storage_key mpt_key = 0x03 ∷ mpt_key

-- int32 of a uint32
abbrev pub to_int32 : ℕ → ℤ
to_int32 n = if ltb n (2 ^ 31) then pos n else sub_ℕ n (2 ^ 32)

-- `if node.bytes == nil { node.bytes = bs }`
abbrev pub or_bytes : Option Bytes → Bytes → Option Bytes
or_bytes (some b) bs = some b
or_bytes none bs = some bs

abbrev counted : ℤ → Bytes → Option CachedNode → CachedNode
counted by bs none = record { bytes = some bs; initial = pos 0; refcount = by }
counted by bs (some n) = record {
  bytes = or_bytes n.bytes bs;
  initial = n.initial;
  refcount = n.refcount +ℤ by;
}

unfoldable pub add_ref : Bytes → Bytes → Refs → Refs
add_ref h bs t = record t { table = assign h (counted (pos 1) bs (lookup h t.table)) t.table }

unfoldable pub remove_ref : Bytes → Bytes → Refs → Refs
remove_ref h bs t = record t { table = assign h (counted (negsuc 0) bs (lookup h t.table)) t.table }

-- DecodeBinary of a NodeObject with a fresh reader on the whole data; `r.Err` is looked at
abbrev pub decoded : Option Node × BinReader → Option Node
decoded (none, r) = none
decoded (some n, r) = elim r.err [ some e ↦ none | none ↦ some n ]

unfoldable pub node_object : Bytes → Option Node × BinReader
node_object bs = decode_node (suc (length bs)) (new_from_buf bs)

-- what getFromStore notes in the table: the node's bytes and its count, which follow each other
abbrev noted : Bytes → Bytes → CountTable → Option CachedNode → CountTable
noted h bs t none = t
noted h bs t (some n) =
    assign h
      (record {
        bytes = some (take (length bs - 4) bs);
        initial = to_int32 (read_u32_le ((node_object bs).1)).0;
        refcount = n.refcount;
      })
      t

abbrev noted_if : Bool → Bytes → Bytes → Refs → Refs
noted_if enabled h bs t =
    if enabled then record t { table = noted h bs t.table (lookup h t.table) } else t

-- `n.Node.(flushedNode).setCache(data, h)`: an empty node has no such method, and the assertion
-- panics; a hash node takes the hash that was asked for; other nodes have their bytes and hash from
-- now on without computing them.
abbrev pub set_cache : Bytes → Node → Option Node
set_cache h empty = none
set_cache h (hash_node i) = some (hash_node h)
set_cache h (leaf v) = some (leaf v)
set_cache h (extension k n) = some (extension k n)
set_cache h (branch c) = some (branch c)

abbrev pub set_cache? : Bytes → Option Node → Option Node
set_cache? h none = none
set_cache? h (some n) = set_cache h n

-- `data[:len(data)-4]` panics, which is done with reference counting alone
abbrev pub is_cut_short : Bool → Bytes → Bool
is_cut_short enabled bs = enabled && ltb (length bs) 4

-- the panics of the slice and of setCache
abbrev cached_refs : Bool → Node → Refs → Refs
cached_refs cut_short n t = if cut_short || is_empty_node n then record t { panicked = true } else t

-- the node in place of the given one, the node found and the path to it, or ErrNotFound
abbrev pub Found : Type 0
Found = Option (Node × (Node × Bytes)) × Refs

-- after the lookup in a child
abbrev pub in_branch : (ℕ → Node) → ℕ → Found → Found
in_branch c i (none, t) = (none, t)
in_branch c i (some (r, (res, prefix)), t) = (some (branch (set_child c i r), (res, i ∷ prefix)), t)

abbrev pub in_extension : Bytes → Found → Found
in_extension k (none, t) = (none, t)
in_extension k (some (r, (res, prefix)), t) = (some (extension k r, (res, k ++ prefix)), t)

-- MaxKeyLength
abbrev pub max_key_length : ℕ
max_key_length = max_path_length / 2

-- `leaf.(*LeafNode).value`
abbrev pub value_of : Node → Bytes
value_of (leaf v) = v
value_of empty = []
value_of (extension k n) = []
value_of (branch c) = []
value_of (hash_node h) = []

abbrev pub got : Trie → Found → Option Bytes × Trie
got tr (none, t) = (none, record tr { refcounts = t })
got tr (some (r, (l, prefix)), t) = (some (value_of l), record { root = r; refcounts = t })

module _ (b : Backing) where
  -- The node of getFromStore, if there is no error and no panic
  unfoldable pub stored_node : Bytes → Option Node
  stored_node h = elim (b.store_get (make_storage_key h)) [
    | none ↦ none
    | some bs ↦
        if is_cut_short b.refcount_enabled bs then none else set_cache? h (decoded (node_object bs))
  ]

  -- what getFromStore leaves beside the node
  unfoldable pub noted_refs : Bytes → Refs → Refs
  noted_refs h t = elim (b.store_get (make_storage_key h)) [
    | none ↦ t
    | some bs ↦ elim (decoded (node_object bs)) [
      | none ↦ t
      | some n ↦
          let cut_short = is_cut_short b.refcount_enabled bs in
          cached_refs cut_short n (noted_if (b.refcount_enabled && not cut_short) h bs t)
    ]
  ]

  unfoldable pub get_from_store : Bytes → Refs → Option Node × Refs
  get_from_store h t = (stored_node h, noted_refs h t)

  unfoldable pub get_with_path : ℕ → Node → Bytes → Bool → Refs → Found
  get_with_path zero curr path strict t = (none, t)
  get_with_path (suc fuel) (leaf v) path strict t =
      if is_empty path then (some (leaf v, (leaf v, [])), t) else (none, t)
  get_with_path (suc fuel) (branch c) path strict t =
      let (i, rest) = split_path path in
      let below = get_with_path fuel (c i) rest strict t in
      if i == last_child && not strict
      then (some (branch c, (branch c, [])), t)
      else in_branch c i below
  get_with_path (suc fuel) empty path strict t = (none, t)
  get_with_path (suc fuel) (hash_node h) path strict t = elim (stored_node h) [
    | none ↦ (none, noted_refs h t)
    | some r ↦ get_with_path fuel r path strict (noted_refs h t)
  ]
  get_with_path (suc fuel) (extension k n) path strict t =
      let below = get_with_path fuel n (drop (length k) path) strict t in
      if is_empty path && not strict
      then (some (extension k n, (n, k)), t)
      else if has_prefix path k
      then in_extension k below
      else if not strict && has_prefix k path
      then (some (extension k n, (n, k)), t)
      else (none, t)

  -- Get
  unfoldable pub get : ℕ → Bytes → Trie → Option Bytes × Trie
  get fuel key tr =
      if ltb max_key_length (length key)
      then (none, tr)
      else got tr (get_with_path fuel tr.root (to_nibbles key) true tr.refcounts)

  -- StateRoot
  unfoldable pub state_root : Trie → Bytes
  state_root tr = if is_empty_node tr.root then replicate 32 0 else hash_of b.double_sha256 tr.root

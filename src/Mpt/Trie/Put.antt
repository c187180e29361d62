-- ===== src/Mpt/Trie/Put.antt =====
-- Put of pkg/core/mpt/trie.go. The new node is a leaf throughout.
use koala_tblockchain_golang.Shared.{
  ℕ, zero, suc, ltb, Option, none, some, Bool, true, false, if◌then◌else◌, length, drop, is_empty,
}
use koala_tblockchain_golang.Shared.Bytes.{has_prefix}
use koala_tblockchain_golang.Mpt.Node.{
  Bytes, Node, empty, leaf, extension, branch, hash_node, set_child, new_children, last_child,
  split_path, hash_of, bytes_of, max_value_length,
}
use koala_tblockchain_golang.Mpt.Nibbles.{to_nibbles, lcp}
use koala_tblockchain_golang.Mpt.Trie.{
  Refs, Backing, Trie, add_ref, remove_ref, stored_node, noted_refs, max_key_length,
}

-- the errors of Put
pub data PutError : Type 0 where
  key_is_empty : PutError
  key_is_too_big : PutError
  value_is_too_big : PutError
  not_stored : PutError

module _ (b : Backing) where
  -- `t.addRef(n.Hash(), n.bytes)`, and the same for removeRef
  abbrev pub count : Node → Refs → Refs
  count n t = add_ref (hash_of b.double_sha256 n) (bytes_of b.double_sha256 n) t

  abbrev pub uncount : Node → Refs → Refs
  uncount n t = remove_ref (hash_of b.double_sha256 n) (bytes_of b.double_sha256 n) t

  unfoldable pub new_sub_trie : Bytes → Node → Bool → Refs → Node × Refs
  new_sub_trie path v new_val t =
      let t' = if new_val then count v t else t in
      if is_empty path then (v, t') else (extension path v, count (extension path v) t')

  unfoldable pub put_into_leaf : Bytes → Bytes → Node → Refs → Node × Refs
  put_into_leaf w path v t =
      let (i, rest) = split_path path in
      let (s, t') = new_sub_trie rest v true t in
      let br = branch (set_child (set_child new_children i s) last_child (leaf w)) in
      if is_empty path then (v, count v (uncount (leaf w) t)) else (br, count br t')

  -- putIntoExtension, where the path does not have the key as a prefix; the table is the one
  -- without the extension
  unfoldable pub put_beside : Bytes → Node → Bytes → Node → Refs → Node × Refs
  put_beside key next path v t =
      let pref = lcp key path in
      let (j, key_tail) = split_path (drop (length pref) key) in
      let (i, path_tail) = split_path (drop (length pref) path) in
      let (s1, t1) = new_sub_trie key_tail next false t in
      let (s2, t2) = new_sub_trie path_tail v true t1 in
      let br = branch (set_child (set_child new_children j s1) i s2) in
      if is_empty pref
      then (br, count br t2)
      else (extension pref br, count (extension pref br) (count br t2))

  -- after a call for a child
  abbrev pub replaced : (Node → Node) → Option Node × Refs → Option Node × Refs
  replaced change (none, t) = (none, t)
  replaced change (some r, t) = (some (change r), count (change r) t)

  abbrev always : Node × Refs → Option Node × Refs
  always (n, t) = (some n, t)

  unfoldable pub put_into_node : ℕ → Node → Bytes → Node → Refs → Option Node × Refs
  put_into_node zero curr path v t = (none, t)
  put_into_node (suc fuel) (leaf w) path v t = always (put_into_leaf w path v t)
  put_into_node (suc fuel) (branch c) path v t =
      let (i, rest) = split_path path in
      replaced (λ r. branch (set_child c i r))
        (put_into_node fuel (c i) rest v (uncount (branch c) t))
  put_into_node (suc fuel) (extension k n) path v t =
      let below =
        replaced (extension k)
          (put_into_node fuel n (drop (length k) path) v (uncount (extension k n) t)) in
      if has_prefix path k
      then below
      else always (put_beside k n path v (uncount (extension k n) t))
  put_into_node (suc fuel) (hash_node h) path v t = elim (stored_node b h) [
    | none ↦ (none, noted_refs b h t)
    | some r ↦ put_into_node fuel r path v (noted_refs b h t)
  ]
  put_into_node (suc fuel) empty path v t = always (new_sub_trie path v true t)

  abbrev pub stored : Trie → Option Node × Refs → Option PutError × Trie
  stored tr (none, t) = (some not_stored, record tr { refcounts = t })
  stored tr (some r, t) = (none, record { root = r; refcounts = t })

  -- Put of a value that is not nil
  unfoldable pub put : ℕ → Bytes → Bytes → Trie → Option PutError × Trie
  put fuel key value tr =
      if is_empty key
      then (some key_is_empty, tr)
      else if ltb max_key_length (length key)
      then (some key_is_too_big, tr)
      else if ltb max_value_length (length value)
      then (some value_is_too_big, tr)
      else stored tr (put_into_node fuel tr.root (to_nibbles key) (leaf value) tr.refcounts)

-- ===== src/Mpt/Trie/Delete.antt =====
-- Delete of pkg/core/mpt/trie.go
use koala_tblockchain_golang.Shared.{
  ℕ, zero, suc, ◌+◌, ◌==◌, ltb, [], ◌∷◌, ◌++◌, Option, none, some, if◌then◌else◌, length, drop,
  is_empty,
}
use koala_tblockchain_golang.Shared.Bytes.{has_prefix}
use koala_tblockchain_golang.Mpt.Node.{
  Bytes, Node, empty, leaf, extension, branch, hash_node, set_child, children_count, last_child,
  split_path, is_empty_node,
}
use koala_tblockchain_golang.Mpt.Nibbles.{to_nibbles}
use koala_tblockchain_golang.Mpt.Trie.{Refs, Backing, Trie, stored_node, noted_refs, max_key_length}
use koala_tblockchain_golang.Mpt.Trie.Put.{count, uncount}

-- the errors of Delete
pub data DeleteError : Type 0 where
  key_is_too_big : DeleteError
  not_stored : DeleteError

-- the loop over the children: how many are not empty, and the last of them
unfoldable pub count_children : ℕ → (ℕ → Node) → ℕ × ℕ
count_children zero c = (0, 0)
count_children (suc n) c =
    let (number, index) = count_children n c in
    if is_empty_node (c n) then (number, index) else (number + 1, n)

module _ (b : Backing) where
  -- the only child of a branch with its index in front of its path
  unfoldable pub prepend : ℕ → Node → Refs → Node × Refs
  prepend index (extension k n) t =
      (extension (index ∷ k) n, count b (extension (index ∷ k) n) (uncount b (extension k n) t))
  prepend index empty t = (extension (index ∷ []) empty, count b (extension (index ∷ []) empty) t)
  prepend index (leaf v) t =
      (extension (index ∷ []) (leaf v), count b (extension (index ∷ []) (leaf v)) t)
  prepend index (branch c) t =
      (extension (index ∷ []) (branch c), count b (extension (index ∷ []) (branch c)) t)
  prepend index (hash_node h) t =
      (extension (index ∷ []) (hash_node h), count b (extension (index ∷ []) (hash_node h)) t)

  abbrev always : Node × Refs → Option Node × Refs
  always (n, t) = (some n, t)

  -- what becomes of a branch with one child, which is got from the store if it is a hash node
  unfoldable pub only_child : ℕ → Node → Refs → Option Node × Refs
  only_child index (hash_node h) t =
      if index == last_child then (some (hash_node h), t) else elim (stored_node b h) [
        | none ↦ (none, noted_refs b h t)
        | some n ↦ always (prepend index n (noted_refs b h t))
      ]
  only_child index empty t =
      if index == last_child then (some empty, t) else always (prepend index empty t)
  only_child index (leaf v) t =
      if index == last_child then (some (leaf v), t) else always (prepend index (leaf v) t)
  only_child index (extension k n) t =
      if index == last_child
      then (some (extension k n), t)
      else always (prepend index (extension k n) t)
  only_child index (branch c) t =
      if index == last_child then (some (branch c), t) else always (prepend index (branch c) t)

  -- deleteFromBranch, after the call for the child
  unfoldable pub shrink : (ℕ → Node) → ℕ → Option Node × Refs → Option Node × Refs
  shrink c i (none, t) = (none, t)
  shrink c i (some r, t) =
      let c' = set_child c i r in
      let t' = uncount b (branch c) t in
      let (number, index) = count_children children_count c' in
      if ltb 1 number
      then (some (branch c'), count b (branch c') t')
      else only_child index (c' index) t'

  -- deleteFromExtension, after the call for the next node; the first table is the one without the
  -- extension
  unfoldable pub join : Bytes → Node → Refs → Node × Refs
  join k (extension k' n) t =
      (extension (k ++ k') n, count b (extension (k ++ k') n) (uncount b (extension k' n) t))
  join k empty t = (empty, t)
  join k (hash_node h) t = (extension k (hash_node h), count b (extension k (hash_node h)) t)
  join k (leaf v) t = (extension k (leaf v), count b (extension k (leaf v)) t)
  join k (branch c) t = (extension k (branch c), count b (extension k (branch c)) t)

  abbrev pub joined : Bytes → Node → Option Node × Refs → Option Node × Refs
  joined k n (none, t) = (none, t)
  joined k n (some r, t) = always (join k r (uncount b (extension k n) t))

  unfoldable pub delete_from_node : ℕ → Node → Bytes → Refs → Option Node × Refs
  delete_from_node zero curr path t = (none, t)
  delete_from_node (suc fuel) (leaf v) path t =
      if is_empty path then (some empty, uncount b (leaf v) t) else (some (leaf v), t)
  delete_from_node (suc fuel) (branch c) path t =
      let (i, rest) = split_path path in shrink c i (delete_from_node fuel (c i) rest t)
  delete_from_node (suc fuel) (extension k n) path t =
      let below = delete_from_node fuel n (drop (length k) path) t in
      if has_prefix path k then joined k n below else (some (extension k n), t)
  delete_from_node (suc fuel) empty path t = (some empty, t)
  delete_from_node (suc fuel) (hash_node h) path t = elim (stored_node b h) [
    | none ↦ (none, noted_refs b h t)
    | some r ↦ delete_from_node fuel r path (noted_refs b h t)
  ]

  abbrev pub removed : Trie → Option Node × Refs → Option DeleteError × Trie
  removed tr (none, t) = (some not_stored, record tr { refcounts = t })
  removed tr (some r, t) = (none, record { root = r; refcounts = t })

  -- Delete
  unfoldable pub delete : ℕ → Bytes → Trie → Option DeleteError × Trie
  delete fuel key tr =
      if ltb max_key_length (length key)
      then (some key_is_too_big, tr)
      else removed tr (delete_from_node fuel tr.root (to_nibbles key) tr.refcounts)

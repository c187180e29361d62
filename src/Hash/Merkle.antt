-- ===== src/Hash/Merkle.antt =====
-- pkg/crypto/hash/merkle_tree.go. The double SHA-256 and the bytes of a Uint256 are parameters. A
-- slice is its length and its elements by index; an assignment to an element is a new function. The
-- pointer of a node to its parent is left out.
pub mod Agreement
use koala_tblockchain_golang.Shared.{
  ℕ, zero, suc, ◌+◌, ◌*◌, ◌/◌, Bool, true, false, ◌==◌, if◌then◌else◌, List, [], ◌∷◌, ◌++◌, Option,
  none, some,
}

-- MerkleTreeNode
pub data Node (H : Type 0) : Type 0 where
  leaf : H → Node H
  branch : H → Node H → Node H → Node H

-- the field `hash`
abbrev pub hash_of : {H : Type 0} → Node H → H
hash_of (leaf h) = h
hash_of (branch h l r) = h

-- IsLeaf
abbrev pub is_leaf : {H : Type 0} → Node H → Bool
is_leaf (leaf h) = true
is_leaf (branch h l r) = false

-- a[i] = x
abbrev pub set_elem : {A : Type 0} → (ℕ → A) → ℕ → A → ℕ → A
set_elem a i x j = if j == i then x else a j

-- the index of the right child of parent i: the left one's when that is the last
abbrev pub right_index : ℕ → ℕ → ℕ
right_index len i = if i * 2 + 1 == len then i * 2 else i * 2 + 1

module _ {H : Type 0} (double_sha256 : List ℕ → H) (bytes_be : H → List ℕ) where
  abbrev pub join : H → H → H
  join l r = double_sha256 (bytes_be l ++ bytes_be r)

  -- parents[i] of buildMerkleTree
  abbrev pub parent_node : (ℕ → Node H) → ℕ → ℕ → Node H
  parent_node leaves len i =
      let l = leaves (i * 2) in
      let r = leaves (right_index len i) in branch (join (hash_of l) (hash_of r)) l r

  -- buildMerkleTree of a slice that is not empty. Each call has fewer leaves, so their number is
  -- fuel enough.
  unfoldable pub build_loop : ℕ → (ℕ → Node H) → ℕ → Node H
  build_loop zero leaves len = leaves 0
  build_loop (suc fuel) leaves len =
      let rest = build_loop fuel (parent_node leaves len) ((len + 1) / 2) in
      if len == 1 then leaves 0 else rest

  -- Its panic on an empty slice is `none`.
  unfoldable pub build_merkle_tree : (ℕ → Node H) → ℕ → Option (Node H)
  build_merkle_tree leaves len = if len == 0 then none else some (build_loop len leaves len)

  -- NewMerkleTree; `none` is its error
  unfoldable pub new_merkle_tree : (ℕ → H) → ℕ → Option (Node H)
  new_merkle_tree hashes len =
      if len == 0 then none else build_merkle_tree (λ i. leaf (hashes i)) len

  -- The loop of CalcMerkleRoot after i rounds. Each round reads what the rounds before it left.
  unfoldable pub scratch_loop : ℕ → (ℕ → H) → ℕ → ℕ → H
  scratch_loop len hashes zero = hashes
  scratch_loop len hashes (suc i) =
      let a = scratch_loop len hashes i in set_elem a i (join (a (i * 2)) (a (right_index len i)))

  -- CalcMerkleRoot of a slice that is not empty, with its length as fuel
  unfoldable pub calc_loop : ℕ → (ℕ → H) → ℕ → H
  calc_loop zero hashes len = hashes 0
  calc_loop (suc fuel) hashes len =
      let parents = scratch_loop len hashes ((len + 1) / 2) in
      let rest = calc_loop fuel parents ((len + 1) / 2) in if len == 1 then hashes 0 else rest

  unfoldable pub calc_merkle_root : H → (ℕ → H) → ℕ → H
  calc_merkle_root zero_hash hashes len = if len == 0 then zero_hash else calc_loop len hashes len

-- ===== src/Hash/Merkle/Agreement.antt =====
-- CalcMerkleRoot, which overwrites its slice, against the tree that NewMerkleTree builds.
use koala_tblockchain_golang.Shared.{
  ℕ, zero, suc, ◌+◌, ◌*◌, ◌/◌, ◌==◌, ◌<◌, ◌≤◌, ◌≡◌, ltb, if◌then◌else◌, List, some, arith, refl,
  ◌∙◌, Bool-cases, inl, inr,
}
use koala_tblockchain_golang.Hash.Merkle.{
  Node, leaf, hash_of, right_index, join, parent_node, build_loop, build_merkle_tree,
  new_merkle_tree, scratch_loop, calc_loop, calc_merkle_root,
}

module _ {H : Type 0} (double_sha256 : List ℕ → H) (bytes_be : H → List ℕ) where
  -- the elements after i rounds, each from what was there at first
  abbrev after : ℕ → (ℕ → H) → ℕ → ℕ → H
  after len hashes i j =
      if ltb j i
      then join double_sha256 bytes_be (hashes (j * 2)) (hashes (right_index len j))
      else hashes j

  after-later : (len : ℕ) (hashes : ℕ → H) (i j : ℕ) → i ≤ j → after len hashes i j ≡ hashes j
  after-later len hashes i j le = ground arith

  scratch_loop_lem :
      (len : ℕ) (hashes : ℕ → H) (i j : ℕ)
      → scratch_loop double_sha256 bytes_be len hashes i j ≡ after len hashes i j
  unfolding scratch_loop
  scratch_loop_lem len hashes zero j = ground arith
  scratch_loop_lem len hashes (suc i) j = elim (Bool-cases (j == i)) [
    | inl e ↦
        let same : j ≡ i = ground (arith, e) in
        rw
          (
            e,
            same,
            scratch_loop_lem len hashes i (i * 2) ∙ after-later len hashes i (i * 2) (omega arith),
            scratch_loop_lem len hashes i (right_index len i)
                ∙ after-later len hashes i (right_index len i) (ground arith),
          )
          (ground arith)
    | inr e ↦ rw (e, scratch_loop_lem len hashes i j) (ground arith)
  ]

  after-parent :
      (len : ℕ) (leaves : ℕ → Node H) (hashes : ℕ → H) (j : ℕ)
      → j < (len + 1) / 2
      → ((k : ℕ) → k < len → hashes k ≡ hash_of (leaves k))
      → after len hashes ((len + 1) / 2) j
        ≡ hash_of (parent_node double_sha256 bytes_be leaves len j)
  after-parent len leaves hashes j lt same =
      rw (same (j * 2) (omega arith), same (right_index len j) (ground arith)) (ground arith)

  calc_loop-build_loop :
      (fuel : ℕ) (leaves : ℕ → Node H) (hashes : ℕ → H) (len : ℕ)
      → 0 < len
      → len ≤ fuel
      → ((j : ℕ) → j < len → hashes j ≡ hash_of (leaves j))
      → calc_loop double_sha256 bytes_be fuel hashes len
        ≡ hash_of (build_loop double_sha256 bytes_be fuel leaves len)
  unfolding calc_loop build_loop
  calc_loop-build_loop zero leaves hashes len pos_ le same = absurd (omega arith)
  calc_loop-build_loop (suc fuel) leaves hashes len pos_ le same = elim (Bool-cases (len == 1)) [
    | inl e ↦ rw e (same 0 pos_)
    | inr e ↦ rw e (
        calc_loop-build_loop fuel (parent_node double_sha256 bytes_be leaves len)
          (scratch_loop double_sha256 bytes_be len hashes ((len + 1) / 2)) ((len + 1) / 2)
          (omega arith) (ground (arith, e))
          λ j lt.
            scratch_loop_lem len hashes ((len + 1) / 2) j
            ∙ after-parent len leaves hashes j lt same)
  ]

  -- Of one hash or more NewMerkleTree builds a tree, and CalcMerkleRoot, which overwrites the slice
  -- while it reads it, returns the hash at the root of that tree.
  pub calc_merkle_root-new_merkle_tree :
      (zero_hash : H) (hashes : ℕ → H) (len : ℕ)
      → 0 < len
      → (root : Node H) × (new_merkle_tree double_sha256 bytes_be hashes len ≡ some root)
        × (calc_merkle_root double_sha256 bytes_be zero_hash hashes len ≡ hash_of root)
  unfolding new_merkle_tree build_merkle_tree calc_merkle_root
  calc_merkle_root-new_merkle_tree zero_hash hashes len pos_ =
      let leaves : ℕ → Node H = λ i. leaf (hashes i) in
      (
        build_loop double_sha256 bytes_be len leaves len,
        ground arith,
        rw (calc_loop-build_loop len leaves hashes len pos_ (omega arith) (λ j lt. refl))
            (ground arith),
      )

  -- The number of hashes is rounds enough: any larger bound on the rounds of CalcMerkleRoot gives
  -- the same root.
  pub calc_loop_enough :
      (fuel fuel' : ℕ) (hashes : ℕ → H) (len : ℕ)
      → 0 < len
      → len ≤ fuel
      → len ≤ fuel'
      → calc_loop double_sha256 bytes_be fuel hashes len
        ≡ calc_loop double_sha256 bytes_be fuel' hashes len
  unfolding calc_loop
  calc_loop_enough zero fuel' hashes len pos_ le le' = absurd (omega arith)
  calc_loop_enough (suc fuel) zero hashes len pos_ le le' = absurd (omega arith)
  calc_loop_enough (suc fuel) (suc fuel') hashes len pos_ le le' = elim (Bool-cases (len == 1)) [
    | inl e ↦ rw e refl
    | inr e ↦ rw e (
        calc_loop_enough fuel fuel' (scratch_loop double_sha256 bytes_be len hashes ((len + 1) / 2))
          ((len + 1) / 2) (omega arith) (ground (arith, e)) (ground (arith, e)))
  ]

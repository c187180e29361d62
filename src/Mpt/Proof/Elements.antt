-- ===== src/Mpt/Proof/Elements.antt =====
-- The elements of a proof that are enough to find a value, level by level.
use koala_tblockchain_golang.Shared.{
  ℕ, zero, suc, ◌+◌, ◌≤◌, ◌<◌, ◌≡◌, refl, subst, sym, ap, ◌∙◌, ◌==◌, List, [], ◌∷◌, ◌++◌,
  append-nil, Option, none, some, true, false, length, drop, is_empty, arith, All,
}
use koala_tblockchain_golang.Shared.Bytes.{has_prefix}
use koala_tblockchain_golang.Mpt.Node.{
  Bytes, Node, empty, leaf, extension, branch, hash_node, split_path, last_child, children_count,
  children_of, hash_of, bytes_of,
}
use koala_tblockchain_golang.Mpt.Node.Binary.{as_child, children_list, shallow}
use koala_tblockchain_golang.Mpt.Node.Reading.{IsWithinLimits}
use koala_tblockchain_golang.Mpt.Nibbles.{IsPath}
use koala_tblockchain_golang.Mpt.Trie.{
  Backing, Refs, Found, make_storage_key, set_cache, stored_node, noted_refs, get_with_path,
  in_branch, in_extension,
}
use koala_tblockchain_golang.Mpt.Trie.Contents.Lookups.{get_with_path_hash, both_false}
use koala_tblockchain_golang.Mpt.Trie.Contents.Restored.{
  double, stored_node-hash_of, children_list_in,
}
use koala_tblockchain_golang.Mpt.Proof.{Proving}

-- the leaf with the value is found
abbrev pub IsLeaf : Bytes → Found → Type 0
IsLeaf v (none, t) = zero ≡ suc zero
IsLeaf v (some (r, (l, prefix)), t) = l ≡ leaf v

in_branch-IsLeaf :
    (c : ℕ → Node) (i : ℕ) (v : Bytes) (found : Found)
    → IsLeaf v found
    → IsLeaf v (in_branch c i found)
in_branch-IsLeaf c i v (none, t) h = h
in_branch-IsLeaf c i v (some (r, (l, prefix)), t) h = h

in_extension-IsLeaf :
    (k v : Bytes) (found : Found) → IsLeaf v found → IsLeaf v (in_extension k found)
in_extension-IsLeaf k v (none, t) h = h
in_extension-IsLeaf k v (some (r, (l, prefix)), t) h = h

module _ (b : Backing) (hash_length : (bs : Bytes) → length (b.double_sha256 bs) ≡ 32) where
  -- the trie is within the limits of the binary form, and hash nodes are those of the nodes stored
  unfoldable pub IsSound : ℕ → Node → Type 0
  IsSound zero n = Unit
  IsSound (suc d) empty = Unit
  IsSound (suc d) (leaf v) = IsWithinLimits (leaf v)
  IsSound (suc d) (extension k n) = IsWithinLimits (extension k n) × IsSound d n
  IsSound (suc d) (branch c) = IsWithinLimits (branch c) × ((i : ℕ) → IsSound d (c i))
  IsSound (suc d) (hash_node h) =
      (n : Node) × (stored_node b h ≡ some n
        × (as_child b.double_sha256 n ≡ hash_node h × IsSound d n))

  -- a backing with other contents of the store
  abbrev pub holding : (Bytes → Option Bytes) → Backing
  holding g = record { double_sha256 = b.double_sha256; store_get = g; refcount_enabled = false }

  -- the elements are enough to find the value
  abbrev pub Suffices : ℕ → List Bytes → Node → Bytes → Bytes → Type 0
  Suffices d proofs n p v =
      (g : Bytes → Option Bytes) (fuel : ℕ) (t : Refs)
      → All (λ q. g (make_storage_key (b.double_sha256 q)) ≡ some q) proofs
      → double d ≤ fuel
      → IsLeaf v (get_with_path (holding g) fuel (as_child b.double_sha256 n) p true t)

  -- the proof is what there was and elements that are enough
  abbrev pub Proves : ℕ → List Bytes → Node → Bytes → Bytes → Proving b → Type 0
  Proves d acc n p v (none, ps) = zero ≡ suc zero
  Proves d acc n p v (some r, (proofs, t)) =
      (more : List Bytes) × (proofs ≡ acc ++ more × Suffices d more n p v)

  -- one level of the lookup, through the hash of the node
  through_hash :
      (g : Bytes → Option Bytes) (fuel : ℕ) (n : Node) (p v : Bytes) (t : Refs)
      → g (make_storage_key (hash_of b.double_sha256 n)) ≡ some (bytes_of b.double_sha256 n)
      → IsWithinLimits n
      → set_cache (hash_of b.double_sha256 n) (shallow b.double_sha256 n)
        ≡ some (shallow b.double_sha256 n)
      → IsLeaf v (
          get_with_path
            (holding g)
            fuel
            (shallow b.double_sha256 n)
            p
            true
            (noted_refs (holding g) (hash_of b.double_sha256 n) t))
      → IsLeaf v
          (get_with_path (holding g) (suc fuel) (hash_node (hash_of b.double_sha256 n)) p true t)
  through_hash g fuel n p v t e h cached found =
      subst (IsLeaf v)
        (sym (
          get_with_path_hash (holding g) fuel (hash_of b.double_sha256 n)
            (shallow b.double_sha256 n) p t
            (stored_node-hash_of (holding g) hash_length n
              ([], (e ∙ ap some (sym (append-nil (bytes_of b.double_sha256 n))), refl)) h cached)))
        found

  pub leaf-Suffices :
      (d : ℕ) (w v : Bytes)
      → IsWithinLimits (leaf w)
      → w ≡ v
      → Suffices (suc d) (bytes_of b.double_sha256 (leaf w) ∷ []) (leaf w) [] v
  unfolding as_child shallow get_with_path hash_of bytes_of
  leaf-Suffices d w v h e g zero t all le = absurd (omega arith)
  leaf-Suffices d w v h e g (suc zero) t all le = absurd (omega arith)
  leaf-Suffices d w v h e g (suc (suc fuel)) t all le =
      through_hash g (suc fuel) (leaf w) [] v t all.0 h refl (ap leaf e)

  pub extension-Suffices :
      (d : ℕ) (k : Bytes) (n : Node) (p v : Bytes) (more : List Bytes)
      → IsWithinLimits (extension k n)
      → has_prefix p k ≡ true
      → Suffices d more n (drop (length k) p) v
      → Suffices (suc d) (bytes_of b.double_sha256 (extension k n) ∷ more) (extension k n) p v
  unfolding as_child shallow get_with_path hash_of bytes_of
  extension-Suffices d k n p v more h e below g zero t all le = absurd (omega arith)
  extension-Suffices d k n p v more h e below g (suc zero) t all le = absurd (omega arith)
  extension-Suffices d k n p v more h e below g (suc (suc fuel)) t all le =
      through_hash g (suc fuel) (extension k n) p v t all.0 h refl (
        rw (both_false (is_empty p), e)
          (in_extension-IsLeaf k v
            (get_with_path (holding g) fuel (as_child b.double_sha256 n) (drop (length k) p) true
              (noted_refs (holding g) (hash_of b.double_sha256 (extension k n)) t))
            (below g fuel (noted_refs (holding g) (hash_of b.double_sha256 (extension k n)) t) all.1
              (omega arith))))

  pub branch-Suffices :
      (d : ℕ) (c : ℕ → Node) (p v : Bytes) (more : List Bytes)
      → IsWithinLimits (branch c)
      → IsPath p
      → Suffices d more (c (split_path p).0) (split_path p).1 v
      → Suffices (suc d) (bytes_of b.double_sha256 (branch c) ∷ more) (branch c) p v
  unfolding as_child shallow get_with_path hash_of bytes_of
  branch-Suffices d c p v more h x below g zero t all le = absurd (omega arith)
  branch-Suffices d c p v more h x below g (suc zero) t all le = absurd (omega arith)
  branch-Suffices d c p v more h x below g (suc (suc fuel)) t all le =
      through_hash g (suc fuel) (branch c) p v t all.0 h refl (inside p x below)
    where
      t' : Refs
      t' = noted_refs (holding g) (hash_of b.double_sha256 (branch c)) t

      cs : ℕ → Node
      cs = children_of (children_list b.double_sha256 0 children_count c)

      child :
          (i : ℕ) (q : Bytes)
          → i < children_count
          → Suffices d more (c i) q v
          → IsLeaf v (get_with_path (holding g) fuel (cs i) q true t')
      child i q lt below =
          let same : 0 + i ≡ i = omega arith in
          rw (children_list_in b hash_length 0 children_count c i lt, same)
            (below g fuel t' all.1 (omega arith))

      inside :
          (p : Bytes)
          → IsPath p
          → Suffices d more (c (split_path p).0) (split_path p).1 v
          → IsLeaf v
              (get_with_path (holding g) (suc fuel) (shallow b.double_sha256 (branch c)) p true t')
      inside [] x below =
          in_branch-IsLeaf cs last_child v
            (get_with_path (holding g) fuel (cs last_child) [] true t')
            (child last_child [] (omega arith) below)
      inside (y ∷ p) x below =
          let small : y < 16 = x.0 in
          let not_last : (y == last_child) ≡ false = ground arith in
          rw not_last (
            in_branch-IsLeaf cs y v (get_with_path (holding g) fuel (cs y) p true t')
              (child y p (omega arith) below))

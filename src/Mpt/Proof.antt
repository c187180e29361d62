-- ===== src/Mpt/Proof.antt =====
-- pkg/core/mpt/proof.go: proofs that a key is in a trie, and their verification against the hash of
-- the root.
pub mod Soundness
pub mod Filled
pub mod Elements
pub mod Completeness
use koala_tblockchain_golang.Shared.{
  ℕ, zero, suc, ◌==◌, ltb, List, [], ◌∷◌, ◌++◌, Option, none, some, Bool, true, false,
  if◌then◌else◌, length, drop, is_empty,
}
use koala_tblockchain_golang.Shared.Bytes.{has_prefix}
use koala_tblockchain_golang.Storage.Memory.{
  MemoryStore, new_memory_store, memory_get, put_change_set,
}
use koala_tblockchain_golang.Storage.Cached.{
  LowerStore, MemCachedStore, new_cached, cached_get, cached_put,
}
use koala_tblockchain_golang.Mpt.Node.{
  Bytes, Node, empty, leaf, extension, branch, hash_node, set_child, split_path, bytes_of,
}
use koala_tblockchain_golang.Mpt.Nibbles.{to_nibbles}
use koala_tblockchain_golang.Mpt.Trie.{
  no_refs, Backing, Refs, Trie, Found, make_storage_key, stored_node, noted_refs, get_with_path,
  max_key_length, value_of, new_trie,
}

-- the memory store below a cached one
abbrev pub over_memory : LowerStore MemoryStore
over_memory = record {
  lower_get = memory_get;
  lower_put = λ puts dels s. some (put_change_set puts dels s);
}

module _ (b : Backing) where
  -- the node in place of the given one, or an error, the elements of the proof so far and the table
  abbrev pub Proving : Type 0
  Proving = Option Node × (List Bytes × Refs)

  abbrev pub rebuilt : (Node → Node) → Proving → Proving
  rebuilt change (none, ps) = (none, ps)
  rebuilt change (some r, ps) = (some (change r), ps)

  -- getProof
  unfoldable pub get_proof_of : ℕ → Node → Bytes → List Bytes → Refs → Proving
  get_proof_of zero curr path proofs t = (none, (proofs, t))
  get_proof_of (suc fuel) (leaf v) path proofs t =
      if is_empty path
      then (some (leaf v), (proofs ++ bytes_of b.double_sha256 (leaf v) ∷ [], t))
      else (none, (proofs, t))
  get_proof_of (suc fuel) (branch c) path proofs t =
      let (i, rest) = split_path path in
      rebuilt (λ r. branch (set_child c i r))
        (get_proof_of fuel (c i) rest (proofs ++ bytes_of b.double_sha256 (branch c) ∷ []) t)
  get_proof_of (suc fuel) (extension k n) path proofs t =
      let below = rebuilt (extension k) (
        get_proof_of fuel n (drop (length k) path)
          (proofs ++ bytes_of b.double_sha256 (extension k n) ∷ []) t) in
      if has_prefix path k then below else (none, (proofs, t))
  get_proof_of (suc fuel) (hash_node h) path proofs t = elim (stored_node b h) [
    | none ↦ (none, (proofs, noted_refs b h t))
    | some r ↦ get_proof_of fuel r path proofs (noted_refs b h t)
  ]
  get_proof_of (suc fuel) empty path proofs t = (none, (proofs, t))

  abbrev pub proved : Trie → Proving → (Bool × List Bytes) × Trie
  proved tr (none, (proofs, t)) = ((false, proofs), record tr { refcounts = t })
  proved tr (some r, (proofs, t)) = ((true, proofs), record { root = r; refcounts = t })

  -- GetProof: whether there was no error, and the proof
  unfoldable pub get_proof : ℕ → Bytes → Trie → (Bool × List Bytes) × Trie
  get_proof fuel key tr =
      if ltb max_key_length (length key)
      then ((false, []), tr)
      else proved tr (get_proof_of fuel tr.root (to_nibbles key) [] tr.refcounts)

module _ (double_sha256 : Bytes → Bytes) where
  -- the loop of VerifyProof
  unfoldable pub put_proofs : List Bytes → MemCachedStore MemoryStore → MemCachedStore MemoryStore
  put_proofs [] s = s
  put_proofs (p ∷ proofs) s =
      put_proofs proofs (cached_put (make_storage_key (double_sha256 p)) p s)

  -- the store that it looks in
  abbrev pub proof_backing : List Bytes → Backing
  proof_backing proofs = record {
    double_sha256 = double_sha256;
    store_get = λ k. cached_get over_memory k (put_proofs proofs (new_cached new_memory_store));
    refcount_enabled = false;
  }

  abbrev pub found_value : Found → Option Bytes
  found_value (none, t) = none
  found_value (some (r, (l, prefix)), t) = some (value_of l)

  -- VerifyProof
  unfoldable pub verify_proof : ℕ → Bytes → Bytes → List Bytes → Option Bytes
  verify_proof fuel rh key proofs = found_value (
      get_with_path (proof_backing proofs) fuel (new_trie (hash_node rh)).root (to_nibbles key) true
        no_refs)

-- ===== src/Mpt/Proof/Completeness.antt =====
-- What GetProof makes is accepted by VerifyProof.
use koala_tblockchain_golang.Shared.{
  ℕ, zero, suc, ◌≤◌, ◌≡◌, subst, refl, sym, ◌∙◌, List, [], ◌∷◌, ◌++◌, append_assoc, none, some,
  Bool, true, length, drop, arith, Bool-cases, inl, inr,
}
use koala_tblockchain_golang.Shared.Bytes.{has_prefix}
use koala_tblockchain_golang.Mpt.Node.{
  Bytes, Node, empty, leaf, extension, branch, hash_node, set_child, split_path, hash_of, bytes_of,
}
use koala_tblockchain_golang.Mpt.Node.Binary.{as_child}
use koala_tblockchain_golang.Mpt.Nibbles.{IsPath}
use koala_tblockchain_golang.Mpt.Trie.{
  Backing, Refs, Trie, stored_node, noted_refs, get_with_path, state_root,
}
use koala_tblockchain_golang.Mpt.Trie.Contents.{Values, Holds, Holds_zero}
use koala_tblockchain_golang.Mpt.Trie.Contents.Lookups.{IsPath-drop, IsPath-split_path}
use koala_tblockchain_golang.Mpt.Proof.{verify_proof, Proving, rebuilt, get_proof_of}
use koala_tblockchain_golang.Mpt.Proof.Filled.{IsCollisionFree}
use koala_tblockchain_golang.Mpt.Proof.Elements.{
  IsLeaf, IsSound, holding, Suffices, Proves, leaf-Suffices, extension-Suffices, branch-Suffices,
}

module _ (b : Backing) (hash_length : (bs : Bytes) → length (b.double_sha256 bs) ≡ 32) where
  rebuilt-Proves :
      (d : ℕ) (acc : List Bytes) (x : Bytes) (n n' : Node) (p q v : Bytes) (change : Node → Node)
      (o : Proving b)
      → ((more : List Bytes)
          → Suffices b hash_length d more n' q v
          → Suffices b hash_length (suc d) (x ∷ more) n p v)
      → Proves b hash_length d (acc ++ x ∷ []) n' q v o
      → Proves b hash_length (suc d) acc n p v (rebuilt b change o)
  rebuilt-Proves d acc x n n' p q v change (none, ps) step h = h
  rebuilt-Proves d acc x n n' p q v change (some r, (proofs, t)) step (more, (e, s)) =
      (x ∷ more, (e ∙ append_assoc acc (x ∷ []) more, step more s))

  hash-Proves :
      (d : ℕ) (acc : List Bytes) (n : Node) (i p v : Bytes) (o : Proving b)
      → as_child b.double_sha256 n ≡ hash_node i
      → Proves b hash_length d acc n p v o
      → Proves b hash_length (suc d) acc (hash_node i) p v o
  unfolding as_child hash_of
  hash-Proves d acc n i p v (none, ps) e h = h
  hash-Proves d acc n i p v (some r, (proofs, t)) e (more, (same, s)) = (
    more,
    (
      same,
      λ g fuel t' all le.
          subst (λ (c : Node). IsLeaf v (get_with_path (holding b hash_length g) fuel c p true t'))
            e (s g fuel t' all (omega arith)),
    ),
  )

  get_proof_of_hash :
      (fuel : ℕ) (i p : Bytes) (n : Node) (acc : List Bytes) (t : Refs)
      → stored_node b i ≡ some n
      → get_proof_of b (suc fuel) (hash_node i) p acc t
        ≡ get_proof_of b fuel n p acc (noted_refs b i t)
  unfolding get_proof_of
  get_proof_of_hash fuel i p n acc t s = rw (s, get_proof_of) refl

  some_injective : {A : Type 0} {x y : A} → some x ≡ some y → x ≡ y
  some_injective e = cc

  pub get_proof_of-Proves :
      (d fuel : ℕ) (n : Node) (f : Values) (p v : Bytes) (acc : List Bytes) (t : Refs)
      → d ≤ fuel
      → IsPath p
      → Holds b d n f
      → IsSound b hash_length d n
      → f p ≡ some v
      → Proves b hash_length d acc n p v (get_proof_of b fuel n p acc t)
  unfolding get_proof_of Holds IsSound
  get_proof_of-Proves zero fuel n f p v acc t le x h s e = Holds_zero b n f h
  get_proof_of-Proves (suc d) zero n f p v acc t le x h s e = absurd (omega arith)
  get_proof_of-Proves (suc d) (suc fuel) empty f p v acc t le x h s e = absurd (cc (h p x, e))
  get_proof_of-Proves (suc d) (suc fuel) (leaf w) f [] v acc t le x h s e = (
    bytes_of b.double_sha256 (leaf w) ∷ [],
    (refl, leaf-Suffices b hash_length d w v s (some_injective (sym (h [] x) ∙ e))),
  )
  get_proof_of-Proves (suc d) (suc fuel) (leaf w) f (y ∷ p) v acc t le x h s e =
      absurd (cc (h (y ∷ p) x, e))
  get_proof_of-Proves (suc d) (suc fuel) (branch c) f p v acc t le x (g, (h, (a, l))) (lim, s) e =
      rebuilt-Proves d acc (bytes_of b.double_sha256 (branch c)) (branch c) (c (split_path p).0) p
        (split_path p).1 v (λ r. branch (set_child c (split_path p).0 r))
        (get_proof_of b fuel (c (split_path p).0) (split_path p).1
          (acc ++ bytes_of b.double_sha256 (branch c) ∷ []) t)
        (λ more. branch-Suffices b hash_length d c p v more lim x)
        (get_proof_of-Proves d fuel (c (split_path p).0) (g (split_path p).0) (split_path p).1 v
          (acc ++ bytes_of b.double_sha256 (branch c) ∷ []) t (omega arith) (IsPath-split_path p x)
          (h (split_path p).0) (s (split_path p).0) (sym (a p x) ∙ e))
  get_proof_of-Proves (suc d) (suc fuel) (extension k n) f p v acc t le x (hk, (g, (h, a))) (lim, s)
        e =
      elim (Bool-cases (has_prefix p k)) [
        | inl y ↦ rw y (
            rebuilt-Proves d acc (bytes_of b.double_sha256 (extension k n)) (extension k n) n p
              (drop (length k) p) v (extension k)
              (get_proof_of b fuel n (drop (length k) p)
                (acc ++ bytes_of b.double_sha256 (extension k n) ∷ []) t)
              (λ more. extension-Suffices b hash_length d k n p v more lim y)
              (get_proof_of-Proves d fuel n g (drop (length k) p) v
                (acc ++ bytes_of b.double_sha256 (extension k n) ∷ []) t (omega arith)
                (IsPath-drop (length k) p x) h s (rw y at (sym (a p x) ∙ e))))
        | inr y ↦ absurd (cc (rw y at (sym (a p x) ∙ e)))
      ]
  get_proof_of-Proves (suc d) (suc fuel) (hash_node i) f p v acc t le x (n, (at_i, h))
        (n', (at_i', (child, s))) e =
      let same : n' ≡ n = some_injective (sym at_i' ∙ at_i) in
      subst (Proves b hash_length (suc d) acc (hash_node i) p v)
        (sym (get_proof_of_hash fuel i p n acc t at_i))
        (hash-Proves d acc n i p v (get_proof_of b fuel n p acc (noted_refs b i t))
          (subst (λ (m : Node). as_child b.double_sha256 m ≡ hash_node i) same child)
          (get_proof_of-Proves d fuel n f p v acc (noted_refs b i t) (omega arith) x h
            (subst (IsSound b hash_length d) same s) e))

  -- what GetProof returns, whether there was no error and the elements, is accepted
  abbrev IsAccepted : ℕ → Bytes → Bytes → Trie → (Bool × List Bytes) × Trie → Type 0
  IsAccepted fuel key v tr ((ok, proofs), tr') =
      IsCollisionFree b.double_sha256 proofs
      → ok ≡ true × verify_proof b.double_sha256 fuel (state_root b tr) key proofs ≡ some v

-- ===== src/Mpt/Proof/Soundness.antt =====
-- What VerifyProof accepts, against the trie whose root has the hash.
use koala_tblockchain_golang.Shared.{
  ℕ, zero, suc, ◌<◌, ◌≡◌, ◌⊎◌, subst, refl, sym, ap, ◌∙◌, ◌==◌, List, [], ◌∷◌, Option, none, some,
  true, false, if◌then◌else◌, length, drop, is_empty, arith, All, Bool-cases, Option-cases, inl,
  inr,
}
use koala_tblockchain_golang.Shared.Bytes.{has_prefix, equals, equals_sound}
use koala_tblockchain_golang.Storage.Memory.{
  MemoryStore, new_memory_store, memory_get, lookup, member,
}
use koala_tblockchain_golang.Storage.Cached.{MemCachedStore, new_cached, cached_get, cached_put}
use koala_tblockchain_golang.Storage.Cached.View.{contents-cached_put}
use koala_tblockchain_golang.Mpt.Node.{
  Bytes, Node, empty, leaf, extension, branch, hash_node, last_child,
}
use koala_tblockchain_golang.Mpt.Nibbles.{IsPath, to_nibbles, to_nibbles-IsPath}
use koala_tblockchain_golang.Mpt.Trie.{
  Backing, no_refs, Refs, Found, make_storage_key, is_cut_short, stored_node, noted_refs,
  get_with_path, value_of, new_trie, in_branch, in_extension,
}
use koala_tblockchain_golang.Mpt.Trie.Contents.{Values, Holds, Holds_zero}
use koala_tblockchain_golang.Mpt.Trie.Contents.Lookups.{IsPath-drop, get_with_path_hash, both_false}
use koala_tblockchain_golang.Mpt.Trie.Contents.Keys.{Stores}
use koala_tblockchain_golang.Mpt.Proof.{
  over_memory, put_proofs, proof_backing, found_value, verify_proof,
}

no_data :
    (b : Backing) (h : Bytes) → b.store_get (make_storage_key h) ≡ none → stored_node b h ≡ none
unfolding stored_node
no_data b h e = rw (e, stored_node) refl

module _ (b : Backing) where
  -- no other bytes than those of a node in the store have its hash
  abbrev pub HasNoCollision : Bytes → Type 0
  HasNoCollision p =
      (h bs : Bytes) → b.store_get (make_storage_key h) ≡ some bs → b.double_sha256 p ≡ h → p ≡ bs

  -- the store of a proof has elements of the proof under their hashes
  abbrev HasProofs : MemCachedStore MemoryStore → Type 0
  HasProofs s =
      (k p : Bytes)
      → cached_get over_memory k s ≡ some p
      → make_storage_key (b.double_sha256 p) ≡ k × HasNoCollision p

  new_cached-HasProofs : HasProofs (new_cached new_memory_store)
  unfolding cached_get new_cached new_memory_store lookup member memory_get
  new_cached-HasProofs k p e = absurd cc

  put_proofs-HasProofs :
      (proofs : List Bytes) (s : MemCachedStore MemoryStore)
      → All HasNoCollision proofs
      → HasProofs s
      → HasProofs (put_proofs b.double_sha256 proofs s)
  unfolding put_proofs
  put_proofs-HasProofs [] s all h = h
  put_proofs-HasProofs (q ∷ proofs) s (one, all) h =
      put_proofs-HasProofs proofs (cached_put key q s) all (λ k p e.
        elim (Bool-cases (equals key k)) [
          | inl same ↦
              let q_p : q ≡ p = cc (sym (at k) ∙ e, same_value k same) in
              rw (← q_p) (equals_sound key k same, one)
          | inr differ ↦ h k p (sym (at k ∙ rw differ refl) ∙ e)
        ])
    where
      key : Bytes
      key = make_storage_key (b.double_sha256 q)

      at :
          (k : Bytes)
          → cached_get over_memory k (cached_put key q s)
            ≡ (if equals key k then some q else cached_get over_memory k s)
      at k = ap (λ (f : Bytes → Option Bytes). f k) (contents-cached_put over_memory key q s)

      same_value :
          (k : Bytes)
          → equals key k ≡ true
          → (if equals key k then some q else cached_get over_memory k s) ≡ some q
      same_value k e = rw e refl

  -- a hash is either not looked up, or gives the node in the store
  abbrev IsPart : Backing → Type 0
  IsPart b' =
      (h : Bytes) (n : Node)
      → stored_node b h ≡ some n
      → (stored_node b' h ≡ none) ⊎ (stored_node b' h ≡ some n)

  -- what is found is the value
  abbrev IsRight : Values → Bytes → Found → Type 0
  IsRight f p (none, t) = Unit
  IsRight f p (some (r, (l, prefix)), t) = (v : Bytes) × (l ≡ leaf v × f p ≡ some v)

  in_branch-IsRight :
      (c : ℕ → Node) (i : ℕ) (f g : Values) (p q : Bytes) (found : Found)
      → f p ≡ g q
      → IsRight g q found
      → IsRight f p (in_branch c i found)
  in_branch-IsRight c i f g p q (none, t) e h = tt
  in_branch-IsRight c i f g p q (some (r, (l, prefix)), t) e (v, (el, ev)) = (v, (el, e ∙ ev))

  in_extension-IsRight :
      (k : Bytes) (f g : Values) (p q : Bytes) (found : Found)
      → f p ≡ g q
      → IsRight g q found
      → IsRight f p (in_extension k found)
  in_extension-IsRight k f g p q (none, t) e h = tt
  in_extension-IsRight k f g p q (some (r, (l, prefix)), t) e (v, (el, ev)) = (v, (el, e ∙ ev))

  module _ (b' : Backing) (part : IsPart b') where
    unknown_hash :
        (fuel : ℕ) (i p : Bytes) (t : Refs)
        → stored_node b' i ≡ none
        → get_with_path b' (suc fuel) (hash_node i) p true t ≡ (none, noted_refs b' i t)
    unfolding get_with_path
    unknown_hash fuel i p t e = rw (e, get_with_path) refl

    get_with_path-IsRight :
        (d fuel : ℕ) (n : Node) (f : Values) (p : Bytes) (t : Refs)
        → IsPath p
        → Holds b d n f
        → IsRight f p (get_with_path b' fuel n p true t)
    unfolding get_with_path Holds
    get_with_path-IsRight zero fuel n f p t x h = Holds_zero b n f h
    get_with_path-IsRight (suc d) zero n f p t x h = tt
    get_with_path-IsRight (suc d) (suc fuel) empty f p t x h = tt
    get_with_path-IsRight (suc d) (suc fuel) (leaf v) f [] t x h = (v, (refl, h [] x))
    get_with_path-IsRight (suc d) (suc fuel) (leaf v) f (y ∷ p) t x h = tt
    get_with_path-IsRight (suc d) (suc fuel) (branch c) f [] t x (g, (h, (a, l))) =
        in_branch-IsRight c last_child f (g last_child) [] []
          (get_with_path b' fuel (c last_child) [] true t) (a [] x)
          (get_with_path-IsRight d fuel (c last_child) (g last_child) [] t x (h last_child))
    get_with_path-IsRight (suc d) (suc fuel) (branch c) f (y ∷ p) t x (g, (h, (a, l))) =
        let small : y < 16 = x.0 in
        let not_last : (y == last_child) ≡ false = ground arith in
        rw not_last (
          in_branch-IsRight c y f (g y) (y ∷ p) p (get_with_path b' fuel (c y) p true t)
            (a (y ∷ p) x) (get_with_path-IsRight d fuel (c y) (g y) p t x.1 (h y)))
    get_with_path-IsRight (suc d) (suc fuel) (extension k n) f p t x (hk, (g, (h, a))) =
        elim (Bool-cases (has_prefix p k)) [
          | inl e ↦
              rw (both_false (is_empty p), e)
                (in_extension-IsRight k f g p (drop (length k) p)
                  (get_with_path b' fuel n (drop (length k) p) true t) (a p x ∙ rw e refl)
                  (get_with_path-IsRight d fuel n g (drop (length k) p) t
                    (IsPath-drop (length k) p x) h))
          | inr e ↦ rw (both_false (is_empty p), e) tt
        ]
    get_with_path-IsRight (suc d) (suc fuel) (hash_node i) f p t x (n, (s, h)) = elim (part i n s) [
      | inl e ↦ subst (IsRight f p) (sym (unknown_hash fuel i p t e)) tt
      | inr e ↦
          subst (IsRight f p) (sym (get_with_path_hash b' fuel i n p t e))
            (get_with_path-IsRight d fuel n f p (noted_refs b' i t) x h)
    ]

  -- the same data is the same node for a trie that does not count references
  same_data :
      (b' : Backing) (h bs : Bytes) (n : Node)
      → b'.refcount_enabled ≡ false
      → b.store_get (make_storage_key h) ≡ some bs
      → b'.store_get (make_storage_key h) ≡ some bs
      → stored_node b h ≡ some n
      → stored_node b' h ≡ some n
  unfolding stored_node
  same_data b' h bs n off e e' found =
      let found' = rw (e, stored_node) at found in
      elim (Bool-cases (is_cut_short b.refcount_enabled bs)) [
        | inl short ↦ absurd (cc (rw short at found'))
        | inr whole ↦ rw (e', off, stored_node) (rw whole at found')
      ]

  proof_backing-IsPart :
      (proofs : List Bytes)
      → All HasNoCollision proofs
      → IsPart (proof_backing b.double_sha256 proofs)
  proof_backing-IsPart proofs all h n e = elim (Option-cases (lookup_proof (make_storage_key h))) [
    | inl absent ↦ inl (no_data (proof_backing b.double_sha256 proofs) h absent)
    | inr (p, there) ↦ elim (Option-cases (b.store_get (make_storage_key h))) [
      | inl e0 ↦ absurd (cc (no_data b h e0, e))
      | inr (bs, eb) ↦
          let (ek, unique) = filled (make_storage_key h) p there in
          let same : p ≡ bs = unique h bs eb cc in
          inr (
            same_data (proof_backing b.double_sha256 proofs) h bs n refl eb (there ∙ ap some same)
              e)
    ]
  ]
    where
      lookup_proof : Bytes → Option Bytes
      lookup_proof k =
          cached_get over_memory k (put_proofs b.double_sha256 proofs (new_cached new_memory_store))

      filled : HasProofs (put_proofs b.double_sha256 proofs (new_cached new_memory_store))
      filled = put_proofs-HasProofs proofs (new_cached new_memory_store) all new_cached-HasProofs

  found_value-IsRight :
      (f : Values) (p v : Bytes) (found : Found)
      → IsRight f p found
      → found_value b.double_sha256 found ≡ some v
      → f p ≡ some v
  found_value-IsRight f p v (none, t) h e = absurd cc
  found_value-IsRight f p v (some (r, (l, prefix)), t) (w, (el, ev)) e =
      ev ∙ sym (ap some (ap value_of el)) ∙ e

  -- If VerifyProof accepts a proof for a hash and a key, with whatever elements, and a trie stores
  -- a map under that hash, then the map has the value at the key; provided that no element of the
  -- proof has the hash under which the store of the trie has other bytes.
  pub verify_proof_sound :
      (d fuel : ℕ) (rh key v : Bytes) (proofs : List Bytes) (m : Bytes → Option Bytes)
      → All (λ x. x < 256) key
      → All HasNoCollision proofs
      → Stores b d (new_trie (hash_node rh)) m
      → verify_proof b.double_sha256 fuel rh key proofs ≡ some v
      → m key ≡ some v
  unfolding verify_proof
  verify_proof_sound d fuel rh key v proofs m hk all (f, (h, a)) e =
      sym (a key hk)
      ∙ found_value-IsRight f (to_nibbles key) v
          (get_with_path (proof_backing b.double_sha256 proofs) fuel (hash_node rh) (to_nibbles key)
            true no_refs)
          (get_with_path-IsRight (proof_backing b.double_sha256 proofs)
            (proof_backing-IsPart proofs all) d fuel (hash_node rh) f (to_nibbles key) no_refs
            (to_nibbles-IsPath key hk) h)
          e

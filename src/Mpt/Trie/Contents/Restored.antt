-- ===== src/Mpt/Trie/Contents/Restored.antt =====
-- A trie whose nodes are in the store, collapsed: hash nodes in place of nodes hold the same values.
use koala_tblockchain_golang.Shared.{
  ℕ, zero, suc, ◌+◌, ◌-◌, ◌≤◌, ◌<◌, ◌≡◌, refl, ap, ◌∙◌, ltb, [], ◌∷◌, ◌++◌, Option, some, true,
  if◌then◌else◌, length, length-append, ◌&&◌, false, arith, Bool-cases, inl, inr,
}
use koala_tblockchain_golang.Io.Reader.{new_from_buf}
use koala_tblockchain_golang.Mpt.Node.{
  Bytes, Node, empty, leaf, extension, branch, hash_node, children_count, split_path, hash_of,
  bytes_of, children_of,
}
use koala_tblockchain_golang.Mpt.Node.Binary.{as_child, children_list, shallow, bytes_of_lem}
use koala_tblockchain_golang.Mpt.Node.Reading.{IsSized, IsWithinLimits, decode_node-bytes_of}
use koala_tblockchain_golang.Mpt.Nibbles.{IsPath}
use koala_tblockchain_golang.Mpt.Trie.{
  Backing, Trie, make_storage_key, stored_node, node_object, decoded, is_cut_short, set_cache,
  set_cache?,
}
use koala_tblockchain_golang.Mpt.Trie.Flush.{collapse, collapse_trie}
use koala_tblockchain_golang.Mpt.Trie.Contents.{Values, no_values, Holds, Holds_zero, Holds-suc}
use koala_tblockchain_golang.Mpt.Trie.Contents.Keys.{Stores}

abbrev pub double : ℕ → ℕ
double zero = zero
double (suc d) = suc (suc (double d))

pub split_path_small : (p : Bytes) → IsPath p → ltb (split_path p).0 children_count ≡ true
split_path_small [] x = refl
split_path_small (y ∷ p) x = let small : y < 16 = x.0 in ground arith

-- what SHA-256 gives has 32 bytes
module _ (b : Backing) (hash_length : (bs : Bytes) → length (b.double_sha256 bs) ≡ 32) where
  -- the node is in the store under its hash, with a count behind it if references are counted
  abbrev pub IsInStore : Node → Type 0
  IsInStore n =
      (tail : Bytes) × ((b.store_get (make_storage_key (hash_of b.double_sha256 n))
          ≡ some (bytes_of b.double_sha256 n ++ tail))
        × ((b.refcount_enabled && ltb (length tail) 4) ≡ false))

  -- the node and all below it are in the store and within the limits of their binary form
  unfoldable pub IsSaved : Node → Type 0
  IsSaved empty = Unit
  IsSaved (hash_node h) = length h ≡ 32
  IsSaved (leaf v) = IsInStore (leaf v) × length v ≤ 65539
  IsSaved (extension k n) = IsInStore (extension k n) × (length k ≤ 136 × IsSaved n)
  IsSaved (branch c) = IsInStore (branch c) × ((j : ℕ) → IsSaved (c j))

  IsSaved-IsSized : (n : Node) → IsSaved n → IsSized n
  unfolding IsSaved
  IsSaved-IsSized empty h = tt
  IsSaved-IsSized (leaf v) h = tt
  IsSaved-IsSized (extension k n) h = tt
  IsSaved-IsSized (branch c) h = tt
  IsSaved-IsSized (hash_node i) h = h

  node_object-bytes_of :
      (n : Node) (tail : Bytes)
      → IsWithinLimits n
      → node_object (bytes_of b.double_sha256 n ++ tail)
        ≡ (some (shallow b.double_sha256 n), new_from_buf tail)
  unfolding node_object
  node_object-bytes_of n tail h =
      let size : ℕ = length (bytes_of b.double_sha256 n ++ tail) in
      let long : 1 ≤ length (bytes_of b.double_sha256 n ++ tail) =
        rw (bytes_of_lem b.double_sha256 n) (omega arith) in
      let more : length (bytes_of b.double_sha256 n ++ tail)
          ≡ suc (length (bytes_of b.double_sha256 n ++ tail) - 1) =
        omega arith in
      rw more (
        decode_node-bytes_of b.double_sha256 hash_length
          (length (bytes_of b.double_sha256 n ++ tail) - 1) n tail h)

  pub stored_node-hash_of :
      (n : Node)
      → IsInStore n
      → IsWithinLimits n
      → set_cache (hash_of b.double_sha256 n) (shallow b.double_sha256 n)
        ≡ some (shallow b.double_sha256 n)
      → stored_node b (hash_of b.double_sha256 n) ≡ some (shallow b.double_sha256 n)
  unfolding stored_node
  stored_node-hash_of n (tail, (e, counted)) h cached =
      let bs = bytes_of b.double_sha256 n in
      let whole : is_cut_short b.refcount_enabled (bs ++ tail) ≡ false =
        ground (arith, counted, length-append bs tail) in
      rw (e, stored_node, whole)
        (ap (λ o. set_cache? (hash_of b.double_sha256 n) (decoded o))
            (node_object-bytes_of n tail h)
          ∙ cached)

  Holds-double : (d : ℕ) (n : Node) (f : Values) → Holds b d n f → Holds b (double d) n f
  unfolding Holds
  Holds-double zero n f h = Holds_zero b n f h
  Holds-double (suc d) empty f h = h
  Holds-double (suc d) (leaf v) f h = h
  Holds-double (suc d) (extension k n) f (x, (g, (h, a))) =
      (x, (g, (Holds-suc b (double d) n g (Holds-double d n g h), a)))
  Holds-double (suc d) (branch c) f (g, (h, (a, l))) =
      (g, (λ i. Holds-suc b (double d) (c i) (g i) (Holds-double d (c i) (g i) (h i)), (a, l)))
  Holds-double (suc d) (hash_node i) f (n, (s, h)) =
      (n, (s, Holds-suc b (double d) n f (Holds-double d n f h)))

  nothing-Holds :
      (d : ℕ) (n : Node) (f : Values) → Holds b d n f → Holds b (double d) empty no_values
  unfolding Holds
  nothing-Holds zero n f h = Holds_zero b n f h
  nothing-Holds (suc d) n f h = λ p x. refl

  -- the children that are read, from the index i on
  pub children_list_in :
      (i n : ℕ) (c : ℕ → Node) (j : ℕ)
      → j < n
      → children_of (children_list b.double_sha256 i n c) j ≡ as_child b.double_sha256 (c (i + j))
  unfolding children_list
  children_list_in i zero c j lt = absurd (omega arith)
  children_list_in i (suc n) c zero lt = let same : i + 0 ≡ i = omega arith in rw same refl
  children_list_in i (suc n) c (suc j) lt =
      let same : i + 1 + j ≡ i + suc j = omega arith in
      children_list_in (i + 1) n c j (omega arith) ∙ rw same refl

  children_list_out :
      (i n : ℕ) (c : ℕ → Node) (j : ℕ)
      → n ≤ j
      → children_of (children_list b.double_sha256 i n c) j ≡ empty
  unfolding children_list
  children_list_out i zero c j le = refl
  children_list_out i (suc n) c zero le = absurd (omega arith)
  children_list_out i (suc n) c (suc j) le = children_list_out (i + 1) n c j (omega arith)

  -- the values of the children, and none behind the last
  abbrev known_children : (ℕ → Values) → ℕ → Values
  known_children g j = if ltb j children_count then g j else no_values

  children-Holds :
      (d : ℕ) (c : ℕ → Node) (g : ℕ → Values)
      → Holds b d (c 0) (g 0)
      → ((j : ℕ) → Holds b (double d) (as_child b.double_sha256 (c j)) (g j))
      → (j : ℕ)
      → Holds b
          (double d)
          (children_of (children_list b.double_sha256 0 children_count c) j)
          (known_children g j)
  children-Holds d c g first h j = elim (Bool-cases (ltb j children_count)) [
    | inl t ↦
        let lt : j < children_count = ground (arith, t) in
        let same : 0 + j ≡ j = omega arith in
        rw (t, children_list_in 0 children_count c j lt, same) (h j)
    | inr t ↦
        rw (t, children_list_out 0 children_count c j (ground (arith, t)))
          (nothing-Holds d (c 0) (g 0) first)
  ]

  -- a child as it is read holds what the child does
  as_child-Holds :
      (d : ℕ) (n : Node) (f : Values)
      → Holds b d n f
      → IsSaved n
      → Holds b (double d) (as_child b.double_sha256 n) f
  unfolding Holds as_child hash_of shallow IsSaved
  as_child-Holds zero n f h s = Holds_zero b n f h
  as_child-Holds (suc d) empty f h s = h
  as_child-Holds (suc d) (hash_node i) f h s = Holds-double (suc d) (hash_node i) f h
  as_child-Holds (suc d) (leaf v) f h (e, le) =
      (leaf v, (stored_node-hash_of (leaf v) e le refl, h))
  as_child-Holds (suc d) (extension k n) f (x, (g, (h, a))) (e, (le, s)) = (
    extension k (as_child b.double_sha256 n),
    (
      stored_node-hash_of (extension k n) e (le, IsSaved-IsSized n s) refl,
      (x, (g, (as_child-Holds d n g h s, a))),
    ),
  )
  as_child-Holds (suc d) (branch c) f (g, (h, (a, l))) (e, s) = (
    shallow b.double_sha256 (branch c),
    (
      stored_node-hash_of (branch c) e (λ j lt. IsSaved-IsSized (c j) (s j)) refl,
      (
        known_children g,
        (
          children-Holds d c g (h 0) (λ j. as_child-Holds d (c j) (g j) (h j) (s j)),
          (λ p x. a p x ∙ rw (split_path_small p x) refl, l),
        ),
      ),
    ),
  )

  collapse-Holds :
      (depth d : ℕ) (n : Node) (f : Values)
      → Holds b d n f
      → IsSaved n
      → Holds b (double d) (collapse b.double_sha256 depth n) f
  unfolding Holds collapse IsSaved as_child
  collapse-Holds depth zero n f h s = Holds_zero b n f h
  collapse-Holds zero (suc d) empty f h s = h
  collapse-Holds zero (suc d) (hash_node i) f h s = Holds-double (suc d) (hash_node i) f h
  collapse-Holds zero (suc d) (leaf v) f h s = as_child-Holds (suc d) (leaf v) f h s
  collapse-Holds zero (suc d) (extension k n) f h s = as_child-Holds (suc d) (extension k n) f h s
  collapse-Holds zero (suc d) (branch c) f h s = as_child-Holds (suc d) (branch c) f h s
  collapse-Holds (suc depth) (suc d) empty f h s = h
  collapse-Holds (suc depth) (suc d) (hash_node i) f h s = Holds-double (suc d) (hash_node i) f h
  collapse-Holds (suc depth) (suc d) (leaf v) f h s = h
  collapse-Holds (suc depth) (suc d) (extension k n) f (x, (g, (h, a))) (e, (le, s)) = (
    x,
    (
      g,
      (
        Holds-suc b (double d) (collapse b.double_sha256 depth n) g
            (collapse-Holds depth d n g h s),
        a,
      ),
    ),
  )
  collapse-Holds (suc depth) (suc d) (branch c) f (g, (h, (a, l))) (e, s) = (
    g,
    (
      λ j.
          Holds-suc b (double d) (collapse b.double_sha256 depth (c j)) (g j)
            (collapse-Holds depth d (c j) (g j) (h j) (s j)),
      (a, l),
    ),
  )

  -- A trie all of whose nodes are in the store, under their hashes and within the limits of their
  -- binary form, and with counts behind them if references are counted, stores the same map when it
  -- is collapsed to any depth, which at depth 0 leaves no more than the hash of its root, in at most
  -- twice as many levels; the hash function gives 32 bytes.
  pub collapse_trie-Stores :
      (depth d : ℕ) (tr : Trie) (m : Bytes → Option Bytes)
      → Stores b d tr m
      → IsSaved tr.root
      → Stores b (double d) (collapse_trie b.double_sha256 depth tr) m
  unfolding collapse_trie
  collapse_trie-Stores depth d tr m (f, (h, a)) s = (f, (collapse-Holds depth d tr.root f h s, a))

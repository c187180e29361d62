-- ===== src/Mpt/Trie/Contents/OnlyChild.antt =====
-- A branch that is left with one child, and an extension whose next node has changed.
use koala_tblockchain_golang.Shared.{
  ℕ, zero, suc, ◌+◌, ◌≤◌, ◌<◌, ◌≡◌, subst, refl, sym, ap, ◌∙◌, ◌==◌, ==_iff, [], ◌∷◌, ◌++◌, none,
  some, true, false, if◌then◌else◌, length, drop, arith, Bool-cases, inl, inr,
}
use koala_tblockchain_golang.Shared.Bytes.{has_prefix}
use koala_tblockchain_golang.Mpt.Node.{
  Bytes, Node, empty, leaf, extension, branch, hash_node, last_child, is_empty_node,
}
use koala_tblockchain_golang.Mpt.Nibbles.{IsPath}
use koala_tblockchain_golang.Mpt.Trie.{Backing, Refs, stored_node, noted_refs}
use koala_tblockchain_golang.Mpt.Trie.Delete.{count_children, prepend, only_child, join}
use koala_tblockchain_golang.Mpt.Trie.Contents.{
  Values, Agree, no_values, under, Holds, Holds_zero, Holds-suc,
}
use koala_tblockchain_golang.Mpt.Trie.Contents.Lookups.{IsPath-drop}
use koala_tblockchain_golang.Mpt.Trie.Contents.Puts.{Gives}

none_counted :
    (n : ℕ) (c : ℕ → Node) (i : ℕ) → (count_children n c).0 ≡ 0 → i < n → is_empty_node (c i) ≡ true
unfolding count_children
none_counted zero c i h lt = absurd (omega arith)
none_counted (suc n) c i h lt = elim (Bool-cases (is_empty_node (c n))) [
  | inl e ↦ elim (Bool-cases (i == n)) [
    | inl s ↦ cc ((==_iff i n).0 s, e)
    | inr s ↦ none_counted n c i (rw e at h) (ground (arith, s, lt))
  ]
  | inr e ↦ let h' : (count_children n c).0 + 1 ≡ 0 = rw e at h in absurd (omega arith)
]

-- if at most one child is counted, all others are empty
pub one_counted :
    (n : ℕ) (c : ℕ → Node) (i : ℕ)
    → (count_children n c).0 ≤ 1
    → i < n
    → (i == (count_children n c).1) ≡ false
    → is_empty_node (c i) ≡ true
unfolding count_children
one_counted zero c i h lt ne = absurd (omega arith)
one_counted (suc n) c i h lt ne = elim (Bool-cases (is_empty_node (c n))) [
  | inl e ↦ elim (Bool-cases (i == n)) [
    | inl s ↦ cc ((==_iff i n).0 s, e)
    | inr s ↦ one_counted n c i (rw e at h) (ground (arith, s, lt)) (rw e at ne)
  ]
  | inr e ↦
      let h' : (count_children n c).0 + 1 ≤ 1 = rw e at h in
      let ne' : (i == n) ≡ false = rw e at ne in
      none_counted n c i (omega arith) (ground (arith, ne', lt))
]

pub index_counted : (n : ℕ) (c : ℕ → Node) → (count_children (suc n) c).1 ≤ n
unfolding count_children
index_counted zero c = elim (Bool-cases (is_empty_node (c zero))) [
  | inl e ↦ rw e (omega arith)
  | inr e ↦ rw e (omega arith)
]
index_counted (suc n) c = elim (Bool-cases (is_empty_node (c (suc n)))) [
  | inl e ↦ rw e (let h = index_counted n c in omega arith)
  | inr e ↦ rw e (omega arith)
]

IsPath-++ : (k k' : Bytes) → IsPath k → IsPath k' → IsPath (k ++ k')
IsPath-++ [] k' h h' = h'
IsPath-++ (x ∷ k) k' h h' = (h.0, IsPath-++ k k' h.1 h')

under-++ : (k k' : Bytes) (g : Values) (q : Bytes) → under (k ++ k') g q ≡ under k (under k' g) q
unfolding has_prefix
under-++ [] k' g q = refl
under-++ (x ∷ k) k' g [] = refl
under-++ (x ∷ k) k' g (z ∷ q) = ground (arith, under-++ k k' g q)

-- under a key nothing is left of no values
under-Agree : (k : Bytes) (g g' : Values) → Agree g g' → Agree (under k g) (under k g')
under-Agree k g g' h q x =
    ap (λ o. if has_prefix q k then o else none)
      (h (drop (length k) q) (IsPath-drop (length k) q x))

under_nothing : (k : Bytes) (q : Bytes) → under k no_values q ≡ none
under_nothing k q = ground arith

module _ (b : Backing) where
  pub empty_values :
      (d : ℕ) (n : Node) (g : Values) → is_empty_node n ≡ true → Holds b d n g → Agree g no_values
  unfolding Holds
  empty_values zero n g e h = Holds_zero b n g h
  empty_values (suc d) empty g e h = h
  empty_values (suc d) (leaf v) g e h = absurd cc
  empty_values (suc d) (extension k n) g e h = absurd cc
  empty_values (suc d) (branch c) g e h = absurd cc
  empty_values (suc d) (hash_node i) g e h = absurd cc

  -- two extensions are as good as one
  extensions-Holds :
      (d : ℕ) (k k' : Bytes) (n : Node) (g : Values)
      → IsPath k
      → Holds b d (extension k' n) g
      → Holds b (suc d) (extension (k ++ k') n) (under k g)
  unfolding Holds
  extensions-Holds zero k k' n g hk h = Holds_zero b (extension k' n) g h
  extensions-Holds (suc d) k k' n g hk (hk', (g', (h, a))) = (
    IsPath-++ k k' hk hk',
    (
      g',
      (Holds-suc b d n g' h, λ q x. under-Agree k g (under k' g') a q x ∙ sym (under-++ k k' g' q)),
    ),
  )

  pub prepend-Holds :
      (d x : ℕ) (n : Node) (g : Values) (t : Refs)
      → x < 16
      → Holds b d n g
      → Holds b (suc d) (prepend b x n t).0 (under (x ∷ []) g)
  unfolding prepend Holds
  prepend-Holds d x (extension k n) g t lt h = extensions-Holds d (x ∷ []) k n g (lt, tt) h
  prepend-Holds d x empty g t lt h = ((lt, tt), (g, (h, λ q y. refl)))
  prepend-Holds d x (leaf v) g t lt h = ((lt, tt), (g, (h, λ q y. refl)))
  prepend-Holds d x (branch c) g t lt h = ((lt, tt), (g, (h, λ q y. refl)))
  prepend-Holds d x (hash_node i) g t lt h = ((lt, tt), (g, (h, λ q y. refl)))

  pub join-Holds :
      (d : ℕ) (k : Bytes) (n : Node) (g : Values) (t : Refs)
      → IsPath k
      → Holds b d n g
      → Holds b (suc d) (join b k n t).0 (under k g)
  unfolding join Holds
  join-Holds d k (extension k' n) g t hk h = extensions-Holds d k k' n g hk h
  join-Holds d k empty g t hk h =
      λ q x. under-Agree k g no_values (empty_values d empty g refl h) q x ∙ under_nothing k q
  join-Holds d k (leaf v) g t hk h = (hk, (g, (h, λ q y. refl)))
  join-Holds d k (branch c) g t hk h = (hk, (g, (h, λ q y. refl)))
  join-Holds d k (hash_node i) g t hk h = (hk, (g, (h, λ q y. refl)))

  pub only_child_last :
      (d : ℕ) (n : Node) (g : Values) (t : Refs)
      → Holds b d n g
      → Gives b (suc d) g (only_child b last_child n t)
  unfolding only_child
  only_child_last d (hash_node i) g t h = Holds-suc b d (hash_node i) g h
  only_child_last d empty g t h = Holds-suc b d empty g h
  only_child_last d (leaf v) g t h = Holds-suc b d (leaf v) g h
  only_child_last d (extension k n) g t h = Holds-suc b d (extension k n) g h
  only_child_last d (branch c) g t h = Holds-suc b d (branch c) g h

  only_child_hash :
      (x : ℕ) (i : Bytes) (n : Node) (t : Refs)
      → (x == last_child) ≡ false
      → stored_node b i ≡ some n
      → only_child b x (hash_node i) t
        ≡ (some (prepend b x n (noted_refs b i t)).0, (prepend b x n (noted_refs b i t)).1)
  unfolding only_child
  only_child_hash x i n t e s = rw (e, s, only_child) refl

  pub only_child_below :
      (d x : ℕ) (n : Node) (g : Values) (t : Refs)
      → x < 16
      → Holds b d n g
      → Gives b (suc d) (under (x ∷ []) g) (only_child b x n t)
  unfolding only_child Holds
  only_child_below zero x n g t lt h = Holds_zero b n g h
  only_child_below (suc d) x (hash_node i) g t lt (n, (s, h)) =
      let e : (x == last_child) ≡ false = ground arith in
      subst (Gives b (suc (suc d)) (under (x ∷ []) g)) (sym (only_child_hash x i n t e s)) (
        Holds-suc b (suc d) (prepend b x n (noted_refs b i t)).0 (under (x ∷ []) g)
          (prepend-Holds d x n g (noted_refs b i t) lt h))
  only_child_below (suc d) x empty g t lt h =
      let e : (x == last_child) ≡ false = ground arith in
      rw e (prepend-Holds (suc d) x empty g t lt h)
  only_child_below (suc d) x (leaf v) g t lt h =
      let e : (x == last_child) ≡ false = ground arith in
      rw e (prepend-Holds (suc d) x (leaf v) g t lt h)
  only_child_below (suc d) x (extension k n) g t lt h =
      let e : (x == last_child) ≡ false = ground arith in
      rw e (prepend-Holds (suc d) x (extension k n) g t lt h)
  only_child_below (suc d) x (branch c) g t lt h =
      let e : (x == last_child) ≡ false = ground arith in
      rw e (prepend-Holds (suc d) x (branch c) g t lt h)

-- ===== src/Mpt/Trie/Contents/Removals.antt =====
-- deleteFromNode against the values of a trie, for every kind of node.
use koala_tblockchain_golang.Shared.{
  ℕ, zero, suc, ◌≤◌, ◌<◌, ◌≡◌, subst, refl, sym, ap, ◌∙◌, ◌==◌, ==_iff, ==-self, ltb, [], ◌∷◌,
  Option, none, some, true, false, if◌then◌else◌, length, drop, is_empty, arith, Bool-cases, inl,
  inr,
}
use koala_tblockchain_golang.Shared.Bytes.{has_prefix, equals, equals_sound}
use koala_tblockchain_golang.Storage.Cached.View.{updated}
use koala_tblockchain_golang.Mpt.Node.{
  Bytes, Node, empty, leaf, extension, branch, hash_node, set_child, split_path, last_child,
  children_count,
}
use koala_tblockchain_golang.Mpt.Nibbles.{IsPath}
use koala_tblockchain_golang.Mpt.Trie.{Backing, Refs, stored_node, noted_refs}
use koala_tblockchain_golang.Mpt.Trie.Put.{uncount}
use koala_tblockchain_golang.Mpt.Trie.Delete.{
  count_children, only_child, shrink, join, joined, delete_from_node,
}
use koala_tblockchain_golang.Mpt.Trie.Contents.{
  Values, Agree, no_values, under, spread, Holds, Holds_zero, Holds-Agree,
}
use koala_tblockchain_golang.Mpt.Trie.Contents.Lookups.{
  set_child-Holds, IsPath-drop, IsPath-split_path,
}
use koala_tblockchain_golang.Mpt.Trie.Contents.Puts.{
  Gives, Gives-suc, set_child-updated, set_values_last,
}
use koala_tblockchain_golang.Mpt.Trie.Contents.OnlyChild.{
  one_counted, index_counted, join-Holds, only_child_last, only_child_below, empty_values,
}
use koala_tblockchain_golang.Mpt.Trie.Contents.Pointwise.{set_values, spread-updated, under-updated}

-- removing a value that is not there
updated-none : (p : Bytes) (f : Values) (q : Bytes) → f p ≡ none → updated p none f q ≡ f q
updated-none p f q h = elim (Bool-cases (equals p q)) [
  | inl e ↦ rw (e, ← equals_sound p q e, h) refl
  | inr e ↦ rw e refl
]

module _ (b : Backing) where
  Gives-Agree :
      (d : ℕ) (f f' : Values) (o : Option Node × Refs) → Agree f' f → Gives b d f o → Gives b d f' o
  Gives-Agree d f f' (none, t) e h = h
  Gives-Agree d f f' (some n, t) e h = Holds-Agree b d n f f' e h

  -- the child that is left of a branch with at most one has all values of the branch
  only_child-Gives :
      (d : ℕ) (c : ℕ → Node) (g : ℕ → Values) (t : Refs)
      → ((j : ℕ) → Holds b d (c j) (g j))
      → ((q : Bytes) → IsPath q → is_empty q ≡ false → g last_child q ≡ none)
      → (count_children children_count c).0 ≤ 1
      → Gives b (suc d) (spread g) (
          only_child b
            (count_children children_count c).1
            (c (count_children children_count c).1)
            t)
  unfolding has_prefix
  only_child-Gives d c g t h l one = elim (Bool-cases (x == last_child)) [
    | inl e ↦
        subst (λ (y : ℕ). Gives b (suc d) (spread g) (only_child b y (c y) t))
          (sym ((==_iff x last_child).0 e))
          (Gives-Agree (suc d) (g last_child) (spread g) (only_child b last_child (c last_child) t)
            (at_last ((==_iff x last_child).0 e))
            (only_child_last b d (c last_child) (g last_child) t (h last_child)))
    | inr e ↦
        Gives-Agree (suc d) (under (x ∷ []) (g x)) (spread g) (only_child b x (c x) t) (below e)
          (only_child_below b d x (c x) (g x) t (below_last e) (h x))
  ]
    where
      x : ℕ
      x = (count_children children_count c).1

      others : (j : ℕ) → j < 17 → (j == x) ≡ false → Agree (g j) no_values
      others j lt e = empty_values b d (c j) (g j) (one_counted children_count c j one lt e) (h j)

      at_last : x ≡ last_child → Agree (spread g) (g last_child)
      at_last e [] y = refl
      at_last e (z ∷ q) y =
          let small : z < 16 = y.0 in
          others z (omega arith) (rw e (ground arith)) q y.1 ∙ sym (l (z ∷ q) y refl)

      below_last : (x == last_child) ≡ false → x < 16
      below_last e = let le = index_counted 16 c in ground (arith, e, le)

      below : (x == last_child) ≡ false → Agree (spread g) (under (x ∷ []) (g x))
      below e [] y = others last_child (omega arith) (ground (arith, e)) [] y
      below e (z ∷ q) y = elim (Bool-cases (z == x)) [
        | inl s ↦ ap (λ j. g j q) ((==_iff z x).0 s) ∙ rw s refl
        | inr s ↦ let small : z < 16 = y.0 in others z (omega arith) s q y.1 ∙ rw s refl
      ]

  shrink-Gives :
      (d : ℕ) (c : ℕ → Node) (f : Values) (g : ℕ → Values) (p : Bytes) (o : Option Node × Refs)
      → ((j : ℕ) → Holds b d (c j) (g j))
      → Agree f (spread g)
      → ((q : Bytes) → IsPath q → is_empty q ≡ false → g last_child q ≡ none)
      → IsPath p
      → Gives b d (updated (split_path p).1 none (g (split_path p).0)) o
      → Gives b (suc d) (updated p none f) (shrink b c (split_path p).0 o)
  unfolding shrink
  shrink-Gives d c f g p (none, t) h a l x e = e
  shrink-Gives d c f g p (some r, t) h a l x hr = elim (Bool-cases (ltb 1 number)) [
    | inl e ↦ rw e (set_child-updated b d c f g p none r h a l x hr)
    | inr e ↦ rw e (
        Gives-Agree (suc d) (spread new) (updated p none f)
          (only_child b (count_children children_count c').1
            (c' (count_children children_count c').1) (uncount b (branch c) t))
          (λ q y.
            ap (λ v. if equals p q then none else v) (a q y) ∙ sym (spread-updated g p none q x y))
          (only_child-Gives d c' new (uncount b (branch c) t)
            (set_child-Holds b d i c r new (λ j s. rw s (h j)) (rw (==-self i) hr))
            (λ q y s. set_values_last g p none q x s (l q y s)) (ground (arith, e))))
  ]
    where
      i : ℕ
      i = (split_path p).0

      c' : ℕ → Node
      c' = set_child c i r

      number : ℕ
      number = (count_children children_count c').0

      new : ℕ → Values
      new = set_values g i (updated (split_path p).1 none (g i))

  joined-Gives :
      (d : ℕ) (k : Bytes) (n : Node) (f g : Values) (p : Bytes) (o : Option Node × Refs)
      → IsPath k
      → Agree f (under k g)
      → has_prefix p k ≡ true
      → Gives b d (updated (drop (length k) p) none g) o
      → Gives b (suc d) (updated p none f) (joined b k n o)
  joined-Gives d k n f g p (none, t) hk a e h = h
  joined-Gives d k n f g p (some r, t) hk a e h =
      Holds-Agree b (suc d) (join b k r (uncount b (extension k n) t)).0
        (under k (updated (drop (length k) p) none g)) (updated p none f)
        (λ q x.
          ap (λ v. if equals p q then none else v) (a q x) ∙ sym (under-updated k g p none q e))
        (join-Holds b d k r (updated (drop (length k) p) none g) (uncount b (extension k n) t) hk h)

  delete_from_node_hash :
      (fuel : ℕ) (i : Bytes) (n : Node) (p : Bytes) (t : Refs)
      → stored_node b i ≡ some n
      → delete_from_node b (suc fuel) (hash_node i) p t
        ≡ delete_from_node b fuel n p (noted_refs b i t)
  unfolding delete_from_node
  delete_from_node_hash fuel i n p t s = rw (s, delete_from_node) refl

  -- deleteFromNode succeeds where the levels are in the store, and removes the value of its path
  pub delete_from_node-Gives :
      (d fuel : ℕ) (n : Node) (f : Values) (p : Bytes) (t : Refs)
      → d ≤ fuel
      → IsPath p
      → Holds b d n f
      → Gives b d (updated p none f) (delete_from_node b fuel n p t)
  unfolding Holds delete_from_node equals
  delete_from_node-Gives zero fuel n f p t le x h = Holds_zero b n f h
  delete_from_node-Gives (suc d) zero n f p t le x h = absurd (omega arith)
  delete_from_node-Gives (suc d) (suc fuel) empty f p t le x h =
      λ q y. updated-none p f q (h p x) ∙ h q y
  delete_from_node-Gives (suc d) (suc fuel) (leaf v) f [] t le x h = nothing
    where
      nothing : Agree (updated [] none f) no_values
      nothing [] y = refl
      nothing (z ∷ q) y = h (z ∷ q) y
  delete_from_node-Gives (suc d) (suc fuel) (leaf v) f (y ∷ p) t le x h =
      λ q e. updated-none (y ∷ p) f q (h (y ∷ p) x) ∙ h q e
  delete_from_node-Gives (suc d) (suc fuel) (branch c) f p t le x (g, (h, (a, l))) =
      shrink-Gives d c f g p (delete_from_node b fuel (c (split_path p).0) (split_path p).1 t) h a l
        x
        (delete_from_node-Gives d fuel (c (split_path p).0) (g (split_path p).0) (split_path p).1 t
          (omega arith) (IsPath-split_path p x) (h (split_path p).0))
  delete_from_node-Gives (suc d) (suc fuel) (extension k n) f p t le x (hk, (g, (h, a))) =
      elim (Bool-cases (has_prefix p k)) [
        | inl e ↦ rw e (
            joined-Gives d k n f g p (delete_from_node b fuel n (drop (length k) p) t) hk a e (
              delete_from_node-Gives d fuel n g (drop (length k) p) t (omega arith)
                (IsPath-drop (length k) p x) h))
        | inr e ↦ rw e (hk, (g, (h, λ q y. updated-none p f q (a p x ∙ rw e refl) ∙ a q y)))
      ]
  delete_from_node-Gives (suc d) (suc fuel) (hash_node i) f p t le x (n, (s, h)) =
      subst (Gives b (suc d) (updated p none f)) (sym (delete_from_node_hash fuel i n p t s)) (
        Gives-suc b d (updated p none f) (delete_from_node b fuel n p (noted_refs b i t))
          (delete_from_node-Gives d fuel n f p (noted_refs b i t) (omega arith) x h))

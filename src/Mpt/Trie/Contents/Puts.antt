-- ===== src/Mpt/Trie/Contents/Puts.antt =====
-- putIntoNode against the values of a trie, for every kind of node.
use koala_tblockchain_golang.Shared.{
  ℕ, zero, suc, ◌≤◌, ◌<◌, ◌≡◌, subst, refl, sym, ap, ◌∙◌, ◌==◌, ==-self, [], ◌∷◌, Option, none,
  some, true, false, if◌then◌else◌, length, drop, is_empty, arith, Bool-cases, inl, inr,
}
use koala_tblockchain_golang.Shared.Bytes.{has_prefix, equals}
use koala_tblockchain_golang.Storage.Cached.View.{updated}
use koala_tblockchain_golang.Mpt.Node.{
  Bytes, Node, empty, leaf, extension, branch, hash_node, set_child, split_path, last_child,
}
use koala_tblockchain_golang.Mpt.Nibbles.{IsPath}
use koala_tblockchain_golang.Mpt.Trie.{Backing, Refs, stored_node, noted_refs}
use koala_tblockchain_golang.Mpt.Trie.Put.{
  new_sub_trie, put_into_leaf, put_beside, replaced, put_into_node, uncount,
}
use koala_tblockchain_golang.Mpt.Trie.Contents.{
  Values, Agree, one_value, under, spread, Holds, Holds_zero, Holds-suc, Holds-Agree,
}
use koala_tblockchain_golang.Mpt.Trie.Contents.Lookups.{
  set_child-Holds, IsPath-drop, IsPath-split_path,
}
use koala_tblockchain_golang.Mpt.Trie.Contents.Updates.{
  new_sub_trie-Holds, put_into_leaf-Holds, put_beside-Holds,
}
use koala_tblockchain_golang.Mpt.Trie.Contents.Pointwise.{
  set_values, under-one_value, spread-updated, under-updated,
}

-- in a branch, all children but the last keep to the rule for the last one
pub set_values_last :
    (g : ℕ → Values) (p : Bytes) (o : Option Bytes) (q : Bytes)
    → IsPath p
    → is_empty q ≡ false
    → g last_child q ≡ none
    → set_values g (split_path p).0 (updated (split_path p).1 o (g (split_path p).0)) last_child q
      ≡ none
unfolding equals
set_values_last g [] o [] x e h = absurd cc
set_values_last g [] o (z ∷ q) x e h = h
set_values_last g (y ∷ p) o q x e h =
    let small : y < 16 = x.0 in
    let other : (last_child == y) ≡ false = ground arith in rw (other, h) refl

module _ (b : Backing) where
  Holds-up : (d : ℕ) (n : Node) (f : Values) → Holds b d n f → Holds b (suc (suc d)) n f
  Holds-up d n f h = Holds-suc b (suc d) n f (Holds-suc b d n f h)

  -- a node is returned, and it has the values
  abbrev pub Gives : ℕ → Values → Option Node × Refs → Type 0
  Gives d f (none, t) = zero ≡ suc zero
  Gives d f (some n, t) = Holds b d n f

  pub Gives-suc : (d : ℕ) (f : Values) (o : Option Node × Refs) → Gives d f o → Gives (suc d) f o
  Gives-suc d f (none, t) h = h
  Gives-suc d f (some n, t) h = Holds-suc b d n f h

  -- the branch with a new child
  pub set_child-updated :
      (d : ℕ) (c : ℕ → Node) (f : Values) (g : ℕ → Values) (p : Bytes) (o : Option Bytes) (r : Node)
      → ((j : ℕ) → Holds b d (c j) (g j))
      → Agree f (spread g)
      → ((q : Bytes) → IsPath q → is_empty q ≡ false → g last_child q ≡ none)
      → IsPath p
      → Holds b d r (updated (split_path p).1 o (g (split_path p).0))
      → Holds b (suc d) (branch (set_child c (split_path p).0 r)) (updated p o f)
  unfolding Holds
  set_child-updated d c f g p o r h a l x hr = (
    new,
    (
      set_child-Holds b d i c r new (λ j e. rw e (h j)) (rw (==-self i) hr),
      (
        λ q y. ap (λ v. if equals p q then o else v) (a q y) ∙ sym (spread-updated g p o q x y),
        λ q y e. set_values_last g p o q x e (l q y e),
      ),
    ),
  )
    where
      i : ℕ
      i = (split_path p).0

      new : ℕ → Values
      new = set_values g i (updated (split_path p).1 o (g i))

  -- the extension with a new node behind it
  pub extension-updated :
      (d : ℕ) (k : Bytes) (f g : Values) (p : Bytes) (o : Option Bytes) (r : Node)
      → IsPath k
      → Agree f (under k g)
      → has_prefix p k ≡ true
      → Holds b d r (updated (drop (length k) p) o g)
      → Holds b (suc d) (extension k r) (updated p o f)
  unfolding Holds
  extension-updated d k f g p o r hk a e hr = (
    hk,
    (
      updated (drop (length k) p) o g,
      (hr, λ q y. ap (λ v. if equals p q then o else v) (a q y) ∙ sym (under-updated k g p o q e)),
    ),
  )

  Holds-from_3 : (d : ℕ) (n : Node) (f : Values) → Holds b 3 n f → Holds b (suc (suc (suc d))) n f
  Holds-from_3 zero n f h = h
  Holds-from_3 (suc d) n f h = Holds-suc b (suc (suc (suc d))) n f (Holds-from_3 d n f h)

  put_beside_up :
      (d : ℕ) (k : Bytes) (n : Node) (p v : Bytes) (f g : Values) (t : Refs)
      → IsPath k
      → IsPath p
      → Holds b d n g
      → Agree f (under k g)
      → has_prefix p k ≡ false
      → Holds b (suc (suc (suc d))) (put_beside b k n p (leaf v) t).0 (updated p (some v) f)
  put_beside_up zero k n p v f g t hk x h = Holds_zero b n g h
  put_beside_up (suc d) k n p v f g t hk x h = put_beside-Holds b d k n p v f g t hk x h

  -- a change of the node behind, with its count
  replaced-Gives :
      (d : ℕ) (f f' : Values) (change : Node → Node) (o : Option Node × Refs)
      → ((r : Node) → Holds b d r f → Holds b (suc d) (change r) f')
      → Gives d f o
      → Gives (suc d) f' (replaced b change o)
  replaced-Gives d f f' change (none, t) h e = e
  replaced-Gives d f f' change (some r, t) h e = h r e

  put_into_node_hash :
      (fuel : ℕ) (i : Bytes) (n : Node) (p v : Bytes) (t : Refs)
      → stored_node b i ≡ some n
      → put_into_node b (suc fuel) (hash_node i) p (leaf v) t
        ≡ put_into_node b fuel n p (leaf v) (noted_refs b i t)
  unfolding put_into_node
  put_into_node_hash fuel i n p v t s = rw (s, put_into_node) refl

  -- putIntoNode succeeds where the levels are in the store, and sets the value of its path
  pub put_into_node-Gives :
      (d fuel : ℕ) (n : Node) (f : Values) (p v : Bytes) (t : Refs)
      → d ≤ fuel
      → IsPath p
      → Holds b d n f
      → Gives (suc (suc d)) (updated p (some v) f) (put_into_node b fuel n p (leaf v) t)
  unfolding Holds put_into_node
  put_into_node-Gives zero fuel n f p v t le x h = Holds_zero b n f h
  put_into_node-Gives (suc d) zero n f p v t le x h = absurd (omega arith)
  put_into_node-Gives (suc d) (suc fuel) empty f p v t le x h =
      Holds-suc b (suc (suc d)) (new_sub_trie b p (leaf v) true t).0 (updated p (some v) f) (
        Holds-Agree b (suc (suc d)) (new_sub_trie b p (leaf v) true t).0 (under p (one_value v))
          (updated p (some v) f)
          (λ q y. ap (λ o. if equals p q then some v else o) (h q y) ∙ sym (under-one_value p v q))
          (new_sub_trie-Holds b (suc d) p (leaf v) (one_value v) true t x (λ q y. refl)))
  put_into_node-Gives (suc d) (suc fuel) (leaf w) f p v t le x h =
      Holds-from_3 d (put_into_leaf b w p (leaf v) t).0 (updated p (some v) f)
        (put_into_leaf-Holds b w p v f t x h)
  put_into_node-Gives (suc d) (suc fuel) (branch c) f p v t le x (g, (h, (a, l))) =
      replaced-Gives (suc (suc d)) (updated (split_path p).1 (some v) (g (split_path p).0))
        (updated p (some v) f) (λ r. branch (set_child c (split_path p).0 r))
        (put_into_node b fuel (c (split_path p).0) (split_path p).1 (leaf v)
          (uncount b (branch c) t))
        (λ r hr.
          set_child-updated (suc (suc d)) c f g p (some v) r (λ j. Holds-up d (c j) (g j) (h j)) a l
            x hr)
        (put_into_node-Gives d fuel (c (split_path p).0) (g (split_path p).0) (split_path p).1 v
          (uncount b (branch c) t) (omega arith) (IsPath-split_path p x) (h (split_path p).0))
  put_into_node-Gives (suc d) (suc fuel) (extension k n) f p v t le x (hk, (g, (h, a))) =
      elim (Bool-cases (has_prefix p k)) [
        | inl e ↦ rw e (
            replaced-Gives (suc (suc d)) (updated (drop (length k) p) (some v) g)
              (updated p (some v) f) (extension k)
              (put_into_node b fuel n (drop (length k) p) (leaf v) (uncount b (extension k n) t))
              (λ r hr. extension-updated (suc (suc d)) k f g p (some v) r hk a e hr)
              (put_into_node-Gives d fuel n g (drop (length k) p) v (uncount b (extension k n) t)
                (omega arith) (IsPath-drop (length k) p x) h))
        | inr e ↦ rw e (put_beside_up d k n p v f g (uncount b (extension k n) t) hk x h a e)
      ]
  put_into_node-Gives (suc d) (suc fuel) (hash_node i) f p v t le x (n, (s, h)) =
      subst (Gives (suc (suc (suc d))) (updated p (some v) f))
        (sym (put_into_node_hash fuel i n p v t s))
        (Gives-suc (suc (suc d)) (updated p (some v) f)
          (put_into_node b fuel n p (leaf v) (noted_refs b i t))
          (put_into_node-Gives d fuel n f p v (noted_refs b i t) (omega arith) x h))

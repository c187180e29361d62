-- ===== src/Mpt/Trie/Contents/Updates.antt =====
-- Put against the values of a trie.
use koala_tblockchain_golang.Shared.{
  ℕ, suc, ◌<◌, ◌≡◌, refl, sym, ap, ◌∙◌, ◌==◌, [], ◌∷◌, none, some, Bool, true, false, if◌then◌else◌,
  length, drop, is_empty, arith, Bool-cases, inl, inr,
}
use koala_tblockchain_golang.Shared.Bytes.{has_prefix, equals}
use koala_tblockchain_golang.Storage.Cached.View.{updated}
use koala_tblockchain_golang.Mpt.Node.{
  Bytes, Node, leaf, extension, branch, set_child, new_children, last_child,
}
use koala_tblockchain_golang.Mpt.Nibbles.{IsPath, lcp}
use koala_tblockchain_golang.Mpt.Trie.{Backing, Refs}
use koala_tblockchain_golang.Mpt.Trie.Put.{new_sub_trie, put_into_leaf, put_beside, count}
use koala_tblockchain_golang.Mpt.Trie.Contents.{
  Values, Agree, no_values, one_value, under, spread, Holds, Holds-suc, Holds-Agree,
}
use koala_tblockchain_golang.Mpt.Trie.Contents.Lookups.{IsPath-drop, IsPath-split_path}
use koala_tblockchain_golang.Mpt.Trie.Contents.Pointwise.{
  two_values, under-one_value, rest_of_key, rest_of_path, beside, under-beside, beside_last,
}

IsPath-lcp : (key path : Bytes) → IsPath key → IsPath (lcp key path)
unfolding lcp
IsPath-lcp [] path h = h
IsPath-lcp (x ∷ k) [] h = tt
IsPath-lcp (x ∷ k) (y ∷ p) h = elim (Bool-cases (x == y)) [
  | inl e ↦ rw e (h.0, IsPath-lcp k p h.1)
  | inr e ↦ rw e tt
]

-- the node with the path in front of it, each with its table
abbrev extended : Bytes → Node → Refs → Refs → Node × Refs
extended path n t t' = if is_empty path then (n, t) else (extension path n, t')

module _ (b : Backing) where
  extended-Holds :
      (d : ℕ) (path : Bytes) (n : Node) (g : Values) (t t' : Refs)
      → IsPath path
      → Holds b d n g
      → Holds b (suc d) (extended path n t t').0 (under path g)
  unfolding Holds has_prefix
  extended-Holds d [] n g t t' x h = Holds-suc b d n g h
  extended-Holds d (y ∷ path) n g t t' x h = (x, (g, (h, λ p e. refl)))

  pub new_sub_trie-Holds :
      (d : ℕ) (path : Bytes) (n : Node) (g : Values) (new_val : Bool) (t : Refs)
      → IsPath path
      → Holds b d n g
      → Holds b (suc d) (new_sub_trie b path n new_val t).0 (under path g)
  unfolding new_sub_trie
  new_sub_trie-Holds d path n g new_val t =
      let t' = if new_val then count b n t else t in
      extended-Holds d path n g t' (count b (extension path n) t')

  one_child-Holds :
      (d i : ℕ) (n : Node) (g : Values)
      → Holds b (suc d) n g
      → (k : ℕ) → Holds b (suc d) (set_child new_children i n k) (if k == i then g else no_values)
  unfolding Holds
  one_child-Holds d i n g h k = elim (Bool-cases (k == i)) [
    | inl e ↦ rw e h
    | inr e ↦ rw e (λ p x. refl)
  ]

  two_children-Holds :
      (d i j : ℕ) (m n : Node) (g h : Values)
      → Holds b (suc d) m g
      → Holds b (suc d) n h
      → ((p : Bytes) → IsPath p → is_empty p ≡ false → two_values i g j h last_child p ≡ none)
      → Holds b
          (suc (suc d))
          (branch (set_child (set_child new_children i m) j n))
          (spread (two_values i g j h))
  unfolding Holds
  two_children-Holds d i j m n g h hm hn l = (two_values i g j h, (each, (λ p x. refl, l)))
    where
      each :
          (k : ℕ)
          → Holds b (suc d) (set_child (set_child new_children i m) j n k) (two_values i g j h k)
      each k = elim (Bool-cases (k == j)) [
        | inl e ↦ rw e hn
        | inr e ↦ rw e (one_child-Holds d i m g hm k)
      ]

  pub put_into_leaf-Holds :
      (w p : Bytes) (v : Bytes) (f : Values) (t : Refs)
      → IsPath p
      → Agree f (one_value w)
      → Holds b 3 (put_into_leaf b w p (leaf v) t).0 (updated p (some v) f)
  unfolding Holds put_into_leaf equals
  put_into_leaf-Holds w [] v f t x h = agree
    where
      agree : Agree (updated [] (some v) f) (one_value v)
      agree [] y = refl
      agree (z ∷ q) y = h (z ∷ q) y
  put_into_leaf-Holds w (y ∷ p) v f t x h =
      Holds-Agree b 3
        (branch (
          set_child (set_child new_children y (new_sub_trie b p (leaf v) true t).0) last_child
            (leaf w)))
        (spread (two_values y (under p (one_value v)) last_child (one_value w)))
        (updated (y ∷ p) (some v) f) agree
        (two_children-Holds 1 y last_child (new_sub_trie b p (leaf v) true t).0 (leaf w)
          (under p (one_value v)) (one_value w)
          (new_sub_trie-Holds 1 p (leaf v) (one_value v) true t x.1 (λ q e. refl)) (λ q e. refl)
          (λ q e n. rw n refl))
    where
      agree :
          Agree
            (updated (y ∷ p) (some v) f)
            (spread (two_values y (under p (one_value v)) last_child (one_value w)))
      agree [] e = h [] e
      agree (z ∷ q) e =
          let small : z < 16 = e.0 in ground (arith, under-one_value p v q, h (z ∷ q) e)

  pub put_beside-Holds :
      (d : ℕ) (k : Bytes) (n : Node) (p v : Bytes) (f g : Values) (t : Refs)
      → IsPath k
      → IsPath p
      → Holds b (suc d) n g
      → Agree f (under k g)
      → has_prefix p k ≡ false
      → Holds b (suc (suc (suc (suc d)))) (put_beside b k n p (leaf v) t).0 (updated p (some v) f)
  unfolding put_beside Holds
  put_beside-Holds d k n p v f g t hk hp h a e =
      Holds-Agree b (suc (suc (suc (suc d)))) (put_beside b k n p (leaf v) t).0
        (under (lcp k p) (spread (beside g v k p))) (updated p (some v) f)
        (λ q x.
          ap (λ o. if equals p q then some v else o) (a q x)
          ∙ sym (under-beside g v k p q hk hp x e))
        (extended-Holds (suc (suc (suc d))) (lcp k p) (branch children) (spread (beside g v k p))
          (count b (branch children) t2)
          (count b (extension (lcp k p) (branch children)) (count b (branch children) t2))
          (IsPath-lcp k p hk)
          (two_children-Holds (suc d) (rest_of_key k p).0 (rest_of_path k p).0 s1 s2
            (under (rest_of_key k p).1 g) (under (rest_of_path k p).1 (one_value v))
            (new_sub_trie-Holds (suc d) (rest_of_key k p).1 n g false t
              (IsPath-split_path (drop (length (lcp k p)) k) (IsPath-drop (length (lcp k p)) k hk))
              h)
            (new_sub_trie-Holds (suc d) (rest_of_path k p).1 (leaf v) (one_value v) true t1
              (IsPath-split_path (drop (length (lcp k p)) p) (IsPath-drop (length (lcp k p)) p hp))
              (λ q x. refl))
            (λ q x nonempty. beside_last g v k p q hk hp nonempty e)))
    where
      t1 : Refs
      t1 = (new_sub_trie b (rest_of_key k p).1 n false t).1

      t2 : Refs
      t2 = (new_sub_trie b (rest_of_path k p).1 (leaf v) true t1).1

      s1 : Node
      s1 = (new_sub_trie b (rest_of_key k p).1 n false t).0

      s2 : Node
      s2 = (new_sub_trie b (rest_of_path k p).1 (leaf v) true t1).0

      children : ℕ → Node
      children = set_child (set_child new_children (rest_of_key k p).0 s1) (rest_of_path k p).0 s2

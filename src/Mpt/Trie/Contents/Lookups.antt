-- ===== src/Mpt/Trie/Contents/Lookups.antt =====
-- Lookups in a trie: what is found, and the trie that is left, in which hash nodes are replaced.
use koala_tblockchain_golang.Shared.{
  ℕ, zero, suc, ◌≤◌, ◌<◌, ◌≡◌, subst, refl, sym, ◌∙◌, ◌==◌, ==_iff, [], ◌∷◌, ◌++◌, none, some, Bool,
  true, false, ◌&&◌, length, drop, is_empty, arith, Bool-cases, inl, inr,
}
use koala_tblockchain_golang.Shared.Bytes.{has_prefix}
use koala_tblockchain_golang.Mpt.Node.{
  Bytes, Node, empty, leaf, extension, branch, hash_node, set_child, split_path, last_child,
}
use koala_tblockchain_golang.Mpt.Nibbles.{IsPath}
use koala_tblockchain_golang.Mpt.Trie.{
  Backing, Refs, Found, stored_node, noted_refs, get_with_path, in_branch, in_extension,
}
use koala_tblockchain_golang.Mpt.Trie.Contents.{
  Values, Agree, under, spread, Holds, Holds_zero, Holds-suc,
}

pub IsPath-drop : (n : ℕ) (p : Bytes) → IsPath p → IsPath (drop n p)
IsPath-drop zero p h = h
IsPath-drop (suc n) [] h = h
IsPath-drop (suc n) (x ∷ p) h = IsPath-drop n p h.1

pub IsPath-split_path : (p : Bytes) → IsPath p → IsPath (split_path p).1
IsPath-split_path [] h = h
IsPath-split_path (x ∷ p) h = h.1

-- a prefix and what follows it
pub has_prefix-drop : (p k : Bytes) → has_prefix p k ≡ true → k ++ drop (length k) p ≡ p
unfolding has_prefix
has_prefix-drop p [] h = refl
has_prefix-drop [] (y ∷ k) h = absurd cc
has_prefix-drop (x ∷ p) (y ∷ k) h = elim (Bool-cases (x == y)) [
  | inl e ↦ cc ((==_iff x y).0 e, has_prefix-drop p k (rw e at h))
  | inr e ↦ absurd (ground (arith, e, h))
]

pub both_false : (x : Bool) → x && false ≡ false
both_false true = refl
both_false false = refl

module _ (b : Backing) where
  pub set_child-Holds :
      (d i : ℕ) (c : ℕ → Node) (r : Node) (g : ℕ → Values)
      → ((j : ℕ) → (j == i) ≡ false → Holds b d (c j) (g j))
      → Holds b d r (g i)
      → (j : ℕ) → Holds b d (set_child c i r j) (g j)
  set_child-Holds d i c r g others this j = elim (Bool-cases (j == i)) [
    | inl e ↦ rw e (subst (λ (k : ℕ). Holds b d r (g k)) (sym ((==_iff j i).0 e)) this)
    | inr e ↦ rw e (others j e)
  ]

  -- what is found under a path agrees with the values, and the node that is left has them still
  abbrev pub Finds : ℕ → Values → Bytes → Found → Type 0
  Finds d f p (none, t) = f p ≡ none
  Finds d f p (some (r, (l, prefix)), t) =
      Holds b d r f × ((v : Bytes) × (l ≡ leaf v × f p ≡ some v))

  Finds-suc :
      (d : ℕ) (f : Values) (p : Bytes) (found : Found) → Finds d f p found → Finds (suc d) f p found
  Finds-suc d f p (none, t) h = h
  Finds-suc d f p (some (r, (l, prefix)), t) (h, v) = (Holds-suc b d r f h, v)

  in_branch-Finds :
      (d : ℕ) (c : ℕ → Node) (f : Values) (p : Bytes) (g : ℕ → Values) (found : Found)
      → ((j : ℕ) → Holds b d (c j) (g j))
      → Agree f (spread g)
      → ((x : Bytes) → IsPath x → is_empty x ≡ false → g last_child x ≡ none)
      → IsPath p
      → Finds d (g (split_path p).0) (split_path p).1 found
      → Finds (suc d) f p (in_branch c (split_path p).0 found)
  unfolding Holds
  in_branch-Finds d c f p g (none, t) h a l x e = a p x ∙ e
  in_branch-Finds d c f p g (some (r, (n, prefix)), t) h a l x (hr, (v, (ev, ef))) = (
    (g, (set_child-Holds d (split_path p).0 c r g (λ j e. h j) hr, (a, l))),
    (v, (ev, a p x ∙ ef)),
  )

  in_extension-Finds :
      (d : ℕ) (k : Bytes) (f : Values) (p : Bytes) (g : Values) (found : Found)
      → IsPath k
      → Agree f (under k g)
      → IsPath p
      → has_prefix p k ≡ true
      → Finds d g (drop (length k) p) found
      → Finds (suc d) f p (in_extension k found)
  unfolding Holds
  in_extension-Finds d k f p g (none, t) hk a x e h = a p x ∙ rw e h
  in_extension-Finds d k f p g (some (r, (n, prefix)), t) hk a x e (hr, (v, (ev, ef))) =
      ((hk, (g, (hr, a))), (v, (ev, a p x ∙ rw e ef)))

  pub get_with_path_hash :
      (fuel : ℕ) (i : Bytes) (n : Node) (p : Bytes) (t : Refs)
      → stored_node b i ≡ some n
      → get_with_path b (suc fuel) (hash_node i) p true t
        ≡ get_with_path b fuel n p true (noted_refs b i t)
  unfolding get_with_path
  get_with_path_hash fuel i n p t s = rw (s, get_with_path) refl

  -- On a trie that holds the values in so many levels and with as much fuel, a strict lookup finds
  -- the leaf with the value of the path, or nothing if it has none, and leaves the values.
  pub get_with_path-Finds :
      (d fuel : ℕ) (n : Node) (f : Values) (p : Bytes) (t : Refs)
      → d ≤ fuel
      → IsPath p
      → Holds b d n f
      → Finds d f p (get_with_path b fuel n p true t)
  unfolding Holds get_with_path
  get_with_path-Finds zero fuel n f p t le x h = Holds_zero b n f h
  get_with_path-Finds (suc d) zero n f p t le x h = absurd (omega arith)
  get_with_path-Finds (suc d) (suc fuel) empty f p t le x h = h p x
  get_with_path-Finds (suc d) (suc fuel) (leaf v) f [] t le x h = (h, (v, (refl, h [] x)))
  get_with_path-Finds (suc d) (suc fuel) (leaf v) f (y ∷ p) t le x h = h (y ∷ p) x
  get_with_path-Finds (suc d) (suc fuel) (branch c) f [] t le x (g, (h, (a, l))) =
      in_branch-Finds d c f [] g (get_with_path b fuel (c last_child) [] true t) h a l x (
        get_with_path-Finds d fuel (c last_child) (g last_child) [] t (omega arith) x
          (h last_child))
  get_with_path-Finds (suc d) (suc fuel) (branch c) f (y ∷ p) t le x (g, (h, (a, l))) =
      let small : y < 16 = x.0 in
      let not_last : (y == last_child) ≡ false = ground arith in
      rw not_last (
        in_branch-Finds d c f (y ∷ p) g (get_with_path b fuel (c y) p true t) h a l x
          (get_with_path-Finds d fuel (c y) (g y) p t (omega arith) x.1 (h y)))
  get_with_path-Finds (suc d) (suc fuel) (extension k n) f p t le x (hk, (g, (h, a))) =
      elim (Bool-cases (has_prefix p k)) [
        | inl e ↦
            rw (both_false (is_empty p), e)
              (in_extension-Finds d k f p g (get_with_path b fuel n (drop (length k) p) true t) hk a
                x e
                (get_with_path-Finds d fuel n g (drop (length k) p) t (omega arith)
                  (IsPath-drop (length k) p x) h))
        | inr e ↦ rw (both_false (is_empty p), e) (a p x ∙ rw e refl)
      ]
  get_with_path-Finds (suc d) (suc fuel) (hash_node i) f p t le x (n, (s, h)) =
      subst (Finds (suc d) f p) (sym (get_with_path_hash fuel i n p t s)) (
        Finds-suc d f p (get_with_path b fuel n p true (noted_refs b i t))
          (get_with_path-Finds d fuel n f p (noted_refs b i t) (omega arith) x h))

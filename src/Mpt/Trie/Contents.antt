-- ===== src/Mpt/Trie/Contents.antt =====
-- What a trie holds: a value, or none, under each path. The levels of a trie bound the fuel.
pub mod Lookups
pub mod Pointwise
pub mod Updates
pub mod Puts
pub mod OnlyChild
pub mod Removals
pub mod Keys
pub mod Runs
pub mod Restored
use koala_tblockchain_golang.Shared.{
  ℕ, zero, suc, ◌+◌, ◌≤◌, ◌<◌, ◌≡◌, refl, sym, ap, ◌∙◌, ◌==◌, List, [], ◌∷◌, ◌++◌, Option, none,
  some, Bool, true, false, ◌&&◌, if◌then◌else◌, length, drop, is_empty, arith, All, Bool-cases, inl,
  inr,
}
use koala_tblockchain_golang.Shared.Bytes.{has_prefix}
use koala_tblockchain_golang.Mpt.Node.{
  Bytes, Node, empty, leaf, extension, branch, hash_node, split_path, last_child,
}
use koala_tblockchain_golang.Mpt.Nibbles.{IsPath}
use koala_tblockchain_golang.Mpt.Trie.{Backing, stored_node}

abbrev pub Values : Type 0
Values = Bytes → Option Bytes

abbrev pub Agree : Values → Values → Type 0
Agree f g = (p : Bytes) → IsPath p → f p ≡ g p

abbrev pub no_values : Values
no_values p = none

abbrev pub one_value : Bytes → Values
one_value v p = if is_empty p then some v else none

-- the values under a key
abbrev pub under : Bytes → Values → Values
under k g p = if has_prefix p k then g (drop (length k) p) else none

-- the values of a branch whose children have the values `g`
abbrev pub spread : (ℕ → Values) → Values
spread g p = g (split_path p).0 (split_path p).1

-- The node has the values, in at most so many levels; a hash node has those of the node in the
-- store. The last child of a branch has no value but its own.
unfoldable pub Holds : Backing → ℕ → Node → Values → Type 0
Holds b zero n f = zero ≡ suc zero
Holds b (suc d) empty f = Agree f no_values
Holds b (suc d) (leaf v) f = Agree f (one_value v)
Holds b (suc d) (extension k n) f =
    IsPath k × ((g : Values) × (Holds b d n g × Agree f (under k g)))
Holds b (suc d) (branch c) f =
    (g : ℕ → Values) × (((i : ℕ) → Holds b d (c i) (g i))
      × (Agree f (spread g)
          × ((p : Bytes) → IsPath p → is_empty p ≡ false → g last_child p ≡ none)))
Holds b (suc d) (hash_node h) f = (n : Node) × (stored_node b h ≡ some n × Holds b d n f)

module _ (b : Backing) where
  pub Holds_zero : {A : Type 0} (n : Node) (f : Values) → Holds b zero n f → A
  unfolding Holds
  Holds_zero n f h = absurd cc

  pub Holds-Agree : (d : ℕ) (n : Node) (f f' : Values) → Agree f' f → Holds b d n f → Holds b d n f'
  unfolding Holds
  Holds-Agree zero n f f' e h = Holds_zero n f h
  Holds-Agree (suc d) empty f f' e h = λ p x. e p x ∙ h p x
  Holds-Agree (suc d) (leaf v) f f' e h = λ p x. e p x ∙ h p x
  Holds-Agree (suc d) (extension k n) f f' e (x, (g, (h, a))) = (x, (g, (h, λ p y. e p y ∙ a p y)))
  Holds-Agree (suc d) (branch c) f f' e (g, (h, (a, l))) = (g, (h, (λ p y. e p y ∙ a p y, l)))
  Holds-Agree (suc d) (hash_node i) f f' e (n, (s, h)) = (n, (s, Holds-Agree d n f f' e h))

  -- more levels do no harm
  pub Holds-suc : (d : ℕ) (n : Node) (f : Values) → Holds b d n f → Holds b (suc d) n f
  unfolding Holds
  Holds-suc zero n f h = Holds_zero n f h
  Holds-suc (suc d) empty f h = h
  Holds-suc (suc d) (leaf v) f h = h
  Holds-suc (suc d) (extension k n) f (x, (g, (h, a))) = (x, (g, (Holds-suc d n g h, a)))
  Holds-suc (suc d) (branch c) f (g, (h, (a, l))) =
      (g, (λ i. Holds-suc d (c i) (g i) (h i), (a, l)))
  Holds-suc (suc d) (hash_node i) f (n, (s, h)) = (n, (s, Holds-suc d n f h))

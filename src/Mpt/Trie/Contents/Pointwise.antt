-- ===== src/Mpt/Trie/Contents/Pointwise.antt =====
-- What becomes of the values of a node when one of them is set or removed: in a child of a branch,
-- below an extension, and in the branch that replaces an extension.
use koala_tblockchain_golang.Shared.{
  ℕ, ◌<◌, ◌≡◌, refl, ◌==◌, ==_iff, ==-self, [], ◌∷◌, Option, none, some, true, false, if◌then◌else◌,
  length, drop, is_empty, arith, Bool-cases, inl, inr,
}
use koala_tblockchain_golang.Shared.Bytes.{has_prefix, equals}
use koala_tblockchain_golang.Storage.Cached.View.{updated}
use koala_tblockchain_golang.Mpt.Node.{Bytes, split_path, last_child}
use koala_tblockchain_golang.Mpt.Nibbles.{IsPath, lcp}
use koala_tblockchain_golang.Mpt.Trie.Contents.{Values, no_values, one_value, under, spread}

abbrev pub set_values : (ℕ → Values) → ℕ → Values → ℕ → Values
set_values g i x j = if j == i then x else g j

-- the values of the children of a branch that has two
abbrev pub two_values : ℕ → Values → ℕ → Values → ℕ → Values
two_values i g j h k = if k == j then h else if k == i then g else no_values

pub under-one_value :
    (p : Bytes) (v : Bytes) (q : Bytes)
    → under p (one_value v) q ≡ (if equals p q then some v else none)
unfolding has_prefix equals
under-one_value [] v [] = refl
under-one_value [] v (y ∷ q) = refl
under-one_value (x ∷ p) v [] = refl
under-one_value (x ∷ p) v (y ∷ q) = ground (arith, under-one_value p v q)

pub spread-updated :
    (g : ℕ → Values) (p : Bytes) (o : Option Bytes) (q : Bytes)
    → IsPath p
    → IsPath q
    → spread (set_values g (split_path p).0 (updated (split_path p).1 o (g (split_path p).0))) q
      ≡ updated p o (spread g) q
unfolding equals
spread-updated g [] o [] x y = refl
spread-updated g [] o (j ∷ q) x y = let small : j < 16 = y.0 in ground arith
spread-updated g (i ∷ p) o [] x y = let small : i < 16 = x.0 in ground arith
spread-updated g (i ∷ p) o (j ∷ q) x y = elim (Bool-cases (j == i)) [
  | inl e ↦ rw ((==_iff j i).0 e, ==-self i) refl
  | inr e ↦ ground (arith, e)
]

pub under-updated :
    (k : Bytes) (g : Values) (p : Bytes) (o : Option Bytes) (q : Bytes)
    → has_prefix p k ≡ true
    → under k (updated (drop (length k) p) o g) q ≡ updated p o (under k g) q
unfolding has_prefix equals
under-updated [] g p o q h = refl
under-updated (x ∷ k) g [] o q h = absurd cc
under-updated (x ∷ k) g (y ∷ p) o [] h = refl
under-updated (x ∷ k) g (y ∷ p) o (z ∷ q) h = ground (arith, h, under-updated k g p o q)

-- what the key and the path of putIntoExtension have behind their common prefix
abbrev pub rest_of_key : Bytes → Bytes → ℕ × Bytes
rest_of_key key path = split_path (drop (length (lcp key path)) key)

abbrev pub rest_of_path : Bytes → Bytes → ℕ × Bytes
rest_of_path key path = split_path (drop (length (lcp key path)) path)

abbrev pub beside : Values → Bytes → Bytes → Bytes → ℕ → Values
beside g v key path =
    two_values (rest_of_key key path).0 (under (rest_of_key key path).1 g) (rest_of_path key path).0
      (under (rest_of_path key path).1 (one_value v))

pub under-beside :
    (g : Values) (v key path q : Bytes)
    → IsPath key
    → IsPath path
    → IsPath q
    → has_prefix path key ≡ false
    → under (lcp key path) (spread (beside g v key path)) q ≡ updated path (some v) (under key g) q
unfolding has_prefix equals lcp
under-beside g v [] path q hk hp hq h = absurd cc
under-beside g v (x ∷ k) [] [] hk hp hq h = refl
under-beside g v (x ∷ k) [] (z ∷ q) hk hp hq h = let small : z < 16 = hq.0 in ground arith
under-beside g v (x ∷ k) (y ∷ p) [] hk hp hq h =
    let small : x < 16 = hk.0 in let small' : y < 16 = hp.0 in ground arith
under-beside g v (x ∷ k) (y ∷ p) (z ∷ q) hk hp hq h = elim (Bool-cases (x == y)) [
  | inl e ↦ rw e (ground (arith, e, h, under-beside g v k p q hk.1 hp.1 hq.1))
  | inr e ↦ rw e (ground (arith, e, h, under-one_value p v q))
]

pub beside_last :
    (g : Values) (v key path q : Bytes)
    → IsPath key
    → IsPath path
    → is_empty q ≡ false
    → has_prefix path key ≡ false
    → beside g v key path last_child q ≡ none
unfolding has_prefix lcp
beside_last g v [] path q hk hp e h = absurd cc
beside_last g v (x ∷ k) [] q hk hp e h = rw e refl
beside_last g v (x ∷ k) (y ∷ p) q hk hp e h =
    let small : x < 16 = hk.0 in
    let small' : y < 16 = hp.0 in
    elim (Bool-cases (x == y)) [
      | inl s ↦ rw s (beside_last g v k p q hk.1 hp.1 e (ground (arith, s, h)))
      | inr s ↦ rw s (ground arith)
    ]

-- ===== src/Mpt/Nibbles.antt =====
-- pkg/core/mpt/helpers.go: paths, which are keys in half bytes, and their common prefixes.
use koala_tblockchain_golang.Shared.{
  ℕ, ◌+◌, ◌*◌, ◌/◌, ◌%◌, ◌<◌, ◌≡◌, refl, ap, ◌==◌, List, [], ◌∷◌, if◌then◌else◌, arith, All,
}

unfoldable pub to_nibbles : List ℕ → List ℕ
to_nibbles [] = []
to_nibbles (b ∷ bs) = (b / 16) ∷ (b % 16) ∷ to_nibbles bs

-- bytes; a half byte that is left over at the end is dropped
unfoldable pub from_nibbles : List ℕ → List ℕ
from_nibbles [] = []
from_nibbles (h ∷ []) = []
from_nibbles (h ∷ l ∷ path) = ((h * 16 + l) % 256) ∷ from_nibbles path

-- lcp; which of the two is shorter makes no difference
unfoldable pub lcp : List ℕ → List ℕ → List ℕ
lcp [] b = []
lcp (x ∷ a) [] = []
lcp (x ∷ a) (y ∷ b) = let rest = lcp a b in if x == y then x ∷ rest else []

abbrev pub IsPath : List ℕ → Type 0
IsPath = All (λ x. x < 16)

pub to_nibbles-IsPath : (k : List ℕ) → All (λ b. b < 256) k → IsPath (to_nibbles k)
unfolding to_nibbles
to_nibbles-IsPath [] h = tt
to_nibbles-IsPath (b ∷ bs) h =
    let lo = h.0 in (omega arith, (omega arith, to_nibbles-IsPath bs h.1))

-- A key is got back from its path.
pub from_nibbles-to_nibbles : (k : List ℕ) → All (λ b. b < 256) k → from_nibbles (to_nibbles k) ≡ k
unfolding from_nibbles to_nibbles
from_nibbles-to_nibbles [] h = refl
from_nibbles-to_nibbles (b ∷ bs) h =
    let lo : b < 256 = h.0 in
    let same : (b / 16 * 16 + b % 16) % 256 ≡ b = omega arith in
    rw (same, from_nibbles-to_nibbles bs h.1) refl

pub to_nibbles_injective :
    (j k : List ℕ)
    → All (λ b. b < 256) j
    → All (λ b. b < 256) k
    → to_nibbles j ≡ to_nibbles k
    → j ≡ k
to_nibbles_injective j k hj hk e =
    cc (from_nibbles-to_nibbles j hj, from_nibbles-to_nibbles k hk, ap from_nibbles e)

-- ===== src/Io/Bytes.antt =====
-- encoding/binary of Go: unsigned integers of n bytes. A byte is a number below 256.
use native.Mathlib.Nat.{pow-suc}
use koala_tblockchain_golang.Shared.{
  ℕ, zero, suc, ◌+◌, ◌*◌, ◌/◌, ◌%◌, ◌^◌, ◌<◌, ◌≡◌, refl, ap, List, [], ◌∷◌, arith, length,
}

-- binary.LittleEndian.PutUint16, 32 and 64, for n = 2, 4 and 8
unfoldable pub le_bytes : ℕ → ℕ → List ℕ
le_bytes zero v = []
le_bytes (suc n) v = (v % 256) ∷ le_bytes n (v / 256)

-- binary.LittleEndian.Uint16, 32 and 64
unfoldable pub from_le : List ℕ → ℕ
from_le [] = 0
from_le (b ∷ bs) = b + 256 * from_le bs

-- binary.BigEndian.PutUint16
abbrev pub be_bytes16 : ℕ → List ℕ
be_bytes16 v = (v / 256 % 256) ∷ (v % 256) ∷ []

-- binary.BigEndian.Uint16
abbrev pub from_be16 : List ℕ → ℕ
from_be16 (a ∷ b ∷ []) = a * 256 + b
from_be16 _ = 0

pub length-le_bytes : (n v : ℕ) → length (le_bytes n v) ≡ n
unfolding le_bytes
length-le_bytes zero v = refl
length-le_bytes (suc n) v = ap suc (length-le_bytes n (v / 256))

pub from_le-le_bytes : (n v : ℕ) → v < 256 ^ n → from_le (le_bytes n v) ≡ v
unfolding le_bytes from_le
from_le-le_bytes zero v h = omega arith
from_le-le_bytes (suc n) v h =
    omega (arith, from_le-le_bytes n (v / 256) (omega (arith, pow-suc 256 n)))

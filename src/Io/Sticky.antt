-- ===== src/Io/Sticky.antt =====
-- The error of a reader is sticky: the first one is kept, and nothing moves.
use koala_tblockchain_golang.Shared.{ℕ, ◌≡◌, refl, List, [], Option, some, arith, false}
use koala_tblockchain_golang.Io.Reader.{
  BinReader, Err, Read, read_bytes, read_u64_le, read_u32_le, read_u16_le, read_u16_be, read_b,
  read_bool, read_var_uint, read_var_bytes, read_array,
}

-- a reader in which `err` is set
abbrev pub failed : List ℕ → Err → BinReader
failed s e = record { rest = s; err = some e }

-- Once a reader has an error, ReadU64LE, ReadU32LE, ReadU16LE, ReadU16BE, ReadB, ReadBool,
-- ReadVarUint and ReadVarBytes return their zero value, ReadArray leaves the slice as it was, and
-- the reader, its error included, stays as it was.
pub read_sticky :
    {A : Type 0} (dec : Read A) (old : List A) (max_size : Option ℕ) (s : List ℕ) (e : Err)
    → (read_u64_le (failed s e) ≡ (0, failed s e))
      × (read_u32_le (failed s e) ≡ (0, failed s e))
      × (read_u16_le (failed s e) ≡ (0, failed s e))
      × (read_u16_be (failed s e) ≡ (0, failed s e))
      × (read_b (failed s e) ≡ (0, failed s e))
      × (read_bool (failed s e) ≡ (false, failed s e))
      × (read_var_uint (failed s e) ≡ (0, failed s e))
      × (read_var_bytes max_size (failed s e) ≡ ([], failed s e))
      × (read_array dec max_size old (failed s e) ≡ (old, failed s e))
unfolding read_u64_le read_u32_le read_u16_le read_u16_be read_b read_bool read_var_uint
    read_var_bytes read_array read_bytes
read_sticky dec old max_size s e = (refl, refl, refl, refl, refl, refl, refl, ground arith, refl)

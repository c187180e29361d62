-- ===== src/Io/Writer.antt =====
-- pkg/io/binaryWriter.go over a buffer, which takes every write. `err` is set by the callers that
-- serialise, and nothing is written from then on.
use koala_tblockchain_golang.Shared.{
  ℕ, List, [], ◌∷◌, ◌++◌, Option, none, some, Bool, ltb, if◌then◌else◌, length,
}
use koala_tblockchain_golang.Io.Bytes.{le_bytes, be_bytes16}
use koala_tblockchain_golang.Io.Reader.{Err}

pub record BinWriter : Type 0 where
  pub out : List ℕ
  pub err : Option Err

abbrev pub Write : Type 0
Write = BinWriter → BinWriter

unfoldable pub write_bytes : List ℕ → Write
write_bytes b w = elim w.err [ none ↦ record w { out = w.out ++ b } | some e ↦ w ]

unfoldable pub write_u64_le : ℕ → Write
write_u64_le u64 = write_bytes (le_bytes 8 u64)

unfoldable pub write_u32_le : ℕ → Write
write_u32_le u32 = write_bytes (le_bytes 4 u32)

unfoldable pub write_u16_le : ℕ → Write
write_u16_le u16 = write_bytes (le_bytes 2 u16)

unfoldable pub write_u16_be : ℕ → Write
write_u16_be u16 = write_bytes (be_bytes16 u16)

unfoldable pub write_b : ℕ → Write
write_b u8 = write_bytes (u8 ∷ [])

unfoldable pub write_bool : Bool → Write
write_bool b = write_b (if b then 1 else 0)

-- The bytes that PutVarUint puts, of which it returns the number; the conversions to narrower
-- types cut nothing off here.
unfoldable pub put_var_uint : ℕ → List ℕ
put_var_uint val =
    if ltb val 0xfd
    then val ∷ []
    else if ltb val 0xffff
    then 0xfd ∷ le_bytes 2 val
    else if ltb val 0xffffffff
    then 0xfe ∷ le_bytes 4 val
    else 0xff ∷ le_bytes 8 val

-- `n := PutVarUint(w.uv[:], val); w.WriteBytes(w.uv[:n])`, after the test of `err`
unfoldable pub write_var_uint : ℕ → Write
write_var_uint val w = elim w.err [ none ↦ write_bytes (put_var_uint val) w | some e ↦ w ]

unfoldable pub write_var_bytes : List ℕ → Write
write_var_bytes b w = write_bytes b (write_var_uint (length b) w)

module _ {ℓ} {A : Type ℓ} where
  unfoldable pub write_elems : (A → Write) → List A → Write
  write_elems encode_binary [] w = w
  write_elems encode_binary (x ∷ xs) w = write_elems encode_binary xs (encode_binary x w)

  -- WriteArray; the reflection that finds `EncodeBinary` of the element type is the argument
  unfoldable pub write_array : (A → Write) → List A → Write
  write_array encode_binary arr w = elim w.err [
    | some e ↦ w
    | none ↦ write_elems encode_binary arr (write_var_uint (length arr) w)
  ]

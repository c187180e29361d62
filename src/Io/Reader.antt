-- ===== src/Io/Reader.antt =====
-- pkg/io/binaryReader.go over a byte buffer. A method takes the reader and returns its value with
-- the reader that it leaves; a read past the end and a size above the limit set `err`, and the
-- caller looks at it. The scratch buffer `uv` is overwritten before each use and is left out.
use koala_tblockchain_golang.Shared.{
  ℕ, zero, suc, List, [], ◌++◌, ◌∷◌, Option, none, some, String, Bool, not, ltb, leb, ◌==◌,
  if◌then◌else◌, length, take, drop, replicate, is_empty,
}
use koala_tblockchain_golang.Io.Bytes.{from_le, from_be16}

-- io.EOF, io.ErrUnexpectedEOF, the two `fmt.Errorf` of this file, and errors.New of its clients
pub data Err : Type 0 where
  eof unexpected_eof : Err
  array_too_big byte_slice_too_big : ℕ → Err
  errors_new : String → Err

pub record BinReader : Type 0 where
  pub rest : List ℕ
  pub err : Option Err

-- NewBinReaderFromBuf
abbrev pub new_from_buf : List ℕ → BinReader
new_from_buf b = record { rest = b; err = none }

abbrev pub Read {ℓ} : Type ℓ → Type ℓ
Read A = BinReader → A × BinReader

abbrev pub max_array_size : ℕ
max_array_size = 0x1000000

-- r.Err = e
abbrev pub set_err : BinReader → Err → BinReader
set_err r e = record r { err = some e }

-- io.ReadFull of a byte buffer: a short read fills a part of `buf`.
unfoldable pub read_full : List ℕ → List ℕ → List ℕ × BinReader
read_full buf rest =
    if leb (length buf) (length rest)
    then (take (length buf) rest, record { rest = drop (length buf) rest; err = none })
    else (
      rest ++ drop (length rest) buf,
      record { rest = []; err = some (if is_empty rest then eof else unexpected_eof) },
    )

unfoldable pub read_bytes : List ℕ → Read (List ℕ)
read_bytes buf r = elim r.err [ none ↦ read_full buf r.rest | some e ↦ (buf, r) ]

-- `if r.Err != nil { return 0 }`, and else the value of the bytes that were read
abbrev pub value_or_zero : (List ℕ → ℕ) → List ℕ × BinReader → ℕ × BinReader
value_or_zero value (b, r) = elim r.err [ none ↦ (value b, r) | some e ↦ (0, r) ]

unfoldable pub read_u64_le : Read ℕ
read_u64_le r = value_or_zero from_le (read_bytes (replicate 8 0) r)

unfoldable pub read_u32_le : Read ℕ
read_u32_le r = value_or_zero from_le (read_bytes (replicate 4 0) r)

unfoldable pub read_u16_le : Read ℕ
read_u16_le r = value_or_zero from_le (read_bytes (replicate 2 0) r)

unfoldable pub read_u16_be : Read ℕ
read_u16_be r = value_or_zero from_be16 (read_bytes (replicate 2 0) r)

abbrev first_byte : List ℕ → ℕ
first_byte [] = 0
first_byte (b ∷ bs) = b

unfoldable pub read_b : Read ℕ
read_b r = value_or_zero first_byte (read_bytes (replicate 1 0) r)

unfoldable pub read_bool : Read Bool
read_bool r = let (b, r') = read_b r in (not (b == 0), r')

unfoldable pub read_var_uint : Read ℕ
read_var_uint r = elim r.err [
  | some e ↦ (0, r)
  | none ↦
      let (b, r') = read_b r in
      if b == 0xfd
      then read_u16_le r'
      else if b == 0xfe
      then read_u32_le r'
      else if b == 0xff
      then read_u64_le r'
      else (b, r')
]

-- the variadic `maxSize`
abbrev pub size_limit : Option ℕ → ℕ
size_limit none = max_array_size
size_limit (some m) = m

unfoldable pub read_var_bytes : Option ℕ → Read (List ℕ)
read_var_bytes max_size r =
    let (n, r') = read_var_uint r in
    let filled = read_bytes (replicate n 0) r' in
    if ltb (size_limit max_size) n then ([], set_err r' (byte_slice_too_big n)) else filled

module _ {ℓ} {A : Type ℓ} where
  -- the loop of ReadArray: every element is decoded, whatever `err` is
  unfoldable pub read_elems : Read A → ℕ → Read (List A)
  read_elems decode_binary zero r = ([], r)
  read_elems decode_binary (suc l) r =
      let (x, r') = decode_binary r in
      let (xs, r'') = read_elems decode_binary l r' in (x ∷ xs, r'')

  -- ReadArray into the slice `old`, which an error leaves as it was. The reflection that finds
  -- `DecodeBinary` of the element type is the argument.
  unfoldable pub read_array : Read A → Option ℕ → List A → Read (List A)
  read_array decode_binary max_size old r = elim r.err [
    | some e ↦ (old, r)
    | none ↦
        let (lu, r') = read_var_uint r in
        let filled = read_elems decode_binary lu r' in
        if ltb (size_limit max_size) lu then (old, set_err r' (array_too_big lu)) else filled
  ]

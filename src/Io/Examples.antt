-- ===== src/Io/Examples.antt =====
-- Tests of pkg/io, and its theorems at concrete inputs.
use koala_tblockchain_golang.Shared.{
  ℕ, ◌≡◌, ◌≢◌, ◌↔◌, refl, Bool, [], ◌∷◌, ◌++◌, none, some, arith, ◌<◌, length, if◌then◌else◌, true,
  false,
}
use koala_tblockchain_golang.Io.Bytes.{le_bytes}
use koala_tblockchain_golang.Io.Reader.{
  new_from_buf, read_var_uint, read_var_bytes, read_array, read_bool, eof, read_u64_le, read_u32_le,
  read_u16_le, read_u16_be, read_b,
}
use koala_tblockchain_golang.Io.Writer.{
  write_b, put_var_uint, write_var_bytes, write_array, write_bool, write_bytes,
}
use koala_tblockchain_golang.Io.Size.{get_var_int_size}
use koala_tblockchain_golang.Io.RoundTrip.{
  IsCodec, buf_writer, read_bool-cons, read_var_uint-put_var_uint, read_var_bytes-write_var_bytes,
  read_array-write_array,
}
use koala_tblockchain_golang.Io.Sticky.{read_sticky, failed}
use koala_tblockchain_golang.Io.SizeAgreement.{get_var_int_size-eq_iff}

-- 65535 takes five bytes, 65534 three
put_var_uint_test :
    (put_var_uint 0xffff ≡ 0xfe ∷ 0xff ∷ 0xff ∷ 0 ∷ 0 ∷ [])
    × (put_var_uint 0xfffe ≡ 0xfd ∷ 0xfe ∷ 0xff ∷ [])
unfolding put_var_uint le_bytes
put_var_uint_test = (refl, refl)

read_var_uint-put_var_uint_example :
    read_var_uint (new_from_buf (put_var_uint 0xffff ++ 7 ∷ [])) ≡ (0xffff, new_from_buf (7 ∷ []))
read_var_uint-put_var_uint_example = read_var_uint-put_var_uint 0xffff (7 ∷ []) (omega arith)

read_var_bytes-write_var_bytes_example :
    read_var_bytes
      (some 4)
      (new_from_buf ((write_var_bytes (1 ∷ 2 ∷ 3 ∷ []) (buf_writer [])).out ++ 9 ∷ []))
    ≡ (1 ∷ 2 ∷ 3 ∷ [], new_from_buf (9 ∷ []))
read_var_bytes-write_var_bytes_example =
    read_var_bytes-write_var_bytes (1 ∷ 2 ∷ 3 ∷ []) (9 ∷ []) (some 4) (omega arith) (omega arith)

-- a Boolean is a byte
bool-IsCodec :
    IsCodec (λ (b : Bool). Unit {0}) write_bool read_bool (λ b. (if b then 1 else 0) ∷ [])
unfolding write_bool write_b write_bytes
bool-IsCodec = record { encodes = λ x o. refl; decodes = λ x t h. read_bool-cons x t }

read_array-write_array_example :
    read_array read_bool
      (some 16)
      []
      (new_from_buf ((write_array write_bool (true ∷ false ∷ []) (buf_writer [])).out ++ 5 ∷ []))
    ≡ (true ∷ false ∷ [], new_from_buf (5 ∷ []))
read_array-write_array_example =
    read_array-write_array bool-IsCodec (true ∷ false ∷ []) [] (5 ∷ []) (some 16) (tt, (tt, tt))
      (omega arith) (omega arith)

read_sticky_example :
    (read_u64_le (failed (1 ∷ []) eof) ≡ (0, failed (1 ∷ []) eof))
    × (read_u32_le (failed (1 ∷ []) eof) ≡ (0, failed (1 ∷ []) eof))
    × (read_u16_le (failed (1 ∷ []) eof) ≡ (0, failed (1 ∷ []) eof))
    × (read_u16_be (failed (1 ∷ []) eof) ≡ (0, failed (1 ∷ []) eof))
    × (read_b (failed (1 ∷ []) eof) ≡ (0, failed (1 ∷ []) eof))
    × (read_bool (failed (1 ∷ []) eof) ≡ (false, failed (1 ∷ []) eof))
    × (read_var_uint (failed (1 ∷ []) eof) ≡ (0, failed (1 ∷ []) eof))
    × (read_var_bytes none (failed (1 ∷ []) eof) ≡ ([], failed (1 ∷ []) eof))
    × (read_array read_bool none [] (failed (1 ∷ []) eof) ≡ ([], failed (1 ∷ []) eof))
read_sticky_example = read_sticky read_bool [] none (1 ∷ []) eof

get_var_int_size-eq_iff_example :
    (get_var_int_size 0xffff ≡ length (put_var_uint 0xffff))
    ↔ ((◌≢◌ {A = ℕ} 0xffff 0xffff) × (0xffff < 0xffffffff))
get_var_int_size-eq_iff_example = get_var_int_size-eq_iff 0xffff

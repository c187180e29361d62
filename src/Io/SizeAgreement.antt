-- ===== src/Io/SizeAgreement.antt =====
-- The size that pkg/io/size.go computes against the bytes that pkg/io/binaryWriter.go writes.
use koala_tblockchain_golang.Shared.{ℕ, ◌<◌, ◌≡◌, ◌≢◌, ◌↔◌, List, [], arith, length, length-append}
use koala_tblockchain_golang.Io.Bytes.{length-le_bytes}
use koala_tblockchain_golang.Io.Writer.{put_var_uint, write_bytes, write_var_uint, write_var_bytes}
use koala_tblockchain_golang.Io.Size.{get_var_int_size, get_string_size}
use koala_tblockchain_golang.Io.RoundTrip.{buf_writer}

-- The computed size of an integer is the number of bytes written for it exactly when the integer
-- is not 0xffff, for which 3 is computed and 5 are written, and is below 0xffffffff, from which on
-- 5 is computed and 9 are written.
pub get_var_int_size-eq_iff :
    (v : ℕ) → (get_var_int_size v ≡ length (put_var_uint v)) ↔ ((v ≢ 0xffff) × (v < 0xffffffff))
unfolding get_var_int_size put_var_uint
get_var_int_size-eq_iff v =
    ground (arith, length-le_bytes 2 v, length-le_bytes 4 v, length-le_bytes 8 v)

-- So GetVarSize of a string is the length of its serialisation when the string is shorter than
-- 0xffffffff bytes and does not have exactly 0xffff bytes.
pub get_string_size-eq :
    (b : List ℕ)
    → length b ≢ 0xffff
    → length b < 0xffffffff
    → get_string_size b ≡ length (write_var_bytes b (buf_writer [])).out
unfolding get_string_size write_var_bytes write_var_uint write_bytes
get_string_size-eq b ne lt = omega (
  arith,
  (get_var_int_size-eq_iff (length b)).1 (ne, lt),
  length-append (put_var_uint (length b)) b,
)

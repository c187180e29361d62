-- ===== src/Io/Size.antt =====
-- pkg/io/size.go: the size of a serialised value, without serialising it.
use koala_tblockchain_golang.Shared.{ℕ, List, ◌+◌, ltb, leb, if◌then◌else◌, length}

-- of a non-negative `int`
unfoldable pub get_var_int_size : ℕ → ℕ
get_var_int_size value = if ltb value 0xfd then 1 else if leb value 0xffff then 3 else 5

-- of a string
unfoldable pub get_string_size : List ℕ → ℕ
get_string_size value = get_var_int_size (length value) + length value

-- ===== src/Io/RoundTrip.antt =====
-- What the writer puts the reader gets back, and what follows in the buffer is left for the next
-- read.
use koala_tblockchain_golang.Shared.{
  ℕ, ◌^◌, ◌≤◌, ◌<◌, ◌≡◌, refl, sym, ◌∙◌, List, [], ◌∷◌, ◌++◌, append_assoc, append-nil, Option,
  none, Bool, true, false, arith, ltb, ◌==◌, if◌then◌else◌, length, replicate, All,
  length-replicate, take-append, drop-append, length-append, Bool-cases, inl, inr,
}
use koala_tblockchain_golang.Io.Bytes.{le_bytes, length-le_bytes, from_le-le_bytes}
use koala_tblockchain_golang.Io.Reader.{
  Read, new_from_buf, size_limit, read_full, read_bytes, read_u64_le, read_u32_le, read_u16_le,
  read_b, read_bool, read_var_uint, read_var_bytes, read_elems, read_array,
}
use koala_tblockchain_golang.Io.Writer.{
  BinWriter, Write, write_bytes, put_var_uint, write_var_uint, write_var_bytes, write_elems,
  write_array,
}

pub read_bytes-append :
    (buf b t : List ℕ)
    → length buf ≡ length b
    → read_bytes buf (new_from_buf (b ++ t)) ≡ (b, new_from_buf t)
unfolding read_bytes read_full
read_bytes-append buf b t h =
    rw (h, length-append b t, take-append b t, drop-append b t) (ground arith)

-- a field of n bytes
module _ (n v : ℕ) (t : List ℕ) (fits : v < 256 ^ n) where
  read_le :
      read_bytes (replicate n 0) (new_from_buf (le_bytes n v ++ t)) ≡ (le_bytes n v, new_from_buf t)
  read_le =
      read_bytes-append (replicate n 0) (le_bytes n v) t
        (length-replicate n 0 ∙ sym (length-le_bytes n v))

module _ (v : ℕ) (t : List ℕ) where
  pub read_u16_le-le_bytes :
      v < 2 ^ 16 → read_u16_le (new_from_buf (le_bytes 2 v ++ t)) ≡ (v, new_from_buf t)
  unfolding read_u16_le
  read_u16_le-le_bytes h = rw (read_le 2 v t h, from_le-le_bytes 2 v h)

  pub read_u32_le-le_bytes :
      v < 2 ^ 32 → read_u32_le (new_from_buf (le_bytes 4 v ++ t)) ≡ (v, new_from_buf t)
  unfolding read_u32_le
  read_u32_le-le_bytes h = rw (read_le 4 v t h, from_le-le_bytes 4 v h)

  pub read_u64_le-le_bytes :
      v < 2 ^ 64 → read_u64_le (new_from_buf (le_bytes 8 v ++ t)) ≡ (v, new_from_buf t)
  unfolding read_u64_le
  read_u64_le-le_bytes h = rw (read_le 8 v t h, from_le-le_bytes 8 v h)

  pub read_b-cons : read_b (new_from_buf (v ∷ t)) ≡ (v, new_from_buf t)
  unfolding read_b
  read_b-cons = rw (read_bytes-append (0 ∷ []) (v ∷ []) t refl)

pub read_bool-cons :
    (b : Bool) (t : List ℕ)
    → read_bool (new_from_buf ((if b then 1 else 0) ∷ t)) ≡ (b, new_from_buf t)
unfolding read_bool
read_bool-cons true t = rw (read_b-cons 1 t)
read_bool-cons false t = rw (read_b-cons 0 t)

-- the first byte tells how many bytes follow
read_var_uint-cons :
    (b : ℕ) (t : List ℕ)
    → read_var_uint (new_from_buf (b ∷ t)) ≡ (
        if b == 0xfd
        then read_u16_le (new_from_buf t)
        else if b == 0xfe
        then read_u32_le (new_from_buf t)
        else if b == 0xff
        then read_u64_le (new_from_buf t)
        else (b, new_from_buf t))
unfolding read_var_uint
read_var_uint-cons b t = rw (read_b-cons b t)

read_var_uint_small :
    (b : ℕ) (t : List ℕ) → b < 0xfd → read_var_uint (new_from_buf (b ∷ t)) ≡ (b, new_from_buf t)
read_var_uint_small b t h = ground (arith, read_var_uint-cons b t)

-- A uint64 that is written in the variable-length form is read back, and the reader stands
-- behind it.
pub read_var_uint-put_var_uint :
    (v : ℕ) (t : List ℕ)
    → v < 2 ^ 64
    → read_var_uint (new_from_buf (put_var_uint v ++ t)) ≡ (v, new_from_buf t)
unfolding put_var_uint
read_var_uint-put_var_uint v t h = elim (Bool-cases (ltb v 0xfd)) [
  | inl a ↦ rw a (read_var_uint_small v t (ground arith))
  | inr a ↦ rw a (elim (Bool-cases (ltb v 0xffff)) [
    | inl b ↦ rw b (read_var_uint-cons 0xfd _ ∙ read_u16_le-le_bytes v t (ground arith))
    | inr b ↦ rw b (elim (Bool-cases (ltb v 0xffffffff)) [
      | inl c ↦ rw c (read_var_uint-cons 0xfe _ ∙ read_u32_le-le_bytes v t (ground arith))
      | inr c ↦ rw c (read_var_uint-cons 0xff _ ∙ read_u64_le-le_bytes v t h)
    ])
  ])
]

-- a writer without an error that holds `out`
abbrev pub buf_writer : List ℕ → BinWriter
buf_writer o = record { out = o; err = none }

-- A byte slice within the size limit is written with its length before it, and is read back.
pub read_var_bytes-write_var_bytes :
    (b t : List ℕ) (max_size : Option ℕ)
    → length b ≤ size_limit max_size
    → length b < 2 ^ 64
    → read_var_bytes max_size (new_from_buf ((write_var_bytes b (buf_writer [])).out ++ t))
      ≡ (b, new_from_buf t)
unfolding read_var_bytes write_var_bytes write_var_uint write_bytes
read_var_bytes-write_var_bytes b t max_size h k = rw (append_assoc (put_var_uint (length b)) b t) (
    rw (read_var_uint-put_var_uint (length b) (b ++ t) k) (
      rw (read_bytes-append (replicate (length b) 0) b t (length-replicate (length b) 0))
        (ground arith)))

-- What a type with EncodeBinary and DecodeBinary promises to the arrays that hold it: on the
-- values `Valid` it writes some bytes behind what is there, and reads those bytes back.
pub record IsCodec {ℓ κ} {A : Type ℓ} (Valid : A → Type κ) (encode_binary : A → Write)
    (decode_binary : Read A) (bytes : A → List ℕ) : Type (ℓ ⊔ κ) where
  pub encodes : (x : A) (o : List ℕ) → encode_binary x (buf_writer o) ≡ buf_writer (o ++ bytes x)
  pub decodes :
      (x : A) (t : List ℕ)
      → Valid x
      → decode_binary (new_from_buf (bytes x ++ t)) ≡ (x, new_from_buf t)

abbrev pub concat_bytes {ℓ} : {A : Type ℓ} → (A → List ℕ) → List A → List ℕ
concat_bytes bytes [] = []
concat_bytes bytes (x ∷ xs) = bytes x ++ concat_bytes bytes xs

module _ {ℓ κ} {A : Type ℓ} {Valid : A → Type κ} {enc : A → Write} {dec : Read A}
    {bytes : A → List ℕ} (codec : IsCodec Valid enc dec bytes) where
  write_elems-buf_writer :
      (xs : List A) (o : List ℕ)
      → write_elems enc xs (buf_writer o) ≡ buf_writer (o ++ concat_bytes bytes xs)
  unfolding write_elems
  write_elems-buf_writer [] o = rw append-nil
  write_elems-buf_writer (x ∷ xs) o =
      rw (codec.encodes x o, write_elems-buf_writer xs (o ++ bytes x), append_assoc)

  read_elems-concat_bytes :
      (xs : List A) (t : List ℕ)
      → All Valid xs
      → read_elems dec (length xs) (new_from_buf (concat_bytes bytes xs ++ t))
        ≡ (xs, new_from_buf t)
  unfolding read_elems
  read_elems-concat_bytes [] t h = refl
  read_elems-concat_bytes (x ∷ xs) t h = rw (
    append_assoc (bytes x) (concat_bytes bytes xs) t,
    codec.decodes x _ h.0,
    read_elems-concat_bytes xs t h.1,
  )

  pub write_array-buf_writer :
      (xs : List A) (o : List ℕ)
      → write_array enc xs (buf_writer o)
        ≡ buf_writer (o ++ (put_var_uint (length xs) ++ concat_bytes bytes xs))
  unfolding write_array write_var_uint write_bytes
  write_array-buf_writer xs o =
      rw (write_elems-buf_writer xs (o ++ put_var_uint (length xs)), append_assoc)

  -- An array within the size limit, of elements that are read back, is itself read back.
  pub read_array-write_array :
      (xs old : List A) (t : List ℕ) (max_size : Option ℕ)
      → All Valid xs
      → length xs ≤ size_limit max_size
      → length xs < 2 ^ 64
      → read_array dec max_size old (new_from_buf ((write_array enc xs (buf_writer [])).out ++ t))
        ≡ (xs, new_from_buf t)
  unfolding read_array
  read_array-write_array xs old t max_size valid h k =
      rw
        (
          write_array-buf_writer xs [],
          append_assoc (put_var_uint (length xs)) (concat_bytes bytes xs) t,
          read_var_uint-put_var_uint (length xs) (concat_bytes bytes xs ++ t) k,
          read_elems-concat_bytes xs t valid,
        )
        (ground arith)

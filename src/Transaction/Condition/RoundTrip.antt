-- ===== src/Transaction/Condition/RoundTrip.antt =====
-- A condition within the limits is read back from its binary form.
use koala_tblockchain_golang.Shared.{
  ℕ, zero, suc, ◌≤◌, ◌<◌, ◌≡◌, refl, sym, ◌∙◌, ap, List, [], ◌∷◌, ◌++◌, append_assoc, append-nil,
  Option, some, arith, replicate, if◌then◌else◌,
}
use koala_tblockchain_golang.Io.Reader.{Read, BinReader, new_from_buf}
use koala_tblockchain_golang.Io.Writer.{
  Write, put_var_uint, write_b, write_bool, write_bytes, write_var_uint,
}
use koala_tblockchain_golang.Io.RoundTrip.{
  IsCodec, buf_writer, read_b-cons, read_bool-cons, read_bytes-append, read_var_uint-put_var_uint,
}
use koala_tblockchain_golang.Transaction.Condition.{
  Condition, boolean, not_cond, and_cond, or_cond, script_hash, group, called_by_entry,
  called_by_contract, called_by_group, Conditions, nil, cons, count, max_subitems,
  max_condition_nesting,
}
use koala_tblockchain_golang.Transaction.Condition.Binary.{
  encode_binary, encode_elems, decode_binary_condition, decode_binary, decode_specific,
  read_conditions, read_array_of_conditions, nil_on_error,
}
use koala_tblockchain_golang.Transaction.Condition.Bounds.{
  IsWellFormed, AllWellFormed, nesting, nesting_all,
}

module _ {K : Type 0} (key_bytes : K → List ℕ) where
  -- the wire format
  abbrev mutual
    pub bytes : Condition K → List ℕ
    bytes (boolean b) = 0x00 ∷ (if b then 1 else 0) ∷ []
    bytes (not_cond c) = 0x01 ∷ bytes c
    bytes (and_cond cs) = 0x02 ∷ put_var_uint (count cs) ++ bytes_all cs
    bytes (or_cond cs) = 0x03 ∷ put_var_uint (count cs) ++ bytes_all cs
    bytes (script_hash h) = 0x18 ∷ h
    bytes (group k) = 0x19 ∷ key_bytes k
    bytes called_by_entry = 0x20 ∷ []
    bytes (called_by_contract h) = 0x28 ∷ h
    bytes (called_by_group k) = 0x29 ∷ key_bytes k

    pub bytes_all : Conditions K → List ℕ
    bytes_all nil = []
    bytes_all (cons c cs) = bytes c ++ bytes_all cs

module _ {K : Type 0} {key_encode : K → Write} {key_decode : Read K} {key_bytes : K → List ℕ}
    (keys : IsCodec (λ (k : K). Unit {0}) key_encode key_decode key_bytes) where
  mutual
    unfolding encode_binary encode_elems write_b write_bytes write_bool write_var_uint

    encode_binary-buf_writer :
        (c : Condition K) (o : List ℕ)
        → encode_binary key_encode c (buf_writer o) ≡ buf_writer (o ++ bytes key_bytes c)
    encode_binary-buf_writer (boolean b) o = rw append_assoc
    encode_binary-buf_writer (not_cond c) o =
        rw (encode_binary-buf_writer c (o ++ 0x01 ∷ []), append_assoc)
    encode_binary-buf_writer (and_cond cs) o = rw (
      encode_elems-buf_writer cs (o ++ 0x02 ∷ [] ++ put_var_uint (count cs)),
      append_assoc,
      append_assoc,
    )
    encode_binary-buf_writer (or_cond cs) o = rw (
      encode_elems-buf_writer cs (o ++ 0x03 ∷ [] ++ put_var_uint (count cs)),
      append_assoc,
      append_assoc,
    )
    encode_binary-buf_writer (script_hash h) o = rw append_assoc
    encode_binary-buf_writer (group k) o = rw (keys.encodes k (o ++ 0x19 ∷ []), append_assoc)
    encode_binary-buf_writer called_by_entry o = refl
    encode_binary-buf_writer (called_by_contract h) o = rw append_assoc
    encode_binary-buf_writer (called_by_group k) o =
        rw (keys.encodes k (o ++ 0x29 ∷ []), append_assoc)

    encode_elems-buf_writer :
        (cs : Conditions K) (o : List ℕ)
        → encode_elems key_encode cs (buf_writer o) ≡ buf_writer (o ++ bytes_all key_bytes cs)
    encode_elems-buf_writer nil o = rw append-nil
    encode_elems-buf_writer (cons c cs) o = rw (
      encode_binary-buf_writer c o,
      encode_elems-buf_writer cs (o ++ bytes key_bytes c),
      append_assoc,
    )

  decode_step :
      (b d : ℕ) (s : List ℕ)
      → decode_binary_condition key_decode (suc d) (new_from_buf (b ∷ s))
        ≡ nil_on_error
            (decode_specific key_decode (decode_binary_condition key_decode d) b (new_from_buf s))
  unfolding decode_binary_condition
  decode_step b d s = ground (arith, read_b-cons b s)

  read_array_of_conditions-bytes :
      (decode : Read (Option (Condition K))) (cs : Conditions K) (t : List ℕ)
      → 0 < count cs
      → count cs ≤ max_subitems
      → read_conditions decode (count cs) (new_from_buf (bytes_all key_bytes cs ++ t))
        ≡ (some cs, new_from_buf t)
      → read_array_of_conditions decode
          (new_from_buf ((put_var_uint (count cs) ++ bytes_all key_bytes cs) ++ t))
        ≡ (some cs, new_from_buf t)
  unfolding read_array_of_conditions
  read_array_of_conditions-bytes decode cs t h k e =
      rw
        (
          append_assoc (put_var_uint (count cs)) (bytes_all key_bytes cs) t,
          read_var_uint-put_var_uint (count cs) (bytes_all key_bytes cs ++ t) (omega arith),
          e,
        )
        (ground arith)

  key_lem :
      (f : K → Condition K) (k : K) (t : List ℕ)
      → (let p = key_decode (new_from_buf (key_bytes k ++ t)) in nil_on_error (some (f p.0), p.1))
        ≡ (some (f k), new_from_buf t)
  key_lem f k t = ap (λ (p : K × BinReader). nil_on_error (some (f p.0), p.1)) (keys.decodes k t tt)

  mutual
    unfolding decode_specific read_conditions

    decode-bytes :
        (c : Condition K) (d : ℕ) (t : List ℕ)
        → IsWellFormed c
        → nesting c ≤ d
        → decode_binary_condition key_decode d (new_from_buf (bytes key_bytes c ++ t))
          ≡ (some c, new_from_buf t)
    decode-bytes (boolean b) (suc d) t w h = rw (decode_step 0x00 d _, read_bool-cons b t)
    decode-bytes (not_cond c) (suc d) t w h =
        rw (decode_step 0x01 d _, decode-bytes c d t w (omega arith))
    decode-bytes (and_cond cs) (suc d) t w h = rw (
      decode_step 0x02 d _,
      read_array_of_conditions-bytes (decode_binary_condition key_decode d) cs t w.0 w.1
          (read_conditions-bytes_all cs d t w.2 (omega arith)),
    )
    decode-bytes (or_cond cs) (suc d) t w h = rw (
      decode_step 0x03 d _,
      read_array_of_conditions-bytes (decode_binary_condition key_decode d) cs t w.0 w.1
          (read_conditions-bytes_all cs d t w.2 (omega arith)),
    )
    decode-bytes (script_hash x) (suc d) t w h =
        rw (decode_step 0x18 d _, read_bytes-append (replicate 20 0) x t (sym w))
    decode-bytes (group k) (suc d) t w h = decode_step 0x19 d _ ∙ key_lem group k t
    decode-bytes called_by_entry (suc d) t w h = rw (decode_step 0x20 d _)
    decode-bytes (called_by_contract x) (suc d) t w h =
        rw (decode_step 0x28 d _, read_bytes-append (replicate 20 0) x t (sym w))
    decode-bytes (called_by_group k) (suc d) t w h =
        decode_step 0x29 d _ ∙ key_lem called_by_group k t
    decode-bytes (boolean b) zero t w h = absurd (omega arith)
    decode-bytes (not_cond c) zero t w h = absurd (omega arith)
    decode-bytes (and_cond cs) zero t w h = absurd (omega arith)
    decode-bytes (or_cond cs) zero t w h = absurd (omega arith)
    decode-bytes (script_hash x) zero t w h = absurd (omega arith)
    decode-bytes (group k) zero t w h = absurd (omega arith)
    decode-bytes called_by_entry zero t w h = absurd (omega arith)
    decode-bytes (called_by_contract x) zero t w h = absurd (omega arith)
    decode-bytes (called_by_group k) zero t w h = absurd (omega arith)

    read_conditions-bytes_all :
        (cs : Conditions K) (d : ℕ) (t : List ℕ)
        → AllWellFormed cs
        → nesting_all cs ≤ d
        → read_conditions
            (decode_binary_condition key_decode d)
            (count cs)
            (new_from_buf (bytes_all key_bytes cs ++ t))
          ≡ (some cs, new_from_buf t)
    read_conditions-bytes_all nil d t w h = refl
    read_conditions-bytes_all (cons c cs) d t w h = rw (
      append_assoc (bytes key_bytes c) (bytes_all key_bytes cs) t,
      decode-bytes c d (bytes_all key_bytes cs ++ t) w.0 (omega arith),
      read_conditions-bytes_all cs d t w.1 (omega arith),
    )

  -- A condition of at most two levels, with arrays of 1 to 16 conditions and hashes of twenty
  -- bytes, is read back by DecodeBinaryCondition from what EncodeBinary writes, provided that the
  -- public keys are, and the reader stands behind it.
  pub decode_binary-encode_binary :
      (c : Condition K) (t : List ℕ)
      → IsWellFormed c
      → nesting c ≤ max_condition_nesting
      → decode_binary key_decode
          (new_from_buf ((encode_binary key_encode c (buf_writer [])).out ++ t))
        ≡ (some c, new_from_buf t)
  decode_binary-encode_binary c t w h =
      rw (encode_binary-buf_writer c []) (decode-bytes c max_condition_nesting t w h)

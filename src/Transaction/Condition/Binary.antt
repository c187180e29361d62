-- ===== src/Transaction/Condition/Binary.antt =====
-- EncodeBinary and DecodeBinarySpecific of each condition, readArrayOfConditions and
-- decodeBinaryCondition of pkg/core/transaction/witness_condition.go.
use koala_tblockchain_golang.Shared.{
  ℕ, zero, suc, Option, none, some, ◌==◌, ltb, if◌then◌else◌, replicate, List,
}
use koala_tblockchain_golang.Io.Reader.{
  Read, BinReader, errors_new, set_err, read_b, read_bool, read_bytes, read_var_uint,
}
use koala_tblockchain_golang.Io.Writer.{
  Write, BinWriter, write_b, write_bool, write_bytes, write_var_uint,
}
use koala_tblockchain_golang.Transaction.Condition.{
  Condition, boolean, not_cond, and_cond, or_cond, script_hash, group, called_by_entry,
  called_by_contract, called_by_group, Conditions, nil, cons, count, max_subitems,
  max_condition_nesting,
}

-- WriteArray of []WitnessCondition on the writer `w`, of which `written` is the outcome if `w` has
-- no error
abbrev pub write_array_of : BinWriter → BinWriter → BinWriter
write_array_of w written = elim w.err [ none ↦ written | some e ↦ w ]

module _ {K : Type 0} (key_encode : K → Write) where
  unfoldable mutual
    pub encode_binary : Condition K → Write
    encode_binary (boolean b) w = write_bool b (write_b 0x00 w)
    encode_binary (not_cond c) w = encode_binary c (write_b 0x01 w)
    encode_binary (and_cond cs) w =
        let w' = write_b 0x02 w in
        write_array_of w' (encode_elems cs (write_var_uint (count cs) w'))
    encode_binary (or_cond cs) w =
        let w' = write_b 0x03 w in
        write_array_of w' (encode_elems cs (write_var_uint (count cs) w'))
    encode_binary (script_hash h) w = write_bytes h (write_b 0x18 w)
    encode_binary (group k) w = key_encode k (write_b 0x19 w)
    encode_binary called_by_entry w = write_b 0x20 w
    encode_binary (called_by_contract h) w = write_bytes h (write_b 0x28 w)
    encode_binary (called_by_group k) w = key_encode k (write_b 0x29 w)

    -- the loop of WriteArray
    pub encode_elems : Conditions K → Write
    encode_elems nil w = w
    encode_elems (cons c cs) w = encode_elems cs (encode_binary c w)

-- `if r.Err != nil { return nil }` at the end of a function
abbrev pub nil_on_error {ℓ} : {A : Type ℓ} → Option A × BinReader → Option A × BinReader
nil_on_error (a, r) = elim r.err [ none ↦ (a, r) | some e ↦ (none, r) ]

-- A WitnessCondition or []WitnessCondition that is nil is `none`.
module _ {K : Type 0} where
  abbrev pub cons? : Option (Condition K) → Option (Conditions K) → Option (Conditions K)
  cons? (some c) (some cs) = some (cons c cs)
  cons? (some c) none = none
  cons? none cs = none

  abbrev pub map? {ℓ} :
      {A : Type ℓ} → (A → Condition K) → Option A × BinReader → Option (Condition K) × BinReader
  map? f (none, r) = (none, r)
  map? f (some a, r) = (some (f a), r)

  -- the loop of readArrayOfConditions, in which `decode` is decodeBinaryCondition at maxDepth - 1
  unfoldable pub read_conditions : Read (Option (Condition K)) → ℕ → Read (Option (Conditions K))
  read_conditions decode zero r = (some nil, r)
  read_conditions decode (suc l) r =
      let (c, r') = decode r in let (cs, r'') = read_conditions decode l r' in (cons? c cs, r'')

  unfoldable pub read_array_of_conditions :
      Read (Option (Condition K)) → Read (Option (Conditions K))
  read_array_of_conditions decode r =
      let (l, r') = read_var_uint r in
      let a = nil_on_error (read_conditions decode l r') in
      if l == 0
      then (none, set_err r' (errors_new "empty array of conditions"))
      else if ltb max_subitems l
      then (none, set_err r' (errors_new "too many elements"))
      else a

  abbrev pub read_hash : (List ℕ → Condition K) → Read (Option (Condition K))
  read_hash f r = let (h, r') = read_bytes (replicate 20 0) r in (some (f h), r')

  -- the `switch t` of decodeBinaryCondition, with the DecodeBinarySpecific that it selects
  unfoldable pub decode_specific :
      Read K → Read (Option (Condition K)) → ℕ → Read (Option (Condition K))
  decode_specific key_decode decode t r =
      if t == 0x00
      then (let (b, r') = read_bool r in (some (boolean b), r'))
      else if t == 0x01
      then map? not_cond (decode r)
      else if t == 0x02
      then map? and_cond (read_array_of_conditions decode r)
      else if t == 0x03
      then map? or_cond (read_array_of_conditions decode r)
      else if t == 0x18
      then read_hash script_hash r
      else if t == 0x19
      then (let (k, r') = key_decode r in (some (group k), r'))
      else if t == 0x20
      then (some called_by_entry, r)
      else if t == 0x28
      then read_hash called_by_contract r
      else if t == 0x29
      then (let (k, r') = key_decode r in (some (called_by_group k), r'))
      else (none, set_err r (errors_new "invalid condition type"))

  unfoldable pub decode_binary_condition : Read K → ℕ → Read (Option (Condition K))
  decode_binary_condition key_decode zero r =
      (none, set_err r (errors_new "too many nesting levels"))
  decode_binary_condition key_decode (suc max_depth) r =
      let (t, r') = read_b r in
      let specific =
        decode_specific key_decode (decode_binary_condition key_decode max_depth) t r' in
      elim r'.err [ some e ↦ (none, r') | none ↦ nil_on_error specific ]

  -- DecodeBinaryCondition
  abbrev pub decode_binary : Read K → Read (Option (Condition K))
  decode_binary key_decode = decode_binary_condition key_decode max_condition_nesting

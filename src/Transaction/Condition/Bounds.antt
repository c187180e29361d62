-- ===== src/Transaction/Condition/Bounds.antt =====
-- What decodeBinaryCondition accepts, whatever the bytes: the limits on nesting and on the size of
-- an array hold of every condition that it returns.
use koala_tblockchain_golang.Shared.{
  ℕ, zero, suc, ◌≤◌, ◌<◌, ◌≡◌, refl, List, Option, none, some, arith, length, if-elim, subst,
  replicate, max, inl, inr, Option-cases, length-take_le, length-append, leb, ltb, ◌==◌, Bool-cases,
  drop, length-drop,
}
use koala_tblockchain_golang.Io.Reader.{
  Read, BinReader, read_bytes, read_full, read_var_uint, read_b,
}
use koala_tblockchain_golang.Transaction.Condition.{
  Condition, not_cond, and_cond, or_cond, script_hash, called_by_contract, Conditions, nil, cons,
  count, max_subitems, max_condition_nesting,
}
use koala_tblockchain_golang.Transaction.Condition.Binary.{
  decode_binary_condition, decode_binary, decode_specific, read_conditions,
  read_array_of_conditions, nil_on_error, cons?, map?,
}

-- the levels of a condition
abbrev mutual
  pub nesting : {K : Type 0} → Condition K → ℕ
  nesting (not_cond c) = suc (nesting c)
  nesting (and_cond cs) = suc (nesting_all cs)
  nesting (or_cond cs) = suc (nesting_all cs)
  nesting _ = 1

  pub nesting_all : {K : Type 0} → Conditions K → ℕ
  nesting_all nil = 0
  nesting_all (cons c cs) = max (nesting c) (nesting_all cs)

-- arrays have 1 to 16 conditions, and hashes twenty bytes
abbrev mutual
  pub IsWellFormed : {K : Type 0} → Condition K → Type 0
  IsWellFormed (not_cond c) = IsWellFormed c
  IsWellFormed (and_cond cs) = (0 < count cs) × (count cs ≤ max_subitems) × AllWellFormed cs
  IsWellFormed (or_cond cs) = (0 < count cs) × (count cs ≤ max_subitems) × AllWellFormed cs
  IsWellFormed (script_hash h) = length h ≡ 20
  IsWellFormed (called_by_contract h) = length h ≡ 20
  IsWellFormed _ = Unit

  pub AllWellFormed : {K : Type 0} → Conditions K → Type 0
  AllWellFormed nil = Unit
  AllWellFormed (cons c cs) = IsWellFormed c × AllWellFormed cs

-- what the caller may rely on, at the depth that was left
abbrev pub Accepted : {K : Type 0} → ℕ → Option (Condition K) → Type 0
Accepted d none = Unit
Accepted d (some c) = IsWellFormed c × (nesting c ≤ d)

abbrev AcceptedAll : {K : Type 0} → ℕ → ℕ → Option (Conditions K) → Type 0
AcceptedAll d l none = Unit
AcceptedAll d l (some cs) = (count cs ≡ l) × AllWellFormed cs × (nesting_all cs ≤ d)

-- the array of an And or an Or
abbrev ArrayAccepted : {K : Type 0} → ℕ → Option (Conditions K) → Type 0
ArrayAccepted d none = Unit
ArrayAccepted d (some cs) =
    (0 < count cs) × (count cs ≤ max_subitems) × AllWellFormed cs × (nesting_all cs ≤ d)

ArrayAccepted-of_AcceptedAll :
    {K : Type 0} (d l : ℕ) (cs : Option (Conditions K))
    → 0 < l
    → l ≤ max_subitems
    → AcceptedAll d l cs
    → ArrayAccepted d cs
ArrayAccepted-of_AcceptedAll d l none h k a = tt
ArrayAccepted-of_AcceptedAll d l (some cs) h k a = (omega arith, omega arith, a.1, a.2)

-- the slice keeps its length
length-read_bytes : (buf : List ℕ) (r : BinReader) → length (read_bytes buf r).0 ≡ length buf
unfolding read_bytes read_full
length-read_bytes buf r = elim (Option-cases r.err) [
  | inr (e, failed) ↦ rw failed
  | inl fine ↦ rw fine (elim (Bool-cases (leb (length buf) (length r.rest))) [
    | inl enough ↦ rw enough (length-take_le (length buf) r.rest (ground arith))
    | inr short ↦
        rw (short, length-append r.rest (drop (length r.rest) buf), length-drop (length r.rest) buf)
          (ground arith)
  ])
]

-- an error takes the value away, and else it stays
nil_on_error-elim {ℓ} :
    {A : Type ℓ} (P : Option A → Type 0) (p : Option A × BinReader)
    → P none
    → P p.0
    → P (nil_on_error p).0
nil_on_error-elim P (a, r) n h = elim (Option-cases r.err) [
  | inl fine ↦ rw fine h
  | inr (e, failed) ↦ rw failed n
]

module _ {K : Type 0} (d : ℕ) where
  cons?-AcceptedAll :
      (l : ℕ) (c : Option (Condition K)) (cs : Option (Conditions K))
      → Accepted d c
      → AcceptedAll d l cs
      → AcceptedAll d (suc l) (cons? c cs)
  cons?-AcceptedAll l (some c) (some cs) h k = (omega arith, (h.0, k.1), omega arith)
  cons?-AcceptedAll l (some c) none h k = tt
  cons?-AcceptedAll l none cs h k = tt

  map?-Accepted :
      {A : Type 0} (f : A → Condition K) (P : Option A → Type 0) (p : Option A × BinReader)
      → ((a : A) → P (some a) → Accepted (suc d) (some (f a)))
      → P p.0
      → Accepted (suc d) (map? f p).0
  map?-Accepted f P (none, r) h k = tt
  map?-Accepted f P (some a, r) h k = h a k

  module _ (decode : Read (Option (Condition K)))
      (good : (r : BinReader) → Accepted d (decode r).0) where
    read_conditions-AcceptedAll :
        (l : ℕ) (r : BinReader) → AcceptedAll d l (read_conditions decode l r).0
    unfolding read_conditions
    read_conditions-AcceptedAll zero r = (refl, tt, omega arith)
    read_conditions-AcceptedAll (suc l) r =
        cons?-AcceptedAll l (decode r).0 (read_conditions decode l (decode r).1).0 (good r)
          (read_conditions-AcceptedAll l (decode r).1)

    read_array_of_conditions-Accepted :
        (r : BinReader) → ArrayAccepted d (read_array_of_conditions decode r).0
    unfolding read_array_of_conditions
    read_array_of_conditions-Accepted r =
        let l = (read_var_uint r).0 in
        let r' = (read_var_uint r).1 in
        elim (Bool-cases (l == 0)) [
          | inl e ↦ rw e tt
          | inr e ↦ rw e (elim (Bool-cases (ltb max_subitems l)) [
            | inl f ↦ rw f tt
            | inr f ↦ rw f (
                nil_on_error-elim (ArrayAccepted d) (read_conditions decode l r') tt (
                  ArrayAccepted-of_AcceptedAll d l (read_conditions decode l r').0 (ground arith)
                    (ground arith) (read_conditions-AcceptedAll l r')))
          ])
        ]

    decode_specific-Accepted :
        (key_decode : Read K) (t : ℕ) (r : BinReader)
        → Accepted (suc d) (decode_specific key_decode decode t r).0
    unfolding decode_specific
    decode_specific-Accepted key_decode t r =
        if-elim Fine (t == 0x00) (tt, omega arith)
          (if-elim Fine (t == 0x01)
            (map?-Accepted not_cond (Accepted d) (decode r) under_not (good r))
            (if-elim Fine (t == 0x02)
              (map?-Accepted and_cond (ArrayAccepted d) array under_and array_good)
              (if-elim Fine (t == 0x03)
                (map?-Accepted or_cond (ArrayAccepted d) array under_or array_good)
                (if-elim Fine (t == 0x18) (hash_good, omega arith)
                  (if-elim Fine (t == 0x19) (tt, omega arith)
                    (if-elim Fine (t == 0x20) (tt, omega arith)
                      (if-elim Fine (t == 0x28) (hash_good, omega arith)
                        (if-elim Fine (t == 0x29) (tt, omega arith) tt))))))))
      where
        Fine : Option (Condition K) × BinReader → Type 0
        Fine p = Accepted (suc d) p.0

        array : Option (Conditions K) × BinReader
        array = read_array_of_conditions decode r

        array_good : ArrayAccepted d array.0
        array_good = read_array_of_conditions-Accepted r

        hash_good : length (read_bytes (replicate 20 0) r).0 ≡ 20
        hash_good = length-read_bytes (replicate 20 0) r

        under_not : (c : Condition K) → Accepted d (some c) → Accepted (suc d) (some (not_cond c))
        under_not c h = (h.0, omega arith)

        under_and :
            (cs : Conditions K) → ArrayAccepted d (some cs) → Accepted (suc d) (some (and_cond cs))
        under_and cs h = ((h.0, h.1, h.2), omega arith)

        under_or :
            (cs : Conditions K) → ArrayAccepted d (some cs) → Accepted (suc d) (some (or_cond cs))
        under_or cs h = ((h.0, h.1, h.2), omega arith)

decode_binary_condition-Accepted :
    {K : Type 0} (key_decode : Read K) (d : ℕ) (r : BinReader)
    → Accepted d (decode_binary_condition key_decode d r).0
unfolding decode_binary_condition
decode_binary_condition-Accepted key_decode zero r = tt
decode_binary_condition-Accepted {K} key_decode (suc d) r = elim (Option-cases (read_b r).1.err) [
  | inr (e, failed) ↦ rw (failed, Accepted) tt
  | inl fine ↦
      rw (fine, Accepted)
        (nil_on_error-elim (Accepted (suc d))
          (decode_specific key_decode (decode_binary_condition key_decode d) (read_b r).0
            (read_b r).1)
          tt
          (decode_specific-Accepted d (decode_binary_condition key_decode d)
            (decode_binary_condition-Accepted key_decode d) key_decode (read_b r).0 (read_b r).1))
]

-- Whatever the bytes, a condition that DecodeBinaryCondition returns has at most two levels, each
-- of its arrays has 1 to 16 conditions, and each of its hashes twenty bytes.
pub decode_binary-IsWellFormed :
    {K : Type 0} (key_decode : Read K) (r : BinReader) (c : Condition K)
    → (decode_binary key_decode r).0 ≡ some c
    → IsWellFormed c × (nesting c ≤ max_condition_nesting)
decode_binary-IsWellFormed key_decode r c h =
    subst (Accepted max_condition_nesting) h
      (decode_binary_condition-Accepted key_decode max_condition_nesting r)

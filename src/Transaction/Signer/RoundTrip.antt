-- ===== src/Transaction/Signer/RoundTrip.antt =====
-- The binary form of a signer: the signers that are read back, and those that are refused.
use koala_tblockchain_golang.Shared.{
  ℕ, ◌≤◌, ◌<◌, ◌≡◌, refl, sym, ◌∙◌, ap, List, [], ◌∷◌, ◌++◌, append_assoc, append-nil, some, arith,
  length, replicate, Bool, true, false, not, ◌&&◌, ◌||◌, ◌==◌, if◌then◌else◌, All, holds_below,
  holds_below_lem,
}
use koala_tblockchain_golang.Io.Reader.{Read, new_from_buf, errors_new}
use koala_tblockchain_golang.Io.Writer.{Write, put_var_uint, write_b, write_bytes}
use koala_tblockchain_golang.Io.RoundTrip.{
  IsCodec, buf_writer, concat_bytes, read_b-cons, read_bytes-append, read_array-write_array,
  write_array-buf_writer,
}
use koala_tblockchain_golang.Transaction.Condition.{max_subitems}
use koala_tblockchain_golang.Transaction.Signer.{
  Signer, has_flag, rules_scope, global, custom_contracts, custom_groups, unknown_scopes,
  encode_signer, decode_signer, decode_lists, decode_uint160, write_if, read_if,
}

-- a table over all bytes
abbrev rules_are_unknown : ℕ → Bool
rules_are_unknown s = not (has_flag s rules_scope) || has_flag s unknown_scopes

rules_unknown_table : holds_below rules_are_unknown 256 ≡ true
unfolding holds_below
rules_unknown_table = refl

rules_unknown : (s : ℕ) → s < 256 → has_flag s rules_scope ≡ true → has_flag s unknown_scopes ≡ true
rules_unknown s h e = ground (arith, holds_below_lem rules_are_unknown 256 rules_unknown_table s h)

-- DecodeBinary refuses every signer whose scopes have the Rules flag, with the error of an unknown
-- scope, whatever else the scopes have and whatever follows.
pub decode_signer-rules :
    {K : Type 0} (key_decode : Read K) (account : List ℕ) (scopes : ℕ) (s : List ℕ)
    → length account ≡ 20
    → scopes < 256
    → has_flag scopes rules_scope ≡ true
    → (decode_signer key_decode (new_from_buf (account ++ scopes ∷ s))).1.err
      ≡ some (errors_new "unknown witness scope")
unfolding decode_signer decode_uint160
decode_signer-rules key_decode account scopes s h b e = rw (
  read_bytes-append (replicate 20 0) account (scopes ∷ s) (sym h),
  read_b-cons scopes s,
  rules_unknown scopes b e,
)

abbrev pub IsHash : List ℕ → Type 0
IsHash h = length h ≡ 20

uint160-IsCodec : IsCodec IsHash write_bytes decode_uint160 (λ h. h)
unfolding write_bytes decode_uint160
uint160-IsCodec = record {
  encodes = λ x o. refl;
  decodes = λ x t h. read_bytes-append (replicate 20 0) x t (sym h);
}

-- A signer that does not use rules: the scopes are known, Global stands alone, and a list is there
-- only under its flag, with at most sixteen entries.
pub record IsPlain {K : Type 0} (c : Signer K) : Type 0 where
  pub account_hash : IsHash c.account
  pub known : has_flag c.scopes unknown_scopes ≡ false
  pub global_alone : (has_flag c.scopes global && not (c.scopes == global)) ≡ false
  pub contracts_hashes : All IsHash c.allowed_contracts
  pub contracts_few : length c.allowed_contracts ≤ max_subitems
  pub contracts_flag : has_flag c.scopes custom_contracts ≡ false → c.allowed_contracts ≡ []
  pub groups_few : length c.allowed_groups ≤ max_subitems
  pub groups_flag : has_flag c.scopes custom_groups ≡ false → c.allowed_groups ≡ []
  pub rules_flag : has_flag c.scopes rules_scope ≡ false
  pub no_rules : c.rules ≡ []

-- the bytes of a list that stands under a flag
abbrev flagged {ℓ} : {A : Type ℓ} → (A → List ℕ) → Bool → List A → List ℕ
flagged bytes flag xs = if flag then put_var_uint (length xs) ++ concat_bytes bytes xs else []

module _ {A : Type 0} {Valid : A → Type 0} {enc : A → Write} {dec : Read A} {bytes : A → List ℕ}
    (codec : IsCodec Valid enc dec bytes) where
  write_if-buf_writer :
      (flag : Bool) (xs : List A) (o : List ℕ)
      → write_if flag enc xs (buf_writer o) ≡ buf_writer (o ++ flagged bytes flag xs)
  write_if-buf_writer true xs o = write_array-buf_writer codec xs o
  write_if-buf_writer false xs o = rw append-nil

  read_if-flagged :
      (flag : Bool) (xs : List A) (t : List ℕ)
      → All Valid xs
      → length xs ≤ max_subitems
      → (flag ≡ false → xs ≡ [])
      → read_if flag dec (new_from_buf (flagged bytes flag xs ++ t)) ≡ (xs, new_from_buf t)
  read_if-flagged true xs t valid few off =
      rw (write_array-buf_writer codec xs []) at
        (read_array-write_array codec xs [] t (some max_subitems) valid few (omega arith))
  read_if-flagged false xs t valid few off = rw (off refl)

All-Unit : {A : Type 0} (xs : List A) → All (λ (x : A). Unit {0}) xs
All-Unit [] = tt
All-Unit (x ∷ xs) = (tt, All-Unit xs)

module _ {K : Type 0} {key_encode : K → Write} {key_decode : Read K} {key_bytes : K → List ℕ}
    (keys : IsCodec (λ (k : K). Unit {0}) key_encode key_decode key_bytes) where
  abbrev contracts_part : Signer K → List ℕ
  contracts_part c = flagged (λ h. h) (has_flag c.scopes custom_contracts) c.allowed_contracts

  abbrev groups_part : Signer K → List ℕ
  groups_part c = flagged key_bytes (has_flag c.scopes custom_groups) c.allowed_groups

  header :
      (a : List ℕ) (s : ℕ) → write_b s (write_bytes a (buf_writer [])) ≡ buf_writer (a ++ s ∷ [])
  unfolding write_b write_bytes
  header a s = refl

  encode_signer-buf_writer :
      (c : Signer K)
      → has_flag c.scopes rules_scope ≡ false
      → encode_signer key_encode c (buf_writer [])
        ≡ buf_writer (((c.account ++ c.scopes ∷ []) ++ contracts_part c) ++ groups_part c)
  unfolding encode_signer
  encode_signer-buf_writer c no_rules = rw no_rules (
      ap
        (λ w.
          write_if (has_flag c.scopes custom_groups) key_encode c.allowed_groups
            (write_if (has_flag c.scopes custom_contracts) write_bytes c.allowed_contracts w))
        (header c.account c.scopes)
      ∙ ap (write_if (has_flag c.scopes custom_groups) key_encode c.allowed_groups) (
          write_if-buf_writer uint160-IsCodec (has_flag c.scopes custom_contracts)
            c.allowed_contracts (c.account ++ c.scopes ∷ []))
      ∙ write_if-buf_writer keys (has_flag c.scopes custom_groups) c.allowed_groups
          ((c.account ++ c.scopes ∷ []) ++ contracts_part c))

  decode_lists-parts :
      (c : Signer K) (t : List ℕ)
      → IsPlain c
      → decode_lists key_decode c.account c.scopes
          (new_from_buf (contracts_part c ++ (groups_part c ++ t)))
        ≡ (c, new_from_buf t)
  unfolding decode_lists
  decode_lists-parts c t p =
      rw
        (
          read_if-flagged uint160-IsCodec (has_flag c.scopes custom_contracts) c.allowed_contracts
              (groups_part c ++ t) p.contracts_hashes p.contracts_few p.contracts_flag,
          read_if-flagged keys (has_flag c.scopes custom_groups) c.allowed_groups t
              (All-Unit c.allowed_groups) p.groups_few p.groups_flag,
          p.rules_flag,
        )
        (ap (λ l. (record c { rules = l }, new_from_buf t)) (sym p.no_rules))

  regroup :
      (c : Signer K) (t : List ℕ)
      → (((c.account ++ c.scopes ∷ []) ++ contracts_part c) ++ groups_part c) ++ t
        ≡ c.account ++ c.scopes ∷ (contracts_part c ++ (groups_part c ++ t))
  regroup c t = simp append_assoc

  -- A signer without rules, whose scopes are known, whose lists stand under their flags and have
  -- at most sixteen entries, and whose hashes have twenty bytes, is read back by DecodeBinary from
  -- what EncodeBinary writes, provided that public keys are.
  pub decode_signer-encode_signer :
      (c : Signer K) (t : List ℕ)
      → IsPlain c
      → decode_signer key_decode
          (new_from_buf ((encode_signer key_encode c (buf_writer [])).out ++ t))
        ≡ (c, new_from_buf t)
  unfolding decode_signer decode_uint160
  decode_signer-encode_signer c t p =
      rw
        (
          encode_signer-buf_writer c p.rules_flag,
          regroup c t,
          read_bytes-append (replicate 20 0) c.account
              (c.scopes ∷ (contracts_part c ++ (groups_part c ++ t))) (sym p.account_hash),
          read_b-cons c.scopes (contracts_part c ++ (groups_part c ++ t)),
          p.known,
          p.global_alone,
        )
        (decode_lists-parts c t p)

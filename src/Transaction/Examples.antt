-- ===== src/Transaction/Examples.antt =====
-- The theorems on conditions and signers at concrete inputs. A public key is a Boolean here.
use koala_tblockchain_golang.Shared.{
  ℕ, ◌≤◌, ◌≡◌, ◌⊎◌, refl, Bool, true, false, List, [], ◌∷◌, ◌++◌, some, arith, replicate,
  if◌then◌else◌,
}
use koala_tblockchain_golang.Io.Reader.{
  read_b, read_bytes, read_full, read_bool, new_from_buf, errors_new,
}
use koala_tblockchain_golang.Io.Writer.{write_bool, write_b, write_bytes}
use koala_tblockchain_golang.Io.RoundTrip.{IsCodec, buf_writer, read_bool-cons}
use koala_tblockchain_golang.Transaction.Condition.{
  Condition, boolean, not_cond, and_cond, or_cond, group, Conditions, nil, cons, ok, fail,
  MatchContext, match_cond, max_condition_nesting,
}
use koala_tblockchain_golang.Transaction.Condition.Binary.{
  encode_binary, decode_binary, decode_binary_condition, decode_specific,
}
use koala_tblockchain_golang.Transaction.Condition.Bounds.{
  IsWellFormed, nesting, decode_binary-IsWellFormed,
}
use koala_tblockchain_golang.Transaction.Condition.RoundTrip.{decode_binary-encode_binary}
use koala_tblockchain_golang.Transaction.Condition.Matching.{
  negated, EveryMatches, NoneMatches, FirstOther, de_morgan, and_cond_outcome, or_cond_outcome,
}
use koala_tblockchain_golang.Transaction.Signer.{Signer, encode_signer, decode_signer}
use koala_tblockchain_golang.Transaction.Signer.RoundTrip.{
  IsPlain, decode_signer-rules, decode_signer-encode_signer,
}

abbrev one : Condition Bool
one = not_cond (boolean true)

bool-IsCodec :
    IsCodec (λ (b : Bool). Unit {0}) write_bool read_bool (λ b. (if b then 1 else 0) ∷ [])
unfolding write_bool write_b write_bytes
bool-IsCodec = record { encodes = λ x o. refl; decodes = λ x t h. read_bool-cons x t }

abbrev two : Conditions Bool
two = cons (group true) (cons (boolean false) nil)

abbrev some_hash : List ℕ
some_hash = replicate 20 7

-- calls by a script without a group, into one whose groups cannot be read
abbrev some_context : MatchContext Bool
some_context = record {
  calling_script_hash = some_hash;
  current_script_hash = some_hash;
  entry_script_hash = some_hash;
  calling_script_has_group = λ k. ok false;
  current_script_has_group = λ k. fail (errors_new "missing ReadStates call flag");
}

decode_binary-encode_binary_example :
    decode_binary read_bool
      (new_from_buf ((encode_binary write_bool (and_cond two) (buf_writer [])).out ++ 9 ∷ []))
    ≡ (some (and_cond two), new_from_buf (9 ∷ []))
decode_binary-encode_binary_example =
    decode_binary-encode_binary bool-IsCodec (and_cond two) (9 ∷ [])
      (omega arith, omega arith, (tt, (tt, tt))) (omega arith)

decoded :
    (decode_binary read_bool (new_from_buf (1 ∷ 0 ∷ 1 ∷ []))).0 ≡ some (not_cond (boolean true))
unfolding decode_binary_condition decode_specific read_b read_bool read_bytes read_full
decoded = refl

decode_binary-IsWellFormed_example : IsWellFormed one × (nesting one ≤ max_condition_nesting)
decode_binary-IsWellFormed_example =
    decode_binary-IsWellFormed read_bool (new_from_buf (1 ∷ 0 ∷ 1 ∷ [])) (not_cond (boolean true))
      decoded

de_morgan_example :
    (match_cond some_context (not_cond (and_cond two))
      ≡ match_cond some_context (or_cond (negated two)))
    × (match_cond some_context (not_cond (or_cond two))
        ≡ match_cond some_context (and_cond (negated two)))
de_morgan_example = de_morgan some_context two

and_cond_outcome_example :
    (EveryMatches some_context two × (match_cond some_context (and_cond two) ≡ ok true))
    ⊎ FirstOther some_context (ok true) (match_cond some_context (and_cond two)) two
and_cond_outcome_example = and_cond_outcome some_context two

or_cond_outcome_example :
    (NoneMatches some_context two × (match_cond some_context (or_cond two) ≡ ok false))
    ⊎ FirstOther some_context (ok false) (match_cond some_context (or_cond two)) two
or_cond_outcome_example = or_cond_outcome some_context two

decode_signer-rules_example :
    (decode_signer read_bool (new_from_buf (some_hash ++ 0x41 ∷ []))).1.err
    ≡ some (errors_new "unknown witness scope")
decode_signer-rules_example =
    decode_signer-rules read_bool some_hash 0x41 [] refl (omega arith) refl

-- a signer with one custom contract and one custom group
abbrev some_signer : Signer Bool
some_signer = record {
  account = some_hash;
  scopes = 0x30;
  allowed_contracts = some_hash ∷ [];
  allowed_groups = true ∷ [];
  rules = [];
}

some_signer-IsPlain : IsPlain some_signer
some_signer-IsPlain = record {
  account_hash = refl;
  known = refl;
  global_alone = refl;
  contracts_hashes = (refl, tt);
  contracts_few = omega arith;
  contracts_flag = λ h. cc;
  groups_few = omega arith;
  groups_flag = λ h. cc;
  rules_flag = refl;
  no_rules = refl;
}

decode_signer-encode_signer_example :
    decode_signer read_bool
      (new_from_buf ((encode_signer write_bool some_signer (buf_writer [])).out ++ 9 ∷ []))
    ≡ (some_signer, new_from_buf (9 ∷ []))
decode_signer-encode_signer_example =
    decode_signer-encode_signer bool-IsCodec some_signer (9 ∷ []) some_signer-IsPlain

-- ===== src/Runtime/Examples.antt =====
-- The theorems on witnesses at concrete inputs. A public key is a number here.
use koala_tblockchain_golang.Shared.{
  ℕ, Bool, ◌≡◌, ◌↔◌, refl, List, [], ◌∷◌, none, some, true, ◌==◌, replicate,
}
use koala_tblockchain_golang.Shared.Bytes.{equals}
use koala_tblockchain_golang.Transaction.Condition.{called_by_entry, match_cond}
use koala_tblockchain_golang.Runtime.Witness.{
  Invocation, answers, check_hashed_witness, check_scope, check_signers, check_signer, match_rules,
  match_rule, scope_context, any_equal,
}
use koala_tblockchain_golang.Runtime.Witness.Grants.{IsWitnessed, check_hashed_witness_sound}
use koala_tblockchain_golang.Runtime.Witness.Readable.{check_hashed_witness_iff}

abbrev account : List ℕ
account = replicate 20 9

abbrev keys_equal : ℕ → ℕ → Bool
keys_equal a b = a == b

-- a call from the entry script, with a signer whose rule allows that
abbrev invocation : Invocation ℕ
invocation = record {
  calling = replicate 20 5;
  current = replicate 20 6;
  entry = replicate 20 5;
  read_states = true;
  groups_of = λ h. none;
  signers =
      record {
        account = account;
        scopes = 0x40;
        allowed_contracts = [];
        allowed_groups = [];
        rules = record { action = 1; condition = some called_by_entry } ∷ [];
      }
      ∷ [];
}

witnessed : check_hashed_witness keys_equal invocation account ≡ answers true
unfolding check_hashed_witness check_scope check_signers check_signer match_rules match_rule
    scope_context any_equal equals match_cond
witnessed = refl

check_hashed_witness_sound_example : IsWitnessed keys_equal invocation account
check_hashed_witness_sound_example =
    check_hashed_witness_sound keys_equal invocation account witnessed

check_hashed_witness_iff_example :
    (check_hashed_witness keys_equal invocation account ≡ answers true)
    ↔ IsWitnessed keys_equal invocation account
check_hashed_witness_iff_example = check_hashed_witness_iff keys_equal invocation refl account

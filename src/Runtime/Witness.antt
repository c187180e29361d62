-- ===== src/Runtime/Witness.antt =====
-- pkg/core/interop/runtime/witness.go: whether the script that runs may rely on the signature of an
-- account, by the scopes of the transaction's signers. The state of the virtual machine and the
-- contracts in the storage are what the functions read of them; the equality of public keys, of
-- pkg/crypto/keys, is a parameter.
pub mod Membership
pub mod Grants
pub mod Readable
use koala_tblockchain_golang.Shared.{
  ℕ, List, [], ◌∷◌, Option, none, some, Bool, true, false, not, ◌&&◌, ◌||◌, ◌==◌, if◌then◌else◌,
  replicate, is_empty,
}
use koala_tblockchain_golang.Io.Reader.{Err, errors_new}
use koala_tblockchain_golang.Shared.Bytes.{equals, equals_sound, equals_complete}
use koala_tblockchain_golang.Transaction.Condition.{
  Condition, Result, ok, fail, MatchContext, match_cond,
}
use koala_tblockchain_golang.Transaction.Rule.{WitnessRule, witness_allow}
use koala_tblockchain_golang.Transaction.Signer.{
  Signer, has_flag, global, called_by_entry, custom_contracts, custom_groups, rules_scope,
}

-- what witness.go reads of interop.Context and its VM; `groups_of` has the keys of the groups in the
-- manifest of a contract, if there is one with that hash
pub record Invocation (K : Type 0) : Type 0 where
  pub calling : List ℕ
  pub current : List ℕ
  pub entry : List ℕ
  pub read_states : Bool
  pub groups_of : List ℕ → Option (List K)
  pub signers : List (Signer K)

-- util.Uint160{}
abbrev pub zero_hash : List ℕ
zero_hash = replicate 20 0

-- `(manifest.Groups, error)`
pub data Groups (K : Type 0) : Type 0 where
  unreadable : Err → Groups K
  found : List K → Groups K

abbrev or_nil : {K : Type 0} → Option (List K) → List K
or_nil none = []
or_nil (some gs) = gs

unfoldable pub get_contract_groups : {K : Type 0} → Invocation K → List ℕ → Groups K
get_contract_groups v h =
    if v.read_states
    then found (or_nil (v.groups_of h))
    else unreadable (errors_new "missing ReadStates call flag")

-- The outcome of a check: an answer, an error, or a panic, which the virtual machine recovers from.
pub data Verdict : Type 0 where
  answers : Bool → Verdict
  fails : Err → Verdict
  panics : Verdict

abbrev pub verdict_of : Result → Verdict
verdict_of (ok answer) = answers answer
verdict_of (fail e) = fails e

-- `if decided { return result }` before the rest of a function
abbrev pub decide : Option Verdict → Verdict → Verdict
decide none rest = rest
decide (some result) rest = result

-- one round of the loop over the rules, of which `rest` is the remainder
abbrev pub rule_outcome : ℕ → Verdict → Option Verdict → Option Verdict
rule_outcome action panics rest = some panics
rule_outcome action (fails e) rest = some (fails e)
rule_outcome action (answers true) rest = some (answers (action == witness_allow))
rule_outcome action (answers false) rest = rest

-- the loop over AllowedContracts
unfoldable pub any_equal : List ℕ → List (List ℕ) → Bool
any_equal h [] = false
any_equal h (allowed ∷ rest) = equals allowed h || any_equal h rest

module _ {K : Type 0} (key_equal : K → K → Bool) where
  -- Groups.Contains of pkg/smartcontract/manifest/group.go
  unfoldable pub contains : List K → K → Bool
  contains [] k = false
  contains (g ∷ gs) k = key_equal k g || contains gs k

  -- the loop over AllowedGroups
  unfoldable pub any_contained : List K → List K → Bool
  any_contained groups [] = false
  any_contained groups (k ∷ ks) = contains groups k || any_contained groups ks

  abbrev in_groups : Groups K → K → Result
  in_groups (unreadable e) k = fail e
  in_groups (found gs) k = ok (contains gs k)

  unfoldable pub check_script_groups : Invocation K → List ℕ → K → Result
  check_script_groups v h k = in_groups (get_contract_groups v h) k

  -- scopeContext
  unfoldable pub scope_context : Invocation K → MatchContext K
  scope_context v = record {
    calling_script_hash = v.calling;
    current_script_hash = v.current;
    entry_script_hash = v.entry;
    calling_script_has_group = check_script_groups v v.calling;
    current_script_has_group = check_script_groups v v.current;
  }

  -- Match of the rule's condition; that of a nil condition panics.
  unfoldable pub match_rule : Invocation K → WitnessRule K → Verdict
  match_rule v rule = elim rule.condition [
    | none ↦ panics
    | some c ↦ verdict_of (match_cond (scope_context v) c)
  ]

  unfoldable pub match_rules : Invocation K → List (WitnessRule K) → Option Verdict
  match_rules v [] = none
  match_rules v (rule ∷ rules) = rule_outcome rule.action (match_rule v rule) (match_rules v rules)

  abbrev pub groups_outcome : Groups K → List K → Option Verdict
  groups_outcome (unreadable e) allowed = some (fails e)
  groups_outcome (found gs) allowed = if any_contained gs allowed then some (answers true) else none

  -- the branches of checkScope on CalledByEntry, CustomContracts, CustomGroups and Rules
  abbrev pub by_entry : Invocation K → Signer K → Bool
  by_entry v c =
      has_flag c.scopes called_by_entry && (equals v.calling zero_hash || equals v.calling v.entry)

  abbrev pub by_contracts : Invocation K → Signer K → Bool
  by_contracts v c = has_flag c.scopes custom_contracts && any_equal v.current c.allowed_contracts

  abbrev pub by_groups : Invocation K → Signer K → Option Verdict
  by_groups v c =
      if has_flag c.scopes custom_groups
      then groups_outcome (get_contract_groups v v.current) c.allowed_groups
      else none

  abbrev pub by_rules : Invocation K → Signer K → Option Verdict
  by_rules v c = if has_flag c.scopes rules_scope then match_rules v c.rules else none

  -- the body of the loop of checkScope, for the signer with the account
  unfoldable pub check_signer : Invocation K → Signer K → Verdict
  check_signer v c =
      if c.scopes == global
      then answers true
      else if by_entry v c
      then answers true
      else if by_contracts v c
      then answers true
      else decide (by_groups v c) (decide (by_rules v c) (answers false))

  unfoldable pub check_signers : Invocation K → List ℕ → List (Signer K) → Verdict
  check_signers v hash [] = answers false
  check_signers v hash (c ∷ cs) =
      let rest = check_signers v hash cs in if equals c.account hash then check_signer v c else rest

  unfoldable pub check_scope : Invocation K → List ℕ → Verdict
  check_scope v hash =
      if is_empty v.signers
      then fails (errors_new "no valid signers")
      else check_signers v hash v.signers

  unfoldable pub check_hashed_witness : Invocation K → List ℕ → Verdict
  check_hashed_witness v hash =
      if not (equals v.calling zero_hash) && equals hash v.calling
      then answers true
      else check_scope v hash

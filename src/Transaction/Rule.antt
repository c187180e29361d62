-- ===== src/Transaction/Rule.antt =====
-- pkg/core/transaction/witness_rule.go: an action and the condition under which it is taken.
use koala_tblockchain_golang.Shared.{ℕ, Option, none, some, false, not, ◌&&◌, ◌==◌, if◌then◌else◌}
use koala_tblockchain_golang.Io.Reader.{Read, errors_new, set_err, read_b}
use koala_tblockchain_golang.Io.Writer.{Write, write_b}
use koala_tblockchain_golang.Transaction.Condition.{Condition}
use koala_tblockchain_golang.Transaction.Condition.Binary.{encode_binary, decode_binary}

-- WitnessDeny and WitnessAllow. A WitnessAction is a byte.
abbrev pub witness_deny : ℕ
witness_deny = 0

abbrev pub witness_allow : ℕ
witness_allow = 1

-- A rule that was not read has a nil condition, `none`.
pub record WitnessRule (K : Type 0) : Type 0 where
  pub action : ℕ
  pub condition : Option (Condition K)

-- EncodeBinary. `none` is a call of a method of nil, which no rule that was read makes: nothing
-- is written for it here.
unfoldable pub encode_rule : {K : Type 0} → (K → Write) → WitnessRule K → Write
encode_rule key_encode rule bw = elim rule.condition [
  | none ↦ write_b rule.action bw
  | some c ↦ encode_binary key_encode c (write_b rule.action bw)
]

-- DecodeBinary into a new rule
unfoldable pub decode_rule : {K : Type 0} → Read K → Read (WitnessRule K)
decode_rule key_decode br =
    let (action, br') = read_b br in
    let (condition, br'') = decode_binary key_decode br' in
    let unknown = not (action == witness_deny) && not (action == witness_allow) in
    if (elim br'.err [ none ↦ unknown | some e ↦ false ])
    then (
      record { action = action; condition = none },
      set_err br' (errors_new "unknown witness rule action"),
    )
    else (record { action = action; condition = condition }, br'')

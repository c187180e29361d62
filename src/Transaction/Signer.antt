-- ===== src/Transaction/Signer.antt =====
-- pkg/core/transaction/signer.go and the constants of witness_scope.go. A scope is a byte of flags.
pub mod RoundTrip
use koala_tblockchain_golang.Shared.{
  ℕ, ◌-◌, List, [], Option, some, Bool, not, ◌&&◌, ◌==◌, if◌then◌else◌, bit_and, bit_or, replicate,
}
use koala_tblockchain_golang.Io.Reader.{
  Read, BinReader, errors_new, set_err, read_b, read_bytes, read_array,
}
use koala_tblockchain_golang.Io.Writer.{Write, BinWriter, write_b, write_bytes, write_array}
use koala_tblockchain_golang.Transaction.Condition.{max_subitems}
use koala_tblockchain_golang.Transaction.Rule.{WitnessRule, encode_rule, decode_rule}

abbrev pub none_scope : ℕ
none_scope = 0

abbrev pub called_by_entry : ℕ
called_by_entry = 0x01

abbrev pub custom_contracts : ℕ
custom_contracts = 0x10

abbrev pub custom_groups : ℕ
custom_groups = 0x20

abbrev pub rules_scope : ℕ
rules_scope = 0x40

abbrev pub global : ℕ
global = 0x80

-- scopes&flag != 0
abbrev pub has_flag : ℕ → ℕ → Bool
has_flag scopes flag = not (bit_and scopes flag == 0)

pub record Signer (K : Type 0) : Type 0 where
  pub account : List ℕ
  pub scopes : ℕ
  pub allowed_contracts : List (List ℕ)
  pub allowed_groups : List K
  pub rules : List (WitnessRule K)

-- Uint160.DecodeBinary of pkg/util
unfoldable pub decode_uint160 : Read (List ℕ)
decode_uint160 = read_bytes (replicate 20 0)

-- ^(Global|CalledByEntry|CustomContracts|CustomGroups|None), of a byte
abbrev pub unknown_scopes : ℕ
unknown_scopes =
    255
    - bit_or (bit_or (bit_or (bit_or global called_by_entry) custom_contracts) custom_groups)
        none_scope

-- `if c.Scopes&flag != 0 { br.ReadArray(&old, maxSubitems) }`
abbrev pub read_if {ℓ} : {A : Type ℓ} → Bool → Read A → BinReader → List A × BinReader
read_if flag decode br =
    let filled = read_array decode (some max_subitems) [] br in if flag then filled else ([], br)

-- `if c.Scopes&flag != 0 { bw.WriteArray(arr) }`
abbrev pub write_if {ℓ} : {A : Type ℓ} → Bool → (A → Write) → List A → Write
write_if flag encode arr bw = if flag then write_array encode arr bw else bw

module _ {K : Type 0} where
  unfoldable pub encode_signer : (K → Write) → Signer K → Write
  encode_signer key_encode c bw =
      write_if (has_flag c.scopes rules_scope) (encode_rule key_encode) c.rules (
        write_if (has_flag c.scopes custom_groups) key_encode c.allowed_groups (
          write_if (has_flag c.scopes custom_contracts) write_bytes c.allowed_contracts
            (write_b c.scopes (write_bytes c.account bw))))

  -- the part of DecodeBinary behind the tests of the scopes
  unfoldable pub decode_lists : Read K → List ℕ → ℕ → Read (Signer K)
  decode_lists key_decode account scopes br =
      let (contracts, br1) = read_if (has_flag scopes custom_contracts) decode_uint160 br in
      let (groups, br2) = read_if (has_flag scopes custom_groups) key_decode br1 in
      let (rules, br3) = read_if (has_flag scopes rules_scope) (decode_rule key_decode) br2 in
      (
        record {
          account = account;
          scopes = scopes;
          allowed_contracts = contracts;
          allowed_groups = groups;
          rules = rules;
        },
        br3,
      )

  -- DecodeBinary into a new signer
  unfoldable pub decode_signer : Read K → Read (Signer K)
  decode_signer key_decode br =
      let (account, br') = decode_uint160 br in
      let (scopes, br'') = read_b br' in
      let bare : Signer K = record {
        account = account;
        scopes = scopes;
        allowed_contracts = [];
        allowed_groups = [];
        rules = [];
      } in
      let lists = decode_lists key_decode account scopes br'' in
      if has_flag scopes unknown_scopes
      then (bare, set_err br'' (errors_new "unknown witness scope"))
      else if has_flag scopes global && not (scopes == global)
      then (bare, set_err br'' (errors_new "global scope can not be combined with other scopes"))
      else lists

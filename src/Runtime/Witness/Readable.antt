-- ===== src/Runtime/Witness/Readable.antt =====
-- With the flag to read states, all that the scopes of a signer cover is granted.
use koala_tblockchain_golang.Shared.{
  ℕ, ◌≡◌, ◌⊎◌, ◌↔◌, inl, inr, refl, List, [], ◌∷◌, none, some, Bool, true, false, arith, Bool-cases,
  is_empty,
}
use koala_tblockchain_golang.Shared.Bytes.{equals, equals_sound, equals_complete}
use koala_tblockchain_golang.Transaction.Rule.{WitnessRule}
use koala_tblockchain_golang.Transaction.Signer.{Signer}
use koala_tblockchain_golang.Runtime.Witness.{
  answers, Invocation, zero_hash, or_nil, get_contract_groups, match_rules, by_groups, check_signer,
  check_signers, check_scope, check_hashed_witness,
}
use koala_tblockchain_golang.Runtime.Witness.Membership.{any_equal_complete, any_contained_complete}
use koala_tblockchain_golang.Runtime.Witness.Grants.{
  FirstAllows, Grants, everywhere, entry_called, contract_allowed, group_allowed, rule_allows,
  FirstSigner, IsWitnessed, check_hashed_witness_sound,
}

module _ {K : Type 0} (key_equal : K → K → Bool) where
  match_rules_complete :
      (v : Invocation K) (rules : List (WitnessRule K))
      → FirstAllows key_equal v rules
      → match_rules key_equal v rules ≡ some (answers true)
  unfolding match_rules
  match_rules_complete v [] a = absurd a
  match_rules_complete v (rule ∷ rules) (inl (matches, allow)) = rw (matches, allow) refl
  match_rules_complete v (rule ∷ rules) (inr (differs, a)) =
      rw differs (match_rules_complete v rules a)

  module _ (v : Invocation K) (readable : v.read_states ≡ true) where
    by_groups_outcome :
        (c : Signer K)
        → (by_groups key_equal v c ≡ none) ⊎ (by_groups key_equal v c ≡ some (answers true))
    unfolding get_contract_groups
    by_groups_outcome c = rw readable (ground arith)

    check_signer_complete :
        (c : Signer K) → Grants key_equal v c → check_signer key_equal v c ≡ answers true
    unfolding check_signer get_contract_groups
    check_signer_complete c (everywhere e) = rw e refl
    check_signer_complete c (entry_called on (inl e)) =
        rw (on, equals_complete v.calling zero_hash e) (ground arith)
    check_signer_complete c (entry_called on (inr e)) =
        rw (on, equals_complete v.calling v.entry e) (ground arith)
    check_signer_complete c (contract_allowed on a) =
        rw (on, any_equal_complete v.current c.allowed_contracts a) (ground arith)
    check_signer_complete c (group_allowed on readable' a) =
        rw
          (
            on,
            readable,
            any_contained_complete key_equal (or_nil (v.groups_of v.current)) c.allowed_groups a,
          )
          (ground arith)
    check_signer_complete c (rule_allows on a) = elim (by_groups_outcome c) [
      | inl pass ↦ rw (pass, on, match_rules_complete v c.rules a) (ground arith)
      | inr pass ↦ rw pass (ground arith)
    ]

    check_signers_complete :
        (hash : List ℕ) (c : Signer K) (cs : List (Signer K))
        → FirstSigner key_equal hash c cs
        → Grants key_equal v c
        → check_signers key_equal v hash cs ≡ answers true
    unfolding check_signers
    check_signers_complete hash c [] first grants = absurd first
    check_signers_complete hash c (x ∷ xs) (inl (same, account)) grants =
        rw (equals_complete x.account hash account, same) (check_signer_complete c grants)
    check_signers_complete hash c (x ∷ xs) (inr (other, first)) grants =
        elim (Bool-cases (equals x.account hash)) [
          | inl same ↦ absurd (other (equals_sound x.account hash same))
          | inr differs ↦ rw differs (check_signers_complete hash c xs first grants)
        ]

    not_empty :
        (hash : List ℕ) (c : Signer K) (cs : List (Signer K))
        → FirstSigner key_equal hash c cs
        → is_empty cs ≡ false
    not_empty hash c [] first = absurd first
    not_empty hash c (x ∷ xs) first = refl

    -- When the script may read states, CheckHashedWitness is true of all that the scopes grant, and
    -- of nothing else.
    pub check_hashed_witness_iff :
        (hash : List ℕ)
        → (check_hashed_witness key_equal v hash ≡ answers true) ↔ IsWitnessed key_equal v hash
    unfolding check_hashed_witness check_scope
    check_hashed_witness_iff hash = (
      check_hashed_witness_sound key_equal v hash,
      λ w. elim w [
        | inl (calls, same) ↦ elim (Bool-cases (equals v.calling zero_hash)) [
          | inl z ↦ absurd (calls (equals_sound v.calling zero_hash z))
          | inr z ↦ rw (z, equals_complete hash v.calling same) refl
        ]
        | inr (c, first, grants) ↦
            rw
              (
                not_empty hash c v.signers first,
                check_signers_complete hash c v.signers first grants,
              )
              (ground arith)
      ],
    )

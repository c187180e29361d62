-- ===== src/Runtime/Witness/Grants.antt =====
-- What a signature grants, independently of the order in which checkScope looks: without a scope
-- that covers the script nothing is granted.
use koala_tblockchain_golang.Shared.{
  ℕ, ◌≡◌, ◌≢◌, ◌⊎◌, inl, inr, refl, ap, List, [], ◌∷◌, Option, none, some, Bool, true, false, ◌==◌,
  ==_iff, arith, Bool-cases, is_empty,
}
use koala_tblockchain_golang.Io.Reader.{Err}
use koala_tblockchain_golang.Shared.Bytes.{equals, equals_sound, equals_complete}
use koala_tblockchain_golang.Transaction.Rule.{WitnessRule, witness_allow}
use koala_tblockchain_golang.Transaction.Signer.{
  Signer, has_flag, global, called_by_entry, custom_contracts, custom_groups, rules_scope,
}
use koala_tblockchain_golang.Runtime.Witness.{
  Verdict, answers, fails, panics, Invocation, zero_hash, or_nil, get_contract_groups, decide,
  contains, match_rule, match_rules, by_entry, by_contracts, by_groups, by_rules, check_signer,
  check_signers, check_scope, check_hashed_witness,
}
use koala_tblockchain_golang.Runtime.Witness.Membership.{Any, any_equal_sound, any_contained_sound}

Verdict-cases :
    (r : Verdict)
    → (r ≡ answers true) ⊎ ((r ≡ answers false) ⊎ ((r ≡ panics) ⊎ ((x : Err) × (r ≡ fails x))))
Verdict-cases (answers true) = inl refl
Verdict-cases (answers false) = inr (inl refl)
Verdict-cases panics = inr (inr (inl refl))
Verdict-cases (fails x) = inr (inr (inr (x, refl)))

module _ {K : Type 0} (key_equal : K → K → Bool) where
  -- the first rule that matches allows, and no rule before it fails
  abbrev pub FirstAllows : Invocation K → List (WitnessRule K) → Type 0
  FirstAllows v [] = ⊥
  FirstAllows v (rule ∷ rules) =
      ((match_rule key_equal v rule ≡ answers true) × (rule.action ≡ witness_allow))
      ⊎ ((match_rule key_equal v rule ≡ answers false) × FirstAllows v rules)

  match_rules_sound :
      (v : Invocation K) (rules : List (WitnessRule K))
      → match_rules key_equal v rules ≡ some (answers true)
      → FirstAllows v rules
  unfolding match_rules
  match_rules_sound v [] e = absurd cc
  match_rules_sound v (rule ∷ rules) e = elim (Verdict-cases (match_rule key_equal v rule)) [
    | inl matches ↦ inl (matches, ground (arith, rw matches at e))
    | inr (inl differs) ↦ inr (differs, match_rules_sound v rules (rw differs at e))
    | inr (inr (inl failed)) ↦ absurd (cc (rw failed at e))
    | inr (inr (inr (x, failed))) ↦ absurd (cc (rw failed at e))
  ]

  -- one of the scopes of the signer covers the script that runs
  pub data Grants (v : Invocation K) (c : Signer K) : Type 0 where
    everywhere : c.scopes ≡ global → Grants v c
    entry_called :
        has_flag c.scopes called_by_entry ≡ true
        → (v.calling ≡ zero_hash) ⊎ (v.calling ≡ v.entry)
        → Grants v c
    contract_allowed :
        has_flag c.scopes custom_contracts ≡ true
        → Any (λ allowed. allowed ≡ v.current) c.allowed_contracts
        → Grants v c
    group_allowed :
        has_flag c.scopes custom_groups ≡ true
        → v.read_states ≡ true
        → Any (λ k. contains key_equal (or_nil (v.groups_of v.current)) k ≡ true) c.allowed_groups
        → Grants v c
    rule_allows : has_flag c.scopes rules_scope ≡ true → FirstAllows v c.rules → Grants v c

  by_entry_sound : (v : Invocation K) (c : Signer K) → by_entry key_equal v c ≡ true → Grants v c
  by_entry_sound v c e = elim (Bool-cases (equals v.calling zero_hash)) [
    | inl same ↦ entry_called (ground (arith, e)) (inl (equals_sound v.calling zero_hash same))
    | inr differs ↦
        entry_called (ground (arith, e))
          (inr (equals_sound v.calling v.entry (ground (arith, e, differs))))
  ]

  by_contracts_sound :
      (v : Invocation K) (c : Signer K) → by_contracts key_equal v c ≡ true → Grants v c
  by_contracts_sound v c e =
      contract_allowed (ground (arith, e))
        (any_equal_sound v.current c.allowed_contracts (ground (arith, e)))

  by_groups_sound :
      (v : Invocation K) (c : Signer K) → by_groups key_equal v c ≡ some (answers true) → Grants v c
  unfolding get_contract_groups
  by_groups_sound v c e = elim (Bool-cases (has_flag c.scopes custom_groups)) [
    | inr off ↦ absurd (cc (rw off at e))
    | inl on ↦ elim (Bool-cases v.read_states) [
      | inr denied ↦ absurd (cc (rw (on, denied) at e))
      | inl readable ↦ group_allowed on readable (
          any_contained_sound key_equal (or_nil (v.groups_of v.current)) c.allowed_groups
            (ground (arith, rw (on, readable) at e)))
    ]
  ]

  by_rules_sound :
      (v : Invocation K) (c : Signer K) → by_rules key_equal v c ≡ some (answers true) → Grants v c
  by_rules_sound v c e = elim (Bool-cases (has_flag c.scopes rules_scope)) [
    | inr off ↦ absurd (cc (rw off at e))
    | inl on ↦ rule_allows on (match_rules_sound v c.rules (rw on at e))
  ]

  decide_sound :
      (d : Option Verdict) (rest : Verdict)
      → decide d rest ≡ answers true
      → (d ≡ some (answers true)) ⊎ (rest ≡ answers true)
  decide_sound none rest e = inr e
  decide_sound (some r) rest e = inl (ap some e)

  check_signer_sound :
      (v : Invocation K) (c : Signer K) → check_signer key_equal v c ≡ answers true → Grants v c
  unfolding check_signer
  check_signer_sound v c e = elim (Bool-cases (c.scopes == global)) [
    | inl same ↦ everywhere ((==_iff c.scopes global).0 same)
    | inr e1 ↦ elim (Bool-cases (by_entry key_equal v c)) [
      | inl entry_ ↦ by_entry_sound v c entry_
      | inr e2 ↦ elim (Bool-cases (by_contracts key_equal v c)) [
        | inl contract ↦ by_contracts_sound v c contract
        | inr e3 ↦
            elim (decide_sound (by_groups key_equal v c)
              (decide (by_rules key_equal v c) (answers false)) (rw (e1, e2, e3) at e)) [
                | inl group_ ↦ by_groups_sound v c group_
                | inr e4 ↦ elim (decide_sound (by_rules key_equal v c) (answers false) e4) [
                  | inl rule ↦ by_rules_sound v c rule
                  | inr nothing ↦ absurd cc
                ]
              ]
      ]
    ]
  ]

  -- the first signer with the account
  abbrev pub FirstSigner : List ℕ → Signer K → List (Signer K) → Type 0
  FirstSigner hash c [] = ⊥
  FirstSigner hash c (x ∷ xs) =
      ((x ≡ c) × (x.account ≡ hash)) ⊎ ((x.account ≢ hash) × FirstSigner hash c xs)

  -- the account is that of the calling script, or the first signer with it grants its signature
  abbrev pub IsWitnessed : Invocation K → List ℕ → Type 0
  IsWitnessed v hash =
      ((v.calling ≢ zero_hash) × (hash ≡ v.calling))
      ⊎ ((c : Signer K) × FirstSigner hash c v.signers × Grants v c)

  check_signers_sound :
      (v : Invocation K) (hash : List ℕ) (cs : List (Signer K))
      → check_signers key_equal v hash cs ≡ answers true
      → (c : Signer K) × FirstSigner hash c cs × Grants v c
  unfolding check_signers
  check_signers_sound v hash [] e = absurd cc
  check_signers_sound v hash (x ∷ xs) e = elim (Bool-cases (equals x.account hash)) [
    | inl same ↦
        (x, inl (refl, equals_sound x.account hash same), check_signer_sound v x (rw same at e))
    | inr differs ↦
        let (c, first, grants) = check_signers_sound v hash xs (rw differs at e) in
        (
          c,
          inr ((λ same. absurd (cc (equals_complete x.account hash same, differs))), first),
          grants,
        )
  ]

  check_scope_sound :
      (v : Invocation K) (hash : List ℕ)
      → check_scope key_equal v hash ≡ answers true
      → (c : Signer K) × FirstSigner hash c v.signers × Grants v c
  unfolding check_scope
  check_scope_sound v hash e = elim (Bool-cases (is_empty v.signers)) [
    | inl none_ ↦ absurd (cc (rw none_ at e))
    | inr some_ ↦ check_signers_sound v hash v.signers (rw some_ at e)
  ]

  -- CheckHashedWitness is true only for the account of the calling script, and for an account of
  -- which the first signer has a scope that covers the script: Global, CalledByEntry without a caller or in a call from
  -- the entry script, a custom contract, a custom group of a script that may read states, or rules
  -- of which the first that matches allows.
  pub check_hashed_witness_sound :
      (v : Invocation K) (hash : List ℕ)
      → check_hashed_witness key_equal v hash ≡ answers true
      → IsWitnessed v hash
  unfolding check_hashed_witness
  check_hashed_witness_sound v hash e = elim (Bool-cases (equals v.calling zero_hash)) [
    | inl zero_ ↦ inr (check_scope_sound v hash (rw zero_ at e))
    | inr calls ↦ elim (Bool-cases (equals hash v.calling)) [
      | inl same ↦ inl (
        (λ z. absurd (cc (equals_complete v.calling zero_hash z, calls))),
        equals_sound hash v.calling same,
      )
      | inr differs ↦ inr (check_scope_sound v hash (rw (calls, differs) at e))
    ]
  ]

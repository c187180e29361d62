-- ===== src/Transaction/Condition/Matching.antt =====
-- The logic of Match: And, Or and Not behave as the Boolean connectives, and an error of a group
-- lookup ends the match wherever it is reached.
use koala_tblockchain_golang.Shared.{◌≡◌, ◌≢◌, ◌⊎◌, inl, inr, refl, true, false, arith, sym}
use koala_tblockchain_golang.Transaction.Condition.{
  Condition, not_cond, and_cond, or_cond, Conditions, nil, cons, Result, ok, fail, MatchContext,
  negate, match_cond, match_all, match_any,
}
use koala_tblockchain_golang.Io.Reader.{Err}

pub Result-cases : (r : Result) → (r ≡ ok true) ⊎ ((r ≡ ok false) ⊎ ((e : Err) × (r ≡ fail e)))
Result-cases (ok true) = inl refl
Result-cases (ok false) = inr (inl refl)
Result-cases (fail e) = inr (inr (e, refl))

module _ {K : Type 0} where
  -- each condition of the list under a Not
  abbrev pub negated : Conditions K → Conditions K
  negated nil = nil
  negated (cons c cs) = cons (not_cond c) (negated cs)

  -- every condition, or some condition, of the list matches
  abbrev pub EveryMatches : MatchContext K → Conditions K → Type 0
  EveryMatches ctx nil = Unit
  EveryMatches ctx (cons c cs) = (match_cond ctx c ≡ ok true) × EveryMatches ctx cs

  abbrev pub NoneMatches : MatchContext K → Conditions K → Type 0
  NoneMatches ctx nil = Unit
  NoneMatches ctx (cons c cs) = (match_cond ctx c ≡ ok false) × NoneMatches ctx cs

  -- The first condition of the list that does not yield `other` yields `r`.
  pub data FirstOther (ctx : MatchContext K) (other r : Result) : Conditions K → Type 0 where
    here :
        {c : Condition K} {cs : Conditions K}
        → match_cond ctx c ≡ r
        → r ≢ other
        → FirstOther ctx other r (cons c cs)
    later :
        {c : Condition K} {cs : Conditions K}
        → match_cond ctx c ≡ other
        → FirstOther ctx other r cs
        → FirstOther ctx other r (cons c cs)

  module _ (ctx : MatchContext K) where
    match_any-negated : (cs : Conditions K) → match_any ctx (negated cs) ≡ negate (match_all ctx cs)
    unfolding match_cond negate
    match_any-negated nil = refl
    match_any-negated (cons c cs) = ground (arith, match_any-negated cs)

    match_all-negated : (cs : Conditions K) → match_all ctx (negated cs) ≡ negate (match_any ctx cs)
    unfolding match_cond negate
    match_all-negated nil = refl
    match_all-negated (cons c cs) = ground (arith, match_all-negated cs)

    -- De Morgan's laws hold of the conditions, errors and the order of evaluation included: a Not
    -- of an And matches as the Or of the Nots, and a Not of an Or as the And of the Nots.
    pub de_morgan :
        (cs : Conditions K)
        → (match_cond ctx (not_cond (and_cond cs)) ≡ match_cond ctx (or_cond (negated cs)))
          × (match_cond ctx (not_cond (or_cond cs)) ≡ match_cond ctx (and_cond (negated cs)))
    unfolding match_cond
    de_morgan cs = (sym (match_any-negated cs), sym (match_all-negated cs))

    match_all_outcome :
        (cs : Conditions K)
        → (EveryMatches ctx cs × (match_all ctx cs ≡ ok true))
          ⊎ FirstOther ctx (ok true) (match_all ctx cs) cs
    unfolding match_cond
    match_all_outcome nil = inl (tt, refl)
    match_all_outcome (cons c cs) = elim (Result-cases (match_cond ctx c)) [
      | inr (inl e) ↦ inr (here (rw e refl) (rw e (λ p. cc)))
      | inr (inr (x, e)) ↦ inr (here (rw e refl) (rw e (λ p. cc)))
      | inl e ↦ elim (match_all_outcome cs) [
        | inl (every, all) ↦ inl ((e, every), rw e all)
        | inr first ↦ inr (later e (rw e first))
      ]
    ]

    match_any_outcome :
        (cs : Conditions K)
        → (NoneMatches ctx cs × (match_any ctx cs ≡ ok false))
          ⊎ FirstOther ctx (ok false) (match_any ctx cs) cs
    unfolding match_cond
    match_any_outcome nil = inl (tt, refl)
    match_any_outcome (cons c cs) = elim (Result-cases (match_cond ctx c)) [
      | inl e ↦ inr (here (rw e refl) (rw e (λ p. cc)))
      | inr (inr (x, e)) ↦ inr (here (rw e refl) (rw e (λ p. cc)))
      | inr (inl e) ↦ elim (match_any_outcome cs) [
        | inl (every, all) ↦ inl ((e, every), rw e all)
        | inr first ↦ inr (later e (rw e first))
      ]
    ]

    -- An And matches with every condition matching, and otherwise has the outcome, false or an
    -- error, of the first condition that does not match.
    pub and_cond_outcome :
        (cs : Conditions K)
        → (EveryMatches ctx cs × (match_cond ctx (and_cond cs) ≡ ok true))
          ⊎ FirstOther ctx (ok true) (match_cond ctx (and_cond cs)) cs
    unfolding match_cond
    and_cond_outcome = match_all_outcome

    -- An Or is false with every condition false, and otherwise has the outcome, true or an error,
    -- of the first condition that is not false.
    pub or_cond_outcome :
        (cs : Conditions K)
        → (NoneMatches ctx cs × (match_cond ctx (or_cond cs) ≡ ok false))
          ⊎ FirstOther ctx (ok false) (match_cond ctx (or_cond cs)) cs
    unfolding match_cond
    or_cond_outcome = match_any_outcome

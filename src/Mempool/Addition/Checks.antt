-- ===== src/Mempool/Addition/Checks.antt =====
-- The checks of Add read only what is there: on a coherent pool checkTxConflicts does not panic.
use koala_tblockchain_golang.Shared.{
  ℕ, ◌≡◌, refl, sym, not, ◌&&◌, List, [], ◌∷◌, Option, none, some, inl, inr, ltb, leb, get_elem?,
  All, All-append, if-elim, subst,
}
use koala_tblockchain_golang.Shared.Int.{ℤ}
use koala_tblockchain_golang.Mempool.Tx.{Transaction, Item, conflict_hashes, has_signer}
use koala_tblockchain_golang.Mempool.Pool.{
  Outcome, panic, done, Pool, Feer, BalanceAndFees, Returns, Returns-bind,
}
use koala_tblockchain_golang.Mempool.Fees.{
  Checked, step1_existing, step2_existing, or_empty, refused, accepted, removing, both,
  with_conflicts, conflicting_with, conflicting_attrs, without_conflicting, check_tx_conflicts,
  conflicts_of, sender_fee,
}
use koala_tblockchain_golang.Mempool.Removal.Coherence.{Listed, HasPayer, IsCoherent}
use koala_tblockchain_golang.Mempool.Addition.Room.{OnAccepted}

-- the hash is that of a transaction in the pool
abbrev pub InPool : Pool → ℕ → Type 0
InPool mp h = (tx : Transaction) × (mp.verified_map h ≡ some tx)

-- What Add needs of a pool and of the transaction to be added: the pool is coherent, what the
-- lists of conflicts and the ids of oracle responses lead to is in the pool, and t has a payer.
pub record IsReady (mp : Pool) (t : Transaction) : Type 0 where
  pub coherent : IsCoherent mp
  pub conflicts_known : (k : ℕ) (hs : List ℕ) → mp.conflicts k ≡ some hs → All (InPool mp) hs
  pub oracle_known : (id h : ℕ) → mp.oracle_resp id ≡ some h → InPool mp h
  pub payer : ℕ
  pub signs : get_elem? t.signers mp.payer_index ≡ some payer

All-Listed :
    (P : Transaction → Type 0) (t : Transaction) (xs : List Item)
    → All (λ x. P x.txn) xs
    → Listed t xs
    → P t
All-Listed P t [] h l = absurd l
All-Listed P t (x ∷ xs) h (inl e) = subst P e h.0
All-Listed P t (x ∷ xs) h (inr l) = All-Listed P t xs h.1 l

module _ (mp : Pool) (c : IsCoherent mp) where
  -- a transaction whose payer can be read
  abbrev pub Paid : Transaction → Type 0
  Paid t = HasPayer mp.payer_index mp.fees t

  paid : (h : ℕ) (t : Transaction) → mp.verified_map h ≡ some t → Paid t
  paid h t e = All-Listed Paid t mp.verified_txes c.payers (c.listed h t e)

  removing-Paid :
      (tx : Transaction) (o : Outcome (Checked (List Transaction)))
      → Paid tx
      → Returns (OnAccepted (All Paid)) o
      → Returns (OnAccepted (All Paid)) (removing tx o)
  removing-Paid tx panic p h = h
  removing-Paid tx (done (refused e)) p h = tt
  removing-Paid tx (done (accepted txs)) p h = (p, h)

  conflicting_with-Returns :
      (tx : Transaction) (payer : ℕ) (hs : List ℕ)
      → All (InPool mp) hs
      → Returns (OnAccepted (All Paid)) (conflicting_with mp tx payer hs)
  unfolding conflicting_with
  conflicting_with-Returns tx payer [] known = tt
  conflicting_with-Returns tx payer (h ∷ hs) known =
      let (old, e) = known.0 in
      subst
        (λ o.
          Returns (OnAccepted (All Paid))
            (step1_existing tx payer (conflicting_with mp tx payer hs) o))
        (sym e)
        (if-elim (Returns (OnAccepted (All Paid)))
          (has_signer old.signers payer && ltb tx.network_fee old.network_fee) tt
          (removing-Paid old (conflicting_with mp tx payer hs) (paid h old e)
            (conflicting_with-Returns tx payer hs known.1)))

  step2_existing-Returns :
      (tx : Transaction) (h : ℕ) (rest : Outcome (Checked (List Transaction)))
      (o : Option Transaction)
      → mp.verified_map h ≡ o
      → Returns (OnAccepted (All Paid)) rest
      → Returns (OnAccepted (All Paid)) (step2_existing mp tx rest o)
  step2_existing-Returns tx h rest none e r = r
  step2_existing-Returns tx h rest (some old) e r =
      let p = paid h old e in
      rw p.signs (
        if-elim (Returns (OnAccepted (All Paid))) (not (has_signer tx.signers p.account)) tt (
          if-elim (Returns (OnAccepted (All Paid))) (leb tx.network_fee old.network_fee) tt
            (removing-Paid old rest p r)))

  conflicting_attrs-Returns :
      (tx : Transaction) (hs : List ℕ)
      → Returns (OnAccepted (All Paid)) (conflicting_attrs mp tx hs)
  unfolding conflicting_attrs
  conflicting_attrs-Returns tx [] = tt
  conflicting_attrs-Returns tx (h ∷ hs) =
      step2_existing-Returns tx h (conflicting_attrs mp tx hs) (mp.verified_map h) refl
        (conflicting_attrs-Returns tx hs)

  both-Paid :
      (o o' : Outcome (Checked (List Transaction)))
      → Returns (OnAccepted (All Paid)) o
      → Returns (OnAccepted (All Paid)) o'
      → Returns (OnAccepted (All Paid)) (both o o')
  both-Paid panic o' h k = h
  both-Paid (done (refused e)) o' h k = tt
  both-Paid (done (accepted txs)) panic h k = k
  both-Paid (done (accepted txs)) (done (refused e)) h k = tt
  both-Paid (done (accepted txs)) (done (accepted txs')) h k = All-append Paid txs txs' h k

  without_conflicting-Returns :
      (payer : ℕ) (txs : List Transaction) (s : ℤ)
      → All Paid txs
      → Returns (λ x. Unit) (without_conflicting mp payer txs s)
  unfolding without_conflicting
  without_conflicting-Returns payer [] s h = tt
  without_conflicting-Returns payer (tx ∷ txs) s h =
      rw (h.0.signs) (without_conflicting-Returns payer txs _ h.1)

  with_conflicts-Returns :
      (tx : Transaction) (payer : ℕ) (actual : BalanceAndFees) (o : Checked (List Transaction))
      → OnAccepted (All Paid) o
      → Returns (λ x. Unit) (with_conflicts tx mp payer actual o)
  with_conflicts-Returns tx payer actual (refused e) h = tt
  with_conflicts-Returns tx payer actual (accepted txs) h =
      Returns-bind (λ x. Unit) (λ x. Unit) (without_conflicting mp payer txs actual.fee_sum) _
        (without_conflicting-Returns payer txs actual.fee_sum h) λ s _. tt

or_empty-All :
    (P : ℕ → Type 0) (o : Option (List ℕ))
    → ((hs : List ℕ) → o ≡ some hs → All P hs)
    → All P (or_empty o)
or_empty-All P none h = tt
or_empty-All P (some hs) h = h hs refl

-- On a pool that is ready for the transaction checkTxConflicts does not panic.
pub check_tx_conflicts-Returns :
    (mp : Pool) (t : Transaction) (fee : Feer)
    → IsReady mp t
    → Returns (λ x. Unit) (check_tx_conflicts mp t fee)
unfolding check_tx_conflicts
check_tx_conflicts-Returns mp t fee r =
    let c = r.coherent in
    let with_ = conflicting_with mp t r.payer (conflicts_of mp t.hash) in
    let attrs = conflicting_attrs mp t (conflict_hashes t.attributes) in
    let actual = sender_fee mp fee r.payer in
    rw r.signs (
      if-elim (Returns (λ (x : Checked (List Transaction)). Unit)) fee.p2p_sig_extensions_enabled
        (Returns-bind (OnAccepted (All (Paid mp c))) (λ (x : Checked (List Transaction)). Unit)
          (both with_ attrs) (with_conflicts t mp r.payer actual)
          (both-Paid mp c with_ attrs
            (conflicting_with-Returns mp c t r.payer (conflicts_of mp t.hash)
              (or_empty-All (InPool mp) (mp.conflicts t.hash) (r.conflicts_known t.hash)))
            (conflicting_attrs-Returns mp c t (conflict_hashes t.attributes)))
          λ o h. with_conflicts-Returns mp c t r.payer actual o h)
        tt)

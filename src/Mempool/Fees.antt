-- ===== src/Mempool/Fees.antt =====
-- The balance check of mem_pool.go, the fees of a sender, and what a transaction conflicts with.
use koala_tblockchain_golang.Shared.{
  ℕ, ◌+◌, Option, Bool, true, false, not, ◌&&◌, ◌==◌, ltb, leb, if◌then◌else◌, List, [], ◌∷◌, ◌++◌,
  none, some,
}
use koala_tblockchain_golang.Shared.Int.{ℤ, pos, ◌+ℤ◌, ◌-ℤ◌, ltb_ℤ}
use koala_tblockchain_golang.Shared.Mapping.{put}
use koala_tblockchain_golang.Mempool.Tx.{Transaction, conflict_hashes, has_signer}
use koala_tblockchain_golang.Mempool.Pool.{
  Err, insufficient_funds, conflict, conflicts_attribute, Outcome, panic, done, ◌>>=◌,
  BalanceAndFees, Pool, Feer, payer_of,
}

-- big.NewInt(tx.SystemFee+tx.NetworkFee)
abbrev pub fee_of : Transaction → ℤ
fee_of tx = pos (tx.system_fee + tx.network_fee)

-- the new sum of fees, or an error
pub data Checked {ℓ} (A : Type ℓ) : Type ℓ where
  refused : Err → Checked A
  accepted : A → Checked A

unfoldable pub check_balance : Transaction → BalanceAndFees → Checked ℤ
check_balance tx balance =
    if ltb_ℤ balance.balance (fee_of tx)
    then refused insufficient_funds
    else if ltb_ℤ balance.balance (fee_of tx +ℤ balance.fee_sum)
    then refused conflict
    else accepted (fee_of tx +ℤ balance.fee_sum)

-- mp.fees[payer], or the entry of a sender without one
unfoldable pub sender_fee : Pool → Feer → ℕ → BalanceAndFees
sender_fee mp feer payer = elim (mp.fees payer) [
  | some fee ↦ fee
  | none ↦ record { balance = feer.get_utility_token_balance payer; fee_sum = pos 0 }
]

abbrev pub with_fee : Pool → ℕ → BalanceAndFees → Pool
with_fee mp payer fee = record mp { fees = put mp.fees payer fee }

-- An entry that was missing is written even when the check fails; the sum is a shared big.Int, so
-- setting it changes the entry.
unfoldable pub try_add_senders_fee : Transaction → Feer → Bool → Pool → Outcome (Pool × Bool)
try_add_senders_fee tx feer need_check mp = do
  payer ← payer_of mp tx
  let fee = sender_fee mp feer payer
  if need_check
      then (elim (check_balance tx fee) [
        | refused e ↦ done (with_fee mp payer fee, false)
        | accepted new_fee_sum ↦
            done (with_fee mp payer (record fee { fee_sum = new_fee_sum }), true)
      ])
      else done (with_fee mp payer (record fee { fee_sum = fee.fee_sum +ℤ fee_of tx }), true)

abbrev pub removing :
    Transaction → Outcome (Checked (List Transaction)) → Outcome (Checked (List Transaction))
removing tx panic = panic
removing tx (done (refused e)) = done (refused e)
removing tx (done (accepted txs)) = done (accepted (tx ∷ txs))

-- one round of step 1 of checkTxConflicts; `rest` is what the later rounds find
abbrev pub step1_existing :
    Transaction
    → ℕ
    → Outcome (Checked (List Transaction))
    → Option Transaction
    → Outcome (Checked (List Transaction))
step1_existing tx payer rest none = panic
step1_existing tx payer rest (some existing_tx) =
    if has_signer existing_tx.signers payer && ltb tx.network_fee existing_tx.network_fee
    then done (refused conflicts_attribute)
    else removing existing_tx rest

-- step 1, over mp.conflicts[tx.Hash()]
unfoldable pub conflicting_with :
    Pool → Transaction → ℕ → List ℕ → Outcome (Checked (List Transaction))
conflicting_with mp tx payer [] = done (accepted [])
conflicting_with mp tx payer (hash ∷ hashes) =
    step1_existing tx payer (conflicting_with mp tx payer hashes) (mp.verified_map hash)

-- one round of step 2
abbrev pub step2_existing :
    Pool
    → Transaction
    → Outcome (Checked (List Transaction))
    → Option Transaction
    → Outcome (Checked (List Transaction))
step2_existing mp tx rest none = rest
step2_existing mp tx rest (some existing_tx) = payer_of mp existing_tx >>= λ account.
    if not (has_signer tx.signers account)
    then done (refused conflicts_attribute)
    else if leb tx.network_fee existing_tx.network_fee
    then done (refused conflicts_attribute)
    else removing existing_tx rest

-- step 2, over the Conflicts attributes of tx
unfoldable pub conflicting_attrs :
    Pool → Transaction → List ℕ → Outcome (Checked (List Transaction))
conflicting_attrs mp tx [] = done (accepted [])
conflicting_attrs mp tx (hash ∷ hashes) =
    step2_existing mp tx (conflicting_attrs mp tx hashes) (mp.verified_map hash)

-- step 3, the sum of the sender's fees without the transactions to be removed
unfoldable pub without_conflicting : Pool → ℕ → List Transaction → ℤ → Outcome ℤ
without_conflicting mp payer [] fee_sum = done fee_sum
without_conflicting mp payer (tx ∷ txs) fee_sum = payer_of mp tx >>= λ account.
    without_conflicting mp payer txs (if account == payer then fee_sum -ℤ fee_of tx else fee_sum)

-- the two lists of step 1 and step 2, one behind the other
abbrev pub both :
    Outcome (Checked (List Transaction))
    → Outcome (Checked (List Transaction))
    → Outcome (Checked (List Transaction))
both panic second = panic
both (done (refused e)) second = done (refused e)
both (done (accepted txs)) panic = panic
both (done (accepted txs)) (done (refused e)) = done (refused e)
both (done (accepted txs)) (done (accepted txs')) = done (accepted (txs ++ txs'))

-- mp.conflicts[hash], where a missing entry is an empty slice
abbrev pub or_empty : Option (List ℕ) → List ℕ
or_empty none = []
or_empty (some hashes) = hashes

abbrev pub conflicts_of : Pool → ℕ → List ℕ
conflicts_of mp hash = or_empty (mp.conflicts hash)

-- the last lines of checkTxConflicts
abbrev pub verdict : Transaction → BalanceAndFees → List Transaction → Checked (List Transaction)
verdict tx expected txs = elim (check_balance tx expected) [
  | refused e ↦ refused e
  | accepted s ↦ accepted txs
]

abbrev pub with_conflicts :
    Transaction
    → Pool
    → ℕ
    → BalanceAndFees
    → Checked (List Transaction)
    → Outcome (Checked (List Transaction))
with_conflicts tx mp payer actual (refused e) = done (refused e)
with_conflicts tx mp payer actual (accepted txs) = do
  fee_sum ← without_conflicting mp payer txs actual.fee_sum
  done (verdict tx (record actual { fee_sum = fee_sum }) txs)

-- The transactions that have to go before tx is added.
unfoldable pub check_tx_conflicts : Pool → Transaction → Feer → Outcome (Checked (List Transaction))
check_tx_conflicts mp tx fee = do
  payer ← payer_of mp tx
  let actual = sender_fee mp fee payer
  if fee.p2p_sig_extensions_enabled
      then (both (conflicting_with mp tx payer (conflicts_of mp tx.hash))
            (conflicting_attrs mp tx (conflict_hashes tx.attributes))
          >>= with_conflicts tx mp payer actual)
      else done (verdict tx actual [])

abbrev is_accepted {ℓ} : {A : Type ℓ} → Checked A → Bool
is_accepted (refused e) = false
is_accepted (accepted a) = true

unfoldable pub verify : Pool → Transaction → Feer → Outcome Bool
verify mp tx feer = do checked ← check_tx_conflicts mp tx feer; done (is_accepted checked)

-- ===== src/Mempool/Removal.antt =====
-- removeInternal and removeConflictsOf of mem_pool.go.
pub mod Invariants
pub mod Coherence
pub mod Accounts
use koala_tblockchain_golang.Shared.{
  ℕ, zero, suc, ◌+◌, Bool, ◌==◌, ltb, if◌then◌else◌, List, [], ◌∷◌, ◌++◌, Option, none, some,
  length, get_elem?, take, drop,
}
use koala_tblockchain_golang.Shared.Int.{◌-ℤ◌}
use koala_tblockchain_golang.Shared.Mapping.{put, delete}
use koala_tblockchain_golang.Mempool.Tx.{Transaction, Item, oracle_ids, conflict_hashes}
use koala_tblockchain_golang.Mempool.Pool.{
  Outcome, panic, done, ◌>>=◌, deref, BalanceAndFees, Event, transaction_removed, Pool, Feer, emit,
  payer_of,
}
use koala_tblockchain_golang.Mempool.Fees.{fee_of, conflicts_of}

-- The inner loop of removeConflictsOf: the first occurrence of the hash goes.
unfoldable pub remove_first : ℕ → List ℕ → List ℕ
remove_first hash [] = []
remove_first hash (h ∷ hs) = let rest = remove_first hash hs in if h == hash then hs else h ∷ rest

abbrev remove_conflict : Transaction → ℕ → Pool → Pool
remove_conflict tx conflicts_hash mp =
    let hashes = conflicts_of mp conflicts_hash in
    if length hashes == 1
    then record mp { conflicts = delete mp.conflicts conflicts_hash }
    else elim (mp.conflicts conflicts_hash) [
      | none ↦ mp
      | some hs ↦ record mp {
        conflicts = put mp.conflicts conflicts_hash (remove_first tx.hash hs);
      }
    ]

remove_conflicts : Transaction → List ℕ → Pool → Pool
remove_conflicts tx [] mp = mp
remove_conflicts tx (hash ∷ hashes) mp = remove_conflicts tx hashes (remove_conflict tx hash mp)

-- removeConflictsOf
unfoldable pub remove_conflicts_of : Transaction → Pool → Pool
unfolding remove_conflicts remove_first
remove_conflicts_of tx mp = remove_conflicts tx (conflict_hashes tx.attributes) mp

-- `if feer.P2PSigExtensionsEnabled() { mp.removeConflictsOf(tx) }`
abbrev pub remove_conflicts_if : Bool → Transaction → Pool → Pool
remove_conflicts_if enabled tx mp = if enabled then remove_conflicts_of tx mp else mp

-- `if len(attrs) != 0 { delete(mp.oracleResp, id) }`, of the first id
abbrev pub drop_oracle_resp : Transaction → Pool → Pool
drop_oracle_resp tx mp = elim (oracle_ids tx.attributes) [
  | [] ↦ mp
  | id ∷ ids ↦ record mp { oracle_resp = delete mp.oracle_resp id }
]

-- The index at which the loop over verifiedTxes ends: that of the hash, or else the last one.
unfoldable pub find_index : ℕ → List Item → ℕ
find_index hash [] = 0
find_index hash (itm ∷ []) = 0
find_index hash (itm ∷ (next ∷ rest)) =
    let i = find_index hash (next ∷ rest) in if itm.txn.hash == hash then 0 else suc i

-- without the element at an index in range
abbrev pub remove_at {ℓ} : {A : Type ℓ} → ℕ → List A → List A
remove_at n xs = take n xs ++ drop (suc n) xs

abbrev finish_removal : Transaction → Item → Feer → Pool → Outcome Pool
finish_removal tx itm feer mp = do
  payer ← payer_of mp itm.txn
  sender_fee ← deref (mp.fees payer)
  let fee = record sender_fee { fee_sum = sender_fee.fee_sum -ℤ fee_of tx }
  let mp1 = record mp { fees = put mp.fees payer fee }
  let mp2 = drop_oracle_resp tx (remove_conflicts_if feer.p2p_sig_extensions_enabled tx mp1)
  done (emit (transaction_removed itm.txn itm.item_data) mp2)

-- removeInternal for the entry of the map
unfoldable pub remove_found : ℕ → Feer → Pool → Option Transaction → Outcome Pool
remove_found hash feer mp none = done mp
remove_found hash feer mp (some tx) =
    let num = find_index hash mp.verified_txes in
    deref (get_elem? mp.verified_txes num) >>= λ itm. finish_removal tx itm feer (record mp {
      verified_map = delete mp.verified_map hash;
      verified_txes = remove_at num mp.verified_txes;
    })

unfoldable pub remove_internal : ℕ → Feer → Pool → Outcome Pool
remove_internal hash feer mp = remove_found hash feer mp (mp.verified_map hash)

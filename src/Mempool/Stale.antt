-- ===== src/Mempool/Stale.antt =====
-- RemoveStale of mem_pool.go, with loadPolicy and checkPolicy. The items that it hands to the
-- goroutine resendStaleItems are returned beside the pool.
pub mod Kept
pub mod Survivors
use koala_tblockchain_golang.Shared.{
  ℕ, zero, suc, ◌+◌, ◌-◌, ◌/◌, ◌%◌, ◌^◌, Bool, true, false, not, ◌&&◌, ◌||◌, ◌==◌, ltb, leb,
  if◌then◌else◌, List, [], ◌∷◌, ◌++◌,
}
use koala_tblockchain_golang.Shared.Mapping.{empty, delete}
use koala_tblockchain_golang.Mempool.Tx.{Transaction, Item, fee_per_byte}
use koala_tblockchain_golang.Mempool.Pool.{
  Outcome, done, ◌>>=◌, transaction_removed, Pool, Feer, emit,
}
use koala_tblockchain_golang.Mempool.Fees.{try_add_senders_fee}
use koala_tblockchain_golang.Mempool.Removal.{drop_oracle_resp}
use koala_tblockchain_golang.Mempool.Addition.{add_conflicts_if}

unfoldable pub load_policy : Feer → Pool → Pool × Bool
load_policy feer mp =
    if ltb mp.pool_fee_per_byte feer.feer_fee_per_byte
    then (record mp { pool_fee_per_byte = feer.feer_fee_per_byte }, true)
    else (mp, false)

unfoldable pub check_policy : Pool → Transaction → Bool → Bool
check_policy mp tx policy_changed = not policy_changed || leb mp.pool_fee_per_byte (fee_per_byte tx)

-- bits.OnesCount32
unfoldable pub ones_count : ℕ → ℕ → ℕ
ones_count zero n = 0
ones_count (suc bits) n = n % 2 + ones_count bits (n / 2)

-- the test for items at resendThreshold, 2*resendThreshold, 4*resendThreshold ...; the difference
-- of two uint32 wraps around
unfoldable pub is_stale : Pool → ℕ → Item → Bool
unfolding ones_count
is_stale mp height itm =
    let diff = (height + 2 ^ 32 - itm.block_stamp) % 2 ^ 32 in
    not (mp.resend_threshold == 0)
    && (diff % mp.resend_threshold == 0)
    && (ones_count 32 (diff / mp.resend_threshold) == 1)

-- the variables of the loop: the pool, newVerifiedTxes and staleItems
pub record Sweep : Type 0 where
  pub pool : Pool
  pub kept : List Item
  pub stale : List Item

abbrev keep_item : Feer → Item → Sweep → Sweep
keep_item feer itm s = record {
  pool = add_conflicts_if feer.p2p_sig_extensions_enabled itm.txn s.pool;
  kept = s.kept ++ itm ∷ [];
  stale = if is_stale s.pool feer.block_height itm then s.stale ++ itm ∷ [] else s.stale;
}

abbrev drop_item : Item → Sweep → Sweep
drop_item itm s = record s {
  pool = emit (transaction_removed itm.txn itm.item_data) (
      drop_oracle_resp itm.txn
        (record (s.pool) { verified_map = delete s.pool.verified_map itm.txn.hash }));
}

-- one round of the loop
unfoldable pub sweep_item : (Transaction → Bool) → Bool → Feer → Item → Sweep → Outcome Sweep
sweep_item is_ok policy_changed feer itm s =
    let checked = try_add_senders_fee itm.txn feer true s.pool >>= λ p. done (
      if p.1
      then keep_item feer itm (record s { pool = p.0 })
      else drop_item itm (record s { pool = p.0 })) in
    if is_ok itm.txn && check_policy s.pool itm.txn policy_changed
    then checked
    else done (drop_item itm s)

unfoldable pub sweep_all : (Transaction → Bool) → Bool → Feer → List Item → Sweep → Outcome Sweep
sweep_all is_ok policy_changed feer [] s = done s
sweep_all is_ok policy_changed feer (itm ∷ itms) s =
    sweep_item is_ok policy_changed feer itm s >>= sweep_all is_ok policy_changed feer itms

abbrev finish_sweep : Sweep → Pool × List Item
finish_sweep s = (record (s.pool) { verified_txes = s.kept }, s.stale)

unfoldable pub remove_stale : (Transaction → Bool) → Feer → Pool → Outcome (Pool × List Item)
remove_stale is_ok feer mp =
    let (mp1, policy_changed) = load_policy feer mp in
    let start : Sweep = record {
      pool = record mp1 {
        fees = empty;
        conflicts = if feer.p2p_sig_extensions_enabled then empty else mp1.conflicts;
      };
      kept = [];
      stale = [];
    } in
    sweep_all is_ok policy_changed feer mp.verified_txes start >>= λ s. done (finish_sweep s)

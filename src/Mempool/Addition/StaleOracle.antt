-- ===== src/Mempool/Addition/StaleOracle.antt =====
-- ErrOOM leaves the id of the refused oracle response in the pool, which makes a later Add panic.
use koala_tblockchain_golang.Shared.{
  ℕ, ◌≡◌, false, List, ◌∷◌, Option, none, some, ==-self, ==_iff, length, arith,
}
use koala_tblockchain_golang.Shared.Mapping.{put}
use koala_tblockchain_golang.Mempool.Tx.{Transaction, Item, oracle_ids}
use koala_tblockchain_golang.Mempool.Pool.{oom, panic, done, Pool, Feer, contains_key}
use koala_tblockchain_golang.Mempool.Search.{insert_position}
use koala_tblockchain_golang.Mempool.Fees.{accepted, check_tx_conflicts}
use koala_tblockchain_golang.Mempool.Addition.{
  replace_entry, replace_first, replace_oracle_resp, evict, make_room, add_item, add,
}

-- An id of an oracle response that leads to no transaction makes Add panic on the next transaction
-- with that id that passes the checks.
stale_oracle_panics :
    (t : Transaction) (fee : Feer) (item_data : Option ℕ) (mp : Pool) (id h : ℕ) (ids : List ℕ)
    (txs : List Transaction)
    → oracle_ids t.attributes ≡ id ∷ ids
    → mp.oracle_resp id ≡ some h
    → mp.verified_map h ≡ none
    → contains_key mp t.hash ≡ false
    → check_tx_conflicts mp t fee ≡ done (accepted txs)
    → add t fee item_data mp ≡ panic
unfolding add replace_oracle_resp replace_first replace_entry
stale_oracle_panics t fee item_data mp id h ids txs ids_of entry gone new_ checked =
    rw (new_, checked) (rw ids_of (rw entry (rw gone)))

not_contained : (mp : Pool) (h : ℕ) → contains_key mp h ≡ false → mp.verified_map h ≡ none
unfolding contains_key
not_contained mp h e = ground arith

-- the item of Add
abbrev pub item_of : Transaction → Feer → Option ℕ → Item
item_of t fee item_data = record { txn = t; block_stamp = fee.block_height; item_data = item_data }

-- an oracle response that the full pool has no room for leaves its id behind
oom_leaves_id :
    (t : Transaction) (fee : Feer) (item_data : Option ℕ) (mp : Pool) (id : ℕ) (ids : List ℕ)
    (txs : List Transaction)
    → oracle_ids t.attributes ≡ id ∷ ids
    → mp.oracle_resp id ≡ none
    → contains_key mp t.hash ≡ false
    → check_tx_conflicts mp t fee ≡ done (accepted txs)
    → fee.p2p_sig_extensions_enabled ≡ false
    → length mp.verified_txes ≡ mp.capacity
    → insert_position (item_of t fee item_data) mp.verified_txes ≡ length mp.verified_txes
    → add t fee item_data mp
      ≡ done (record mp { oracle_resp = put mp.oracle_resp id t.hash }, some oom)
unfolding add replace_oracle_resp replace_first replace_entry add_item make_room evict
oom_leaves_id t fee item_data mp id ids txs ids_of entry new_ checked p2p full last =
    rw (new_, checked)
      (rw ids_of (
        rw entry (
          rw p2p (
            rw last (
              rw (
                (==_iff (length mp.verified_txes) mp.capacity).1 full,
                ==-self (length mp.verified_txes),
              ))))))

-- With the P2P signature extensions off, take an oracle response t that passes the checks of Add and has the lowest priority in a
-- full pool that has no response with its id. Add refuses it with ErrOOM and keeps the entry of its id;
-- any later transaction with that id that passes the checks then makes Add panic, by dereferencing nil.
pub oom_then_panic :
    (t t' : Transaction) (fee fee' : Feer) (item_data item_data' : Option ℕ) (mp : Pool) (id : ℕ)
    (ids ids' : List ℕ) (txs txs' : List Transaction)
    → oracle_ids t.attributes ≡ id ∷ ids
    → mp.oracle_resp id ≡ none
    → contains_key mp t.hash ≡ false
    → check_tx_conflicts mp t fee ≡ done (accepted txs)
    → fee.p2p_sig_extensions_enabled ≡ false
    → length mp.verified_txes ≡ mp.capacity
    → insert_position (item_of t fee item_data) mp.verified_txes ≡ length mp.verified_txes
    → oracle_ids t'.attributes ≡ id ∷ ids'
    → let mp' = record mp { oracle_resp = put mp.oracle_resp id t.hash } in
      contains_key mp' t'.hash ≡ false
      → check_tx_conflicts mp' t' fee' ≡ done (accepted txs')
      → (add t fee item_data mp ≡ done (mp', some oom)) × (add t' fee' item_data' mp' ≡ panic)
oom_then_panic t t' fee fee' item_data item_data' mp id ids ids' txs txs' i entry new_ c p2p full
      last i' new' c' =
    (
      oom_leaves_id t fee item_data mp id ids txs i entry new_ c p2p full last,
      stale_oracle_panics t' fee' item_data'
          (record mp { oracle_resp = put mp.oracle_resp id t.hash }) id t.hash ids' txs' i'
          (ground arith) (not_contained mp t.hash new_) new' c',
    )

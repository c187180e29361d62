-- ===== src/Mempool/Addition.antt =====
-- Add of mem_pool.go.
pub mod Room
pub mod Ordered
pub mod Checks
pub mod Eviction
pub mod Safety
pub mod Shrinking
pub mod Results
pub mod StaleOracle
use koala_tblockchain_golang.Shared.{
  ℕ, suc, ◌-◌, Bool, true, false, ◌==◌, leb, if◌then◌else◌, List, [], ◌∷◌, ◌++◌, Option, none, some,
  length, take, drop, get_elem?,
}
use koala_tblockchain_golang.Shared.Mapping.{put, delete}
use koala_tblockchain_golang.Mempool.Tx.{Transaction, Item, oracle_ids, conflict_hashes}
use koala_tblockchain_golang.Mempool.Pool.{
  Err, dup, oom, oracle_response_err, Outcome, panic, done, ◌>>=◌, deref, Event, transaction_added,
  transaction_removed, Pool, Feer, emit, contains_key,
}
use koala_tblockchain_golang.Mempool.Search.{insert_position}
use koala_tblockchain_golang.Mempool.Fees.{
  Checked, refused, accepted, try_add_senders_fee, check_tx_conflicts, conflicts_of,
}
use koala_tblockchain_golang.Mempool.Removal.{
  remove_internal, remove_conflicts_if, drop_oracle_resp,
}

-- `mp.conflicts[hash] = append(mp.conflicts[hash], t.Hash())` for each Conflicts attribute
unfoldable pub add_conflicts : ℕ → List ℕ → Pool → Pool
add_conflicts tx_hash [] mp = mp
add_conflicts tx_hash (hash ∷ hashes) mp =
    add_conflicts tx_hash hashes
      (record mp { conflicts = put mp.conflicts hash (conflicts_of mp hash ++ tx_hash ∷ []) })

abbrev pub add_conflicts_if : Bool → Transaction → Pool → Pool
add_conflicts_if enabled t mp =
    if enabled then add_conflicts t.hash (conflict_hashes t.attributes) mp else mp

-- an entry for the id: the same fee or a higher one refuses t (false), a lower one goes
unfoldable pub replace_entry : Transaction → Feer → Pool → ℕ → Option ℕ → Outcome (Pool × Bool)
replace_entry t fee mp id none =
    done (record mp { oracle_resp = put mp.oracle_resp id t.hash }, true)
replace_entry t fee mp id (some h) = deref (mp.verified_map h) >>= λ old.
    if leb t.network_fee old.network_fee
    then done (mp, false)
    else remove_internal h fee mp >>= λ mp'.
        done (record mp' { oracle_resp = put mp'.oracle_resp id t.hash }, true)

unfoldable pub replace_first : Transaction → Feer → Pool → List ℕ → Outcome (Pool × Bool)
replace_first t fee mp [] = done (mp, true)
replace_first t fee mp (id ∷ ids) = replace_entry t fee mp id (mp.oracle_resp id)

-- The branch of Add on the OracleResponse attribute.
unfoldable pub replace_oracle_resp : Transaction → Feer → Pool → Outcome (Pool × Bool)
replace_oracle_resp t fee mp = replace_first t fee mp (oracle_ids t.attributes)

-- the loop over conflictsToBeRemoved
unfoldable pub remove_all : List Transaction → Feer → Pool → Outcome Pool
remove_all [] fee mp = done mp
remove_all (tx ∷ txs) fee mp = remove_internal tx.hash fee mp >>= remove_all txs fee

abbrev pub remove_all_if : Bool → List Transaction → Feer → Pool → Outcome Pool
remove_all_if enabled txs fee mp = if enabled then remove_all txs fee mp else done mp

-- With the item in the last place, `copy(txes[n+1:], txes[n:])` and `txes[n] = pItem`.
unfoldable pub place : ℕ → Item → List Item → List Item
place n p_item txes =
    if n == length txes - 1
    then txes
    else take n txes ++ (p_item ∷ take (length txes - suc n) (drop n txes))

-- The last item makes room: the pool without it, as it stands before pItem takes its place. Its
-- payer's fees are not looked at.
unfoldable pub ditch_last : Item → List Item → Feer → Pool → Pool
ditch_last unlucky others fee mp = drop_oracle_resp unlucky.txn (
    remove_conflicts_if fee.p2p_sig_extensions_enabled unlucky.txn (record mp {
      verified_map = delete mp.verified_map unlucky.txn.hash;
      verified_txes = others;
    }))

-- The pool is full: ErrOOM for the lowest priority, or else the last item goes.
unfoldable pub evict : ℕ → Feer → Pool → Outcome (Checked Pool)
evict n fee mp =
    if n == length mp.verified_txes
    then done (refused oom)
    else deref (get_elem? mp.verified_txes (length mp.verified_txes - 1)) >>= λ unlucky. done (
        accepted (
          emit (transaction_removed unlucky.txn unlucky.item_data)
            (ditch_last unlucky (take (length mp.verified_txes - 1) mp.verified_txes) fee mp)))

-- The pool with room for one more item, or ErrOOM.
unfoldable pub make_room : ℕ → Feer → Pool → Outcome (Checked Pool)
make_room n fee mp =
    if length mp.verified_txes == mp.capacity then evict n fee mp else done (accepted mp)

-- from `if n != len(mp.verifiedTxes)-1` to the end, where pItem is appended first
unfoldable pub insert_item : ℕ → Item → Feer → Pool → Outcome (Pool × Option Err)
insert_item n p_item fee mp =
    let t = p_item.txn in
    let mp1 = add_conflicts_if fee.p2p_sig_extensions_enabled t (record mp {
      verified_map = put mp.verified_map t.hash t;
      verified_txes = place n p_item (mp.verified_txes ++ p_item ∷ []);
    }) in
    try_add_senders_fee t fee false mp1 >>= λ added.
    done (emit (transaction_added t p_item.item_data) added.0, none)

abbrev pub insert_or_oom : ℕ → Item → Feer → Pool → Checked Pool → Outcome (Pool × Option Err)
insert_or_oom n p_item fee mp (refused e) = done (mp, some e)
insert_or_oom n p_item fee mp (accepted mp') = insert_item n p_item fee mp'

-- from the binary search to the end
unfoldable pub add_item : Item → Feer → Pool → Outcome (Pool × Option Err)
add_item p_item fee mp =
    let n = insert_position p_item mp.verified_txes in
    make_room n fee mp >>= insert_or_oom n p_item fee mp

abbrev pub add_unless : Item → Feer → List Transaction → Pool × Bool → Outcome (Pool × Option Err)
add_unless p_item fee to_be_removed (mp, false) = done (mp, some oracle_response_err)
add_unless p_item fee to_be_removed (mp, true) =
    remove_all_if fee.p2p_sig_extensions_enabled to_be_removed fee mp >>= add_item p_item fee

abbrev pub add_checked :
    Item → Feer → Pool → Checked (List Transaction) → Outcome (Pool × Option Err)
add_checked p_item fee mp (refused e) = done (mp, some e)
add_checked p_item fee mp (accepted to_be_removed) =
    replace_oracle_resp p_item.txn fee mp >>= add_unless p_item fee to_be_removed

-- Add returns the error beside the pool, which it may have changed before.
unfoldable pub add : Transaction → Feer → Option ℕ → Pool → Outcome (Pool × Option Err)
add t fee item_data mp =
    let p_item : Item = record { txn = t; block_stamp = fee.block_height; item_data = item_data } in
    if contains_key mp t.hash
    then done (mp, some dup)
    else (check_tx_conflicts mp t fee >>= add_checked p_item fee mp)

-- ===== src/Mempool/Search.antt =====
-- sort.Search of Go, a binary search for the first index at which a test holds, and TryGetData,
-- which looks for an item by its priority.
pub mod Correctness
use koala_tblockchain_golang.Shared.{
  ℕ, zero, suc, ◌+◌, ◌/◌, Bool, true, false, not, ◌==◌, ltb, if◌then◌else◌, List, [], ◌∷◌, Option,
  none, some, length, get_elem?, drop,
}
use koala_tblockchain_golang.Shared.Int.{ℤ, pos, negsuc}
use koala_tblockchain_golang.Mempool.Tx.{Item, compare_to, is_positive}
use koala_tblockchain_golang.Mempool.Pool.{Pool}

-- The loop of sort.Search on the half-open range from i to j; the range shrinks in each round, so
-- its length is fuel enough.
unfoldable pub search_loop : ℕ → (ℕ → Bool) → ℕ → ℕ → ℕ
search_loop zero f i j = i
search_loop (suc fuel) f i j =
    let h = (i + j) / 2 in
    let right = search_loop fuel f (suc h) j in
    let left = search_loop fuel f i h in if ltb i j then (if f h then left else right) else i

unfoldable pub sort_search : ℕ → (ℕ → Bool) → ℕ
sort_search n f = search_loop n f 0 n

-- a test of the item at an index, which is in range whenever sort.Search asks
abbrev pub at_index : (Item → Bool) → List Item → ℕ → Bool
at_index test txes n = elim (get_elem? txes n) [ none ↦ false | some itm ↦ test itm ]

-- the position that Add finds for its item
unfoldable pub insert_position : Item → List Item → ℕ
insert_position p_item txes =
    sort_search (length txes) (at_index (λ itm. is_positive (compare_to p_item itm)) txes)

abbrev pub is_negative : ℤ → Bool
is_negative (pos n) = false
is_negative (negsuc n) = true

abbrev pub is_zero : ℤ → Bool
is_zero (pos n) = n == 0
is_zero (negsuc n) = false

-- the loop of TryGetData, on the items from the position that was found
unfoldable pub find_data : Item → ℕ → List Item → Option (Option ℕ)
find_data itm hash [] = none
find_data itm hash (x ∷ xs) =
    let rest = find_data itm hash xs in
    if x.txn.hash == hash
    then some x.item_data
    else if is_zero (compare_to itm x)
    then rest
    else none

unfoldable pub try_get_data : Pool → ℕ → Option (Option ℕ)
try_get_data mp hash = elim (mp.verified_map hash) [
  | none ↦ none
  | some tx ↦
      let itm : Item = record { txn = tx; block_stamp = 0; item_data = none } in
      let n =
        sort_search (length mp.verified_txes)
          (at_index (λ x. not (is_negative (compare_to itm x))) mp.verified_txes) in
      find_data itm hash (drop n mp.verified_txes)
]

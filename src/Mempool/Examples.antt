-- ===== src/Mempool/Examples.antt =====
-- The pool's theorems at concrete inputs.
use koala_tblockchain_golang.Shared.{
  ℕ, ◌≡◌, ◌≤◌, ◌⊎◌, inr, subst, sym, ap, refl, true, false, [], ◌∷◌, none, some, arith, All, take,
  drop, length, inl,
}
use koala_tblockchain_golang.Shared.Int.{pos, ◌+ℤ◌}
use koala_tblockchain_golang.Shared.Mapping.{empty, put}
use koala_tblockchain_golang.Mempool.Tx.{
  Transaction, Item, oracle_response, compare_to, has_high_priority, fee_per_byte, oracle_ids,
}
use koala_tblockchain_golang.Mempool.Pool.{
  BalanceAndFees, Pool, Feer, new, done, panic, Returns, oom, contains_key,
}
use koala_tblockchain_golang.Mempool.Order.{above, triple_above, sign, sign_of, compare_to-sign_of}
use koala_tblockchain_golang.Mempool.Search.{insert_position, sort_search, search_loop}
use koala_tblockchain_golang.Mempool.Search.Correctness.{insert_position_lem}
use koala_tblockchain_golang.Mempool.Fees.{check_tx_conflicts, accepted, check_balance, sender_fee}
use koala_tblockchain_golang.Mempool.Removal.{remove_internal}
use koala_tblockchain_golang.Mempool.Removal.Invariants.{IsOrdered}
use koala_tblockchain_golang.Mempool.Removal.Coherence.{IsCoherent}
use koala_tblockchain_golang.Mempool.Removal.Accounts.{
  IsAccounted, IsRemoved, remove_internal-IsRemoved,
}
use koala_tblockchain_golang.Mempool.Tally.{tally}
use koala_tblockchain_golang.Mempool.Addition.{add}
use koala_tblockchain_golang.Mempool.Stale.{remove_stale}
use koala_tblockchain_golang.Mempool.Stale.Survivors.{IsSurviving, remove_stale-IsSurviving}
use koala_tblockchain_golang.Mempool.Addition.Checks.{IsReady}
use koala_tblockchain_golang.Mempool.Addition.Safety.{add_safe}
use koala_tblockchain_golang.Mempool.Addition.Results.{Outcomes, add_results}
use koala_tblockchain_golang.Mempool.Addition.StaleOracle.{oom_then_panic}

-- a transaction of account 1 with the given hash and network fee
abbrev tx : ℕ → ℕ → Transaction
tx hash network_fee = record {
  hash = hash;
  system_fee = 0;
  network_fee = network_fee;
  size = 10;
  signers = 1 ∷ [];
  attributes = [];
}

abbrev response : ℕ → Transaction
response hash = record (tx hash 5) { attributes = oracle_response 3 ∷ [] }

abbrev item : Transaction → Item
item t = record { txn = t; block_stamp = 0; item_data = none }

abbrev rich : Feer
rich = record {
  feer_fee_per_byte = 0;
  get_utility_token_balance = λ account. pos 1000;
  block_height = 0;
  p2p_sig_extensions_enabled = false;
}

-- a full pool with one transaction
abbrev full_pool : Pool
full_pool = record (new 1 0) {
  verified_map = put empty 7 (tx 7 100);
  verified_txes = item (tx 7 100) ∷ [];
  fees = put empty 1 (record { balance = pos 1000; fee_sum = pos 100 });
}

put-empty : {V : Type 0} (k j : ℕ) (v w : V) → put empty k v j ≡ some w → (k ≡ j) × (v ≡ w)
put-empty k j v w e = ground arith

full_pool-IsCoherent : IsCoherent full_pool
unfolding new
full_pool-IsCoherent = record {
  hashed = λ h t e. cc ((put-empty 7 h (tx 7 100) t e).0, (put-empty 7 h (tx 7 100) t e).1);
  listed = λ h t e. inl (put-empty 7 h (tx 7 100) t e).1;
  payers = (
    record {
      account = 1;
      signs = refl;
      entry = record { balance = pos 1000; fee_sum = pos 100 };
      known = refl;
    },
    tt,
  );
}

full_pool-IsOrdered : IsOrdered full_pool
unfolding new
full_pool-IsOrdered = ((tt, tt), omega arith)

full_pool-IsReady : IsReady full_pool (tx 8 200)
unfolding new
full_pool-IsReady = record {
  coherent = full_pool-IsCoherent;
  conflicts_known = λ k hs e. absurd cc;
  oracle_known = λ id h e. absurd cc;
  payer = 1;
  signs = refl;
}

add_safe_example :
    Returns
      (λ r. IsCoherent r.0 × IsOrdered r.0 × (r.0.capacity ≡ full_pool.capacity))
      (add (tx 8 200) rich none full_pool)
add_safe_example = add_safe (tx 8 200) rich none full_pool full_pool-IsReady full_pool-IsOrdered

add_results_example : Returns (Outcomes (tx 8 200) full_pool) (add (tx 8 200) rich none full_pool)
add_results_example =
    add_results (tx 8 200) rich none full_pool full_pool-IsReady full_pool-IsOrdered

-- a pool with two transactions of account 1
abbrev two_pool : Pool
two_pool = record (new 2 0) {
  verified_map = put (put empty 7 (tx 7 100)) 9 (tx 9 50);
  verified_txes = item (tx 7 100) ∷ item (tx 9 50) ∷ [];
  fees = put empty 1 (record { balance = pos 1000; fee_sum = pos 150 });
}

abbrev first_payer : BalanceAndFees
first_payer = record { balance = pos 1000; fee_sum = pos 150 }

put-put :
    {V : Type 0} (k l j : ℕ) (v w x : V)
    → put (put empty k v) l w j ≡ some x
    → ((l ≡ j) × (w ≡ x)) ⊎ ((k ≡ j) × (v ≡ x))
put-put k l j v w x e = ground arith

two_pool-IsCoherent : IsCoherent two_pool
unfolding new
two_pool-IsCoherent = record {
  hashed = λ h t e. elim (put-put 7 9 h (tx 7 100) (tx 9 50) t e) [
    | inl x ↦ cc (x.0, x.1)
    | inr x ↦ cc (x.0, x.1)
  ];
  listed = λ h t e. elim (put-put 7 9 h (tx 7 100) (tx 9 50) t e) [
    | inl x ↦ inr (inl x.1)
    | inr x ↦ inl x.1
  ];
  payers = (
    record { account = 1; signs = refl; entry = first_payer; known = refl },
    (record { account = 1; signs = refl; entry = first_payer; known = refl }, tt),
  );
}

two_pool-IsAccounted : IsAccounted two_pool
unfolding new
two_pool-IsAccounted = record {
  coherent = two_pool-IsCoherent;
  mapped = (refl, (refl, tt));
  distinct = ((refl, tt), (tt, tt));
  tallied = λ a e known.
      let (same, this) = put-empty 1 a first_payer e known in
      subst (λ b. e.fee_sum ≡ pos (tally 0 b (item (tx 7 100) ∷ item (tx 9 50) ∷ []))) same
        (sym (ap (λ (x : BalanceAndFees). x.fee_sum) this));
}

remove_internal-IsRemoved_example : Returns (IsRemoved 7 two_pool) (remove_internal 7 rich two_pool)
remove_internal-IsRemoved_example = remove_internal-IsRemoved 7 rich two_pool two_pool-IsAccounted

-- account 1 can pay for the first transaction alone
abbrev poor : Feer
poor = record rich { get_utility_token_balance = λ a. pos 120 }

remove_stale-IsSurviving_example :
    Returns (IsSurviving (λ t. true) poor two_pool) (remove_stale (λ t. true) poor two_pool)
unfolding new
remove_stale-IsSurviving_example =
    remove_stale-IsSurviving (λ t. true) poor two_pool ((1, refl), ((1, refl), tt))

insert_position_lem_example :
    (insert_position (item (tx 8 200)) full_pool.verified_txes ≤ length full_pool.verified_txes)
    × All
        (λ x. above (item (tx 8 200)) x ≡ false)
        (take (insert_position (item (tx 8 200)) full_pool.verified_txes) full_pool.verified_txes)
    × All
        (λ x. above (item (tx 8 200)) x ≡ true)
        (drop (insert_position (item (tx 8 200)) full_pool.verified_txes) full_pool.verified_txes)
insert_position_lem_example =
    insert_position_lem (item (tx 8 200)) full_pool.verified_txes full_pool-IsOrdered.0

compare_to-sign_of_example :
    sign (compare_to (item (tx 7 100)) (item (tx 8 200)))
    ≡ sign_of
        (triple_above
          (has_high_priority [])
          (has_high_priority [])
          (fee_per_byte (tx 7 100))
          (fee_per_byte (tx 8 200))
          100
          200)
        (triple_above
          (has_high_priority [])
          (has_high_priority [])
          (fee_per_byte (tx 8 200))
          (fee_per_byte (tx 7 100))
          200
          100)
compare_to-sign_of_example = compare_to-sign_of (item (tx 7 100)) (item (tx 8 200))

abbrev left_pool : Pool
left_pool = record full_pool { oracle_resp = put full_pool.oracle_resp 3 8 }

ids : (h : ℕ) → oracle_ids (response h).attributes ≡ 3 ∷ []
unfolding oracle_ids
ids h = refl

entry : full_pool.oracle_resp 3 ≡ none
unfolding new
entry = refl

absent : (contains_key full_pool 8 ≡ false) × (contains_key left_pool 9 ≡ false)
unfolding contains_key new
absent = (refl, refl)

checked :
    (check_tx_conflicts full_pool (response 8) rich ≡ done (accepted []))
    × (check_tx_conflicts left_pool (response 9) rich ≡ done (accepted []))
unfolding check_tx_conflicts check_balance sender_fee new ◌+ℤ◌
checked = (refl, refl)

full : length full_pool.verified_txes ≡ full_pool.capacity
unfolding new
full = refl

last : insert_position (item (response 8)) full_pool.verified_txes ≡ 1
unfolding insert_position sort_search search_loop compare_to has_high_priority fee_per_byte
last = refl

oom_then_panic_example :
    let left = record full_pool { oracle_resp = put full_pool.oracle_resp 3 8 } in
    (add (response 8) rich none full_pool ≡ done (left, some oom))
    × (add (response 9) rich none left ≡ panic)
oom_then_panic_example =
    oom_then_panic (response 8) (response 9) rich rich none none full_pool 3 [] [] [] [] (ids 8)
      entry absent.0 checked.0 refl full last (ids 9) absent.1 checked.1

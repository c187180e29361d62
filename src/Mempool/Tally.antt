-- ===== src/Mempool/Tally.antt =====
-- What each account pays for a list of items of the pool of mem_pool.go, counted anew.
use koala_tblockchain_golang.Shared.{
  ℕ, zero, suc, ◌+◌, ◌≡◌, arith, Bool, false, ◌==◌, if◌then◌else◌, List, [], ◌∷◌, ◌++◌, Option,
  none, some, get_elem?,
}
use koala_tblockchain_golang.Shared.Int.{pos, ◌+ℤ◌, ◌-ℤ◌}
use koala_tblockchain_golang.Mempool.Tx.{Transaction, Item}
use koala_tblockchain_golang.Mempool.Removal.{remove_at}

-- the account is the signer
abbrev pub is_account : ℕ → Option ℕ → Bool
is_account account none = false
is_account account (some a) = a == account

abbrev pub amount : Transaction → ℕ
amount t = t.system_fee + t.network_fee

-- what the account pays for the transaction
abbrev pub paid : ℕ → ℕ → Transaction → ℕ
paid payer_index account t =
    if is_account account (get_elem? t.signers payer_index) then amount t else 0

abbrev pub tally : ℕ → ℕ → List Item → ℕ
tally payer_index account [] = 0
tally payer_index account (x ∷ xs) = paid payer_index account x.txn + tally payer_index account xs

pub tally-append :
    (k a : ℕ) (xs ys : List Item) → tally k a (xs ++ ys) ≡ tally k a xs + tally k a ys
tally-append k a [] ys = omega arith
tally-append k a (x ∷ xs) ys = omega (arith, tally-append k a xs ys)

pub tally-remove_at :
    (k a n : ℕ) (itm : Item) (xs : List Item)
    → get_elem? xs n ≡ some itm
    → tally k a xs ≡ tally k a (remove_at n xs) + paid k a itm.txn
tally-remove_at k a n itm [] e = absurd cc
tally-remove_at k a zero itm (x ∷ xs) e = let same : x ≡ itm = cc in rw same (omega arith)
tally-remove_at k a (suc n) itm (x ∷ xs) e = omega (arith, tally-remove_at k a n itm xs e)

pub pos-ℤ_lem : (m n : ℕ) → pos (m + n) -ℤ pos n ≡ pos m
unfolding ◌-ℤ◌
pos-ℤ_lem m n = ground arith

pub pos+ℤ_lem : (m n : ℕ) → pos n +ℤ pos m ≡ pos (m + n)
unfolding ◌+ℤ◌
pos+ℤ_lem m n = ground arith

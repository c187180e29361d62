-- ===== src/Mempool/Tx.antt =====
-- What the memory pool reads of a transaction (pkg/core/transaction/transaction.go), and items of
-- mem_pool.go with their priority. Fees are not negative, as transaction.isValid has checked. A
-- hash and an account are numbers; the caller's `data` of an item is an opaque number.
use koala_tblockchain_golang.Shared.{
  ℕ, ◌/◌, Bool, true, false, not, ◌&&◌, ◌||◌, ◌==◌, if◌then◌else◌, List, [], ◌∷◌, Option,
}
use koala_tblockchain_golang.Shared.Int.{ℤ, pos, negsuc, sub_ℕ}

-- transaction.Attribute, by its type, with the fields that are read
pub data Attribute : Type 0 where
  high_priority not_valid_before notary_assisted : Attribute
  oracle_response conflicts_attr : ℕ → Attribute
  reserved : ℕ → Attribute

pub record Transaction : Type 0 where
  pub hash : ℕ
  pub system_fee : ℕ
  pub network_fee : ℕ
  pub size : ℕ
  pub signers : List ℕ
  pub attributes : List Attribute

-- HasAttribute(HighPriority)
unfoldable pub has_high_priority : List Attribute → Bool
has_high_priority [] = false
has_high_priority (high_priority ∷ as_) = true
has_high_priority (a ∷ as_) = has_high_priority as_

-- GetAttributes(OracleResponseT), by the ids
unfoldable pub oracle_ids : List Attribute → List ℕ
oracle_ids [] = []
oracle_ids (oracle_response id ∷ as_) = id ∷ oracle_ids as_
oracle_ids (a ∷ as_) = oracle_ids as_

-- GetAttributes(ConflictsT), by the hashes
unfoldable pub conflict_hashes : List Attribute → List ℕ
conflict_hashes [] = []
conflict_hashes (conflicts_attr h ∷ as_) = h ∷ conflict_hashes as_
conflict_hashes (a ∷ as_) = conflict_hashes as_

-- HasSigner
unfoldable pub has_signer : List ℕ → ℕ → Bool
has_signer [] account = false
has_signer (h ∷ signers) account = h == account || has_signer signers account

-- FeePerByte
unfoldable pub fee_per_byte : Transaction → ℕ
fee_per_byte t = t.network_fee / t.size

pub record Item : Type 0 where
  pub txn : Transaction
  pub block_stamp : ℕ
  pub item_data : Option ℕ

abbrev nonzero_or : ℤ → ℤ → ℤ
nonzero_or (pos n) other = if n == 0 then other else pos n
nonzero_or (negsuc n) other = negsuc n

-- CompareTo
unfoldable pub compare_to : Item → Item → ℤ
compare_to p other =
    let p_high = has_high_priority p.txn.attributes in
    let other_high = has_high_priority other.txn.attributes in
    if p_high && not other_high
    then pos 1
    else if not p_high && other_high
    then negsuc 0
    else nonzero_or (sub_ℕ (fee_per_byte p.txn) (fee_per_byte other.txn))
        (sub_ℕ p.txn.network_fee other.txn.network_fee)

-- `> 0` of a comparison
abbrev pub is_positive : ℤ → Bool
is_positive (pos n) = not (n == 0)
is_positive (negsuc n) = false

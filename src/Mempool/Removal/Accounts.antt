-- ===== src/Mempool/Removal/Accounts.antt =====
-- The accounts of the pool: its list and its map have the same transactions, each once, and the sum
-- of fees of every sender is that of its items. removeInternal keeps them.
use koala_tblockchain_golang.Shared.{
  ℕ, zero, suc, ◌+◌, ◌≡◌, refl, ap, ◌∙◌, arith, false, List, [], ◌∷◌, Option, none, some, inl, inr,
  ◌==◌, Bool-cases, get_elem?, All, All-remove_at, subst,
}
use koala_tblockchain_golang.Shared.Mapping.{put, delete}
use koala_tblockchain_golang.Shared.Int.{pos, ◌-ℤ◌}
use koala_tblockchain_golang.Mempool.Tx.{Transaction, Item}
use koala_tblockchain_golang.Mempool.Pool.{
  Outcome, panic, done, Pool, Feer, BalanceAndFees, Returns, Returns-map, deref, ◌>>=◌,
}
use koala_tblockchain_golang.Mempool.Fees.{fee_of}
use koala_tblockchain_golang.Mempool.Tally.{paid, tally, tally-remove_at, pos-ℤ_lem}
use koala_tblockchain_golang.Mempool.Removal.{
  remove_at, find_index, finish_removal, remove_found, remove_internal,
}
use koala_tblockchain_golang.Mempool.Removal.Coherence.{
  HasPayer, IsCoherent, remove_internal-IsCoherent, All-get_elem?, find_index_lem,
  finish_removal_lem,
}

-- no two items have the same hash
abbrev pub Distinct : List Item → Type 0
Distinct [] = Unit
Distinct (x ∷ xs) = All (λ y. (x.txn.hash == y.txn.hash) ≡ false) xs × Distinct xs

-- an entry of fees has the sum of what its account pays for the items
abbrev pub IsTallied : Pool → Type 0
IsTallied mp =
    (a : ℕ) (e : BalanceAndFees)
    → mp.fees a ≡ some e
    → e.fee_sum ≡ pos (tally mp.payer_index a mp.verified_txes)

pub record IsAccounted (mp : Pool) : Type 0 where
  pub coherent : IsCoherent mp
  pub mapped : All (λ x. mp.verified_map x.txn.hash ≡ some x.txn) mp.verified_txes
  pub distinct : Distinct mp.verified_txes
  pub tallied : IsTallied mp

All-apart :
    (n : ℕ) (itm : Item) (xs : List Item)
    → get_elem? xs n ≡ some itm
    → Distinct xs
    → All (λ x. (itm.txn.hash == x.txn.hash) ≡ false) (remove_at n xs)
All-apart n itm [] e d = absurd cc
All-apart zero itm (x ∷ xs) e d =
    let same : x ≡ itm = cc in
    subst (λ (z : Item). All (λ x. (z.txn.hash == x.txn.hash) ≡ false) xs) same d.0
All-apart (suc n) itm (x ∷ xs) e d = (
  ground (arith, All-get_elem? (λ y. (x.txn.hash == y.txn.hash) ≡ false) xs n itm e d.0),
  All-apart n itm xs e d.1,
)

Distinct-remove_at : (n : ℕ) (xs : List Item) → Distinct xs → Distinct (remove_at n xs)
Distinct-remove_at zero [] d = tt
Distinct-remove_at (suc n) [] d = tt
Distinct-remove_at zero (x ∷ xs) d = d.1
Distinct-remove_at (suc n) (x ∷ xs) d =
    (All-remove_at (λ y. (x.txn.hash == y.txn.hash) ≡ false) n xs d.0, Distinct-remove_at n xs d.1)

-- All with two facts at each element
All-both :
    (P Q R : Item → Type 0)
    → ((x : Item) → P x → Q x → R x)
    → (xs : List Item) → All P xs
    → All Q xs
    → All R xs
All-both P Q R f [] p q = tt
All-both P Q R f (x ∷ xs) p q = (f x p.0 q.0, All-both P Q R f xs p.1 q.1)

-- the accounts without the item at an index, whose payer's entry has the sum without it
module _ (mp : Pool) (c : IsAccounted mp) (n : ℕ) (itm : Item)
    (at_ : get_elem? mp.verified_txes n ≡ some itm)
    (p : HasPayer mp.payer_index mp.fees itm.txn) where
  abbrev less_fee : BalanceAndFees
  less_fee = record (p.entry) { fee_sum = p.entry.fee_sum -ℤ fee_of itm.txn }

  less_fee_lem :
      less_fee.fee_sum ≡ pos (tally mp.payer_index p.account (remove_at n mp.verified_txes))
  less_fee_lem =
      let all = tally-remove_at mp.payer_index p.account n itm mp.verified_txes at_ in
      let one : paid mp.payer_index p.account itm.txn ≡ itm.txn.system_fee + itm.txn.network_fee =
        rw p.signs (ground arith) in
      ap (λ s. s -ℤ fee_of itm.txn)
        (c.tallied p.account p.entry p.known
          ∙ ap pos (
              all
              ∙ ap (λ m. tally mp.payer_index p.account (remove_at n mp.verified_txes) + m) one))
      ∙ pos-ℤ_lem (tally mp.payer_index p.account (remove_at n mp.verified_txes))
          (itm.txn.system_fee + itm.txn.network_fee)

  removed-tallied :
      (a : ℕ) (e : BalanceAndFees)
      → put mp.fees p.account less_fee a ≡ some e
      → e.fee_sum ≡ pos (tally mp.payer_index a (remove_at n mp.verified_txes))
  removed-tallied a e there = elim (Bool-cases (p.account == a)) [
    | inl eq ↦
        let same : p.account ≡ a = ground arith in
        let this : less_fee ≡ e = cc (rw eq at there) in
        subst
          (λ (x : BalanceAndFees).
            x.fee_sum ≡ pos (tally mp.payer_index a (remove_at n mp.verified_txes)))
          this
          (subst
            (λ b. less_fee.fee_sum ≡ pos (tally mp.payer_index b (remove_at n mp.verified_txes)))
            same less_fee_lem)
    | inr ne ↦
        let old : mp.fees a ≡ some e = rw ne at there in
        let none_ : paid mp.payer_index a itm.txn ≡ 0 = rw (p.signs, ne) refl in
        c.tallied a e old
        ∙ ap pos (omega (arith, none_, tally-remove_at mp.payer_index a n itm mp.verified_txes at_))
  ]

  removed-mapped :
      All
        (λ x. delete mp.verified_map itm.txn.hash x.txn.hash ≡ some x.txn)
        (remove_at n mp.verified_txes)
  removed-mapped =
      All-both (λ x. (itm.txn.hash == x.txn.hash) ≡ false)
        (λ x. mp.verified_map x.txn.hash ≡ some x.txn)
        (λ x. delete mp.verified_map itm.txn.hash x.txn.hash ≡ some x.txn)
        (λ x ne there. rw ne there) (remove_at n mp.verified_txes)
        (All-apart n itm mp.verified_txes at_ c.distinct)
        (All-remove_at (λ x. mp.verified_map x.txn.hash ≡ some x.txn) n mp.verified_txes c.mapped)

-- the accounts are as they should be, with nothing else gone than the hash
abbrev pub IsRemoved : ℕ → Pool → Pool → Type 0
IsRemoved hash mp mp' =
    IsAccounted mp'
    × ((h : ℕ) → mp'.verified_map h ≡ delete mp.verified_map hash h)
    × (mp'.payer_index ≡ mp.payer_index)

Returns-both :
    {A : Type 0} (P Q : A → Type 0) (o : Outcome A)
    → Returns P o
    → Returns Q o
    → Returns (λ a. P a × Q a) o
Returns-both P Q panic p q = p
Returns-both P Q (done a) p q = (p, q)

remove_at_index-IsRemoved :
    (hash : ℕ) (feer : Feer) (mp : Pool) (n : ℕ) (itm : Item)
    → get_elem? mp.verified_txes n ≡ some itm
    → itm.txn.hash ≡ hash
    → IsAccounted mp
    → Returns
        (λ mp'. IsCoherent mp' → IsRemoved hash mp mp')
        (deref (get_elem? mp.verified_txes n) >>= λ found.
          finish_removal itm.txn found feer (record mp {
            verified_map = delete mp.verified_map hash;
            verified_txes = remove_at n mp.verified_txes;
          }))
remove_at_index-IsRemoved hash feer mp n itm at_ same c =
    let mp0 = record mp {
      verified_map = delete mp.verified_map hash;
      verified_txes = remove_at n mp.verified_txes;
    } in
    let p =
      All-get_elem? (λ x. HasPayer mp.payer_index mp.fees x.txn) mp.verified_txes n itm at_
        c.coherent.payers in
    rw at_ (
      Returns-map (finish_removal itm.txn itm feer mp0) (finish_removal_lem itm.txn itm feer mp0 p)
        λ mp' fields coherent. (
          record {
            coherent = coherent;
            mapped = rw (fields.0, fields.1, ← same) (removed-mapped mp c n itm at_ p);
            distinct = rw fields.0 (Distinct-remove_at n mp.verified_txes c.distinct);
            tallied = rw (fields.0, fields.2, fields.3) (removed-tallied mp c n itm at_ p);
          },
          (λ h. rw fields.1 refl),
          fields.2,
        ))

remove_found-IsRemoved :
    (hash : ℕ) (feer : Feer) (mp : Pool) (found : Option Transaction)
    → mp.verified_map hash ≡ found
    → IsAccounted mp
    → Returns (λ mp'. IsCoherent mp' → IsRemoved hash mp mp') (remove_found hash feer mp found)
unfolding remove_found
remove_found-IsRemoved hash feer mp none e c = λ coherent. (
  c,
  (λ h. elim (Bool-cases (hash == h)) [
    | inl eq ↦ let same : hash ≡ h = ground arith in rw (eq, ← same, e) refl
    | inr ne ↦ rw ne refl
  ]),
  refl,
)
remove_found-IsRemoved hash feer mp (some tx) e c =
    let tx_hash : tx.hash ≡ hash = c.coherent.hashed hash tx e in
    let (itm, at_, itm_hash) = find_index_lem tx mp.verified_txes (c.coherent.listed hash tx e) in
    let n = find_index hash mp.verified_txes in
    let at_n : get_elem? mp.verified_txes n ≡ some itm =
      subst (λ h. get_elem? mp.verified_txes (find_index h mp.verified_txes) ≡ some itm) tx_hash
        at_ in
    let there : mp.verified_map itm.txn.hash ≡ some itm.txn =
      All-get_elem? (λ x. mp.verified_map x.txn.hash ≡ some x.txn) mp.verified_txes n itm at_n
        c.mapped in
    let at_hash : mp.verified_map hash ≡ some itm.txn =
      subst (λ h. mp.verified_map h ≡ some itm.txn) (itm_hash ∙ tx_hash) there in
    let same : itm.txn ≡ tx = cc (at_hash, e) in
    subst
      (λ t.
        Returns (λ mp'. IsCoherent mp' → IsRemoved hash mp mp')
          (remove_found hash feer mp (some t)))
      same (remove_at_index-IsRemoved hash feer mp n itm at_n (itm_hash ∙ tx_hash) c)

-- Take a pool whose map and list have the same transactions, each once, under their hashes, and
-- whose sums of fees, one for every sender, are those of the listed items. removeInternal does not
-- panic on it, whether it has the hash or not, and leaves such a pool, from whose map nothing but
-- the hash is gone.
pub remove_internal-IsRemoved :
    (hash : ℕ) (feer : Feer) (mp : Pool)
    → IsAccounted mp
    → Returns (IsRemoved hash mp) (remove_internal hash feer mp)
unfolding remove_internal
remove_internal-IsRemoved hash feer mp c =
    Returns-map (remove_internal hash feer mp)
      (Returns-both (λ mp'. IsCoherent mp' × (mp'.payer_index ≡ mp.payer_index))
        (λ mp'. IsCoherent mp' → IsRemoved hash mp mp') (remove_internal hash feer mp)
        (remove_internal-IsCoherent hash feer mp c.coherent)
        (remove_found-IsRemoved hash feer mp (mp.verified_map hash) refl c))
      λ mp' both. both.1 (both.0).0

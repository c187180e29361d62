-- ===== src/Mempool/Removal/Coherence.antt =====
-- The pool's map and its list agree, and the fees of every sender are there; from such a pool
-- removeInternal never panics, and it leaves one.
use koala_tblockchain_golang.Shared.{
  ℕ, zero, suc, ◌≡◌, ◌≢◌, ◌⊎◌, refl, ◌∙◌, arith, List, [], ◌∷◌, Option, none, some, ap, inl, inr,
  ◌==◌, Bool-cases, get_elem?, All, All-map, All-remove_at, ==_iff, subst,
}
use koala_tblockchain_golang.Shared.Mapping.{Mapping, put, delete}
use koala_tblockchain_golang.Shared.Int.{◌-ℤ◌}
use koala_tblockchain_golang.Mempool.Tx.{Transaction, Item}
use koala_tblockchain_golang.Mempool.Pool.{
  Pool, Feer, BalanceAndFees, Returns, Returns-map, deref, ◌>>=◌,
}
use koala_tblockchain_golang.Mempool.Fees.{fee_of}
use koala_tblockchain_golang.Mempool.Removal.{
  remove_at, find_index, finish_removal, remove_found, remove_internal,
}
use koala_tblockchain_golang.Mempool.Removal.Invariants.{clean_up_frame}

-- the transaction stands in the list
abbrev pub Listed : Transaction → List Item → Type 0
Listed t [] = ⊥
Listed t (x ∷ xs) = (x.txn ≡ t) ⊎ Listed t xs

-- the payer of the transaction is among its signers, and has an entry of fees
pub record HasPayer (payer_index : ℕ) (fees : Mapping BalanceAndFees) (t : Transaction)
    : Type 0 where
  pub account : ℕ
  pub signs : get_elem? t.signers payer_index ≡ some account
  pub entry : BalanceAndFees
  pub known : fees account ≡ some entry

pub record IsCoherent (mp : Pool) : Type 0 where
  pub hashed : (h : ℕ) (t : Transaction) → mp.verified_map h ≡ some t → t.hash ≡ h
  pub listed : (h : ℕ) (t : Transaction) → mp.verified_map h ≡ some t → Listed t mp.verified_txes
  pub payers : All (λ x. HasPayer mp.payer_index mp.fees x.txn) mp.verified_txes

-- the loop of removeInternal finds a transaction that is listed
pub find_index_lem :
    (t : Transaction) (xs : List Item)
    → Listed t xs
    → (itm : Item) × (get_elem? xs (find_index t.hash xs) ≡ some itm) × (itm.txn.hash ≡ t.hash)
unfolding find_index
find_index_lem t [] l = absurd l
find_index_lem t (x ∷ []) (inl e) = (x, refl, ap (λ (y : Transaction). y.hash) e)
find_index_lem t (x ∷ []) (inr l) = absurd l
find_index_lem t (x ∷ (y ∷ ys)) l = elim (Bool-cases (x.txn.hash == t.hash)) [
  | inl e ↦ (x, rw e refl, (==_iff _ _).0 e)
  | inr e ↦ elim l [
    | inl same ↦ absurd (ground (arith, ap (λ (z : Transaction). z.hash) same))
    | inr rest ↦ let (itm, at_, h) = find_index_lem t (y ∷ ys) rest in (itm, rw e at_, h)
  ]
]

pub Listed-remove_at :
    (t : Transaction) (n : ℕ) (itm : Item) (xs : List Item)
    → get_elem? xs n ≡ some itm
    → itm.txn.hash ≢ t.hash
    → Listed t xs
    → Listed t (remove_at n xs)
Listed-remove_at t n itm [] e ne l = absurd l
Listed-remove_at t zero itm (x ∷ xs) e ne (inl same) = absurd (ne (cc (e, same)))
Listed-remove_at t zero itm (x ∷ xs) e ne (inr l) = l
Listed-remove_at t (suc n) itm (x ∷ xs) e ne (inl same) = inl same
Listed-remove_at t (suc n) itm (x ∷ xs) e ne (inr l) = inr (Listed-remove_at t n itm xs e ne l)

-- an entry that is written anew is still there
pub HasPayer-put :
    (payer_index a : ℕ) (fees : Mapping BalanceAndFees) (fee : BalanceAndFees) (t : Transaction)
    → HasPayer payer_index fees t
    → HasPayer payer_index (put fees a fee) t
HasPayer-put payer_index a fees fee t h = elim (Bool-cases (a == h.account)) [
  | inl e ↦ record { account = h.account; signs = h.signs; entry = fee; known = rw e refl }
  | inr e ↦ record { account = h.account; signs = h.signs; entry = h.entry; known = rw e h.known }
]

-- the fields of the pool that finish_removal leaves for a payer with an entry
pub finish_removal_lem :
    (tx : Transaction) (itm : Item) (feer : Feer) (mp : Pool)
    (p : HasPayer mp.payer_index mp.fees itm.txn)
    → Returns
        (λ mp'.
          (mp'.verified_txes ≡ mp.verified_txes)
          × (mp'.verified_map ≡ mp.verified_map)
          × (mp'.payer_index ≡ mp.payer_index)
          × (mp'.fees
              ≡ put mp.fees p.account
                  (record (p.entry) { fee_sum = p.entry.fee_sum -ℤ fee_of tx })))
        (finish_removal tx itm feer mp)
finish_removal_lem tx itm feer mp p =
    let e = clean_up_frame feer.p2p_sig_extensions_enabled tx (record mp {
      fees = put mp.fees p.account (record (p.entry) { fee_sum = p.entry.fee_sum -ℤ fee_of tx });
    }) in
    rw (finish_removal, p.signs)
      (rw p.known (
        ap (λ (m : Pool). m.verified_txes) e,
        ap (λ (m : Pool). m.verified_map) e,
        ap (λ (m : Pool). m.payer_index) e,
        ap (λ (m : Pool). m.fees) e,
      ))

pub All-get_elem? :
    (P : Item → Type 0) (xs : List Item) (n : ℕ) (itm : Item)
    → get_elem? xs n ≡ some itm
    → All P xs
    → P itm
All-get_elem? P [] n itm e h = cc
All-get_elem? P (x ∷ xs) zero itm e h = subst P (cc) h.0
All-get_elem? P (x ∷ xs) (suc n) itm e h = All-get_elem? P xs n itm e h.1

-- the map and the list without the transaction agree again
module _ (mp : Pool) (c : IsCoherent mp) (hash n : ℕ) (itm : Item)
    (at_ : get_elem? mp.verified_txes n ≡ some itm) (same : itm.txn.hash ≡ hash) where
  deleted-Listed :
      (h : ℕ) (t : Transaction)
      → delete mp.verified_map hash h ≡ some t
      → (mp.verified_map h ≡ some t) × Listed t (remove_at n mp.verified_txes)
  deleted-Listed h t e = elim (Bool-cases (hash == h)) [
    | inl eq ↦ cc (rw eq at e)
    | inr ne ↦
        let there : mp.verified_map h ≡ some t = rw ne at e in
        (
          there,
          Listed-remove_at t n itm mp.verified_txes at_ (ground (arith, c.hashed h t there))
              (c.listed h t there),
        )
  ]

  remove_at_index-IsCoherent :
      (tx : Transaction) (feer : Feer)
      → Returns
          (λ mp'. IsCoherent mp' × (mp'.payer_index ≡ mp.payer_index))
          (deref (get_elem? mp.verified_txes n) >>= λ found.
            finish_removal tx found feer (record mp {
              verified_map = delete mp.verified_map hash;
              verified_txes = remove_at n mp.verified_txes;
            }))
  remove_at_index-IsCoherent tx feer =
      let mp0 = record mp {
        verified_map = delete mp.verified_map hash;
        verified_txes = remove_at n mp.verified_txes;
      } in
      let p =
        All-get_elem? (λ x. HasPayer mp.payer_index mp.fees x.txn) mp.verified_txes n itm at_
          c.payers in
      let fee = record (p.entry) { fee_sum = p.entry.fee_sum -ℤ fee_of tx } in
      rw at_ (
        Returns-map (finish_removal tx itm feer mp0) (finish_removal_lem tx itm feer mp0 p)
          λ mp' same_fields. (
            record {
              hashed = λ h t e. c.hashed h t (deleted-Listed h t (rw same_fields.1 at e)).0;
              listed = λ h t e. rw same_fields.0 (deleted-Listed h t (rw same_fields.1 at e)).1;
              payers =
                  rw (same_fields.0, same_fields.2, same_fields.3)
                    (All-map (λ x. HasPayer mp.payer_index mp.fees x.txn)
                      (λ x. HasPayer mp.payer_index (put mp.fees p.account fee) x.txn)
                      (λ x h. HasPayer-put mp.payer_index p.account mp.fees fee x.txn h)
                      (remove_at n mp.verified_txes)
                      (All-remove_at (λ x. HasPayer mp.payer_index mp.fees x.txn) n mp.verified_txes
                        c.payers));
            },
            same_fields.2,
          ))

remove_found-IsCoherent :
    (hash : ℕ) (feer : Feer) (mp : Pool) (found : Option Transaction)
    → mp.verified_map hash ≡ found
    → IsCoherent mp
    → Returns
        (λ mp'. IsCoherent mp' × (mp'.payer_index ≡ mp.payer_index))
        (remove_found hash feer mp found)
unfolding remove_found
remove_found-IsCoherent hash feer mp none e c = (c, refl)
remove_found-IsCoherent hash feer mp (some tx) e c =
    let same : tx.hash ≡ hash = c.hashed hash tx e in
    let found = find_index_lem tx mp.verified_txes (c.listed hash tx e) in
    remove_at_index-IsCoherent mp c hash (find_index hash mp.verified_txes) found.0
      (subst (λ h. get_elem? mp.verified_txes (find_index h mp.verified_txes) ≡ some found.0) same
        found.1)
      (found.2 ∙ same) tx feer

-- On a coherent pool a removal does not panic, and leaves a coherent pool.
pub remove_internal-IsCoherent :
    (hash : ℕ) (feer : Feer) (mp : Pool)
    → IsCoherent mp
    → Returns
        (λ mp'. IsCoherent mp' × (mp'.payer_index ≡ mp.payer_index))
        (remove_internal hash feer mp)
unfolding remove_internal
remove_internal-IsCoherent hash feer mp c =
    remove_found-IsCoherent hash feer mp (mp.verified_map hash) refl c

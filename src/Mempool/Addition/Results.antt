-- ===== src/Mempool/Addition/Results.antt =====
-- What the results of Add mean for the pool.
use koala_tblockchain_golang.Shared.{
  ℕ, ◌≡◌, ◌⊎◌, refl, sym, if-cases, Bool-cases, Option-cases, arith, ◌∙◌, Bool, true, false, List,
  [], ◌∷◌, Option, none, some, ap, inl, inr, leb, ◌==◌, ==-self, if-elim, ◌++◌,
}
use koala_tblockchain_golang.Shared.Mapping.{put}
use koala_tblockchain_golang.Mempool.Tx.{Transaction, Item, oracle_ids}
use koala_tblockchain_golang.Mempool.Pool.{
  emit, transaction_added, Outcome, panic, done, Err, oom, dup, oracle_response_err, Returns,
  Returns-map, Returns-and-Holds, Pool, Feer, Holds, Holds-bind, Holds-any, Holds-map, deref,
  payer_of, contains_key,
}
use koala_tblockchain_golang.Mempool.Search.{insert_position}
use koala_tblockchain_golang.Mempool.Fees.{
  Checked, refused, accepted, try_add_senders_fee, check_tx_conflicts,
}
use koala_tblockchain_golang.Mempool.Addition.{
  add_conflicts_if, replace_entry, replace_first, replace_oracle_resp, remove_all_if, place,
  make_room, insert_item, insert_or_oom, add_item, add_unless, add_checked, add,
}
use koala_tblockchain_golang.Mempool.Addition.Safety.{add_conflicts_if_fields, add_safe}
use koala_tblockchain_golang.Mempool.Addition.Checks.{IsReady}
use koala_tblockchain_golang.Mempool.Addition.Shrinking.{
  RoomOrOom, make_room-RoomOrOom, remove_all_if-Shrinks, replace_first-Shrinks,
}
use koala_tblockchain_golang.Mempool.Removal.{remove_internal}
use koala_tblockchain_golang.Mempool.Removal.Invariants.{IsOrdered, Shrinks}
use koala_tblockchain_golang.Mempool.Removal.Coherence.{IsCoherent}

-- Add has put t in the pool, and nothing else
abbrev pub IsAdded : Transaction → Pool → Pool × Option Err → Type 0
IsAdded t mp r =
    (r.1 ≡ none)
    × (r.0.verified_map t.hash ≡ some t)
    × ((h : ℕ) (x : Transaction)
        → r.0.verified_map h ≡ some x
        → (h ≡ t.hash) ⊎ (mp.verified_map h ≡ some x))

try_add_senders_fee_map :
    (t : Transaction) (fee : Feer) (mp : Pool)
    → Holds (λ r. r.0.verified_map ≡ mp.verified_map) (try_add_senders_fee t fee false mp)
unfolding try_add_senders_fee
try_add_senders_fee_map t fee mp =
    Holds-bind (λ a. Unit) (λ (r : Pool × Bool). r.0.verified_map ≡ mp.verified_map) (payer_of mp t)
      _ (Holds-any (payer_of mp t)) λ payer _. refl

-- the map with a new entry
put-IsAdded :
    (t : Transaction) (mp mp' : Pool)
    → ((h : ℕ) → mp'.verified_map h ≡ put mp.verified_map t.hash t h)
    → IsAdded t mp (mp', none)
put-IsAdded t mp mp' m = (
  refl,
  m t.hash ∙ rw (==-self t.hash) refl,
  λ h x there. elim (Bool-cases (t.hash == h)) [
    | inl eq ↦ let same : t.hash ≡ h = ground arith in inl (sym same)
    | inr ne ↦
        let put_there : put mp.verified_map t.hash t h ≡ some x = sym (m h) ∙ there in
        inr (rw ne at put_there)
  ],
)

insert_item-IsAdded :
    (p : Item) (n : ℕ) (fee : Feer) (mp : Pool) → Holds (IsAdded p.txn mp) (insert_item n p fee mp)
unfolding insert_item
insert_item-IsAdded p n fee mp =
    let mp0 = record mp {
      verified_map = put mp.verified_map p.txn.hash p.txn;
      verified_txes = place n p (mp.verified_txes ++ p ∷ []);
    } in
    let mp1 = add_conflicts_if fee.p2p_sig_extensions_enabled p.txn mp0 in
    let e = add_conflicts_if_fields fee.p2p_sig_extensions_enabled p.txn mp0 in
    Holds-bind (λ (r : Pool × Bool). r.0.verified_map ≡ mp1.verified_map) (IsAdded p.txn mp)
      (try_add_senders_fee p.txn fee false mp1) _ (try_add_senders_fee_map p.txn fee mp1)
      λ r same.
        put-IsAdded p.txn mp (emit (transaction_added p.txn p.item_data) r.0)
          λ h. ap (λ (m : ℕ → Option Transaction). m h) (same ∙ ap (λ (m : Pool). m.verified_map) e)

-- t is in the pool, or there is no room, and the pool is as it was
abbrev AddedOrOom : Transaction → Pool → Pool × Option Err → Type 0
AddedOrOom t mp r = IsAdded t mp r ⊎ ((r.1 ≡ some oom) × (r.0 ≡ mp))

-- what is added to a part of a pool is added to it
IsAdded-Shrinks :
    (t : Transaction) (mp mp' : Pool) (r : Pool × Option Err)
    → Shrinks mp mp'
    → IsAdded t mp' r
    → IsAdded t mp r
IsAdded-Shrinks t mp mp' r s (e, there, others) =
    (e, there, λ h x found. elim (others h x found) [ inl eq ↦ inl eq | inr old ↦ inr (s h x old) ])

insert_or_oom-AddedOrOom :
    (p : Item) (n : ℕ) (fee : Feer) (mp : Pool) (c : Checked Pool)
    → RoomOrOom mp c
    → Holds (AddedOrOom p.txn mp) (insert_or_oom n p fee mp c)
insert_or_oom-AddedOrOom p n fee mp (refused e) h = inr (ap some h, refl)
insert_or_oom-AddedOrOom p n fee mp (accepted mp') h =
    Holds-map (insert_item n p fee mp') (insert_item-IsAdded p n fee mp')
      λ r added. inl (IsAdded-Shrinks p.txn mp mp' r h added)

add_item-AddedOrOom :
    (p : Item) (fee : Feer) (mp : Pool) → Holds (AddedOrOom p.txn mp) (add_item p fee mp)
unfolding add_item
add_item-AddedOrOom p fee mp =
    Holds-bind (RoomOrOom mp) (AddedOrOom p.txn mp)
      (make_room (insert_position p mp.verified_txes) fee mp) _
      (make_room-RoomOrOom (insert_position p mp.verified_txes) fee mp)
      λ c h. insert_or_oom-AddedOrOom p (insert_position p mp.verified_txes) fee mp c h

-- for want of room t is not in the pool, in which there is nothing new
abbrev pub IsOom : Transaction → Pool → Pool × Option Err → Type 0
IsOom t mp r = (r.1 ≡ some oom) × (r.0.verified_map t.hash ≡ none) × Shrinks mp r.0

-- t is in the pool; or ErrOOM; or another error, which leaves the pool as it was
abbrev pub Outcomes : Transaction → Pool → Pool × Option Err → Type 0
Outcomes t mp r = IsAdded t mp r ⊎ (IsOom t mp r ⊎ (((e : Err) × (r.1 ≡ some e)) × (r.0 ≡ mp)))

absent-Shrinks :
    (mp mp' : Pool) (h : ℕ) → mp.verified_map h ≡ none → Shrinks mp mp' → mp'.verified_map h ≡ none
absent-Shrinks mp mp' h e s = elim (Option-cases (mp'.verified_map h)) [
  | inl absent ↦ absent
  | inr (x, there) ↦ absurd (cc (s h x there, e))
]

weaken :
    (t : Transaction) (mp mp' : Pool) (r : Pool × Option Err)
    → mp.verified_map t.hash ≡ none
    → Shrinks mp mp'
    → AddedOrOom t mp' r
    → Outcomes t mp r
weaken t mp mp' r absent s (inl added) = inl (IsAdded-Shrinks t mp mp' r s added)
weaken t mp mp' r absent s (inr (e, same)) =
    inr (inl (e, rw same (absent-Shrinks mp mp' t.hash absent s), rw same s))

-- what the branch on OracleResponse leaves when it refuses
abbrev SameIfRefused : Pool → Pool × Bool → Type 0
SameIfRefused mp r = (r.1 ≡ true) ⊎ (r.0 ≡ mp)

replace_entry-SameIfRefused :
    (t : Transaction) (fee : Feer) (mp : Pool) (id : ℕ) (entry : Option ℕ)
    → Holds (SameIfRefused mp) (replace_entry t fee mp id entry)
unfolding replace_entry
replace_entry-SameIfRefused t fee mp id none = inl refl
replace_entry-SameIfRefused t fee mp id (some h) =
    Holds-bind (λ a. Unit) (SameIfRefused mp) (deref (mp.verified_map h)) _
      (Holds-any (deref (mp.verified_map h)))
      λ old _. if-elim (Holds (SameIfRefused mp)) (leb t.network_fee old.network_fee) (inr refl) (
        Holds-bind (λ a. Unit) (SameIfRefused mp) (remove_internal h fee mp) _
          (Holds-any (remove_internal h fee mp)) λ mp' _. inl refl)

replace_first-SameIfRefused :
    (t : Transaction) (fee : Feer) (mp : Pool) (ids : List ℕ)
    → Holds (SameIfRefused mp) (replace_first t fee mp ids)
unfolding replace_first
replace_first-SameIfRefused t fee mp [] = inl refl
replace_first-SameIfRefused t fee mp (id ∷ ids) =
    replace_entry-SameIfRefused t fee mp id (mp.oracle_resp id)

add_unless-Outcomes :
    (p : Item) (fee : Feer) (mp : Pool) (txs : List Transaction) (r : Pool × Bool)
    → mp.verified_map p.txn.hash ≡ none
    → SameIfRefused mp r × Shrinks mp r.0
    → Holds (Outcomes p.txn mp) (add_unless p fee txs r)
add_unless-Outcomes p fee mp txs (mp', false) absent (inl h, s) = cc
add_unless-Outcomes p fee mp txs (mp', false) absent (inr h, s) =
    inr (inr ((oracle_response_err, refl), h))
add_unless-Outcomes p fee mp txs (mp', true) absent (h, s) =
    Holds-bind (Shrinks mp') (Outcomes p.txn mp)
      (remove_all_if fee.p2p_sig_extensions_enabled txs fee mp') (add_item p fee)
      (remove_all_if-Shrinks fee.p2p_sig_extensions_enabled txs fee mp')
      λ mp'' s'.
        Holds-map (add_item p fee mp'') (add_item-AddedOrOom p fee mp'')
          λ r. weaken p.txn mp mp'' r absent (λ k x e. s k x (s' k x e))

Holds-both :
    {A : Type 0} (P Q : A → Type 0) (o : Outcome A)
    → Holds P o
    → Holds Q o
    → Holds (λ a. P a × Q a) o
Holds-both P Q panic p q = tt
Holds-both P Q (done a) p q = (p, q)

add_checked-Outcomes :
    (p : Item) (fee : Feer) (mp : Pool) (o : Checked (List Transaction))
    → mp.verified_map p.txn.hash ≡ none
    → Holds (Outcomes p.txn mp) (add_checked p fee mp o)
unfolding replace_oracle_resp
add_checked-Outcomes p fee mp (refused e) absent = inr (inr ((e, refl), refl))
add_checked-Outcomes p fee mp (accepted txs) absent =
    let replaced = replace_first p.txn fee mp (oracle_ids p.txn.attributes) in
    Holds-bind (λ r. SameIfRefused mp r × Shrinks mp r.0) (Outcomes p.txn mp) replaced
      (add_unless p fee txs)
      (Holds-both (SameIfRefused mp) (λ r. Shrinks mp r.0) replaced
        (replace_first-SameIfRefused p.txn fee mp (oracle_ids p.txn.attributes))
        (replace_first-Shrinks p.txn fee mp (oracle_ids p.txn.attributes)))
      λ r h. add_unless-Outcomes p fee mp txs r absent h

absent_lem : (mp : Pool) (h : ℕ) → contains_key mp h ≡ false → mp.verified_map h ≡ none
unfolding contains_key
absent_lem mp h e = elim (Option-cases (mp.verified_map h)) [
  | inl absent ↦ absent
  | inr (x, there) ↦ absurd (cc (rw there at e))
]

add-Outcomes :
    (t : Transaction) (fee : Feer) (item_data : Option ℕ) (mp : Pool)
    → Holds (Outcomes t mp) (add t fee item_data mp)
unfolding add
add-Outcomes t fee item_data mp =
    if-cases (Holds (Outcomes t mp)) (contains_key mp t.hash) (λ y. inr (inr ((dup, refl), refl)))
      λ n.
        Holds-bind (λ x. Unit) (Outcomes t mp) (check_tx_conflicts mp t fee) _
          (Holds-any (check_tx_conflicts mp t fee))
          λ o _. add_checked-Outcomes _ fee mp o (absent_lem mp t.hash n)

-- On a pool that is ready for t and in order, Add returns. Either there is no error, and t is in
-- the pool under its hash, with nothing else that was not there before; or the error is ErrOOM, and
-- t is not in the pool, in which there is nothing new; or there is another error, and the pool is
-- as it was.
pub add_results :
    (t : Transaction) (fee : Feer) (item_data : Option ℕ) (mp : Pool)
    → IsReady mp t
    → IsOrdered mp
    → Returns (Outcomes t mp) (add t fee item_data mp)
add_results t fee item_data mp ready o =
    Returns-map (add t fee item_data mp)
      (Returns-and-Holds (λ r. IsCoherent r.0 × IsOrdered r.0 × (r.0.capacity ≡ mp.capacity))
        (Outcomes t mp) (add t fee item_data mp) (add_safe t fee item_data mp ready o)
        (add-Outcomes t fee item_data mp))
      λ r h. h.1

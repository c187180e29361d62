-- ===== src/Mpt/Trie/Flush/Counts.antt =====
-- The count of a node in the store, before and after its entry of the table is flushed.
use koala_tblockchain_golang.Shared.{
  ℕ, zero, suc, ◌+◌, ◌-◌, ◌^◌, ◌≤◌, ◌<◌, ◌≡◌, ◌⊎◌, inl, inr, subst, refl, sym, ap, ◌∙◌, ltb, ==_iff,
  [], ◌∷◌, ◌++◌, Option, none, some, true, false, if◌then◌else◌, length, take, drop, arith,
  Bool-cases,
}
use koala_tblockchain_golang.Shared.Int.{ℤ, pos, negsuc, ◌+ℤ◌}
use koala_tblockchain_golang.Shared.Bytes.{equals, equals_self}
use koala_tblockchain_golang.Io.Bytes.{le_bytes, from_le, length-le_bytes, from_le-le_bytes}
use koala_tblockchain_golang.Storage.Cached.{
  LowerStore, MemCachedStore, cached_get, cached_put, cached_delete,
}
use koala_tblockchain_golang.Storage.Cached.View.{contents-cached_put, contents-cached_delete}
use koala_tblockchain_golang.Mpt.Node.{Bytes}
use koala_tblockchain_golang.Mpt.Trie.{CachedNode, make_storage_key}
use koala_tblockchain_golang.Mpt.Trie.Flush.{
  count_of, with_count, is_zero, known_count, data_or_new, store_count, update_ref_count, recounted,
  flush_entry, Flushed,
}

-- no count for what is not in the store
abbrev pub stored_count : Option Bytes → ℤ
stored_count none = pos 0
stored_count (some bs) = count_of bs

drop-++ : (a c : Bytes) → drop (length a) (a ++ c) ≡ c
drop-++ [] c = refl
drop-++ (x ∷ a) c = drop-++ a c

length-++ : (a c : Bytes) → length (a ++ c) ≡ length a + length c
length-++ [] c = omega arith
length-++ (x ∷ a) c = rw (length-++ a c) (omega arith)

pub +ℤ_zero : (a : ℤ) → a +ℤ pos 0 ≡ a
unfolding ◌+ℤ◌
+ℤ_zero (pos n) = ground arith
+ℤ_zero (negsuc n) = ground arith

is_zero_sound : (a : ℤ) → is_zero a ≡ true → a ≡ pos 0
is_zero_sound (pos n) h = ap pos ((==_iff n 0).0 h)
is_zero_sound (negsuc n) h = absurd cc

count_of-with_count : (bs : Bytes) (n : ℕ) → n < 2 ^ 31 → count_of (with_count bs n) ≡ pos n
unfolding with_count
count_of-with_count bs n lt =
    let front : Bytes = take (length bs - 4) bs in
    let long : length (front ++ le_bytes 4 n) - 4 ≡ length front =
      rw (length-++ front (le_bytes 4 n), length-le_bytes 4 n) (omega arith) in
    let value : from_le (le_bytes 4 n) ≡ n = from_le-le_bytes 4 n (omega arith) in
    let small : ltb n (2 ^ 31) ≡ true = ground (arith, lt) in
    rw (long, drop-++ front (le_bytes 4 n), value, small) refl

-- what updateRefCount knows is what is in the store
known_lem :
    (initial : ℤ) (o : Option Bytes)
    → (initial ≡ pos 0) ⊎ (initial ≡ stored_count o)
    → ((bs : Bytes) → o ≡ some bs → 4 ≤ length bs)
    → (bs : Bytes) × (known_count initial o ≡ some (stored_count o, bs))
known_lem initial none (inl e) long = ([], rw e refl)
known_lem initial none (inr e) long = ([], rw e refl)
known_lem initial (some bs) e long = elim (Bool-cases (is_zero initial)) [
  | inl z ↦
      let le = long bs refl in
      let enough : ltb (length bs) 4 ≡ false = ground (arith, le) in (bs, rw (z, enough) refl)
  | inr z ↦ elim e [ inl e' ↦ absurd (cc (z, ap is_zero e')) | inr e' ↦ ([], rw z (rw e' refl)) ]
]

module _ {S : Type 0} (lower : LowerStore S) where
  abbrev pub count_at : MemCachedStore S → Bytes → ℤ
  count_at s h = stored_count (cached_get lower (make_storage_key h) s)

  -- an entry of the table that agrees with the store, and whose sum of counts is a count
  pub record IsCounted (s : MemCachedStore S) (h : Bytes) (node : CachedNode) : Type 0 where
    pub has_bytes : (bs : Bytes) × (node.bytes ≡ some bs)
    pub as_stored : (node.initial ≡ pos 0) ⊎ (node.initial ≡ count_at s h)
    pub with_room : (bs : Bytes) → cached_get lower (make_storage_key h) s ≡ some bs → 4 ≤ length bs
    pub in_range : (n : ℕ) × (count_at s h +ℤ node.refcount ≡ pos n × n < 2 ^ 31)

  -- the store has the count under the key, and all other keys as before
  abbrev pub Recounts : MemCachedStore S → Bytes → ℤ → MemCachedStore S → Type 0
  Recounts s h count s' =
      count_at s' h ≡ count
      × ((k : Bytes)
          → equals h k ≡ false
          → cached_get lower (make_storage_key k) s' ≡ cached_get lower (make_storage_key k) s)

  abbrev Counted : MemCachedStore S → Bytes → ℤ → Option (ℤ × MemCachedStore S) → Type 0
  Counted s h count none = zero ≡ suc zero
  Counted s h count (some (c, s')) = Recounts s h count s'

  store_count-Counted :
      (h bs : Bytes) (n : ℕ) (s : MemCachedStore S)
      → n < 2 ^ 31
      → Counted s h (pos n) (store_count lower (make_storage_key h) bs (pos n) s)
  unfolding equals
  store_count-Counted h bs zero s lt = (ap stored_count here, λ k e. at k ∙ rw e refl)
    where
      at :
          (k : Bytes)
          → cached_get lower (make_storage_key k) (cached_delete (make_storage_key h) s)
            ≡ (if equals h k then none else cached_get lower (make_storage_key k) s)
      at k =
          ap (λ (f : Bytes → Option Bytes). f (make_storage_key k))
            (contents-cached_delete lower (make_storage_key h) s)

      here : cached_get lower (make_storage_key h) (cached_delete (make_storage_key h) s) ≡ none
      here = at h ∙ rw (equals_self h) refl
  store_count-Counted h bs (suc n) s lt =
      (ap stored_count here ∙ count_of-with_count bs (suc n) lt, λ k e. at k ∙ rw e refl)
    where
      v : Bytes
      v = with_count bs (suc n)

      at :
          (k : Bytes)
          → cached_get lower (make_storage_key k) (cached_put (make_storage_key h) v s)
            ≡ (if equals h k then some v else cached_get lower (make_storage_key k) s)
      at k =
          ap (λ (f : Bytes → Option Bytes). f (make_storage_key k))
            (contents-cached_put lower (make_storage_key h) v s)

      here : cached_get lower (make_storage_key h) (cached_put (make_storage_key h) v s) ≡ some v
      here = at h ∙ rw (equals_self h) refl

  update_ref_count_known :
      (h : Bytes) (node : CachedNode) (s : MemCachedStore S) (count : ℤ) (bs : Bytes)
      → known_count node.initial (cached_get lower (make_storage_key h) s) ≡ some (count, bs)
      → update_ref_count lower h node s
        ≡ store_count lower
            (make_storage_key h)
            (data_or_new bs node.bytes)
            (count +ℤ node.refcount)
            s
  unfolding update_ref_count
  update_ref_count_known h node s count bs e = rw (e, update_ref_count) refl

  update_ref_count-Counted :
      (h : Bytes) (node : CachedNode) (s : MemCachedStore S)
      → IsCounted s h node
      → Counted s h (count_at s h +ℤ node.refcount) (update_ref_count lower h node s)
  unfolding update_ref_count
  update_ref_count-Counted h node s c =
      let (bs, e) =
        known_lem node.initial (cached_get lower (make_storage_key h) s) c.as_stored c.with_room in
      let (n, (total, lt)) = c.in_range in
      subst (Counted s h (count_at s h +ℤ node.refcount))
        (sym (update_ref_count_known h node s (count_at s h) bs e))
        (rw total (store_count-Counted h (data_or_new bs node.bytes) n s lt))

  abbrev pub FlushedTo : MemCachedStore S → Bytes → ℤ → Flushed lower → Type 0
  FlushedTo s h count none = zero ≡ suc zero
  FlushedTo s h count (some (o, s')) = Recounts s h count s'

  recounted-FlushedTo :
      (s : MemCachedStore S) (h : Bytes) (count : ℤ) (node : CachedNode)
      (o : Option (ℤ × MemCachedStore S))
      → Counted s h count o
      → FlushedTo s h count (recounted lower node o)
  recounted-FlushedTo s h count node none e = e
  recounted-FlushedTo s h count node (some (c, s')) e = e

  flush_entry_known :
      (h : Bytes) (node : CachedNode) (s : MemCachedStore S) (bs : Bytes)
      → node.bytes ≡ some bs
      → flush_entry lower true h node s ≡ (
          if is_zero node.refcount
          then some (none, s)
          else recounted lower node (update_ref_count lower h node s))
  unfolding flush_entry
  flush_entry_known h node s bs e = simp (e, flush_entry) refl

  pub flush_entry-FlushedTo :
      (h : Bytes) (node : CachedNode) (s : MemCachedStore S)
      → IsCounted s h node
      → FlushedTo s h (count_at s h +ℤ node.refcount) (flush_entry lower true h node s)
  flush_entry-FlushedTo h node s c =
      subst (FlushedTo s h (count_at s h +ℤ node.refcount))
        (sym (flush_entry_known h node s (c.has_bytes).0 (c.has_bytes).1))
        (elim (Bool-cases (is_zero node.refcount)) [
          | inl e ↦
              rw (e, is_zero_sound node.refcount e) (sym (+ℤ_zero (count_at s h)), λ k ne. refl)
          | inr e ↦ rw e (
              recounted-FlushedTo s h (count_at s h +ℤ node.refcount) node
                (update_ref_count lower h node s) (update_ref_count-Counted h node s c))
        ])

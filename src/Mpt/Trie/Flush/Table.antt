-- ===== src/Mpt/Trie/Flush/Table.antt =====
-- Flush of the whole table against the counts in the store.
use koala_tblockchain_golang.Shared.{
  zero, suc, ◌≡◌, inl, inr, subst, refl, sym, ap, ◌∙◌, [], ◌∷◌, Option, none, some, true,
  Bool-cases,
}
use koala_tblockchain_golang.Shared.Int.{ℤ, pos, ◌+ℤ◌}
use koala_tblockchain_golang.Shared.Bytes.{equals, equals_sound, equals_self}
use koala_tblockchain_golang.Storage.Memory.{lookup}
use koala_tblockchain_golang.Storage.Memory.Changes.{IsMap}
use koala_tblockchain_golang.Storage.Cached.{LowerStore, MemCachedStore, cached_get}
use koala_tblockchain_golang.Mpt.Node.{Bytes}
use koala_tblockchain_golang.Mpt.Trie.{CachedNode, CountTable, make_storage_key}
use koala_tblockchain_golang.Mpt.Trie.Flush.{flush_entry, flush, Flushed, kept}
use koala_tblockchain_golang.Mpt.Trie.Flush.Counts.{
  stored_count, +ℤ_zero, count_at, IsCounted, Recounts, FlushedTo, flush_entry-FlushedTo,
}

module _ {S : Type 0} (lower : LowerStore S) where
  -- the change that the table has for a node
  abbrev pub delta : Option CachedNode → ℤ
  delta none = pos 0
  delta (some node) = node.refcount

  -- the whole table
  abbrev pub AllCounted : CountTable → MemCachedStore S → Type 0
  AllCounted t s =
      (h : Bytes) (node : CachedNode) → lookup h t ≡ some node → IsCounted lower s h node

  -- the store has every count with its change
  abbrev pub AllFlushed :
      CountTable → MemCachedStore S → Option (CountTable × MemCachedStore S) → Type 0
  AllFlushed t s none = zero ≡ suc zero
  AllFlushed t s (some (t', s')) =
      (h : Bytes) → count_at lower s' h ≡ count_at lower s h +ℤ delta (lookup h t)

  IsCounted-same :
      (s s' : MemCachedStore S) (h : Bytes) (node : CachedNode)
      → cached_get lower (make_storage_key h) s' ≡ cached_get lower (make_storage_key h) s
      → IsCounted lower s h node
      → IsCounted lower s' h node
  IsCounted-same s s' h node e c = record {
    has_bytes = c.has_bytes;
    as_stored = rw e c.as_stored;
    with_room = λ bs g. c.with_room bs (sym e ∙ g);
    in_range = rw e c.in_range;
  }

  AllCounted-rest :
      (h : Bytes) (node : CachedNode) (t : CountTable) (s s' : MemCachedStore S) (count : ℤ)
      → lookup h t ≡ none
      → AllCounted ((h, node) ∷ t) s
      → Recounts lower s h count s'
      → AllCounted t s'
  unfolding lookup
  AllCounted-rest h node t s s' count e all (this, others) k n found =
      elim (Bool-cases (equals h k)) [
        | inl same ↦ absurd (cc (found, e, equals_sound h k same))
        | inr differ ↦ IsCounted-same s s' k n (others k differ) (all k n (rw differ found))
      ]

  flush_rest :
      (h : Bytes) (node : CachedNode) (t t' : CountTable) (s s' s'' : MemCachedStore S)
      → lookup h t ≡ none
      → Recounts lower s h (count_at lower s h +ℤ node.refcount) s'
      → AllFlushed t s' (some (t', s''))
      → (k : Bytes) → count_at lower s'' k ≡ count_at lower s k +ℤ delta (lookup k ((h, node) ∷ t))
  unfolding lookup
  flush_rest h node t t' s s' s'' e (this, others) all k = elim (Bool-cases (equals h k)) [
    | inl same ↦
        let at_h : count_at lower s'' h ≡ count_at lower s h +ℤ node.refcount =
          all h ∙ rw e (+ℤ_zero (count_at lower s' h)) ∙ this in
        rw (← equals_sound h k same, equals_self h) at_h
    | inr differ ↦
        all k
        ∙ rw differ
            (ap (λ (o : Option Bytes). stored_count o +ℤ delta (lookup k t)) (others k differ))
  ]

  flushed_to :
      (s : MemCachedStore S) (h : Bytes) (count : ℤ) (o : Flushed lower)
      → FlushedTo lower s h count o
      → (n : Option CachedNode) × ((s' : MemCachedStore S) × (o ≡ some (n, s')
            × Recounts lower s h count s'))
  flushed_to s h count none e = absurd cc
  flushed_to s h count (some (n, s')) e = (n, (s', (refl, e)))

  all_flushed :
      (t : CountTable) (s : MemCachedStore S) (o : Option (CountTable × MemCachedStore S))
      → AllFlushed t s o
      → (t' : CountTable) × ((s' : MemCachedStore S) × (o ≡ some (t', s')
            × AllFlushed t s (some (t', s'))))
  all_flushed t s none e = absurd cc
  all_flushed t s (some (t', s')) e = (t', (s', (refl, e)))

  flush_cons :
      (h : Bytes) (node : CachedNode) (t t' : CountTable) (n : Option CachedNode)
      (s s' s'' : MemCachedStore S)
      → flush_entry lower true h node s ≡ some (n, s')
      → flush lower true t s' ≡ some (t', s'')
      → flush lower true ((h, node) ∷ t) s ≡ some (kept lower h n t', s'')
  unfolding flush
  flush_cons h node t t' n s s' s'' e e' = rw (e, flush) (rw (e', flush) refl)

  -- Take a table that has no hash twice, and for each its bytes, as the initial count 0 or the one
  -- in the store, whose data has room for a count, and a change that leaves the count from 0 to
  -- 2^31 - 1. Flush with reference counting does not panic on it, and adds to the count of every
  -- node in the store its change in the table.
  pub flush-AllFlushed :
      (t : CountTable) (s : MemCachedStore S)
      → IsMap t
      → AllCounted t s
      → AllFlushed t s (flush lower true t s)
  unfolding flush lookup
  flush-AllFlushed [] s m all = λ h. sym (+ℤ_zero (count_at lower s h))
  flush-AllFlushed ((h, node) ∷ t) s m all =
      let c : IsCounted lower s h node = all h node (rw (equals_self h) refl) in
      let (n, (s', (e, changed))) =
        flushed_to s h (count_at lower s h +ℤ node.refcount) (flush_entry lower true h node s)
          (flush_entry-FlushedTo lower h node s c) in
      let (t', (s'', (e', rest))) = all_flushed t s' (flush lower true t s') (
        flush-AllFlushed t s' m.1
          (AllCounted-rest h node t s s' (count_at lower s h +ℤ node.refcount) m.0 all changed)) in
      subst (AllFlushed ((h, node) ∷ t) s) (sym (flush_cons h node t t' n s s' s'' e e'))
        (flush_rest h node t t' s s' s'' m.0 changed rest)

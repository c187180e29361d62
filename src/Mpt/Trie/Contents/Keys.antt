-- ===== src/Mpt/Trie/Contents/Keys.antt =====
-- The trie as a map from keys to values: Get, Put and Delete, and runs of them.
use koala_tblockchain_golang.Shared.{
  ℕ, suc, ◌≤◌, ◌<◌, ◌≡◌, refl, sym, ap, ◌∙◌, ltb, Option, none, some, true, false, length, is_empty,
  arith, All, Bool-cases, inl, inr,
}
use koala_tblockchain_golang.Shared.Bytes.{equals, equals_sound, equals_complete}
use koala_tblockchain_golang.Storage.Cached.View.{updated}
use koala_tblockchain_golang.Mpt.Node.{Bytes, Node, leaf, max_value_length}
use koala_tblockchain_golang.Mpt.Nibbles.{to_nibbles, to_nibbles-IsPath, to_nibbles_injective}
use koala_tblockchain_golang.Mpt.Trie.{
  Backing, Refs, Trie, Found, get, got, value_of, get_with_path, max_key_length,
}
use koala_tblockchain_golang.Mpt.Trie.Put.{put, put_into_node, stored}
use koala_tblockchain_golang.Mpt.Trie.Delete.{delete, delete_from_node, removed}
use koala_tblockchain_golang.Mpt.Trie.Contents.{Values, Holds}
use koala_tblockchain_golang.Mpt.Trie.Contents.Lookups.{Finds, get_with_path-Finds}
use koala_tblockchain_golang.Mpt.Trie.Contents.Puts.{Gives, put_into_node-Gives}
use koala_tblockchain_golang.Mpt.Trie.Contents.Removals.{delete_from_node-Gives}

-- the values by their keys
abbrev pub AsKeys : Values → (Bytes → Option Bytes) → Type 0
AsKeys f m = (k : Bytes) → All (λ x. x < 256) k → f (to_nibbles k) ≡ m k

abbrev pub IsKey : Bytes → Type 0
IsKey key = All (λ x. x < 256) key × length key ≤ max_key_length

equals-to_nibbles :
    (j k : Bytes)
    → All (λ x. x < 256) j
    → All (λ x. x < 256) k
    → equals (to_nibbles j) (to_nibbles k) ≡ equals j k
equals-to_nibbles j k hj hk = elim (Bool-cases (equals j k)) [
  | inl e ↦
      equals_complete (to_nibbles j) (to_nibbles k) (ap to_nibbles (equals_sound j k e)) ∙ sym e
  | inr e ↦ elim (Bool-cases (equals (to_nibbles j) (to_nibbles k))) [
    | inl e' ↦ absurd (
        cc (
          e,
          equals_complete j k
              (to_nibbles_injective j k hj hk (equals_sound (to_nibbles j) (to_nibbles k) e')),
        ))
    | inr e' ↦ e' ∙ sym e
  ]
]

module _ (b : Backing) where
  -- the trie has the values of the map under all keys, in at most so many levels
  abbrev pub Stores : ℕ → Trie → (Bytes → Option Bytes) → Type 0
  Stores d tr m = (f : Values) × (Holds b d tr.root f × AsKeys f m)

  Stores-updated :
      (d : ℕ) (n : Node) (t : Refs) (f : Values) (key : Bytes) (o : Option Bytes)
      (m : Bytes → Option Bytes)
      → All (λ x. x < 256) key
      → AsKeys f m
      → Holds b d n (updated (to_nibbles key) o f)
      → Stores d (record { root = n; refcounts = t }) (updated key o m)
  Stores-updated d n t f key o m hkey a h =
      (updated (to_nibbles key) o f, (h, λ k hk. rw (equals-to_nibbles key k hkey hk, a k hk) refl))

  -- what Get returns, and that the trie is left with the same map
  abbrev Answers : ℕ → Bytes → (Bytes → Option Bytes) → Option Bytes × Trie → Type 0
  Answers d key m (v, tr) = v ≡ m key × Stores d tr m

  got-Answers :
      (d : ℕ) (key : Bytes) (m : Bytes → Option Bytes) (tr : Trie) (f : Values) (found : Found)
      → All (λ x. x < 256) key
      → Holds b d tr.root f
      → AsKeys f m
      → Finds b d f (to_nibbles key) found
      → Answers d key m (got tr found)
  got-Answers d key m tr f (none, t) hk h a e = (sym e ∙ a key hk, (f, (h, a)))
  got-Answers d key m tr f (some (r, (l, prefix)), t) hk h a (hr, (v, (el, ev))) =
      (ap some (ap value_of el) ∙ sym ev ∙ a key hk, (f, (hr, a)))

  pub get-Answers :
      (d fuel : ℕ) (key : Bytes) (tr : Trie) (m : Bytes → Option Bytes)
      → d ≤ fuel
      → IsKey key
      → Stores d tr m
      → Answers d key m (get b fuel key tr)
  unfolding get
  get-Answers d fuel key tr m le (hk, hl) (f, (h, a)) =
      let small : ltb max_key_length (length key) ≡ false = ground (arith, hl) in
      rw small (
        got-Answers d key m tr f (get_with_path b fuel tr.root (to_nibbles key) true tr.refcounts)
          hk h a
          (get_with_path-Finds b d fuel tr.root f (to_nibbles key) tr.refcounts le
            (to_nibbles-IsPath key hk) h))

  -- success, and the map that the trie is left with
  abbrev pub Leaves : {E : Type 0} → ℕ → (Bytes → Option Bytes) → Option E × Trie → Type 0
  Leaves d m (e, tr) = e ≡ none × Stores d tr m

  stored-Leaves :
      (d : ℕ) (key : Bytes) (o : Option Bytes) (m : Bytes → Option Bytes) (tr : Trie) (f : Values)
      (result : Option Node × Refs)
      → All (λ x. x < 256) key
      → AsKeys f m
      → Gives b d (updated (to_nibbles key) o f) result
      → Leaves d (updated key o m) (stored b tr result)
  stored-Leaves d key o m tr f (none, t) hk a h = absurd cc
  stored-Leaves d key o m tr f (some n, t) hk a h = (refl, Stores-updated d n t f key o m hk a h)

  removed-Leaves :
      (d : ℕ) (key : Bytes) (m : Bytes → Option Bytes) (tr : Trie) (f : Values)
      (result : Option Node × Refs)
      → All (λ x. x < 256) key
      → AsKeys f m
      → Gives b d (updated (to_nibbles key) none f) result
      → Leaves d (updated key none m) (removed b tr result)
  removed-Leaves d key m tr f (none, t) hk a h = absurd cc
  removed-Leaves d key m tr f (some n, t) hk a h = (refl, Stores-updated d n t f key none m hk a h)

  pub put-Leaves :
      (d fuel : ℕ) (key value : Bytes) (tr : Trie) (m : Bytes → Option Bytes)
      → d ≤ fuel
      → IsKey key
      → is_empty key ≡ false
      → length value ≤ max_value_length
      → Stores d tr m
      → Leaves (suc (suc d)) (updated key (some value) m) (put b fuel key value tr)
  unfolding put
  put-Leaves d fuel key value tr m le (hk, hl) nonempty hv (f, (h, a)) =
      let small : ltb max_key_length (length key) ≡ false = ground (arith, hl) in
      let small' : ltb max_value_length (length value) ≡ false = ground (arith, hv) in
      rw (nonempty, small, small')
        (stored-Leaves (suc (suc d)) key (some value) m tr f
          (put_into_node b fuel tr.root (to_nibbles key) (leaf value) tr.refcounts) hk a
          (put_into_node-Gives b d fuel tr.root f (to_nibbles key) value tr.refcounts le
            (to_nibbles-IsPath key hk) h))

  pub delete-Leaves :
      (d fuel : ℕ) (key : Bytes) (tr : Trie) (m : Bytes → Option Bytes)
      → d ≤ fuel
      → IsKey key
      → Stores d tr m
      → Leaves d (updated key none m) (delete b fuel key tr)
  unfolding delete
  delete-Leaves d fuel key tr m le (hk, hl) (f, (h, a)) =
      let small : ltb max_key_length (length key) ≡ false = ground (arith, hl) in
      rw small (
        removed-Leaves d key m tr f (delete_from_node b fuel tr.root (to_nibbles key) tr.refcounts)
          hk a
          (delete_from_node-Gives b d fuel tr.root f (to_nibbles key) tr.refcounts le
            (to_nibbles-IsPath key hk) h))

-- ===== src/Storage/Seek/Agreement.antt =====
-- Seek against Get: the callback gets what a user sees under the prefix.
use koala_tblockchain_golang.Shared.{
  ◌≡◌, refl, ap, ◌∙◌, List, [], ◌∷◌, ◌++◌, map, Option, none, some, Bool, true, false,
  if◌then◌else◌, arith,
}
use koala_tblockchain_golang.Shared.Bytes.{equals_self, has_prefix}
use koala_tblockchain_golang.Storage.Memory.{
  Bytes, Entries, lookup, member, sort_by_key, with_prefix,
}
use koala_tblockchain_golang.Storage.Memory.Changes.{IsMap, IsSetOfKeys, IsConsistent}
use koala_tblockchain_golang.Storage.Cached.{LowerStore, MemCachedStore, cached_get}
use koala_tblockchain_golang.Storage.Seek.{live, dead, mem_results, cached_seek}
use koala_tblockchain_golang.Storage.Seek.Overlay.{Above, Ascending, shadowed, seek_merge-Overlays}
use koala_tblockchain_golang.Storage.Seek.Sorting.{
  lookup-sort_by_key, sort_by_key-Ascending, lookup-with_prefix, with_prefix-IsMap,
}

-- a deletion, if the key is deleted
abbrev if_dead : Bool → Option (Option Bytes)
if_dead true = some none
if_dead false = none

-- what both maps say of a key
abbrev known : Option Bytes → Option (Option Bytes) → Option (Option Bytes)
known (some v) dead_ = some (some v)
known none dead_ = dead_

lookup-dead : (k : Bytes) (d : List Bytes) → lookup k (map dead d) ≡ if_dead (member k d)
unfolding lookup member
lookup-dead k [] = refl
lookup-dead k (j ∷ d) = ground (arith, lookup-dead k d)

lookup-snapshot :
    (k : Bytes) (m : Entries) (d : List Bytes)
    → lookup k (map live m ++ map dead d) ≡ known (lookup k m) (if_dead (member k d))
unfolding lookup
lookup-snapshot k [] d = lookup-dead k d
lookup-snapshot k ((j, v) ∷ m) d = ground (arith, lookup-snapshot k m d)

dead-IsMap : (d : List Bytes) → IsSetOfKeys d → IsMap (map dead d)
dead-IsMap [] h = tt
dead-IsMap (k ∷ d) h = (rw (lookup-dead k d, h.0) refl, dead-IsMap d h.1)

snapshot-IsMap :
    (m : Entries) (d : List Bytes)
    → IsMap m
    → IsSetOfKeys d
    → ((k : Bytes) → member k d ≡ true → lookup k m ≡ none)
    → IsMap (map live m ++ map dead d)
unfolding lookup
snapshot-IsMap [] d h s apart = dead-IsMap d s
snapshot-IsMap ((k, v) ∷ m) d h s apart = (
  rw (lookup-snapshot k m d, h.0) (ground (arith, apart k, equals_self k)),
  snapshot-IsMap m d h.1 s (λ j e. ground (arith, apart j e)),
)

module _ {S : Type 0} (lower : LowerStore S) where
  -- Seek of a lower store: the keys with the prefix in order, with the values that Get has
  pub record IsSeek (lower_seek : Bytes → S → Entries) : Type 0 where
    pub in_order : (key : Bytes) (s : S) → Ascending (lower_seek key s)
    pub nonempty : (key : Bytes) (s : S) → Above [] (lower_seek key s)
    pub under_prefix :
        (key : Bytes) (s : S) (k : Bytes)
        → lookup k (lower_seek key s) ≡ (if has_prefix k key then lower.lower_get k s else none)

  layers :
      (k key : Bytes) (s : MemCachedStore S)
      → shadowed
          (if has_prefix k key
            then known (lookup k s.store.mem) (if_dead (member k s.store.del))
            else none)
          (if has_prefix k key then lower.lower_get k s.ps else none)
        ≡ (if has_prefix k key then cached_get lower k s else none)
  unfolding cached_get
  layers k key s = ground arith

  -- On a consistent store over a lower one whose keys are not empty, Seek gives the callback the keys
  -- with the prefix in order, and exactly those that Get finds, with the values that Get returns.
  pub cached_seek-cached_get :
      (lower_seek : Bytes → S → Entries) (key : Bytes) (s : MemCachedStore S)
      → IsSeek lower_seek
      → IsConsistent s.store
      → Ascending (cached_seek lower_seek key s)
        × ((k : Bytes)
            → lookup k (cached_seek lower_seek key s)
              ≡ (if has_prefix k key then cached_get lower k s else none))
  unfolding cached_seek mem_results
  cached_seek-cached_get lower_seek key s seeks c =
      let all = map live s.store.mem ++ map dead s.store.del in
      let all_map : IsMap all = snapshot-IsMap s.store.mem s.store.del c.one_value c.once c.apart in
      let few_map = with_prefix-IsMap key all all_map in
      let overlaid =
        seek_merge-Overlays (sort_by_key (with_prefix key all)) (lower_seek key s.ps)
          (sort_by_key-Ascending (with_prefix key all) few_map) (seeks.in_order key s.ps)
          (seeks.nonempty key s.ps) in
      (
        overlaid.ascending,
        λ k.
            overlaid.values k
            ∙ ap (λ v. shadowed v (lookup k (lower_seek key s.ps)))
                (lookup-sort_by_key k (with_prefix key all) few_map
                  ∙ lookup-with_prefix k key all
                  ∙ ap (λ v. if has_prefix k key then v else none)
                      (lookup-snapshot k s.store.mem s.store.del))
            ∙ ap
                (shadowed (
                  if has_prefix k key
                  then known (lookup k s.store.mem) (if_dead (member k s.store.del))
                  else none))
                (seeks.under_prefix key s.ps k)
            ∙ layers k key s,
      )

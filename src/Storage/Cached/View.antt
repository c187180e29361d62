-- ===== src/Storage/Cached/View.antt =====
-- The contract of a cached store: it is a map from keys to values, whatever lies in which layer.
use koala_tblockchain_golang.Shared.{
  ◌≡◌, refl, ap, ◌∙◌, fun_ext, List, [], ◌∷◌, Option, none, some, if◌then◌else◌, arith,
}
use koala_tblockchain_golang.Shared.Bytes.{equals}
use koala_tblockchain_golang.Storage.Memory.{Bytes, Entries, put, drop}
use koala_tblockchain_golang.Storage.Memory.Maps.{
  lookup-assign, lookup-erase, member-add_key, member-erase_key,
}
use koala_tblockchain_golang.Storage.Memory.Changes.{
  IsMap, IsConsistent, changed, put-IsConsistent, drop-IsConsistent,
}
use koala_tblockchain_golang.Storage.Cached.{
  LowerStore, MemCachedStore, cached_get, cached_put, cached_delete,
}

-- what a user sees of the store
abbrev pub Contents : Type 0
Contents = Bytes → Option Bytes

abbrev pub updated : Bytes → Option Bytes → Contents → Contents
updated k v f j = if equals k j then v else f j

module _ {S : Type 0} (lower : LowerStore S) where
  -- A change set that the lower store takes is what it then has. Its keys are in one of the two maps.
  abbrev pub IsLawful : Type 0
  IsLawful =
      (puts : Entries) (dels : List Bytes) (s s' : S) (k : Bytes)
      → IsMap puts
      → lower.lower_put puts dels s ≡ some s'
      → lower.lower_get k s' ≡ changed puts dels (λ j. lower.lower_get j s) k

  abbrev pub contents : MemCachedStore S → Contents
  contents s k = cached_get lower k s

  pub contents-cached_put :
      (k v : Bytes) (s : MemCachedStore S)
      → contents (cached_put k v s) ≡ updated k (some v) (contents s)
  unfolding cached_get cached_put put
  contents-cached_put k v s =
      fun_ext λ j. ground (arith, lookup-assign j k v s.store.mem, member-erase_key j k s.store.del)

  pub contents-cached_delete :
      (k : Bytes) (s : MemCachedStore S)
      → contents (cached_delete k s) ≡ updated k none (contents s)
  unfolding cached_get cached_delete drop
  contents-cached_delete k s =
      fun_ext λ j. ground (arith, lookup-erase j k s.store.mem, member-add_key j k s.store.del)

-- one change of the store
pub data Change : Type 0 where
  put_change : Bytes → Bytes → Change
  delete_change : Bytes → Change

abbrev pub change : {S : Type 0} → Change → MemCachedStore S → MemCachedStore S
change (put_change k v) s = cached_put k v s
change (delete_change k) s = cached_delete k s

abbrev pub change_all : {S : Type 0} → List Change → MemCachedStore S → MemCachedStore S
change_all [] s = s
change_all (c ∷ cs) s = change_all cs (change c s)

-- the changes on the abstract map
abbrev pub apply : Change → Contents → Contents
apply (put_change k v) f = updated k (some v) f
apply (delete_change k) f = updated k none f

abbrev pub apply_all : List Change → Contents → Contents
apply_all [] f = f
apply_all (c ∷ cs) f = apply_all cs (apply c f)

module _ {S : Type 0} (lower : LowerStore S) where
  pub contents-change_all :
      (cs : List Change) (s : MemCachedStore S)
      → contents lower (change_all cs s) ≡ apply_all cs (contents lower s)
  contents-change_all [] s = refl
  contents-change_all (put_change k v ∷ cs) s =
      contents-change_all cs (cached_put k v s)
      ∙ ap (apply_all cs) (contents-cached_put lower k v s)
  contents-change_all (delete_change k ∷ cs) s =
      contents-change_all cs (cached_delete k s)
      ∙ ap (apply_all cs) (contents-cached_delete lower k s)

  pub change_all-IsConsistent :
      (cs : List Change) (s : MemCachedStore S)
      → IsConsistent s.store
      → IsConsistent (change_all cs s).store
  unfolding cached_put cached_delete
  change_all-IsConsistent [] s c = c
  change_all-IsConsistent (put_change k v ∷ cs) s c =
      change_all-IsConsistent cs (cached_put k v s) (put-IsConsistent k v s.store c)
  change_all-IsConsistent (delete_change k ∷ cs) s c =
      change_all-IsConsistent cs (cached_delete k s) (drop-IsConsistent k s.store c)

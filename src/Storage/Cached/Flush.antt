-- ===== src/Storage/Cached/Flush.antt =====
-- Persist is not seen by the users of the store, whatever they do while it runs, and whether the
-- lower store takes the changes or fails; and a cached store keeps the contract that it relies on.
use koala_tblockchain_golang.Shared.{
  ◌≡◌, ◌⊎◌, subst, refl, sym, ap, ◌∙◌, fun_ext, List, [], ◌∷◌, none, some, true, false,
  if◌then◌else◌, arith, Bool-cases, inl, inr, Option-cases,
}
use koala_tblockchain_golang.Shared.Bytes.{equals, equals_sound}
use koala_tblockchain_golang.Storage.Memory.{
  Bytes, Entries, lookup, member, put_all, drop_all, new_memory_store,
}
use koala_tblockchain_golang.Storage.Memory.Changes.{IsMap, IsConsistent, or_else, changed}
use koala_tblockchain_golang.Storage.Cached.{
  LowerStore, MemCachedStore, cached_get, cached_put, cached_delete, cached_put_change_set,
  cached_lower, persist_begin, persist_end,
}
use koala_tblockchain_golang.Storage.Cached.View.{
  Contents, updated, IsLawful, contents, Change, put_change, delete_change, change_all, apply_all,
  contents-change_all, change_all-IsConsistent, contents-cached_put, contents-cached_delete,
}

module _ {S : Type 0} (lower : LowerStore S) where
  contents-put_all :
      (puts : Entries) (s : MemCachedStore S) (k : Bytes)
      → IsMap puts
      → contents lower (record s { store = put_all puts s.store }) k
        ≡ or_else (lookup k puts) (contents lower s k)
  unfolding put_all lookup cached_put
  contents-put_all [] s k h = refl
  contents-put_all ((j, v) ∷ puts) s k h =
      contents-put_all puts (cached_put j v s) k h.1
      ∙ ap (λ (f : Contents). or_else (lookup k puts) (f k)) (contents-cached_put lower j v s)
      ∙ last (Bool-cases (equals j k))
    where
      last :
          (equals j k ≡ true) ⊎ (equals j k ≡ false)
          → or_else (lookup k puts) (updated j (some v) (contents lower s) k)
            ≡ or_else (if equals j k then some v else lookup k puts) (contents lower s k)
      last (inl e) = rw e (rw (ap (λ x. lookup x puts) (sym (equals_sound j k e)) ∙ h.0) refl)
      last (inr e) = rw e refl

  contents-drop_all :
      (dels : List Bytes) (s : MemCachedStore S) (k : Bytes)
      → contents lower (record s { store = drop_all dels s.store }) k
        ≡ (if member k dels then none else contents lower s k)
  unfolding drop_all member cached_delete
  contents-drop_all [] s k = refl
  contents-drop_all (j ∷ dels) s k =
      contents-drop_all dels (cached_delete j s) k
      ∙ ap (λ (f : Contents). if member k dels then none else f k)
          (contents-cached_delete lower j s)
      ∙ ground arith

  -- A cached store keeps the contract of a lower store: after PutChangeSet a key has no value if it
  -- is among the deletions, else its new value if there is one, else the value that it had.
  pub cached_lower-IsLawful : IsLawful (cached_lower lower)
  unfolding cached_put_change_set
  cached_lower-IsLawful puts dels s s' k h e =
      subst (λ (t : MemCachedStore S). contents lower t k ≡ changed puts dels (contents lower s) k)
        (some_injective e)
        (contents-drop_all dels (record s { store = put_all puts s.store }) k
          ∙ ap (λ v. if member k dels then none else v) (contents-put_all puts s k h))
    where
      some_injective : {t u : MemCachedStore S} → some t ≡ some u → t ≡ u
      some_injective h = cc

  -- a layer on top, read as a change set
  pub cached_get-changed :
      (s : MemCachedStore S) (k : Bytes)
      → IsConsistent s.store
      → cached_get lower k s ≡ changed s.store.mem s.store.del (λ j. lower.lower_get j s.ps) k
  unfolding cached_get
  cached_get-changed s k c = ground (arith, c.apart k)

  persist_begin-contents :
      (s : MemCachedStore S) → contents (cached_lower lower) (persist_begin s) ≡ contents lower s
  unfolding cached_get persist_begin new_memory_store lookup member
  persist_begin-contents s = refl

module _ {S : Type 0} (lower : LowerStore S) (lawful : IsLawful lower) where
  -- the temporary store below has been flushed
  flushed-contents :
      (t : MemCachedStore (MemCachedStore S)) (f : S)
      → IsConsistent t.ps.store
      → lower.lower_put t.ps.store.mem t.ps.store.del t.ps.ps ≡ some f
      → contents lower (persist_end (some f) t) ≡ contents (cached_lower lower) t
  unfolding persist_end cached_get
  flushed-contents t f c e =
      fun_ext λ k.
        ground (arith, lawful t.ps.store.mem t.ps.store.del t.ps.ps f k c.one_value e, c.apart k)

  -- the flush has failed, and the changes made since go into the old maps
  failed-contents :
      (t : MemCachedStore (MemCachedStore S))
      → IsConsistent t.store
      → contents lower (persist_end none t) ≡ contents (cached_lower lower) t
  unfolding persist_end
  failed-contents t c = fun_ext λ k.
      contents-drop_all lower t.store.del (record (t.ps) { store = put_all t.store.mem t.ps.store })
        k
      ∙ ap (λ v. if member k t.store.del then none else v)
          (contents-put_all lower t.store.mem t.ps k c.one_value)
      ∙ sym (cached_get-changed (cached_lower lower) t k c)

  change_all-ps :
      {T : Type 0} (cs : List Change) (s : MemCachedStore T) → (change_all cs s).ps ≡ s.ps
  unfolding cached_put cached_delete
  change_all-ps [] s = refl
  change_all-ps (put_change k v ∷ cs) s = change_all-ps cs (cached_put k v s)
  change_all-ps (delete_change k ∷ cs) s = change_all-ps cs (cached_delete k s)

  new-IsConsistent : IsConsistent new_memory_store
  unfolding new_memory_store lookup
  new-IsConsistent = record { apart = λ k h. refl; one_value = tt; once = tt }

  -- Persist of a consistent store, with any changes made between its start and its end: in between
  -- and at the end the store has the contents it had at the start with these changes made, whether
  -- the lower store has taken the maps or has failed.
  pub persist_lem :
      (s : MemCachedStore S) (cs : List Change)
      → IsConsistent s.store
      → let running = change_all cs (persist_begin s) in
        (contents (cached_lower lower) running ≡ apply_all cs (contents lower s))
        × (contents lower (persist_end (lower.lower_put s.store.mem s.store.del s.ps) running)
            ≡ apply_all cs (contents lower s))
        × (contents lower (persist_end none running) ≡ apply_all cs (contents lower s))
  unfolding persist_begin
  persist_lem s cs c =
      let running = change_all cs (persist_begin s) in
      let below : running.ps ≡ record { store = s.store; ps = s.ps } =
        change_all-ps cs (persist_begin s) in
      let now =
        contents-change_all (cached_lower lower) cs (persist_begin s)
        ∙ ap (apply_all cs) (persist_begin-contents lower s) in
      let fails =
        failed-contents running
          (change_all-IsConsistent (cached_lower lower) cs (persist_begin s) new-IsConsistent)
        ∙ now in
      (
        now,
        elim (Option-cases (lower.lower_put s.store.mem s.store.del s.ps)) [
          | inl e ↦ rw e fails
          | inr (f, e) ↦ rw e (
              flushed-contents running f (rw below c) (
                ap (λ (t : MemCachedStore S). lower.lower_put t.store.mem t.store.del t.ps) below
                ∙ e)
              ∙ now)
        ],
        fails,
      )

-- ===== src/Mpt/Examples.antt =====
-- The theorems on tries at concrete inputs.
use koala_tblockchain_golang.Shared.{
  ◌≡◌, refl, subst, All, List, [], ◌∷◌, none, some, true, false, arith, Bool-cases, inl, inr,
}
use koala_tblockchain_golang.Shared.Int.{pos, negsuc, ◌+ℤ◌}
use koala_tblockchain_golang.Shared.Bytes.{equals, equals_sound, has_prefix}
use koala_tblockchain_golang.Storage.Memory.{
  Bytes, lookup, member, MemoryStore, memory_get, put_change_set, new_memory_store,
}
use koala_tblockchain_golang.Storage.Cached.{LowerStore, MemCachedStore, cached_get}
use koala_tblockchain_golang.Io.Bytes.{from_le}
use koala_tblockchain_golang.Mpt.Nibbles.{to_nibbles, lcp}
use koala_tblockchain_golang.Mpt.Node.{empty}
use koala_tblockchain_golang.Mpt.Trie.{Backing, CachedNode, new_trie, get, get_with_path}
use koala_tblockchain_golang.Mpt.Trie.Put.{
  put, put_into_node, put_into_leaf, new_sub_trie, put_beside,
}
use koala_tblockchain_golang.Mpt.Trie.Delete.{
  delete, delete_from_node, shrink, count_children, only_child, join, prepend,
}
use koala_tblockchain_golang.Mpt.Trie.Contents.{Holds}
use koala_tblockchain_golang.Mpt.Trie.Flush.{flush}
use koala_tblockchain_golang.Mpt.Trie.Flush.Counts.{IsCounted}
use koala_tblockchain_golang.Mpt.Trie.Flush.Table.{AllFlushed, flush-AllFlushed}
use koala_tblockchain_golang.Mpt.Trie.Contents.Runs.{
  Operation, IsAccepted, getting, putting, deleting, run, run_map, run-run_map,
}

abbrev no_hash : Bytes → Bytes
no_hash bs = []

-- nothing is in the store
abbrev bare : Backing
bare = record { double_sha256 = no_hash; store_get = λ k. none; refcount_enabled = false }

-- an extension is split, a branch gets a value of its own, and a child is removed
abbrev some_operations : List Operation
some_operations =
    putting (1 ∷ 2 ∷ []) (8 ∷ [])
    ∷ putting (1 ∷ []) (9 ∷ [])
    ∷ putting (1 ∷ 3 ∷ []) (7 ∷ [])
    ∷ getting (1 ∷ 2 ∷ [])
    ∷ deleting (1 ∷ [])
    ∷ deleting (1 ∷ 2 ∷ [])
    ∷ getting (1 ∷ 3 ∷ [])
    ∷ getting (1 ∷ [])
    ∷ []

run_test : run bare 17 some_operations (new_trie empty) ≡ some (8 ∷ []) ∷ some (7 ∷ []) ∷ none ∷ []
unfolding run get get_with_path put put_into_node put_into_leaf new_sub_trie put_beside to_nibbles
    has_prefix lcp delete delete_from_node shrink count_children only_child join prepend
run_test = refl

all-IsAccepted : All IsAccepted some_operations
all-IsAccepted = ground arith

run-run_map_example :
    run bare 17 some_operations (new_trie empty) ≡ run_map some_operations (λ k. none)
unfolding Holds
run-run_map_example =
    run-run_map bare 1 17 some_operations (new_trie empty) (λ k. none) (omega arith) all-IsAccepted
      (λ p. none, (λ p x. refl, λ k h. refl))

abbrev memory_lower : LowerStore MemoryStore
memory_lower = record {
  lower_get = memory_get;
  lower_put = λ puts dels s. some (put_change_set puts dels s);
}

-- the node 5 is in the store three times
abbrev stored_thrice : MemCachedStore MemoryStore
stored_thrice = record {
  store = new_memory_store;
  ps = record { mem = (3 ∷ 5 ∷ [], 2 ∷ 8 ∷ 3 ∷ 0 ∷ 0 ∷ 0 ∷ []) ∷ []; del = [] };
}

-- and one of them is removed
abbrev one_removed : CachedNode
one_removed = record { bytes = some (2 ∷ 8 ∷ []); initial = pos 3; refcount = negsuc 0 }

some_injective : {A : Type 0} {x y : A} → some x ≡ some y → x ≡ y
some_injective e = cc

one_removed-IsCounted : IsCounted memory_lower stored_thrice (5 ∷ []) one_removed
unfolding cached_get lookup member equals from_le ◌+ℤ◌ memory_get new_memory_store
one_removed-IsCounted = record {
  has_bytes = (2 ∷ 8 ∷ [], refl);
  as_stored = inr refl;
  with_room = λ bs e. rw (← some_injective e) (omega arith);
  in_range = (2, (refl, omega arith));
}

flush-AllFlushed_example :
    AllFlushed memory_lower
      ((5 ∷ [], one_removed) ∷ [])
      stored_thrice
      (flush memory_lower true ((5 ∷ [], one_removed) ∷ []) stored_thrice)
unfolding lookup
flush-AllFlushed_example =
    flush-AllFlushed memory_lower ((5 ∷ [], one_removed) ∷ []) stored_thrice (refl, tt)
      (λ h node e. elim (Bool-cases (equals (5 ∷ []) h)) [
        | inl same ↦
            subst (λ (k : Bytes). IsCounted memory_lower stored_thrice k node)
              (equals_sound (5 ∷ []) h same)
              (subst (IsCounted memory_lower stored_thrice (5 ∷ [])) (some_injective (rw same at e))
                one_removed-IsCounted)
        | inr differ ↦ absurd (cc (rw differ at e))
      ])

-- ===== src/Mpt/Trie/Contents/Runs.antt =====
-- Runs of operations on a trie, against runs on a map from keys to values.
use koala_tblockchain_golang.Shared.{
  ℕ, suc, ◌+◌, ◌*◌, ◌≤◌, ◌≡◌, refl, List, [], ◌∷◌, Option, none, some, false, length, is_empty,
  arith, All,
}
use koala_tblockchain_golang.Storage.Cached.View.{updated}
use koala_tblockchain_golang.Mpt.Node.{Bytes, max_value_length}
use koala_tblockchain_golang.Mpt.Trie.{Backing, Trie, get}
use koala_tblockchain_golang.Mpt.Trie.Put.{put}
use koala_tblockchain_golang.Mpt.Trie.Delete.{delete}
use koala_tblockchain_golang.Mpt.Trie.Contents.Keys.{
  IsKey, Stores, get-Answers, put-Leaves, delete-Leaves,
}

pub data Operation : Type 0 where
  getting : Bytes → Operation
  putting : Bytes → Bytes → Operation
  deleting : Bytes → Operation

-- the operations that the checks of their arguments let through
abbrev pub IsAccepted : Operation → Type 0
IsAccepted (getting key) = IsKey key
IsAccepted (putting key value) =
    IsKey key × (is_empty key ≡ false × length value ≤ max_value_length)
IsAccepted (deleting key) = IsKey key

-- what the operations of Get return on a map
unfoldable pub run_map : List Operation → (Bytes → Option Bytes) → List (Option Bytes)
run_map [] m = []
run_map (getting key ∷ ops) m = m key ∷ run_map ops m
run_map (putting key value ∷ ops) m = run_map ops (updated key (some value) m)
run_map (deleting key ∷ ops) m = run_map ops (updated key none m)

module _ (b : Backing) where
  -- and what they return on a trie
  unfoldable pub run : ℕ → List Operation → Trie → List (Option Bytes)
  run fuel [] tr = []
  run fuel (getting key ∷ ops) tr = (get b fuel key tr).0 ∷ run fuel ops (get b fuel key tr).1
  run fuel (putting key value ∷ ops) tr = run fuel ops (put b fuel key value tr).1
  run fuel (deleting key ∷ ops) tr = run fuel ops (delete b fuel key tr).1

  -- A trie that stores a map answers any run of accepted operations of Get, Put and Delete as the
  -- map does, with fuel for its levels and two more for each operation.
  pub run-run_map :
      (d fuel : ℕ) (ops : List Operation) (tr : Trie) (m : Bytes → Option Bytes)
      → d + 2 * length ops ≤ fuel
      → All IsAccepted ops
      → Stores b d tr m
      → run fuel ops tr ≡ run_map ops m
  unfolding run run_map
  run-run_map d fuel [] tr m le ok h = refl
  run-run_map d fuel (getting key ∷ ops) tr m le (hk, ok) h =
      let (e, h') = get-Answers b d fuel key tr m (omega arith) hk h in
      cc (e, run-run_map d fuel ops (get b fuel key tr).1 m (omega arith) ok h')
  run-run_map d fuel (putting key value ∷ ops) tr m le ((hk, (nonempty, hv)), ok) h =
      run-run_map (suc (suc d)) fuel ops (put b fuel key value tr).1 (updated key (some value) m)
        (omega arith) ok (put-Leaves b d fuel key value tr m (omega arith) hk nonempty hv h).1
  run-run_map d fuel (deleting key ∷ ops) tr m le (hk, ok) h =
      run-run_map d fuel ops (delete b fuel key tr).1 (updated key none m) (omega arith) ok
        (delete-Leaves b d fuel key tr m (omega arith) hk h).1

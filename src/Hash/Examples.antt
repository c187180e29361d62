-- ===== src/Hash/Examples.antt =====
-- The theorems on Merkle roots at concrete inputs, where a hash is its bytes and the double hash
-- tags what it is given.
use koala_tblockchain_golang.Shared.{ℕ, ◌≡◌, List, [], ◌∷◌, some, arith}
use koala_tblockchain_golang.Hash.Merkle.{
  Node, hash_of, new_merkle_tree, calc_merkle_root, calc_loop,
}
use koala_tblockchain_golang.Hash.Merkle.Agreement.{
  calc_merkle_root-new_merkle_tree, calc_loop_enough,
}

abbrev tag : List ℕ → List ℕ
tag bytes = 255 ∷ bytes

abbrev same : List ℕ → List ℕ
same bytes = bytes

abbrev three : ℕ → List ℕ
three i = i ∷ []

calc_merkle_root-new_merkle_tree_example :
    (root : Node (List ℕ)) × (new_merkle_tree tag same three 3 ≡ some root)
    × (calc_merkle_root tag same [] three 3 ≡ hash_of root)
calc_merkle_root-new_merkle_tree_example =
    calc_merkle_root-new_merkle_tree tag same [] three 3 (omega arith)

calc_loop_enough_example : calc_loop tag same 3 three 3 ≡ calc_loop tag same 9 three 3
calc_loop_enough_example =
    calc_loop_enough tag same 3 9 three 3 (omega arith) (omega arith) (omega arith)

-- ===== src/Vm/Examples.antt =====
-- The theorems on stacks at concrete inputs: three numbers, with the number of references counted.
use koala_tblockchain_golang.Shared.{
  refl, Bool, Option, none, ◌==◌, ==_iff, ◌≢◌, if◌then◌else◌, ℕ, suc, ◌-◌, ◌≡◌, some, arith,
}
use koala_tblockchain_golang.Shared.Int.{pos}
use koala_tblockchain_golang.Vm.Slot.{Slot, get, set}
use koala_tblockchain_golang.Vm.Slot.Access.{get-set}
use koala_tblockchain_golang.Vm.Stack.{Stack, reverse_top, roll, peek, insert_at, remove_at}
use koala_tblockchain_golang.Vm.Stack.Views.{
  IsPermuted, rolled, reversed, SameElems, roll_lem, reverse_top_lem, remove_at-insert_at,
}

abbrev three : Stack ℕ ℕ
three = record { elems = λ k. k; len = 3; refs = 3 }

abbrev counted : ℕ → ℕ → ℕ
counted e refs = suc refs

abbrev dropped : ℕ → ℕ → ℕ
dropped e refs = refs - 1

roll_lem_example : IsPermuted (rolled 2) three (roll (pos 2) three)
roll_lem_example = roll_lem 2 three (omega arith)

reverse_top_lem_example : IsPermuted (reversed 3) three (reverse_top (pos 3) three)
reverse_top_lem_example = reverse_top_lem 3 three (omega arith)

remove_at-insert_at_example :
    (s' : Stack ℕ ℕ) × (insert_at counted dropped 9 1 three ≡ some s')
    × (peek 1 s' ≡ some 9)
    × (s'' : Stack ℕ ℕ) × (remove_at counted dropped 1 s' ≡ some (s'', 9))
    × SameElems three s''
    × (s''.refs ≡ dropped 9 (counted 9 3))
remove_at-insert_at_example = remove_at-insert_at counted dropped 9 1 three (omega arith)

-- two slots, of which the second holds 5
abbrev slots : Slot ℕ ℕ
slots = record { storage = λ i. if i == 1 then some 5 else none; slice_len = some 2; refs = 4 }

abbrev equal_items : ℕ → ℕ → Bool
equal_items a b = a == b

abbrev dropped_item : Option ℕ → ℕ → ℕ
dropped_item item refs = refs - 1

get-set_example :
    (s' : Slot ℕ ℕ) × (set equal_items counted dropped_item 1 7 slots ≡ some s')
    × (get 0 1 s' ≡ some 7)
    × ((j : ℕ) → ◌≢◌ {A = ℕ} j 1 → get 0 j s' ≡ get 0 j slots)
    × (s'.slice_len ≡ slots.slice_len)
get-set_example =
    get-set equal_items counted dropped_item (λ a b e. (==_iff a b).0 e) 0 7 1 slots refl

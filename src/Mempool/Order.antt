-- ===== src/Mempool/Order.antt =====
-- The order of priority that CompareTo of mem_pool.go defines, and lists in that order.
use koala_tblockchain_golang.Shared.{
  ℕ, zero, suc, ◌≡◌, refl, Bool, true, false, arith, List, [], ◌∷◌, ◌++◌, All, take, drop, ◌==◌,
  if◌then◌else◌, ltb, sym, ◌∙◌, All-map, All-around, All-remove_at,
}
use koala_tblockchain_golang.Shared.Int.{ℤ, pos, negsuc}
use koala_tblockchain_golang.Mempool.Tx.{
  Item, compare_to, is_positive, has_high_priority, fee_per_byte,
}

-- a has a higher priority than b
abbrev pub above : Item → Item → Bool
above a b = is_positive (compare_to a b)

-- the lexicographic order on fee per byte and network fee, by their numbers
abbrev pub fees_above : ℕ → ℕ → ℕ → ℕ → Bool
fees_above f g n m = if f == g then ltb m n else ltb g f

-- the order on triples
abbrev pub triple_above : Bool → Bool → ℕ → ℕ → ℕ → ℕ → Bool
triple_above true false f g n m = true
triple_above false true f g n m = false
triple_above true true f g n m = fees_above f g n m
triple_above false false f g n m = fees_above f g n m

-- the sign of a number
abbrev pub sign : ℤ → ℤ
sign (pos n) = if n == 0 then pos 0 else pos 1
sign (negsuc n) = negsuc 0

abbrev high : Item → Bool
high a = has_high_priority a.txn.attributes

-- what `> 0` of CompareTo is
pub above-eq :
    (a b : Item)
    → above a b
      ≡ triple_above
          (has_high_priority a.txn.attributes)
          (has_high_priority b.txn.attributes)
          (fee_per_byte a.txn)
          (fee_per_byte b.txn)
          a.txn.network_fee
          b.txn.network_fee
unfolding compare_to
above-eq a b = ground arith

-- the sign of a comparison of two items, if the first is above the second, or below it
abbrev pub sign_of : Bool → Bool → ℤ
sign_of true below = pos 1
sign_of false true = negsuc 0
sign_of false false = pos 0

-- CompareTo is positive, negative or zero as the triple of high priority, fee per byte and network
-- fee of the first item is lexicographically greater than that of the second, smaller, or neither.
pub compare_to-sign_of :
    (a b : Item)
    → sign (compare_to a b)
      ≡ sign_of
          (triple_above
            (has_high_priority a.txn.attributes)
            (has_high_priority b.txn.attributes)
            (fee_per_byte a.txn)
            (fee_per_byte b.txn)
            a.txn.network_fee
            b.txn.network_fee)
          (triple_above
            (has_high_priority b.txn.attributes)
            (has_high_priority a.txn.attributes)
            (fee_per_byte b.txn)
            (fee_per_byte a.txn)
            b.txn.network_fee
            a.txn.network_fee)
unfolding compare_to
compare_to-sign_of a b = ground arith

fees_trans :
    (f g h n m k : ℕ)
    → fees_above f g n m ≡ true
    → fees_above h g k m ≡ false
    → fees_above f h n k ≡ true
fees_trans f g h n m k p q = ground arith

triple_trans :
    (x y z : Bool) (f g h n m k : ℕ)
    → triple_above x y f g n m ≡ true
    → triple_above z y h g k m ≡ false
    → triple_above x z f h n k ≡ true
triple_trans true true true f g h n m k p q = fees_trans f g h n m k p q
triple_trans true true false f g h n m k p q = refl
triple_trans true false true f g h n m k p q = cc
triple_trans true false false f g h n m k p q = refl
triple_trans false true z f g h n m k p q = cc
triple_trans false false true f g h n m k p q = cc
triple_trans false false false f g h n m k p q = fees_trans f g h n m k p q

triple_asym :
    (x y : Bool) (f g n m : ℕ) → triple_above x y f g n m ≡ true → triple_above y x g f m n ≡ false
triple_asym true true f g n m p = ground arith
triple_asym true false f g n m p = refl
triple_asym false true f g n m p = cc
triple_asym false false f g n m p = ground arith

-- an item above another is not below it
pub above_asym : (a b : Item) → above a b ≡ true → above b a ≡ false
above_asym a b h =
    above-eq b a
    ∙ triple_asym (high a) (high b) (fee_per_byte a.txn) (fee_per_byte b.txn) a.txn.network_fee
        b.txn.network_fee (sym (above-eq a b) ∙ h)

-- an item above another is above all that are not above that
pub above_trans : (a b c : Item) → above a b ≡ true → above c b ≡ false → above a c ≡ true
above_trans a b c h k =
    above-eq a c
    ∙ triple_trans (high a) (high b) (high c) (fee_per_byte a.txn) (fee_per_byte b.txn)
        (fee_per_byte c.txn) a.txn.network_fee b.txn.network_fee c.txn.network_fee
        (sym (above-eq a b) ∙ h) (sym (above-eq c b) ∙ k)

-- From the highest priority to the lowest: no item is above one that stands before it.
abbrev pub Sorted : List Item → Type 0
Sorted [] = Unit
Sorted (x ∷ xs) = All (λ y. above y x ≡ false) xs × Sorted xs

-- the items of `xs` before position n are not below p, and those from n on are
pub Sorted-insert :
    (p : Item) (n : ℕ) (xs : List Item)
    → Sorted xs
    → All (λ x. above p x ≡ false) (take n xs)
    → All (λ x. above p x ≡ true) (drop n xs)
    → Sorted (take n xs ++ p ∷ drop n xs)
Sorted-insert p zero xs s before after =
    (All-map (λ x. above p x ≡ true) (λ x. above x p ≡ false) (λ x h. above_asym p x h) xs after, s)
Sorted-insert p (suc n) [] s before after = (tt, tt)
Sorted-insert p (suc n) (x ∷ xs) s before after = (
  All-around (λ y. above y x ≡ false) n xs p s.0 before.0,
  Sorted-insert p n xs s.1 before.1 after,
)

pub Sorted-remove_at : (n : ℕ) (xs : List Item) → Sorted xs → Sorted (take n xs ++ drop (suc n) xs)
Sorted-remove_at zero [] s = tt
Sorted-remove_at zero (x ∷ xs) s = s.1
Sorted-remove_at (suc n) [] s = tt
Sorted-remove_at (suc n) (x ∷ xs) s =
    (All-remove_at (λ y. above y x ≡ false) n xs s.0, Sorted-remove_at n xs s.1)

-- ===== src/Vm/Stack.antt =====
-- pkg/vm/stack.go: the operations that move elements. The slice is its length and its elements by
-- index, bottom first; an element past the length is whatever the backing array holds. The reference
-- counter that a stack shares with others is a parameter, a state with Add and Remove. A panic on an
-- index out of range is `none`; the positions that may be negative are integers.
pub mod Views
use koala_tblockchain_golang.Shared.{
  ℕ, zero, suc, ◌+◌, ◌-◌, ◌==◌, ltb, leb, ◌&&◌, ◌||◌, Bool, if◌then◌else◌, Option, none, some,
}
use koala_tblockchain_golang.Shared.Int.{ℤ, pos, negsuc}

pub record Stack (E R : Type 0) : Type 0 where
  pub elems : ℕ → E
  pub len : ℕ
  pub refs : R

pub data Err : Type 0 where
  negative_index too_big_index : Err

-- elems[i], elems[j] = elems[j], elems[i]
unfoldable pub swap_elems : {E : Type 0} → ℕ → ℕ → (ℕ → E) → ℕ → E
swap_elems i j a k = if k == i then a j else if k == j then a i else a k

-- The loop of ReverseTop from i and j towards each other, of as many rounds as it makes.
unfoldable pub reverse_loop : {E : Type 0} → ℕ → ℕ → ℕ → (ℕ → E) → ℕ → E
reverse_loop zero i j a = a
reverse_loop (suc fuel) i j a =
    let rest = reverse_loop fuel (suc i) (j - 1) (swap_elems i j a) in if leb i j then rest else a

module _ {E R : Type 0} where
  -- Top and Back; `none` is the empty Element
  unfoldable pub top : Stack E R → Option E
  top s = if s.len == 0 then none else some (s.elems (s.len - 1))

  unfoldable pub back : Stack E R → Option E
  back s = if s.len == 0 then none else some (s.elems 0)

  unfoldable pub peek : ℕ → Stack E R → Option E
  peek n s = if ltb n s.len then some (s.elems (s.len - n - 1)) else none

  unfoldable pub swap : ℤ → ℤ → Stack E R → Stack E R × Option Err
  swap (negsuc n1) n2 s = (s, some negative_index)
  swap (pos n1) (negsuc n2) s = (s, some negative_index)
  swap (pos n1) (pos n2) s =
      if leb s.len n1 || leb s.len n2
      then (s, some too_big_index)
      else (record s { elems = swap_elems (s.len - n1 - 1) (s.len - n2 - 1) s.elems }, none)

  unfoldable pub reverse_top : ℤ → Stack E R → Stack E R × Option Err
  reverse_top (negsuc n) s = (s, some negative_index)
  reverse_top (pos n) s =
      if ltb s.len n
      then (s, some too_big_index)
      else if leb n 1
      then (s, none)
      else (record s { elems = reverse_loop n (s.len - n) (s.len - 1) s.elems }, none)

  -- The elements above the one that rolls each move down by one.
  unfoldable pub roll : ℤ → Stack E R → Stack E R × Option Err
  roll (negsuc n) s = (s, some negative_index)
  roll (pos n) s =
      let e = s.elems (s.len - 1 - n) in
      let moved : ℕ → E =
        λ k. if leb (s.len - 1 - n) k && ltb k (s.len - 1) then s.elems (suc k) else s.elems k in
      if leb s.len n
      then (s, some too_big_index)
      else if n == 0
      then (s, none)
      else (record s { elems = λ k. if k == s.len - 1 then e else moved k }, none)

  module _ (add : E → R → R) (remove : E → R → R) where
    -- the loop of Clear, on the first n elements
    unfoldable pub remove_refs : ℕ → (ℕ → E) → R → R
    remove_refs zero a r = r
    remove_refs (suc n) a r = remove (a n) (remove_refs n a r)

    unfoldable pub clear : Stack E R → Stack E R
    clear s = record s { len = 0; refs = remove_refs s.len s.elems s.refs }

    unfoldable pub push : E → Stack E R → Stack E R
    push e s = record {
      elems = λ k. if k == s.len then e else s.elems k;
      len = suc s.len;
      refs = add e s.refs;
    }

    unfoldable pub pop : Stack E R → Option (Stack E R × E)
    pop s =
        let e = s.elems (s.len - 1) in
        if s.len == 0 then none else some (record s { len = s.len - 1; refs = remove e s.refs }, e)

    -- `copy(elems[l-n+1:], elems[l-n:l])` moves the n elements on top up by one.
    abbrev pub inserted : E → ℕ → Stack E R → Stack E R
    inserted e n s =
        let moved : ℕ → E =
          λ k. if ltb (s.len - n) k && leb k s.len then s.elems (k - 1) else s.elems k in
        record {
          elems = λ k. if k == s.len - n then e else moved k;
          len = suc s.len;
          refs = add e s.refs;
        }

    unfoldable pub insert_at : E → ℕ → Stack E R → Option (Stack E R)
    insert_at e n s = if ltb s.len n then none else some (inserted e n s)

    abbrev pub removed : ℕ → Stack E R → Stack E R
    removed n s = record {
      elems = λ k. if ltb k (s.len - 1 - n) then s.elems k else s.elems (suc k);
      len = s.len - 1;
      refs = remove (s.elems (s.len - 1 - n)) s.refs;
    }

    unfoldable pub remove_at : ℕ → Stack E R → Option (Stack E R × E)
    remove_at n s = if leb s.len n then none else some (removed n s, s.elems (s.len - 1 - n))

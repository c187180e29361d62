-- ===== src/Storage/Seek/Overlay.antt =====
-- Without a cut the merge is the lower store overlaid with the snapshot, in the order of the keys.
use koala_tblockchain_golang.Shared.{
  ◌≡◌, ◌⊎◌, refl, ◌∙◌, List, [], ◌∷◌, ◌++◌, Option, none, some, true, false, arith, Bool-cases, inl,
  inr,
}
use koala_tblockchain_golang.Shared.Bytes.{
  equals, equals_sound, equals_complete, less, less_trans, less-ne, less_cases, equals_sym,
}
use koala_tblockchain_golang.Storage.Memory.{Bytes, Entries, lookup}
use koala_tblockchain_golang.Storage.Seek.{
  KeyValueExists, emit, left_over, emit_all, emit_ps, merge_done, merge, seek_merge,
}

module _ {A : Type 0} where
  -- every key is above b
  abbrev pub Above : Bytes → List (Bytes × A) → Type 0
  Above b [] = Unit
  Above b ((k, a) ∷ m) = (less b k ≡ true) × Above b m

  -- in the order of the keys, each of which stands there once
  abbrev pub Ascending : List (Bytes × A) → Type 0
  Ascending [] = Unit
  Ascending ((k, a) ∷ m) = Above k m × Ascending m

  pub Above-trans : (b c : Bytes) (m : List (Bytes × A)) → less b c ≡ true → Above c m → Above b m
  Above-trans b c [] h a = tt
  Above-trans b c ((k, x) ∷ m) h a = (less_trans b c k h a.0, Above-trans b c m h a.1)

  lookup-Above : (b : Bytes) (m : List (Bytes × A)) → Above b m → lookup b m ≡ none
  unfolding lookup
  lookup-Above b [] a = refl
  lookup-Above b ((k, x) ∷ m) a = rw (equals_sym k b, less-ne b k a.0) (lookup-Above b m a.1)

-- the value of the snapshot, or else that of the lower store
abbrev pub shadowed : Option (Option Bytes) → Option Bytes → Option Bytes
shadowed none below = below
shadowed (some value) below = value

-- `out` is in order, and has under every key what the snapshot has, or else the lower store.
pub record Overlays (mem_res : List KeyValueExists) (ps out : Entries) : Type 0 where
  pub ascending : Ascending out
  pub values : (k : Bytes) → lookup k out ≡ shadowed (lookup k mem_res) (lookup k ps)
  pub bounded : (b : Bytes) → Above b mem_res → Above b ps → Above b out

nothing_above : (ps : Entries) → Ascending ps → Overlays [] ps ps
unfolding lookup
nothing_above ps h = record { ascending = h; values = λ k. refl; bounded = λ b x y. y }

-- the snapshot's first key comes first
emit-Overlays :
    (k : Bytes) (value : Option Bytes) (rest : List KeyValueExists) (ps out : Entries)
    → Above k rest
    → Above k ps
    → Overlays rest ps out
    → Overlays ((k, value) ∷ rest) ps (emit none (k, value) ++ out)
unfolding lookup
emit-Overlays k none rest ps out a b o = record {
  ascending = o.ascending;
  values = λ j. elim (Bool-cases (equals k j)) [
    | inl e ↦ rw (e, ← equals_sound k j e) (lookup-Above k out (o.bounded k a b))
    | inr e ↦ rw e (o.values j)
  ];
  bounded = λ c x y. o.bounded c x.1 y;
}
emit-Overlays k (some v) rest ps out a b o = record {
  ascending = (o.bounded k a b, o.ascending);
  values = λ j. elim (Bool-cases (equals k j)) [ inl e ↦ rw e refl | inr e ↦ rw e (o.values j) ];
  bounded = λ c x y. (x.0, o.bounded c x.1 y);
}

-- the lower store's first key comes first
ps-Overlays :
    (k v : Bytes) (mem_res : List KeyValueExists) (ps out : Entries)
    → Above k mem_res
    → Above k ps
    → Overlays mem_res ps out
    → Overlays mem_res ((k, v) ∷ ps) ((k, v) ∷ out)
unfolding lookup
ps-Overlays k v mem_res ps out a b o = record {
  ascending = (o.bounded k a b, o.ascending);
  values = λ j. elim (Bool-cases (equals k j)) [
    | inl e ↦ rw (e, ← equals_sound k j e, lookup-Above k mem_res a) refl
    | inr e ↦ rw e (o.values j)
  ];
  bounded = λ c x y. (y.0, o.bounded c x y.1);
}

-- both have the key, and the snapshot's is kept
same-Overlays :
    (k v : Bytes) (value : Option Bytes) (rest : List KeyValueExists) (ps out : Entries)
    → Overlays ((k, value) ∷ rest) ps out
    → Overlays ((k, value) ∷ rest) ((k, v) ∷ ps) out
unfolding lookup
same-Overlays k v value rest ps out o = record {
  ascending = o.ascending;
  values = λ j. elim (Bool-cases (equals k j)) [
    | inl e ↦ rw e (o.values j ∙ (rw e))
    | inr e ↦ rw e (o.values j ∙ (rw e))
  ];
  bounded = λ c x y. o.bounded c x y.1;
}

emit_all-Overlays :
    (mem_res : List KeyValueExists)
    → Ascending mem_res
    → Overlays mem_res [] (emit_all none mem_res)
unfolding emit_all
emit_all-Overlays [] h = nothing_above [] tt
emit_all-Overlays ((k, value) ∷ rest) h =
    emit-Overlays k value rest [] (emit_all none rest) h.0 tt (emit_all-Overlays rest h.1)

merge_done-eq : (kv : KeyValueExists) (ps : Entries) → Above kv.0 ps → merge_done none kv ps ≡ ps
unfolding merge_done
merge_done-eq kv [] h = refl
merge_done-eq kv ((k, v) ∷ ps) h = rw (less-ne kv.0 k h.0, merge_done-eq kv ps h.1) refl

left_over-none : (kv : KeyValueExists) → left_over none kv ≡ kv
left_over-none (k, none) = refl
left_over-none (k, some v) = refl

pub less_after : (k j : Bytes) → less k j ≡ false → (equals k j ≡ true) ⊎ (less j k ≡ true)
less_after k j l = elim (less_cases k j) [
  | inl e ↦ absurd (cc (e, l))
  | inr (inl e) ↦ inl (equals_complete k j e)
  | inr (inr e) ↦ inr e
]

-- the step at a key of the lower store that the snapshot's key does not come before
here-Overlays :
    (k : Bytes) (value : Option Bytes) (rest : List KeyValueExists) (j v : Bytes) (ps out : Entries)
    → Above k rest
    → Above j ps
    → less k j ≡ false
    → Overlays ((k, value) ∷ rest) ps out
    → Overlays ((k, value) ∷ rest) ((j, v) ∷ ps) (emit_ps none (k, value) (j, v) ++ out)
here-Overlays k value rest j v ps out a b l o = elim (Bool-cases (equals k j)) [
  | inl e ↦ rw (e, ← equals_sound k j e) (same-Overlays k v value rest ps out o)
  | inr e ↦
      let before : less j k ≡ true = ground (arith, less_after k j l, e) in
      rw e (ps-Overlays j v ((k, value) ∷ rest) ps out (before, Above-trans j k rest before a) b o)
]

merge-Overlays :
    (k : Bytes) (value : Option Bytes) (rest : List KeyValueExists) (ps : Entries)
    → Above k rest
    → Ascending rest
    → Ascending ps
    → Overlays ((k, value) ∷ rest) ps (merge none (k, value) rest ps)
unfolding merge
merge-Overlays k value rest [] a m p = emit_all-Overlays ((k, value) ∷ rest) (a, m)
merge-Overlays k value [] ((j, v) ∷ ps) a m p = elim (Bool-cases (less k j)) [
  | inl l ↦
      let above : Above k ((j, v) ∷ ps) = (l, Above-trans k j ps l p.0) in
      rw (l, left_over-none (k, value), merge_done-eq (k, value) ((j, v) ∷ ps) above)
        (emit-Overlays k value [] ((j, v) ∷ ps) ((j, v) ∷ ps) tt above
          (nothing_above ((j, v) ∷ ps) p))
  | inr l ↦ rw l (
      here-Overlays k value [] j v ps (merge none (k, value) [] ps) a p.0 l
        (merge-Overlays k value [] ps a m p.1))
]
merge-Overlays k value ((k', value') ∷ rest) ((j, v) ∷ ps) a m p = elim (Bool-cases (less k j)) [
  | inl l ↦ rw l (
      emit-Overlays k value ((k', value') ∷ rest) ((j, v) ∷ ps)
        (merge none (k', value') rest ((j, v) ∷ ps)) a (l, Above-trans k j ps l p.0)
        (merge-Overlays k' value' rest ((j, v) ∷ ps) m.0 m.1 p))
  | inr l ↦ rw l (
      here-Overlays k value ((k', value') ∷ rest) j v ps
        (merge none (k, value) ((k', value') ∷ rest) ps) a p.0 l
        (merge-Overlays k value ((k', value') ∷ rest) ps a m p.1))
]

-- Seek of a sorted snapshot over what a lower store seeks in order, where no key is empty: the
-- callback gets the keys in order, each once, and under every key the value of the snapshot, none if
-- the snapshot has it as deleted, or else that of the lower store.
pub seek_merge-Overlays :
    (mem_res : List KeyValueExists) (ps : Entries)
    → Ascending mem_res
    → Ascending ps
    → Above [] ps
    → Overlays mem_res ps (seek_merge none mem_res ps)
unfolding seek_merge
seek_merge-Overlays [] ps m p nonempty =
    rw (merge_done-eq ([], none) ps nonempty) (nothing_above ps p)
seek_merge-Overlays ((k, value) ∷ rest) ps m p nonempty = merge-Overlays k value rest ps m.0 m.1 p

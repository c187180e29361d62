-- ===== src/Mpt/Proof/Filled.antt =====
-- The store of VerifyProof, which holds every element of a proof under its hash.
use koala_tblockchain_golang.Shared.{
  ◌≡◌, refl, ap, ◌∙◌, List, [], ◌∷◌, Option, some, All, Bool-cases, inl, inr,
}
use koala_tblockchain_golang.Shared.Bytes.{equals, equals_sound, equals_self}
use koala_tblockchain_golang.Storage.Memory.{MemoryStore}
use koala_tblockchain_golang.Storage.Cached.{MemCachedStore, cached_get, cached_put}
use koala_tblockchain_golang.Storage.Cached.View.{contents-cached_put}
use koala_tblockchain_golang.Mpt.Node.{Bytes}
use koala_tblockchain_golang.Mpt.Trie.{make_storage_key}
use koala_tblockchain_golang.Mpt.Proof.{over_memory, put_proofs}

-- no two of the byte strings have the same hash
abbrev pub IsCollisionFree : (Bytes → Bytes) → List Bytes → Type 0
IsCollisionFree h [] = Unit
IsCollisionFree h (q ∷ rest) = All (λ q'. h q' ≡ h q → q' ≡ q) rest × IsCollisionFree h rest

module _ (double_sha256 : Bytes → Bytes) where
  -- the element is found under its hash
  abbrev pub IsFound : MemCachedStore MemoryStore → Bytes → Type 0
  IsFound s q = cached_get over_memory (make_storage_key (double_sha256 q)) s ≡ some q

  put-IsFound :
      (q q' : Bytes) (s : MemCachedStore MemoryStore)
      → (double_sha256 q' ≡ double_sha256 q → q' ≡ q)
      → IsFound s q
      → IsFound (cached_put (make_storage_key (double_sha256 q')) q' s) q
  unfolding equals
  put-IsFound q q' s unique h =
      ap (λ (f : Bytes → Option Bytes). f (make_storage_key (double_sha256 q)))
        (contents-cached_put over_memory (make_storage_key (double_sha256 q')) q' s)
      ∙ elim (Bool-cases (equals (double_sha256 q') (double_sha256 q))) [
        | inl e ↦ rw e (ap some (unique (equals_sound (double_sha256 q') (double_sha256 q) e)))
        | inr e ↦ rw e h
      ]

  put_proofs-IsFound :
      (rest : List Bytes) (q : Bytes) (s : MemCachedStore MemoryStore)
      → All (λ q'. double_sha256 q' ≡ double_sha256 q → q' ≡ q) rest
      → IsFound s q
      → IsFound (put_proofs double_sha256 rest s) q
  unfolding put_proofs
  put_proofs-IsFound [] q s u h = h
  put_proofs-IsFound (q' ∷ rest) q s (one, u) h =
      put_proofs-IsFound rest q (cached_put (make_storage_key (double_sha256 q')) q' s) u
        (put-IsFound q q' s one h)

  pub all-IsFound :
      (proofs : List Bytes) (s : MemCachedStore MemoryStore)
      → IsCollisionFree double_sha256 proofs
      → All (IsFound (put_proofs double_sha256 proofs s)) proofs
  unfolding put_proofs
  all-IsFound [] s u = tt
  all-IsFound (q ∷ rest) s (one, u) = (
    put_proofs-IsFound rest q (cached_put (make_storage_key (double_sha256 q)) q s) one (
        ap (λ (f : Bytes → Option Bytes). f (make_storage_key (double_sha256 q)))
          (contents-cached_put over_memory (make_storage_key (double_sha256 q)) q s)
        ∙ rw (equals_self (make_storage_key (double_sha256 q))) refl),
    all-IsFound rest (cached_put (make_storage_key (double_sha256 q)) q s) u,
  )

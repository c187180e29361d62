-- ===== src/Storage/Seek/Cut.antt =====
-- With a cut SeekAsync compares a key of the lower store with a key of the snapshot that has lost its
-- prefix, and may take the two for the same.
use koala_tblockchain_golang.Shared.{◌≡◌, refl, [], ◌∷◌, ◌++◌, some, true, false, drop-append}
use koala_tblockchain_golang.Shared.Bytes.{equals_self, has_prefix, less, less-ne}
use koala_tblockchain_golang.Storage.Memory.{Bytes, Entries}
use koala_tblockchain_golang.Storage.Cached.{MemCachedStore}
use koala_tblockchain_golang.Storage.Seek.{mem_results, seek_async, seek_merge, merge, merge_done}

-- Take a prefix p and a key q of the lower store under it, and let p ++ q come before q. If under p
-- the maps of the cached store have p ++ q alone and the lower store has q alone, then SeekAsync
-- without a cut gives the user both entries, but with the cut it gives q with the value of p ++ q
-- and nothing of the lower store's entry.
pub cut_loses :
    {S : Type 0} (lower_seek : Bytes → S → Entries) (p q v w : Bytes) (s : MemCachedStore S)
    → has_prefix q p ≡ true
    → less (p ++ q) q ≡ true
    → mem_results p s.store ≡ (p ++ q, some v) ∷ []
    → lower_seek p s.ps ≡ (q, w) ∷ []
    → (seek_async lower_seek p true s ≡ (q, v) ∷ [])
      × (seek_async lower_seek p false s ≡ (p ++ q, v) ∷ (q, w) ∷ [])
unfolding seek_async seek_merge merge merge_done
cut_loses lower_seek p q v w s under h m l =
    (rw (m, l, h, drop-append p q, equals_self q) refl, rw (m, l, h, less-ne (p ++ q) q h) refl)

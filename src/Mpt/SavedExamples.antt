-- ===== src/Mpt/SavedExamples.antt =====
-- The theorems on tries that are in the store, and on proofs, at concrete inputs.
use koala_tblockchain_golang.Io.Reader.{read_b, read_bytes, read_full, read_var_uint}
use koala_tblockchain_golang.Io.Writer.{
  write_b, write_bytes, write_var_uint, write_var_bytes, put_var_uint,
}
use koala_tblockchain_golang.Mpt.Proof.{verify_proof, put_proofs}
use koala_tblockchain_golang.Mpt.Proof.Soundness.{HasNoCollision, verify_proof_sound}
use koala_tblockchain_golang.Mpt.Trie.Flush.{collapse_trie}
use koala_tblockchain_golang.Mpt.Trie.Contents.Keys.{Stores}
use koala_tblockchain_golang.Mpt.Trie.Contents.Restored.{IsSaved, collapse_trie-Stores}
use koala_tblockchain_golang.Shared.{
  length, replicate, Option, sym, if◌then◌else◌, ◌≡◌, refl, subst, All, [], ◌∷◌, none, some, false,
  arith,
}
use koala_tblockchain_golang.Shared.Bytes.{equals, has_prefix}
use koala_tblockchain_golang.Storage.Memory.{
  Bytes, assign, lookup, member, MemoryStore, memory_get, put_change_set, new_memory_store,
}
use koala_tblockchain_golang.Storage.Cached.{cached_get, cached_put, new_cached}
use koala_tblockchain_golang.Mpt.Nibbles.{to_nibbles}
use koala_tblockchain_golang.Mpt.Node.{
  Node, leaf, extension, hash_node, hash_of, bytes_of, encode_node, decode_node, decode_leaf,
  decode_extension,
}
use koala_tblockchain_golang.Mpt.Trie.{
  Backing, new_trie, noted_refs, get_with_path, stored_node, node_object,
}
use koala_tblockchain_golang.Mpt.Trie.Contents.{Holds, one_value, under}

some_injective : {A : Type 0} {x y : A} → some x ≡ some y → x ≡ y
some_injective e = cc

-- A hash that is the first byte: it tells the kinds of nodes apart.
abbrev kind_of : Bytes → Bytes
kind_of [] = replicate 32 0
kind_of (x ∷ bs) = x ∷ replicate 31 0

-- the value 7 under the key 0x12, in a leaf below an extension
abbrev small_root : Node
small_root = extension (1 ∷ 2 ∷ []) (leaf (7 ∷ []))

abbrev leaf_data : Bytes
leaf_data = 0x02 ∷ 1 ∷ 7 ∷ []

abbrev root_data : Bytes
root_data = 0x01 ∷ 2 ∷ 1 ∷ 2 ∷ 0x03 ∷ kind_of leaf_data

abbrev saved_get : Bytes → Option Bytes
saved_get k =
    if equals k (3 ∷ kind_of root_data)
    then some root_data
    else if equals k (3 ∷ kind_of leaf_data)
    then some leaf_data
    else none

abbrev saved : Backing
saved = record { double_sha256 = kind_of; store_get = saved_get; refcount_enabled = false }

abbrev small_values : Bytes → Option Bytes
small_values = under (1 ∷ 2 ∷ []) (one_value (7 ∷ []))

abbrev small_map : Bytes → Option Bytes
small_map k = small_values (to_nibbles k)

kind_of-length : (bs : Bytes) → length (kind_of bs) ≡ 32
kind_of-length [] = refl
kind_of-length (x ∷ bs) = refl

small_trie-Stores : Stores saved 2 (new_trie small_root) small_map
unfolding Holds
small_trie-Stores = (
  small_values,
  (
    ((omega arith, (omega arith, tt)), (one_value (7 ∷ []), (λ p x. refl, λ p x. refl))),
    λ k h. refl,
  ),
)

small_root-IsSaved : IsSaved saved kind_of-length small_root
unfolding IsSaved hash_of bytes_of encode_node write_var_bytes write_var_uint write_bytes write_b
    put_var_uint equals
small_root-IsSaved = (([], (refl, refl)), (omega arith, (([], (refl, refl)), omega arith)))

collapse_trie-Stores_example :
    Stores saved 4 (collapse_trie kind_of 0 (new_trie small_root)) small_map
collapse_trie-Stores_example =
    collapse_trie-Stores saved kind_of-length 0 2 (new_trie small_root) small_map small_trie-Stores
      small_root-IsSaved

saved_root :
    stored_node saved (kind_of root_data)
    ≡ some (extension (1 ∷ 2 ∷ []) (hash_node (kind_of leaf_data)))
unfolding stored_node node_object decode_node decode_extension read_b read_var_uint read_bytes
    read_full equals
saved_root = refl

saved_leaf : stored_node saved (kind_of leaf_data) ≡ some (leaf (7 ∷ []))
unfolding stored_node node_object decode_node decode_leaf read_b read_var_uint read_bytes read_full
    equals
saved_leaf = refl

hashed_trie-Stores : Stores saved 4 (new_trie (hash_node (kind_of root_data))) small_map
unfolding Holds
hashed_trie-Stores = (
  small_values,
  (
    (
      extension (1 ∷ 2 ∷ []) (hash_node (kind_of leaf_data)),
      (
        saved_root,
        (
          (omega arith, (omega arith, tt)),
          (one_value (7 ∷ []), ((leaf (7 ∷ []), (saved_leaf, λ p x. refl)), λ p x. refl)),
        ),
      ),
    ),
    λ k h. refl,
  ),
)

no_collisions : All (HasNoCollision saved) (root_data ∷ leaf_data ∷ [])
unfolding equals
no_collisions = (
  λ h bs e eh. some_injective (subst (λ (k : Bytes). saved_get (3 ∷ k) ≡ some bs) (sym eh) e),
  (λ h bs e eh. some_injective (subst (λ (k : Bytes). saved_get (3 ∷ k) ≡ some bs) (sym eh) e), tt),
)

accepted :
    verify_proof kind_of 5 (kind_of root_data) (0x12 ∷ []) (root_data ∷ leaf_data ∷ [])
    ≡ some (7 ∷ [])
unfolding verify_proof get_with_path stored_node to_nibbles cached_get lookup put_proofs cached_put
    koala_tblockchain_golang.Storage.Memory.put assign new_cached new_memory_store equals
    node_object decode_node read_b read_bytes read_full decode_extension decode_leaf read_var_uint
    has_prefix noted_refs
accepted = refl

verify_proof_sound_example : small_map (0x12 ∷ []) ≡ some (7 ∷ [])
verify_proof_sound_example =
    verify_proof_sound saved 4 5 (kind_of root_data) (0x12 ∷ []) (7 ∷ [])
      (root_data ∷ leaf_data ∷ []) small_map (omega arith, tt) no_collisions hashed_trie-Stores
      accepted

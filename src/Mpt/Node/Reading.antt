-- ===== src/Mpt/Node/Reading.antt =====
-- Nodes read back from their bytes: the children of a node come back as hashes.
use koala_tblockchain_golang.Shared.{
  ℕ, zero, suc, ◌+◌, ◌≤◌, ◌<◌, ◌≡◌, refl, sym, ap, ◌∙◌, ◌∷◌, ◌++◌, append_assoc, some, false, arith,
  ltb, length, replicate, length-replicate, Bool-cases, inl, inr,
}
use koala_tblockchain_golang.Io.Reader.{new_from_buf}
use koala_tblockchain_golang.Io.Writer.{put_var_uint}
use koala_tblockchain_golang.Io.RoundTrip.{
  read_bytes-append, read_b-cons, read_var_uint-put_var_uint,
}
use koala_tblockchain_golang.Mpt.Node.{
  Bytes, Node, empty, leaf, extension, branch, hash_node, children_count, max_path_length,
  max_value_length, type_of, is_empty_node, hash_of, bytes_of, read_children, decode_extension,
  decode_leaf, decode_node,
}
use koala_tblockchain_golang.Mpt.Node.Binary.{
  child_bytes, as_child, children_bytes, children_list, body_bytes, shallow, bytes_of_lem,
}

-- the hash of a child that is a hash node has 32 bytes
abbrev pub IsSized : Node → Type 0
IsSized (hash_node h) = length h ≡ 32
IsSized empty = Unit
IsSized (leaf v) = Unit
IsSized (extension k n) = Unit
IsSized (branch c) = Unit

-- the limits under which a node is read back
abbrev pub IsWithinLimits : Node → Type 0
IsWithinLimits empty = Unit
IsWithinLimits (leaf v) = length v ≤ max_value_length
IsWithinLimits (extension k n) = length k ≤ max_path_length × IsSized n
IsWithinLimits (branch c) = (j : ℕ) → j < children_count → IsSized (c j)
IsWithinLimits (hash_node h) = length h ≡ 32

module _ (double_sha256 : Bytes → Bytes)
    (hash_length : (bs : Bytes) → length (double_sha256 bs) ≡ 32) where
  length-hash_of :
      (n : Node) → is_empty_node n ≡ false → IsSized n → length (hash_of double_sha256 n) ≡ 32
  unfolding hash_of
  length-hash_of empty e h = absurd cc
  length-hash_of (hash_node i) e h = h
  length-hash_of (leaf v) e h = hash_length _
  length-hash_of (extension k n) e h = hash_length _
  length-hash_of (branch c) e h = hash_length _

  decode_node-child_bytes :
      (fuel : ℕ) (n : Node) (t : Bytes)
      → IsSized n
      → decode_node (suc fuel) (new_from_buf (child_bytes double_sha256 n ++ t))
        ≡ (some (as_child double_sha256 n), new_from_buf t)
  unfolding decode_node child_bytes as_child
  decode_node-child_bytes fuel n t h = elim (Bool-cases (is_empty_node n)) [
    | inl e ↦ rw (e, read_b-cons 0x04 t) refl
    | inr e ↦
        rw
          (
            e,
            read_b-cons 0x03 (hash_of double_sha256 n ++ t),
            read_bytes-append (replicate 32 0) (hash_of double_sha256 n) t
                (sym (length-hash_of n e h)),
          )
          refl
  ]

  read_children-children_bytes :
      (fuel i n : ℕ) (c : ℕ → Node) (t : Bytes)
      → ((j : ℕ) → j < i + n → IsSized (c j))
      → read_children
          (decode_node (suc fuel))
          n
          (new_from_buf (children_bytes double_sha256 i n c ++ t))
        ≡ (some (children_list double_sha256 i n c), new_from_buf t)
  unfolding read_children children_bytes children_list
  read_children-children_bytes fuel i zero c t h = refl
  read_children-children_bytes fuel i (suc n) c t h =
      rw
        (
          append_assoc (child_bytes double_sha256 (c i)) (children_bytes double_sha256 (i + 1) n c)
              t,
          decode_node-child_bytes fuel (c i) (children_bytes double_sha256 (i + 1) n c ++ t)
              (h i (omega arith)),
          read_children-children_bytes fuel (i + 1) n c t (λ j lt. h j (omega arith)),
        )
        refl

  decode_leaf-body_bytes :
      (v t : Bytes)
      → length v ≤ max_value_length
      → decode_leaf (new_from_buf (body_bytes double_sha256 (leaf v) ++ t))
        ≡ (some (leaf v), new_from_buf t)
  unfolding decode_leaf body_bytes
  decode_leaf-body_bytes v t h =
      let small : ltb max_value_length (length v) ≡ false = ground (arith, h) in
      rw
        (
          append_assoc (put_var_uint (length v)) v t,
          read_var_uint-put_var_uint (length v) (v ++ t) (omega arith),
          read_bytes-append (replicate (length v) 0) v t (length-replicate (length v) 0),
          small,
        )
        refl

  decode_extension-body_bytes :
      (fuel : ℕ) (k t : Bytes) (n : Node)
      → length k ≤ max_path_length
      → IsSized n
      → decode_extension
          (decode_node (suc fuel))
          (new_from_buf (body_bytes double_sha256 (extension k n) ++ t))
        ≡ (some (extension k (as_child double_sha256 n)), new_from_buf t)
  unfolding decode_extension body_bytes
  decode_extension-body_bytes fuel k t n h s =
      let small : ltb max_path_length (length k) ≡ false = ground (arith, h) in
      rw
        (
          append_assoc (put_var_uint (length k) ++ k) (child_bytes double_sha256 n) t,
          append_assoc (put_var_uint (length k)) k (child_bytes double_sha256 n ++ t),
          read_var_uint-put_var_uint (length k) (k ++ (child_bytes double_sha256 n ++ t))
              (omega arith),
          read_bytes-append (replicate (length k) 0) k (child_bytes double_sha256 n ++ t)
              (length-replicate (length k) 0),
          decode_node-child_bytes fuel n t s,
          small,
        )
        refl

  -- A node within the limits is read back from its bytes, with its children as hashes.
  pub decode_node-bytes_of :
      (fuel : ℕ) (n : Node) (t : Bytes)
      → IsWithinLimits n
      → decode_node (suc (suc fuel)) (new_from_buf (bytes_of double_sha256 n ++ t))
        ≡ (some (shallow double_sha256 n), new_from_buf t)
  unfolding decode_node shallow body_bytes
  decode_node-bytes_of fuel n t h =
      ap (λ (bs : Bytes). decode_node (suc (suc fuel)) (new_from_buf (bs ++ t)))
        (bytes_of_lem double_sha256 n)
      ∙ of_body n h
    where
      of_body :
          (n : Node)
          → IsWithinLimits n
          → decode_node
              (suc (suc fuel))
              (new_from_buf (type_of n ∷ (body_bytes double_sha256 n ++ t)))
            ≡ (some (shallow double_sha256 n), new_from_buf t)
      of_body empty h = rw (read_b-cons 0x04 t) refl
      of_body (leaf v) h =
          rw
            (
              read_b-cons 0x02 (body_bytes double_sha256 (leaf v) ++ t),
              decode_leaf-body_bytes v t h,
            )
            refl
      of_body (extension k n) h =
          rw
            (
              read_b-cons 0x01 (body_bytes double_sha256 (extension k n) ++ t),
              decode_extension-body_bytes fuel k t n h.0 h.1,
            )
            refl
      of_body (branch c) h =
          rw
            (
              read_b-cons 0x00 (body_bytes double_sha256 (branch c) ++ t),
              read_children-children_bytes fuel 0 children_count c t (λ j lt. h j (omega arith)),
            )
            refl
      of_body (hash_node i) h =
          rw (read_b-cons 0x03 (i ++ t), read_bytes-append (replicate 32 0) i t (sym h)) refl

-- ===== src/Mpt/Node/Binary.antt =====
-- Nodes as they are written, byte by byte.
use koala_tblockchain_golang.Shared.{
  ℕ, zero, suc, ◌+◌, ◌≡◌, refl, sym, ap, ◌∙◌, List, [], ◌∷◌, ◌++◌, append_assoc, append-nil, arith,
  if◌then◌else◌, length, Bool-cases, inl, inr,
}
use koala_tblockchain_golang.Io.Writer.{
  BinWriter, write_b, write_bytes, put_var_uint, write_var_uint, write_var_bytes,
}
use koala_tblockchain_golang.Io.RoundTrip.{buf_writer}
use koala_tblockchain_golang.Mpt.Node.{
  Bytes, Node, empty, leaf, extension, branch, hash_node, children_count, type_of, is_empty_node,
  encode_as_child, encode_children, encode_node, hash_of, bytes_of, children_of,
}

module _ (double_sha256 : Bytes → Bytes) where
  -- a child as it is written and as it is read
  unfoldable pub child_bytes : Node → Bytes
  child_bytes c = if is_empty_node c then 0x04 ∷ [] else 0x03 ∷ hash_of double_sha256 c

  unfoldable pub as_child : Node → Node
  as_child c = if is_empty_node c then empty else hash_node (hash_of double_sha256 c)

  -- the children from the index i on
  unfoldable pub children_bytes : ℕ → ℕ → (ℕ → Node) → Bytes
  children_bytes i zero c = []
  children_bytes i (suc n) c = child_bytes (c i) ++ children_bytes (i + 1) n c

  unfoldable pub children_list : ℕ → ℕ → (ℕ → Node) → List Node
  children_list i zero c = []
  children_list i (suc n) c = as_child (c i) ∷ children_list (i + 1) n c

  unfoldable pub body_bytes : Node → Bytes
  body_bytes empty = []
  body_bytes (leaf v) = put_var_uint (length v) ++ v
  body_bytes (extension k n) = put_var_uint (length k) ++ k ++ child_bytes n
  body_bytes (branch c) = children_bytes 0 children_count c
  body_bytes (hash_node h) = h

  -- what is read of a node
  unfoldable pub shallow : Node → Node
  shallow empty = empty
  shallow (leaf v) = leaf v
  shallow (extension k n) = extension k (as_child n)
  shallow (branch c) = branch (children_of (children_list 0 children_count c))
  shallow (hash_node h) = hash_node h

  encode_as_child-out :
      (n : Node) (o : Bytes)
      → encode_as_child double_sha256 n (encode_node double_sha256 n) (buf_writer o)
        ≡ buf_writer (o ++ child_bytes n)
  unfolding write_b write_bytes hash_of child_bytes
  encode_as_child-out n o = elim (Bool-cases (is_empty_node n)) [
    | inl e ↦ rw e refl
    | inr e ↦ rw (e, append_assoc o (0x03 ∷ []) (hash_of double_sha256 n)) refl
  ]

  children_bytes_last :
      (i n : ℕ) (c : ℕ → Node)
      → children_bytes i (suc n) c ≡ children_bytes i n c ++ child_bytes (c (i + n))
  unfolding children_bytes
  children_bytes_last i zero c =
      let same : i + 0 ≡ i = omega arith in rw (same, append-nil (child_bytes (c i))) refl
  children_bytes_last i (suc n) c =
      let same : i + 1 + n ≡ i + suc n = omega arith in
      ap (λ (bs : Bytes). child_bytes (c i) ++ bs) (children_bytes_last (i + 1) n c)
      ∙ sym (
          append_assoc (child_bytes (c i)) (children_bytes (i + 1) n c)
            (child_bytes (c (i + 1 + n))))
      ∙ rw same refl

  from_zero :
      (n : ℕ) (c : ℕ → Node)
      → children_bytes 0 (suc n) c ≡ children_bytes 0 n c ++ child_bytes (c n)
  from_zero n c = let same : 0 + n ≡ n = omega arith in children_bytes_last 0 n c ∙ rw same refl

  encode_children-out :
      (n : ℕ) (c : ℕ → Node) (o : Bytes)
      → encode_children double_sha256 n
          (λ i. encode_as_child double_sha256 (c i) (encode_node double_sha256 (c i)))
          (buf_writer o)
        ≡ buf_writer (o ++ children_bytes 0 n c)
  unfolding encode_children children_bytes
  encode_children-out zero c o = rw (append-nil o) refl
  encode_children-out (suc n) c o =
      ap (encode_as_child double_sha256 (c n) (encode_node double_sha256 (c n)))
        (encode_children-out n c o)
      ∙ encode_as_child-out (c n) (o ++ children_bytes 0 n c)
      ∙ ap buf_writer (
          append_assoc o (children_bytes 0 n c) (child_bytes (c n))
          ∙ ap (λ (bs : Bytes). o ++ bs) (sym (from_zero n c)))

  encode_node-out :
      (n : Node) (o : Bytes)
      → encode_node double_sha256 n (buf_writer o) ≡ buf_writer (o ++ body_bytes n)
  unfolding encode_node body_bytes write_var_bytes write_var_uint write_bytes
  encode_node-out empty o = rw (append-nil o) refl
  encode_node-out (leaf v) o = rw (append_assoc o (put_var_uint (length v)) v) refl
  encode_node-out (extension k n) o =
      encode_as_child-out n (o ++ put_var_uint (length k) ++ k)
      ∙ ap buf_writer (
          rw
            (
              append_assoc o (put_var_uint (length k)) k,
              append_assoc o (put_var_uint (length k) ++ k) (child_bytes n),
            )
            refl)
  encode_node-out (branch c) o = encode_children-out children_count c o
  encode_node-out (hash_node h) o = refl

  pub bytes_of_lem : (n : Node) → bytes_of double_sha256 n ≡ type_of n ∷ body_bytes n
  unfolding bytes_of write_b write_bytes
  bytes_of_lem n = ap BinWriter.out (encode_node-out n (type_of n ∷ []))

-- ===== src/Mpt/Node.antt =====
-- The nodes of pkg/core/mpt (base.go, node.go, branch.go, extension.go, leaf.go, hash.go, empty.go)
-- and their binary form. The cached bytes and hash of a node, which are dropped whenever it is
-- changed, are computed anew. The double SHA-256 is a parameter. JSON is left out.
pub mod Binary
pub mod Reading
use koala_tblockchain_golang.Shared.{
  ℕ, zero, suc, ◌-◌, ◌==◌, ltb, List, [], ◌∷◌, Option, none, some, Bool, true, false, if◌then◌else◌,
  replicate,
}
use koala_tblockchain_golang.Io.Reader.{
  Read, BinReader, errors_new, set_err, read_b, read_bytes, read_var_uint,
}
use koala_tblockchain_golang.Io.Writer.{Write, write_b, write_bytes, write_var_bytes}

abbrev pub Bytes : Type 0
Bytes = List ℕ

-- The children of a branch are those at the indices 0 to 16.
pub data Node : Type 0 where
  empty : Node
  leaf : Bytes → Node
  extension : Bytes → Node → Node
  branch : (ℕ → Node) → Node
  hash_node : Bytes → Node

abbrev pub children_count : ℕ
children_count = 17

abbrev pub last_child : ℕ
last_child = children_count - 1

abbrev pub max_path_length : ℕ
max_path_length = 136

-- 3 + MaxStorageValueLen + 1
abbrev pub max_value_length : ℕ
max_value_length = 65539

-- Type, with the constants of NodeType
abbrev pub type_of : Node → ℕ
type_of (branch c) = 0x00
type_of (extension k n) = 0x01
type_of (leaf v) = 0x02
type_of (hash_node h) = 0x03
type_of empty = 0x04

abbrev pub is_empty_node : Node → Bool
is_empty_node empty = true
is_empty_node (leaf v) = false
is_empty_node (extension k n) = false
is_empty_node (branch c) = false
is_empty_node (hash_node h) = false

-- n.Children[i] = r
abbrev pub set_child : (ℕ → Node) → ℕ → Node → ℕ → Node
set_child c i r j = if j == i then r else c j

-- NewBranchNode
abbrev pub new_children : ℕ → Node
new_children i = empty

-- splitPath
abbrev pub split_path : Bytes → ℕ × Bytes
split_path [] = (last_child, [])
split_path (i ∷ path) = (i, path)

module _ (double_sha256 : Bytes → Bytes) where
  -- encodeNodeWithType, where `body` is the node's EncodeBinary
  abbrev pub encode_with_type : Node → Write → Write
  encode_with_type n body w = body (write_b (type_of n) w)

  -- updateBytes
  abbrev pub bytes_with : Node → Write → Bytes
  bytes_with n body = (encode_with_type n body (record { out = []; err = none })).out

  -- Hash. That of an empty node panics: no caller asks for it.
  abbrev pub hash_with : Node → Write → Bytes
  hash_with (hash_node h) body = h
  hash_with empty body = double_sha256 (bytes_with empty body)
  hash_with (leaf v) body = double_sha256 (bytes_with (leaf v) body)
  hash_with (extension k n) body = double_sha256 (bytes_with (extension k n) body)
  hash_with (branch c) body = double_sha256 (bytes_with (branch c) body)

  -- encodeBinaryAsChild
  abbrev pub encode_as_child : Node → Write → Write
  encode_as_child n body w =
      if is_empty_node n then write_b 0x04 w else write_bytes (hash_with n body) (write_b 0x03 w)

  -- the loop over the children
  unfoldable pub encode_children : ℕ → (ℕ → Write) → Write
  encode_children zero encode w = w
  encode_children (suc n) encode w = encode n (encode_children n encode w)

  unfoldable pub encode_node : Node → Write
  encode_node empty w = w
  encode_node (leaf v) w = write_var_bytes v w
  encode_node (extension k n) w = encode_as_child n (encode_node n) (write_var_bytes k w)
  encode_node (branch c) w =
      encode_children children_count (λ i. encode_as_child (c i) (encode_node (c i))) w
  encode_node (hash_node h) w = write_bytes h w

  -- Hash and Bytes of a node
  unfoldable pub hash_of : Node → Bytes
  hash_of n = hash_with n (encode_node n)

  unfoldable pub bytes_of : Node → Bytes
  bytes_of n = bytes_with n (encode_node n)

-- A node that was not read is nil, `none`.
abbrev extension? : Bytes → Option Node × BinReader → Option Node × BinReader
extension? k (none, r) = (none, r)
extension? k (some n, r) = (some (extension k n), r)

abbrev cons? : Option Node → Option (List Node) → Option (List Node)
cons? (some n) (some ns) = some (n ∷ ns)
cons? (some n) none = none
cons? none ns = none

abbrev pub children_of : List Node → ℕ → Node
children_of [] i = empty
children_of (n ∷ ns) zero = n
children_of (n ∷ ns) (suc i) = children_of ns i

abbrev branch? : Option (List Node) × BinReader → Option Node × BinReader
branch? (none, r) = (none, r)
branch? (some ns, r) = (some (branch (children_of ns)), r)

-- DecodeBinary of BranchNode, where `decode` reads a NodeObject
unfoldable pub read_children : Read (Option Node) → ℕ → Read (Option (List Node))
read_children decode zero r = (some [], r)
read_children decode (suc n) r =
    let (c, r') = decode r in let (cs, r'') = read_children decode n r' in (cons? c cs, r'')

-- DecodeBinary of ExtensionNode and of LeafNode; a size over the limit leaves the node as it was
unfoldable pub decode_extension : Read (Option Node) → Read (Option Node)
decode_extension decode r =
    let (sz, r1) = read_var_uint r in
    let (key, r2) = read_bytes (replicate sz 0) r1 in
    let next = decode r2 in
    if ltb max_path_length sz
    then (none, set_err r1 (errors_new "extension node key is too big"))
    else extension? key next

unfoldable pub decode_leaf : Read (Option Node)
decode_leaf r =
    let (sz, r1) = read_var_uint r in
    let (value, r2) = read_bytes (replicate sz 0) r1 in
    if ltb max_value_length sz
    then (none, set_err r1 (errors_new "leaf node value is too big"))
    else (some (leaf value), r2)

-- DecodeBinary of HashNode
abbrev decode_hash : Read (Option Node)
decode_hash r = let (h, r') = read_bytes (replicate 32 0) r in (some (hash_node h), r')

-- DecodeNodeWithType. Nodes may be nested in the bytes: the fuel is the levels, each of which takes
-- a byte.
unfoldable pub decode_node : ℕ → Read (Option Node)
decode_node zero r = (none, set_err r (errors_new "too many levels"))
decode_node (suc fuel) r =
    let (typ, r') = read_b r in
    let as_branch = branch? (read_children (decode_node fuel) children_count r') in
    let as_extension = decode_extension (decode_node fuel) r' in
    let as_leaf = decode_leaf r' in
    let as_hash = decode_hash r' in
    elim r.err [
      | some e ↦ (none, r)
      | none ↦
          if typ == 0x00
          then as_branch
          else if typ == 0x01
          then as_extension
          else if typ == 0x03
          then as_hash
          else if typ == 0x02
          then as_leaf
          else if typ == 0x04
          then (some empty, r')
          else (none, set_err r' (errors_new "invalid node type"))
    ]

-- ===== src/Lib.antt =====
-- A model of the core of a Neo N3 node written in Go, and its verification.
--
-- The node keeps unconfirmed transactions in a memory pool, from which the consensus takes the
-- best into a block. A transaction has signers, whose scopes and witness rules say which contracts
-- may rely on a signature. The storage of contracts is a trie whose nodes are kept in layers of
-- cached stores, under their hashes; all that crosses the network or enters the database goes
-- through the binary readers and writers of pkg/io.
--
--   Io           pkg/io: Reader is binaryReader.go, Writer is binaryWriter.go, Size the part of
--                size.go on integers and strings. A reader is the rest of its buffer and its
--                error, a writer the bytes written and its error. An element's own EncodeBinary
--                and DecodeBinary are arguments of the array functions.
--   Transaction  pkg/core/transaction: Condition is witness_condition.go (the types and Match),
--                Condition.Binary its binary form, Rule is witness_rule.go, Signer is signer.go.
--                Public keys (pkg/crypto/keys) are a type parameter with their own codec, of
--                which IsCodec states what is relied on.
--   Mempool      pkg/core/mempool/mem_pool.go: Tx has what is read of a transaction, Pool the
--                state, Order and Search CompareTo and the binary search, Fees the balances and
--                checkTxConflicts, Removal removeInternal, Addition Add, Stale RemoveStale.
--                A nil dereference or an index out of range is the outcome `panic`.
--   Runtime      pkg/core/interop/runtime: Witness is CheckHashedWitness and checkScope of witness.go.
--                What is read of the virtual machine and of the contracts is a record. A rule without
--                a condition makes the check panic, which is a verdict of its own.
--   Hash         pkg/crypto/hash: Merkle is merkle_tree.go. SHA-256 is a parameter; a slice is its
--                length and its elements by index.
--   Vm           pkg/vm: Stack is what stack.go does to move elements, Slot is slot.go. The reference
--                counter is a parameter; a panic on an index is `none`.
--   Storage      pkg/core/storage: Memory is memory_store.go, Cached and Seek are
--                memcached_store.go. A map is an association list. The lower store of a cached one
--                is a parameter, Get and PutChangeSet on its own state, of which IsLawful and
--                IsSeek state what is relied on. Persist lets other goroutines in while the lower
--                store is written, so it is two steps, with any changes in between.
--   Mpt          pkg/core/mpt, the trie of the contract storage: Nibbles is helpers.go, Node the
--                kinds of nodes with their binary form, Trie what trie.go shares with Get (where a
--                panic of getFromStore is no node, and is set beside the counts), and
--                Trie.Put, Trie.Delete and Trie.Flush the rest. Trie.Contents says what a trie
--                holds, and Proof is proof.go. The double SHA-256 and, but in Flush, the Get of the
--                store are parameters.
--                A trie calls the cached store of Storage, and the stores are read with Io.
--   Shared       the names taken from the libraries, lists, tests, integers and maps.
--
-- Numbers are natural, and bounds of machine words are hypotheses where they matter; sums of fees
-- are the big integers of the source. sort.Search of Go runs on fuel, for which the length of the
-- range is enough since it shrinks in every round.
-- decodeBinaryCondition is recursive in the levels that are left, as in the source. The Merkle tree
-- has the number of hashes as fuel, which falls in every call. A call on a trie has the levels that
-- it enters as fuel: a put adds two at most. All other loops are structural. A Go map that is not
-- ranged over is its lookup function.
--
-- Not modelled: the locks (each method holds the pool's for all of its body), the channels of the
-- subscriptions beyond the list of events sent, the goroutine that resends stale items, the JSON
-- forms, the reflection of ReadArray and WriteArray, the batches and iterators of the trie, the
-- nodes of a trie after a call that failed; and the rest of the node: the instructions of the virtual
-- machine and its items, the DAO, native contracts, the blockchain, consensus, network, RPC and
-- wallets.
pub mod Shared
pub mod Io
pub mod Transaction
pub mod Mempool
pub mod Runtime
pub mod Hash
pub mod Vm
pub mod Storage
pub mod Mpt

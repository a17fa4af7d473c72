-- ===== src/Lib.antt =====
-- The state database and the RLP codec of pdx-chain, the Go code under
-- 工程化实践/pdx-chain-so/pkg/pdx-chain (paths below start there).
--
-- rlp/ is the serialisation that hashes and tries are built on. rlp/encode.go collects string data
-- and list headers apart in an encbuf and joins them at the end; rlp/raw.go takes encoded bytes
-- apart without copying, and rlp/decode.go reads them as values of a Go type. core/state keeps the
-- accounts: a StateDB loads stateObjects out of a trie, changes them in memory, and records in a
-- journal how to take each change back, so that a contract call can be reverted to a snapshot. A
-- storage slot is read through rlp.Split, an account through rlp.DecodeBytes. MStateDB runs
-- transactions on several goroutines, which lock accounts.
--
-- Base: native numbers, lists as slices, byte strings and maps as association lists, integers.
-- Types: common/types.go, Hash and Address as byte strings of 32 and 20 bytes (SetBytes,
--   BytesToHash, BytesToAddress). Types/Block: Header and Block of core/types/block.go, their hashes
--   and sizes.
-- Rlp/Head: putint, intsize, headsize and puthead of rlp/encode.go; ListSize and AppendUint64.
-- Rlp/Raw: readSize, readKind, Split, SplitString, SplitList and CountValues of rlp/raw.go.
-- Rlp/Encode: encbuf, listhead, the writers and EncodeToBytes of rlp/encode.go. A pointer to a list
--   header is its index. Encode/Spec has the encoding by recursion on the value, and the other
--   children relate the two and the splitting functions. Encode/Pieces has EncodeToReader and encReader.
-- Rlp/Fields: the fields of a struct and their tags (rlp/typecache.go), and the writers of structs,
--   pointers and tail slices of rlp/encode.go. Fields/Order says which fields are written.
-- Rlp/Stream: Stream of rlp/decode.go and its decoders, up to DecodeBytes. A reader takes the stream
--   and returns it with a value or an error, and a shape stands for the Go type that picks the
--   decoder. Stream/Steps, Sizes, Kinds, Headers, Reads, Strings, Numbers, Arrays, Lists and Elements follow it
--   on the encoder's output, Stream/Typed has the values of a shape;
--   Stream/Charges and Limit bound what any reader takes from the input.
-- State/Backend: what core/state takes from elsewhere, as a record: the tries and the contract code
--   (core/state/database.go), crypto.Keccak256 and the codec of accounts.
-- State/Object: core/state/state_object.go and the data of core/state/journal.go. A method takes
--   the object and the journal and returns both.
-- State/Db: core/state/statedb.go. An object that Go changes through a pointer is written back under
--   its address. In State/Revert are the revert methods, journal.revert, Snapshot and
--   RevertToSnapshot, with `none` for a panic.
-- State/View, State/Worlds: what callers can read from a StateDB, and the operations on that view.
-- State/Accessors: NewCopy, StorageTrie, GetSelectiveStateObjectRoot and what else only reads.
-- State/Commit: updateTrie, Finalise, IntermediateRoot, deepCopy and Copy. Commit/Slots and Storage
--   follow a slot into the storage trie and back.
-- State/Codec: Account through EncodeToBytes and DecodeBytes, as the codec of a Backend; Bytes() of a
--   big.Int.
-- State/Locks: MContext, requestAndLock, _checkDeadLock and UnLockAccounts of
--   core/state/multi_statedb.go, with a step relation on the transactions that run at once.
-- State/Multi: the other methods of MStateDB, over the objects of the goroutine and those that all
--   goroutines share, a pointer of the shared map being that of the goroutine or another one.
--   Multi/Methods has the getters and setters, Multi/Rollback RevertToSnapshot, Multi/Settle and Total Finalise;
--   Multi/Pulled and Refine compare them with those of StateDB, Multi/Publish and Stored say what is
--   read after a write.
-- State/Counters: the counters of dirty accounts.
-- State/Reads, Undo, Trail, Methods, Setters, Operations, Lifecycle, Search, Kept and Snapshot lead
--   to State/Transactions (runs of operations with nested snapshots), State/Promises and
--   State/Answers.
-- Endian: the conversions of common/bytes.go between integers and bytes.
-- So: so/handler.go, so/stub.go and simpleDemo.go, in the parent directory 工程化实践/pdx-chain-so: the
--   calls of a contract, as messages to a handler that works on a MStateDB. The blockchain behind
--   core/public is a record of functions.
-- Math: SafeAdd, SafeSub and SafeMul of common/math/integer.go; U256 and Exp of common/math/big.go.
-- Hex: the codecs of common/hexutil/hexutil.go and the paddings of common/bytes.go. Hex/Big has
--   EncodeBig and DecodeBig, Hex/Json common/hexutil/json.go, Hex/Text the hexadecimal conversions of
--   common/bytes.go and the texts of Hash and Address in common/types.go.
--
-- Bounds and fuel. A uint64 is a number with its bound where that matters; the sums that may wrap
-- are taken modulo 2 ^ 64. intsize has eight rounds, one for each byte of a uint64. CountValues runs
-- on the length of its input, the loop of decodeSliceElems on the length of the stream and one round
-- more, _checkDeadLock in two rounds, the bits of a word in 64, the digits of a big.Int on the number,
-- sort.Search on the length of the slice, which the search halves, strconv.AppendUint on sixteen
-- digits, the words of DecodeBig on the digits by sixteen and one more, and Read of encReader on the
-- headers and the string data of the buffer and three rounds more.
--
-- Not modelled: reflection (a value of the encoder carries the choice of its writer, a shape that of
-- its decoder), Encode into an io.Writer, the cache of typecache.go, the decoders of interfaces, of
-- nil pointers and of tail fields, the lock of StateDB, the sort of blocks and the size of a Header in
-- memory, Address.Hex and the interfaces of packages fmt and database/sql in common/types.go, the bits
-- and bytes of big integers and the parsers in common/math, the Must functions of hexutil, the other
-- programs of the repository (Error部分, 并行编程), common/prque (a copy of another project's library),
-- and everything that is a copy of third-party code (crypto, log).
pub mod Base
pub mod Endian
pub mod Hex
pub mod Math
pub mod Rlp
pub mod So
pub mod State
pub mod Types

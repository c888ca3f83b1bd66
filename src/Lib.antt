-- ===== src/Lib.antt =====
-- A model of the uranus block chain node, and theorems about it.
--
-- A block is executed transaction by transaction. The executor (core/executor) checks a
-- transaction, buys its gas from the block's pool and its sender, runs the EVM, and settles the
-- gas. All of this works on the state (core/state), which journals each change, so that a failed
-- call is undone.
--
-- Prelude holds what the parts share: Boolean tests on numbers, lists, functions as maps, results
-- with the program's panics, and signed integers over the native numbers for big.Int.
--
-- State models core/state/statedb.go, journal.go and state_object.go. State/Object has the accounts
-- and objects, State/Db the state record with `append`, `get_state_object` and `create_object`,
-- State/Ops the operations of the same names in snake case (`set_storage` is SetState,
-- `set_contract_code` is SetCode), State/Journal the `revert` of each entry, Snapshot and
-- RevertToSnapshot, State/Getters the getters, State/Finalise the end of a transaction, with the
-- order of Go's range over the dirty addresses as an argument; State/Finalise/Final says what it
-- leaves in the trie, State/Finalise/Reloaded what is read from there again. State/Run has a
-- sequence of calls as data: `read` is any getter of an account's fields, `read_storage` and
-- `read_code` are GetState and GetCode, which also fill caches. State/View says what a caller can
-- read of a state and when a state is well-formed. The modules under State/Revert prove what a
-- revert restores, State/Accounts how an operation changes the balances and nonces that are read.
--   The account trie is a function that the state holds; storage tries, hashes and code are the
-- record `Backend`, which any functions can fill. Pointers to objects do not alias: each operation
-- takes the object of its address from the state and writes it back. big.Int values are integers,
-- uint64 counters wrap at 2 ^ 64. A database that fails is not modelled, so dbErr is not.
--
-- Exec models the execution of transactions. Exec/GasPool is common/utils/gaspool.go,
-- Exec/IntrinsicGas is IntrinsicGas of core/txpool/utils.go with the prices of params/protocol.go,
-- Exec/Transition is core/executor/stransition.go, Exec/Message is applyDposMessage and ExecActions
-- of core/executor/executor.go. The EVM is the record `Evm`: what Create and Call return, and the
-- state that they leave.
--
-- Dpos models core/types/dposcontext.go, whose context the voting transactions change: Dpos/Context
-- has its operations over decoded tries, Dpos/Validators the validators of the epoch, Dpos/Run
-- sequences of them and the invariant of the context, Dpos/Kickout and Dpos/Keeps the proofs. What
-- a trie stores of a list is taken to decode to the same list, and a trie to miss no node.
--
-- Consensus models consensus/dpos over that context: Consensus/Schedule has the options and
-- lookupValidator, Consensus/Votes is CountVotes, Consensus/Election a round of tryElect with
-- Consensus/Elected about it, Consensus/Weights is kickoutValidator, Consensus/Confirmed the walk
-- of updateConfirmedBlockHeader and Consensus/Irreversible the height of
-- storeBFTConfirmedBlockHeader. The random numbers of the shuffle, the order of addresses, locked
-- balances and the counts of minted blocks are parameters; times and balances are not negative.
--
-- Vm models the growth of the EVM's memory: Vm/Memory is Resize of core/vm/memory.go, memoryGasCost
-- of core/vm/gas_table.go and the step of Run in core/vm/interpreter.go, with UseGas of
-- contract.go; Vm/Growth has what it costs. Vm/Stack is core/vm/stack.go with the checks of
-- stack_table.go and the sizes of memory_table.go, Vm/Heights relates the check to the pops, the
-- pushes and Back. Vm/Calls is callGas of core/vm/gas.go.
--
-- Mtp models common/mtp, the trie in which the state is kept: Mtp/Node has the nodes of node.go,
-- Mtp/Keys the key encodings of util.go, Mtp/Ops the operations of trie.go in snake case
-- (`try_get_key` is TryGet, `try_get` is tryGet). Mtp/Content says what a trie holds and which
-- nodes are tries, Mtp/Get, Mtp/Insert and Mtp/Delete what the operations do to it, Mtp/Map takes
-- them together, Mtp/Compact is about the compact keys. A full node is a function of the index; its
-- keys come from keybytesToHex, whose nibbles are 16 at most. The database is the function `load`
-- from a hash to a decoded node, and a node's cached flags are left out.
--
-- Pool models core/txpool/list.go: Pool/SortedMap is txSortedMap, Pool/TxList is txList.
-- Pool/Refines, Pool/Steps and Pool/Run compare the map with a list in the order of the nonces,
-- Pool/Filtered, Pool/Accepts and Pool/Strict are about the list of an account. A heap of nonces is
-- the sorted list of them; a map is a list in any order; amounts are not negative.
--
-- Rlp models the encoding in common/rlp: Rlp/Encode has the sizes, headers and strings of encode.go
-- (`put_head` is puthead), Rlp/Raw is raw.go. Rlp/Sizes is about the bytes of a number, Rlp/Headers
-- about the headers, Rlp/Splits and Rlp/Counts take them together. A byte is a number, and what Go
-- computes in a byte wraps around at 256. With an error Split also hands back its input; the model
-- keeps the error only.
--
-- The operations of a trie take fuel for the hashes that are loaded one below another; with fuel
-- for the hashes that are there, which `IsTrie` counts, they return. The loop of CountValues has a
-- step for each byte of its input, and a value takes one at least; the loop of intsize has eight
-- steps, and a number of 64 bits is 0 after eight shifts by a byte. No other definition takes fuel:
-- each loop runs over a list or a node.
--
-- Not modelled: the EVM's interpreter, the hashing and the storage of tries, cryptography, the pool
-- of all accounts with its promotions, the seals of blocks and their storage, the typed encoding of
-- RLP by reflection and its stream decoder, the network and the remote interface; Commit and Copy
-- of the state.
pub mod Consensus
pub mod Dpos
pub mod Exec
pub mod Mtp
pub mod Pool
pub mod Prelude
pub mod Rlp
pub mod State
pub mod Vm

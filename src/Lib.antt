-- ===== src/Lib.antt =====
-- The Hedera Go SDK (package hedera, the Go files at the repository's root), modelled and verified.
--
-- The SDK builds requests for the Hedera network, signs them, sends them to nodes of the network
-- with retries, and reads the answers. This development covers its core below the single kinds of
-- transactions and queries: the ids of entities with their texts and checksums, the slices that a
-- transaction keeps its ids, nodes and bodies in, the nodes and the network with their health and
-- backoff, the freezing, signing, building and reading back of a transaction, the functions that take
-- a transaction of any kind, the loop that sends a request with retries, the transfers of hbars and
-- tokens, the division of a long message into chunks, and the encoding of calls of smart contracts.
--
-- A transaction is frozen for its nodes (Transaction), which makes one body for each node, and signed;
-- _Execute (Executable) takes a node from the network or from the transaction, asks for the built
-- request, sends it, and moves on to the next node or waits; the network (Network, ManagedNetwork)
-- records which nodes failed. Files with long contents (Chunks) are frozen into several bodies.
--
-- Parts and files:
--   Prelude          shared names: lists, tests, int64 and uint64, texts, the outcome of a Go call
--   Strconv          what the code uses of strconv, strings and encoding/hex: Atoi, Sprintf of
--                    numbers, SplitN, Contains, EncodeToString, DecodeString
--   LockableSlice    lockable_slice.go, the slice with a lock and a round-robin index
--   Id               id.go, the readers of id texts and the Solidity addresses; `dotted` is the
--                    format of an id, which each id type repeats
--   EntityId         entity_id.go: _CheckChecksum, _ChecksumParseAddress with its regular expression,
--                    _ChecksumVerify; Validate holds what the ValidateChecksum methods repeat
--   LedgerId         ledger_id.go and network_name.go
--   Client           the ledger id and the switch for automatic checks of client.go and network.go
--   Compare          the three-way comparisons of the ids
--   TokenId          token_id.go and nft_id.go
--   AccountId        account_id.go
--   ManagedNodeAddress  managed_node_address.go
--   ManagedNode      managed_node.go: backoff, health and use of one node
--   Node             node.go, and the heap that pointers to nodes refer to
--   ManagedNetwork   managed_network.go: health and readmission; Replace holds _SetNetwork,
--                    _CreateNetworkFromNodes, _Close and _SetTransportSecurity
--   Network          network.go
--   Transaction      transaction.go: the struct and freezing; Signing (_SignTransaction), Building
--                    (_BuildTransaction, ToBytes and what _Execute is handed), Reading
--                    (TransactionFromBytes), Signatures (GetSignatures and the hashes), Methods (the
--                    setters and getters that the file of each kind repeats, as
--                    account_create_transaction.go has them), Dispatch (the functions that switch
--                    over the kind)
--   TransactionId    the texts of transaction_id.go and the timestamps of time.go
--   Executable       executable.go: the loop of _Execute over an interface of its operations
--   Query            query.go and the branches of executable.go for queries: Sending has the operations
--                    of the loop over those of a network, Cost has GetCost and Execute as in
--                    account_info_query.go
--   Transfers        transfer_transaction.go: Tokens holds the token and NFT transfers, Validate the
--                    check of the ids
--   ContractFunction  contract_function_selector.go, contract_function_parameters.go and the getters of
--                    contract_function_result.go. Buffers has Go's byte slices; Selector the types and
--                    the signature; Parameters the arguments, Layout the encoding that _Build is
--                    compared with; Result the getters
--   Chunks           FreezeWith of file_append_transaction.go and topic_message_submit_transaction.go;
--                    the two ids of a message reach their start through a pointer
-- A file of the same name in a directory holds what is proved of a part; Examples hold runs at
-- concrete values.
--
-- Names. A function has the name of the Go function in lower case without the leading underscore
-- (_GetNext is get_next); where two types have a method of one name, the module tells them apart, or
-- a prefix does (network_increase_backoff is the method of the network). A parsing function is
-- from_string, String is to_string, and a record has the fields of the struct.
--
-- How the Go code is read:
--   A call that returns an error or panics gives an `Outcome`; an error keeps its kind and not its
--   text. A method that changes its receiver returns the new value, together with the outcome where
--   it may fail behind a change.
--   A uint64 is a natural number; int, int64 and time.Duration are integers, whose sums and doubles
--   wrap around where the code does not exclude it. An instant of time.Time is its number of
--   nanoseconds. time.Now() is an argument, and so is the index that rand.Int draws.
--   A string is the list of its bytes; where the code ranges over its runes, it is taken to be ASCII.
--   A map is a list of entries in the order of a walk through it.
--   Nodes are shared by pointer between a network's list, its map and its healthy nodes; they stand
--   in a heap, and these three hold numbers that refer to it.
--   The bytes of a contract call are slices in memory, so that their lengths and the positions in them
--   are numbers that do not wrap; a result keeps the bytes between its length and its capacity, which
--   a slice of it can reach, and what is computed from an index or an offset read from it wraps.
--   Protobuf messages stand for their own bytes. A signer is a function from a body to a signature.
--   In Transaction the ids of nodes, the transaction ids and the rest of a body have any types. A kind
--   of transaction is a constructor; the fields that only its struct has are left out. In Executable
--   the state of the request, of the client and of the world is one value of any type, and a round
--   leaves a list of the calls and the delays.
--   Loops are recursion on the list or on the number of rounds; the loop of _Execute recurs on the
--   attempts that are left. No fuel is needed but for _GetNodeAccountIDsForExecute, whose bound is
--   the number of nodes that its loop runs to, which does not change during the loop.
--
-- Arguments, since their code is not in the repository or wraps a library: reading and printing
-- public keys and their protobuf bytes (ed25519, ecdsa), signers, SHA-384, Keccak-256, closing a grpc
-- connection.
-- The address books of the networks, the outcome of the checks of a transaction's ids, the comparisons
-- that reading a transaction makes, the equality of the keys of a map, and the operations that _Execute
-- is handed or calls are arguments too.
--
-- Not modelled: protobuf marshalling, dialling of connections and the requests themselves, the
-- deadlines of calls, the making of keys and signatures, mnemonics and key stores, the fields and
-- bodies of the single kinds of transactions and queries apart from transfers, amounts in floating
-- point, fees, the protobuf forms of the results of contracts, mirror nodes, and generated code.
mod Prelude
mod Strconv
pub mod ContractFunction
pub mod LockableSlice
pub mod Id
pub mod LedgerId
pub mod Client
mod Compare
pub mod EntityId
pub mod TokenId
pub mod ManagedNodeAddress
pub mod ManagedNode
pub mod AccountId
pub mod Node
pub mod ManagedNetwork
pub mod Network
pub mod Chunks
pub mod Transaction
pub mod TransactionId
pub mod Transfers
pub mod Executable
pub mod Query

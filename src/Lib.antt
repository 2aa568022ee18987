-- ===== src/Lib.antt =====
-- A model of basiccoin, a proof-of-work cryptocurrency node written in Go: its core rules, the
-- inventory of what a node has verified, the state of its chain, the protocol between peers, and
-- the miner.
--
-- The parts and the files that model them:
--   Base         what the other files share: Boolean tests, lists, Go's comparable types, the
--                outcome of a call (a value, an error, a panic, or fuel that ran out), uint64
--                arithmetic modulo 2^64, sorting, and texts of lines, decimals and base64.
--   Hash         pkg/core/hasht.go: 32-byte hashes, their order, their numbers, hex text, digests
--                (Hash/Digest) and target arithmetic. Proofs: Hash/Value, Hash/Hex, Hash/Target.
--   Collections  pkg/set, pkg/queue, pkg/syncqueue, pkg/syncmap, pkg/disksyncmap and pkg/util.
--                Proofs: Collections/DiskSyncMap/Refinement, Collections/Set/Distinct.
--   Topic        pkg/topic/topic.go: publishers and subscriptions. Proofs: Topic/Queues,
--                Topic/Delivery.
--   Core         the rest of pkg/core: Params, Tx (transaction.go), Crypto, Block (block.go, with
--                MerkleFromTxIds in Core/Block/Tree), Difficulty, Verify (verify.go) and TxFactory
--                (txfactory.go). Proofs: Core/Tx/Values, Core/Difficulty/Bounds,
--                Core/Verify/TxRules, Core/Verify/BlockRules.
--   Inv          internal/inv/inv.go: the inventory. Its methods are in Inv/Blocks and Inv/Merkles,
--                and the stores (StoreBlock, StoreMerkle, StoreTx) in Inv. Proofs: Inv/Invariant
--                (the invariant), Inv/Store, Inv/Forest, Inv/Walks, Inv/Steps, Inv/Lca, Inv/Trees,
--                Inv/Reads. Inv/Serialize (serialize.go) is the text of its block and merkle records,
--                Inv/Serialize/Txs that of its transaction records, each with its child RoundTrip, and
--                Inv/OnDisk is what NewInv gives the maps on disk.
--   Chain        internal/chain: State (state.go), Queries (its reading methods), Target
--                (target.go), and Handlers, SavedHead and Loop (chain.go). Proofs: Chain/State/Utxos,
--                Chain/State/Ledger, Chain/State/Included, Chain/State/Index (the index of unspent
--                outputs), Chain/Refinement, Chain/Keeps, Chain/Atomic, Chain/Target/Accepted,
--                Chain/Target/Fits, and in Chain/Loop the files Sound, Growth, Stores, Reorganise,
--                Invariant, Answers, Balances and Restart.
--   Prot         pkg/prot: connections (conn.go, primitives.go) in Prot, core.go in Prot/Entities, and
--                the handshake. Proofs: Prot/Codec, Prot/RoundTrip, Prot/Meeting.
--   Peer         internal/peer: Sync and Quick (sync.go), Handlers (handlers.go), Commands (peer.go)
--                and State. Proofs: Peer/Work, Peer/QuickVerify,
--                Peer/Negotiation, Peer/Announce.
--   PeerFactory  internal/peerfactory/peerfactory.go: which peers there are. Proofs: PeerFactory/Bounds.
--   Miner        internal/miner/miner.go. Proofs: Miner/Coinbase, Miner/Mining.
--   Tests        the theorems at concrete inputs.
--
-- A candidate head or transaction goes to a handler of the chain, which stores what it brings in
-- the inventory. The inventory has the verifier check each piece against what it holds already.
-- The handler then compares total work, rewinds a copy of the state to the last common ancestor
-- and advances it to the candidate. Candidates come from the peers, after a sync or an
-- announcement, and from the miner, as events on the bus; a state lists what it published. A
-- function of the model has the name of the Go function, in lower case with underscores:
-- StoreBlock is store_block. A struct is a record with the same fields. A method takes the
-- inventory or the state that it reads as an argument and returns what it changes.
--
-- Fuel: a walk along the chain gets one more step than there are blocks, since a block's height is
-- below their number. The search of a tree of merkle nodes gets 2^(n + 1) steps for n nodes, since
-- a node that has no path longer than n below it has fewer than 2^(n + 1) nodes and leaves there.
-- The loops of a chain sync that the peer drives get any fuel, as a peer can go on for ever; a loop
-- that runs out of it is an outcome of its own, and the theorems on a sync say what is enough.
--
-- The network: a connection is the bytes that the peer has sent and those sent to it. A read that
-- finds too few bytes fails with an error that the connection holds, a timeout or the end of the
-- stream; a write to an open connection succeeds. The peer's loop takes what it waits for as a list
-- of events, each with the inventory as it is then. In the same way the chain's loop takes the
-- messages of its subscriptions as a list of turns, and the methods of a topic, which hold its lock,
-- are steps.
--
-- Files: a file is the text that was last written to it. The operating system says how a write ends,
-- and a write that fails leaves anything behind.
--
-- Parameters: SHA-256 (any function that gives 32 bytes), ECDSA with its key formats, float64 (fee
-- rates), and the clock and random sources of the miner and the peer factory. No collision
-- resistance is assumed. A Go map or set is an association list, and where the source ranges over
-- one in Go's arbitrary order the model takes the list's order. The logarithm that MerkleFromTxIds
-- takes in float64 is written as repeated halving. A sort of Go, which is not stable, is a stable
-- one. Copies are the identity on values, since Copy is deep.
--
-- Not modelled: dialling, listening and timers (of internal/peerfactory, ResolveConn and the
-- deadlines of pkg/prot/conn.go), the Go channels between goroutines (SubCh of pkg/topic,
-- internal/bus), HTTP (internal/rest), the commands (cmd), and the making of directories. They are
-- I/O and goroutines around the parts above. JSON and the digests that pick a format by reflection
-- (DHashAny, DHashVarious) are left out of pkg/core/hasht.go. The inventory's maps are those in
-- memory; the maps on disk have a model of their own.
pub mod Base
pub mod Hash
pub mod Collections
pub mod Core
pub mod Inv
pub mod Chain
pub mod Topic
pub mod Prot
pub mod Peer
pub mod Miner
pub mod PeerFactory
mod Tests

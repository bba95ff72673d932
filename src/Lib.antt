-- ===== src/Lib.antt =====
-- The miner of a record file system on a block chain: clients create files and append records,
-- miners put those operations into blocks that cost work, and the longest chain decides.
--
-- Parts, and where they are modelled (paths from the repository's root):
--   * Settings: the record of settings/settings.go.
--   * Operation, Operation/Filter: bclib/operation.go, with NewOperation as `new_operation` and
--     FilterInvalidOperations as `filter_invalid_operations`, its comparison as `is_earlier`.
--   * Block, Pow: bclib/block.go and bclib/pow.go, with NewBlock, Run and Validate as `new_block`,
--     `run` and `validate`.
--   * Blockchain: bclib/blockchain.go, the tree of blocks. Blockchain/Add has AddBlock,
--     Blockchain/Longest has getLastNodes and what rests on it, Blockchain/Queries the other reads.
--   * Blockchain/Validation: ValidateOperations of bclib/blockchain_rfs.go, which AddBlock calls.
--   * Ledger: the reads of bclib/blockchain_rfs.go, with ListFiles, NumRecs, GetFile and
--     CheckOpConfirmed as `list_files`, `num_recs`, `get_file` and `check_op_confirmed`.
--     Ledger/FileSystem is a plain file system: it runs the operations of a chain one by one, oldest
--     first, and a deletion removes the file. Ledger/Names is about the names that are listed.
--   * P2p/Resolver: p2p/chain_resolver.go, the blocks that wait for a parent.
--   * P2p/Server: p2p/rpc.go, the server of the clients' calls. ReadRecord, TotalRecs and ListFiles
--     are `read_record` (one round of its loop), `total_recs` and `list_confirmed_files`;
--     AppendRecord and CreateFile are a request and a reply, since they wait in between.
--     P2p/Server/Deadlock is about checkConfirmedOperations, which holds a lock while it sends: `in_batch`
--     and `waits` stand for buildPendingOperations, which receives. P2p/Server/Refines holds the
--     server against the plain file system.
--   * Blockchain/Unmarshall: UnmarshallBlockchain and MergeBlocks of bclib/blockchain.go.
--   * Encoding: the Marshall and Unmarshall functions of bclib, and LoadSettings of settings/settings.go.
--   * P2p/Manager: p2p/blockchain_manager.go, the goroutine that owns the chain. A case of its select
--     is a function: `synchronize`, `receive_flooded_block`, `replay_downloaded`, `add_queued_block`.
--     P2p/Manager/Steps puts them together as a step relation, and P2p/Manager/Runs follows its runs,
--     in which messages arrive in any order. P2p/Manager/Network has the chains that miners reach when
--     they also take over each other's.
--   * P2p/Batches: buildPendingOperations of p2p/p2p_rpc.go, with `receive_op` and `tick` as its cases
--     and `run_events` as its loop over the messages that come.
--   * P2p/Peer: p2p/peer.go, the goroutine of one peer, as `peer_turn` and `peer_run`.
--   * P2p/Dialing: DialPeer, GetBlocks and startMinerRPC of p2p/p2p_rpc.go, as `dial_peer`,
--     `get_blocks_for` and `dial_all`, the last from where startMinerRPC listens.
--   * P2p/Mining: startMining of p2p/p2p_rpc.go, with `take_message` and `mining_loop`.
--   * Worker: mining/worker.go, with StartMining from its select on as `start_mining`.
--   * RfsLib: rfslib/rfslib.go, what an application calls.
--   * P2p/Peers: managePeers of p2p/p2p_rpc.go, who is sent a block or an operation.
--     P2p/Peers/Travels follows an operation from miner to miner.
--   * P2p/Node: the manager and managePeers together, each with the list of what it still has to send,
--     in any interleaving of their steps.
--   * Blockchain/Walk and Blockchain/Shape: the walk over parents and the shape of a valid tree.
--   * Examples: a small tree on which the code runs.
--
-- Numbers and memory. A string or a byte slice is a list of numbers. A Go map is an association
-- list with distinct keys; a loop over a map takes the order in which it visits the entries as an
-- argument, a permutation of them. A pointer to a node is an address in the list of all nodes. Go's
-- ints are numbers or integers without bound, where what they count stays far below 2^63; IntToHex
-- keeps the 64-bit pattern. Calls that write `lastNode` return the tree with it.
--
-- Loops. The walk to the genesis block and the search for the longest chain have as many rounds as
-- the tree has nodes, which is enough on a valid tree. The resolver's walk has one round more than its
-- waiting map has entries, which is enough where the way from the parent is no longer than the map.
-- `none`, or `loops`, is a call that does not return. Run has a number of rounds as an argument. The
-- loop of GetFile that swaps the ends of a slice is `swap_ends` of Prelude/SwapEnds, whose second index
-- falls in each round.
--
-- The rounds of startMinerRPC are an argument, since the network may never answer. What the
-- connection of a peer returns for a call is part of the message that leads to the call.
--
-- Parameters. crypto/md5 and encoding/gob are the fields of `Codec`, and of `Gob` where decoding
-- matters. encoding/json, the disk, sort.Slice and the order of maps are arguments, and so is the time. The network of P2p/Dialing says how an address answers in a round.
-- The connection of RfsLib is a record of the server's methods.
--
-- Channels. A send to another goroutine is an entry of a list beside the new state. The two buffered
-- channels of the chain manager are lists with their capacities, since it reads and writes both. What
-- the goroutines share with the batches changes between two of their messages, as an event.
--
-- Not modelled: locks other than the one of checkConfirmedOperations and of buildPendingOperations, the scheduling of goroutines other than the two of P2p/Node, the network (the RPC
-- plumbing of p2p/p2p_rpc.go and p2p/rpc.go), logging, and miner.go, which only starts the server.
pub mod Prelude
pub mod Settings
pub mod Operation
pub mod Block
pub mod Pow
pub mod Blockchain
pub mod Encoding
pub mod Ledger
pub mod Examples
pub mod Worker
pub mod RfsLib
pub mod P2p

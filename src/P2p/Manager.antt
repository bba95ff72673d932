-- ===== src/P2p/Manager.antt =====
-- p2p/blockchain_manager.go: the goroutine that owns the chain. Each case of its `select` is a
-- function that takes one message. The two channels that it reads and also writes are queues with
-- their capacities; what it sends to other goroutines is listed beside the new state.
pub mod Handlers
pub mod Steps
pub mod Runs
pub mod Network
use miner.Prelude.{
  ℕ, ◌<◌, Bool, true, false, not, ◌&&◌, Option, none, some, List, [], ◌∷◌, ◌++◌, foldl, length, ltb,
  if◌then◌else◌,
}
use miner.Prelude.SwapEnds.{swap_half}
use miner.Prelude.Bytes.{Bytes}
use miner.Prelude.GoMap.{GoMap, put, has}
use miner.Settings.{Settings}
use miner.Operation.{Operation, Order, Codec}
use miner.Block.{Block}
use miner.Blockchain.{Blockchain, set_config}
use miner.Blockchain.Queries.{has_block, get_previous_blocks}
use miner.Blockchain.Add.{Added, added, refused, loops, add_block}
use miner.Blockchain.Longest.{get_last_hash}
use miner.Blockchain.Unmarshall.{Unmarshalled, tree, failed, searching, unmarshall_blockchain}

pub record ChainManager : Type 0 where
  pub blockchain : Blockchain
  pub config : Settings
  pub add_queue : List Block
  pub received : List Block
  pub replay_queue : List Block
  pub replay_map : GoMap (Unit {0})

-- What is sent: a block whose parent is to be downloaded, the news of an added block, a block for
-- the peers, leave to mine on, and the end of a synchronisation.
pub data Signal : Type 0 where
  download : Block → Signal
  new_block_added : Signal
  send : Block → Signal
  continue_mining : Signal
  synchronized : Signal

-- A send on a full channel blocks for ever, since only this goroutine empties it; `loops` is a call
-- that does not return.
pub data Turn : Type 0 where
  goes : ChainManager → List Signal → Turn
  blocks panics spins : Turn

abbrev pub add_capacity : ℕ
add_capacity = 100

abbrev pub received_capacity : ℕ
received_capacity = 1000

abbrev pub new_chain_manager : Blockchain → Settings → ChainManager
new_chain_manager bc config = record {
  blockchain = bc;
  config = config;
  add_queue = [];
  received = [];
  replay_queue = [];
  replay_map = [];
}

-- m.addBlock <- block
unfoldable pub send_add : ChainManager → Block → Turn
send_add m block =
    if ltb (length m.add_queue) add_capacity
    then goes (record m { add_queue = m.add_queue ++ block ∷ [] }) []
    else blocks

-- m.receiveFloodedBlock <- block
unfoldable pub send_received : ChainManager → Block → Turn
send_received m block =
    if ltb (length m.received) received_capacity
    then goes (record m { received = m.received ++ block ∷ [] }) []
    else blocks

abbrev pub awaited : ChainManager → Block → ChainManager
awaited m block = record m { replay_map = put m.replay_map block.hash tt }

-- `if len(replayQueue) == 0 && !ok`, where `ok` is false already
abbrev pub ask_for : List Block → Block → List Signal
ask_for [] block = download block ∷ []
ask_for (b ∷ bs) block = []

-- A block that is not known and whose parent is not known.
unfoldable pub postpone : ChainManager → Block → Turn
unfolding send_received
postpone m block =
    if has m.replay_map block.previous_hash
    then send_received (awaited m block) block
    else goes (record (awaited m block) { replay_queue = m.replay_queue ++ block ∷ [] })
        (ask_for m.replay_queue block)

abbrev pub can_add : ChainManager → Block → Bool
can_add m block =
    not (has_block m.blockchain block.hash) && has_block m.blockchain block.previous_hash

-- case block := <-m.receiveFloodedBlock
unfoldable pub receive_flooded_block : ChainManager → Block → Turn
unfolding postpone send_add
receive_flooded_block m block =
    if can_add m block
    then send_add m block
    else if has_block m.blockchain block.hash
    then goes m []
    else postpone m block

-- The loop that sends `replaySlice`.
unfoldable pub send_all : ChainManager → List Block → Turn
unfolding send_received
send_all m [] = goes m []
send_all m (b ∷ bs) = elim (send_received m b) [
  | goes m' signals ↦ send_all m' bs
  | blocks ↦ blocks
  | panics ↦ panics
  | spins ↦ spins
]

abbrev pub emptied : Turn → Turn
emptied (goes m signals) = goes (record m { replay_queue = [] }) signals
emptied blocks = blocks
emptied panics = panics
emptied spins = spins

-- case blocks := <-m.downloadedBlocks; the log line reads `replayQueue[0]`.
abbrev pub replay_from : ChainManager → List Block → List Block → Turn
replay_from m downloaded [] = panics
replay_from m downloaded (b ∷ bs) =
    emptied (send_all (foldl awaited m downloaded) (downloaded ++ (b ∷ bs)))

unfoldable pub replay_downloaded : ChainManager → List Block → Turn
unfolding send_all
replay_downloaded m downloaded = replay_from m downloaded m.replay_queue

-- The log line after a success looks for the last hash, which writes `lastNode`.
abbrev pub announce : ChainManager → Block → Option (Blockchain × Bytes) → Turn
announce m block none = spins
announce m block (some (bc, hash)) =
    goes (record m { blockchain = bc }) (new_block_added ∷ send block ∷ continue_mining ∷ [])

unfoldable pub after_add : ChainManager → Block → Added → Turn
after_add m block (added bc) = announce m block (get_last_hash bc)
after_add m block (refused e) = goes m (continue_mining ∷ [])
after_add m block loops = spins

-- On failure nothing is sent, neither on `done` nor on `err`.
unfoldable pub after_unmarshall : ChainManager → Unmarshalled → Turn
after_unmarshall m (tree bc) =
    goes (record m { blockchain = set_config bc m.config }) (synchronized ∷ [])
after_unmarshall m (failed e) = goes m []
after_unmarshall m searching = spins

-- case newBlocks := <-m.syncBlockchain
unfoldable pub synchronize : Order ℕ → ChainManager → List Block → Turn
unfolding after_unmarshall
synchronize range m peer_blocks = after_unmarshall m (unmarshall_blockchain range peer_blocks)

-- case block := <-m.addBlock
module _ (c : Codec) (range range' : Order Operation) where
  unfoldable pub add_queued_block : ChainManager → Block → Turn
  unfolding after_add
  add_queued_block m block = after_add m block (add_block c range range' m.blockchain block)

-- `GetPreviousBlocks` with its result reversed; the other methods only take the lock.
unfoldable pub get_previous_blocks_reversed : ChainManager → Bytes → ℕ → List Block
get_previous_blocks_reversed m hash num_blocks =
    swap_half (get_previous_blocks m.blockchain hash num_blocks)

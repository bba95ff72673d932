-- ===== src/Examples/Nodes.antt =====
-- The theorems on the manager and `managePeers` together, at small runs.
use miner.Prelude.{◌≡◌, refl, some, [], ◌∷◌, inl, arith}
use miner.Prelude.Bytes.{dec_bytes}
use miner.Prelude.GoMap.{get, put}
use miner.Blockchain.Queries.{get_block}
use miner.P2p.Manager.{send, continue_mining}
use miner.P2p.Peers.{
  Directory, downloaded, receive_block, block_targets, flood_block, ignore_all, keep_unless,
}
use miner.P2p.Node.{Node, new_node}
use miner.P2p.Node.Steps.{
  NodeRuns, begins, then_step, takes_received, takes_added, takes_block, receives, mined, arrives,
  told_server, hands_over,
}
use miner.P2p.Node.Sends.{handed_is_known}
use miner.P2p.Node.Deadlock.{wedged, NodeRuns-deadlocks}
use miner.Prelude.{true, Option, List}
use miner.P2p.Manager.{new_block_added}
use miner.Prelude.Bytes.{Bytes}
use miner.Prelude.Int.{◌-ℤ◌, ◌+ℤ◌}
use miner.Prelude.GoMap.{has}
use miner.Operation.{list_ops_from_map}
use miner.Block.{Block, new_genesis_block}
use miner.Pow.{validate, new_proof_of_work}
use miner.Blockchain.{new_blockchain}
use miner.Blockchain.Walk.{for_parents}
use miner.Blockchain.Validation.{validate_operations}
use miner.Blockchain.Add.{attach, add_block}
use miner.Blockchain.Longest.{get_last_nodes, get_last_hash}
use miner.P2p.Manager.{ChainManager, download, goes, receive_flooded_block, add_queued_block}
use miner.P2p.Peers.{request_all}
use miner.Examples.{idle_block}
use miner.Examples.{codec, in_order, in_order-IsRange, op_block, top_block, idle_tree_good}
use miner.Examples.Manager.{fresh, waiting, grown, taken, last}

-- Miner 8 sends a block, and miner 9 is a peer too.
abbrev peers : Directory
peers = record { peers = (8 ∷ [], tt) ∷ (9 ∷ [], tt) ∷ []; blocks_to_peers = [] }

abbrev told : Directory
told = record peers { blocks_to_peers = (2 ∷ [], (8 ∷ []) ∷ []) ∷ [] }

abbrev ended : Node
ended = record {
  manager = grown;
  to_send = continue_mining ∷ [];
  directory = told;
  to_do = [];
  out = (9 ∷ [], op_block) ∷ [];
}

arrived : NodeRuns codec in_order in_order (new_node fresh peers) (new_node waiting told)
unfolding receive_block put get dec_bytes
arrived =
    then_step (then_step begins (receives (8 ∷ []) op_block refl))
      (arrives op_block [] refl (omega arith))

spread :
    NodeRuns codec in_order in_order
      (new_node fresh peers)
      (record (new_node grown told) { to_send = send op_block ∷ continue_mining ∷ [] })
spread =
    then_step
      (then_step (then_step arrived (takes_received op_block [] refl refl taken))
        (takes_added op_block [] refl refl last))
      (told_server _ refl)

passed_on : NodeRuns codec in_order in_order (new_node fresh peers) ended
unfolding flood_block block_targets ignore_all keep_unless put get dec_bytes
passed_on =
    then_step (then_step spread (takes_block in_order op_block _ refl refl))
      (hands_over (9 ∷ []) op_block [] refl)

handed_is_known_example : get_block ended.manager.blockchain op_block.hash ≡ some op_block
handed_is_known_example =
    handed_is_known codec in_order in_order in_order-IsRange in_order-IsRange fresh peers ended
      (9 ∷ []) op_block idle_tree_good.0 idle_tree_good.1 passed_on (inl refl)

-- Block 3 has come from miner 8 without its parent, block 2, which the miner has just mined itself.
abbrev asking : ChainManager
asking = record fresh { received = top_block ∷ []; add_queue = op_block ∷ [] }

abbrev asked : ChainManager
asked = record fresh {
  add_queue = op_block ∷ [];
  replay_queue = top_block ∷ [];
  replay_map = (3 ∷ [], tt) ∷ [];
}

abbrev announcing : ChainManager
announcing = record grown { replay_queue = top_block ∷ []; replay_map = (3 ∷ [], tt) ∷ [] }

abbrev known : Directory
known = record peers { blocks_to_peers = (3 ∷ [], (8 ∷ []) ∷ []) ∷ [] }

abbrev answers : Bytes → Option (List Block)
answers id = some (op_block ∷ [])

asks :
    receive_flooded_block (record asking { received = [] }) top_block
    ≡ goes asked (download top_block ∷ [])
unfolding receive_flooded_block get attach put new_blockchain new_genesis_block dec_bytes
asks = refl

announces :
    add_queued_block codec in_order in_order (record asked { add_queue = [] }) op_block
    ≡ goes announcing (new_block_added ∷ send op_block ∷ continue_mining ∷ [])
unfolding add_queued_block add_block get attach put new_blockchain dec_bytes validate
    new_proof_of_work validate_operations for_parents list_ops_from_map ◌-ℤ◌ ◌+ℤ◌ get_last_hash
    get_last_nodes
announces = refl

from_8 : get known.blocks_to_peers top_block.hash ≡ some ((8 ∷ []) ∷ [])
unfolding get dec_bytes
from_8 = refl

peer_8 : has known.peers (8 ∷ []) ≡ true
unfolding get dec_bytes
peer_8 = refl

abbrev stuck : Node
stuck = wedged announcing known [] (op_block ∷ []) [] op_block

abbrev later : Node
later = record stuck { manager = record announcing { add_queue = idle_block ∷ [] } }

NodeRuns-deadlocks_example :
    NodeRuns codec in_order in_order (record (new_node asking known) { out = [] }) stuck
    × (later.to_send ≡ send op_block ∷ continue_mining ∷ [])
    × (later.to_do ≡ downloaded (op_block ∷ []) ∷ [])
    × (later.out ≡ [])
unfolding request_all
NodeRuns-deadlocks_example =
    NodeRuns-deadlocks codec in_order in_order asking asked announcing known [] top_block op_block
      [] [] (op_block ∷ []) (8 ∷ []) [] answers later refl asks from_8 peer_8 refl refl announces
      (then_step begins (mined idle_block (omega arith)))

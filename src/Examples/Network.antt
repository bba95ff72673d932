-- ===== src/Examples/Network.antt =====
-- The theorem on miners that synchronise with each other, at a small run.
use miner.Prelude.{◌≡◌, refl, [], ◌∷◌, arith}
use miner.Prelude.Int.{pos, ◌-ℤ◌, ◌+ℤ◌}
use miner.Prelude.Bytes.{dec_bytes}
use miner.Prelude.GoMap.{get, put}
use miner.Operation.{list_ops_from_map}
use miner.Block.{new_genesis_block}
use miner.Pow.{validate, new_proof_of_work}
use miner.Blockchain.{new_blockchain}
use miner.Blockchain.Shape.{IsValid}
use miner.Blockchain.Soundness.{IsSound}
use miner.Blockchain.Walk.{for_parents}
use miner.Blockchain.Validation.{validate_operations}
use miner.Blockchain.Add.{attach, add_block}
use miner.Blockchain.Longest.{get_last_nodes, get_last_hash}
use miner.Blockchain.Queries.{get_blocks, collect}
use miner.Blockchain.Unmarshall.{unmarshall_blockchain, hang}
use miner.Blockchain.Unmarshall.Sync.{IsNamed}
use miner.P2p.Manager.{
  ChainManager, new_block_added, send, continue_mining, synchronized, goes, new_chain_manager,
  add_queued_block, synchronize,
}
use miner.P2p.Manager.Steps.{mined, takes_added}
use miner.P2p.Manager.Network.{Reached, starts, steps, synchronizes, Reached-IsSound}
use miner.Examples.{codec, in_order, in_order-IsRange, settings, idle_block, fresh_tree, idle_tree}
use miner.Examples.Dialing.{idle_tree-IsNamed}

abbrev born : ChainManager
born = new_chain_manager fresh_tree settings

abbrev busy : ChainManager
busy = record born { add_queue = idle_block ∷ [] }

-- A miner that has mined a block.
abbrev peer : ChainManager
peer = record born { blockchain = record idle_tree { last_node = 1 } }

mines :
    add_queued_block codec in_order in_order (record busy { add_queue = [] }) idle_block
    ≡ goes peer (new_block_added ∷ send idle_block ∷ continue_mining ∷ [])
unfolding add_queued_block add_block get attach put new_blockchain dec_bytes validate
    new_proof_of_work validate_operations for_parents list_ops_from_map ◌-ℤ◌ ◌+ℤ◌ get_last_hash
    get_last_nodes
mines = refl

peer-Reached : Reached codec peer
peer-Reached =
    steps in_order in_order in_order-IsRange in_order-IsRange
      (steps in_order in_order in_order-IsRange in_order-IsRange (starts settings (pos 0))
        (mined idle_block (omega arith)))
      (takes_added idle_block [] refl mines)

syncs :
    synchronize in_order born (get_blocks in_order peer.blockchain) ≡ goes peer (synchronized ∷ [])
unfolding get_blocks collect attach new_blockchain put get dec_bytes synchronize
    unmarshall_blockchain hang get_last_nodes new_genesis_block
syncs = refl

peer-IsNamed : IsNamed peer.blockchain
peer-IsNamed = record { named = idle_tree-IsNamed.named; origin = idle_tree-IsNamed.origin }

-- The other miner takes over its chain.
Reached-IsSound_example : IsValid peer.blockchain × IsSound peer.blockchain
unfolding attach new_blockchain
Reached-IsSound_example = Reached-IsSound codec peer (
    synchronizes in_order in_order in_order-IsRange in_order-IsRange (starts settings (pos 0))
      peer-Reached peer-IsNamed (record { create = refl; op_block = refl; no_op_block = refl })
      syncs)

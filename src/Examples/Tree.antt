-- ===== src/Examples/Tree.antt =====
-- The theorems of the block tree at the small tree.
use miner.Prelude.{ite, ℕ, ◌+◌, ◌≡◌, refl, ◌≢◌, true, some, List, [], ◌∷◌}
use miner.Prelude.Int.{◌-ℤ◌, ◌+ℤ◌}
use miner.Prelude.Bytes.{dec_bytes}
use miner.Prelude.GoMap.{get, put}
use miner.Operation.{list_ops_from_map}
use miner.Block.{Block}
use miner.Blockchain.{Blockchain, new_blockchain}
use miner.Blockchain.Walk.{IsChain, for_parents}
use miner.Blockchain.Shape.{IsValid}
use miner.Blockchain.Queries.{get_block, get_size}
use miner.Blockchain.Validation.{validate_operations}
use miner.Blockchain.Validation.Accepted.{IsAccepted}
use miner.Blockchain.Add.{add_block, loops, attach}
use miner.Blockchain.Add.Admits.{Says, add_block-Says}
use miner.Blockchain.Add.Outcome.{add_block-ne-loops, add_block-IsValid, get_block-add_block}
use miner.Blockchain.Soundness.{IsSound, validate_operations-IsAccepted}
use miner.Blockchain.Soundness.Extend.{Grows-IsSound}
use miner.Blockchain.Longest.{get_last_nodes}
use miner.Blockchain.Longest.Deepest.{IsDeepest, get_last_nodes-IsDeepest}
use miner.Blockchain.Longest.Ends.{get_last_nodes_returns}
use miner.Examples.{
  codec, in_order, in_order-IsRange, note, op_block, idle_tree, op_tree, top_tree, op_tree_added,
  top_tree_grown, idle_tree_good, top_tree_good,
}

Grows-IsSound_example : IsValid top_tree × IsSound top_tree
Grows-IsSound_example =
    Grows-IsSound codec in_order in_order in_order-IsRange in_order-IsRange top_tree_grown

note_accepted :
    validate_operations in_order in_order idle_tree op_block.operations op_block.previous_hash
    ≡ some (note ∷ [], true)
unfolding validate_operations get attach put new_blockchain dec_bytes for_parents list_ops_from_map
    ◌-ℤ◌ ◌+ℤ◌
note_accepted = refl

parent_found : get idle_tree.m (1 ∷ []) ≡ some 1
unfolding get attach put new_blockchain dec_bytes
parent_found = refl

validate_operations-IsAccepted_example :
    (bs : List Block) × IsChain idle_tree.nodes (some 1) bs
    × IsAccepted idle_tree.config (note ∷ []) bs
validate_operations-IsAccepted_example =
    validate_operations-IsAccepted in_order in_order idle_tree (note ∷ []) (1 ∷ []) 1 (note ∷ [])
      in_order-IsRange in_order-IsRange idle_tree_good.0 parent_found note_accepted

add_block-IsValid_example : IsValid op_tree
add_block-IsValid_example =
    add_block-IsValid codec in_order in_order idle_tree op_block op_tree idle_tree_good.0
      op_tree_added

add_block-ne-loops_example : add_block codec in_order in_order idle_tree op_block ≢ loops
add_block-ne-loops_example =
    add_block-ne-loops codec in_order in_order idle_tree op_block idle_tree_good.0

add_block-Says_example :
    Says codec in_order in_order idle_tree op_block
      (add_block codec in_order in_order idle_tree op_block)
add_block-Says_example =
    add_block-Says codec in_order in_order idle_tree op_block in_order-IsRange in_order-IsRange
      idle_tree_good.0

get_block-add_block_example :
    (get_block op_tree (1 ∷ [])
      ≡ ite (dec_bytes op_block.hash (1 ∷ [])) (some op_block) (get_block idle_tree (1 ∷ [])))
    × (get_size op_tree ≡ get_size idle_tree + 1)
    × (op_tree.config ≡ idle_tree.config)
get_block-add_block_example =
    get_block-add_block codec in_order in_order idle_tree op_block op_tree (1 ∷ []) idle_tree_good.0
      op_tree_added

last_of_top_tree : get_last_nodes top_tree ≡ some (record top_tree { last_node = 3 }, 3 ∷ [])
unfolding get_last_nodes attach new_blockchain
last_of_top_tree = refl

get_last_nodes-IsDeepest_example :
    (depth : ℕ) × IsDeepest top_tree (3 ∷ []) 3 depth
    × (record top_tree { last_node = 3 } ≡ record top_tree { last_node = 3 })
get_last_nodes-IsDeepest_example =
    get_last_nodes-IsDeepest top_tree (record top_tree { last_node = 3 }) (3 ∷ []) last_of_top_tree

get_last_nodes_returns_example : (r : Blockchain × List ℕ) × (get_last_nodes top_tree ≡ some r)
get_last_nodes_returns_example = get_last_nodes_returns top_tree top_tree_good.0.tree

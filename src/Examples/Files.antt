-- ===== src/Examples/Files.antt =====
-- The theorems about files and confirmation at the small tree.
use mathlib.Core.List.{reverse}
use miner.Prelude.{◌≡◌, refl, Bool, true, some, [], ◌∷◌, ◌++◌, length, ltb, In, inl, arith}
use miner.Prelude.Int.{pos}
use miner.Operation.{Operation}
use miner.Block.{Block, new_genesis_block}
use miner.Blockchain.{Blockchain, new_blockchain}
use miner.Blockchain.Walk.{IsChain}
use miner.Blockchain.Validation.Survivors.{ids, chain_ops}
use miner.Blockchain.Add.{attach}
use miner.Blockchain.Longest.{get_last_nodes, get_last_confirmed_node}
use miner.Ledger.{list_files}
use miner.Prelude.{IsDistinct, ◌↔◌, true, In, List}
use miner.Ledger.Names.{IsMentioned, list_files_iff}
use miner.Prelude.Bytes.{Bytes}
use miner.Examples.{in_order, in_order-IsRange}
use miner.Ledger.{FileOps, get_file, num_recs, Check, check_op_confirmed, confirms}
use miner.Ledger.Files.{
  records_of, mentions, removes, get_file-chain, num_recs-get_file, get_file_grows,
}
use miner.Ledger.Confirmation.{check_op_confirmed-found}
use miner.Examples.{
  settings, note, idle_block, op_block, top_block, op_tree, top_tree, op_tree_good, top_tree_good,
}

abbrev pub root : Block
root = new_genesis_block settings.genesis_block_hash (pos 0)

abbrev op_tree' : Blockchain
op_tree' = record op_tree { last_node = 2 }

abbrev pub top_tree' : Blockchain
top_tree' = record top_tree { last_node = 3 }

op_tree_confirmed :
    get_last_confirmed_node op_tree op_tree.config.confirms_per_file_append
    ≡ some (op_tree', some 1)
unfolding get_last_confirmed_node get_last_nodes attach new_blockchain
op_tree_confirmed = refl

top_tree_confirmed :
    get_last_confirmed_node top_tree top_tree.config.confirms_per_file_append
    ≡ some (top_tree', some 2)
unfolding get_last_confirmed_node get_last_nodes attach new_blockchain
top_tree_confirmed = refl

pub last_of_top_tree : get_last_nodes top_tree ≡ some (top_tree', 3 ∷ [])
unfolding get_last_nodes attach new_blockchain
last_of_top_tree = refl

idle-IsChain : IsChain op_tree.nodes (some 1) (idle_block ∷ root ∷ [])
unfolding attach new_blockchain new_genesis_block
idle-IsChain = (_, refl, refl, (_, refl, refl, tt))

op-IsChain : IsChain top_tree.nodes (some 2) (op_block ∷ idle_block ∷ root ∷ [])
unfolding attach new_blockchain new_genesis_block
op-IsChain = (_, refl, refl, (_, refl, refl, (_, refl, refl, tt)))

pub top-IsChain : IsChain top_tree.nodes (some 3) (top_block ∷ op_block ∷ idle_block ∷ root ∷ [])
unfolding attach new_blockchain new_genesis_block
top-IsChain = (_, refl, refl, (_, refl, refl, (_, refl, refl, (_, refl, refl, tt))))

get_file-chain_example :
    get_file (102 ∷ []) top_tree
    ≡ some (
      top_tree',
      (
        record {
          fname = 102 ∷ [];
          operations =
              reverse (records_of (102 ∷ []) (chain_ops (op_block ∷ idle_block ∷ root ∷ [])));
          deleted = removes (102 ∷ []) (chain_ops (op_block ∷ idle_block ∷ root ∷ []));
        },
        mentions (102 ∷ []) (chain_ops (op_block ∷ idle_block ∷ root ∷ [])),
      ),
    )
get_file-chain_example =
    get_file-chain (102 ∷ []) top_tree top_tree' 2 (op_block ∷ idle_block ∷ root ∷ [])
      top_tree_good.0 top_tree_confirmed op-IsChain

num_recs-get_file_example :
    (file : FileOps) × (seen : Bool) × (get_file (102 ∷ []) top_tree
      ≡ some (top_tree', (file, seen)))
    × (num_recs (102 ∷ []) top_tree ≡ some (top_tree', (pos (length file.operations), seen)))
num_recs-get_file_example =
    num_recs-get_file (102 ∷ []) top_tree top_tree' 2 (op_block ∷ idle_block ∷ root ∷ [])
      top_tree_good.0 top_tree_confirmed op-IsChain

get_file_grows_example :
    (old new : FileOps × Bool) × (get_file (102 ∷ []) op_tree ≡ some (op_tree', old))
    × (get_file (102 ∷ []) top_tree ≡ some (top_tree', new))
    × (new.0.operations
        ≡ old.0.operations ++ reverse (records_of (102 ∷ []) (chain_ops (op_block ∷ []))))
get_file_grows_example =
    get_file_grows (102 ∷ []) op_tree op_tree' top_tree top_tree' 1 2 (idle_block ∷ root ∷ [])
      (op_block ∷ []) op_tree_good.0 top_tree_good.0 op_tree_confirmed top_tree_confirmed
      idle-IsChain op-IsChain

nothing_newer : ¬ In note.operation_id (ids (chain_ops (top_block ∷ [])))
unfolding chain_ops
nothing_newer = λ z. z

check_op_confirmed-found_example :
    (r : Check) × (check_op_confirmed note top_tree ≡ some (top_tree', r))
    × (r.exists ≡ true)
    × (r.confirmed ≡ ltb (confirms top_tree note) (length (top_block ∷ [])))
check_op_confirmed-found_example =
    check_op_confirmed-found top_tree top_tree' note 3 [] (top_block ∷ []) op_block
      (idle_block ∷ root ∷ []) top_tree_good.0 last_of_top_tree top-IsChain nothing_newer (inl refl)

abbrev unknown : Operation
unknown = record note { operation_id = 8 ∷ [] }

unknown_absent :
    ¬ In unknown.operation_id (ids (chain_ops (top_block ∷ op_block ∷ idle_block ∷ root ∷ [])))
unfolding chain_ops new_genesis_block
unknown_absent = λ m. ground arith

list_files_iff_example :
    (names : List Bytes) × (list_files in_order top_tree ≡ some (top_tree', names))
    × IsDistinct names
    × ((fname : Bytes) → In fname names ↔ IsMentioned fname (op_block ∷ idle_block ∷ root ∷ []))
unfolding attach new_blockchain
list_files_iff_example =
    list_files_iff in_order top_tree top_tree' 2 (op_block ∷ idle_block ∷ root ∷ [])
      in_order-IsRange top_tree_good.0 top_tree_confirmed op-IsChain

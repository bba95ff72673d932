-- ===== src/Blockchain/Unmarshall.antt =====
-- `UnmarshallBlockchain` and `MergeBlocks` of bclib/blockchain.go: a tree from a list of blocks.
pub mod Hang
pub mod Placed
pub mod Allocated
pub mod Linked
pub mod Loop
pub mod Returns
pub mod Sync
pub mod Rebuilt
use miner.Prelude.{ℕ, Option, none, some, List, [], ◌∷◌, ◌++◌, foldl, length, get_elem?, set}
use miner.Prelude.Bytes.{Bytes}
use miner.Prelude.GoMap.{GoMap, get, put}
use miner.Settings.{Settings}
use miner.Operation.{Order}
use miner.Block.{Block}
use miner.Blockchain.{Node, Blockchain, new_node}
use miner.Blockchain.Add.{adopt}
use miner.Blockchain.Longest.{get_last_nodes}

-- The heap, and `nodeMap`.
pub record Heap : Type 0 where
  pub nodes : List Node
  pub node_map : GoMap ℕ

-- nodeMap[string(block.Hash[:])] = newNode(block, nil)
unfoldable pub allocate : Heap → Block → Heap
allocate h block = record {
  nodes = h.nodes ++ new_node block none ∷ [];
  node_map = put h.node_map block.hash (length h.nodes);
}

pub data UnmarshallError : Type 0 where
  no_parent no_genesis : UnmarshallError

-- `searching` is a call that does not return.
pub data Unmarshalled : Type 0 where
  tree : Blockchain → Unmarshalled
  failed : UnmarshallError → Unmarshalled
  searching : Unmarshalled

-- `genesisNode`, beside the nodes.
pub record Linking : Type 0 where
  pub nodes : List Node
  pub genesis : Option ℕ

-- node.parent = parentNode; parentNode.children = append(parentNode.children, node)
unfoldable pub hang : List Node → ℕ → Node → ℕ → List Node
hang nodes a n p = adopt (set nodes a (record n { parent = some p })) p a

-- The parent's entry in `nodeMap`, or the error.
unfoldable pub hang_on : Linking → ℕ → Node → Option ℕ → Option Linking
unfolding hang
hang_on l a n none = none
hang_on l a n (some p) = some (record l { nodes = hang l.nodes a n p })

abbrev pub link_entry : GoMap ℕ → Linking → ℕ → Node → Bytes → Option Linking
link_entry m l a n [] = some (record l { genesis = some a })
link_entry m l a n (x ∷ hash) = hang_on l a n (get m (x ∷ hash))

-- A round of the loop over `nodeMap`. Its values are nodes, so the first case does not occur.
unfoldable pub link_node : GoMap ℕ → Linking → ℕ → Option Linking
unfolding hang_on
link_node m l a = elim (get_elem? l.nodes a) [
  | none ↦ some l
  | some n ↦ link_entry m l a n n.block.previous_hash
]

unfoldable pub link_all : GoMap ℕ → Linking → List (Bytes × ℕ) → Option Linking
link_all m l [] = some l
link_all m l ((k, a) ∷ entries) = elim (link_node m l a) [
  | none ↦ none
  | some l' ↦ link_all m l' entries
]

-- Go's zero value.
abbrev pub no_settings : Settings
no_settings = record {
  mined_coins_per_op_block = 0;
  mined_coins_per_no_op_block = 0;
  num_coins_per_file_create = 0;
  gen_op_block_timeout = 0;
  genesis_block_hash = [];
  pow_per_op_block = 0;
  pow_per_no_op_block = 0;
  confirms_per_file_create = 0;
  confirms_per_file_append = 0;
  miner_id = [];
  peer_miners_addrs = [];
  incoming_miners_addr = [];
  outgoing_miners_ip = [];
  incoming_clients_addr = [];
}

abbrev pub searched : Option (Blockchain × List ℕ) → Unmarshalled
searched none = searching
searched (some (bc, nodes)) = tree bc

abbrev pub planted : Settings → GoMap ℕ → List Node → Option ℕ → Unmarshalled
planted config m nodes none = failed no_genesis
planted config m nodes (some g) =
    searched (
      get_last_nodes (record { genesis = g; last_node = g; m = m; config = config; nodes = nodes }))

abbrev pub built : Settings → GoMap ℕ → Option Linking → Unmarshalled
built config m none = failed no_parent
built config m (some l) = planted config m l.nodes l.genesis

-- The part that the two functions share: the loop over `nodeMap` and what follows it.
unfoldable pub build : Order ℕ → Settings → Heap → Unmarshalled
unfolding link_all link_node
build range config h =
    built config h.node_map
      (link_all h.node_map (record { nodes = h.nodes; genesis = none }) (range h.node_map))

unfoldable pub unmarshall_blockchain : Order ℕ → List Block → Unmarshalled
unfolding build allocate
unmarshall_blockchain range blocks =
    build range no_settings (foldl allocate (record { nodes = []; node_map = [] }) blocks)

-- nodeMap[k] = node
unfoldable pub keep : Heap → Bytes × ℕ → Heap
keep h (k, a) = record h { node_map = put h.node_map k a }

-- The new tree shares the old nodes, which are in the heap already and are changed there.
unfoldable pub merge_blocks : Order ℕ → Order ℕ → Blockchain → List Block → Unmarshalled
unfolding build allocate keep
merge_blocks range range' bc blocks =
    build range' bc.config
      (foldl keep (foldl allocate (record { nodes = bc.nodes; node_map = [] }) blocks) (range bc.m))

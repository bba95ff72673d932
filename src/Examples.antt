-- ===== src/Examples.antt =====
-- A small tree of blocks, and runs of the code on it.
pub mod Mining
pub mod Tree
pub mod Files
pub mod Clients
pub mod Manager
pub mod Dialing
pub mod Worker
pub mod Peers
pub mod Nodes
pub mod Network
pub mod Pending
pub mod Encoding
use mathlib.Core.List.Perm
use miner.Prelude.{ℕ, ◌≡◌, refl, Bool, true, false, none, some, List, [], ◌∷◌, length, get_elem?}
use miner.Prelude.Int.{pos}
use miner.Prelude.Bytes.{Bytes}
use miner.Prelude.Perms.{IsRange}
use miner.Prelude.GoMap.{get, put}
use miner.Prelude.Bytes.{dec_bytes}
use miner.Prelude.Int.{◌-ℤ◌, ◌+ℤ◌}
use miner.Settings.{Settings}
use miner.Operation.{Operation, Order, Codec, create, append, list_ops_from_map}
use miner.Block.{Block}
use miner.Pow.{zero_hash, validate, new_proof_of_work}
use miner.Blockchain.{Blockchain, new_blockchain, Node, new_node}
use miner.Blockchain.Shape.{IsValid}
use miner.Blockchain.Soundness.{IsSound}
use miner.Blockchain.Soundness.Extend.{Grows, genesis, grow, Grows-IsSound}
use miner.Blockchain.Add.{add_block, added, attach}
use miner.Blockchain.Walk.{IsChain, for_parents}
use miner.Blockchain.Validation.{validate_operations}

-- Every hash is zero, so every block has done its work.
abbrev pub codec : Codec
codec = record {
  md5 = λ b. zero_hash;
  marshall_operation = λ o. o.payload;
  marshall_operations = λ ops. [];
}

abbrev pub in_order : {V : Type 0} → Order V
in_order m = m

pub in_order-IsRange : {V : Type 0} → IsRange {V = V} in_order
in_order-IsRange m = Perm.refl m

abbrev pub settings : Settings
settings = record {
  mined_coins_per_op_block = 2;
  mined_coins_per_no_op_block = 1;
  num_coins_per_file_create = 1;
  gen_op_block_timeout = 1;
  genesis_block_hash = 9 ∷ [];
  pow_per_op_block = 1;
  pow_per_no_op_block = 1;
  confirms_per_file_create = 1;
  confirms_per_file_append = 1;
  miner_id = 7 ∷ [];
  peer_miners_addrs = [];
  incoming_miners_addr = [];
  outgoing_miners_ip = [];
  incoming_clients_addr = [];
}

abbrev pub note : Operation
note = record {
  op = append;
  payload = 5 ∷ [];
  filename = 102 ∷ [];
  miner_id = 7 ∷ [];
  operation_id = 2 ∷ [];
  timestamp = pos 4;
}

abbrev pub block_on : Bytes → Bytes → List Operation → Block
block_on hash prev ops = record {
  header = record { timestamp = pos 3; operations = ops; previous_hash = prev };
  miner_id = 7 ∷ [];
  hash = hash;
  nonce = pos 0;
}

abbrev pub idle_block : Block
idle_block = block_on (1 ∷ []) (9 ∷ []) []

abbrev pub op_block : Block
op_block = block_on (2 ∷ []) (1 ∷ []) (note ∷ [])

abbrev pub top_block : Block
top_block = block_on (3 ∷ []) (2 ∷ []) []

abbrev pub fresh_tree : Blockchain
fresh_tree = new_blockchain settings (pos 0)

abbrev pub idle_tree : Blockchain
idle_tree = attach fresh_tree idle_block 0

abbrev pub op_tree : Blockchain
op_tree = attach idle_tree op_block 1

abbrev pub top_tree : Blockchain
top_tree = attach op_tree top_block 2

pub idle_tree_added : add_block codec in_order in_order fresh_tree idle_block ≡ added idle_tree
unfolding add_block get new_blockchain dec_bytes validate new_proof_of_work validate_operations
idle_tree_added = refl

pub op_tree_added : add_block codec in_order in_order idle_tree op_block ≡ added op_tree
unfolding add_block get attach put new_blockchain dec_bytes validate new_proof_of_work
    validate_operations for_parents list_ops_from_map ◌-ℤ◌ ◌+ℤ◌
op_tree_added = refl

pub top_tree_added : add_block codec in_order in_order op_tree top_block ≡ added top_tree
unfolding add_block get attach put new_blockchain dec_bytes validate new_proof_of_work
    validate_operations
top_tree_added = refl

pub idle_tree_grown :
    Grows codec in_order in_order in_order-IsRange in_order-IsRange settings (pos 0) idle_tree
idle_tree_grown = grow idle_block genesis idle_tree_added

pub op_tree_grown :
    Grows codec in_order in_order in_order-IsRange in_order-IsRange settings (pos 0) op_tree
op_tree_grown = grow op_block idle_tree_grown op_tree_added

pub top_tree_grown :
    Grows codec in_order in_order in_order-IsRange in_order-IsRange settings (pos 0) top_tree
top_tree_grown = grow top_block op_tree_grown top_tree_added

pub idle_tree_good : IsValid idle_tree × IsSound idle_tree
idle_tree_good =
    Grows-IsSound codec in_order in_order in_order-IsRange in_order-IsRange idle_tree_grown

pub op_tree_good : IsValid op_tree × IsSound op_tree
op_tree_good = Grows-IsSound codec in_order in_order in_order-IsRange in_order-IsRange op_tree_grown

pub top_tree_good : IsValid top_tree × IsSound top_tree
top_tree_good =
    Grows-IsSound codec in_order in_order in_order-IsRange in_order-IsRange top_tree_grown

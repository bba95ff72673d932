-- ===== src/Examples/Manager.antt =====
-- The theorems on the chain manager and on trees read from a peer, at small inputs.
use miner.Prelude.{◌≡◌, refl, List, [], ◌∷◌, inl, inr, arith, ◌∙◌, ap, sym}
use miner.Prelude.Int.{pos, ◌-ℤ◌, ◌+ℤ◌}
use miner.Prelude.Bytes.{dec_bytes}
use miner.Prelude.GoMap.{get, put}
use miner.Operation.{list_ops_from_map}
use miner.Block.{Block, new_genesis_block}
use miner.Pow.{validate, new_proof_of_work}
use miner.Blockchain.{Blockchain, new_blockchain}
use miner.Blockchain.Walk.{for_parents}
use miner.Blockchain.Validation.{validate_operations}
use miner.Blockchain.Add.{attach, add_block}
use miner.Blockchain.Longest.{get_last_nodes, get_last_hash}
use miner.Blockchain.Unmarshall.{tree, unmarshall_blockchain}
use miner.Blockchain.Unmarshall.Returns.{IsTree, Holds, unmarshall_blockchain_returns}
use miner.P2p.Manager.{
  ChainManager, Signal, new_block_added, send, continue_mining, goes, panics, new_chain_manager,
  receive_flooded_block, add_queued_block, replay_downloaded,
}
use miner.P2p.Manager.Handlers.{IsBounded, replay_downloaded_twice}
use miner.Examples.{
  codec, in_order, in_order-IsRange, settings, idle_block, op_block, top_block, idle_tree, op_tree,
}

abbrev pub root : Block
root = new_genesis_block settings.genesis_block_hash (pos 0)

-- A manager that knows the genesis block and a block without operations.
abbrev pub fresh : ChainManager
fresh = new_chain_manager idle_tree settings

abbrev pub waiting : ChainManager
waiting = record fresh { received = op_block ∷ [] }

abbrev pub adding : ChainManager
adding = record fresh { add_queue = op_block ∷ [] }

abbrev pub grown : ChainManager
grown = record fresh { blockchain = record op_tree { last_node = 2 } }

abbrev news : List Signal
news = new_block_added ∷ send op_block ∷ continue_mining ∷ []

pub taken : receive_flooded_block (record waiting { received = [] }) op_block ≡ goes adding []
unfolding receive_flooded_block get attach put new_blockchain new_genesis_block dec_bytes
taken = refl

pub last :
    add_queued_block codec in_order in_order (record adding { add_queue = [] }) op_block
    ≡ goes grown news
unfolding add_queued_block add_block get attach put new_blockchain dec_bytes validate
    new_proof_of_work validate_operations for_parents list_ops_from_map ◌-ℤ◌ ◌+ℤ◌ get_last_hash
    get_last_nodes
last = refl

room : IsBounded fresh
room = record { to_add = omega arith; to_receive = omega arith }

-- A block whose parent is missing is in the queue.
abbrev missing : ChainManager
missing = record fresh { replay_queue = top_block ∷ [] }

replayed :
    replay_downloaded missing (op_block ∷ [])
    ≡ goes
        (record fresh { received = op_block ∷ top_block ∷ []; replay_map = (2 ∷ [], tt) ∷ [] })
        []
unfolding replay_downloaded put get dec_bytes
replayed = refl

replay_downloaded_twice_example :
    replay_downloaded
      (record fresh { received = op_block ∷ top_block ∷ []; replay_map = (2 ∷ [], tt) ∷ [] })
      (op_block ∷ [])
    ≡ panics
replay_downloaded_twice_example =
    replay_downloaded_twice missing _ (op_block ∷ []) (op_block ∷ []) [] replayed

-- What a peer sends: the child first.
abbrev pub peer_blocks : List Block
peer_blocks = idle_block ∷ root ∷ []

pub peer_blocks-IsTree : IsTree peer_blocks root
unfolding new_genesis_block
peer_blocks-IsTree = record {
  distinct = ((λ h. elim h [ inl e ↦ cc | inr z ↦ z ]), ((λ z. z), tt));
  inside = inr (inl refl);
  empty = refl;
  only = λ b i e. elim i [
    | inl is ↦ absurd (cc (sym (ap (λ (x : Block). x.previous_hash) is) ∙ e))
    | inr j ↦ elim j [ inl is ↦ is | inr z ↦ absurd z ]
  ];
  closed = λ b i. elim i [
    | inl is ↦ inr (inr (inl (ap (λ (x : Block). x.previous_hash) is)))
    | inr j ↦ elim j [ inl is ↦ inl (ap (λ (x : Block). x.previous_hash) is) | inr z ↦ absurd z ]
  ];
}

unmarshall_blockchain_returns_example :
    (bc : Blockchain) × (unmarshall_blockchain in_order peer_blocks ≡ tree bc)
    × Holds peer_blocks bc
unmarshall_blockchain_returns_example =
    unmarshall_blockchain_returns peer_blocks root peer_blocks-IsTree in_order in_order-IsRange

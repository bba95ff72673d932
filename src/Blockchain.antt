-- ===== src/Blockchain.antt =====
-- bclib/blockchain.go: the tree of blocks. A `*Node` is an address in `nodes`, where `newNode`
-- appends; a nil pointer is `none`. Nothing is ever freed, so an address stays valid.
pub mod Walk
pub mod Queries
pub mod Shape
pub mod Validation
pub mod Add
pub mod Soundness
pub mod Longest
pub mod Unmarshall
use miner.Prelude.{ℕ, Option, none, some, List, [], ◌∷◌, get_elem?}
use miner.Prelude.Int.{ℤ}
use miner.Prelude.Bytes.{Bytes}
use miner.Prelude.GoMap.{GoMap}
use miner.Settings.{Settings}
use miner.Block.{Block, new_genesis_block}

pub record Node : Type 0 where
  pub block : Block
  pub parent : Option ℕ
  pub children : List ℕ

pub record Blockchain : Type 0 where
  pub genesis : ℕ
  pub last_node : ℕ
  pub m : GoMap ℕ
  pub config : Settings
  pub nodes : List Node

abbrev pub new_node : Block → Option ℕ → Node
new_node block parent = record { block = block; parent = parent; children = [] }

-- `now` is the time of the genesis block.
unfoldable pub new_blockchain : Settings → ℤ → Blockchain
unfolding new_genesis_block
new_blockchain config now =
    let block = new_genesis_block config.genesis_block_hash now in
    record {
      genesis = 0;
      last_node = 0;
      m = (block.hash, 0) ∷ [];
      config = config;
      nodes = new_node block none ∷ [];
    }

abbrev pub set_config : Blockchain → Settings → Blockchain
set_config bc config = record bc { config = config }

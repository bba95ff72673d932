-- ===== src/Block.antt =====
-- bclib/block.go: blocks. Mining is in `Pow`.
use miner.Prelude.{List, []}
use miner.Prelude.Int.{ℤ, pos}
use miner.Prelude.Bytes.{Bytes}
use miner.Operation.{Operation}

pub record Header : Type 0 where
  pub timestamp : ℤ
  pub operations : List Operation
  pub previous_hash : Bytes

pub record Block : Type 0 where
  pub header : Header
  pub open header use *
  pub miner_id : Bytes
  pub hash : Bytes
  pub nonce : ℤ

-- `now` is `time.Now().Unix()`.
unfoldable pub new_genesis_block : Bytes → ℤ → Block
new_genesis_block gen_block_hash now = record {
  header = record { timestamp = now; operations = []; previous_hash = [] };
  miner_id = [];
  hash = gen_block_hash;
  nonce = pos 0;
}

-- ===== src/Settings.antt =====
-- settings/settings.go: the configuration of a miner. A `uint8` is a number below 256.
use miner.Prelude.{ℕ, List}
use miner.Prelude.Bytes.{Bytes}

pub record Settings : Type 0 where
  pub mined_coins_per_op_block : ℕ
  pub mined_coins_per_no_op_block : ℕ
  pub num_coins_per_file_create : ℕ
  pub gen_op_block_timeout : ℕ
  pub genesis_block_hash : Bytes
  pub pow_per_op_block : ℕ
  pub pow_per_no_op_block : ℕ
  pub confirms_per_file_create : ℕ
  pub confirms_per_file_append : ℕ
  pub miner_id : Bytes
  pub peer_miners_addrs : List Bytes
  pub incoming_miners_addr : Bytes
  pub outgoing_miners_ip : Bytes
  pub incoming_clients_addr : Bytes

-- ===== src/P2p/Node.antt =====
-- The chain manager of p2p/blockchain_manager.go and `managePeers` of p2p/p2p_rpc.go together, between
-- two synchronisations. A send on a channel without a buffer waits until the other goroutine is at its
-- select, so each goroutine has a list of what it still has to send in its current case. The other
-- goroutines always take what is sent to them.
pub mod Steps
pub mod Sends
pub mod Deadlock
use miner.Prelude.{List, [], ◌∷◌, map, Option}
use miner.Prelude.Bytes.{Bytes}
use miner.Block.{Block}
use miner.P2p.Manager.{ChainManager, Signal}
use miner.P2p.Peers.{
  Directory, Action, start_mining, have_peers, flooded, downloaded, send_block, send_op,
  request_blocks, hang_up,
}

-- `out` is what has been handed to peers, by miner ID.
pub record Node : Type 0 where
  pub manager : ChainManager
  pub to_send : List Signal
  pub directory : Directory
  pub to_do : List Action
  pub out : List (Bytes × Block)

abbrev pub new_node : ChainManager → Directory → Node
new_node manager directory = record {
  manager = manager;
  to_send = [];
  directory = directory;
  to_do = [];
  out = [];
}

-- The actions of `managePeers` that go to goroutines other than the manager, blocks apart.
abbrev pub IsElsewhere : Action → Type 0
IsElsewhere start_mining = Unit {0}
IsElsewhere (have_peers b) = Unit {0}
IsElsewhere (send_op id req) = Unit {0}
IsElsewhere (request_blocks id hash) = Unit {0}
IsElsewhere (hang_up id) = Unit {0}
IsElsewhere (flooded b) = ⊥
IsElsewhere (downloaded bs) = ⊥
IsElsewhere (send_block id b) = ⊥

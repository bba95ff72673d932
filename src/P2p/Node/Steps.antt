-- ===== src/P2p/Node/Steps.antt =====
-- The steps of the two goroutines, in any order.
use miner.Prelude.{◌<◌, ◌≡◌, Option, List, [], ◌∷◌, ◌++◌, length}
use miner.Prelude.Bytes.{Bytes}
use miner.Operation.{Operation, Order, Codec}
use miner.Block.{Block}
use miner.P2p.Manager.{
  ChainManager, Signal, download, new_block_added, send, continue_mining, goes, add_capacity,
  received_capacity, receive_flooded_block, replay_downloaded, add_queued_block,
}
use miner.P2p.Peers.{
  Action, flooded, downloaded, send_block, FloodOpReq, add_peer, mine_on, receive_block,
  download_prev_blocks, flood_block, flood_operation, remove_peer,
}
use miner.P2p.Node.{Node, IsElsewhere}

module _ (c : Codec) (range range' : Order Operation) where
  pub data NodeStep (n : Node) : Node → Type 0 where
    -- the manager is at its select
    takes_received :
        (b : Block) (rest : List Block) {signals : List Signal} {m' : ChainManager}
        → n.to_send ≡ []
        → n.manager.received ≡ b ∷ rest
        → receive_flooded_block (record n.manager { received = rest }) b ≡ goes m' signals
        → NodeStep n (record n { manager = m'; to_send = signals })
    takes_added :
        (b : Block) (rest : List Block) {signals : List Signal} {m' : ChainManager}
        → n.to_send ≡ []
        → n.manager.add_queue ≡ b ∷ rest
        → add_queued_block c range range' (record n.manager { add_queue = rest }) b
          ≡ goes m' signals
        → NodeStep n (record n { manager = m'; to_send = signals })
    takes_downloaded :
        (bs : List Block) (rest : List Action) {signals : List Signal} {m' : ChainManager}
        → n.to_send ≡ []
        → n.to_do ≡ downloaded bs ∷ rest
        → replay_downloaded n.manager bs ≡ goes m' signals
        → NodeStep n (record n { manager = m'; to_send = signals; to_do = rest })
    -- `managePeers` is at its select
    takes_block :
        (order : Order (Unit {0})) (b : Block) (rest : List Signal)
        → n.to_send ≡ send b ∷ rest
        → n.to_do ≡ []
        → NodeStep n (record n { to_send = rest; to_do = flood_block order n.directory b })
    takes_request :
        (answers : Bytes → Option (List Block)) (b : Block) (rest : List Signal)
        → n.to_send ≡ download b ∷ rest
        → n.to_do ≡ []
        → NodeStep n
            (record n { to_send = rest; to_do = download_prev_blocks answers n.directory b })
    takes_leave :
        (rest : List Signal)
        → n.to_send ≡ continue_mining ∷ rest
        → n.to_do ≡ []
        → NodeStep n (record n { to_send = rest; to_do = mine_on n.directory })
    joins :
        (id : Bytes)
        → n.to_do ≡ []
        → NodeStep n (record n {
          directory = (add_peer n.directory id).0;
          to_do = (add_peer n.directory id).1;
        })
    leaves :
        (id : Bytes)
        → n.to_do ≡ []
        → NodeStep n (record n {
          directory = (remove_peer n.directory id).0;
          to_do = (remove_peer n.directory id).1;
        })
    receives :
        (id : Bytes) (b : Block)
        → n.to_do ≡ []
        → NodeStep n (record n {
          directory = (receive_block n.directory id b).0;
          to_do = (receive_block n.directory id b).1;
        })
    floods :
        (order order' order'' : Order (Unit {0})) (id : Bytes) (req : FloodOpReq)
        → n.to_do ≡ []
        → NodeStep n (record n { to_do = flood_operation order order' order'' n.directory id req })
    -- the other goroutines, and the buffered channels
    mined :
        (b : Block)
        → length n.manager.add_queue < add_capacity
        → NodeStep n
            (record n { manager = record n.manager { add_queue = n.manager.add_queue ++ b ∷ [] } })
    arrives :
        (b : Block) (rest : List Action)
        → n.to_do ≡ flooded b ∷ rest
        → length n.manager.received < received_capacity
        → NodeStep n (record n {
          manager = record n.manager { received = n.manager.received ++ b ∷ [] };
          to_do = rest;
        })
    told_server :
        (rest : List Signal)
        → n.to_send ≡ new_block_added ∷ rest
        → NodeStep n (record n { to_send = rest })
    hands_over :
        (id : Bytes) (b : Block) (rest : List Action)
        → n.to_do ≡ send_block id b ∷ rest
        → NodeStep n (record n { to_do = rest; out = n.out ++ (id, b) ∷ [] })
    elsewhere :
        (a : Action) (rest : List Action)
        → n.to_do ≡ a ∷ rest
        → IsElsewhere a
        → NodeStep n (record n { to_do = rest })

  pub data NodeRuns (n : Node) : Node → Type 0 where
    begins : NodeRuns n n
    then_step : {n' n'' : Node} → NodeRuns n n' → NodeStep n' n'' → NodeRuns n n''

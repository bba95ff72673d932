-- ===== src/P2p/Peers.antt =====
-- `managePeers` of p2p/p2p_rpc.go: who the peers are, which of them sent which block, and who is
-- sent what. A case of the `select` is a function that takes one message; what it sends is listed.
pub mod Flooding
pub mod Travels
use miner.Prelude.{
  ℕ, Bool, true, false, not, Option, none, some, List, [], ◌∷◌, ◌++◌, map, foldl, length, ltb, ite,
  if◌then◌else◌,
}
use miner.Prelude.Bytes.{Bytes}
use miner.Prelude.GoMap.{GoMap, get, put, delete, has, keys}
use miner.Operation.{Operation, Order}
use miner.Block.{Block}

pub record FloodOpReq : Type 0 where
  pub operation : Operation
  pub ignore_miners : List Bytes

pub data Action : Type 0 where
  start_mining : Action
  have_peers : Bool → Action
  -- to the chain manager
  flooded : Block → Action
  downloaded : List Block → Action
  -- to a peer, by miner ID
  send_block : Bytes → Block → Action
  send_op : Bytes → FloodOpReq → Action
  request_blocks : Bytes → Bytes → Action
  hang_up : Bytes → Action

-- The connections, and which peers have sent which block.
pub record Directory : Type 0 where
  pub peers : GoMap (Unit {0})
  pub blocks_to_peers : GoMap (List Bytes)

abbrev pub senders : Option (List Bytes) → List Bytes
senders none = []
senders (some miners) = miners

abbrev pub some_peers : Directory → Bool
some_peers d = ltb 0 (length d.peers)

-- case newPeer := <-ms.newPeer
unfoldable pub add_peer : Directory → Bytes → Directory × List Action
add_peer d id =
    let d' = record d { peers = put d.peers id tt } in
    (d', start_mining ∷ have_peers (some_peers d') ∷ [])

-- case <-ms.manager.continueMining
unfoldable pub mine_on : Directory → List Action
mine_on d = if some_peers d then start_mining ∷ [] else []

-- case req := <-ms.receivedBlocks
unfoldable pub receive_block : Directory → Bytes → Block → Directory × List Action
receive_block d from_id block = (
  record d {
    blocks_to_peers =
        put d.blocks_to_peers block.hash
          (senders (get d.blocks_to_peers block.hash) ++ from_id ∷ []);
  },
  flooded block ∷ [],
)

-- The requests for a block's parent, one sender after the other; `answers` is what each of them
-- returns, or `none` for an error.
unfoldable pub request_all :
    (Bytes → Option (List Block)) → Directory → Block → List Bytes → List Action
request_all answers d block [] = []
request_all answers d block (id ∷ miners) =
    let rest = request_all answers d block miners in
    if has d.peers id
    then request_blocks id block.previous_hash
      ∷ elim (answers id) [ none ↦ rest | some blocks ↦ downloaded blocks ∷ rest ]
    else rest

-- case block := <-ms.downloadPrevBlocks
unfoldable pub download_prev_blocks :
    (Bytes → Option (List Block)) → Directory → Block → List Action
unfolding request_all
download_prev_blocks answers d block =
    request_all answers d block (senders (get d.blocks_to_peers block.hash))

-- ignorePeers[id] = struct{}{}
unfoldable pub ignore_all : GoMap (Unit {0}) → List Bytes → GoMap (Unit {0})
ignore_all = foldl (λ m id. put m id tt)

unfoldable pub keep_unless : GoMap (Unit {0}) → List Bytes → List Bytes
keep_unless ignored [] = []
keep_unless ignored (id ∷ ids) =
    let rest = keep_unless ignored ids in if has ignored id then rest else id ∷ rest

-- The peers that a block is sent to: those that have not sent it.
unfoldable pub block_targets : Order (Unit {0}) → Directory → Block → List Bytes
unfolding ignore_all keep_unless
block_targets range d block =
    keep_unless (ignore_all [] (senders (get d.blocks_to_peers block.hash))) (keys (range d.peers))

-- case block := <-ms.manager.sendBlock
unfoldable pub flood_block : Order (Unit {0}) → Directory → Block → List Action
unfolding block_targets
flood_block range d block = map (λ id. send_block id block) (block_targets range d block)

-- `peersToFloodTo`
unfoldable pub op_targets : Order (Unit {0}) → Directory → FloodOpReq → List Bytes
unfolding ignore_all keep_unless
op_targets range d req = keep_unless (ignore_all [] req.ignore_miners) (keys (range d.peers))

unfoldable pub string_set_to_list : Order (Unit {0}) → GoMap (Unit {0}) → List Bytes
string_set_to_list range set = keys (range set)

-- `opFloodReq`: this miner and its peers are ignored from now on.
unfoldable pub next_req :
    Order (Unit {0}) → Order (Unit {0}) → Directory → Bytes → FloodOpReq → FloodOpReq
unfolding ignore_all string_set_to_list
next_req range range' d miner_id req = record req {
  ignore_miners =
      string_set_to_list range'
        (put (ignore_all (ignore_all [] req.ignore_miners) (keys (range d.peers))) miner_id tt);
}

-- case op := <-ms.floodOperation
unfoldable pub flood_operation :
    Order (Unit {0})
    → Order (Unit {0})
    → Order (Unit {0})
    → Directory
    → Bytes
    → FloodOpReq
    → List Action
unfolding op_targets next_req
flood_operation range range' range'' d miner_id req =
    map (λ id. send_op id (next_req range' range'' d miner_id req)) (op_targets range d req)

-- case err := <-ms.peerErrs
unfoldable pub remove_peer : Directory → Bytes → Directory × List Action
remove_peer d id =
    if has d.peers id
    then (let d' = record d { peers = delete d.peers id } in
        (d', hang_up id ∷ have_peers (some_peers d') ∷ []))
    else (d, [])

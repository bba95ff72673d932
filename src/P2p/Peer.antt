-- ===== src/P2p/Peer.antt =====
-- p2p/peer.go: the goroutine that talks to one peer. A case of its `select` is a function of one
-- message, and what the connection returns for a call is part of the message. Times are seconds.
pub mod Answered
use miner.Prelude.{
  ℕ, ◌+◌, Bool, true, false, Option, none, some, List, [], ◌∷◌, ◌++◌, ltb, if◌then◌else◌,
}
use miner.Prelude.Bytes.{Bytes}
use miner.Block.{Block}
use miner.P2p.Peers.{FloodOpReq}

pub record FloodBlockReq : Type 0 where
  pub block : Block
  pub from_miner_id : Bytes

-- `lastConnected` is a variable of `run`.
pub record Peer : Type 0 where
  pub miner_id : Bytes
  pub address : Bytes
  pub last_connected : ℕ

abbrev pub new_peer : Bytes → Bytes → ℕ → Peer
new_peer miner_id address now = record {
  miner_id = miner_id;
  address = address;
  last_connected = now;
}

-- A message, the time at which the call returns, and whether it returned without an error; for
-- blocks, what it returned. A tick has its own time before that of the call.
pub data PeerMessage : Type 0 where
  send_block : FloodBlockReq → ℕ → Bool → PeerMessage
  send_op : FloodOpReq → ℕ → Bool → PeerMessage
  request_blocks : Bytes → ℕ → Option (List Block) → PeerMessage
  tick : ℕ → ℕ → Bool → PeerMessage
  done : PeerMessage

-- Calls over the connection, and what is sent on `errs`, `downloadErrs` and `downloadedBlocks`.
pub data Told : Type 0 where
  call_flood_block : FloodBlockReq → Told
  call_flood_operation : FloodOpReq → Told
  call_get_blocks : Bytes → Told
  call_heartbeat : Told
  peer_error : Bytes → Told
  download_error : Told
  downloaded : List Block → Told

pub data PeerTurn : Type 0 where
  goes : Peer → List Told → PeerTurn
  closes : PeerTurn

-- The end of a call: `lastConnected` is set, or the error is reported.
unfoldable pub after_call : Peer → Told → ℕ → Bool → PeerTurn
after_call p call now ok =
    if ok
    then goes (record p { last_connected = now }) (call ∷ [])
    else goes p (call ∷ peer_error p.miner_id ∷ [])

unfoldable pub after_get_blocks : Peer → Bytes → ℕ → Option (List Block) → PeerTurn
after_get_blocks p hash now none = goes p (call_get_blocks hash ∷ download_error ∷ [])
after_get_blocks p hash now (some blocks) =
    goes (record p { last_connected = now }) (call_get_blocks hash ∷ downloaded blocks ∷ [])

-- A heartbeat after more than five seconds.
unfoldable pub on_tick : Peer → ℕ → ℕ → Bool → PeerTurn
unfolding after_call
on_tick p now later ok =
    if ltb (p.last_connected + 5) now then after_call p call_heartbeat later ok else goes p []

unfoldable pub peer_turn : Peer → PeerMessage → PeerTurn
unfolding after_call after_get_blocks on_tick
peer_turn p (send_block req now ok) = after_call p (call_flood_block req) now ok
peer_turn p (send_op req now ok) = after_call p (call_flood_operation req) now ok
peer_turn p (request_blocks hash now blocks) = after_get_blocks p hash now blocks
peer_turn p (tick now later ok) = on_tick p now later ok
peer_turn p done = closes

-- `run`, after which `told` has grown by what was told; `closes` ends it.
unfoldable pub peer_run : Peer → List Told → List PeerMessage → PeerTurn
unfolding peer_turn
peer_run p told [] = goes p told
peer_run p told (e ∷ messages) = elim (peer_turn p e) [
  | goes p' more ↦ peer_run p' (told ++ more) messages
  | closes ↦ closes
]

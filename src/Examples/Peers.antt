-- ===== src/Examples/Peers.antt =====
-- The theorems on batches and on flooding, at small inputs.
use miner.Prelude.{
  List, none, some, ◌≤◌, ◌≡◌, refl, ◌↔◌, true, false, [], ◌∷◌, inl, inr, arith, length, In,
  IsDistinct,
}
use miner.Prelude.Bytes.{Bytes, dec_bytes}
use miner.Prelude.GoMap.{get, has, keys}
use miner.Operation.{Operation, create}
use miner.P2p.Server.{Server}
use miner.P2p.Batches.{
  Batcher, goes, deadlocks, received, ticked, outside, answer, contradicts, receive_op, run_events,
}
use miner.P2p.Batches.Bounds.{Good, run_within}
use miner.P2p.Batches.Refusals.{receive_op_deadlocks}
use miner.P2p.Peers.{FloodOpReq, Directory, op_targets, next_req}
use miner.P2p.Peers.Flooding.{op_targets_iff}
use miner.P2p.Peers.Travels.{Travels, submitted, forwarded, Travels-IsDistinct, Travels-length}
use miner.P2p.Peer.{
  PeerTurn, new_peer, request_blocks, tick, PeerMessage, Told, call_get_blocks, call_heartbeat,
  download_error, downloaded, peer_run,
}
use miner.P2p.Peer.Answered.{returned, passed_on, peer_run-passed_on}
use miner.Examples.{in_order, in_order-IsRange, note, op_block, top_tree}

-- A client of this miner waits for the creation of a file that is confirmed.
abbrev again : Operation
again = record note { op = create; operation_id = 8 ∷ [] }

abbrev server : Server
server = record {
  bc = top_tree;
  miner_id = 7 ∷ [];
  confirmed_files = (102 ∷ [], tt) ∷ [];
  client_ops = (8 ∷ [], again) ∷ [];
  is_connected = true;
}

abbrev batcher : Batcher
batcher = record { server = server; locked = false; operations = []; ticking = false }

run_within_example :
    Good (
      run_events in_order in_order batcher [] (received again ∷ outside server false ∷ ticked ∷ []))
run_within_example =
    run_within in_order in_order in_order-IsRange batcher []
      (received again ∷ outside server false ∷ ticked ∷ []) (omega arith) tt

bad : contradicts server again ≡ true
unfolding get dec_bytes
bad = refl

own : has server.client_ops (8 ∷ []) ≡ true
unfolding get dec_bytes
own = refl

unseen : (k : Bytes) → has batcher.operations k ≡ false
unfolding get
unseen k = refl

receive_op_deadlocks_example :
    (b' : Batcher) × (receive_op in_order in_order batcher again
      ≡ goes b' (answer (8 ∷ []) false ∷ []))
    × (receive_op in_order in_order b' note ≡ deadlocks)
receive_op_deadlocks_example =
    receive_op_deadlocks in_order in_order batcher again note refl (unseen (8 ∷ [])) bad own
      (unseen (2 ∷ []))

-- Miners 1 and 2 are peers, and miner 1 has sent the block.
abbrev directory : Directory
directory = record {
  peers = (1 ∷ [], tt) ∷ (2 ∷ [], tt) ∷ [];
  blocks_to_peers = (op_block.hash, (1 ∷ []) ∷ []) ∷ [];
}

abbrev request : FloodOpReq
request = record { operation = note; ignore_miners = [] }

op_targets_iff_example :
    In (2 ∷ []) (op_targets in_order directory request)
    ↔ (In {A = Bytes} (2 ∷ []) (keys directory.peers) × ¬ In {A = Bytes} (2 ∷ []) [])
op_targets_iff_example = op_targets_iff in_order directory request (2 ∷ []) in_order-IsRange

not_self : ¬ In (7 ∷ []) (keys directory.peers)
not_self h = elim h [ inl e ↦ cc | inr j ↦ elim j [ inl e ↦ cc | inr z ↦ z ] ]

-- Miner 7 gets the operation from a client and sends it to miner 2.
hop : Travels ((2 ∷ []) ∷ (7 ∷ []) ∷ []) (next_req in_order in_order directory (7 ∷ []) request)
hop =
    forwarded in_order in_order in_order directory (2 ∷ []) in_order-IsRange in_order-IsRange
      in_order-IsRange not_self
      ((op_targets_iff in_order directory request (2 ∷ []) in_order-IsRange).1
        (inr (inl refl), λ z. z))
      (submitted (7 ∷ []) note)

Travels-IsDistinct_example : IsDistinct {A = Bytes} ((2 ∷ []) ∷ (7 ∷ []) ∷ [])
Travels-IsDistinct_example = Travels-IsDistinct ((2 ∷ []) ∷ (7 ∷ []) ∷ []) _ hop

among :
    (id : Bytes) → In id ((2 ∷ []) ∷ (7 ∷ []) ∷ []) → In id ((1 ∷ []) ∷ (2 ∷ []) ∷ (7 ∷ []) ∷ [])
among id i = inr i

Travels-length_example :
    length {A = Bytes} ((2 ∷ []) ∷ (7 ∷ []) ∷ [])
    ≤ length {A = Bytes} ((1 ∷ []) ∷ (2 ∷ []) ∷ (7 ∷ []) ∷ [])
Travels-length_example =
    Travels-length ((1 ∷ []) ∷ (2 ∷ []) ∷ (7 ∷ []) ∷ []) ((2 ∷ []) ∷ (7 ∷ []) ∷ []) _ hop among

-- A request that fails, a heartbeat, and a request that succeeds.
abbrev requests : List PeerMessage
requests =
    request_blocks (2 ∷ []) 3 none
    ∷ tick 9 10 true
    ∷ request_blocks (2 ∷ []) 12 (some (op_block ∷ []))
    ∷ []

abbrev all_told : List Told
all_told =
    call_get_blocks (2 ∷ [])
    ∷ download_error
    ∷ call_heartbeat
    ∷ call_get_blocks (2 ∷ [])
    ∷ downloaded (op_block ∷ [])
    ∷ []

requested :
    peer_run (new_peer (1 ∷ []) [] 0) [] requests ≡ PeerTurn.goes (new_peer (1 ∷ []) [] 12) all_told
unfolding peer_run
requested = refl

peer_run-passed_on_example : passed_on all_told ≡ returned requests
peer_run-passed_on_example =
    peer_run-passed_on (new_peer (1 ∷ []) [] 0) (new_peer (1 ∷ []) [] 12) requests [] all_told
      requested

-- ===== src/P2p/Peer/Answered.antt =====
-- What a peer's goroutine answers.
use miner.Prelude.{
  ◌≡◌, refl, Option, none, some, List, [], ◌∷◌, ◌++◌, append-nil, append_assoc, ◌∙◌, sym, ap, arith,
}
use miner.Block.{Block}
use miner.P2p.Peer.{
  Peer, PeerMessage, send_block, send_op, request_blocks, tick, done, Told, call_flood_block,
  call_flood_operation, call_get_blocks, call_heartbeat, peer_error, download_error, downloaded,
  PeerTurn, goes, closes, peer_turn, peer_run,
}

-- What the connection returned for the requests of blocks, in order.
abbrev pub returned : List PeerMessage → List (Option (List Block))
returned [] = []
returned (request_blocks hash now blocks ∷ messages) = blocks ∷ returned messages
returned (send_block req now ok ∷ messages) = returned messages
returned (send_op req now ok ∷ messages) = returned messages
returned (tick now later ok ∷ messages) = returned messages
returned (done ∷ messages) = returned messages

-- What has been passed on to `managePeers`, in order.
abbrev pub passed_on : List Told → List (Option (List Block))
passed_on [] = []
passed_on (downloaded blocks ∷ told) = some blocks ∷ passed_on told
passed_on (download_error ∷ told) = none ∷ passed_on told
passed_on (call_flood_block req ∷ told) = passed_on told
passed_on (call_flood_operation req ∷ told) = passed_on told
passed_on (call_get_blocks hash ∷ told) = passed_on told
passed_on (call_heartbeat ∷ told) = passed_on told
passed_on (peer_error id ∷ told) = passed_on told

passed_on-append : (xs ys : List Told) → passed_on (xs ++ ys) ≡ passed_on xs ++ passed_on ys
passed_on-append [] ys = refl
passed_on-append (downloaded blocks ∷ xs) ys = ap (λ l. some blocks ∷ l) (passed_on-append xs ys)
passed_on-append (download_error ∷ xs) ys = ap (λ l. none ∷ l) (passed_on-append xs ys)
passed_on-append (call_flood_block req ∷ xs) ys = passed_on-append xs ys
passed_on-append (call_flood_operation req ∷ xs) ys = passed_on-append xs ys
passed_on-append (call_get_blocks hash ∷ xs) ys = passed_on-append xs ys
passed_on-append (call_heartbeat ∷ xs) ys = passed_on-append xs ys
passed_on-append (peer_error id ∷ xs) ys = passed_on-append xs ys

-- One message.
peer_turn-passed_on :
    (p p' : Peer) (e : PeerMessage) (more : List Told)
    → peer_turn p e ≡ goes p' more
    → passed_on more ≡ returned (e ∷ [])
unfolding peer_turn
peer_turn-passed_on p p' (send_block req now ok) more e = ground arith
peer_turn-passed_on p p' (send_op req now ok) more e = ground arith
peer_turn-passed_on p p' (request_blocks hash now none) more e = ground arith
peer_turn-passed_on p p' (request_blocks hash now (some blocks)) more e = ground arith
peer_turn-passed_on p p' (tick now later ok) more e = ground arith
peer_turn-passed_on p p' done more e = cc

returned-cons :
    (e : PeerMessage) (messages : List PeerMessage)
    → returned (e ∷ messages) ≡ returned (e ∷ []) ++ returned messages
returned-cons (send_block req now ok) messages = refl
returned-cons (send_op req now ok) messages = refl
returned-cons (request_blocks hash now blocks) messages = refl
returned-cons (tick now later ok) messages = refl
returned-cons done messages = refl

-- As long as the goroutine runs, `managePeers`, which waits for one answer to each of its requests of
-- blocks, gets exactly one, in order: the blocks that the connection returned, or that it failed.
pub peer_run-passed_on :
    (p p' : Peer) (messages : List PeerMessage) (told all : List Told)
    → peer_run p told messages ≡ goes p' all
    → passed_on all ≡ passed_on told ++ returned messages
unfolding peer_run
peer_run-passed_on p p' [] told all e =
    let same : told ≡ all = ground arith in
    ap passed_on (sym same) ∙ sym (append-nil (passed_on told))
peer_run-passed_on p p' (x ∷ messages) told all e =
    go (peer_turn p x) refl (λ p1 more. peer_run-passed_on p1 p' messages (told ++ more) all)
  where
    go :
        (r : PeerTurn)
        → peer_turn p x ≡ r
        → ((p1 : Peer) (more : List Told)
            → peer_run p1 (told ++ more) messages ≡ goes p' all
            → passed_on all ≡ passed_on (told ++ more) ++ returned messages)
        → passed_on all ≡ passed_on told ++ returned (x ∷ messages)
    go (goes p1 more) step rest =
        rest p1 more (rw (step, peer_run) at e)
        ∙ ap (λ l. l ++ returned messages) (passed_on-append told more)
        ∙ append_assoc (passed_on told) (passed_on more) (returned messages)
        ∙ ap (λ l. passed_on told ++ (l ++ returned messages))
            (peer_turn-passed_on p p1 x more step)
        ∙ ap (λ l. passed_on told ++ l) (sym (returned-cons x messages))
    go closes step rest = absurd (cc (rw (step, peer_run) at e))

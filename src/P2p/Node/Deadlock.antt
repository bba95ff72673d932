-- ===== src/P2p/Node/Deadlock.antt =====
-- The two goroutines waiting for each other.
use miner.Prelude.{◌≡◌, refl, List, ◌∷◌, ◌∙◌, sym, subst}
use miner.Operation.{Operation, Order, Codec}
use miner.Block.{Block}
use miner.Prelude.{some, true, Option, []}
use miner.Prelude.Bytes.{Bytes}
use miner.Prelude.GoMap.{get, has}
use miner.P2p.Manager.{
  ChainManager, goes, receive_flooded_block, add_queued_block, Signal, download, new_block_added,
  send, continue_mining, synchronized,
}
use miner.P2p.Peers.{Action, downloaded}
use miner.P2p.Peers.{request_blocks, Directory, request_all, download_prev_blocks}
use miner.P2p.Node.{Node, new_node, IsElsewhere}
use miner.P2p.Node.Steps.{
  NodeStep, takes_received, takes_added, takes_downloaded, takes_block, takes_request, takes_leave,
  joins, leaves, receives, floods, mined, arrives, told_server, hands_over, elsewhere, NodeRuns,
  begins, then_step,
}

-- What the manager sends to `managePeers`.
abbrev pub IsForPeers : Signal → Type 0
IsForPeers (download b) = Unit {0}
IsForPeers (send b) = Unit {0}
IsForPeers continue_mining = Unit {0}
IsForPeers new_block_added = ⊥
IsForPeers synchronized = ⊥

-- The manager has added `added`, and `managePeers` has the blocks that it asked for.
abbrev pub wedged :
    ChainManager → Directory → List (Bytes × Block) → List Block → List Action → Block → Node
wedged m d out bs actions added = record {
  manager = m;
  to_send = send added ∷ continue_mining ∷ [];
  directory = d;
  to_do = downloaded bs ∷ actions;
  out = out;
}

module _ (c : Codec) (range range' : Order Operation) where
  NodeStep-stuck :
      (n n' : Node) (signal : Signal) (signals : List Signal) (bs : List Block)
      (actions : List Action)
      → n.to_send ≡ signal ∷ signals
      → IsForPeers signal
      → n.to_do ≡ downloaded bs ∷ actions
      → NodeStep c range range' n n'
      → (n'.to_send ≡ n.to_send) × (n'.to_do ≡ n.to_do) × (n'.out ≡ n.out)
  NodeStep-stuck n _ signal signals bs actions w f d (takes_received b rest e x y) =
      absurd (cc (sym w ∙ e))
  NodeStep-stuck n _ signal signals bs actions w f d (takes_added b rest e x y) =
      absurd (cc (sym w ∙ e))
  NodeStep-stuck n _ signal signals bs actions w f d (takes_downloaded bs' rest e x y) =
      absurd (cc (sym w ∙ e))
  NodeStep-stuck n _ signal signals bs actions w f d (takes_block order b rest x e) =
      absurd (cc (sym d ∙ e))
  NodeStep-stuck n _ signal signals bs actions w f d (takes_request answers b rest x e) =
      absurd (cc (sym d ∙ e))
  NodeStep-stuck n _ signal signals bs actions w f d (takes_leave rest x e) =
      absurd (cc (sym d ∙ e))
  NodeStep-stuck n _ signal signals bs actions w f d (joins id e) = absurd (cc (sym d ∙ e))
  NodeStep-stuck n _ signal signals bs actions w f d (leaves id e) = absurd (cc (sym d ∙ e))
  NodeStep-stuck n _ signal signals bs actions w f d (receives id b e) = absurd (cc (sym d ∙ e))
  NodeStep-stuck n _ signal signals bs actions w f d (floods o o' o'' id req e) =
      absurd (cc (sym d ∙ e))
  NodeStep-stuck n _ signal signals bs actions w f d (mined b lt) = (refl, refl, refl)
  NodeStep-stuck n _ signal signals bs actions w f d (arrives b rest e lt) = absurd (cc (sym d ∙ e))
  NodeStep-stuck n _ signal signals bs actions w f d (told_server rest e) =
      let pair = sym w ∙ e in
      let same : signal ≡ new_block_added = cc in absurd (subst IsForPeers same f)
  NodeStep-stuck n _ signal signals bs actions w f d (hands_over id b rest e) =
      absurd (cc (sym d ∙ e))
  NodeStep-stuck n _ signal signals bs actions w f d (elsewhere a rest e x) =
      let pair = sym e ∙ d in let same : a ≡ downloaded bs = cc in absurd (subst IsElsewhere same x)

  -- Where the two wait for each other, neither makes another send, and no block goes out.
  NodeRuns-stuck :
      (n n' : Node) (signal : Signal) (signals : List Signal) (bs : List Block)
      (actions : List Action)
      → n.to_send ≡ signal ∷ signals
      → IsForPeers signal
      → n.to_do ≡ downloaded bs ∷ actions
      → NodeRuns c range range' n n'
      → (n'.to_send ≡ n.to_send) × (n'.to_do ≡ n.to_do) × (n'.out ≡ n.out)
  NodeRuns-stuck n _ signal signals bs actions w f d begins = (refl, refl, refl)
  NodeRuns-stuck n _ signal signals bs actions w f d (then_step {n'} {n''} r st) =
      let (w', d', o') = NodeRuns-stuck n n' signal signals bs actions w f d r in
      let (w'', d'', o'') =
        NodeStep-stuck n' n'' signal signals bs actions (w' ∙ w) f (d' ∙ d) st in
      (w'' ∙ w', d'' ∙ d', o'' ∙ o')

  -- From both selects: the manager takes a flooded block whose parent it asks `managePeers` for, and
  -- then adds a queued block, while a peer that has sent the flooded block returns the blocks asked
  -- for. This run exists, and after it the manager waits to send the added block to `managePeers`,
  -- which waits to hand it the downloaded blocks: whatever happens then, neither makes another send,
  -- and no block goes out.
  pub NodeRuns-deadlocks :
      (m m1 m2 : ChainManager) (d : Directory) (out : List (Bytes × Block)) (b added : Block)
      (rest queue bs : List Block) (id : Bytes) (ids : List Bytes)
      (answers : Bytes → Option (List Block)) (n' : Node)
      → m.received ≡ b ∷ rest
      → receive_flooded_block (record m { received = rest }) b ≡ goes m1 (download b ∷ [])
      → get d.blocks_to_peers b.hash ≡ some (id ∷ ids)
      → has d.peers id ≡ true
      → answers id ≡ some bs
      → m1.add_queue ≡ added ∷ queue
      → add_queued_block c range range' (record m1 { add_queue = queue }) added
        ≡ goes m2 (new_block_added ∷ send added ∷ continue_mining ∷ [])
      → NodeRuns c range range' (wedged m2 d out bs (request_all answers d b ids) added) n'
      → NodeRuns c range range'
          (record (new_node m d) { out = out })
          (wedged m2 d out bs (request_all answers d b ids) added)
        × (n'.to_send ≡ send added ∷ continue_mining ∷ [])
        × (n'.to_do ≡ downloaded bs ∷ request_all answers d b ids)
        × (n'.out ≡ out)
  unfolding download_prev_blocks request_all
  NodeRuns-deadlocks m m1 m2 d out b added rest queue bs id ids answers n' q run sender peer answer
        q' run' r =
      let asked : download_prev_blocks answers d b
          ≡ request_blocks id b.previous_hash ∷ downloaded bs ∷ request_all answers d b ids =
        rw (sender, download_prev_blocks, request_all, peer, answer) in
      let (x, y, z) =
        NodeRuns-stuck (wedged m2 d out bs (request_all answers d b ids) added) n' (send added)
          (continue_mining ∷ []) bs (request_all answers d b ids) refl tt refl r in
      (
        then_step
            (then_step
              (then_step
                (then_step (then_step begins (takes_received b rest refl q run))
                  (takes_request answers b [] refl refl))
                (elsewhere (request_blocks id b.previous_hash)
                  (downloaded bs ∷ request_all answers d b ids) asked tt))
              (takes_added added queue refl q' run'))
            (told_server (send added ∷ continue_mining ∷ []) refl),
        x,
        y,
        z,
      )

-- ===== src/P2p/Manager/Handlers.antt =====
-- The goroutine of the chain manager as a step relation, between two synchronisations.
use miner.Prelude.{
  ℕ, ◌≤◌, ◌≡◌, refl, inl, inr, List, [], ◌∷◌, ◌++◌, foldl, length, length-append, arith, List-cases,
  ◌∙◌, sym, ap, subst,
}
use miner.Prelude.Perms.{IsRange}
use miner.Operation.{Order}
use miner.Block.{Block}
use miner.Blockchain.Unmarshall.Returns.{IsTree, Holds, unmarshall_blockchain_returns}
use miner.P2p.Manager.{
  ChainManager, Signal, download, new_block_added, send, continue_mining, synchronized, Turn, goes,
  blocks, panics, spins, add_capacity, received_capacity, send_received, awaited,
  receive_flooded_block, send_all, emptied, replay_from, replay_downloaded, ask_for, synchronize,
  after_unmarshall,
}

-- The blocks that are sent to the peers.
abbrev pub sent : List Signal → List Block
sent [] = []
sent (download b ∷ signals) = sent signals
sent (new_block_added ∷ signals) = sent signals
sent (send b ∷ signals) = b ∷ sent signals
sent (continue_mining ∷ signals) = sent signals
sent (synchronized ∷ signals) = sent signals

pub sent-append : (s t : List Signal) → sent (s ++ t) ≡ sent s ++ sent t
sent-append [] t = refl
sent-append (download b ∷ s) t = sent-append s t
sent-append (new_block_added ∷ s) t = sent-append s t
sent-append (send b ∷ s) t = ap (◌∷◌ b) (sent-append s t)
sent-append (continue_mining ∷ s) t = sent-append s t
sent-append (synchronized ∷ s) t = sent-append s t

-- The queues are within the capacities of their channels.
pub record IsBounded (m : ChainManager) : Type 0 where
  pub to_add : length m.add_queue ≤ add_capacity
  pub to_receive : length m.received ≤ received_capacity

-- A step that leaves the chain alone and sends nothing.
pub record IsQuiet (m m' : ChainManager) (signals : List Signal) : Type 0 where
  pub same : m'.blockchain ≡ m.blockchain
  pub silent : sent signals ≡ []
  pub bounded : IsBounded m → IsBounded m'

sent-ask_for : (bs : List Block) (b : Block) → sent (ask_for bs b) ≡ []
sent-ask_for [] b = refl
sent-ask_for (x ∷ bs) b = refl

pub receive_flooded_block-IsQuiet :
    (m m' : ChainManager) (b : Block) (signals : List Signal)
    → receive_flooded_block m b ≡ goes m' signals
    → IsQuiet m m' signals
unfolding receive_flooded_block
receive_flooded_block-IsQuiet m m' b signals e = record {
  same = ground arith;
  silent = ground (arith, sent-ask_for m.replay_queue b);
  bounded =
      λ w. ground (arith, length-append m.add_queue (b ∷ []), length-append m.received (b ∷ []));
}

send_received-IsQuiet :
    (m m' : ChainManager) (b : Block) (signals : List Signal)
    → send_received m b ≡ goes m' signals
    → IsQuiet m m' signals
unfolding send_received
send_received-IsQuiet m m' b signals e = record {
  same = ground arith;
  silent = ground arith;
  bounded = λ w. ground (arith, length-append m.received (b ∷ []));
}

-- Two steps in a row, the first of which sent nothing.
IsQuiet-trans :
    (m m' m'' : ChainManager) (s t : List Signal)
    → IsQuiet m m' s
    → IsQuiet m' m'' t
    → IsQuiet m m'' t
IsQuiet-trans m m' m'' s t p q = record {
  same = q.same ∙ p.same;
  silent = q.silent;
  bounded = λ w. q.bounded (p.bounded w);
}

pub goes-inj : (m m' : ChainManager) (s t : List Signal) → goes m s ≡ goes m' t → (m ≡ m') × (s ≡ t)
goes-inj m m' s t e = (cc, cc)

Quietly : ChainManager → ChainManager → List Signal → Type 0
Quietly m m' signals = IsQuiet m m' signals × (m'.replay_queue ≡ m.replay_queue)

replay_queue-send_received :
    (m m' : ChainManager) (b : Block) (signals : List Signal)
    → send_received m b ≡ goes m' signals
    → m'.replay_queue ≡ m.replay_queue
unfolding send_received
replay_queue-send_received m m' b signals e = ground arith

then_all :
    (m m' : ChainManager) (b : Block) (bs : List Block) (signals : List Signal) (t : Turn)
    → send_received m b ≡ t
    → ((m1 : ChainManager) → send_all m1 bs ≡ goes m' signals → Quietly m1 m' signals)
    → ◌≡◌ {A = Turn}
        (elim t [ goes m1 s ↦ send_all m1 bs | blocks ↦ blocks | panics ↦ panics | spins ↦ spins ])
        (goes m' signals)
    → Quietly m m' signals
unfolding Quietly
then_all m m' b bs signals (goes m1 s) run rest e =
    let (quiet, kept) = rest m1 e in
    (
      IsQuiet-trans m m1 m' s signals (send_received-IsQuiet m m1 b s run) quiet,
      kept ∙ replay_queue-send_received m m1 b s run,
    )
then_all m m' b bs signals blocks run rest e = cc
then_all m m' b bs signals panics run rest e = cc
then_all m m' b bs signals spins run rest e = cc

send_all-IsQuiet :
    (m m' : ChainManager) (bs : List Block) (signals : List Signal)
    → send_all m bs ≡ goes m' signals
    → Quietly m m' signals
unfolding send_all Quietly
send_all-IsQuiet m m' [] signals e =
    let (is, none_sent) = goes-inj m m' [] signals e in
    (
      record {
        same = ap (λ t. t.blockchain) (sym is);
        silent = ap sent (sym none_sent);
        bounded = λ w. subst IsBounded is w;
      },
      ap (λ t. t.replay_queue) (sym is),
    )
send_all-IsQuiet m m' (b ∷ bs) signals e =
    then_all m m' b bs signals (send_received m b) refl (λ m1. send_all-IsQuiet m1 m' bs signals) e

awaited_all-IsQuiet : (m : ChainManager) (bs : List Block) → IsQuiet m (foldl awaited m bs) []
awaited_all-IsQuiet m [] = record { same = refl; silent = refl; bounded = λ w. w }
awaited_all-IsQuiet m (b ∷ bs) =
    let q = awaited_all-IsQuiet (awaited m b) bs in
    record {
      same = q.same;
      silent = refl;
      bounded = λ w. q.bounded (record { to_add = w.to_add; to_receive = w.to_receive });
    }

emptied-goes :
    (t : Turn) (m' : ChainManager) (signals : List Signal)
    → emptied t ≡ goes m' signals
    → (m1 : ChainManager) × (t ≡ goes m1 signals) × (m' ≡ record m1 { replay_queue = [] })
emptied-goes (goes m s) m' signals e =
    let (is, same) = goes-inj (record m { replay_queue = [] }) m' s signals e in
    (m, ap (goes m) same, sym is)
emptied-goes blocks m' signals e = cc
emptied-goes panics m' signals e = cc
emptied-goes spins m' signals e = cc

-- The replay of downloaded blocks leaves no block in the replay queue.
pub replay_downloaded-IsQuiet :
    (m m' : ChainManager) (bs : List Block) (signals : List Signal)
    → replay_downloaded m bs ≡ goes m' signals
    → IsQuiet m m' signals × (m'.replay_queue ≡ [])
unfolding replay_downloaded Quietly
replay_downloaded-IsQuiet m m' bs signals e = elim (List-cases m.replay_queue) [
  | inl empty ↦ absurd (cc (rw (empty, replay_downloaded, replay_from) at e))
  | inr (b, rest, full) ↦
      let (m1, run, is) =
        emptied-goes (send_all (foldl awaited m bs) (bs ++ (b ∷ rest))) m' signals
          (rw (full, replay_downloaded, replay_from) at e) in
      let (quiet, _) = send_all-IsQuiet (foldl awaited m bs) m1 (bs ++ (b ∷ rest)) signals run in
      let q = IsQuiet-trans m (foldl awaited m bs) m1 [] signals (awaited_all-IsQuiet m bs) quiet in
      (
        record {
          same = ap (λ t. t.blockchain) is ∙ q.same;
          silent = q.silent;
          bounded = λ w.
              let x = q.bounded w in
              subst IsBounded (sym is) (record { to_add = x.to_add; to_receive = x.to_receive });
        },
        ap (λ t. t.replay_queue) is,
      )
]

-- Two downloads in a row: the first empties the replay queue, and the second then reads its first
-- entry. Whatever was downloaded, the goroutine panics.
pub replay_downloaded_twice :
    (m m' : ChainManager) (bs cs : List Block) (signals : List Signal)
    → replay_downloaded m bs ≡ goes m' signals
    → replay_downloaded m' cs ≡ panics
unfolding replay_downloaded
replay_downloaded_twice m m' bs cs signals e =
    ap (replay_from m' cs) (replay_downloaded-IsQuiet m m' bs signals e).1

-- If the blocks that a peer sends make up a tree, then synchronising returns, replaces the chain by a
-- tree that holds exactly those blocks, with the miner's own settings, and says so to the caller.
pub synchronize_returns :
    (range : Order ℕ) (m : ChainManager) (peer_blocks : List Block) (root : Block)
    → IsRange range
    → IsTree peer_blocks root
    → (m' : ChainManager) × (synchronize range m peer_blocks ≡ goes m' (synchronized ∷ []))
      × Holds peer_blocks m'.blockchain
      × (m'.blockchain.config ≡ m.config)
unfolding synchronize after_unmarshall
synchronize_returns range m peer_blocks root perm t =
    let (bc, run, h) = unmarshall_blockchain_returns peer_blocks root t range perm in
    let l = h.linked in
    (
      record m { blockchain = record bc { config = m.config } },
      ap (after_unmarshall m) run,
      record {
        contents = h.contents;
        listed = h.listed;
        mapped = h.mapped;
        linked = record { rooted = l.rooted; orphan = l.orphan; hung = l.hung; spread = l.spread };
        above = h.above;
        lost = h.lost;
        sized = h.sized;
        distinct = h.distinct;
      },
      refl,
    )

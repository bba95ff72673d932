-- ===== src/P2p/Node/Sends.antt =====
-- Which blocks a miner hands to its peers.
use miner.Prelude.{
  ◌≡◌, refl, ◌⊎◌, inl, inr, Option, some, List, [], ◌∷◌, map, arith, In, In-append_cases, sym, ap,
  subst,
}
use miner.Prelude.Bytes.{Bytes}
use miner.Prelude.GoMap.{get}
use miner.Prelude.Perms.{IsRange}
use miner.Operation.{Operation, Order, Codec}
use miner.Block.{Block}
use miner.Blockchain.{Blockchain}
use miner.Blockchain.Shape.{IsValid}
use miner.Blockchain.Soundness.{IsSound}
use miner.Blockchain.Queries.{get_block}
use miner.P2p.Manager.{ChainManager, Signal}
use miner.P2p.Manager.Handlers.{sent}
use miner.P2p.Manager.Steps.{Step, Step-Keeps}
use miner.P2p.Peers.{
  Directory, Action, start_mining, have_peers, flooded, downloaded, send_block, send_op,
  request_blocks, hang_up, FloodOpReq, senders, request_all, download_prev_blocks, block_targets,
  flood_block, op_targets, next_req, flood_operation, mine_on, remove_peer, add_peer, receive_block,
}
use miner.P2p.Node.{Node, new_node, IsElsewhere}
use miner.P2p.Node.Steps.{
  NodeStep, takes_received, takes_added, takes_downloaded, takes_block, takes_request, takes_leave,
  joins, leaves, receives, floods, mined, arrives, told_server, hands_over, elsewhere, NodeRuns,
  begins, then_step,
}

-- The blocks among some actions.
abbrev pub handed : List Action → List Block
handed [] = []
handed (send_block id b ∷ actions) = b ∷ handed actions
handed (start_mining ∷ actions) = handed actions
handed (have_peers h ∷ actions) = handed actions
handed (flooded b ∷ actions) = handed actions
handed (downloaded bs ∷ actions) = handed actions
handed (send_op id req ∷ actions) = handed actions
handed (request_blocks id hash ∷ actions) = handed actions
handed (hang_up id ∷ actions) = handed actions

handed-flood_block :
    (ids : List Bytes) (b x : Block) → In x (handed (map (λ id. send_block id b) ids)) → x ≡ b
handed-flood_block [] b x i = absurd i
handed-flood_block (id ∷ ids) b x (inl e) = e
handed-flood_block (id ∷ ids) b x (inr i) = handed-flood_block ids b x i

handed-flood_operation :
    (ids : List Bytes) (req : FloodOpReq) → handed (map (λ id. send_op id req) ids) ≡ []
handed-flood_operation [] req = refl
handed-flood_operation (id ∷ ids) req = handed-flood_operation ids req

handed-request_all :
    (answers : Bytes → Option (List Block)) (d : Directory) (b : Block) (ids : List Bytes)
    → handed (request_all answers d b ids) ≡ []
unfolding request_all
handed-request_all answers d b [] = refl
handed-request_all answers d b (id ∷ ids) = ground (arith, handed-request_all answers d b ids)

handed-remove_peer : (d : Directory) (id : Bytes) → handed (remove_peer d id).1 ≡ []
unfolding remove_peer
handed-remove_peer d id = ground arith

handed-mine_on : (d : Directory) → handed (mine_on d) ≡ []
unfolding mine_on
handed-mine_on d = ground arith

handed-IsElsewhere :
    (a : Action) (rest : List Action) → IsElsewhere a → handed (a ∷ rest) ≡ handed rest
handed-IsElsewhere start_mining rest h = refl
handed-IsElsewhere (have_peers b) rest h = refl
handed-IsElsewhere (send_op id req) rest h = refl
handed-IsElsewhere (request_blocks id hash) rest h = refl
handed-IsElsewhere (hang_up id) rest h = refl
handed-IsElsewhere (flooded b) rest h = refl
handed-IsElsewhere (downloaded bs) rest h = refl
handed-IsElsewhere (send_block id b) rest h = absurd h

abbrev pub Known : Blockchain → Block → Type 0
Known bc b = get_block bc b.hash ≡ some b

-- The chain is good, and it has every block that is on the way to the peers or has been handed over.
pub record Inv (n : Node) : Type 0 where
  pub valid : IsValid n.manager.blockchain
  pub sound : IsSound n.manager.blockchain
  pub sending : (b : Block) → In b (sent n.to_send) → Known n.manager.blockchain b
  pub handing : (b : Block) → In b (handed n.to_do) → Known n.manager.blockchain b
  pub gone : (id : Bytes) (b : Block) → In (id, b) n.out → Known n.manager.blockchain b

-- The two goroutines' sends change and the chain stays.
moves :
    (n n' : Node)
    → n'.manager.blockchain ≡ n.manager.blockchain
    → ((b : Block) → In b (sent n'.to_send) → In b (sent n.to_send))
    → ((b : Block) → In b (handed n'.to_do) → In b (handed n.to_do) ⊎ In b (sent n.to_send))
    → ((id : Bytes) (b : Block) → In (id, b) n'.out → In (id, b) n.out ⊎ In b (handed n.to_do))
    → Inv n
    → Inv n'
moves n n' same f g h v = record {
  valid = subst IsValid (sym same) v.valid;
  sound = subst IsSound (sym same) v.sound;
  sending = λ b i. subst (λ t. Known t b) (sym same) (v.sending b (f b i));
  handing = λ b i.
      subst (λ t. Known t b) (sym same)
        (elim (g b i) [ inl old ↦ v.handing b old | inr new ↦ v.sending b new ]);
  gone = λ id b i.
      subst (λ t. Known t b) (sym same)
        (elim (h id b i) [ inl old ↦ v.gone id b old | inr new ↦ v.handing b new ]);
}

module _ (c : Codec) (range range' : Order Operation) (perm : IsRange range)
    (perm' : IsRange range') where
  -- A case of the manager.
  turns :
      (n : Node) (m' : ChainManager) (signals : List Signal) (actions : List Action)
      → Step c range range' perm perm' n.manager signals m'
      → ((b : Block) → In b (handed actions) → In b (handed n.to_do))
      → Inv n
      → Inv (record n { manager = m'; to_send = signals; to_do = actions })
  turns n m' signals actions st f v =
      let k = Step-Keeps c range range' perm perm' n.manager m' signals v.valid v.sound st in
      record {
        valid = k.valid;
        sound = k.sound;
        sending = k.sends;
        handing = λ b i. k.knows b.hash b (v.handing b (f b i));
        gone = λ id b i. k.knows b.hash b (v.gone id b i);
      }

  NodeStep-Inv : (n n' : Node) → NodeStep c range range' n n' → Inv n → Inv n'
  unfolding flood_block flood_operation download_prev_blocks add_peer receive_block
  NodeStep-Inv n _ (takes_received b rest {signals} {m'} e q run) v =
      turns n m' signals n.to_do (Step.takes_received b rest q run) (λ b i. i) v
  NodeStep-Inv n _ (takes_added b rest {signals} {m'} e q run) v =
      turns n m' signals n.to_do (Step.takes_added b rest q run) (λ b i. i) v
  NodeStep-Inv n _ (takes_downloaded bs rest {signals} {m'} e q run) v =
      turns n m' signals rest (Step.takes_download bs run)
        (λ b i. subst (λ t. In b (handed t)) (sym q) i) v
  NodeStep-Inv n _ (takes_block order b rest e q) v =
      moves n _ refl (λ x i. subst (λ t. In x (sent t)) (sym e) (inr i))
        (λ x i. inr (
          subst (λ t. In x (sent t)) (sym e)
            (inl (handed-flood_block (block_targets order n.directory b) b x i))))
        (λ id x i. inl i) v
  NodeStep-Inv n _ (takes_request answers b rest e q) v =
      moves n _ refl (λ x i. subst (λ t. In x (sent t)) (sym e) i)
        (λ x i. absurd (
          subst (In x)
            (handed-request_all answers n.directory b
              (senders (get n.directory.blocks_to_peers b.hash)))
            i))
        (λ id x i. inl i) v
  NodeStep-Inv n _ (takes_leave rest e q) v =
      moves n _ refl (λ x i. subst (λ t. In x (sent t)) (sym e) i)
        (λ x i. absurd (subst (In x) (handed-mine_on n.directory) i)) (λ id x i. inl i) v
  NodeStep-Inv n _ (joins id q) v = moves n _ refl (λ x i. i) (λ x i. absurd i) (λ id x i. inl i) v
  NodeStep-Inv n _ (leaves id q) v =
      moves n _ refl (λ x i. i) (λ x i. absurd (subst (In x) (handed-remove_peer n.directory id) i))
        (λ id x i. inl i) v
  NodeStep-Inv n _ (receives id b q) v =
      moves n _ refl (λ x i. i) (λ x i. absurd i) (λ id x i. inl i) v
  NodeStep-Inv n _ (floods o o' o'' id req q) v =
      moves n _ refl (λ x i. i)
        (λ x i. absurd (
          subst (In x)
            (handed-flood_operation (op_targets o n.directory req)
              (next_req o' o'' n.directory id req))
            i))
        (λ id x i. inl i) v
  NodeStep-Inv n _ (mined b lt) v = moves n _ refl (λ x i. i) (λ x i. inl i) (λ id x i. inl i) v
  NodeStep-Inv n _ (arrives b rest e lt) v =
      moves n _ refl (λ x i. i) (λ x i. inl (subst (λ t. In x (handed t)) (sym e) i))
        (λ id x i. inl i) v
  NodeStep-Inv n _ (told_server rest e) v =
      moves n _ refl (λ x i. subst (λ t. In x (sent t)) (sym e) i) (λ x i. inl i) (λ id x i. inl i)
        v
  NodeStep-Inv n _ (hands_over id b rest e) v =
      moves n _ refl (λ x i. i) (λ x i. inl (subst (λ t. In x (handed t)) (sym e) (inr i)))
        (λ j x i. elim (In-append_cases (j, x) n.out ((id, b) ∷ []) i) [
          | inl old ↦ inl old
          | inr new ↦ inr (
              subst (λ t. In x (handed t)) (sym e)
                (elim new [ inl is ↦ inl (ap (λ (y : Bytes × Block). y.1) is) | inr z ↦ absurd z ]))
        ])
        v
  NodeStep-Inv n _ (elsewhere a rest e h) v =
      moves n _ refl (λ x i. i)
        (λ x i. inl (
          subst (λ t. In x (handed t)) (sym e)
            (subst (In x) (sym (handed-IsElsewhere a rest h)) i)))
        (λ id x i. inl i) v

  NodeRuns-Inv : (n n' : Node) → NodeRuns c range range' n n' → Inv n → Inv n'
  NodeRuns-Inv n _ begins v = v
  NodeRuns-Inv n _ (then_step {n'} {n''} r st) v = NodeStep-Inv n' n'' st (NodeRuns-Inv n n' r v)

  -- From a miner whose chain is valid and sound and that has nothing to send, between two
  -- synchronisations, with the goroutines taking their messages in any order: every block that has
  -- been handed to a peer is in the chain under its hash.
  pub handed_is_known :
      (m : ChainManager) (d : Directory) (n' : Node) (id : Bytes) (b : Block)
      → IsValid m.blockchain
      → IsSound m.blockchain
      → NodeRuns c range range' (new_node m d) n'
      → In (id, b) n'.out
      → get_block n'.manager.blockchain b.hash ≡ some b
  handed_is_known m d n' id b v h r i =
      (NodeRuns-Inv (new_node m d) n' r (record {
        valid = v;
        sound = h;
        sending = λ b i. absurd i;
        handing = λ b i. absurd i;
        gone = λ id b i. absurd i;
      })).gone
        id b i

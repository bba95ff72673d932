-- ===== src/P2p/Manager/Steps.antt =====
-- The cases of the chain manager's select as a step relation, and what one step keeps.
use miner.Prelude.{
  ◌<◌, ◌≡◌, refl, inl, inr, Option, none, some, List, [], ◌∷◌, ◌++◌, length, length-append, arith,
  In, ◌∙◌, sym, ap, subst, if_pos, if_neg,
}
use miner.Prelude.Bytes.{Bytes, dec_bytes}
use miner.Prelude.Perms.{IsRange}
use miner.Operation.{Operation, Order, Codec}
use miner.Block.{Block}
use miner.Blockchain.{Blockchain}
use miner.Blockchain.Shape.{IsValid}
use miner.Blockchain.Queries.{get_block}
use miner.Blockchain.Add.{Added, added, refused, loops, add_block}
use miner.Blockchain.Add.Outcome.{add_block-IsValid, get_block-add_block, add_block-Admission}
use miner.Blockchain.Longest.{get_last_hash}
use miner.Blockchain.Soundness.{IsSound}
use miner.Blockchain.Soundness.Extend.{add_block-IsSound}
use miner.Blockchain.Soundness.Kept.{last_node-IsValid, last_node-IsSound, get_last_hash-tree}
use miner.P2p.Manager.{
  ChainManager, Signal, new_block_added, send, continue_mining, goes, add_capacity,
  received_capacity, receive_flooded_block, replay_downloaded, announce, after_add,
  add_queued_block,
}
use miner.P2p.Manager.Handlers.{
  sent, goes-inj, IsBounded, IsQuiet, receive_flooded_block-IsQuiet, replay_downloaded-IsQuiet,
}

module _ (c : Codec) (range range' : Order Operation) (perm : IsRange range)
    (perm' : IsRange range') where
  pub data Step (m : ChainManager) : List Signal → ChainManager → Type 0 where
    arrives :
        (b : Block)
        → length m.received < received_capacity
        → Step m [] (record m { received = m.received ++ b ∷ [] })
    mined :
        (b : Block)
        → length m.add_queue < add_capacity
        → Step m [] (record m { add_queue = m.add_queue ++ b ∷ [] })
    takes_received :
        (b : Block) (rest : List Block) {signals : List Signal} {m' : ChainManager}
        → m.received ≡ b ∷ rest
        → receive_flooded_block (record m { received = rest }) b ≡ goes m' signals
        → Step m signals m'
    takes_download :
        (bs : List Block) {signals : List Signal} {m' : ChainManager}
        → replay_downloaded m bs ≡ goes m' signals
        → Step m signals m'
    takes_added :
        (b : Block) (rest : List Block) {signals : List Signal} {m' : ChainManager}
        → m.add_queue ≡ b ∷ rest
        → add_queued_block c range range' (record m { add_queue = rest }) b ≡ goes m' signals
        → Step m signals m'

  -- What a step keeps: the chain is good, and what it knew it still knows; what is sent it knows.
  pub record Keeps (m m' : ChainManager) (signals : List Signal) : Type 0 where
    pub valid : IsValid m'.blockchain
    pub sound : IsSound m'.blockchain
    pub knows :
        (k : Bytes) (b : Block)
        → get_block m.blockchain k ≡ some b
        → get_block m'.blockchain k ≡ some b
    pub sends : (b : Block) → In b (sent signals) → get_block m'.blockchain b.hash ≡ some b
    pub bounded : IsBounded m → IsBounded m'

  module _ (m : ChainManager) (v : IsValid m.blockchain) (h : IsSound m.blockchain) where
    quiet-Keeps :
        (m' : ChainManager) (signals : List Signal) → IsQuiet m m' signals → Keeps m m' signals
    quiet-Keeps m' signals q = record {
      valid = subst IsValid (sym q.same) v;
      sound = subst IsSound (sym q.same) h;
      knows = λ k b e. ap (λ t. get_block t k) q.same ∙ e;
      sends = λ b i. absurd (subst (In b) q.silent i);
      bounded = q.bounded;
    }

    -- The chain with the block added, and with the new `lastNode`.
    grown-Keeps :
        (b : Block) (bc bc' : Blockchain) (hash : Bytes)
        → add_block c range range' m.blockchain b ≡ added bc
        → get_last_hash bc ≡ some (bc', hash)
        → Keeps m (record m { blockchain = bc' }) (new_block_added ∷ send b ∷ continue_mining ∷ [])
    unfolding get_block
    grown-Keeps b bc bc' hash run last =
        let same = get_last_hash-tree bc bc' hash last in
        let old = λ (k : Bytes). get_block-add_block c range range' m.blockchain b bc k v run in
        let fresh = (add_block-Admission c range range' m.blockchain b bc run).fresh in
        let new = λ (k : Bytes). ap (λ t. get_block t k) same ∙ (old k).0 in
        record {
          valid = subst IsValid (sym same) (
              last_node-IsValid bc bc'.last_node
                (add_block-IsValid c range range' m.blockchain b bc v run));
          sound = subst IsSound (sym same) (
              last_node-IsSound bc bc'.last_node
                (add_block-IsSound c range range' perm perm' m.blockchain bc b v h run));
          knows = λ k x e. elim (dec_bytes b.hash k) [
            | yes is ↦
                let unknown : get_block m.blockchain k ≡ none = rw (← is, get_block, fresh) in
                absurd (cc (sym unknown ∙ e))
            | no ne ↦ new k ∙ if_neg (dec_bytes b.hash k) ne _ _ ∙ e
          ];
          sends = λ x i. elim i [
            | inl is ↦
                subst (λ t. get_block bc' t.hash ≡ some t) (sym is)
                  (new b.hash ∙ if_pos (dec_bytes b.hash b.hash) refl _ _)
            | inr z ↦ absurd z
          ];
          bounded = λ w. record { to_add = w.to_add; to_receive = w.to_receive };
        }

    announce-Keeps :
        (b : Block) (bc : Blockchain) (m' : ChainManager) (signals : List Signal)
        (r : Option (Blockchain × Bytes))
        → add_block c range range' m.blockchain b ≡ added bc
        → get_last_hash bc ≡ r
        → announce m b r ≡ goes m' signals
        → Keeps m m' signals
    announce-Keeps b bc m' signals none run last e = cc
    announce-Keeps b bc m' signals (some (bc', hash)) run last e =
        let (is, same) = goes-inj (record m { blockchain = bc' }) m' _ signals e in
        subst (λ t. Keeps m m' t) same
          (subst (λ t. Keeps m t (new_block_added ∷ send b ∷ continue_mining ∷ [])) is
            (grown-Keeps b bc bc' hash run last))

    -- The call of `AddBlock` and what follows it.
    after_add-Keeps :
        (b : Block) (m' : ChainManager) (signals : List Signal) (r : Added)
        → add_block c range range' m.blockchain b ≡ r
        → after_add m b r ≡ goes m' signals
        → Keeps m m' signals
    unfolding after_add
    after_add-Keeps b m' signals (added bc) run e =
        announce-Keeps b bc m' signals (get_last_hash bc) run refl e
    after_add-Keeps b m' signals (refused x) run e =
        let (is, same) = goes-inj m m' (continue_mining ∷ []) signals e in
        quiet-Keeps m' signals (record {
          same = ap (λ t. t.blockchain) (sym is);
          silent = ap sent (sym same);
          bounded = λ w. subst IsBounded is w;
        })
    after_add-Keeps b m' signals loops run e = cc

  -- Taking the first message off a queue.
  fewer-IsBounded :
      (m : ChainManager) (b : Block) (rest : List Block)
      → m.received ≡ b ∷ rest
      → IsBounded m
      → IsBounded (record m { received = rest })
  fewer-IsBounded m b rest e w = record {
    to_add = w.to_add;
    to_receive = omega (arith, w.to_receive, ap length e);
  }

  fewer_added-IsBounded :
      (m : ChainManager) (b : Block) (rest : List Block)
      → m.add_queue ≡ b ∷ rest
      → IsBounded m
      → IsBounded (record m { add_queue = rest })
  fewer_added-IsBounded m b rest e w = record {
    to_add = omega (arith, w.to_add, ap length e);
    to_receive = w.to_receive;
  }

  -- The message was taken off a queue first, which the chain does not see.
  after_take :
      (m m0 m' : ChainManager) (signals : List Signal)
      → m0.blockchain ≡ m.blockchain
      → (IsBounded m → IsBounded m0)
      → Keeps m0 m' signals
      → Keeps m m' signals
  after_take m m0 m' signals e fewer k = record {
    valid = k.valid;
    sound = k.sound;
    knows = λ x b known. k.knows x b (ap (λ t. get_block t x) e ∙ known);
    sends = k.sends;
    bounded = λ w. k.bounded (fewer w);
  }

  pub Step-Keeps :
      (m m' : ChainManager) (signals : List Signal)
      → IsValid m.blockchain
      → IsSound m.blockchain
      → Step m signals m'
      → Keeps m m' signals
  unfolding add_queued_block
  Step-Keeps m _ _ v h (arrives b lt) = quiet-Keeps m v h _ [] (record {
    same = refl;
    silent = refl;
    bounded = λ w. record {
      to_add = w.to_add;
      to_receive = omega (arith, length-append m.received (b ∷ []));
    };
  })
  Step-Keeps m _ _ v h (mined b lt) = quiet-Keeps m v h _ [] (record {
    same = refl;
    silent = refl;
    bounded = λ w. record {
      to_add = omega (arith, length-append m.add_queue (b ∷ []));
      to_receive = w.to_receive;
    };
  })
  Step-Keeps m m' signals v h (takes_received b rest e run) =
      let m0 : ChainManager = record m { received = rest } in
      after_take m m0 m' signals refl (fewer-IsBounded m b rest e)
        (quiet-Keeps m0 v h m' signals (receive_flooded_block-IsQuiet m0 m' b signals run))
  Step-Keeps m m' signals v h (takes_download bs run) =
      quiet-Keeps m v h m' signals (replay_downloaded-IsQuiet m m' bs signals run).0
  Step-Keeps m m' signals v h (takes_added b rest e run) =
      let m0 : ChainManager = record m { add_queue = rest } in
      after_take m m0 m' signals refl (fewer_added-IsBounded m b rest e)
        (after_add-Keeps m0 v h b m' signals (add_block c range range' m0.blockchain b) refl run)

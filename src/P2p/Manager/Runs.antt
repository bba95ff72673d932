-- ===== src/P2p/Manager/Runs.antt =====
-- The chain manager between two synchronisations: blocks arrive from peers and from the miner, and the
-- goroutine takes one message at a time, in any order.
use miner.Prelude.{◌≡◌, inl, inr, some, List, [], ◌++◌, In, In-append_cases, subst}
use miner.Prelude.Bytes.{Bytes}
use miner.Prelude.Perms.{IsRange}
use miner.Operation.{Operation, Order, Codec}
use miner.Block.{Block}
use miner.Blockchain.Shape.{IsValid}
use miner.Blockchain.Queries.{get_block}
use miner.Blockchain.Soundness.{IsSound}
use miner.P2p.Manager.{ChainManager, Signal}
use miner.P2p.Manager.Steps.{Step, Keeps, Step-Keeps}
use miner.P2p.Manager.Handlers.{sent, sent-append, IsBounded}

module _ (c : Codec) (range range' : Order Operation) (perm : IsRange range)
    (perm' : IsRange range') where
  -- What a run has sent, the oldest first.
  pub data Runs (m : ChainManager) : List Signal → ChainManager → Type 0 where
    here : Runs m [] m
    next :
        {m' m'' : ChainManager} {signals more : List Signal}
        → Runs m signals m'
        → Step c range range' perm perm' m' more m''
        → Runs m (signals ++ more) m''

  Keeps-trans :
      (m m' m'' : ChainManager) (s t : List Signal)
      → Keeps c range range' perm perm' m m' s
      → Keeps c range range' perm perm' m' m'' t
      → Keeps c range range' perm perm' m m'' (s ++ t)
  Keeps-trans m m' m'' s t p q = record {
    valid = q.valid;
    sound = q.sound;
    knows = λ k b e. q.knows k b (p.knows k b e);
    sends = λ b i. elim (In-append_cases b (sent s) (sent t) (subst (In b) (sent-append s t) i)) [
      | inl early ↦ q.knows b.hash b (p.sends b early)
      | inr late ↦ q.sends b late
    ];
    bounded = λ w. q.bounded (p.bounded w);
  }

  -- Induction on the run.
  pub Runs-Keeps :
      (m m' : ChainManager) (signals : List Signal)
      → IsValid m.blockchain
      → IsSound m.blockchain
      → Runs m signals m'
      → Keeps c range range' perm perm' m m' signals
  Runs-Keeps m _ _ v h here = record {
    valid = v;
    sound = h;
    knows = λ k b e. e;
    sends = λ b i. absurd i;
    bounded = λ w. w;
  }
  Runs-Keeps m _ _ v h (next {m'} {m''} {signals} {more} r st) =
      let k = Runs-Keeps m m' signals v h r in
      Keeps-trans m m' m'' signals more k
        (Step-Keeps c range range' perm perm' m' m'' more k.valid k.sound st)

  -- From a chain that is valid and sound, between two synchronisations, in whatever order
  -- messages arrive and are taken, the chain of the manager stays valid and sound.
  Runs-IsSound :
      (m m' : ChainManager) (signals : List Signal)
      → IsValid m.blockchain
      → IsSound m.blockchain
      → Runs m signals m'
      → IsValid m'.blockchain × IsSound m'.blockchain
  Runs-IsSound m m' signals v h r = let k = Runs-Keeps m m' signals v h r in (k.valid, k.sound)

  -- From a chain that is valid and sound, every block that a run has sent to the peers is, at
  -- the end of the run, in the chain under its hash.
  sent_is_known :
      (m m' : ChainManager) (signals : List Signal) (b : Block)
      → IsValid m.blockchain
      → IsSound m.blockchain
      → Runs m signals m'
      → In b (sent signals)
      → get_block m'.blockchain b.hash ≡ some b
  sent_is_known m m' signals b v h r i = (Runs-Keeps m m' signals v h r).sends b i

  -- From a chain that is valid and sound, a block that the chain knew before a run it knows
  -- after the run, under the same hash.
  known_stays_known :
      (m m' : ChainManager) (signals : List Signal) (hash : Bytes) (b : Block)
      → IsValid m.blockchain
      → IsSound m.blockchain
      → Runs m signals m'
      → get_block m.blockchain hash ≡ some b
      → get_block m'.blockchain hash ≡ some b
  known_stays_known m m' signals hash b v h r e = (Runs-Keeps m m' signals v h r).knows hash b e

  -- A run keeps both channels within their capacities.
  pub Runs-IsBounded :
      (m m' : ChainManager) (signals : List Signal)
      → IsValid m.blockchain
      → IsSound m.blockchain
      → IsBounded m
      → Runs m signals m'
      → IsBounded m'
  Runs-IsBounded m m' signals v h w r = (Runs-Keeps m m' signals v h r).bounded w

-- ===== src/P2p/Manager/Network.antt =====
-- The chains that miners can reach when they also synchronise with each other. The blocks that
-- `DialPeer` carries are those of a chain that the peer had at some time before.
use miner.Prelude.{ℕ, ◌≡◌, refl, List, [], ◌∷◌, sym, ◌∙◌, subst}
use miner.Prelude.Bytes.{Bytes}
use miner.Prelude.Int.{ℤ}
use miner.Prelude.Perms.{IsRange}
use miner.Settings.{Settings}
use miner.Operation.{Operation, Order, Codec}
use miner.Block.{Block}
use miner.Blockchain.{Blockchain, new_blockchain}
use miner.Blockchain.Shape.{IsValid}
use miner.Blockchain.Soundness.{IsSound}
use miner.Blockchain.Soundness.Genesis.{new_blockchain-IsValid, new_blockchain-IsSound}
use miner.Blockchain.Queries.{get_blocks}
use miner.Blockchain.Validation.Balances.{spent, spent_ops, earned}
use miner.Blockchain.Unmarshall.Sync.{IsNamed, get_blocks-IsTree}
use miner.Blockchain.Unmarshall.Rebuilt.{Holds-IsValid, Holds-IsSound}
use miner.P2p.Manager.{ChainManager, Signal, goes, synchronized, new_chain_manager, synchronize}
use miner.P2p.Manager.Handlers.{synchronize_returns}
use miner.P2p.Manager.Steps.{Step, Step-Keeps}

-- What operations cost and what blocks earn.
pub record SamePrices (s t : Settings) : Type 0 where
  pub create : s.num_coins_per_file_create ≡ t.num_coins_per_file_create
  pub op_block : s.mined_coins_per_op_block ≡ t.mined_coins_per_op_block
  pub no_op_block : s.mined_coins_per_no_op_block ≡ t.mined_coins_per_no_op_block

module _ (s t : Settings) (p : SamePrices s t) (miner : Bytes) where
  spent_ops-SamePrices : (ops : List Operation) → spent_ops s miner ops ≡ spent_ops t miner ops
  unfolding spent_ops
  spent_ops-SamePrices [] = refl
  spent_ops-SamePrices (o ∷ ops) = rw (p.create, spent_ops-SamePrices ops) refl

  spent-SamePrices : (bs : List Block) → spent s miner bs ≡ spent t miner bs
  unfolding spent
  spent-SamePrices [] = refl
  spent-SamePrices (b ∷ bs) = rw (spent_ops-SamePrices b.operations, spent-SamePrices bs) refl

  earned-SamePrices : (bs : List Block) → earned s miner bs ≡ earned t miner bs
  unfolding earned
  earned-SamePrices [] = refl
  earned-SamePrices (b ∷ bs) = rw (p.op_block, p.no_op_block, earned-SamePrices bs) refl

-- Soundness under other settings with the same prices.
IsSound-SamePrices :
    (bc : Blockchain) (s : Settings)
    → SamePrices bc.config s
    → IsSound bc
    → IsSound (record bc { config = s })
IsSound-SamePrices bc s p h = record {
  solvent = λ miner a bs c.
      rw (← spent-SamePrices bc.config s p miner bs, ← earned-SamePrices bc.config s p miner bs)
        (h.solvent miner a bs c);
  unique = h.unique;
}

module _ (c : Codec) where
  pub data Reached : ChainManager → Type 0 where
    starts :
        (config : Settings) (now : ℤ)
        → Reached (new_chain_manager (new_blockchain config now) config)
    steps :
        {m m' : ChainManager} {signals : List Signal} (range range' : Order Operation)
        (perm : IsRange range) (perm' : IsRange range')
        → Reached m
        → Step c range range' perm perm' m signals m'
        → Reached m'
    synchronizes :
        {m m' peer : ChainManager} {signals : List Signal} (order order' : Order ℕ)
        → IsRange order
        → IsRange order'
        → Reached m
        → Reached peer
        → IsNamed peer.blockchain
        → SamePrices peer.blockchain.config m.config
        → synchronize order' m (get_blocks order peer.blockchain) ≡ goes m' signals
        → Reached m'

  abbrev IsGood : ChainManager → Type 0
  IsGood m = IsValid m.blockchain × IsSound m.blockchain

  synchronize-IsGood :
      (m m' peer : ChainManager) (signals : List Signal) (order order' : Order ℕ)
      → IsRange order
      → IsRange order'
      → IsNamed peer.blockchain
      → SamePrices peer.blockchain.config m.config
      → synchronize order' m (get_blocks order peer.blockchain) ≡ goes m' signals
      → IsGood peer
      → IsGood m'
  synchronize-IsGood m m' peer signals order order' perm perm' named prices run (v, h) =
      let (root, at, _) = v.tree.rooted in
      let (m'', run', holds, config) =
        synchronize_returns order' m (get_blocks order peer.blockchain) root.block perm'
          (get_blocks-IsTree order peer.blockchain perm v named root at) in
      let both : goes m'' (synchronized ∷ []) ≡ goes m' signals = sym run' ∙ run in
      let same : m'' ≡ m' = cc in
      subst IsGood same (
        Holds-IsValid order peer.blockchain perm v named m''.blockchain holds,
        Holds-IsSound order peer.blockchain perm v named m''.blockchain holds (
            subst (λ s. IsSound (record peer.blockchain { config = s })) (sym config)
              (IsSound-SamePrices peer.blockchain m.config prices h)),
      )

  -- Let every miner start at a genesis block, take messages in any order, and replace its chain by
  -- that of a peer, with the same prices and no block with an empty hash, which has come about in the
  -- same way. Then its tree is always valid, and on every chain of it no miner spends more coins than
  -- it earns and no operation ID occurs twice.
  pub Reached-IsSound : (m : ChainManager) → Reached m → IsValid m.blockchain × IsSound m.blockchain
  Reached-IsSound _ (starts config now) =
      (new_blockchain-IsValid config now, new_blockchain-IsSound config now)
  Reached-IsSound _ (steps {m} {m'} {signals} range range' perm perm' r st) =
      let (v, h) = Reached-IsSound m r in
      let k = Step-Keeps c range range' perm perm' m m' signals v h st in (k.valid, k.sound)
  Reached-IsSound _
        (synchronizes {m} {m'} {peer} {signals} order order' perm perm' r r' named prices run) =
      synchronize-IsGood m m' peer signals order order' perm perm' named prices run
        (Reached-IsSound peer r')

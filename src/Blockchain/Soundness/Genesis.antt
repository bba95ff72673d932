-- ===== src/Blockchain/Soundness/Genesis.antt =====
-- A new tree is valid and sound.
use miner.Prelude.{
  ℕ, zero, suc, ◌≤◌, ◌<◌, ◌≡◌, refl, none, some, List, [], ◌∷◌, arith, length, get_elem?,
}
use miner.Prelude.Int.{ℤ}
use miner.Prelude.GoMap.{get}
use miner.Settings.{Settings}
use miner.Block.{Block, new_genesis_block}
use miner.Blockchain.{Node, new_blockchain, new_node}
use miner.Blockchain.Walk.{IsChain}
use miner.Blockchain.Shape.{IsValid}
use miner.Blockchain.Validation.Balances.{spent_ops, spent}
use miner.Blockchain.Validation.Survivors.{chain_ops}
use miner.Blockchain.Soundness.{IsSound}

only_node : (n x : Node) (a : ℕ) → get_elem? (n ∷ []) a ≡ some x → (a ≡ 0) × (x ≡ n)
only_node n x zero e = (refl, ground arith)
only_node n x (suc a) e = cc

module _ (config : Settings) (now : ℤ) where
  abbrev root : Node
  root = new_node (new_genesis_block config.genesis_block_hash now) none

  pub new_blockchain-IsValid : IsValid (new_blockchain config now)
  unfolding new_blockchain get
  new_blockchain-IsValid = record {
    tree = record {
      rooted = (root, refl, refl);
      orphan = λ a n e p. (only_node root n a e).0;
      hung = λ a c n e h. absurd (rw (only_node root n a e).1 at h);
      spread = λ a n e. rw (only_node root n a e).1 tt;
    };
    mapped = λ k a e. (root, ground arith, ground arith);
    listed = λ a n e. let (z, is) = only_node root n a e in ground arith;
    linked = λ a p n e h. let (z, is) = only_node root n a e in absurd (ground arith);
    grounded = λ a below. grounded' a below;
    sized = refl;
    distinct = (λ h. h, tt);
  }
    where
      grounded' :
          (a : ℕ) → a < 1 → (bs : List Block) × IsChain (root ∷ []) (some a) bs × (length bs ≤ 1)
      grounded' zero below = (root.block ∷ [], (root, refl, refl, tt), omega arith)
      grounded' (suc a) below = absurd (omega arith)

  -- The genesis block has no operations.
  one_chain : (a : ℕ) (bs : List Block) → IsChain (root ∷ []) (some a) bs → bs ≡ root.block ∷ []
  one_chain a [] c = absurd c
  one_chain a (b ∷ []) (n, e, is, c) = let (z, same) = only_node root n a e in ground arith
  one_chain a (b ∷ b' ∷ bs) (n, e, is, c) = absurd (rw (only_node root n a e).1 at c)

  pub new_blockchain-IsSound : IsSound (new_blockchain config now)
  unfolding new_blockchain new_genesis_block spent spent_ops chain_ops
  new_blockchain-IsSound = record {
    solvent = λ miner a bs c. rw (one_chain a bs c) (omega arith);
    unique = λ a bs c. rw (one_chain a bs c) tt;
  }

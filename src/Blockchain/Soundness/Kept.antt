-- ===== src/Blockchain/Soundness/Kept.antt =====
-- `lastNode` plays no part in the shape of a tree, nor in the balances.
use miner.Prelude.{ℕ, ◌≡◌, some, List, [], ◌∷◌, Option-cases, inl, inr, arith}
use miner.Prelude.Bytes.{Bytes}
use miner.Block.{Block}
use miner.Blockchain.{Blockchain}
use miner.Blockchain.Shape.{IsValid}
use miner.Blockchain.Longest.{
  get_last_nodes, get_last_blocks, get_last_hash, read_blocks, first_hash, blocks_at,
}
use miner.Blockchain.Longest.Deepest.{get_last_nodes-IsDeepest}
use miner.Blockchain.Soundness.{IsSound}

pub last_node-IsValid :
    (bc : Blockchain) (x : ℕ) → IsValid bc → IsValid (record bc { last_node = x })
last_node-IsValid bc x v = record {
  tree = record {
    rooted = v.tree.rooted;
    orphan = v.tree.orphan;
    hung = v.tree.hung;
    spread = v.tree.spread;
  };
  mapped = v.mapped;
  listed = v.listed;
  linked = v.linked;
  grounded = v.grounded;
  sized = v.sized;
  distinct = v.distinct;
}

pub last_node-IsSound :
    (bc : Blockchain) (x : ℕ) → IsSound bc → IsSound (record bc { last_node = x })
last_node-IsSound bc x h = record { solvent = h.solvent; unique = h.unique }

-- Looking for the last hash writes `lastNode` only.
pub get_last_hash-tree :
    (bc bc' : Blockchain) (h : Bytes)
    → get_last_hash bc ≡ some (bc', h)
    → bc' ≡ record bc { last_node = bc'.last_node }
unfolding get_last_hash get_last_blocks
get_last_hash-tree bc bc' h e = elim (Option-cases (get_last_nodes bc)) [
  | inl gone ↦ absurd (cc (rw (gone, get_last_hash, get_last_blocks) at e))
  | inr ((b, found), last) ↦
      let (_, _, tree) = get_last_nodes-IsDeepest bc b found last in
      same b (blocks_at b.nodes found) tree
        (rw (last, get_last_hash, get_last_blocks, read_blocks) at e)
]
  where
    same :
        (b : Blockchain) (bs : List Block)
        → b ≡ record bc { last_node = b.last_node }
        → first_hash (some (b, bs)) ≡ some (bc', h)
        → bc' ≡ record bc { last_node = bc'.last_node }
    same b [] tree e' = cc
    same b (x ∷ bs) tree e' = let is : bc' ≡ b = ground arith in rw is tree

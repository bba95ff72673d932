-- ===== src/Blockchain/Shape.antt =====
-- The shape of a block tree: what links the map, the parents and the children.
use miner.Prelude.{ℕ, ◌≤◌, ◌<◌, ◌≡◌, none, some, List, get_elem?, length, In, IsDistinct}
use miner.Prelude.Bytes.{Bytes}
use miner.Prelude.GoMap.{get, keys}
use miner.Block.{Block}
use miner.Blockchain.{Node, Blockchain}
use miner.Blockchain.Walk.{IsChain}

-- Parents and children agree, and nobody is listed twice.
pub record IsLinked (bc : Blockchain) : Type 0 where
  pub rooted : (n : Node) × (get_elem? bc.nodes bc.genesis ≡ some n) × (n.parent ≡ none)
  pub orphan : (a : ℕ) (n : Node) → get_elem? bc.nodes a ≡ some n → n.parent ≡ none → a ≡ bc.genesis
  pub hung :
      (a c : ℕ) (n : Node)
      → get_elem? bc.nodes a ≡ some n
      → In c n.children
      → (d : Node) × (get_elem? bc.nodes c ≡ some d) × (d.parent ≡ some a)
  pub spread : (a : ℕ) (n : Node) → get_elem? bc.nodes a ≡ some n → IsDistinct n.children

pub record IsValid (bc : Blockchain) : Type 0 where
  pub tree : IsLinked bc
  pub mapped :
      (k : Bytes) (a : ℕ)
      → get bc.m k ≡ some a
      → (n : Node) × (get_elem? bc.nodes a ≡ some n) × (n.block.hash ≡ k)
  pub listed : (a : ℕ) (n : Node) → get_elem? bc.nodes a ≡ some n → get bc.m n.block.hash ≡ some a
  pub linked :
      (a p : ℕ) (n : Node)
      → get_elem? bc.nodes a ≡ some n
      → n.parent ≡ some p
      → (q : Node) × (get_elem? bc.nodes p ≡ some q)
        × (q.block.hash ≡ n.block.previous_hash)
        × In a q.children
  pub grounded :
      (a : ℕ)
      → a < length bc.nodes
      → (bs : List Block) × IsChain bc.nodes (some a) bs × (length bs ≤ length bc.nodes)
  pub sized : length bc.m ≡ length bc.nodes
  pub distinct : IsDistinct (keys bc.m)

-- ===== src/Blockchain/Queries.antt =====
-- The reads of bclib/blockchain.go that do not look for the longest chain.
use miner.Prelude.{ℕ, zero, suc, Bool, Option, none, some, List, [], ◌∷◌, get_elem?, length}
use miner.Prelude.Bytes.{Bytes}
use miner.Prelude.GoMap.{get, has}
use miner.Operation.{Order}
use miner.Block.{Block}
use miner.Blockchain.{Node, Blockchain}

abbrev pub get_size : Blockchain → ℕ
get_size bc = length bc.m

abbrev pub has_block : Blockchain → Bytes → Bool
has_block bc hash = has bc.m hash

abbrev pub block_of : Option Node → Option Block
block_of none = none
block_of (some n) = some n.block

-- The block at an address. A map value is a node, so this is `none` at a dangling address only.
abbrev pub block_at : Blockchain → Option ℕ → Option Block
block_at bc none = none
block_at bc (some a) = block_of (get_elem? bc.nodes a)

-- Go's `(Block, bool)` with `Block{}` on a miss is an option.
unfoldable pub get_block : Blockchain → Bytes → Option Block
get_block bc hash = block_at bc (get bc.m hash)

unfoldable pub collect : Blockchain → List (Bytes × ℕ) → List Block
collect bc [] = []
collect bc ((k, a) ∷ entries) = elim (get_elem? bc.nodes a) [
  | none ↦ collect bc entries
  | some n ↦ n.block ∷ collect bc entries
]

-- The blocks of the map, in the order in which `range` visits it.
unfoldable pub get_blocks : Order ℕ → Blockchain → List Block
unfolding collect
get_blocks range bc = collect bc (range bc.m)

-- `for ; node != nil && i <= numBlocks; node = node.parent`, with the rounds left.
unfoldable pub up_to : ℕ → List Node → Option ℕ → List Block
up_to zero nodes p = []
up_to (suc rounds) nodes none = []
up_to (suc rounds) nodes (some a) = elim (get_elem? nodes a) [
  | none ↦ []
  | some n ↦ n.block ∷ up_to rounds nodes n.parent
]

-- The block itself, and then the loop, which starts at the same block.
abbrev pub previous_from : List Node → ℕ → ℕ → Option Node → List Block
previous_from nodes num_blocks a none = []
previous_from nodes num_blocks a (some n) = n.block ∷ up_to num_blocks nodes (some a)

abbrev pub previous_at : List Node → ℕ → Option ℕ → List Block
previous_at nodes num_blocks none = []
previous_at nodes num_blocks (some a) = previous_from nodes num_blocks a (get_elem? nodes a)

unfoldable pub get_previous_blocks : Blockchain → Bytes → ℕ → List Block
unfolding up_to
get_previous_blocks bc hash num_blocks = previous_at bc.nodes num_blocks (get bc.m hash)

-- ===== src/Blockchain/Longest.antt =====
-- The search for the longest chain in bclib/blockchain.go. The parallel stacks `nStack` and
-- `dStack` are one list of addresses with depths; its head is the top.
pub mod Ends
pub mod Below
pub mod Deepest
use miner.Prelude.{
  ℕ, zero, suc, ◌+◌, Option, none, some, List, [], ◌∷◌, ◌++◌, foldl, length, get_elem?, ltb, ◌==◌,
  if◌then◌else◌,
}
use miner.Prelude.Bytes.{Bytes}
use miner.Block.{Block}
use miner.Blockchain.{Node, Blockchain}

pub record Search : Type 0 where
  pub stack : List (ℕ × ℕ)
  pub max_depth : ℕ
  pub last_node : ℕ
  pub last_nodes : List ℕ

-- The comparison of a popped node with the deepest ones so far.
unfoldable pub visit : Search → ℕ → ℕ → Search
visit s depth node =
    if ltb s.max_depth depth
    then record s { max_depth = depth; last_node = node; last_nodes = node ∷ [] }
    else if depth == s.max_depth
    then record s { last_nodes = s.last_nodes ++ node ∷ [] }
    else s

unfoldable pub push : ℕ → List (ℕ × ℕ) → List ℕ → List (ℕ × ℕ)
push depth stack [] = stack
push depth stack (c ∷ children) = push depth ((c, depth + 1) ∷ stack) children

-- One round of the loop, at a node that has been popped.
unfoldable pub expand : Search → ℕ → ℕ → List (ℕ × ℕ) → Node → Search
unfolding visit push
expand s depth node rest n = record (visit s depth node) { stack = push depth rest n.children }

-- `none`: the fuel ran out.
unfoldable pub search_loop : ℕ → List Node → Search → Option Search
search_loop zero nodes s = elim s.stack [ [] ↦ some s | _ ∷ _ ↦ none ]
search_loop (suc fuel) nodes s = elim s.stack [
  | [] ↦ some s
  | (node, depth) ∷ rest ↦ elim (get_elem? nodes node) [
    | none ↦ none
    | some n ↦ search_loop fuel nodes (expand s depth node rest n)
  ]
]

abbrev pub search_from : ℕ → Search
search_from genesis = record {
  stack = (genesis, 0) ∷ [];
  max_depth = 0;
  last_node = genesis;
  last_nodes = genesis ∷ [];
}

-- The tree with its new `lastNode`, and the nodes.
abbrev pub keep_last : Blockchain → Option Search → Option (Blockchain × List ℕ)
keep_last bc none = none
keep_last bc (some s) = some (record bc { last_node = s.last_node }, s.last_nodes)

unfoldable pub get_last_nodes : Blockchain → Option (Blockchain × List ℕ)
unfolding search_loop expand
get_last_nodes bc = keep_last bc (search_loop (length bc.nodes) bc.nodes (search_from bc.genesis))

-- The blocks at some addresses.
unfoldable pub blocks_at : List Node → List ℕ → List Block
blocks_at nodes [] = []
blocks_at nodes (a ∷ as') = elim (get_elem? nodes a) [
  | none ↦ blocks_at nodes as'
  | some n ↦ n.block ∷ blocks_at nodes as'
]

abbrev pub read_blocks : Option (Blockchain × List ℕ) → Option (Blockchain × List Block)
read_blocks none = none
read_blocks (some (bc, as')) = some (bc, blocks_at bc.nodes as')

unfoldable pub get_last_blocks : Blockchain → Option (Blockchain × List Block)
unfolding blocks_at
get_last_blocks bc = read_blocks (get_last_nodes bc)

-- `lastNodes[0].block.Hash`; Go would panic on an empty list.
abbrev pub first_hash : Option (Blockchain × List Block) → Option (Blockchain × Bytes)
first_hash none = none
first_hash (some (bc, [])) = none
first_hash (some (bc, b ∷ bs)) = some (bc, b.hash)

unfoldable pub get_last_hash : Blockchain → Option (Blockchain × Bytes)
unfolding get_last_blocks
get_last_hash bc = first_hash (get_last_blocks bc)

-- `for opConfirmThresh > 0`; `none` where a parent is nil.
unfoldable pub climb : ℕ → List Node → ℕ → Option ℕ
climb zero nodes a = some a
climb (suc k) nodes a = elim (get_elem? nodes a) [
  | none ↦ none
  | some n ↦ elim n.parent [ none ↦ none | some p ↦ climb k nodes p ]
]

abbrev pub confirmed_at : ℕ → Option (Blockchain × List ℕ) → Option (Blockchain × Option ℕ)
confirmed_at k none = none
confirmed_at k (some (bc, [])) = some (bc, none)
confirmed_at k (some (bc, a ∷ as')) = some (bc, climb k bc.nodes a)

-- Go's `(*Node, bool)` is an option; the outer one is `none` if the search does not end.
unfoldable pub get_last_confirmed_node : Blockchain → ℕ → Option (Blockchain × Option ℕ)
unfolding climb
get_last_confirmed_node bc num_confirmed_blocks =
    confirmed_at num_confirmed_blocks (get_last_nodes bc)

-- ===== src/Blockchain/Add.antt =====
-- `AddBlock` and `validateBlock` of bclib/blockchain.go.
pub mod Attach
pub mod Invariant
pub mod Reads
pub mod Outcome
pub mod Admits
use miner.Prelude.{
  ℕ, ◌≡◌, Bool, true, false, Option, none, some, List, [], ◌∷◌, ◌++◌, length, set, get_elem?,
  if◌then◌else◌,
}
use miner.Prelude.Bytes.{Bytes}
use miner.Prelude.GoMap.{get, put, has}
use miner.Operation.{Operation, Order, Codec}
use miner.Block.{Block}
use miner.Pow.{new_proof_of_work, validate}
use miner.Blockchain.{Node, Blockchain, new_node}
use miner.Blockchain.Validation.{validate_operations, has_operations}

pub data AddError : Type 0 where
  block_exists pow_failed operations_invalid missing_previous : AddError

-- `loops` is a call that does not return.
pub data Added : Type 0 where
  added : Blockchain → Added
  refused : AddError → Added
  loops : Added

-- prevNode.children = append(prevNode.children, node)
abbrev pub adopt_at : List Node → ℕ → ℕ → Option Node → List Node
adopt_at nodes p child none = nodes
adopt_at nodes p child (some n) = set nodes p (record n { children = n.children ++ child ∷ [] })

abbrev pub adopt : List Node → ℕ → ℕ → List Node
adopt nodes p child = adopt_at nodes p child (get_elem? nodes p)

-- The end of `AddBlock`: the node is allocated, hung under its parent and entered in the map.
unfoldable pub attach : Blockchain → Block → ℕ → Blockchain
attach bc block prev =
    let child = length bc.nodes in
    record bc {
      nodes = adopt (bc.nodes ++ new_node block (some prev) ∷ []) prev child;
      m = put bc.m block.hash child;
    }

pub data Verdict : Type 0 where
  valid : Verdict
  invalid : AddError → Verdict
  undecided : Verdict

abbrev pub verdict : Option (List Operation × Bool) → Verdict
verdict none = undecided
verdict (some (ops, true)) = valid
verdict (some (ops, false)) = invalid operations_invalid

abbrev pub block_difficulty : Blockchain → Block → ℕ
block_difficulty bc block =
    if has_operations block.operations
    then bc.config.pow_per_op_block
    else bc.config.pow_per_no_op_block

module _ (c : Codec) (range range' : Order Operation) where
  unfoldable pub validate_block : Blockchain → Block → Verdict
  validate_block bc block =
      if validate c (new_proof_of_work block (block_difficulty bc block))
      then verdict (validate_operations range range' bc block.operations block.previous_hash)
      else invalid pow_failed

  link : Blockchain → Block → Option ℕ → Added
  link bc block none = refused missing_previous
  link bc block (some prev) = added (attach bc block prev)

  admit : Blockchain → Block → Verdict → Added
  unfolding link
  admit bc block valid = link bc block (get bc.m block.previous_hash)
  admit bc block (invalid e) = refused e
  admit bc block undecided = loops

  unfoldable pub add_block : Blockchain → Block → Added
  unfolding admit validate_block
  add_block bc block =
      if has bc.m block.hash then refused block_exists else admit bc block (validate_block bc block)

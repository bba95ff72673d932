-- ===== src/Worker.antt =====
-- mining/worker.go: what a miner mines on. The ledger is read between two changes of the tree, and
-- each message that `StartMining` waits for is a constructor of `Awaited`.
pub mod Batch
use miner.Prelude.{
  ℕ, Bool, true, false, Option, none, some, List, [], ◌∷◌, length, ltb, leb, if◌then◌else◌,
}
use miner.Prelude.Int.{ℤ}
use miner.Prelude.Bytes.{Bytes}
use miner.Operation.{Operation, Order, Codec}
use miner.Operation.Filter.{Sort, filter_invalid_operations}
use miner.Block.{Block}
use miner.Pow.{new_block}
use miner.Blockchain.{Blockchain}
use miner.Blockchain.Validation.{validate_operations}
use miner.Blockchain.Longest.{get_last_blocks, get_last_hash}

pub record Worker : Type 0 where
  pub miner_id : Bytes
  pub pow_per_no_op_block : ℕ
  pub pow_per_op_block : ℕ

abbrev pub new_worker : Bytes → ℕ → ℕ → Worker
new_worker id pow_per_no_op_block pow_per_op_block = record {
  miner_id = id;
  pow_per_no_op_block = pow_per_no_op_block;
  pow_per_op_block = pow_per_op_block;
}

-- `bestOps` and `prevHash`
pub record Choice : Type 0 where
  pub best_ops : List Operation
  pub prev_hash : Bytes

-- `w.stop`, `doneNoOp` and `batchedOperations`
pub data Awaited : Type 0 where
  stop done_no_op : Awaited
  batch : List Operation → Awaited

-- How `StartMining` ends: it closes `stopNoOp`, leaves the block without operations to be mined, or
-- closes `stopNoOp` and sends a block. `spins`: a call does not return.
pub data Worked : Type 0 where
  stops rests spins : Worked
  mines : Block → Worked

abbrev pub judged : Choice → Block → Option (List Operation × Bool) → Option Choice
judged c block none = none
judged c block (some (ops, ok)) = some (
    if leb (length c.best_ops) (length ops)
    then record { best_ops = ops; prev_hash = block.hash }
    else c)

-- `stop` is nil
abbrev pub never : ℕ → Bool
never n = false

module _ (range range' : Order Operation) where
  -- The loop over `lastBlocks`, which validates on top of `prevHash` as the round before left it.
  unfoldable pub choose_all : Blockchain → List Operation → Choice → List Block → Option Choice
  choose_all bc ops c [] = some c
  choose_all bc ops c (block ∷ blocks) =
      elim (judged c block (validate_operations range range' bc ops c.prev_hash)) [
        | none ↦ none
        | some c' ↦ choose_all bc ops c' blocks
      ]

  abbrev pub choose_at : List Operation → Bytes → Option (Blockchain × List Block) → Option Choice
  choose_at ops hash none = none
  choose_at ops hash (some (bc, blocks)) =
      choose_all bc ops (record { best_ops = []; prev_hash = hash }) blocks

  abbrev pub choose_from : List Operation → Option (Blockchain × Bytes) → Option Choice
  choose_from ops none = none
  choose_from ops (some (bc, hash)) = choose_at ops hash (get_last_blocks bc)

  unfoldable pub choose : Blockchain → List Operation → Option Choice
  unfolding choose_all
  choose bc ops = choose_from ops (get_last_hash bc)

abbrev pub sent : Option Block → Worked
sent none = spins
sent (some block) = mines block

module _ (c : Codec) (fuel : ℕ) (now : ℤ) where
  abbrev pub mine_choice : Worker → Option Choice → Worked
  mine_choice w none = spins
  mine_choice w (some choice) =
      if ltb 0 (length choice.best_ops)
      then sent (
          new_block c never fuel choice.best_ops choice.prev_hash w.miner_id w.pow_per_op_block now)
      else rests

-- `StartMining` from its select on.
module _ (range range' : Order Operation) (c : Codec) (sort : Sort) (fuel : ℕ) (now : ℤ) where
  unfoldable pub start_mining : Worker → Blockchain → Awaited → Worked
  unfolding choose
  start_mining w bc stop = stops
  start_mining w bc done_no_op = rests
  start_mining w bc (batch ops) =
      mine_choice c fuel now w (choose range range' bc (filter_invalid_operations sort ops))

-- `mineNoOp`, where `stopped n` says whether `stop` is closed in round `n` of `Run`.
unfoldable pub mine_no_op : Codec → (ℕ → Bool) → ℕ → ℤ → Worker → Bytes → Option Block
mine_no_op c stopped fuel now w previous_hash =
    new_block c stopped fuel [] previous_hash w.miner_id w.pow_per_no_op_block now

-- ===== src/Blockchain/Validation.antt =====
-- `ValidateOperations` of bclib/blockchain_rfs.go. Balances are Go ints far from their bounds (a
-- block moves at most 255 coins), so they are integers without wrap-around. The two loops over
-- `opIds` after the walk visit it in an order that Go leaves open: each takes one as an argument.
pub mod Balances
pub mod Survivors
pub mod Charges
pub mod Entries
pub mod Accepted
use miner.Prelude.{
  ℕ, zero, suc, ◌≡◌, Bool, true, false, Option, none, some, List, [], ◌∷◌, ◌++◌, map, foldl, length,
  ◌==◌, if◌then◌else◌,
}
use miner.Prelude.Int.{ℤ, pos, ◌+ℤ◌, ◌-ℤ◌, ltb_ℤ}
use miner.Prelude.Bytes.{Bytes}
use miner.Prelude.GoMap.{GoMap, get, put, delete, has}
use miner.Settings.{Settings}
use miner.Operation.{Operation, Order, is_create, list_ops_from_map}
use miner.Block.{Block}
use miner.Blockchain.{Blockchain}
use miner.Blockchain.Walk.{Flow, next, for_parents}

pub record Tally : Type 0 where
  pub balances : GoMap ℤ
  pub op_ids : GoMap Operation
  pub files : GoMap Operation

-- A round of the first loop.
unfoldable pub enter : Tally → Operation → Tally
enter t o = record {
  balances = put t.balances o.miner_id (pos 0);
  op_ids = put t.op_ids o.operation_id o;
  files = if is_create o.op then put t.files o.filename o else t.files;
}

abbrev pub no_tally : Tally
no_tally = record { balances = []; op_ids = []; files = [] }

unfoldable pub enter_all : List Operation → Tally
unfolding enter
enter_all = foldl enter no_tally

abbrev pub has_operations : List Operation → Bool
has_operations [] = false
has_operations (o ∷ ops) = true

abbrev pub reward : Settings → Block → ℕ
reward config b =
    if has_operations b.operations
    then config.mined_coins_per_op_block
    else config.mined_coins_per_no_op_block

abbrev pub cost : Settings → Operation → ℕ
cost config o = if is_create o.op then config.num_coins_per_file_create else 1

-- The miner of a block of the chain is paid.
unfoldable pub credit : Settings → Tally → Block → Tally
credit config t b = elim (get t.balances b.miner_id) [
  | none ↦ t
  | some balance ↦ record t {
    balances = put t.balances b.miner_id (balance +ℤ pos (reward config b));
  }
]

-- `if conflictingOp, ok := files[op.Filename]; ok { delete(opIds, …) }`
unfoldable pub drop_conflicting : Tally → Bytes → Tally
drop_conflicting t fname = elim (get t.files fname) [
  | none ↦ t
  | some conflicting ↦ record t { op_ids = delete t.op_ids conflicting.operation_id }
]

-- An operation of a block of the chain is charged, if its miner is of interest; only then does a
-- create drop the new create of the same file.
unfoldable pub charge : Settings → Tally → Operation → Tally
unfolding drop_conflicting
charge config t o = elim (get t.balances o.miner_id) [
  | none ↦ t
  | some balance ↦
      let t' = if is_create o.op then drop_conflicting t o.filename else t in
      record t' { balances = put t'.balances o.miner_id (balance -ℤ pos (cost config o)) }
]

-- An operation with the ID of a new one drops the new one.
unfoldable pub drop_repeated : Tally → Operation → Tally
drop_repeated t o =
    if has t.op_ids o.operation_id then record t { op_ids = delete t.op_ids o.operation_id } else t

unfoldable pub settle_op : Settings → Tally → Operation → Tally
unfolding charge drop_repeated
settle_op config t o = drop_repeated (charge config t o) o

-- The body of the walk to the genesis block.
unfoldable pub settle : Settings → Block → Tally → Tally
unfolding credit settle_op
settle config b t = foldl (settle_op config) (credit config t b) b.operations

pub record Purse : Type 0 where
  pub coins : GoMap ℤ
  pub conflicts : List Bytes

-- A round of the loop over the remaining operations; `none` is its early return.
unfoldable pub afford : Settings → Purse → Operation → Option Purse
afford config p o = elim (get p.coins o.miner_id) [
  | none ↦ none
  | some balance ↦ some (
      if ltb_ℤ (balance -ℤ pos (cost config o)) (pos 0)
      then record {
        coins = put p.coins o.miner_id balance;
        conflicts = p.conflicts ++ o.operation_id ∷ [];
      }
      else record p { coins = put p.coins o.miner_id (balance -ℤ pos (cost config o)) })
]

unfoldable pub afford_all : Settings → Purse → List Operation → Option Purse
afford_all config p [] = some p
afford_all config p (o ∷ ops) = elim (afford config p o) [
  | none ↦ none
  | some p' ↦ afford_all config p' ops
]

unfoldable pub delete_all : GoMap Operation → List Bytes → GoMap Operation
delete_all = foldl delete

-- What is left of `opIds`, and whether that is every operation.
unfoldable pub select : Order Operation → GoMap Operation → ℕ → Option Purse → List Operation × Bool
unfolding delete_all
select range op_ids n none = ([], false)
select range op_ids n (some p) =
    let valid_ops = list_ops_from_map range (delete_all op_ids p.conflicts) in
    (valid_ops, n == length valid_ops)

unfoldable pub conclude :
    Settings → Order Operation → Order Operation → ℕ → Tally → List Operation × Bool
unfolding afford afford_all select
conclude config range range' n t = select range' t.op_ids n (
    afford_all config (record { coins = t.balances; conflicts = [] })
      (list_ops_from_map range t.op_ids))

unfoldable pub walk_balances : Blockchain → Option ℕ → Tally → Option Tally
unfolding settle
walk_balances bc a t =
    for_parents (length bc.nodes) bc.nodes (λ b s. next (settle bc.config b s)) a t

abbrev conclude_walk :
    Settings → Order Operation → Order Operation → ℕ → Option Tally → Option (List Operation × Bool)
conclude_walk config range range' n none = none
conclude_walk config range range' n (some t) = some (conclude config range range' n t)

validate_from :
    Order Operation
    → Order Operation
    → Blockchain
    → List Operation
    → Option ℕ
    → Option (List Operation × Bool)
unfolding conclude walk_balances enter_all
validate_from range range' bc operations none = some ([], false)
validate_from range range' bc operations (some a) =
    conclude_walk bc.config range range' (length operations)
      (walk_balances bc (some a) (enter_all operations))

-- `none`: the walk did not end within as many rounds as there are nodes.
unfoldable pub validate_operations :
    Order Operation
    → Order Operation
    → Blockchain
    → List Operation
    → Bytes
    → Option (List Operation × Bool)
unfolding validate_from
validate_operations range range' bc [] previous_hash = some ([], true)
validate_operations range range' bc (o ∷ ops) previous_hash =
    validate_from range range' bc (o ∷ ops) (get bc.m previous_hash)

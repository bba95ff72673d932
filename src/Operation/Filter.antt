-- ===== src/Operation/Filter.antt =====
-- `FilterInvalidOperations` of bclib/operation.go: sort by time, keep the first create of each file
-- name and the first of the other operations with each ID. `sort.Slice` takes the comparison of the
-- code; it is not stable, so it is an argument.
pub mod Batch
pub mod Earliest
use miner.Prelude.{Bool, true, false, not, List, [], ◌∷◌, ◌++◌, foldl, if◌then◌else◌}
use miner.Prelude.Bytes.{Bytes}
use miner.Prelude.GoMap.{GoMap, put, has}
use miner.Prelude.Int.{ltb_ℤ}
use miner.Operation.{Operation, is_create}

pub record Filtering : Type 0 where
  pub create_fnames : GoMap (Unit {0})
  pub op_ids : GoMap (Unit {0})
  pub valid_ops : List Operation

-- One round of the loop.
unfoldable pub filter_step : Filtering → Operation → Filtering
filter_step s o =
    if is_create o.op
    then (if has s.create_fnames o.filename then s else record s {
      create_fnames = put s.create_fnames o.filename tt;
      valid_ops = s.valid_ops ++ o ∷ [];
    })
    else if has s.op_ids o.operation_id
    then s
    else record s { op_ids = put s.op_ids o.operation_id tt; valid_ops = s.valid_ops ++ o ∷ [] }

abbrev pub unfiltered : Filtering
unfiltered = record { create_fnames = []; op_ids = []; valid_ops = [] }

-- ops[i].Timestamp < ops[j].Timestamp
abbrev pub is_earlier : Operation → Operation → Bool
is_earlier o o' = ltb_ℤ o.timestamp o'.timestamp

-- `sort.Slice`, by its comparison.
abbrev pub Sort : Type 0
Sort = (Operation → Operation → Bool) → List Operation → List Operation

unfoldable pub filter_invalid_operations : Sort → List Operation → List Operation
filter_invalid_operations sort ops = (foldl filter_step unfiltered (sort is_earlier ops)).valid_ops

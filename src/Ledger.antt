-- ===== src/Ledger.antt =====
-- bclib/blockchain_rfs.go: what clients read off the longest chain. Each call searches for the longest
-- chain first and returns the tree with its new `lastNode` beside the answer. An outer `none` is a
-- call that does not return.
pub mod Gathered
pub mod Files
pub mod Confirmation
pub mod FileSystem
pub mod Names
use miner.Prelude.SwapEnds.{swap_ends}
use miner.Prelude.{
  ℕ, zero, suc, ◌+◌, Bool, true, false, Option, none, some, List, [], ◌∷◌, ◌++◌, foldl, length, ite,
  ltb, if◌then◌else◌, ◌&&◌, not,
}
use miner.Prelude.Int.{ℤ, pos, negsuc}
use miner.Prelude.Bytes.{Bytes, dec_bytes}
use miner.Prelude.GoMap.{GoMap, put, keys}
use miner.Operation.{Operation, Order, OpType, create, append, del, is_append, is_create, is_delete}
use miner.Block.{Block}
use miner.Blockchain.{Node, Blockchain}
use miner.Blockchain.Walk.{Flow, next, stop, for_parents}
use miner.Blockchain.Longest.{get_last_nodes, get_last_confirmed_node}

pub record FileOps : Type 0 where
  pub fname : Bytes
  pub operations : List Operation
  pub deleted : Bool

-- A read from the confirmed node, or `missing` where there is none.
abbrev pub from_confirmed :
    {A : Type 0}
    → A
    → (Blockchain → ℕ → Option A)
    → Option (Blockchain × Option ℕ)
    → Option (Blockchain × A)
from_confirmed missing read none = none
from_confirmed missing read (some (bc, none)) = some (bc, missing)
from_confirmed missing read (some (bc, some a)) = elim (read bc a) [
  | none ↦ none
  | some r ↦ some (bc, r)
]

-- ListFiles

unfoldable pub name_op : GoMap (Unit {0}) → Operation → GoMap (Unit {0})
name_op filenames o = put filenames o.filename tt

unfoldable pub filenames_from : Blockchain → ℕ → Option (GoMap (Unit {0}))
unfolding name_op
filenames_from bc a =
    for_parents (length bc.nodes) bc.nodes (λ b s. next (foldl name_op s b.operations)) (some a) []

abbrev pub listed :
    Order (Unit {0}) → Option (Blockchain × GoMap (Unit {0})) → Option (Blockchain × List Bytes)
listed range none = none
listed range (some (bc, filenames)) = some (bc, keys (range filenames))

unfoldable pub list_files : Order (Unit {0}) → Blockchain → Option (Blockchain × List Bytes)
unfolding filenames_from
list_files range bc = listed range (
    from_confirmed [] filenames_from
      (get_last_confirmed_node bc bc.config.confirms_per_file_create))

-- NumRecs

pub record Count : Type 0 where
  pub num_recs : ℕ
  pub seen_filename : Bool

unfoldable pub count_op : Bytes → Count → Operation → Count
count_op fname s o =
    ite (dec_bytes o.filename fname)
      (record {
        num_recs = if is_append o.op then s.num_recs + 1 else s.num_recs;
        seen_filename = true;
      })
      s

unfoldable pub count_from : Bytes → Blockchain → ℕ → Option (ℤ × Bool)
unfolding count_op
count_from fname bc a =
    elim (for_parents (length bc.nodes) bc.nodes
      (λ b s. next (foldl (count_op fname) s b.operations)) (some a)
      (record { num_recs = 0; seen_filename = false })) [
        | none ↦ none
        | some s ↦ some (pos s.num_recs, s.seen_filename)
      ]

unfoldable pub num_recs : Bytes → Blockchain → Option (Blockchain × (ℤ × Bool))
unfolding count_from
num_recs fname bc =
    from_confirmed (negsuc 0, false) (count_from fname)
      (get_last_confirmed_node bc bc.config.confirms_per_file_append)

-- GetFile

pub record Gather : Type 0 where
  pub operations : List Operation
  pub seen_filename : Bool
  pub deleted : Bool

unfoldable pub gather_op : Bytes → Gather → Operation → Gather
gather_op fname s o =
    ite (dec_bytes o.filename fname)
      (record {
        operations = if is_append o.op then s.operations ++ o ∷ [] else s.operations;
        seen_filename = true;
        deleted = if is_delete o.op then true else s.deleted;
      })
      s

abbrev pub ungathered : Gather
ungathered = record { operations = []; seen_filename = false; deleted = false }

abbrev pub to_file : Bytes → Gather → FileOps × Bool
to_file fname s = (
  record { fname = fname; operations = swap_ends s.operations; deleted = s.deleted },
  s.seen_filename,
)

abbrev pub as_file : Bytes → Option Gather → Option (FileOps × Bool)
as_file fname none = none
as_file fname (some s) = some (to_file fname s)

unfoldable pub file_from : Bytes → Blockchain → ℕ → Option (FileOps × Bool)
unfolding gather_op
file_from fname bc a = as_file fname (
    for_parents (length bc.nodes) bc.nodes (λ b s. next (foldl (gather_op fname) s b.operations))
      (some a) ungathered)

abbrev pub no_file : FileOps
no_file = record { fname = []; operations = []; deleted = false }

unfoldable pub get_file : Bytes → Blockchain → Option (Blockchain × (FileOps × Bool))
unfolding file_from
get_file fname bc =
    from_confirmed (no_file, false) (file_from fname)
      (get_last_confirmed_node bc bc.config.confirms_per_file_append)

-- CheckOpConfirmed

pub record Check : Type 0 where
  pub i : ℕ
  pub confirmed : Bool
  pub exists : Bool
  pub other_miner : Bool

-- The note that another miner has taken the file name that `op` creates.
unfoldable pub noted : Operation → Check → Operation → Check
noted op s block_op =
    if is_create op.op
    then ite (dec_bytes op.filename block_op.filename)
        (ite (dec_bytes op.miner_id block_op.miner_id) s (record s { other_miner = true })) s
    else s

-- A round of the loop over the operations of a block.
unfoldable pub check_op : Operation → ℕ → Check → Operation → Flow Check
unfolding noted
check_op op num_conf_blocks s block_op =
    let s' = noted op s block_op in
    ite (dec_bytes block_op.operation_id op.operation_id)
      (stop (record s' {
        confirmed = if ltb num_conf_blocks s'.i then true else s'.confirmed;
        exists = true;
      }))
      (next s')

unfoldable pub check_ops : Operation → ℕ → List Operation → Check → Flow Check
check_ops op num_conf_blocks [] s = next (record s { i = s.i + 1 })
check_ops op num_conf_blocks (block_op ∷ ops) s = elim (check_op op num_conf_blocks s block_op) [
  | stop s' ↦ stop s'
  | next s' ↦ check_ops op num_conf_blocks ops s'
]

abbrev pub unchecked : Check
unchecked = record { i = 0; confirmed = false; exists = false; other_miner = false }

abbrev pub confirms : Blockchain → Operation → ℕ
confirms bc op =
    if is_append op.op
    then bc.config.confirms_per_file_append
    else bc.config.confirms_per_file_create

unfoldable pub check_from : Operation → Blockchain → ℕ → Option Check
unfolding check_op check_ops
check_from op bc a =
    for_parents (length bc.nodes) bc.nodes (λ b s. check_ops op (confirms bc op) b.operations s)
      (some a) unchecked

-- `getLastNodes()[0]`; Go would panic on an empty list.
abbrev pub from_first :
    {A : Type 0}
    → (Blockchain → ℕ → Option A)
    → Option (Blockchain × List ℕ)
    → Option (Blockchain × A)
from_first read none = none
from_first read (some (bc, [])) = none
from_first read (some (bc, a ∷ as')) = elim (read bc a) [ none ↦ none | some r ↦ some (bc, r) ]

unfoldable pub check_op_confirmed : Operation → Blockchain → Option (Blockchain × Check)
unfolding check_from
check_op_confirmed op bc = from_first (check_from op) (get_last_nodes bc)

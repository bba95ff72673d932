-- ===== src/Ledger/FileSystem.antt =====
-- A file system for clients, without blocks: a log of operations that change it one after the other, in
-- the order in which they were put on the chain. Nothing here is code; the reads of
-- bclib/blockchain_rfs.go are held against it.
pub mod Replay
pub mod Refines
use miner.Prelude.{
  ℕ, Option, none, some, List, [], ◌∷◌, ◌++◌, foldl, ite, length, ◌≤◌, ◌≡◌, In, false,
}
use miner.Prelude.Bytes.{Bytes, dec_bytes}
use miner.Operation.{Operation, OpType, create, append, del, is_delete}
use miner.Block.{Block}

-- The records of each file that exists, the oldest first.
abbrev pub FileSystem : Type 0
FileSystem = Bytes → Option (List Operation)

abbrev pub no_files : FileSystem
no_files fname = none

abbrev pub or_empty : Option (List Operation) → List Operation
or_empty none = []
or_empty (some records) = records

-- A create makes an empty file, unless it is there. An append adds a record, and makes the file if it
-- is not there. A deletion takes the file away.
abbrev pub changed_by : OpType → Operation → Option (List Operation) → Option (List Operation)
changed_by create o file = some (or_empty file)
changed_by append o file = some (or_empty file ++ o ∷ [])
changed_by del o file = none

unfoldable pub apply : FileSystem → Operation → FileSystem
apply fs o fname = ite (dec_bytes o.filename fname) (changed_by o.op o (fs fname)) (fs fname)

unfoldable pub replay : FileSystem → List Operation → FileSystem
unfolding apply
replay = foldl apply

-- The log of a chain, whose blocks are listed newest first: the oldest block first, and the operations
-- of a block in their order.
unfoldable pub log : List Block → List Operation
log [] = []
log (b ∷ bs) = log bs ++ b.operations

-- The file system of a chain.
abbrev pub files_of : List Block → FileSystem
files_of bs = replay no_files (log bs)

-- ===== src/P2p/Server/Refines.antt =====
-- The server of the clients as a plain file system: which files there are is read at the depth for
-- creations, and what they hold at the depth for appends. `GetFile` reverses the appends within a block
-- too, and keeps deleted files, so this is of files whose chain has neither two appends in a block nor
-- a deletion, which no client can make.
use miner.Prelude.{ℕ, Bool, Option, none, some, List, get_elem?, length, if◌then◌else◌}
use miner.Prelude.Bytes.{Bytes}
use miner.Prelude.GoMap.{is_some}
use miner.Block.{Block}
use miner.Blockchain.{Blockchain}
use miner.Operation.{Operation}
use miner.Ledger.FileSystem.{FileSystem}
use miner.P2p.Server.{
  Server, Reply, ok, failed, again, disconnected, file_does_not_exist, to_record, read_record,
  total_recs,
}

-- What a client asks of a file, and what it is told.
pub data Request : Type 0 where
  read_request : Bytes → ℕ → Request
  total_request : Bytes → Request

pub data Response : Type 0 where
  record_response : Reply Bytes → Response
  total_response : Reply ℕ → Response

abbrev pub tell : {A : Type 0} → (A → Response) → Option A → Option Response
tell f none = none
tell f (some r) = some (f r)

unfoldable pub serve : Server → Request → Option Response
serve s (read_request fname i) = tell record_response (read_record s fname i)
serve s (total_request fname) = tell total_response (total_recs s fname)

abbrev pub file_of : Request → Bytes
file_of (read_request fname i) = fname
file_of (total_request fname) = fname

-- What is promised of a file that is listed.
abbrev pub of_file : {A : Type 0} → (List Operation → Reply A) → Option (List Operation) → Reply A
of_file f none = failed file_does_not_exist
of_file f (some records) = f records

abbrev pub of_listed : {A : Type 0} → Bool → Bool → Reply A → Reply A
of_listed connected is_listed r =
    if connected then (if is_listed then r else failed file_does_not_exist) else failed disconnected

abbrev pub record_of : ℕ → List Operation → Reply Bytes
record_of i records = elim (get_elem? records i) [
  | none ↦ again
  | some o ↦ ok (to_record 512 o.payload)
]

-- A record of a file is returned if it is there, and waited for if not.
abbrev pub promised : Bool → FileSystem → FileSystem → Request → Response
promised connected names files (read_request fname i) =
    record_response
      (of_listed connected (is_some (names fname)) (of_file (record_of i) (files fname)))
promised connected names files (total_request fname) = total_response (
    of_listed connected (is_some (names fname))
      (of_file (λ records. ok (length records)) (files fname)))

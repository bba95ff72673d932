-- ===== src/RfsLib.antt =====
-- rfslib/rfslib.go: what an application calls. The connection, net/rpc's client, is a parameter: a
-- record of the server's methods, each of which answers or returns an error of its own type.
pub mod Records
use miner.Prelude.{ℕ, Bool, ◌%◌, ◌^◌, Option, none, some, List, length, ltb, if◌then◌else◌}
use miner.Prelude.Bytes.{Bytes}

-- What `Call` leaves: the reply, or an error.
pub data Called (E A : Type 0) : Type 0 where
  replied : A → Called E A
  errs : E → Called E A

-- `Call` of the methods of `Server`. A file name and a record are bytes, and an int is a number.
pub record RpcClient (E : Type 0) : Type 0 where
  pub create : Bytes → Called E Bool
  pub files : Called E (List Bytes)
  pub total : Bytes → Called E ℕ
  pub read : Bytes → ℕ → Called E Bytes
  pub append_data : Bytes → Bytes → Called E ℕ

-- The error that `CreateFile` makes itself, and those that it passes on.
pub data ClientError (E : Type 0) : Type 0 where
  bad_filename : Bytes → ClientError E
  passed_on : E → ClientError E

-- uint16(reply)
abbrev pub uint16 : ℕ → ℕ
uint16 n = n % 2 ^ 16

module _ {E : Type 0} (c : RpcClient E) where
  abbrev pub error_of : Called E Bool → Option (ClientError E)
  error_of (replied created) = none
  error_of (errs e) = some (passed_on e)

  -- `none` is a nil error.
  unfoldable pub client_create_file : Bytes → Option (ClientError E)
  client_create_file fname =
      let called = error_of (c.create fname) in
      if ltb 64 (length fname) then some (bad_filename fname) else called

  unfoldable pub client_list_files : Called E (List Bytes)
  client_list_files = c.files

  abbrev pub number_of : Called E ℕ → Called E ℕ
  number_of (replied n) = replied (uint16 n)
  number_of (errs e) = errs e

  unfoldable pub client_total_recs : Bytes → Called E ℕ
  client_total_recs fname = number_of (c.total fname)

  -- The record is written only when there is no error.
  unfoldable pub read_rec : Bytes → ℕ → Called E Bytes
  read_rec fname record_num = c.read fname record_num

  unfoldable pub append_rec : Bytes → Bytes → Called E ℕ
  append_rec fname payload = number_of (c.append_data fname payload)

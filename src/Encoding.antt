-- ===== src/Encoding.antt =====
-- The encodings of bclib/operation.go, bclib/block.go and bclib/blockchain.go, and `LoadSettings` of
-- settings/settings.go. What encoding/gob, encoding/json and the disk do is a parameter.
pub mod RoundTrip
use miner.Prelude.{ℕ, Option, none, some, List, [], ◌∷◌, map}
use miner.Prelude.Int.{ℤ, pos}
use miner.Prelude.Bytes.{Bytes}
use miner.Settings.{Settings}
use miner.Operation.{Operation, Order}
use miner.Block.{Block, Header}
use miner.Blockchain.{Blockchain}
use miner.Blockchain.Queries.{get_blocks}

-- What an encoder leaves in its buffer, and what a decoder leaves in a variable that had its zero
-- value; the message of the error stands beside either.
pub record Gob (A : Type 0) : Type 0 where
  pub encode : A → Bytes × Option Bytes
  pub decode : Bytes → A × Option Bytes

pub data DecodeOperationError : Type 0 where
  decode_operation_error : Bytes → DecodeOperationError

pub data DecodeBlockError : Type 0 where
  decode_block_error : Bytes → DecodeBlockError

abbrev pub marshall_operation : Gob Operation → Operation → Bytes × Option Bytes
marshall_operation g op = g.encode op

abbrev pub operation_error : Option Bytes → Option DecodeOperationError
operation_error none = none
operation_error (some message) = some (decode_operation_error message)

-- The operation is returned beside the error too.
unfoldable pub unmarshall_operation :
    Gob Operation → Bytes → Operation × Option DecodeOperationError
unmarshall_operation g b = let (msg, err) = g.decode b in (msg, operation_error err)

abbrev pub marshall_operations : Gob (List Operation) → List Operation → Bytes × Option Bytes
marshall_operations g ops = g.encode ops

-- A block as these functions see it: operations that are nil (`none`) differ from an empty slice.
pub record RawBlock : Type 0 where
  pub timestamp : ℤ
  pub operations : Option (List Operation)
  pub previous_hash : Bytes
  pub miner_id : Bytes
  pub hash : Bytes
  pub nonce : ℤ

abbrev pub raw : Block → RawBlock
raw b = record {
  timestamp = b.timestamp;
  operations = some b.operations;
  previous_hash = b.previous_hash;
  miner_id = b.miner_id;
  hash = b.hash;
  nonce = b.nonce;
}

-- To the rest of the code nil is an empty slice.
abbrev pub ops_of : Option (List Operation) → List Operation
ops_of none = []
ops_of (some ops) = ops

abbrev pub cooked : RawBlock → Block
cooked b = record {
  header = record {
    timestamp = b.timestamp;
    operations = ops_of b.operations;
    previous_hash = b.previous_hash;
  };
  miner_id = b.miner_id;
  hash = b.hash;
  nonce = b.nonce;
}

-- `Block{}`
abbrev pub zero_block : RawBlock
zero_block = record {
  timestamp = pos 0;
  operations = none;
  previous_hash = [];
  miner_id = [];
  hash = [];
  nonce = pos 0;
}

abbrev pub marshall_block : Gob RawBlock → RawBlock → Bytes × Option Bytes
marshall_block g b = g.encode b

-- if msg.Operations == nil { msg.Operations = make([]Operation, 0) }
abbrev pub repaired : Option (List Operation) → Option (List Operation)
repaired none = some []
repaired (some ops) = some ops

abbrev pub unmarshalled : RawBlock → Option Bytes → RawBlock × Option DecodeBlockError
unmarshalled msg none = (record msg { operations = repaired msg.operations }, none)
unmarshalled msg (some message) = (zero_block, some (decode_block_error message))

unfoldable pub unmarshall_block : Gob RawBlock → Bytes → RawBlock × Option DecodeBlockError
unmarshall_block g b = let (msg, err) = g.decode b in unmarshalled msg err

abbrev pub marshall_blocks : Gob (List RawBlock) → List RawBlock → Bytes × Option Bytes
marshall_blocks g bs = g.encode bs

-- The decoder's error is returned as it is, and nil operations stay nil.
unfoldable pub unmarshall_blocks : Gob (List RawBlock) → Bytes → List RawBlock × Option Bytes
unmarshall_blocks g b = g.decode b

-- `Marshall`
unfoldable pub marshall : Gob (List RawBlock) → Order ℕ → Blockchain → Bytes × Option Bytes
marshall g range bc = marshall_blocks g (map raw (get_blocks range bc))

-- `log.Fatal` ends the program.
pub data Loaded : Type 0 where
  exits : Loaded
  loads : Settings → Loaded

-- The file's bytes, or the error, and what `json.Unmarshal` makes of them.
abbrev pub load_from : (Bytes → Settings × Option Bytes) → Option Bytes → Loaded
load_from json none = exits
load_from json (some file) = let (settings, err) = json file in loads settings

unfoldable pub load_settings :
    (Bytes → Option Bytes) → (Bytes → Settings × Option Bytes) → Bytes → Loaded
load_settings disk json fname = load_from json (disk fname)

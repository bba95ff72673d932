-- ===== src/Operation.antt =====
-- bclib/operation.go: the operations of clients, and the filter that a miner runs on a batch.
-- `md5.Sum` and the gob encoding are parameters, gathered in `Codec`.
pub mod Filter
use miner.Prelude.{ℕ, ◌≡◌, Bool, true, false, List, [], ◌∷◌, map}
use miner.Prelude.Int.{ℤ, pos}
use miner.Prelude.Bytes.{Bytes}
use miner.Prelude.GoMap.{GoMap}

pub data OpType : Type 0 where
  create append del : OpType

pub OpType-discrete : Discrete OpType
OpType-discrete = hlevel

pub record Operation : Type 0 where
  pub op : OpType
  pub payload : Bytes
  pub filename : Bytes
  pub miner_id : Bytes
  pub operation_id : Bytes
  pub timestamp : ℤ

abbrev pub is_create : OpType → Bool
is_create create = true
is_create _ = false

abbrev pub is_append : OpType → Bool
is_append append = true
is_append _ = false

abbrev pub is_delete : OpType → Bool
is_delete del = true
is_delete _ = false

-- What the code takes from other packages: crypto/md5 and encoding/gob.
pub record Codec : Type 0 where
  pub md5 : Bytes → Bytes
  pub marshall_operation : Operation → Bytes
  pub marshall_operations : List Operation → Bytes

-- The operation before its ID is computed; `now` is `time.Now().UnixNano()`.
abbrev pub unsigned : OpType → Bytes → Bytes → Bytes → ℤ → Operation
unsigned t m_id fname payload now = record {
  op = t;
  payload = payload;
  filename = fname;
  miner_id = m_id;
  operation_id = [];
  timestamp = now;
}

unfoldable pub new_operation : Codec → OpType → Bytes → Bytes → Bytes → ℤ → Operation
new_operation c t m_id fname payload now =
    let op = unsigned t m_id fname payload now in
    record op { operation_id = c.md5 (c.marshall_operation op) }

-- The order in which `range` visits the entries of a map.
abbrev pub Order : Type 0 → Type 0
Order V = GoMap V → List (Bytes × V)

unfoldable pub list_ops_from_map : Order Operation → GoMap Operation → List Operation
list_ops_from_map range ops = map (λ e. e.1) (range ops)

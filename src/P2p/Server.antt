-- ===== src/P2p/Server.antt =====
-- p2p/rpc.go: the server that clients call. A call that waits for its operation to be confirmed is
-- two functions, the request before the wait and the reply after it. `checkConfirmedOperations` has the
-- lock that it holds while it sends; the locks of the other functions are left out: each is a step
-- that nothing interrupts. The new `lastNode` of a ledger call is dropped where
-- the handler changes nothing else, since no code reads it. An outer `none` is a ledger call that does
-- not return.
pub mod Records
pub mod Refines
pub mod Deadlock
use miner.Prelude.{
  ℕ, zero, suc, ◌-◌, Bool, true, false, ◌&&◌, not, Option, none, some, List, [], ◌∷◌, ◌++◌, foldl,
  length, get_elem?, ite, ltb, if◌then◌else◌, ◌^◌,
}
use miner.Prelude.Int.{ℤ}
use miner.Prelude.Bytes.{Bytes, dec_bytes}
use miner.Prelude.GoMap.{GoMap, put, delete, has, keys}
use miner.Operation.{Operation, Order, Codec, create, append, is_create, new_operation}
use miner.Blockchain.{Blockchain}
use miner.Ledger.{FileOps, get_file, list_files, Check, check_op_confirmed}

pub data RpcError : Type 0 where
  disconnected file_does_not_exist file_exists file_max_len_reached : RpcError

pub data Reply (A : Type 0) : Type 0 where
  ok : A → Reply A
  failed : RpcError → Reply A
  -- the handler sleeps and looks again
  again : Reply A

-- `client_ops` holds the operations that calls wait for.
pub record Server : Type 0 where
  pub bc : Blockchain
  pub miner_id : Bytes
  pub confirmed_files : GoMap (Unit {0})
  pub client_ops : GoMap Operation
  pub is_connected : Bool

-- The guards that every read has.
abbrev pub guarded : {A : Type 0} → Server → Bytes → Option (Reply A) → Option (Reply A)
guarded s fname r =
    if s.is_connected
    then (if has s.confirmed_files fname then r else some (failed file_does_not_exist))
    else some (failed disconnected)

-- What a handler makes of a file.
abbrev pub with_file :
    {A : Type 0} → (FileOps → Reply A) → Option (Blockchain × (FileOps × Bool)) → Option (Reply A)
with_file read none = none
with_file read (some (bc, (file, false))) = some (failed file_does_not_exist)
with_file read (some (bc, (file, true))) = some (read file)

-- `copy(record[:], data)` into an array of `n` bytes.
unfoldable pub to_record : ℕ → Bytes → Bytes
to_record zero payload = []
to_record (suc n) [] = 0 ∷ to_record n []
to_record (suc n) (x ∷ payload) = x ∷ to_record n payload

abbrev pub record_at : ℕ → FileOps → Reply Bytes
record_at rec_num file = elim (get_elem? file.operations rec_num) [
  | none ↦ again
  | some o ↦ ok (to_record 512 o.payload)
]

-- One round of the loop of `ReadRecord`.
unfoldable pub read_record : Server → Bytes → ℕ → Option (Reply Bytes)
unfolding to_record
read_record s fname rec_num = guarded s fname (with_file (record_at rec_num) (get_file fname s.bc))

unfoldable pub total_recs : Server → Bytes → Option (Reply ℕ)
total_recs s fname =
    guarded s fname (with_file (λ file. ok (length file.operations)) (get_file fname s.bc))

unfoldable pub list_confirmed_files : Order (Unit {0}) → Server → Reply (List Bytes)
list_confirmed_files range s =
    if s.is_connected then ok (keys (range s.confirmed_files)) else failed disconnected

-- A call that has sent its operation and waits.
abbrev pub await_op : Server → Operation → Server × Operation
await_op s op = (record s { client_ops = put s.client_ops op.operation_id op }, op)

abbrev pub too_long : FileOps × Bool → Bool
too_long (file, seen) = seen && ltb (2 ^ 16 - 1) (length file.operations)

abbrev pub append_to :
    Server
    → Operation
    → Option (Blockchain × (FileOps × Bool))
    → Option (Reply (Server × Operation))
append_to s op none = none
append_to s op (some (bc, file)) =
    some (if too_long file then failed file_max_len_reached else ok (await_op s op))

unfoldable pub append_record_request :
    Codec → ℤ → Server → Bytes → Bytes → Option (Reply (Server × Operation))
append_record_request c now s fname payload =
    guarded s fname
      (append_to s (new_operation c append s.miner_id fname payload now) (get_file fname s.bc))

-- The loop from the last operation to the first; `resp` stays 0 if no operation has the ID.
unfoldable pub last_index : ℕ → List Operation → Bytes → ℕ
last_index zero ops id = 0
last_index (suc i) ops id =
    let rest = last_index i ops id in
    elim (get_elem? ops i) [ none ↦ rest | some o ↦ ite (dec_bytes o.operation_id id) i rest ]

unfoldable pub append_record_reply : Server → Bytes → Operation → Bool → Option (Reply ℕ)
unfolding last_index
append_record_reply s fname op success =
    if success
    then with_file
        (λ file. ok (last_index (length file.operations) file.operations op.operation_id))
        (get_file fname s.bc)
    else some (failed file_does_not_exist)

-- A round of the loop of `conflictPendingCreate`: it overwrites what earlier rounds found.
unfoldable pub conflict_step : Bytes → Bool → Bytes × Operation → Bool
conflict_step fname conflicts (k, op) =
    if is_create op.op then ite (dec_bytes op.filename fname) true false else conflicts

unfoldable pub conflict_pending_create : Order Operation → Server → Bytes → Bool
unfolding conflict_step
conflict_pending_create range s fname = foldl (conflict_step fname) false (range s.client_ops)

unfoldable pub create_file_request :
    Codec → ℤ → Order Operation → Server → Bytes → Reply (Server × Operation)
unfolding conflict_pending_create
create_file_request c now range s filename =
    if s.is_connected
    then (if conflict_pending_create range s filename
        then failed file_exists
        else ok (await_op s (new_operation c create s.miner_id filename [] now)))
    else failed disconnected

unfoldable pub create_file_reply : Bool → Reply Bool
create_file_reply success = if success then ok true else failed file_exists

unfoldable pub mark : GoMap (Unit {0}) → Bytes → GoMap (Unit {0})
mark files fname = put files fname tt

abbrev pub cache : Server → Option (Blockchain × List Bytes) → Option Server
cache s none = none
cache s (some (bc, files)) = some (record s { bc = bc; confirmed_files = foldl mark [] files })

unfoldable pub update_confirmed_files : Order (Unit {0}) → Server → Option Server
unfolding mark
update_confirmed_files range s = cache s (list_files range s.bc)

-- A server at the start; Go's zero value says that it is not connected.
abbrev pub new_rpc_server : Blockchain → Bytes → Server
new_rpc_server bc miner_id = record {
  bc = bc;
  miner_id = miner_id;
  confirmed_files = [];
  client_ops = [];
  is_connected = false;
}

abbrev pub filled : Server → Option (Blockchain × List Bytes) → Option Server
filled s none = none
filled s (some (bc, files)) =
    some (record s { bc = bc; confirmed_files = foldl mark s.confirmed_files files })

-- What `startListening` does before it listens.
unfoldable pub fill_confirmed_files : Order (Unit {0}) → Server → Option Server
unfolding mark
fill_confirmed_files range s = filled s (list_files range s.bc)

-- A message on `havePeers`.
unfoldable pub update_connected_status : Server → Bool → Server
update_connected_status s is_connected = record s { is_connected = is_connected }

-- The loop of `checkConfirmedOperations`: the answers sent, by operation ID, the operations handed out
-- again, and whether `buildPendingOperations`, which takes them, waits for the lock that this loop
-- holds for reading.
pub record Sweep : Type 0 where
  pub bc : Blockchain
  pub answers : List (Bytes × Bool)
  pub resent : List Operation
  pub waits : Bool

-- `spins`: a call of the ledger does not return.
pub data Swept (A : Type 0) : Type 0 where
  returns : A → Swept A
  deadlocks spins : Swept A

-- s.receivedOp <- op.operation. The channel has no buffer; its receiver goes back to it if the operation
-- is in its batch already, and asks for the lock if not.
unfoldable pub resend : (Bytes → Bool) → Sweep → Operation → Swept Sweep
resend in_batch w op =
    if w.waits
    then deadlocks
    else returns (record w { resent = w.resent ++ op ∷ []; waits = not (in_batch op.operation_id) })

unfoldable pub sweep_check :
    (Bytes → Bool) → Sweep → Operation → Option (Blockchain × Check) → Swept Sweep
unfolding resend
sweep_check in_batch w op none = spins
sweep_check in_batch w op (some (bc, r)) =
    let w' = record w {
      bc = bc;
      answers =
          if r.confirmed then w.answers ++ (op.operation_id, not r.other_miner) ∷ [] else w.answers;
    } in
    if r.exists then returns w' else resend in_batch w' op

unfoldable pub sweep_all : (Bytes → Bool) → Sweep → List (Bytes × Operation) → Swept Sweep
unfolding sweep_check
sweep_all in_batch w [] = returns w
sweep_all in_batch w ((k, op) ∷ ops) =
    elim (sweep_check in_batch w op (check_op_confirmed op w.bc)) [
      | returns w' ↦ sweep_all in_batch w' ops
      | deadlocks ↦ deadlocks
      | spins ↦ spins
    ]

unfoldable pub remove_ops : GoMap Operation → List (Bytes × Bool) → GoMap Operation
remove_ops = foldl (λ m a. delete m a.0)

-- After the loop the lock is taken for writing.
abbrev pub swept : Server → Swept Sweep → Swept (Server × Sweep)
swept s (returns w) =
    returns (record s { bc = w.bc; client_ops = remove_ops s.client_ops w.answers }, w)
swept s deadlocks = deadlocks
swept s spins = spins

-- `in_batch` says which IDs are in the batch, and `waits` whether `buildPendingOperations` asks for the
-- lock at the beginning already.
unfoldable pub check_confirmed_operations :
    (Bytes → Bool) → Bool → Order Operation → Server → Swept (Server × Sweep)
unfolding sweep_all remove_ops
check_confirmed_operations in_batch waits range s = swept s (
    sweep_all in_batch (record { bc = s.bc; answers = []; resent = []; waits = waits })
      (range s.client_ops))

-- ===== src/P2p/Batches.antt =====
-- `buildPendingOperations` of p2p/p2p_rpc.go: operations are collected into batches for the worker.
-- The goroutine shares the lock, the confirmed files and the pending operations with the server of
-- the clients. A case of its `select` is a function that takes one message.
pub mod Bounds
pub mod Refusals
use miner.Prelude.{
  ℕ, Bool, true, false, not, ◌&&◌, ◌||◌, Option, none, some, List, [], ◌∷◌, ◌++◌, length, ◌==◌,
  if◌then◌else◌,
}
use miner.Prelude.Bytes.{Bytes}
use miner.Prelude.GoMap.{GoMap, get, put, delete, has}
use miner.Operation.{Operation, Order, is_create, is_append, list_ops_from_map}
use miner.Blockchain.{Blockchain}
use miner.Blockchain.Validation.{validate_operations}
use miner.Blockchain.Longest.{get_last_hash}
use miner.P2p.Server.{Server}

-- MAX_BLOCK_SIZE
abbrev pub max_block_size : ℕ
max_block_size = 100

-- `locked` is `clientRPC.mux`, and `ticking` says whether `C` is set.
pub record Batcher : Type 0 where
  pub server : Server
  pub locked : Bool
  pub operations : GoMap Operation
  pub ticking : Bool

-- What is sent: the answer to a client by operation ID, an operation for the peers, a batch.
pub data Sent : Type 0 where
  answer : Bytes → Bool → Sent
  flood : Operation → Sent
  batch : List Operation → Sent

-- `deadlocks`: the lock is held for ever. `spins`: a call of the ledger does not return.
pub data Received : Type 0 where
  goes : Batcher → List Sent → Received
  deadlocks spins : Received

-- A message, or a change of the shared state by other goroutines.
pub data Event : Type 0 where
  received : Operation → Event
  ticked : Event
  outside : Server → Bool → Event

-- `(ok && op.Op == Create) || (!ok && op.Op == Append)`
abbrev pub contradicts : Server → Operation → Bool
contradicts s op =
    let ok = has s.confirmed_files op.filename in
    (ok && is_create op.op) || (not ok && is_append op.op)

abbrev pub is_pending : Server → Operation → Bool
is_pending s op = has s.client_ops op.operation_id

-- `continue` without `Unlock`.
abbrev pub refuse_client : Batcher → Operation → Received
refuse_client b op =
    goes
      (record b {
        locked = true;
        server = record b.server { client_ops = delete b.server.client_ops op.operation_id };
      })
      (answer op.operation_id false ∷ [])

abbrev pub floods : Bool → Operation → List Sent
floods true op = flood op ∷ []
floods false op = []

-- The batch when it is full, with the ticker stopped but `C` left as it is.
unfoldable pub close_full : Order Operation → Batcher → List Sent → Received
close_full range b sent =
    if length b.operations == max_block_size
    then goes (record b { operations = [] })
        (sent ++ batch (list_ops_from_map range b.operations) ∷ [])
    else goes b sent

-- The operation joins the batch; the first one starts the ticker.
unfoldable pub join_batch : Order Operation → Batcher → Operation → Received
unfolding close_full
join_batch range b op =
    let operations = put b.operations op.operation_id op in
    close_full range
      (record b {
        operations = operations;
        ticking = if length operations == 1 then true else b.ticking;
      })
      (floods (is_pending b.server op) op)

-- `_, valid := ValidateOperations([]Operation{op}, GetLastHash())`
abbrev pub judge : Order Operation → Batcher → Operation → Option (List Operation × Bool) → Received
judge range b op none = spins
judge range b op (some (ops, true)) = join_batch range b op
judge range b op (some (ops, false)) = goes b []

module _ (range range' : Order Operation) where
  abbrev pub judge_at : Batcher → Operation → Option (Blockchain × Bytes) → Received
  judge_at b op none = spins
  judge_at b op (some (bc, hash)) =
      judge range (record b { server = record b.server { bc = bc } }) op
        (validate_operations range range' bc (op ∷ []) hash)

  -- After the lock has been given back.
  unfoldable pub consider : Batcher → Operation → Received
  unfolding join_batch
  consider b op = judge_at b op (get_last_hash b.server.bc)

  -- case op := <-ms.receivedOps
  unfoldable pub receive_op : Batcher → Operation → Received
  unfolding consider
  receive_op b op =
      if has b.operations op.operation_id
      then goes b []
      else if b.locked
      then deadlocks
      else if contradicts b.server op && is_pending b.server op
      then refuse_client b op
      else consider b op

  -- case <-C
  unfoldable pub tick : Batcher → Received
  tick b =
      if b.ticking
      then goes (record b { operations = []; ticking = false })
          (batch (list_ops_from_map range b.operations) ∷ [])
      else goes b []

  unfoldable pub handle : Batcher → Event → Received
  unfolding receive_op tick
  handle b (received op) = receive_op b op
  handle b ticked = tick b
  handle b (outside server locked) = goes (record b { server = server; locked = locked }) []

  -- A run, after which `sent` has grown by what was sent.
  unfoldable pub run_events : Batcher → List Sent → List Event → Received
  unfolding handle
  run_events b sent [] = goes b sent
  run_events b sent (e ∷ events) = elim (handle b e) [
    | goes b' more ↦ run_events b' (sent ++ more) events
    | deadlocks ↦ deadlocks
    | spins ↦ spins
  ]

-- ===== src/P2p/Batches/Refusals.antt =====
-- Operations that contradict the confirmed files.
use miner.Prelude.{true, false, [], ◌∷◌, ◌≡◌}
use miner.Prelude.GoMap.{has, delete}
use miner.Operation.{Operation, Order}
use miner.P2p.Batches.{Batcher, goes, deadlocks, answer, contradicts, is_pending, receive_op}

-- Let the lock be free, and let an operation of one of the miner's own clients, which is not yet in
-- the batch, create a confirmed file or append to a file that is not confirmed. Then the client is
-- answered false, and since the lock is not given back, the next operation that is not in the batch
-- stops the goroutine for ever.
pub receive_op_deadlocks :
    (range range' : Order Operation) (b : Batcher) (op later : Operation)
    → b.locked ≡ false
    → has b.operations op.operation_id ≡ false
    → contradicts b.server op ≡ true
    → is_pending b.server op ≡ true
    → has b.operations later.operation_id ≡ false
    → (b' : Batcher) × (receive_op range range' b op ≡ goes b' (answer op.operation_id false ∷ []))
      × (receive_op range range' b' later ≡ deadlocks)
unfolding receive_op
receive_op_deadlocks range range' b op later free new bad own unseen = (
  record b {
    locked = true;
    server = record b.server { client_ops = delete b.server.client_ops op.operation_id };
  },
  rw (new, receive_op, free, bad, own),
  rw (unseen, receive_op),
)

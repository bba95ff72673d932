-- ===== src/P2p/Batches/Bounds.antt =====
-- The size of the batches.
use miner.Prelude.{
  ℕ, ◌≤◌, ◌<◌, ◌≡◌, refl, inl, inr, Bool, true, false, Option, none, some, List, [], ◌∷◌, ◌++◌,
  length, length-map, arith, Bool-cases, ◌∙◌, ap, if◌then◌else◌, ◌==◌, ◌&&◌,
}
use miner.Prelude.Bytes.{Bytes}
use miner.Prelude.GoMap.{GoMap, has, length-put-le}
use miner.Prelude.Perms.{IsRange, length-perm}
use miner.Operation.{Operation, Order, list_ops_from_map}
use miner.Blockchain.{Blockchain}
use miner.Blockchain.Validation.{validate_operations}
use miner.Blockchain.Longest.{get_last_hash}
use miner.P2p.Batches.{
  max_block_size, Batcher, Sent, answer, flood, batch, Received, goes, deadlocks, spins, close_full,
  join_batch, judge, judge_at, consider, receive_op, tick, is_pending, floods, contradicts,
  refuse_client, Event, received, ticked, outside, handle, run_events,
}

-- The sizes of the batches that are sent.
abbrev pub sizes : List Sent → List ℕ
sizes [] = []
sizes (answer k b ∷ sent) = sizes sent
sizes (flood op ∷ sent) = sizes sent
sizes (batch ops ∷ sent) = length ops ∷ sizes sent

-- Every one of some numbers is at most `n`.
abbrev pub AllWithin : ℕ → List ℕ → Type 0
AllWithin n [] = Unit {0}
AllWithin n (x ∷ xs) = (x ≤ n) × AllWithin n xs

-- What is collected is less than a full batch.
abbrev pub IsOpen : Batcher → Type 0
IsOpen b = length b.operations < max_block_size

-- What holds of a result.
abbrev pub Good : Received → Type 0
Good (goes b sent) = IsOpen b × AllWithin max_block_size (sizes sent)
Good deadlocks = Unit {0}
Good spins = Unit {0}

module _ (range range' : Order Operation) (perm : IsRange range) where
  length-list_ops : (m : GoMap Operation) → length (list_ops_from_map range m) ≡ length m
  unfolding list_ops_from_map
  length-list_ops m = length-map (λ (e : Bytes × Operation). e.1) (range m) ∙ length-perm (perm m)

  sizes-floods : (b : Bool) (op : Operation) → sizes (floods b op) ≡ []
  sizes-floods true op = refl
  sizes-floods false op = refl

  sizes-snoc :
      (b : Bool) (op : Operation) (ops : List Operation)
      → sizes (floods b op ++ batch ops ∷ []) ≡ length ops ∷ []
  sizes-snoc true op ops = refl
  sizes-snoc false op ops = refl

  Good-if : (t : Bool) (x y : Received) → Good x → Good y → Good (if t then x else y)
  Good-if true x y h k = h
  Good-if false x y h k = k

  close_full-Good :
      (b : Batcher) (pending : Bool) (op : Operation)
      → length b.operations ≤ max_block_size
      → Good (close_full range b (floods pending op))
  unfolding close_full
  close_full-Good b pending op le = elim (Bool-cases (length b.operations == max_block_size)) [
    | inl full ↦
        rw (full, close_full)
          (
            omega arith,
            rw (sizes-snoc pending op (list_ops_from_map range b.operations))
                (omega (arith, length-list_ops b.operations), tt),
          )
    | inr more ↦ rw (more, close_full) (ground arith, rw (sizes-floods pending op) tt)
  ]

  join_batch-Good : (b : Batcher) (op : Operation) → IsOpen b → Good (join_batch range b op)
  unfolding join_batch
  join_batch-Good b op h =
      close_full-Good _ (is_pending b.server op) op
        (omega (arith, length-put-le b.operations op.operation_id op))

  judge-Good :
      (b : Batcher) (op : Operation) (r : Option (List Operation × Bool))
      → IsOpen b
      → Good (judge range b op r)
  judge-Good b op none h = tt
  judge-Good b op (some (ops, true)) h = join_batch-Good b op h
  judge-Good b op (some (ops, false)) h = (h, tt)

  consider-Good : (b : Batcher) (op : Operation) → IsOpen b → Good (consider range range' b op)
  unfolding consider
  consider-Good b op h = at_hash (get_last_hash b.server.bc)
    where
      at_hash : (r : Option (Blockchain × Bytes)) → Good (judge_at range range' b op r)
      at_hash none = tt
      at_hash (some (bc, hash)) =
          judge-Good (record b { server = record b.server { bc = bc } }) op
            (validate_operations range range' bc (op ∷ []) hash) h

  receive_op-Good : (b : Batcher) (op : Operation) → IsOpen b → Good (receive_op range range' b op)
  unfolding receive_op
  receive_op-Good b op h =
      Good-if (has b.operations op.operation_id) (goes b []) _ (h, tt)
        (Good-if b.locked deadlocks _ tt (
          Good-if (contradicts b.server op && is_pending b.server op) (refuse_client b op)
            (consider range range' b op) (h, tt) (consider-Good b op h)))

  tick-Good : (b : Batcher) → IsOpen b → Good (tick range range' b)
  unfolding tick
  tick-Good b h =
      Good-if b.ticking _ (goes b [])
        (omega arith, (omega (arith, length-list_ops b.operations), tt)) (h, tt)

  handle-Good : (b : Batcher) (e : Event) → IsOpen b → Good (handle range range' b e)
  unfolding handle
  handle-Good b (received op) h = receive_op-Good b op h
  handle-Good b ticked h = tick-Good b h
  handle-Good b (outside server locked) h = (h, tt)

  AllWithin-append :
      (n : ℕ) (xs ys : List ℕ) → AllWithin n xs → AllWithin n ys → AllWithin n (xs ++ ys)
  AllWithin-append n [] ys h k = k
  AllWithin-append n (x ∷ xs) ys h k = (h.0, AllWithin-append n xs ys h.1 k)

  sizes-append : (s t : List Sent) → sizes (s ++ t) ≡ sizes s ++ sizes t
  sizes-append [] t = refl
  sizes-append (answer k b ∷ s) t = sizes-append s t
  sizes-append (flood op ∷ s) t = sizes-append s t
  sizes-append (batch ops ∷ s) t = ap (◌∷◌ (length ops)) (sizes-append s t)

  -- From a goroutine that has collected less than a full batch, whatever messages arrive and whatever
  -- the other goroutines do to the shared state in between, every batch that it has sent, as long as
  -- it goes on, has at most `MAX_BLOCK_SIZE` operations.
  pub run_within :
      (b : Batcher) (sent : List Sent) (events : List Event)
      → IsOpen b
      → AllWithin max_block_size (sizes sent)
      → Good (run_events range range' b sent events)
  unfolding run_events
  run_within b sent [] h k = (h, k)
  run_within b sent (e ∷ events) h k =
      go (handle range range' b e) (handle-Good b e h)
        (λ b' more. run_within b' (sent ++ more) events)
    where
      go :
          (r : Received)
          → Good r
          → ((b' : Batcher) (more : List Sent)
              → IsOpen b'
              → AllWithin max_block_size (sizes (sent ++ more))
              → Good (run_events range range' b' (sent ++ more) events))
          → Good (elim r [
            | goes b' more ↦ run_events range range' b' (sent ++ more) events
            | deadlocks ↦ deadlocks
            | spins ↦ spins
          ])
      go (goes b' more) (h', w) rest = rest b' more h' (
          rw (sizes-append sent more)
            (AllWithin-append max_block_size (sizes sent) (sizes more) k w))
      go deadlocks w rest = tt
      go spins w rest = tt

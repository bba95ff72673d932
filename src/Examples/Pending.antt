-- ===== src/Examples/Pending.antt =====
-- The theorem on pending operations, at a small input.
use miner.Prelude.{◌≡◌, refl, ◌≢◌, Bool, true, false, some, List, [], ◌∷◌, In, arith, ap}
use miner.Prelude.Bytes.{Bytes, dec_bytes}
use miner.Prelude.GoMap.{get}
use miner.Operation.{Operation, create}
use miner.Block.{Block, new_genesis_block}
use miner.Blockchain.Validation.Survivors.{ids, chain_ops}
use miner.P2p.Server.{Server, deadlocks, check_confirmed_operations}
use miner.P2p.Server.Deadlock.{check_confirmed_operations-deadlocks}
use miner.Examples.{
  in_order, in_order-IsRange, note, idle_block, op_block, top_block, top_tree, top_tree_good,
}
use miner.Examples.Files.{root, top_tree', last_of_top_tree, top-IsChain}

-- Clients wait for two creations that are not on the chain.
abbrev first : Operation
first = record note { op = create; filename = 103 ∷ []; operation_id = 8 ∷ [] }

abbrev second : Operation
second = record note { op = create; filename = 104 ∷ []; operation_id = 9 ∷ [] }

abbrev waiting : Server
waiting = record {
  bc = top_tree;
  miner_id = 7 ∷ [];
  confirmed_files = [];
  client_ops = (8 ∷ [], first) ∷ (9 ∷ [], second) ∷ [];
  is_connected = true;
}

abbrev chain : List Block
chain = top_block ∷ op_block ∷ idle_block ∷ root ∷ []

-- The batch has been sent to the worker.
abbrev nothing : Bytes → Bool
nothing id = false

found_first : get waiting.client_ops (8 ∷ []) ≡ some first
unfolding get dec_bytes
found_first = refl

found_second : get waiting.client_ops (9 ∷ []) ≡ some second
unfolding get dec_bytes
found_second = refl

apart : first ≢ second
apart e = let other = ap (λ (o : Operation). o.operation_id) e in cc

first_absent : ¬ In first.operation_id (ids (chain_ops chain))
unfolding chain_ops new_genesis_block
first_absent = λ m. ground arith

second_absent : ¬ In second.operation_id (ids (chain_ops chain))
unfolding chain_ops new_genesis_block
second_absent = λ m. ground arith

check_confirmed_operations-deadlocks_example :
    check_confirmed_operations nothing false in_order waiting ≡ deadlocks
check_confirmed_operations-deadlocks_example =
    check_confirmed_operations-deadlocks nothing top_tree top_tree' 3 [] chain top_tree_good.0
      last_of_top_tree top-IsChain in_order waiting false (8 ∷ []) (9 ∷ []) first second
      in_order-IsRange refl found_first found_second apart first_absent second_absent refl refl

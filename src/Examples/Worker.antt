-- ===== src/Examples/Worker.antt =====
-- The theorems on the worker, on the mining loop and on swapping, at small inputs.
use mathlib.Core.List.{reverse}
use miner.Prelude.{ℕ, ◌+◌, ◌<◌, ◌≤◌, ◌≡◌, refl, Bool, true, some, [], ◌∷◌, length, arith}
use miner.Prelude.SwapEnds.{swap_ends, swap_ends-reverse}
use miner.Prelude.Int.{pos, ◌-ℤ◌, ◌+ℤ◌}
use miner.Prelude.Bytes.{dec_bytes}
use miner.Prelude.GoMap.{get, put}
use miner.Operation.{list_ops_from_map}
use miner.Operation.Filter.{filter_invalid_operations, filter_step}
use miner.Block.{Block}
use miner.Pow.{zero_hash, validate, new_proof_of_work, new_block, run, meets}
use miner.Blockchain.{Blockchain, new_blockchain}
use miner.Blockchain.Add.{attach}
use miner.Blockchain.Walk.{for_parents}
use miner.Blockchain.Validation.{validate_operations}
use miner.Blockchain.Longest.{get_last_blocks, get_last_hash, get_last_nodes}
use miner.Worker.{Worker, new_worker, batch, mines, start_mining}
use miner.Worker.Batch.{start_mining-IsMined}
use miner.P2p.Mining.{mine, finished, starts, adds, goes, mining_loop, new_mining}
use miner.P2p.Mining.Starts.{num_starts, num_adds, busy, mining_loop-starts, mining_loop_wedged}
use miner.Examples.{codec, in_order, note, idle_block, idle_tree}

abbrev idle_tree' : Blockchain
idle_tree' = record idle_tree { last_node = 1 }

abbrev worker : Worker
worker = new_worker (7 ∷ []) 1 1

abbrev mined : Block
mined = record {
  header = record { timestamp = pos 5; operations = note ∷ []; previous_hash = 1 ∷ [] };
  miner_id = 7 ∷ [];
  hash = zero_hash;
  nonce = pos 0;
}

last : get_last_hash idle_tree ≡ some (idle_tree', idle_block.hash)
unfolding get_last_hash get_last_nodes attach new_blockchain
last = refl

tip : get_last_blocks idle_tree' ≡ some (idle_tree', idle_block ∷ [])
unfolding get_last_blocks get_last_nodes attach new_blockchain
tip = refl

block_mined :
    start_mining in_order in_order codec
      (λ less ops. ops)
      1
      (pos 5)
      worker
      idle_tree
      (batch (note ∷ []))
    ≡ mines mined
unfolding start_mining filter_invalid_operations filter_step get put dec_bytes get_last_hash
    get_last_blocks get_last_nodes attach new_blockchain validate_operations for_parents
    list_ops_from_map ◌-ℤ◌ ◌+ℤ◌ new_block run meets
block_mined = refl

start_mining-IsMined_example :
    (ok : Bool) × (mined.previous_hash ≡ 1 ∷ [])
    × (0 < length mined.operations)
    × (validate_operations in_order in_order idle_tree'
          (filter_invalid_operations (λ less ops. ops) (note ∷ []))
          (1 ∷ [])
        ≡ some (mined.operations, ok))
    × (mined.miner_id ≡ 7 ∷ [])
    × (validate codec (new_proof_of_work mined 1) ≡ true)
start_mining-IsMined_example =
    start_mining-IsMined in_order in_order codec (λ less ops. ops) 1 (pos 5) worker idle_tree
      idle_tree' idle_tree' (note ∷ []) idle_block mined 0 last tip block_mined refl (omega arith)

abbrev lucky : Block
lucky = record mined { nonce = pos 3 }

worked :
    mining_loop new_mining [] (mine ∷ finished lucky ∷ mine ∷ [])
    ≡ goes (record new_mining { is_mining = true }) (starts ∷ adds lucky ∷ starts ∷ [])
unfolding mining_loop
worked = refl

mining_loop-starts_example :
    num_starts (starts ∷ adds lucky ∷ starts ∷ [])
    ≤ num_adds (starts ∷ adds lucky ∷ starts ∷ []) + busy (record new_mining { is_mining = true })
mining_loop-starts_example =
    mining_loop-starts new_mining (record new_mining { is_mining = true })
      (mine ∷ finished lucky ∷ mine ∷ []) [] (starts ∷ adds lucky ∷ starts ∷ []) (omega arith)
      worked

mining_loop_wedged_example :
    mining_loop (record new_mining { is_mining = true }) [] (finished mined ∷ mine ∷ mine ∷ [])
    ≡ goes (record new_mining { is_mining = true }) []
mining_loop_wedged_example =
    mining_loop_wedged (record new_mining { is_mining = true }) (finished mined ∷ mine ∷ mine ∷ [])
      [] refl (refl, (tt, (tt, tt)))

swap_ends-reverse_example : swap_ends {A = ℕ} (1 ∷ 2 ∷ 3 ∷ []) ≡ reverse (1 ∷ 2 ∷ 3 ∷ [])
swap_ends-reverse_example = swap_ends-reverse (1 ∷ 2 ∷ 3 ∷ [])

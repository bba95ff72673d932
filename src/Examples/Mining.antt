-- ===== src/Examples/Mining.antt =====
-- The theorems about mining and about the filter, at small inputs.
use miner.Prelude.{
  ℕ, ◌+◌, ◌≡◌, refl, Bool, true, false, some, List, [], ◌∷◌, map, IsDistinct, inl, inr, arith,
}
use miner.Prelude.Int.{pos}
use miner.Operation.{Operation, Codec, create}
use miner.Operation.Filter.{Sort, is_earlier, filter_invalid_operations}
use mathlib.Core.List.Perm
use miner.Prelude.{inl, inr}
use miner.Operation.Filter.Batch.{subject, filter-IsDistinct}
use miner.Operation.Filter.Earliest.{IsSorted, IsEarliest, filter_keeps_IsEarliest}
use miner.Block.{Block}
use miner.Pow.{
  zero_hash, new_block, run, set_bytes, meets, new_proof_of_work, validate, prepare_data,
}
use miner.Pow.Validity.{
  IsMined, solves, puzzle, new_block-IsMined, new_block_returns, new_block_first,
}
use miner.Examples.{codec, note}

abbrev never : ℕ → Bool
never n = false

abbrev mined : Block
mined = record {
  header = record { timestamp = pos 5; operations = note ∷ []; previous_hash = 1 ∷ [] };
  miner_id = 7 ∷ [];
  hash = zero_hash;
  nonce = pos 0;
}

mined_found : new_block codec never 1 (note ∷ []) (1 ∷ []) (7 ∷ []) 2 (pos 5) ≡ some mined
unfolding new_block run meets
mined_found = refl

new_block-IsMined_example : IsMined codec never (note ∷ []) (1 ∷ []) (7 ∷ []) 2 (pos 5) mined 0
new_block-IsMined_example =
    new_block-IsMined codec never (note ∷ []) (1 ∷ []) (7 ∷ []) 2 (pos 5) 1 mined 0 mined_found refl
      (omega arith)

-- A hash of the nonce itself, whose first solution is 4.
abbrev counting : Codec
counting = record codec { md5 = λ b. (set_bytes b + 12) ∷ [] }

abbrev fourth : Block
fourth = record {
  header = record { timestamp = pos 5; operations = []; previous_hash = 1 ∷ [] };
  miner_id = 7 ∷ [];
  hash = 1650877756406697040890514030138220959752310141907494756155408 ∷ [];
  nonce = pos 4;
}

fourth_found : new_block counting never 5 [] (1 ∷ []) (7 ∷ []) 1 (pos 5) ≡ some fourth
unfolding new_block run meets prepare_data
fourth_found = refl

new_block_first_example :
    validate counting (new_proof_of_work (record fourth { nonce = pos 3 }) 1) ≡ false
new_block_first_example =
    new_block_first counting never [] (1 ∷ []) (7 ∷ []) 1 (pos 5) 5 fourth 4 3 fourth_found refl
      (omega arith) (omega arith)

zero_solves : solves codec (puzzle codec never (note ∷ []) (1 ∷ []) (7 ∷ []) 2 (pos 5)) 0 ≡ true
unfolding meets new_proof_of_work
zero_solves = refl

new_block_returns_example :
    (b : Block) × (new_block codec never 1 (note ∷ []) (1 ∷ []) (7 ∷ []) 2 (pos 5) ≡ some b)
new_block_returns_example =
    new_block_returns codec never (note ∷ []) (1 ∷ []) (7 ∷ []) 2 (pos 5) 0 zero_solves

abbrev rival : Operation
rival = record note { op = create; miner_id = 6 ∷ []; operation_id = 4 ∷ []; timestamp = pos 9 }

abbrev mine : Operation
mine = record note { op = create; operation_id = 3 ∷ [] }

abbrev batch : List Operation
batch = note ∷ mine ∷ rival ∷ []

abbrev as_sorted : Sort
as_sorted less ops = ops

filter-IsDistinct_example : IsDistinct (map subject (filter_invalid_operations as_sorted batch))
filter-IsDistinct_example = filter-IsDistinct as_sorted batch

batch-IsSorted : IsSorted is_earlier batch (as_sorted is_earlier batch)
batch-IsSorted = record {
  same = Perm.refl batch;
  ordered = (
    (λ o i. elim i [ inl e ↦ rw e refl | inr j ↦ elim j [ inl e ↦ rw e refl | inr z ↦ absurd z ] ]),
    ((λ o i. elim i [ inl e ↦ rw e refl | inr z ↦ absurd z ]), ((λ o i. absurd i), tt)),
  );
}

filter_keeps_IsEarliest_example :
    (first : Operation) × (subject rival ≡ subject first) × IsEarliest as_sorted batch first
filter_keeps_IsEarliest_example =
    filter_keeps_IsEarliest as_sorted batch rival batch-IsSorted (inr (inr (inl refl)))

-- ===== src/Worker/Batch.antt =====
-- What is mined from a batch.
use miner.Prelude.{
  ℕ, ◌<◌, ◌≡◌, inl, inr, Bool, true, Option, none, some, List, [], ◌∷◌, arith, length, leb, ltb,
  if◌then◌else◌, Option-cases, Bool-cases, ◌∙◌, sym, ap,
}
use miner.Prelude.Int.{ℤ, pos}
use miner.Prelude.Bytes.{Bytes}
use miner.Operation.{Operation, Order, Codec}
use miner.Operation.Filter.{Sort, filter_invalid_operations}
use miner.Block.{Block}
use miner.Pow.{new_block, new_proof_of_work, validate, max_nonce}
use miner.Pow.Validity.{new_block-IsMined}
use miner.Blockchain.{Blockchain}
use miner.Blockchain.Validation.{validate_operations}
use miner.Blockchain.Longest.{get_last_blocks, get_last_hash}
use miner.Worker.{
  Worker, Choice, batch, mines, choose_all, choose, sent, mine_choice, start_mining, never,
}

-- The first round takes over whatever is valid.
taken :
    (valid : List Operation) (hash : Bytes) (c : Choice)
    → some (
        if leb 0 (length valid)
        then record { best_ops = valid; prev_hash = hash }
        else record { best_ops = []; prev_hash = hash })
      ≡ some c
    → record { best_ops = valid; prev_hash = hash } ≡ c
taken valid hash c e = ground arith

-- With one longest branch.
one_tip :
    (range range' : Order Operation) (bc : Blockchain) (ops : List Operation) (tip : Block)
    (c : Choice)
    → choose_all range range' bc ops (record { best_ops = []; prev_hash = tip.hash }) (tip ∷ [])
      ≡ some c
    → (ok : Bool) × (validate_operations range range' bc ops c.prev_hash ≡ some (c.best_ops, ok))
      × (c.prev_hash ≡ tip.hash)
unfolding choose_all
one_tip range range' bc ops tip c e =
    elim (Option-cases (validate_operations range range' bc ops tip.hash)) [
      | inl gone ↦ absurd (cc (rw (gone, choose_all) at e))
      | inr ((valid, ok), found) ↦
          let is : record { best_ops = valid; prev_hash = tip.hash } ≡ c =
            taken valid tip.hash c (rw (found, choose_all) at e) in
          (
            ok,
            ap (λ (x : Choice). validate_operations range range' bc ops x.prev_hash) (sym is)
                ∙ found
                ∙ ap (λ (x : Choice). some (x.best_ops, ok)) is,
            sym (ap (λ (x : Choice). x.prev_hash) is),
          )
    ]

sent-mines : (r : Option Block) (b : Block) → sent r ≡ mines b → r ≡ some b
sent-mines none b e = cc
sent-mines (some x) b e = ground arith

mine_choice-mines :
    (c : Codec) (fuel : ℕ) (now : ℤ) (w : Worker) (choice : Choice) (b : Block)
    → mine_choice c fuel now w (some choice) ≡ mines b
    → (0 < length choice.best_ops)
      × (new_block c never fuel choice.best_ops choice.prev_hash w.miner_id w.pow_per_op_block now
          ≡ some b)
mine_choice-mines c fuel now w choice b e = elim (Bool-cases (ltb 0 (length choice.best_ops))) [
  | inl more ↦ (ground arith, sent-mines _ b (rw more at e))
  | inr empty ↦ absurd (cc (rw empty at e))
]

-- Let the tree have one longest branch, and let the worker mine a batch with a nonce in the
-- searched range. Then the block stands on the last block of that branch, has at least one
-- operation, and its operations are those that `ValidateOperations` lets pass there out of the
-- filtered batch; it is the worker's, and passes `Validate` at the worker's difficulty.
pub start_mining-IsMined :
    (range range' : Order Operation) (c : Codec) (sort : Sort) (fuel : ℕ) (now : ℤ) (w : Worker)
    (bc bc' bc'' : Blockchain) (ops : List Operation) (tip b : Block) (k : ℕ)
    → get_last_hash bc ≡ some (bc', tip.hash)
    → get_last_blocks bc' ≡ some (bc'', tip ∷ [])
    → start_mining range range' c sort fuel now w bc (batch ops) ≡ mines b
    → b.nonce ≡ pos k
    → k < max_nonce
    → (ok : Bool) × (b.previous_hash ≡ tip.hash)
      × (0 < length b.operations)
      × (validate_operations range range' bc'' (filter_invalid_operations sort ops) tip.hash
          ≡ some (b.operations, ok))
      × (b.miner_id ≡ w.miner_id)
      × (validate c (new_proof_of_work b w.pow_per_op_block) ≡ true)
unfolding start_mining
start_mining-IsMined range range' c sort fuel now w bc bc' bc'' ops tip b k last tips run is lt =
    let filtered = filter_invalid_operations sort ops in
    let run' = rw (last, choose, tips, start_mining) at run in
    elim (Option-cases (
      choose_all range range' bc'' filtered (record { best_ops = []; prev_hash = tip.hash })
        (tip ∷ []))) [
          | inl gone ↦ absurd (cc (rw gone at run'))
          | inr (choice, found) ↦
              let (more, mined) = mine_choice-mines c fuel now w choice b (rw found at run') in
              let (same, prev, id, valid, _) =
                new_block-IsMined c never choice.best_ops choice.prev_hash w.miner_id
                  w.pow_per_op_block now fuel b k mined is lt in
              let (ok, good, at_tip) = one_tip range range' bc'' filtered tip choice found in
              (ok, prev ∙ at_tip, rw same more, rw (same, ← at_tip, good), id, valid)
        ]

-- ===== src/Blockchain/Add/Admits.antt =====
-- What each answer of `AddBlock` says of the block and the tree.
use miner.Prelude.{
  ℕ, ◌*◌, ◌^◌, ◌%◌, ◌≡◌, refl, ◌≢◌, ◌↔◌, inl, inr, true, false, Option, none, some, List, [], ◌∷◌,
  Option-cases, sym, ap, ◌∙◌, subst,
}
use miner.Prelude.Bytes.{Bytes}
use miner.Prelude.GoMap.{get, has, is_some}
use miner.Prelude.Perms.{IsRange}
use miner.Settings.{Settings}
use miner.Operation.{Operation, Order, Codec}
use miner.Block.{Block}
use miner.Pow.{set_bytes, prepare_data, validate, new_proof_of_work}
use miner.Pow.Validity.{meets_iff}
use miner.Blockchain.{Blockchain}
use miner.Blockchain.Walk.{IsChain}
use miner.Blockchain.Shape.{IsValid}
use miner.Blockchain.Queries.{get_block, block_at, block_of}
use miner.Blockchain.Validation.{validate_operations}
use miner.Blockchain.Validation.Accepted.{IsAccepted}
use miner.Blockchain.Soundness.{validate_operations-IsAccepted}
use miner.Blockchain.Add.{
  Added, added, refused, loops, block_exists, pow_failed, operations_invalid, missing_previous,
  add_block, block_difficulty,
}
use miner.Blockchain.Add.Outcome.{
  Outcome, known, idle, unsound, orphaned, grew, stuck, worked, add_block_cases,
  validate_operations-ne-none,
}

-- How many hexadecimal digits of the hash are to be zero.
abbrev pub zeros_due : Settings → List Operation → ℕ
zeros_due s [] = s.pow_per_no_op_block
zeros_due s (o ∷ ops) = s.pow_per_op_block

module _ (c : Codec) (range range' : Order Operation) (bc : Blockchain) (block : Block) where
  -- The hash of the block's data ends in so many zero digits.
  abbrev pub ZerosAt : ℕ → Type 0
  ZerosAt digits =
      set_bytes
          (c.md5 (prepare_data c (record { block = block; difficulty = digits * 4 }) block.nonce))
        % 2 ^ (digits * 4)
      ≡ 0

  -- As many as the settings ask for, of a block with or without operations.
  abbrev pub HasWork : Type 0
  HasWork = ZerosAt (zeros_due bc.config block.operations)

  -- The chain that the block is put on, and what its operations are there.
  abbrev pub HasParent : Type 0
  HasParent =
      (a : ℕ) × (bs : List Block) × (get bc.m block.previous_hash ≡ some a)
      × IsChain bc.nodes (some a) bs
      × IsAccepted bc.config block.operations bs

  abbrev pub Says : Added → Type 0
  Says (added bc') = (get_block bc block.hash ≡ none) × HasWork × HasParent
  Says (refused block_exists) = (b : Block) × (get_block bc block.hash ≡ some b)
  Says (refused pow_failed) = (get_block bc block.hash ≡ none) × (¬ HasWork)
  Says (refused operations_invalid) =
      (get_block bc block.hash ≡ none) × HasWork × (block.operations ≢ [])
  Says (refused missing_previous) =
      (get_block bc block.hash ≡ none) × HasWork × (get_block bc block.previous_hash ≡ none)
  Says loops = ⊥

  difficulty_due :
      (ops : List Operation)
      → block.operations ≡ ops
      → block_difficulty bc block ≡ zeros_due bc.config ops
  difficulty_due [] e = rw e refl
  difficulty_due (o ∷ ops) e = rw e refl

  worked_iff : (worked c range range' bc block ≡ true) ↔ HasWork
  unfolding validate new_proof_of_work
  worked_iff =
      subst (λ d. (worked c range range' bc block ≡ true) ↔ ZerosAt d)
        (difficulty_due block.operations refl)
        (meets_iff (block_difficulty bc block * 4) (
          c.md5 (prepare_data c (new_proof_of_work block (block_difficulty bc block)) block.nonce)))

  lacks_work : worked c range range' bc block ≡ false → ¬ HasWork
  lacks_work e h = let y = worked_iff.1 h in cc

  unknown : (k : Bytes) → get bc.m k ≡ none → get_block bc k ≡ none
  unfolding get_block
  unknown k e = ap (block_at bc) e

  new_hash : has bc.m block.hash ≡ false → get_block bc block.hash ≡ none
  new_hash e = unknown block.hash (not_there (get bc.m block.hash) e)
    where
      not_there : (o : Option ℕ) → is_some o ≡ false → o ≡ none
      not_there none h = refl
      not_there (some a) h = absurd (cc)

  module _ (perm : IsRange range) (perm' : IsRange range') (v : IsValid bc) where
    known_block : has bc.m block.hash ≡ true → (b : Block) × (get_block bc block.hash ≡ some b)
    unfolding get_block
    known_block e = elim (Option-cases (get bc.m block.hash)) [
      | inl gone ↦ absurd (cc (sym e ∙ ap (λ (o : Option ℕ). is_some o) gone))
      | inr (a, found) ↦
          let (n, at, _) = v.mapped block.hash a found in
          (n.block, ap (block_at bc) found ∙ ap block_of at)
    ]

    some_operation :
        (ops valid_ops : List Operation)
        → validate_operations range range' bc ops block.previous_hash ≡ some (valid_ops, false)
        → ops ≢ []
    unfolding validate_operations
    some_operation [] valid_ops e = cc
    some_operation (o ∷ ops) valid_ops e = λ h. cc

    Outcome-Says : (a : Added) → Outcome c range range' bc block a → Says a
    Outcome-Says _ (known old) = known_block old
    Outcome-Says _ (idle new no_work) = (new_hash new, lacks_work no_work)
    Outcome-Says _ (unsound ops new work bad) =
        (new_hash new, worked_iff.0 work, some_operation block.operations ops bad)
    Outcome-Says _ (orphaned ops new work good lost) =
        (new_hash new, worked_iff.0 work, unknown block.previous_hash lost)
    Outcome-Says _ (grew ops prev new work good found) =
        let (bs, chain, accepted) =
          validate_operations-IsAccepted range range' bc block.operations block.previous_hash prev
            ops perm perm' v found good in
        (new_hash new, worked_iff.0 work, (prev, bs, found, chain, accepted))
    Outcome-Says _ (stuck forever) =
        absurd (
          validate_operations-ne-none range range' bc block.operations block.previous_hash v
            forever)

    -- On a valid tree `AddBlock` returns, and its answer says of the block: if it is added, its hash is
    -- new, the hash of its data ends in as many zero digits as are due, and it stands on a chain of the
    -- tree where its operations have new and distinct IDs and can be paid; if it is refused, its hash
    -- is known, or the zero digits are not there, or they are and it has operations, or they are and
    -- its parent is missing, as the error says.
    pub add_block-Says : Says (add_block c range range' bc block)
    add_block-Says =
        Outcome-Says (add_block c range range' bc block) (add_block_cases c range range' bc block)

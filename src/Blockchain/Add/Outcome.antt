-- ===== src/Blockchain/Add/Outcome.antt =====
-- What `AddBlock` answers, on every branch, and what it changes.
use miner.Prelude.{
  ite, ℕ, ◌+◌, ◌<◌, ◌≡◌, refl, ◌≢◌, inl, inr, Option, none, some, List, [], ◌∷◌, length, Bool, true,
  false, arith, subst, sym, Bool-cases, Option-cases, lt-length_of_get_elem?,
}
use miner.Prelude.Bytes.{Bytes, dec_bytes}
use miner.Prelude.GoMap
use miner.Prelude.GoMap.{get, put, keys, get-put, length-put, put-IsDistinct, has}
use miner.Operation.{Operation, Order, Codec}
use miner.Block.{Block}
use miner.Blockchain.{Blockchain}
use miner.Blockchain.Walk.{IsChain, for_blocks, for_parents-IsChain, next}
use miner.Blockchain.Shape.{IsValid}
use miner.Pow.{new_proof_of_work, validate}
use miner.Blockchain.Queries.{get_block, get_size}
use miner.Blockchain.Validation.{validate_operations, walk_balances, settle, enter_all, Tally}
use miner.Blockchain.Add.{
  attach, add_block, block_difficulty, Added, added, refused, loops, block_exists, pow_failed,
  operations_invalid, missing_previous,
}
use miner.Blockchain.Add.Invariant.{attach-IsValid}
use miner.Blockchain.Add.Reads.{get_block-attach, get_size-attach}

-- On a valid tree the walk ends, and is the loop over the blocks of the chain.
pub walk_balances-IsValid :
    (bc : Blockchain) (a : ℕ) (t : Tally)
    → IsValid bc
    → a < length bc.nodes
    → (bs : List Block) × IsChain bc.nodes (some a) bs
      × (walk_balances bc (some a) t ≡ some (for_blocks (λ b s. next (settle bc.config b s)) bs t))
unfolding walk_balances
walk_balances-IsValid bc a t v below =
    let (bs, c, le) = v.grounded a below in
    (
      bs,
      c,
      for_parents-IsChain (length bc.nodes) bc.nodes (λ b s. next (settle bc.config b s)) (some a)
          bs c le t,
    )

pub validate_operations-ne-none :
    (range range' : Order Operation) (bc : Blockchain) (ops : List Operation) (prev : Bytes)
    → IsValid bc
    → validate_operations range range' bc ops prev ≢ none
unfolding validate_operations
validate_operations-ne-none range range' bc [] prev v = λ e. cc
validate_operations-ne-none range range' bc (o ∷ ops) prev v = elim (Option-cases (get bc.m prev)) [
  | inl gone ↦ λ e. cc (rw (gone, validate_operations) at e)
  | inr (a, found) ↦
      let (n, at, _) = v.mapped prev a found in
      let (bs, _, w) =
        walk_balances-IsValid bc a (enter_all (o ∷ ops)) v
          (lt-length_of_get_elem? bc.nodes a n at) in
      λ e. cc (rw (found, validate_operations, w) at e)
]

module _ (c : Codec) (range range' : Order Operation) (bc : Blockchain) (block : Block) where
  abbrev pub checked : Option (List Operation × Bool)
  checked = validate_operations range range' bc block.operations block.previous_hash

  abbrev pub worked : Bool
  worked = validate c (new_proof_of_work block (block_difficulty bc block))

  -- The ways in which a call can end.
  pub data Outcome : Added → Type 0 where
    known : has bc.m block.hash ≡ true → Outcome (refused block_exists)
    idle : has bc.m block.hash ≡ false → worked ≡ false → Outcome (refused pow_failed)
    unsound :
        (ops : List Operation)
        → has bc.m block.hash ≡ false
        → worked ≡ true
        → checked ≡ some (ops, false)
        → Outcome (refused operations_invalid)
    orphaned :
        (ops : List Operation)
        → has bc.m block.hash ≡ false
        → worked ≡ true
        → checked ≡ some (ops, true)
        → get bc.m block.previous_hash ≡ none
        → Outcome (refused missing_previous)
    grew :
        (ops : List Operation) (prev : ℕ)
        → has bc.m block.hash ≡ false
        → worked ≡ true
        → checked ≡ some (ops, true)
        → get bc.m block.previous_hash ≡ some prev
        → Outcome (added (attach bc block prev))
    stuck : checked ≡ none → Outcome loops

  -- The guards that have been passed where `AddBlock` ends.
  pub add_block_cases : Outcome (add_block c range range' bc block)
  unfolding add_block
  add_block_cases = elim (Bool-cases (has bc.m block.hash)) [
    | inl old ↦ rw old (known old)
    | inr new ↦ elim (Bool-cases worked) [
      | inr no_work ↦ rw (new, no_work) (idle new no_work)
      | inl work ↦ elim (Option-cases checked) [
        | inl forever ↦ rw (new, work, forever) (stuck forever)
        | inr ((ops, false), bad) ↦ rw (new, work, bad) (unsound ops new work bad)
        | inr ((ops, true), good) ↦ elim (Option-cases (get bc.m block.previous_hash)) [
          | inl lost ↦ rw (new, work, good, add_block, lost) (orphaned ops new work good lost)
          | inr (prev, found) ↦
              rw (new, work, good, add_block, found) (grew ops prev new work good found)
        ]
      ]
    ]
  ]

  -- What is known when a block has been added.
  pub record Admission (bc' : Blockchain) : Type 0 where
    pub fresh : get bc.m block.hash ≡ none
    pub work : worked ≡ true
    pub ops : List Operation
    pub sound : checked ≡ some (ops, true)
    pub prev : ℕ
    pub found : get bc.m block.previous_hash ≡ some prev
    pub result : bc' ≡ attach bc block prev

  fresh_of_has : (o : Option ℕ) → GoMap.is_some o ≡ false → o ≡ none
  fresh_of_has none h = refl
  fresh_of_has (some a) h = cc

  admission : (o : Added) → Outcome o → (bc' : Blockchain) → o ≡ added bc' → Admission bc'
  admission _ (known _) bc' e = cc
  admission _ (idle _ _) bc' e = cc
  admission _ (unsound _ _ _ _) bc' e = cc
  admission _ (orphaned _ _ _ _ _) bc' e = cc
  admission _ (stuck _) bc' e = cc
  admission _ (grew ops prev new work good found) bc' e = record {
    fresh = fresh_of_has (get bc.m block.hash) new;
    work = work;
    ops = ops;
    sound = good;
    prev = prev;
    found = found;
    result = ground arith;
  }

  pub add_block-Admission :
      (bc' : Blockchain) → add_block c range range' bc block ≡ added bc' → Admission bc'
  add_block-Admission bc' e = admission (add_block c range range' bc block) add_block_cases bc' e

  -- On a valid tree the call returns.
  stuck_impossible : (o : Added) → Outcome o → IsValid bc → o ≢ loops
  stuck_impossible _ (known _) v = λ e. cc
  stuck_impossible _ (idle _ _) v = λ e. cc
  stuck_impossible _ (unsound _ _ _ _) v = λ e. cc
  stuck_impossible _ (orphaned _ _ _ _ _) v = λ e. cc
  stuck_impossible _ (grew _ _ _ _ _ _) v = λ e. cc
  stuck_impossible _ (stuck forever) v =
      absurd
        (validate_operations-ne-none range range' bc block.operations block.previous_hash v forever)

  -- On a valid tree `AddBlock` returns: the walk over the parents ends.
  pub add_block-ne-loops : IsValid bc → add_block c range range' bc block ≢ loops
  add_block-ne-loops v = stuck_impossible (add_block c range range' bc block) add_block_cases v

  -- A block that `AddBlock` accepts leaves a valid tree valid.
  pub add_block-IsValid :
      (bc' : Blockchain) → IsValid bc → add_block c range range' bc block ≡ added bc' → IsValid bc'
  add_block-IsValid bc' v e =
      let a = add_block-Admission bc' e in
      let (q, at, h) = v.mapped block.previous_hash a.prev a.found in
      subst IsValid (sym a.result) (attach-IsValid bc block a.prev q at v a.fresh h)

  -- After `AddBlock` has accepted a block on a valid tree, `GetBlock` finds it under its hash and
  -- finds under every other hash what it found before, and the size is one more.
  pub get_block-add_block :
      (bc' : Blockchain) (k : Bytes)
      → IsValid bc
      → add_block c range range' bc block ≡ added bc'
      → (get_block bc' k ≡ ite (dec_bytes block.hash k) (some block) (get_block bc k))
        × (get_size bc' ≡ get_size bc + 1)
        × (bc'.config ≡ bc.config)
  unfolding attach
  get_block-add_block bc' k v e =
      let a = add_block-Admission bc' e in
      let (q, at, h) = v.mapped block.previous_hash a.prev a.found in
      subst Grown (sym a.result) (
        get_block-attach bc block a.prev q at v a.fresh h k,
        get_size-attach bc block a.prev q at v a.fresh h,
        refl,
      )
    where
      Grown : Blockchain → Type 0
      Grown x =
          (get_block x k ≡ ite (dec_bytes block.hash k) (some block) (get_block bc k))
          × (get_size x ≡ get_size bc + 1)
          × (x.config ≡ bc.config)

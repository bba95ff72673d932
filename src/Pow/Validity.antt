-- ===== src/Pow/Validity.antt =====
-- Mining against checking: what `Run` and `NewBlock` return is what `Validate` accepts.
use native.Mathlib.Nat.{div-add-mod}
use miner.Prelude.{
  ℕ, zero, suc, ◌+◌, ◌%◌, ◌^◌, ◌≤◌, ◌<◌, ◌≡◌, refl, ◌↔◌, Bool, true, false, none, some, arith, List,
  inl, inr, length, Option-cases, subst, sym, ℕ_discrete, ◌≢◌,
}
use miner.Prelude.Int.{ℤ, pos}
use miner.Prelude.Bytes.{Bytes}
use miner.Operation.{Operation, Codec}
use miner.Block.{Block}
use miner.Pow.{
  ProofOfWork, max_nonce, new_proof_of_work, int_to_hex, set_bytes, meets, prepare_data, validate,
  run, new_block, unmined, zero_hash,
}

-- The shift test passes exactly if the `difficulty` low bits of the hash are zero.
pub meets_iff :
    (difficulty : ℕ) (hash : Bytes)
    → (meets difficulty hash ≡ true) ↔ (set_bytes hash % 2 ^ difficulty ≡ 0)
unfolding meets
meets_iff difficulty hash = ground (arith, div-add-mod (set_bytes hash) (2 ^ difficulty))

-- `IntToHex` writes a number below 2^63 as eight bytes, and `SetBytes` reads it back.
pub set_bytes-int_to_hex :
    (n : ℕ) → n < 2 ^ 63 → (set_bytes (int_to_hex (pos n)) ≡ n) × (length (int_to_hex (pos n)) ≡ 8)
unfolding int_to_hex
set_bytes-int_to_hex n h = (omega arith, refl)

module _ (c : Codec) (pow : ProofOfWork) where
  abbrev pub hash_at : ℕ → Bytes
  hash_at n = c.md5 (prepare_data c pow (pos n))

  abbrev pub solves : ℕ → Bool
  solves n = meets pow.difficulty (hash_at n)

  -- `k` is the first solution from `n` on.
  abbrev pub IsFirst : ℕ → ℕ → Type 0
  IsFirst n k = (n ≤ k) × (solves k ≡ true) × ((j : ℕ) → n ≤ j → j < k → solves j ≡ false)

  module _ (stopped : ℕ → Bool) where
    run_sound :
        (fuel n : ℕ) (h : Bytes) (k : ℕ) (h' : Bytes)
        → run c stopped fuel pow n h ≡ some (pos k, h')
        → k < max_nonce
        → (n ≤ k) × (solves k ≡ true) × (h' ≡ hash_at k)
    unfolding run
    run_sound zero n h k h' e lt = cc
    run_sound (suc fuel) n h k h' e lt = ground (arith, run_sound fuel (n + 1) (hash_at n) k h')

    run_first :
        (fuel n : ℕ) (h : Bytes) (k : ℕ) (h' : Bytes) (j : ℕ)
        → run c stopped fuel pow n h ≡ some (pos k, h')
        → k < max_nonce
        → n ≤ j
        → j < k
        → solves j ≡ false
    unfolding run
    run_first zero n h k h' j e lt lo hi = cc
    run_first (suc fuel) n h k h' j e lt lo hi =
        ground (arith, run_first fuel (n + 1) (hash_at n) k h' j, ℕ_discrete n j)

    run-ne-none :
        (k d fuel n : ℕ) (h : Bytes)
        → n + d ≡ k
        → d < fuel
        → solves k ≡ true
        → run c stopped fuel pow n h ≢ none
    unfolding run
    run-ne-none k d zero n h e f hit = absurd (omega arith)
    run-ne-none k zero (suc fuel) n h e f hit = ground arith
    run-ne-none k (suc d) (suc fuel) n h e f hit =
        ground (arith, run-ne-none k d fuel (n + 1) (hash_at n))

-- `NewBlock` and the checker read the same data.
module _ (c : Codec) (stopped : ℕ → Bool) (ops : List Operation) (prev m_id : Bytes)
    (difficulty : ℕ) (now : ℤ) where
  abbrev pub puzzle : ProofOfWork
  puzzle = new_proof_of_work (unmined ops prev m_id now) difficulty

  -- What a mined block has: its contents, and the first nonce that solves its puzzle.
  abbrev pub IsMined : Block → ℕ → Type 0
  IsMined b k =
      (b.operations ≡ ops)
      × (b.previous_hash ≡ prev)
      × (b.miner_id ≡ m_id)
      × (validate c (new_proof_of_work b difficulty) ≡ true)
      × (b.hash ≡ c.md5 (prepare_data c (new_proof_of_work b difficulty) b.nonce))

  sealed : ℕ → Bytes → Block
  sealed k h = record (unmined ops prev m_id now) { hash = h; nonce = pos k }

  sealed-IsMined :
      (fuel k : ℕ) (h : Bytes)
      → run c stopped fuel puzzle 0 zero_hash ≡ some (pos k, h)
      → k < max_nonce
      → IsMined (sealed k h) k
  unfolding sealed unmined new_proof_of_work validate prepare_data
  sealed-IsMined fuel k h e lt =
      let (_, hit, is) = run_sound c puzzle stopped fuel 0 zero_hash k h e lt in
      (refl, refl, refl, hit, is)

  new_block_cases :
      (fuel : ℕ) (b : Block) (k : ℕ)
      → new_block c stopped fuel ops prev m_id difficulty now ≡ some b
      → b.nonce ≡ pos k
      → (h : Bytes) × (run c stopped fuel puzzle 0 zero_hash ≡ some (pos k, h)) × (b ≡ sealed k h)
  unfolding new_block sealed
  new_block_cases fuel b k e is = elim (Option-cases (run c stopped fuel puzzle 0 zero_hash)) [
    | inl gone ↦ absurd (cc (rw (gone, new_block) at e))
    | inr ((n, h), found) ↦ let e' = rw (found, new_block) at e in (h, ground arith, ground arith)
  ]

  -- A block that `NewBlock` returns with a nonce `k` in the searched range has the operations, parent
  -- and miner that it was given, passes `Validate` at the difficulty at which it was mined, and is
  -- stamped with the hash of its data.
  pub new_block-IsMined :
      (fuel : ℕ) (b : Block) (k : ℕ)
      → new_block c stopped fuel ops prev m_id difficulty now ≡ some b
      → b.nonce ≡ pos k
      → k < max_nonce
      → IsMined b k
  new_block-IsMined fuel b k e is lt =
      let (h, found, same) = new_block_cases fuel b k e is in
      subst (λ x. IsMined x k) (sym same) (sealed-IsMined fuel k h found lt)

  -- `NewBlock` returns the first solution: with a smaller nonce the block would not pass `Validate`.
  pub new_block_first :
      (fuel : ℕ) (b : Block) (k j : ℕ)
      → new_block c stopped fuel ops prev m_id difficulty now ≡ some b
      → b.nonce ≡ pos k
      → k < max_nonce
      → j < k
      → validate c (new_proof_of_work (record b { nonce = pos j }) difficulty) ≡ false
  unfolding sealed unmined new_proof_of_work validate prepare_data
  new_block_first fuel b k j e is lt below =
      let (h, found, same) = new_block_cases fuel b k e is in
      subst (λ x. validate c (new_proof_of_work (record x { nonce = pos j }) difficulty) ≡ false)
        (sym same) (run_first c puzzle stopped fuel 0 zero_hash k h j found lt (omega arith) below)

  -- If nonce `k` solves the puzzle, `k + 1` rounds are enough for `NewBlock` to return.
  pub new_block_returns :
      (k : ℕ)
      → solves c puzzle k ≡ true
      → (b : Block) × (new_block c stopped (k + 1) ops prev m_id difficulty now ≡ some b)
  unfolding new_block
  new_block_returns k hit = elim (Option-cases (run c stopped (k + 1) puzzle 0 zero_hash)) [
    | inl gone ↦
        absurd (
          run-ne-none c puzzle stopped k k (k + 1) 0 zero_hash (omega arith) (omega arith) hit gone)
    | inr ((n, h), found) ↦
        (record (unmined ops prev m_id now) { hash = h; nonce = n }, rw (found, new_block))
  ]

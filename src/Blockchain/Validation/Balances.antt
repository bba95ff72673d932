-- ===== src/Blockchain/Validation/Balances.antt =====
-- What the walk of `ValidateOperations` leaves in `minersBalance`: coins earned less coins spent.
use miner.Prelude.{
  ℕ, ◌+◌, ◌≡◌, none, some, List, [], ◌∷◌, foldl, ite, arith, inl, inr, Option-cases,
}
use miner.Prelude.Int.{ℤ, pos, pos_part, neg_part, ◌+ℤ◌, ◌-ℤ◌, +ℤ_parts, -ℤ_parts}
use miner.Prelude.Bytes.{Bytes, dec_bytes}
use miner.Prelude.GoMap.{GoMap, get, put, get-put}
use miner.Settings.{Settings}
use miner.Operation.{Operation}
use miner.Block.{Block}
use miner.Blockchain.Walk.{next, for_blocks}
use miner.Blockchain.Validation.{
  Tally, credit, charge, drop_repeated, settle_op, settle, reward, cost,
}

-- `z'` is `z + plus - minus`.
abbrev pub Moves : ℤ → ℤ → ℕ → ℕ → Type 0
Moves z z' plus minus = pos_part z' + neg_part z + minus ≡ neg_part z' + pos_part z + plus

-- `if balance, ok := m[k]; ok { m[k] = f(balance) }`
adjust : GoMap ℤ → Bytes → (ℤ → ℤ) → GoMap ℤ
adjust m k f = elim (get m k) [ none ↦ m | some y ↦ put m k (f y) ]

get-adjust :
    (m : GoMap ℤ) (k j : Bytes) (f : ℤ → ℤ) (z : ℤ)
    → get m j ≡ some z
    → get (adjust m k f) j ≡ some (ite (dec_bytes k j) (f z) z)
unfolding adjust
get-adjust m k j f z e = elim (Option-cases (get m k)) [
  | inl no_one ↦ rw (no_one, adjust) (ground arith)
  | inr (y, found) ↦ rw (found, adjust) (ground (arith, get-put m k j (f y)))
]

module _ (config : Settings) (miner : Bytes) where
  abbrev pub spent_on : Operation → ℕ
  spent_on o = ite (dec_bytes o.miner_id miner) (cost config o) 0

  -- What a miner pays for the operations of one block.
  unfoldable pub spent_ops : List Operation → ℕ
  spent_ops [] = 0
  spent_ops (o ∷ ops) = spent_on o + spent_ops ops

  -- What a miner pays on a chain, and what it is paid for its blocks.
  unfoldable pub spent : List Block → ℕ
  spent [] = 0
  spent (b ∷ bs) = spent_ops b.operations + spent bs

  abbrev pub earned_by : Block → ℕ
  earned_by b = ite (dec_bytes b.miner_id miner) (reward config b) 0

  unfoldable pub earned : List Block → ℕ
  earned [] = 0
  earned (b ∷ bs) = earned_by b + earned bs

  -- A miner's balance after a step that moves it.
  abbrev pub Holds : GoMap ℤ → ℤ → ℕ → ℕ → Type 0
  Holds m z plus minus = (z' : ℤ) × (get m miner ≡ some z') × Moves z z' plus minus

  balances-credit :
      (t : Tally) (b : Block)
      → (credit config t b).balances
        ≡ adjust t.balances b.miner_id (λ y. y +ℤ pos (reward config b))
  unfolding credit adjust
  balances-credit t b = elim (Option-cases (get t.balances b.miner_id)) [
    | inl no_one ↦ rw (no_one, credit, adjust)
    | inr (y, found) ↦ rw (found, credit, adjust)
  ]

  balances-charge :
      (t : Tally) (o : Operation)
      → (charge config t o).balances ≡ adjust t.balances o.miner_id (λ y. y -ℤ pos (cost config o))
  unfolding charge adjust
  balances-charge t o = elim (Option-cases (get t.balances o.miner_id)) [
    | inl no_one ↦ rw (no_one, charge, adjust)
    | inr (y, found) ↦ rw (found, charge, adjust) (ground arith)
  ]

  balances-drop_repeated : (t : Tally) (o : Operation) → (drop_repeated t o).balances ≡ t.balances
  unfolding drop_repeated
  balances-drop_repeated t o = ground arith

  credit-Holds :
      (t : Tally) (b : Block) (z : ℤ)
      → get t.balances miner ≡ some z
      → Holds (credit config t b).balances z (earned_by b) 0
  credit-Holds t b z e =
      let y = z +ℤ pos (reward config b) in
      (
        ite (dec_bytes b.miner_id miner) y z,
        rw balances-credit
            (get-adjust t.balances b.miner_id miner (λ x. x +ℤ pos (reward config b)) z e),
        ground (arith, +ℤ_parts z (pos (reward config b))),
      )

  settle_op-Holds :
      (t : Tally) (o : Operation) (z : ℤ)
      → get t.balances miner ≡ some z
      → Holds (settle_op config t o).balances z 0 (spent_on o)
  unfolding settle_op
  settle_op-Holds t o z e =
      let y = z -ℤ pos (cost config o) in
      (
        ite (dec_bytes o.miner_id miner) y z,
        rw (balances-drop_repeated, balances-charge)
            (get-adjust t.balances o.miner_id miner (λ x. x -ℤ pos (cost config o)) z e),
        ground (arith, -ℤ_parts z (pos (cost config o))),
      )

  settle_ops-Holds :
      (t : Tally) (ops : List Operation) (z : ℤ)
      → get t.balances miner ≡ some z
      → Holds (foldl (settle_op config) t ops).balances z 0 (spent_ops ops)
  unfolding spent_ops
  settle_ops-Holds t [] z e = (z, e, omega arith)
  settle_ops-Holds t (o ∷ ops) z e =
      let (y, e', move) = settle_op-Holds t o z e in
      let (x, e'', move') = settle_ops-Holds (settle_op config t o) ops y e' in
      (x, e'', omega arith)

  settle-Holds :
      (t : Tally) (b : Block) (z : ℤ)
      → get t.balances miner ≡ some z
      → Holds (settle config b t).balances z (earned_by b) (spent_ops b.operations)
  unfolding settle
  settle-Holds t b z e =
      let (y, e', move) = credit-Holds t b z e in
      let (x, e'', move') = settle_ops-Holds (credit config t b) b.operations y e' in
      (x, e'', omega arith)

  -- After the walk a miner that was entered has earned less spent, as an integer.
  pub walk-Holds :
      (t : Tally) (bs : List Block) (z : ℤ)
      → get t.balances miner ≡ some z
      → Holds (for_blocks (λ b s. next (settle config b s)) bs t).balances z (earned bs) (spent bs)
  unfolding for_blocks earned spent
  walk-Holds t [] z e = (z, e, omega arith)
  walk-Holds t (b ∷ bs) z e =
      let (y, e', move) = settle-Holds t b z e in
      let (x, e'', move') = walk-Holds (settle config b t) bs y e' in (x, e'', omega arith)

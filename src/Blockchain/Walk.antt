-- ===== src/Blockchain/Walk.antt =====
-- The loop `for node != nil { …; node = node.parent }` of bclib, and the chain that it reads.
use miner.Prelude.{
  ℕ, zero, suc, ◌≤◌, ◌≡◌, refl, Option, none, some, List, [], ◌∷◌, get_elem?, length, arith, ◌∙◌,
}
use miner.Block.{Block}
use miner.Blockchain.{Node}

-- What a round of a loop does next.
pub data Flow (S : Type 0) : Type 0 where
  next : S → Flow S
  stop : S → Flow S

module _ {S : Type 0} where
  -- `none` means that the fuel ran out (or that an address is dangling, which no Go pointer is).
  unfoldable pub for_parents : ℕ → List Node → (Block → S → Flow S) → Option ℕ → S → Option S
  for_parents fuel nodes body none s = some s
  for_parents zero nodes body (some a) s = none
  for_parents (suc fuel) nodes body (some a) s = elim (get_elem? nodes a) [
    | none ↦ none
    | some n ↦ elim (body n.block s) [
      | stop s' ↦ some s'
      | next s' ↦ for_parents fuel nodes body n.parent s'
    ]
  ]

  -- The same loop over a list of blocks.
  unfoldable pub for_blocks : (Block → S → Flow S) → List Block → S → S
  for_blocks body [] s = s
  for_blocks body (b ∷ bs) s = elim (body b s) [ stop s' ↦ s' | next s' ↦ for_blocks body bs s' ]

-- `bs` are the blocks from an address up to the root, the newest first.
abbrev pub IsChain : List Node → Option ℕ → List Block → Type 0
IsChain nodes none [] = Unit {0}
IsChain nodes none (b ∷ bs) = ⊥
IsChain nodes (some a) [] = ⊥
IsChain nodes (some a) (b ∷ bs) =
    (n : Node) × (get_elem? nodes a ≡ some n) × (n.block ≡ b) × IsChain nodes n.parent bs

for_parents_step :
    {S : Type 0} (fuel : ℕ) (nodes : List Node) (body : Block → S → Flow S) (a : ℕ) (s : S)
    (n : Node)
    → get_elem? nodes a ≡ some n
    → for_parents (suc fuel) nodes body (some a) s ≡ elim (body n.block s) [
      | stop s' ↦ some s'
      | next s' ↦ for_parents fuel nodes body n.parent s'
    ]
unfolding for_parents
for_parents_step fuel nodes body a s n e = rw (e, for_parents)

for_flow :
    {S : Type 0} (fuel : ℕ) (nodes : List Node) (body : Block → S → Flow S) (p : Option ℕ)
    (bs : List Block) (fl : Flow S)
    → ((s : S) → for_parents fuel nodes body p s ≡ some (for_blocks body bs s))
    → ◌≡◌ {A = Option S}
        (elim fl [ stop s' ↦ some s' | next s' ↦ for_parents fuel nodes body p s' ])
        (some (elim fl [ stop s' ↦ s' | next s' ↦ for_blocks body bs s' ]))
for_flow fuel nodes body p bs (next s) ih = ih s
for_flow fuel nodes body p bs (stop s) ih = refl

-- With fuel for the whole chain the pointer loop is the loop over the chain's blocks.
pub for_parents-IsChain :
    {S : Type 0} (fuel : ℕ) (nodes : List Node) (body : Block → S → Flow S) (a : Option ℕ)
    (bs : List Block)
    → IsChain nodes a bs
    → length bs ≤ fuel
    → (s : S) → for_parents fuel nodes body a s ≡ some (for_blocks body bs s)
unfolding for_parents for_blocks
for_parents-IsChain fuel nodes body none [] c le s = refl
for_parents-IsChain fuel nodes body none (b ∷ bs) c le s = absurd c
for_parents-IsChain fuel nodes body (some a) [] c le s = absurd c
for_parents-IsChain zero nodes body (some a) (b ∷ bs) c le s = absurd (omega arith)
for_parents-IsChain (suc fuel) nodes body (some a) (b ∷ bs) (n, e, is, c) le s =
    for_parents_step fuel nodes body a s n e
    ∙ rw is (
        for_flow fuel nodes body n.parent bs (body b s)
          (for_parents-IsChain fuel nodes body n.parent bs c (omega arith)))

-- ===== src/Blockchain/Validation/Charges.antt =====
-- The last loop of `ValidateOperations`: either some operation is set aside as a conflict, or every
-- miner can pay for all of its operations.
use native.Mathlib.Nat.{ℕ_set}
use mathlib.Core.Logic.{∥∥₁_elim}
use mathlib.Core.List.{Perm, Permᴰ}
use miner.Prelude.{
  ℕ, ◌+◌, ◌≤◌, ◌≡◌, refl, ◌⊎◌, inl, inr, some, List, [], ◌∷◌, ◌++◌, arith, In, In-append_left,
  In-append_right, Option-cases, Bool-cases, ◌∙◌,
}
use miner.Prelude.Int.{ℤ, pos, pos_part, neg_part, ◌-ℤ◌, ltb_ℤ, -ℤ_parts}
use miner.Prelude.Bytes.{Bytes, dec_bytes}
use miner.Prelude.GoMap.{get, put, get-put}
use miner.Settings.{Settings}
use miner.Operation.{Operation}
use miner.Blockchain.Validation.{Purse, afford, afford_all, cost}
use miner.Blockchain.Validation.Balances.{spent_on, spent_ops}

-- With a balance of `z` a miner can pay `n`, or has nothing to pay.
abbrev pub CanPay : ℤ → ℕ → Type 0
CanPay z n = (n ≡ 0) ⊎ (n + neg_part z ≤ pos_part z)

-- What a round does to the purse: the operation is set aside, or paid.
data Round (config : Settings) (p : Purse) (o : Operation) (q : Purse) : Type 0 where
  set_aside : q.conflicts ≡ p.conflicts ++ o.operation_id ∷ [] → Round config p o q
  paid :
      (balance : ℤ)
      → get p.coins o.miner_id ≡ some balance
      → cost config o + neg_part balance ≤ pos_part balance
      → q.coins ≡ put p.coins o.miner_id (balance -ℤ pos (cost config o))
      → q.conflicts ≡ p.conflicts
      → Round config p o q

afford-Round :
    (config : Settings) (p : Purse) (o : Operation) (q : Purse)
    → afford config p o ≡ some q
    → Round config p o q
unfolding afford
afford-Round config p o q e = elim (Option-cases (get p.coins o.miner_id)) [
  | inl no_one ↦ absurd (cc (rw (no_one, afford) at e))
  | inr (balance, found) ↦ elim (Bool-cases (ltb_ℤ (balance -ℤ pos (cost config o)) (pos 0))) [
    | inl poor ↦ set_aside (let e' = rw (found, poor, afford) at e in ground arith)
    | inr rich ↦
        let e' = rw (found, rich, afford) at e in
        paid balance found (ground (arith, -ℤ_parts balance (pos (cost config o)))) (ground arith)
          (ground arith)
  ]
]

conflicts-Round :
    (config : Settings) (p : Purse) (o : Operation) (q : Purse) (k : Bytes)
    → Round config p o q
    → In k p.conflicts
    → In k q.conflicts
conflicts-Round config p o q k (set_aside e) h =
    rw e (In-append_left k p.conflicts (o.operation_id ∷ []) h)
conflicts-Round config p o q k (paid _ _ _ _ e) h = rw e h

abbrev pub SetAside : List Operation → Purse → Type 0
SetAside ops q = (x : Operation) × In x ops × In x.operation_id q.conflicts

module _ (config : Settings) where
  afford_all_step :
      (p : Purse) (o : Operation) (ops : List Operation) (q : Purse)
      → afford_all config p (o ∷ ops) ≡ some q
      → (p' : Purse) × Round config p o p' × (afford_all config p' ops ≡ some q)
  unfolding afford_all
  afford_all_step p o ops q e = elim (Option-cases (afford config p o)) [
    | inl gone ↦ absurd (cc (rw (gone, afford_all) at e))
    | inr (p', found) ↦ (p', afford-Round config p o p' found, rw (found, afford_all) at e)
  ]

  -- A conflict stays on the list.
  afford_all_keeps :
      (p : Purse) (ops : List Operation) (q : Purse) (k : Bytes)
      → afford_all config p ops ≡ some q
      → In k p.conflicts
      → In k q.conflicts
  unfolding afford_all
  afford_all_keeps p [] q k e h = let same : p ≡ q = ground arith in rw (← same) h
  afford_all_keeps p (o ∷ ops) q k e h =
      let (p', r, rest) = afford_all_step p o ops q e in
      afford_all_keeps p' ops q k rest (conflicts-Round config p o p' k r h)

  abbrev Paid : Bytes → Purse → List Operation → Purse → Type 0
  Paid miner p ops q =
      (q.conflicts ≡ p.conflicts)
      × ((z : ℤ) → get p.coins miner ≡ some z → CanPay z (spent_ops config miner ops))

  pay_first :
      (miner : Bytes) (p : Purse) (o : Operation) (p' : Purse) (n : ℕ)
      → (balance : ℤ) → get p.coins o.miner_id ≡ some balance
      → cost config o + neg_part balance ≤ pos_part balance
      → p'.coins ≡ put p.coins o.miner_id (balance -ℤ pos (cost config o))
      → ((z : ℤ) → get p'.coins miner ≡ some z → CanPay z n)
      → (z : ℤ) → get p.coins miner ≡ some z
      → CanPay z (spent_on config miner o + n)
  pay_first miner p o p' n balance found enough e rest z at =
      let y = balance -ℤ pos (cost config o) in
      elim (dec_bytes o.miner_id miner) [
        | yes same ↦ ground (
          arith,
          rest y,
          get-put p.coins o.miner_id miner y,
          -ℤ_parts balance (pos (cost config o)),
        )
        | no other ↦ ground (arith, rest z, get-put p.coins o.miner_id miner y)
      ]

  pub afford_all_cases :
      (miner : Bytes) (p : Purse) (ops : List Operation) (q : Purse)
      → afford_all config p ops ≡ some q
      → SetAside ops q ⊎ Paid miner p ops q
  unfolding afford_all spent_ops
  afford_all_cases miner p [] q e = inr (ground arith, λ z at. inl refl)
  afford_all_cases miner p (o ∷ ops) q e =
      let (p', r, rest) = afford_all_step p o ops q e in
      first_round p' r rest (afford_all_cases miner p' ops q rest)
    where
      first_round :
          (p' : Purse)
          → Round config p o p'
          → afford_all config p' ops ≡ some q
          → SetAside ops q ⊎ Paid miner p' ops q
          → SetAside (o ∷ ops) q ⊎ Paid miner p (o ∷ ops) q
      first_round p' (set_aside c) rest _ = inl (
        o,
        inl refl,
        afford_all_keeps p' ops q o.operation_id rest
            (rw c (In-append_right o.operation_id p.conflicts (o.operation_id ∷ []) (inl refl))),
      )
      first_round p' (paid balance found enough e' c) rest (inl (x, m, h)) = inl (x, inr m, h)
      first_round p' (paid balance found enough e' c) rest (inr (c', can)) =
          inr (
            c' ∙ c,
            pay_first miner p o p' (spent_ops config miner ops) balance found enough e' can,
          )

-- The order of the operations does not matter to what they cost.
spent_ops-permᴰ :
    (config : Settings) (miner : Bytes) {xs ys : List Operation}
    → Permᴰ xs ys
    → spent_ops config miner xs ≡ spent_ops config miner ys
unfolding spent_ops
spent_ops-permᴰ config miner Permᴰ.nil = refl
spent_ops-permᴰ config miner (Permᴰ.cons e r) = rw (e, spent_ops-permᴰ config miner r)
spent_ops-permᴰ config miner (Permᴰ.swap e e') = rw (e, e') (omega arith)
spent_ops-permᴰ config miner (Permᴰ.trans r r') =
    spent_ops-permᴰ config miner r ∙ spent_ops-permᴰ config miner r'

pub spent_ops-perm :
    (config : Settings) (miner : Bytes) {xs ys : List Operation}
    → Perm xs ys
    → spent_ops config miner xs ≡ spent_ops config miner ys
spent_ops-perm config miner p = ∥∥₁_elim p (ℕ_set _ _) (spent_ops-permᴰ config miner)

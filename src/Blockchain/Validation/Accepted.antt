-- ===== src/Blockchain/Validation/Accepted.antt =====
-- What it means that `ValidateOperations` answers true.
use mathlib.Core.Logic.{∥∥₁_elim}
use mathlib.Core.HLevel.{⊥_prop}
use mathlib.Core.List.Perm
use miner.Prelude.{
  ℕ, ◌+◌, ◌≤◌, ◌≡◌, refl, ◌≢◌, ◌⊎◌, inl, inr, true, Option, none, some, List, [], map, length,
  arith, In, IsDistinct, ==_iff, ◌∙◌, ap, length-map, In-map, In-map_cases,
}
use miner.Prelude.Int.{pos}
use miner.Prelude.Bytes.{Bytes}
use miner.Prelude.GoMap.{get}
use miner.Settings.{Settings}
use miner.Operation.{Operation, Order, list_ops_from_map}
use miner.Block.{Block}
use miner.Blockchain.Walk.{next, for_blocks}
use miner.Blockchain.Validation.{
  Tally, Purse, enter_all, no_tally, settle, afford_all, delete_all, select, conclude,
}
use miner.Blockchain.Validation.Balances.{spent_ops, spent, earned, walk-Holds}
use miner.Blockchain.Validation.Survivors.{
  entries, ids, chain_ops, walk-Survives, enter_all-Holds_all,
}
use miner.Blockchain.Validation.Entries.{
  length-delete_all-le, length-delete_all-lt, get-entries_present, values-entries, entered,
}
use miner.Prelude.Perms.{IsRange, length-perm, In-permᴰ}
use miner.Blockchain.Validation.Charges.{SetAside, afford_all_cases, spent_ops-perm}

-- The three things that a positive answer says of the new operations, over the chain that they extend.
pub record IsAccepted (config : Settings) (ops : List Operation) (bs : List Block) : Type 0 where
  pub distinct : IsDistinct (ids ops)
  pub fresh : (o x : Operation) → In o ops → In x (chain_ops bs) → o.operation_id ≢ x.operation_id
  pub affordable :
      (miner : Bytes)
      → (spent_ops config miner ops ≡ 0)
        ⊎ (spent_ops config miner ops + spent config miner bs ≤ earned config miner bs)

module _ (config : Settings) (range range' : Order Operation) (perm : IsRange range)
    (perm' : IsRange range') (ops : List Operation) (bs : List Block) where
  abbrev t : Tally
  t = for_blocks (λ b s. next (settle config b s)) bs (enter_all ops)

  abbrev left : Purse → ℕ
  left q = length (delete_all t.op_ids q.conflicts)

  -- A positive answer counts as many survivors as there are operations.
  counted :
      (r : Option Purse) (valid_ops : List Operation)
      → select range' t.op_ids (length ops) r ≡ (valid_ops, true)
      → (q : Purse) × (r ≡ some q) × (length ops ≡ left q)
  unfolding select list_ops_from_map
  counted none valid_ops e = absurd (cc (ap (λ x. x.1) e))
  counted (some q) valid_ops e = (
    q,
    refl,
    (==_iff (length ops) _).0 (ap (λ x. x.1) e)
        ∙ length-map (λ (x : Bytes × Operation). x.1) (range' (delete_all t.op_ids q.conflicts))
        ∙ length-perm (perm' (delete_all t.op_ids q.conflicts)),
  )

  walk_le : length t.op_ids ≤ length (enter_all ops).op_ids
  walk_le = elim (walk-Survives config (enter_all ops) bs) [
    | inl (e, _) ↦ omega (arith, ap length e)
    | inr lt ↦ omega arith
  ]

  whole :
      (q : Purse)
      → length ops ≡ left q
      → (t.op_ids ≡ entries ops)
        × IsDistinct (ids ops)
        × ((x : Operation) → In x (chain_ops bs) → get (entries ops) x.operation_id ≡ none)
  whole q n = elim (enter_all-Holds_all ops) [
    | inr lt ↦ absurd (omega (arith, length-delete_all-le t.op_ids q.conflicts, walk_le))
    | inl (e, d) ↦ elim (walk-Survives config (enter_all ops) bs) [
      | inr lt ↦ absurd (
          omega (
            arith,
            length-delete_all-le t.op_ids q.conflicts,
            ap length e,
            length-map {B = Bytes × Operation} (λ o. (o.operation_id, o)) ops,
          ))
      | inl (e', absent) ↦ (e' ∙ e, d, λ x m. rw e at (absent x m))
    ]
  ]

  -- So no operation was set aside.
  not-SetAside :
      (q : Purse)
      → length ops ≡ left q
      → t.op_ids ≡ entries ops
      → ¬ SetAside (list_ops_from_map range t.op_ids) q
  unfolding list_ops_from_map
  not-SetAside q n e (x, m, c) = ∥∥₁_elim (perm t.op_ids) ⊥_prop λ r.
      let (entry, there, is) = In-map_cases (λ (y : Bytes × Operation). y.1) x (range t.op_ids) m in
      let among = In-map (λ (y : Bytes × Operation). y.1) entry t.op_ids (In-permᴰ entry r there) in
      let known : In x ops = rw (← values-entries ops, ← e, is) among in
      let (y, at) =
        get-entries_present ops x.operation_id
          (In-map (λ (z : Operation). z.operation_id) x ops known) in
      omega (
        arith,
        length-delete_all-lt t.op_ids q.conflicts x.operation_id y c (rw e at),
        ap length e,
        length-map {B = Bytes × Operation} (λ o. (o.operation_id, o)) ops,
      )

  -- What is charged is the new operations, in some order.
  spent-listed :
      (miner : Bytes)
      → t.op_ids ≡ entries ops
      → spent_ops config miner (list_ops_from_map range t.op_ids) ≡ spent_ops config miner ops
  unfolding list_ops_from_map
  spent-listed miner e =
      spent_ops-perm config miner (Perm.map (λ (y : Bytes × Operation). y.1) (perm t.op_ids))
      ∙ ap (λ m. spent_ops config miner (map (λ (y : Bytes × Operation). y.1) m)) e
      ∙ ap (spent_ops config miner) (values-entries ops)

  affords :
      (q : Purse)
      → length ops ≡ left q
      → t.op_ids ≡ entries ops
      → afford_all config
          (record { coins = t.balances; conflicts = [] })
          (list_ops_from_map range t.op_ids)
        ≡ some q
      → (miner : Bytes)
      → (spent_ops config miner ops ≡ 0)
        ⊎ (spent_ops config miner ops + spent config miner bs ≤ earned config miner bs)
  affords q n e run miner = elim (entered config miner no_tally ops) [
    | inl free ↦ inl free
    | inr zero ↦
        let (z, at, move) =
          walk-Holds config miner (enter_all ops) bs (pos 0) (unfold enter_all in zero) in
        elim (afford_all_cases config miner (record { coins = t.balances; conflicts = [] })
          (list_ops_from_map range t.op_ids) q run) [
            | inl aside ↦ absurd (not-SetAside q n e aside)
            | inr (_, can) ↦ ground (arith, can z at, spent-listed miner e)
          ]
  ]

  pub conclude-IsAccepted :
      (valid_ops : List Operation)
      → conclude config range range' (length ops) t ≡ (valid_ops, true)
      → IsAccepted config ops bs
  unfolding conclude
  conclude-IsAccepted valid_ops e =
      let (q, run, n) =
        counted
          (afford_all config (record { coins = t.balances; conflicts = [] })
            (list_ops_from_map range t.op_ids))
          valid_ops e in
      let (same, d, absent) = whole q n in
      record {
        distinct = d;
        fresh = λ o x m m' is.
            let (y, at) =
              get-entries_present ops o.operation_id
                (In-map (λ (z : Operation). z.operation_id) o ops m) in
            cc (rw is at at, absent x m');
        affordable = affords q n same run;
      }

-- ===== src/Blockchain/Soundness.antt =====
-- The coins and the operation IDs on every chain of a tree that `AddBlock` grows.
pub mod Genesis
pub mod Extend
pub mod Kept
use miner.Prelude.{
  ℕ, ◌+◌, ◌≤◌, ◌<◌, ◌≡◌, refl, ◌≢◌, ◌⊎◌, inl, inr, Bool, true, Option, none, some, List, [], ◌∷◌,
  ◌++◌, arith, In, IsDistinct, length, get_elem?, ◌∙◌, sym, ap, subst, Option-cases,
  lt-length_of_get_elem?, if◌then◌else◌,
}
use miner.Prelude.Bytes.{Bytes}
use miner.Prelude.GoMap.{GoMap, get}
use miner.Prelude.Perms.{IsRange}
use miner.Settings.{Settings}
use miner.Operation.{Operation, Order, Codec}
use miner.Block.{Block}
use miner.Blockchain.{Node, Blockchain}
use miner.Blockchain.Walk.{IsChain}
use miner.Blockchain.Shape.{IsValid}
use miner.Blockchain.Validation.{validate_operations, enter_all, conclude}
use miner.Blockchain.Validation.Balances.{spent_ops, spent, earned}
use miner.Blockchain.Validation.Survivors.{ids, chain_ops}
use miner.Blockchain.Validation.Accepted.{IsAccepted, conclude-IsAccepted}
use miner.Blockchain.Add.Outcome.{walk_balances-IsValid}

-- On every chain no miner spends more than it earns there, and no operation ID occurs twice.
pub record IsSound (bc : Blockchain) : Type 0 where
  pub solvent :
      (miner : Bytes) (a : ℕ) (bs : List Block)
      → IsChain bc.nodes (some a) bs
      → spent bc.config miner bs ≤ earned bc.config miner bs
  pub unique :
      (a : ℕ) (bs : List Block) → IsChain bc.nodes (some a) bs → IsDistinct (ids (chain_ops bs))

-- An address has one chain.
pub IsChain-unique :
    (nodes : List Node) (p : Option ℕ) (bs cs : List Block)
    → IsChain nodes p bs
    → IsChain nodes p cs
    → bs ≡ cs
IsChain-unique nodes none [] [] c d = refl
IsChain-unique nodes none [] (y ∷ cs) c d = absurd d
IsChain-unique nodes none (b ∷ bs) cs c d = absurd c
IsChain-unique nodes (some a) [] cs c d = absurd c
IsChain-unique nodes (some a) (b ∷ bs) [] c d = absurd d
IsChain-unique nodes (some a) (b ∷ bs) (y ∷ cs) (n, e, is, c) (n', e', is', c') =
    let same : n ≡ n' = ground arith in
    let tail = IsChain-unique nodes n.parent bs cs c (rw (← same) at c') in ground arith

IsAccepted-nil : (config : Settings) (bs : List Block) → IsAccepted config [] bs
unfolding spent_ops
IsAccepted-nil config bs = record {
  distinct = tt;
  fresh = λ o x m _ _. m;
  affordable = λ miner. inl refl;
}

-- If `ValidateOperations` answers true on a valid tree and the parent's hash names the node `a`, then
-- over the chain of `a` the operations have IDs of their own, and IDs that the chain does not use, and
-- every miner that pays for them has the coins.
pub validate_operations-IsAccepted :
    (range range' : Order Operation) (bc : Blockchain) (ops : List Operation) (prev : Bytes) (a : ℕ)
    (valid_ops : List Operation)
    → IsRange range
    → IsRange range'
    → IsValid bc
    → get bc.m prev ≡ some a
    → validate_operations range range' bc ops prev ≡ some (valid_ops, true)
    → (bs : List Block) × IsChain bc.nodes (some a) bs × IsAccepted bc.config ops bs
unfolding validate_operations
validate_operations-IsAccepted range range' bc [] prev a valid_ops perm perm' v found e =
    let (n, at, _) = v.mapped prev a found in
    let (bs, c, _) = v.grounded a (lt-length_of_get_elem? bc.nodes a n at) in
    (bs, c, IsAccepted-nil bc.config bs)
validate_operations-IsAccepted range range' bc (o ∷ ops) prev a valid_ops perm perm' v found e =
    let (n, at, _) = v.mapped prev a found in
    let (bs, c, w) =
      walk_balances-IsValid bc a (enter_all (o ∷ ops)) v (lt-length_of_get_elem? bc.nodes a n at) in
    let e' = rw (found, validate_operations, w) at e in
    (
      bs,
      c,
      conclude-IsAccepted bc.config range range' perm perm' (o ∷ ops) bs valid_ops (ground arith),
    )

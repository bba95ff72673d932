-- ===== src/Blockchain/Soundness/Extend.antt =====
-- Soundness is kept by `AddBlock`, so it holds of every tree that grows from the genesis block.
use miner.Prelude.{
  ℕ, ◌≤◌, ◌<◌, ◌≡◌, refl, ◌⊎◌, inl, inr, some, List, [], ◌∷◌, ◌++◌, arith, In, IsDistinct,
  In-append_cases, In-map_cases, map-append, length, get_elem?, ◌∙◌, sym, subst, ℕ_discrete,
  lt-length_of_get_elem?,
}
use miner.Prelude.Bytes.{Bytes}
use miner.Prelude.Int.{ℤ}
use miner.Prelude.Perms.{IsRange}
use miner.Settings.{Settings}
use miner.Operation.{Operation, Order, Codec}
use miner.Block.{Block}
use miner.Blockchain.{Node, Blockchain, new_blockchain, new_node}
use miner.Blockchain.Walk.{IsChain}
use miner.Blockchain.Shape.{IsValid}
use miner.Blockchain.Validation.Balances.{spent, earned}
use miner.Blockchain.Validation.Survivors.{ids, chain_ops}
use miner.Blockchain.Validation.Accepted.{IsAccepted}
use miner.Blockchain.Add.{attach, add_block, added}
use miner.Blockchain.Add.Attach.{nodes', nodes-attach, length-nodes', at_child, same_links}
use miner.Blockchain.Add.Invariant.{IsChain-mono}
use miner.Blockchain.Add.Outcome.{add_block-Admission, add_block-IsValid}
use miner.Blockchain.Soundness.Genesis.{new_blockchain-IsValid, new_blockchain-IsSound}
use miner.Blockchain.Soundness.{IsSound, IsChain-unique, validate_operations-IsAccepted}

-- The IDs of a block that is accepted and those of the chain below it do not meet.
IsDistinct-append :
    {A : Type 0} (xs ys : List A)
    → IsDistinct xs
    → IsDistinct ys
    → ((x : A) → In x xs → ¬ In x ys)
    → IsDistinct (xs ++ ys)
IsDistinct-append [] ys d e apart = e
IsDistinct-append (x ∷ xs) ys d e apart = (
  λ m. elim (In-append_cases x xs ys m) [ inl l ↦ d.0 l | inr r ↦ apart x (inl refl) r ],
  IsDistinct-append xs ys d.1 e (λ y m. apart y (inr m)),
)

module _ (config : Settings) (b : Block) (bs : List Block)
    (ok : IsAccepted config b.operations bs) where
  spent_on_top :
      (miner : Bytes)
      → spent config miner bs ≤ earned config miner bs
      → spent config miner (b ∷ bs) ≤ earned config miner (b ∷ bs)
  unfolding spent earned
  spent_on_top miner h = ground (arith, ok.affordable miner)

  ids_on_top : IsDistinct (ids (chain_ops bs)) → IsDistinct (ids (chain_ops (b ∷ bs)))
  unfolding chain_ops
  ids_on_top d = rw map-append (
      IsDistinct-append (ids b.operations) (ids (chain_ops bs)) ok.distinct d λ k m m'.
        let (o, there, e) = In-map_cases (λ (x : Operation). x.operation_id) k b.operations m in
        let (x, here, e') = In-map_cases (λ (x : Operation). x.operation_id) k (chain_ops bs) m' in
        ok.fresh o x there here (sym e ∙ e'))

IsChain-lt :
    (nodes : List Node) (a : ℕ) (cs : List Block) → IsChain nodes (some a) cs → a < length nodes
IsChain-lt nodes a [] c = absurd c
IsChain-lt nodes a (b ∷ cs) (n, e, _, _) = lt-length_of_get_elem? nodes a n e

module _ (bc : Blockchain) (block : Block) (prev : ℕ) (q : Node)
    (at_prev : get_elem? bc.nodes prev ≡ some q) (v : IsValid bc) where
  -- A chain of the grown tree is an old chain, or the new block on the chain of its parent.
  chains :
      (a : ℕ) (cs : List Block)
      → IsChain (attach bc block prev).nodes (some a) cs
      → IsChain bc.nodes (some a) cs
        ⊎ ((bs : List Block) × IsChain bc.nodes (some prev) bs × (cs ≡ block ∷ bs))
  chains a cs c =
      let heap = nodes' bc block prev q at_prev in
      let c' = subst (λ ns. IsChain ns (some a) cs) (nodes-attach bc block prev q at_prev) c in
      let below = IsChain-lt heap a cs c' in
      let lift = IsChain-mono bc.nodes heap (same_links bc block prev q at_prev) in
      elim (ℕ_discrete a (length bc.nodes)) [
        | yes last ↦
            let (bs, d, _) = v.grounded prev (lt-length_of_get_elem? bc.nodes prev q at_prev) in
            inr (
              bs,
              d,
              IsChain-unique heap (some a) cs (block ∷ bs) c' (
                  subst (λ x. IsChain heap (some x) (block ∷ bs)) (sym last)
                    (
                      new_node block (some prev),
                      at_child bc block prev q at_prev,
                      refl,
                      lift (some prev) bs d,
                    )),
            )
        | no older ↦
            let (bs, d, _) = v.grounded a (omega (arith, length-nodes' bc block prev q at_prev)) in
            inl (
              subst (λ x. IsChain bc.nodes (some a) x)
                (IsChain-unique heap (some a) bs cs (lift (some a) bs d) c') d)
      ]

  -- The chain below the new block is the one over which its operations were accepted.
  module _ (h : IsSound bc) (bs : List Block) (below : IsChain bc.nodes (some prev) bs)
      (ok : IsAccepted bc.config block.operations bs) where
    attach-IsSound : IsSound (attach bc block prev)
    unfolding attach
    attach-IsSound = record {
      solvent = λ miner a cs c. solvent' miner a cs (chains a cs c);
      unique = λ a cs c. unique' a cs (chains a cs c);
    }
      where
        solvent' :
            (miner : Bytes) (a : ℕ) (cs : List Block)
            → IsChain bc.nodes (some a) cs
              ⊎ ((ds : List Block) × IsChain bc.nodes (some prev) ds × (cs ≡ block ∷ ds))
            → spent bc.config miner cs ≤ earned bc.config miner cs
        solvent' miner a cs (inl old) = h.solvent miner a cs old
        solvent' miner a cs (inr (ds, d, e)) =
            let same = IsChain-unique bc.nodes (some prev) ds bs d below in
            rw (e, same) (spent_on_top bc.config block bs ok miner (h.solvent miner prev bs below))

        unique' :
            (a : ℕ) (cs : List Block)
            → IsChain bc.nodes (some a) cs
              ⊎ ((ds : List Block) × IsChain bc.nodes (some prev) ds × (cs ≡ block ∷ ds))
            → IsDistinct (ids (chain_ops cs))
        unique' a cs (inl old) = h.unique a cs old
        unique' a cs (inr (ds, d, e)) =
            let same = IsChain-unique bc.nodes (some prev) ds bs d below in
            rw (e, same) (ids_on_top bc.config block bs ok (h.unique prev bs below))

module _ (c : Codec) (range range' : Order Operation) (perm : IsRange range)
    (perm' : IsRange range') where
  -- The trees that `AddBlock` grows from a new one.
  pub data Grows (config : Settings) (now : ℤ) : Blockchain → Type 0 where
    genesis : Grows config now (new_blockchain config now)
    grow :
        {bc bc' : Blockchain} (block : Block)
        → Grows config now bc
        → add_block c range range' bc block ≡ added bc'
        → Grows config now bc'

  -- `AddBlock` keeps the balances and the operation IDs of every chain in order.
  pub add_block-IsSound :
      (bc bc' : Blockchain) (block : Block)
      → IsValid bc
      → IsSound bc
      → add_block c range range' bc block ≡ added bc'
      → IsSound bc'
  add_block-IsSound bc bc' block v h e =
      let a = add_block-Admission c range range' bc block bc' e in
      let (q, at, _) = v.mapped block.previous_hash a.prev a.found in
      let (bs, below, ok) =
        validate_operations-IsAccepted range range' bc block.operations block.previous_hash a.prev
          a.ops perm perm' v a.found a.sound in
      subst IsSound (sym a.result) (attach-IsSound bc block a.prev q at v h bs below ok)

  -- Every tree that grows from the genesis block by `AddBlock` is valid, and on every chain of it no
  -- miner spends more than it earns there and no operation ID occurs twice.
  pub Grows-IsSound :
      {config : Settings} {now : ℤ} {bc : Blockchain}
      → Grows config now bc
      → IsValid bc × IsSound bc
  Grows-IsSound {config} {now} genesis =
      (new_blockchain-IsValid config now, new_blockchain-IsSound config now)
  Grows-IsSound (grow {bc} {bc'} block g e) =
      let (v, h) = Grows-IsSound g in
      (add_block-IsValid c range range' bc block bc' v e, add_block-IsSound bc bc' block v h e)

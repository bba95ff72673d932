-- ===== src/Blockchain/Add/Reads.antt =====
-- Reads by hash after `attach`.
use miner.Prelude.{
  ℕ, ◌+◌, ◌≡◌, inl, inr, none, some, List, length, get_elem?, arith, ap, subst, sym, ite, if_pos,
  if_neg, Option-cases,
}
use miner.Prelude.Bytes.{Bytes, dec_bytes}
use miner.Prelude.GoMap.{get, put, get-put, length-put}
use miner.Block.{Block}
use miner.Blockchain.{Node, Blockchain}
use miner.Blockchain.Shape.{IsValid}
use miner.Blockchain.Queries.{get_block, get_size, block_of}
use miner.Blockchain.Add.{attach}
use miner.Blockchain.Add.Attach.{nodes', nodes-attach, at_child, at_old}

module _ (bc : Blockchain) (block : Block) (prev : ℕ) (q : Node)
    (at_prev : get_elem? bc.nodes prev ≡ some q) (v : IsValid bc)
    (fresh : get bc.m block.hash ≡ none) (parent_hash : q.block.hash ≡ block.previous_hash) where
  abbrev child : ℕ
  child = length bc.nodes

  abbrev heap : List Node
  heap = nodes' bc block prev q at_prev

  abbrev bc' : Blockchain
  bc' = record bc { nodes = heap; m = put bc.m block.hash child }

  -- Reads after `attach`, by hash.
  get_block-grown :
      (k : Bytes) → get_block bc' k ≡ ite (dec_bytes block.hash k) (some block) (get_block bc k)
  unfolding get_block
  get_block-grown k = elim (dec_bytes block.hash k) [
    | yes same ↦
        rw (get-put, if_pos _ same, if_pos _ same) (ap block_of (at_child bc block prev q at_prev))
    | no other ↦
        rw (get-put, if_neg _ other, if_neg _ other)
          (elim (Option-cases (get bc.m k)) [
            | inl gone ↦ rw gone
            | inr (a, found) ↦
                let (n, at, _) = v.mapped k a found in
                rw found (ground (arith, at_old bc block prev q at_prev a n at, at))
          ])
  ]

  pub get_block-attach :
      (k : Bytes)
      → get_block (attach bc block prev) k
        ≡ ite (dec_bytes block.hash k) (some block) (get_block bc k)
  unfolding attach
  get_block-attach k =
      subst
        (λ ns.
          get_block (record bc' { nodes = ns }) k
          ≡ ite (dec_bytes block.hash k) (some block) (get_block bc k))
        (sym (nodes-attach bc block prev q at_prev)) (get_block-grown k)

  pub get_size-attach : get_size (attach bc block prev) ≡ get_size bc + 1
  unfolding attach
  get_size-attach = length-put bc.m block.hash child fresh

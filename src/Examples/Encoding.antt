-- ===== src/Examples/Encoding.antt =====
-- The theorem on encoded chains, at a small tree.
use miner.Prelude.{◌≡◌, refl, none, List, [], ◌∷◌, map}
use miner.Prelude.Bytes.{Bytes}
use miner.Blockchain.{Blockchain}
use miner.Blockchain.Shape.{IsValid}
use miner.Blockchain.Queries.{get_blocks, get_block}
use miner.Blockchain.Unmarshall.{tree, unmarshall_blockchain}
use miner.Encoding.{Gob, RawBlock, raw, cooked, marshall, unmarshall_blocks}
use miner.Encoding.RoundTrip.{as_sent, unmarshall_blockchain-marshall}
use miner.Examples.{in_order, in_order-IsRange, idle_tree, idle_tree_good}
use miner.Examples.Dialing.{idle_tree-IsNamed}

-- A format that knows one list of blocks.
abbrev gob : Gob (List RawBlock)
gob = record {
  encode = λ bs. (1 ∷ [], none);
  decode = λ b. (map as_sent (map raw (get_blocks in_order idle_tree)), none);
}

unmarshall_blockchain-marshall_example :
    (bc' : Blockchain) × (unmarshall_blockchain in_order
        (map cooked (unmarshall_blocks gob (marshall gob in_order idle_tree).0).0)
      ≡ tree bc')
    × IsValid bc'
    × ((hash : Bytes) → get_block bc' hash ≡ get_block idle_tree hash)
unmarshall_blockchain-marshall_example =
    unmarshall_blockchain-marshall gob in_order in_order idle_tree in_order-IsRange in_order-IsRange
      idle_tree_good.0 idle_tree-IsNamed refl

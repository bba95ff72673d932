-- ===== src/Encoding/RoundTrip.antt =====
-- What comes back of a block that was encoded.
use miner.Prelude.{ℕ, ◌≡◌, refl, Option, none, some, List, [], ◌∷◌, ◌∙◌, ap, map}
use miner.Prelude.Bytes.{Bytes}
use miner.Operation.{Operation, Order}
use miner.Block.{Block}
use miner.Blockchain.{Blockchain}
use miner.Prelude.Perms.{IsRange}
use miner.Blockchain.Shape.{IsValid}
use miner.Blockchain.Queries.{get_blocks, get_block}
use miner.Blockchain.Unmarshall.{tree, unmarshall_blockchain}
use miner.Blockchain.Unmarshall.Returns.{unmarshall_blockchain_returns}
use miner.Blockchain.Unmarshall.Sync.{IsNamed, get_blocks-IsTree, Holds-get_block}
use miner.Blockchain.Unmarshall.Rebuilt.{Holds-IsValid}
use miner.Encoding.{
  cooked, Gob, RawBlock, raw, repaired, marshall_block, unmarshall_block, unmarshalled,
  unmarshall_blocks, marshall,
}

abbrev pub sent_ops : Option (List Operation) → Option (List Operation)
sent_ops none = none
sent_ops (some []) = none
sent_ops (some (o ∷ ops)) = some (o ∷ ops)

-- The gob format leaves out a field that is an empty slice, and the decoder leaves it nil.
abbrev pub as_sent : RawBlock → RawBlock
as_sent b = record b { operations = sent_ops b.operations }

repaired-sent_ops : (ops : List Operation) → repaired (sent_ops (some ops)) ≡ some ops
repaired-sent_ops [] = refl
repaired-sent_ops (o ∷ ops) = refl

cooked-as_sent : (b : Block) → cooked (as_sent (raw b)) ≡ b
cooked-as_sent b = with_ops b.operations refl
  where
    with_ops : (ops : List Operation) → b.operations ≡ ops → cooked (as_sent (raw b)) ≡ b
    with_ops [] e = rw e refl
    with_ops (o ∷ ops) e = rw e refl

cooked-sent_all : (bs : List Block) → map cooked (map as_sent (map raw bs)) ≡ bs
cooked-sent_all [] = refl
cooked-sent_all (b ∷ bs) =
    ap (λ x. x ∷ map cooked (map as_sent (map raw bs))) (cooked-as_sent b)
    ∙ ap (λ l. b ∷ l) (cooked-sent_all bs)

-- Let the decoder return what the encoder made of a block, with nil for an empty slice. Then
-- `UnmarshallBlock` gives back the block.
unmarshall_block-marshall_block :
    (g : Gob RawBlock) (b : Block)
    → g.decode (marshall_block g (raw b)).0 ≡ (as_sent (raw b), none)
    → unmarshall_block g (marshall_block g (raw b)).0 ≡ (raw b, none)
unfolding unmarshall_block
unmarshall_block-marshall_block g b e =
    ap (λ (r : RawBlock × Option Bytes). unmarshalled r.0 r.1) e
    ∙ ap (λ ops. (record (raw b) { operations = ops }, none)) (repaired-sent_ops b.operations)

-- A valid tree, in which no hash is empty and the genesis block has no previous hash, is encoded by
-- `Marshall`. Let the decoder return its blocks, with nil for each empty slice. Then
-- `UnmarshallBlockchain` makes of what `UnmarshallBlocks` returns a valid tree that finds under every
-- hash what the first tree finds.
pub unmarshall_blockchain-marshall :
    (g : Gob (List RawBlock)) (order range : Order ℕ) (bc : Blockchain)
    → IsRange order
    → IsRange range
    → IsValid bc
    → IsNamed bc
    → g.decode (marshall g order bc).0 ≡ (map as_sent (map raw (get_blocks order bc)), none)
    → (bc' : Blockchain) × (unmarshall_blockchain range
          (map cooked (unmarshall_blocks g (marshall g order bc).0).0)
        ≡ tree bc')
      × IsValid bc'
      × ((hash : Bytes) → get_block bc' hash ≡ get_block bc hash)
unfolding unmarshall_blocks
unmarshall_blockchain-marshall g order range bc perm perm' v h e =
    let (root, at, _) = v.tree.rooted in
    let (bc', run, holds) =
      unmarshall_blockchain_returns (get_blocks order bc) root.block
        (get_blocks-IsTree order bc perm v h root at) range perm' in
    (
      bc',
      ap (λ (r : List RawBlock × Option Bytes). unmarshall_blockchain range (map cooked r.0)) e
          ∙ ap (unmarshall_blockchain range) (cooked-sent_all (get_blocks order bc))
          ∙ run,
      Holds-IsValid order bc perm v h bc' holds,
      λ hash. Holds-get_block order bc perm v h bc' hash holds,
    )

-- ===== src/P2p/Resolver.antt =====
-- p2p/chain_resolver.go: blocks that wait for the download of an earlier block. A send on a channel
-- is an entry of the list of sends beside the new state.
pub mod Queued
use miner.Prelude.{
  ℕ, zero, suc, ◌≡◌, Bool, true, false, Option, none, some, List, [], ◌∷◌, ◌++◌, foldl, length, ite,
  if◌then◌else◌,
}
use miner.Prelude.Bytes.{Bytes, dec_bytes}
use miner.Prelude.GoMap.{GoMap, get, put, delete, has}
use miner.Block.{Block}

pub record ChainResolver : Type 0 where
  pub blocks_to_resolve : GoMap (List Block)
  pub waiting_blocks : GoMap Bytes

abbrev pub new_chain_resolver : ChainResolver
new_chain_resolver = record { blocks_to_resolve = []; waiting_blocks = [] }

unfoldable pub contains : List Block → Bytes → Bool
contains [] hash = false
contains (b ∷ blocks) hash = ite (dec_bytes b.hash hash) true (contains blocks hash)

-- Go's read of a map gives the zero value on a missing key.
abbrev pub or_none : Option (List Block) → List Block
or_none none = []
or_none (some blocks) = blocks

abbrev pub or_empty : Option Bytes → Bytes
or_empty none = []
or_empty (some hash) = hash

unfoldable pub get_pending_blocks_for_download : ChainResolver → Bytes → List Block
get_pending_blocks_for_download c hash = or_none (get c.blocks_to_resolve hash)

unfoldable pub has_pending_download_for_hash : ChainResolver → Bytes → Bool
has_pending_download_for_hash c hash = has c.blocks_to_resolve hash

-- `if !contains(blocks, hash) { blocks = append(blocks, block) }`
unfoldable pub queue : List Block → Block → List Block
unfolding contains
queue blocks block = if contains blocks block.hash then blocks else blocks ++ block ∷ []

unfoldable pub add_pending_download : ChainResolver → Block → ChainResolver
unfolding queue
add_pending_download c block =
    let pending = or_none (get c.blocks_to_resolve block.previous_hash) in
    record c {
      blocks_to_resolve = put c.blocks_to_resolve block.previous_hash (queue pending block);
    }

unfoldable pub add_waiting_block_for_hash : ChainResolver → Bytes → Bytes → ChainResolver
add_waiting_block_for_hash c hash previous_hash = record c {
  waiting_blocks = put c.waiting_blocks hash previous_hash;
}

-- The body of the loop of `findPendingDownloadForBlock`.
unfoldable pub join : ChainResolver → Block → Bytes → ChainResolver
unfolding queue
join c block pending_download =
    let blocks = or_none (get c.blocks_to_resolve pending_download) in
    if contains blocks block.hash then c else record c {
      blocks_to_resolve = put c.blocks_to_resolve pending_download (blocks ++ block ∷ []);
    }

-- The loop, which ends at the empty string; `none` means that the fuel ran out.
unfoldable pub join_all : ℕ → ChainResolver → Block → Bytes → Option ChainResolver
unfolding join
join_all fuel c block [] = some c
join_all zero c block (x ∷ hash) = none
join_all (suc fuel) c block (x ∷ hash) =
    join_all fuel (join c block (x ∷ hash)) block (or_empty (get c.waiting_blocks (x ∷ hash)))

abbrev pub found_in : Block → Option ChainResolver → Option (ChainResolver × Bytes)
found_in block none = none
found_in block (some c) = some (c, or_empty (get c.waiting_blocks block.hash))

unfoldable pub find_pending_download_for_block :
    ChainResolver → Block → Option (ChainResolver × Bytes)
unfolding join_all
find_pending_download_for_block c block = found_in block (
    join_all (suc (length c.waiting_blocks)) c block
      (or_empty (get c.waiting_blocks block.previous_hash)))

-- The block is queued and waits for its parent.
unfoldable pub enqueue : ChainResolver → Block → ChainResolver
unfolding add_pending_download add_waiting_block_for_hash
enqueue c block =
    add_waiting_block_for_hash (add_pending_download c block) block.hash block.previous_hash

-- What `ResolveFloodedBlock` does once `findPendingDownloadForBlock` has returned.
unfoldable pub resolve_found :
    Block → Option (ChainResolver × Bytes) → Option (ChainResolver × List Bytes)
unfolding enqueue has_pending_download_for_hash
resolve_found block none = none
resolve_found block (some (c, [])) = some (enqueue c block, block.previous_hash ∷ [])
resolve_found block (some (c, x ∷ pending_download)) =
    if has_pending_download_for_hash c (x ∷ pending_download)
    then some (enqueue c block, [])
    else some (add_pending_download c block, block.previous_hash ∷ [])

unfoldable pub resolve_flooded_block : ChainResolver → Block → Option (ChainResolver × List Bytes)
unfolding resolve_found find_pending_download_for_block
resolve_flooded_block c block =
    if has_pending_download_for_hash c block.previous_hash
    then some (enqueue c block, [])
    else resolve_found block (find_pending_download_for_block c block)

unfoldable pub forget_waiting : GoMap Bytes → List Block → GoMap Bytes
forget_waiting = foldl (λ m b. delete m b.hash)

-- The blocks sent on `addBlock` are the ones queued under the hash.
unfoldable pub resolve_added_block : ChainResolver → Bytes → ChainResolver × List Block
unfolding get_pending_blocks_for_download forget_waiting
resolve_added_block c hash =
    let pending_down_blocks = get_pending_blocks_for_download c hash in
    (
      record {
        blocks_to_resolve = delete c.blocks_to_resolve hash;
        waiting_blocks = forget_waiting c.waiting_blocks pending_down_blocks;
      },
      pending_down_blocks,
    )

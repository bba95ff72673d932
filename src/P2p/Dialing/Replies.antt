-- ===== src/P2p/Dialing/Replies.antt =====
-- What `DialPeer` replies.
use miner.Prelude.{ℕ, ◌<◌, ◌≡◌, List, length, lt→ltb}
use miner.Prelude.Bytes.{Bytes}
use miner.Prelude.Perms.{IsRange}
use miner.Operation.{Order}
use miner.Block.{Block}
use miner.Blockchain.{Blockchain}
use miner.Blockchain.Shape.{IsValid}
use miner.Blockchain.Queries.{get_blocks, get_block}
use miner.Blockchain.Unmarshall.Sync.{IsNamed, get_blocks-IsTree, Holds-get_block}
use miner.Blockchain.Unmarshall.Rebuilt.{Holds-IsValid}
use miner.Blockchain.Unmarshall.Returns.{IsTree, Holds}
use miner.P2p.Manager.{ChainManager}
use miner.P2p.Manager.Handlers.{synchronize_returns}
use miner.P2p.Dialing.{replies, dial_peer}

-- A peer whose blocks make up a tree of more than its genesis block gets a reply, with this miner's ID
-- and the blocks of the chain that the manager now has, which holds exactly the peer's blocks.
dial_peer_replies :
    (range range' : Order ℕ) (m : ChainManager) (miner_id : Bytes) (blockchain : List Block)
    (root : Block)
    → IsRange range
    → IsTree blockchain root
    → 1 < length blockchain
    → (m' : ChainManager) × (dial_peer range range' m miner_id blockchain
        ≡ replies m' (record { miner_id = miner_id; blockchain = get_blocks range' m'.blockchain }))
      × Holds blockchain m'.blockchain
unfolding dial_peer
dial_peer_replies range range' m miner_id blockchain root perm t more =
    let (m', run, holds, _) = synchronize_returns range m blockchain root perm t in
    (m', rw (lt→ltb 1 (length blockchain) more, dial_peer, run), holds)

-- One miner dials another with the blocks of its chain, in whatever order it lists them: a valid tree
-- of more than one block, in which no hash is empty and the genesis block has no previous hash. Then
-- the other replies, its tree is valid, and it has the same blocks: it finds under every hash what
-- the first finds.
pub dial_peer_agrees :
    (order range range' : Order ℕ) (bc : Blockchain) (m : ChainManager) (miner_id : Bytes)
    → IsRange order
    → IsRange range
    → IsValid bc
    → IsNamed bc
    → 1 < length (get_blocks order bc)
    → (m' : ChainManager) × (dial_peer range range' m miner_id (get_blocks order bc)
        ≡ replies m' (record { miner_id = miner_id; blockchain = get_blocks range' m'.blockchain }))
      × IsValid m'.blockchain
      × ((hash : Bytes) → get_block m'.blockchain hash ≡ get_block bc hash)
dial_peer_agrees order range range' bc m miner_id perm perm' v h more =
    let (root, at, _) = v.tree.rooted in
    let (m', run, holds) =
      dial_peer_replies range range' m miner_id (get_blocks order bc) root.block perm'
        (get_blocks-IsTree order bc perm v h root at) more in
    (
      m',
      run,
      Holds-IsValid order bc perm v h m'.blockchain holds,
      λ hash. Holds-get_block order bc perm v h m'.blockchain hash holds,
    )

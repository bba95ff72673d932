-- ===== src/P2p/Dialing.antt =====
-- `DialPeer` and `startMinerRPC` of p2p/p2p_rpc.go: a new peer, and the chain that is taken over from
-- it. The network is a parameter, which says how an address answers in a round. `startMinerRPC` is
-- modelled from where it listens.
pub mod Met
pub mod Covers
pub mod Replies
use miner.Prelude.{
  ℕ, zero, suc, ◌+◌, Bool, true, false, Option, none, some, List, [], ◌∷◌, ◌++◌, length, ltb,
  if◌then◌else◌,
}
use miner.Prelude.Bytes.{Bytes}
use miner.Prelude.GoMap.{GoMap, put, has}
use miner.Operation.{Order}
use miner.Block.{Block}
use miner.Blockchain.Queries.{get_blocks, get_previous_blocks}
use miner.P2p.Manager.{
  ChainManager, Turn, goes, blocks, panics, spins, synchronize, get_previous_blocks_reversed,
}

pub record NewPeerResponse : Type 0 where
  pub miner_id : Bytes
  pub blockchain : List Block

-- What `DialPeer` comes to: a reply, or a wait for a synchronisation that never ends.
pub data DialReply : Type 0 where
  replies : ChainManager → NewPeerResponse → DialReply
  hangs : DialReply

abbrev pub reply_with : Order ℕ → Bytes → ChainManager → DialReply
reply_with range miner_id m =
    replies m (record { miner_id = miner_id; blockchain = get_blocks range m.blockchain })

abbrev pub after_sync : Order ℕ → Bytes → Turn → DialReply
after_sync range miner_id (goes m []) = hangs
after_sync range miner_id (goes m (signal ∷ signals)) = reply_with range miner_id m
after_sync range miner_id blocks = hangs
after_sync range miner_id panics = hangs
after_sync range miner_id spins = hangs

-- `DialPeer`, once it is connected: the manager's chain is replaced if the peer has more than its
-- genesis block.
unfoldable pub dial_peer : Order ℕ → Order ℕ → ChainManager → Bytes → List Block → DialReply
dial_peer range range' m miner_id blockchain =
    let synced = after_sync range' miner_id (synchronize range m blockchain) in
    if ltb 1 (length blockchain) then synced else reply_with range' miner_id m

-- `GetBlocks`; `none` is the error.
abbrev pub some_blocks : List Block → Option (List Block)
some_blocks [] = none
some_blocks (b ∷ bs) = some (b ∷ bs)

unfoldable pub get_blocks_for : ChainManager → Bytes → Option (List Block)
get_blocks_for m hash = some_blocks (get_previous_blocks_reversed m hash 500)

-- How an address answers: not at all or with an error, or as `DialPeer` does.
pub data Answer : Type 0 where
  unreachable : Answer
  answers : NewPeerResponse → Answer

-- `dialedPeers`, and the peers that have been announced.
pub record Dialing : Type 0 where
  pub manager : ChainManager
  pub dialed_peers : GoMap (Unit {0})
  pub new_peers : List Bytes

-- `finished`: the loop has ended. `waits`: a synchronisation never answers.
pub data Dialled : Type 0 where
  going finished : Dialing → Dialled
  waits : Dialled

-- The select after a request to synchronise.
abbrev pub when_synchronized : Dialing → Bytes → Bytes → Turn → Dialled
when_synchronized d addr id (goes m []) = waits
when_synchronized d addr id (goes m (signal ∷ signals)) = going (record {
  manager = m;
  dialed_peers = put d.dialed_peers addr tt;
  new_peers = d.new_peers ++ id ∷ [];
})
when_synchronized d addr id blocks = waits
when_synchronized d addr id panics = waits
when_synchronized d addr id spins = waits

unfoldable pub take_over : Order ℕ → Dialing → Bytes → Answer → Dialled
take_over range d addr unreachable = going d
take_over range d addr (answers response) =
    when_synchronized d addr response.miner_id (synchronize range d.manager response.blockchain)

-- One address of the inner loop.
unfoldable pub dial_addr : Order ℕ → Dialing → Bytes → Answer → Dialled
unfolding take_over
dial_addr range d addr answer =
    let dialled = take_over range d addr answer in
    if has d.dialed_peers addr then going d else dialled

-- The inner loop.
unfoldable pub dial_round : Order ℕ → (Bytes → Answer) → Dialing → List Bytes → Dialled
unfolding dial_addr
dial_round range net d [] = going d
dial_round range net d (addr ∷ addrs) = elim (dial_addr range d addr (net addr)) [
  | going d' ↦ dial_round range net d' addrs
  | finished d' ↦ finished d'
  | waits ↦ waits
]

-- The outer loop, with at most `fuel` rounds; `net k` is the network in round `k`.
unfoldable pub dial_all : Order ℕ → (ℕ → Bytes → Answer) → List Bytes → ℕ → ℕ → Dialing → Dialled
unfolding dial_round
dial_all range net addrs zero k d = going d
dial_all range net addrs (suc fuel) k d =
    let more : Dialled = elim (dial_round range (net k) d addrs) [
      | going d' ↦ dial_all range net addrs fuel (k + 1) d'
      | finished d' ↦ finished d'
      | waits ↦ waits
    ] in
    if ltb (length d.dialed_peers) (length addrs) then more else finished d

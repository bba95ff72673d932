-- ===== src/Examples/Dialing.antt =====
-- The theorems on dialling, at small inputs.
use miner.Prelude.{ℕ, ◌≡◌, refl, none, some, List, [], ◌∷◌, arith, inl}
use miner.Prelude.Bytes.{Bytes, dec_bytes}
use miner.Prelude.GoMap.{has, get, put}
use miner.Block.{new_genesis_block}
use miner.Blockchain.{Blockchain}
use miner.Blockchain.Queries.{get_blocks}
use miner.Blockchain.Longest.{get_last_nodes}
use miner.Blockchain.Unmarshall.{unmarshall_blockchain, hang}
use miner.Blockchain.{Node, new_blockchain}
use miner.Blockchain.Add.{attach}
use miner.Blockchain.Queries.{get_block, collect}
use miner.Blockchain.Unmarshall.Sync.{IsNamed}
use miner.Prelude.{zero, suc, ◌<◌, inr, ◌⊎◌, get_elem?, length, sym}
use miner.P2p.Dialing.Replies.{dial_peer_agrees}
use miner.Examples.{idle_tree, idle_tree_good}
use miner.Blockchain.Shape.{IsValid}
use miner.P2p.Dialing.Met.{HasSynced}
use miner.Prelude.{false}
use miner.P2p.Manager.{ChainManager, synchronize}
use miner.P2p.Dialing.{replies, dial_peer, Dialing, Answer, answers, finished, dial_all}
use miner.P2p.Dialing.Covers.{Inv, dial_all-HasSynced, dial_all_repeats}
use miner.Examples.{in_order, in_order-IsRange, settings, idle_block}
use miner.Examples.Manager.{root, fresh, peer_blocks}

abbrev idle : Dialing
idle = record { manager = fresh; dialed_peers = []; new_peers = [] }

abbrev net : ℕ → Bytes → Answer
net k addr = answers (record { miner_id = 8 ∷ []; blockchain = peer_blocks })

abbrev peer_tree : Blockchain
peer_tree = record {
  genesis = 1;
  last_node = 0;
  m = (1 ∷ [], 0) ∷ (9 ∷ [], 1) ∷ [];
  config = settings;
  nodes =
      record { block = idle_block; parent = some 1; children = [] }
      ∷ record { block = root; parent = none; children = 0 ∷ [] }
      ∷ [];
}

abbrev done : Dialing
done = record {
  manager = record fresh { blockchain = peer_tree };
  dialed_peers = (3 ∷ [], tt) ∷ [];
  new_peers = (8 ∷ []) ∷ [];
}

ended : dial_all in_order net ((3 ∷ []) ∷ []) 2 0 idle ≡ finished done
unfolding dial_all get put dec_bytes synchronize unmarshall_blockchain hang get_last_nodes
    new_genesis_block
ended = refl

idle-Inv : (addrs : List Bytes) → Inv addrs idle
idle-Inv addrs = record { distinct = tt; configured = λ a h. absurd h }

not_yet : has idle.dialed_peers (3 ∷ []) ≡ false
unfolding get
not_yet = refl

dial_all-HasSynced_example : HasSynced in_order net (3 ∷ [])
dial_all-HasSynced_example =
    dial_all-HasSynced in_order ((3 ∷ []) ∷ []) net 2 idle done (3 ∷ []) (idle-Inv ((3 ∷ []) ∷ []))
      ended (inl refl) not_yet

dial_all_repeats_example :
    ¬ (dial_all in_order net ((3 ∷ []) ∷ (3 ∷ []) ∷ []) 5 0 idle ≡ finished done)
dial_all_repeats_example =
    dial_all_repeats in_order [] ((3 ∷ []) ∷ []) (3 ∷ []) net 5 idle done (inl refl)
      (idle-Inv ((3 ∷ []) ∷ (3 ∷ []) ∷ []))

hashes_given :
    (a : ℕ) (n : Node)
    → get_elem? idle_tree.nodes a ≡ some n
    → (n.block.hash ≡ 9 ∷ []) ⊎ (n.block.hash ≡ 1 ∷ [])
unfolding attach new_blockchain new_genesis_block
hashes_given zero n at = let genesis = sym at in inl (cc)
hashes_given (suc zero) n at = inr cc
hashes_given (suc (suc a)) n at = absurd cc

pub idle_tree-IsNamed : IsNamed idle_tree
unfolding attach new_blockchain new_genesis_block
idle_tree-IsNamed = record {
  named = λ a n at. elim (hashes_given a n at) [ inl e ↦ cc | inr e ↦ cc ];
  origin = λ n at. cc;
}

two_blocks : 1 < length (get_blocks in_order idle_tree)
unfolding get_blocks collect attach new_blockchain put get dec_bytes
two_blocks = omega arith

dial_peer_agrees_example :
    (m' : ChainManager) × (dial_peer in_order in_order fresh
        (7 ∷ [])
        (get_blocks in_order idle_tree)
      ≡ replies m' (record { miner_id = 7 ∷ []; blockchain = get_blocks in_order m'.blockchain }))
    × IsValid m'.blockchain
    × ((hash : Bytes) → get_block m'.blockchain hash ≡ get_block idle_tree hash)
dial_peer_agrees_example =
    dial_peer_agrees in_order in_order in_order idle_tree fresh (7 ∷ []) in_order-IsRange
      in_order-IsRange idle_tree_good.0 idle_tree-IsNamed two_blocks

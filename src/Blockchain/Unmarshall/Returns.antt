-- ===== src/Blockchain/Unmarshall/Returns.antt =====
-- `UnmarshallBlockchain` as a whole.
use miner.Prelude.{
  ℕ, ◌<◌, ◌≡◌, ◌⊎◌, inl, inr, none, some, List, [], foldl, length, get_elem?, In, IsDistinct,
  In-map_cases, subst, lt-length_of_get_elem?, ◌∙◌, sym, ap, length-map,
}
use miner.Prelude.Bytes.{Bytes}
use miner.Prelude.GoMap.{get, keys}
use miner.Prelude.Entries.{member_of_get_elem?, get_elem?_of_In}
use miner.Prelude.Perms.{IsRange}
use miner.Operation.{Order}
use miner.Block.{Block}
use miner.Blockchain.{Node, Blockchain}
use miner.Blockchain.Shape.{IsLinked}
use miner.Blockchain.Longest.Deepest.{get_last_nodes-IsDeepest}
use miner.Blockchain.Longest.Ends.{get_last_nodes_returns}
use miner.Blockchain.Unmarshall.{
  Heap, Linking, allocate, tree, build, built, planted, searched, no_settings,
  unmarshall_blockchain,
}
use miner.Blockchain.Unmarshall.Hang.{blocks_of}
use miner.Blockchain.Unmarshall.Allocated.{hashes, Fresh, allocated, perm-Visits}
use miner.Blockchain.Unmarshall.Placed.{Placed}
use miner.Blockchain.Unmarshall.Linked.{Inv, node_of, block_at}
use miner.Blockchain.Unmarshall.Loop.{some_inj, link_all-Inv}

-- Blocks that make up one tree: no hash twice, one block with no previous hash, and every other
-- block on top of one of them.
pub record IsTree (blocks : List Block) (root : Block) : Type 0 where
  pub distinct : IsDistinct (hashes blocks)
  pub inside : In root blocks
  pub empty : root.previous_hash ≡ []
  pub only : (b : Block) → In b blocks → b.previous_hash ≡ [] → b ≡ root
  pub closed :
      (b : Block) → In b blocks → (b.previous_hash ≡ []) ⊎ In b.previous_hash (hashes blocks)

-- The tree holds the blocks, each under its hash.
pub record Holds (blocks : List Block) (bc : Blockchain) : Type 0 where
  pub contents : blocks_of bc.nodes ≡ blocks
  pub listed : (a : ℕ) (b : Block) → get_elem? blocks a ≡ some b → get bc.m b.hash ≡ some a
  pub mapped :
      (k : Bytes) (a : ℕ)
      → get bc.m k ≡ some a
      → (b : Block) × (get_elem? blocks a ≡ some b) × (b.hash ≡ k)
  pub linked : IsLinked bc
  pub above : Placed bc.nodes
  pub lost :
      (a : ℕ) (n : Node)
      → get_elem? bc.nodes a ≡ some n
      → n.parent ≡ none
      → n.block.previous_hash ≡ []
  pub sized : length bc.m ≡ length bc.nodes
  pub distinct : IsDistinct (keys bc.m)

-- Searching writes `lastNode` only.
relink : (bc : Blockchain) (x : ℕ) → IsLinked bc → IsLinked (record bc { last_node = x })
relink bc x l = record { rooted = l.rooted; orphan = l.orphan; hung = l.hung; spread = l.spread }

module _ (blocks : List Block) (root : Block) (t : IsTree blocks root) where
  abbrev heap : Heap
  heap = foldl allocate (record { nodes = []; node_map = [] }) blocks

  fresh : Fresh blocks heap
  fresh = allocated blocks t.distinct

  start : Inv blocks [] (record { nodes = heap.nodes; genesis = none })
  start = record {
    blocks = fresh.blocks;
    waiting = λ a n at out. fresh.parentless a n at;
    hung = λ a c n at m. absurd (subst (In c) (fresh.childless a n at) m);
    spread = λ a n at. subst IsDistinct (sym (fresh.childless a n at)) tt;
    rooted = λ a n at e. fresh.parentless a n at;
    lost = λ a n at e z. absurd z;
    begun = λ g e. cc;
    ended = λ a b at e z. absurd z;
    above = λ a p n at up. absurd (cc (sym (fresh.parentless a n at) ∙ up));
  }

  same_size : (l : Linking) → blocks_of l.nodes ≡ blocks → length heap.node_map ≡ length l.nodes
  same_size l e =
      fresh.sized
      ∙ sym (length-map (λ (n : Node). n.block) heap.nodes)
      ∙ ap length (fresh.blocks ∙ sym e)
      ∙ length-map (λ (n : Node). n.block) l.nodes

  parents :
      (a : ℕ) (b : Block)
      → get_elem? blocks a ≡ some b
      → (b.previous_hash ≡ [])
        ⊎ ((p : ℕ) × (get heap.node_map b.previous_hash ≡ some p)
            × (q : Block) × (get_elem? blocks p ≡ some q)
            × (q.hash ≡ b.previous_hash))
  parents a b at = elim (t.closed b (member_of_get_elem? blocks a b at)) [
    | inl empty ↦ inl empty
    | inr above ↦
        let (c, there, e) = In-map_cases (λ (x : Block). x.hash) b.previous_hash blocks above in
        let (p, at_p) = get_elem?_of_In blocks c there in
        inr (p, ap (get heap.node_map) e ∙ fresh.listed p c at_p, c, at_p, sym e)
  ]

  -- Two addresses of the root are the same.
  same_root :
      (a g : ℕ) (b c : Block)
      → get_elem? blocks a ≡ some b
      → get_elem? blocks g ≡ some c
      → b.previous_hash ≡ []
      → c.previous_hash ≡ []
      → a ≡ g
  same_root a g b c at at' e e' =
      let both : b ≡ c =
        t.only b (member_of_get_elem? blocks a b at) e
        ∙ sym (t.only c (member_of_get_elem? blocks g c at') e') in
      some_inj
        (sym (fresh.listed a b at) ∙ ap (λ x. get heap.node_map x.hash) both ∙ fresh.listed g c at')

  module _ (done : List ℕ) (l : Linking) (i : Inv blocks done l)
      (all : (a : ℕ) → a < length blocks → In a done) where
    visited : (a : ℕ) (n : Node) → get_elem? l.nodes a ≡ some n → In a done
    visited a n at =
        all a (lt-length_of_get_elem? blocks a n.block (block_at blocks l.nodes a n i.blocks at))

    found_root : (g : ℕ) × (l.genesis ≡ some g)
    found_root =
        let (a, at) = get_elem?_of_In blocks root t.inside in
        i.ended a root at t.empty (all a (lt-length_of_get_elem? blocks a root at))

    linked :
        (g : ℕ)
        → l.genesis ≡ some g
        → IsLinked (record {
          genesis = g;
          last_node = g;
          m = heap.node_map;
          config = no_settings;
          nodes = l.nodes;
        })
    linked g e =
        let (b, at_g, empty) = i.begun g e in
        let (n, at, own) =
          node_of blocks l.nodes g i.blocks (lt-length_of_get_elem? blocks g b at_g) in
        record {
          rooted = (
            n,
            at,
            i.rooted g n at (ap (λ x. x.previous_hash) (some_inj (sym own ∙ at_g)) ∙ empty),
          );
          orphan = λ a z h up.
              same_root a g z.block b (block_at blocks l.nodes a z i.blocks h) at_g
                (i.lost a z h up (visited a z h)) empty;
          hung = i.hung;
          spread = i.spread;
        }

  -- If the blocks make up a tree, then `UnmarshallBlockchain` returns a tree that holds exactly them,
  -- each at its hash, and whose parents and children agree, whatever the order in which `nodeMap` is
  -- visited.
  pub unmarshall_blockchain_returns :
      (range : Order ℕ)
      → IsRange range
      → (bc : Blockchain) × (unmarshall_blockchain range blocks ≡ tree bc) × Holds blocks bc
  unfolding unmarshall_blockchain build
  unmarshall_blockchain_returns range perm =
      let v =
        perm-Visits blocks heap.node_map (range heap.node_map) (perm heap.node_map) fresh.distinct
          fresh.mapped fresh.listed in
      let (l, done, run, i, all) =
        link_all-Inv blocks heap.node_map parents (range heap.node_map) []
          (record { nodes = heap.nodes; genesis = none }) start v.once v.inside (λ a h z. z) in
      let every = λ (a : ℕ) (lt : a < length blocks). all a (inr (v.every a lt)) in
      let (g, e) = found_root done l i every in
      let good = linked done l i every g e in
      let ((bc, nodes), found) = get_last_nodes_returns _ good in
      let (_, _, same) = get_last_nodes-IsDeepest _ bc nodes found in
      (
        bc,
        ap (built no_settings heap.node_map) run
            ∙ ap (planted no_settings heap.node_map l.nodes) e
            ∙ ap searched found,
        subst (Holds blocks) (sym same) (record {
          contents = i.blocks;
          listed = fresh.listed;
          mapped = fresh.mapped;
          linked = relink _ bc.last_node good;
          above = i.above;
          lost = λ a n at up. i.lost a n at up (visited done l i every a n at);
          sized = same_size l i.blocks;
          distinct = fresh.distinct;
        }),
      )

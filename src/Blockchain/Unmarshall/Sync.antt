-- ===== src/Blockchain/Unmarshall/Sync.antt =====
-- The blocks that `GetBlocks` returns make up a tree, which `UnmarshallBlockchain` rebuilds.
use mathlib.Core.List.Perm
use miner.Prelude.{
  In-map, zero, suc, ℕ, ◌≡◌, refl, ◌≢◌, inl, inr, some, List, [], ◌∷◌, get_elem?, In, IsDistinct,
  Option-cases, ◌∙◌, sym, ap, subst,
}
use miner.Prelude.Bytes.{Bytes}
use miner.Prelude.GoMap.{get, keys}
use miner.Prelude.Entries.{
  get_of_In, member_of_get, member_of_get_elem?, get_elem?_of_In, dec_entry,
}
use miner.Prelude.Perms.{IsRange, In-perm, keys_range-IsDistinct}
use miner.Operation.{Order}
use miner.Block.{Block}
use miner.Blockchain.{Node, Blockchain}
use miner.Blockchain.Shape.{IsValid}
use miner.Blockchain.Queries.{collect, get_blocks, get_block, block_at, block_of}
use miner.Blockchain.Unmarshall.Hang.{blocks_of}
use miner.Blockchain.Unmarshall.Allocated.{hashes}
use miner.Blockchain.Unmarshall.Returns.{IsTree, Holds}

-- No block has an empty hash, and the genesis block has no previous hash.
pub record IsNamed (bc : Blockchain) : Type 0 where
  pub named : (a : ℕ) (n : Node) → get_elem? bc.nodes a ≡ some n → n.block.hash ≢ []
  pub origin : (n : Node) → get_elem? bc.nodes bc.genesis ≡ some n → n.block.previous_hash ≡ []

module _ (bc : Blockchain) (v : IsValid bc) where
  -- Entries of the map.
  abbrev pub Listed : List (Bytes × ℕ) → Type 0
  Listed es = (k : Bytes) (a : ℕ) → In (k, a) es → get bc.m k ≡ some a

  pub collect-hashes : (es : List (Bytes × ℕ)) → Listed es → hashes (collect bc es) ≡ keys es
  unfolding collect
  collect-hashes [] l = refl
  collect-hashes ((k, a) ∷ es) l =
      let (n, at, is) = v.mapped k a (l k a (inl refl)) in
      rw (at, collect, is) (ap (λ ks. k ∷ ks) (collect-hashes es (λ j b i. l j b (inr i))))

  collect_of_In :
      (es : List (Bytes × ℕ)) (k : Bytes) (a : ℕ) (n : Node)
      → In (k, a) es
      → get_elem? bc.nodes a ≡ some n
      → In n.block (collect bc es)
  unfolding collect
  collect_of_In [] k a n i at = absurd i
  collect_of_In ((j, b) ∷ es) k a n (inl e) at =
      let here : get_elem? bc.nodes b ≡ some n =
        ap (λ (x : Bytes × ℕ). get_elem? bc.nodes x.1) (sym e) ∙ at in
      rw (here, collect) (inl refl)
  collect_of_In ((j, b) ∷ es) k a n (inr deep) at = elim (Option-cases (get_elem? bc.nodes b)) [
    | inl gone ↦ rw (gone, collect) (collect_of_In es k a n deep at)
    | inr (d, found) ↦ rw (found, collect) (inr (collect_of_In es k a n deep at))
  ]

  pub entry_of_collect :
      (es : List (Bytes × ℕ)) (b : Block)
      → In b (collect bc es)
      → (k : Bytes) × (a : ℕ) × (n : Node) × In (k, a) es
        × (get_elem? bc.nodes a ≡ some n)
        × (n.block ≡ b)
  unfolding collect
  entry_of_collect [] b i = absurd i
  entry_of_collect ((j, a) ∷ es) b i = elim (Option-cases (get_elem? bc.nodes a)) [
    | inl gone ↦
        let (k, c, n, deep, at, is) = entry_of_collect es b (rw (gone, collect) at i) in
        (k, c, n, inr deep, at, is)
    | inr (d, found) ↦ elim (rw (found, collect) at i) [
      | inl e ↦ (j, a, d, inl refl, found, sym e)
      | inr later ↦
          let (k, c, n, deep, at, is) = entry_of_collect es b later in (k, c, n, inr deep, at, is)
    ]
  ]

-- Where no hash is empty, only the genesis node has no previous hash.
pub genesis_alone :
    (bc : Blockchain) (a : ℕ) (n : Node)
    → IsValid bc
    → IsNamed bc
    → get_elem? bc.nodes a ≡ some n
    → n.block.previous_hash ≡ []
    → a ≡ bc.genesis
genesis_alone bc a n v h at e = elim (Option-cases n.parent) [
  | inl orphan ↦ v.tree.orphan a n at orphan
  | inr (p, up) ↦
      let (q, found, is, _) = v.linked a p n at up in absurd (h.named p q found (is ∙ e))
]

block_of-blocks_of :
    (nodes : List Node) (a : ℕ) → block_of (get_elem? nodes a) ≡ get_elem? (blocks_of nodes) a
block_of-blocks_of [] a = refl
block_of-blocks_of (n ∷ nodes) zero = refl
block_of-blocks_of (n ∷ nodes) (suc a) = block_of-blocks_of nodes a

module _ (range : Order ℕ) (bc : Blockchain) (perm : IsRange range) (v : IsValid bc)
    (h : IsNamed bc) where
  pub listed_entry : (k : Bytes) (a : ℕ) → In (k, a) (range bc.m) → get bc.m k ≡ some a
  listed_entry k a i =
      get_of_In bc.m k a v.distinct (In-perm dec_entry (k, a) (range bc.m) bc.m (perm bc.m) i)

  collected : (a : ℕ) (n : Node) → get_elem? bc.nodes a ≡ some n → In n.block (get_blocks range bc)
  unfolding get_blocks
  collected a n at =
      collect_of_In bc v (range bc.m) n.block.hash a n
        (In-perm dec_entry (n.block.hash, a) bc.m (range bc.m) (Perm.symm (perm bc.m))
          (member_of_get bc.m n.block.hash a (v.listed a n at)))
        at

  hash_collected :
      (a : ℕ) (n : Node)
      → get_elem? bc.nodes a ≡ some n
      → In n.block.hash (hashes (get_blocks range bc))
  hash_collected a n at =
      In-map (λ (b : Block). b.hash) n.block (get_blocks range bc) (collected a n at)

  -- The blocks of a valid tree in which no hash is empty make up a tree.
  pub get_blocks-IsTree :
      (root : Node)
      → get_elem? bc.nodes bc.genesis ≡ some root
      → IsTree (get_blocks range bc) root.block
  unfolding get_blocks
  get_blocks-IsTree root at = record {
    distinct =
        subst IsDistinct (sym (collect-hashes bc v (range bc.m) listed_entry))
          (keys_range-IsDistinct range bc.m perm v.distinct);
    inside = collected bc.genesis root at;
    empty = h.origin root at;
    only = λ b i e.
        let (k, a, n, _, found, is) = entry_of_collect bc v (range bc.m) b i in
        let here = genesis_alone bc a n v h found (ap (λ (x : Block). x.previous_hash) is ∙ e) in
        let same : n ≡ root = cc in sym is ∙ ap (λ (x : Node). x.block) same;
    closed = λ b i.
        let (k, a, n, _, found, is) = entry_of_collect bc v (range bc.m) b i in
        elim (Option-cases n.parent) [
          | inl orphan ↦
              let here : get_elem? bc.nodes bc.genesis ≡ some n =
                ap (get_elem? bc.nodes) (sym (v.tree.orphan a n found orphan)) ∙ found in
              inl (ap (λ (x : Block). x.previous_hash) (sym is) ∙ h.origin n here)
          | inr (p, up) ↦
              let (q, at_p, named, _) = v.linked a p n found up in
              inr (
                subst (λ x. In x (hashes (get_blocks range bc)))
                  (named ∙ ap (λ (x : Block). x.previous_hash) is) (hash_collected p q at_p))
        ];
  }

  found_first : (b : Block) → In b (get_blocks range bc) → get_block bc b.hash ≡ some b
  unfolding get_blocks get_block
  found_first b i =
      let (k, a, n, _, found, is) = entry_of_collect bc v (range bc.m) b i in
      let at : get bc.m b.hash ≡ some a =
        ap (λ (x : Block). get bc.m x.hash) (sym is) ∙ v.listed a n found in
      ap (block_at bc) at ∙ ap block_of found ∙ ap some is

  -- A tree that holds them finds under every hash what the first tree finds.
  pub Holds-get_block :
      (bc' : Blockchain) (hash : Bytes)
      → Holds (get_blocks range bc) bc'
      → get_block bc' hash ≡ get_block bc hash
  unfolding get_block
  Holds-get_block bc' hash held = elim (Option-cases (get bc'.m hash)) [
    | inr (a, there) ↦
        let (b, at, is) = held.mapped hash a there in
        ap (block_at bc') there
        ∙ block_of-blocks_of bc'.nodes a
        ∙ ap (λ bs. get_elem? bs a) held.contents
        ∙ at
        ∙ sym (found_first b (member_of_get_elem? (get_blocks range bc) a b at))
        ∙ ap (get_block bc) is
    | inl gone ↦ elim (Option-cases (get bc.m hash)) [
      | inl nowhere ↦ ap (block_at bc') gone ∙ ap (block_at bc) (sym nowhere)
      | inr (a, there) ↦
          let (n, at, is) = v.mapped hash a there in
          let (x, place) = get_elem?_of_In (get_blocks range bc) n.block (collected a n at) in
          let kept : get bc'.m hash ≡ some x =
            ap (get bc'.m) (sym is) ∙ held.listed x n.block place in
          absurd (cc (sym gone ∙ kept))
    ]
  ]

-- ===== src/Blockchain/Unmarshall/Linked.antt =====
-- When blocks make up a tree, `UnmarshallBlockchain` returns it.
use miner.Prelude.{
  ℕ, zero, suc, ◌<◌, ◌≡◌, refl, ◌≢◌, inl, inr, none, some, List, [], ◌∷◌, ◌++◌, map, length,
  get_elem?, arith, In, IsDistinct, In-append_cases, IsDistinct-snoc, ℕ_discrete, subst, length-map,
  ◌∙◌, sym, ap, if_pos, if_neg, get_elem?-some,
}
use miner.Prelude.Bytes.{Bytes}
use miner.Block.{Block}
use miner.Blockchain.{Node}
use miner.Blockchain.Unmarshall.{Linking, hang}
use miner.Blockchain.Unmarshall.Hang.{blocks_of, changed, get_elem?-hang, blocks_of-hang, before}
use miner.Blockchain.Unmarshall.Placed.{Placed, hang-Placed}

get_elem?-map :
    {A B : Type 0} (f : A → B) (xs : List A) (i : ℕ) (x : A)
    → get_elem? xs i ≡ some x
    → get_elem? (map f xs) i ≡ some (f x)
get_elem?-map f [] i x h = cc
get_elem?-map f (y ∷ xs) zero x h = ground arith
get_elem?-map f (y ∷ xs) (suc i) x h = get_elem?-map f xs i x h

-- The loop has visited the nodes in `done`.
pub record Inv (bs : List Block) (done : List ℕ) (l : Linking) : Type 0 where
  pub blocks : blocks_of l.nodes ≡ bs
  pub waiting : (a : ℕ) (n : Node) → get_elem? l.nodes a ≡ some n → ¬ In a done → n.parent ≡ none
  pub hung :
      (a c : ℕ) (n : Node)
      → get_elem? l.nodes a ≡ some n
      → In c n.children
      → (d : Node) × (get_elem? l.nodes c ≡ some d) × (d.parent ≡ some a)
  pub spread : (a : ℕ) (n : Node) → get_elem? l.nodes a ≡ some n → IsDistinct n.children
  pub rooted :
      (a : ℕ) (n : Node)
      → get_elem? l.nodes a ≡ some n
      → n.block.previous_hash ≡ []
      → n.parent ≡ none
  pub lost :
      (a : ℕ) (n : Node)
      → get_elem? l.nodes a ≡ some n
      → n.parent ≡ none
      → In a done
      → n.block.previous_hash ≡ []
  pub begun :
      (g : ℕ)
      → l.genesis ≡ some g
      → (b : Block) × (get_elem? bs g ≡ some b) × (b.previous_hash ≡ [])
  pub ended :
      (a : ℕ) (b : Block)
      → get_elem? bs a ≡ some b
      → b.previous_hash ≡ []
      → In a done
      → (g : ℕ) × (l.genesis ≡ some g)
  pub above : Placed l.nodes

pub block_at :
    (bs : List Block) (nodes : List Node) (a : ℕ) (n : Node)
    → blocks_of nodes ≡ bs
    → get_elem? nodes a ≡ some n
    → get_elem? bs a ≡ some n.block
block_at bs nodes a n e at =
    subst (λ t. get_elem? t a ≡ some n.block) e (get_elem?-map (λ (n : Node). n.block) nodes a n at)

pub node_of :
    (bs : List Block) (nodes : List Node) (a : ℕ)
    → blocks_of nodes ≡ bs
    → a < length bs
    → (n : Node) × (get_elem? nodes a ≡ some n) × (get_elem? bs a ≡ some n.block)
node_of bs nodes a e lt =
    let size = sym (length-map (λ (n : Node). n.block) nodes) ∙ ap length e in
    let (n, at) = get_elem?-some nodes a (omega arith) in (n, at, block_at bs nodes a n e at)

some_inj : {A : Type 0} {x y : A} → some x ≡ some y → x ≡ y
some_inj e = cc

module _ (bs : List Block) (done : List ℕ) (l : Linking) (i : Inv bs done l) (a : ℕ) (n : Node)
    (at : get_elem? l.nodes a ≡ some n) (fresh : ¬ In a done) where
  -- A node with no previous hash becomes the genesis node.
  pub root-Inv : n.block.previous_hash ≡ [] → Inv bs (a ∷ done) (record l { genesis = some a })
  root-Inv empty = record {
    blocks = i.blocks;
    waiting = λ x z h out. i.waiting x z h (λ m. out (inr m));
    hung = i.hung;
    spread = i.spread;
    rooted = i.rooted;
    lost = λ x z h none_above m. elim m [
      | inl is ↦ ground arith
      | inr old ↦ i.lost x z h none_above old
    ];
    begun = λ g e. (n.block, at_block g e, empty);
    ended = λ x b h e m. (a, refl);
    above = i.above;
  }
    where
      at_block : (g : ℕ) → some a ≡ some g → get_elem? bs g ≡ some n.block
      at_block g e = rw (← some_inj e) (block_at bs l.nodes a n i.blocks at)

  module _ (p : ℕ) (q : Node) (at_p : get_elem? l.nodes p ≡ some q) (x0 : ℕ) (h0 : Bytes)
      (prev : n.block.previous_hash ≡ x0 ∷ h0) (named : q.block.hash ≡ n.block.previous_hash) where
    abbrev nodes' : List Node
    nodes' = hang l.nodes a n p

    unparented : n.parent ≡ none
    unparented = i.waiting a n at fresh

    -- Nobody has the node as a child yet.
    unclaimed : (x : ℕ) (z : Node) → get_elem? l.nodes x ≡ some z → ¬ In a z.children
    unclaimed x z old m =
        let (d, at', up) = i.hung x a z old m in
        let none_above = unparented in
        let same : d ≡ n = ground arith in
        absurd (cc (sym up ∙ ap (λ t. t.parent) same ∙ none_above))

    hung' :
        (x c : ℕ) (z : Node)
        → get_elem? l.nodes x ≡ some z
        → In c (changed a p x z).children
        → (d : Node) × (get_elem? nodes' c ≡ some d) × (d.parent ≡ some x)
    hung' x c z old m = elim (ℕ_discrete x p) [
      | yes e ↦
          let m' : In c (z.children ++ a ∷ []) = subst (In c) (if_pos (ℕ_discrete x p) e _ _) m in
          elim (In-append_cases c z.children (a ∷ []) m') [
            | inl child ↦ older child
            | inr last ↦ elim last [
              | inl is ↦ (
                changed a p a n,
                rw is (get_elem?-hang l.nodes a p n q at at_p a n at),
                if_pos (ℕ_discrete a a) refl _ _ ∙ ap some (sym e),
              )
              | inr z' ↦ absurd z'
            ]
          ]
      | no ne ↦ older (subst (In c) (if_neg (ℕ_discrete x p) ne _ _) m)
    ]
      where
        older : In c z.children → (d : Node) × (get_elem? nodes' c ≡ some d) × (d.parent ≡ some x)
        older child =
            let (d, at', up) = i.hung x c z old child in
            let other : c ≢ a = λ is. unclaimed x z old (subst (λ t. In t z.children) is child) in
            (
              changed a p c d,
              get_elem?-hang l.nodes a p n q at at_p c d at',
              if_neg (ℕ_discrete c a) other _ _ ∙ up,
            )

    spread' :
        (x : ℕ) (z : Node) → get_elem? l.nodes x ≡ some z → IsDistinct (changed a p x z).children
    spread' x z old = elim (ℕ_discrete x p) [
      | yes e ↦
          subst IsDistinct (sym (if_pos (ℕ_discrete x p) e _ _))
            (IsDistinct-snoc z.children a (i.spread x z old) (unclaimed x z old))
      | no ne ↦ subst IsDistinct (sym (if_neg (ℕ_discrete x p) ne _ _)) (i.spread x z old)
    ]

    parent_kept : (x : ℕ) (z : Node) → x ≢ a → (changed a p x z).parent ≡ z.parent
    parent_kept x z ne = if_neg (ℕ_discrete x a) ne _ _

    parent_new : (x : ℕ) (z : Node) → x ≡ a → (changed a p x z).parent ≡ some p
    parent_new x z e = if_pos (ℕ_discrete x a) e _ _

    rooted' :
        (x : ℕ) (z : Node)
        → get_elem? l.nodes x ≡ some z
        → z.block.previous_hash ≡ []
        → (changed a p x z).parent ≡ none
    rooted' x z old empty = elim (ℕ_discrete x a) [
      | yes e ↦
          let same : z ≡ n = ground arith in
          absurd (cc (sym empty ∙ ap (λ t. t.block.previous_hash) same ∙ prev))
      | no ne ↦ parent_kept x z ne ∙ i.rooted x z old empty
    ]

    lost' :
        (x : ℕ) (z : Node)
        → get_elem? l.nodes x ≡ some z
        → (changed a p x z).parent ≡ none
        → In x (a ∷ done)
        → z.block.previous_hash ≡ []
    lost' x z old up m = elim (ℕ_discrete x a) [
      | yes e ↦ absurd (cc (sym (parent_new x z e) ∙ up))
      | no ne ↦ elim m [
        | inl is ↦ absurd (ne is)
        | inr past ↦ i.lost x z old (sym (parent_kept x z ne) ∙ up) past
      ]
    ]

    pub hang-Inv : Inv bs (a ∷ done) (record l { nodes = nodes' })
    hang-Inv = record {
      blocks = blocks_of-hang l.nodes a p n q at at_p ∙ i.blocks;
      waiting = λ x y h out.
          let (z, old, is) = before l.nodes a p n q at at_p x y h in
          ap (λ t. t.parent) is
          ∙ parent_kept x z (λ e. out (inl e))
          ∙ i.waiting x z old (λ m. out (inr m));
      hung = λ x c y h m.
          let (z, old, is) = before l.nodes a p n q at at_p x y h in
          hung' x c z old (subst (λ t. In c t.children) is m);
      spread = λ x y h.
          let (z, old, is) = before l.nodes a p n q at at_p x y h in
          subst (λ t. IsDistinct t.children) (sym is) (spread' x z old);
      rooted = λ x y h empty.
          let (z, old, is) = before l.nodes a p n q at at_p x y h in
          ap (λ t. t.parent) is
          ∙ rooted' x z old (sym (ap (λ t. t.block.previous_hash) is) ∙ empty);
      lost = λ x y h up m.
          let (z, old, is) = before l.nodes a p n q at at_p x y h in
          ap (λ t. t.block.previous_hash) is ∙ lost' x z old (sym (ap (λ t. t.parent) is) ∙ up) m;
      begun = i.begun;
      ended = λ x b h empty m. elim m [
        | inl e ↦
            let own = block_at bs l.nodes a n i.blocks at in
            let same : b ≡ n.block = ground arith in
            absurd (cc (sym empty ∙ ap (λ t. t.previous_hash) same ∙ prev))
        | inr past ↦ i.ended x b h empty past
      ];
      above = hang-Placed l.nodes a p n q at at_p named i.above;
    }

-- ===== src/Blockchain/Add/Invariant.antt =====
-- `attach` keeps the tree valid.
use miner.Prelude.{
  ℕ, ◌≤◌, ◌<◌, ◌≡◌, refl, ◌⊎◌, inl, inr, Option, none, some, List, [], ◌∷◌, length, get_elem?,
  arith, ◌==◌, ℕ_discrete, subst, sym, ◌∙◌, In, IsDistinct, In-append_left, In-append_right,
  In-append_cases, IsDistinct-snoc, Bool-cases, ==_iff, lt-length_of_get_elem?,
}
use miner.Prelude.Bytes.{Bytes, dec_bytes}
use miner.Prelude.GoMap.{get, put, get-put, length-put, put-IsDistinct}
use miner.Block.{Block}
use miner.Blockchain.{Node, Blockchain, new_node}
use miner.Blockchain.Walk.{IsChain}
use miner.Blockchain.Shape.{IsLinked, IsValid}
use miner.Blockchain.Add.{attach}
use miner.Blockchain.Add.Attach.{
  same_links, grown, nodes', nodes-attach, length-nodes', at_child, at_old, at_cases,
}

-- Chains depend on the blocks and the parents alone.
pub IsChain-mono :
    (nodes heap : List Node)
    → ((a : ℕ) (n : Node)
        → get_elem? nodes a ≡ some n
        → (n' : Node) × (get_elem? heap a ≡ some n')
          × (n'.block ≡ n.block)
          × (n'.parent ≡ n.parent))
    → (p : Option ℕ) (bs : List Block) → IsChain nodes p bs
    → IsChain heap p bs
IsChain-mono nodes heap same none [] c = tt
IsChain-mono nodes heap same none (b ∷ bs) c = c
IsChain-mono nodes heap same (some a) [] c = c
IsChain-mono nodes heap same (some a) (b ∷ bs) (n, e, is, c) =
    let (n', e', is', p') = same a n e in
    (
      n',
      e',
      is' ∙ is,
      subst (λ p. IsChain heap p bs) (sym p') (IsChain-mono nodes heap same n.parent bs c),
    )

module _ (prev child a : ℕ) (n : Node) where
  grown_cases :
      (c : ℕ) → In c (grown prev child a n).children → In c n.children ⊎ ((a ≡ prev) × (c ≡ child))
  grown_cases c h = elim (Bool-cases (a == prev)) [
    | inl same ↦ elim (In-append_cases c n.children (child ∷ []) (rw same at h)) [
      | inl old ↦ inl old
      | inr last ↦ elim last [ inl e ↦ inr ((==_iff a prev).0 same, e) | inr z ↦ absurd z ]
    ]
    | inr other ↦ inl (rw other at h)
  ]

  grown_keeps : (c : ℕ) → In c n.children → In c (grown prev child a n).children
  grown_keeps c h = elim (Bool-cases (a == prev)) [
    | inl same ↦ rw same (In-append_left c n.children (child ∷ []) h)
    | inr other ↦ rw other h
  ]

  grown-IsDistinct :
      IsDistinct n.children → ¬ In child n.children → IsDistinct (grown prev child a n).children
  grown-IsDistinct d new = elim (Bool-cases (a == prev)) [
    | inl same ↦ rw same (IsDistinct-snoc n.children child d new)
    | inr other ↦ rw other d
  ]

grown_self : (prev child : ℕ) (n : Node) → In child (grown prev child prev n).children
grown_self prev child n =
    rw ((==_iff prev prev).1 refl) (In-append_right child n.children (child ∷ []) (inl refl))

module _ (bc : Blockchain) (block : Block) (prev : ℕ) (q : Node)
    (at_prev : get_elem? bc.nodes prev ≡ some q) (v : IsValid bc)
    (fresh : get bc.m block.hash ≡ none) (parent_hash : q.block.hash ≡ block.previous_hash) where
  abbrev child : ℕ
  child = length bc.nodes

  abbrev heap : List Node
  heap = nodes' bc block prev q at_prev

  abbrev bc' : Blockchain
  bc' = record bc { nodes = heap; m = put bc.m block.hash child }

  hung' :
      (a c : ℕ) (n : Node)
      → get_elem? heap a ≡ some n
      → In c n.children
      → (d : Node) × (get_elem? heap c ≡ some d) × (d.parent ≡ some a)
  hung' a c n e h = elim (at_cases bc block prev q at_prev a n e) [
    | inl (_, is) ↦ absurd (subst (λ (x : Node). In c x.children) is h)
    | inr (o, e', is) ↦
        elim (grown_cases prev child a o c (subst (λ (x : Node). In c x.children) is h)) [
          | inl before ↦
              let (d, at, p) = v.tree.hung a c o e' before in
              (grown prev child c d, at_old bc block prev q at_prev c d at, ground arith)
          | inr (here, last) ↦
              (new_node block (some prev), rw last (at_child bc block prev q at_prev), rw here)
        ]
  ]

  spread' : (a : ℕ) (n : Node) → get_elem? heap a ≡ some n → IsDistinct n.children
  spread' a n e = elim (at_cases bc block prev q at_prev a n e) [
    | inl (_, is) ↦ rw is tt
    | inr (o, e', is) ↦ rw is (
        grown-IsDistinct prev child a o (v.tree.spread a o e') λ m.
          let (d, at, _) = v.tree.hung a child o e' m in
          absurd (omega (arith, lt-length_of_get_elem? bc.nodes child d at)))
  ]

  mapped' :
      (k : Bytes) (a : ℕ)
      → get bc'.m k ≡ some a
      → (n : Node) × (get_elem? heap a ≡ some n) × (n.block.hash ≡ k)
  mapped' k a e = elim (dec_bytes block.hash k) [
    | yes same ↦ (
      new_node block (some prev),
      ground (arith, get-put bc.m block.hash k child, at_child bc block prev q at_prev),
      same,
    )
    | no other ↦
        let (n, at, h) = v.mapped k a (ground (arith, get-put bc.m block.hash k child)) in
        (grown prev child a n, at_old bc block prev q at_prev a n at, ground arith)
  ]

  parents' :
      (a p : ℕ) (n : Node)
      → get_elem? heap a ≡ some n
      → n.parent ≡ some p
      → (o : Node) × (get_elem? heap p ≡ some o)
        × (o.block.hash ≡ n.block.previous_hash)
        × In a o.children
  parents' a p n e r = elim (at_cases bc block prev q at_prev a n e) [
    | inl (last, is) ↦
        let here : prev ≡ p = ground arith in
        (
          grown prev child prev q,
          subst (λ x. get_elem? heap x ≡ some (grown prev child prev q)) here
              (at_old bc block prev q at_prev prev q at_prev),
          ground (arith, parent_hash),
          rw last (grown_self prev child q),
        )
    | inr (o, e', is) ↦
        let (d, at, h, m) = v.linked a p o e' (ground arith) in
        (
          grown prev child p d,
          at_old bc block prev q at_prev p d at,
          ground arith,
          grown_keeps prev child p d a m,
        )
  ]

  grounded' :
      (a : ℕ)
      → a < length heap
      → (bs : List Block) × IsChain heap (some a) bs × (length bs ≤ length heap)
  grounded' a below = elim (ℕ_discrete a child) [
    | yes last ↦
        let (bs, c, le) = v.grounded prev (lt-length_of_get_elem? bc.nodes prev q at_prev) in
        (
          block ∷ bs,
          subst (λ x. IsChain heap (some x) (block ∷ bs)) (sym last)
              (
                new_node block (some prev),
                at_child bc block prev q at_prev,
                refl,
                IsChain-mono bc.nodes heap (same_links bc block prev q at_prev) (some prev) bs c,
              ),
          omega (arith, length-nodes' bc block prev q at_prev),
        )
    | no older ↦
        let size = length-nodes' bc block prev q at_prev in
        let (bs, c, le) = v.grounded a (omega arith) in
        (
          bs,
          IsChain-mono bc.nodes heap (same_links bc block prev q at_prev) (some a) bs c,
          omega arith,
        )
  ]

  linked' : IsLinked bc'
  linked' = record {
    rooted =
        let (n, e, r) = v.tree.rooted in
        (
          grown prev child bc.genesis n,
          at_old bc block prev q at_prev bc.genesis n e,
          ground arith,
        );
    orphan = λ a n e r. elim (at_cases bc block prev q at_prev a n e) [
      | inl (_, is) ↦ ground arith
      | inr (o, e', is) ↦ v.tree.orphan a o e' (ground arith)
    ];
    hung = hung';
    spread = spread';
  }

  attached : IsValid bc'
  attached = record {
    tree = linked';
    mapped = mapped';
    listed = λ a n e. elim (at_cases bc block prev q at_prev a n e) [
      | inl (last, is) ↦ ground (arith, get-put bc.m block.hash n.block.hash child)
      | inr (o, e', is) ↦
          ground (arith, get-put bc.m block.hash n.block.hash child, v.listed a o e')
    ];
    linked = parents';
    grounded = grounded';
    sized = omega (
      arith,
      length-put bc.m block.hash child fresh,
      length-nodes' bc block prev q at_prev,
      v.sized,
    );
    distinct = put-IsDistinct bc.m block.hash child v.distinct;
  }

  pub attach-IsValid : IsValid (attach bc block prev)
  unfolding attach
  attach-IsValid =
      subst (λ ns. IsValid (record bc' { nodes = ns })) (sym (nodes-attach bc block prev q at_prev))
        attached

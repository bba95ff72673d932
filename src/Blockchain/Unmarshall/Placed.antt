-- ===== src/Blockchain/Unmarshall/Placed.antt =====
-- A node with a parent is among its children, and carries its hash as the previous one.
use miner.Prelude.{
  ℕ, ◌≡◌, refl, some, List, [], ◌∷◌, get_elem?, In, inl, ℕ_discrete, In-append_left,
  In-append_right, if_pos, if_neg, ◌∙◌, sym, ap, subst, arith,
}
use miner.Blockchain.{Node}
use miner.Blockchain.Unmarshall.{hang}
use miner.Blockchain.Unmarshall.Hang.{changed, get_elem?-hang, before}

abbrev pub Placed : List Node → Type 0
Placed nodes =
    (a p : ℕ) (n : Node)
    → get_elem? nodes a ≡ some n
    → n.parent ≡ some p
    → (q : Node) × (get_elem? nodes p ≡ some q)
      × (q.block.hash ≡ n.block.previous_hash)
      × In a q.children

module _ (nodes : List Node) (a p : ℕ) (n q : Node) (at : get_elem? nodes a ≡ some n)
    (at_p : get_elem? nodes p ≡ some q) where
  -- The children that a node had stay.
  kept_child : (x y : ℕ) (z : Node) → In x z.children → In x (changed a p y z).children
  kept_child x y z m = elim (ℕ_discrete y p) [
    | yes e ↦
        subst (In x) (sym (if_pos (ℕ_discrete y p) e _ _)) (In-append_left x z.children (a ∷ []) m)
    | no ne ↦ subst (In x) (sym (if_neg (ℕ_discrete y p) ne _ _)) m
  ]

  new_child : In a (changed a p p q).children
  new_child =
      subst (In a) (sym (if_pos (ℕ_discrete p p) refl _ _))
        (In-append_right a q.children (a ∷ []) (inl refl))

  pub hang-Placed : q.block.hash ≡ n.block.previous_hash → Placed nodes → Placed (hang nodes a n p)
  hang-Placed named above x p' y h up =
      let (z, old, is) = before nodes a p n q at at_p x y h in
      let block : z.block ≡ y.block = ap (λ t. t.block) (sym is) in
      elim (ℕ_discrete x a) [
        | yes e ↦
            let parent : some p ≡ some p' =
              sym (if_pos (ℕ_discrete x a) e _ _) ∙ sym (ap (λ t. t.parent) is) ∙ up in
            let there : p ≡ p' = cc in
            let self : n ≡ z = ground arith in
            (
              changed a p p q,
              ap (get_elem? (hang nodes a n p)) (sym there)
                  ∙ get_elem?-hang nodes a p n q at at_p p q at_p,
              named ∙ ap (λ t. t.block.previous_hash) self ∙ ap (λ t. t.previous_hash) block,
              subst (λ t. In t (changed a p p q).children) (sym e) new_child,
            )
        | no ne ↦
            let parent = sym (if_neg (ℕ_discrete x a) ne _ _) ∙ sym (ap (λ t. t.parent) is) ∙ up in
            let (w, at', hash, m) = above x p' z old parent in
            (
              changed a p p' w,
              get_elem?-hang nodes a p n q at at_p p' w at',
              hash ∙ ap (λ t. t.previous_hash) block,
              kept_child x p' w m,
            )
      ]

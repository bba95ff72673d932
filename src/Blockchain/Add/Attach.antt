-- ===== src/Blockchain/Add/Attach.antt =====
-- The heap after `attach`: one new node, one longer list of children, and nothing else.
use miner.Prelude.{
  ℕ, ◌+◌, ◌<◌, ◌≡◌, refl, ◌⊎◌, inl, inr, some, List, [], ◌∷◌, ◌++◌, length, set, get_elem?, arith,
  ◌==◌, if◌then◌else◌, length-append, length-set, get_elem?-append_left, get_elem?-append_last,
  get_elem?-set_self, get_elem?-set_ne, get_elem?-some, lt-length_of_get_elem?, ℕ_discrete, ap, ◌∙◌,
}
use miner.Block.{Block}
use miner.Blockchain.{Node, Blockchain, new_node}
use miner.Blockchain.Add.{attach, adopt_at}

-- Node `a` after `child` has been hung under `prev`.
abbrev pub grown : ℕ → ℕ → ℕ → Node → Node
grown prev child a n = if a == prev then record n { children = n.children ++ child ∷ [] } else n

module _ (bc : Blockchain) (block : Block) (prev : ℕ) (q : Node)
    (at_prev : get_elem? bc.nodes prev ≡ some q) where
  abbrev pub child : ℕ
  child = length bc.nodes

  abbrev pub nodes' : List Node
  nodes' =
      set (bc.nodes ++ new_node block (some prev) ∷ []) prev
        (record q { children = q.children ++ child ∷ [] })

  prev-lt : prev < child
  prev-lt = lt-length_of_get_elem? bc.nodes prev q at_prev

  pub nodes-attach : (attach bc block prev).nodes ≡ nodes'
  unfolding attach
  nodes-attach =
      ap (adopt_at (bc.nodes ++ new_node block (some prev) ∷ []) prev child)
        (get_elem?-append_left bc.nodes (new_node block (some prev) ∷ []) prev prev-lt ∙ at_prev)

  pub length-nodes' : length nodes' ≡ child + 1
  length-nodes' = omega (
    arith,
    length-set (bc.nodes ++ new_node block (some prev) ∷ []) prev
        (record q { children = q.children ++ child ∷ [] }),
    length-append bc.nodes (new_node block (some prev) ∷ []),
  )

  pub at_child : get_elem? nodes' child ≡ some (new_node block (some prev))
  at_child =
      get_elem?-set_ne (bc.nodes ++ new_node block (some prev) ∷ []) prev child _
        (λ e. absurd (omega (arith, prev-lt)))
      ∙ get_elem?-append_last bc.nodes _ child refl

  pub at_old :
      (a : ℕ) (n : Node)
      → get_elem? bc.nodes a ≡ some n
      → get_elem? nodes' a ≡ some (grown prev child a n)
  at_old a n e =
      let below = lt-length_of_get_elem? bc.nodes a n e in
      let kept = get_elem?-append_left bc.nodes (new_node block (some prev) ∷ []) a below in
      let size = length-append bc.nodes (new_node block (some prev) ∷ []) in
      let heap = bc.nodes ++ new_node block (some prev) ∷ [] in
      let q' : Node = record q { children = q.children ++ child ∷ [] } in
      elim (ℕ_discrete prev a) [
        | yes same ↦ ground (arith, get_elem?-set_self heap prev q')
        | no other ↦ ground (arith, get_elem?-set_ne heap prev a q' other)
      ]

  pub at_cases :
      (a : ℕ) (n : Node)
      → get_elem? nodes' a ≡ some n
      → ((a ≡ child) × (n ≡ new_node block (some prev)))
        ⊎ ((o : Node) × (get_elem? bc.nodes a ≡ some o) × (n ≡ grown prev child a o))
  at_cases a n e = elim (ℕ_discrete a child) [
    | yes last ↦ inl (last, ground (arith, at_child))
    | no older ↦
        let below = lt-length_of_get_elem? nodes' a n e in
        let (o, there) = get_elem?-some bc.nodes a (omega (arith, length-nodes')) in
        inr (o, there, ground (arith, at_old a o there))
  ]

  -- Blocks and parents stay what they were.
  pub same_links :
      (a : ℕ) (n : Node)
      → get_elem? bc.nodes a ≡ some n
      → (n' : Node) × (get_elem? nodes' a ≡ some n') × (n'.block ≡ n.block) × (n'.parent ≡ n.parent)
  same_links a n e = (grown prev child a n, at_old a n e, ground arith, ground arith)

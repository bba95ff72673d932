-- ===== src/Blockchain/Longest/Deepest.antt =====
-- What the search finds: the nodes of greatest depth below the genesis node.
use miner.Prelude.{
  ℕ, zero, suc, ◌+◌, ◌≤◌, ◌<◌, ◌≡◌, refl, ◌⊎◌, inl, inr, some, List, [], ◌∷◌, ◌++◌, arith, In,
  In-append_left, In-append_right, In-append_cases, length, get_elem?, ltb, ◌==◌, List-cases,
  Bool-cases, ltb→lt, ==_iff, Option-cases, sym, ap, subst, ◌∙◌,
}
use miner.Blockchain.{Node, Blockchain}
use miner.Blockchain.Longest.{Search, push, expand, search_loop, search_from, get_last_nodes}
use miner.Blockchain.Longest.Below.{
  Below, here, down, Below-snoc, In-push_cases, In-push_old, In-push_new,
}

-- The search has taken node `b` at depth `e` into account.
abbrev Done : Search → ℕ → ℕ → Type 0
Done s b e = (e ≤ s.max_depth) × (e ≡ s.max_depth → In b s.last_nodes)

-- Deeper than all before, as deep as the deepest, or neither.
data Visit (s : Search) (d a : ℕ) (t : Search) : Type 0 where
  deeper :
      s.max_depth < d → t.max_depth ≡ d → t.last_nodes ≡ a ∷ [] → t.last_node ≡ a → Visit s d a t
  level :
      d ≡ s.max_depth
      → t.max_depth ≡ s.max_depth
      → t.last_nodes ≡ s.last_nodes ++ a ∷ []
      → t.last_node ≡ s.last_node
      → Visit s d a t
  above :
      d < s.max_depth
      → t.max_depth ≡ s.max_depth
      → t.last_nodes ≡ s.last_nodes
      → t.last_node ≡ s.last_node
      → Visit s d a t

expand-Visit :
    (s : Search) (d a : ℕ) (rest : List (ℕ × ℕ)) (n : Node) → Visit s d a (expand s d a rest n)
unfolding expand
expand-Visit s d a rest n = elim (Bool-cases (ltb s.max_depth d)) [
  | inl more ↦ rw more (deeper (ltb→lt s.max_depth d more) refl refl refl)
  | inr less ↦ elim (Bool-cases (d == s.max_depth)) [
    | inl same ↦ rw (less, same) (level ((==_iff d s.max_depth).0 same) refl refl refl)
    | inr other ↦ rw (less, other) (above (ground arith) refl refl refl)
  ]
]

pub stack-expand :
    (s : Search) (d a : ℕ) (rest : List (ℕ × ℕ)) (n : Node)
    → (expand s d a rest n).stack ≡ push d rest n.children
unfolding expand
stack-expand s d a rest n = refl

Done-Visit : {s t : Search} {d a : ℕ} (b e : ℕ) → Visit s d a t → Done s b e → Done t b e
Done-Visit b e (deeper lt m l _) h = (omega arith, λ is. absurd (omega arith))
Done-Visit b e (level is m l _) h =
    (omega arith, λ same. rw l (In-append_left b _ _ (h.1 (same ∙ m))))
Done-Visit b e (above lt m l _) h = (omega arith, λ same. rw l (h.1 (same ∙ m)))

Done-here : {s t : Search} {d a : ℕ} → Visit s d a t → Done t a d
Done-here (deeper lt m l _) = (omega arith, λ same. rw l (inl refl))
Done-here {s} {t} {d} {a} (level is m l _) =
    (omega arith, λ same. rw l (In-append_right a s.last_nodes (a ∷ []) (inl refl)))
Done-here (above lt m l _) = (omega arith, λ same. absurd (omega arith))

module _ (nodes : List Node) (root : ℕ) where
  abbrev pub Leads : ℕ → ℕ → Type 0
  Leads b e = Below nodes b e root 0

  -- Whatever lies below the root is accounted for or lies below the stack, and nothing else is listed.
  record Inv (s : Search) : Type 0 where
    covered :
        (b e : ℕ) → Leads b e → Done s b e ⊎ ((a d : ℕ) × In (a, d) s.stack × Below nodes b e a d)
    waiting : (a d : ℕ) → In (a, d) s.stack → Leads a d
    listed : (b : ℕ) → In b s.last_nodes → Leads b s.max_depth
    last : Leads s.last_node s.max_depth

  module _ (s : Search) (a d : ℕ) (rest : List (ℕ × ℕ)) (n : Node) (top : s.stack ≡ (a, d) ∷ rest)
      (at : get_elem? nodes a ≡ some n) (h : Inv s) where
    abbrev t : Search
    t = expand s d a rest n

    popped : Leads a d
    popped = h.waiting a d (rw top (inl refl))

    -- A node below the popped one is that node, or lies below one of its children.
    Below-popped :
        (b e : ℕ)
        → Below nodes b e a d
        → Done t b e ⊎ ((x y : ℕ) × In (x, y) t.stack × Below nodes b e x y)
    Below-popped b e (here is depth) =
        inl (rw (← is, ← depth) (Done-here (expand-Visit s d a rest n)))
    Below-popped b e (down n' c at' m r) =
        let same : n' ≡ n = ground arith in
        inr (
          c,
          d + 1,
          rw (stack-expand s d a rest n) (In-push_new d rest n.children c (rw same at m)),
          r,
        )

    covered' :
        (b e : ℕ) → Leads b e → Done t b e ⊎ ((x y : ℕ) × In (x, y) t.stack × Below nodes b e x y)
    covered' b e l = elim (h.covered b e l) [
      | inl done ↦ inl (Done-Visit b e (expand-Visit s d a rest n) done)
      | inr (x, y, m, r) ↦ elim (rw top at m) [
        | inl is ↦ Below-popped b e (subst (λ p. Below nodes b e p.0 p.1) is r)
        | inr old ↦
            inr (x, y, rw (stack-expand s d a rest n) (In-push_old d rest n.children (x, y) old), r)
      ]
    ]

    waiting' : (x y : ℕ) → In (x, y) t.stack → Leads x y
    waiting' x y m =
        elim (In-push_cases d rest n.children x y (rw (stack-expand s d a rest n) at m)) [
          | inl old ↦ h.waiting x y (rw top (inr old))
          | inr (child, e) ↦ rw e (Below-snoc nodes a d n x at child popped)
        ]

    listed_Visit : (u : Search) → Visit s d a u → (b : ℕ) → In b u.last_nodes → Leads b u.max_depth
    listed_Visit u (deeper lt m l _) b k = elim (rw l at k) [
      | inl is ↦ rw (is, m) popped
      | inr z ↦ absurd z
    ]
    listed_Visit u (above lt m l _) b k = rw m (h.listed b (rw l at k))
    listed_Visit u (level same m l _) b k =
        elim (In-append_cases b s.last_nodes (a ∷ []) (rw l at k)) [
          | inl old ↦ rw m (h.listed b old)
          | inr new ↦ elim new [ inl is ↦ rw (is, m, ← same) popped | inr z ↦ absurd z ]
        ]

    last_Visit : (u : Search) → Visit s d a u → Leads u.last_node u.max_depth
    last_Visit u (deeper lt m _ l) = rw (l, m) popped
    last_Visit u (above lt m _ l) = rw (l, m) h.last
    last_Visit u (level same m _ l) = rw (l, m) h.last

    Inv-expand : Inv t
    Inv-expand = record {
      covered = covered';
      waiting = waiting';
      listed = listed_Visit t (expand-Visit s d a rest n);
      last = last_Visit t (expand-Visit s d a rest n);
    }

  -- An invariant of the rounds holds when the loop has emptied the stack.
  pub search_loop_rule :
      (P : Search → Type 0)
      → ((s : Search) (a d : ℕ) (rest : List (ℕ × ℕ)) (n : Node)
          → s.stack ≡ (a, d) ∷ rest
          → get_elem? nodes a ≡ some n
          → P s
          → P (expand s d a rest n))
      → (fuel : ℕ) (s t : Search) → P s
      → search_loop fuel nodes s ≡ some t
      → P t × (t.stack ≡ [])
  unfolding search_loop
  search_loop_rule P keep zero s t p e = ground arith
  search_loop_rule P keep (suc fuel) s t p e = elim (List-cases s.stack) [
    | inl empty ↦ ground arith
    | inr ((a, d), rest, top) ↦ elim (Option-cases (get_elem? nodes a)) [
      | inl lost ↦ absurd (cc (rw (top, lost, search_loop) at e))
      | inr (n, at) ↦
          search_loop_rule P keep fuel (expand s d a rest n) t (keep s a d rest n top at p)
            (rw (top, at, search_loop) at e)
    ]
  ]

  Inv-start : Inv (search_from root)
  Inv-start = record {
    covered = λ b e l. inr (root, 0, inl refl, l);
    waiting = λ a d m. elim m [
      | inl is ↦ here (sym (ap (λ (p : ℕ × ℕ). p.0) is)) (sym (ap (λ (p : ℕ × ℕ). p.1) is))
      | inr z ↦ absurd z
    ];
    listed = λ b m. elim m [ inl is ↦ here (sym is) refl | inr z ↦ absurd z ];
    last = here refl refl;
  }

-- The nodes of greatest depth below the genesis node, and that depth.
pub record IsDeepest (bc : Blockchain) (found : List ℕ) (last depth : ℕ) : Type 0 where
  pub only : (b : ℕ) → In b found → Below bc.nodes b depth bc.genesis 0
  pub every : (b : ℕ) → Below bc.nodes b depth bc.genesis 0 → In b found
  pub greatest : (b e : ℕ) → Below bc.nodes b e bc.genesis 0 → e ≤ depth
  pub among : Below bc.nodes last depth bc.genesis 0

finished :
    (bc : Blockchain) (s : Search)
    → Inv bc.nodes bc.genesis s
    → s.stack ≡ []
    → IsDeepest bc s.last_nodes s.last_node s.max_depth
finished bc s inv empty = record {
  only = inv.listed;
  every = λ b l. (done b s.max_depth l).1 refl;
  greatest = λ b e l. (done b e l).0;
  among = inv.last;
}
  where
    done : (b e : ℕ) → Below bc.nodes b e bc.genesis 0 → Done s b e
    done b e l = elim (inv.covered b e l) [ inl d ↦ d | inr (x, y, m, _) ↦ absurd (rw empty at m) ]

-- When the search returns, it has listed exactly the nodes of greatest depth below the genesis node,
-- the new `lastNode` is one of that depth, and the rest of the tree is what it was.
pub get_last_nodes-IsDeepest :
    (bc bc' : Blockchain) (found : List ℕ)
    → get_last_nodes bc ≡ some (bc', found)
    → (depth : ℕ) × IsDeepest bc found bc'.last_node depth
      × (bc' ≡ record bc { last_node = bc'.last_node })
unfolding get_last_nodes
get_last_nodes-IsDeepest bc bc' found e =
    elim (Option-cases (search_loop (length bc.nodes) bc.nodes (search_from bc.genesis))) [
      | inl gone ↦ absurd (cc (rw (gone, get_last_nodes) at e))
      | inr (s, run) ↦
          let (inv, empty) =
            search_loop_rule bc.nodes bc.genesis (Inv bc.nodes bc.genesis)
              (Inv-expand bc.nodes bc.genesis) (length bc.nodes) (search_from bc.genesis) s
              (Inv-start bc.nodes bc.genesis) run in
          let e' = rw (run, get_last_nodes) at e in
          let tree : bc' ≡ record bc { last_node = s.last_node } = ground arith in
          let nodes : found ≡ s.last_nodes = ground arith in
          (s.max_depth, rw (tree, nodes) (finished bc s inv empty), rw tree)
    ]

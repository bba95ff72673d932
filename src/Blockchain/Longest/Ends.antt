-- ===== src/Blockchain/Longest/Ends.antt =====
-- The search ends: each round takes a node off the stack for good, also where the parents of other
-- nodes form a cycle.
use miner.Prelude.{
  ℕ, zero, suc, ◌+◌, ◌≤◌, ◌<◌, ◌≡◌, refl, ◌⊎◌, inl, inr, some, List, [], ◌∷◌, ◌++◌, map, arith, In,
  IsDistinct, In-append_left, In-append_right, In-append_cases, length, length-append, length-map,
  get_elem?, List-cases, sym, ap, subst, ◌∙◌, lt-length_of_get_elem?, get_elem?-some,
}
use miner.Prelude.Pigeonhole.{pigeonhole}
use miner.Blockchain.{Node, Blockchain}
use miner.Blockchain.Shape.{IsLinked}
use miner.Blockchain.Longest.{Search, push, expand, search_loop, search_from, get_last_nodes}
use miner.Blockchain.Longest.Deepest.{stack-expand}

abbrev addresses : List (ℕ × ℕ) → List ℕ
addresses = map (λ p. p.0)

-- Moving the head behind `xs` keeps a list distinct.
IsDistinct-middle :
    {A : Type 0} (x : A) (xs ys : List A) → IsDistinct (x ∷ xs ++ ys) → IsDistinct (xs ++ x ∷ ys)
IsDistinct-middle x [] ys d = d
IsDistinct-middle x (y ∷ xs) ys (n, (m, d)) = (
  λ h. elim (In-append_cases y xs (x ∷ ys) h) [
    | inl left ↦ m (In-append_left y xs ys left)
    | inr (inl is) ↦ n (inl (sym is))
    | inr (inr right) ↦ m (In-append_right y xs ys right)
  ],
  IsDistinct-middle x xs ys ((λ h. n (inr h)), d),
)

In-middle :
    {A : Type 0} (z x : A) (xs ys : List A) → In z (xs ++ x ∷ ys) → (z ≡ x) ⊎ In z (xs ++ ys)
In-middle z x xs ys h = elim (In-append_cases z xs (x ∷ ys) h) [
  | inl left ↦ inr (In-append_left z xs ys left)
  | inr (inl is) ↦ inl is
  | inr (inr right) ↦ inr (In-append_right z xs ys right)
]

search_loop_step :
    (fuel : ℕ) (nodes : List Node) (s : Search) (a d : ℕ) (rest : List (ℕ × ℕ)) (n : Node)
    → s.stack ≡ (a, d) ∷ rest
    → get_elem? nodes a ≡ some n
    → search_loop (suc fuel) nodes s ≡ search_loop fuel nodes (expand s d a rest n)
unfolding search_loop
search_loop_step fuel nodes s a d rest n top at = simp (top, at, search_loop)

module _ (bc : Blockchain) (l : IsLinked bc) where
  -- `seen` is what has been popped. Every address is in range, and is the root or a child of a popped one.
  record Inv (stack : List (ℕ × ℕ)) (seen : List ℕ) : Type 0 where
    apart : IsDistinct (addresses stack ++ seen)
    inside : (a : ℕ) → In a (addresses stack ++ seen) → a < length bc.nodes
    known :
        (a : ℕ)
        → In a (addresses stack ++ seen)
        → (a ≡ bc.genesis)
          ⊎ ((n : Node) × (p : ℕ) × (get_elem? bc.nodes a ≡ some n)
              × (n.parent ≡ some p)
              × In p seen)

  room :
      (stack : List (ℕ × ℕ)) (seen : List ℕ)
      → Inv stack seen
      → length stack + length seen ≤ length bc.nodes
  room stack seen i = omega (
    arith,
    pigeonhole (length bc.nodes) (addresses stack ++ seen) i.apart i.inside,
    length-append (addresses stack) seen,
    length-map {B = ℕ} (λ p. p.0) stack,
  )

  -- The popped node moves to `seen`.
  Inv-pop :
      (a d : ℕ) (rest : List (ℕ × ℕ)) (seen : List ℕ)
      → Inv ((a, d) ∷ rest) seen
      → Inv rest (a ∷ seen)
  Inv-pop a d rest seen i = record {
    apart = IsDistinct-middle a (addresses rest) seen i.apart;
    inside = λ x h. i.inside x (In-middle x a (addresses rest) seen h);
    known = λ x h. elim (i.known x (In-middle x a (addresses rest) seen h)) [
      | inl root ↦ inl root
      | inr (n, p, at, parent, m) ↦ inr (n, p, at, parent, inr m)
    ];
  }

  -- A child of `a` is new to a search that has just popped `a`.
  module _ (a : ℕ) (n : Node) (at : get_elem? bc.nodes a ≡ some n) (seen : List ℕ) where
    Inv-push :
        (d : ℕ) (stack : List (ℕ × ℕ)) (cs : List ℕ)
        → Inv stack (a ∷ seen)
        → IsDistinct cs
        → ((c : ℕ) → In c cs → In c n.children × (¬ In c (addresses stack ++ a ∷ seen)))
        → Inv (push d stack cs) (a ∷ seen)
    unfolding push
    Inv-push d stack [] i dist new = i
    Inv-push d stack (c ∷ cs) i dist new =
        Inv-push d ((c, d + 1) ∷ stack) cs
          (record {
            apart = ((new c (inl refl)).1, i.apart);
            inside = λ x h. elim h [
              | inl is ↦ rw is (
                  lt-length_of_get_elem? bc.nodes c (l.hung a c n at (new c (inl refl)).0).0
                    (l.hung a c n at (new c (inl refl)).0).1)
              | inr old ↦ i.inside x old
            ];
            known = λ x h. elim h [
              | inl is ↦
                  let (e, there, parent) = l.hung a c n at (new c (inl refl)).0 in
                  inr (e, a, rw is there, parent, inl refl)
              | inr old ↦ i.known x old
            ];
          })
          dist.1
          λ x m. (
            (new x (inr m)).0,
            λ h. elim h [ inl is ↦ dist.0 (rw is at m) | inr old ↦ (new x (inr m)).1 old ],
          )

    not_yet :
        (d : ℕ) (rest : List (ℕ × ℕ))
        → Inv ((a, d) ∷ rest) seen
        → (c : ℕ) → In c n.children
        → ¬ In c (addresses ((a, d) ∷ rest) ++ seen)
    not_yet d rest i c m h =
        let (e, there, parent) = l.hung a c n at m in
        elim (i.known c h) [
          | inl root ↦ let (r, top, none_above) = l.rooted in absurd (ground arith)
          | inr (e', p, there', parent', old) ↦
              let same : p ≡ a = ground arith in
              i.apart.0 (In-append_right a (addresses rest) seen (rw same at old))
        ]

  Inv-expand :
      (s : Search) (a d : ℕ) (rest : List (ℕ × ℕ)) (n : Node) (seen : List ℕ)
      → get_elem? bc.nodes a ≡ some n
      → Inv ((a, d) ∷ rest) seen
      → Inv (expand s d a rest n).stack (a ∷ seen)
  Inv-expand s a d rest n seen at i = rw (stack-expand s d a rest n) (
      Inv-push a n at seen d rest n.children (Inv-pop a d rest seen i) (l.spread a n at)
        λ c m. (m, λ h. not_yet a n at seen d rest i c m (In-middle c a (addresses rest) seen h)))

  ends :
      (fuel : ℕ) (s : Search) (seen : List ℕ)
      → Inv s.stack seen
      → length bc.nodes ≤ fuel + length seen
      → (t : Search) × (search_loop fuel bc.nodes s ≡ some t)
  unfolding search_loop
  ends zero s seen i le = elim (List-cases s.stack) [
    | inl empty ↦ (s, simp (empty, search_loop))
    | inr (x, rest, top) ↦ absurd (omega (arith, room s.stack seen i, ap length top))
  ]
  ends (suc fuel) s seen i le = elim (List-cases s.stack) [
    | inl empty ↦ (s, simp (empty, search_loop))
    | inr ((a, d), rest, top) ↦
        let i' = subst (λ st. Inv st seen) top i in
        let (n, at) = get_elem?-some bc.nodes a (i'.inside a (inl refl)) in
        let (t, run) =
          ends fuel (expand s d a rest n) (a ∷ seen) (Inv-expand s a d rest n seen at i')
            (omega arith) in
        (t, search_loop_step fuel bc.nodes s a d rest n top at ∙ run)
  ]

  start : Inv (search_from bc.genesis).stack []
  start = record {
    apart = ((λ h. h), tt);
    inside = λ a h. elim h [
      | inl is ↦
          let (n, at, _) = l.rooted in rw is (lt-length_of_get_elem? bc.nodes bc.genesis n at)
      | inr z ↦ absurd z
    ];
    known = λ a h. elim h [ inl is ↦ inl is | inr z ↦ absurd z ];
  }

-- On a tree whose parents and children agree, as many rounds as there are nodes are enough for
-- `getLastNodes` to return. The map and the other chains play no part.
pub get_last_nodes_returns :
    (bc : Blockchain) → IsLinked bc → (r : Blockchain × List ℕ) × (get_last_nodes bc ≡ some r)
unfolding get_last_nodes
get_last_nodes_returns bc l =
    let (t, run) =
      ends bc l (length bc.nodes) (search_from bc.genesis) [] (start bc l) (omega arith) in
    ((record bc { last_node = t.last_node }, t.last_nodes), rw (run, get_last_nodes))

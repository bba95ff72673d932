-- ===== src/Blockchain/Longest/Below.antt =====
-- The nodes below a node, with their depths, and the stack of the search.
use miner.Prelude.{ℕ, ◌+◌, ◌≡◌, refl, ◌⊎◌, inl, inr, some, List, [], ◌∷◌, In, get_elem?, ap}
use miner.Blockchain.{Node}
use miner.Blockchain.Longest.{push}

-- From node `a` at depth `d` the children lead to node `b` at depth `e`.
pub data Below (nodes : List Node) (b e : ℕ) : ℕ → ℕ → Type 0 where
  here : {a d : ℕ} → a ≡ b → d ≡ e → Below nodes b e a d
  down :
      {a d : ℕ} (n : Node) (c : ℕ)
      → get_elem? nodes a ≡ some n
      → In c n.children
      → Below nodes b e c (d + 1)
      → Below nodes b e a d

pub Below-snoc :
    (nodes : List Node) (b e : ℕ) (n : Node) (c : ℕ) {a d : ℕ}
    → get_elem? nodes b ≡ some n
    → In c n.children
    → Below nodes b e a d
    → Below nodes c (e + 1) a d
Below-snoc nodes b e n c at m (here same depth) =
    down n c (rw same at) m (here refl (ap (λ x. x + 1) depth))
Below-snoc nodes b e n c at m (down n' c' at' m' rest) =
    down n' c' at' m' (Below-snoc nodes b e n c at m rest)

pub In-push_cases :
    (depth : ℕ) (stack : List (ℕ × ℕ)) (cs : List ℕ) (a d : ℕ)
    → In (a, d) (push depth stack cs)
    → In (a, d) stack ⊎ (In a cs × (d ≡ depth + 1))
unfolding push
In-push_cases depth stack [] a d h = inl h
In-push_cases depth stack (c ∷ cs) a d h =
    elim (In-push_cases depth ((c, depth + 1) ∷ stack) cs a d h) [
      | inr (m, e) ↦ inr (inr m, e)
      | inl (inl is) ↦ inr (inl (ap (λ x. x.0) is), ap (λ x. x.1) is)
      | inl (inr old) ↦ inl old
    ]

pub In-push_old :
    (depth : ℕ) (stack : List (ℕ × ℕ)) (cs : List ℕ) (p : ℕ × ℕ)
    → In p stack
    → In p (push depth stack cs)
unfolding push
In-push_old depth stack [] p h = h
In-push_old depth stack (c ∷ cs) p h = In-push_old depth ((c, depth + 1) ∷ stack) cs p (inr h)

pub In-push_new :
    (depth : ℕ) (stack : List (ℕ × ℕ)) (cs : List ℕ) (c : ℕ)
    → In c cs
    → In (c, depth + 1) (push depth stack cs)
unfolding push
In-push_new depth stack (x ∷ cs) c (inl e) =
    In-push_old depth ((x, depth + 1) ∷ stack) cs (c, depth + 1) (inl (ap (λ y. (y, depth + 1)) e))
In-push_new depth stack (x ∷ cs) c (inr h) = In-push_new depth ((x, depth + 1) ∷ stack) cs c h
In-push_new depth stack [] c h = absurd h

-- ===== src/Blockchain/Unmarshall/Hang.antt =====
-- What `hang` does to the nodes: the child gets its parent, the parent one more child.
use miner.Prelude.{
  ℕ, zero, suc, ◌≡◌, refl, some, List, [], ◌∷◌, ◌++◌, map, get_elem?, set, arith, ite, ℕ_discrete,
  get_elem?-set_self, get_elem?-set_ne, lt-length_of_get_elem?, ◌∙◌, sym, ap, Option, length,
  length-map, get_elem?-some,
}
use miner.Block.{Block}
use miner.Blockchain.{Node}
use miner.Blockchain.Add.{adopt_at}
use miner.Blockchain.Unmarshall.{hang}

-- The blocks of a heap.
abbrev pub blocks_of : List Node → List Block
blocks_of = map (λ n. n.block)

-- A node at the address `x` after node `a` has been hung under `p`.
abbrev pub changed : ℕ → ℕ → ℕ → Node → Node
changed a p x z = record {
  block = z.block;
  parent = ite (ℕ_discrete x a) (some p) z.parent;
  children = ite (ℕ_discrete x p) (z.children ++ a ∷ []) z.children;
}

get_elem?-set :
    {A : Type 0} (xs : List A) (i j : ℕ) (v w : A)
    → get_elem? xs j ≡ some w
    → get_elem? (set xs i v) j ≡ some (ite (ℕ_discrete j i) v w)
get_elem?-set xs i j v w h = elim (ℕ_discrete j i) [
  | yes e ↦ ground (arith, get_elem?-set_self xs i v, lt-length_of_get_elem? xs j w)
  | no ne ↦ ground (arith, get_elem?-set_ne xs i j v (λ e. ne (sym e)))
]

map-set :
    {A B : Type 0} (f : A → B) (xs : List A) (i : ℕ) (v w : A)
    → get_elem? xs i ≡ some w
    → f v ≡ f w
    → map f (set xs i v) ≡ map f xs
map-set f [] i v w h e = refl
map-set f (x ∷ xs) zero v w h e = ground arith
map-set f (x ∷ xs) (suc i) v w h e = ap (◌∷◌ (f x)) (map-set f xs i v w h e)

module _ (nodes : List Node) (a p : ℕ) (n q : Node) (at : get_elem? nodes a ≡ some n)
    (at_p : get_elem? nodes p ≡ some q) where
  abbrev child : Node
  child = record n { parent = some p }

  abbrev found : Node
  found = ite (ℕ_discrete p a) child q

  parent_found : get_elem? (set nodes a child) p ≡ some found
  parent_found = get_elem?-set nodes a p child q at_p

  hang-set :
      hang nodes a n p
      ≡ set (set nodes a child) p (record found { children = found.children ++ a ∷ [] })
  unfolding hang
  hang-set = ap (adopt_at (set nodes a child) p a) parent_found

  same :
      (x : ℕ) (z : Node)
      → get_elem? nodes x ≡ some z
      → ◌≡◌ {A = Option Node}
          (some (
            ite
              (ℕ_discrete x p)
              (record found { children = found.children ++ a ∷ [] })
              (ite (ℕ_discrete x a) child z)))
          (some (changed a p x z))
  same x z h = elim (ℕ_discrete x p) [
    | yes e ↦ elim (ℕ_discrete x a) [ yes e' ↦ ground arith | no ne' ↦ ground arith ]
    | no ne ↦ elim (ℕ_discrete x a) [ yes e' ↦ ground arith | no ne' ↦ ground arith ]
  ]

  pub get_elem?-hang :
      (x : ℕ) (z : Node)
      → get_elem? nodes x ≡ some z
      → get_elem? (hang nodes a n p) x ≡ some (changed a p x z)
  get_elem?-hang x z h =
      ap (λ ns. get_elem? ns x) hang-set
      ∙ get_elem?-set (set nodes a child) p x (record found { children = found.children ++ a ∷ [] })
          (ite (ℕ_discrete x a) child z) (get_elem?-set nodes a x child z h)
      ∙ same x z h

  pub blocks_of-hang : blocks_of (hang nodes a n p) ≡ blocks_of nodes
  blocks_of-hang =
      ap blocks_of hang-set
      ∙ map-set (λ (y : Node). y.block) (set nodes a child) p _ found parent_found refl
      ∙ map-set (λ (y : Node). y.block) nodes a child n at refl

  -- A node afterwards is a changed node from before.
  pub before :
      (x : ℕ) (y : Node)
      → get_elem? (hang nodes a n p) x ≡ some y
      → (z : Node) × (get_elem? nodes x ≡ some z) × (y ≡ changed a p x z)
  before x y h =
      let size =
        sym (length-map (λ (n : Node). n.block) (hang nodes a n p))
        ∙ ap length blocks_of-hang
        ∙ length-map (λ (n : Node). n.block) nodes in
      let (z, old) =
        get_elem?-some nodes x
          (omega (arith, size, lt-length_of_get_elem? (hang nodes a n p) x y h)) in
      let new = get_elem?-hang x z old in (z, old, ground arith)

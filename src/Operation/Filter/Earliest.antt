-- ===== src/Operation/Filter/Earliest.antt =====
-- Which of the operations with one subject `FilterInvalidOperations` keeps.
use mathlib.Core.List.{Perm}
use mathlib.Core.List.Perm
use miner.Prelude.{
  ◌≡◌, ◌+◌, ◌≤◌, inl, inr, Bool, false, List, [], ◌∷◌, ◌++◌, map, foldl, arith, In, In-append_cases,
  append_assoc, append-nil, In-map, In-map_cases, sym, subst, ap, ◌∙◌, ℕ_discrete,
}
use miner.Prelude.Int.{pos_part, neg_part}
use miner.Prelude.Perms.{In-perm}
use miner.Operation.{Operation}
use miner.Operation.Filter.{
  Filtering, filter_step, unfiltered, is_earlier, Sort, filter_invalid_operations,
}
use miner.Operation.Filter.Batch.{
  subject, filter_step_cases, Tracks, Tracks-unfiltered, Tracks-filter_step, seen, filter_sound,
  filter_covers,
}

dec_operation : Discrete Operation
dec_operation = hlevel ℕ_discrete

-- No element of the list is less than one before it.
abbrev pub InOrder : (Operation → Operation → Bool) → List Operation → Type 0
InOrder less [] = Unit {0}
InOrder less (o ∷ os) = ((o' : Operation) → In o' os → less o' o ≡ false) × InOrder less os

-- What `sort.Slice` promises of a batch: the same operations, and none before a lesser one.
pub record IsSorted (less : Operation → Operation → Bool) (ops sorted : List Operation)
    : Type 0 where
  pub same : Perm sorted ops
  pub ordered : InOrder less sorted

-- The timestamp of the first is at most that of the second.
abbrev pub NoLater : Operation → Operation → Type 0
NoLater o o' =
    pos_part o.timestamp + neg_part o'.timestamp ≤ pos_part o'.timestamp + neg_part o.timestamp

NoLater-self : (o : Operation) → NoLater o o
NoLater-self o = omega arith

InOrder-later :
    (xs ys : List Operation) (o o' : Operation)
    → InOrder is_earlier (xs ++ o ∷ ys)
    → In o' ys
    → NoLater o o'
InOrder-later [] ys o o' (h, _) i = let e = h o' i in ground arith
InOrder-later (x ∷ xs) ys o o' (_, h) i = InOrder-later xs ys o o' h i

-- The first with its subject among some operations.
abbrev IsFirst : Operation → List Operation → Type 0
IsFirst o processed =
    (xs ys : List Operation) × (processed ≡ xs ++ o ∷ ys) × (¬ In (subject o) (map subject xs))

-- Every operation kept so far is the first with its subject.
abbrev Firsts : List Operation → Filtering → Type 0
Firsts processed s = (o : Operation) → In o s.valid_ops → IsFirst o processed

unseen :
    (p : List Operation) (s : Filtering) (o : Operation)
    → Tracks p s
    → seen s (subject o) ≡ false
    → ¬ In (subject o) (map subject p)
unseen p s o t new m =
    let (o', i, e) = In-map_cases subject (subject o) p m in
    cc (sym new ∙ ap (seen s) e ∙ t.covered o' i)

Firsts-filter_step :
    (p : List Operation) (s : Filtering) (x : Operation)
    → Tracks p s
    → Firsts p s
    → Firsts (p ++ x ∷ []) (filter_step s x)
Firsts-filter_step p s x t f o i = elim (filter_step_cases s x) [
  | inl (new, e) ↦ elim (In-append_cases o s.valid_ops (x ∷ []) (subst (In o) e i)) [
    | inl old ↦ longer (f o old)
    | inr last ↦ elim last [
      | inl is ↦ (
        p,
        [],
        ap (λ z. p ++ z ∷ []) (sym is),
        subst (λ z. ¬ In (subject z) (map subject p)) (sym is) (unseen p s x t new),
      )
      | inr z ↦ absurd z
    ]
  ]
  | inr (_, e) ↦ longer (f o (subst (In o) e i))
]
  where
    longer : IsFirst o p → IsFirst o (p ++ x ∷ [])
    longer (xs, ys, e, out) =
        (xs, ys ++ x ∷ [], ap (λ l. l ++ x ∷ []) e ∙ append_assoc xs (o ∷ ys) (x ∷ []), out)

Firsts-foldl :
    (p : List Operation) (s : Filtering) (os : List Operation)
    → Tracks p s
    → Firsts p s
    → Firsts (p ++ os) (foldl filter_step s os)
Firsts-foldl p s [] t f = rw append-nil f
Firsts-foldl p s (o ∷ os) t f = rw (append_assoc p (o ∷ []) os) at (
    Firsts-foldl (p ++ o ∷ []) (filter_step s o) os (Tracks-filter_step p s o t)
      (Firsts-filter_step p s o t f))

-- None of the batch with its subject is earlier than an operation that is kept.
kept-NoLater :
    (sort : Sort) (ops : List Operation) (o o' : Operation)
    → IsSorted is_earlier ops (sort is_earlier ops)
    → In o (filter_invalid_operations sort ops)
    → In o' ops
    → subject o' ≡ subject o
    → NoLater o o'
unfolding filter_invalid_operations
kept-NoLater sort ops o o' sorted kept i same =
    let (xs, ys, e, out) =
      Firsts-foldl [] unfiltered (sort is_earlier ops) (Tracks-unfiltered []) (λ x z. absurd z) o
        kept in
    let here =
      subst (In o') e
        (In-perm dec_operation o' ops (sort is_earlier ops) (Perm.symm sorted.same) i) in
    elim (In-append_cases o' xs (o ∷ ys) here) [
      | inl before ↦
          absurd (out (subst (λ k. In k (map subject xs)) same (In-map subject o' xs before)))
      | inr later ↦ elim later [
        | inl is ↦ subst (NoLater o) (sym is) (NoLater-self o)
        | inr after ↦ InOrder-later xs ys o o' (subst (InOrder is_earlier) e sorted.ordered) after
      ]
    ]

-- An operation of the batch that `FilterInvalidOperations` returns, and that is the earliest of its
-- subject.
abbrev pub IsEarliest : Sort → List Operation → Operation → Type 0
IsEarliest sort ops o =
    In o (filter_invalid_operations sort ops)
    × In o ops
    × ((o' : Operation) → In o' ops → subject o' ≡ subject o → NoLater o o')

-- Let `sort.Slice` leave the batch sorted by the comparison that it is given. Then for each operation
-- of the batch `FilterInvalidOperations` returns one of the batch with the same subject, whose
-- timestamp is at most that of every operation of the batch with that subject: the file name of a
-- create, the ID of any other operation.
pub filter_keeps_IsEarliest :
    (sort : Sort) (ops : List Operation) (o : Operation)
    → IsSorted is_earlier ops (sort is_earlier ops)
    → In o ops
    → (first : Operation) × (subject o ≡ subject first) × IsEarliest sort ops first
filter_keeps_IsEarliest sort ops o sorted i =
    let sorted_ops = sort is_earlier ops in
    let (first, kept, e) = In-map_cases subject (subject o) (filter_invalid_operations sort ops) (
      filter_covers sort ops o
        (In-perm dec_operation o ops sorted_ops (Perm.symm sorted.same) i)) in
    (
      first,
      e,
      (
        kept,
        In-perm dec_operation first sorted_ops ops sorted.same (filter_sound sort ops first kept),
        λ o' j same. kept-NoLater sort ops first o' sorted kept j same,
      ),
    )

-- ===== src/Blockchain/Validation/Survivors.antt =====
-- What `ValidateOperations` leaves in `opIds`: every new operation, or fewer than there are.
use miner.Prelude.{
  ◌<◌, ◌≡◌, refl, ◌⊎◌, inl, inr, none, List, [], ◌∷◌, ◌++◌, map, foldl, length, arith, In,
  IsDistinct, IsDistinct-snoc, In-append_cases, Option-cases, Bool-cases, append_assoc, append-nil,
  map-append, length-append, length-map, ap, ◌∙◌, subst,
}
use miner.Prelude.Bytes.{Bytes}
use miner.Prelude.GoMap.{
  GoMap, get, put, put_absent, length-put_present, length-put-le, length-delete-lt, Shrinks,
  Shrinks-delete,
}
use miner.Settings.{Settings}
use miner.Operation.{Operation, is_create}
use miner.Block.{Block}
use miner.Blockchain.Walk.{next, for_blocks}
use miner.Blockchain.Validation.{
  Tally, enter, enter_all, no_tally, credit, charge, drop_conflicting, drop_repeated, settle_op,
  settle,
}

-- The operations, keyed by their IDs.
abbrev pub entries : List Operation → GoMap Operation
entries = map (λ o. (o.operation_id, o))

abbrev pub ids : List Operation → List Bytes
ids = map (λ o. o.operation_id)

-- The operations on a chain.
unfoldable pub chain_ops : List Block → List Operation
chain_ops [] = []
chain_ops (b ∷ bs) = b.operations ++ chain_ops bs

op_ids-enter : (t : Tally) (o : Operation) → (enter t o).op_ids ≡ put t.op_ids o.operation_id o
unfolding enter
op_ids-enter t o = refl

-- `m` holds each operation of `p` under an ID of its own, or is smaller than `p`.
abbrev pub Holds : List Operation → GoMap Operation → Type 0
Holds p m = ((m ≡ entries p) × IsDistinct (ids p)) ⊎ (length m < length p)

get-entries_absent : (p : List Operation) (k : Bytes) → get (entries p) k ≡ none → ¬ In k (ids p)
unfolding get
get-entries_absent [] k h = λ z. z
get-entries_absent (o ∷ p) k h =
    λ m. elim m [ inl e ↦ ground arith | inr later ↦ get-entries_absent p k (ground arith) later ]

enter-Holds :
    (p : List Operation) (t : Tally) (o : Operation)
    → Holds p t.op_ids
    → Holds (p ++ o ∷ []) (enter t o).op_ids
enter-Holds p t o (inl (e, d)) = elim (Option-cases (get t.op_ids o.operation_id)) [
  | inl new ↦ inl (
    op_ids-enter t o ∙ put_absent t.op_ids o.operation_id o new ∙ rw (e, map-append),
    rw map-append (
        IsDistinct-snoc (ids p) o.operation_id d
          (get-entries_absent p o.operation_id (rw e at new))),
  )
  | inr (x, old) ↦ inr (
      omega (
        arith,
        ap length (op_ids-enter t o),
        length-put_present t.op_ids o.operation_id o x old,
        ap length e,
        length-map {B = Bytes × Operation} (λ y. (y.operation_id, y)) p,
        length-append p (o ∷ []),
      ))
]
enter-Holds p t o (inr lt) = inr (
    omega (
      arith,
      ap length (op_ids-enter t o),
      length-put-le t.op_ids o.operation_id o,
      length-append p (o ∷ []),
    ))

enter_all-Holds :
    (p ops : List Operation) (t : Tally)
    → Holds p t.op_ids
    → Holds (p ++ ops) (foldl enter t ops).op_ids
enter_all-Holds p [] t h = rw append-nil h
enter_all-Holds p (o ∷ ops) t h =
    rw (append_assoc p (o ∷ []) ops) at
      (enter_all-Holds (p ++ o ∷ []) ops (enter t o) (enter-Holds p t o h))

op_ids-drop_conflicting : (t : Tally) (f : Bytes) → Shrinks t.op_ids (drop_conflicting t f).op_ids
unfolding drop_conflicting
op_ids-drop_conflicting t f = elim (Option-cases (get t.files f)) [
  | inl free ↦ rw (free, drop_conflicting) (inl refl)
  | inr (x, taken) ↦ rw (taken, drop_conflicting) (Shrinks-delete t.op_ids x.operation_id)
]

op_ids-charge :
    (config : Settings) (t : Tally) (o : Operation) → Shrinks t.op_ids (charge config t o).op_ids
unfolding charge
op_ids-charge config t o = elim (Option-cases (get t.balances o.miner_id)) [
  | inl no_one ↦ rw (no_one, charge) (inl refl)
  | inr (y, found) ↦
      rw (found, charge)
        (elim (Bool-cases (is_create o.op)) [
          | inl c ↦ rw c (op_ids-drop_conflicting t o.filename)
          | inr c ↦ rw c (inl refl)
        ])
]

op_ids-credit : (config : Settings) (t : Tally) (b : Block) → (credit config t b).op_ids ≡ t.op_ids
unfolding credit
op_ids-credit config t b = ground arith

-- `m'` is `m`, and none of the operations has an ID in it; or it is smaller.
abbrev pub Survives : GoMap Operation → List Operation → GoMap Operation → Type 0
Survives m ops m' =
    ((m' ≡ m) × ((o : Operation) → In o ops → get m o.operation_id ≡ none)) ⊎ (length m' < length m)

drop_repeated-Survives :
    (t : Tally) (o : Operation) → Survives t.op_ids (o ∷ []) (drop_repeated t o).op_ids
unfolding drop_repeated
drop_repeated-Survives t o = elim (Option-cases (get t.op_ids o.operation_id)) [
  | inl new ↦
      rw (new, drop_repeated) (inl (refl, λ x m. elim m [ inl e ↦ rw e new | inr z ↦ absurd z ]))
  | inr (x, old) ↦ rw (old, drop_repeated) (inr (length-delete-lt t.op_ids o.operation_id x old))
]

Survives-trans :
    (m m' m'' : GoMap Operation) (ops ops' : List Operation)
    → Survives m ops m'
    → Survives m' ops' m''
    → Survives m (ops ++ ops') m''
Survives-trans m m' m'' ops ops' (inl (e, h)) (inl (e', h')) = inl (
  e' ∙ e,
  λ o m. elim (In-append_cases o ops ops' m) [
    | inl first ↦ h o first
    | inr second ↦ rw e at (h' o second)
  ],
)
Survives-trans m m' m'' ops ops' (inl (e, h)) (inr lt) = inr (rw (← e) lt)
Survives-trans m m' m'' ops ops' (inr lt) (inl (e, h)) = inr (rw e lt)
Survives-trans m m' m'' ops ops' (inr lt) (inr lt') = inr (omega arith)

Survives-of_Shrinks : (m m' : GoMap Operation) → Shrinks m m' → Survives m [] m'
Survives-of_Shrinks m m' (inl e) = inl (e, λ o z. absurd z)
Survives-of_Shrinks m m' (inr lt) = inr lt

module _ (config : Settings) where
  settle_op-Survives :
      (t : Tally) (o : Operation) → Survives t.op_ids (o ∷ []) (settle_op config t o).op_ids
  unfolding settle_op
  settle_op-Survives t o =
      Survives-trans t.op_ids (charge config t o).op_ids (settle_op config t o).op_ids [] (o ∷ [])
        (Survives-of_Shrinks t.op_ids (charge config t o).op_ids (op_ids-charge config t o))
        (drop_repeated-Survives (charge config t o) o)

  settle_ops-Survives :
      (t : Tally) (ops : List Operation)
      → Survives t.op_ids ops (foldl (settle_op config) t ops).op_ids
  settle_ops-Survives t [] = inl (refl, λ o z. absurd z)
  settle_ops-Survives t (o ∷ ops) =
      Survives-trans t.op_ids (settle_op config t o).op_ids
        (foldl (settle_op config) t (o ∷ ops)).op_ids (o ∷ []) ops (settle_op-Survives t o)
        (settle_ops-Survives (settle_op config t o) ops)

  settle-Survives :
      (t : Tally) (b : Block) → Survives t.op_ids b.operations (settle config b t).op_ids
  unfolding settle
  settle-Survives t b =
      subst (λ m. Survives m b.operations (settle config b t).op_ids) (op_ids-credit config t b)
        (settle_ops-Survives (credit config t b) b.operations)

  -- The walk keeps all of `opIds` only if no operation of the chain has an ID in it.
  pub walk-Survives :
      (t : Tally) (bs : List Block)
      → Survives t.op_ids (chain_ops bs) (for_blocks (λ b s. next (settle config b s)) bs t).op_ids
  unfolding for_blocks chain_ops
  walk-Survives t [] = inl (refl, λ o z. absurd z)
  walk-Survives t (b ∷ bs) =
      Survives-trans t.op_ids (settle config b t).op_ids _ b.operations (chain_ops bs)
        (settle-Survives t b) (walk-Survives (settle config b t) bs)

-- The first loop enters every operation under an ID of its own, or fewer entries than operations.
pub enter_all-Holds_all : (ops : List Operation) → Holds ops (enter_all ops).op_ids
unfolding enter_all
enter_all-Holds_all ops = enter_all-Holds [] ops no_tally (inl (refl, tt))

-- ===== src/Ledger/Gathered.antt =====
-- What the loops of `GetFile` and `NumRecs` gather from a list of operations.
use miner.Prelude.{
  ◌≡◌, refl, Bool, true, false, ◌||◌, List, [], ◌∷◌, ◌++◌, foldl, length, arith, ite, if◌then◌else◌,
  ◌∙◌, sym, ap, append-nil, length-append, append_assoc,
}
use miner.Prelude.Bytes.{Bytes, dec_bytes}
use miner.Operation.{Operation, is_append, is_delete}
use miner.Ledger.{Gather, gather_op, Count, count_op}

-- The appends to a file among some operations.
unfoldable pub records_of : Bytes → List Operation → List Operation
records_of fname [] = []
records_of fname (o ∷ ops) =
    let rest = records_of fname ops in
    ite (dec_bytes o.filename fname) (if is_append o.op then o ∷ rest else rest) rest

-- Whether an operation names a file, and whether one deletes it.
unfoldable pub mentions : Bytes → List Operation → Bool
mentions fname [] = false
mentions fname (o ∷ ops) = ite (dec_bytes o.filename fname) true (mentions fname ops)

unfoldable pub removes : Bytes → List Operation → Bool
removes fname [] = false
removes fname (o ∷ ops) =
    let rest = removes fname ops in
    ite (dec_bytes o.filename fname) (if is_delete o.op then true else rest) rest

abbrev pub Gathers : Bytes → Gather → List Operation → Gather → Type 0
Gathers fname s ops t =
    (t.operations ≡ s.operations ++ records_of fname ops)
    × (t.seen_filename ≡ (s.seen_filename || mentions fname ops))
    × (t.deleted ≡ (s.deleted || removes fname ops))

pub or_true : (b : Bool) → (b || true) ≡ true
or_true true = refl
or_true false = refl

pub or_false : (b : Bool) → (b || false) ≡ b
or_false true = refl
or_false false = refl

pub gather_op-Gathers :
    (fname : Bytes) (s : Gather) (o : Operation) (ops : List Operation) (t : Gather)
    → Gathers fname (gather_op fname s o) ops t
    → Gathers fname s (o ∷ ops) t
unfolding gather_op records_of mentions removes
gather_op-Gathers fname s o ops t (e, e', e'') =
    (e ∙ operations_step, e' ∙ seen_step, e'' ∙ deleted_step)
  where
    operations_step :
        (gather_op fname s o).operations ++ records_of fname ops
        ≡ s.operations ++ records_of fname (o ∷ ops)
    operations_step = ground (arith, append_assoc s.operations (o ∷ []) (records_of fname ops))

    seen_step :
        ((gather_op fname s o).seen_filename || mentions fname ops)
        ≡ (s.seen_filename || mentions fname (o ∷ ops))
    seen_step = ground (arith, or_true s.seen_filename)

    deleted_step :
        ((gather_op fname s o).deleted || removes fname ops)
        ≡ (s.deleted || removes fname (o ∷ ops))
    deleted_step = ground (arith, or_true s.deleted)

pub gather-Gathers :
    (fname : Bytes) (ops : List Operation) (s : Gather)
    → Gathers fname s ops (foldl (gather_op fname) s ops)
unfolding records_of mentions removes
gather-Gathers fname [] s = (sym (append-nil s.operations), sym (or_false _), sym (or_false _))
gather-Gathers fname (o ∷ ops) s =
    gather_op-Gathers fname s o ops (foldl (gather_op fname) s (o ∷ ops))
      (gather-Gathers fname ops (gather_op fname s o))

-- The number of appends is counted as they are gathered.
abbrev pub tally : Gather → Count
tally s = record { num_recs = length s.operations; seen_filename = s.seen_filename }

pub count_op-tally :
    (fname : Bytes) (s : Gather) (o : Operation)
    → count_op fname (tally s) o ≡ tally (gather_op fname s o)
unfolding count_op gather_op
count_op-tally fname s o = ground (arith, length-append s.operations (o ∷ []))

pub count-tally :
    (fname : Bytes) (ops : List Operation) (s : Gather)
    → foldl (count_op fname) (tally s) ops ≡ tally (foldl (gather_op fname) s ops)
count-tally fname [] s = refl
count-tally fname (o ∷ ops) s =
    ap (λ t. foldl (count_op fname) t ops) (count_op-tally fname s o)
    ∙ count-tally fname ops (gather_op fname s o)

-- ===== src/Ledger/Confirmation.antt =====
-- What `CheckOpConfirmed` answers about an operation on the longest chain.
use miner.Prelude.{
  ℕ, ◌+◌, ◌≡◌, refl, ◌≢◌, inl, inr, Bool, true, false, Option, some, List, [], ◌∷◌, ◌++◌, length,
  arith, In, Bool-cases, ltb, if_pos, if_neg, if◌then◌else◌, ◌∙◌, sym, ap, lt-length_of_get_elem?,
  map-append, append-nil, ◌<◌, In-append_left, In-append_right,
}
use miner.Prelude.Bytes.{dec_bytes}
use miner.Operation.{Operation}
use miner.Block.{Block}
use miner.Blockchain.{Node, Blockchain}
use miner.Blockchain.Walk.{next, stop, for_blocks, for_parents-IsChain, IsChain}
use miner.Blockchain.Shape.{IsValid}
use miner.Blockchain.Validation.Survivors.{ids, chain_ops}
use miner.Blockchain.Soundness.{IsChain-unique}
use miner.Blockchain.Longest.{get_last_nodes}
use miner.Blockchain.Longest.Deepest.{get_last_nodes-IsDeepest}
use miner.Ledger.{
  Check, noted, check_op, check_ops, unchecked, confirms, check_from, check_op_confirmed,
  from_first,
}

-- What two states agree on while the operation has not been met.
abbrev Agrees : Check → Check → Type 0
Agrees s t = (t.confirmed ≡ s.confirmed) × (t.exists ≡ s.exists)

IsChain-lt :
    (nodes : List Node) (a : ℕ) (bs : List Block) → IsChain nodes (some a) bs → a < length nodes
IsChain-lt nodes a [] c = absurd c
IsChain-lt nodes a (b ∷ bs) (n, at, _, _) = lt-length_of_get_elem? nodes a n at

decided : (k i n : ℕ) (c : Bool) → c ≡ false → i ≡ n → (if ltb k i then true else c) ≡ ltb k n
decided k i n c e e' = rw (e, e') (elim (Bool-cases (ltb k n)) [ inl y ↦ rw y | inr y ↦ rw y ])

module _ (op : Operation) where
  noted-Agrees : (s : Check) (o : Operation) → Agrees s (noted op s o) × ((noted op s o).i ≡ s.i)
  unfolding noted
  noted-Agrees s o = ground arith

  check_op-met :
      (k : ℕ) (s : Check) (o : Operation)
      → o.operation_id ≡ op.operation_id
      → (t : Check) × (check_op op k s o ≡ stop t)
        × (t.exists ≡ true)
        × (t.confirmed ≡ (if ltb k s.i then true else s.confirmed))
  unfolding check_op
  check_op-met k s o e =
      let ((kept, _), place) = noted-Agrees s o in
      (_, if_pos (dec_bytes o.operation_id op.operation_id) e _ _, refl, rw (kept, place))

  check_op-passed :
      (k : ℕ) (s : Check) (o : Operation)
      → o.operation_id ≢ op.operation_id
      → check_op op k s o ≡ next (noted op s o)
  unfolding check_op
  check_op-passed k s o ne = if_neg (dec_bytes o.operation_id op.operation_id) ne _ _

  check_ops-absent :
      (k : ℕ) (ops : List Operation) (s : Check)
      → ¬ In op.operation_id (ids ops)
      → (t : Check) × (check_ops op k ops s ≡ next t) × Agrees s t × (t.i ≡ s.i + 1)
  unfolding check_ops
  check_ops-absent k [] s n = (_, refl, (refl, refl), refl)
  check_ops-absent k (o ∷ ops) s n =
      let ((conf, ex), place) = noted-Agrees s o in
      let (t, run, (conf', ex'), place') = check_ops-absent k ops (noted op s o) (λ m. n (inr m)) in
      (
        t,
        rw (check_ops, check_op-passed k s o (λ e. n (inl (sym e)))) run,
        (conf' ∙ conf, ex' ∙ ex),
        omega arith,
      )

  check_ops-present :
      (k : ℕ) (ops : List Operation) (s : Check)
      → In op.operation_id (ids ops)
      → (t : Check) × (check_ops op k ops s ≡ stop t)
        × (t.exists ≡ true)
        × (t.confirmed ≡ (if ltb k s.i then true else s.confirmed))
  unfolding check_ops
  check_ops-present k [] s m = absurd m
  check_ops-present k (o ∷ ops) s m = elim (dec_bytes o.operation_id op.operation_id) [
    | yes e ↦ let (t, run, ex, conf) = check_op-met k s o e in (t, rw (check_ops, run), ex, conf)
    | no ne ↦
        let ((kept, _), place) = noted-Agrees s o in
        let later : In op.operation_id (ids ops) = elim m [
          | inl e ↦ absurd (ne (sym e))
          | inr l ↦ l
        ] in
        let (t, run, ex, conf) = check_ops-present k ops (noted op s o) later in
        (t, rw (check_ops, check_op-passed k s o ne) run, ex, conf ∙ rw (kept, place))
  ]

  -- Blocks without the operation are counted and change nothing else.
  walk-absent :
      (k : ℕ) (bs cs : List Block) (s : Check)
      → ¬ In op.operation_id (ids (chain_ops bs))
      → (t : Check) × (for_blocks (λ b s. check_ops op k b.operations s) (bs ++ cs) s
          ≡ for_blocks (λ b s. check_ops op k b.operations s) cs t)
        × Agrees s t
        × (t.i ≡ s.i + length bs)
  unfolding for_blocks chain_ops
  walk-absent k [] cs s n = (s, refl, (refl, refl), omega arith)
  walk-absent k (b ∷ bs) cs s n =
      let split = λ (m : In op.operation_id (ids b.operations ++ ids (chain_ops bs))).
        n (rw (map-append (λ o. o.operation_id) b.operations (chain_ops bs)) m) in
      let (t, run, (conf, ex), place) =
        check_ops-absent k b.operations s (λ m. split (In-append_left op.operation_id _ _ m)) in
      let (u, rest, (conf', ex'), place') =
        walk-absent k bs cs t (λ m. split (In-append_right op.operation_id _ _ m)) in
      (u, rw (for_blocks, run) rest, (conf' ∙ conf, ex' ∙ ex), omega arith)

  walk-met :
      (k : ℕ) (pre : List Block) (b : Block) (post : List Block) (s : Check)
      → ¬ In op.operation_id (ids (chain_ops pre))
      → In op.operation_id (ids b.operations)
      → s.i ≡ 0
      → s.confirmed ≡ false
      → (let r = for_blocks (λ b s. check_ops op k b.operations s) (pre ++ b ∷ post) s in
          (r.exists ≡ true) × (r.confirmed ≡ ltb k (length pre)))
  unfolding for_blocks
  walk-met k pre b post s n m start none_yet =
      let (t, run, (conf, ex), place) = walk-absent k pre (b ∷ post) s n in
      let (u, found, is, ok) = check_ops-present k b.operations t m in
      let at : t.i ≡ length pre = omega arith in
      rw (run, for_blocks, found)
        (is, ok ∙ decided k t.i (length pre) t.confirmed (conf ∙ none_yet) at)

first_read :
    {A : Type 0} (read : Blockchain → ℕ → Option A) (bc : Blockchain) (a : ℕ) (others : List ℕ)
    (r : A) (found : Option (Blockchain × List ℕ))
    → found ≡ some (bc, a ∷ others)
    → read bc a ≡ some r
    → from_first read found ≡ some (bc, r)
first_read read bc a others r found last run = rw (last, from_first, run)

pub check_op_confirmed-IsChain :
    (bc bc' : Blockchain) (op : Operation) (a : ℕ) (others : List ℕ) (bs : List Block)
    → IsValid bc
    → get_last_nodes bc ≡ some (bc', a ∷ others)
    → IsChain bc.nodes (some a) bs
    → check_op_confirmed op bc
      ≡ some (bc', for_blocks (λ b s. check_ops op (confirms bc op) b.operations s) bs unchecked)
unfolding check_op_confirmed check_from
check_op_confirmed-IsChain bc bc' op a others bs v last c =
    let (depth, _, tree) = get_last_nodes-IsDeepest bc bc' (a ∷ others) last in
    let (cs, c', short) = v.grounded a (IsChain-lt bc.nodes a bs c) in
    let same = IsChain-unique bc.nodes (some a) cs bs c' c in
    let run =
      for_parents-IsChain (length bc.nodes) bc.nodes
        (λ b s. check_ops op (confirms bc op) b.operations s) (some a) bs c (rw same at short)
        unchecked in
    first_read (check_from op) bc' a others _ (get_last_nodes bc) last
      (ap (λ t. check_from op t a) tree ∙ run)

-- On a valid tree, let `a` be the first node that the search for the longest chain lists, and let
-- `b` be the newest block of its chain that holds an operation with the ID of `op`. Then
-- `CheckOpConfirmed` returns, answers that the operation exists, and answers that it is confirmed
-- exactly if more blocks follow `b` on the chain than the settings ask for.
pub check_op_confirmed-found :
    (bc bc' : Blockchain) (op : Operation) (a : ℕ) (others : List ℕ) (pre : List Block) (b : Block)
    (post : List Block)
    → IsValid bc
    → get_last_nodes bc ≡ some (bc', a ∷ others)
    → IsChain bc.nodes (some a) (pre ++ b ∷ post)
    → ¬ In op.operation_id (ids (chain_ops pre))
    → In op.operation_id (ids b.operations)
    → (r : Check) × (check_op_confirmed op bc ≡ some (bc', r))
      × (r.exists ≡ true)
      × (r.confirmed ≡ ltb (confirms bc op) (length pre))
check_op_confirmed-found bc bc' op a others pre b post v last c absent present =
    let (ex, conf) = walk-met op (confirms bc op) pre b post unchecked absent present refl refl in
    (_, check_op_confirmed-IsChain bc bc' op a others (pre ++ b ∷ post) v last c, ex, conf)

-- On a valid tree, an operation that is on no block of the chain of the first node listed is
-- reported as absent and as not confirmed.
pub check_op_confirmed-absent :
    (bc bc' : Blockchain) (op : Operation) (a : ℕ) (others : List ℕ) (bs : List Block)
    → IsValid bc
    → get_last_nodes bc ≡ some (bc', a ∷ others)
    → IsChain bc.nodes (some a) bs
    → ¬ In op.operation_id (ids (chain_ops bs))
    → (r : Check) × (check_op_confirmed op bc ≡ some (bc', r))
      × (r.exists ≡ false)
      × (r.confirmed ≡ false)
unfolding for_blocks
check_op_confirmed-absent bc bc' op a others bs v last c absent =
    let (t, run, (conf, ex), _) = walk-absent op (confirms bc op) bs [] unchecked absent in
    (
      _,
      check_op_confirmed-IsChain bc bc' op a others bs v last c,
      rw (rw (append-nil bs) at run, for_blocks) ex,
      rw (rw (append-nil bs) at run, for_blocks) conf,
    )

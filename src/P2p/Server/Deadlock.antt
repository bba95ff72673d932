-- ===== src/P2p/Server/Deadlock.antt =====
-- `checkConfirmedOperations` waiting for `buildPendingOperations`, which waits for its lock.
use mathlib.Core.List.Perm
use miner.Prelude.{
  ℕ, ℕ_discrete, ◌≡◌, ◌≢◌, inl, inr, Bool, true, false, not, Option, some, List, [], ◌∷◌, ◌++◌, In,
  ◌∙◌, sym, ap, Bool-cases, if◌then◌else◌,
}
use miner.Prelude.Bytes.{Bytes}
use miner.Prelude.GoMap.{get}
use miner.Prelude.Entries.{member_of_get}
use miner.Prelude.Perms.{IsRange, In-perm}
use miner.Operation.{Operation, Order}
use miner.Block.{Block}
use miner.Blockchain.{Blockchain}
use miner.Blockchain.Walk.{IsChain, for_blocks}
use miner.Blockchain.Shape.{IsValid}
use miner.Blockchain.Longest.{get_last_nodes}
use miner.Blockchain.Longest.Deepest.{get_last_nodes-IsDeepest}
use miner.Blockchain.Validation.Survivors.{ids, chain_ops}
use miner.Ledger.{Check, check_ops, confirms, unchecked, check_op_confirmed, check_from}
use miner.Ledger.Confirmation.{check_op_confirmed-IsChain, check_op_confirmed-absent}
use miner.P2p.Server.{
  Server, Sweep, deadlocks, resend, sweep_check, sweep_all, swept, check_confirmed_operations,
}

dec_pending : Discrete (Bytes × Operation)
dec_pending = hlevel ℕ_discrete

module _ (in_batch : Bytes → Bool) (bc bc' : Blockchain) (a : ℕ) (others : List ℕ) (bs : List Block)
    (v : IsValid bc) (last : get_last_nodes bc ≡ some (bc', a ∷ others))
    (c : IsChain bc.nodes (some a) bs) where
  abbrev IsAbsent : Operation → Type 0
  IsAbsent op = ¬ In op.operation_id (ids (chain_ops bs))

  verdict : Operation → Check
  verdict op = for_blocks (λ b s. check_ops op (confirms bc op) b.operations s) bs unchecked

  -- The search does not read `lastNode`.
  checked :
      (op : Operation) (x : ℕ)
      → check_op_confirmed op (record bc { last_node = x }) ≡ some (bc', verdict op)
  unfolding check_op_confirmed check_from get_last_nodes verdict
  checked op x = check_op_confirmed-IsChain bc bc' op a others bs v last c

  checks_agree :
      {A B : Type 0} {x : A} {y z : B}
      → ◌≡◌ {A = Option (A × B)} (some (x, y)) (some (x, z))
      → y ≡ z
  checks_agree e = cc

  verdict-absent : (op : Operation) → IsAbsent op → (verdict op).exists ≡ false
  verdict-absent op out =
      let (r, run, ex, _) = check_op_confirmed-absent bc bc' op a others bs v last c out in
      let same : verdict op ≡ r = checks_agree (sym (checked op bc.last_node) ∙ run) in
      ap (λ (t : Check). t.exists) same ∙ ex

  abbrev state : ℕ → List (Bytes × Bool) → List Operation → Bool → Sweep
  state x answers resent waits = record {
    bc = record bc { last_node = x };
    answers = answers;
    resent = resent;
    waits = waits;
  }

  abbrev answered : List (Bytes × Bool) → Operation → List (Bytes × Bool)
  answered answers op =
      if (verdict op).confirmed
      then answers ++ (op.operation_id, not (verdict op).other_miner) ∷ []
      else answers

  bc'-state :
      (answers : List (Bytes × Bool)) (resent : List Operation) (waits : Bool)
      → record { bc = bc'; answers = answers; resent = resent; waits = waits }
        ≡ state bc'.last_node answers resent waits
  bc'-state answers resent waits =
      let (_, _, tree) = get_last_nodes-IsDeepest bc bc' (a ∷ others) last in
      ap (λ t. record { bc = t; answers = answers; resent = resent; waits = waits }) tree

  module _ (j : Bytes) (o : Operation) (es : List (Bytes × Operation)) (x : ℕ)
      (answers : List (Bytes × Bool)) (resent : List Operation) where
    passes :
        (waits : Bool)
        → (verdict o).exists ≡ true
        → sweep_all in_batch (state x answers resent waits) ((j, o) ∷ es)
          ≡ sweep_all in_batch (state bc'.last_node (answered answers o) resent waits) es
    unfolding sweep_all sweep_check
    passes waits e =
        rw (checked o x, sweep_all, sweep_check, e)
          (ap (λ w. sweep_all in_batch w es) (bc'-state (answered answers o) resent waits))

    blocks :
        (verdict o).exists ≡ false
        → sweep_all in_batch (state x answers resent true) ((j, o) ∷ es) ≡ deadlocks
    unfolding sweep_all sweep_check resend
    blocks e = rw (checked o x, sweep_all, sweep_check, e, resend)

    sends :
        (verdict o).exists ≡ false
        → sweep_all in_batch (state x answers resent false) ((j, o) ∷ es)
          ≡ sweep_all in_batch
              (state bc'.last_node
                (answered answers o)
                (resent ++ o ∷ [])
                (not (in_batch o.operation_id)))
              es
    unfolding sweep_all sweep_check resend
    sends e =
        rw (checked o x, sweep_all, sweep_check, e, resend)
          (ap (λ w. sweep_all in_batch w es)
            (bc'-state (answered answers o) (resent ++ o ∷ []) (not (in_batch o.operation_id))))

  -- Once the receiver waits, the next operation that is not on the chain is one too many.
  sweep_all-waits :
      (es : List (Bytes × Operation)) (x : ℕ) (answers : List (Bytes × Bool))
      (resent : List Operation) (k : Bytes) (op : Operation)
      → In (k, op) es
      → IsAbsent op
      → sweep_all in_batch (state x answers resent true) es ≡ deadlocks
  sweep_all-waits [] x answers resent k op i out = absurd i
  sweep_all-waits ((j, o) ∷ es) x answers resent k op i out = elim (Bool-cases (verdict o).exists) [
    | inr gone ↦ blocks j o es x answers resent gone
    | inl there ↦ elim i [
      | inl e ↦
          let same : op ≡ o = ap (λ (z : Bytes × Operation). z.1) e in
          absurd (cc (sym there ∙ ap (λ z. (verdict z).exists) (sym same) ∙ verdict-absent op out))
      | inr deep ↦
          passes j o es x answers resent true there
          ∙ sweep_all-waits es bc'.last_node (answered answers o) resent k op deep out
    ]
  ]

  -- Not on the chain, and not in the batch.
  abbrev IsLost : Operation → Type 0
  IsLost op = IsAbsent op × (in_batch op.operation_id ≡ false)

  sweep_all-deadlocks :
      (es : List (Bytes × Operation)) (x : ℕ) (answers : List (Bytes × Bool))
      (resent : List Operation) (waits : Bool) (k k' : Bytes) (op op' : Operation)
      → In (k, op) es
      → In (k', op') es
      → op ≢ op'
      → IsLost op
      → IsLost op'
      → sweep_all in_batch (state x answers resent waits) es ≡ deadlocks
  sweep_all-deadlocks es x answers resent true k k' op op' i i' apart l l' =
      sweep_all-waits es x answers resent k op i l.0
  sweep_all-deadlocks [] x answers resent false k k' op op' i i' apart l l' = absurd i
  sweep_all-deadlocks ((j, o) ∷ es) x answers resent false k k' op op' i i' apart l l' =
      elim (Bool-cases (verdict o).exists) [
        | inl there ↦
            passes j o es x answers resent false there
            ∙ sweep_all-deadlocks es bc'.last_node (answered answers o) resent false k k' op op'
                (later k op i l.0 there) (later k' op' i' l'.0 there) apart l l'
        | inr gone ↦
            sends j o es x answers resent gone
            ∙ after_send i i' (λ deep deep'.
              sweep_all-deadlocks es bc'.last_node (answered answers o) (resent ++ o ∷ [])
                (not (in_batch o.operation_id)) k k' op op' deep deep' apart l l')
      ]
    where
      later :
          (k : Bytes) (op : Operation)
          → In (k, op) ((j, o) ∷ es)
          → IsAbsent op
          → (verdict o).exists ≡ true
          → In (k, op) es
      later k op (inr deep) out there = deep
      later k op (inl e) out there =
          let same : op ≡ o = ap (λ (z : Bytes × Operation). z.1) e in
          absurd (cc (sym there ∙ ap (λ z. (verdict z).exists) (sym same) ∙ verdict-absent op out))

      waiting :
          (k : Bytes) (op p : Operation)
          → In (k, op) es
          → IsAbsent op
          → p ≡ o
          → in_batch p.operation_id ≡ false
          → sweep_all in_batch
              (state bc'.last_node
                (answered answers o)
                (resent ++ o ∷ [])
                (not (in_batch o.operation_id)))
              es
            ≡ deadlocks
      waiting k op p i out is new =
          let e : in_batch o.operation_id ≡ false =
            ap (λ (z : Operation). in_batch z.operation_id) (sym is) ∙ new in
          rw e (sweep_all-waits es bc'.last_node (answered answers o) (resent ++ o ∷ []) k op i out)

      after_send :
          In (k, op) ((j, o) ∷ es)
          → In (k', op') ((j, o) ∷ es)
          → (In (k, op) es
              → In (k', op') es
              → sweep_all in_batch
                  (state bc'.last_node
                    (answered answers o)
                    (resent ++ o ∷ [])
                    (not (in_batch o.operation_id)))
                  es
                ≡ deadlocks)
          → sweep_all in_batch
              (state bc'.last_node
                (answered answers o)
                (resent ++ o ∷ [])
                (not (in_batch o.operation_id)))
              es
            ≡ deadlocks
      after_send (inr deep) (inr deep') both = both deep deep'
      after_send (inl e) (inr deep') both =
          waiting k' op' op deep' l'.0 (ap (λ (z : Bytes × Operation). z.1) e) l.1
      after_send (inr deep) (inl e') both =
          waiting k op op' deep l.0 (ap (λ (z : Bytes × Operation). z.1) e') l'.1
      after_send (inl e) (inl e') both = absurd (
          apart
            (ap (λ (z : Bytes × Operation). z.1) e ∙ sym (ap (λ (z : Bytes × Operation). z.1) e')))

  -- On a valid tree, with the chain `bs` of the first node that the search for the longest chain lists:
  -- if two different operations are pending that are neither on `bs` nor in the batch, then
  -- `checkConfirmedOperations` and `buildPendingOperations` wait for each other for ever, in whatever
  -- order the pending operations are visited.
  pub check_confirmed_operations-deadlocks :
      (range : Order Operation) (s : Server) (waits : Bool) (k k' : Bytes) (op op' : Operation)
      → IsRange range
      → s.bc ≡ bc
      → get s.client_ops k ≡ some op
      → get s.client_ops k' ≡ some op'
      → op ≢ op'
      → ¬ In op.operation_id (ids (chain_ops bs))
      → ¬ In op'.operation_id (ids (chain_ops bs))
      → in_batch op.operation_id ≡ false
      → in_batch op'.operation_id ≡ false
      → check_confirmed_operations in_batch waits range s ≡ deadlocks
  unfolding check_confirmed_operations
  check_confirmed_operations-deadlocks range s waits k k' op op' perm is at at' apart out out' new
        new' =
      let es = range s.client_ops in
      let listed = λ (k : Bytes) (op : Operation) (at : get s.client_ops k ≡ some op).
        In-perm dec_pending (k, op) s.client_ops es (Perm.symm (perm s.client_ops))
          (member_of_get s.client_ops k op at) in
      ap
        (λ t.
          swept s
            (sweep_all in_batch (record { bc = t; answers = []; resent = []; waits = waits }) es))
        is
      ∙ ap (swept s) (
          sweep_all-deadlocks es bc.last_node [] [] waits k k' op op' (listed k op at)
            (listed k' op' at') apart (out, new) (out', new'))

-- ===== src/Ledger/Files.antt =====
-- The files that `GetFile`, `NumRecs` and `ListFiles` read off the confirmed chain.
use mathlib.Core.List.{reverse, reverse-append}
use miner.Prelude.SwapEnds.{swap_ends-reverse, length-reverse}
use miner.Prelude.{
  ℕ, ◌<◌, ◌≡◌, refl, inl, inr, Bool, false, Option, some, List, [], ◌∷◌, ◌++◌, foldl, foldl-append,
  length, arith, Option-cases, ◌∙◌, sym, ap, lt-length_of_get_elem?, append_assoc,
}
use miner.Prelude.Int.{pos, negsuc}
use miner.Prelude.Bytes.{Bytes}
use miner.Operation.{Operation}
use miner.Block.{Block}
use miner.Blockchain.{Node, Blockchain}
use miner.Blockchain.Walk.{next, for_blocks, for_parents, for_parents-IsChain, IsChain}
use miner.Blockchain.Shape.{IsValid}
use miner.Blockchain.Validation.Survivors.{chain_ops}
use miner.Blockchain.Soundness.{IsChain-unique}
use miner.Blockchain.Longest.{get_last_nodes, get_last_confirmed_node, confirmed_at}
use miner.Blockchain.Longest.Deepest.{get_last_nodes-IsDeepest}
use miner.Ledger.{
  FileOps, gather_op, ungathered, file_from, get_file, from_confirmed, count_op, count_from,
  num_recs, as_file, no_file,
}
unfoldable pub use miner.Ledger.Gathered.{records_of, mentions, removes}
use miner.Ledger.Gathered.{gather-Gathers, tally, count-tally}

chain_ops-append : (bs cs : List Block) → chain_ops (bs ++ cs) ≡ chain_ops bs ++ chain_ops cs
unfolding chain_ops
chain_ops-append [] cs = refl
chain_ops-append (b ∷ bs) cs =
    ap (λ ops. b.operations ++ ops) (chain_ops-append bs cs)
    ∙ sym (append_assoc b.operations (chain_ops bs) (chain_ops cs))

records_of-append :
    (fname : Bytes) (ops ops' : List Operation)
    → records_of fname (ops ++ ops') ≡ records_of fname ops ++ records_of fname ops'
unfolding records_of
records_of-append fname [] ops' = refl
records_of-append fname (o ∷ ops) ops' = ground (arith, records_of-append fname ops ops')

-- An address with a chain is an address.
lt-length_of_IsChain :
    (nodes : List Node) (a : ℕ) (bs : List Block) → IsChain nodes (some a) bs → a < length nodes
lt-length_of_IsChain nodes a [] c = absurd c
lt-length_of_IsChain nodes a (b ∷ bs) (n, at, _, _) = lt-length_of_get_elem? nodes a n at

-- A loop over the operations of the blocks is a loop over the operations of the chain.
for_blocks-ops :
    {S : Type 0} (g : S → Operation → S) (bs : List Block) (s : S)
    → for_blocks (λ b s. next (foldl g s b.operations)) bs s ≡ foldl g s (chain_ops bs)
unfolding for_blocks chain_ops
for_blocks-ops g [] s = refl
for_blocks-ops g (b ∷ bs) s =
    for_blocks-ops g bs (foldl g s b.operations)
    ∙ sym (foldl-append g s b.operations (chain_ops bs))

-- The loop from an address of a valid tree.
pub for_parents-ops :
    {S : Type 0} (g : S → Operation → S) (bc : Blockchain) (a : ℕ) (bs : List Block) (s : S)
    → IsValid bc
    → IsChain bc.nodes (some a) bs
    → for_parents (length bc.nodes) bc.nodes (λ b s. next (foldl g s b.operations)) (some a) s
      ≡ some (foldl g s (chain_ops bs))
for_parents-ops g bc a bs s v c =
    let (cs, c', short) = v.grounded a (lt-length_of_IsChain bc.nodes a bs c) in
    let same = IsChain-unique bc.nodes (some a) cs bs c' c in
    for_parents-IsChain (length bc.nodes) bc.nodes (λ b s. next (foldl g s b.operations)) (some a)
      bs c (rw same at short) s
    ∙ ap some (for_blocks-ops g bs s)

-- Looking for the confirmed node changes `lastNode` only.
pub get_last_confirmed_node-tree :
    (bc bc' : Blockchain) (k : ℕ) (q : Option ℕ)
    → get_last_confirmed_node bc k ≡ some (bc', q)
    → bc' ≡ record bc { last_node = bc'.last_node }
unfolding get_last_confirmed_node
get_last_confirmed_node-tree bc bc' k q e = elim (Option-cases (get_last_nodes bc)) [
  | inl gone ↦ absurd (cc (rw (gone, get_last_confirmed_node) at e))
  | inr ((b, []), last) ↦
      let (_, _, tree) = get_last_nodes-IsDeepest bc b [] last in
      let e' = rw (last, get_last_confirmed_node, confirmed_at) at e in
      let same : bc' ≡ b = ground arith in rw same tree
  | inr ((b, a ∷ as'), last) ↦
      let (_, _, tree) = get_last_nodes-IsDeepest bc b (a ∷ as') last in
      let e' = rw (last, get_last_confirmed_node, confirmed_at) at e in
      let same : bc' ≡ b = ground arith in rw same tree
]

pub read_confirmed :
    {A : Type 0} (missing : A) (read : Blockchain → ℕ → Option A) (bc : Blockchain) (a : ℕ) (r : A)
    (found : Option (Blockchain × Option ℕ))
    → found ≡ some (bc, some a)
    → read bc a ≡ some r
    → from_confirmed missing read found ≡ some (bc, r)
read_confirmed missing read bc a r found last run = rw (last, from_confirmed, run)

-- On a valid tree, let `a` be the node that is deep enough below the end of the longest chain to be
-- confirmed. Then `GetFile` returns the appends to the file on the chain of `a`, oldest block first,
-- and tells whether an operation of that chain names the file and whether one deletes it.
pub get_file-chain :
    (fname : Bytes) (bc bc' : Blockchain) (a : ℕ) (bs : List Block)
    → IsValid bc
    → get_last_confirmed_node bc bc.config.confirms_per_file_append ≡ some (bc', some a)
    → IsChain bc.nodes (some a) bs
    → get_file fname bc
      ≡ some (
        bc',
        (
          record {
            fname = fname;
            operations = reverse (records_of fname (chain_ops bs));
            deleted = removes fname (chain_ops bs);
          },
          mentions fname (chain_ops bs),
        ),
      )
unfolding get_file file_from
get_file-chain fname bc bc' a bs v last c =
    let tree = get_last_confirmed_node-tree bc bc' _ (some a) last in
    let run = for_parents-ops (gather_op fname) bc a bs ungathered v c in
    let (ops, seen, gone) = gather-Gathers fname (chain_ops bs) ungathered in
    read_confirmed (no_file, false) (file_from fname) bc' a _ _ last
      (ap (λ t. file_from fname t a) tree
        ∙ rw (
          run,
          file_from,
          as_file,
          ops,
          seen,
          gone,
          swap_ends-reverse (records_of fname (chain_ops bs)),
        ))

-- On a valid tree with a confirmed node, `GetFile` and `NumRecs` both return, `NumRecs` counts the
-- records that `GetFile` returns, and the two agree on whether the file exists.
pub num_recs-get_file :
    (fname : Bytes) (bc bc' : Blockchain) (a : ℕ) (bs : List Block)
    → IsValid bc
    → get_last_confirmed_node bc bc.config.confirms_per_file_append ≡ some (bc', some a)
    → IsChain bc.nodes (some a) bs
    → (file : FileOps) × (seen : Bool) × (get_file fname bc ≡ some (bc', (file, seen)))
      × (num_recs fname bc ≡ some (bc', (pos (length file.operations), seen)))
unfolding num_recs count_from
num_recs-get_file fname bc bc' a bs v last c =
    let tree = get_last_confirmed_node-tree bc bc' _ (some a) last in
    let run = for_parents-ops (count_op fname) bc a bs (tally ungathered) v c in
    let counted = count-tally fname (chain_ops bs) ungathered in
    let (ops, seen, gone) = gather-Gathers fname (chain_ops bs) ungathered in
    (
      _,
      _,
      get_file-chain fname bc bc' a bs v last c,
      read_confirmed (negsuc 0, false) (count_from fname) bc' a _ _ last
          (ap (λ t. count_from fname t a) tree
            ∙ rw (
              run,
              count_from,
              counted,
              ops,
              seen,
              length-reverse (records_of fname (chain_ops bs)),
            )),
    )

-- Let one valid tree have the confirmed chain `bs`, and another, read with the same or with other
-- settings, a confirmed chain that extends `bs` by the blocks `cs`. Then the second `GetFile` returns
-- the records of the first, in the same places, followed by those of `cs`.
pub get_file_grows :
    (fname : Bytes) (bc bc' later later' : Blockchain) (a a' : ℕ) (bs cs : List Block)
    → IsValid bc
    → IsValid later
    → get_last_confirmed_node bc bc.config.confirms_per_file_append ≡ some (bc', some a)
    → get_last_confirmed_node later later.config.confirms_per_file_append ≡ some (later', some a')
    → IsChain bc.nodes (some a) bs
    → IsChain later.nodes (some a') (cs ++ bs)
    → (old new : FileOps × Bool) × (get_file fname bc ≡ some (bc', old))
      × (get_file fname later ≡ some (later', new))
      × (new.0.operations ≡ old.0.operations ++ reverse (records_of fname (chain_ops cs)))
get_file_grows fname bc bc' later later' a a' bs cs v v' last last' c c' = (
  _,
  _,
  get_file-chain fname bc bc' a bs v last c,
  get_file-chain fname later later' a' (cs ++ bs) v' last' c',
  ap (λ ops. reverse (records_of fname ops)) (chain_ops-append cs bs)
      ∙ ap reverse (records_of-append fname (chain_ops cs) (chain_ops bs))
      ∙ reverse-append (records_of fname (chain_ops cs)) (records_of fname (chain_ops bs)),
)

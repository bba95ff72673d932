-- ===== src/P2p/Server/Records.antt =====
-- What clients read of a file.
use miner.Prelude.{
  ℕ, zero, suc, ◌<◌, ◌≡◌, refl, true, some, List, [], ◌∷◌, length, get_elem?,
  lt-length_of_get_elem?, arith, if_pos, if_neg, In, Option-cases, inl, inr, sym, ℕ_discrete, subst,
}
use miner.Prelude.Bytes.{Bytes, dec_bytes}
use miner.Prelude.Int.{pos}
use miner.Prelude.GoMap.{has}
use miner.Operation.{Operation}
use miner.Block.{Block}
use miner.Blockchain.{Blockchain}
use miner.Blockchain.Walk.{IsChain}
use miner.Blockchain.Shape.{IsValid}
use miner.Blockchain.Validation.Survivors.{ids, chain_ops}
use miner.Blockchain.Longest.{get_last_confirmed_node}
use miner.Ledger.{FileOps, get_file, num_recs}
use miner.Ledger.Files.{get_file-chain, num_recs-get_file, mentions}
use miner.P2p.Server.{
  Server, ok, with_file, record_at, to_record, read_record, total_recs, last_index,
  append_record_reply,
}

-- The index at which an operation with the ID stands.
abbrev Finds : List Operation → Bytes → ℕ → Type 0
Finds ops id i = (o : Operation) × (get_elem? ops i ≡ some o) × (o.operation_id ≡ id)

last_index-Finds :
    (k : ℕ) (ops : List Operation) (id : Bytes) (i : ℕ)
    → i < k
    → Finds ops id i
    → Finds ops id (last_index k ops id)
unfolding last_index
last_index-Finds zero ops id i lt f = absurd (omega arith)
last_index-Finds (suc k) ops id i lt (o, at, is) = elim (Option-cases (get_elem? ops k)) [
  | inl gone ↦
      let below : i < k = elim (ℕ_discrete i k) [
        | yes e ↦ absurd (cc (rw e at at))
        | no ne ↦ omega arith
      ] in
      subst (Finds ops id) (sym (rw (gone, last_index)))
        (last_index-Finds k ops id i below (o, at, is))
  | inr (x, here) ↦ elim (dec_bytes x.operation_id id) [
    | yes same ↦
        subst (Finds ops id)
          (sym (rw (here, last_index) (if_pos (dec_bytes x.operation_id id) same _ _)))
          (x, here, same)
    | no other ↦
        let below : i < k = elim (ℕ_discrete i k) [
          | yes e ↦ absurd (other (ground arith))
          | no ne ↦ omega arith
        ] in
        subst (Finds ops id)
          (sym (rw (here, last_index) (if_neg (dec_bytes x.operation_id id) other _ _)))
          (last_index-Finds k ops id i below (o, at, is))
  ]
]

index_of :
    (ops : List Operation) (id : Bytes)
    → In id (ids ops)
    → (i : ℕ) × (i < length ops) × Finds ops id i
index_of [] id h = absurd h
index_of (o ∷ ops) id (inl e) = (0, omega arith, (o, refl, sym e))
index_of (o ∷ ops) id (inr h) = let (i, lt, f) = index_of ops id h in (suc i, omega arith, f)

-- The number of a successful `AppendRecord` is one of a record.
pub append_record_reply-lt :
    (s : Server) (fname : Bytes) (op : Operation) (bc : Blockchain) (file : FileOps) (i : ℕ)
    → get_file fname s.bc ≡ some (bc, (file, true))
    → In op.operation_id (ids file.operations)
    → append_record_reply s fname op true ≡ some (ok i)
    → i < length file.operations
unfolding append_record_reply
append_record_reply-lt s fname op bc file i got held e =
    let (j, lt, f) = index_of file.operations op.operation_id held in
    let (o, at, is) =
      last_index-Finds (length file.operations) file.operations op.operation_id j lt f in
    let same = rw (got, with_file) at e in
    let below =
      lt-length_of_get_elem? file.operations
        (last_index (length file.operations) file.operations op.operation_id) o at in
    ground (arith, below, same)

-- Let a client be connected and the file be cached as confirmed, and let `GetFile` return a file that
-- holds an operation with the ID of `op`. Then the reply to a successful `AppendRecord` of `op` is the
-- number of a record with that ID, and `ReadRecord` with that number returns that record's data.
pub append_record_reply-read_record :
    (s : Server) (fname : Bytes) (op : Operation) (bc : Blockchain) (file : FileOps)
    → s.is_connected ≡ true
    → has s.confirmed_files fname ≡ true
    → get_file fname s.bc ≡ some (bc, (file, true))
    → In op.operation_id (ids file.operations)
    → (i : ℕ) × (o : Operation) × (o.operation_id ≡ op.operation_id)
      × (append_record_reply s fname op true ≡ some (ok i))
      × (read_record s fname i ≡ some (ok (to_record 512 o.payload)))
unfolding append_record_reply read_record
append_record_reply-read_record s fname op bc file conn cached got held =
    let (i, lt, f) = index_of file.operations op.operation_id held in
    let (o, at, is) =
      last_index-Finds (length file.operations) file.operations op.operation_id i lt f in
    (
      last_index (length file.operations) file.operations op.operation_id,
      o,
      is,
      rw (got, with_file),
      rw (conn, cached, got, with_file, at, record_at),
    )

-- Let a client be connected and the file be cached as confirmed. On a valid tree whose confirmed chain
-- names the file, `TotalRecs` answers the number that `NumRecs` counts.
pub total_recs-num_recs :
    (s : Server) (fname : Bytes) (bc : Blockchain) (a : ℕ) (bs : List Block)
    → s.is_connected ≡ true
    → has s.confirmed_files fname ≡ true
    → IsValid s.bc
    → get_last_confirmed_node s.bc s.bc.config.confirms_per_file_append ≡ some (bc, some a)
    → IsChain s.bc.nodes (some a) bs
    → mentions fname (chain_ops bs) ≡ true
    → (n : ℕ) × (total_recs s fname ≡ some (ok n))
      × (num_recs fname s.bc ≡ some (bc, (pos n, true)))
unfolding total_recs
total_recs-num_recs s fname bc a bs conn cached v last c named =
    let (file, seen, got, counted) = num_recs-get_file fname s.bc bc a bs v last c in
    let got' = get_file-chain fname s.bc bc a bs v last c in
    let is_seen : seen ≡ true = ground arith in
    (length file.operations, rw (conn, cached, got, is_seen, with_file), rw is_seen at counted)

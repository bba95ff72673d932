-- ===== src/RfsLib/Records.antt =====
-- What an application sees of the records of a file.
use miner.Prelude.{ℕ, ◌≤◌, ◌%◌, ◌^◌, ◌≡◌, true, some, List, In, arith, length, ◌∙◌, ap}
use miner.Prelude.Int.{pos}
use miner.Prelude.Bytes.{Bytes}
use miner.Prelude.GoMap.{has}
use miner.Operation.{Operation}
use miner.Block.{Block}
use miner.Blockchain.{Blockchain}
use miner.Blockchain.Shape.{IsValid}
use miner.Blockchain.Walk.{IsChain}
use miner.Blockchain.Validation.Survivors.{ids, chain_ops}
use miner.Blockchain.Longest.{get_last_confirmed_node}
use miner.Ledger.{FileOps, get_file, num_recs}
use miner.Ledger.Files.{mentions}
use miner.P2p.Server.{Server, ok, to_record, read_record, append_record_reply, total_recs}
use miner.P2p.Server.Records.{
  append_record_reply-read_record, append_record_reply-lt, total_recs-num_recs,
}
use miner.RfsLib.{replied, RpcClient, number_of, client_total_recs, read_rec, append_rec}

-- The connection answers what the server answers, the append being that of `op`.
pub record IsServedBy {E : Type 0} (c : RpcClient E) (s : Server) (op : Operation) : Type 0 where
  pub totals :
      (fname : Bytes) (n : ℕ) → total_recs s fname ≡ some (ok n) → c.total fname ≡ replied n
  pub reads :
      (fname : Bytes) (i : ℕ) (r : Bytes)
      → read_record s fname i ≡ some (ok r)
      → c.read fname i ≡ replied r
  pub appends :
      (fname : Bytes) (n : ℕ)
      → append_record_reply s fname op true ≡ some (ok n)
      → c.append_data fname op.payload ≡ replied n

module _ {E : Type 0} (c : RpcClient E) (s : Server) (op : Operation)
    (served : IsServedBy c s op) where
  -- `TotalRecs` of the client returns the number of records that the ledger counts, modulo 2 ^ 16, so
  -- 0 for a file of 2 ^ 16 records: for a connected client, a file that is cached as confirmed, and a
  -- valid tree whose confirmed chain names the file.
  pub client_total_recs-num_recs :
      (fname : Bytes) (bc : Blockchain) (a : ℕ) (bs : List Block)
      → s.is_connected ≡ true
      → has s.confirmed_files fname ≡ true
      → IsValid s.bc
      → get_last_confirmed_node s.bc s.bc.config.confirms_per_file_append ≡ some (bc, some a)
      → IsChain s.bc.nodes (some a) bs
      → mentions fname (chain_ops bs) ≡ true
      → (n : ℕ) × (client_total_recs c fname ≡ replied (n % 2 ^ 16))
        × (num_recs fname s.bc ≡ some (bc, (pos n, true)))
  unfolding client_total_recs
  client_total_recs-num_recs fname bc a bs conn cached v last chain named =
      let (n, total, counted) =
        total_recs-num_recs s fname bc a bs conn cached v last chain named in
      (n, ap (number_of c) (served.totals fname n total), counted)

  -- Let a client be connected, the file be cached as confirmed and have at most 2 ^ 16 records, and let
  -- the operation that was appended be among those that `GetFile` returns. Then the 16 bits that `AppendRec` returns are enough: `ReadRec` with them
  -- returns a record of an operation with the same ID.
  pub append_rec-read_rec :
      (fname : Bytes) (bc : Blockchain) (file : FileOps)
      → s.is_connected ≡ true
      → has s.confirmed_files fname ≡ true
      → get_file fname s.bc ≡ some (bc, (file, true))
      → In op.operation_id (ids file.operations)
      → length file.operations ≤ 2 ^ 16
      → (i : ℕ) × (o : Operation) × (o.operation_id ≡ op.operation_id)
        × (append_rec c fname op.payload ≡ replied i)
        × (read_rec c fname i ≡ replied (to_record 512 o.payload))
  unfolding append_rec read_rec
  append_rec-read_rec fname bc file conn cached got held few =
      let (i, o, same, reply, reading) =
        append_record_reply-read_record s fname op bc file conn cached got held in
      let below = append_record_reply-lt s fname op bc file i got held reply in
      let fits : i % 2 ^ 16 ≡ i = omega (arith, below, few) in
      (
        i,
        o,
        same,
        ap (number_of c) (served.appends fname i reply) ∙ ap replied fits,
        served.reads fname i (to_record 512 o.payload) reading,
      )

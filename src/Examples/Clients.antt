-- ===== src/Examples/Clients.antt =====
-- The theorems of p2p at small inputs.
use miner.Prelude.{
  ℕ, ◌≤◌, ◌≡◌, refl, true, false, Option, none, some, List, [], ◌∷◌, inl, arith, ite, if_neg, ap,
  sym, ◌∙◌, length,
}
use miner.Prelude.Int.{pos}
use miner.Prelude.SwapEnds.{swap_ends}
use miner.RfsLib.{Called, replied, errs, RpcClient, append_rec, read_rec}
use miner.RfsLib.Records.{IsServedBy, append_rec-read_rec}
use miner.Prelude.Bytes.{Bytes, dec_bytes}
use miner.Prelude.GoMap.{get, has}
use miner.Operation.{Operation}
use miner.Block.{Block, new_genesis_block}
use miner.Blockchain.{Blockchain, new_blockchain}
use miner.Blockchain.Walk.{for_parents}
use miner.Blockchain.Validation.Survivors.{chain_ops}
use miner.Blockchain.Add.{attach}
use miner.Blockchain.Longest.{get_last_nodes, get_last_confirmed_node}
use miner.Ledger.{FileOps, get_file}
use miner.Ledger.Files.{mentions}
use miner.P2p.Server.{
  Server, RpcError, disconnected, Reply, ok, failed, again, list_confirmed_files, create_file_reply,
  to_record, read_record, append_record_reply, total_recs,
}
use miner.P2p.Resolver.{ChainResolver, contains, resolve_flooded_block, resolve_added_block}
use miner.P2p.Resolver.Queued.{Descends, flooded_then_added}
use miner.Examples.{in_order, settings, note, idle_block, op_block, block_on, top_tree}

abbrev root : Block
root = new_genesis_block settings.genesis_block_hash (pos 0)

abbrev top_tree' : Blockchain
top_tree' = record top_tree { last_node = 3 }

abbrev server : Server
server = record {
  bc = top_tree;
  miner_id = 7 ∷ [];
  confirmed_files = (102 ∷ [], tt) ∷ [];
  client_ops = [];
  is_connected = true;
}

abbrev notes : FileOps
notes = record { fname = 102 ∷ []; operations = note ∷ []; deleted = false }

cached : has server.confirmed_files (102 ∷ []) ≡ true
unfolding get dec_bytes
cached = refl

notes_read : get_file (102 ∷ []) server.bc ≡ some (top_tree', (notes, true))
unfolding get_file get_last_confirmed_node get_last_nodes for_parents attach new_blockchain
    swap_ends new_genesis_block dec_bytes
notes_read = refl

-- A connection over which the server answers, the append being that of `note`.
abbrev called : {A : Type 0} → Option (Reply A) → Called RpcError A
called none = errs disconnected
called (some (ok a)) = replied a
called (some (failed e)) = errs e
called (some again) = errs disconnected

abbrev connection : RpcClient RpcError
connection = record {
  create = λ fname. called (some (create_file_reply true));
  files = called (some (list_confirmed_files in_order server));
  total = λ fname. called (total_recs server fname);
  read = λ fname i. called (read_record server fname i);
  append_data = λ fname payload. called (append_record_reply server fname note true);
}

connection-IsServedBy : IsServedBy connection server note
connection-IsServedBy = record {
  totals = λ fname n e. ap called e;
  reads = λ fname i r e. ap called e;
  appends = λ fname n e. ap called e;
}

append_rec-read_rec_example :
    (i : ℕ) × (o : Operation) × (o.operation_id ≡ note.operation_id)
    × (append_rec connection (102 ∷ []) note.payload ≡ replied i)
    × (read_rec connection (102 ∷ []) i ≡ replied (to_record 512 o.payload))
append_rec-read_rec_example =
    append_rec-read_rec connection server note connection-IsServedBy (102 ∷ []) top_tree' notes refl
      cached notes_read (inl refl) (omega arith)

named : mentions (102 ∷ []) (chain_ops (op_block ∷ idle_block ∷ root ∷ [])) ≡ true
unfolding mentions chain_ops new_genesis_block dec_bytes
named = refl

-- Block 5 waits for block 6, and block 4 is flooded, whose parent is block 5.
abbrev resolver : ChainResolver
resolver = record {
  blocks_to_resolve = (6 ∷ [], block_on (5 ∷ []) (6 ∷ []) [] ∷ []) ∷ [];
  waiting_blocks = (5 ∷ [], 6 ∷ []) ∷ [];
}

abbrev way : Bytes → ℕ
way hash = ite (dec_bytes (5 ∷ []) hash) 1 0

sixth : 0 ≡ way (6 ∷ [])
unfolding dec_bytes
sixth = refl

fifth : 1 ≡ way (5 ∷ [])
unfolding dec_bytes
fifth = refl

way-Descends : Descends resolver.waiting_blocks way
unfolding get
way-Descends k p e = elim (dec_bytes (5 ∷ []) k) [
  | yes here ↦
      let found : p ≡ 6 ∷ [] = ground arith in
      omega (arith, sixth ∙ sym (ap way found), fifth ∙ ap way here)
  | no other ↦ absurd (cc (sym e ∙ if_neg (dec_bytes (5 ∷ []) k) other _ _))
]

way_short : way (5 ∷ []) ≤ length resolver.waiting_blocks
unfolding dec_bytes
way_short = omega arith

abbrev flooded : Block
flooded = block_on (4 ∷ []) (5 ∷ []) []

flooded_then_added_example :
    (r : ChainResolver × List Bytes) × (resolve_flooded_block resolver flooded ≡ some r)
    × (contains (resolve_added_block r.0 (5 ∷ [])).1 (4 ∷ []) ≡ true)
    × (has (resolve_added_block r.0 (5 ∷ [])).0.blocks_to_resolve (5 ∷ []) ≡ false)
    × (get (resolve_added_block r.0 (5 ∷ [])).0.waiting_blocks (4 ∷ []) ≡ none)
flooded_then_added_example = flooded_then_added way resolver flooded way-Descends way_short

-- The server after an update.
abbrev updated : Server
updated = record server { bc = top_tree' }

abbrev chain : List Block
chain = op_block ∷ idle_block ∷ root ∷ []

-- ===== src/Ledger/FileSystem/Refines.antt =====
-- `GetFile` and `NumRecs` as reads of the file system that the confirmed chain describes.
use mathlib.Core.List.{reverse}
use miner.Prelude.{
  ℕ, ◌≡◌, inl, inr, Bool, true, false, Option, none, some, List, [], ◌∷◌, refl, Bool-cases, ◌∙◌,
  sym, ap,
}
use miner.Prelude.Bytes.{Bytes}
use miner.Block.{Block}
use miner.Blockchain.{Blockchain}
use miner.Blockchain.Shape.{IsValid}
use miner.Blockchain.Walk.{IsChain}
use miner.Blockchain.Validation.Survivors.{chain_ops}
use miner.Blockchain.Longest.{get_last_confirmed_node}
use miner.Operation.{Operation}
use miner.Ledger.{FileOps, get_file}
use miner.Ledger.Files.{records_of, mentions, removes, get_file-chain}
use miner.Ledger.FileSystem.{files_of}
use miner.Ledger.FileSystem.Replay.{
  IsOrderly, nil, cons, collected, unmentioned, removes-append, files_of-collected,
}

-- What `GetFile` is to answer: the records, and that there is no deletion.
abbrev pub read_as : Bytes → Option (List Operation) → FileOps × Bool
read_as fname none = (record { fname = fname; operations = []; deleted = false }, false)
read_as fname (some records) =
    (record { fname = fname; operations = records; deleted = false }, true)

kept_by :
    (fname : Bytes) (b : Block) (bs : List Block)
    → removes fname b.operations ≡ false
    → removes fname (chain_ops bs) ≡ false
    → removes fname (chain_ops (b ∷ bs)) ≡ false
unfolding chain_ops
kept_by fname b bs h h' = removes-append fname b.operations (chain_ops bs) h h'

orderly_kept :
    (fname : Bytes) (bs : List Block) → IsOrderly fname bs → removes fname (chain_ops bs) ≡ false
unfolding chain_ops removes
orderly_kept fname _ nil = refl
orderly_kept fname _ (cons b bs short kept rest) =
    kept_by fname b bs kept (orderly_kept fname bs rest)

collected-read_as :
    (fname : Bytes) (ops : List Operation)
    → removes fname ops ≡ false
    → read_as fname (collected fname ops) ≡ (
      record {
        fname = fname;
        operations = reverse (records_of fname ops);
        deleted = removes fname ops;
      },
      mentions fname ops,
    )
collected-read_as fname ops kept = elim (Bool-cases (mentions fname ops)) [
  | inl named ↦ rw (named, kept)
  | inr new ↦ rw (new, kept, unmentioned fname ops new)
]

module _ (fname : Bytes) (bc bc' : Blockchain) (a : ℕ) (bs : List Block) (v : IsValid bc)
    (last : get_last_confirmed_node bc bc.config.confirms_per_file_append ≡ some (bc', some a))
    (c : IsChain bc.nodes (some a) bs) (orderly : IsOrderly fname bs) where
  -- On a valid tree with a confirmed node, `GetFile` returns what the file system of its chain has.
  pub get_file-files_of : get_file fname bc ≡ some (bc', read_as fname (files_of bs fname))
  get_file-files_of =
      get_file-chain fname bc bc' a bs v last c
      ∙ ap (λ f. some (bc', f))
          (sym (collected-read_as fname (chain_ops bs) (orderly_kept fname bs orderly))
            ∙ ap (read_as fname) (sym (files_of-collected fname bs orderly)))

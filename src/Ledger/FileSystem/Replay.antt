-- ===== src/Ledger/FileSystem/Replay.antt =====
-- Replaying the log of a chain, and collecting the operations of one file newest first.
use mathlib.Core.List.{reverse, reverse-append}
use miner.Prelude.{
  ◌≡◌, refl, ◌≤◌, ◌||◌, inl, inr, false, Option, none, some, List, [], ◌∷◌, ◌++◌, foldl-append,
  arith, if◌then◌else◌, Bool-cases, ◌∙◌, ap, length, append-nil, append_assoc, if_pos, if_neg,
}
use miner.Prelude.Bytes.{Bytes, dec_bytes}
use miner.Operation.{Operation, OpType, create, append, del}
use miner.Block.{Block}
use miner.Blockchain.Validation.Survivors.{chain_ops}
use miner.Ledger.Gathered.{records_of, mentions, removes, or_true, or_false}
use miner.Ledger.FileSystem.{
  FileSystem, no_files, or_empty, changed_by, apply, replay, log, files_of,
}

-- No block of the chain appends to the file twice, and none deletes it.
pub data IsOrderly (fname : Bytes) : List Block → Type 0 where
  nil : IsOrderly fname []
  cons :
      (b : Block) (bs : List Block)
      → length (records_of fname b.operations) ≤ 1
      → removes fname b.operations ≡ false
      → IsOrderly fname bs
      → IsOrderly fname (b ∷ bs)

-- What is collected of a file.
abbrev pub collected : Bytes → List Operation → Option (List Operation)
collected fname ops = if mentions fname ops then some (reverse (records_of fname ops)) else none

-- Of a file that is not named there is nothing.
pub unmentioned :
    (fname : Bytes) (ops : List Operation) → mentions fname ops ≡ false → records_of fname ops ≡ []
unfolding mentions records_of
unmentioned fname [] h = refl
unmentioned fname (o ∷ ops) h = elim (dec_bytes o.filename fname) [
  | yes same ↦ absurd (ground arith)
  | no other ↦ let none_of = unmentioned fname ops (ground arith) in ground arith
]

not_removed :
    (fname : Bytes) (o : Operation) (ops : List Operation)
    → removes fname (o ∷ ops) ≡ false
    → removes fname ops ≡ false
unfolding removes
not_removed fname o ops h = ground arith

abbrev after_log : Bytes → List Operation → Option (List Operation) → Option (List Operation)
after_log fname ops file =
    if mentions fname ops then some (or_empty file ++ records_of fname ops) else file

after_log-there :
    (fname : Bytes) (ops : List Operation) (records : List Operation)
    → after_log fname ops (some records) ≡ some (records ++ records_of fname ops)
after_log-there fname ops records = elim (Bool-cases (mentions fname ops)) [
  | inl named ↦ rw named refl
  | inr new ↦ rw (new, unmentioned fname ops new, append-nil) refl
]

-- One operation on the file, and then the others.
after_log-cons :
    (fname : Bytes) (o : Operation) (ops : List Operation) (t : OpType)
    (file : Option (List Operation))
    → o.filename ≡ fname
    → o.op ≡ t
    → removes fname (o ∷ ops) ≡ false
    → after_log fname ops (changed_by t o file) ≡ after_log fname (o ∷ ops) file
unfolding mentions records_of removes
after_log-cons fname o ops create file same is h =
    after_log-there fname ops (or_empty file) ∙ ground arith
after_log-cons fname o ops append file same is h =
    after_log-there fname ops (or_empty file ++ o ∷ [])
    ∙ ap (λ l. some l) (append_assoc (or_empty file) (o ∷ []) (records_of fname ops))
    ∙ ground arith
after_log-cons fname o ops del file same is h = absurd (ground arith)

replay-file :
    (fname : Bytes) (ops : List Operation) (fs : FileSystem)
    → removes fname ops ≡ false
    → replay fs ops fname ≡ after_log fname ops (fs fname)
unfolding replay mentions records_of
replay-file fname [] fs h = refl
replay-file fname (o ∷ ops) fs h =
    replay-file fname ops (apply fs o) (not_removed fname o ops h)
    ∙ elim (dec_bytes o.filename fname) [
      | yes same ↦
          ap (after_log fname ops) (if_pos (dec_bytes o.filename fname) same _ _)
          ∙ after_log-cons fname o ops o.op (fs fname) same refl h
      | no other ↦
          ap (after_log fname ops) (if_neg (dec_bytes o.filename fname) other _ _) ∙ ground arith
    ]

mentions-append :
    (fname : Bytes) (xs ys : List Operation)
    → mentions fname (xs ++ ys) ≡ (mentions fname xs || mentions fname ys)
unfolding mentions
mentions-append fname [] ys = refl
mentions-append fname (x ∷ xs) ys = let e = mentions-append fname xs ys in ground arith

pub removes-append :
    (fname : Bytes) (xs ys : List Operation)
    → removes fname xs ≡ false
    → removes fname ys ≡ false
    → removes fname (xs ++ ys) ≡ false
unfolding removes
removes-append fname [] ys h h' = h'
removes-append fname (x ∷ xs) ys h h' =
    let rest = removes-append fname xs ys (not_removed fname x xs h) h' in ground arith

records_of-append :
    (fname : Bytes) (xs ys : List Operation)
    → records_of fname (xs ++ ys) ≡ records_of fname xs ++ records_of fname ys
unfolding records_of
records_of-append fname [] ys = refl
records_of-append fname (x ∷ xs) ys = let e = records_of-append fname xs ys in ground arith

reverse-short : (xs : List Operation) → length xs ≤ 1 → reverse xs ≡ xs
reverse-short [] h = refl
reverse-short (x ∷ []) h = refl
reverse-short (x ∷ y ∷ xs) h = absurd (omega arith)

-- A block more on top.
collected-block :
    (fname : Bytes) (b : Block) (bs : List Block)
    → length (records_of fname b.operations) ≤ 1
    → after_log fname b.operations (collected fname (chain_ops bs))
      ≡ collected fname (chain_ops (b ∷ bs))
unfolding chain_ops
collected-block fname b bs short =
    let ops = chain_ops bs in
    let all =
      reverse-append (records_of fname b.operations) (records_of fname ops)
      ∙ ap (λ l. reverse (records_of fname ops) ++ l)
          (reverse-short (records_of fname b.operations) short) in
    rw (mentions-append fname b.operations ops, records_of-append fname b.operations ops, all)
      (elim (Bool-cases (mentions fname ops)) [
        | inl named ↦
            rw (named, or_true)
              (after_log-there fname b.operations (reverse (records_of fname ops)))
        | inr new ↦ rw (new, or_false, unmentioned fname ops new) refl
      ])

-- On an orderly chain the file system has what is collected.
pub files_of-collected :
    (fname : Bytes) (bs : List Block)
    → IsOrderly fname bs
    → files_of bs fname ≡ collected fname (chain_ops bs)
unfolding replay log mentions chain_ops
files_of-collected fname _ nil = refl
files_of-collected fname _ (cons b bs short kept rest) =
    ap (λ (fs : FileSystem). fs fname) (foldl-append apply no_files (log bs) b.operations)
    ∙ replay-file fname b.operations (files_of bs) kept
    ∙ ap (after_log fname b.operations) (files_of-collected fname bs rest)
    ∙ collected-block fname b bs short

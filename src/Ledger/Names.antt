-- ===== src/Ledger/Names.antt =====
-- The names that `ListFiles` returns.
use miner.Prelude.{
  ℕ, ◌≡◌, ◌⊎◌, ◌↔◌, inl, inr, true, some, List, [], ◌∷◌, foldl, arith, In, IsDistinct, ◌∙◌, sym, ap,
  refl, if_pos,
}
use miner.Prelude.Bytes.{Bytes, dec_bytes}
use miner.Prelude.GoMap.{put, keys, put-IsDistinct}
use miner.Prelude.GoSet.{GoSet, Knows, In-keys_has, has-put, not-Knows-empty}
use miner.Prelude.Perms.{IsRange, In-keys_range, keys_range-IsDistinct}
use miner.Operation.{Operation, Order}
use miner.Block.{Block}
use miner.Blockchain.{Blockchain}
use miner.Blockchain.Shape.{IsValid}
use miner.Blockchain.Walk.{IsChain}
use miner.Blockchain.Validation.Survivors.{chain_ops}
use miner.Blockchain.Longest.{get_last_confirmed_node}
use miner.Ledger.{name_op, filenames_from, list_files, listed}
use miner.Ledger.Files.{mentions, for_parents-ops, read_confirmed, get_last_confirmed_node-tree}

abbrev names_of : GoSet → List Operation → GoSet
names_of = foldl name_op

names_of-IsDistinct :
    (ops : List Operation) (s : GoSet) → IsDistinct (keys s) → IsDistinct (keys (names_of s ops))
unfolding name_op
names_of-IsDistinct [] s d = d
names_of-IsDistinct (o ∷ ops) s d =
    names_of-IsDistinct ops (put s o.filename tt) (put-IsDistinct s o.filename tt d)

names_of_iff :
    (ops : List Operation) (s : GoSet) (fname : Bytes)
    → Knows (names_of s ops) fname ↔ (Knows s fname ⊎ (mentions fname ops ≡ true))
unfolding name_op mentions
names_of_iff [] s fname = ((λ h. inl h), (λ h. elim h [ inl k ↦ k | inr z ↦ cc ]))
names_of_iff (o ∷ ops) s fname =
    let (to, from) = names_of_iff ops (put s o.filename tt) fname in
    let (was, is) = has-put s o.filename fname in
    elim (dec_bytes o.filename fname) [
      | yes same ↦ ((λ h. inr (ground arith)), (λ h. from (inl (is (inr (sym same))))))
      | no other ↦ (
        (λ h. elim (to h) [
          | inl k ↦ elim (was k) [ inl old ↦ inl old | inr e ↦ absurd (other (sym e)) ]
          | inr m ↦ inr (ground arith)
        ]),
        (λ h. elim h [ inl old ↦ from (inl (is (inl old))) | inr m ↦ from (inr (ground arith)) ]),
      )
    ]

-- A name that an operation of the chain has.
abbrev pub IsMentioned : Bytes → List Block → Type 0
IsMentioned fname bs = (o : Operation) × In o (chain_ops bs) × (o.filename ≡ fname)

pub mentions_iff :
    (fname : Bytes) (ops : List Operation)
    → (mentions fname ops ≡ true) ↔ ((o : Operation) × In o ops × (o.filename ≡ fname))
unfolding mentions
mentions_iff fname [] = ((λ h. absurd (cc)), (λ (o, i, e). absurd i))
mentions_iff fname (x ∷ ops) =
    let (to, from) = mentions_iff fname ops in
    elim (dec_bytes x.filename fname) [
      | yes same ↦ ((λ h. (x, inl refl, same)), (λ h. if_pos (dec_bytes x.filename fname) same _ _))
      | no other ↦ (
        (λ h. let (o, i, e) = to (ground arith) in (o, inr i, e)),
        (λ (o, i, e). elim i [
          | inl is ↦ absurd (other (ap (λ (z : Operation). z.filename) (sym is) ∙ e))
          | inr later ↦ let m = from (o, later, e) in ground arith
        ]),
      )
    ]

module _ (range : Order (Unit {0})) (bc bc' : Blockchain) (a : ℕ) (bs : List Block)
    (perm : IsRange range) (v : IsValid bc)
    (last : get_last_confirmed_node bc bc.config.confirms_per_file_create ≡ some (bc', some a))
    (c : IsChain bc.nodes (some a) bs) where
  list_files-names : list_files range bc ≡ some (bc', keys (range (names_of [] (chain_ops bs))))
  unfolding list_files filenames_from
  list_files-names =
      let tree = get_last_confirmed_node-tree bc bc' _ (some a) last in
      let run = for_parents-ops name_op bc a bs [] v c in
      ap (listed range) (
        read_confirmed [] filenames_from bc' a _ _ last
          (ap (λ t. filenames_from t a) tree ∙ rw (run, filenames_from)))

  -- On a valid tree with a confirmed node, `ListFiles` returns each name that an operation of its chain
  -- has, be it a creation, an append or a deletion, exactly once, and no other.
  pub list_files_iff :
      (names : List Bytes) × (list_files range bc ≡ some (bc', names))
      × IsDistinct names
      × ((fname : Bytes) → In fname names ↔ IsMentioned fname bs)
  list_files_iff =
      let set = names_of [] (chain_ops bs) in
      (
        keys (range set),
        list_files-names,
        keys_range-IsDistinct range set perm (names_of-IsDistinct (chain_ops bs) [] tt),
        (λ fname.
            let (here, there) = In-keys_range range set fname perm in
            let (knows, known) = In-keys_has set fname in
            let (to, from) = names_of_iff (chain_ops bs) [] fname in
            let (is, was) = mentions_iff fname (chain_ops bs) in
            (
              (λ h. elim (to (knows (here h))) [
                | inl z ↦ absurd (not-Knows-empty fname z)
                | inr m ↦ is m
              ]),
              (λ h. there (known (from (inr (was h))))),
            )),
      )

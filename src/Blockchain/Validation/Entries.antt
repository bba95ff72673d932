-- ===== src/Blockchain/Validation/Entries.antt =====
-- `opIds` as a map keyed by the IDs of the operations, and the miners that the first loop enters.
use miner.Prelude.{
  ◌≤◌, ◌<◌, ◌≡◌, refl, ◌⊎◌, inl, inr, some, List, [], ◌∷◌, map, foldl, length, arith, In, sym, ap,
}
use miner.Prelude.Int.{pos}
use miner.Prelude.Bytes.{Bytes, dec_bytes}
use miner.Prelude.GoMap.{
  GoMap, get, delete, get-put, get-delete, length-delete-le, length-delete-lt,
}
use miner.Settings.{Settings}
use miner.Operation.{Operation}
use miner.Blockchain.Validation.{Tally, enter, delete_all}
use miner.Blockchain.Validation.Balances.{spent_ops}
use miner.Blockchain.Validation.Survivors.{entries, ids}

pub length-delete_all-le :
    (m : GoMap Operation) (ks : List Bytes) → length (delete_all m ks) ≤ length m
unfolding delete_all
length-delete_all-le m [] = omega arith
length-delete_all-le m (k ∷ ks) =
    omega (arith, length-delete_all-le (delete m k) ks, length-delete-le m k)

pub length-delete_all-lt :
    (m : GoMap Operation) (ks : List Bytes) (k : Bytes) (v : Operation)
    → In k ks
    → get m k ≡ some v
    → length (delete_all m ks) < length m
unfolding delete_all
length-delete_all-lt m [] k v h e = absurd h
length-delete_all-lt m (j ∷ ks) k v h e = elim (dec_bytes j k) [
  | yes same ↦
      omega (arith, length-delete_all-le (delete m j) ks, length-delete-lt m j v (rw same e))
  | no other ↦ elim h [
    | inl is ↦ absurd (other (sym is))
    | inr later ↦ omega (
      arith,
      length-delete_all-lt (delete m j) ks k v later (ground (arith, get-delete m j k)),
      length-delete-le m j,
    )
  ]
]

pub get-entries_present :
    (ops : List Operation) (k : Bytes)
    → In k (ids ops)
    → (x : Operation) × (get (entries ops) k ≡ some x)
unfolding get
get-entries_present [] k h = absurd h
get-entries_present (o ∷ ops) k h = elim (dec_bytes o.operation_id k) [
  | yes same ↦ (o, ground arith)
  | no other ↦ elim h [
    | inl is ↦ absurd (other (sym is))
    | inr later ↦ let (x, e) = get-entries_present ops k later in (x, ground arith)
  ]
]

pub values-entries : (ops : List Operation) → map (λ e. e.1) (entries ops) ≡ ops
values-entries [] = refl
values-entries (o ∷ ops) = ap (◌∷◌ o) (values-entries ops)

-- The first loop sets the balance of every miner that pays to zero.
entered_keeps :
    (miner : Bytes) (t : Tally) (ops : List Operation)
    → get t.balances miner ≡ some (pos 0)
    → get (foldl enter t ops).balances miner ≡ some (pos 0)
entered_keeps miner t [] h = h
entered_keeps miner t (o ∷ ops) h =
    entered_keeps miner (enter t o) ops
      (unfold enter in ground (arith, get-put t.balances o.miner_id miner (pos 0)))

pub entered :
    (config : Settings) (miner : Bytes) (t : Tally) (ops : List Operation)
    → (spent_ops config miner ops ≡ 0) ⊎ (get (foldl enter t ops).balances miner ≡ some (pos 0))
unfolding spent_ops
entered config miner t [] = inl refl
entered config miner t (o ∷ ops) = elim (dec_bytes o.miner_id miner) [
  | yes same ↦ inr (
      entered_keeps miner (enter t o) ops
        (unfold enter in ground (arith, get-put t.balances o.miner_id miner (pos 0))))
  | no other ↦ elim (entered config miner (enter t o) ops) [
    | inl zero ↦ inl (ground arith)
    | inr at ↦ inr at
  ]
]

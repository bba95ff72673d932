-- ===== src/Prelude/Entries.antt =====
-- Entries of lists and of maps, found by position or by key.
use mathlib.Core.Path.{◌≡◌, sym, ap}
use mathlib.Core.Logic.{inl, inr}
use mathlib.Core.Option.{some}
use mathlib.Core.List.{List, [], ◌∷◌}
use Prim.Native.Nat.{ℕ, zero, suc}
use native.Mathlib.Omega.{arith}
use native.Mathlib.Decide.{ℕ_discrete}
use miner.Prelude.Bytes.{Bytes, dec_bytes}
use miner.Prelude.Lists.{In, IsDistinct, In-map, get_elem?}
use miner.Prelude.GoMap.{GoMap, get, keys}

pub get_of_In :
    {A : Type 0} (m : GoMap A) (k : Bytes) (v : A)
    → IsDistinct (keys m)
    → In (k, v) m
    → get m k ≡ some v
unfolding get
get_of_In {A} [] k v d h = absurd h
get_of_In {A} ((j, w) ∷ m) k v d (inl e) = ground arith
get_of_In {A} ((j, w) ∷ m) k v d (inr h) =
    let deep = In-map (λ (e : Bytes × A). e.0) (k, v) m h in
    let rest = get_of_In m k v d.1 h in
    elim (dec_bytes j k) [ yes same ↦ absurd (d.0 (rw same deep)) | no other ↦ ground arith ]

pub member_of_get : {A : Type 0} (m : GoMap A) (k : Bytes) (v : A) → get m k ≡ some v → In (k, v) m
unfolding get
member_of_get [] k v h = cc
member_of_get ((j, w) ∷ m) k v h = elim (dec_bytes j k) [
  | yes same ↦ inl (ground arith)
  | no other ↦ inr (member_of_get m k v (ground arith))
]

pub member_of_get_elem? :
    {A : Type 0} (xs : List A) (a : ℕ) (x : A) → get_elem? xs a ≡ some x → In x xs
member_of_get_elem? [] a x h = cc
member_of_get_elem? (y ∷ xs) zero x h = inl (ground arith)
member_of_get_elem? (y ∷ xs) (suc a) x h = inr (member_of_get_elem? xs a x h)

pub get_elem?_of_In :
    {A : Type 0} (xs : List A) (x : A) → In x xs → (a : ℕ) × (get_elem? xs a ≡ some x)
get_elem?_of_In [] x h = absurd h
get_elem?_of_In (y ∷ xs) x (inl e) = (0, ap some (sym e))
get_elem?_of_In (y ∷ xs) x (inr h) = let (a, at) = get_elem?_of_In xs x h in (suc a, at)

pub dec_entry : Discrete (Bytes × ℕ)
dec_entry (k, a) (j, b) = elim (dec_bytes k j) [
  | yes e ↦ elim (ℕ_discrete a b) [
    | yes e' ↦ yes (cc)
    | no ne ↦ no (λ h. ne (ap (λ (x : Bytes × ℕ). x.1) h))
  ]
  | no ne ↦ no (λ h. ne (ap (λ (x : Bytes × ℕ). x.0) h))
]

-- ===== src/Prelude/GoSet.antt =====
-- Go's `map[string]struct{}`, a set of strings.
use mathlib.Core.Path.{◌≡◌, sym}
use mathlib.Core.Logic.{◌⊎◌, ◌↔◌, inl, inr}
use mathlib.Core.Bool.{true}
use mathlib.Core.List.{List, [], ◌∷◌, foldl}
use native.Mathlib.Omega.{arith}
use miner.Prelude.Bytes.{Bytes, dec_bytes}
use miner.Prelude.Lists.{In, IsDistinct}
use miner.Prelude.GoMap.{GoMap, get, put, has, keys, get-put, put-IsDistinct}

abbrev pub GoSet : Type 0
GoSet = GoMap (Unit {0})

-- `Knows s x`: the set has the entry.
abbrev pub Knows : GoSet → Bytes → Type 0
Knows s x = has s x ≡ true

pub not-Knows-empty : (x : Bytes) → ¬ Knows [] x
unfolding get
not-Knows-empty x e = ground arith

pub In-keys_has : (m : GoSet) (x : Bytes) → In x (keys m) ↔ Knows m x
unfolding get
In-keys_has [] x = ((λ h. absurd h), λ h. cc)
In-keys_has ((k, v) ∷ m) x =
    let (to, from) = In-keys_has m x in
    elim (dec_bytes k x) [
      | yes same ↦ ((λ h. ground arith), (λ h. inl (sym same)))
      | no other ↦ (
        (λ h. elim h [ inl e ↦ absurd (other (sym e)) | inr later ↦ ground (arith, to later) ]),
        (λ h. inr (from (ground arith))),
      )
    ]

pub has-put : (m : GoSet) (k x : Bytes) → Knows (put m k tt) x ↔ (Knows m x ⊎ (x ≡ k))
has-put m k x = elim (dec_bytes k x) [
  | yes same ↦ ((λ h. inr (sym same)), (λ h. ground (arith, get-put m k x tt)))
  | no other ↦ (
    (λ h. inl (ground (arith, get-put m k x tt))),
    (λ h. elim h [ inl old ↦ ground (arith, get-put m k x tt) | inr e ↦ absurd (other (sym e)) ]),
  )
]

-- A loop that enters the members of a list.
abbrev pub put_all : GoSet → List Bytes → GoSet
put_all = foldl (λ m id. put m id tt)

pub put_all_iff :
    (ids : List Bytes) (s : GoSet) (x : Bytes) → Knows (put_all s ids) x ↔ (Knows s x ⊎ In x ids)
put_all_iff [] s x = ((λ h. inl h), (λ h. elim h [ inl y ↦ y | inr z ↦ absurd z ]))
put_all_iff (id ∷ ids) s x =
    let (to, from) = put_all_iff ids (put s id tt) x in
    let (to', from') = has-put s id x in
    (
      (λ h. elim (to h) [
        | inl k ↦ elim (to' k) [ inl old ↦ inl old | inr e ↦ inr (inl e) ]
        | inr later ↦ inr (inr later)
      ]),
      (λ h. elim h [
        | inl old ↦ from (inl (from' (inl old)))
        | inr i ↦ elim i [ inl e ↦ from (inl (from' (inr e))) | inr later ↦ from (inr later) ]
      ]),
    )

pub put_all-IsDistinct :
    (ids : List Bytes) (s : GoSet) → IsDistinct (keys s) → IsDistinct (keys (put_all s ids))
put_all-IsDistinct [] s d = d
put_all-IsDistinct (id ∷ ids) s d = put_all-IsDistinct ids (put s id tt) (put-IsDistinct s id tt d)

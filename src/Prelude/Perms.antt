-- ===== src/Prelude/Perms.antt =====
-- Permutations, for the order in which `range` visits a map.
use mathlib.Core.Logic.{∥∥₁_elim}
use native.Mathlib.Nat.{ℕ_set}
use mathlib.Core.List.{List, [], ◌∷◌, Perm, Permᴰ}
use miner.Prelude.Bytes.{Bytes, dec_bytes}
use mathlib.Core.HLevel.{⊥_prop, ×_prop, →_prop}
use mathlib.Core.List.Perm
use Prim.Native.Nat.{suc}
use mathlib.Core.Path.{◌≡◌, refl, ap, ◌∙◌, sym, subst}
use mathlib.Core.Logic.{inl, inr, ◌↔◌}
use miner.Prelude.GoMap.{GoMap, keys}
use miner.Prelude.Lists.{In, IsDistinct, length}

-- `range` visits every entry of a map once.
abbrev pub IsRange {ℓ} : {V : Type ℓ} → (GoMap V → GoMap V) → Type ℓ
IsRange {V = V} range = (m : GoMap V) → Perm (range m) m

length-permᴰ {ℓ} : {A : Type ℓ} {xs ys : List A} → Permᴰ xs ys → length xs ≡ length ys
length-permᴰ Permᴰ.nil = refl
length-permᴰ (Permᴰ.cons e r) = ap (λ n. suc n) (length-permᴰ r)
length-permᴰ (Permᴰ.swap e e') = refl
length-permᴰ (Permᴰ.trans r r') = length-permᴰ r ∙ length-permᴰ r'

pub length-perm {ℓ} : {A : Type ℓ} {xs ys : List A} → Perm xs ys → length xs ≡ length ys
length-perm p = ∥∥₁_elim p (ℕ_set _ _) length-permᴰ

pub In-permᴰ : {A : Type 0} (x : A) {xs ys : List A} → Permᴰ xs ys → In x xs → In x ys
In-permᴰ x Permᴰ.nil h = h
In-permᴰ x (Permᴰ.cons e r) (inl is) = inl (is ∙ e)
In-permᴰ x (Permᴰ.cons e r) (inr h) = inr (In-permᴰ x r h)
In-permᴰ x (Permᴰ.swap e e') (inl is) = inr (inl (is ∙ e))
In-permᴰ x (Permᴰ.swap e e') (inr (inl is)) = inl (is ∙ e')
In-permᴰ x (Permᴰ.swap e e') (inr (inr h)) = inr (inr h)
In-permᴰ x (Permᴰ.trans r r') h = In-permᴰ x r' (In-permᴰ x r h)

IsDistinct-permᴰ : {A : Type 0} {xs ys : List A} → Permᴰ xs ys → IsDistinct ys → IsDistinct xs
IsDistinct-permᴰ Permᴰ.nil d = tt
IsDistinct-permᴰ (Permᴰ.cons {b = y} {l₁ = xs} e r) d =
    ((λ m. d.0 (In-permᴰ y r (subst (λ z. In z xs) e m))), IsDistinct-permᴰ r d.1)
IsDistinct-permᴰ (Permᴰ.swap {l = l} e e') d = (
  λ m. elim m [
    | inl is ↦ d.0 (inl (sym e' ∙ sym is ∙ e))
    | inr deep ↦ d.1.0 (subst (λ z. In z l) e deep)
  ],
  (λ m. d.0 (inr (subst (λ z. In z l) e' m)), d.1.1),
)
IsDistinct-permᴰ (Permᴰ.trans r r') d = IsDistinct-permᴰ r (IsDistinct-permᴰ r' d)

IsDistinct-prop : {A : Type 0} (xs : List A) → IsProp (IsDistinct xs)
IsDistinct-prop [] = λ x y. refl
IsDistinct-prop (x ∷ xs) = ×_prop (→_prop ⊥_prop) (IsDistinct-prop xs)

pub IsDistinct-perm : {A : Type 0} (xs ys : List A) → Perm xs ys → IsDistinct ys → IsDistinct xs
IsDistinct-perm xs ys p d = ∥∥₁_elim p (IsDistinct-prop xs) (λ r. IsDistinct-permᴰ r d)

module _ {A : Type 0} (dec : Discrete A) where
  pub In-dec : (a : A) (xs : List A) → Dec (In a xs)
  In-dec a [] = no (λ h. h)
  In-dec a (x ∷ xs) = elim (dec a x) [
    | yes e ↦ yes (inl e)
    | no ne ↦ elim (In-dec a xs) [
      | yes m ↦ yes (inr m)
      | no n ↦ no (λ h. elim h [ inl e ↦ ne e | inr m ↦ n m ])
    ]
  ]

  -- Where entries can be compared, a permutation keeps membership.
  pub In-perm : (x : A) (xs ys : List A) → Perm xs ys → In x xs → In x ys
  In-perm x xs ys p h = elim (In-dec x ys) [
    | yes m ↦ m
    | no out ↦ absurd (∥∥₁_elim p ⊥_prop (λ r. out (In-permᴰ x r h)))
  ]

-- The keys of a map, in whatever order it is visited.
pub In-keys_range :
    {B : Type 0} (range : GoMap B → GoMap B) (m : GoMap B) (k : Bytes)
    → IsRange range
    → In k (keys (range m)) ↔ In k (keys m)
In-keys_range {B} range m k perm = (
  In-perm dec_bytes k (keys (range m)) (keys m) (Perm.map (λ (e : Bytes × B). e.0) (perm m)),
  In-perm dec_bytes k (keys m) (keys (range m))
      (Perm.symm (Perm.map (λ (e : Bytes × B). e.0) (perm m))),
)

pub keys_range-IsDistinct :
    {B : Type 0} (range : GoMap B → GoMap B) (m : GoMap B)
    → IsRange range
    → IsDistinct (keys m)
    → IsDistinct (keys (range m))
keys_range-IsDistinct {B} range m perm =
    IsDistinct-perm (keys (range m)) (keys m) (Perm.map (λ (e : Bytes × B). e.0) (perm m))

-- ===== src/Prelude/Pigeonhole.antt =====
-- Distinct numbers below `n` are at most `n`.
use Prim.Native.Nat.{ℕ, zero, suc, ◌+◌, ◌≤◌, ◌<◌}
use mathlib.Core.Path.{◌≡◌, refl, ◌∙◌, sym, ap, subst}
use mathlib.Core.Logic.{inl, inr, ◌⊎◌, ite}
use mathlib.Core.List.{List, [], ◌∷◌}
use native.Mathlib.Omega.{arith}
use native.Mathlib.Decide.{ℕ_discrete}
use miner.Prelude.Lists.{In, IsDistinct, length}

remove : ℕ → List ℕ → List ℕ
remove k [] = []
remove k (x ∷ xs) = ite (ℕ_discrete x k) xs (x ∷ remove k xs)

In-remove : (k y : ℕ) (xs : List ℕ) → In y (remove k xs) → In y xs
unfolding remove
In-remove k y [] h = h
In-remove k y (x ∷ xs) h = ground (arith, In-remove k y xs)

remove-IsDistinct : (k : ℕ) (xs : List ℕ) → IsDistinct xs → IsDistinct (remove k xs)
unfolding remove
remove-IsDistinct k [] d = d
remove-IsDistinct k (x ∷ xs) d = ground (arith, remove-IsDistinct k xs d.1, In-remove k x xs)

not-In-remove : (k : ℕ) (xs : List ℕ) → IsDistinct xs → ¬ In k (remove k xs)
unfolding remove
not-In-remove k [] d = λ h. h
not-In-remove k (x ∷ xs) d = ground (arith, not-In-remove k xs d.1)

length-remove : (k : ℕ) (xs : List ℕ) → length xs ≤ length (remove k xs) + 1
unfolding remove
length-remove k [] = omega arith
length-remove k (x ∷ xs) = ground (arith, length-remove k xs)

pub pigeonhole : (n : ℕ) (xs : List ℕ) → IsDistinct xs → ((x : ℕ) → In x xs → x < n) → length xs ≤ n
pigeonhole zero [] d below = omega arith
pigeonhole zero (x ∷ xs) d below = absurd (omega (arith, below x (inl refl)))
pigeonhole (suc n) xs d below =
    omega (arith, length-remove n xs, pigeonhole n (remove n xs) (remove-IsDistinct n xs d) smaller)
  where
    smaller : (x : ℕ) → In x (remove n xs) → x < n
    smaller x h = elim (ℕ_discrete x n) [
      | yes e ↦ absurd (not-In-remove n xs d (rw e at h))
      | no other ↦ omega (arith, below x (In-remove n x xs h))
    ]

take_out :
    {A : Type 0} (a : A) (ys : List A)
    → In a ys
    → (ys' : List A) × (length ys ≡ suc (length ys')) × ((x : A) → In x ys → (x ≡ a) ⊎ In x ys')
take_out a [] i = absurd i
take_out a (y ∷ ys) (inl e) =
    (ys, refl, (λ x h. elim h [ inl e' ↦ inl (e' ∙ sym e) | inr later ↦ inr later ]))
take_out a (y ∷ ys) (inr i) =
    let (ys', len, cases) = take_out a ys i in
    (
      y ∷ ys',
      ap (λ n. suc n) len,
      (λ x h. elim h [
        | inl e ↦ inr (inl e)
        | inr later ↦ elim (cases x later) [ inl e ↦ inl e | inr j ↦ inr (inr j) ]
      ]),
    )

-- A list without repetition is no longer than a list that has all its members.
pub IsDistinct-length :
    {A : Type 0} (xs ys : List A)
    → IsDistinct xs
    → ((x : A) → In x xs → In x ys)
    → length xs ≤ length ys
IsDistinct-length [] ys d sub = omega arith
IsDistinct-length (x ∷ xs) ys d sub =
    let (ys', len, cases) = take_out x ys (sub x (inl refl)) in
    let rest : length xs ≤ length ys' = IsDistinct-length xs ys' d.1 (λ z i.
      elim (cases z (sub z (inr i))) [
        | inl e ↦ absurd (d.0 (subst (λ y. In y xs) e i))
        | inr j ↦ j
      ]) in
    omega (arith, len, rest)

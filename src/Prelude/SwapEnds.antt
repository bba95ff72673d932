-- ===== src/Prelude/SwapEnds.antt =====
-- The loops that swap the ends of a slice: that of GetFile in bclib/blockchain_rfs.go, with two
-- indices, and that of GetPreviousBlocks in p2p/blockchain_manager.go, up to the middle.
use Prim.Native.Nat.{ℕ, zero, suc, ◌+◌, ◌-◌, ◌/◌, ◌≤◌, ◌<◌}
use mathlib.Core.Path.{◌≡◌, refl, ◌∙◌, sym, ap}
use mathlib.Core.Logic.{◌⊎◌, ◌≢◌, inl, inr}
use mathlib.Core.Option.{Option, none, some}
use mathlib.Core.List.{List, [], ◌∷◌, reverse, reverse-cons}
use native.Mathlib.Omega.{arith}
use native.Mathlib.Decide.{ℕ_discrete, dec_lt}
use miner.Prelude.Tests.{ltb, if◌then◌else◌, lt→ltb, Option-cases}
use miner.Prelude.Lists.{
  length, get_elem?, set, length-set, length-append, get_elem?-some, get_elem?-set_self,
  get_elem?-set_ne, get_elem?-append_left, get_elem?-append_last, lt-length_of_get_elem?,
}

module _ {A : Type 0} where
  abbrev swap_both : List A → ℕ → ℕ → Option A → Option A → List A
  swap_both xs i j (some x) (some y) = set (set xs i y) j x
  swap_both xs i j _ _ = xs

  -- xs[i], xs[j] = xs[j], xs[i], for indices within the slice
  unfoldable pub swap : List A → ℕ → ℕ → List A
  swap xs i j = swap_both xs i j (get_elem? xs i) (get_elem? xs j)

  -- for i < j; each round takes one off `j`, so that `j` rounds are enough
  unfoldable pub swap_from : ℕ → ℕ → ℕ → List A → List A
  unfolding swap
  swap_from zero i j xs = xs
  swap_from (suc n) i j xs =
      let rest = swap_from n (i + 1) (j - 1) (swap xs i j) in if ltb i j then rest else xs

  -- On an empty slice `j` is -1 in the code, and no round is made either.
  unfoldable pub swap_ends : List A → List A
  unfolding swap_from
  swap_ends xs = swap_from (length xs) 0 (length xs - 1) xs

  -- for i < len(xs)/2, of which there are no more rounds than entries
  unfoldable pub swap_half_from : ℕ → ℕ → List A → List A
  unfolding swap
  swap_half_from zero i xs = xs
  swap_half_from (suc n) i xs =
      let rest = swap_half_from n (i + 1) (swap xs i (length xs - i - 1)) in
      if ltb i (length xs / 2) then rest else xs

  unfoldable pub swap_half : List A → List A
  unfolding swap_half_from
  swap_half xs = swap_half_from (length xs) 0 xs

  length-swap_both :
      (xs : List A) (i j : ℕ) (a b : Option A) → length (swap_both xs i j a b) ≡ length xs
  length-swap_both xs i j (some x) (some y) = length-set (set xs i y) j x ∙ length-set xs i y
  length-swap_both xs i j (some x) none = refl
  length-swap_both xs i j none b = refl

  length-swap : (xs : List A) (i j : ℕ) → length (swap xs i j) ≡ length xs
  unfolding swap
  length-swap xs i j = length-swap_both xs i j (get_elem? xs i) (get_elem? xs j)

  module _ (xs : List A) (i j : ℕ) (lt : i < j) (below : j < length xs) where
    swap-set :
        (x y : A) × (get_elem? xs i ≡ some x)
        × (get_elem? xs j ≡ some y)
        × (swap xs i j ≡ set (set xs i y) j x)
    unfolding swap
    swap-set =
        let (x, at_i) = get_elem?-some xs i (omega arith) in
        let (y, at_j) = get_elem?-some xs j below in (x, y, at_i, at_j, rw (at_i, at_j, swap))

    swap-first : get_elem? (swap xs i j) i ≡ get_elem? xs j
    swap-first =
        let (x, y, at_i, at_j, is) = swap-set in
        ap (λ l. get_elem? l i) is
        ∙ get_elem?-set_ne (set xs i y) j i x (λ e. omega (arith, e))
        ∙ get_elem?-set_self xs i y (omega arith)
        ∙ sym at_j

    swap-second : get_elem? (swap xs i j) j ≡ get_elem? xs i
    swap-second =
        let (x, y, at_i, at_j, is) = swap-set in
        ap (λ l. get_elem? l j) is
        ∙ get_elem?-set_self (set xs i y) j x (omega (arith, length-set xs i y))
        ∙ sym at_i

    swap-other : (p : ℕ) → i ≢ p → j ≢ p → get_elem? (swap xs i j) p ≡ get_elem? xs p
    swap-other p ne ne' =
        let (x, y, at_i, at_j, is) = swap-set in
        ap (λ l. get_elem? l p) is
        ∙ get_elem?-set_ne (set xs i y) j p x ne'
        ∙ get_elem?-set_ne xs i p y ne

  swap_from-outside :
      (n i j : ℕ) (xs : List A) (p : ℕ)
      → j < length xs
      → (p < i) ⊎ (j < p)
      → get_elem? (swap_from n i j xs) p ≡ get_elem? xs p
  unfolding swap_from
  swap_from-outside zero i j xs p below out = refl
  swap_from-outside (suc n) i j xs p below out = elim (dec_lt i j) [
    | yes lt ↦
        rw (lt→ltb i j lt, swap_from)
          (swap_from-outside n (i + 1) (j - 1) (swap xs i j) p (omega (arith, length-swap xs i j))
              (elim out [ inl l ↦ inl (omega arith) | inr r ↦ inr (omega arith) ])
            ∙ swap-other xs i j lt below p (λ e. omega (arith, e, out))
                (λ e. omega (arith, e, out)))
    | no stop ↦ ground arith
  ]

  -- Within the indices the entries are turned round.
  swap_from-inside :
      (n i j : ℕ) (xs : List A) (p : ℕ)
      → j < length xs
      → j ≤ n + i
      → i ≤ p
      → p ≤ j
      → get_elem? (swap_from n i j xs) p ≡ get_elem? xs (i + j - p)
  unfolding swap_from
  swap_from-inside zero i j xs p below fuel low high =
      let is : p ≡ i + j - p = omega arith in ap (get_elem? xs) is
  swap_from-inside (suc n) i j xs p below fuel low high = elim (dec_lt i j) [
    | yes lt ↦
        let len = length-swap xs i j in
        let outside = swap_from-outside n (i + 1) (j - 1) (swap xs i j) p (omega (arith, len)) in
        rw (lt→ltb i j lt, swap_from)
          (elim (ℕ_discrete p i) [
            | yes first ↦
                let back : j ≡ i + j - p = omega arith in
                outside (inl (omega arith))
                ∙ ap (get_elem? (swap xs i j)) first
                ∙ swap-first xs i j lt below
                ∙ ap (get_elem? xs) back
            | no later ↦ elim (ℕ_discrete p j) [
              | yes last ↦
                  let back : i ≡ i + j - p = omega arith in
                  outside (inr (omega arith))
                  ∙ ap (get_elem? (swap xs i j)) last
                  ∙ swap-second xs i j lt below
                  ∙ ap (get_elem? xs) back
              | no earlier ↦
                  let back : i + 1 + (j - 1) - p ≡ i + j - p = omega arith in
                  swap_from-inside n (i + 1) (j - 1) (swap xs i j) p (omega (arith, len))
                    (omega arith) (omega arith) (omega arith)
                  ∙ ap (get_elem? (swap xs i j)) back
                  ∙ swap-other xs i j lt below (i + j - p) (λ e. omega (arith, e))
                      (λ e. omega (arith, e))
            ]
          ])
    | no stop ↦ let is : p ≡ i + j - p = omega arith in ground (arith, ap (get_elem? xs) is)
  ]

  get_elem?-ext : (xs ys : List A) → ((p : ℕ) → get_elem? xs p ≡ get_elem? ys p) → xs ≡ ys
  get_elem?-ext [] [] same = refl
  get_elem?-ext [] (y ∷ ys) same = absurd (cc (same 0))
  get_elem?-ext (x ∷ xs) [] same = absurd (cc (same 0))
  get_elem?-ext (x ∷ xs) (y ∷ ys) same =
      let first : some x ≡ some y = same 0 in
      let rest = get_elem?-ext xs ys (λ p. same (suc p)) in cc

  pub length-reverse : (xs : List A) → length (reverse xs) ≡ length xs
  length-reverse [] = refl
  length-reverse (x ∷ xs) =
      ap length (reverse-cons x xs)
      ∙ length-append (reverse xs) (x ∷ [])
      ∙ omega (arith, length-reverse xs)

  get_elem?-reverse :
      (xs : List A) (p : ℕ)
      → p < length xs
      → get_elem? (reverse xs) p ≡ get_elem? xs (length xs - 1 - p)
  get_elem?-reverse [] p lt = absurd (omega arith)
  get_elem?-reverse (x ∷ xs) p lt = elim (ℕ_discrete p (length xs)) [
    | yes last ↦
        let front : 0 ≡ suc (length xs) - 1 - p = omega arith in
        ap (λ l. get_elem? l p) (reverse-cons x xs)
        ∙ get_elem?-append_last (reverse xs) x p (omega (arith, last, length-reverse xs))
        ∙ ap (get_elem? (x ∷ xs)) front
    | no earlier ↦
        let deeper : suc (length xs - 1 - p) ≡ suc (length xs) - 1 - p = omega arith in
        ap (λ l. get_elem? l p) (reverse-cons x xs)
        ∙ get_elem?-append_left (reverse xs) (x ∷ []) p (omega (arith, length-reverse xs))
        ∙ get_elem?-reverse xs p (omega arith)
        ∙ ap (get_elem? (x ∷ xs)) deeper
  ]

  get_elem?-none : (xs : List A) (p : ℕ) → length xs ≤ p → get_elem? xs p ≡ none
  get_elem?-none xs p h = elim (Option-cases (get_elem? xs p)) [
    | inl out ↦ out
    | inr (x, at) ↦ absurd (omega (arith, h, lt-length_of_get_elem? xs p x at))
  ]

  -- The loop of `GetFile` that swaps the ends reverses a slice.
  pub swap_ends-reverse : (xs : List A) → swap_ends xs ≡ reverse xs
  unfolding swap_ends
  swap_ends-reverse [] = refl
  swap_ends-reverse (x ∷ xs) = get_elem?-ext _ _ (λ p.
      let l = x ∷ xs in
      elim (dec_lt p (length l)) [
        | yes lt ↦
            let back : 0 + (length l - 1) - p ≡ length l - 1 - p = omega arith in
            swap_from-inside (length l) 0 (length l - 1) l p (omega arith) (omega arith)
              (omega arith) (omega arith)
            ∙ ap (get_elem? l) back
            ∙ sym (get_elem?-reverse l p lt)
        | no out ↦
            swap_from-outside (length l) 0 (length l - 1) l p (omega arith) (inr (omega arith))
            ∙ get_elem?-none l p (omega arith)
            ∙ sym (get_elem?-none (reverse l) p (omega (arith, length-reverse l)))
      ])

  swap_half_from-swap_from :
      (n i : ℕ) (xs : List A) → swap_half_from n i xs ≡ swap_from n i (length xs - i - 1) xs
  unfolding swap_half_from swap_from
  swap_half_from-swap_from zero i xs = refl
  swap_half_from-swap_from (suc n) i xs = elim (dec_lt i (length xs / 2)) [
    | yes lt ↦
        let lt' : i < length xs - i - 1 = omega arith in
        let j = length xs - i - 1 in
        let next : length (swap xs i j) - (i + 1) - 1 ≡ j - 1 = omega (arith, length-swap xs i j) in
        rw
          (lt→ltb i (length xs / 2) lt, swap_half_from, lt→ltb i (length xs - i - 1) lt', swap_from)
          (swap_half_from-swap_from n (i + 1) (swap xs i j)
            ∙ ap (λ k. swap_from n (i + 1) k (swap xs i j)) next)
    | no stop ↦ ground arith
  ]

  -- The loop of `GetPreviousBlocks` does, too.
  pub swap_half-reverse : (xs : List A) → swap_half xs ≡ reverse xs
  unfolding swap_half swap_ends
  swap_half-reverse xs =
      let idx : length xs - 0 - 1 ≡ length xs - 1 = omega arith in
      swap_half_from-swap_from (length xs) 0 xs
      ∙ ap (λ k. swap_from (length xs) 0 k xs) idx
      ∙ swap_ends-reverse xs

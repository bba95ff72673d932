-- ===== src/Prelude/GoMap.antt =====
-- Go's `map[string]V` as an association list with distinct keys. `range` visits the keys in an order
-- that Go leaves open, so a function that ranges over a map takes that order as an argument.
use mathlib.Core.Path.{◌≡◌, refl, ◌∙◌}
use mathlib.Core.Logic.{◌≢◌, ◌⊎◌, inl, inr, ite}
use mathlib.Core.Bool.{Bool, true, false}
use mathlib.Core.Option.{Option, none, some}
use mathlib.Core.List.{List, [], ◌∷◌, ◌++◌, map}
use Prim.Native.Nat.{◌+◌, ◌≤◌, ◌<◌}
use native.Mathlib.Omega.{arith}
use miner.Prelude.Bytes.{Bytes, dec_bytes}
use miner.Prelude.Tests.{Option-cases}
use miner.Prelude.Lists.{In, IsDistinct, length}

abbrev pub GoMap {ℓ} : Type ℓ → Type ℓ
GoMap V = List (Bytes × V)

module _ {ℓ} {V : Type ℓ} where
  -- v, ok := m[k]
  unfoldable pub get : GoMap V → Bytes → Option V
  get [] k = none
  get ((j, v) ∷ m) k = ite (dec_bytes j k) (some v) (get m k)

  -- m[k] = v
  unfoldable pub put : GoMap V → Bytes → V → GoMap V
  put [] k v = (k, v) ∷ []
  put ((j, w) ∷ m) k v = ite (dec_bytes j k) ((k, v) ∷ m) ((j, w) ∷ put m k v)

  -- delete(m, k)
  unfoldable pub delete : GoMap V → Bytes → GoMap V
  delete [] k = []
  delete ((j, w) ∷ m) k = ite (dec_bytes j k) (delete m k) ((j, w) ∷ delete m k)

  -- _, ok := m[k]
  abbrev pub is_some : Option V → Bool
  is_some none = false
  is_some (some v) = true

  abbrev pub has : GoMap V → Bytes → Bool
  has m k = is_some (get m k)

  abbrev pub keys : GoMap V → List Bytes
  keys m = map (λ e. e.0) m

  pub get-put :
      (m : GoMap V) (k j : Bytes) (v : V)
      → get (put m k v) j ≡ ite (dec_bytes k j) (some v) (get m j)
  unfolding get put
  get-put [] k j v = refl
  get-put ((i, w) ∷ m) k j v = ground (arith, get-put m k j v)

  pub get-delete :
      (m : GoMap V) (k j : Bytes) → get (delete m k) j ≡ ite (dec_bytes k j) none (get m j)
  unfolding get delete
  get-delete [] k j = ground arith
  get-delete ((i, w) ∷ m) k j = ground (arith, get-delete m k j)

  pub get-put_self : (m : GoMap V) (k : Bytes) (v : V) → get (put m k v) k ≡ some v
  get-put_self m k v = ground (arith, get-put m k k v)

  pub get-put_ne : (m : GoMap V) (k j : Bytes) (v : V) → k ≢ j → get (put m k v) j ≡ get m j
  get-put_ne m k j v h = ground (arith, get-put m k j v)

  pub keys-put :
      (m : GoMap V) (k j : Bytes) (v : V) → In j (keys (put m k v)) → (j ≡ k) ⊎ In j (keys m)
  unfolding put
  keys-put [] k j v h = h
  keys-put ((i, w) ∷ m) k j v h = ground (arith, keys-put m k j v)

  pub put-IsDistinct :
      (m : GoMap V) (k : Bytes) (v : V) → IsDistinct (keys m) → IsDistinct (keys (put m k v))
  unfolding put
  put-IsDistinct [] k v d = (λ h. h, tt)
  put-IsDistinct ((i, w) ∷ m) k v d = ground (arith, put-IsDistinct m k v d.1, keys-put m k i v)

  -- The key is new, so the map grows by one entry.
  pub length-put :
      (m : GoMap V) (k : Bytes) (v : V) → get m k ≡ none → length (put m k v) ≡ length m + 1
  unfolding get put
  length-put [] k v h = omega arith
  length-put ((i, w) ∷ m) k v h = ground (arith, length-put m k v)

  pub put_absent : (m : GoMap V) (k : Bytes) (v : V) → get m k ≡ none → put m k v ≡ m ++ (k, v) ∷ []
  unfolding get put
  put_absent [] k v h = refl
  put_absent ((i, w) ∷ m) k v h = ground (arith, put_absent m k v)

  pub length-put_present :
      (m : GoMap V) (k : Bytes) (v w : V) → get m k ≡ some w → length (put m k v) ≡ length m
  unfolding get put
  length-put_present [] k v w h = cc
  length-put_present ((i, x) ∷ m) k v w h = ground (arith, length-put_present m k v w)

  pub delete_absent : (m : GoMap V) (k : Bytes) → get m k ≡ none → delete m k ≡ m
  unfolding get delete
  delete_absent [] k h = refl
  delete_absent ((i, w) ∷ m) k h = ground (arith, delete_absent m k)

  pub length-delete-le : (m : GoMap V) (k : Bytes) → length (delete m k) ≤ length m
  unfolding delete
  length-delete-le [] k = omega arith
  length-delete-le ((i, w) ∷ m) k = ground (arith, length-delete-le m k)

  pub length-delete-lt :
      (m : GoMap V) (k : Bytes) (v : V) → get m k ≡ some v → length (delete m k) < length m
  unfolding get delete
  length-delete-lt [] k v h = cc
  length-delete-lt ((i, w) ∷ m) k v h = ground (arith, length-delete-lt m k v, length-delete-le m k)

  pub length-put-le : (m : GoMap V) (k : Bytes) (v : V) → length (put m k v) ≤ length m + 1
  unfolding put
  length-put-le [] k v = omega arith
  length-put-le ((i, w) ∷ m) k v = ground (arith, length-put-le m k v)

  -- One map came from another by deletions: it is the same, or it is smaller.
  abbrev pub Shrinks : GoMap V → GoMap V → Type ℓ
  Shrinks m m' = (m' ≡ m) ⊎ (length m' < length m)

  pub Shrinks-trans : (m m' m'' : GoMap V) → Shrinks m m' → Shrinks m' m'' → Shrinks m m''
  Shrinks-trans m m' m'' (inl e) (inl e') = inl (e' ∙ e)
  Shrinks-trans m m' m'' (inl e) (inr lt) = inr (rw (← e) lt)
  Shrinks-trans m m' m'' (inr lt) (inl e) = inr (rw e lt)
  Shrinks-trans m m' m'' (inr lt) (inr lt') = inr (omega arith)

  pub Shrinks-delete : (m : GoMap V) (k : Bytes) → Shrinks m (delete m k)
  Shrinks-delete m k = elim (Option-cases (get m k)) [
    | inl gone ↦ inl (delete_absent m k gone)
    | inr (v, here) ↦ inr (length-delete-lt m k v here)
  ]

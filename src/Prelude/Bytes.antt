-- ===== src/Prelude/Bytes.antt =====
-- A Go `string` and a `[]byte` are byte sequences; a conversion between them changes nothing.
use Prim.Native.Nat.{ℕ}
use mathlib.Core.List.{List}
use native.Mathlib.Decide.{ℕ_discrete}

abbrev pub Bytes : Type 0
Bytes = List ℕ

unfoldable pub dec_bytes : Discrete Bytes
unfolding ℕ_discrete
dec_bytes = hlevel ℕ_discrete

-- ===== src/Base/Arrays.antt =====
-- Arrays of a fixed size, as functions of the index. The code that is modelled with them computes
-- each index within the size.
use Prim.Native.Nat.{ℕ, zero, suc, ◌+◌, ◌%◌}
use mathlib.Core.List.{List, [], ◌∷◌}
use supertooth.Base.Tests.{◌==◌, if◌then◌else◌}

abbrev pub Array {ℓ} : Type ℓ → Type ℓ
Array A = ℕ → A

module _ {ℓ} {A : Type ℓ} where
  abbrev pub update : Array A → ℕ → A → Array A
  update f i v j = if j == i then v else f j

  abbrev pub filled : A → Array A
  filled v j = v

  -- The `n` elements from `i` on, in an array that is used as a ring of `size`.
  abbrev pub ring_from : ℕ → Array A → ℕ → ℕ → List A
  ring_from size f i zero = []
  ring_from size f i (suc n) = f (i % size) ∷ ring_from size f (i + 1) n

-- ===== src/Base/Words.antt =====
-- Words of fixed width, the shifts and the masks of C, and `memcpy` on arrays.
use Prim.Native.Nat.{ℕ, ◌*◌, ◌/◌, ◌%◌, ◌^◌, ◌<◌, ◌≤◌}
use mathlib.Core.Path.{◌≡◌}
use mathlib.Core.Bool.{Bool, true, false}
use mathlib.Core.List.{List, [], ◌∷◌, ◌++◌}
use native.Mathlib.Omega.{arith}
use supertooth.Base.Lists.{length, get_or, take, drop, length-take, length-drop, length-append}

abbrev pub u8 : ℕ → ℕ
u8 n = n % 2 ^ 8

abbrev pub u16 : ℕ → ℕ
u16 n = n % 2 ^ 16

abbrev pub u32 : ℕ → ℕ
u32 n = n % 2 ^ 32

abbrev pub u64 : ℕ → ℕ
u64 n = n % 2 ^ 64

infixl 75 ◌<<<◌ ◌>>>◌
abbrev pub ◌<<<◌ : ℕ → ℕ → ℕ
x <<< k = x * 2 ^ k

abbrev pub ◌>>>◌ : ℕ → ℕ → ℕ
x >>> k = x / 2 ^ k

-- The value of a comparison.
abbrev pub flag : Bool → ℕ
flag true = 1
flag false = 0

-- An array of bytes.
abbrev pub Bytes : Type 0
Bytes = List ℕ

-- The entry at an index; a read behind the end, which C leaves undefined, gives 0.
abbrev pub at : Bytes → ℕ → ℕ
at xs i = get_or xs i 0

abbrev pub AreBytes : Bytes → Type 0
AreBytes [] = Unit
AreBytes (x ∷ xs) = (x < 256) × AreBytes xs

-- `memcpy(dst, src, n)`: the first `n` entries are `src`'s, the rest stays.
abbrev pub memcpy : Bytes → Bytes → ℕ → Bytes
memcpy dst src n = take n src ++ drop n dst

-- It keeps the size of the target, if both arrays hold `n` entries.
pub length-memcpy :
    (dst src : Bytes) (n : ℕ)
    → n ≤ length dst
    → n ≤ length src
    → length (memcpy dst src n) ≡ length dst
length-memcpy dst src n p q =
    omega (arith, length-append (take n src) (drop n dst), length-take n src, length-drop n dst)

-- ===== src/Base/Bits.antt =====
-- The binary digits of a number, and what `&`, `|` and `^` do to each of them, at every width.
use Prim.Native.Nat.{ℕ, zero, suc, ◌+◌, ◌-◌, ◌*◌, ◌/◌, ◌%◌, ◌≤◌, ◌<◌, min, max}
use Prim.Native.Nat.{bit_and, bit_or, bit_xor, digits, bitwise, differ}
use Prim.Native.Nat.{bit_and-bitwise, bit_or-bitwise, bit_xor-bitwise}
use mathlib.Core.Path.{◌≡◌, refl, sym, ap, ◌∙◌}
use native.Mathlib.Omega.{arith}

-- The digit at place `i`.
abbrev pub bit : ℕ → ℕ → ℕ
bit x zero = x % 2
bit x (suc i) = bit (x / 2) i

pub bit-lt : (x i : ℕ) → bit x i < 2
bit-lt x zero = omega arith
bit-lt x (suc i) = bit-lt (x / 2) i

-- What the three native operators have in common: each is `bitwise` for its `z` and `f`, a recursion
-- on fuel.
module _ (z : ℕ → ℕ) (f : ℕ → ℕ → ℕ) (op : ℕ → ℕ → ℕ)
    (meaning : (x y : ℕ) → op x y ≡ bitwise z f x y)
    (low : (y : ℕ) → z y ≡ z (y / 2) * 2 + f 0 (y % 2)) where
  one_more : (n y x : ℕ) → x ≤ n → digits z f (suc n) x y ≡ digits z f n x y
  one_more n y zero h = at_zero n
    where
      at_zero : (k : ℕ) → digits z f (suc k) 0 y ≡ digits z f k 0 y
      at_zero zero = refl
      at_zero (suc k) = refl
  one_more zero y (suc x) h = absurd (omega arith)
  one_more (suc n) y (suc x) h =
      ap (λ t. t * 2 + f (suc x % 2) (y % 2)) (one_more n (y / 2) (suc x / 2) (omega arith))

  settled : (extra x y : ℕ) → digits z f (extra + x) x y ≡ bitwise z f x y
  settled zero x y = let e : 0 + x ≡ x = omega arith in ap (λ t. digits z f t x y) e
  settled (suc extra) x y =
      let e : suc extra + x ≡ suc (extra + x) = omega arith in
      ap (λ t. digits z f t x y) e ∙ one_more (extra + x) y x (omega arith) ∙ settled extra x y

  operator_step : (x y : ℕ) → op x y ≡ op (x / 2) (y / 2) * 2 + f (x % 2) (y % 2)
  operator_step zero y =
      meaning 0 y ∙ low y ∙ ap (λ t. t * 2 + f 0 (y % 2)) (sym (meaning 0 (y / 2)))
  operator_step (suc x) y =
      let half = suc x / 2 in
      let spare : x ≡ x - half + half = omega arith in
      meaning (suc x) y
      ∙ ap (λ t. digits z f t half (y / 2) * 2 + f (suc x % 2) (y % 2)) spare
      ∙ ap (λ t. t * 2 + f (suc x % 2) (y % 2))
          (settled (x - half) half (y / 2) ∙ sym (meaning half (y / 2)))

-- One digit at a time.
pub bit_and_step : (a b : ℕ) → bit_and a b ≡ bit_and (a / 2) (b / 2) * 2 + min (a % 2) (b % 2)
bit_and_step = operator_step (λ y. 0) min bit_and bit_and-bitwise (λ y. omega arith)

pub bit_or_step : (a b : ℕ) → bit_or a b ≡ bit_or (a / 2) (b / 2) * 2 + max (a % 2) (b % 2)
bit_or_step = operator_step (λ y. y) max bit_or bit_or-bitwise (λ y. omega arith)

differ_parity : (x y : ℕ) → x < 2 → y < 2 → differ x y ≡ (x + y) % 2
differ_parity zero y p q = omega arith
differ_parity (suc zero) zero p q = refl
differ_parity (suc zero) (suc zero) p q = refl
differ_parity (suc zero) (suc (suc y)) p q = absurd (omega arith)
differ_parity (suc (suc x)) y p q = absurd (omega arith)

pub bit_xor_step : (a b : ℕ) → bit_xor a b ≡ bit_xor (a / 2) (b / 2) * 2 + (a % 2 + b % 2) % 2
bit_xor_step a b =
    operator_step (λ y. y) differ bit_xor bit_xor-bitwise low_digit a b
    ∙ ap (λ t. bit_xor (a / 2) (b / 2) * 2 + t)
        (differ_parity (a % 2) (b % 2) (omega arith) (omega arith))
  where
    low_digit : (y : ℕ) → y ≡ y / 2 * 2 + differ 0 (y % 2)
    low_digit y = omega (arith, differ_parity 0 (y % 2) (omega arith) (omega arith))

-- The digits of the results.
pub bit-bit_and : (a b i : ℕ) → bit (bit_and a b) i ≡ min (bit a i) (bit b i)
bit-bit_and a b zero = omega (arith, bit_and_step a b)
bit-bit_and a b (suc i) =
    let half : bit_and a b / 2 ≡ bit_and (a / 2) (b / 2) = omega (arith, bit_and_step a b) in
    rw half (bit-bit_and (a / 2) (b / 2) i)

pub bit-bit_or : (a b i : ℕ) → bit (bit_or a b) i ≡ max (bit a i) (bit b i)
bit-bit_or a b zero = omega (arith, bit_or_step a b)
bit-bit_or a b (suc i) =
    let half : bit_or a b / 2 ≡ bit_or (a / 2) (b / 2) = omega (arith, bit_or_step a b) in
    rw half (bit-bit_or (a / 2) (b / 2) i)

pub bit-bit_xor : (a b i : ℕ) → bit (bit_xor a b) i ≡ (bit a i + bit b i) % 2
bit-bit_xor a b zero = omega (arith, bit_xor_step a b)
bit-bit_xor a b (suc i) =
    let half : bit_xor a b / 2 ≡ bit_xor (a / 2) (b / 2) = omega (arith, bit_xor_step a b) in
    rw half (bit-bit_xor (a / 2) (b / 2) i)

pub bit-zero : (i : ℕ) → bit 0 i ≡ 0
bit-zero zero = refl
bit-zero (suc i) = bit-zero i

-- Numbers with the same digits are equal; `n` bounds both.
bit_ext_below : (n a b : ℕ) → a ≤ n → b ≤ n → ((i : ℕ) → bit a i ≡ bit b i) → a ≡ b
bit_ext_below zero a b p q h = omega arith
bit_ext_below (suc n) a b p q h =
    let halves : a / 2 ≡ b / 2 =
      bit_ext_below n (a / 2) (b / 2) (omega arith) (omega arith) (λ i. h (suc i)) in
    let low : a % 2 ≡ b % 2 = h 0 in omega arith

pub bit_ext : (a b : ℕ) → ((i : ℕ) → bit a i ≡ bit b i) → a ≡ b
bit_ext a b h = bit_ext_below (a + b) a b (omega arith) (omega arith) h

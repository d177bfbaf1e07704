-- ===== src/Base/Masks.antt =====
-- Masks, fields joined by `|`, and single digits.
use Prim.Native.Nat.{ℕ, zero, suc, ◌+◌, ◌-◌, ◌*◌, ◌/◌, ◌%◌, ◌^◌, ◌<◌, ◌≤◌, bit_and, bit_or, bit_xor}
use mathlib.Core.Path.{◌≡◌, refl, ap, ap₂, sym, ◌∙◌}
use native.Mathlib.Nat.{pow-suc, one-le-pow}
use native.Mathlib.Numerals.{add-one}
use native.Mathlib.Omega.{arith}
use supertooth.Base.Tests.{◌==◌, if◌then◌else◌}
use supertooth.Base.Words.{flag}
use supertooth.Base.Bits.{
  bit, bit-lt, bit-bit_and, bit-bit_xor, bit-zero, bit_ext, bit_xor_step, bit_and_step, bit-bit_or,
  bit_or_step,
}
use supertooth.Base.Xor.{and-zero, mod_suc, shr_suc}

-- A mask bounds what it lets through.
and-le_below : (n a b : ℕ) → b ≤ n → bit_and a b ≤ b
and-le_below zero a zero h = omega (arith, and-zero a)
and-le_below zero a (suc b) h = absurd (omega arith)
and-le_below (suc n) a b h =
    omega (arith, bit_and_step a b, and-le_below n (a / 2) (b / 2) (omega arith))

pub and-le : (a b : ℕ) → bit_and a b ≤ b
and-le a b = and-le_below b a b (omega arith)

pub or-zero : (a : ℕ) → bit_or a 0 ≡ a
or-zero a = bit_ext _ _ (λ i. omega (arith, bit-bit_or a 0 i, bit-zero i))

-- Below a fresh digit, `|` is the sum.
pub or_top : (k r : ℕ) → r < 2 ^ k → bit_or r (2 ^ k) ≡ bit_xor r (2 ^ k)
or_top zero r h = let e : r ≡ 0 = omega arith in rw e
or_top (suc k) r h = omega (
  arith,
  pow-suc 2 k,
  bit_xor_step r (2 ^ suc k),
  bit_or_step r (2 ^ suc k),
  or_top k (r / 2) (omega (arith, pow-suc 2 k)),
  ap (bit_xor (r / 2)) halved,
  ap (bit_or (r / 2)) halved,
)
  where
    halved : 2 ^ suc k / 2 ≡ 2 ^ k
    halved = omega (arith, pow-suc 2 k)

pub or_comm : (a b : ℕ) → bit_or a b ≡ bit_or b a
or_comm a b = bit_ext _ _ (λ i. omega (arith, bit-bit_or a b i, bit-bit_or b a i))

-- Fields that do not overlap add up.
pub or_fields : (k r q : ℕ) → r < 2 ^ k → bit_or r (q * 2 ^ k) ≡ r + q * 2 ^ k
or_fields zero r q h = ap₂ bit_or e (omega arith) ∙ or_comm 0 q ∙ or-zero q ∙ omega (arith, e)
  where
    e : r ≡ 0
    e = omega arith
or_fields (suc k) r q h = omega (
  arith,
  bit_or_step r (q * 2 ^ suc k),
  or_fields k (r / 2) q (omega (arith, pow-suc 2 k)),
  ap (bit_or (r / 2)) halved,
  ap (λ (t : ℕ). q * t) (pow-suc 2 k),
)
  where
    halved : q * 2 ^ suc k / 2 ≡ q * 2 ^ k
    halved = omega (arith, ap (λ (t : ℕ). q * t) (pow-suc 2 k))

-- A mask of `k` ones is a remainder.
pub mask_ones : (k a : ℕ) → bit_and a (2 ^ k - 1) ≡ a % 2 ^ k
mask_ones zero a = omega (arith, and-zero a)
mask_ones (suc k) a = omega (
  arith,
  pow-suc 2 k,
  one-le-pow k 2,
  bit_and_step a (2 ^ suc k - 1),
  ap (bit_and (a / 2)) halved,
  mask_ones k (a / 2),
  mod_suc k a,
)
  where
    halved : (2 ^ suc k - 1) / 2 ≡ 2 ^ k - 1
    halved = omega (arith, pow-suc 2 k, one-le-pow k 2)

-- The digit at a place, as the code reads it.
pub bit-shr : (i x : ℕ) → bit x i ≡ x / 2 ^ i % 2
bit-shr zero x = omega arith
bit-shr (suc i) x = bit-shr i (x / 2) ∙ ap (λ t. t % 2) (sym (shr_suc i x))

-- Cutting off high digits leaves the low ones.
pub bit-mod : (n i x : ℕ) → i < n → bit (x % 2 ^ n) i ≡ bit x i
bit-mod zero i x h = absurd (omega arith)
bit-mod (suc n) zero x h = omega (arith, mod_suc n x)
bit-mod (suc n) (suc i) x h =
    ap (λ t. bit t i) (omega (arith, mod_suc n x)) ∙ bit-mod n i (x / 2) (omega arith)

-- The digits of a power of two.
pub bit-pow : (k i : ℕ) → bit (2 ^ k) i ≡ flag (i == k)
bit-pow zero zero = refl
bit-pow zero (suc i) = bit-zero i ∙ ground arith
bit-pow (suc k) zero =
    let even : 2 ^ suc k % 2 ≡ 0 = omega (arith, pow-suc 2 k) in even ∙ ground arith
bit-pow (suc k) (suc i) =
    let halved : 2 ^ suc k / 2 ≡ 2 ^ k = omega (arith, pow-suc 2 k) in
    ap (λ t. bit t i) halved ∙ bit-pow k i ∙ ground arith

-- A digit moved to place `i`.
pub bit-shl : (g i j : ℕ) → g < 2 → bit (g * 2 ^ i) j ≡ (if j == i then g else 0)
bit-shl zero i j h =
    let e : 0 * 2 ^ i ≡ 0 = omega arith in ap (λ t. bit t j) e ∙ bit-zero j ∙ ground arith
bit-shl (suc zero) i j h =
    let e : 1 * 2 ^ i ≡ 2 ^ i = omega arith in ap (λ t. bit t j) e ∙ bit-pow i j ∙ ground arith
bit-shl (suc (suc g)) i j h = absurd (omega arith)

-- Digits from the width on are zero.
pub bit_beyond : (n i x : ℕ) → x < 2 ^ n → n ≤ i → bit x i ≡ 0
bit_beyond zero i x h p = let e : x ≡ 0 = omega arith in ap (λ t. bit t i) e ∙ bit-zero i
bit_beyond (suc n) zero x h p = absurd (omega arith)
bit_beyond (suc n) (suc i) x h p = bit_beyond n i (x / 2) (omega (arith, pow-suc 2 n)) (omega arith)

pub pow_next : (i : ℕ) → 2 ^ (i + 1) ≡ 2 * 2 ^ i
pow_next i = rw add-one (omega (arith, pow-suc 2 i))

-- The mask of a single digit.
pub and-pow : (x k : ℕ) → bit_and x (2 ^ k) ≡ bit x k * 2 ^ k
and-pow x k = bit_ext _ _ λ i.
    ground
      (arith, bit-bit_and x (2 ^ k) i, bit-pow k i, bit-shl (bit x k) k i (bit-lt x k), bit-lt x i)

-- A digit of a sum.
pub bit-xor : (a b i : ℕ) → bit (bit_xor a b) i ≡ bit_xor (bit a i) (bit b i)
bit-xor a b i = bit-bit_xor a b i ∙ parity (bit a i) (bit b i) (bit-lt a i) (bit-lt b i)
  where
    parity : (x y : ℕ) → x < 2 → y < 2 → (x + y) % 2 ≡ bit_xor x y
    parity zero zero p q = refl
    parity zero (suc zero) p q = refl
    parity (suc zero) zero p q = refl
    parity (suc zero) (suc zero) p q = refl
    parity (suc (suc x)) y p q = absurd (omega arith)
    parity zero (suc (suc y)) p q = absurd (omega arith)
    parity (suc zero) (suc (suc y)) p q = absurd (omega arith)

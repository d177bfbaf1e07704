-- ===== src/Base/Xor.antt =====
-- Exclusive or as the addition of the vector space of bit strings.
use Prim.Native.Nat.{ℕ, zero, suc, ◌+◌, ◌*◌, ◌/◌, ◌%◌, ◌^◌, ◌<◌, bit_and, bit_xor}
use mathlib.Core.Path.{◌≡◌, refl, ap, sym, ◌∙◌}
use native.Mathlib.Nat.{pow-suc, pow-succ', div-div-eq-div-mul, div-add-mod}
use native.Mathlib.Omega.{arith}
use supertooth.Base.Bits.{
  bit-lt, bit-zero, bit-bit_xor, bit-bit_and, bit_ext, bit_xor_step, bit_and_step,
}

pub xor_cong : (a a' b b' : ℕ) → a ≡ a' → b ≡ b' → bit_xor a b ≡ bit_xor a' b'
xor_cong a a' b b' p q = cc

pub xor_comm : (a b : ℕ) → bit_xor a b ≡ bit_xor b a
xor_comm a b = bit_ext _ _ (λ i. omega (arith, bit-bit_xor a b i, bit-bit_xor b a i))

pub xor_assoc : (a b c : ℕ) → bit_xor (bit_xor a b) c ≡ bit_xor a (bit_xor b c)
xor_assoc a b c = bit_ext _ _ λ i. omega (
  arith,
  bit-bit_xor (bit_xor a b) c i,
  bit-bit_xor a b i,
  bit-bit_xor a (bit_xor b c) i,
  bit-bit_xor b c i,
)

pub xor-zero : (a : ℕ) → bit_xor a 0 ≡ a
xor-zero a = bit_ext _ _ (λ i. omega (arith, bit-bit_xor a 0 i, bit-zero i, bit-lt a i))

pub zero-xor : (a : ℕ) → bit_xor 0 a ≡ a
zero-xor a = xor_comm 0 a ∙ xor-zero a

pub xor_self : (a : ℕ) → bit_xor a a ≡ 0
xor_self a = bit_ext _ _ (λ i. omega (arith, bit-bit_xor a a i, bit-zero i))

-- Adding twice undoes.
pub xor_cancel : (a b : ℕ) → bit_xor (bit_xor a b) b ≡ a
xor_cancel a b = xor_assoc a b b ∙ ap (bit_xor a) (xor_self b) ∙ xor-zero a

-- The sum of two sums, regrouped.
pub xor_swap :
    (a b c d : ℕ) → bit_xor (bit_xor a b) (bit_xor c d) ≡ bit_xor (bit_xor a c) (bit_xor b d)
xor_swap a b c d = bit_ext _ _ λ i. omega (
  arith,
  bit-bit_xor (bit_xor a b) (bit_xor c d) i,
  bit-bit_xor (bit_xor a c) (bit_xor b d) i,
  bit-bit_xor a b i,
  bit-bit_xor c d i,
  bit-bit_xor a c i,
  bit-bit_xor b d i,
)

-- A mask is linear.
pub and-xor : (m a b : ℕ) → bit_and m (bit_xor a b) ≡ bit_xor (bit_and m a) (bit_and m b)
and-xor m a b = bit_ext _ _ λ i. omega (
  arith,
  bit-bit_and m (bit_xor a b) i,
  bit-bit_xor a b i,
  bit-bit_xor (bit_and m a) (bit_and m b) i,
  bit-bit_and m a i,
  bit-bit_and m b i,
  bit-lt m i,
  bit-lt a i,
  bit-lt b i,
)

pub and_comm : (a b : ℕ) → bit_and a b ≡ bit_and b a
and_comm a b = bit_ext _ _ (λ i. omega (arith, bit-bit_and a b i, bit-bit_and b a i))

pub xor-and : (m a b : ℕ) → bit_and (bit_xor a b) m ≡ bit_xor (bit_and a m) (bit_and b m)
xor-and m a b = rw (and_comm (bit_xor a b) m, and_comm a m, and_comm b m) (and-xor m a b)

-- So are the shifts.
pub xor-half : (a b : ℕ) → bit_xor a b / 2 ≡ bit_xor (a / 2) (b / 2)
xor-half a b = omega (arith, bit_xor_step a b)

pub xor-double : (a b : ℕ) → bit_xor (2 * a) (2 * b) ≡ 2 * bit_xor a b
xor-double a b = omega (
  arith,
  bit_xor_step (2 * a) (2 * b),
  xor_cong (2 * a / 2) a (2 * b / 2) b (omega arith) (omega arith),
)

pub xor-mod_two : (a b : ℕ) → bit_xor a b % 2 ≡ bit_xor (a % 2) (b % 2)
xor-mod_two a b = omega (arith, bit_xor_step a b, bit_xor_step (a % 2) (b % 2), lem)
  where
    lem : bit_xor (a % 2 / 2) (b % 2 / 2) ≡ 0
    lem = xor_cong (a % 2 / 2) 0 (b % 2 / 2) 0 (omega arith) (omega arith)

-- Numbers that fit `k` bits have a sum that fits.
pub xor-lt : (k a b : ℕ) → a < 2 ^ k → b < 2 ^ k → bit_xor a b < 2 ^ k
xor-lt zero a b p q =
    let e : bit_xor a b ≡ 0 = xor_cong a 0 b 0 (omega arith) (omega arith) in omega arith
xor-lt (suc k) a b p q = omega (
  arith,
  pow-suc 2 k,
  bit_xor_step a b,
  xor-lt k (a / 2) (b / 2) (omega (arith, pow-suc 2 k)) (omega (arith, pow-suc 2 k)),
)

-- A shift, one place at a time.
pub shr_suc : (k a : ℕ) → a / 2 ^ suc k ≡ a / 2 / 2 ^ k
shr_suc k a = rw (pow-succ' 2 k, div-div-eq-div-mul a 2 (2 ^ k))

pub xor-shr : (k a b : ℕ) → bit_xor a b / 2 ^ k ≡ bit_xor (a / 2 ^ k) (b / 2 ^ k)
xor-shr zero a b = omega (arith, xor_cong a (a / 1) b (b / 1) (omega arith) (omega arith))
xor-shr (suc k) a b =
    rw (shr_suc k (bit_xor a b), shr_suc k a, shr_suc k b, xor-half a b) (xor-shr k (a / 2) (b / 2))

pub mod_suc : (k a : ℕ) → a % 2 ^ suc k ≡ a / 2 % 2 ^ k * 2 + a % 2
mod_suc k a = omega (
  arith,
  shr_suc k a,
  pow-suc 2 k,
  div-add-mod a (2 ^ suc k),
  div-add-mod (a / 2) (2 ^ k),
  ap (λ (t : ℕ). t * (a / 2 / 2 ^ k)) (pow-suc 2 k),
  ap (λ (t : ℕ). 2 ^ suc k * t) (shr_suc k a),
)

pub xor-mod : (k a b : ℕ) → bit_xor a b % 2 ^ k ≡ bit_xor (a % 2 ^ k) (b % 2 ^ k)
xor-mod zero a b = omega (arith, xor_cong (a % 1) 0 (b % 1) 0 (omega arith) (omega arith))
xor-mod (suc k) a b = omega (
  arith,
  mod_suc k (bit_xor a b),
  bit_xor_step a b,
  bit_xor_step (a % 2 ^ suc k) (b % 2 ^ suc k),
  ap (λ t. t % 2 ^ k) (xor-half a b),
  xor-mod k (a / 2) (b / 2),
  xor_cong (a % 2 ^ suc k / 2) (a / 2 % 2 ^ k) (b % 2 ^ suc k / 2) (b / 2 % 2 ^ k)
      (omega (arith, mod_suc k a)) (omega (arith, mod_suc k b)),
  mod_suc k a,
  mod_suc k b,
)

-- The sum of different words is not zero.
pub eq_of_xor : (a b : ℕ) → bit_xor a b ≡ 0 → a ≡ b
eq_of_xor a b e = sym (xor_cancel a b) ∙ ap (λ t. bit_xor t b) e ∙ zero-xor b

-- A power of two beyond a number is a new digit on top of it.
pub xor_top : (k r : ℕ) → r < 2 ^ k → bit_xor r (2 ^ k) ≡ r + 2 ^ k
xor_top zero r h = omega (arith, xor_cong r 0 1 1 (omega arith) refl)
xor_top (suc k) r h = omega (
  arith,
  pow-suc 2 k,
  bit_xor_step r (2 ^ suc k),
  xor_top k (r / 2) (omega (arith, pow-suc 2 k)),
  xor_cong (r / 2) (r / 2) (2 ^ suc k / 2) (2 ^ k) refl (omega (arith, pow-suc 2 k)),
)

pub xor-shl : (k a b : ℕ) → bit_xor a b * 2 ^ k ≡ bit_xor (a * 2 ^ k) (b * 2 ^ k)
xor-shl zero a b = omega (arith, xor_cong (a * 1) a (b * 1) b (omega arith) (omega arith))
xor-shl (suc k) a b = omega (
  arith,
  ap (λ (t : ℕ). bit_xor a b * t) (pow-suc 2 k),
  xor-shl k a b,
  xor-double (a * 2 ^ k) (b * 2 ^ k),
  xor_cong (a * 2 ^ suc k) (2 * (a * 2 ^ k)) (b * 2 ^ suc k) (2 * (b * 2 ^ k))
      (omega (arith, ap (λ (t : ℕ). a * t) (pow-suc 2 k)))
      (omega (arith, ap (λ (t : ℕ). b * t) (pow-suc 2 k))),
)

pub and-zero : (a : ℕ) → bit_and a 0 ≡ 0
and-zero a = bit_ext _ _ (λ i. omega (arith, bit-bit_and a 0 i, bit-zero i))

-- The mask 1 takes the lowest digit.
pub and-one : (a : ℕ) → bit_and a 1 ≡ a % 2
and-one a = omega (arith, bit_and_step a 1, and-zero (a / 2))

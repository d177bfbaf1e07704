-- ===== src/Ble/Crc/Detect.antt =====
-- What the checksum tells apart.
use native.Mathlib.Nat.{zero-div}
use native.Mathlib.Decide.{ℕ_discrete}
use supertooth.Base.{
  ℕ, zero, suc, ◌+◌, ◌*◌, ◌/◌, ◌%◌, ◌<◌, ◌≤◌, ◌^◌, bit_and, bit_xor, ◌≡◌, ◌≢◌, refl, sym, ap, ◌∙◌,
  arith, Bool, true, ◌||◌, not, Bytes, at, u8, ◌>>>◌, ◌==◌, all_below, all_below_sound,
}
use supertooth.Base.Bits.{bit_xor_step}
use supertooth.Base.Xor.{xor_self, xor_cong, xor-zero, xor-shl, xor-mod, eq_of_xor, xor-lt, and-one}
use supertooth.Base.Masks.{and-le, mask_ones}
use supertooth.Base.Linear.{linear_ext_checked}
use supertooth.Ble.Crc.{crc_bit, crc_byte, crc_loop, crc_calc}
use supertooth.Ble.Crc.Linear.{
  crc_byte-xor, crc_bit-lt, crc_byte-lt, shifted, shifted-xor, feedback,
}

-- The register shifted by one place.
shifted_lem : (c : ℕ) → c < 2 ^ 24 → shifted c ≡ c * 2 % 2 ^ 24
shifted_lem =
    linear_ext_checked shifted (λ c. c * 2 % 2 ^ 24) shifted-xor
      (λ a b. ap (λ t. t % 2 ^ 24) (xor-shl 1 a b) ∙ xor-mod 24 (a * 2) (b * 2)) 24 refl

feedback_lem : (c : ℕ) → c < 2 ^ 24 → feedback c 0 ≡ c / 2 ^ 23
feedback_lem c h = omega (arith, and-one (bit_xor (c >>> 23) 0), xor-zero (c >>> 23))

-- A register that is not zero is not zero a bit later.
crc_bit_kernel : (c : ℕ) → c < 2 ^ 24 → crc_bit c 0 ≡ 0 → c ≡ 0
unfolding crc_bit
crc_bit_kernel c h e =
    ground (arith, shifted_lem c h, feedback_lem c h, bit_xor_step (shifted c) 0x65b)

crc_byte_kernel : (left i c : ℕ) → c < 2 ^ 24 → crc_byte left i c 0 ≡ 0 → c ≡ 0
crc_byte_kernel zero i c h e = unfold crc_byte in e
crc_byte_kernel (suc left) i c h e =
    crc_bit_kernel c h (crc_byte_kernel left (i + 1) (crc_bit c 0) (crc_bit-lt c 0) (sym step ∙ e))
  where
    no_data : u8 (bit_and (0 >>> i) 1) ≡ 0
    no_data = rw zero-div

    step : crc_byte (suc left) i c 0 ≡ crc_byte left (i + 1) (crc_bit c 0) 0
    step = unfold crc_byte in ap (λ d. crc_byte left (i + 1) (crc_bit c d) 0) no_data

-- Different registers stay different over a byte.
crc_byte_injective :
    (c c' b : ℕ) → c < 2 ^ 24 → c' < 2 ^ 24 → crc_byte 8 0 c b ≡ crc_byte 8 0 c' b → c ≡ c'
crc_byte_injective c c' b h h' e = eq_of_xor c c' (
    crc_byte_kernel 8 0 (bit_xor c c') (xor-lt 24 c c' h h') (
      ap (crc_byte 8 0 (bit_xor c c')) (sym (xor_self b))
      ∙ crc_byte-xor 8 0 c c' b b
      ∙ xor_cong _ _ _ _ e refl
      ∙ xor_self (crc_byte 8 0 c' b)))

abbrev byte_shows : ℕ → Bool
byte_shows b = b == 0 || not (crc_byte 8 0 0 b == 0)

byte_table : all_below 256 byte_shows ≡ true
unfolding crc_byte crc_bit
byte_table = refl

-- Different bytes leave different registers.
crc_byte_distinct :
    (c b b' : ℕ) → b < 256 → b' < 256 → crc_byte 8 0 c b ≡ crc_byte 8 0 c b' → b ≡ b'
crc_byte_distinct c b b' h h' e =
    let gone : crc_byte 8 0 0 (bit_xor b b') ≡ 0 =
      ap (λ t. crc_byte 8 0 t (bit_xor b b')) (sym (xor_self c))
      ∙ crc_byte-xor 8 0 c c b b'
      ∙ xor_cong _ _ _ _ e refl
      ∙ xor_self (crc_byte 8 0 c b') in
    let shows = all_below_sound 256 byte_shows (bit_xor b b') byte_table (xor-lt 8 b b' h h') in
    eq_of_xor b b' (ground (arith, gone, shows))

-- Registers that differ stay different over equal data.
crc_loop_injective :
    (left i c c' : ℕ) (xs ys : Bytes)
    → c < 2 ^ 24
    → c' < 2 ^ 24
    → ((k : ℕ) → i ≤ k → at xs k ≡ at ys k)
    → crc_loop left i xs c ≡ crc_loop left i ys c'
    → c ≡ c'
unfolding crc_loop
crc_loop_injective zero i c c' xs ys h h' same e = e
crc_loop_injective (suc left) i c c' xs ys h h' same e = crc_byte_injective c c' (at xs i) h h' (
    crc_loop_injective left (i + 1) (crc_byte 8 0 c (at xs i)) (crc_byte 8 0 c' (at ys i)) xs ys
      (crc_byte-lt 8 0 c (at xs i) h) (crc_byte-lt 8 0 c' (at ys i) h')
      (λ k p. same k (omega arith)) e
    ∙ ap (crc_byte 8 0 c') (sym (same i (omega arith))))

crc_loop_distinct :
    (left i j c : ℕ) (xs ys : Bytes)
    → i ≤ j
    → j < i + left
    → c < 2 ^ 24
    → ((k : ℕ) → k ≢ j → at xs k ≡ at ys k)
    → at xs j < 256
    → at ys j < 256
    → crc_loop left i xs c ≡ crc_loop left i ys c
    → at xs j ≡ at ys j
crc_loop_distinct zero i j c xs ys p q h same hx hy e = absurd (omega arith)
crc_loop_distinct (suc left) i j c xs ys p q h same hx hy e = elim (ℕ_discrete i j) [
  | yes here ↦ crc_byte_distinct c (at xs j) (at ys j) hx hy (
      crc_loop_injective left (j + 1) (crc_byte 8 0 c (at xs j)) (crc_byte 8 0 c (at ys j)) xs ys
        (crc_byte-lt 8 0 c (at xs j) h) (crc_byte-lt 8 0 c (at ys j) h)
        (λ k r. same k (omega arith)) (rw here at opened))
  | no later ↦
      crc_loop_distinct left (i + 1) j (crc_byte 8 0 c (at xs i)) xs ys (omega arith) (omega arith)
        (crc_byte-lt 8 0 c (at xs i) h) same hx hy
        (opened ∙ ap (λ b. crc_loop left (i + 1) ys (crc_byte 8 0 c b)) (sym (same i later)))
]
  where
    opened :
        crc_loop left (i + 1) xs (crc_byte 8 0 c (at xs i))
        ≡ crc_loop left (i + 1) ys (crc_byte 8 0 c (at ys i))
    opened = unfold crc_loop in e

-- Different initial values give different checksums of the same bytes.
pub crc_calc_injective :
    (xs : Bytes) (len a b : ℕ)
    → a < 2 ^ 24
    → b < 2 ^ 24
    → crc_calc xs len a ≡ crc_calc xs len b
    → a ≡ b
unfolding crc_calc
crc_calc_injective xs len a b h k e = omega (
  arith,
  crc_loop_injective len 0 (bit_and a 0xffffff) (bit_and b 0xffffff) xs xs
      (omega (arith, and-le a 0xffffff)) (omega (arith, and-le b 0xffffff)) (λ j p. refl) e,
  mask_ones 24 a,
  mask_ones 24 b,
)

-- An error within one byte never goes unnoticed: two messages that differ in exactly one of the
-- bytes which are summed have different checksums, whatever the initial value.
pub crc_calc_distinct :
    (xs ys : Bytes) (len init j : ℕ)
    → j < len
    → ((k : ℕ) → k ≢ j → at xs k ≡ at ys k)
    → at xs j < 256
    → at ys j < 256
    → at xs j ≢ at ys j
    → crc_calc xs len init ≢ crc_calc ys len init
unfolding crc_calc
crc_calc_distinct xs ys len init j h same hx hy differ e = differ (
    crc_loop_distinct len 0 j (bit_and init 0xffffff) xs ys (omega arith) (omega arith)
      (omega (arith, and-le init 0xffffff)) same hx hy e)

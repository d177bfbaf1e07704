-- ===== src/Bredr/PayloadCrc/Linear.antt =====
-- The rounds of the payload checksum, as functions that are linear and can be undone.
use native.Mathlib.Nat.{mod-lt}
use supertooth.Base.{
  ℕ, zero, suc, ◌+◌, ◌*◌, ◌/◌, ◌%◌, ◌^◌, ◌<◌, ◌≡◌, refl, sym, ap, ap₂, ◌∙◌, arith, bit_and, bit_or,
  bit_xor, true, Bytes, u16, ◌<<<◌, ◌>>>◌, ◌==◌, ==_iff, all_below, all_below_sound,
}
use supertooth.Base.Bits.{bit, bit-lt}
use supertooth.Base.Xor.{
  xor_cong, xor_self, xor_swap, xor-half, xor-mod, xor-mod_two, xor-shl, xor-shr, xor-and, xor-zero,
  and-one, xor-lt, xor-zero, eq_of_xor,
}
use supertooth.Base.Masks.{or-zero, or_top, bit-xor}
use supertooth.Base.Linear.{IsLinear, linear_ext_checked, xor_if, xor_if-xor}
use supertooth.Bredr.Packed.{get_packed_bit}
use supertooth.Bredr.PayloadCrc.{reverse_byte, crc_step, crc_steps}

-- The step with a sum in place of `|`.
abbrev shift_in : ℕ → ℕ → ℕ
shift_in reg d = bit_xor (reg / 2) (bit_xor (reg % 2) (d % 2) * 2 ^ 15)

abbrev feed : ℕ → ℕ → ℕ
feed k r = u16 (bit_xor r (bit_and r 0x8000 >>> k))

abbrev sum_step : ℕ → ℕ → ℕ
sum_step reg d = feed 12 (feed 5 (u16 (shift_in reg d)))

or_digit : (k r q : ℕ) → r < 2 ^ k → q < 2 → bit_or r (q * 2 ^ k) ≡ bit_xor r (q * 2 ^ k)
or_digit k r zero h q = let e : 0 * 2 ^ k ≡ 0 = omega arith in rw e (or-zero r ∙ sym (xor-zero r))
or_digit k r (suc zero) h q = let e : 1 * 2 ^ k ≡ 2 ^ k = omega arith in rw e (or_top k r h)
or_digit k r (suc (suc n)) h q = absurd (omega arith)

shift_in-or :
    (reg d : ℕ)
    → reg < 2 ^ 16
    → bit_or (reg >>> 1) (bit_xor (bit_and reg 1) (bit_and d 1) <<< 15) ≡ shift_in reg d
shift_in-or reg d h = rw (and-one reg) (rw (and-one d) top)
  where
    digit : bit_xor (reg % 2) (d % 2) < 2
    digit = xor-lt 1 (reg % 2) (d % 2) (omega arith) (omega arith)

    top : bit_or (reg / 2) (bit_xor (reg % 2) (d % 2) * 2 ^ 15) ≡ shift_in reg d
    top = or_digit 15 (reg / 2) (bit_xor (reg % 2) (d % 2)) (omega arith) digit

crc_step_lem : (reg d : ℕ) → reg < 2 ^ 16 → crc_step reg d ≡ sum_step reg d
unfolding crc_step
crc_step_lem reg d h = ap (λ t. feed 12 (feed 5 (u16 t))) (shift_in-or reg d h)

shift_in-xor :
    (a b d e : ℕ) → shift_in (bit_xor a b) (bit_xor d e) ≡ bit_xor (shift_in a d) (shift_in b e)
shift_in-xor a b d e =
    ap₂ (λ x y. bit_xor x (y * 2 ^ 15)) (xor-half a b)
      (xor_cong _ _ _ _ (xor-mod_two a b) (xor-mod_two d e)
        ∙ xor_swap (a % 2) (b % 2) (d % 2) (e % 2))
    ∙ ap (bit_xor (bit_xor (a / 2) (b / 2))) (xor-shl 15 _ _)
    ∙ xor_swap (a / 2) (b / 2) _ _

feed-xor : (k a b : ℕ) → feed k (bit_xor a b) ≡ bit_xor (feed k a) (feed k b)
feed-xor k a b =
    ap (λ t. u16 (bit_xor (bit_xor a b) (t >>> k))) (xor-and 0x8000 a b)
    ∙ ap (λ t. u16 (bit_xor (bit_xor a b) t)) (xor-shr k (bit_and a 0x8000) (bit_and b 0x8000))
    ∙ ap u16 (xor_swap a b _ _)
    ∙ xor-mod 16 _ _

sum_step-xor :
    (a b d e : ℕ) → sum_step (bit_xor a b) (bit_xor d e) ≡ bit_xor (sum_step a d) (sum_step b e)
sum_step-xor a b d e =
    ap (λ t. feed 12 (feed 5 (u16 t))) (shift_in-xor a b d e)
    ∙ ap (λ t. feed 12 (feed 5 t)) (xor-mod 16 _ _)
    ∙ ap (feed 12) (feed-xor 5 _ _)
    ∙ feed-xor 12 _ _

-- A step without data can be undone.
undo_with : ℕ → ℕ → ℕ
undo_with c r = bit_xor (xor_if 0x408 c r * 2 ^ 1 % 2 ^ 16) c

undo : ℕ → ℕ
undo r = undo_with (bit r 15) r

undo_with-xor :
    (c d a b : ℕ)
    → c < 2
    → d < 2
    → undo_with (bit_xor c d) (bit_xor a b) ≡ bit_xor (undo_with c a) (undo_with d b)
unfolding undo_with
undo_with-xor c d a b hc hd =
    ap (λ t. bit_xor (t * 2 ^ 1 % 2 ^ 16) (bit_xor c d)) (xor_if-xor 0x408 c d a b hc hd)
    ∙ ap (λ t. bit_xor (t % 2 ^ 16) (bit_xor c d)) (xor-shl 1 _ _)
    ∙ ap (λ t. bit_xor t (bit_xor c d)) (xor-mod 16 _ _)
    ∙ xor_swap _ _ c d

undo-xor : IsLinear undo
unfolding undo
undo-xor a b =
    ap (λ t. undo_with t (bit_xor a b)) (bit-xor a b 15)
    ∙ undo_with-xor (bit a 15) (bit b 15) a b (bit-lt a 15) (bit-lt b 15)

undo_table : all_below 16 (λ k. undo (sum_step (2 ^ k) 0) == 2 ^ k) ≡ true
unfolding undo undo_with
undo_table = refl

sum_step_zero : (x : ℕ) → x < 2 ^ 16 → undo (sum_step x 0) ≡ x
sum_step_zero x h =
    linear_ext_checked (λ t. undo (sum_step t 0)) (λ t. t)
      (λ a b. ap undo (sum_step-xor a b 0 0) ∙ undo-xor _ _) (λ a b. refl) 16 undo_table x h

-- With one bit of data, the step keeps registers apart.
crc_step_injective : (a b d : ℕ) → a < 2 ^ 16 → b < 2 ^ 16 → crc_step a d ≡ crc_step b d → a ≡ b
unfolding undo undo_with
crc_step_injective a b d ha hb e =
    eq_of_xor a b (sym (sum_step_zero (bit_xor a b) (xor-lt 16 a b ha hb)) ∙ ap undo gone)
  where
    same : sum_step a d ≡ sum_step b d
    same = sym (crc_step_lem a d ha) ∙ e ∙ crc_step_lem b d hb

    gone : sum_step (bit_xor a b) 0 ≡ 0
    gone =
        ap (sum_step (bit_xor a b)) (sym (xor_self d))
        ∙ sum_step-xor a b d d
        ∙ xor_cong _ _ _ _ same refl
        ∙ xor_self (sum_step b d)

bit_gone : (x : ℕ) → x < 2 → sum_step 0 x ≡ 0 → x ≡ 0
bit_gone zero h q = refl
bit_gone (suc zero) h q = absurd (let e : 0x8408 ≡ 0 = q in omega (arith, e))
bit_gone (suc (suc x)) h q = absurd (omega arith)

-- In one register, the step keeps the two bits apart.
pub crc_step_bits : (a d e : ℕ) → a < 2 ^ 16 → d < 2 → e < 2 → crc_step a d ≡ crc_step a e → d ≡ e
crc_step_bits a d e ha hd he same = eq_of_xor d e (bit_gone (bit_xor d e) (xor-lt 1 d e hd he) gone)
  where
    equal : sum_step a d ≡ sum_step a e
    equal = sym (crc_step_lem a d ha) ∙ same ∙ crc_step_lem a e ha

    gone : sum_step 0 (bit_xor d e) ≡ 0
    gone =
        ap (λ t. sum_step t (bit_xor d e)) (sym (xor_self a))
        ∙ sum_step-xor a a d e
        ∙ xor_cong _ _ _ _ equal refl
        ∙ xor_self (sum_step a e)

pub crc_step-lt : (a d : ℕ) → crc_step a d < 2 ^ 16
unfolding crc_step
crc_step-lt a d = mod-lt _ (omega arith)

pub crc_steps-lt : (n i : ℕ) (bytes : Bytes) (a : ℕ) → a < 2 ^ 16 → crc_steps n i bytes a < 2 ^ 16
unfolding crc_steps
crc_steps-lt zero i bytes a h = h
crc_steps-lt (suc n) i bytes a h = crc_steps-lt n (i + 1) bytes _ (crc_step-lt a _)

-- The same data keeps registers apart.
pub crc_steps_injective :
    (n i : ℕ) (bytes : Bytes) (a b : ℕ)
    → a < 2 ^ 16
    → b < 2 ^ 16
    → crc_steps n i bytes a ≡ crc_steps n i bytes b
    → a ≡ b
unfolding crc_steps
crc_steps_injective zero i bytes a b ha hb e = e
crc_steps_injective (suc n) i bytes a b ha hb e =
    crc_step_injective a b d ha hb
      (crc_steps_injective n (i + 1) bytes _ _ (crc_step-lt a d) (crc_step-lt b d) e)
  where
    d : ℕ
    d = get_packed_bit bytes i

-- Reversing a byte twice gives it back.
reverse_table : all_below 256 (λ u. reverse_byte (reverse_byte u) == u) ≡ true
unfolding reverse_byte
reverse_table = refl

pub reverse_byte_twice : (u : ℕ) → u < 256 → reverse_byte (reverse_byte u) ≡ u
reverse_byte_twice u h =
    (==_iff _ _).0 (all_below_sound 256 (λ w. reverse_byte (reverse_byte w) == w) u reverse_table h)

pub reverse_byte-lt : (u : ℕ) → reverse_byte u < 256
unfolding reverse_byte
reverse_byte-lt u = mod-lt _ (omega arith)

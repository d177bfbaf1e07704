-- ===== src/Bredr/SyncWord/Lap.antt =====
-- The sync word carries its address.
use native.Mathlib.Nat.{one-le-pow}
use supertooth.Base.{
  ℕ, zero, suc, ◌+◌, ◌-◌, ◌*◌, ◌%◌, ◌^◌, ◌<◌, ◌≤◌, ◌≡◌, refl, sym, ap, ◌∙◌, arith, bit_and, bit_xor,
  true, at, ◌==◌, ==_iff, all_below, all_below_sound, if◌then◌else◌, ◌>>>◌,
}
use supertooth.Base.Bits.{bit, bit-lt}
use supertooth.Base.Xor.{xor-shr, xor-mod, xor-zero, zero-xor}
use supertooth.Base.Masks.{and-pow, bit-xor}
use supertooth.Base.Linear.{IsLinear, linear_ext_checked, xor_if, xor_if-xor}
use supertooth.Bredr.SyncWord.{sw_matrix, default_cw, syncword_loop, gen_syncword}

mask_table : all_below 24 (λ i. 0x800000 >>> i == 2 ^ (23 - i)) ≡ true
mask_table = refl

-- A bit stands at its place or not, whatever the place.
scaled :
    (b p c row : ℕ) → b < 2 → 1 ≤ p → (if b * p == 0 then c else bit_xor c row) ≡ xor_if row b c
scaled zero p c row h q =
    let e : 0 * p ≡ 0 = omega arith in ap (λ t. if t == 0 then c else bit_xor c row) e
scaled (suc zero) p c row h q =
    let e : 1 * p ≡ p = omega arith in
    ap (λ t. if t == 0 then c else bit_xor c row) e ∙ ground arith
scaled (suc (suc b)) p c row h q = absurd (omega arith)

-- A round, as an exclusive or for a bit of the address.
syncword_loop-suc :
    (left i lap codeword : ℕ)
    → i < 24
    → syncword_loop (suc left) i lap codeword
      ≡ syncword_loop left (i + 1) lap (xor_if (at sw_matrix i) (bit lap (23 - i)) codeword)
unfolding syncword_loop
syncword_loop-suc left i lap codeword h =
    ap
      (λ m.
        syncword_loop left (i + 1) lap
          (if bit_and lap m == 0 then codeword else bit_xor codeword (at sw_matrix i)))
      ((==_iff (0x800000 >>> i) (2 ^ (23 - i))).0
        (all_below_sound 24 (λ j. 0x800000 >>> j == 2 ^ (23 - j)) i mask_table h))
    ∙ ap
        (λ m.
          syncword_loop left (i + 1) lap
            (if m == 0 then codeword else bit_xor codeword (at sw_matrix i)))
        (and-pow lap (23 - i))
    ∙ ap (syncword_loop left (i + 1) lap) (
        scaled (bit lap (23 - i)) (2 ^ (23 - i)) codeword (at sw_matrix i) (bit-lt lap (23 - i))
          (one-le-pow (23 - i) 2 (omega arith)))

pub syncword_loop-xor :
    (left i a b c d : ℕ)
    → i + left ≤ 24
    → syncword_loop left i (bit_xor a b) (bit_xor c d)
      ≡ bit_xor (syncword_loop left i a c) (syncword_loop left i b d)
syncword_loop-xor zero i a b c d h = unfold syncword_loop in refl
syncword_loop-xor (suc left) i a b c d h =
    let row = at sw_matrix i in
    let k = 23 - i in
    syncword_loop-suc left i (bit_xor a b) (bit_xor c d) (omega arith)
    ∙ ap (λ t. syncword_loop left (i + 1) (bit_xor a b) (xor_if row t (bit_xor c d)))
        (bit-xor a b k)
    ∙ ap (syncword_loop left (i + 1) (bit_xor a b))
        (xor_if-xor row (bit a k) (bit b k) c d (bit-lt a k) (bit-lt b k))
    ∙ syncword_loop-xor left (i + 1) a b (xor_if row (bit a k) c) (xor_if row (bit b k) d)
        (omega arith)
    ∙ ap (λ t. bit_xor t (syncword_loop left (i + 1) b (xor_if row (bit b k) d)))
        (sym (syncword_loop-suc left i a c (omega arith)))
    ∙ ap (bit_xor (syncword_loop (suc left) i a c))
        (sym (syncword_loop-suc left i b d (omega arith)))

-- The 24 bits from bit 34 on.
abbrev pub lap_field : ℕ → ℕ
lap_field codeword = (codeword >>> 34) % 2 ^ 24

lap_field-xor : IsLinear lap_field
lap_field-xor a b = ap (λ t. t % 2 ^ 24) (xor-shr 34 a b) ∙ xor-mod 24 (a >>> 34) (b >>> 34)

from_zero : ℕ → ℕ
from_zero lap = lap_field (syncword_loop 24 0 lap 0)

from_zero_table : all_below 24 (λ k. from_zero (2 ^ k) == 2 ^ k) ≡ true
unfolding from_zero syncword_loop
from_zero_table = refl

-- Bits 34 to 57 of the sync word are the address.
pub lap_field-gen_syncword : (lap : ℕ) → lap < 2 ^ 24 → lap_field (gen_syncword lap) ≡ lap
unfolding gen_syncword from_zero
lap_field-gen_syncword lap h =
    ap (λ t. lap_field (syncword_loop 24 0 t default_cw)) (sym (xor-zero lap))
    ∙ ap lap_field (ap (syncword_loop 24 0 (bit_xor lap 0)) (sym (zero-xor default_cw)))
    ∙ ap lap_field (syncword_loop-xor 24 0 lap 0 0 default_cw (omega arith))
    ∙ lap_field-xor _ _
    ∙ xor-zero (from_zero lap)
    ∙ linear_ext_checked from_zero (λ t. t)
        (λ a b. ap lap_field (syncword_loop-xor 24 0 a b 0 0 (omega arith)) ∙ lap_field-xor _ _)
        (λ a b. refl) 24 from_zero_table lap h

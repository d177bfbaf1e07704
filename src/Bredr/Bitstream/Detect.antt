-- ===== src/Bredr/Bitstream/Detect.antt =====
-- An access code without errors is found.
use supertooth.Base.{
  ℕ, zero, suc, ◌^◌, ◌<◌, ◌≡◌, ◌⊎◌, inl, inr, refl, sym, ap, ap₂, ◌∙◌, arith, bit_and, bit_xor,
  Bool, true, ltb, leb, if◌then◌else◌, u8, u32, ◌>>>◌,
}
use supertooth.Base.Xor.{xor_self, xor-shr, xor-zero, zero-xor}
use supertooth.Base.Bits.{bit, bit-lt}
use supertooth.Base.Masks.{mask_ones, bit-xor}
use supertooth.Base.Linear.{linear_ext_checked, xor_if, xor_if-xor}
use supertooth.Bredr.SyncWord.{gen_syncword, syncword_loop, default_cw}
use supertooth.Bredr.SyncWord.Lap.{lap_field-gen_syncword, syncword_loop-xor}
use supertooth.Bredr.Bitstream.{
  BredrDecoder, popcount64, barker_ok, popcount7, check_window, access_code_matched,
}

popcount_zero : popcount64 0 ≡ 0
unfolding popcount64
popcount_zero = refl

-- The field of a Barker code: its two values for an access code.
abbrev top_bits : ℕ → ℕ
top_bits window = window >>> 57

-- The part of it that the address decides.
top_part : ℕ → ℕ
top_part lap = top_bits (syncword_loop 24 0 lap 0)

top_part-xor : (a b : ℕ) → top_part (bit_xor a b) ≡ bit_xor (top_part a) (top_part b)
unfolding top_part
top_part-xor a b = ap top_bits (syncword_loop-xor 24 0 a b 0 0 (omega arith)) ∙ xor-shr 57 _ _

top_part_lem : (lap : ℕ) → lap < 2 ^ 24 → top_part lap ≡ xor_if 127 (bit lap 23) 0
unfolding top_part syncword_loop
top_part_lem =
    linear_ext_checked top_part (λ t. xor_if 127 (bit t 23) 0) top_part-xor
      (λ a b.
        ap (λ t. xor_if 127 t 0) (bit-xor a b 23)
        ∙ xor_if-xor 127 (bit a 23) (bit b 23) 0 0 (bit-lt a 23) (bit-lt b 23))
      24 refl

-- The seven bits are the one code or its complement.
top_bits-gen_syncword :
    (lap : ℕ)
    → lap < 2 ^ 24
    → (top_bits (gen_syncword lap) ≡ 0x58) ⊎ (top_bits (gen_syncword lap) ≡ 0x27)
unfolding gen_syncword top_part
top_bits-gen_syncword lap h = either (bit lap 23) (bit-lt lap 23) refl
  where
    sum : top_bits (syncword_loop 24 0 lap default_cw) ≡ bit_xor (xor_if 127 (bit lap 23) 0) 0x58
    sum =
        ap (λ t. top_bits (syncword_loop 24 0 t default_cw)) (sym (xor-zero lap))
        ∙ ap (λ t. top_bits (syncword_loop 24 0 (bit_xor lap 0) t)) (sym (zero-xor default_cw))
        ∙ ap top_bits (syncword_loop-xor 24 0 lap 0 0 default_cw (omega arith))
        ∙ xor-shr 57 _ _
        ∙ ap (λ t. bit_xor t 0x58) (top_part_lem lap h)

    either :
        (b : ℕ)
        → b < 2
        → bit lap 23 ≡ b
        → (top_bits (syncword_loop 24 0 lap default_cw) ≡ 0x58)
          ⊎ (top_bits (syncword_loop 24 0 lap default_cw) ≡ 0x27)
    either zero q e = inl (sum ∙ ap (λ t. bit_xor (xor_if 127 t 0) 0x58) e)
    either (suc zero) q e = inr (sum ∙ ap (λ t. bit_xor (xor_if 127 t 0) 0x58) e)
    either (suc (suc b)) q e = absurd (omega arith)

-- The test of the Barker field, as a function of the field.
barker_at : ℕ → Bool
barker_at t =
    let b = u8 (bit_and t 0x7f) in
    let d0 = popcount7 (u8 (bit_xor b 0x27)) in
    let d1 = popcount7 (u8 (bit_xor b 0x58)) in leb (if ltb d0 d1 then d0 else d1) 1

barker_ok-gen_syncword : (lap : ℕ) → lap < 2 ^ 24 → barker_ok (gen_syncword lap) ≡ true
unfolding barker_at barker_ok popcount7
barker_ok-gen_syncword lap h = elim (top_bits-gen_syncword lap h) [
  | inl e ↦ ap barker_at e
  | inr e ↦ ap barker_at e
]

lap_read : (lap : ℕ) → lap < 2 ^ 24 → u32 (bit_and (gen_syncword lap >>> 34) 0xffffff) ≡ lap
lap_read lap h =
    ap u32 (mask_ones 24 (gen_syncword lap >>> 34) ∙ lap_field-gen_syncword lap h) ∙ omega arith

-- A window that holds a sync word matches, whatever limit is set on errors.
pub check_window-gen_syncword :
    (m lap : ℕ) (d : BredrDecoder)
    → lap < 2 ^ 24
    → d.bits_seen ≡ 64
    → d.sw_window ≡ gen_syncword lap
    → check_window m d ≡ access_code_matched d lap 0
unfolding check_window
check_window-gen_syncword m lap d h seen window =
    let lap_is : u32 (bit_and (d.sw_window >>> 34) 0xffffff) ≡ lap =
      ap (λ w. u32 (bit_and (w >>> 34) 0xffffff)) window ∙ lap_read lap h in
    let barker : barker_ok d.sw_window ≡ true =
      ap barker_ok window ∙ barker_ok-gen_syncword lap h in
    let errors : popcount64
          (bit_xor d.sw_window (gen_syncword (u32 (bit_and (d.sw_window >>> 34) 0xffffff))))
        ≡ 0 =
      ap (λ l. popcount64 (bit_xor d.sw_window (gen_syncword l))) lap_is
      ∙ ap (λ w. popcount64 (bit_xor w (gen_syncword lap))) window
      ∙ ap popcount64 (xor_self (gen_syncword lap))
      ∙ popcount_zero in
    ground (arith, seen, barker, errors, ap₂ (access_code_matched d) lap_is errors)

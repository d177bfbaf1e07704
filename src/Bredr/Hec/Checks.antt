-- ===== src/Bredr/Hec/Checks.antt =====
-- How the checks of a header are related.
use supertooth.Base.{
  zero, suc, ◌⊎◌, inl, inr, flag, true, false, ℕ, ◌%◌, ◌≡◌, ◌≢◌, refl, sym, ap, ◌∙◌, arith, bit_and,
  none, some, at, ◌==◌, Bool, if◌then◌else◌, Option, ◌||◌, not, leb, ◌/◌, replicate,
}
use supertooth.Base.Masks.{mask_ones}
use supertooth.Bredr.Fec13.{Decoded}
use supertooth.Bredr.Whitening.{whitening_indices}
use supertooth.Bredr.Types.{BredrFrame}
use supertooth.Bredr.Hec.{
  bits_from, clean_from, whitened_bits, header_bits_loop, decode_header_fec, decode_header_bits,
  decode_header, hec_ok_for_clk6, hec_ok_for_clk6_clean, uap_matches, decode_dewhitened_header,
}

-- Only the six low bits of the clock count.
masked : (c : ℕ) → bit_and (bit_and c 0x3f) 0x3f ≡ bit_and c 0x3f
masked c =
    let e : c % 64 % 64 ≡ c % 64 = omega arith in
    mask_ones 6 (bit_and c 0x3f) ∙ ap (λ t. t % 64) (mask_ones 6 c) ∙ e ∙ sym (mask_ones 6 c)

whitened_bits-masked :
    (d : Decoded) (c : ℕ) → whitened_bits d.bits (bit_and c 0x3f) ≡ whitened_bits d.bits c
unfolding whitened_bits
whitened_bits-masked d c =
    ap (λ t. header_bits_loop 18 0 (at whitening_indices t) d.bits) (masked c)

bits_from-masked : (o : Option Decoded) (c : ℕ) → bits_from o (bit_and c 0x3f) ≡ bits_from o c
unfolding bits_from
bits_from-masked none c = refl
bits_from-masked (some d) c =
    ap
      (λ t.
        if not (d.bit_count == 18) || leb (d.bit_count / 4) d.error_count
        then replicate 18 0
        else t)
      (whitened_bits-masked d c)

clean_from-bits_from :
    (o : Option Decoded) (uap c : ℕ) → clean_from o uap c ≡ 1 → uap_matches (bits_from o c) uap ≡ 1
unfolding bits_from clean_from
clean_from-bits_from none uap c h = absurd (omega (arith, h))
clean_from-bits_from (some d) uap c h = ground (arith, h)

-- A header that passes the strict check passes the other one.
pub hec_ok_for_clk6-clean :
    (frame : BredrFrame) (uap clk6 : ℕ)
    → hec_ok_for_clk6_clean frame uap clk6 ≡ 1
    → hec_ok_for_clk6 frame uap clk6 ≡ 1
unfolding hec_ok_for_clk6 hec_ok_for_clk6_clean decode_header_bits
hec_ok_for_clk6-clean frame uap clk6 h = ground (
  arith,
  clean_from-bits_from (decode_header_fec frame) uap clk6,
  ap (λ t. uap_matches t uap) (bits_from-masked (decode_header_fec frame) clk6),
)

-- For a frame with a header, decoding the header finds its check right exactly if
-- `bredr_hec_ok_for_clk6` does.
pub decode_header-hec_ok_for_clk6 :
    (frame : BredrFrame) (uap clk6 : ℕ)
    → frame.has_header ≢ 0
    → (decode_header frame uap clk6).hec_ok ≡ hec_ok_for_clk6 frame uap clk6
unfolding decode_header hec_ok_for_clk6 decode_header_bits decode_dewhitened_header
decode_header-hec_ok_for_clk6 frame uap clk6 h =
    ground (arith, ap (λ t. uap_matches t uap) (bits_from-masked (decode_header_fec frame) clk6))

either :
    (n : ℕ) (b : Bool) → ((if n == 0 then 0 else flag b) ≡ 0) ⊎ ((if n == 0 then 0 else flag b) ≡ 1)
either zero b = inl refl
either (suc n) true = inr (ground arith)
either (suc n) false = inl (ground arith)

-- The answer is 0 or 1.
pub hec_ok_for_clk6-flag :
    (frame : BredrFrame) (uap clk6 : ℕ)
    → (hec_ok_for_clk6 frame uap clk6 ≡ 0) ⊎ (hec_ok_for_clk6 frame uap clk6 ≡ 1)
unfolding hec_ok_for_clk6
hec_ok_for_clk6-flag frame uap clk6 = either frame.has_header _

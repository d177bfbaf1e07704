-- ===== src/Bredr/Hec/Uap.antt =====
-- The header check as a code for the upper address part.
use supertooth.Base.{
  ℕ, zero, suc, ◌+◌, ◌*◌, ◌/◌, ◌%◌, ◌^◌, ◌<◌, ◌≡◌, refl, sym, ap, ◌∙◌, arith, bit_and, bit_or,
  bit_xor, true, u8, ◌<<<◌, ◌>>>◌, ◌==◌, ==_iff, all_below, all_below_sound, if◌then◌else◌,
}
use supertooth.Base.Xor.{xor-mod_two, and-one}
use supertooth.Bredr.PayloadCrc.{reverse_byte}
use supertooth.Bredr.PayloadCrc.Linear.{reverse_byte_twice, reverse_byte-lt}
use supertooth.Bredr.Hec.{hec_step, hec_loop, decode_uap_from_hec}

-- A round of the transmitter's register, for the data bit `d`: the register that
-- `bredr_decode_uap_from_hec` turns into `h` in one round.
abbrev send : ℕ → ℕ → ℕ
send h d =
    let top = bit_xor (h % 2) d in
    let low = h / 2 + top * 128 in if top == 0 then low else bit_xor low 0x65

-- Ten rounds, from bit `i` on.
abbrev send_loop : ℕ → ℕ → ℕ → ℕ → ℕ
send_loop zero i hdr_data h = h
send_loop (suc left) i hdr_data h = send_loop left (i + 1) hdr_data (send h (hdr_data / 2 ^ i % 2))

-- The check of a header of ten bits, for an upper address part.
pub hec_for : ℕ → ℕ → ℕ
hec_for hdr_data uap = send_loop 10 0 hdr_data (reverse_byte uap)

-- One round of the receiver, for the data bit alone.
abbrev receive : ℕ → ℕ → ℕ
receive hec d =
    let h = if bit_and hec 0x80 == 0 then hec else bit_xor hec 0x65 in
    u8 (bit_or (h <<< 1) (bit_and (bit_xor (h >>> 7) d) 1))

send_table : all_below 256 (λ h. all_below 2 (λ d. receive (send h d) d == h)) ≡ true
send_table = refl

receive-send : (h d : ℕ) → h < 256 → d < 2 → receive (send h d) d ≡ h
receive-send h d hh hd = (==_iff (receive (send h d) d) h).0 (
    all_below_sound 2 (λ e. receive (send h e) e == h) d
      (all_below_sound 256 (λ g. all_below 2 (λ e. receive (send g e) e == g)) h send_table hh) hd)

send_range : all_below 256 (λ h. all_below 2 (λ d. send h d / 256 == 0)) ≡ true
send_range = refl

send-lt : (h d : ℕ) → h < 256 → d < 2 → send h d < 256
send-lt h d hh hd =
    let zero_top = (==_iff (send h d / 256) 0).0 (
      all_below_sound 2 (λ e. send h e / 256 == 0) d
        (all_below_sound 256 (λ g. all_below 2 (λ e. send g e / 256 == 0)) h send_range hh) hd) in
    omega (arith, zero_top)

-- Only the lowest bit of the shifted data counts.
hec_step-receive :
    (hec hdr_data i : ℕ) → hec_step hec hdr_data i ≡ receive hec (hdr_data / 2 ^ i % 2)
unfolding hec_step
hec_step-receive hec hdr_data i =
    let h = if bit_and hec 0x80 == 0 then hec else bit_xor hec 0x65 in
    let d = hdr_data / 2 ^ i in
    let twice : d % 2 ≡ d % 2 % 2 = omega arith in
    ap (λ t. u8 (bit_or (h <<< 1) t))
      (and-one (bit_xor (h >>> 7) d)
        ∙ xor-mod_two (h >>> 7) d
        ∙ ap (bit_xor ((h >>> 7) % 2)) twice
        ∙ sym (xor-mod_two (h >>> 7) (d % 2))
        ∙ sym (and-one (bit_xor (h >>> 7) (d % 2))))

round :
    (i hdr_data h : ℕ)
    → h < 256
    → hec_loop (suc i) hdr_data (send h (hdr_data / 2 ^ i % 2)) ≡ hec_loop i hdr_data h
unfolding hec_loop
round i hdr_data h hh =
    let d = hdr_data / 2 ^ i % 2 in
    ap (hec_loop i hdr_data)
      (hec_step-receive (send h d) hdr_data i ∙ receive-send h d hh (omega arith))

-- The receiver's rounds, which go down, undo the sender's, which go up.
hec_loop-send_loop :
    (left i hdr_data h : ℕ)
    → h < 256
    → hec_loop (i + left) hdr_data (send_loop left i hdr_data h) ≡ hec_loop i hdr_data h
hec_loop-send_loop zero i hdr_data h hh =
    let e : i + 0 ≡ i = omega arith in ap (λ t. hec_loop t hdr_data h) e
hec_loop-send_loop (suc left) i hdr_data h hh =
    let d = hdr_data / 2 ^ i % 2 in
    let e : i + suc left ≡ i + 1 + left = omega arith in
    let e' : i + 1 ≡ suc i = omega arith in
    ap (λ t. hec_loop t hdr_data (send_loop left (i + 1) hdr_data (send h d))) e
    ∙ hec_loop-send_loop left (i + 1) hdr_data (send h d) (send-lt h d hh (omega arith))
    ∙ ap (λ t. hec_loop t hdr_data (send h d)) e'
    ∙ round i hdr_data h hh

-- The upper address part that is recovered from a header and its check is the one with which the
-- check was made.
pub decode_uap_from_hec-hec_for :
    (hdr_data uap : ℕ) → uap < 256 → decode_uap_from_hec hdr_data (hec_for hdr_data uap) ≡ uap
unfolding decode_uap_from_hec hec_for
decode_uap_from_hec-hec_for hdr_data uap h =
    ap reverse_byte (hec_loop-send_loop 10 0 hdr_data (reverse_byte uap) (reverse_byte-lt uap))
    ∙ reverse_byte_twice uap h

-- ===== src/Bredr/Recovery/Contract.antt =====
-- What the verdicts on payloads promise.
use supertooth.Base.{
  ℕ, zero, suc, ◌+◌, ◌-◌, ◌%◌, ◌<◌, ◌≤◌, ◌≡◌, ◌≢◌, ◌⊎◌, refl, sym, ap, ◌∙◌, subst, arith, bit_and,
  Bool, true, false, ◌&&◌, ◌||◌, not, Option, none, some, Bytes, replicate, ltb, ◌==◌,
  if◌then◌else◌, all_below, all_below_sound, ==_iff,
}
use supertooth.Bredr.Fec13.{Decoded}
use supertooth.Bredr.Fec23.{fec_decode_2_3}
use supertooth.Bredr.Packed.{copy_packed_bits}
use supertooth.Bredr.Types.{BredrFrame}
use supertooth.Bredr.Recovery.Payloads.{unwhiten, verify_dm_payload, decode_acl_payload_length}
use supertooth.Bredr.Recovery.SyncPayloads.{
  ev4_lengths, ev4_loop, verify_ev4_payload, append_chunk, verify_hv_payload, likely_if_decoded,
  check_by_type, verify_payload_crc,
}

-- The rate 2/3 code refuses a number of bits that is no multiple of 15.
refuses :
    (bits : Bytes) (n : ℕ) (out : Bytes) → (n % 15 == 0) ≡ false → fec_decode_2_3 bits n out ≡ none
unfolding fec_decode_2_3
refuses bits n out h = rw h

-- So no payload header that is coded at rate 2/3 has a length.
coded_length :
    (stream : Bytes) (off size header_bytes clock : ℕ)
    → decode_acl_payload_length stream off size true header_bytes clock ≡ none
unfolding decode_acl_payload_length
coded_length stream off size header_bytes clock = ground (
  arith,
  refuses (copy_packed_bits stream off 24 (replicate 4 0)) 24 (replicate 2 0) refl,
  refuses (copy_packed_bits stream off 12 (replicate 2 0)) 12 (replicate 1 0) refl,
)

-- The check of a DM payload refuses every frame.
verify_dm_payload-zero :
    (frame : BredrFrame) (clock type_code uap : ℕ) → verify_dm_payload frame clock type_code uap ≡ 0
unfolding verify_dm_payload
verify_dm_payload-zero frame clock type_code uap = ground (
  arith,
  coded_length frame.air_payload 80 (frame.air_payload_bits - 80) 1 clock,
  coded_length frame.air_payload 0 frame.air_payload_bits 1 clock,
  coded_length frame.air_payload 0 frame.air_payload_bits 2 clock,
)

-- The inner loop of the check of an EV4 payload leaves the length 1 as it is.
no_lengths :
    (left bits : ℕ) (payload : Bytes) (uap : ℕ) → ev4_lengths left 1 bits payload uap ≡ (false, 1)
unfolding ev4_lengths
no_lengths zero bits payload uap = refl
no_lengths (suc left) bits payload uap = refl

if_bound : (b : Bool) (x y : ℕ) → x ≤ 2 → y ≤ 2 → (if b then x else y) ≤ 2
if_bound true x y h k = h
if_bound false x y h k = k

-- The check of an EV4 payload never finds a checksum.
ev4_loop_bound :
    (left syms bits : ℕ) (stream : Bytes) (size clock uap : ℕ) (payload : Bytes)
    → ev4_loop left syms bits 1 stream size clock uap payload ≤ 2
unfolding ev4_loop
ev4_loop_bound zero syms bits stream size clock uap payload = omega arith
ev4_loop_bound (suc left) syms bits stream size clock uap payload =
    let after = λ (r : Option Decoded). elim r as (λ _. ℕ) [
      | none ↦ if ltb syms 45 then 0 else 1
      | some d ↦
          let payload' = append_chunk 10 0 bits (unwhiten d.bits 10 clock (18 + bits) 2) payload in
          let lengths = ev4_lengths (suc bits) 1 bits payload' uap in
          if lengths.0
          then 10
          else ev4_loop left (syms + 15) (bits + 10) lengths.1 stream size clock uap payload'
    ] in
    if_bound (ltb size (syms + 15)) 1 _ (omega arith)
      (elim (fec_decode_2_3 (copy_packed_bits stream syms 15 (replicate 2 0)) 15 (replicate 2 0))
        as (λ r. after r ≤ 2) [
          | none ↦ if_bound (ltb syms 45) 0 1 (omega arith) (omega arith)
          | some d ↦
              let payload' =
                append_chunk 10 0 bits (unwhiten d.bits 10 clock (18 + bits) 2) payload in
              rw (no_lengths (suc bits) bits payload' uap)
                (ev4_loop_bound left (syms + 15) (bits + 10) stream size clock uap payload')
        ])

likely_bound : (r : Option Decoded) → likely_if_decoded r ≤ 2
unfolding likely_if_decoded
likely_bound none = omega arith
likely_bound (some d) = omega arith

hv_bound : (frame : BredrFrame) (clock type_code : ℕ) → verify_hv_payload frame clock type_code ≤ 2
unfolding verify_hv_payload
hv_bound frame clock type_code = if_bound (ltb frame.air_payload_bits 240) 1 _ (omega arith) (
    if_bound (bit_and type_code 15 == 5) _ _ (likely_bound _) (
      if_bound (bit_and type_code 15 == 6) _ _ (likely_bound _)
        (if_bound (bit_and type_code 15 == 7) 2 1 (omega arith) (omega arith))))

mask_check : all_below 16 (λ t. bit_and t 0x0f == t) ≡ true
mask_check = refl

mask : (t : ℕ) → t < 16 → bit_and t 0x0f ≡ t
mask t h =
    (==_iff (bit_and t 0x0f) t).0 (all_below_sound 16 (λ t. bit_and t 0x0f == t) t mask_check h)

ev4_bound : (frame : BredrFrame) (clock uap : ℕ) → verify_ev4_payload frame clock uap ≤ 2
unfolding verify_ev4_payload
ev4_bound frame clock uap =
    ev4_loop_bound 98 0 0 frame.air_payload frame.air_payload_bits clock uap (replicate 200 0)

check_decisive :
    (frame : BredrFrame) (clock t uap : ℕ)
    → t < 16
    → 2 < check_by_type frame clock t uap
    → (t ≡ 2) ⊎ (t ≡ 4) ⊎ (t ≡ 11) ⊎ (t ≡ 15) ⊎ (t ≡ 7) ⊎ (t ≡ 13)
unfolding check_by_type
check_decisive frame clock t uap h k = ground (
  arith,
  mask t h,
  ev4_bound frame clock uap,
  hv_bound frame clock t,
  verify_dm_payload-zero frame clock t uap,
)

-- What is made of a check.
abbrev final_verdict : ℕ → ℕ → ℕ → ℕ
final_verdict bits type_code retval =
    if bits == 0
    then 1
    else if retval == 0 && not (type_code == 2 || type_code == 3 || type_code == 5)
    then 1
    else if ltb 1 retval && (type_code == 7 || type_code == 13)
    then 1
    else retval

final_verdict_lem :
    (frame : BredrFrame) (clock type_code uap : ℕ)
    → verify_payload_crc frame clock type_code uap
      ≡ final_verdict frame.air_payload_bits type_code (check_by_type frame clock type_code uap)
unfolding verify_payload_crc
final_verdict_lem frame clock type_code uap = refl

-- Verdicts, with the types that may have them.
abbrev pub VerdictFits : ℕ → ℕ → Type 0
VerdictFits type_code v =
    ((v ≡ 0) × ((type_code ≡ 2) ⊎ (type_code ≡ 3) ⊎ (type_code ≡ 5)))
    ⊎ ((v ≡ 1) ⊎ (v ≡ 2))
    ⊎ ((2 < v) × ((type_code ≡ 2) ⊎ (type_code ≡ 4) ⊎ (type_code ≡ 11) ⊎ (type_code ≡ 15)))

fits :
    (bits t r : ℕ)
    → (2 < r → (t ≡ 2) ⊎ (t ≡ 4) ⊎ (t ≡ 11) ⊎ (t ≡ 15) ⊎ (t ≡ 7) ⊎ (t ≡ 13))
    → VerdictFits t (final_verdict bits t r)
fits bits t zero h = ground arith
fits bits t (suc zero) h = ground arith
fits bits t (suc (suc zero)) h = ground arith
fits bits t (suc (suc (suc r))) h = ground (arith, h (omega arith))

-- Of the 16 types of packets, only FHS, DM1 and HV1 can have the verdict 0, by which a clock is
-- excluded, and only FHS, DH1, DH3 and DH5 can have one above 2, by which a clock is settled at
-- once; every other verdict is 1 or 2.
pub verify_payload_crc-VerdictFits :
    (frame : BredrFrame) (clock type_code uap : ℕ)
    → type_code < 16
    → VerdictFits type_code (verify_payload_crc frame clock type_code uap)
verify_payload_crc-VerdictFits frame clock type_code uap h =
    subst (VerdictFits type_code) (sym (final_verdict_lem frame clock type_code uap)) (
      fits frame.air_payload_bits type_code (check_by_type frame clock type_code uap)
        (check_decisive frame clock type_code uap h))

check_dm1 : (frame : BredrFrame) (clock uap : ℕ) → check_by_type frame clock 3 uap ≡ 0
unfolding check_by_type
check_dm1 frame clock uap = verify_dm_payload-zero frame clock 3 uap

-- A DM1 packet with any payload bits gets the verdict 0, by which the clock under which its header was
-- read is excluded, whatever those bits are.
pub verify_payload_crc-dm1 :
    (frame : BredrFrame) (clock uap : ℕ)
    → frame.air_payload_bits ≢ 0
    → verify_payload_crc frame clock 3 uap ≡ 0
verify_payload_crc-dm1 frame clock uap h =
    final_verdict_lem frame clock 3 uap
    ∙ ap (final_verdict frame.air_payload_bits 3) (check_dm1 frame clock uap)
    ∙ ground arith

-- ===== src/Bredr/Bitstream/Packet.antt =====
-- A whole packet, from the last bit of its sync word on.
use supertooth.Base.{
  ℕ, zero, suc, ◌+◌, ◌-◌, ◌%◌, ◌^◌, ◌<◌, ◌≤◌, ◌≡◌, ◌≢◌, refl, sym, ap₂, ◌∙◌, subst, arith, bit_and,
  bit_or, ltb, ◌==◌, if◌then◌else◌, u8, u64, ◌<<<◌, ◌>>>◌,
}
use supertooth.Base.Xor.{and-one}
use supertooth.Bredr.SyncWord.{gen_syncword}
use supertooth.Bredr.Bitstream.{
  BredrDecoder, bredr_collecting, bredr_valid_packet, state_draining_trailer, state_searching,
  check_window, access_code_matched, push_searching, push_trailer, check_trailer, push_bit,
  push_state,
}
use supertooth.Bredr.Bitstream.Detect.{check_window-gen_syncword}
use supertooth.Bredr.Bitstream.Store.{push_all}
use supertooth.Bredr.Bitstream.Collect.{Started, FrameOf, push_all-FrameOf}

-- The last bit of the sync word of an address, and the trailer that follows it: four bits in turn,
-- the first one unlike that last bit.
abbrev pub sw_last : ℕ → ℕ
sw_last lap = gen_syncword lap >>> 63 % 2

abbrev pub trailer_bit : ℕ → ℕ → ℕ
trailer_bit s j = (s + 1 + j) % 2

-- The machine that has found an access code.
abbrev found_at : ℕ → ℕ → ℕ → BredrDecoder → BredrDecoder
found_at lap s start d = record d {
  detected_lap = lap;
  detected_ac_errors = 0;
  detected_packet_start_bit = start;
  detected_sw_last = s;
  trailer_bits = 0;
  state = state_draining_trailer;
  drain_count = 4;
}

-- The trailer is accepted, and the machine is ready for the header.
trailer-Started :
    (f : ℕ → ℕ) (binary : (j : ℕ) → f j < 2) (m lap start s : ℕ) (d : BredrDecoder)
    → s < 2
    → Started f binary m lap 0 start (push_all m 4 0 (trailer_bit s) (found_at lap s start d))
unfolding Started push_bit push_state push_trailer check_trailer
trailer-Started f binary m lap start zero d h = (
  record { state_is = refl; lap_is = refl; errors_are = refl; start_is = refl },
  refl,
  refl,
  refl,
  refl,
  refl,
)
trailer-Started f binary m lap start (suc zero) d h = (
  record { state_is = refl; lap_is = refl; errors_are = refl; start_is = refl },
  refl,
  refl,
  refl,
  refl,
  refl,
)
trailer-Started f binary m lap start (suc (suc s)) d h = absurd (omega arith)

-- The access code of an address that has packets.
matched :
    (lap : ℕ) (d : BredrDecoder)
    → lap ≢ 0x9e8b33
    → lap ≢ 0x9e8b00
    → d.sw_window ≡ gen_syncword lap
    → access_code_matched d lap 0
      ≡ (bredr_collecting, found_at lap (sw_last lap) (u64 (d.total_bits_seen + 2 ^ 64 - 68)) d)
unfolding access_code_matched
matched lap d giac liac window =
    let last : u8 (bit_and (d.sw_window >>> 63) 1) ≡ sw_last lap =
      rw (window, and-one (gen_syncword lap >>> 63)) (omega arith) in
    ground arith

-- The bit that completes a sync word.
word_completed :
    (m lap b : ℕ) (d : BredrDecoder)
    → d.state ≡ state_searching
    → 63 ≤ d.bits_seen
    → d.bits_seen ≤ 64
    → b < 2
    → lap < 2 ^ 24
    → lap ≢ 0x9e8b33
    → lap ≢ 0x9e8b00
    → bit_or (d.sw_window >>> 1) (u64 (b <<< 63)) ≡ gen_syncword lap
    → push_bit m d b ≡ (
      bredr_collecting,
      found_at lap (sw_last lap) (u64 (u64 (d.total_bits_seen + 1) + 2 ^ 64 - 68)) (record d {
        total_bits_seen = u64 (d.total_bits_seen + 1);
        sw_window = gen_syncword lap;
        bits_seen = 64;
      }),
    )
unfolding push_bit push_state push_searching
word_completed m lap b d e low high h small giac liac window =
    let digit : (if b == 0 then 0 else 1) ≡ b = ground arith in
    let seen : (if ltb d.bits_seen 64 then d.bits_seen + 1 else d.bits_seen) ≡ 64 = ground arith in
    let counted = record d { total_bits_seen = u64 (d.total_bits_seen + 1) } in
    let shifted = record counted { sw_window = gen_syncword lap; bits_seen = 64 } in
    ap₂ (λ s t. push_state s m counted t) e digit
    ∙ ap₂ (λ w n. check_window m (record counted { sw_window = w; bits_seen = n })) window seen
    ∙ check_window-gen_syncword m lap shifted small refl refl
    ∙ matched lap shifted giac liac refl

-- From a machine that searches, the bit that completes the sync word of `lap` in the window, the four
-- bits of the trailer and 3,053 further bits `f` give a valid packet: the machine searches again
-- and a frame is ready, whose address is `lap`, without errors, and whose header and payload
-- hold the bits `f` in their order. The addresses of the inquiry access codes are excepted.
pub push_bit-FrameOf :
    (f : ℕ → ℕ) (binary : (j : ℕ) → f j < 2) (m lap b : ℕ) (d : BredrDecoder)
    → d.state ≡ state_searching
    → 63 ≤ d.bits_seen
    → d.bits_seen ≤ 64
    → b < 2
    → lap < 2 ^ 24
    → lap ≢ 0x9e8b33
    → lap ≢ 0x9e8b00
    → bit_or (d.sw_window >>> 1) (u64 (b <<< 63)) ≡ gen_syncword lap
    → let start = u64 (u64 (d.total_bits_seen + 1) + 2 ^ 64 - 68) in
      let ready = push_all m 4 0 (trailer_bit (sw_last lap)) (push_bit m d b).1 in
      let r = push_bit m (push_all m 3052 0 f ready) (f 3052) in
      (r.0 ≡ bredr_valid_packet)
      × (r.1.state ≡ state_searching)
      × (r.1.packet_ready ≡ 1)
      × FrameOf f binary m lap 0 start r.1.last_frame
push_bit-FrameOf f binary m lap b d e low high h small giac liac window =
    let start = u64 (u64 (d.total_bits_seen + 1) + 2 ^ 64 - 68) in
    let shifted = record d {
      total_bits_seen = u64 (d.total_bits_seen + 1);
      sw_window = gen_syncword lap;
      bits_seen = 64;
    } in
    let found = word_completed m lap b d e low high h small giac liac window in
    let one : sw_last lap < 2 = omega arith in
    let begun = trailer-Started f binary m lap start (sw_last lap) shifted one in
    push_all-FrameOf f binary m lap 0 start
      (push_all m 4 0 (trailer_bit (sw_last lap)) (push_bit m d b).1)
      (subst (λ r. Started f binary m lap 0 start (push_all m 4 0 (trailer_bit (sw_last lap)) r.1))
        (sym found) begun)

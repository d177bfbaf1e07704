-- ===== src/Bredr/Recovery/SyncPayloads.antt =====
-- The checks of the payloads of SCO and eSCO packets in
-- src/core/protocol/bredr/bredr_clock_recovery.c, and `verify_payload_crc`, which chooses a check.
use supertooth.Base.{
  ℕ, zero, suc, ◌+◌, ◌-◌, ◌*◌, bit_and, Bool, true, false, ◌&&◌, ◌||◌, not, Option, none, some,
  Bytes, at, set, replicate, ltb, leb, ◌==◌, if◌then◌else◌,
}
use supertooth.Bredr.Fec13.{Decoded, fec_decode_1_3}
use supertooth.Bredr.Fec23.{fec_decode_2_3}
use supertooth.Bredr.Packed.{get_packed_bit, set_packed_bit, copy_packed_bits}
use supertooth.Bredr.Types.{BredrFrame}
use supertooth.Bredr.Recovery.Payloads.{
  crc_matches, unwhiten, verify_fhs_payload, verify_dm_payload, verify_dh_payload,
}

-- The loop of the checks of EV3 and EV5 payloads, with `left` rounds to go. Each round dewhitens the
-- first eight bits of the stream.
unfoldable pub ev_loop : ℕ → ℕ → Bytes → ℕ → ℕ → ℕ → Bytes → ℕ
ev_loop zero payload_length stream size clock uap payload = 2
ev_loop (suc left) payload_length stream size clock uap payload =
    let bits = payload_length * 8 in
    let payload' = set payload payload_length (at (unwhiten stream 8 clock (18 + bits) 1) 0) in
    let rest = ev_loop left (payload_length + 1) stream size clock uap payload' in
    if ltb size (bits + 8)
    then 1
    else if ltb 2 payload_length && crc_matches payload' ((payload_length - 2) * 8) uap
    then 10
    else rest

unfoldable pub verify_ev3_payload : BredrFrame → ℕ → ℕ → ℕ
verify_ev3_payload frame clock uap =
    ev_loop 32 0 frame.air_payload frame.air_payload_bits clock uap (replicate 32 0)

unfoldable pub verify_ev5_payload : BredrFrame → ℕ → ℕ → ℕ
verify_ev5_payload frame clock uap =
    ev_loop 182 0 frame.air_payload frame.air_payload_bits clock uap (replicate 200 0)

-- `for (i = ..; left rounds) set(payload, bits + i, get(chunk, i));`
unfoldable pub append_chunk : ℕ → ℕ → ℕ → Bytes → Bytes → Bytes
append_chunk zero i bits chunk payload = payload
append_chunk (suc left) i bits chunk payload =
    append_chunk left (i + 1) bits chunk
      (set_packed_bit payload (bits + i) (get_packed_bit chunk i))

-- The inner loop of the check of an EV4 payload: whether a checksum matched, and the length. Its
-- length grows by one in each round and is at most `bits`, so `bits` rounds and one are enough.
unfoldable pub ev4_lengths : ℕ → ℕ → ℕ → Bytes → ℕ → Bool × ℕ
ev4_lengths zero payload_length bits payload uap = (false, payload_length)
ev4_lengths (suc left) payload_length bits payload uap =
    let rest = ev4_lengths left (payload_length + 1) bits payload uap in
    if not (ltb 2 payload_length && leb (payload_length * 8) bits)
    then (false, payload_length)
    else if crc_matches payload ((payload_length - 2) * 8) uap
    then (true, payload_length)
    else rest

-- The outer loop, with `left` rounds to go.
unfoldable pub ev4_loop : ℕ → ℕ → ℕ → ℕ → Bytes → ℕ → ℕ → ℕ → Bytes → ℕ
ev4_loop zero syms bits payload_length stream size clock uap payload = 2
ev4_loop (suc left) syms bits payload_length stream size clock uap payload =
    if ltb size (syms + 15)
    then 1
    else elim (fec_decode_2_3 (copy_packed_bits stream syms 15 (replicate 2 0)) 15
        (replicate 2 0)) [
          | none ↦ if ltb syms 45 then 0 else 1
          | some d ↦
              let chunk = unwhiten d.bits 10 clock (18 + bits) 2 in
              let payload' = append_chunk 10 0 bits chunk payload in
              let lengths = ev4_lengths (suc bits) payload_length bits payload' uap in
              let rest =
                ev4_loop left (syms + 15) (bits + 10) lengths.1 stream size clock uap payload' in
              if lengths.0 then 10 else rest
        ]

-- The loop ends when 1,470 symbols are read, which is after 98 rounds.
unfoldable pub verify_ev4_payload : BredrFrame → ℕ → ℕ → ℕ
verify_ev4_payload frame clock uap =
    ev4_loop 98 0 0 1 frame.air_payload frame.air_payload_bits clock uap (replicate 200 0)

-- Whether a decoder failed, for a payload that is checked no further.
unfoldable pub likely_if_decoded : Option Decoded → ℕ
likely_if_decoded none = 0
likely_if_decoded (some d) = 2

unfoldable pub verify_hv_payload : BredrFrame → ℕ → ℕ → ℕ
unfolding likely_if_decoded
verify_hv_payload frame clock type_code =
    let stream = frame.air_payload in
    let kind = bit_and type_code 0x0f in
    if ltb frame.air_payload_bits 240
    then 1
    else if kind == 5
    then likely_if_decoded (fec_decode_1_3 stream 240 (replicate 10 0))
    else if kind == 6
    then likely_if_decoded
        (fec_decode_2_3 (copy_packed_bits stream 0 240 (replicate 20 0)) 240 (replicate 20 0))
    else if kind == 7
    then 2
    else 1

-- The switch on the type.
unfoldable pub check_by_type : BredrFrame → ℕ → ℕ → ℕ → ℕ
check_by_type frame clock type_code uap =
    let t = bit_and type_code 0x0f in
    if t == 2
    then verify_fhs_payload frame clock uap
    else if t == 8 || t == 3 || t == 10 || t == 14
    then verify_dm_payload frame clock type_code uap
    else if t == 4 || t == 11 || t == 15
    then verify_dh_payload frame clock type_code uap
    else if t == 7
    then verify_ev3_payload frame clock uap
    else if t == 12
    then verify_ev4_payload frame clock uap
    else if t == 13
    then verify_ev5_payload frame clock uap
    else if t == 5
    then verify_hv_payload frame clock type_code
    else 1

unfoldable pub verify_payload_crc : BredrFrame → ℕ → ℕ → ℕ → ℕ
unfolding check_by_type
verify_payload_crc frame clock type_code uap =
    let retval = check_by_type frame clock type_code uap in
    if frame.air_payload_bits == 0
    then 1
    else if retval == 0 && not (type_code == 2 || type_code == 3 || type_code == 5)
    then 1
    else if ltb 1 retval && (type_code == 7 || type_code == 13)
    then 1
    else retval

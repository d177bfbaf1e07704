-- ===== src/Ble/Bitstream/Drain.antt =====
-- The drain loop of src/core/protocol/ble/ble_bitstream_decoder.c, which moves the machine on over the
-- bits that it holds, and the push of a bit.
use supertooth.Base.{
  ℕ, zero, suc, ◌+◌, ◌-◌, ◌*◌, ◌^◌, Bool, true, false, ◌&&◌, not, Option, none, some, [], ◌∷◌,
  Bytes, at, length, ltb, leb, ◌==◌, if◌then◌else◌, u32,
}
use supertooth.Ble.Whiten.{dewhiten}
use supertooth.Ble.Frame.{crc_bytes, payload_length_from_header}
use supertooth.Ble.Bitstream.{
  BleStatus, ble_error, ble_searching, ble_collecting, ble_valid_packet, DecState, search,
  collect_aa, collect_pdu, BleDecoder, preamble_bits, aa_end_bits, candidate_max_bits, is_preamble,
  shift_bits, restart_search, reject_and_rescan, finish_candidate, classify, data_header_plausible,
  complete_adv_frame, complete_data_frame,
}
use supertooth.Ble.Bitstream.Bits.{window8, set_bit}

-- A status that is returned, or none where the loop goes on.
abbrev pub Stepped : Type 0
Stepped = Option BleStatus × BleDecoder

unfoldable pub step_search : BleDecoder → Stepped
unfolding window8 shift_bits
step_search proc =
    let from = proc.cand_bits - preamble_bits in
    let w = window8 proc.cand from in
    if ltb proc.cand_bits preamble_bits
    then (some ble_searching, proc)
    else if is_preamble w
    then (none, record (shift_bits proc from) { detected_preamble = w; state = collect_aa })
    else (some ble_searching, shift_bits proc 1)

unfoldable pub step_aa : BleDecoder → Stepped
unfolding classify
step_aa proc =
    if ltb proc.cand_bits aa_end_bits then (some ble_collecting, proc) else (none, classify proc)

abbrev pub is_search : DecState → Bool
is_search search = true
is_search collect_aa = false
is_search collect_pdu = false

-- After the header is decoded.
unfoldable pub step_body : ℕ → BleDecoder → Stepped
unfolding complete_adv_frame complete_data_frame finish_candidate reject_and_rescan
step_body pdu_bits proc =
    let next = reject_and_rescan (complete_data_frame proc) in
    if ltb pdu_bits proc.pdu_target_bits
    then (some ble_collecting, proc)
    else if proc.is_data_candidate == 0
    then (none, finish_candidate (complete_adv_frame proc))
    else (if is_search next.state then some ble_searching else none, next)

-- The dewhitened header of the candidate.
unfoldable pub cand_header : BleDecoder → Bytes
cand_header proc = dewhiten (at proc.cand 5 ∷ at proc.cand 6 ∷ []) 2 proc.channel_index

unfoldable pub step_header : ℕ → BleDecoder → Stepped
unfolding step_body cand_header data_header_plausible reject_and_rescan
step_header pdu_bits proc =
    let header = cand_header proc in
    let decoded = record proc {
      pdu_target_bits = (2 + payload_length_from_header header + crc_bytes) * 8;
      header_decoded = 1;
    } in
    if ltb pdu_bits 16
    then (some ble_collecting, proc)
    else if not (proc.is_data_candidate == 0) && not (data_header_plausible header)
    then (none, reject_and_rescan proc)
    else step_body pdu_bits decoded

unfoldable pub step_pdu : BleDecoder → Stepped
unfolding step_header step_body
step_pdu proc =
    let pdu_bits = u32 (proc.cand_bits + 2 ^ 32 - aa_end_bits) in
    if proc.header_decoded == 0 then step_header pdu_bits proc else step_body pdu_bits proc

-- One round of the loop.
unfoldable pub drain_step : DecState → BleDecoder → Stepped
unfolding step_search step_aa step_pdu
drain_step search proc = step_search proc
drain_step collect_aa proc = step_aa proc
drain_step collect_pdu proc = step_pdu proc

-- The loop. Without rounds left the status is none.
unfoldable pub drain : ℕ → BleDecoder → Stepped
unfolding drain_step
drain zero proc = (none, proc)
drain (suc rounds) proc =
    let (status, next) = drain_step proc.state proc in
    elim status [ none ↦ drain rounds next | some s ↦ (some s, next) ]

-- Four rounds for each bit and three more are enough.
unfoldable pub rounds_for : BleDecoder → ℕ
rounds_for proc = 4 * proc.cand_bits + 3

-- The status after the loop.
abbrev pub pushed : Stepped → BleStatus × BleDecoder
pushed (status, proc) = (
  if ltb 0 (length proc.pending)
      then ble_valid_packet
      else elim status [ none ↦ ble_error | some s ↦ s ],
  proc,
)

-- `ble_bitstream_decoder_push_bit`.
unfoldable pub push_bit : BleDecoder → ℕ → BleStatus × BleDecoder
unfolding drain rounds_for set_bit restart_search
push_bit proc bit =
    let stored = record proc {
      cand = set_bit proc.cand proc.cand_bits (if bit == 0 then 0 else 1);
      cand_bits = proc.cand_bits + 1;
    } in
    let drained = pushed (drain (rounds_for stored) stored) in
    if leb candidate_max_bits proc.cand_bits then (ble_error, restart_search proc) else drained

-- ===== src/Ble/Bitstream.antt =====
-- The framing of a stream of Bluetooth LE bits: src/core/protocol/ble/ble_bitstream_decoder.c. The
-- state of the machine is a record; the queue of frames with its count is a list. `none` stands for
-- the result -1 of a search and of `get_frame`.
pub mod Bits
pub mod Drain
pub mod Shift
pub mod Steps
pub mod Body
pub mod Sound
pub mod Safety
use supertooth.Base.{
  ℕ, zero, suc, ◌+◌, ◌-◌, ◌*◌, ◌/◌, ◌%◌, ◌^◌, bit_and, bit_or, Bool, true, false, ◌&&◌, ◌||◌, not,
  Option, none, some, List, [], ◌∷◌, ◌++◌, Bytes, at, set, drop, memcpy, replicate, length, ltb,
  leb, ◌==◌, if◌then◌else◌, u8, u16, u32, ◌<<<◌, ◌>>>◌,
}
use supertooth.Ble.Bitstream.Bits.{clear_loop, get_bit, move_loop, set_bit, window8, window_loop}
use supertooth.Ble.Frame.{Frame, FrameKind, adv_frame, data_frame, crc_init_adv}

-- `ble_status_t`.
pub data BleStatus : Type 0 where
  ble_error ble_searching ble_collecting ble_valid_packet : BleStatus

-- `ble_dec_state_t`.
pub data DecState : Type 0 where
  search collect_aa collect_pdu : DecState

pub record BleDecoder : Type 0 where
  pub channel_index : ℕ
  pub state : DecState
  pub detected_preamble : ℕ
  pub access_address : ℕ
  pub cand : Bytes
  pub cand_bits : ℕ
  pub is_data_candidate : ℕ
  pub header_decoded : ℕ
  pub pdu_target_bits : ℕ
  pub last_frame : Frame
  pub frame_ready : ℕ
  pub pending : List Frame

abbrev pub preamble_bits : ℕ
preamble_bits = 8

-- `BLE_AA_END_BITS`, `BLE_CANDIDATE_MAX_BITS`, `BLE_CANDIDATE_MAX_BYTES`.
abbrev pub aa_end_bits : ℕ
aa_end_bits = 40

abbrev pub candidate_max_bits : ℕ
candidate_max_bits = 2128

abbrev pub candidate_max_bytes : ℕ
candidate_max_bytes = 272

abbrev pub frame_queue : ℕ
frame_queue = 8

abbrev pub advertising_aa : ℕ
advertising_aa = 0x8e89bed6

-- `RECEIVER_PHY_LE_1M`.
abbrev pub phy_le_1m : ℕ
phy_le_1m = 4

-- Arrays that are cleared.
unfoldable pub no_cand : Bytes
no_cand = replicate candidate_max_bytes 0

unfoldable pub no_raw : Bytes
no_raw = replicate 261 0

-- What `memset` leaves of `last_frame`.
abbrev pub no_frame : Frame
no_frame = record {
  phy = 0;
  kind = adv_frame;
  preamble = 0;
  access_address = 0;
  crc_init = 0;
  crc_ok = 0;
  raw_pdu = no_raw;
  raw_pdu_bytes = 0;
}

unfoldable pub shift_bits : BleDecoder → ℕ → BleDecoder
unfolding move_loop clear_loop
shift_bits proc k =
    let remaining = proc.cand_bits - k in
    if k == 0
    then proc
    else if leb proc.cand_bits k
    then record proc { cand_bits = 0; cand = no_cand }
    else record proc {
      cand = clear_loop k remaining (move_loop remaining 0 k proc.cand);
      cand_bits = remaining;
    }

abbrev pub is_preamble : ℕ → Bool
is_preamble w = w == 0x55 || w == 0xaa

-- The loop at offset `i`, with `left` rounds to go at most.
unfoldable pub find_loop : ℕ → ℕ → Bytes → ℕ → Option ℕ
unfolding window8
find_loop zero i cand cand_bits = none
find_loop (suc left) i cand cand_bits =
    let rest = find_loop left (i + 1) cand cand_bits in
    if ltb cand_bits (i + preamble_bits)
    then none
    else if is_preamble (window8 cand i)
    then some i
    else rest

unfoldable pub find_next_preamble : BleDecoder → ℕ → Option ℕ
unfolding find_loop
find_next_preamble proc from =
    if ltb proc.cand_bits preamble_bits
    then none
    else find_loop proc.cand_bits from proc.cand proc.cand_bits

-- At most seven bits are kept.
unfoldable pub restart_search : BleDecoder → BleDecoder
unfolding shift_bits
restart_search proc =
    let keep = if ltb 7 proc.cand_bits then 7 else proc.cand_bits in
    record (shift_bits proc (proc.cand_bits - keep)) {
      state = search;
      header_decoded = 0;
      pdu_target_bits = 0;
    }

-- What both ways to the next candidate do with the offset that was found.
unfoldable pub resume_at : Option ℕ → BleDecoder → BleDecoder
unfolding restart_search shift_bits
resume_at none proc = restart_search proc
resume_at (some k) proc =
    let shifted = shift_bits proc k in
    record shifted {
      detected_preamble = at shifted.cand 0;
      state = collect_aa;
      header_decoded = 0;
      pdu_target_bits = 0;
    }

unfoldable pub reject_and_rescan : BleDecoder → BleDecoder
unfolding resume_at find_next_preamble
reject_and_rescan proc = resume_at (find_next_preamble proc 1) proc

unfoldable pub finish_candidate : BleDecoder → BleDecoder
unfolding resume_at find_next_preamble shift_bits
finish_candidate proc =
    let shifted = shift_bits proc (aa_end_bits + proc.pdu_target_bits) in
    resume_at (find_next_preamble shifted 0) shifted

unfoldable pub preamble_matches_aa : ℕ → ℕ → Bool
preamble_matches_aa preamble aa = preamble == (if bit_and aa 1 == 0 then 0xaa else 0x55)

-- The loop at bit `i`, with `left` rounds to go.
unfoldable pub run_loop : ℕ → ℕ → ℕ → ℕ → ℕ → ℕ
run_loop zero i aa cur best = best
run_loop (suc left) i aa cur best =
    let cur' = if bit_and (aa >>> i) 1 == bit_and (aa >>> (i - 1)) 1 then cur + 1 else 1 in
    run_loop left (i + 1) aa cur' (if ltb best cur' then cur' else best)

unfoldable pub aa_max_run : ℕ → ℕ
unfolding run_loop
aa_max_run aa = run_loop 31 1 aa 1 1

unfoldable pub data_aa_plausible : ℕ → Bool
unfolding aa_max_run
data_aa_plausible aa =
    if aa == 0 || aa == 0xffffffff then false else if ltb 6 (aa_max_run aa) then false else true

unfoldable pub data_header_plausible : Bytes → Bool
data_header_plausible header =
    if bit_and (at header 0) 3 == 0
    then false
    else if not (bit_and (at header 0) 0xe0 == 0)
    then false
    else true

-- The access address of the candidate.
unfoldable pub read_aa : Bytes → ℕ
read_aa cand =
    bit_or (bit_or (bit_or (at cand 1) (u32 (at cand 2 <<< 8))) (u32 (at cand 3 <<< 16)))
      (u32 (at cand 4 <<< 24))

-- `ble_classify`, whose result the caller does not use.
unfoldable pub classify : BleDecoder → BleDecoder
unfolding read_aa preamble_matches_aa data_aa_plausible reject_and_rescan
classify proc =
    let aa = read_aa proc.cand in
    let read = record proc { access_address = aa } in
    let typed = record read { is_data_candidate = if aa == advertising_aa then 0 else 1 } in
    if not (preamble_matches_aa proc.detected_preamble aa)
    then reject_and_rescan read
    else if not (aa == advertising_aa) && not (data_aa_plausible aa)
    then reject_and_rescan typed
    else record typed { state = collect_pdu }

-- A frame that does not fit the queue is lost.
unfoldable pub emit : BleDecoder → BleDecoder
emit proc = record proc {
  pending =
      if ltb (length proc.pending) frame_queue
      then proc.pending ++ proc.last_frame ∷ []
      else proc.pending;
  last_frame = no_frame;
  frame_ready = 0;
}

-- `ble_complete_adv_frame` and `ble_complete_data_frame` differ in the kind of the frame and in its
-- initial value.
unfoldable pub complete_frame : FrameKind → ℕ → BleDecoder → BleDecoder
unfolding emit
complete_frame kind crc_init proc =
    let frame_bytes = proc.pdu_target_bits / 8 in
    emit (record proc {
      last_frame = record {
        phy = phy_le_1m;
        kind = kind;
        preamble = proc.detected_preamble;
        access_address = proc.access_address;
        crc_init = crc_init;
        crc_ok = 0;
        raw_pdu = memcpy proc.last_frame.raw_pdu (drop 5 proc.cand) frame_bytes;
        raw_pdu_bytes = u16 frame_bytes;
      };
      frame_ready = 1;
    })

unfoldable pub complete_adv_frame : BleDecoder → BleDecoder
unfolding complete_frame
complete_adv_frame proc = complete_frame adv_frame crc_init_adv proc

unfoldable pub complete_data_frame : BleDecoder → BleDecoder
unfolding complete_frame
complete_data_frame proc = complete_frame data_frame 0 proc

-- `ble_bitstream_decoder_init`.
unfoldable pub decoder_init : ℕ → BleDecoder
decoder_init channel_index = record {
  channel_index = channel_index;
  state = search;
  detected_preamble = 0;
  access_address = 0;
  cand = no_cand;
  cand_bits = 0;
  is_data_candidate = 0;
  header_decoded = 0;
  pdu_target_bits = 0;
  last_frame = no_frame;
  frame_ready = 0;
  pending = [];
}

-- The oldest frame of the queue.
abbrev take_first : BleDecoder → List Frame → Option (Frame × BleDecoder)
take_first proc [] = none
take_first proc (f ∷ fs) = some (f, record proc { pending = fs })

unfoldable pub get_frame : BleDecoder → Option (Frame × BleDecoder)
get_frame proc = take_first proc proc.pending

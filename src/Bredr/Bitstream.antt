-- ===== src/Bredr/Bitstream.antt =====
-- The framing of a stream of bits: src/core/protocol/bredr/bredr_bitstream_decoder.c. The state of
-- the machine is a record, the result of a push the status and the state that is left. The
-- process-wide limit on errors in an access code, which is set once, is an argument.
pub mod Collect
pub mod Store
pub mod Detect
pub mod Packet
pub mod Safety
use supertooth.Base.{
  ℕ, zero, suc, ◌+◌, ◌-◌, ◌*◌, ◌/◌, ◌%◌, ◌^◌, bit_and, bit_or, bit_xor, Bool, ◌&&◌, ◌||◌, not,
  Option, none, some, Bytes, at, replicate, ltb, leb, ◌==◌, if◌then◌else◌, u8, u32, u64, ◌<<<◌,
  ◌>>>◌,
}
use supertooth.Bredr.Packed.{set_packed_bit}
use supertooth.Bredr.SyncWord.{gen_syncword}
use supertooth.Bredr.Types.{BredrFrame, max_air_payload_bytes}

-- `bredr_status_t`.
pub data BredrStatus : Type 0 where
  bredr_error bredr_searching bredr_collecting bredr_valid_packet : BredrStatus

-- `STATE_SEARCHING`, `STATE_DRAINING_TRAILER`, `STATE_COLLECTING`.
pub data BredrState : Type 0 where
  state_searching state_draining_trailer state_collecting : BredrState

pub record BredrDecoder : Type 0 where
  pub sw_window : ℕ
  pub bits_seen : ℕ
  pub total_bits_seen : ℕ
  pub state : BredrState
  pub drain_count : ℕ
  pub collected_header_raw : ℕ
  pub collected_air_payload : Bytes
  pub collected_air_payload_bits : ℕ
  pub bits_collected : ℕ
  pub bits_to_collect : ℕ
  pub header_decoded : ℕ
  pub detected_lap : ℕ
  pub detected_ac_errors : ℕ
  pub detected_packet_start_bit : ℕ
  pub detected_sw_last : ℕ
  pub trailer_bits : ℕ
  pub last_frame : BredrFrame
  pub packet_ready : ℕ

-- The process-wide limit, as its setter leaves it and its getter returns it.
set_global_max_ac_errors : ℕ → ℕ
set_global_max_ac_errors max_ac_errors = u8 max_ac_errors

get_global_max_ac_errors : ℕ → ℕ
get_global_max_ac_errors g_max_ac_errors = g_max_ac_errors

abbrev pub max_air_payload_bits : ℕ
max_air_payload_bits = 2999

-- An array that is cleared.
unfoldable pub no_payload : Bytes
no_payload = replicate max_air_payload_bytes 0

-- `RECEIVER_PHY_BR`.
abbrev pub phy_br : ℕ
phy_br = 1

-- What `memset` leaves of `last_frame`.
abbrev pub no_frame : BredrFrame
no_frame = record {
  phy = 0;
  start_bit_index = 0;
  lap = 0;
  ac_errors = 0;
  header_raw = 0;
  air_payload = no_payload;
  air_payload_bits = 0;
  has_header = 0;
}

-- The loop of `popcount64`, with `left` rounds at most: a word of 64 bits has no more.
unfoldable pub popcount_loop : ℕ → ℕ → ℕ → ℕ
popcount_loop zero x n = n
popcount_loop (suc left) x n = popcount_loop left (x >>> 1) (u8 (n + u8 (bit_and x 1)))

unfoldable pub popcount64 : ℕ → ℕ
unfolding popcount_loop
popcount64 x = popcount_loop 64 x 0

unfoldable pub popcount7 : ℕ → ℕ
popcount7 x =
    let a = bit_and x 0x7f in
    let b = u8 (bit_and a 0x55 + bit_and (a >>> 1) 0x55) in
    let c = u8 (bit_and b 0x33 + bit_and (b >>> 2) 0x33) in u8 (bit_and (c + (c >>> 4)) 0x0f)

unfoldable pub barker_ok : ℕ → Bool
unfolding popcount7
barker_ok window =
    let b = u8 (bit_and (window >>> 57) 0x7f) in
    let d0 = popcount7 (u8 (bit_xor b 0x27)) in
    let d1 = popcount7 (u8 (bit_xor b 0x58)) in leb (if ltb d0 d1 then d0 else d1) 1

unfoldable pub reset_collection : BredrDecoder → BredrDecoder
reset_collection proc = record proc {
  state = state_searching;
  drain_count = 0;
  collected_header_raw = 0;
  collected_air_payload = no_payload;
  collected_air_payload_bits = 0;
  bits_collected = 0;
  bits_to_collect = 0;
  header_decoded = 0;
  detected_lap = 0;
  detected_ac_errors = 0;
  detected_sw_last = 0;
  trailer_bits = 0;
}

-- `none` is the result 0.
unfoldable pub push_header_bit : BredrDecoder → ℕ → Option BredrDecoder
push_header_bit proc bit =
    let n = proc.bits_collected in
    let raw = proc.collected_header_raw in
    if leb 54 n
    then none
    else some (record proc {
      collected_header_raw = if bit_and bit 1 == 0 then raw else bit_or raw (u64 (1 <<< n));
      bits_collected = n + 1;
    })

unfoldable pub push_air_payload_bit : BredrDecoder → ℕ → Option BredrDecoder
push_air_payload_bit proc bit =
    let n = proc.collected_air_payload_bits in
    if leb max_air_payload_bytes (n / 8)
    then none
    else some (record proc {
      collected_air_payload = set_packed_bit proc.collected_air_payload n bit;
      collected_air_payload_bits = n + 1;
      bits_collected = proc.bits_collected + 1;
    })

unfoldable pub decoder_init : BredrDecoder
decoder_init = record {
  sw_window = 0;
  bits_seen = 0;
  total_bits_seen = 0;
  state = state_searching;
  drain_count = 0;
  collected_header_raw = 0;
  collected_air_payload = no_payload;
  collected_air_payload_bits = 0;
  bits_collected = 0;
  bits_to_collect = 0;
  header_decoded = 0;
  detected_lap = 0;
  detected_ac_errors = 0;
  detected_packet_start_bit = 0;
  detected_sw_last = 0;
  trailer_bits = 0;
  last_frame = no_frame;
  packet_ready = 0;
}

-- A frame without header and payload.
unfoldable pub id_frame : ℕ → ℕ → ℕ → BredrFrame
id_frame start lap ac_errors = record no_frame {
  phy = phy_br;
  start_bit_index = start;
  lap = lap;
  ac_errors = ac_errors;
}

-- An access code that matched. `BREDR_LAP_GIAC` and `BREDR_LAP_LIAC` never have a body.
unfoldable pub access_code_matched : BredrDecoder → ℕ → ℕ → BredrStatus × BredrDecoder
access_code_matched proc lap ac_errors =
    let start = u64 (proc.total_bits_seen + 2 ^ 64 - 68) in
    let found = record proc {
      detected_lap = lap;
      detected_ac_errors = ac_errors;
      detected_packet_start_bit = start;
    } in
    if lap == 0x9e8b33 || lap == 0x9e8b00
    then (
      bredr_valid_packet,
      record found { last_frame = id_frame start lap ac_errors; packet_ready = 1 },
    )
    else (
      bredr_collecting,
      record found {
        detected_sw_last = u8 (bit_and (proc.sw_window >>> 63) 1);
        trailer_bits = 0;
        state = state_draining_trailer;
        drain_count = 4;
      },
    )

-- The state SEARCHING, after the window is shifted.
unfoldable pub check_window : ℕ → BredrDecoder → BredrStatus × BredrDecoder
check_window max_ac_errors proc =
    let lap = u32 (bit_and (proc.sw_window >>> 34) 0xffffff) in
    let ac_errors = popcount64 (bit_xor proc.sw_window (gen_syncword lap)) in
    if ltb proc.bits_seen 64
    then (bredr_searching, proc)
    else if not (barker_ok proc.sw_window)
    then (bredr_searching, proc)
    else if ltb max_ac_errors ac_errors
    then (bredr_searching, proc)
    else access_code_matched proc lap ac_errors

unfoldable pub push_searching : ℕ → BredrDecoder → ℕ → BredrStatus × BredrDecoder
push_searching max_ac_errors proc b = check_window max_ac_errors (record proc {
  sw_window = bit_or (proc.sw_window >>> 1) (u64 (b <<< 63));
  bits_seen = if ltb proc.bits_seen 64 then proc.bits_seen + 1 else proc.bits_seen;
})

-- The state DRAINING_TRAILER, after the bit is stored.
unfoldable pub check_trailer : BredrDecoder → BredrStatus × BredrDecoder
check_trailer proc =
    let expected = if proc.detected_sw_last == 0 then 0x5 else 0xa in
    if ltb 0 proc.drain_count
    then (bredr_collecting, proc)
    else if not (bit_and proc.trailer_bits 0xf == expected)
    then (
      bredr_valid_packet,
      reset_collection (record proc {
        last_frame =
            id_frame proc.detected_packet_start_bit proc.detected_lap proc.detected_ac_errors;
        packet_ready = 1;
      }),
    )
    else (
      bredr_collecting,
      record proc {
        state = state_collecting;
        collected_header_raw = 0;
        collected_air_payload = no_payload;
        collected_air_payload_bits = 0;
        bits_collected = 0;
        bits_to_collect = 0;
        header_decoded = 0;
      },
    )

unfoldable pub push_trailer : BredrDecoder → ℕ → BredrStatus × BredrDecoder
push_trailer proc b = check_trailer (record proc {
  trailer_bits = u8 (bit_or proc.trailer_bits (u8 (b <<< u8 (4 + 2 ^ 32 - proc.drain_count))));
  drain_count = u32 (proc.drain_count + 2 ^ 32 - 1);
})

-- The frame that is assembled when all bits are there.
unfoldable pub complete_frame : BredrDecoder → BredrStatus × BredrDecoder
complete_frame proc = (
  bredr_valid_packet,
  reset_collection (record proc {
    last_frame = record {
      phy = phy_br;
      start_bit_index = proc.detected_packet_start_bit;
      lap = proc.detected_lap;
      ac_errors = proc.detected_ac_errors;
      header_raw = proc.collected_header_raw;
      air_payload = proc.collected_air_payload;
      air_payload_bits = proc.collected_air_payload_bits;
      has_header = 1;
    };
    packet_ready = 1;
  }),
)

-- The state COLLECTING, after the bit is stored.
unfoldable pub check_complete : BredrDecoder → BredrStatus × BredrDecoder
check_complete proc =
    let full = 54 + max_air_payload_bits in
    let seen =
      if proc.header_decoded == 0 && leb 54 proc.bits_collected
      then record proc { bits_to_collect = full; header_decoded = 1 }
      else proc in
    let target = if seen.header_decoded == 0 then full else seen.bits_to_collect in
    if ltb seen.bits_collected target then (bredr_collecting, seen) else complete_frame seen

-- What follows the storing of a bit, with its result.
unfoldable pub after_store : BredrDecoder → Option BredrDecoder → BredrStatus × BredrDecoder
after_store proc none = (bredr_error, reset_collection proc)
after_store proc (some stored) = check_complete stored

unfoldable pub push_collecting : BredrDecoder → ℕ → BredrStatus × BredrDecoder
push_collecting proc b =
    after_store proc
      (if proc.header_decoded == 0 then push_header_bit proc b else push_air_payload_bit proc b)

-- The three states.
unfoldable pub push_state : BredrState → ℕ → BredrDecoder → ℕ → BredrStatus × BredrDecoder
push_state state_searching max_ac_errors proc b = push_searching max_ac_errors proc b
push_state state_draining_trailer max_ac_errors proc b = push_trailer proc b
push_state state_collecting max_ac_errors proc b = push_collecting proc b

unfoldable pub push_bit : ℕ → BredrDecoder → ℕ → BredrStatus × BredrDecoder
push_bit max_ac_errors proc bit =
    push_state proc.state max_ac_errors
      (record proc { total_bits_seen = u64 (proc.total_bits_seen + 1) }) (if bit == 0 then 0 else 1)

-- `none` is the result -1.
unfoldable pub get_frame : BredrDecoder → Option (BredrFrame × BredrDecoder)
get_frame proc =
    if proc.packet_ready == 0
    then none
    else some (proc.last_frame, record proc { last_frame = no_frame; packet_ready = 0 })

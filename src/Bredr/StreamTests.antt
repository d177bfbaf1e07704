-- ===== src/Bredr/StreamTests.antt =====
-- The theorems on the bit stream, the connection and its clock at concrete inputs, with tests.
use supertooth.Base.{
  ℕ, ◌+◌, ◌-◌, ◌*◌, ◌%◌, ◌^◌, ◌<◌, ◌≡◌, ◌≢◌, refl, arith, bit_or, false, [], ◌∷◌, u64, ◌<<<◌, ◌>>>◌,
  flag, replicate,
}
use supertooth.Base.Int.{pos}
use supertooth.Models.{BredrEvent}
use supertooth.Bredr.Types.{BredrFrame}
use supertooth.Bredr.SyncWord.{gen_syncword}
use supertooth.Bredr.Bitstream.{
  BredrDecoder, decoder_init, push_bit, bredr_error, bredr_valid_packet, state_searching, no_frame,
}
use supertooth.Bredr.Bitstream.Store.{push_all}
use supertooth.Bredr.Bitstream.Collect.{FrameOf}
use supertooth.Bredr.Bitstream.Packet.{sw_last, trailer_bit, push_bit-FrameOf}
use supertooth.Bredr.Bitstream.Safety.{
  DecoderIsValid, decoder_init-DecoderIsValid, push_bit-DecoderIsValid,
}
use supertooth.Bredr.Link.{BredrLink, link_init, sample_to_rx_clk_1600}
use supertooth.Bredr.Link.Queue.{queue_insert_event}
use supertooth.Bredr.Link.Queue.Ring.{contents, insert_by_start, newest_only, is_last, QueueIsValid}
use supertooth.Bredr.Link.Queue.Refines.{queue_insert_event-insert_by_start}
use supertooth.Bredr.Link.Packets.{link_add_packet}
use supertooth.Bredr.Link.Reachable.{LinkIsValid, begun, added, Reachable-LinkIsValid}
use supertooth.Bredr.Recovery.SyncPayloads.{verify_payload_crc}
use supertooth.Bredr.Recovery.Contract.{
  VerdictFits, verify_payload_crc-VerdictFits, verify_payload_crc-dm1,
}
use supertooth.Bredr.Recovery.Track.{recovery_process, recover_clock_drift, expected_clock}
use supertooth.Bredr.Recovery.Acquired.{ClockFits, recovery_process-ClockFits}
use supertooth.Bredr.Recovery.Drift.{OffsetMoves, recover_clock_drift-OffsetMoves}

-- A machine that has all bits but the last one of the sync word of 0x123456 in its window.
abbrev almost : BredrDecoder
almost = record decoder_init {
  state = state_searching;
  bits_seen = 63;
  total_bits_seen = 163;
  sw_window = u64 (gen_syncword 0x123456 * 2);
}

alternating : ℕ → ℕ
alternating j = j % 2

alternating_binary : (j : ℕ) → alternating j < 2
unfolding alternating
alternating_binary j = omega arith

completes : bit_or (almost.sw_window >>> 1) (u64 (sw_last 0x123456 <<< 63)) ≡ gen_syncword 0x123456
unfolding gen_syncword
completes = refl

push_bit-FrameOf_example :
    let start = u64 (u64 (almost.total_bits_seen + 1) + 2 ^ 64 - 68) in
    let ready =
      push_all 0 4 0 (trailer_bit (sw_last 0x123456)) (push_bit 0 almost (sw_last 0x123456)).1 in
    let r = push_bit 0 (push_all 0 3052 0 alternating ready) (alternating 3052) in
    (r.0 ≡ bredr_valid_packet)
    × (r.1.state ≡ state_searching)
    × (r.1.packet_ready ≡ 1)
    × FrameOf alternating alternating_binary 0 0x123456 0 start r.1.last_frame
push_bit-FrameOf_example =
    push_bit-FrameOf alternating alternating_binary 0 0x123456 (sw_last 0x123456) almost refl
      (omega arith) (omega arith) (omega arith) (omega arith) (omega arith) (omega arith) completes

push_bit-DecoderIsValid_example :
    ((push_bit 6 decoder_init 1).0 ≢ bredr_error) × DecoderIsValid (push_bit 6 decoder_init 1).1
push_bit-DecoderIsValid_example =
    push_bit-DecoderIsValid 6 decoder_init 1 decoder_init-DecoderIsValid

-- An event that starts at a sample of a radio with 20,000,000 samples in a second.
abbrev event_at : ℕ → ℕ → BredrEvent
event_at sample header = record {
  meta = record {
    source_id = 0;
    radio_start_sample_index = sample;
    radio_sample_rate_hz = 20000000;
    center_frequency_hz = 2441000000;
    channel_index = 39;
    rssi_dbr = 0;
  };
  frame = record no_frame { phy = 1; lap = 0x123456; header_raw = header; has_header = 1 };
}

empty_QueueIsValid : QueueIsValid (link_init 0x123456)
unfolding link_init
empty_QueueIsValid = record { head_bound = omega arith; fill_bound = omega arith }

abbrev one_event : BredrLink
one_event = (queue_insert_event (link_init 0x123456) (event_at 5000 0)).1

-- An event that is delivered late.
queue_insert_event-insert_by_start_example :
    (contents (queue_insert_event one_event (event_at 4000 0)).1
      ≡ newest_only (insert_by_start (event_at 4000 0) (contents one_event)))
    × ((queue_insert_event one_event (event_at 4000 0)).0
        ≡ flag (is_last (event_at 4000 0) (contents one_event)))
    × QueueIsValid (queue_insert_event one_event (event_at 4000 0)).1
queue_insert_event-insert_by_start_example =
    queue_insert_event-insert_by_start one_event (event_at 4000 0)
      (queue_insert_event-insert_by_start (link_init 0x123456) (event_at 5000 0)
        empty_QueueIsValid).2

late_event : (queue_insert_event one_event (event_at 4000 0)).0 ≡ 0
unfolding queue_insert_event link_init
late_event = refl

abbrev body : BredrFrame
body = record no_frame {
  has_header = 1;
  air_payload = 0x35 ∷ 0x91 ∷ 0x07 ∷ 0xc2 ∷ 0x5a ∷ 0x11 ∷ 0x6e ∷ 0x80 ∷ [];
  air_payload_bits = 64;
}

verify_payload_crc-VerdictFits_example : VerdictFits 4 (verify_payload_crc body 12 4 0x6b)
verify_payload_crc-VerdictFits_example = verify_payload_crc-VerdictFits body 12 4 0x6b (omega arith)

verify_payload_crc-dm1_example : verify_payload_crc body 12 3 0x6b ≡ 0
verify_payload_crc-dm1_example = verify_payload_crc-dm1 body 12 0x6b (omega arith)

abbrev header_bits : ℕ
header_bits = 0x3fe381c7038e07

fresh_clock : (link_init 0x123456).clk_known ≡ 0
unfolding link_init
fresh_clock = refl

recovery_process-ClockFits_example :
    ClockFits
      (event_at 5000 header_bits).frame
      (sample_to_rx_clk_1600 (event_at 5000 header_bits))
      (recovery_process (replicate 18 0) (link_init 0x123456) (event_at 5000 header_bits))
recovery_process-ClockFits_example =
    recovery_process-ClockFits (replicate 18 0) (link_init 0x123456) (event_at 5000 header_bits)
      fresh_clock

-- A link that suspects a drift of 1.
abbrev suspicious : BredrLink
suspicious = record (link_init 0x123456) {
  uap = 0x6b;
  uap_valid = 1;
  clk_known = 1;
  clock_offset = 17;
  drift_candidate = pos 1;
  tracking_state = pos 3;
}

recover_clock_drift-OffsetMoves_example :
    OffsetMoves suspicious
      (event_at 5000 header_bits).frame
      (expected_clock suspicious 400)
      (recover_clock_drift suspicious (event_at 5000 header_bits).frame 400).1
recover_clock_drift-OffsetMoves_example =
    recover_clock_drift-OffsetMoves suspicious (event_at 5000 header_bits).frame 400

Reachable-LinkIsValid_example :
    LinkIsValid
      (link_add_packet
        (λ (n : ℕ). false)
        (replicate 18 0)
        (link_init 0x123456)
        (event_at 5000 header_bits)).1
Reachable-LinkIsValid_example =
    Reachable-LinkIsValid (λ (n : ℕ). false)
      (link_add_packet (λ (n : ℕ). false) (replicate 18 0) (link_init 0x123456)
        (event_at 5000 header_bits)).1
      (added (replicate 18 0) (event_at 5000 header_bits) (begun 0x123456))

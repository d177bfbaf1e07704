-- ===== src/Bredr/Link.antt =====
-- One observed connection: the state of src/core/protocol/bredr/bredr_link.h and the part of
-- bredr_link.c that neither queues events nor recovers a clock. An `int` that is never negative is
-- a natural number, and so is `unsigned long`, with 64 bits.
pub mod Queue
pub mod Packets
pub mod Reachable
use supertooth.Base.{
  ℕ, ◌+◌, ◌-◌, ◌*◌, ◌/◌, ◌^◌, bit_and, Bool, ◌||◌, ◌==◌, if◌then◌else◌, u32, u64, u8,
}
use supertooth.Base.Arrays.{Array, filled}
use supertooth.Base.Int.{ℤ, pos, negsuc}
use supertooth.Bredr.Bitstream.{no_frame}
use supertooth.Models.{BredrEvent, no_metadata}
use supertooth.Models.Rssi.{RssiTracker, cleared_tracker, rssi_tracker_init}

pub record BredrLink : Type 0 where
  pub lap : ℕ
  pub uap : ℕ
  pub uap_valid : ℕ
  pub clk_known : ℕ
  pub clock_offset : ℕ
  pub drift_candidate : ℤ
  pub tracking_state : ℤ
  pub recovery_candidates : Array ℤ
  pub recovery_first_pkt_time : ℕ
  pub recovery_got_first_packet : ℕ
  pub recovery_esco_lt_mask : Array ℕ
  pub recovery_acl_lt_mask : Array ℕ
  pub combined_rssi_track : RssiTracker
  pub central_rssi_track : RssiTracker
  pub peripheral_rssi_track : Array RssiTracker
  pub queue : Array BredrEvent
  pub queue_head : ℕ
  pub queue_fill : ℕ
  pub total_packets : ℕ
  pub central_pkts : ℕ
  pub peripheral_pkts : Array ℕ
  pub first_seen : ℕ
  pub last_seen : ℕ

-- Ticks of a clock with `rate` ticks in a second, from the index of a sample.
abbrev ticks : ℕ → BredrEvent → ℕ
ticks rate event =
    let hz = event.meta.radio_sample_rate_hz in
    if hz == 0
    then 0
    else u32 (u64 (u64 (event.meta.radio_start_sample_index * rate) + hz / 2) / hz)

unfoldable pub sample_to_rx_clk_1600 : BredrEvent → ℕ
sample_to_rx_clk_1600 event = ticks 1600 event

unfoldable pub sample_to_clkn : BredrEvent → ℕ
sample_to_clkn event = ticks 3200 event

-- `bredr_recovery_reset` of bredr_clock_recovery.c.
unfoldable pub recovery_reset : BredrLink → BredrLink
recovery_reset link = record link {
  recovery_candidates = filled (negsuc 0);
  recovery_esco_lt_mask = filled 0;
  recovery_acl_lt_mask = filled 0;
  uap_valid = 0;
  clock_offset = 0;
  drift_candidate = pos 0;
  recovery_first_pkt_time = 0;
  recovery_got_first_packet = 0;
}

abbrev no_event : BredrEvent
no_event = record { meta = no_metadata; frame = no_frame }

-- What `memset` leaves.
abbrev cleared_link : BredrLink
cleared_link = record {
  lap = 0;
  uap = 0;
  uap_valid = 0;
  clk_known = 0;
  clock_offset = 0;
  drift_candidate = pos 0;
  tracking_state = pos 0;
  recovery_candidates = filled (pos 0);
  recovery_first_pkt_time = 0;
  recovery_got_first_packet = 0;
  recovery_esco_lt_mask = filled 0;
  recovery_acl_lt_mask = filled 0;
  combined_rssi_track = cleared_tracker;
  central_rssi_track = cleared_tracker;
  peripheral_rssi_track = filled cleared_tracker;
  queue = filled no_event;
  queue_head = 0;
  queue_fill = 0;
  total_packets = 0;
  central_pkts = 0;
  peripheral_pkts = filled 0;
  first_seen = 0;
  last_seen = 0;
}

-- `BREDR_LAP_GIAC`, `BREDR_LAP_LIAC`: their upper address part is `BREDR_DCI`.
unfoldable pub link_init : ℕ → BredrLink
unfolding recovery_reset rssi_tracker_init
link_init lap =
    let link = recovery_reset (record cleared_link {
      lap = bit_and lap 0xffffff;
      tracking_state = negsuc 0;
      drift_candidate = pos 0;
      combined_rssi_track = rssi_tracker_init cleared_tracker;
      central_rssi_track = rssi_tracker_init cleared_tracker;
      peripheral_rssi_track = λ i. rssi_tracker_init (filled cleared_tracker i);
    }) in
    if link.lap == 0x9e8b33 || link.lap == 0x9e8b00
    then record link { uap = 0; uap_valid = 1 }
    else link

-- The arithmetic is that of `unsigned`.
unfoldable pub link_set_uap : BredrLink → ℕ → ℕ → ℕ → BredrLink
link_set_uap link uap central_clk_1_6 rx_clk_1600 = record link {
  uap = uap;
  uap_valid = 1;
  clock_offset = bit_and (u32 (central_clk_1_6 + 2 ^ 32 - rx_clk_1600)) 0x3f;
  clk_known = 1;
  tracking_state = pos 1;
  drift_candidate = pos 0;
}

unfoldable pub link_set_uap_only : BredrLink → ℕ → BredrLink
link_set_uap_only link uap = record link {
  uap = uap;
  uap_valid = 1;
  clk_known = 0;
  tracking_state = negsuc 0;
  drift_candidate = pos 0;
}

unfoldable pub link_central_clk_1_6 : BredrLink → ℕ → ℕ
link_central_clk_1_6 link rx_clk_1600 = u8 (bit_and (u32 (rx_clk_1600 + link.clock_offset)) 0x3f)

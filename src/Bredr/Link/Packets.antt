-- ===== src/Bredr/Link/Packets.antt =====
-- What a received event does to a connection: `bredr_link_add_packet` of
-- src/core/protocol/bredr/bredr_link.c. `isnan` is the function of the C library, on the bits of a
-- `float`; `stack` is what an array of the recovery holds before it is written.
use supertooth.Base.{
  ℕ, ◌+◌, bit_and, bit_or, Bool, ◌&&◌, ◌||◌, not, Bytes, at, ◌==◌, if◌then◌else◌, u8, u64, ◌<<<◌,
}
use supertooth.Base.Arrays.{update}
use supertooth.Base.Int.{is_positive}
use supertooth.Models.{BredrEvent}
use supertooth.Models.Rssi.{rssi_tracker_add}
use supertooth.Bredr.Hec.{decode_header_bits}
use supertooth.Bredr.Link.{BredrLink, sample_to_rx_clk_1600, link_central_clk_1_6}
use supertooth.Bredr.Link.Queue.{queue_insert_event}
use supertooth.Bredr.Recovery.Track.{recovery_process}

abbrev pub has_active_track : BredrLink → Bool
has_active_track link =
    not (link.uap_valid == 0) && not (link.clk_known == 0) && is_positive link.tracking_state

-- The counter, the queue and the times.
unfoldable pub record_packet : BredrLink → BredrEvent → ℕ × BredrLink
record_packet link event =
    let rx_clk_1600 = sample_to_rx_clk_1600 event in
    let (newest, queued) =
      queue_insert_event (record link { total_packets = u64 (link.total_packets + 1) }) event in
    (
      newest,
      record queued {
        first_seen = if queued.total_packets == 1 then rx_clk_1600 else queued.first_seen;
        last_seen = if newest == 0 then queued.last_seen else rx_clk_1600;
      },
    )

-- The aggregate power, before a track is active.
unfoldable pub add_combined : (ℕ → Bool) → BredrLink → BredrEvent → BredrLink
unfolding rssi_tracker_add
add_combined isnan link event =
    if not (has_active_track link) && not (isnan event.meta.rssi_dbr)
    then record link { combined_rssi_track = rssi_tracker_add link.combined_rssi_track event.meta }
    else link

-- The power of a packet whose sender is known.
unfoldable pub add_directional : BredrLink → BredrEvent → BredrLink
unfolding rssi_tracker_add
add_directional link event =
    let packet_clk6 = link_central_clk_1_6 link (sample_to_rx_clk_1600 event) in
    let bits = decode_header_bits event.frame packet_clk6 in
    let lt = bit_or (bit_or (at bits 0) (u8 (at bits 1 <<< 1))) (u8 (at bits 2 <<< 2)) in
    if bit_and packet_clk6 1 == 0
    then record link {
      central_rssi_track = rssi_tracker_add link.central_rssi_track event.meta;
      central_pkts = u64 (link.central_pkts + 1);
    }
    else record link {
      peripheral_rssi_track =
          update link.peripheral_rssi_track lt
            (rssi_tracker_add (link.peripheral_rssi_track lt) event.meta);
      peripheral_pkts = update link.peripheral_pkts lt (u64 (link.peripheral_pkts lt + 1));
    }

-- The newest packet drives the recovery of the clock.
unfoldable pub drive_recovery : Bytes → BredrLink → BredrEvent → ℕ × BredrLink
unfolding recovery_process
drive_recovery stack link event =
    if event.frame.has_header == 0 then (0, link) else recovery_process stack link event

unfoldable pub link_add_packet : (ℕ → Bool) → Bytes → BredrLink → BredrEvent → ℕ × BredrLink
unfolding record_packet add_combined add_directional drive_recovery
link_add_packet isnan stack link event =
    let (newest, recorded) = record_packet link event in
    let begun = if newest == 0 then recorded else add_combined isnan recorded event in
    let (lock_ok, driven) = drive_recovery stack begun event in
    if newest == 0
    then (newest, begun)
    else if not (has_active_track recorded) || lock_ok == 0 || isnan event.meta.rssi_dbr
    then (newest, driven)
    else (newest, add_directional driven event)

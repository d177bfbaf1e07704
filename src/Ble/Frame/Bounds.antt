-- ===== src/Ble/Frame/Bounds.antt =====
-- `ble_decode_frame` accepts exactly the sizes that a frame can have, and stays inside its arrays.
use supertooth.Base.{ℕ, ◌+◌, ◌<◌, ◌≤◌, ◌≡◌, ◌↔◌, ◌⊎◌, arith, Bytes, none, length}
use supertooth.Ble.Frame.{Frame, Pdu, adv, ll_data, decode_frame, payload_length_from_header}
use supertooth.Ble.Frame.Payload.{
  Address, AdvData, AdvPayload, adv_ind, adv_nonconn_ind, scan_rsp, adv_scan_ind, adv_direct_ind,
  scan_req, connect_ind, unknown,
}

-- A frame is refused exactly if it is too short for a header and a checksum, or longer than the
-- longest PDU with its checksum.
decode_frame-none_iff :
    (frame : Frame) (channel_index : ℕ)
    → (decode_frame frame channel_index ≡ none)
      ↔ ((frame.raw_pdu_bytes < 5) ⊎ (261 < frame.raw_pdu_bytes))
unfolding decode_frame
decode_frame-none_iff frame channel_index = ground arith

-- Every array has the size of the source's, and the length beside it stays within.
abbrev AddressFits : Address → Type 0
AddressFits a = length a.addr ≡ 6

abbrev AdvDataFits : AdvData → Type 0
AdvDataFits d = AddressFits d.adv_addr × (length d.adv_data ≡ 250) × (d.adv_data_len ≤ 250)

abbrev pub PayloadFits : AdvPayload → Type 0
PayloadFits (adv_ind d) = AdvDataFits d
PayloadFits (adv_nonconn_ind d) = AdvDataFits d
PayloadFits (scan_rsp d) = AdvDataFits d
PayloadFits (adv_scan_ind d) = AdvDataFits d
PayloadFits (adv_direct_ind d) = AddressFits d.adv_addr × AddressFits d.target_addr
PayloadFits (scan_req d) = AddressFits d.scanner_addr × AddressFits d.adv_addr
PayloadFits (connect_ind d) =
    AddressFits d.init_addr
    × AddressFits d.adv_addr
    × (length d.ll_data ≡ 22)
    × (d.ll_data_len ≤ 22)
PayloadFits (unknown d) = (length d.payload ≡ 256) × (d.payload_len ≤ 256)

abbrev pub PduFits : ℕ → Pdu → Type 0
PduFits total (adv p) = PayloadFits p.payload × (p.payload_len + 5 ≤ total)
PduFits total (ll_data p) =
    (length p.payload ≡ 255) × (p.payload_len ≤ 255) × (p.payload_len + 5 ≤ total)

pub payload_length_bound : (d : Bytes) → payload_length_from_header d ≤ 256
unfolding payload_length_from_header
payload_length_bound d = ground arith

-- ===== src/Ble/Tests.antt =====
-- Runs of the Bluetooth LE codec on concrete frames.
use supertooth.Base.{
  Bytes, List, [], arith, at, if◌then◌else◌, inl, inr, ltb, refl, replicate, some, suc, true, zero,
  ℕ, ◌%◌, ◌*◌, ◌+◌, ◌↔◌, ◌∷◌, ◌≡◌, ◌≢◌,
}
use supertooth.Ble.Whiten.{dewhiten}
use supertooth.Ble.Whiten.Stream.{key_bit, dewhiten-key_bit}
use supertooth.Ble.Crc.{crc_calc}
use supertooth.Ble.Crc.Detect.{crc_calc_distinct}
use supertooth.Ble.CrcInit.{fresh, tables_init, reverse_init_len2}
use supertooth.Ble.CrcInit.Recover.{reverse_init_len2-crc_calc, crc_calc-reverse_init_len2}
use supertooth.Ble.Frame.{Frame, data_frame, Packet, adv, decode_frame, decode_dewhitened}
use supertooth.Base.Bits.{bit}
use supertooth.Ble.Frame.Payload.{public, random}
use supertooth.Ble.Frame.Sent.{advertise_nonconn, header_of, content_of, pdu_sent}
use supertooth.Ble.Frame.RoundTrip.{adv_crc, received, decode_frame-received}
use supertooth.Ble.Channels.{rf_for_channel_number, channel_number_for_rf}
use supertooth.Ble.Channels.{rf_for_channel_number-channel_number_for_rf_iff}
use supertooth.Ble.AdvInfo.{AdvInfo, no_info, has_uuid, adv_info_merge}
use supertooth.Ble.AdvInfo.Parse.{adv_parse_info}
use supertooth.Ble.AdvInfo.Valid.{InfoIsValid, adv_parse_info-InfoIsValid}
use supertooth.Ble.AdvInfo.Items.{Item, some_flags, services16, other, class}
use supertooth.Ble.AdvInfo.Merge.{
  Extends, count_full, adv_info_merge-InfoIsValid, adv_info_merge-count_full,
}
use supertooth.Ble.ConnectInd.{ConnectIndParams, connect_ind_parse}
use supertooth.Ble.ConnectInd.RoundTrip.{ll_data_of, connect_ind_parse-ll_data_of}

-- An empty data PDU.
abbrev empty_pdu : Bytes
empty_pdu = 1 ∷ 0 ∷ []

reverse_init_len2-crc_calc_example :
    reverse_init_len2 fresh empty_pdu (crc_calc empty_pdu 2 0x123456)
    ≡ (0x123456, tables_init fresh)
reverse_init_len2-crc_calc_example =
    reverse_init_len2-crc_calc fresh empty_pdu 0x123456 (inl refl) (omega arith)

crc_calc-reverse_init_len2_example :
    crc_calc empty_pdu 2 (reverse_init_len2 (tables_init fresh) empty_pdu 0xabcdef).0 ≡ 0xabcdef
crc_calc-reverse_init_len2_example =
    crc_calc-reverse_init_len2 (tables_init fresh) empty_pdu 0xabcdef (inr refl) (omega arith)

-- ADV_NONCONN_IND of a device with a random address and the flags.
abbrev adv_payload : Bytes
adv_payload = 1 ∷ 2 ∷ 3 ∷ 4 ∷ 5 ∷ 6 ∷ 2 ∷ 1 ∷ 6 ∷ []

decode_frame-received_example :
    let m = advertise_nonconn (1 ∷ 2 ∷ 3 ∷ 4 ∷ 5 ∷ 6 ∷ []) (2 ∷ 1 ∷ 6 ∷ []) in
    let header = header_of m random public 2 in
    (p : Packet) × (decode_frame (received 0 37 header (content_of m) (7 ∷ 8 ∷ [])) 37 ≡ some p)
    × (p.crc_ok ≡ 1)
    × (p.crc ≡ adv_crc header (content_of m))
    × (p.pdu ≡ adv (pdu_sent m random public))
decode_frame-received_example =
    decode_frame-received 0 37 2 (advertise_nonconn (1 ∷ 2 ∷ 3 ∷ 4 ∷ 5 ∷ 6 ∷ []) (2 ∷ 1 ∷ 6 ∷ []))
      random public (7 ∷ 8 ∷ []) (refl, omega arith) (omega arith)

-- The last bit of the second byte, of three of which two are whitened.
dewhiten-key_bit_example :
    bit (at (dewhiten (0x12 ∷ 0x34 ∷ 0x56 ∷ []) 2 37) 1) 7
    ≡ (bit (at (0x12 ∷ 0x34 ∷ 0x56 ∷ []) 1) 7
        + (if ltb 1 2 then key_bit (37 % 64) (8 * 1 + 7) else 0))
      % 2
dewhiten-key_bit_example =
    dewhiten-key_bit (0x12 ∷ 0x34 ∷ 0x56 ∷ []) 2 37 1 7 (omega arith) (omega arith)

-- A frame of two header bytes and a checksum.
abbrev short_frame : ℕ → Frame
short_frame n = record {
  phy = 0;
  kind = data_frame;
  preamble = 0xaa;
  access_address = 0x12345678;
  crc_init = 0;
  crc_ok = 0;
  raw_pdu = 1 ∷ 0 ∷ 3 ∷ 4 ∷ 5 ∷ [];
  raw_pdu_bytes = n;
}

-- What the shortest frame is decoded to.
abbrev short_packet : Packet
short_packet = decode_dewhitened (short_frame 5) (dewhiten (1 ∷ 0 ∷ 3 ∷ 4 ∷ 5 ∷ []) 5 0) 2

-- The second byte is damaged.
apart_elsewhere : (k : ℕ) → k ≢ 1 → at empty_pdu k ≡ at (1 ∷ 6 ∷ []) k
apart_elsewhere zero h = refl
apart_elsewhere (suc zero) h = absurd (h refl)
apart_elsewhere (suc (suc k)) h = refl

crc_calc_distinct_example : crc_calc empty_pdu 2 0x555555 ≢ crc_calc (1 ∷ 6 ∷ []) 2 0x555555
crc_calc_distinct_example =
    crc_calc_distinct empty_pdu (1 ∷ 6 ∷ []) 2 0x555555 1 (omega arith) apart_elsewhere
      (omega arith) (omega arith) (omega arith)

rf_for_channel_number-channel_number_for_rf_iff_example :
    (channel_number_for_rf 12 ≡ 38) ↔ (rf_for_channel_number 38 ≡ 12)
rf_for_channel_number-channel_number_for_rf_iff_example =
    rf_for_channel_number-channel_number_for_rf_iff 12 38 (omega arith) (omega arith)

abbrev connection : ConnectIndParams
connection = record {
  access_address = 0xaf9a8b7c;
  crc_init = 0x123456;
  window_size = 2;
  window_offset = 300;
  interval = 36;
  latency = 0;
  timeout = 42;
  channel_map = 255 ∷ 255 ∷ 255 ∷ 255 ∷ 31 ∷ [];
  hop_increment = 9;
  sleep_clock_accuracy = 5;
}

connect_ind_parse-ll_data_of_example : connect_ind_parse (ll_data_of connection) ≡ connection
connect_ind_parse-ll_data_of_example = connect_ind_parse-ll_data_of connection record {
  access_address_fits = omega arith;
  crc_init_fits = omega arith;
  window_size_fits = omega arith;
  window_offset_fits = omega arith;
  interval_fits = omega arith;
  latency_fits = omega arith;
  timeout_fits = omega arith;
  channel_map_size = refl;
  hop_increment_fits = omega arith;
  sleep_clock_accuracy_fits = omega arith;
}

-- The flags, two service addresses of which one stands twice, and a 128-bit one.
abbrev adv_info_bytes : Bytes
adv_info_bytes = 2 ∷ 1 ∷ 6 ∷ 7 ∷ 3 ∷ 0x0f ∷ 0x18 ∷ 0x0d ∷ 0x18 ∷ 0x0f ∷ 0x18 ∷ []

abbrev full_uuid : Bytes
full_uuid = replicate 16 0x5a

adv_parse_info-InfoIsValid_example : InfoIsValid (adv_parse_info adv_info_bytes 11)
adv_parse_info-InfoIsValid_example = adv_parse_info-InfoIsValid adv_info_bytes 11

parsed_services : (adv_parse_info adv_info_bytes 11).service_uuids ≡ 0x180f ∷ 0x180d ∷ []
unfolding adv_parse_info has_uuid
parsed_services = refl

battery_parsed : has_uuid 0x180f (adv_parse_info adv_info_bytes 11).service_uuids ≡ true
unfolding adv_parse_info has_uuid
battery_parsed = refl

-- A summary with one 128-bit address, merged into itself.
abbrev one_full : AdvInfo
one_full = record no_info { uuid128 = full_uuid ∷ []; uuid128_total = 1 }

adv_info_merge-count_full_example : (adv_info_merge one_full one_full).uuid128_total ≡ (
    if ltb (one_full.uuid128_total + count_full one_full.uuid128) one_full.uuid128_total
    then one_full.uuid128_total
    else one_full.uuid128_total + count_full one_full.uuid128)
adv_info_merge-count_full_example = adv_info_merge-count_full one_full one_full (omega arith)

-- The flags, two services, a name that is passed over, an end marker, and more behind it.
abbrev four_items : List Item
four_items =
    some_flags 6 []
    ∷ services16 true (0x180f ∷ 0x180d ∷ [])
    ∷ other 0x09 (0x61 ∷ 0x62 ∷ [])
    ∷ class 0x5a020c []
    ∷ []

-- The first merge of a device that was not seen before.
no_info-InfoIsValid : InfoIsValid no_info
no_info-InfoIsValid = record {
  room16 = omega arith;
  distinct16 = tt;
  room32 = omega arith;
  distinct32 = tt;
  room128 = omega arith;
}

adv_info_merge-InfoIsValid_example :
    InfoIsValid (adv_info_merge no_info (adv_parse_info adv_info_bytes 11))
    × Extends no_info (adv_info_merge no_info (adv_parse_info adv_info_bytes 11))
adv_info_merge-InfoIsValid_example =
    adv_info_merge-InfoIsValid no_info (adv_parse_info adv_info_bytes 11) no_info-InfoIsValid

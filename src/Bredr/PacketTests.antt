-- ===== src/Bredr/PacketTests.antt =====
-- Runs of the BR/EDR packet decoder on concrete frames.
use supertooth.Base.{
  ◌+◌, ◌*◌, ◌≤◌, ◌≡◌, refl, arith, true, [], ◌∷◌, ◌++◌, Bytes, length, take, replicate,
}
use supertooth.Bredr.Packed.{get_packed_bit, set_packed_bit, pack_header_raw}
use supertooth.Bredr.Fec13.{fec_decode_1_3}
use supertooth.Bredr.PayloadCrc.{payload_crc, reverse_byte}
use supertooth.Bredr.Types.{
  BredrFrame, AclPayload, acl_payload_header_bytes, acl_max_user_payload_bytes,
}
use supertooth.Bredr.Hec.{
  decode_uap_from_hec, hec_ok_for_clk6, hec_ok_for_clk6_clean, clean_from, decode_header_fec,
  whitened_bits, gather,
}
use supertooth.Bredr.Hec.Uap.{hec_for, decode_uap_from_hec-hec_for}
use supertooth.Bredr.SyncWord.{gen_syncword}
use supertooth.Bredr.SyncWord.Lap.{lap_field, lap_field-gen_syncword}
use supertooth.Bredr.Acl.{parse_acl_payload, acl_length}
use supertooth.Bredr.Acl.Parse.{parse_acl_payload-fits}
use supertooth.Bredr.Acl.Sent.{acl_sent}
use supertooth.Bredr.Acl.RoundTrip.{parse_acl_payload-acl_sent}
use supertooth.Bredr.Sync.{
  parse_sync_payload, after_search, with_crc, crc_search, crc_search_limit, expected_sync_bytes,
}
use supertooth.Bredr.Sync.Parse.{parse_sync_payload-checked}
use supertooth.Bredr.Decode.{decode_bredr_frame}
use supertooth.Bredr.Decode.Laws.{decode_bredr_frame-hec_ok_for_clk6}

decode_uap_from_hec-hec_for_example : decode_uap_from_hec 0x155 (hec_for 0x155 0x47) ≡ 0x47
decode_uap_from_hec-hec_for_example = decode_uap_from_hec-hec_for 0x155 0x47 (omega arith)

lap_field-gen_syncword_example : lap_field (gen_syncword 0x9e8b33) ≡ 0x9e8b33
lap_field-gen_syncword_example = lap_field-gen_syncword 0x9e8b33 (omega arith)

-- The header of a DH1 packet to device 1, for upper address part 0x47 and clock 21.
abbrev dh1_frame : BredrFrame
dh1_frame = record {
  phy = 0;
  start_bit_index = 0;
  lap = 0x9e8b33;
  ac_errors = 0;
  header_raw = 0x3fe3803f007fc0;
  air_payload = [];
  air_payload_bits = 0;
  has_header = 1;
}

dh1_clean : hec_ok_for_clk6_clean dh1_frame 0x47 21 ≡ 1
unfolding hec_ok_for_clk6_clean clean_from decode_header_fec whitened_bits gather
    decode_uap_from_hec reverse_byte pack_header_raw fec_decode_1_3 get_packed_bit set_packed_bit
dh1_clean = refl

decode_bredr_frame-hec_ok_for_clk6_example :
    (decode_bredr_frame dh1_frame 0x47 21 []).0 ≡ hec_ok_for_clk6 dh1_frame 0x47 21
decode_bredr_frame-hec_ok_for_clk6_example = decode_bredr_frame-hec_ok_for_clk6 dh1_frame 0x47 21 []

abbrev no_acl : AclPayload
no_acl = record {
  llid = 0;
  flow = 0;
  length = 0;
  user_payload = replicate 1021 0;
  has_mic = 0;
  mic = 0;
  mic_ok = 0;
  has_crc = 0;
  crc = 0;
  crc_ok = 0;
}

-- Two bytes of user payload in a DM1 packet, whose checksum was not received.
abbrev acl_bytes : Bytes
acl_bytes = 0x12 ∷ 7 ∷ 8 ∷ []

acl_accepted : (parse_acl_payload acl_bytes 3 3 0x47 no_acl).accepted ≡ true
unfolding parse_acl_payload acl_length acl_payload_header_bytes acl_max_user_payload_bytes
acl_accepted = refl

parse_acl_payload-fits_example :
    let p = (parse_acl_payload acl_bytes 3 3 0x47 no_acl).out in
    (p.length ≤ acl_max_user_payload_bytes 3)
    × (acl_payload_header_bytes 3 + p.length ≤ 3)
    × (length p.user_payload ≡ 1021)
parse_acl_payload-fits_example =
    parse_acl_payload-fits acl_bytes 3 3 0x47 no_acl (omega arith) acl_accepted

dh3_room : acl_max_user_payload_bytes 11 ≡ 183
unfolding acl_max_user_payload_bytes
dh3_room = refl

-- A DH3 packet, whose header has two bytes.
parse_acl_payload-acl_sent_example :
    let sent = acl_sent (acl_payload_header_bytes 11) 2 1 (5 ∷ 6 ∷ 7 ∷ []) 0x47 in
    let r = parse_acl_payload (sent ++ 9 ∷ []) (length sent) 11 0x47 no_acl in
    (r.accepted ≡ true)
    × (r.out.llid ≡ 2)
    × (r.out.flow ≡ 1)
    × (r.out.length ≡ 3)
    × (take 3 r.out.user_payload ≡ 5 ∷ 6 ∷ 7 ∷ [])
    × (r.out.crc_ok ≡ 1)
parse_acl_payload-acl_sent_example =
    parse_acl_payload-acl_sent 11 2 1 0x47 (5 ∷ 6 ∷ 7 ∷ []) (9 ∷ []) no_acl (omega arith)
      (omega arith) (omega (arith, dh3_room)) (omega (arith, dh3_room))

-- Two bytes in an EV4 packet, with their checksum.
abbrev esco_bytes : Bytes
esco_bytes = 5 ∷ 6 ∷ 146 ∷ 223 ∷ []

esco_found : (parse_sync_payload esco_bytes 4 12 0x47).out.has_crc ≡ 1
unfolding parse_sync_payload after_search with_crc crc_search crc_search_limit expected_sync_bytes
    payload_crc reverse_byte get_packed_bit
esco_found = refl

parse_sync_payload-checked_example :
    let p = (parse_sync_payload esco_bytes 4 12 0x47).out in
    (p.payload_bytes + 2 ≤ 4) × (payload_crc esco_bytes (p.payload_bytes * 8) 0x47 ≡ p.crc)
parse_sync_payload-checked_example = parse_sync_payload-checked esco_bytes 4 12 0x47 esco_found

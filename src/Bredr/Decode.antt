-- ===== src/Bredr/Decode.antt =====
-- `bredr_decode_frame` of src/core/protocol/bredr/bredr_codec.c.
pub mod Laws
use supertooth.Base.{
  ℕ, ◌+◌, Bool, true, false, ◌||◌, not, Bytes, replicate, ◌==◌, if◌then◌else◌, u16,
}
use supertooth.Bredr.Types.{
  BredrFrame, frame_air_payload_bytes, max_air_payload_bytes, DecodedHeader, AclPayload, SyncPacket,
  Status, raw_only, family_only, partial_payload, full_payload, Limit, limit_none, no_header,
  hec_failed, unsupported_packet_type, unsupported_payload_coding, Family, family_none, control,
  fhs, acl, sco, esco, hybrid, unknown, classify_family, payload_has_supported_coding,
}
use supertooth.Bredr.Hec.{decode_header}
use supertooth.Bredr.Air.{decode_acl_payload_from_air, decode_sync_payload_from_air}
use supertooth.Bredr.Acl.{AclResult, parse_acl_payload}
use supertooth.Bredr.Sync.{SyncResult, parse_sync_payload}

-- The union of `bredr_packet_t`; `cleared` is what `memset` leaves.
pub data Payload : Type 0 where
  cleared : Payload
  acl_payload : AclPayload → Payload
  sync_payload : SyncPacket → Payload
  unknown_payload : ℕ → Payload

pub record BredrPacket : Type 0 where
  pub phy : ℕ
  pub status : Status
  pub limit : Limit
  pub family : Family
  pub air_payload_bytes : ℕ
  pub decoded_payload_bytes : ℕ
  pub header : DecodedHeader
  pub payload : Payload

abbrev no_header_fields : DecodedHeader
no_header_fields = record {
  lt_addr = 0;
  type_code = 0;
  flow = 0;
  arqn = 0;
  seqn = 0;
  hec = 0;
  hec_ok = 0;
}

abbrev no_acl : AclPayload
no_acl = record {
  llid = 0;
  flow = 0;
  length = 0;
  user_payload = replicate 1021 0;
  has_mic = 0;
  mic = 0;
  mic_ok = 0;
  has_crc = 0;
  crc = 0;
  crc_ok = 0;
}

-- The packet before the header is read.
unfoldable pub raw_packet : BredrFrame → BredrPacket
raw_packet frame = record {
  phy = frame.phy;
  status = raw_only;
  limit = limit_none;
  family = family_none;
  air_payload_bytes = u16 (frame_air_payload_bytes frame);
  decoded_payload_bytes = 0;
  header = no_header_fields;
  payload = cleared;
}

-- The branch for ACL packets. `decoded` is the local array, whatever it holds.
unfoldable pub decode_acl : BredrFrame → ℕ → ℕ → Bytes → BredrPacket → BredrPacket
decode_acl frame uap clk1_6 decoded p =
    let air =
      decode_acl_payload_from_air frame p.header.type_code clk1_6 decoded max_air_payload_bytes in
    let n = u16 air.0 in
    let r = parse_acl_payload air.1 n p.header.type_code uap no_acl in
    record p {
      decoded_payload_bytes = n;
      payload = acl_payload r.out;
      limit = r.limit;
      status = if r.accepted then full_payload else partial_payload;
    }

-- The branch for SCO and eSCO packets.
unfoldable pub decode_sync : BredrFrame → ℕ → ℕ → Bytes → BredrPacket → BredrPacket
decode_sync frame uap clk1_6 decoded p =
    let air =
      decode_sync_payload_from_air frame p.header.type_code clk1_6 decoded max_air_payload_bytes in
    let n = u16 air.0 in
    let r = parse_sync_payload air.1 n p.header.type_code uap in
    let crc_bytes = if r.out.has_crc == 0 then 0 else 2 in
    record p {
      decoded_payload_bytes = if r.accepted then u16 (r.out.payload_bytes + crc_bytes) else n;
      payload = sync_payload r.out;
      family = r.family;
      limit = r.limit;
      status = if r.accepted then full_payload else partial_payload;
    }

-- The last branch: nothing of the payload is decoded.
unfoldable pub decode_other : BredrPacket → BredrPacket
decode_other p = record p {
  limit =
      if payload_has_supported_coding p.header.type_code
      then unsupported_packet_type
      else unsupported_payload_coding;
  payload = unknown_payload p.air_payload_bytes;
}

-- What follows a header whose check is right, by family.
unfoldable pub decode_family : Family → BredrFrame → ℕ → ℕ → Bytes → BredrPacket → BredrPacket
decode_family control frame uap clk1_6 decoded p = record p { status = full_payload }
decode_family acl frame uap clk1_6 decoded p = decode_acl frame uap clk1_6 decoded p
decode_family sco frame uap clk1_6 decoded p = decode_sync frame uap clk1_6 decoded p
decode_family esco frame uap clk1_6 decoded p = decode_sync frame uap clk1_6 decoded p
decode_family family_none frame uap clk1_6 decoded p = decode_other p
decode_family fhs frame uap clk1_6 decoded p = decode_other p
decode_family hybrid frame uap clk1_6 decoded p = decode_other p
decode_family unknown frame uap clk1_6 decoded p = decode_other p

-- The value that is returned, and the packet.
unfoldable pub decode_bredr_frame : BredrFrame → ℕ → ℕ → Bytes → ℕ × BredrPacket
decode_bredr_frame frame uap clk1_6 decoded =
    let raw = raw_packet frame in
    let header = decode_header frame uap clk1_6 in
    let family = classify_family header.type_code in
    if frame.has_header == 0
    then (0, record raw { limit = no_header })
    else if header.hec_ok == 0
    then (0, record raw { limit = hec_failed; header = header })
    else (
      1,
      decode_family family frame uap clk1_6 decoded
          (record raw { header = header; family = family; status = family_only }),
    )

-- ===== src/Bredr/Acl.antt =====
-- ACL payloads: `bredr_parse_acl_payload` of src/core/protocol/bredr/bredr_codec.c.
pub mod Parse
pub mod Sent
pub mod RoundTrip
use supertooth.Base.{
  ℕ, zero, suc, ◌+◌, ◌*◌, ◌/◌, ◌%◌, bit_and, bit_or, Bool, true, false, ◌||◌, Bytes, at, drop,
  memcpy, replicate, ltb, leb, ◌==◌, if◌then◌else◌, flag, u8, u16, ◌<<<◌, ◌>>>◌,
}
use supertooth.Bredr.PayloadCrc.{payload_crc}
use supertooth.Bredr.Types.{
  AclPayload, Limit, limit_none, truncated_payload, impossible_acl_length, invalid_acl_header,
  acl_payload_header_bytes, acl_max_user_payload_bytes,
}

-- The result, the structure that is filled, and the limit that is reported.
pub record AclResult : Type 0 where
  pub accepted : Bool
  pub out : AclPayload
  pub limit : Limit

abbrev refused : AclPayload → Limit → AclResult
refused out limit = record { accepted = false; out = out; limit = limit }

-- `out->length`: five bits of the first byte, and five of the second where there is one.
unfoldable pub acl_length : Bytes → ℕ → ℕ
acl_length payload header_bytes =
    let low = u16 (bit_and (at payload 0 >>> 3) 0x1f) in
    if header_bytes == 2 then bit_or low (u16 (bit_and (at payload 1) 0x1f <<< 5)) else low

-- The structure when its length is known.
unfoldable pub acl_header : Bytes → ℕ → AclPayload
acl_header payload len = record {
  llid = u8 (bit_and (at payload 0) 0x03);
  flow = u8 (bit_and (at payload 0 >>> 2) 0x01);
  length = len;
  user_payload = replicate 1021 0;
  has_mic = 0;
  mic = 0;
  mic_ok = 0;
  has_crc = 0;
  crc = 0;
  crc_ok = 0;
}

-- The bytes that are copied, and the checksum if it was received.
unfoldable pub acl_body : Bytes → ℕ → ℕ → ℕ → ℕ → AclPayload
acl_body payload payload_len header_bytes len uap =
    let head = acl_header payload len in
    let filled = record head {
      user_payload = memcpy head.user_payload (drop header_bytes payload) len;
    } in
    let data_bytes = header_bytes + len in
    let received = u16 (bit_or (at payload data_bytes) (u16 (at payload (data_bytes + 1) <<< 8))) in
    if leb (data_bytes + 2) payload_len
    then record filled {
      has_crc = 1;
      crc = received;
      crc_ok = flag (payload_crc payload (data_bytes * 8) uap == received);
    }
    else filled

unfoldable pub parse_acl_payload : Bytes → ℕ → ℕ → ℕ → AclPayload → AclResult
parse_acl_payload payload payload_len type_code uap out =
    let header_bytes = acl_payload_header_bytes type_code in
    let max_user_bytes = acl_max_user_payload_bytes type_code in
    let len = acl_length payload header_bytes in
    if header_bytes == 0
    then refused out invalid_acl_header
    else if ltb payload_len header_bytes
    then refused out truncated_payload
    else if max_user_bytes == 0
    then refused (acl_header payload len) invalid_acl_header
    else if ltb max_user_bytes len
    then refused (acl_header payload len) impossible_acl_length
    else if ltb 1021 len
    then refused (acl_header payload len) invalid_acl_header
    else if ltb payload_len (header_bytes + len)
    then refused (acl_header payload len) truncated_payload
    else record {
      accepted = true;
      out = acl_body payload payload_len header_bytes len uap;
      limit = limit_none;
    }

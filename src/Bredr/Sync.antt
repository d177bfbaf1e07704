-- ===== src/Bredr/Sync.antt =====
-- SCO and eSCO payloads: `bredr_parse_sync_payload` of src/core/protocol/bredr/bredr_codec.c.
pub mod Parse
use supertooth.Base.{
  ℕ, zero, suc, ◌+◌, ◌-◌, ◌*◌, ◌/◌, ◌%◌, bit_and, bit_or, Bool, true, false, ◌||◌, ◌&&◌, not,
  Option, none, some, Bytes, at, memcpy, replicate, ltb, ◌==◌, if◌then◌else◌, flag, u16, ◌<<<◌,
}
use supertooth.Bredr.PayloadCrc.{payload_crc}
use supertooth.Bredr.Types.{
  SyncPacket, Family, esco, sco, Limit, limit_none, truncated_payload, unsupported_packet_type,
  esco_crc_unresolved,
}

pub record SyncResult : Type 0 where
  pub accepted : Bool
  pub out : SyncPacket
  pub family : Family
  pub limit : Limit

abbrev pub no_sync : SyncPacket
no_sync = record {
  payload_bytes = 0;
  payload = replicate 540 0;
  has_crc = 0;
  crc = 0;
  crc_ok = 0;
  is_esco = 0;
}

-- `payload[total_bytes - 2] | payload[total_bytes - 1] << 8`.
abbrev pub trailer : Bytes → ℕ → ℕ
trailer payload total_bytes =
    u16 (bit_or (at payload (total_bytes - 2)) (u16 (at payload (total_bytes - 1) <<< 8)))

-- The search for a length at which the checksum is right, at `total_bytes`, with `left` rounds to
-- go.
unfoldable pub crc_search : ℕ → ℕ → Bytes → ℕ → Option ℕ
crc_search zero total_bytes payload uap = none
crc_search (suc left) total_bytes payload uap =
    let rest = crc_search left (total_bytes + 1) payload uap in
    if payload_crc payload ((total_bytes - 2) * 8) uap == trailer payload total_bytes
    then some total_bytes
    else rest

unfoldable pub expected_sync_bytes : ℕ → ℕ
expected_sync_bytes t =
    if t == 5
    then 10
    else if t == 6
    then 20
    else if t == 7
    then 30
    else if t == 12
    then 122
    else 182

unfoldable pub crc_search_limit : ℕ → ℕ
crc_search_limit t = if t == 5 || t == 6 then 0 else if t == 7 then 32 else expected_sync_bytes t

-- Whether the family that the first switch resolves is eSCO.
abbrev pub is_esco_type : ℕ → Bool
is_esco_type t = t == 12 || t == 13

unfoldable pub with_crc : Bytes → ℕ → ℕ → SyncPacket
with_crc payload t total_bytes =
    let n = u16 (total_bytes - 2) in
    record {
      payload_bytes = n;
      payload = memcpy (replicate 540 0) payload n;
      has_crc = 1;
      crc = trailer payload total_bytes;
      crc_ok = 1;
      is_esco = flag (is_esco_type t || t == 7);
    }

unfoldable pub without_crc : Bytes → ℕ → ℕ → SyncPacket
without_crc payload t n = record {
  payload_bytes = u16 n;
  payload = memcpy (replicate 540 0) payload n;
  has_crc = 0;
  crc = 0;
  crc_ok = 0;
  is_esco = flag (is_esco_type t);
}

-- What follows the search, with its result.
unfoldable pub after_search : Option ℕ → Bytes → ℕ → ℕ → SyncResult
after_search (some total_bytes) payload payload_len t = record {
  accepted = true;
  out = with_crc payload t total_bytes;
  family = esco;
  limit = limit_none;
}
after_search none payload payload_len t =
    let family = if is_esco_type t then esco else sco in
    let expected = expected_sync_bytes t in
    if not (crc_search_limit t == 0) && not (t == 7)
    then record { accepted = false; out = no_sync; family = family; limit = esco_crc_unresolved }
    else record {
      accepted = true;
      out = without_crc payload t (if ltb payload_len expected then payload_len else expected);
      family = family;
      limit = limit_none;
    }

unfoldable pub parse_sync_payload : Bytes → ℕ → ℕ → ℕ → SyncResult
parse_sync_payload payload payload_len type_code uap =
    let t = bit_and type_code 0x0f in
    let family = if is_esco_type t then esco else sco in
    let ev_limit = crc_search_limit t in
    let minimum = if ev_limit == 0 then expected_sync_bytes t else 3 in
    let search_limit = if ltb payload_len ev_limit then payload_len else ev_limit in
    if not (t == 5 || t == 6 || t == 7 || is_esco_type t)
    then record {
      accepted = false;
      out = no_sync;
      family = family;
      limit = unsupported_packet_type;
    }
    else if ltb payload_len minimum
    then record { accepted = false; out = no_sync; family = family; limit = truncated_payload }
    else if ev_limit == 0
    then after_search none payload payload_len t
    else after_search (crc_search (search_limit - 2) 3 payload uap) payload payload_len t

-- ===== src/Bredr/Recovery.antt =====
-- What a header says under a supposed clock, in src/core/protocol/bredr/bredr_clock_recovery.c:
-- `decode_uap_for_clock`, `sanity_check_header`, `verify_payload_crc` and
-- `apply_esco_lt_addr_rule`. The children have the checks of the payloads, the search for a clock
-- and the tracking of one.
pub mod Payloads
pub mod SyncPayloads
pub mod Solve
pub mod Track
pub mod Lock
pub mod Acquired
pub mod Drift
pub mod Frame
pub mod Contract
use supertooth.Base.{
  ℕ, ◌+◌, ◌^◌, bit_and, bit_or, Bool, false, ◌&&◌, ◌||◌, not, Option, none, some, Bytes, at,
  replicate, ltb, leb, ◌==◌, if◌then◌else◌, u8, u16, ◌<<<◌,
}
use supertooth.Base.Arrays.{Array, update}
use supertooth.Base.Int.{ℤ, pos, negsuc, ◌==ℤ◌}
use supertooth.Bredr.Fec13.{Decoded, fec_decode_1_3}
use supertooth.Bredr.Hec.{decode_uap_from_hec}
use supertooth.Bredr.Link.{BredrLink}
use supertooth.Bredr.Packed.{pack_header_raw, read_packed_field}
use supertooth.Bredr.Types.{BredrFrame, DecodedHeader}
use supertooth.Bredr.Whitening.{xor_whitening_payload}

-- What `decode_uap_for_clock` returns and stores through its pointers.
pub record Guess : Type 0 where
  pub guessed_uap : ℕ
  pub type_code : ℕ
  pub hdr : DecodedHeader
  pub fec_errors : ℤ

abbrev pub cleared_header : DecodedHeader
cleared_header = record {
  lt_addr = 0;
  type_code = 0;
  flow = 0;
  arqn = 0;
  seqn = 0;
  hec = 0;
  hec_ok = 0;
}

-- The fields of a dewhitened header, which is packed; the last three flags are read at bytes 7 to 9.
unfoldable pub guess_from : Bytes → ℕ → Guess
guess_from unwhitened be =
    let hdr_data = u16 (read_packed_field unwhitened 0 10) in
    let hec = u8 (read_packed_field unwhitened 10 8) in
    let type_code = u8 (read_packed_field unwhitened 3 4) in
    record {
      guessed_uap = decode_uap_from_hec hdr_data hec;
      type_code = type_code;
      hdr = record {
        lt_addr =
            u8 (bit_or (bit_or (at unwhitened 0) (at unwhitened 1 <<< 1)) (at unwhitened 2 <<< 2));
        type_code = type_code;
        flow = at unwhitened 7;
        arqn = at unwhitened 8;
        seqn = at unwhitened 9;
        hec = hec;
        hec_ok = 0;
      };
      fec_errors = pos be;
    }

-- What follows the repetition code, with its result. `stack` is what the array `unwhitened` holds
-- before it is written.
unfoldable pub guess_header : Bytes → ℕ → Option Decoded → Guess
guess_header stack clock none = record {
  guessed_uap = 0;
  type_code = 0;
  hdr = cleared_header;
  fec_errors = negsuc 0;
}
guess_header stack clock (some d) =
    if not (d.bit_count == 18) || leb 4 d.error_count
    then record {
      guessed_uap = 0;
      type_code = 0;
      hdr = cleared_header;
      fec_errors = pos d.error_count;
    }
    else guess_from (xor_whitening_payload d.bits 18 clock 0 stack 18).1 d.error_count

-- The type is 0 before the call, as its only caller has it.
unfoldable pub decode_uap_for_clock : Bytes → BredrFrame → ℕ → Guess
decode_uap_for_clock stack frame clock =
    guess_header stack clock
      (fec_decode_1_3 (pack_header_raw frame.header_raw (replicate 7 0)) 54 (replicate 18 0))

-- `true` is the result 0.
unfoldable pub sanity_check_header : DecodedHeader → ℕ → Bool
sanity_check_header hdr clk1_6 =
    let peripheral_timeslot = not (bit_and clk1_6 1 == 0) in
    let sco = hdr.type_code == 5 || hdr.type_code == 6 || hdr.type_code == 7 in
    let reserved = not (hdr.flow == 0) || not (hdr.arqn == 0) || not (hdr.seqn == 0) in
    if peripheral_timeslot && (hdr.lt_addr == 0 || hdr.type_code == 1 || hdr.type_code == 2)
    then false
    else not (sco && reserved)

-- The types of `PT_EV4` and `PT_EV5`, and of the ACL payloads.
abbrev pub is_esco_packet : ℕ → Bool
is_esco_packet type_code = type_code == 12 || type_code == 13

abbrev pub is_acl_packet : ℕ → Bool
is_acl_packet t = t == 8 || t == 3 || t == 10 || t == 14 || t == 4 || t == 11 || t == 15

unfoldable pub apply_esco_lt_addr_rule : BredrLink → ℕ → ℕ → ℕ → ℤ → ℤ × BredrLink
apply_esco_lt_addr_rule link count lt_addr type_code crc_chk =
    let bit = u8 (1 <<< lt_addr) in
    let esco = link.recovery_esco_lt_mask in
    let acl = link.recovery_acl_lt_mask in
    let other_mask = if is_esco_packet type_code then acl else esco in
    if not (crc_chk ==ℤ pos 10) || lt_addr == 0
    then (crc_chk, link)
    else if not (is_esco_packet type_code) && not (is_acl_packet type_code)
    then (crc_chk, link)
    else if not (bit_and (other_mask count) bit == 0)
    then (negsuc 0, link)
    else if is_esco_packet type_code
    then (
      crc_chk,
      record link { recovery_esco_lt_mask = update esco count (u8 (bit_or (esco count) bit)) },
    )
    else (
      crc_chk,
      record link { recovery_acl_lt_mask = update acl count (u8 (bit_or (acl count) bit)) },
    )

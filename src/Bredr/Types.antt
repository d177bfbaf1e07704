-- ===== src/Bredr/Types.antt =====
-- The frames and packets of bredr_codec.h and bredr_bitstream_decoder.h under
-- src/core/protocol/bredr, and the functions of bredr_codec.c that depend on a packet's type code
-- only. A switch on `type_code & 0x0F` is a chain of tests.
use supertooth.Base.{ℕ, ◌+◌, ◌/◌, bit_and, Bool, ◌||◌, [], ◌∷◌, Bytes, at, ◌==◌, if◌then◌else◌}

-- `bredr_decode_status_t`.
pub data Status : Type 0 where
  raw_only header_only family_only partial_payload full_payload : Status

-- `bredr_decode_limit_t`.
pub data Limit : Type 0 where
  limit_none no_header missing_context hec_failed unsupported_packet_type : Limit
  unsupported_payload_coding truncated_payload impossible_acl_length invalid_acl_header : Limit
  fec_uncorrectable esco_crc_unresolved : Limit

-- `bredr_payload_family_t`.
pub data Family : Type 0 where
  family_none control fhs acl sco esco hybrid unknown : Family

-- `bredr_fec_mode_t`.
pub data FecMode : Type 0 where
  fec_none fec_1_3 fec_2_3 : FecMode

pub record BredrFrame : Type 0 where
  pub phy : ℕ
  pub start_bit_index : ℕ
  pub lap : ℕ
  pub ac_errors : ℕ
  pub header_raw : ℕ
  pub air_payload : Bytes
  pub air_payload_bits : ℕ
  pub has_header : ℕ

pub frame_air_payload_bytes : BredrFrame → ℕ
frame_air_payload_bytes frame = (frame.air_payload_bits + 7) / 8

abbrev pub max_air_payload_bytes : ℕ
max_air_payload_bytes = 375

pub record DecodedHeader : Type 0 where
  pub lt_addr : ℕ
  pub type_code : ℕ
  pub flow : ℕ
  pub arqn : ℕ
  pub seqn : ℕ
  pub hec : ℕ
  pub hec_ok : ℕ

pub record AclPayload : Type 0 where
  pub llid : ℕ
  pub flow : ℕ
  pub length : ℕ
  pub user_payload : Bytes
  pub has_mic : ℕ
  pub mic : ℕ
  pub mic_ok : ℕ
  pub has_crc : ℕ
  pub crc : ℕ
  pub crc_ok : ℕ

pub record SyncPacket : Type 0 where
  pub payload_bytes : ℕ
  pub payload : Bytes
  pub has_crc : ℕ
  pub crc : ℕ
  pub crc_ok : ℕ
  pub is_esco : ℕ

abbrev one_of : ℕ → ℕ → ℕ → ℕ → Bool
one_of t a b c = t == a || t == b || t == c

unfoldable pub classify_family : ℕ → Family
classify_family type_code =
    let t = bit_and type_code 0x0f in
    if t == 0 || t == 1
    then control
    else if t == 2
    then fhs
    else if one_of t 3 4 9 || one_of t 10 11 14 || t == 15
    then acl
    else if one_of t 5 6 7
    then sco
    else if t == 8
    then hybrid
    else if t == 12 || t == 13
    then esco
    else unknown

unfoldable pub payload_has_supported_coding : ℕ → Bool
payload_has_supported_coding type_code =
    let t = bit_and type_code 0x0f in
    one_of t 0 1 3 || one_of t 4 5 6 || one_of t 7 8 9 || one_of t 10 11 12 || one_of t 13 14 15

unfoldable pub sync_max_air_payload_bits : ℕ → ℕ
sync_max_air_payload_bits type_code =
    let t = bit_and type_code 0x0f in
    if t == 5 || t == 6
    then 240
    else if t == 7
    then 256
    else if t == 12
    then 1470
    else if t == 13
    then 1456
    else 0

unfoldable pub acl_payload_header_bytes : ℕ → ℕ
acl_payload_header_bytes type_code =
    let t = bit_and type_code 0x0f in
    if one_of t 3 4 8 || t == 9 then 1 else if one_of t 10 11 14 || t == 15 then 2 else 0

unfoldable pub acl_max_user_payload_bytes : ℕ → ℕ
acl_max_user_payload_bytes type_code =
    let t = bit_and type_code 0x0f in
    if t == 3
    then 17
    else if t == 4
    then 27
    else if t == 9
    then 29
    else if t == 10
    then 121
    else if t == 11
    then 183
    else if t == 14
    then 224
    else if t == 15
    then 339
    else 0

unfoldable pub acl_payload_supported : ℕ → Bool
acl_payload_supported type_code =
    let t = bit_and type_code 0x0f in one_of t 3 4 9 || one_of t 10 11 14 || t == 15

unfoldable pub fec_mode_for_type : ℕ → FecMode
fec_mode_for_type type_code =
    let t = bit_and type_code 0x0f in
    if t == 5 then fec_1_3 else if one_of t 3 6 10 || t == 12 || t == 14 then fec_2_3 else fec_none

-- `s_on_air_payload_bits`.
abbrev on_air_table : Bytes
on_air_table =
    0 ∷ 0 ∷ 240 ∷ 240 ∷ 240 ∷ 240 ∷ 240 ∷ 240 ∷ 560 ∷ 240 ∷ 1500 ∷ 1496 ∷ 1440 ∷ 1440 ∷ 2745 ∷ 2744
    ∷ []

unfoldable pub on_air_payload_bits : ℕ → ℕ
on_air_payload_bits type_code = at on_air_table (bit_and type_code 0x0f)

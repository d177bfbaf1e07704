-- ===== src/Ble/Frame.antt =====
-- The frames and packets of src/core/protocol/ble/ble_codec.h and ble_bitstream_decoder.h, and
-- `ble_decode_frame` of ble_codec.c with its helpers. A pointer is a value that is there; an array
-- is a list, of the array's length where that is fixed; the unions are data types. What a function
-- leaves alone of a structure that `memset` has cleared is zero.
pub mod Payload
pub mod Bounds
pub mod Sent
pub mod RoundTrip
use supertooth.Base.{
  ℕ, zero, suc, ◌+◌, ◌-◌, ◌*◌, ◌%◌, bit_and, bit_or, Bool, true, false, ◌||◌, Option, none, some,
  [], ◌∷◌, List, Bytes, at, take, drop, memcpy, replicate, ltb, leb, ◌==◌, if◌then◌else◌, u8, ◌<<<◌,
  ◌>>>◌, flag,
}
use supertooth.Ble.Whiten.{dewhiten}
use supertooth.Ble.Crc.{crc_calc, extract_crc}
use Payload.{AddrKind, public, random, AdvPayload, decode_adv_payload}

-- `ble_frame_kind_t`.
pub data FrameKind : Type 0 where
  adv_frame data_frame : FrameKind

pub record Frame : Type 0 where
  pub phy : ℕ
  pub kind : FrameKind
  pub preamble : ℕ
  pub access_address : ℕ
  pub crc_init : ℕ
  pub crc_ok : ℕ
  pub raw_pdu : Bytes
  pub raw_pdu_bytes : ℕ

pub record AdvPdu : Type 0 where
  pub pdu_type : ℕ
  pub payload_len : ℕ
  pub tx_addr_kind : AddrKind
  pub rx_addr_kind : AddrKind
  pub payload : AdvPayload

pub record DataPdu : Type 0 where
  pub llid : ℕ
  pub nesn : ℕ
  pub sn : ℕ
  pub md : ℕ
  pub payload : Bytes
  pub payload_len : ℕ

-- The union of `ble_packet_t` with its tag `is_adv_pdu`.
pub data Pdu : Type 0 where
  adv : AdvPdu → Pdu
  ll_data : DataPdu → Pdu

pub record Packet : Type 0 where
  pub phy : ℕ
  pub preamble : ℕ
  pub access_address : ℕ
  pub crc : ℕ
  pub crc_ok : ℕ
  pub crc_init : ℕ
  pub pdu : Pdu

abbrev pub pdu_max_bytes : ℕ
pdu_max_bytes = 258

abbrev pub crc_bytes : ℕ
crc_bytes = 3

abbrev pub crc_init_adv : ℕ
crc_init_adv = 0x555555

-- `if (a > b) a = b;`
abbrev pub at_most : ℕ → ℕ → ℕ
at_most b a = if ltb b a then b else a

pub payload_length_from_header : Bytes → ℕ
payload_length_from_header header = at_most (pdu_max_bytes - 2) (at header 1)

pub decode_data_pdu : Bytes → ℕ → DataPdu
decode_data_pdu dewhitened payload_len =
    let b0 = at dewhitened 0 in
    let len = at_most 255 payload_len in
    record {
      llid = bit_and b0 3;
      nesn = u8 (bit_and (b0 >>> 2) 1);
      sn = u8 (bit_and (b0 >>> 3) 1);
      md = u8 (bit_and (b0 >>> 4) 1);
      payload = memcpy (replicate 255 0) (drop 2 dewhitened) len;
      payload_len = u8 len;
    }

-- The address kind in a bit of the first header byte.
abbrev kind_of : ℕ → AddrKind
kind_of b = if b == 0 then public else random

pub decode_adv_pdu : Bytes → ℕ → AdvPdu
decode_adv_pdu dewhitened payload_len =
    let b0 = at dewhitened 0 in
    let pdu_type = bit_and b0 0x0f in
    let tx = kind_of (bit_and b0 0x40) in
    let rx = kind_of (bit_and b0 0x80) in
    record {
      pdu_type = pdu_type;
      payload_len = u8 payload_len;
      tx_addr_kind = tx;
      rx_addr_kind = rx;
      payload = decode_adv_payload pdu_type (drop 2 dewhitened) payload_len tx rx;
    }

-- The two halves of `ble_decode_frame`: data frames keep the stamp of the framer, advertising
-- frames are summed here.
pub decode_kind : FrameKind → Frame → Bytes → ℕ → ℕ → Packet
decode_kind data_frame frame dewhitened crc payload_len = record {
  phy = frame.phy;
  preamble = frame.preamble;
  access_address = frame.access_address;
  crc = crc;
  crc_ok = frame.crc_ok;
  crc_init = frame.crc_init;
  pdu = ll_data (decode_data_pdu dewhitened payload_len);
}
decode_kind adv_frame frame dewhitened crc payload_len = record {
  phy = frame.phy;
  preamble = frame.preamble;
  access_address = frame.access_address;
  crc = crc;
  crc_ok = flag (crc_calc dewhitened (2 + payload_len) crc_init_adv == bit_and crc 0xffffff);
  crc_init = crc_init_adv;
  pdu = adv (decode_adv_pdu dewhitened payload_len);
}

-- The part of `ble_decode_frame` behind the whitening, for a frame that passed its first test.
pub decode_dewhitened : Frame → Bytes → ℕ → Packet
decode_dewhitened frame dewhitened pdu_bytes =
    decode_kind frame.kind frame dewhitened (extract_crc (drop pdu_bytes dewhitened))
      (at_most (pdu_bytes - 2) (payload_length_from_header dewhitened))

-- `none` is the result -1.
unfoldable pub decode_frame : Frame → ℕ → Option Packet
decode_frame frame channel_index =
    let total_bytes = frame.raw_pdu_bytes in
    if ltb total_bytes (2 + crc_bytes) || ltb (pdu_max_bytes + crc_bytes) total_bytes
    then none
    else some (
        decode_dewhitened frame
          (dewhiten (take total_bytes frame.raw_pdu) total_bytes channel_index)
          (total_bytes - crc_bytes))

-- ===== src/Ble/Frame/Sent.antt =====
-- Advertising PDUs as a sender puts them together after the Bluetooth specification, and the
-- structures in which src/core/protocol/ble/ble_codec.h holds what was sent.
pub mod Structures
pub mod Decode
use supertooth.Base.{
  ℕ, zero, suc, ◌+◌, ◌-◌, ◌*◌, ◌/◌, ◌%◌, ◌^◌, ◌<◌, ◌≤◌, ◌≡◌, refl, sym, ap, ap₂, ◌∙◌, arith,
  bit_and, Bool, true, false, Bytes, [], ◌∷◌, ◌++◌, at, length, take, drop, replicate, memcpy,
  length-append, take-append, drop-append, ltb, ◌==◌, ==_iff, all_below, all_below_sound,
  if◌then◌else◌, u8, ◌&&◌,
}
use mathlib.Core.List.{append-nil, append_assoc}
use supertooth.Base.Masks.{mask_ones, and-pow, bit-shr}
use supertooth.Ble.Frame.Payload.{
  AddrKind, public, random, Address, AdvData, AdvPayload, adv_ind, adv_nonconn_ind, scan_rsp,
  adv_scan_ind, adv_direct_ind, scan_req, connect_ind, unknown, no_address, no_adv_data,
  no_connect_ind, copy_address, decode_adv_data, decode_adv_direct_ind, decode_adv_scan_req,
  decode_adv_connect_ind, decode_adv_unknown, decode_adv_payload,
}
use supertooth.Ble.Frame.{AdvPdu, decode_adv_pdu}

-- What is sent: four kinds of PDUs with an address and data, two with two addresses, a connection
-- request with two addresses and its parameters, and the reserved types from 7 on.
pub data Message : Type 0 where
  advertise advertise_nonconn advertise_scan respond : (address info : Bytes) → Message
  direct : (address target : Bytes) → Message
  ask_scan : (scanner address : Bytes) → Message
  connect : (initiator address params : Bytes) → Message
  reserved : (from_7 : ℕ) (content : Bytes) → Message

-- The number of the type in the specification.
abbrev pub type_of : Message → ℕ
type_of (advertise address info) = 0
type_of (direct address target) = 1
type_of (advertise_nonconn address info) = 2
type_of (ask_scan scanner address) = 3
type_of (respond address info) = 4
type_of (connect initiator address params) = 5
type_of (advertise_scan address info) = 6
type_of (reserved n content) = 7 + n

abbrev pub content_of : Message → Bytes
content_of (advertise address info) = address ++ info
content_of (advertise_nonconn address info) = address ++ info
content_of (advertise_scan address info) = address ++ info
content_of (respond address info) = address ++ info
content_of (direct address target) = address ++ target
content_of (ask_scan scanner address) = scanner ++ address
content_of (connect initiator address params) = initiator ++ (address ++ params)
content_of (reserved n content) = content

-- Bit 6 says that the sender's address is random, bit 7 the same of the other address. Bits 4 and 5
-- have no meaning here.
abbrev pub kind_bit : AddrKind → ℕ
kind_bit public = 0
kind_bit random = 1

abbrev pub header_of : Message → AddrKind → AddrKind → ℕ → ℕ
header_of m tx rx other = type_of m + 16 * other + 64 * kind_bit tx + 128 * kind_bit rx

abbrev DataFits : Bytes → Bytes → Type 0
DataFits address info = (length address ≡ 6) × (length info ≤ 249)

abbrev PairFits : Bytes → Bytes → Type 0
PairFits one two = (length one ≡ 6) × (length two ≡ 6)

abbrev pub MessageFits : Message → Type 0
MessageFits (advertise address info) = DataFits address info
MessageFits (advertise_nonconn address info) = DataFits address info
MessageFits (advertise_scan address info) = DataFits address info
MessageFits (respond address info) = DataFits address info
MessageFits (direct address target) = PairFits address target
MessageFits (ask_scan scanner address) = PairFits scanner address
MessageFits (connect initiator address params) = PairFits initiator address × (length params ≤ 22)
MessageFits (reserved n content) = (n < 9) × (length content ≤ 255)

-- An array of `size` bytes that begins with some, and is zero behind them.
abbrev pub padded : ℕ → Bytes → Bytes
padded size bytes = bytes ++ replicate (size - length bytes) 0

abbrev address_sent : Bytes → AddrKind → Address
address_sent address kind = record { addr = address; kind = kind }

abbrev data_sent : Bytes → Bytes → AddrKind → AdvData
data_sent address info kind = record {
  adv_addr = address_sent address kind;
  adv_data = padded 250 info;
  adv_data_len = length info;
}

abbrev pub payload_sent : Message → AddrKind → AddrKind → AdvPayload
payload_sent (advertise address info) tx rx = adv_ind (data_sent address info tx)
payload_sent (advertise_nonconn address info) tx rx = adv_nonconn_ind (data_sent address info tx)
payload_sent (advertise_scan address info) tx rx = adv_scan_ind (data_sent address info tx)
payload_sent (respond address info) tx rx = scan_rsp (data_sent address info tx)
payload_sent (direct address target) tx rx =
    adv_direct_ind
      (record { adv_addr = address_sent address tx; target_addr = address_sent target rx })
payload_sent (ask_scan scanner address) tx rx =
    scan_req (record { scanner_addr = address_sent scanner tx; adv_addr = address_sent address rx })
payload_sent (connect initiator address params) tx rx = connect_ind (record {
  init_addr = address_sent initiator tx;
  adv_addr = address_sent address rx;
  ll_data = padded 22 params;
  ll_data_len = length params;
})
payload_sent (reserved n content) tx rx =
    unknown (record { payload = padded 256 content; payload_len = length content })

abbrev pub pdu_sent : Message → AddrKind → AddrKind → AdvPdu
pdu_sent m tx rx = record {
  pdu_type = type_of m;
  payload_len = length (content_of m);
  tx_addr_kind = tx;
  rx_addr_kind = rx;
  payload = payload_sent m tx rx;
}

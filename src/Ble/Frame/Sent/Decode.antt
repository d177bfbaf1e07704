-- ===== src/Ble/Frame/Sent/Decode.antt =====
-- `ble_decode_frame` of src/core/protocol/ble/ble_codec.c reads from the bytes of an advertising PDU
-- what the sender put there.
use supertooth.Base.{
  ℕ, suc, ◌+◌, ◌*◌, ◌/◌, ◌%◌, ◌<◌, ◌≤◌, ◌≡◌, refl, ap, ◌∙◌, arith, bit_and, true, false, ◌∷◌, ◌++◌,
  length, length-append, ◌==◌, if◌then◌else◌, u8,
}
use supertooth.Base.Masks.{mask_ones, and-pow, bit-shr}
use supertooth.Ble.Frame.Payload.{
  AddrKind, public, random, adv_ind, adv_nonconn_ind, scan_rsp, adv_scan_ind, adv_direct_ind,
  scan_req, connect_ind, unknown, decode_adv_payload,
}
use supertooth.Ble.Frame.{decode_adv_pdu}
use supertooth.Ble.Frame.Sent.{
  Message, advertise, advertise_nonconn, advertise_scan, respond, direct, ask_scan, connect,
  reserved, type_of, content_of, kind_bit, header_of, MessageFits, payload_sent, pdu_sent,
}
use supertooth.Ble.Frame.Sent.Structures.{
  pair_size, decode_adv_data-sent, decode_adv_direct_ind-sent, decode_adv_scan_req-sent,
  decode_adv_connect_ind-sent, decode_adv_unknown-sent,
}

decode_adv_payload-sent :
    (m : Message) (tx rx : AddrKind)
    → MessageFits m
    → decode_adv_payload (type_of m) (content_of m) (length (content_of m)) tx rx
      ≡ payload_sent m tx rx
unfolding decode_adv_payload
decode_adv_payload-sent (advertise address info) tx rx fits =
    ap adv_ind (decode_adv_data-sent address info fits tx)
decode_adv_payload-sent (advertise_nonconn address info) tx rx fits =
    ap adv_nonconn_ind (decode_adv_data-sent address info fits tx)
decode_adv_payload-sent (advertise_scan address info) tx rx fits =
    ap adv_scan_ind (decode_adv_data-sent address info fits tx)
decode_adv_payload-sent (respond address info) tx rx fits =
    ap scan_rsp (decode_adv_data-sent address info fits tx)
decode_adv_payload-sent (direct address target) tx rx fits =
    ap adv_direct_ind (decode_adv_direct_ind-sent address target fits tx rx)
decode_adv_payload-sent (ask_scan scanner address) tx rx fits =
    ap scan_req (decode_adv_scan_req-sent scanner address fits tx rx)
decode_adv_payload-sent (connect initiator address params) tx rx (fits, short) =
    ap connect_ind (decode_adv_connect_ind-sent initiator address fits tx rx params short)
decode_adv_payload-sent (reserved n content) tx rx (below, short) =
    let e : 7 + n ≡ suc (suc (suc (suc (suc (suc (suc n)))))) = omega arith in
    ap (λ t. decode_adv_payload t content (length content) tx rx) e
    ∙ ap unknown (decode_adv_unknown-sent content short)

type_of-lt : (m : Message) → MessageFits m → type_of m < 16
type_of-lt (advertise address info) f = omega arith
type_of-lt (advertise_nonconn address info) f = omega arith
type_of-lt (advertise_scan address info) f = omega arith
type_of-lt (respond address info) f = omega arith
type_of-lt (direct address target) f = omega arith
type_of-lt (ask_scan scanner address) f = omega arith
type_of-lt (connect initiator address params) f = omega arith
type_of-lt (reserved n content) f = omega (arith, f.0)

pub length-content_of : (m : Message) → MessageFits m → length (content_of m) ≤ 255
length-content_of (advertise address info) f = omega (arith, f.0, f.1, length-append address info)
length-content_of (advertise_nonconn address info) f =
    omega (arith, f.0, f.1, length-append address info)
length-content_of (advertise_scan address info) f =
    omega (arith, f.0, f.1, length-append address info)
length-content_of (respond address info) f = omega (arith, f.0, f.1, length-append address info)
length-content_of (direct address target) f =
    omega (arith, pair_size address target f public public)
length-content_of (ask_scan scanner address) f =
    omega (arith, pair_size scanner address f public public)
length-content_of (connect initiator address params) f = omega (
  arith,
  f.0.0,
  f.0.1,
  f.1,
  length-append initiator (address ++ params),
  length-append address params,
)
length-content_of (reserved n content) f = omega (arith, f.1)

-- The two bits of the address kinds.
tx_bit : (x : ℕ) → bit_and x 0x40 ≡ x / 64 % 2 * 64
tx_bit x = and-pow x 6 ∙ ap (λ b. b * 64) (bit-shr 6 x)

rx_bit : (x : ℕ) → bit_and x 0x80 ≡ x / 128 % 2 * 128
rx_bit x = and-pow x 7 ∙ ap (λ b. b * 128) (bit-shr 7 x)

kind_of_bit :
    (kind : AddrKind) (v : ℕ) → 0 < v → (if kind_bit kind * v == 0 then public else random) ≡ kind
kind_of_bit public v h = let unset : (0 * v == 0) ≡ true = ground arith in rw unset refl
kind_of_bit random v h = let set : (1 * v == 0) ≡ false = ground (arith, h) in rw set refl

kind_bit-lt : (kind : AddrKind) → kind_bit kind < 2
kind_bit-lt public = omega arith
kind_bit-lt random = omega arith

-- Header and payload.
pub decode_adv_pdu-sent :
    (m : Message) (tx rx : AddrKind) (other : ℕ)
    → MessageFits m
    → other < 4
    → decode_adv_pdu
        (header_of m tx rx other ∷ length (content_of m) ∷ content_of m)
        (length (content_of m))
      ≡ pdu_sent m tx rx
unfolding decode_adv_pdu
decode_adv_pdu-sent m tx rx other fits low =
    let header = header_of m tx rx other in
    let small = type_of-lt m fits in
    let b = kind_bit-lt in
    let type_is : bit_and header 0x0f ≡ type_of m = mask_ones 4 header ∙ omega (arith, small) in
    let tx_is : bit_and header 0x40 ≡ kind_bit tx * 64 =
      tx_bit header ∙ omega (arith, small, low, b tx, b rx) in
    let rx_is : bit_and header 0x80 ≡ kind_bit rx * 128 =
      rx_bit header ∙ omega (arith, small, low, b tx, b rx) in
    let byte : u8 (length (content_of m)) ≡ length (content_of m) =
      omega (arith, length-content_of m fits) in
    rw
      (
        type_is,
        tx_is,
        rx_is,
        byte,
        kind_of_bit tx 64 (omega arith),
        kind_of_bit rx 128 (omega arith),
        decode_adv_payload-sent m tx rx fits,
      )
      refl

-- ===== src/Ble/Frame/RoundTrip.antt =====
-- A transmitter for advertising PDUs, written against the Bluetooth framing, and what
-- `ble_decode_frame` makes of its frames.
use supertooth.Base.{
  flag, ℕ, ◌+◌, ◌-◌, ◌<◌, ◌≤◌, ◌≡◌, refl, sym, ap, ap₂, ◌∙◌, arith, bit_and, Bytes, some, ◌∷◌, ◌++◌,
  length, take, drop, length-append, take-append, drop-append, get_or-append, ◌==◌, ◌^◌,
}
use supertooth.Base.Masks.{mask_ones}
use supertooth.Ble.Whiten.{dewhiten}
use supertooth.Ble.Whiten.Laws.{dewhiten_twice, length-dewhiten}
use supertooth.Ble.Crc.{crc_calc, extract_crc}
use supertooth.Ble.Crc.Linear.{crc_calc_ext, crc_calc-lt}
use supertooth.Ble.Crc.Reverse.{air_crc, extract_crc-air_crc}
use supertooth.Ble.Frame.Payload.Local.{decode_adv_payload_local}
use supertooth.Ble.Frame.Payload.{AddrKind}
use supertooth.Ble.Frame.Sent.{Message, MessageFits, content_of, header_of, pdu_sent}
use supertooth.Ble.Frame.Sent.Decode.{length-content_of, decode_adv_pdu-sent}
use supertooth.Ble.Frame.{
  Frame, adv_frame, Packet, adv, decode_frame, decode_dewhitened, decode_kind, decode_adv_pdu,
  payload_length_from_header, at_most, crc_init_adv,
}

-- Header byte, length byte, payload.
abbrev pub adv_bytes : ℕ → Bytes → Bytes
adv_bytes header payload = header ∷ length payload ∷ payload

abbrev pub adv_crc : ℕ → Bytes → ℕ
adv_crc header payload =
    let pdu = adv_bytes header payload in crc_calc pdu (length pdu) crc_init_adv

-- The PDU and its checksum, whitened for the channel.
pub transmit : ℕ → ℕ → Bytes → Bytes
transmit channel_index header payload =
    let bytes = adv_bytes header payload ++ air_crc (adv_crc header payload) in
    dewhiten bytes (length bytes) channel_index

-- What a receiver stores of such a transmission: any bytes may stand behind it in the buffer.
abbrev pub received : ℕ → ℕ → ℕ → Bytes → Bytes → Frame
received phy channel_index header payload rest =
    let air = transmit channel_index header payload in
    record {
      phy = phy;
      kind = adv_frame;
      preamble = 0xaa;
      access_address = 0x8e89bed6;
      crc_init = crc_init_adv;
      crc_ok = 0;
      raw_pdu = air ++ rest;
      raw_pdu_bytes = length air;
    }

length-air_crc : (crc : ℕ) → length (air_crc crc) ≡ 3
unfolding air_crc
length-air_crc crc = refl

length-transmit :
    (ch header : ℕ) (payload : Bytes) → length (transmit ch header payload) ≡ length payload + 5
unfolding transmit
length-transmit ch header payload = omega (
  arith,
  length-dewhiten (adv_bytes header payload ++ air_crc (adv_crc header payload))
      (length (adv_bytes header payload ++ air_crc (adv_crc header payload))) ch,
  length-append payload (air_crc (adv_crc header payload)),
  length-air_crc (adv_crc header payload),
)

-- The receiver's buffer, with the whitening removed.
dewhiten-transmit :
    (ch header : ℕ) (payload rest : Bytes)
    → let air = transmit ch header payload in
      dewhiten (take (length air) (air ++ rest)) (length air) ch
      ≡ adv_bytes header payload ++ air_crc (adv_crc header payload)
unfolding transmit
dewhiten-transmit ch header payload rest =
    let bytes = adv_bytes header payload ++ air_crc (adv_crc header payload) in
    let air = dewhiten bytes (length bytes) ch in
    ap (λ t. dewhiten t (length air) ch) (take-append air rest)
    ∙ ap (λ n. dewhiten air n ch) (length-dewhiten bytes (length bytes) ch)
    ∙ dewhiten_twice bytes (length bytes) ch

-- What stands behind the PDU does not change what it is decoded to.
decode_adv_pdu_local :
    (header : ℕ) (payload tail : Bytes)
    → decode_adv_pdu (adv_bytes header payload ++ tail) (length payload)
      ≡ decode_adv_pdu (adv_bytes header payload) (length payload)
unfolding decode_adv_pdu
decode_adv_pdu_local header payload tail =
    let pdu = decode_adv_pdu (adv_bytes header payload) (length payload) in
    ap (λ t. record pdu { payload = t })
      (decode_adv_payload_local payload tail (length payload) (omega arith) _ _ _)

decode_frame_accepts :
    (frame : Frame) (ch n : ℕ) (d : Bytes)
    → frame.raw_pdu_bytes ≡ n + 5
    → n ≤ 256
    → dewhiten (take frame.raw_pdu_bytes frame.raw_pdu) frame.raw_pdu_bytes ch ≡ d
    → decode_frame frame ch ≡ some (decode_dewhitened frame d (n + 2))
unfolding decode_frame
decode_frame_accepts frame ch n d size small e =
    let whole : frame.raw_pdu_bytes - 3 ≡ n + 2 = omega arith in
    ground (arith, e, ap (decode_dewhitened frame d) whole)

flag_same : (a b : ℕ) → a ≡ b → flag (a == b) ≡ 1
flag_same a b e = ground arith

-- The checksum is read back and found right, and the PDU is decoded from the bytes that were sent.
decode_frame_adv :
    (phy channel_index header : ℕ) (payload rest : Bytes)
    → length payload ≤ 255
    → (p : Packet) × (decode_frame (received phy channel_index header payload rest) channel_index
        ≡ some p)
      × (p.crc_ok ≡ 1)
      × (p.crc ≡ adv_crc header payload)
      × (p.pdu ≡ adv (decode_adv_pdu (adv_bytes header payload) (length payload)))
unfolding decode_kind
decode_frame_adv phy channel_index header payload rest h =
    (packet, accepted, checked, crc_read, ap adv (decode_adv_pdu_local header payload tail))
  where
    crc : ℕ
    crc = adv_crc header payload

    tail : Bytes
    tail = air_crc crc

    bytes : Bytes
    bytes = adv_bytes header payload ++ tail

    frame : Frame
    frame = received phy channel_index header payload rest

    packet : Packet
    packet = decode_kind adv_frame frame bytes (extract_crc tail) (length payload)

    behind : drop (length payload + 2) bytes ≡ tail
    behind =
        let size : length payload + 2 ≡ length (adv_bytes header payload) = omega arith in
        ap (λ n. drop n bytes) size ∙ drop-append (adv_bytes header payload) tail

    payload_len :
        at_most (length payload + 2 - 2) (payload_length_from_header bytes) ≡ length payload
    payload_len = unfold payload_length_from_header in ground arith

    accepted : decode_frame frame channel_index ≡ some packet
    accepted =
        decode_frame_accepts frame channel_index (length payload) bytes
          (length-transmit channel_index header payload) (omega arith)
          (dewhiten-transmit channel_index header payload rest)
        ∙ ap some (
            unfold decode_dewhitened in
            ap₂ (λ t n. decode_kind adv_frame frame bytes (extract_crc t) n) behind payload_len)

    small : crc < 2 ^ 24
    small = crc_calc-lt (adv_bytes header payload) (length (adv_bytes header payload)) crc_init_adv

    summed : crc_calc bytes (2 + length payload) crc_init_adv ≡ crc
    summed =
        let size : 2 + length payload ≡ length (adv_bytes header payload) = omega arith in
        crc_calc_ext bytes (adv_bytes header payload) (2 + length payload) crc_init_adv
          (λ k p. get_or-append (adv_bytes header payload) tail k 0 (omega arith))
        ∙ ap (λ n. crc_calc (adv_bytes header payload) n crc_init_adv) size

    crc_read : packet.crc ≡ crc
    crc_read = extract_crc-air_crc crc small

    masked : bit_and (extract_crc tail) 0xffffff ≡ crc
    masked =
        ap (λ c. bit_and c 0xffffff) (extract_crc-air_crc crc small)
        ∙ mask_ones 24 crc
        ∙ omega (arith, small)

    checked : packet.crc_ok ≡ 1
    checked = flag_same _ _ (summed ∙ sym masked)

-- An advertising PDU of any type, with addresses of 6 bytes, at most 249 bytes of data, 22 of
-- connection parameters or 255 of a reserved type, is decoded to what was sent, from a frame that was
-- not damaged, on every channel: its type and both kinds of address from the header byte, whatever
-- the two bits without a meaning are, its length, its addresses each with its kind, and its data with
-- zeros behind it in its array. The checksum is read back and found right, and what stands behind
-- the frame in the buffer has no influence.
pub decode_frame-received :
    (phy channel_index other : ℕ) (m : Message) (tx rx : AddrKind) (rest : Bytes)
    → MessageFits m
    → other < 4
    → let header = header_of m tx rx other in
      (p : Packet) × (decode_frame
          (received phy channel_index header (content_of m) rest)
          channel_index
        ≡ some p)
      × (p.crc_ok ≡ 1)
      × (p.crc ≡ adv_crc header (content_of m))
      × (p.pdu ≡ adv (pdu_sent m tx rx))
decode_frame-received phy channel_index other m tx rx rest fits low =
    let (p, accepted, checked, crc_read, decoded) =
      decode_frame_adv phy channel_index (header_of m tx rx other) (content_of m) rest
        (length-content_of m fits) in
    (p, accepted, checked, crc_read, decoded ∙ ap adv (decode_adv_pdu-sent m tx rx other fits low))

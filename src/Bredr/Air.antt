-- ===== src/Bredr/Air.antt =====
-- From the bits on the air to a payload: `bredr_decode_acl_payload_from_air` and
-- `bredr_decode_sync_payload_from_air` of src/core/protocol/bredr/bredr_codec.c. The results are the
-- number of bytes that is returned and the target array.
use supertooth.Base.{
  ℕ, ◌-◌, ◌%◌, bit_and, ◌||◌, not, Option, none, some, Bytes, replicate, ltb, ◌==◌, if◌then◌else◌,
}
use supertooth.Bredr.Fec13.{Decoded, fec_decode_1_3}
use supertooth.Bredr.Fec23.{fec_decode_2_3}
use supertooth.Bredr.Whitening.{xor_whitening_payload}
use supertooth.Bredr.Types.{
  BredrFrame, max_air_payload_bytes, acl_payload_supported, on_air_payload_bits,
  sync_max_air_payload_bits,
}

-- The bits of a packet that were captured: at most `wanted`.
abbrev pub captured : BredrFrame → ℕ → ℕ
captured frame wanted = if ltb frame.air_payload_bits wanted then frame.air_payload_bits else wanted

-- What follows the decoding of a code: its failure is the return with 0.
unfoldable pub whiten_decoded : Option Decoded → ℕ → Bytes → ℕ → ℕ × Bytes
whiten_decoded none clk6 dst dst_capacity = (0, dst)
whiten_decoded (some d) clk6 dst dst_capacity =
    xor_whitening_payload d.bits d.bit_count clk6 18 dst dst_capacity

-- The case of a switch for a code with blocks of `size` bits.
unfoldable pub decode_blocks : (ℕ → Option Decoded) → ℕ → ℕ → ℕ → Bytes → ℕ → ℕ × Bytes
decode_blocks decode size input_air_bits clk6 dst dst_capacity =
    let whole = input_air_bits - input_air_bits % size in
    if whole == 0 then (0, dst) else whiten_decoded (decode whole) clk6 dst dst_capacity

abbrev pub decode_rate_2_3 : BredrFrame → ℕ → Option Decoded
decode_rate_2_3 frame bits =
    fec_decode_2_3 frame.air_payload bits (replicate max_air_payload_bytes 0)

abbrev pub decode_rate_1_3 : BredrFrame → ℕ → Option Decoded
decode_rate_1_3 frame bits =
    fec_decode_1_3 frame.air_payload bits (replicate max_air_payload_bytes 0)

unfoldable pub decode_acl_payload_from_air : BredrFrame → ℕ → ℕ → Bytes → ℕ → ℕ × Bytes
decode_acl_payload_from_air frame type_code clk6 dst dst_capacity =
    let t = bit_and type_code 0x0f in
    let wanted = on_air_payload_bits type_code in
    let input_air_bits = captured frame wanted in
    if dst_capacity == 0 || not (acl_payload_supported type_code) || wanted == 0
    then (0, dst)
    else if t == 3 || t == 10 || t == 14
    then decode_blocks (decode_rate_2_3 frame) 15 input_air_bits clk6 dst dst_capacity
    else if t == 4 || t == 9 || t == 11 || t == 15
    then xor_whitening_payload frame.air_payload input_air_bits clk6 18 dst dst_capacity
    else (0, dst)

unfoldable pub decode_sync_payload_from_air : BredrFrame → ℕ → ℕ → Bytes → ℕ → ℕ × Bytes
decode_sync_payload_from_air frame type_code clk6 dst dst_capacity =
    let t = bit_and type_code 0x0f in
    let wanted = sync_max_air_payload_bits type_code in
    let input_air_bits = captured frame wanted in
    if dst_capacity == 0 || wanted == 0
    then (0, dst)
    else if t == 5
    then decode_blocks (decode_rate_1_3 frame) 3 input_air_bits clk6 dst dst_capacity
    else if t == 6 || t == 12
    then decode_blocks (decode_rate_2_3 frame) 15 input_air_bits clk6 dst dst_capacity
    else if t == 7 || t == 13
    then xor_whitening_payload frame.air_payload input_air_bits clk6 18 dst dst_capacity
    else (0, dst)

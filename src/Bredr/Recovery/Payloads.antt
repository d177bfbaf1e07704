-- ===== src/Bredr/Recovery/Payloads.antt =====
-- The checks of the payloads in src/core/protocol/bredr/bredr_clock_recovery.c. A result is 0 for a
-- hard negative, 1 for inconclusive, 2 for likely, 10 and 1000 for positive. A read behind the end
-- of an array, which C leaves undefined, gives 0.
use supertooth.Base.{
  ℕ, zero, suc, ◌+◌, ◌-◌, ◌*◌, ◌/◌, bit_and, Bool, true, false, ◌||◌, Option, none, some, Bytes,
  replicate, ltb, ◌==◌, if◌then◌else◌, u16,
}
use supertooth.Bredr.Fec13.{Decoded}
use supertooth.Bredr.Fec23.{fec_decode_2_3}
use supertooth.Bredr.Packed.{read_packed_field, copy_packed_bits}
use supertooth.Bredr.PayloadCrc.{payload_crc}
use supertooth.Bredr.Types.{BredrFrame}
use supertooth.Bredr.Whitening.{xor_whitening_payload}

-- The checksum of the first bits against the 16 bits that follow them.
abbrev pub crc_matches : Bytes → ℕ → ℕ → Bool
crc_matches payload data_bits uap =
    payload_crc payload data_bits uap == u16 (read_packed_field payload data_bits 16)

-- Bits that are dewhitened into an array of `size` zeros.
abbrev pub unwhiten : Bytes → ℕ → ℕ → ℕ → ℕ → Bytes
unwhiten bits count clock offset size =
    (xor_whitening_payload bits count clock offset (replicate size 0) size).1

-- The clocks from `c` on, with `left` of them to go.
unfoldable pub fhs_loop : ℕ → ℕ → Bytes → ℕ → ℕ
fhs_loop zero c corrected uap = 0
fhs_loop (suc left) c corrected uap =
    let rest = fhs_loop left (c + 1) corrected uap in
    if crc_matches (unwhiten corrected 160 c 18 20) 144 uap then 1000 else rest

unfoldable pub verify_fhs_corrected : Option Decoded → ℕ → ℕ → ℕ
verify_fhs_corrected none clock uap = 0
verify_fhs_corrected (some d) clock uap =
    if crc_matches (unwhiten d.bits 160 clock 18 20) 144 uap
    then 1000
    else fhs_loop 32 32 d.bits uap

unfoldable pub verify_fhs_payload : BredrFrame → ℕ → ℕ → ℕ
verify_fhs_payload frame clock uap =
    if ltb frame.air_payload_bits 240
    then 1
    else verify_fhs_corrected
        (fec_decode_2_3 (copy_packed_bits frame.air_payload 0 240 (replicate 300 0)) 240
          (replicate 21 0))
        clock uap

-- The payload header, from what the rate 2/3 code makes of it.
unfoldable pub header_corrected : Option Decoded → ℕ → ℕ → Option Bytes
header_corrected none count clock = none
header_corrected (some d) count clock = some (unwhiten d.bits count clock 18 3)

-- The length field of a payload header.
unfoldable pub length_field : Option Bytes → ℕ → ℕ → Option ℕ
length_field none width extra = none
length_field (some ph) width extra = some (read_packed_field ph 3 width + extra)

-- `none` is the result 0.
unfoldable pub decode_acl_payload_length : Bytes → ℕ → ℕ → Bool → ℕ → ℕ → Option ℕ
unfolding length_field header_corrected
decode_acl_payload_length stream sym_off size fec header_bytes clock =
    if header_bytes == 2
    then if ltb size 16
      then none
      else if fec
      then if ltb size 30
        then none
        else length_field
            (header_corrected
              (fec_decode_2_3 (copy_packed_bits stream sym_off 24 (replicate 4 0)) 24
                (replicate 2 0))
              16 clock)
            10 4
      else length_field
          (some (unwhiten (copy_packed_bits stream sym_off 16 (replicate 2 0)) 16 clock 18 3)) 10 4
    else if ltb size 8
    then none
    else if fec
    then if ltb size 15
      then none
      else length_field
          (header_corrected
            (fec_decode_2_3 (copy_packed_bits stream sym_off 12 (replicate 2 0)) 12 (replicate 1 0))
            8 clock)
          5 3
    else length_field
        (some (unwhiten (copy_packed_bits stream sym_off 8 (replicate 1 0)) 8 clock 18 3)) 5 3

-- The end of the check of a DM payload, with the corrected bits.
unfoldable pub verify_dm_corrected : Option Decoded → ℕ → ℕ → ℕ → ℕ
verify_dm_corrected none payload_length clock uap = 0
verify_dm_corrected (some d) payload_length clock uap =
    if crc_matches (unwhiten d.bits (payload_length * 8) clock 18 300) ((payload_length - 2) * 8)
      uap
    then 10
    else 2

-- The rest of the check of a DM payload, with its length.
unfoldable pub verify_dm_length : Option ℕ → Bytes → ℕ → ℕ → ℕ → ℕ → ℕ → ℕ
unfolding verify_dm_corrected
verify_dm_length none stream sym_off size max_length clock uap = 0
verify_dm_length (some payload_length) stream sym_off size max_length clock uap =
    let bitlength = payload_length * 8 in
    let encoded = bitlength * 15 / 10 in
    if ltb max_length payload_length || ltb size bitlength || ltb size encoded
    then 1
    else verify_dm_corrected
        (fec_decode_2_3 (copy_packed_bits stream sym_off encoded (replicate 400 0)) encoded
          (replicate 300 0))
        payload_length clock uap

-- For `PT_DV` the size is an `int` that may fall below 0; 0 is refused like it.
unfoldable pub verify_dm_payload : BredrFrame → ℕ → ℕ → ℕ → ℕ
unfolding verify_dm_length decode_acl_payload_length
verify_dm_payload frame clock type_code uap =
    let stream = frame.air_payload in
    let size = frame.air_payload_bits in
    let kind = bit_and type_code 0x0f in
    let check = λ (sym_off size' header_bytes max_length : ℕ).
      verify_dm_length (decode_acl_payload_length stream sym_off size' true header_bytes clock)
        stream sym_off size' max_length clock uap in
    if kind == 8
    then check 80 (size - 80) 1 12
    else if kind == 3
    then check 0 size 1 20
    else if kind == 10
    then check 0 size 2 125
    else if kind == 14
    then check 0 size 2 228
    else 0

-- The rest of the check of a DH payload, with its length.
unfoldable pub verify_dh_length : Option ℕ → Bytes → ℕ → ℕ → ℕ → ℕ → ℕ → ℕ
verify_dh_length none stream size max_length clock type_code uap = 0
verify_dh_length (some payload_length) stream size max_length clock type_code uap =
    let bitlength = payload_length * 8 in
    if ltb max_length payload_length || ltb size bitlength
    then 1
    else if type_code == 9
    then 2
    else if crc_matches (unwhiten stream bitlength clock 18 300) ((payload_length - 2) * 8) uap
    then 10
    else 2

unfoldable pub verify_dh_payload : BredrFrame → ℕ → ℕ → ℕ → ℕ
unfolding verify_dh_length decode_acl_payload_length
verify_dh_payload frame clock type_code uap =
    let stream = frame.air_payload in
    let size = frame.air_payload_bits in
    let kind = bit_and type_code 0x0f in
    let check = λ (header_bytes max_length : ℕ).
      verify_dh_length (decode_acl_payload_length stream 0 size false header_bytes clock) stream
        size max_length clock type_code uap in
    if kind == 9 || kind == 4
    then check 1 30
    else if kind == 11
    then check 2 187
    else if kind == 15
    then check 2 343
    else 0

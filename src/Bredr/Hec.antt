-- ===== src/Bredr/Hec.antt =====
-- The header check of src/core/protocol/bredr/bredr_codec.c: `bredr_decode_uap_from_hec`,
-- `bredr_decode_header_bits`, `bredr_decode_dewhitened_header`, `bredr_decode_header`,
-- `bredr_hec_ok_for_clk6` and `bredr_hec_ok_for_clk6_clean`.
pub mod Uap
pub mod Checks
use supertooth.Base.{
  ℕ, zero, suc, ◌+◌, ◌/◌, ◌%◌, bit_and, bit_or, bit_xor, ◌||◌, not, Option, none, some, [], ◌∷◌,
  Bytes, at, replicate, ltb, leb, ◌==◌, if◌then◌else◌, flag, u8, u16, ◌<<<◌, ◌>>>◌,
}
use supertooth.Bredr.Packed.{get_packed_bit, pack_header_raw}
use supertooth.Bredr.Fec13.{Decoded, fec_decode_1_3}
use supertooth.Bredr.Whitening.{whitening_indices, whitening_data}
use supertooth.Bredr.PayloadCrc.{reverse_byte}
use supertooth.Bredr.Types.{BredrFrame, DecodedHeader}

-- The body of the loop, for bit `i` of the data.
unfoldable pub hec_step : ℕ → ℕ → ℕ → ℕ
hec_step hec hdr_data i =
    let h = if bit_and hec 0x80 == 0 then hec else bit_xor hec 0x65 in
    u8 (bit_or (h <<< 1) (bit_and (bit_xor (h >>> 7) (hdr_data >>> i)) 1))

-- The loop, with `i` the index of the last round done: it goes down to 0.
unfoldable pub hec_loop : ℕ → ℕ → ℕ → ℕ
hec_loop zero hdr_data hec = hec
hec_loop (suc i) hdr_data hec = hec_loop i hdr_data (hec_step hec hdr_data i)

unfoldable pub decode_uap_from_hec : ℕ → ℕ → ℕ
unfolding hec_loop hec_step
decode_uap_from_hec hdr_data hec = reverse_byte (hec_loop 10 hdr_data hec)

-- `for (i = ..) bits[i] = get(decoded_header, i)` and the loop that adds the whitening word.
unfoldable pub header_bits_loop : ℕ → ℕ → ℕ → Bytes → Bytes
header_bits_loop zero i index decoded_header = []
header_bits_loop (suc left) i index decoded_header =
    bit_xor (get_packed_bit decoded_header i) (at whitening_data index)
    ∷ header_bits_loop left (i + 1) ((index + 1) % 127) decoded_header

-- The bits of a decoded header.
unfoldable pub whitened_bits : Bytes → ℕ → Bytes
unfolding header_bits_loop
whitened_bits decoded_header clk6 =
    header_bits_loop 18 0 (at whitening_indices (bit_and clk6 0x3f)) decoded_header

-- The header after the repetition code. The arrays of the caller are `packed_header` and
-- `decoded_header`.
unfoldable pub decode_header_fec : BredrFrame → Option Decoded
decode_header_fec frame =
    fec_decode_1_3 (pack_header_raw frame.header_raw (replicate 7 0)) 54 (replicate 3 0)

-- The rest of `bredr_decode_header_bits`, with the result of the repetition code.
unfoldable pub bits_from : Option Decoded → ℕ → Bytes
bits_from none clk6 = replicate 18 0
bits_from (some d) clk6 =
    if not (d.bit_count == 18) || leb (d.bit_count / 4) d.error_count
    then replicate 18 0
    else whitened_bits d.bits clk6

unfoldable pub decode_header_bits : BredrFrame → ℕ → Bytes
decode_header_bits frame clk6 = bits_from (decode_header_fec frame) clk6

-- `for (i = 0; i < n; i++) value |= (T)(bits[off + i] << i)`, at `i`, with `cast` the cast to T.
unfoldable pub gather : (ℕ → ℕ) → ℕ → ℕ → ℕ → Bytes → ℕ → ℕ
gather cast zero i off bits value = value
gather cast (suc left) i off bits value =
    gather cast left (i + 1) off bits (cast (bit_or value (cast (at bits (off + i) <<< i))))

unfoldable pub decode_dewhitened_header : Bytes → DecodedHeader
unfolding gather
decode_dewhitened_header b = record {
  lt_addr = u8 (bit_or (bit_or (at b 0) (at b 1 <<< 1)) (at b 2 <<< 2));
  type_code = u8 (bit_or (bit_or (bit_or (at b 3) (at b 4 <<< 1)) (at b 5 <<< 2)) (at b 6 <<< 3));
  flow = at b 7;
  arqn = at b 8;
  seqn = at b 9;
  hec = gather (λ t. u8 t) 8 0 10 b 0;
  hec_ok = 0;
}

-- The header, with the result that is returned as its field `hec_ok`.
unfoldable pub decode_header : BredrFrame → ℕ → ℕ → DecodedHeader
decode_header frame uap clk6 =
    let bits = decode_header_bits frame clk6 in
    let out = decode_dewhitened_header bits in
    let hdr_data = gather (λ t. u16 t) 10 0 0 bits 0 in
    record out { hec_ok = flag (decode_uap_from_hec hdr_data out.hec == uap) }

-- The comparison at the end of both checks.
abbrev pub uap_matches : Bytes → ℕ → ℕ
uap_matches bits uap = flag (
    decode_uap_from_hec (gather (λ t. u16 t) 10 0 0 bits 0) (gather (λ t. u8 t) 8 0 10 bits 0)
    == uap)

unfoldable pub hec_ok_for_clk6 : BredrFrame → ℕ → ℕ → ℕ
hec_ok_for_clk6 frame uap clk6 =
    if frame.has_header == 0
    then 0
    else uap_matches (decode_header_bits frame (bit_and clk6 0x3f)) uap

-- The rest of `bredr_hec_ok_for_clk6_clean`, with the result of the repetition code.
unfoldable pub clean_from : Option Decoded → ℕ → ℕ → ℕ
clean_from none uap clk6 = 0
clean_from (some d) uap clk6 =
    if not (d.error_count == 0) || not (d.bit_count == 18)
    then 0
    else uap_matches (whitened_bits d.bits clk6) uap

unfoldable pub hec_ok_for_clk6_clean : BredrFrame → ℕ → ℕ → ℕ
hec_ok_for_clk6_clean frame uap clk6 =
    if frame.has_header == 0 then 0 else clean_from (decode_header_fec frame) uap clk6

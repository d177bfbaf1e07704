-- ===== src/Bredr/Whitening.antt =====
-- The whitening of src/core/protocol/bredr/bredr_codec.c: its two tables,
-- `bredr_whitening_index_after_bits` and `bredr_xor_whitening_payload`.
pub mod Register
pub mod Payload
use supertooth.Base.{
  ℕ, zero, suc, ◌+◌, ◌/◌, ◌%◌, bit_and, bit_xor, [], ◌∷◌, Bytes, at, ltb, ◌==◌, if◌then◌else◌, u8,
}
use supertooth.Bredr.Packed.{get_packed_bit, set_packed_bit, memset_zero}

abbrev pub whitening_indices : Bytes
whitening_indices =
    99 ∷ 85 ∷ 17 ∷ 50 ∷ 102 ∷ 58 ∷ 108 ∷ 45 ∷ 92 ∷ 62 ∷ 32 ∷ 118 ∷ 88 ∷ 11 ∷ 80 ∷ 2 ∷ 37 ∷ 69 ∷ 55
    ∷ 8 ∷ 20 ∷ 40 ∷ 74 ∷ 114 ∷ 15 ∷ 106 ∷ 30 ∷ 78 ∷ 53 ∷ 72 ∷ 28 ∷ 26 ∷ 68 ∷ 7 ∷ 39 ∷ 113 ∷ 105 ∷ 77
    ∷ 71 ∷ 25 ∷ 84 ∷ 49 ∷ 57 ∷ 44 ∷ 61 ∷ 117 ∷ 10 ∷ 1 ∷ 123 ∷ 124 ∷ 22 ∷ 125 ∷ 111 ∷ 23 ∷ 42 ∷ 126
    ∷ 6 ∷ 112 ∷ 76 ∷ 24 ∷ 48 ∷ 43 ∷ 116 ∷ 0 ∷ []

abbrev pub whitening_data : Bytes
whitening_data =
    1 ∷ 1 ∷ 1 ∷ 0 ∷ 0 ∷ 0 ∷ 1 ∷ 1 ∷ 1 ∷ 0 ∷ 1 ∷ 1 ∷ 0 ∷ 0 ∷ 0 ∷ 1 ∷ 0 ∷ 1 ∷ 0 ∷ 0 ∷ 1 ∷ 0 ∷ 1 ∷ 1
    ∷ 1 ∷ 1 ∷ 1 ∷ 0 ∷ 1 ∷ 0 ∷ 1 ∷ 0 ∷ 1 ∷ 0 ∷ 0 ∷ 0 ∷ 0 ∷ 1 ∷ 0 ∷ 1 ∷ 1 ∷ 0 ∷ 1 ∷ 1 ∷ 1 ∷ 1 ∷ 0 ∷ 0
    ∷ 1 ∷ 1 ∷ 1 ∷ 0 ∷ 0 ∷ 1 ∷ 0 ∷ 1 ∷ 0 ∷ 1 ∷ 1 ∷ 0 ∷ 0 ∷ 1 ∷ 1 ∷ 0 ∷ 0 ∷ 0 ∷ 0 ∷ 0 ∷ 1 ∷ 1 ∷ 0 ∷ 1
    ∷ 1 ∷ 0 ∷ 1 ∷ 0 ∷ 1 ∷ 1 ∷ 1 ∷ 0 ∷ 1 ∷ 0 ∷ 0 ∷ 0 ∷ 1 ∷ 1 ∷ 0 ∷ 0 ∷ 1 ∷ 0 ∷ 0 ∷ 0 ∷ 1 ∷ 0 ∷ 0 ∷ 0
    ∷ 0 ∷ 0 ∷ 0 ∷ 1 ∷ 0 ∷ 0 ∷ 1 ∷ 0 ∷ 0 ∷ 1 ∷ 1 ∷ 0 ∷ 1 ∷ 0 ∷ 0 ∷ 1 ∷ 1 ∷ 1 ∷ 1 ∷ 0 ∷ 1 ∷ 1 ∷ 1 ∷ 0
    ∷ 0 ∷ 0 ∷ 0 ∷ 1 ∷ 1 ∷ 1 ∷ 1 ∷ []

unfoldable pub whitening_index_after_bits : ℕ → ℕ → ℕ
whitening_index_after_bits clk6 logical_bits =
    (at whitening_indices (bit_and clk6 0x3f) + logical_bits) % 127

-- The loop at `bit_pos` with the running index, with `left` bits of the source to go. It stops
-- where the target ends.
unfoldable pub xor_loop : ℕ → ℕ → ℕ → Bytes → ℕ → Bytes → Bytes
xor_loop zero bit_pos index src_air bytes dst = dst
xor_loop (suc left) bit_pos index src_air bytes dst =
    let bit = bit_xor (get_packed_bit src_air bit_pos) (at whitening_data index) in
    let rest =
      xor_loop left (bit_pos + 1) ((index + 1) % 127) src_air bytes
        (set_packed_bit dst bit_pos bit) in
    if ltb (bit_pos / 8) bytes then rest else dst

-- The number of bytes that is returned, and the target.
unfoldable pub xor_whitening_payload : Bytes → ℕ → ℕ → ℕ → Bytes → ℕ → ℕ × Bytes
unfolding xor_loop
xor_whitening_payload src_air src_air_bits clk6 logical_offset_bits dst dst_capacity =
    let wanted = (src_air_bits + 7) / 8 in
    let bytes = if ltb dst_capacity wanted then dst_capacity else wanted in
    let index = whitening_index_after_bits clk6 logical_offset_bits in
    if dst_capacity == 0
    then (0, dst)
    else (bytes, xor_loop src_air_bits 0 index src_air bytes (memset_zero dst bytes))

-- ===== src/Bredr/Fec13.antt =====
-- The repetition code of src/core/protocol/bredr/bredr_codec.c: `bredr_fec_decode_1_3` and
-- `valid_fec_1_3_blocks`.
pub mod Correct
use supertooth.Base.{
  ℕ, zero, suc, ◌+◌, ◌-◌, ◌*◌, ◌/◌, ◌%◌, Option, none, some, Bool, true, false, ◌||◌, not, Bytes,
  ltb, leb, ◌==◌, if◌then◌else◌, flag,
}
use supertooth.Bredr.Packed.{get_packed_bit, set_packed_bit, memset_zero}

-- What `bredr_fec_decode_1_3` and its sister leave: the output array, `*output_bit_count` and the
-- number of errors that is returned.
pub record Decoded : Type 0 where
  pub bits : Bytes
  pub bit_count : ℕ
  pub error_count : ℕ

-- How many of the three bits from `bit_base` on are one.
unfoldable pub ones_at : Bytes → ℕ → ℕ
ones_at input_bits bit_base =
    get_packed_bit input_bits bit_base
    + get_packed_bit input_bits (bit_base + 1)
    + get_packed_bit input_bits (bit_base + 2)

-- The loop at `out_bit`, with `left` rounds to go.
unfoldable pub decode_1_3_loop : ℕ → ℕ → Bytes → Bytes → ℕ → Bytes × ℕ
decode_1_3_loop zero out_bit input_bits output_bits error_count = (output_bits, error_count)
decode_1_3_loop (suc left) out_bit input_bits output_bits error_count =
    let ones = ones_at input_bits (out_bit * 3) in
    let decoded = flag (leb 2 ones) in
    decode_1_3_loop left (out_bit + 1) input_bits (set_packed_bit output_bits out_bit decoded)
      (error_count + (if decoded == 0 then ones else 3 - ones))

-- `none` is the result -1.
unfoldable pub fec_decode_1_3 : Bytes → ℕ → Bytes → Option Decoded
unfolding decode_1_3_loop ones_at
fec_decode_1_3 input_bits input_bit_count output_bits =
    let n = input_bit_count / 3 in
    let (bits, errors) = decode_1_3_loop n 0 input_bits (memset_zero output_bits ((n + 7) / 8)) 0 in
    if not (input_bit_count % 3 == 0)
    then none
    else some (record { bits = bits; bit_count = n; error_count = errors })

valid_1_3_loop : ℕ → ℕ → Bytes → ℕ → ℕ
valid_1_3_loop zero out_bit input_bits valid_count = valid_count
valid_1_3_loop (suc left) out_bit input_bits valid_count =
    let ones = ones_at input_bits (out_bit * 3) in
    valid_1_3_loop left (out_bit + 1) input_bits
      (if ones == 0 || ones == 3 then valid_count + 1 else valid_count)

-- `none` is the result -1.
pub valid_fec_1_3_blocks : Bytes → ℕ → Option ℕ
unfolding valid_1_3_loop
valid_fec_1_3_blocks input_bits input_bit_count =
    if input_bit_count == 0 || not (input_bit_count % 3 == 0)
    then none
    else some (valid_1_3_loop (input_bit_count / 3) 0 input_bits 0)

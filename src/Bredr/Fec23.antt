-- ===== src/Bredr/Fec23.antt =====
-- The shortened Hamming code of src/core/protocol/bredr/bredr_codec.c: `bredr_fec_2_3_remainder`,
-- `bredr_fec_decode_2_3` and `valid_fec_2_3_blocks`.
pub mod Syndrome
pub mod Correct
use supertooth.Base.{
  ℕ, zero, suc, ◌+◌, ◌-◌, ◌*◌, ◌/◌, ◌%◌, bit_and, bit_xor, Option, none, some, Bool, true, false,
  ◌||◌, not, Bytes, ◌==◌, if◌then◌else◌, u8, u16, ◌<<<◌, ◌>>>◌,
}
use mathlib.Core.Option
use supertooth.Bredr.Packed.{get_packed_bit, set_packed_bit, read_packed_field, memset_zero}
use supertooth.Bredr.Fec13.{Decoded}

-- The loop over `bit`, which is `left + 5` in a round with `left` more to go.
unfoldable pub remainder_loop : ℕ → ℕ → ℕ
remainder_loop zero rem = rem
remainder_loop (suc left) rem =
    remainder_loop left
      (if bit_and rem (u16 (1 <<< (left + 5))) == 0 then rem else bit_xor rem (u16 (0x2b <<< left)))

unfoldable pub fec_2_3_remainder : ℕ → ℕ
unfolding remainder_loop
fec_2_3_remainder codeword = u8 (bit_and (remainder_loop 10 codeword) 0x1f)

-- The search for a single wrong bit from `bit` on; `none` if no bit serves.
unfoldable pub find_single : ℕ → ℕ → ℕ → Option ℕ
find_single zero bit codeword = none
find_single (suc left) bit codeword =
    let candidate = u16 (bit_xor codeword (u16 (1 <<< bit))) in
    let rest = find_single left (bit + 1) codeword in
    if fec_2_3_remainder candidate == 0 then some candidate else rest

-- A block: the codeword to use, and the number of errors to add. `none` is the return with -1.
unfoldable pub correct_block : ℕ → Option (ℕ × ℕ)
correct_block codeword =
    if not (fec_2_3_remainder codeword == 0)
    then Option.map (λ candidate. (candidate, 1)) (find_single 15 0 codeword)
    else some (codeword, 0)

-- The inner loop that stores the data bits of a block, at `bit`.
unfoldable pub store_block : ℕ → ℕ → ℕ → ℕ → Bytes → Bytes
store_block zero bit output_offset corrected output_bits = output_bits
store_block (suc left) bit output_offset corrected output_bits =
    store_block left (bit + 1) output_offset corrected
      (set_packed_bit output_bits (output_offset + bit) (u8 (bit_and (corrected >>> bit) 1)))

-- The loop over the blocks, at `block`. Its result is the output array and the error count.
unfoldable pub decode_2_3_loop : ℕ → ℕ → Bytes → Bytes → ℕ → Option (Bytes × ℕ)
decode_2_3_loop zero block input_bits output_bits error_count = some (output_bits, error_count)
decode_2_3_loop (suc left) block input_bits output_bits error_count =
    elim (correct_block (u16 (read_packed_field input_bits (block * 15) 15))) [
      | none ↦ none
      | some (corrected, errors) ↦
          decode_2_3_loop left (block + 1) input_bits
            (store_block 10 0 (block * 10) corrected output_bits) (error_count + errors)
    ]

-- `none` is the result -1.
unfoldable pub fec_decode_2_3 : Bytes → ℕ → Bytes → Option Decoded
unfolding decode_2_3_loop store_block correct_block find_single
fec_decode_2_3 input_bits input_bit_count output_bits =
    let block_count = input_bit_count / 15 in
    let n = block_count * 10 in
    if not (input_bit_count % 15 == 0)
    then none
    else Option.map (λ r. record { bits = r.0; bit_count = n; error_count = r.1 })
        (decode_2_3_loop block_count 0 input_bits (memset_zero output_bits ((n + 7) / 8)) 0)

valid_2_3_loop : ℕ → ℕ → Bytes → ℕ → ℕ
valid_2_3_loop zero block input_bits valid_count = valid_count
valid_2_3_loop (suc left) block input_bits valid_count =
    valid_2_3_loop left (block + 1) input_bits (
      if fec_2_3_remainder (u16 (read_packed_field input_bits (block * 15) 15)) == 0
      then valid_count + 1
      else valid_count)

-- `none` is the result -1.
pub valid_fec_2_3_blocks : Bytes → ℕ → Option ℕ
unfolding valid_2_3_loop
valid_fec_2_3_blocks input_bits input_bit_count =
    if input_bit_count == 0 || not (input_bit_count % 15 == 0)
    then none
    else some (valid_2_3_loop (input_bit_count / 15) 0 input_bits 0)

-- ===== src/Bredr/Packed.antt =====
-- Bit fields packed into bytes, least significant bit first: `bredr_get_packed_bit`,
-- `bredr_set_packed_bit`, `bredr_read_packed_field`, `bredr_copy_packed_bits` and
-- `bredr_pack_header_raw` of src/core/protocol/bredr/bredr_codec.c.
pub mod Laws
pub mod Fields
use supertooth.Base.{
  ℕ, zero, suc, ◌+◌, ◌/◌, ◌%◌, bit_and, bit_or, [], Bytes, at, set, take, drop, replicate, ◌++◌,
  ◌==◌, if◌then◌else◌, u8, u32, ◌<<<◌, ◌>>>◌, not,
}

unfoldable pub get_packed_bit : Bytes → ℕ → ℕ
get_packed_bit bytes bit_pos = u8 (bit_and (at bytes (bit_pos / 8) >>> (bit_pos % 8)) 1)

-- A write behind the end of the array, which C leaves undefined, changes nothing.
unfoldable pub set_packed_bit : Bytes → ℕ → ℕ → Bytes
set_packed_bit bytes bit_pos bit =
    let byte_idx = bit_pos / 8 in
    let bit_idx = bit_pos % 8 in
    if bit_and bit 1 == 0
    then bytes
    else set bytes byte_idx (u8 (bit_or (at bytes byte_idx) (u8 (1 <<< bit_idx))))

-- The loop at `i`, with `left` rounds to go.
unfoldable pub read_field_loop : ℕ → ℕ → Bytes → ℕ → ℕ → ℕ
read_field_loop zero i bytes bit_offset value = value
read_field_loop (suc left) i bytes bit_offset value =
    read_field_loop left (i + 1) bytes bit_offset
      (bit_or value (u32 (get_packed_bit bytes (bit_offset + i) <<< i)))

unfoldable pub read_packed_field : Bytes → ℕ → ℕ → ℕ
unfolding read_field_loop get_packed_bit
read_packed_field bytes bit_offset bit_count = read_field_loop bit_count 0 bytes bit_offset 0

-- `memset(dst, 0, n)`.
abbrev pub memset_zero : Bytes → ℕ → Bytes
memset_zero dst n = replicate n 0 ++ drop n dst

-- `for (i = ..; left rounds) bredr_set_packed_bit(dst, i, f(i));`
unfoldable pub write_bits : ℕ → ℕ → (ℕ → ℕ) → Bytes → Bytes
write_bits zero i f dst = dst
write_bits (suc left) i f dst = write_bits left (i + 1) f (set_packed_bit dst i (f i))

pub copy_packed_bits : Bytes → ℕ → ℕ → Bytes → Bytes
copy_packed_bits src bit_off nbits dst =
    write_bits nbits 0 (λ i. get_packed_bit src (bit_off + i)) (memset_zero dst ((nbits + 7) / 8))

-- `packed` has seven bytes. The test in the loop asks for the bit that is written.
unfoldable pub pack_header_raw : ℕ → Bytes → Bytes
unfolding write_bits set_packed_bit
pack_header_raw header_raw packed =
    write_bits 54 0 (λ bit. if bit_and header_raw (1 <<< bit) == 0 then 0 else 1)
      (memset_zero packed 7)

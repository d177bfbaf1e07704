-- ===== src/Bredr/Packed/Fields.antt =====
-- `bredr_read_packed_field` and `bredr_copy_packed_bits` against one another.
use native.Mathlib.Nat.{pow-le-pow_right}
use supertooth.Base.{
  ℕ, zero, suc, ◌+◌, ◌*◌, ◌/◌, ◌^◌, ◌<◌, ◌≤◌, ◌≡◌, ap, ◌∙◌, arith, bit_or, Bytes, length,
  if◌then◌else◌, u32, ◌<<<◌, ltb,
}
use supertooth.Base.Bits.{bit, bit-lt, bit_ext, bit-bit_or}
use supertooth.Base.Masks.{or_fields, bit-shl, bit_beyond, pow_next}
use supertooth.Bredr.Packed.{get_packed_bit, read_field_loop, read_packed_field, copy_packed_bits}
use supertooth.Bredr.Packed.Laws.{get_packed_bit-lt, write_fresh}

digit_le : (g p : ℕ) → g < 2 → g * p ≤ p
digit_le zero p h = omega arith
digit_le (suc zero) p h = omega arith
digit_le (suc (suc g)) p h = absurd (omega arith)

module _ (bytes : Bytes) (off : ℕ) where
  read_field_loop-suc :
      (left i value : ℕ)
      → i < 32
      → value < 2 ^ i
      → read_field_loop (suc left) i bytes off value
        ≡ read_field_loop left (i + 1) bytes off (value + get_packed_bit bytes (off + i) * 2 ^ i)
  unfolding read_field_loop
  read_field_loop-suc left i value h small =
      let g = get_packed_bit bytes (off + i) in
      let fits : g * 2 ^ i ≤ 2 ^ i = digit_le g (2 ^ i) (get_packed_bit-lt bytes (off + i)) in
      let below : 2 ^ i ≤ 2 ^ 31 =
        pow-le-pow_right {n = 2} (omega arith) {i = i} {j = 31} (omega arith) in
      let whole : u32 (g <<< i) ≡ g * 2 ^ i = omega arith in
      ap (read_field_loop left (i + 1) bytes off)
        (ap (bit_or value) whole ∙ or_fields i value g small)

  -- The digits that the loop has when it stops.
  abbrev field_bit : ℕ → ℕ → ℕ → ℕ → ℕ
  field_bit left i value j =
      if ltb j i
      then bit value j
      else if ltb j (i + left)
      then get_packed_bit bytes (off + j)
      else 0

  bit-read_field_loop :
      (left i value j : ℕ)
      → i + left ≤ 32
      → value < 2 ^ i
      → bit (read_field_loop left i bytes off value) j ≡ field_bit left i value j
  bit-read_field_loop zero i value j h small =
      unfold read_field_loop in ground (arith, bit_beyond i j value small)
  bit-read_field_loop (suc left) i value j h small =
      let g = get_packed_bit bytes (off + i) in
      let bound = get_packed_bit-lt bytes (off + i) in
      let next : value + g * 2 ^ i < 2 ^ (i + 1) =
        omega (arith, digit_le g (2 ^ i) bound, pow_next i) in
      ap (λ t. bit t j) (read_field_loop-suc left i value (omega arith) small)
      ∙ bit-read_field_loop left (i + 1) (value + g * 2 ^ i) j (omega arith) next
      ∙ ground (
        arith,
        ap (λ t. bit t j) (or_fields i value g small),
        bit-bit_or value (g * 2 ^ i) j,
        bit-shl g i j bound,
        bit_beyond i j value small,
        bit-lt value j,
      )

-- A field of at most 32 bits has the bits of the array from its offset on, and no others.
pub bit-read_packed_field :
    (bytes : Bytes) (off count j : ℕ)
    → count ≤ 32
    → bit (read_packed_field bytes off count) j
      ≡ (if ltb j count then get_packed_bit bytes (off + j) else 0)
unfolding read_packed_field
bit-read_packed_field bytes off count j h =
    bit-read_field_loop bytes off count 0 0 j (omega arith) (omega arith) ∙ ground arith

-- A copy of bits has the source's bits from the offset on, if the target holds them.
pub get_packed_bit-copy_packed_bits :
    (src : Bytes) (bit_off nbits : ℕ) (dst : Bytes) (j : ℕ)
    → (nbits + 7) / 8 ≤ length dst
    → j < nbits
    → get_packed_bit (copy_packed_bits src bit_off nbits dst) j ≡ get_packed_bit src (bit_off + j)
unfolding copy_packed_bits
get_packed_bit-copy_packed_bits src bit_off nbits dst j fits h = omega (
  arith,
  write_fresh nbits (λ i. get_packed_bit src (bit_off + i)) dst j fits h,
  get_packed_bit-lt src (bit_off + j),
)

-- A field that is copied out of an array and read back is the field that stands in the array.
pub read_packed_field-copy_packed_bits :
    (src : Bytes) (bit_off nbits : ℕ) (dst : Bytes)
    → nbits ≤ 32
    → (nbits + 7) / 8 ≤ length dst
    → read_packed_field (copy_packed_bits src bit_off nbits dst) 0 nbits
      ≡ read_packed_field src bit_off nbits
read_packed_field-copy_packed_bits src bit_off nbits dst small fits = bit_ext _ _ λ j. ground (
  arith,
  bit-read_packed_field (copy_packed_bits src bit_off nbits dst) 0 nbits j,
  bit-read_packed_field src bit_off nbits j,
  get_packed_bit-copy_packed_bits src bit_off nbits dst j fits,
)

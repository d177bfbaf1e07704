-- ===== src/Ble/Crc/Reverse.antt =====
-- The order of the bits of a byte, and of the three bytes of a checksum on the air.
use supertooth.Base.{
  ℕ, ◌+◌, ◌-◌, ◌*◌, ◌/◌, ◌%◌, ◌<◌, ◌^◌, ◌≡◌, refl, ap, ap₂, ◌∙◌, arith, bit_or, Bool, true, [], ◌∷◌,
  Bytes, u32, ◌<<<◌, ◌==◌, ==_iff, all_below, all_below_sound,
}
use supertooth.Base.Bits.{bit}
use supertooth.Base.Masks.{or_comm, or_fields}
use supertooth.Ble.Crc.{bit_reverse_byte, extract_crc}

abbrev mirrored : ℕ → ℕ → Bool
mirrored b i = bit (bit_reverse_byte b) i == bit b (7 - i)

mirror_table : all_below 256 (λ b. all_below 8 (mirrored b)) ≡ true
unfolding bit_reverse_byte
mirror_table = refl

-- Bit `i` of the reversed byte is bit `7 - i` of the byte.
bit-bit_reverse_byte : (b i : ℕ) → b < 256 → i < 8 → bit (bit_reverse_byte b) i ≡ bit b (7 - i)
bit-bit_reverse_byte b i hb hi = (==_iff (bit (bit_reverse_byte b) i) (bit b (7 - i))).0 (
    all_below_sound 8 (mirrored b) i
      (all_below_sound 256 (λ c. all_below 8 (mirrored c)) b mirror_table hb) hi)

abbrev returns : ℕ → Bool
returns b = bit_reverse_byte (bit_reverse_byte b) == b

return_table : all_below 256 returns ≡ true
unfolding bit_reverse_byte
return_table = refl

-- Reversing twice gives the byte back.
pub bit_reverse_byte_twice : (b : ℕ) → b < 256 → bit_reverse_byte (bit_reverse_byte b) ≡ b
bit_reverse_byte_twice b h =
    (==_iff (bit_reverse_byte (bit_reverse_byte b)) b).0
      (all_below_sound 256 returns b return_table h)

-- The three bytes in which a checksum is sent.
unfoldable pub air_crc : ℕ → Bytes
air_crc crc =
    bit_reverse_byte (crc / 2 ^ 16)
    ∷ bit_reverse_byte (crc / 2 ^ 8 % 256)
    ∷ bit_reverse_byte (crc % 256)
    ∷ []

or_three :
    (a b c : ℕ)
    → a < 256
    → b < 256
    → c < 256
    → bit_or (bit_or (u32 (a <<< 16)) (u32 (b <<< 8))) c ≡ a * 65536 + b * 256 + c
or_three a b c ha hb hc =
    let high : u32 (a <<< 16) ≡ a * 2 ^ 16 = omega arith in
    let middle : u32 (b <<< 8) ≡ b * 2 ^ 8 = omega arith in
    let both : bit_or (a * 2 ^ 16) (b * 2 ^ 8) ≡ (a * 256 + b) * 2 ^ 8 =
      or_comm (a * 2 ^ 16) (b * 2 ^ 8) ∙ or_fields 16 (b * 2 ^ 8) a (omega arith) ∙ omega arith in
    ap₂ (λ x y. bit_or (bit_or x y) c) high middle
    ∙ ap (λ x. bit_or x c) both
    ∙ or_comm ((a * 256 + b) * 2 ^ 8) c
    ∙ or_fields 8 c (a * 256 + b) hc
    ∙ omega arith

-- `ble_extract_crc` reads a checksum back from its bytes on the air.
pub extract_crc-air_crc : (crc : ℕ) → crc < 2 ^ 24 → extract_crc (air_crc crc) ≡ crc
unfolding extract_crc air_crc
extract_crc-air_crc crc h =
    let a = crc / 2 ^ 16 in
    let b = crc / 2 ^ 8 % 256 in
    let c = crc % 256 in
    rw
      (
        bit_reverse_byte_twice (crc / 2 ^ 16) (omega arith),
        bit_reverse_byte_twice (crc / 2 ^ 8 % 256) (omega arith),
        bit_reverse_byte_twice (crc % 256) (omega arith),
      )
      (or_three a b c (omega arith) (omega arith) (omega arith) ∙ omega arith)

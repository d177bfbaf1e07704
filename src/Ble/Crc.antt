-- ===== src/Ble/Crc.antt =====
-- The checksum of src/core/protocol/ble/ble_codec.c: `ble_bit_reverse_byte`, `ble_crc_calc` and
-- `ble_extract_crc`.
pub mod Linear
pub mod Detect
pub mod Reverse
use supertooth.Base.{
  ℕ, zero, suc, ◌+◌, bit_and, bit_or, bit_xor, [], ◌∷◌, Bytes, at, u8, u32, ◌<<<◌, ◌>>>◌,
}
use supertooth.Base.Linear.{xor_if}

unfoldable pub bit_reverse_byte : ℕ → ℕ
bit_reverse_byte b =
    let b' = u8 (bit_or (bit_and b 0xf0 >>> 4) (bit_and b 0x0f <<< 4)) in
    let b'' = u8 (bit_or (bit_and b' 0xcc >>> 2) (bit_and b' 0x33 <<< 2)) in
    u8 (bit_or (bit_and b'' 0xaa >>> 1) (bit_and b'' 0x55 <<< 1))

-- The inner loop's body, for the data bit `d`.
unfoldable pub crc_bit : ℕ → ℕ → ℕ
crc_bit crc d =
    let fb = u8 (bit_and (bit_xor (crc >>> 23) d) 1) in
    xor_if 0x65b fb (bit_and (u32 (crc <<< 1)) 0xffffff)

-- The inner loop at `bit`, with `left` rounds to go.
unfoldable pub crc_byte : ℕ → ℕ → ℕ → ℕ → ℕ
crc_byte zero bit crc byte = crc
crc_byte (suc left) bit crc byte =
    crc_byte left (bit + 1) (crc_bit crc (u8 (bit_and (byte >>> bit) 1))) byte

-- The outer loop at `i`, with `left` rounds to go.
unfoldable pub crc_loop : ℕ → ℕ → Bytes → ℕ → ℕ
crc_loop zero i bytes crc = crc
crc_loop (suc left) i bytes crc = crc_loop left (i + 1) bytes (crc_byte 8 0 crc (at bytes i))

unfoldable pub crc_calc : Bytes → ℕ → ℕ → ℕ
unfolding crc_loop crc_byte crc_bit
crc_calc bytes len init = crc_loop len 0 bytes (bit_and init 0xffffff)

unfoldable pub extract_crc : Bytes → ℕ
extract_crc crc_bytes =
    bit_or
      (bit_or (u32 (bit_reverse_byte (at crc_bytes 0) <<< 16))
        (u32 (bit_reverse_byte (at crc_bytes 1) <<< 8)))
      (bit_reverse_byte (at crc_bytes 2))

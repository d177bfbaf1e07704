-- ===== src/Bredr/PayloadCrc.antt =====
-- The payload checksum of src/core/protocol/bredr/bredr_codec.c: `bredr_reverse_byte` and
-- `bredr_payload_crc`.
pub mod Linear
pub mod Detect
use supertooth.Base.{ℕ, zero, suc, ◌+◌, bit_and, bit_or, bit_xor, Bytes, u8, u16, ◌<<<◌, ◌>>>◌}
use supertooth.Bredr.Packed.{get_packed_bit}

unfoldable pub reverse_byte : ℕ → ℕ
reverse_byte b =
    let b' = u8 (bit_or (bit_and b 0xf0 >>> 4) (bit_and b 0x0f <<< 4)) in
    let b'' = u8 (bit_or (bit_and b' 0xcc >>> 2) (bit_and b' 0x33 <<< 2)) in
    u8 (bit_or (bit_and b'' 0xaa >>> 1) (bit_and b'' 0x55 <<< 1))

-- The body of the loop, for one bit of the payload.
unfoldable pub crc_step : ℕ → ℕ → ℕ
crc_step reg bit =
    let r1 = u16 (bit_or (reg >>> 1) (bit_xor (bit_and reg 1) (bit_and bit 1) <<< 15)) in
    let r2 = u16 (bit_xor r1 (bit_and r1 0x8000 >>> 5)) in
    u16 (bit_xor r2 (bit_and r2 0x8000 >>> 12))

-- The loop at bit `i`, with `left` rounds to go.
unfoldable pub crc_steps : ℕ → ℕ → Bytes → ℕ → ℕ
crc_steps zero i bytes reg = reg
crc_steps (suc left) i bytes reg =
    crc_steps left (i + 1) bytes (crc_step reg (get_packed_bit bytes i))

unfoldable pub payload_crc : Bytes → ℕ → ℕ → ℕ
unfolding crc_steps crc_step
payload_crc bytes bit_count uap = crc_steps bit_count 0 bytes (u16 (reverse_byte uap <<< 8))

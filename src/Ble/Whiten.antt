-- ===== src/Ble/Whiten.antt =====
-- `ble_dewhiten` of src/core/protocol/ble/ble_codec.c. The array is changed in place; the model
-- returns it.
pub mod Laws
pub mod Period
pub mod Stream
use supertooth.Base.{ℕ, zero, suc, ◌+◌, bit_and, bit_or, bit_xor, [], ◌∷◌, Bytes, u8, ◌<<<◌, ◌>>>◌}

-- The body of the inner loop, as the register sees it.
pub shift_register : ℕ → ℕ
shift_register lfsr =
    let out_bit = bit_and lfsr 1 in
    let fed = bit_xor lfsr (u8 (out_bit <<< 3)) in bit_or (fed >>> 1) (u8 (out_bit <<< 6))

-- The inner loop at `bit_idx`, with `left` rounds to go, over one byte and the register.
pub dewhiten_byte : ℕ → ℕ → ℕ → ℕ → ℕ × ℕ
dewhiten_byte zero bit_idx lfsr byte = (byte, lfsr)
dewhiten_byte (suc left) bit_idx lfsr byte =
    dewhiten_byte left (bit_idx + 1) (shift_register lfsr)
      (bit_xor byte (u8 (bit_and lfsr 1 <<< bit_idx)))

-- The outer loop with `left` bytes to go. It stops at the end of the array, behind which C has
-- nothing to read.
pub dewhiten_bytes : ℕ → ℕ → Bytes → Bytes
dewhiten_bytes zero lfsr bytes = bytes
dewhiten_bytes (suc left) lfsr [] = []
dewhiten_bytes (suc left) lfsr (byte ∷ bytes) =
    let (byte', lfsr') = dewhiten_byte 8 0 lfsr byte in byte' ∷ dewhiten_bytes left lfsr' bytes

pub dewhiten : Bytes → ℕ → ℕ → Bytes
dewhiten bytes length_bytes channel_index =
    dewhiten_bytes length_bytes (bit_or (bit_and channel_index 0x3f) 0x40) bytes

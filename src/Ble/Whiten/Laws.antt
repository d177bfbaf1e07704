-- ===== src/Ble/Whiten/Laws.antt =====
-- What the whitening does: it adds a key stream, which the bytes do not influence.
use supertooth.Base.{
  ℕ, zero, suc, ◌+◌, bit_and, bit_or, bit_xor, ◌≡◌, refl, sym, ap, ap₂, ◌∙◌, [], ◌∷◌, Bytes, u8,
  ◌<<<◌, length,
}
use supertooth.Base.Xor.{xor_assoc, xor_cancel, xor-zero}
use supertooth.Ble.Whiten.{shift_register, dewhiten_byte, dewhiten_bytes, dewhiten}

-- The eight bits that the register gives to a byte, and the register behind them.
unfoldable pub key_byte : ℕ → ℕ
key_byte lfsr = (dewhiten_byte 8 0 lfsr 0).0

unfoldable pub next_register : ℕ → ℕ
next_register lfsr = (dewhiten_byte 8 0 lfsr 0).1

dewhiten_byte-xor :
    (left i lfsr byte mask : ℕ)
    → (dewhiten_byte left i lfsr (bit_xor byte mask)).0
      ≡ bit_xor byte (dewhiten_byte left i lfsr mask).0
unfolding dewhiten_byte
dewhiten_byte-xor zero i lfsr byte mask = refl
dewhiten_byte-xor (suc left) i lfsr byte mask =
    let add = u8 (bit_and lfsr 1 <<< i) in
    let rest = dewhiten_byte left (i + 1) (shift_register lfsr) in
    ap (λ t. (rest t).0) (xor_assoc byte mask add)
    ∙ dewhiten_byte-xor left (i + 1) (shift_register lfsr) byte (bit_xor mask add)

dewhiten_byte_register :
    (left i lfsr byte mask : ℕ)
    → (dewhiten_byte left i lfsr byte).1 ≡ (dewhiten_byte left i lfsr mask).1
unfolding dewhiten_byte
dewhiten_byte_register zero i lfsr byte mask = refl
dewhiten_byte_register (suc left) i lfsr byte mask =
    dewhiten_byte_register left (i + 1) (shift_register lfsr) _ _

pub dewhiten_bytes-cons :
    (left lfsr byte : ℕ) (bytes : Bytes)
    → dewhiten_bytes (suc left) lfsr (byte ∷ bytes)
      ≡ bit_xor byte (key_byte lfsr) ∷ dewhiten_bytes left (next_register lfsr) bytes
unfolding dewhiten_bytes key_byte next_register
dewhiten_bytes-cons left lfsr byte bytes =
    let here = dewhiten_byte-xor 8 0 lfsr byte 0 in
    let onward = dewhiten_byte_register 8 0 lfsr byte 0 in
    ap₂ (λ b r. b ∷ dewhiten_bytes left r bytes)
      (ap (λ t. (dewhiten_byte 8 0 lfsr t).0) (sym (xor-zero byte)) ∙ here) onward

dewhiten_bytes_twice :
    (left lfsr : ℕ) (bytes : Bytes)
    → dewhiten_bytes left lfsr (dewhiten_bytes left lfsr bytes) ≡ bytes
dewhiten_bytes_twice zero lfsr bytes = unfold dewhiten_bytes in refl
dewhiten_bytes_twice (suc left) lfsr [] = unfold dewhiten_bytes in refl
dewhiten_bytes_twice (suc left) lfsr (byte ∷ bytes) =
    let key = key_byte lfsr in
    let rest = dewhiten_bytes left (next_register lfsr) bytes in
    ap (dewhiten_bytes (suc left) lfsr) (dewhiten_bytes-cons left lfsr byte bytes)
    ∙ dewhiten_bytes-cons left lfsr (bit_xor byte key) rest
    ∙ ap₂ ◌∷◌ (xor_cancel byte key) (dewhiten_bytes_twice left (next_register lfsr) bytes)

-- Whitening a buffer twice with the same channel gives the buffer back, whatever the channel, the
-- contents and the number of bytes.
pub dewhiten_twice :
    (bytes : Bytes) (n channel_index : ℕ)
    → dewhiten (dewhiten bytes n channel_index) n channel_index ≡ bytes
unfolding dewhiten
dewhiten_twice bytes n channel_index =
    dewhiten_bytes_twice n (bit_or (bit_and channel_index 0x3f) 0x40) bytes

length-dewhiten_bytes :
    (left lfsr : ℕ) (bytes : Bytes) → length (dewhiten_bytes left lfsr bytes) ≡ length bytes
unfolding dewhiten_bytes
length-dewhiten_bytes zero lfsr bytes = refl
length-dewhiten_bytes (suc left) lfsr [] = refl
length-dewhiten_bytes (suc left) lfsr (byte ∷ bytes) =
    ap suc (length-dewhiten_bytes left (dewhiten_byte 8 0 lfsr byte).1 bytes)

pub length-dewhiten :
    (bytes : Bytes) (n channel_index : ℕ) → length (dewhiten bytes n channel_index) ≡ length bytes
unfolding dewhiten
length-dewhiten bytes n channel_index =
    length-dewhiten_bytes n (bit_or (bit_and channel_index 0x3f) 0x40) bytes

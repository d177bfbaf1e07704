-- ===== src/Ble/Bitstream/Bits.antt =====
-- The bits of a packed buffer, of which the lowest bit of a byte comes first, as
-- src/core/protocol/ble/ble_bitstream_decoder.c reads and writes them.
use supertooth.Base.{
  ℕ, zero, suc, ◌+◌, ◌-◌, ◌/◌, ◌%◌, bit_and, bit_or, Bytes, at, set, ◌==◌, if◌then◌else◌, u8, ◌<<<◌,
  ◌>>>◌,
}

unfoldable pub get_bit : Bytes → ℕ → ℕ
get_bit buf i = u8 (bit_and (at buf (i / 8) >>> (i % 8)) 1)

unfoldable pub set_bit : Bytes → ℕ → ℕ → Bytes
set_bit buf i b =
    let mask = u8 (1 <<< (i % 8)) in
    let old = at buf (i / 8) in
    set buf (i / 8) (if b == 0 then bit_and old (255 - mask) else bit_or old mask)

-- The loop at bit `j`, with `left` rounds to go.
unfoldable pub window_loop : ℕ → ℕ → Bytes → ℕ → ℕ → ℕ
unfolding get_bit
window_loop zero j buf from w = w
window_loop (suc left) j buf from w =
    window_loop left (j + 1) buf from (bit_or w (u8 (get_bit buf (from + j) <<< j)))

unfoldable pub window8 : Bytes → ℕ → ℕ
unfolding window_loop
window8 buf from = window_loop 8 0 buf from 0

-- The two loops of `ble_shift_bits`.
unfoldable pub move_loop : ℕ → ℕ → ℕ → Bytes → Bytes
unfolding get_bit set_bit
move_loop zero i k cand = cand
move_loop (suc left) i k cand = move_loop left (i + 1) k (set_bit cand i (get_bit cand (i + k)))

unfoldable pub clear_loop : ℕ → ℕ → Bytes → Bytes
unfolding set_bit
clear_loop zero i cand = cand
clear_loop (suc left) i cand = clear_loop left (i + 1) (set_bit cand i 0)

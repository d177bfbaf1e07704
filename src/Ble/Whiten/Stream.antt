-- ===== src/Ble/Whiten/Stream.antt =====
-- The key stream of `ble_dewhiten` against the register that the Bluetooth specification gives:
-- x⁷ + x⁴ + 1, with a one in its first cell and the channel index in the other six, the highest bit
-- first. It is the register of BR/EDR with another start; the code holds its cells in reverse.
use supertooth.Base.{
  ℕ, zero, suc, ◌+◌, ◌*◌, ◌/◌, ◌%◌, ◌<◌, ◌≡◌, refl, sym, ap, ap₂, ◌∙◌, arith, bit_and, bit_or, Bool,
  true, false, ◌∷◌, [], Bytes, at, length, ltb, ◌==◌, ==_iff, all_below, all_below_sound,
  if◌then◌else◌,
}
use supertooth.Base.Bits.{bit, bit-bit_xor, bit-lt}
use supertooth.Base.Masks.{mask_ones}
use supertooth.Bredr.Whitening.Register.{register_bit, register_next, run, run-add}
use supertooth.Ble.Whiten.{shift_register, dewhiten_byte, dewhiten_bytes, dewhiten}
use supertooth.Ble.Whiten.Laws.{key_byte, next_register, dewhiten_bytes-cons}

-- The cells of the register for a channel, cell `k` as bit `k`.
abbrev pub channel_cells : ℕ → ℕ
channel_cells channel =
    1
    + 2 * (channel / 32 % 2)
    + 4 * (channel / 16 % 2)
    + 8 * (channel / 8 % 2)
    + 16 * (channel / 4 % 2)
    + 32 * (channel / 2 % 2)
    + 64 * (channel % 2)

-- Bit `n` of the key stream for a channel.
abbrev pub key_bit : ℕ → ℕ → ℕ
key_bit channel n = register_bit (run n (channel_cells channel))

-- The cells that the code's register stands for.
abbrev cells_of : ℕ → ℕ
cells_of lfsr =
    lfsr / 64 % 2
    + 2 * (lfsr / 32 % 2)
    + 4 * (lfsr / 16 % 2)
    + 8 * (lfsr / 8 % 2)
    + 16 * (lfsr / 4 % 2)
    + 32 * (lfsr / 2 % 2)
    + 64 * (lfsr % 2)

abbrev start_of : ℕ → ℕ
start_of channel = bit_or (bit_and channel 0x3f) 0x40

abbrev start_right : ℕ → Bool
start_right c = cells_of (bit_or c 0x40) == channel_cells c

start_table : all_below 64 start_right ≡ true
start_table = refl

abbrev start_small : ℕ → Bool
start_small c = bit_or c 0x40 / 128 == 0

start_bound : all_below 64 start_small ≡ true
start_bound = refl

abbrev byte_right : ℕ → Bool
byte_right s = all_below 8 (λ j. bit (key_byte s) j == register_bit (run j (cells_of s)))

byte_table : all_below 128 byte_right ≡ true
unfolding key_byte dewhiten_byte shift_register run register_next register_bit
byte_table = refl

abbrev next_right : ℕ → Bool
next_right s = cells_of (next_register s) == run 8 (cells_of s)

next_table : all_below 128 next_right ≡ true
unfolding next_register dewhiten_byte shift_register run register_next register_bit
next_table = refl

abbrev next_small : ℕ → Bool
next_small s = next_register s / 128 == 0

next_bound : all_below 128 next_small ≡ true
unfolding next_register dewhiten_byte shift_register
next_bound = refl

bit-key_byte : (s j : ℕ) → s < 128 → j < 8 → bit (key_byte s) j ≡ register_bit (run j (cells_of s))
bit-key_byte s j h k = (==_iff _ _).0 (
    all_below_sound 8 (λ j. bit (key_byte s) j == register_bit (run j (cells_of s))) j
      (all_below_sound 128 byte_right s byte_table h) k)

cells_of-next_register : (s : ℕ) → s < 128 → cells_of (next_register s) ≡ run 8 (cells_of s)
cells_of-next_register s h = (==_iff _ _).0 (all_below_sound 128 next_right s next_table h)

next_register-lt : (s : ℕ) → s < 128 → next_register s < 128
next_register-lt s h =
    let small =
      (==_iff (next_register s / 128) 0).0 (all_below_sound 128 next_small s next_bound h) in
    omega (arith, small)

-- The key bit of a byte that is whitened, and nothing behind those.
abbrev stream_bit : ℕ → ℕ → ℕ → ℕ → ℕ
stream_bit n cells i j = if ltb i n then register_bit (run (8 * i + j) cells) else 0

bit_stays : (b j : ℕ) → bit b j ≡ (bit b j + 0) % 2
bit_stays b j = omega (arith, bit-lt b j)

dewhiten_bytes-stream :
    (left lfsr : ℕ) (bytes : Bytes) (i j : ℕ)
    → lfsr < 128
    → i < length bytes
    → j < 8
    → bit (at (dewhiten_bytes left lfsr bytes) i) j
      ≡ (bit (at bytes i) j + stream_bit left (cells_of lfsr) i j) % 2
dewhiten_bytes-stream left lfsr [] i j small h k = absurd (omega arith)
dewhiten_bytes-stream zero lfsr (byte ∷ bytes) i j small h k =
    unfold dewhiten_bytes in
    let done : ltb i 0 ≡ false = ground arith in rw done (bit_stays (at (byte ∷ bytes) i) j)
dewhiten_bytes-stream (suc left) lfsr (byte ∷ bytes) zero j small h k =
    let here : 8 * 0 + j ≡ j = omega arith in
    let first : ltb 0 (suc left) ≡ true = ground arith in
    ap (λ t. bit (at t 0) j) (dewhiten_bytes-cons left lfsr byte bytes)
    ∙ bit-bit_xor byte (key_byte lfsr) j
    ∙ ap (λ b. (bit byte j + b) % 2)
        (bit-key_byte lfsr j small k
          ∙ ap (λ n. register_bit (run n (cells_of lfsr))) (sym here)
          ∙ ap (λ (b : Bool). if b then register_bit (run (8 * 0 + j) (cells_of lfsr)) else 0)
              (sym first))
dewhiten_bytes-stream (suc left) lfsr (byte ∷ bytes) (suc i) j small h k =
    let later : 8 * suc i + j ≡ 8 + (8 * i + j) = omega arith in
    let moved : run (8 * i + j) (cells_of (next_register lfsr))
        ≡ run (8 * suc i + j) (cells_of lfsr) =
      ap (run (8 * i + j)) (cells_of-next_register lfsr small)
      ∙ sym (run-add 8 (8 * i + j) (cells_of lfsr))
      ∙ ap (λ n. run n (cells_of lfsr)) (sym later) in
    let same : ltb (suc i) (suc left) ≡ ltb i left = ground arith in
    ap (λ t. bit (at t (suc i)) j) (dewhiten_bytes-cons left lfsr byte bytes)
    ∙ dewhiten_bytes-stream left (next_register lfsr) bytes i j (next_register-lt lfsr small)
        (omega arith) k
    ∙ ap₂ (λ (b : Bool) (r : ℕ). (bit (at bytes i) j + (if b then register_bit r else 0)) % 2)
        (sym same) moved

-- `ble_dewhiten` adds the key stream of the channel to the first `n` bytes of a buffer, bit by bit
-- and the lowest bit of a byte first, and leaves the bytes behind them as they are: a bit of the
-- result is the sum of the bit that was there and, within those bytes, the bit that the
-- specification's register gives at that place. The channel index is read modulo 64.
pub dewhiten-key_bit :
    (bytes : Bytes) (n channel_index i j : ℕ)
    → i < length bytes
    → j < 8
    → bit (at (dewhiten bytes n channel_index) i) j
      ≡ (bit (at bytes i) j + (if ltb i n then key_bit (channel_index % 64) (8 * i + j) else 0)) % 2
unfolding dewhiten
dewhiten-key_bit bytes n channel_index i j h k =
    let c = channel_index % 64 in
    let masked : bit_and channel_index 0x3f ≡ c = mask_ones 6 channel_index in
    let inside : c < 64 = omega arith in
    let small =
      (==_iff (bit_or c 0x40 / 128) 0).0 (all_below_sound 64 start_small c start_bound inside) in
    let started =
      (==_iff (cells_of (bit_or c 0x40)) (channel_cells c)).0
        (all_below_sound 64 start_right c start_table inside) in
    ap (λ t. bit (at (dewhiten_bytes n (bit_or t 0x40) bytes) i) j) masked
    ∙ dewhiten_bytes-stream n (bit_or c 0x40) bytes i j (omega (arith, small)) h k
    ∙ ap (λ r. (bit (at bytes i) j + stream_bit n r i j) % 2) started

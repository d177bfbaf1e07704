-- ===== src/Ble/Channels.antt =====
-- The numbering of the forty LE channels: `ble_rf_channel_freq_hz`, `ble_rf_is_advertising`,
-- `ble_channel_number_for_rf` and `ble_rf_for_channel_number` of src/core/protocol/ble/ble_bitstream_decoder.h, and
-- `ble_rf_to_le_channel` of ble_codec.c.
use supertooth.Base.{
  ℕ, ◌+◌, ◌-◌, ◌*◌, ◌<◌, ◌≤◌, ◌≡◌, ◌↔◌, ◌⊎◌, arith, Bool, true, ◌||◌, ltb, leb, ◌==◌, if◌then◌else◌,
  u8, u32,
}

pub rf_channel_freq_hz : ℕ → ℕ
rf_channel_freq_hz rf = u32 (2402000000 + u32 (rf * 2000000))

pub rf_is_advertising : ℕ → Bool
rf_is_advertising rf = rf == 0 || rf == 12 || rf == 39

pub channel_number_for_rf : ℕ → ℕ
channel_number_for_rf rf =
    if rf == 0
    then 37
    else if rf == 12
    then 38
    else if leb 39 rf
    then 39
    else if ltb rf 12
    then u8 (rf - 1)
    else u8 (rf - 2)

pub rf_for_channel_number : ℕ → ℕ
rf_for_channel_number ch =
    if ch == 37
    then 0
    else if ch == 38
    then 12
    else if ch == 39
    then 39
    else if leb ch 10
    then ch + 1
    else if leb ch 36
    then ch + 2
    else 0xff

pub rf_to_le_channel : ℕ → ℕ
rf_to_le_channel rf_channel_index =
    if rf_channel_index == 0
    then 37
    else if rf_channel_index == 12
    then 38
    else if leb 39 rf_channel_index
    then 39
    else if ltb rf_channel_index 12
    then u8 (rf_channel_index - 1)
    else u8 (rf_channel_index - 2)

-- On the forty channels the two numberings are inverse to one another.
pub rf_for_channel_number-channel_number_for_rf_iff :
    (rf ch : ℕ)
    → rf < 40
    → ch < 40
    → (channel_number_for_rf rf ≡ ch) ↔ (rf_for_channel_number ch ≡ rf)
unfolding channel_number_for_rf rf_for_channel_number
rf_for_channel_number-channel_number_for_rf_iff rf ch h h' = ground arith

-- Whatever the index, the channel is one of the forty, both copies of the map agree, and it is an
-- advertising channel exactly if the index is at one of the advertising frequencies or beyond the
-- last channel.
channel_number_for_rf_range :
    (rf : ℕ)
    → (channel_number_for_rf rf < 40)
      × (rf_to_le_channel rf ≡ channel_number_for_rf rf)
      × ((37 ≤ channel_number_for_rf rf) ↔ ((rf_is_advertising rf ≡ true) ⊎ (39 < rf)))
unfolding channel_number_for_rf rf_to_le_channel rf_is_advertising
channel_number_for_rf_range rf = ground arith

-- ===== src/Ble/ConnectInd.antt =====
-- `ble_connect_ind_parse` of src/core/protocol/ble/ble_codec.c.
pub mod RoundTrip
use supertooth.Base.{
  ℕ, ◌+◌, ◌-◌, ◌*◌, ◌/◌, ◌%◌, ◌^◌, ◌<◌, ◌≤◌, ◌≡◌, refl, sym, ap, ap₂, ◌∙◌, arith, bit_and, bit_or,
  [], ◌∷◌, ◌++◌, Bytes, AreBytes, at, take, drop, length, u8, u16, u32, ◌<<<◌, ◌>>>◌,
}
use supertooth.Base.Masks.{or_fields, or_comm, mask_ones}

-- `ble_connect_ind_params_t`.
pub record ConnectIndParams : Type 0 where
  pub access_address : ℕ
  pub crc_init : ℕ
  pub window_size : ℕ
  pub window_offset : ℕ
  pub interval : ℕ
  pub latency : ℕ
  pub timeout : ℕ
  pub channel_map : Bytes
  pub hop_increment : ℕ
  pub sleep_clock_accuracy : ℕ

-- Two bytes, the low one first: `(uint16_t)((uint16_t)lo | ((uint16_t)hi << 8u))`.
pub read_u16 : ℕ → ℕ → ℕ
read_u16 lo hi = u16 (bit_or lo (hi <<< 8))

pub read_u24 : ℕ → ℕ → ℕ → ℕ
read_u24 b0 b1 b2 = bit_and (bit_or (bit_or b0 (u32 (b1 <<< 8))) (u32 (b2 <<< 16))) 0xffffff

pub read_u32 : ℕ → ℕ → ℕ → ℕ → ℕ
read_u32 b0 b1 b2 b3 =
    bit_or (bit_or (bit_or b0 (u32 (b1 <<< 8))) (u32 (b2 <<< 16))) (u32 (b3 <<< 24))

pub connect_ind_parse : Bytes → ConnectIndParams
connect_ind_parse ll_data = record {
  access_address = read_u32 (at ll_data 0) (at ll_data 1) (at ll_data 2) (at ll_data 3);
  crc_init = read_u24 (at ll_data 4) (at ll_data 5) (at ll_data 6);
  window_size = at ll_data 7;
  window_offset = read_u16 (at ll_data 8) (at ll_data 9);
  interval = read_u16 (at ll_data 10) (at ll_data 11);
  latency = read_u16 (at ll_data 12) (at ll_data 13);
  timeout = read_u16 (at ll_data 14) (at ll_data 15);
  channel_map = take 5 (drop 16 ll_data);
  hop_increment = bit_and (at ll_data 21) 0x1f;
  sleep_clock_accuracy = u8 (bit_and (at ll_data 21 >>> 5) 0x07);
}

-- ===== src/Models.antt =====
-- The records that the receivers share: src/core/models/receive_event_models.h. A `float` is held as
-- the number of its 32 bits: this part of the code only copies it.
pub mod Rssi
pub mod Tally
use supertooth.Base.{ℕ}
use supertooth.Bredr.Types.{BredrFrame}
use supertooth.Ble.Frame.{Frame}

pub record RxMetadata : Type 0 where
  pub source_id : ℕ
  pub radio_start_sample_index : ℕ
  pub radio_sample_rate_hz : ℕ
  pub center_frequency_hz : ℕ
  pub channel_index : ℕ
  pub rssi_dbr : ℕ

pub record BredrEvent : Type 0 where
  pub meta : RxMetadata
  pub frame : BredrFrame

pub record BleEvent : Type 0 where
  pub meta : RxMetadata
  pub frame : Frame

abbrev pub no_metadata : RxMetadata
no_metadata = record {
  source_id = 0;
  radio_start_sample_index = 0;
  radio_sample_rate_hz = 0;
  center_frequency_hz = 0;
  channel_index = 0;
  rssi_dbr = 0;
}

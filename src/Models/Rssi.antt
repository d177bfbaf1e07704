-- ===== src/Models/Rssi.antt =====
-- The ring of the latest frames: src/core/models/rssi_tracker.c, without the average, which is made
-- of floating-point numbers.
use supertooth.Base.{ℕ, ◌+◌, ◌%◌, ltb, if◌then◌else◌}
use supertooth.Base.Arrays.{Array, update, filled}
use supertooth.Models.{RxMetadata, no_metadata}

pub record RssiTracker : Type 0 where
  pub frames : Array RxMetadata
  pub head : ℕ
  pub count : ℕ

abbrev pub max_samples : ℕ
max_samples = 256

-- A tracker in memory that is cleared.
abbrev pub cleared_tracker : RssiTracker
cleared_tracker = record { frames = filled no_metadata; head = 0; count = 0 }

unfoldable pub rssi_tracker_init : RssiTracker → RssiTracker
rssi_tracker_init tracker = record tracker { head = 0; count = 0 }

unfoldable pub rssi_tracker_add : RssiTracker → RxMetadata → RssiTracker
rssi_tracker_add tracker frame = record tracker {
  frames = update tracker.frames tracker.head frame;
  head = (tracker.head + 1) % max_samples;
  count = if ltb tracker.count max_samples then tracker.count + 1 else tracker.count;
}

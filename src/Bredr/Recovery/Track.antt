-- ===== src/Bredr/Recovery/Track.antt =====
-- The tracking of a clock that is known, and the entry point of recovery, in
-- src/core/protocol/bredr/bredr_clock_recovery.c.
use supertooth.Base.{
  ℕ, ◌+◌, ◌-◌, ◌%◌, bit_and, ◌&&◌, not, Option, none, some, List, [], ◌∷◌, Bytes, ◌==◌,
  if◌then◌else◌, u8, u32,
}
use supertooth.Base.Int.{ℤ, pos, negsuc, ◌==ℤ◌, incr, decr, is_positive, is_below}
use supertooth.Models.{BredrEvent}
use supertooth.Bredr.Types.{BredrFrame}
use supertooth.Bredr.Hec.{hec_ok_for_clk6_clean}
use supertooth.Bredr.Link.{BredrLink, sample_to_rx_clk_1600, sample_to_clkn}
use supertooth.Bredr.Recovery.Solve.{acquire_uap_and_clock}

-- `((base + delta) + 64) % 64`, for a delta of at least -64.
unfoldable pub shifted_clock : ℕ → ℤ → ℕ
shifted_clock base (pos n) = (base + n + 64) % 64
shifted_clock base (negsuc n) = (base + 64 - (n + 1)) % 64

-- `offsets`: 0, 1, -1, 2, -2.
abbrev pub drift_offsets : List ℤ
drift_offsets = pos 0 ∷ pos 1 ∷ negsuc 0 ∷ pos 2 ∷ negsuc 1 ∷ []

-- The loop over the offsets: the first one whose header check holds.
unfoldable pub find_delta : List ℤ → BredrFrame → ℕ → ℕ → Option ℤ
find_delta [] frame uap base = none
find_delta (d ∷ ds) frame uap base =
    if hec_ok_for_clk6_clean frame uap (shifted_clock base d) == 0
    then find_delta ds frame uap base
    else some d

-- No offset fits.
unfoldable pub drift_missed : BredrLink → ℕ × BredrLink
drift_missed link =
    let state =
      if is_positive link.tracking_state then decr link.tracking_state else link.tracking_state in
    (
      0,
      record link {
        drift_candidate = pos 0;
        tracking_state = state;
        clk_known = if state ==ℤ pos 0 then 0 else link.clk_known;
      },
    )

-- A clock that is confirmed.
abbrev pub confirmed : BredrLink → BredrLink
confirmed link = record link {
  drift_candidate = pos 0;
  tracking_state =
      if is_below link.tracking_state 5 then incr link.tracking_state else link.tracking_state;
  clk_known = 1;
}

unfoldable pub drift_hit : BredrLink → ℤ → ℕ × BredrLink
unfolding shifted_clock
drift_hit link hit_delta =
    if hit_delta ==ℤ pos 0
    then (1, confirmed link)
    else if link.drift_candidate ==ℤ pos 0
    then (1, record link { drift_candidate = hit_delta })
    else if link.drift_candidate ==ℤ hit_delta
    then (1, confirmed (record link { clock_offset = shifted_clock link.clock_offset hit_delta }))
    else (1, record link { drift_candidate = pos 0 })

unfoldable pub after_offsets : BredrLink → Option ℤ → ℕ × BredrLink
unfolding drift_missed drift_hit
after_offsets link none = drift_missed link
after_offsets link (some d) = drift_hit link d

-- The clock that is expected of a packet.
abbrev pub expected_clock : BredrLink → ℕ → ℕ
expected_clock link rx_clk_1600 = u8 (bit_and (u32 (rx_clk_1600 + link.clock_offset)) 0x3f)

unfoldable pub recover_clock_drift : BredrLink → BredrFrame → ℕ → ℕ × BredrLink
unfolding after_offsets find_delta
recover_clock_drift link frame rx_clk_1600 =
    after_offsets link (find_delta drift_offsets frame link.uap (expected_clock link rx_clk_1600))

unfoldable pub recovery_process : Bytes → BredrLink → BredrEvent → ℕ × BredrLink
unfolding recover_clock_drift
recovery_process stack link event =
    let rx_clk_1600 = sample_to_rx_clk_1600 event in
    if event.frame.has_header == 0
    then (0, link)
    else if not (link.uap_valid == 0) && not (link.clk_known == 0)
    then recover_clock_drift link event.frame rx_clk_1600
    else acquire_uap_and_clock stack link event (sample_to_clkn event) rx_clk_1600

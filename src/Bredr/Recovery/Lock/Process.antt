-- ===== src/Bredr/Recovery/Lock/Process.antt =====
-- The lock through the tracking of a clock, and through the whole recovery.
use supertooth.Base.{
  ℕ, zero, suc, ◌<◌, ◌≡◌, ◌≢◌, inl, inr, refl, arith, Bool, true, false, ◌&&◌, not, Option, none,
  some, List, [], ◌∷◌, Bytes, ltb, ◌==◌, if◌then◌else◌, Bool-cases,
}
use supertooth.Base.Int.{ℤ, pos, negsuc, ◌==ℤ◌, is_positive, incr, is_below}
use supertooth.Models.{BredrEvent}
use supertooth.Bredr.Types.{BredrFrame}
use supertooth.Bredr.Link.{BredrLink, sample_to_rx_clk_1600, sample_to_clkn}
use supertooth.Bredr.Hec.{hec_ok_for_clk6_clean}
use supertooth.Bredr.Recovery.Solve.{}
use supertooth.Bredr.Recovery.Track.{
  confirmed, expected_clock, drift_offsets, find_delta, drift_missed, drift_hit, after_offsets,
  recover_clock_drift, recovery_process, shifted_clock,
}
use supertooth.Bredr.Recovery.Lock.{
  Confidence, Drift, Unlocked, LockIsValid, no_lock, locked, if-LockIsValid, acquire-LockIsValid,
}

shifted_range : (base : ℕ) (d : ℤ) → shifted_clock base d < 64
unfolding shifted_clock
shifted_range base (pos n) = omega arith
shifted_range base (negsuc n) = omega arith

-- The offset that is found is one of those that are tried.
abbrev FoundDrift : Option ℤ → Type 0
FoundDrift none = Unit {0}
FoundDrift (some d) = Drift d

abbrev AllDrift : List ℤ → Type 0
AllDrift [] = Unit {0}
AllDrift (d ∷ ds) = Drift d × AllDrift ds

if-FoundDrift :
    (b : Bool) (x y : Option ℤ) → FoundDrift x → FoundDrift y → FoundDrift (if b then x else y)
if-FoundDrift true x y h k = h
if-FoundDrift false x y h k = k

find_delta-Drift :
    (ds : List ℤ) (frame : BredrFrame) (uap base : ℕ)
    → AllDrift ds
    → FoundDrift (find_delta ds frame uap base)
unfolding find_delta
find_delta-Drift [] frame uap base h = tt
find_delta-Drift (d ∷ ds) frame uap base (h, hs) =
    if-FoundDrift (hec_ok_for_clk6_clean frame uap (shifted_clock base d) == 0) _ _
      (find_delta-Drift ds frame uap base hs) h

-- A confidence that is raised, up to 5.
raised :
    (s : ℤ)
    → is_positive s ≡ true
    → Confidence s
    → (is_positive (if is_below s 5 then incr s else s) ≡ true)
      × Confidence (if is_below s 5 then incr s else s)
raised (pos zero) p c = absurd (cc)
raised (pos (suc n)) p c = elim (Bool-cases (ltb (suc n) 5)) [
  | inl below ↦ rw below (refl, ground arith)
  | inr top ↦ rw top (refl, c)
]
raised (negsuc n) p c = absurd (cc)

confirmed-LockIsValid :
    (link : BredrLink)
    → link.uap_valid ≢ 0
    → link.clock_offset < 64
    → is_positive link.tracking_state ≡ true
    → Confidence link.tracking_state
    → LockIsValid (confirmed link)
confirmed-LockIsValid link valid offset p c =
    let (up, range) = raised link.tracking_state p c in locked valid up range offset (omega arith)

-- A link that is locked, with the confidence as a variable.
module _ (link : BredrLink) (valid : link.uap_valid ≢ 0) (offset : link.clock_offset < 64) where
  missed-LockIsValid :
      (s : ℤ)
      → link.tracking_state ≡ s
      → is_positive s ≡ true
      → Confidence s
      → LockIsValid (drift_missed link).1
  unfolding drift_missed
  missed-LockIsValid (pos zero) e p c = absurd (cc)
  missed-LockIsValid (pos (suc zero)) e p c = rw e (
      no_lock (record {
        unknown = refl;
        state_range = omega arith;
        offset_range = offset;
        drift_range = omega arith;
      }))
  missed-LockIsValid (pos (suc (suc n))) e p c =
      rw e (locked valid refl (omega arith) offset (omega arith))
  missed-LockIsValid (negsuc n) e p c = absurd (cc)

  hit-LockIsValid :
      (d : ℤ)
      → is_positive link.tracking_state ≡ true
      → Confidence link.tracking_state
      → Drift link.drift_candidate
      → Drift d
      → LockIsValid (drift_hit link d).1
  unfolding drift_hit
  hit-LockIsValid d p c old new =
      if-LockIsValid (d ==ℤ pos 0) _ _ (λ _. confirmed-LockIsValid link valid offset p c)
        (λ _.
          if-LockIsValid (link.drift_candidate ==ℤ pos 0) _ _ (λ _. locked valid p c offset new)
            (λ _.
              if-LockIsValid (link.drift_candidate ==ℤ d) _ _
                (λ _.
                  confirmed-LockIsValid
                    (record link { clock_offset = shifted_clock link.clock_offset d }) valid
                    (shifted_range link.clock_offset d) p c)
                (λ _. locked valid p c offset (omega arith))))

  search-LockIsValid :
      (found : Option ℤ)
      → is_positive link.tracking_state ≡ true
      → Confidence link.tracking_state
      → Drift link.drift_candidate
      → FoundDrift found
      → LockIsValid (after_offsets link found).1
  unfolding after_offsets
  search-LockIsValid none p c old new = missed-LockIsValid link.tracking_state refl p c
  search-LockIsValid (some d) p c old new = hit-LockIsValid d p c old new

-- A valid lock without a valid address part or without a clock.
unlock :
    (link : BredrLink)
    → LockIsValid link
    → (not (link.uap_valid == 0) && not (link.clk_known == 0)) ≡ false
    → Unlocked link
unlock link (no_lock u) h = u
unlock link (locked valid p c offset old) h = record {
  unknown = ground arith;
  state_range = c;
  offset_range = offset;
  drift_range = old;
}

drift-LockIsValid :
    (link : BredrLink) (frame : BredrFrame) (rx : ℕ)
    → link.clk_known ≢ 0
    → LockIsValid link
    → LockIsValid (recover_clock_drift link frame rx).1
unfolding recover_clock_drift
drift-LockIsValid link frame rx k (no_lock u) = absurd (k u.unknown)
drift-LockIsValid link frame rx k (locked valid p c offset old) =
    search-LockIsValid link valid offset _ p c old (
      find_delta-Drift drift_offsets frame link.uap (expected_clock link rx)
        (omega arith, (omega arith, (omega arith, (omega arith, (omega arith, tt))))))

-- The recovery of the clock keeps a valid lock, whatever the event is: the clock is known only while
-- the upper address part is valid and the confidence is 1 to 5, the confidence is never below -1
-- or above 5, the offset is below 64, and the drift that waits for its confirmation is at most 2
-- either way.
pub recovery_process-LockIsValid :
    (stack : Bytes) (link : BredrLink) (event : BredrEvent)
    → LockIsValid link
    → LockIsValid (recovery_process stack link event).1
unfolding recovery_process
recovery_process-LockIsValid stack link event v =
    let rx = sample_to_rx_clk_1600 event in
    if-LockIsValid (event.frame.has_header == 0) _ _ (λ _. v)
      (λ _.
        if-LockIsValid (not (link.uap_valid == 0) && not (link.clk_known == 0)) _ _
          (λ h. drift-LockIsValid link event.frame rx (ground arith) v)
          (λ h. acquire-LockIsValid stack link event (sample_to_clkn event) rx (unlock link v h)))

-- ===== src/Bredr/Recovery/Drift.antt =====
-- When the tracked offset of a clock moves.
use supertooth.Base.{
  ℕ, ◌+◌, ◌<◌, ◌≡◌, ◌≢◌, ◌⊎◌, inl, inr, refl, sym, ap, subst, arith, Bool, true, false, Option,
  none, some, List, [], ◌∷◌, ◌==◌, ==_iff, if◌then◌else◌, u32,
}
use supertooth.Base.Masks.{mask_ones}
use supertooth.Base.Int.{ℤ, pos, negsuc, ◌==ℤ◌}
use supertooth.Bredr.Types.{BredrFrame}
use supertooth.Bredr.Hec.{hec_ok_for_clk6_clean}
use supertooth.Bredr.Link.{BredrLink}
use supertooth.Bredr.Recovery.Track.{
  shifted_clock, drift_offsets, find_delta, drift_missed, drift_hit, after_offsets, expected_clock,
  recover_clock_drift,
}

==ℤ_true : (a b : ℤ) → (a ==ℤ b) ≡ true → a ≡ b
==ℤ_true (pos a) (pos b) h = ap pos ((==_iff a b).0 h)
==ℤ_true (pos a) (negsuc b) h = cc
==ℤ_true (negsuc a) (pos b) h = cc
==ℤ_true (negsuc a) (negsuc b) h = ap negsuc ((==_iff a b).0 h)

==ℤ_self : (a : ℤ) → (a ==ℤ a) ≡ true
==ℤ_self (pos a) = (==_iff a a).1 refl
==ℤ_self (negsuc a) = (==_iff a a).1 refl

==ℤ_false : (a b : ℤ) → (a ==ℤ b) ≡ false → a ≢ b
==ℤ_false a b h e = let same : (a ==ℤ b) ≡ true = subst (λ c. (a ==ℤ c) ≡ true) e (==ℤ_self a) in cc

module _ (frame : BredrFrame) (uap base : ℕ) where
  -- What is found fits the frame, and the base itself does not unless it is what is found.
  Hits : ℤ → Type 0
  Hits d =
      (hec_ok_for_clk6_clean frame uap (shifted_clock base d) ≢ 0)
      × ((d ≡ pos 0) ⊎ (hec_ok_for_clk6_clean frame uap (shifted_clock base (pos 0)) ≡ 0))

  FoundHits : Option ℤ → Type 0
  FoundHits none = Unit {0}
  FoundHits (some d) = Hits d

  if-FoundHits :
      (b : Bool) (x y : Option ℤ)
      → (b ≡ true → FoundHits x)
      → (b ≡ false → FoundHits y)
      → FoundHits (if b then x else y)
  if-FoundHits true x y h k = h refl
  if-FoundHits false x y h k = k refl

  others-FoundHits :
      (ds : List ℤ)
      → hec_ok_for_clk6_clean frame uap (shifted_clock base (pos 0)) ≡ 0
      → FoundHits (find_delta ds frame uap base)
  unfolding find_delta FoundHits Hits
  others-FoundHits [] h = tt
  others-FoundHits (d ∷ ds) h =
      if-FoundHits (hec_ok_for_clk6_clean frame uap (shifted_clock base d) == 0) _ _
        (λ _. others-FoundHits ds h) (λ e. (ground arith, inr h))

  found-FoundHits : FoundHits (find_delta drift_offsets frame uap base)
  unfolding find_delta FoundHits Hits
  found-FoundHits =
      if-FoundHits (hec_ok_for_clk6_clean frame uap (shifted_clock base (pos 0)) == 0) _ _
        (λ e. others-FoundHits (pos 1 ∷ negsuc 0 ∷ pos 2 ∷ negsuc 1 ∷ []) (ground arith))
        (λ e. (ground arith, inl refl))

-- The tracked offset, after a search.
abbrev pub OffsetMoves : BredrLink → BredrFrame → ℕ → BredrLink → Type 0
OffsetMoves link frame base link' =
    (link'.clock_offset ≡ link.clock_offset)
    ⊎ ((link.drift_candidate ≢ pos 0)
        × (hec_ok_for_clk6_clean frame link.uap base ≡ 0)
        × (hec_ok_for_clk6_clean frame link.uap (shifted_clock base link.drift_candidate) ≢ 0)
        × (link'.clock_offset ≡ shifted_clock link.clock_offset link.drift_candidate)
        × (link'.drift_candidate ≡ pos 0))

if-OffsetMoves :
    (link : BredrLink) (frame : BredrFrame) (base : ℕ) (b : Bool) (x y : ℕ × BredrLink)
    → (b ≡ true → OffsetMoves link frame base x.1)
    → (b ≡ false → OffsetMoves link frame base y.1)
    → OffsetMoves link frame base (if b then x else y).1
if-OffsetMoves link frame base true x y h k = h refl
if-OffsetMoves link frame base false x y h k = k refl

hit-OffsetMoves :
    (link : BredrLink) (frame : BredrFrame) (base : ℕ) (d : ℤ)
    → base < 64
    → Hits frame link.uap base d
    → OffsetMoves link frame base (drift_hit link d).1
unfolding drift_hit Hits
hit-OffsetMoves link frame base d small (hit, other) =
    let still : shifted_clock base (pos 0) ≡ base = unfold shifted_clock in omega arith in
    let base_fails = λ (moved : d ≢ pos 0).
      (let r : hec_ok_for_clk6_clean frame link.uap base ≡ 0 = elim other [
        | inl same ↦ absurd (moved same)
        | inr fails ↦ rw still at fails
      ] in
        r) in
    if-OffsetMoves link frame base (d ==ℤ pos 0) _ _ (λ _. inl refl)
      (λ moved.
        if-OffsetMoves link frame base (link.drift_candidate ==ℤ pos 0) _ _ (λ _. inl refl)
          (λ old.
            if-OffsetMoves link frame base (link.drift_candidate ==ℤ d) _ _
              (λ again.
                let same = ==ℤ_true link.drift_candidate d again in
                inr (
                  ==ℤ_false link.drift_candidate (pos 0) old,
                  base_fails (==ℤ_false d (pos 0) moved),
                  subst (λ c. hec_ok_for_clk6_clean frame link.uap (shifted_clock base c) ≢ 0)
                      (sym same) hit,
                  ap (shifted_clock link.clock_offset) (sym same),
                  refl,
                ))
              (λ _. inl refl)))

search-OffsetMoves :
    (link : BredrLink) (frame : BredrFrame) (base : ℕ) (found : Option ℤ)
    → base < 64
    → FoundHits frame link.uap base found
    → OffsetMoves link frame base (after_offsets link found).1
unfolding after_offsets drift_missed FoundHits
search-OffsetMoves link frame base none small h = inl refl
search-OffsetMoves link frame base (some d) small h = hit-OffsetMoves link frame base d small h

-- The tracked offset stays, or it moves by the drift that an earlier packet left as a suspicion, and
-- then the header of this packet fails its check under the expected clock and passes it, with no
-- error corrected, under the clock that is off by the same drift; the suspicion is then cleared.
pub recover_clock_drift-OffsetMoves :
    (link : BredrLink) (frame : BredrFrame) (rx : ℕ)
    → OffsetMoves link frame (expected_clock link rx) (recover_clock_drift link frame rx).1
unfolding recover_clock_drift
recover_clock_drift-OffsetMoves link frame rx =
    let base = expected_clock link rx in
    search-OffsetMoves link frame base (find_delta drift_offsets frame link.uap base)
      (omega (arith, mask_ones 6 (u32 (rx + link.clock_offset))))
      (found-FoundHits frame link.uap base)

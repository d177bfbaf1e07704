-- ===== src/Bredr/Recovery/Acquired.antt =====
-- The clock that the acquisition settles on.
use supertooth.Base.{
  ℕ, zero, suc, ◌+◌, ◌-◌, ◌%◌, ◌^◌, ◌<◌, ◌≤◌, ◌≡◌, ◌≢◌, ◌⊎◌, inl, inr, refl, sym, subst, arith,
  bit_and, Bool, true, false, ◌&&◌, ◌||◌, not, List, [], ◌∷◌, Bytes, ltb, leb, ◌==◌, if◌then◌else◌,
  u8, u32, length, Bool-cases,
}
use supertooth.Base.Masks.{mask_ones}
use supertooth.Models.{BredrEvent}
use supertooth.Bredr.Types.{BredrFrame}
use supertooth.Bredr.Hec.{hec_ok_for_clk6}
use supertooth.Bredr.Link.{
  BredrLink, link_set_uap, link_set_uap_only, link_central_clk_1_6, sample_to_rx_clk_1600,
  sample_to_clkn,
}
use supertooth.Bredr.Recovery.Solve.{
  keep, narrow_loop, narrow_clock_via_history, valid_clocks, clock_distance, best_clock, set_clock,
  acquire_clock, acquire_uap_and_clock, solve_uap_clock_candidates,
}
use supertooth.Bredr.Recovery.Track.{recovery_process}

-- The clock that a link expects of the packet by which it was set.
pub central-set_uap :
    (link : BredrLink) (uap clk rx : ℕ)
    → clk < 64
    → rx < 2 ^ 32
    → link_central_clk_1_6 (link_set_uap link uap clk rx) rx ≡ clk
unfolding link_central_clk_1_6 link_set_uap
central-set_uap link uap clk rx h k =
    let inner = mask_ones 6 (u32 (clk + 2 ^ 32 - rx)) in
    let outer = mask_ones 6 (u32 (rx + bit_and (u32 (clk + 2 ^ 32 - rx)) 0x3f)) in
    omega (arith, inner, outer)

-- Clocks under which the header check of a frame holds.
abbrev Fits : BredrFrame → ℕ → ℕ → Type 0
Fits frame uap c = (c < 64) × (hec_ok_for_clk6 frame uap c ≢ 0)

abbrev AllFit : BredrFrame → ℕ → List ℕ → Type 0
AllFit frame uap [] = Unit {0}
AllFit frame uap (c ∷ cs) = Fits frame uap c × AllFit frame uap cs

module _ (frame : BredrFrame) (uap : ℕ) where
  if-AllFit :
      (b : Bool) (x y : List ℕ)
      → (b ≡ true → AllFit frame uap x)
      → (b ≡ false → AllFit frame uap y)
      → AllFit frame uap (if b then x else y)
  if-AllFit true x y h k = h refl
  if-AllFit false x y h k = k refl

  valid_clocks-AllFit :
      (left c : ℕ) → c + left ≤ 64 → AllFit frame uap (valid_clocks left c frame uap)
  unfolding valid_clocks
  valid_clocks-AllFit zero c h = tt
  valid_clocks-AllFit (suc left) c h =
      let rest = valid_clocks-AllFit left (c + 1) (omega arith) in
      if-AllFit (hec_ok_for_clk6 frame uap c == 0) _ _ (λ _. rest)
        (λ e. ((omega arith, ground arith), rest))

  keep-AllFit : (p : ℕ → Bool) (cs : List ℕ) → AllFit frame uap cs → AllFit frame uap (keep p cs)
  unfolding keep
  keep-AllFit p [] h = tt
  keep-AllFit p (c ∷ cs) (h, hs) =
      let rest = keep-AllFit p cs hs in if-AllFit (p c) _ _ (λ _. (h, rest)) (λ _. rest)

  narrow_loop-AllFit :
      (left i : ℕ) (link : BredrLink) (cur_clk uap' : ℕ) (cs : List ℕ)
      → AllFit frame uap cs
      → AllFit frame uap (narrow_loop left i link cur_clk uap' cs)
  unfolding narrow_loop
  narrow_loop-AllFit zero i link cur_clk uap' cs h = h
  narrow_loop-AllFit (suc left) i link cur_clk uap' cs h =
      let hist = link.queue (u32 (link.queue_head + 128 + 2 ^ 32 - 1 - i) % 128) in
      let age = u32 (cur_clk + 2 ^ 32 - sample_to_rx_clk_1600 hist) in
      let test = λ (c : ℕ).
        not
          (hec_ok_for_clk6 hist.frame uap' (u8 (bit_and (c + 64 - bit_and age 0x3f) 0x3f)) == 0) in
      let kept = keep-AllFit test cs h in
      if-AllFit (ltb 8000 age) _ _ (λ _. h)
        (λ _.
          if-AllFit (hist.frame.has_header == 0) _ _
            (λ _. narrow_loop-AllFit left (i + 1) link cur_clk uap' cs h)
            (λ _.
              if-AllFit (leb (length (keep test cs)) 1) _ _ (λ _. kept)
                (λ _. narrow_loop-AllFit left (i + 1) link cur_clk uap' (keep test cs) kept)))

  narrow-AllFit :
      (link : BredrLink) (event : BredrEvent) (uap' : ℕ) (cs : List ℕ)
      → AllFit frame uap cs
      → AllFit frame uap (narrow_clock_via_history link event uap' cs)
  unfolding narrow_clock_via_history
  narrow-AllFit link event uap' cs h =
      if-AllFit (leb (length cs) 1 || ltb link.queue_fill 2) _ _ (λ _. h)
        (λ _.
          narrow_loop-AllFit (link.queue_fill - 1) 1 link (sample_to_rx_clk_1600 event) uap' cs h)

  best_clock-Fits :
      (cs : List ℕ) (hint best dist : ℕ)
      → AllFit frame uap cs
      → Fits frame uap best
      → Fits frame uap (best_clock cs hint best dist)
  unfolding best_clock
  best_clock-Fits [] hint best dist h b = b
  best_clock-Fits (c ∷ cs) hint best dist (h, hs) b =
      elim (Bool-cases (ltb (clock_distance c hint) dist)) [
        | inl nearer ↦ rw nearer (best_clock-Fits cs hint c (clock_distance c hint) hs h)
        | inr other ↦ rw other (best_clock-Fits cs hint best dist hs b)
      ]

-- Nothing is settled, or a clock under which the header check of the frame holds.
abbrev pub ClockFits : BredrFrame → ℕ → ℕ × BredrLink → Type 0
ClockFits frame rx r =
    (r.0 ≡ 0)
    ⊎ ((r.0 ≡ 1)
        × (r.1.uap_valid ≡ 1)
        × (r.1.clk_known ≡ 1)
        × (hec_ok_for_clk6 frame r.1.uap (link_central_clk_1_6 r.1 rx) ≢ 0))

set_uap-ClockFits :
    (frame : BredrFrame) (link : BredrLink) (uap clk rx : ℕ)
    → Fits frame uap clk
    → rx < 2 ^ 32
    → ClockFits frame rx (1, link_set_uap link uap (u8 clk) rx)
set_uap-ClockFits frame link uap clk rx (h, ok) k =
    let small : u8 clk ≡ clk = omega arith in
    let same : link_central_clk_1_6 (link_set_uap link uap (u8 clk) rx) rx ≡ clk =
      rw small (central-set_uap link uap clk rx h k) in
    inr (
      refl,
      unfold link_set_uap in refl,
      unfold link_set_uap in refl,
      unfold link_set_uap in subst (λ n. hec_ok_for_clk6 frame uap n ≢ 0) (sym same) ok,
    )

set_clock-ClockFits :
    (frame : BredrFrame) (cs : List ℕ) (link : BredrLink) (uap hint rx : ℕ)
    → AllFit frame uap cs
    → rx < 2 ^ 32
    → ClockFits frame rx (set_clock cs link uap hint rx)
unfolding set_clock
set_clock-ClockFits frame [] link uap hint rx h k = inl refl
set_clock-ClockFits frame (c ∷ []) link uap hint rx (h, hs) k =
    set_uap-ClockFits frame link uap c rx h k
set_clock-ClockFits frame (c ∷ c' ∷ cs) link uap hint rx (h, hs) k =
    set_uap-ClockFits frame link uap (best_clock (c ∷ c' ∷ cs) hint c 64) rx
      (best_clock-Fits frame uap (c ∷ c' ∷ cs) hint c 64 (h, hs) h) k

acquire_clock-ClockFits :
    (link : BredrLink) (event : BredrEvent) (rx : ℕ)
    → rx < 2 ^ 32
    → ClockFits event.frame rx (acquire_clock link event rx)
unfolding acquire_clock
acquire_clock-ClockFits link event rx k =
    let known = if link.uap_valid == 0 then link_set_uap_only link link.uap else link in
    let cs = valid_clocks 64 0 event.frame link.uap in
    set_clock-ClockFits event.frame (narrow_clock_via_history known event link.uap cs) known
      link.uap (u8 link.clock_offset) rx
      (narrow-AllFit event.frame link.uap known event link.uap cs
        (valid_clocks-AllFit event.frame link.uap 64 0 (omega arith)))
      k

if-ClockFits :
    (frame : BredrFrame) (rx : ℕ) (b : Bool) (x y : ℕ × BredrLink)
    → (b ≡ true → ClockFits frame rx x)
    → (b ≡ false → ClockFits frame rx y)
    → ClockFits frame rx (if b then x else y)
if-ClockFits frame rx true x y h k = h refl
if-ClockFits frame rx false x y h k = k refl

acquire-ClockFits :
    (stack : Bytes) (link : BredrLink) (event : BredrEvent) (clkn rx : ℕ)
    → rx < 2 ^ 32
    → ClockFits event.frame rx (acquire_uap_and_clock stack link event clkn rx)
unfolding acquire_uap_and_clock
acquire-ClockFits stack link event clkn rx k =
    let search = solve_uap_clock_candidates stack link event.frame clkn in
    if-ClockFits event.frame rx (event.frame.has_header == 0) _ _ (λ _. inl refl)
      (λ _.
        if-ClockFits event.frame rx (not (link.uap_valid == 0) && not (link.clk_known == 0)) _ _
          (λ _. inl refl)
          (λ _.
            if-ClockFits event.frame rx (search.0 == 0) _ _ (λ _. inl refl)
              (λ _. acquire_clock-ClockFits search.1 event rx k)))

clock-fits_word : (event : BredrEvent) → sample_to_rx_clk_1600 event < 2 ^ 32
unfolding sample_to_rx_clk_1600
clock-fits_word event = ground arith

-- While no clock is known, the recovery returns 0, or it settles the address part and the clock, and
-- then the header check of the packet that was received holds with that address part under the
-- clock which the link now expects at the time of that packet.
pub recovery_process-ClockFits :
    (stack : Bytes) (link : BredrLink) (event : BredrEvent)
    → link.clk_known ≡ 0
    → ClockFits event.frame (sample_to_rx_clk_1600 event) (recovery_process stack link event)
unfolding recovery_process
recovery_process-ClockFits stack link event h =
    let rx = sample_to_rx_clk_1600 event in
    if-ClockFits event.frame rx (event.frame.has_header == 0) _ _ (λ _. inl refl)
      (λ _.
        if-ClockFits event.frame rx (not (link.uap_valid == 0) && not (link.clk_known == 0)) _ _
          (λ e. absurd (ground arith))
          (λ _.
            acquire-ClockFits stack link event (sample_to_clkn event) rx (clock-fits_word event)))

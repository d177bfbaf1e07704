-- ===== src/Bredr/Recovery/Frame.antt =====
-- What the recovery of a clock leaves alone: the queue of events.
use supertooth.Base.{
  ℕ, zero, suc, ◌+◌, ◌-◌, ◌^◌, ◌≡◌, refl, arith, bit_and, Bool, true, false, ◌&&◌, ◌||◌, not,
  Option, none, some, List, [], ◌∷◌, Bytes, ◌==◌, if◌then◌else◌, u32, ◌>>>◌,
}
use supertooth.Base.Arrays.{Array}
use supertooth.Base.Int.{ℤ, is_natural}
use supertooth.Models.{BredrEvent}
use supertooth.Bredr.Types.{BredrFrame}
use supertooth.Bredr.Link.{
  BredrLink, sample_to_rx_clk_1600, sample_to_clkn, recovery_reset, link_set_uap, link_set_uap_only,
}
use supertooth.Bredr.Recovery.{decode_uap_for_clock, apply_esco_lt_addr_rule}
use supertooth.Bredr.Recovery.Solve.{
  candidate_verdict, SolveResult, solved, going, settle_candidate, solve_candidate, solve_loop,
  solve_end, solve_uap_clock_candidates, set_clock, acquire_clock, acquire_uap_and_clock,
}
use supertooth.Bredr.Recovery.Track.{
  drift_offsets, find_delta, expected_clock, drift_missed, drift_hit, after_offsets,
  recover_clock_drift, recovery_process,
}

-- A link whose queue is given.
pub record Holds (queue : Array BredrEvent) (head fill : ℕ) (link : BredrLink) : Type 0 where
  pub queue_is : link.queue ≡ queue
  pub head_is : link.queue_head ≡ head
  pub fill_is : link.queue_fill ≡ fill

module _ (queue : Array BredrEvent) (head fill : ℕ) where
  Kept : BredrLink → Type 0
  Kept link = Holds queue head fill link

  ResultKept : SolveResult → Type 0
  ResultKept (solved link) = Kept link
  ResultKept (going link remaining first_clock) = Kept link

  if-Kept : (b : Bool) (x y : ℕ × BredrLink) → Kept x.1 → Kept y.1 → Kept (if b then x else y).1
  if-Kept true x y h k = h
  if-Kept false x y h k = k

  if-ResultKept :
      (b : Bool) (x y : SolveResult) → ResultKept x → ResultKept y → ResultKept (if b then x else y)
  if-ResultKept true x y h k = h
  if-ResultKept false x y h k = k

  esco-Kept :
      (link : BredrLink) (count lt t : ℕ) (c : ℤ)
      → Kept link
      → Kept (apply_esco_lt_addr_rule link count lt t c).1
  unfolding apply_esco_lt_addr_rule Kept
  esco-Kept link count lt t c h = ground arith

  settle-Kept :
      (link : BredrLink) (count uap remaining first_clock : ℕ) (c : ℤ)
      → Kept link
      → ResultKept (settle_candidate link count uap remaining first_clock c)
  unfolding settle_candidate Kept ResultKept
  settle-Kept link count uap remaining first_clock c h = ground arith

  solve_end-Kept : (r : SolveResult) → ResultKept r → Kept (solve_end r).1
  unfolding solve_end recovery_reset Kept ResultKept
  solve_end-Kept (solved link) h = h
  solve_end-Kept (going link remaining first_clock) h = ground arith

  solve_candidate-Kept :
      (stack : Bytes) (link : BredrLink) (frame : BredrFrame) (clk1 count remaining first_clock : ℕ)
      → Kept link
      → ResultKept (solve_candidate stack link frame clk1 count remaining first_clock)
  unfolding solve_candidate ResultKept
  solve_candidate-Kept stack link frame clk1 count remaining first_clock h =
      let clock = bit_and (u32 (count + u32 (clk1 + 2 ^ 32 - link.recovery_first_pkt_time))) 0x3f in
      let guess = decode_uap_for_clock stack frame clock in
      let lt = guess.hdr.lt_addr in
      let verdict = candidate_verdict link frame count clock guess in
      let ruled = apply_esco_lt_addr_rule link count lt guess.type_code verdict in
      if-ResultKept
        (is_natural (link.recovery_candidates count) || link.recovery_got_first_packet == 0) _ _
        (settle-Kept ruled.1 count guess.guessed_uap remaining first_clock ruled.0
          (esco-Kept link count lt guess.type_code verdict h))
        h

  solve_loop-Kept :
      (left count : ℕ) (stack : Bytes) (frame : BredrFrame) (clk1 : ℕ) (r : SolveResult)
      → ResultKept r
      → ResultKept (solve_loop left count stack frame clk1 r)
  unfolding solve_loop ResultKept
  solve_loop-Kept zero count stack frame clk1 r h = h
  solve_loop-Kept (suc left) count stack frame clk1 (solved link) h = h
  solve_loop-Kept (suc left) count stack frame clk1 (going link remaining first_clock) h =
      solve_loop-Kept left (count + 1) stack frame clk1
        (solve_candidate stack link frame clk1 count remaining first_clock)
        (solve_candidate-Kept stack link frame clk1 count remaining first_clock h)

  solve-Kept :
      (stack : Bytes) (link : BredrLink) (frame : BredrFrame) (clkn : ℕ)
      → Kept link
      → Kept (solve_uap_clock_candidates stack link frame clkn).1
  unfolding solve_uap_clock_candidates Kept ResultKept
  solve-Kept stack link frame clkn h =
      let begun : Kept (
          if link.recovery_got_first_packet == 0
          then record link { recovery_first_pkt_time = clkn >>> 1 }
          else link) =
        ground arith in
      if-Kept (frame.has_header == 0) _ _ h
        (solve_end-Kept _ (solve_loop-Kept 64 0 stack frame (clkn >>> 1) (going _ 0 0) begun))

  set_clock-Kept :
      (clocks : List ℕ) (link : BredrLink) (uap hint rx : ℕ)
      → Kept link
      → Kept (set_clock clocks link uap hint rx).1
  unfolding set_clock link_set_uap Kept
  set_clock-Kept [] link uap hint rx h = h
  set_clock-Kept (c ∷ []) link uap hint rx h = ground arith
  set_clock-Kept (c ∷ c' ∷ cs) link uap hint rx h = ground arith

  acquire-Kept :
      (stack : Bytes) (link : BredrLink) (event : BredrEvent) (clkn rx : ℕ)
      → Kept link
      → Kept (acquire_uap_and_clock stack link event clkn rx).1
  unfolding acquire_uap_and_clock acquire_clock
  acquire-Kept stack link event clkn rx h =
      let found = solve_uap_clock_candidates stack link event.frame clkn in
      let kept = solve-Kept stack link event.frame clkn h in
      let known : Kept
          (if found.1.uap_valid == 0 then link_set_uap_only found.1 found.1.uap else found.1) =
        unfold Kept in unfold link_set_uap_only in ground arith in
      if-Kept (event.frame.has_header == 0) _ _ h (
        if-Kept (not (link.uap_valid == 0) && not (link.clk_known == 0)) _ _ h
          (if-Kept (found.0 == 0) _ _ kept (set_clock-Kept _ _ found.1.uap _ rx known)))

  search-Kept :
      (link : BredrLink) (found : Option ℤ) → Kept link → Kept (after_offsets link found).1
  unfolding after_offsets drift_missed drift_hit Kept
  search-Kept link none h = ground arith
  search-Kept link (some d) h = ground arith

  process-Kept :
      (stack : Bytes) (link : BredrLink) (event : BredrEvent)
      → Kept link
      → Kept (recovery_process stack link event).1
  unfolding recovery_process recover_clock_drift
  process-Kept stack link event h =
      let rx = sample_to_rx_clk_1600 event in
      if-Kept (event.frame.has_header == 0) _ _ h (
        if-Kept (not (link.uap_valid == 0) && not (link.clk_known == 0)) _ _
          (search-Kept link (find_delta drift_offsets event.frame link.uap (expected_clock link rx))
            h)
          (acquire-Kept stack link event (sample_to_clkn event) rx h))

-- The recovery of a clock leaves the queue as it is.
pub recovery_process-Holds :
    (stack : Bytes) (link : BredrLink) (event : BredrEvent)
    → Holds link.queue link.queue_head link.queue_fill (recovery_process stack link event).1
unfolding Kept
recovery_process-Holds stack link event =
    process-Kept link.queue link.queue_head link.queue_fill stack link event
      (record { queue_is = refl; head_is = refl; fill_is = refl })

-- ===== src/Bredr/Recovery/Lock.antt =====
-- What the state of a connection keeps through the search for its clock.
pub mod Process
use supertooth.Base.{
  ℕ, zero, suc, ◌+◌, ◌-◌, ◌^◌, ◌<◌, ◌≤◌, ◌≡◌, ◌≢◌, inl, inr, refl, arith, bit_and, Bool, true,
  false, ◌&&◌, ◌||◌, not, Option, none, some, List, [], ◌∷◌, Bytes, ltb, ◌==◌, if◌then◌else◌, u32,
  ◌>>>◌, Bool-cases,
}
use supertooth.Base.Masks.{and-le}
use supertooth.Base.Int.{ℤ, pos, negsuc, ◌==ℤ◌, is_positive, incr, is_below, is_natural}
use supertooth.Models.{BredrEvent}
use supertooth.Bredr.Types.{BredrFrame}
use supertooth.Bredr.Link.{
  BredrLink, sample_to_rx_clk_1600, sample_to_clkn, recovery_reset, link_set_uap, link_set_uap_only,
}
use supertooth.Bredr.Hec.{hec_ok_for_clk6_clean}
use supertooth.Bredr.Recovery.{decode_uap_for_clock, apply_esco_lt_addr_rule}
use supertooth.Bredr.Recovery.Solve.{
  candidate_verdict, SolveResult, solved, going, settle_candidate, solve_candidate, solve_loop,
  solve_end, solve_uap_clock_candidates, set_clock, acquire_clock, acquire_uap_and_clock,
}
use supertooth.Bredr.Recovery.Track.{
  confirmed, expected_clock, drift_offsets, find_delta, drift_missed, drift_hit, after_offsets,
  recover_clock_drift, recovery_process, shifted_clock,
}

-- -1 to 5, and -2 to 2.
abbrev pub Confidence : ℤ → Type 0
Confidence (pos n) = n ≤ 5
Confidence (negsuc n) = n ≡ 0

abbrev pub Drift : ℤ → Type 0
Drift (pos n) = n ≤ 2
Drift (negsuc n) = n ≤ 1

-- The clock is not known.
pub record Unlocked (link : BredrLink) : Type 0 where
  pub unknown : link.clk_known ≡ 0
  pub state_range : Confidence link.tracking_state
  pub offset_range : link.clock_offset < 64
  pub drift_range : Drift link.drift_candidate

-- The clock is unknown, or the address part is valid and the confidence is at least 1.
pub data LockIsValid (link : BredrLink) : Type 0 where
  no_lock : Unlocked link → LockIsValid link
  locked :
      link.uap_valid ≢ 0
      → is_positive link.tracking_state ≡ true
      → Confidence link.tracking_state
      → link.clock_offset < 64
      → Drift link.drift_candidate
      → LockIsValid link

below_64 : (a : ℕ) → bit_and a 0x3f < 64
below_64 a = omega (arith, and-le a 0x3f)

esco-Unlocked :
    (link : BredrLink) (count lt t : ℕ) (c : ℤ)
    → Unlocked link
    → Unlocked (apply_esco_lt_addr_rule link count lt t c).1
unfolding apply_esco_lt_addr_rule
esco-Unlocked link count lt t c u = ground arith

-- A result of the loop whose link is not locked.
abbrev ResultUnlocked : SolveResult → Type 0
ResultUnlocked (solved link) = Unlocked link
ResultUnlocked (going link remaining first_clock) = Unlocked link

settle-Unlocked :
    (link : BredrLink) (count uap remaining first_clock : ℕ) (c : ℤ)
    → Unlocked link
    → ResultUnlocked (settle_candidate link count uap remaining first_clock c)
unfolding settle_candidate
settle-Unlocked link count uap remaining first_clock c u =
    ground (arith, below_64 (count + 64 - bit_and link.recovery_first_pkt_time 0x3f))

recovery_reset-Unlocked : (link : BredrLink) → Unlocked link → Unlocked (recovery_reset link)
unfolding recovery_reset
recovery_reset-Unlocked link u = ground arith

solve_end-Unlocked : (r : SolveResult) → ResultUnlocked r → Unlocked (solve_end r).1
unfolding solve_end
solve_end-Unlocked (solved link) u = u
solve_end-Unlocked (going link remaining first_clock) u = ground (
  arith,
  below_64 (first_clock + 64 - bit_and link.recovery_first_pkt_time 0x3f),
  recovery_reset-Unlocked (record link { recovery_got_first_packet = 1 }),
)

if-ResultUnlocked :
    (b : Bool) (x y : SolveResult)
    → ResultUnlocked x
    → ResultUnlocked y
    → ResultUnlocked (if b then x else y)
if-ResultUnlocked true x y h k = h
if-ResultUnlocked false x y h k = k

solve_candidate-Unlocked :
    (stack : Bytes) (link : BredrLink) (frame : BredrFrame) (clk1 count remaining first_clock : ℕ)
    → Unlocked link
    → ResultUnlocked (solve_candidate stack link frame clk1 count remaining first_clock)
unfolding solve_candidate
solve_candidate-Unlocked stack link frame clk1 count remaining first_clock u =
    let clock = bit_and (u32 (count + u32 (clk1 + 2 ^ 32 - link.recovery_first_pkt_time))) 0x3f in
    let guess = decode_uap_for_clock stack frame clock in
    let lt = guess.hdr.lt_addr in
    let verdict = candidate_verdict link frame count clock guess in
    let ruled = apply_esco_lt_addr_rule link count lt guess.type_code verdict in
    if-ResultUnlocked
      (is_natural (link.recovery_candidates count) || link.recovery_got_first_packet == 0) _ _
      (settle-Unlocked ruled.1 count guess.guessed_uap remaining first_clock ruled.0
        (esco-Unlocked link count lt guess.type_code verdict u))
      u

solve_loop-Unlocked :
    (left count : ℕ) (stack : Bytes) (frame : BredrFrame) (clk1 : ℕ) (r : SolveResult)
    → ResultUnlocked r
    → ResultUnlocked (solve_loop left count stack frame clk1 r)
unfolding solve_loop
solve_loop-Unlocked zero count stack frame clk1 r u = u
solve_loop-Unlocked (suc left) count stack frame clk1 (solved link) u = u
solve_loop-Unlocked (suc left) count stack frame clk1 (going link remaining first_clock) u =
    solve_loop-Unlocked left (count + 1) stack frame clk1
      (solve_candidate stack link frame clk1 count remaining first_clock)
      (solve_candidate-Unlocked stack link frame clk1 count remaining first_clock u)

if-Unlocked :
    (b : Bool) (x y : ℕ × BredrLink) → Unlocked x.1 → Unlocked y.1 → Unlocked (if b then x else y).1
if-Unlocked true x y h k = h
if-Unlocked false x y h k = k

solve-Unlocked :
    (stack : Bytes) (link : BredrLink) (frame : BredrFrame) (clkn : ℕ)
    → Unlocked link
    → Unlocked (solve_uap_clock_candidates stack link frame clkn).1
unfolding solve_uap_clock_candidates
solve-Unlocked stack link frame clkn u =
    let begun : Unlocked (
        if link.recovery_got_first_packet == 0
        then record link { recovery_first_pkt_time = clkn >>> 1 }
        else link) =
      ground arith in
    if-Unlocked (frame.has_header == 0) _ _ u
      (solve_end-Unlocked _ (solve_loop-Unlocked 64 0 stack frame (clkn >>> 1) (going _ 0 0) begun))

set_uap-LockIsValid :
    (link : BredrLink) (uap clk rx : ℕ) → LockIsValid (link_set_uap link uap clk rx)
unfolding link_set_uap
set_uap-LockIsValid link uap clk rx =
    locked (omega arith) refl (omega arith) (below_64 (u32 (clk + 2 ^ 32 - rx))) (omega arith)

set_clock-LockIsValid :
    (clocks : List ℕ) (link : BredrLink) (uap hint rx : ℕ)
    → Unlocked link
    → LockIsValid (set_clock clocks link uap hint rx).1
unfolding set_clock
set_clock-LockIsValid [] link uap hint rx u = no_lock u
set_clock-LockIsValid (c ∷ []) link uap hint rx u = set_uap-LockIsValid link uap _ rx
set_clock-LockIsValid (c ∷ c' ∷ cs) link uap hint rx u = set_uap-LockIsValid link uap _ rx

acquire_clock-LockIsValid :
    (link : BredrLink) (event : BredrEvent) (rx : ℕ)
    → Unlocked link
    → LockIsValid (acquire_clock link event rx).1
unfolding acquire_clock
acquire_clock-LockIsValid link event rx u =
    let known : Unlocked (if link.uap_valid == 0 then link_set_uap_only link link.uap else link) =
      unfold link_set_uap_only in ground arith in
    set_clock-LockIsValid _ _ link.uap _ rx known

pub if-LockIsValid :
    (b : Bool) (x y : ℕ × BredrLink)
    → (b ≡ true → LockIsValid x.1)
    → (b ≡ false → LockIsValid y.1)
    → LockIsValid (if b then x else y).1
if-LockIsValid true x y h k = h refl
if-LockIsValid false x y h k = k refl

pub acquire-LockIsValid :
    (stack : Bytes) (link : BredrLink) (event : BredrEvent) (clkn rx : ℕ)
    → Unlocked link
    → LockIsValid (acquire_uap_and_clock stack link event clkn rx).1
unfolding acquire_uap_and_clock
acquire-LockIsValid stack link event clkn rx u =
    let solved_link = solve-Unlocked stack link event.frame clkn u in
    if-LockIsValid (event.frame.has_header == 0) _ _ (λ _. no_lock u)
      (λ _.
        if-LockIsValid (not (link.uap_valid == 0) && not (link.clk_known == 0)) _ _ (λ _. no_lock u)
          (λ _.
            if-LockIsValid ((solve_uap_clock_candidates stack link event.frame clkn).0 == 0) _ _
              (λ _. no_lock solved_link) (λ _. acquire_clock-LockIsValid _ event rx solved_link)))

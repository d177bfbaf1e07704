-- ===== src/Bredr/Recovery/Solve.antt =====
-- The search for the upper address part and the clock in
-- src/core/protocol/bredr/bredr_clock_recovery.c, from the first packets of a connection. The
-- optional dump of frames to a file is left out.
use supertooth.Base.{
  ℕ, zero, suc, ◌+◌, ◌-◌, ◌%◌, ◌^◌, bit_and, Bool, ◌&&◌, ◌||◌, not, List, [], ◌∷◌, Bytes, ltb, leb,
  ◌==◌, length, if◌then◌else◌, u8, u32, ◌>>>◌,
}
use supertooth.Base.Arrays.{update}
use supertooth.Base.Int.{ℤ, pos, negsuc, ◌==ℤ◌, is_natural}
use supertooth.Models.{BredrEvent}
use supertooth.Bredr.Types.{BredrFrame}
use supertooth.Bredr.Hec.{hec_ok_for_clk6}
use supertooth.Bredr.Link.{
  BredrLink, recovery_reset, link_set_uap, link_set_uap_only, sample_to_rx_clk_1600,
}
use supertooth.Bredr.Recovery.{
  Guess, decode_uap_for_clock, sanity_check_header, apply_esco_lt_addr_rule,
}
use supertooth.Bredr.Recovery.SyncPayloads.{verify_payload_crc}

-- `(uint8_t)` of an `int`.
abbrev pub low_byte : ℤ → ℕ
low_byte (pos n) = u8 n
low_byte (negsuc n) = u8 (2 ^ 32 - 1 - n)

-- The verdict on a candidate, before the rule on eSCO addresses.
unfoldable pub candidate_verdict : BredrLink → BredrFrame → ℕ → ℕ → Guess → ℤ
candidate_verdict link frame count clock guess =
    let uap = guess.guessed_uap in
    let checked =
      if link.recovery_got_first_packet == 0 || uap == low_byte (link.recovery_candidates count)
      then pos (verify_payload_crc frame clock guess.type_code uap)
      else negsuc 0 in
    if not (guess.fec_errors ==ℤ pos 0)
    then negsuc 0
    else if not (link.uap_valid == 0) && not (uap == link.uap)
    then negsuc 0
    else if not (sanity_check_header guess.hdr clock)
    then negsuc 0
    else checked

-- The loop over the candidates: it returns early, or goes on with the link, the number of
-- candidates that remain and the last one of them.
pub data SolveResult : Type 0 where
  solved : BredrLink → SolveResult
  going : BredrLink → ℕ → ℕ → SolveResult

-- `(count - (int)(recovery_first_pkt_time & 0x3f)) & 0x3f`.
abbrev pub offset_of : BredrLink → ℕ → ℕ
offset_of link count = bit_and (count + 64 - bit_and link.recovery_first_pkt_time 0x3f) 0x3f

-- The link that a solution leaves.
abbrev pub with_uap : BredrLink → ℕ → ℕ → BredrLink
with_uap link count uap = record link {
  clock_offset = offset_of link count;
  uap = uap;
  uap_valid = 1;
}

-- The switch on the verdict.
unfoldable pub settle_candidate : BredrLink → ℕ → ℕ → ℕ → ℕ → ℤ → SolveResult
settle_candidate link count uap remaining first_clock crc_chk =
    let candidates = link.recovery_candidates in
    if crc_chk ==ℤ negsuc 0 || crc_chk ==ℤ pos 0
    then going (record link { recovery_candidates = update candidates count (negsuc 0) }) remaining
        first_clock
    else if crc_chk ==ℤ pos 1 || crc_chk ==ℤ pos 2
    then going (record link { recovery_candidates = update candidates count (pos uap) })
        (remaining + 1) count
    else solved (with_uap link count uap)

unfoldable pub solve_candidate : Bytes → BredrLink → BredrFrame → ℕ → ℕ → ℕ → ℕ → SolveResult
unfolding candidate_verdict settle_candidate
solve_candidate stack link frame clk1 count remaining first_clock =
    let clock = bit_and (u32 (count + u32 (clk1 + 2 ^ 32 - link.recovery_first_pkt_time))) 0x3f in
    let guess = decode_uap_for_clock stack frame clock in
    let (crc_chk, link') =
      apply_esco_lt_addr_rule link count guess.hdr.lt_addr guess.type_code
        (candidate_verdict link frame count clock guess) in
    if is_natural (link.recovery_candidates count) || link.recovery_got_first_packet == 0
    then settle_candidate link' count guess.guessed_uap remaining first_clock crc_chk
    else going link remaining first_clock

-- What follows the loop.
unfoldable pub solve_end : SolveResult → ℕ × BredrLink
solve_end (solved link) = (1, link)
solve_end (going link remaining first_clock) =
    let link' = record link { recovery_got_first_packet = 1 } in
    if remaining == 1
    then (1, with_uap link' first_clock (low_byte (link.recovery_candidates first_clock)))
    else if remaining == 0
    then (0, recovery_reset link')
    else (0, link')

-- The loop at `count`, with `left` rounds to go.
unfoldable pub solve_loop : ℕ → ℕ → Bytes → BredrFrame → ℕ → SolveResult → SolveResult
solve_loop zero count stack frame clk1 r = r
solve_loop (suc left) count stack frame clk1 (solved link) = solved link
solve_loop (suc left) count stack frame clk1 (going link remaining first_clock) =
    solve_loop left (count + 1) stack frame clk1
      (solve_candidate stack link frame clk1 count remaining first_clock)

unfoldable pub solve_uap_clock_candidates : Bytes → BredrLink → BredrFrame → ℕ → ℕ × BredrLink
unfolding solve_loop solve_end solve_candidate
solve_uap_clock_candidates stack link frame clkn =
    let clk1 = clkn >>> 1 in
    let begun =
      if link.recovery_got_first_packet == 0
      then record link { recovery_first_pkt_time = clk1 }
      else link in
    if frame.has_header == 0
    then (0, link)
    else solve_end (solve_loop 64 0 stack frame clk1 (going begun 0 0))

-- The clocks of a list that pass a test, in their order.
unfoldable pub keep : (ℕ → Bool) → List ℕ → List ℕ
keep p [] = []
keep p (c ∷ cs) = if p c then c ∷ keep p cs else keep p cs

-- The loop over older events at the distance `i`, with `left` rounds to go. An array of candidates
-- with their number is a list.
unfoldable pub narrow_loop : ℕ → ℕ → BredrLink → ℕ → ℕ → List ℕ → List ℕ
narrow_loop zero i link cur_clk uap candidates = candidates
narrow_loop (suc left) i link cur_clk uap candidates =
    let hist = link.queue (u32 (link.queue_head + 128 + 2 ^ 32 - 1 - i) % 128) in
    let age = u32 (cur_clk + 2 ^ 32 - sample_to_rx_clk_1600 hist) in
    let kept =
      keep
        (λ c.
          not (hec_ok_for_clk6 hist.frame uap (u8 (bit_and (c + 64 - bit_and age 0x3f) 0x3f)) == 0))
        candidates in
    let skip = narrow_loop left (i + 1) link cur_clk uap candidates in
    let rest = narrow_loop left (i + 1) link cur_clk uap kept in
    if ltb 8000 age
    then candidates
    else if hist.frame.has_header == 0
    then skip
    else if leb (length kept) 1
    then kept
    else rest

unfoldable pub narrow_clock_via_history : BredrLink → BredrEvent → ℕ → List ℕ → List ℕ
unfolding narrow_loop keep
narrow_clock_via_history link cur_event uap candidates =
    if leb (length candidates) 1 || ltb link.queue_fill 2
    then candidates
    else narrow_loop (link.queue_fill - 1) 1 link (sample_to_rx_clk_1600 cur_event) uap candidates

-- The clocks from `c` on, with `left` of them to go, whose header check holds.
unfoldable pub valid_clocks : ℕ → ℕ → BredrFrame → ℕ → List ℕ
valid_clocks zero c frame uap = []
valid_clocks (suc left) c frame uap =
    let rest = valid_clocks left (c + 1) frame uap in
    if hec_ok_for_clk6 frame uap c == 0 then rest else (c ∷ rest)

-- The distance of two clocks on the circle of 64.
unfoldable pub clock_distance : ℕ → ℕ → ℕ
clock_distance a b = let d = if ltb a b then b - a else a - b in if ltb 32 d then 64 - d else d

-- The loop that looks for the candidate that is nearest to the hint.
unfoldable pub best_clock : List ℕ → ℕ → ℕ → ℕ → ℕ
best_clock [] hint best best_dist = best
best_clock (c ∷ cs) hint best best_dist =
    let d = clock_distance c hint in
    best_clock cs hint (if ltb d best_dist then c else best)
      (if ltb d best_dist then d else best_dist)

-- The end of the acquisition, with the candidates that are left.
unfoldable pub set_clock : List ℕ → BredrLink → ℕ → ℕ → ℕ → ℕ × BredrLink
unfolding best_clock clock_distance
set_clock [] link uap hint rx_clk_1600 = (0, link)
set_clock (c ∷ []) link uap hint rx_clk_1600 = (1, link_set_uap link uap (u8 c) rx_clk_1600)
set_clock (c ∷ c' ∷ cs) link uap hint rx_clk_1600 =
    (1, link_set_uap link uap (u8 (best_clock (c ∷ c' ∷ cs) hint c 64)) rx_clk_1600)

-- What follows the search for candidates.
unfoldable pub acquire_clock : BredrLink → BredrEvent → ℕ → ℕ × BredrLink
unfolding set_clock
acquire_clock link event rx_clk_1600 =
    let uap = link.uap in
    let known = if link.uap_valid == 0 then link_set_uap_only link uap else link in
    set_clock (narrow_clock_via_history known event uap (valid_clocks 64 0 event.frame uap)) known
      uap (u8 link.clock_offset) rx_clk_1600

unfoldable pub acquire_uap_and_clock : Bytes → BredrLink → BredrEvent → ℕ → ℕ → ℕ × BredrLink
unfolding acquire_clock
acquire_uap_and_clock stack link event clkn rx_clk_1600 =
    let (found, link') = solve_uap_clock_candidates stack link event.frame clkn in
    if event.frame.has_header == 0
    then (0, link)
    else if not (link.uap_valid == 0) && not (link.clk_known == 0)
    then (0, link)
    else if found == 0
    then (0, link')
    else acquire_clock link' event rx_clk_1600

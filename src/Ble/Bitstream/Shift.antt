-- ===== src/Ble/Bitstream/Shift.antt =====
-- What the ways to the next candidate of a Bluetooth LE stream change: fewer bits are left, in a buffer
-- of the same size, and all but the candidate stays.
use supertooth.Base.{
  ℕ, zero, suc, ◌+◌, ◌-◌, ◌/◌, ◌≤◌, ◌≡◌, inl, inr, refl, sym, ap, subst, ◌∙◌, arith, Option, none,
  some, Bytes, at, length, length-set, length-replicate, ltb, leb, ◌==◌, if◌then◌else◌, Bool-cases,
}
use supertooth.Ble.Bitstream.{
  DecState, search, collect_aa, collect_pdu, BleDecoder, no_cand, shift_bits, is_preamble,
  find_loop, find_next_preamble, restart_search, resume_at, reject_and_rescan, finish_candidate,
}
use supertooth.Ble.Bitstream.Bits.{get_bit, set_bit, move_loop, clear_loop, window8}

pub length-set_bit : (buf : Bytes) (i b : ℕ) → length (set_bit buf i b) ≡ length buf
unfolding set_bit
length-set_bit buf i b = length-set buf (i / 8) _

length-move_loop : (left i k : ℕ) (cand : Bytes) → length (move_loop left i k cand) ≡ length cand
unfolding move_loop
length-move_loop zero i k cand = refl
length-move_loop (suc left) i k cand =
    length-move_loop left (i + 1) k (set_bit cand i (get_bit cand (i + k)))
    ∙ length-set_bit cand i (get_bit cand (i + k))

length-clear_loop : (left i : ℕ) (cand : Bytes) → length (clear_loop left i cand) ≡ length cand
unfolding clear_loop
length-clear_loop zero i cand = refl
length-clear_loop (suc left) i cand =
    length-clear_loop left (i + 1) (set_bit cand i 0) ∙ length-set_bit cand i 0

-- A machine that differs in the bits that it holds.
pub record Shifted (k : ℕ) (p q : BleDecoder) : Type 0 where
  pub cand_new : Bytes
  pub size : length cand_new ≡ 272
  pub rest_same : q ≡ record p { cand = cand_new; cand_bits = p.cand_bits - k }

pub shift_bits-Shifted :
    (p : BleDecoder) (k : ℕ) → length p.cand ≡ 272 → Shifted k p (shift_bits p k)
unfolding shift_bits no_cand
shift_bits-Shifted p k h = elim (Bool-cases (k == 0)) [
  | inl stays ↦
      let none_lost : p.cand_bits - k ≡ p.cand_bits = ground arith in
      rw stays (record {
        cand_new = p.cand;
        size = h;
        rest_same = ap (λ n. record p { cand_bits = n }) (sym none_lost);
      })
  | inr moves ↦ rw moves (elim (Bool-cases (leb p.cand_bits k)) [
    | inl all ↦
        let none_left : p.cand_bits - k ≡ 0 = ground arith in
        rw all (record {
          cand_new = no_cand;
          size = length-replicate {A = ℕ} 272 0;
          rest_same = ap (λ n. record p { cand = no_cand; cand_bits = n }) (sym none_left);
        })
    | inr some_left ↦
        let moved = move_loop (p.cand_bits - k) 0 k p.cand in
        rw some_left (record {
          cand_new = clear_loop k (p.cand_bits - k) moved;
          size =
              length-clear_loop k (p.cand_bits - k) moved
              ∙ length-move_loop (p.cand_bits - k) 0 k p.cand
              ∙ h;
          rest_same = refl;
        })
  ])
]

-- Where a preamble is found.
find_loop-bounds :
    (left i : ℕ) (cand : Bytes) (n k : ℕ) → find_loop left i cand n ≡ some k → (i ≤ k) × (k + 8 ≤ n)
unfolding find_loop
find_loop-bounds zero i cand n k h = absurd (cc h)
find_loop-bounds (suc left) i cand n k h = elim (Bool-cases (ltb n (i + 8))) [
  | inl short ↦ absurd (ground arith)
  | inr room ↦ elim (Bool-cases (is_preamble (window8 cand i))) [
    | inl here ↦ let q : i ≡ k = ground arith in (omega arith, ground arith)
    | inr later ↦
        let (low, high) = find_loop-bounds left (i + 1) cand n k (ground arith) in
        (omega arith, high)
  ]
]

find-bounds :
    (p : BleDecoder) (from k : ℕ)
    → find_next_preamble p from ≡ some k
    → (from ≤ k) × (k + 8 ≤ p.cand_bits)
unfolding find_next_preamble
find-bounds p from k h = elim (Bool-cases (ltb p.cand_bits 8)) [
  | inl short ↦ absurd (ground arith)
  | inr room ↦ find_loop-bounds p.cand_bits from p.cand p.cand_bits k (ground arith)
]

-- The state in which the machine looks on.
abbrev pub Waits : DecState → ℕ → Type 0
Waits search n = n ≤ 7
Waits collect_aa n = Unit {0}
Waits collect_pdu n = ⊥

-- The machine looks on, with at least `k` bits fewer.
pub record Rescanned (k : ℕ) (p q : BleDecoder) : Type 0 where
  pub fewer : q.cand_bits + k ≤ p.cand_bits
  pub waits : Waits q.state q.cand_bits
  pub cand_size : length q.cand ≡ 272
  pub header_gone : q.header_decoded ≡ 0
  pub channel_same : q.channel_index ≡ p.channel_index
  pub pending_same : q.pending ≡ p.pending
  pub frame_same : q.last_frame ≡ p.last_frame

abbrev kept : ℕ → ℕ
kept n = if ltb 7 n then 7 else n

restart-Rescanned :
    (k : ℕ) (p : BleDecoder)
    → length p.cand ≡ 272
    → k + kept p.cand_bits ≤ p.cand_bits
    → Rescanned k p (restart_search p)
unfolding restart_search
restart-Rescanned k p size h =
    let s = shift_bits-Shifted p (p.cand_bits - kept p.cand_bits) size in
    let left : p.cand_bits - (p.cand_bits - kept p.cand_bits) ≡ kept p.cand_bits = ground arith in
    let back =
      λ (q : BleDecoder). record q { state = search; header_decoded = 0; pdu_target_bits = 0 } in
    subst (λ q. Rescanned k p (back q)) (sym s.rest_same)
      (record {
        fewer = omega (arith, left);
        waits = ground (arith, left);
        cand_size = s.size;
        header_gone = refl;
        channel_same = refl;
        pending_same = refl;
        frame_same = refl;
      })

resume-Rescanned :
    (o : Option ℕ) (k : ℕ) (p : BleDecoder)
    → length p.cand ≡ 272
    → k + kept p.cand_bits ≤ p.cand_bits
    → ((j : ℕ) → o ≡ some j → (k ≤ j) × (j ≤ p.cand_bits))
    → Rescanned k p (resume_at o p)
unfolding resume_at
resume-Rescanned none k p size h g = restart-Rescanned k p size h
resume-Rescanned (some j) k p size h g =
    let (low, high) = g j refl in
    let s = shift_bits-Shifted p j size in
    let onward = λ (q : BleDecoder). record q {
      detected_preamble = at q.cand 0;
      state = collect_aa;
      header_decoded = 0;
      pdu_target_bits = 0;
    } in
    subst (λ q. Rescanned k p (onward q)) (sym s.rest_same)
      (record {
        fewer = omega arith;
        waits = tt;
        cand_size = s.size;
        header_gone = refl;
        channel_same = refl;
        pending_same = refl;
        frame_same = refl;
      })

pub reject-Rescanned :
    (p : BleDecoder) → length p.cand ≡ 272 → 8 ≤ p.cand_bits → Rescanned 1 p (reject_and_rescan p)
unfolding reject_and_rescan
reject-Rescanned p size h =
    resume-Rescanned (find_next_preamble p 1) 1 p size (ground arith)
      (λ j e. (let (low, high) = find-bounds p 1 j e in (low, omega arith)))

pub finish-Rescanned :
    (p : BleDecoder) → length p.cand ≡ 272 → 1 ≤ p.cand_bits → Rescanned 1 p (finish_candidate p)
unfolding finish_candidate
finish-Rescanned p size h =
    let s = shift_bits-Shifted p (40 + p.pdu_target_bits) size in
    let q = shift_bits p (40 + p.pdu_target_bits) in
    let q_size : length q.cand ≡ 272 = ap (λ r. length r.cand) s.rest_same ∙ s.size in
    let fewer_bits : q.cand_bits ≡ p.cand_bits - (40 + p.pdu_target_bits) =
      ap (λ r. r.cand_bits) s.rest_same in
    let onward =
      resume-Rescanned (find_next_preamble q 0) 0 q q_size (ground arith)
        (λ j e. (let (low, high) = find-bounds q 0 j e in (low, omega arith))) in
    record {
      fewer = omega (arith, onward.fewer, fewer_bits);
      waits = onward.waits;
      cand_size = onward.cand_size;
      header_gone = onward.header_gone;
      channel_same = onward.channel_same ∙ ap (λ r. r.channel_index) s.rest_same;
      pending_same = onward.pending_same ∙ ap (λ r. r.pending) s.rest_same;
      frame_same = onward.frame_same ∙ ap (λ r. r.last_frame) s.rest_same;
    }

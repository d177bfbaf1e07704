-- ===== src/Ble/Bitstream/Body.antt =====
-- A round of the drain loop of Bluetooth LE over a candidate whose address is known.
use supertooth.Base.{
  ℕ, ◌+◌, ◌-◌, ◌*◌, ◌^◌, ◌<◌, ◌≤◌, ◌≡◌, ◌≢◌, inl, inr, refl, sym, subst, arith, false, ◌&&◌, not,
  none, some, ltb, ◌==◌, if◌then◌else◌, Bool-cases, ==_iff, ltb→lt, u32,
}
use supertooth.Ble.Frame.{
  FrameKind, adv_frame, data_frame, crc_init_adv, payload_length_from_header,
}
use supertooth.Ble.Frame.Bounds.{payload_length_bound}
use supertooth.Ble.Bitstream.{
  ble_searching, DecState, search, collect_aa, collect_pdu, BleDecoder, reject_and_rescan,
  finish_candidate, data_header_plausible, emit, complete_frame, complete_adv_frame,
  complete_data_frame,
}
use supertooth.Ble.Bitstream.Drain.{is_search, step_body, cand_header, step_header, step_pdu}
use supertooth.Ble.Bitstream.Shift.{Waits, reject-Rescanned, finish-Rescanned}
use supertooth.Ble.Bitstream.Sound.{Announced, PduIsValid, Kept, Idle, IsBusy, complete_frame-Kept}
use supertooth.Ble.Bitstream.Steps.{measure, After, AfterStep, Rescanned-After}

module _ (ch : ℕ) (p : BleDecoder) (v : Kept ch p) where
  -- A machine that holds a whole candidate.
  module _ (valid : PduIsValid p) (a : Announced p) (high : p.cand_bits ≤ 2128) where
    completed : FrameKind → ℕ → BleDecoder
    completed kind crc_init = complete_frame kind crc_init p

    finished-After :
        p.is_data_candidate ≡ 0
        → IsBusy ch (finish_candidate (complete_adv_frame p))
          × (measure (finish_candidate (complete_adv_frame p)) < 4 * p.cand_bits)
    unfolding complete_adv_frame
    finished-After adv =
        let w = complete_frame-Kept ch adv_frame crc_init_adv p v valid a (valid.typed.0 adv) in
        let bits : (complete_frame adv_frame crc_init_adv p).cand_bits ≡ p.cand_bits =
          unfold complete_frame emit in refl in
        let (busy, less) =
          Rescanned-After ch (complete_frame adv_frame crc_init_adv p) _ w (omega (arith, bits)) (
            finish-Rescanned (complete_frame adv_frame crc_init_adv p) w.cand_size
              (omega (arith, bits, valid.low))) in
        (busy, omega (arith, bits, less))

    rejected : BleDecoder
    rejected = reject_and_rescan (complete_data_frame p)

    reported-After :
        p.is_data_candidate ≢ 0
        → IsBusy ch rejected
          × (measure rejected < 4 * p.cand_bits)
          × (rejected.state ≡ search → Idle search rejected)
    unfolding rejected complete_data_frame
    reported-After data_ =
        let (other, plausible) = valid.typed.1 data_ in
        let emitted = complete_frame data_frame 0 p in
        let w =
          complete_frame-Kept ch data_frame 0 p v valid a (other, plausible, a.header_fits data_) in
        let bits : emitted.cand_bits ≡ p.cand_bits = unfold complete_frame emit in refl in
        let r = reject-Rescanned emitted w.cand_size (omega (arith, bits, valid.low)) in
        let (busy, less) = Rescanned-After ch emitted _ w (omega (arith, bits)) r in
        (
          busy,
          omega (arith, bits, less),
          λ e.
              (subst (λ s. Waits s (reject_and_rescan emitted).cand_bits) e r.waits, r.header_gone),
        )

    reported_step :
        (s : DecState)
        → rejected.state ≡ s
        → p.is_data_candidate ≢ 0
        → After ch (4 * p.cand_bits) (if is_search s then some ble_searching else none) rejected
    reported_step search e d =
        let (busy, less, rests) = reported-After d in
        (
          record { keeps = busy.keeps; idle = subst (λ s. Idle s rejected) (sym e) (rests e) },
          λ q. cc,
        )
    reported_step collect_aa e d = let (busy, less, rests) = reported-After d in (busy, less)
    reported_step collect_pdu e d = let (busy, less, rests) = reported-After d in (busy, less)

    step_body-After :
        (pdu_bits : ℕ)
        → pdu_bits ≡ p.cand_bits - 40
        → p.state ≡ collect_pdu
        → AfterStep ch (4 * p.cand_bits) (step_body pdu_bits p)
    unfolding step_body
    step_body-After pdu_bits b e = elim (Bool-cases (ltb pdu_bits p.pdu_target_bits)) [
      | inl waits ↦
          let room : p.cand_bits < 2128 = omega (
            arith,
            ltb→lt pdu_bits p.pdu_target_bits waits,
            a.target_is,
            payload_length_bound (cand_header p),
            valid.low,
          ) in
          rw waits
            (record { keeps = v; idle = subst (λ s. Idle s p) (sym e) (valid, room) }, λ q. cc)
      | inr full ↦ rw full (elim (Bool-cases (p.is_data_candidate == 0)) [
        | inl adv ↦ rw adv (finished-After ((==_iff _ _).0 adv))
        | inr data_ ↦ rw data_ (unfold rejected in reported_step rejected.state refl (ground arith))
      ])
    ]

not_below : (a b : ℕ) → ltb a b ≡ false → b ≤ a
not_below a b h = ground arith

step_header-After :
    (ch : ℕ) (p : BleDecoder) (pdu_bits : ℕ)
    → Kept ch p
    → PduIsValid p
    → p.cand_bits ≤ 2128
    → p.state ≡ collect_pdu
    → pdu_bits ≡ p.cand_bits - 40
    → AfterStep ch (4 * p.cand_bits) (step_header pdu_bits p)
unfolding step_header cand_header
step_header-After ch p pdu_bits v valid high e b = elim (Bool-cases (ltb pdu_bits 16)) [
  | inl few ↦
      let room : p.cand_bits < 2128 = omega (arith, ltb→lt pdu_bits 16 few, valid.low) in
      rw few (record { keeps = v; idle = subst (λ s. Idle s p) (sym e) (valid, room) }, λ q. cc)
  | inr enough ↦
      let impossible =
        not (p.is_data_candidate == 0) && not (data_header_plausible (cand_header p)) in
      rw enough (elim (Bool-cases impossible) [
        | inl forbidden ↦ rw forbidden (
            Rescanned-After ch p (reject_and_rescan p) v high
              (reject-Rescanned p v.cand_size (omega (arith, valid.low))))
        | inr allowed ↦
            let decoded = record p {
              pdu_target_bits = (2 + payload_length_from_header (cand_header p) + 3) * 8;
              header_decoded = 1;
            } in
            let announced : Announced decoded = record {
              past_header = omega (arith, valid.low, b, not_below pdu_bits 16 enough);
              target_is = omega arith;
              header_fits = λ d. ground (arith, d);
            } in
            rw allowed (
              step_body-After ch decoded
                (record {
                  channel_is = v.channel_is;
                  cand_size = v.cand_size;
                  raw_size = v.raw_size;
                  queue_bound = v.queue_bound;
                  all_sound = v.all_sound;
                })
                (record {
                  low = valid.low;
                  edge = valid.edge;
                  typed = valid.typed;
                  announced = λ d. announced;
                })
                announced high pdu_bits b e)
      ])
]

pub step_pdu-After :
    (ch : ℕ) (p : BleDecoder)
    → Kept ch p
    → PduIsValid p
    → p.cand_bits ≤ 2128
    → p.state ≡ collect_pdu
    → AfterStep ch (4 * p.cand_bits) (step_pdu p)
unfolding step_pdu
step_pdu-After ch p v valid high e =
    let pdu_bits = u32 (p.cand_bits + 2 ^ 32 - 40) in
    let b : pdu_bits ≡ p.cand_bits - 40 = omega (arith, valid.low) in
    elim (Bool-cases (p.header_decoded == 0)) [
      | inl header ↦ rw header (step_header-After ch p pdu_bits v valid high e b)
      | inr body ↦
          let decoded : p.header_decoded ≢ 0 = ground arith in
          rw body (step_body-After ch p v valid (valid.announced decoded) high pdu_bits b e)
    ]

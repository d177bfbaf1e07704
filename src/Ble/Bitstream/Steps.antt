-- ===== src/Ble/Bitstream/Steps.antt =====
-- One round of the drain loop of Bluetooth LE: it ends with a valid machine, or goes on with a busy one
-- that has less to do.
use supertooth.Base.{
  ℕ, ◌+◌, ◌-◌, ◌*◌, ◌<◌, ◌≤◌, ◌≡◌, ◌≢◌, inl, inr, refl, sym, ap, subst, ◌∙◌, arith, true, false,
  ◌&&◌, not, Option, none, some, length, ltb, ◌==◌, if◌then◌else◌, Bool-cases, ==_iff,
}
use supertooth.Ble.Bitstream.{
  BleStatus, ble_error, DecState, search, collect_aa, collect_pdu, BleDecoder, advertising_aa,
  is_preamble, shift_bits, reject_and_rescan, preamble_matches_aa, data_aa_plausible, read_aa,
  classify,
}
use supertooth.Ble.Bitstream.Bits.{window8}
use supertooth.Ble.Bitstream.Drain.{Stepped, step_search}
use supertooth.Ble.Bitstream.Shift.{shift_bits-Shifted, Waits, Rescanned, reject-Rescanned}
use supertooth.Ble.Bitstream.Sound.{AllSound, Kept, Busy, Idle, IsBusy, BleDecoderIsValid}

-- How far a candidate is from being complete.
abbrev pub phase : DecState → ℕ
phase search = 2
phase collect_aa = 1
phase collect_pdu = 0

abbrev pub measure : BleDecoder → ℕ
measure p = 4 * p.cand_bits + phase p.state

-- What a round leaves.
abbrev pub After : ℕ → ℕ → Option BleStatus → BleDecoder → Type 0
After ch m none q = IsBusy ch q × (measure q < m)
After ch m (some s) q = BleDecoderIsValid ch q × (s ≢ ble_error)

abbrev pub AfterStep : ℕ → ℕ → Stepped → Type 0
AfterStep ch m r = After ch m r.0 r.1

waiting :
    (s : DecState) (q : BleDecoder)
    → Waits s q.cand_bits
    → q.cand_bits ≤ 2128
    → q.header_decoded ≡ 0
    → Busy s q × (phase s ≤ 2)
waiting search q w h d = ((omega arith, d), omega arith)
waiting collect_aa q w h d = ((h, d), omega arith)
waiting collect_pdu q w h d = absurd w

Rescanned-Kept : (ch k : ℕ) (p q : BleDecoder) → Kept ch p → Rescanned k p q → Kept ch q
Rescanned-Kept ch k p q v r = record {
  channel_is = r.channel_same ∙ v.channel_is;
  cand_size = r.cand_size;
  raw_size = ap (λ f. length f.raw_pdu) r.frame_same ∙ v.raw_size;
  queue_bound = omega (arith, ap (λ fs. length fs) r.pending_same, v.queue_bound);
  all_sound = subst (AllSound ch) (sym r.pending_same) v.all_sound;
}

-- A machine that looks on with fewer bits.
pub Rescanned-After :
    (ch : ℕ) (p q : BleDecoder)
    → Kept ch p
    → p.cand_bits ≤ 2128
    → Rescanned 1 p q
    → IsBusy ch q × (measure q < 4 * p.cand_bits)
Rescanned-After ch p q v h r =
    let (busy, low) = waiting q.state q r.waits (omega (arith, r.fewer)) r.header_gone in
    (record { keeps = Rescanned-Kept ch 1 p q v r; busy = busy }, omega (arith, r.fewer, low))

-- A machine whose candidate has another kind and address.
retyped :
    (ch aa kind : ℕ) (p : BleDecoder)
    → Kept ch p
    → Kept ch (record p { access_address = aa; is_data_candidate = kind })
retyped ch aa kind p v = record {
  channel_is = v.channel_is;
  cand_size = v.cand_size;
  raw_size = v.raw_size;
  queue_bound = v.queue_bound;
  all_sound = v.all_sound;
}

-- The kind that is settled by the address.
abbrev kind_of : ℕ → ℕ
kind_of aa = if aa == advertising_aa then 0 else 1

typed_by_aa :
    (aa : ℕ)
    → (not (aa == advertising_aa) && not (data_aa_plausible aa)) ≡ false
    → (kind_of aa ≡ 0 → aa ≡ advertising_aa)
      × (kind_of aa ≢ 0 → (aa ≢ advertising_aa) × (data_aa_plausible aa ≡ true))
typed_by_aa aa h = elim (Bool-cases (aa == advertising_aa)) [
  | inl same ↦ rw same (λ k. (==_iff _ _).0 same, λ k. absurd (k refl))
  | inr other ↦
      rw other (λ k. absurd (omega (arith, k)), λ k. (ground (arith, other), ground (arith, other)))
]

module _ (ch : ℕ) (p : BleDecoder) (v : Kept ch p) where
  shifted-Kept :
      (k w : ℕ) (s : DecState)
      → Kept ch (record (shift_bits p k) { detected_preamble = w; state = s })
  shifted-Kept k w s =
      let h = shift_bits-Shifted p k v.cand_size in
      subst (λ q. Kept ch (record q { detected_preamble = w; state = s })) (sym h.rest_same)
        (record {
          channel_is = v.channel_is;
          cand_size = h.size;
          raw_size = v.raw_size;
          queue_bound = v.queue_bound;
          all_sound = v.all_sound;
        })

  pub step_search-After :
      p.state ≡ search
      → p.cand_bits ≤ 8
      → p.header_decoded ≡ 0
      → AfterStep ch (measure p) (step_search p)
  unfolding step_search
  step_search-After e h d =
      let from = p.cand_bits - 8 in
      let w = window8 p.cand from in
      elim (Bool-cases (ltb p.cand_bits 8)) [
        | inl few ↦
            rw few (
              record { keeps = v; idle = subst (λ s. Idle s p) (sym e) (ground arith, d) },
              λ q. cc,
            )
        | inr eight ↦ rw eight (elim (Bool-cases (is_preamble w)) [
          | inl begins ↦
              let bits : (shift_bits p from).cand_bits ≡ p.cand_bits - from =
                ap (λ q. q.cand_bits) (shift_bits-Shifted p from v.cand_size).rest_same in
              rw begins (
                record {
                  keeps = shifted-Kept from w collect_aa;
                  busy = (
                    omega (arith, bits),
                    ap (λ q. q.header_decoded) (shift_bits-Shifted p from v.cand_size).rest_same
                        ∙ d,
                  );
                },
                omega (arith, bits, ap phase e),
              )
          | inr passes ↦
              let r = shift_bits-Shifted p 1 v.cand_size in
              let bits : (shift_bits p 1).cand_bits ≡ p.cand_bits - 1 =
                ap (λ q. q.cand_bits) r.rest_same in
              let still : (shift_bits p 1).state ≡ search = ap (λ q. q.state) r.rest_same ∙ e in
              rw passes (
                record {
                  keeps = subst (Kept ch) (sym r.rest_same) (record {
                    channel_is = v.channel_is;
                    cand_size = r.size;
                    raw_size = v.raw_size;
                    queue_bound = v.queue_bound;
                    all_sound = v.all_sound;
                  });
                  idle =
                      subst (λ s. Idle s (shift_bits p 1)) (sym still)
                        (omega (arith, bits), ap (λ q. q.header_decoded) r.rest_same ∙ d);
                },
                λ q. cc,
              )
        ])
      ]

  pub classify-After :
      40 ≤ p.cand_bits
      → p.cand_bits ≤ 2128
      → p.header_decoded ≡ 0
      → IsBusy ch (classify p) × (measure (classify p) < 4 * p.cand_bits + 1)
  unfolding classify
  classify-After low high undecoded =
      let aa = read_aa p.cand in
      let read = record p { access_address = aa } in
      let kind = kind_of aa in
      let typed = record read { is_data_candidate = kind } in
      elim (Bool-cases (preamble_matches_aa p.detected_preamble aa)) [
        | inr no_edge ↦
            let (busy, less) =
              Rescanned-After ch read (reject_and_rescan read)
                (retyped ch aa p.is_data_candidate p v) high
                (reject-Rescanned read v.cand_size (omega arith)) in
            rw no_edge (busy, omega arith)
        | inl edge ↦
            rw edge (elim (Bool-cases (not (aa == advertising_aa) && not (data_aa_plausible aa))) [
              | inl forbidden ↦
                  let (busy, less) =
                    Rescanned-After ch typed (reject_and_rescan typed) (retyped ch aa kind p v) high
                      (reject-Rescanned typed v.cand_size (omega arith)) in
                  rw forbidden (busy, omega arith)
              | inr allowed ↦ rw allowed (
                record {
                  keeps = record {
                    channel_is = v.channel_is;
                    cand_size = v.cand_size;
                    raw_size = v.raw_size;
                    queue_bound = v.queue_bound;
                    all_sound = v.all_sound;
                  };
                  busy = (
                    record {
                      low = low;
                      edge = edge;
                      typed = typed_by_aa aa (ground arith);
                      announced = λ d. absurd (d undecoded);
                    },
                    high,
                  );
                },
                omega arith,
              )
            ])
      ]

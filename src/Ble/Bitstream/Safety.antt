-- ===== src/Ble/Bitstream/Safety.antt =====
-- The framing of Bluetooth LE ends for every bit, without an error, and emits sound frames only.
use supertooth.Base.{
  ℕ, zero, suc, ◌+◌, ◌*◌, ◌/◌, ◌<◌, ◌≤◌, ◌≡◌, ◌≢◌, inl, inr, refl, sym, ap, ap₂, subst, ◌∙◌, arith,
  false, Option, none, some, [], ◌∷◌, length, length-replicate, get_or-set_ne, ltb, leb, ◌==◌,
  if◌then◌else◌, Bool-cases,
}
use supertooth.Ble.Whiten.{dewhiten}
use supertooth.Ble.Frame.{payload_length_from_header}
use supertooth.Ble.Bitstream.{
  BleStatus, ble_error, DecState, search, collect_aa, collect_pdu, BleDecoder, no_cand, no_raw,
  data_header_plausible, decoder_init,
}
use supertooth.Ble.Bitstream.Bits.{set_bit}
use supertooth.Ble.Bitstream.Drain.{
  Stepped, step_aa, cand_header, drain_step, drain, rounds_for, pushed, push_bit,
}
use supertooth.Ble.Bitstream.Shift.{length-set_bit}
use supertooth.Ble.Bitstream.Sound.{Announced, Kept, Busy, Idle, IsBusy, BleDecoderIsValid}
use supertooth.Ble.Bitstream.Steps.{
  phase, measure, After, AfterStep, step_search-After, classify-After,
}
use supertooth.Ble.Bitstream.Body.{step_pdu-After}

step_aa-After :
    (ch : ℕ) (p : BleDecoder)
    → p.state ≡ collect_aa
    → Kept ch p
    → p.cand_bits ≤ 2128
    → p.header_decoded ≡ 0
    → AfterStep ch (4 * p.cand_bits + 1) (step_aa p)
unfolding step_aa
step_aa-After ch p e v high d = elim (Bool-cases (ltb p.cand_bits 40)) [
  | inl few ↦
      rw few (record { keeps = v; idle = subst (λ s. Idle s p) (sym e) (ground arith, d) }, λ q. cc)
  | inr enough ↦ rw enough (classify-After ch p v (ground arith) high d)
]

-- A round of a busy machine ends with a valid machine and no error, or leaves a busy one with less to
-- do.
drain_step-After :
    (ch : ℕ) (s : DecState) (p : BleDecoder)
    → p.state ≡ s
    → Kept ch p
    → Busy s p
    → AfterStep ch (4 * p.cand_bits + phase s) (drain_step s p)
unfolding drain_step
drain_step-After ch search p e v b =
    subst (λ s. AfterStep ch (4 * p.cand_bits + phase s) (drain_step search p)) e
      (step_search-After ch p v e b.0 b.1)
drain_step-After ch collect_aa p e v b = step_aa-After ch p e v b.0 b.1
drain_step-After ch collect_pdu p e v b =
    let m : 4 * p.cand_bits ≡ 4 * p.cand_bits + 0 = omega arith in
    subst (λ n. AfterStep ch n (drain_step collect_pdu p)) m (step_pdu-After ch p v b.0 b.1 e)

-- The loop has ended.
abbrev Ended : ℕ → Stepped → Type 0
Ended ch r = (s : BleStatus) × (r.0 ≡ some s) × (s ≢ ble_error) × BleDecoderIsValid ch r.1

drain-Ended :
    (ch rounds : ℕ) (p : BleDecoder) → IsBusy ch p → measure p < rounds → Ended ch (drain rounds p)
unfolding drain
drain-Ended ch zero p b h = absurd (omega arith)
drain-Ended ch (suc rounds) p b h =
    ended (drain_step p.state p).0 (drain_step p.state p).1
      (λ q busy less. drain-Ended ch rounds q busy less)
      (drain_step-After ch p.state p refl b.keeps b.busy)
  where
    ended :
        (o : Option BleStatus) (q : BleDecoder)
        → ((t : BleDecoder) → IsBusy ch t → measure t < rounds → Ended ch (drain rounds t))
        → After ch (measure p) o q
        → Ended ch (let r : Stepped = elim o [ none ↦ drain rounds q | some s ↦ (some s, q) ] in r)
    ended none q rest a = rest q a.0 (omega (arith, a.1))
    ended (some s) q rest a = (s, refl, a.1, a.0)

-- A loop that ended in some rounds ends alike in one more.
drain_more :
    (rounds : ℕ) (p : BleDecoder)
    → (drain rounds p).0 ≢ none
    → drain (suc rounds) p ≡ drain rounds p
unfolding drain
drain_more zero p h = absurd (h refl)
drain_more (suc rounds) p h =
    more (drain_step p.state p).0 (drain_step p.state p).1 h (λ q k. drain_more rounds q k)
  where
    more :
        (o : Option BleStatus) (q : BleDecoder)
        → (let r : Stepped = elim o [ none ↦ drain rounds q | some s ↦ (some s, q) ] in r.0 ≢ none)
        → ((t : BleDecoder) → (drain rounds t).0 ≢ none → drain (suc rounds) t ≡ drain rounds t)
        → (let r : Stepped = elim o [ none ↦ drain (suc rounds) q | some s ↦ (some s, q) ] in
            let r' : Stepped = elim o [ none ↦ drain rounds q | some s ↦ (some s, q) ] in r ≡ r')
    more none q k ih = ih q k
    more (some s) q k ih = refl

-- The machine with a bit stored.
abbrev pub stored : BleDecoder → ℕ → BleDecoder
stored p bit = record p {
  cand = set_bit p.cand p.cand_bits (if bit == 0 then 0 else 1);
  cand_bits = p.cand_bits + 1;
}

-- A bit behind the header leaves the header.
same_header :
    (p : BleDecoder) (bit : ℕ) → 56 ≤ p.cand_bits → cand_header (stored p bit) ≡ cand_header p
unfolding cand_header set_bit
same_header p bit h =
    let i = p.cand_bits / 8 in
    let five : i ≢ 5 = λ e. omega (arith, e) in
    let six : i ≢ 6 = λ e. omega (arith, e) in
    ap₂ (λ a b. dewhiten (a ∷ b ∷ []) 2 p.channel_index) (get_or-set_ne p.cand i 5 _ 0 five)
      (get_or-set_ne p.cand i 6 _ 0 six)

stored-Announced : (p : BleDecoder) (bit : ℕ) → Announced p → Announced (stored p bit)
stored-Announced p bit a =
    let e = same_header p bit a.past_header in
    record {
      past_header = omega (arith, a.past_header);
      target_is = a.target_is ∙ ap (λ hd. (payload_length_from_header hd + 5) * 8) (sym e);
      header_fits = λ d. ap data_header_plausible e ∙ a.header_fits d;
    }

stored-Busy : (s : DecState) (p : BleDecoder) (bit : ℕ) → Idle s p → Busy s (stored p bit)
stored-Busy search p bit i = (omega (arith, i.0), i.1)
stored-Busy collect_aa p bit i = (omega (arith, i.0), i.1)
stored-Busy collect_pdu p bit i = (
  record {
    low = omega (arith, i.0.low);
    edge = i.0.edge;
    typed = i.0.typed;
    announced = λ d. stored-Announced p bit (i.0.announced d);
  },
  omega (arith, i.1),
)

stored-IsBusy :
    (ch : ℕ) (p : BleDecoder) (bit : ℕ) → BleDecoderIsValid ch p → IsBusy ch (stored p bit)
stored-IsBusy ch p bit v = record {
  keeps = record {
    channel_is = v.keeps.channel_is;
    cand_size = length-set_bit p.cand p.cand_bits (if bit == 0 then 0 else 1) ∙ v.keeps.cand_size;
    raw_size = v.keeps.raw_size;
    queue_bound = v.keeps.queue_bound;
    all_sound = v.keeps.all_sound;
  };
  busy = stored-Busy p.state p bit v.idle;
}

stored-Ended :
    (ch : ℕ) (p : BleDecoder) (bit : ℕ)
    → BleDecoderIsValid ch p
    → Ended ch (drain (rounds_for (stored p bit)) (stored p bit))
unfolding rounds_for
stored-Ended ch p bit v =
    drain-Ended ch (4 * (p.cand_bits + 1) + 3) (stored p bit) (stored-IsBusy ch p bit v)
      (omega (arith, phase-le p.state))
  where
    phase-le : (s : DecState) → phase s ≤ 2
    phase-le search = omega arith
    phase-le collect_aa = omega arith
    phase-le collect_pdu = omega arith

Idle-bound : (s : DecState) (p : BleDecoder) → Idle s p → p.cand_bits < 2128
Idle-bound search p i = omega (arith, i.0)
Idle-bound collect_aa p i = omega (arith, i.0)
Idle-bound collect_pdu p i = i.1

-- The drain loop ends: after any bit that a valid machine is fed, the rounds that the model allows
-- suffice, the loop returns a status, and any further number of rounds gives the same.
pub drain_ends :
    (ch : ℕ) (p : BleDecoder) (bit extra : ℕ)
    → BleDecoderIsValid ch p
    → ((drain (rounds_for (stored p bit)) (stored p bit)).0 ≢ none)
      × (drain (extra + rounds_for (stored p bit)) (stored p bit)
          ≡ drain (rounds_for (stored p bit)) (stored p bit))
drain_ends ch p bit extra v = (ends, same extra)
  where
    n : ℕ
    n = rounds_for (stored p bit)

    ends : (drain n (stored p bit)).0 ≢ none
    ends = let (s, e, ok, valid) = stored-Ended ch p bit v in λ k. cc (e, k)

    same : (k : ℕ) → drain (k + n) (stored p bit) ≡ drain n (stored p bit)
    same zero = let e : 0 + n ≡ n = omega arith in ap (λ m. drain m (stored p bit)) e
    same (suc k) =
        let e : suc k + n ≡ suc (k + n) = omega arith in
        ap (λ m. drain m (stored p bit)) e
        ∙ drain_more (k + n) (stored p bit) (subst (λ r. r.0 ≢ none) (sym (same k)) ends)
        ∙ same k

pushed-ne-error :
    (s : BleStatus) (q : BleDecoder) → s ≢ ble_error → (pushed (some s, q)).0 ≢ ble_error
pushed-ne-error s q h = elim (Bool-cases (ltb 0 (length q.pending))) [
  | inl ready ↦ rw ready (λ e. cc)
  | inr none_ready ↦ rw none_ready h
]

-- A machine stays valid whatever bit it is fed, and reports no error: the buffer never fills, at most
-- eight frames are queued, and every frame in the queue is sound. It is as long as its dewhitened
-- header says, its preamble ends in an edge to its address, and it is an advertising frame with the
-- advertising address, or a data frame with another one, of which address and header keep the rules.
pub push_bit-BleDecoderIsValid :
    (ch : ℕ) (p : BleDecoder) (bit : ℕ)
    → BleDecoderIsValid ch p
    → ((push_bit p bit).0 ≢ ble_error) × BleDecoderIsValid ch (push_bit p bit).1
unfolding push_bit
push_bit-BleDecoderIsValid ch p bit v =
    let room : leb 2128 p.cand_bits ≡ false = ground (arith, Idle-bound p.state p v.idle) in
    let (s, e, ok, valid) = stored-Ended ch p bit v in
    rw room (
      subst (λ o. (pushed (o, (drain (rounds_for (stored p bit)) (stored p bit)).1)).0 ≢ ble_error)
          (sym e) (pushed-ne-error s (drain (rounds_for (stored p bit)) (stored p bit)).1 ok),
      valid,
    )

pub decoder_init-BleDecoderIsValid : (ch : ℕ) → BleDecoderIsValid ch (decoder_init ch)
unfolding decoder_init no_cand no_raw
decoder_init-BleDecoderIsValid ch = record {
  keeps = record {
    channel_is = refl;
    cand_size = length-replicate {A = ℕ} 272 0;
    raw_size = length-replicate {A = ℕ} 261 0;
    queue_bound = omega arith;
    all_sound = tt;
  };
  idle = (omega arith, refl);
}

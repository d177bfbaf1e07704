-- ===== src/Bredr/Bitstream/Safety.antt =====
-- What every state of the machine keeps, whatever bits it is fed.
use supertooth.Base.{
  ℕ, ◌+◌, ◌^◌, ◌<◌, ◌≤◌, ◌≡◌, ◌≢◌, inl, inr, refl, sym, ◌∙◌, arith, bit_xor, ◌>>>◌, Bool, true,
  false, ◌||◌, not, Bool-cases, subst, ◌<<<◌, bit_and, bit_or, length, ltb, ◌==◌, if◌then◌else◌,
  u32, u64, length-replicate,
}
use supertooth.Bredr.Packed.{set_packed_bit}
use supertooth.Bredr.Packed.Laws.{length-set_packed_bit}
use supertooth.Bredr.SyncWord.{gen_syncword}
use supertooth.Bredr.Bitstream.{
  popcount64, barker_ok, BredrDecoder, BredrState, BredrStatus, state_searching,
  state_draining_trailer, state_collecting, bredr_error, bredr_searching, bredr_collecting,
  no_payload, reset_collection, push_header_bit, push_air_payload_bit, push_collecting, after_store,
  check_complete, complete_frame, push_trailer, check_trailer, push_searching, check_window,
  access_code_matched, push_state, push_bit, decoder_init,
}

-- The counters of a machine that collects: it is in the header, or in the payload.
pub data Counts (d : BredrDecoder) : Type 0 where
  in_header :
      d.header_decoded ≡ 0 → d.bits_collected < 54 → d.collected_air_payload_bits ≡ 0 → Counts d
  in_payload :
      d.header_decoded ≡ 1
      → d.bits_to_collect ≡ 3053
      → d.bits_collected ≡ 54 + d.collected_air_payload_bits
      → d.bits_collected < 3053
      → Counts d

-- What a state promises.
abbrev pub StateIsValid : BredrState → BredrDecoder → Type 0
StateIsValid state_searching d = Unit {0}
StateIsValid state_draining_trailer d = (0 < d.drain_count) × (d.drain_count ≤ 4)
StateIsValid state_collecting d = Counts d

pub record DecoderIsValid (d : BredrDecoder) : Type 0 where
  pub state_valid : StateIsValid d.state d
  pub air_size : length d.collected_air_payload ≡ 375
  pub seen_bound : d.bits_seen ≤ 64
  pub total_bound : d.total_bits_seen < 2 ^ 64

-- A status other than the error, and a machine that is valid.
abbrev Sound : BredrStatus × BredrDecoder → Type 0
Sound r = (r.0 ≢ bredr_error) × DecoderIsValid r.1

size_clear : length no_payload ≡ 375
unfolding no_payload
size_clear = length-replicate {A = ℕ} 375 0

pub decoder_init-DecoderIsValid : DecoderIsValid decoder_init
unfolding decoder_init
decoder_init-DecoderIsValid = record {
  state_valid = tt;
  air_size = size_clear;
  seen_bound = omega arith;
  total_bound = omega arith;
}

reset-DecoderIsValid :
    (d : BredrDecoder)
    → d.bits_seen ≤ 64
    → d.total_bits_seen < 2 ^ 64
    → DecoderIsValid (reset_collection d)
unfolding reset_collection
reset-DecoderIsValid d s t = record {
  state_valid = tt;
  air_size = size_clear;
  seen_bound = s;
  total_bound = t;
}

-- A machine whose state is known.
in_state :
    (s : BredrState) (d : BredrDecoder)
    → d.state ≡ s
    → StateIsValid s d
    → length d.collected_air_payload ≡ 375
    → d.bits_seen ≤ 64
    → d.total_bits_seen < 2 ^ 64
    → DecoderIsValid d
in_state s d e h a b t = record {
  state_valid = subst (λ st. StateIsValid st d) (sym e) h;
  air_size = a;
  seen_bound = b;
  total_bound = t;
}

if-Sound :
    (t : Bool) (x y : BredrStatus × BredrDecoder)
    → (t ≡ true → Sound x)
    → (t ≡ false → Sound y)
    → Sound (if t then x else y)
if-Sound true x y p q = p refl
if-Sound false x y p q = q refl

-- The counter of all bits is no part of what a state promises.
counted-StateIsValid :
    (s : BredrState) (d : BredrDecoder) (n : ℕ)
    → StateIsValid s d
    → StateIsValid s (record d { total_bits_seen = n })
counted-StateIsValid state_searching d n h = tt
counted-StateIsValid state_draining_trailer d n h = h
counted-StateIsValid state_collecting d n (in_header h k z) = in_header h k z
counted-StateIsValid state_collecting d n (in_payload h t k l) = in_payload h t k l

matched-Sound :
    (d : BredrDecoder) (lap ac : ℕ)
    → d.state ≡ state_searching
    → DecoderIsValid d
    → Sound (access_code_matched d lap ac)
unfolding access_code_matched
matched-Sound d lap ac e v =
    if-Sound (lap == 0x9e8b33 || lap == 0x9e8b00) _ _
      (λ _. (λ h. cc, in_state state_searching _ e tt v.air_size v.seen_bound v.total_bound))
      (λ _. (
        λ h. cc,
        in_state state_draining_trailer _ refl (omega arith, omega arith) v.air_size v.seen_bound
            v.total_bound,
      ))

check_window-Sound :
    (m : ℕ) (d : BredrDecoder)
    → d.state ≡ state_searching
    → DecoderIsValid d
    → Sound (check_window m d)
unfolding check_window
check_window-Sound m d e v =
    let lap = u32 (bit_and (d.sw_window >>> 34) 0xffffff) in
    let errors = popcount64 (bit_xor d.sw_window (gen_syncword lap)) in
    let stays : Sound (bredr_searching, d) = (λ h. cc, v) in
    if-Sound (ltb d.bits_seen 64) _ _ (λ _. stays)
      (λ _.
        if-Sound (not (barker_ok d.sw_window)) _ _ (λ _. stays)
          (λ _. if-Sound (ltb m errors) _ _ (λ _. stays) (λ _. matched-Sound d lap errors e v)))

check_trailer-Sound :
    (d : BredrDecoder)
    → d.state ≡ state_draining_trailer
    → d.drain_count < 4
    → length d.collected_air_payload ≡ 375
    → d.bits_seen ≤ 64
    → d.total_bits_seen < 2 ^ 64
    → Sound (check_trailer d)
unfolding check_trailer
check_trailer-Sound d e c a s t =
    let expected : ℕ = if d.detected_sw_last == 0 then 0x5 else 0xa in
    if-Sound (ltb 0 d.drain_count) _ _
      (λ waits. (λ h. cc, in_state state_draining_trailer d e (ground arith, omega arith) a s t))
      (λ _.
        if-Sound (not (bit_and d.trailer_bits 0xf == expected)) _ _
          (λ _. (λ h. cc, reset-DecoderIsValid _ s t))
          (λ _. (
            λ h. cc,
            in_state state_collecting _ refl (in_header refl (omega arith) refl) size_clear s t,
          )))

-- What a stored bit leaves: the counters of a machine that collects, or full ones.
data Stored (d : BredrDecoder) : Type 0 where
  counting : Counts d → Stored d
  header_full :
      d.header_decoded ≡ 0 → d.bits_collected ≡ 54 → d.collected_air_payload_bits ≡ 0 → Stored d
  all_full : d.header_decoded ≡ 1 → d.bits_to_collect ≡ 3053 → d.bits_collected ≡ 3053 → Stored d

check_complete-Sound :
    (d : BredrDecoder)
    → d.state ≡ state_collecting
    → Stored d
    → length d.collected_air_payload ≡ 375
    → d.bits_seen ≤ 64
    → d.total_bits_seen < 2 ^ 64
    → Sound (check_complete d)
unfolding check_complete complete_frame
check_complete-Sound d e (counting (in_header h k z)) a s t =
    let q : check_complete d ≡ (bredr_collecting, d) = ground arith in
    subst Sound (sym q) (λ h. cc, in_state state_collecting d e (in_header h k z) a s t)
check_complete-Sound d e (counting (in_payload h b k l)) a s t =
    let q : check_complete d ≡ (bredr_collecting, d) = ground arith in
    subst Sound (sym q) (λ h. cc, in_state state_collecting d e (in_payload h b k l) a s t)
check_complete-Sound d e (header_full h k z) a s t =
    let q : check_complete d
        ≡ (bredr_collecting, record d { bits_to_collect = 3053; header_decoded = 1 }) =
      ground arith in
    subst Sound (sym q) (
      λ h. cc,
      in_state state_collecting (record d { bits_to_collect = 3053; header_decoded = 1 }) e
          (in_payload refl refl (omega arith) (omega arith)) a s t,
    )
check_complete-Sound d e (all_full h b k) a s t =
    let q : check_complete d ≡ complete_frame d = ground arith in
    subst Sound (sym q) (λ h. cc, reset-DecoderIsValid _ s t)

after-Sound :
    (d : BredrDecoder) (b : ℕ)
    → d.state ≡ state_collecting
    → DecoderIsValid d
    → Counts d
    → Sound (push_collecting d b)
unfolding push_collecting after_store push_header_bit push_air_payload_bit
after-Sound d b e v (in_header h k z) =
    let next : BredrDecoder = record d {
      collected_header_raw =
          if bit_and b 1 == 0
          then d.collected_header_raw
          else bit_or d.collected_header_raw (u64 (1 <<< d.bits_collected));
      bits_collected = d.bits_collected + 1;
    } in
    let q : push_collecting d b ≡ check_complete next = ground arith in
    let stored : Stored next = elim (Bool-cases (ltb d.bits_collected 53)) [
      | inl low ↦ counting (in_header h (ground arith) z)
      | inr full ↦ header_full h (ground arith) z
    ] in
    subst Sound (sym q) (check_complete-Sound next e stored v.air_size v.seen_bound v.total_bound)
after-Sound d b e v (in_payload h t k l) =
    let next : BredrDecoder = record d {
      collected_air_payload = set_packed_bit d.collected_air_payload d.collected_air_payload_bits b;
      collected_air_payload_bits = d.collected_air_payload_bits + 1;
      bits_collected = d.bits_collected + 1;
    } in
    let q : push_collecting d b ≡ check_complete next = ground arith in
    let stored : Stored next = elim (Bool-cases (ltb d.bits_collected 3052)) [
      | inl low ↦ counting (in_payload h t (omega arith) (ground arith))
      | inr full ↦ all_full h t (ground arith)
    ] in
    subst Sound (sym q) (
      check_complete-Sound next e stored
        (length-set_packed_bit d.collected_air_payload d.collected_air_payload_bits b ∙ v.air_size)
        v.seen_bound v.total_bound)

state-Sound :
    (m : ℕ) (s : BredrState) (d : BredrDecoder) (b : ℕ)
    → d.state ≡ s
    → DecoderIsValid d
    → Sound (push_state s m d b)
unfolding push_state push_searching push_trailer
state-Sound m state_searching d b e v =
    check_window-Sound m _ e
      (in_state state_searching _ e tt v.air_size (ground (arith, v.seen_bound)) v.total_bound)
state-Sound m state_draining_trailer d b e v =
    let (low, high) = subst (λ st. StateIsValid st d) e v.state_valid in
    check_trailer-Sound _ e (omega arith) v.air_size v.seen_bound v.total_bound
state-Sound m state_collecting d b e v =
    after-Sound d b e v (subst (λ st. StateIsValid st d) e v.state_valid)

-- A machine stays valid whatever bit it is fed, and never reports an error: the counters stay in
-- their ranges, the trailer is counted down, and the buffer is as long as it was.
pub push_bit-DecoderIsValid :
    (m : ℕ) (d : BredrDecoder) (b : ℕ)
    → DecoderIsValid d
    → ((push_bit m d b).0 ≢ bredr_error) × DecoderIsValid (push_bit m d b).1
unfolding push_bit
push_bit-DecoderIsValid m d b v =
    state-Sound m d.state (record d { total_bits_seen = u64 (d.total_bits_seen + 1) })
      (if b == 0 then 0 else 1) refl
      (in_state d.state _ refl (counted-StateIsValid d.state d _ v.state_valid) v.air_size
        v.seen_bound (omega arith))

-- ===== src/Bredr/Bitstream/Store.antt =====
-- Storing the bits behind an access code: one push in each phase, and runs of pushes.
use native.Mathlib.Nat.{pow-le-pow_right}
use supertooth.Base.{
  ℕ, zero, suc, ◌+◌, ◌*◌, ◌/◌, ◌%◌, ◌^◌, ◌<◌, ◌≤◌, ◌≡◌, refl, ap, ◌∙◌, arith, bit_and, bit_or,
  Bytes, length, at, replicate, ltb, ◌==◌, if◌then◌else◌, u64, ◌<<<◌, length-replicate,
}
use supertooth.Base.Bits.{bit-zero, bit, bit-bit_or}
use supertooth.Base.Masks.{bit-pow}
use supertooth.Bredr.Packed.{get_packed_bit, set_packed_bit}
use supertooth.Bredr.Packed.Laws.{get_packed_bit_lem, get_packed_bit-set_packed_bit}
use supertooth.Bredr.Bitstream.{
  BredrDecoder, bredr_collecting, state_collecting, no_payload, push_header_bit,
  push_air_payload_bit, push_collecting, after_store, check_complete, complete_frame, push_state,
  push_bit,
}

-- Storing a header bit before the last one.
pub header_step :
    (d : BredrDecoder) (b : ℕ)
    → d.header_decoded ≡ 0
    → d.bits_collected < 53
    → push_collecting d b ≡ (
      bredr_collecting,
      record d {
        collected_header_raw =
            if bit_and b 1 == 0
            then d.collected_header_raw
            else bit_or d.collected_header_raw (u64 (1 <<< d.bits_collected));
        bits_collected = d.bits_collected + 1;
      },
    )
unfolding push_collecting after_store push_header_bit check_complete
header_step d b h k = ground arith

pub header_last :
    (d : BredrDecoder) (b : ℕ)
    → d.header_decoded ≡ 0
    → d.bits_collected ≡ 53
    → push_collecting d b ≡ (
      bredr_collecting,
      record d {
        collected_header_raw =
            if bit_and b 1 == 0
            then d.collected_header_raw
            else bit_or d.collected_header_raw (u64 (1 <<< d.bits_collected));
        bits_collected = d.bits_collected + 1;
        bits_to_collect = 3053;
        header_decoded = 1;
      },
    )
unfolding push_collecting after_store push_header_bit check_complete
header_last d b h k = ground arith

pub payload_step :
    (d : BredrDecoder) (b k : ℕ)
    → d.header_decoded ≡ 1
    → d.bits_to_collect ≡ 3053
    → d.collected_air_payload_bits ≡ k
    → d.bits_collected ≡ 54 + k
    → k < 2998
    → push_collecting d b ≡ (
      bredr_collecting,
      record d {
        collected_air_payload = set_packed_bit d.collected_air_payload k b;
        collected_air_payload_bits = k + 1;
        bits_collected = 54 + k + 1;
      },
    )
unfolding push_collecting after_store push_air_payload_bit check_complete
payload_step d b k h t a c s = ground arith

pub payload_last :
    (d : BredrDecoder) (b : ℕ)
    → d.header_decoded ≡ 1
    → d.bits_to_collect ≡ 3053
    → d.collected_air_payload_bits ≡ 2998
    → d.bits_collected ≡ 3052
    → push_collecting d b
      ≡ complete_frame (record d {
        collected_air_payload = set_packed_bit d.collected_air_payload 2998 b;
        collected_air_payload_bits = 2999;
        bits_collected = 3053;
      })
unfolding push_collecting after_store push_air_payload_bit check_complete
payload_last d b h t a c = ground arith

-- A machine that collects pushes the bit, with the counter of all bits advanced.
pub push_bit-collecting :
    (m : ℕ) (d : BredrDecoder) (b : ℕ)
    → d.state ≡ state_collecting
    → b < 2
    → push_bit m d b
      ≡ push_collecting (record d { total_bits_seen = u64 (d.total_bits_seen + 1) }) b
unfolding push_bit push_state
push_bit-collecting m d b e h =
    let one : (if b == 0 then 0 else 1) ≡ b = ground arith in
    ap
      (λ s.
        push_state s m (record d { total_bits_seen = u64 (d.total_bits_seen + 1) })
          (if b == 0 then 0 else 1))
      e
    ∙ ap (push_collecting (record d { total_bits_seen = u64 (d.total_bits_seen + 1) })) one

-- What the machine holds of the access code while it collects.
pub record Target (lap ac_errors start : ℕ) (d : BredrDecoder) : Type 0 where
  pub state_is : d.state ≡ state_collecting
  pub lap_is : d.detected_lap ≡ lap
  pub errors_are : d.detected_ac_errors ≡ ac_errors
  pub start_is : d.detected_packet_start_bit ≡ start

-- The bits of `f` below `k`, and no others.
abbrev pub Prefix : (ℕ → ℕ) → ℕ → (ℕ → ℕ) → Type 0
Prefix f k g = (j : ℕ) → g j ≡ (if ltb j k then f j else 0)

-- After `k` bits of the header.
pub record HeaderAt (f : ℕ → ℕ) (k : ℕ) (d : BredrDecoder) : Type 0 where
  pub undecoded : d.header_decoded ≡ 0
  pub count_is : d.bits_collected ≡ k
  pub air_count_is : d.collected_air_payload_bits ≡ 0
  pub air_clear : d.collected_air_payload ≡ no_payload
  pub raw_is : Prefix f k (bit d.collected_header_raw)

-- After the header and `k` bits of the payload.
pub record PayloadAt (f : ℕ → ℕ) (k : ℕ) (d : BredrDecoder) : Type 0 where
  pub decoded : d.header_decoded ≡ 1
  pub target_is : d.bits_to_collect ≡ 3053
  pub count_is : d.bits_collected ≡ 54 + k
  pub air_count_is : d.collected_air_payload_bits ≡ k
  pub air_size : length d.collected_air_payload ≡ 375
  pub raw_is : Prefix f 54 (bit d.collected_header_raw)
  pub air_is : Prefix (λ j. f (54 + j)) k (get_packed_bit d.collected_air_payload)

pub word_fits : (k : ℕ) → k < 64 → u64 (1 <<< k) ≡ 2 ^ k
word_fits k h =
    let below : 2 ^ k ≤ 2 ^ 63 =
      pow-le-pow_right {n = 2} (omega arith) {i = k} {j = 63} (omega arith) in
    omega arith

-- One more bit of a word, at a place where it had none.
pub or_bit :
    (f : ℕ → ℕ) (k raw b : ℕ)
    → k < 64
    → b ≡ f k
    → b < 2
    → Prefix f k (bit raw)
    → Prefix f (k + 1) (bit (if bit_and b 1 == 0 then raw else bit_or raw (u64 (1 <<< k))))
or_bit f k raw zero h e small p j = ground (arith, p j)
or_bit f k raw (suc zero) h e small p j =
    ap (λ t. bit (bit_or raw t) j) (word_fits k h)
    ∙ ground (arith, p j, bit-bit_or raw (2 ^ k) j, bit-pow k j)
or_bit f k raw (suc (suc b)) h e small p j = absurd (omega arith)

pub set_bit :
    (f : ℕ → ℕ) (k : ℕ) (bytes : Bytes) (b : ℕ)
    → k < 8 * length bytes
    → b ≡ f k
    → b < 2
    → Prefix f k (get_packed_bit bytes)
    → Prefix f (k + 1) (get_packed_bit (set_packed_bit bytes k b))
set_bit f k bytes b h e small p j = ground (arith, get_packed_bit-set_packed_bit bytes k b j h, p j)

-- The machine after `left` bits of `f` from bit `i` on.
abbrev pub push_all : ℕ → ℕ → ℕ → (ℕ → ℕ) → BredrDecoder → BredrDecoder
push_all m zero i f d = d
push_all m (suc left) i f d = push_all m left (i + 1) f (push_bit m d (f i)).1

pub push_all-add :
    (a b i m : ℕ) (f : ℕ → ℕ) (d : BredrDecoder)
    → push_all m (a + b) i f d ≡ push_all m b (i + a) f (push_all m a i f d)
push_all-add zero b i m f d =
    let e : 0 + b ≡ b = omega arith in
    let e' : i ≡ i + 0 = omega arith in
    ap (λ n. push_all m n i f d) e ∙ ap (λ j. push_all m b j f d) e'
push_all-add (suc a) b i m f d =
    let e : suc a + b ≡ suc (a + b) = omega arith in
    let e' : i + 1 + a ≡ i + suc a = omega arith in
    ap (λ n. push_all m n i f d) e
    ∙ push_all-add a b (i + 1) m f (push_bit m d (f i)).1
    ∙ ap (λ j. push_all m b j f (push_all m a (i + 1) f (push_bit m d (f i)).1)) e'

pub length-no_payload : length no_payload ≡ 375
unfolding no_payload
length-no_payload = length-replicate {A = ℕ} 375 0

pub at-replicate : (n i : ℕ) → at (replicate n 0) i ≡ 0
at-replicate zero i = refl
at-replicate (suc n) zero = refl
at-replicate (suc n) (suc i) = at-replicate n i

pub no_bits : (j : ℕ) → get_packed_bit no_payload j ≡ 0
unfolding no_payload
no_bits j =
    get_packed_bit_lem (replicate 375 0) j
    ∙ ap (λ t. bit t (j % 8)) (at-replicate 375 (j / 8))
    ∙ bit-zero (j % 8)

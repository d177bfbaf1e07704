-- ===== src/Bredr/Bitstream/Collect.antt =====
-- The bits behind an access code, collected one by one.
use supertooth.Base.{ℕ, zero, suc, ◌+◌, ◌<◌, ◌≡◌, refl, sym, ap, ◌∙◌, arith, length, subst, u64}
use supertooth.Base.Bits.{bit-zero, bit}
use supertooth.Bredr.Packed.{get_packed_bit}
use supertooth.Bredr.Packed.Laws.{length-set_packed_bit}
use supertooth.Bredr.Types.{BredrFrame}
use supertooth.Bredr.Bitstream.{
  reset_collection, state_searching, BredrDecoder, bredr_valid_packet, no_payload, complete_frame,
  push_bit,
}
use supertooth.Bredr.Bitstream.Store.{
  header_step, header_last, payload_step, payload_last, push_bit-collecting, Target, Prefix,
  HeaderAt, PayloadAt, or_bit, set_bit, push_all, push_all-add, length-no_payload, no_bits,
}

-- One step of the collection, from the state that a push leaves.
module _ (f : ℕ → ℕ) (binary : (j : ℕ) → f j < 2) (m lap ac start : ℕ) where
  -- The machine with its counter of all bits advanced.
  counted : BredrDecoder → BredrDecoder
  counted d = record d { total_bits_seen = u64 (d.total_bits_seen + 1) }

  HeaderAt-step :
      (k : ℕ) (d : BredrDecoder)
      → k < 53
      → Target lap ac start d
      → HeaderAt f k d
      → Target lap ac start (push_bit m d (f k)).1 × HeaderAt f (k + 1) (push_bit m d (f k)).1
  unfolding counted
  HeaderAt-step k d h t a =
      let e =
        push_bit-collecting m d (f k) t.state_is (binary k)
        ∙ header_step (counted d) (f k) a.undecoded (omega (arith, a.count_is)) in
      let raw = or_bit f k d.collected_header_raw (f k) (omega arith) refl (binary k) a.raw_is in
      subst (λ r. Target lap ac start r.1 × HeaderAt f (k + 1) r.1) (sym e)
        (
          record {
            state_is = t.state_is;
            lap_is = t.lap_is;
            errors_are = t.errors_are;
            start_is = t.start_is;
          },
          record {
            undecoded = a.undecoded;
            count_is = omega (arith, a.count_is);
            air_count_is = a.air_count_is;
            air_clear = a.air_clear;
            raw_is = rw a.count_is raw;
          },
        )

  HeaderAt-last :
      (d : BredrDecoder)
      → Target lap ac start d
      → HeaderAt f 53 d
      → Target lap ac start (push_bit m d (f 53)).1 × PayloadAt f 0 (push_bit m d (f 53)).1
  unfolding counted
  HeaderAt-last d t a =
      let e =
        push_bit-collecting m d (f 53) t.state_is (binary 53)
        ∙ header_last (counted d) (f 53) a.undecoded (omega (arith, a.count_is)) in
      let raw = or_bit f 53 d.collected_header_raw (f 53) (omega arith) refl (binary 53) a.raw_is in
      subst (λ r. Target lap ac start r.1 × PayloadAt f 0 r.1) (sym e)
        (
          record {
            state_is = t.state_is;
            lap_is = t.lap_is;
            errors_are = t.errors_are;
            start_is = t.start_is;
          },
          record {
            decoded = refl;
            target_is = refl;
            count_is = omega (arith, a.count_is);
            air_count_is = a.air_count_is;
            air_size = ap length a.air_clear ∙ length-no_payload;
            raw_is = rw a.count_is raw;
            air_is = λ j. ap (λ t. get_packed_bit t j) a.air_clear ∙ no_bits j ∙ ground arith;
          },
        )

  PayloadAt-step :
      (k : ℕ) (d : BredrDecoder)
      → k < 2998
      → Target lap ac start d
      → PayloadAt f k d
      → let r = (push_bit m d (f (54 + k))).1 in Target lap ac start r × PayloadAt f (k + 1) r
  unfolding counted
  PayloadAt-step k d h t a =
      let b = f (54 + k) in
      let e =
        push_bit-collecting m d b t.state_is (binary (54 + k))
        ∙ payload_step (counted d) b k a.decoded a.target_is a.air_count_is a.count_is h in
      subst (λ r. Target lap ac start r.1 × PayloadAt f (k + 1) r.1) (sym e)
        (
          record {
            state_is = t.state_is;
            lap_is = t.lap_is;
            errors_are = t.errors_are;
            start_is = t.start_is;
          },
          record {
            decoded = a.decoded;
            target_is = a.target_is;
            count_is = omega arith;
            air_count_is = refl;
            air_size = length-set_packed_bit d.collected_air_payload k b ∙ a.air_size;
            raw_is = a.raw_is;
            air_is =
                set_bit (λ j. f (54 + j)) k d.collected_air_payload b (omega (arith, a.air_size))
                  refl (binary (54 + k)) a.air_is;
          },
        )

  header_bits :
      (left k : ℕ) (d : BredrDecoder)
      → k + left ≡ 53
      → Target lap ac start d
      → HeaderAt f k d
      → let r = push_all m left k f d in Target lap ac start r × HeaderAt f 53 r
  header_bits zero k d e t a = (t, let e' : k ≡ 53 = omega arith in rw e' at a)
  header_bits (suc left) k d e t a =
      let (t', a') = HeaderAt-step k d (omega arith) t a in
      header_bits left (k + 1) (push_bit m d (f k)).1 (omega arith) t' a'

  payload_bits :
      (left k : ℕ) (d : BredrDecoder)
      → k + left ≡ 2998
      → Target lap ac start d
      → PayloadAt f k d
      → let r = push_all m left (54 + k) f d in Target lap ac start r × PayloadAt f 2998 r
  payload_bits zero k d e t a = (t, let e' : k ≡ 2998 = omega arith in rw e' at a)
  payload_bits (suc left) k d e t a =
      let (t', a') = PayloadAt-step k d (omega arith) t a in
      let next : 54 + (k + 1) ≡ 54 + k + 1 = omega arith in
      rw next at (payload_bits left (k + 1) (push_bit m d (f (54 + k))).1 (omega arith) t' a')

  -- The machine is ready for the first header bit.
  unfoldable pub Started : BredrDecoder → Type 0
  Started d =
      Target lap ac start d
      × (d.header_decoded ≡ 0)
      × (d.bits_collected ≡ 0)
      × (d.collected_air_payload_bits ≡ 0)
      × (d.collected_air_payload ≡ no_payload)
      × (d.collected_header_raw ≡ 0)

  -- The frame of the bits.
  pub record FrameOf (frame : BredrFrame) : Type 0 where
    pub lap_is : frame.lap ≡ lap
    pub errors_are : frame.ac_errors ≡ ac
    pub start_is : frame.start_bit_index ≡ start
    pub has_header_is : frame.has_header ≡ 1
    pub header_is : Prefix f 54 (bit frame.header_raw)
    pub air_bits_are : frame.air_payload_bits ≡ 2999
    pub air_is : Prefix (λ j. f (54 + j)) 2999 (get_packed_bit frame.air_payload)

  last_bit :
      (d : BredrDecoder)
      → Target lap ac start d
      → PayloadAt f 2998 d
      → let r = push_bit m d (f 3052) in
        (r.0 ≡ bredr_valid_packet)
        × (r.1.state ≡ state_searching)
        × (r.1.packet_ready ≡ 1)
        × FrameOf r.1.last_frame
  unfolding counted complete_frame reset_collection
  last_bit d t a =
      let b = f 3052 in
      let e =
        push_bit-collecting m d b t.state_is (binary 3052)
        ∙ payload_last (counted d) b a.decoded a.target_is a.air_count_is a.count_is in
      subst
        (λ r.
          (r.0 ≡ bredr_valid_packet)
          × (r.1.state ≡ state_searching)
          × (r.1.packet_ready ≡ 1)
          × FrameOf r.1.last_frame)
        (sym e)
        (
          refl,
          refl,
          refl,
          record {
            lap_is = t.lap_is;
            errors_are = t.errors_are;
            start_is = t.start_is;
            has_header_is = refl;
            header_is = a.raw_is;
            air_bits_are = refl;
            air_is =
                set_bit (λ j. f (54 + j)) 2998 d.collected_air_payload b (omega (arith, a.air_size))
                  refl (binary 3052) a.air_is;
          },
        )

  -- After 3,052 more bits the machine still collects, and the next bit completes the frame.
  pub push_all-FrameOf :
      (d : BredrDecoder)
      → Started d
      → let r = push_bit m (push_all m 3052 0 f d) (f 3052) in
        (r.0 ≡ bredr_valid_packet)
        × (r.1.state ≡ state_searching)
        × (r.1.packet_ready ≡ 1)
        × FrameOf r.1.last_frame
  unfolding Started
  push_all-FrameOf d (t, undecoded, count, air_count, air, raw) =
      let none_yet : HeaderAt f 0 d = record {
        undecoded = undecoded;
        count_is = count;
        air_count_is = air_count;
        air_clear = air;
        raw_is = λ j. ap (λ w. bit w j) raw ∙ bit-zero j ∙ ground arith;
      } in
      let (t1, a1) = header_bits 53 0 d (omega arith) t none_yet in
      let (t2, a2) = HeaderAt-last (push_all m 53 0 f d) t1 a1 in
      let after_header = (push_bit m (push_all m 53 0 f d) (f 53)).1 in
      let (t3, a3) = payload_bits 2998 0 after_header (omega arith) t2 a2 in
      let joined : push_all m 3052 0 f d ≡ push_all m 2998 54 f after_header =
        push_all-add 53 2999 0 m f d in
      let done = last_bit (push_all m 2998 54 f after_header) t3 a3 in rw joined done

-- ===== src/Ble/Bitstream/Sound.antt =====
-- What every frame promises that the Bluetooth LE framing emits, and what the machine keeps.
use supertooth.Base.{
  ℕ, zero, suc, ◌+◌, ◌*◌, ◌/◌, ◌<◌, ◌≤◌, ◌≡◌, ◌≢◌, inl, inr, refl, sym, ap, ap₂, subst, ◌∙◌, arith,
  true, List, [], ◌∷◌, ◌++◌, Bytes, at, drop, memcpy, length, length-append, length-replicate,
  length-memcpy, length-drop, ltb, Bool-cases, ltb→lt, u16,
}
use supertooth.Ble.Whiten.{dewhiten}
use supertooth.Ble.Frame.{Frame, FrameKind, adv_frame, data_frame, payload_length_from_header}
use supertooth.Ble.Frame.Bounds.{payload_length_bound}
use supertooth.Ble.Bitstream.{
  DecState, search, collect_aa, collect_pdu, BleDecoder, advertising_aa, phy_le_1m, no_raw,
  preamble_matches_aa, data_aa_plausible, data_header_plausible, emit, complete_frame,
}
use supertooth.Ble.Bitstream.Drain.{cand_header}

-- The dewhitened header of a stored frame.
abbrev pub frame_header : ℕ → Frame → Bytes
frame_header ch f = dewhiten (at f.raw_pdu 0 ∷ at f.raw_pdu 1 ∷ []) 2 ch

-- An advertising frame has the advertising address. A data frame has another one, which the rules
-- allow, and a header that they allow.
abbrev pub KindFits : FrameKind → ℕ → Bytes → Type 0
KindFits adv_frame aa header = aa ≡ advertising_aa
KindFits data_frame aa header =
    (aa ≢ advertising_aa) × (data_aa_plausible aa ≡ true) × (data_header_plausible header ≡ true)

pub record FrameIsSound (ch : ℕ) (f : Frame) : Type 0 where
  pub raw_size : length f.raw_pdu ≡ 261
  pub edge : preamble_matches_aa f.preamble f.access_address ≡ true
  pub bytes_fit : f.raw_pdu_bytes ≡ payload_length_from_header (frame_header ch f) + 5
  pub kind_fits : KindFits f.kind f.access_address (frame_header ch f)

abbrev pub AllSound : ℕ → List Frame → Type 0
AllSound ch [] = Unit {0}
AllSound ch (f ∷ fs) = FrameIsSound ch f × AllSound ch fs

-- The kind of the candidate.
abbrev pub Typed : BleDecoder → Type 0
Typed p =
    (p.is_data_candidate ≡ 0 → p.access_address ≡ advertising_aa)
    × (p.is_data_candidate ≢ 0
        → (p.access_address ≢ advertising_aa) × (data_aa_plausible p.access_address ≡ true))

-- The number of bits that the header announces.
pub record Announced (p : BleDecoder) : Type 0 where
  pub past_header : 56 ≤ p.cand_bits
  pub target_is : p.pdu_target_bits ≡ (payload_length_from_header (cand_header p) + 5) * 8
  pub header_fits : p.is_data_candidate ≢ 0 → data_header_plausible (cand_header p) ≡ true

-- A candidate whose address is known.
pub record PduIsValid (p : BleDecoder) : Type 0 where
  pub low : 40 ≤ p.cand_bits
  pub edge : preamble_matches_aa p.detected_preamble p.access_address ≡ true
  pub typed : Typed p
  pub announced : p.header_decoded ≢ 0 → Announced p

-- What a machine keeps whatever its state, on a channel.
pub record Kept (ch : ℕ) (p : BleDecoder) : Type 0 where
  pub channel_is : p.channel_index ≡ ch
  pub cand_size : length p.cand ≡ 272
  pub raw_size : length p.last_frame.raw_pdu ≡ 261
  pub queue_bound : length p.pending ≤ 8
  pub all_sound : AllSound ch p.pending

-- Within the drain loop, and when it has ended.
abbrev pub Busy : DecState → BleDecoder → Type 0
Busy search p = (p.cand_bits ≤ 8) × (p.header_decoded ≡ 0)
Busy collect_aa p = (p.cand_bits ≤ 2128) × (p.header_decoded ≡ 0)
Busy collect_pdu p = PduIsValid p × (p.cand_bits ≤ 2128)

abbrev pub Idle : DecState → BleDecoder → Type 0
Idle search p = (p.cand_bits ≤ 7) × (p.header_decoded ≡ 0)
Idle collect_aa p = (p.cand_bits < 40) × (p.header_decoded ≡ 0)
Idle collect_pdu p = PduIsValid p × (p.cand_bits < 2128)

pub record IsBusy (ch : ℕ) (p : BleDecoder) : Type 0 where
  pub keeps : Kept ch p
  pub busy : Busy p.state p

pub record BleDecoderIsValid (ch : ℕ) (p : BleDecoder) : Type 0 where
  pub keeps : Kept ch p
  pub idle : Idle p.state p

AllSound-snoc :
    (ch : ℕ) (f : Frame) (fs : List Frame)
    → FrameIsSound ch f
    → AllSound ch fs
    → AllSound ch (fs ++ f ∷ [])
AllSound-snoc ch f [] s a = (s, tt)
AllSound-snoc ch f (x ∷ fs) s a = (a.0, AllSound-snoc ch f fs s a.1)

-- A sound frame is queued, or lost if there is no room.
pub emit-Kept :
    (ch : ℕ) (p : BleDecoder)
    → p.channel_index ≡ ch
    → length p.cand ≡ 272
    → length p.pending ≤ 8
    → AllSound ch p.pending
    → FrameIsSound ch p.last_frame
    → Kept ch (emit p)
unfolding emit no_raw
emit-Kept ch p c size bound sound s = elim (Bool-cases (ltb (length p.pending) 8)) [
  | inl room ↦ rw room (record {
    channel_is = c;
    cand_size = size;
    raw_size = length-replicate {A = ℕ} 261 0;
    queue_bound =
        omega
          (arith, length-append p.pending (p.last_frame ∷ []), ltb→lt (length p.pending) 8 room);
    all_sound = AllSound-snoc ch p.last_frame p.pending s sound;
  })
  | inr full ↦ rw full (record {
    channel_is = c;
    cand_size = size;
    raw_size = length-replicate {A = ℕ} 261 0;
    queue_bound = bound;
    all_sound = sound;
  })
]

-- The first bytes of a copy.
copied :
    (dst src : Bytes) (n : ℕ)
    → 2 ≤ n
    → n ≤ length src
    → (at (memcpy dst src n) 0 ≡ at src 0) × (at (memcpy dst src n) 1 ≡ at src 1)
copied dst [] n h k = absurd (omega arith)
copied dst (a ∷ []) n h k = absurd (omega arith)
copied dst (a ∷ b ∷ src) zero h k = absurd (omega arith)
copied dst (a ∷ b ∷ src) (suc zero) h k = absurd (omega arith)
copied dst (a ∷ b ∷ src) (suc (suc n)) h k = (refl, refl)

at-drop : (k i : ℕ) (xs : Bytes) → at (drop k xs) i ≡ at xs (k + i)
at-drop zero i xs = let e : 0 + i ≡ i = omega arith in ap (at xs) (sym e)
at-drop (suc k) i [] = refl
at-drop (suc k) i (x ∷ xs) =
    let e : suc k + i ≡ suc (k + i) = omega arith in at-drop k i xs ∙ ap (at (x ∷ xs)) (sym e)

-- A candidate that is complete gives a sound frame.
pub complete_frame-Kept :
    (ch : ℕ) (kind : FrameKind) (crc_init : ℕ) (p : BleDecoder)
    → Kept ch p
    → PduIsValid p
    → Announced p
    → KindFits kind p.access_address (cand_header p)
    → Kept ch (complete_frame kind crc_init p)
unfolding complete_frame cand_header
complete_frame-Kept ch kind crc_init p keeps v a fits =
    emit-Kept ch (record p { last_frame = frame; frame_ready = 1 }) keeps.channel_is keeps.cand_size
      keeps.queue_bound keeps.all_sound
      (record {
        raw_size =
            length-memcpy p.last_frame.raw_pdu (drop 5 p.cand) n
              (omega (arith, n_is, small, keeps.raw_size))
              (omega (arith, n_is, small, length-drop 5 p.cand, keeps.cand_size))
            ∙ keeps.raw_size;
        edge = v.edge;
        bytes_fit = omega (arith, n_is, small, ap payload_length_from_header same_header);
        kind_fits = subst (KindFits kind p.access_address) (sym same_header) fits;
      })
  where
    n : ℕ
    n = p.pdu_target_bits / 8

    frame : Frame
    frame = record {
      phy = phy_le_1m;
      kind = kind;
      preamble = p.detected_preamble;
      access_address = p.access_address;
      crc_init = crc_init;
      crc_ok = 0;
      raw_pdu = memcpy p.last_frame.raw_pdu (drop 5 p.cand) n;
      raw_pdu_bytes = u16 n;
    }

    small : payload_length_from_header (cand_header p) ≤ 256
    small = payload_length_bound (cand_header p)

    n_is : n ≡ payload_length_from_header (cand_header p) + 5
    n_is = omega (arith, a.target_is)

    same_header : frame_header ch frame ≡ cand_header p
    same_header =
        let (zeroth, first) =
          copied p.last_frame.raw_pdu (drop 5 p.cand) n (omega (arith, n_is))
            (omega (arith, n_is, small, length-drop 5 p.cand, keeps.cand_size)) in
        ap₂ (λ a b. dewhiten (a ∷ b ∷ []) 2 ch) (zeroth ∙ at-drop 5 0 p.cand)
          (first ∙ at-drop 5 1 p.cand)
        ∙ ap (dewhiten (at p.cand 5 ∷ at p.cand 6 ∷ []) 2) (sym keeps.channel_is)

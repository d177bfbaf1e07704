-- ===== src/Ble/Registry/Learn.antt =====
-- From frames to the initial value of a connection: the data frames that a receiver stores, and what
-- `ble_registry_submit` of src/core/protocol/ble/ble_registry.c makes of them.
use supertooth.Base.{
  ℕ, ◌+◌, ◌-◌, ◌^◌, ◌<◌, ◌≤◌, ◌≡◌, ◌≢◌, refl, sym, ap, ap₂, subst, ◌∙◌, arith, Bool, Option, some,
  ◌++◌, Bytes, length, get_or, take, drop, length-append, take-append, drop-append, get_or-append,
}
use supertooth.Models.{RxMetadata, BleEvent}
use supertooth.Ble.Whiten.{dewhiten}
use supertooth.Ble.Whiten.Laws.{dewhiten_twice, length-dewhiten}
use supertooth.Ble.Crc.{crc_calc, extract_crc}
use supertooth.Ble.Crc.Linear.{crc_calc_ext, crc_calc-lt}
use supertooth.Ble.Crc.Reverse.{air_crc, extract_crc-air_crc}
use supertooth.Ble.Frame.{data_frame}
use supertooth.Ble.Registry.{collecting, Registry, Host, conn_find, no_connection}
use supertooth.Ble.Registry.Gate.{gate_data_pdu}
use supertooth.Ble.Bitstream.{advertising_aa}
use supertooth.Ble.Registry.Submit.{stamp, submit_dewhitened, submit}
use supertooth.Ble.Registry.Valid.{RegistryIsValid}
use supertooth.Ble.Registry.Accept.{AcceptedWith}
use supertooth.Ble.Registry.Recover.{KnowsAt, gate_data_pdu-KnowsAt, gate_data_pdu-accepts}
use supertooth.Ble.Registry.Reachable.{submit-IsValid}
use supertooth.Ble.Registry.Marked.{
  frame_size, frame_pdu, touch_conn-KnowsAt, submit_whole, submit-AcceptedWith,
}

-- A data PDU with its checksum, as a receiver stores it: whitened for the channel, with any bytes
-- behind it in the buffer.
abbrev pub with_crc : Bytes → ℕ → Bytes
with_crc pdu init = pdu ++ air_crc (crc_calc pdu (length pdu) init)

abbrev pub data_event : RxMetadata → ℕ → Bytes → ℕ → Bytes → BleEvent
data_event meta aa pdu init rest =
    let bytes = with_crc pdu init in
    record {
      meta = meta;
      frame = record {
        phy = 4;
        kind = data_frame;
        preamble = 0xaa;
        access_address = aa;
        crc_init = 0;
        crc_ok = 0;
        raw_pdu = dewhiten bytes (length bytes) meta.channel_index ++ rest;
        raw_pdu_bytes = length bytes;
      };
    }

-- The bytes of a stored frame are those that were sent.
module _ (meta : RxMetadata) (aa : ℕ) (pdu : Bytes) (init : ℕ) (rest : Bytes) where
  tail_size : length (air_crc (crc_calc pdu (length pdu) init)) ≡ 3
  unfolding air_crc
  tail_size = refl

  sent_size : length (with_crc pdu init) ≡ length pdu + 3
  sent_size = omega (arith, length-append pdu (air_crc (crc_calc pdu (length pdu) init)), tail_size)

  size_is :
      length pdu ≤ 258 → frame_size (data_event meta aa pdu init rest) ≡ length (with_crc pdu init)
  size_is h = ground (arith, sent_size)

  pdu_is : length pdu ≤ 258 → frame_pdu (data_event meta aa pdu init rest) ≡ with_crc pdu init
  pdu_is h =
      let bytes = with_crc pdu init in
      let n = length bytes in
      let ch = meta.channel_index in
      let air = dewhiten bytes n ch in
      ap (λ k. dewhiten (take k (air ++ rest)) k ch) (size_is h)
      ∙ ap (λ k. dewhiten (take k (air ++ rest)) n ch) (sym (length-dewhiten bytes n ch))
      ∙ ap (λ t. dewhiten t n ch) (take-append air rest)
      ∙ dewhiten_twice bytes n ch

  crc_is : extract_crc (drop (length pdu) (with_crc pdu init)) ≡ crc_calc pdu (length pdu) init
  crc_is =
      ap extract_crc (drop-append pdu (air_crc (crc_calc pdu (length pdu) init)))
      ∙ extract_crc-air_crc (crc_calc pdu (length pdu) init) (crc_calc-lt pdu (length pdu) init)

  summed_is : crc_calc pdu (length pdu) init ≡ crc_calc (with_crc pdu init) (length pdu) init
  summed_is = sym (
      crc_calc_ext (with_crc pdu init) pdu (length pdu) init
        (λ k p. get_or-append pdu (air_crc (crc_calc pdu (length pdu) init)) k 0 p))

  -- The call that a stored frame leads to.
  submit_sent :
      (isnan : ℕ → Bool) (company_name : ℕ → Option Bytes) (host : Host) (r : Registry)
      → 2 ≤ length pdu
      → length pdu ≤ 258
      → aa ≢ advertising_aa
      → submit isnan company_name host (data_event meta aa pdu init rest) r
        ≡ submit_dewhitened isnan host
            (data_event meta aa pdu init rest)
            (with_crc pdu init)
            (length pdu)
            r
  submit_sent isnan company_name host r low high other =
      let event = data_event meta aa pdu init rest in
      let n : frame_size event - 3 ≡ length pdu = omega (arith, size_is high, sent_size) in
      submit_whole isnan company_name host event r other (omega (arith, sent_size))
      ∙ ap₂ (λ p k. submit_dewhitened isnan host event p k r) (pdu_is high) n

  gate_sent :
      (host : Host) (r : Registry)
      → gate_data_pdu host aa
          (with_crc pdu init)
          (length pdu)
          (extract_crc (drop (length pdu) (with_crc pdu init)))
          r
        ≡ gate_data_pdu host aa
            (with_crc pdu init)
            (length pdu)
            (crc_calc (with_crc pdu init) (length pdu) init)
            r
  gate_sent host r =
      ap (λ c. gate_data_pdu host aa (with_crc pdu init) (length pdu) c r) (crc_is ∙ summed_is)

  -- A frame that stands for an empty PDU.
  submit-KnowsAt :
      (isnan : ℕ → Bool) (company_name : ℕ → Option Bytes) (host : Host) (i : ℕ) (r : Registry)
      → length pdu ≡ 2
      → aa ≢ advertising_aa
      → RegistryIsValid r
      → conn_find aa r ≡ some i
      → (get_or r.conns i no_connection).link.state ≡ collecting
      → init < 2 ^ 24
      → KnowsAt aa init (submit isnan company_name host (data_event meta aa pdu init rest) r).2
  unfolding submit_dewhitened
  submit-KnowsAt isnan company_name host i r two other v e c h =
      let event = data_event meta aa pdu init rest in
      let bytes = with_crc pdu init in
      let learned : KnowsAt aa init
          (gate_data_pdu host aa bytes (length pdu) (crc_calc bytes (length pdu) init) r).1 =
        subst (λ k. KnowsAt aa init (gate_data_pdu host aa bytes k (crc_calc bytes k init) r).1)
          (sym two) (gate_data_pdu-KnowsAt host aa i bytes init r v e c h) in
      subst (λ s. KnowsAt aa init s.2)
        (sym
          (submit_sent isnan company_name host r (omega (arith, two)) (omega (arith, two)) other))
        (touch_conn-KnowsAt isnan host event aa init _
          (subst (λ g. KnowsAt aa init g.1) (sym (gate_sent host r)) learned))

  submit-accepts :
      (isnan : ℕ → Bool) (company_name : ℕ → Option Bytes) (host : Host) (r : Registry)
      → 2 < length pdu
      → length pdu ≤ 258
      → aa ≢ advertising_aa
      → RegistryIsValid r
      → KnowsAt aa init r
      → init < 2 ^ 24
      → let s = submit isnan company_name host (data_event meta aa pdu init rest) r in
        (s.0 ≡ 1) × (s.1.frame.crc_init ≡ init)
  unfolding submit_dewhitened stamp
  submit-accepts isnan company_name host r low high other v k h =
      let event = data_event meta aa pdu init rest in
      let bytes = with_crc pdu init in
      let accepted : (gate_data_pdu host aa bytes (length pdu) (crc_calc bytes (length pdu) init)
            r).0
          ≡ some init =
        gate_data_pdu-accepts host aa bytes (length pdu) init r v k h (omega (arith, low)) in
      let used = ap (λ g. g.0) (gate_sent host r) ∙ accepted in
      subst (λ s. (s.0 ≡ 1) × (s.1.frame.crc_init ≡ init))
        (sym (submit_sent isnan company_name host r (omega arith) high other))
        (ap (λ o. (stamp o event).0) used, ap (λ o. (stamp o event).1.frame.crc_init) used)

-- One empty PDU is enough: if a valid registry has a connection for an address other than the
-- advertising one that is not confirmed yet, and an undamaged frame with a PDU of two bytes arrives
-- that was summed from some initial value below 2^24, and directly after it an undamaged frame of the
-- address with a PDU of three to 258 bytes that is summed from the same value, then the second one is
-- reported as a real one, whatever both hold, on whatever channels they are whitened for, and
-- whatever stands among the candidates. It is marked as checked with exactly that value, and the
-- connection is then confirmed with it.
pub submit-recovers :
    (isnan : ℕ → Bool) (company_name : ℕ → Option Bytes) (host host' : Host)
    (meta meta' : RxMetadata) (aa : ℕ) (header pdu : Bytes) (init : ℕ) (rest rest' : Bytes)
    (r : Registry) (i : ℕ)
    → RegistryIsValid r
    → aa ≢ advertising_aa
    → conn_find aa r ≡ some i
    → (get_or r.conns i no_connection).link.state ≡ collecting
    → init < 2 ^ 24
    → length header ≡ 2
    → 2 < length pdu
    → length pdu ≤ 258
    → let learned = (submit isnan company_name host (data_event meta aa header init rest) r).2 in
      let event = data_event meta' aa pdu init rest' in
      let s = submit isnan company_name host' event learned in
      (s.0 ≡ 1)
      × (s.1.frame.crc_ok ≡ 1)
      × (s.1.frame.crc_init ≡ init)
      × AcceptedWith aa
          (frame_pdu event)
          (frame_size event - 3)
          (extract_crc (drop (frame_size event - 3) (frame_pdu event)))
          s.1.frame.crc_init
          s.2
submit-recovers isnan company_name host host' meta meta' aa header pdu init rest rest' r i v other e
      c h two low high =
    let first = data_event meta aa header init rest in
    let event = data_event meta' aa pdu init rest' in
    let learned = (submit isnan company_name host first r).2 in
    let learned_valid = submit-IsValid isnan company_name host first r v in
    let knows =
      submit-KnowsAt meta aa header init rest isnan company_name host i r two other v e c h in
    let (one, used) =
      submit-accepts meta' aa pdu init rest' isnan company_name host' learned low high other
        learned_valid knows h in
    let (ok, accepted) =
      submit-AcceptedWith isnan company_name host' event learned learned_valid other one in
    (one, ok, used, accepted)

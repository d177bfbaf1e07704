-- ===== src/Ble/Registry/Marked.antt =====
-- Which data frames `ble_registry_submit` of src/core/protocol/ble/ble_registry.c reports and marks.
use supertooth.Base.{
  ℕ, ◌-◌, ◌<◌, ◌≤◌, ◌≡◌, ◌≢◌, inl, inr, refl, sym, ap, subst, ◌∙◌, arith, Bool, true, false, Option,
  none, some, Bytes, set, take, drop, get_or-set_self, ltb, ◌==◌, if◌then◌else◌, Bool-cases, ltb→lt,
}
use supertooth.Base.Keys.{find_key-set_same, find_key-some}
use supertooth.Models.{BleEvent}
use supertooth.Ble.Whiten.{dewhiten}
use supertooth.Ble.Crc.{extract_crc}
use supertooth.Ble.Registry.{Connection, Registry, Host, aa_of, conn_find, no_connection}
use supertooth.Ble.Registry.Gate.{gate_data_pdu}
use supertooth.Ble.Bitstream.{advertising_aa}
use supertooth.Ble.Registry.Submit.{
  touch_row, touch_conn, stamp, submit_dewhitened, submit_data, submit,
}
use supertooth.Ble.Registry.Valid.{RegistryIsValid}
use supertooth.Ble.Registry.Accept.{AcceptedWith, gate_data_pdu-AcceptedWith}
use supertooth.Ble.Registry.Recover.{Knows, KnowsAt, row_link}

-- Another row with the same link.
row_keeps :
    (aa i : ℕ) (c : Connection) (r : Registry)
    → conn_find aa r ≡ some i
    → c.link ≡ row_link r i
    → (conn_find aa (record r { conns = set r.conns i c }) ≡ some i)
      × (row_link (record r { conns = set r.conns i c }) i ≡ row_link r i)
unfolding conn_find
row_keeps aa i c r e same =
    let inside = (find_key-some aa_of aa i no_connection r.conns e).0 in
    (
      find_key-set_same aa_of aa i c no_connection r.conns (ap (λ l. l.access_address) same) ∙ e,
      ap (λ x. x.link) (get_or-set_self r.conns i c no_connection inside) ∙ same,
    )

-- A row of the table that is touched keeps its link, and is found as before.
touch_conn-keeps :
    (isnan : ℕ → Bool) (host : Host) (event : BleEvent) (aa i : ℕ) (r : Registry)
    → conn_find aa r ≡ some i
    → let touched = touch_conn isnan host event (conn_find aa r) r in
      (conn_find aa touched ≡ some i) × (row_link touched i ≡ row_link r i)
unfolding touch_conn touch_row
touch_conn-keeps isnan host event aa i r e =
    subst
      (λ c.
        (conn_find aa (touch_conn isnan host event c r) ≡ some i)
        × (row_link (touch_conn isnan host event c r) i ≡ row_link r i))
      (sym e) (row_keeps aa i _ r e refl)

touch_conn-AcceptedWith :
    (isnan : ℕ → Bool) (host : Host) (event : BleEvent) (aa : ℕ) (pdu : Bytes) (n rx_crc used : ℕ)
    (r : Registry)
    → AcceptedWith aa pdu n rx_crc used r
    → AcceptedWith aa pdu n rx_crc used (touch_conn isnan host event (conn_find aa r) r)
touch_conn-AcceptedWith isnan host event aa pdu n rx_crc used r a =
    let (still, same) = touch_conn-keeps isnan host event aa a.row r a.is_found in
    record {
      row = a.row;
      is_found = still;
      is_confirmed = ap (λ l. l.state) same ∙ a.is_confirmed;
      is_used = ap (λ l. l.crc_init) same ∙ a.is_used;
      has_crc = a.has_crc;
    }

pub touch_conn-KnowsAt :
    (isnan : ℕ → Bool) (host : Host) (event : BleEvent) (aa init : ℕ) (r : Registry)
    → KnowsAt aa init r
    → KnowsAt aa init (touch_conn isnan host event (conn_find aa r) r)
touch_conn-KnowsAt isnan host event aa init r k =
    let (still, same) = touch_conn-keeps isnan host event aa k.row r k.is_found in
    record { row = k.row; is_found = still; knows = subst (Knows init) (sym same) k.knows }

-- What is marked as accepted.
stamp_lem :
    (o : Option ℕ) (event : BleEvent)
    → (stamp o event).0 ≡ 1
    → ((stamp o event).1.frame.crc_ok ≡ 1) × (o ≡ some (stamp o event).1.frame.crc_init)
unfolding stamp
stamp_lem none event h = absurd (omega (arith, h))
stamp_lem (some used) event h = (refl, refl)

-- The PDU of a stored data frame, the bytes that `ble_registry_submit` sums.
abbrev pub frame_size : BleEvent → ℕ
frame_size event = let raw = event.frame.raw_pdu_bytes in if ltb 261 raw then 261 else raw

abbrev pub frame_pdu : BleEvent → Bytes
frame_pdu event =
    dewhiten (take (frame_size event) event.frame.raw_pdu) (frame_size event)
      event.meta.channel_index

pub submit_whole :
    (isnan : ℕ → Bool) (company_name : ℕ → Option Bytes) (host : Host) (event : BleEvent)
    (r : Registry)
    → event.frame.access_address ≢ advertising_aa
    → 5 ≤ event.frame.raw_pdu_bytes
    → submit isnan company_name host event r
      ≡ submit_dewhitened isnan host event (frame_pdu event) (frame_size event - 3) r
unfolding submit submit_data
submit_whole isnan company_name host event r other h =
    let elsewhere : (event.frame.access_address == advertising_aa) ≡ false =
      ground (arith, other) in
    let whole : ltb event.frame.raw_pdu_bytes 5 ≡ false = ground arith in rw (elsewhere, whole)

submit_short :
    (isnan : ℕ → Bool) (company_name : ℕ → Option Bytes) (host : Host) (event : BleEvent)
    (r : Registry)
    → event.frame.access_address ≢ advertising_aa
    → event.frame.raw_pdu_bytes < 5
    → submit isnan company_name host event r ≡ (0, event, r)
unfolding submit submit_data
submit_short isnan company_name host event r other h =
    let elsewhere : (event.frame.access_address == advertising_aa) ≡ false =
      ground (arith, other) in
    let short : ltb event.frame.raw_pdu_bytes 5 ≡ true = ground arith in rw (elsewhere, short)

submit_dewhitened-AcceptedWith :
    (isnan : ℕ → Bool) (host : Host) (event : BleEvent) (pdu : Bytes) (n : ℕ) (r : Registry)
    → RegistryIsValid r
    → (submit_dewhitened isnan host event pdu n r).0 ≡ 1
    → let marked = (submit_dewhitened isnan host event pdu n r).1.frame in
      (marked.crc_ok ≡ 1)
      × AcceptedWith event.frame.access_address pdu n
          (extract_crc (drop n pdu))
          marked.crc_init
          (submit_dewhitened isnan host event pdu n r).2
unfolding submit_dewhitened
submit_dewhitened-AcceptedWith isnan host event pdu n r v h =
    let aa = event.frame.access_address in
    let rx = extract_crc (drop n pdu) in
    let gated = gate_data_pdu host aa pdu n rx r in
    let (ok, used) = stamp_lem gated.0 event h in
    (
      ok,
      touch_conn-AcceptedWith isnan host event aa pdu n rx _ gated.1
          (gate_data_pdu-AcceptedWith host aa pdu n rx _ r v used),
    )

-- What a submission says about the event that it returns.
abbrev pub Marked : BleEvent → ℕ × BleEvent × Registry → Type 0
Marked event s =
    let pdu_bytes = frame_size event - 3 in
    (s.1.frame.crc_ok ≡ 1)
    × AcceptedWith event.frame.access_address (frame_pdu event) pdu_bytes
        (extract_crc (drop pdu_bytes (frame_pdu event))) s.1.frame.crc_init s.2

-- In a valid registry, a frame with another address than the advertising one is reported as a real
-- one only with a right checksum: it is then marked as checked with an initial value, from which its dewhitened bytes have
-- the checksum that was received, and the connection of its address is confirmed with that value.
pub submit-AcceptedWith :
    (isnan : ℕ → Bool) (company_name : ℕ → Option Bytes) (host : Host) (event : BleEvent)
    (r : Registry)
    → RegistryIsValid r
    → event.frame.access_address ≢ advertising_aa
    → (submit isnan company_name host event r).0 ≡ 1
    → Marked event (submit isnan company_name host event r)
submit-AcceptedWith isnan company_name host event r v other h =
    elim (Bool-cases (ltb event.frame.raw_pdu_bytes 5)) [
      | inl short ↦
          let e = submit_short isnan company_name host event r other (ltb→lt _ _ short) in
          let none_there : ◌≡◌ {A = ℕ} 0 1 = sym (ap (λ s. s.0) e) ∙ h in
          absurd (omega (arith, none_there))
      | inr whole ↦
          let e = submit_whole isnan company_name host event r other (ground arith) in
          subst (Marked event) (sym e) (
            submit_dewhitened-AcceptedWith isnan host event (frame_pdu event) (frame_size event - 3)
              r v (sym (ap (λ s. s.0) e) ∙ h))
    ]

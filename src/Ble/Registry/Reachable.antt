-- ===== src/Ble/Registry/Reachable.antt =====
-- Every registry of Bluetooth LE that events lead to is valid.
use supertooth.Base.{
  ℕ, ◌+◌, ◌≡◌, inl, inr, refl, arith, Bool, true, not, ◌&&◌, Option, none, some, Bytes, get_or,
  drop, ltb, ◌==◌, Bool-cases, u64,
}
use supertooth.Base.Keys.{}
use supertooth.Models.{BleEvent}
use supertooth.Ble.AdvInfo.Names.{adv_addr_bytes}
use supertooth.Ble.Crc.{extract_crc}
use supertooth.Ble.CrcInit.{Tables}
use supertooth.Ble.CrcInit.Recover.{Reached, tables_init-Reached}
use supertooth.Ble.Frame.{Pdu, adv, ll_data, Packet, decode_frame}
use supertooth.Ble.Registry.{
  Registry, Host, conn_find, no_connection, registry_init, set_enforce_crc,
}
use supertooth.Ble.Registry.Table.{conn_acquire}
use supertooth.Ble.Registry.Gate.{gate_data_pdu, link_confirm}
use supertooth.Ble.Registry.Devices.{DeviceObs, AdvertiserEvent, add_device}
use supertooth.Ble.Registry.Submit.{
  ingest_adv, event_of, submit_pdu, submit_packet, submit_adv, touch_row, touch_conn,
  submit_dewhitened, submit_data, submit, confirm_at, confirm_for_test,
}
use supertooth.Ble.Registry.Links.{link_confirm-LinkIsValid}
use supertooth.Ble.Registry.Valid.{RegistryIsValid, Acquired}
use supertooth.Ble.Registry.Acquire.{conn_acquire-Acquired}
use supertooth.Ble.Registry.Gated.{with_row-IsValid, gate_data_pdu-IsValid}
use supertooth.Ble.Registry.Observed.{
  with_conn, found_conn, device_ingest-IsValid, add_device-IsValid,
}

submit_pdu-IsValid :
    (isnan : ℕ → Bool) (company_name : ℕ → Option Bytes) (host : Host) (rssi crc_ok : ℕ) (pdu : Pdu)
    (r : Registry)
    → RegistryIsValid r
    → RegistryIsValid (submit_pdu isnan company_name host rssi crc_ok pdu r).1
unfolding submit_pdu
submit_pdu-IsValid isnan company_name host rssi crc_ok (ll_data pdu) r v = v
submit_pdu-IsValid isnan company_name host rssi crc_ok (adv pdu) r v =
    elim (Bool-cases (not (r.enforce_crc == 0) && crc_ok == 0)) [
      | inl dropped ↦ rw dropped v
      | inr kept ↦
          rw kept
            (ingested (event_of isnan company_name rssi pdu crc_ok (adv_addr_bytes pdu.payload)))
    ]
  where
    ingested : (ev : Option AdvertiserEvent) → RegistryIsValid (ingest_adv host ev r)
    ingested none = unfold ingest_adv in v
    ingested (some ev) = unfold ingest_adv in device_ingest-IsValid host ev r v

submit_packet-IsValid :
    (isnan : ℕ → Bool) (company_name : ℕ → Option Bytes) (host : Host) (rssi : ℕ)
    (pkt : Option Packet) (r : Registry)
    → RegistryIsValid r
    → RegistryIsValid (submit_packet isnan company_name host rssi pkt r).1
unfolding submit_packet
submit_packet-IsValid isnan company_name host rssi none r v = v
submit_packet-IsValid isnan company_name host rssi (some pkt) r v =
    submit_pdu-IsValid isnan company_name host rssi pkt.crc_ok pkt.pdu r v

touch_conn-IsValid :
    (isnan : ℕ → Bool) (host : Host) (event : BleEvent) (aa : ℕ) (c : Option ℕ) (r : Registry)
    → RegistryIsValid r
    → conn_find aa r ≡ c
    → RegistryIsValid (touch_conn isnan host event c r)
unfolding touch_conn touch_row
touch_conn-IsValid isnan host event aa none r v e = v
touch_conn-IsValid isnan host event aa (some i) r v e = with_conn r i _ v (found_conn aa i r e) refl

submit_dewhitened-IsValid :
    (isnan : ℕ → Bool) (host : Host) (event : BleEvent) (pdu : Bytes) (n : ℕ) (r : Registry)
    → RegistryIsValid r
    → RegistryIsValid (submit_dewhitened isnan host event pdu n r).2
unfolding submit_dewhitened
submit_dewhitened-IsValid isnan host event pdu n r v =
    let aa = event.frame.access_address in
    let gated = (gate_data_pdu host aa pdu n (extract_crc (drop n pdu)) r).1 in
    touch_conn-IsValid isnan host event aa (conn_find aa gated) gated
      (gate_data_pdu-IsValid host aa pdu n (extract_crc (drop n pdu)) r v) refl

submit_data-IsValid :
    (isnan : ℕ → Bool) (host : Host) (event : BleEvent) (r : Registry)
    → RegistryIsValid r
    → RegistryIsValid (submit_data isnan host event r).2
unfolding submit_data
submit_data-IsValid isnan host event r v = elim (Bool-cases (ltb event.frame.raw_pdu_bytes 5)) [
  | inl short ↦ rw short v
  | inr whole ↦ rw whole (submit_dewhitened-IsValid isnan host event _ _ r v)
]

-- An event keeps the registry valid, whatever it holds.
pub submit-IsValid :
    (isnan : ℕ → Bool) (company_name : ℕ → Option Bytes) (host : Host) (event : BleEvent)
    (r : Registry)
    → RegistryIsValid r
    → RegistryIsValid (submit isnan company_name host event r).2
unfolding submit submit_adv
submit-IsValid isnan company_name host event r v =
    elim (Bool-cases (event.frame.access_address == 0x8e89bed6)) [
      | inl advertising ↦ rw advertising (
          submit_packet-IsValid isnan company_name host event.meta.rssi_dbr
            (decode_frame event.frame event.meta.channel_index) r v)
      | inr other ↦ rw other (submit_data-IsValid isnan host event r v)
    ]

confirm_at-IsValid :
    (i crc_init : ℕ) (r : Registry) → RegistryIsValid r → RegistryIsValid (confirm_at i crc_init r)
unfolding confirm_at link_confirm
confirm_at-IsValid i crc_init r v =
    let c = get_or r.conns i no_connection in
    let used = record c.link { last_used_seq = u64 (r.seq + 1) } in
    with_row-IsValid r v i (record c { link = link_confirm used crc_init }) (u64 (r.seq + 1))
      r.crc_tables refl (link_confirm-LinkIsValid used crc_init) v.tables_reached

confirm_for_test-IsValid :
    (host : Host) (aa crc_init : ℕ) (r : Registry)
    → RegistryIsValid r
    → RegistryIsValid (confirm_for_test host aa crc_init r)
unfolding confirm_for_test
confirm_for_test-IsValid host aa crc_init r v =
    confirms (conn_acquire host aa true r).0 (conn_acquire host aa true r).1
      (conn_acquire-Acquired host aa true r v)
  where
    confirms :
        (c : Option ℕ) (r' : Registry)
        → Acquired aa c r'
        → RegistryIsValid
            (let q : Registry = elim c [ none ↦ r' | some i ↦ confirm_at i crc_init r' ] in q)
    confirms none r' a = a
    confirms (some i) r' a = confirm_at-IsValid i crc_init r' a.2

set_enforce_crc-IsValid :
    (r : Registry) (on : ℕ) → RegistryIsValid r → RegistryIsValid (set_enforce_crc r on)
unfolding set_enforce_crc
set_enforce_crc-IsValid r on v = record {
  conns_distinct = v.conns_distinct;
  conns_fit = v.conns_fit;
  cap_bound = v.cap_bound;
  tally_valid = v.tally_valid;
  links_valid = v.links_valid;
  devices_distinct = v.devices_distinct;
  tables_reached = v.tables_reached;
}

pub registry_init-IsValid :
    (enforce : ℕ) (statics : Tables)
    → Reached statics
    → RegistryIsValid (registry_init enforce statics)
unfolding registry_init
registry_init-IsValid enforce statics h = record {
  conns_distinct = tt;
  conns_fit = omega arith;
  cap_bound = omega arith;
  tally_valid = record { distinct = tt; apart = tt; bound = omega arith };
  links_valid = tt;
  devices_distinct = tt;
  tables_reached = inr (tables_init-Reached statics h);
}

-- The registries that calls of the entry points lead to, in any order, with whatever the C library
-- answers in each of them.
pub data Reachable (isnan : ℕ → Bool) (company_name : ℕ → Option Bytes) : Registry → Type 0 where
  begun :
      (enforce : ℕ) (statics : Tables)
      → Reached statics
      → Reachable isnan company_name (registry_init enforce statics)
  submitted :
      {r : Registry} (host : Host) (event : BleEvent)
      → Reachable isnan company_name r
      → Reachable isnan company_name (submit isnan company_name host event r).2
  device_added :
      {r : Registry} (host : Host) (obs : DeviceObs)
      → Reachable isnan company_name r
      → Reachable isnan company_name (add_device host obs r).1
  enforced :
      {r : Registry} (on : ℕ)
      → Reachable isnan company_name r
      → Reachable isnan company_name (set_enforce_crc r on)
  tested :
      {r : Registry} (host : Host) (aa crc_init : ℕ)
      → Reachable isnan company_name r
      → Reachable isnan company_name (confirm_for_test host aa crc_init r)

-- Every registry that calls lead to is valid: no access address has two connections or two rows of
-- the tally, and none has both; there are at most 512 connections and 1,024 rows of the tally; every
-- connection holds at most four candidates, all different and of 24 bits, as is the initial value
-- that is confirmed; no address has two devices; and the statics of the codec are unbuilt or built.
pub Reachable-RegistryIsValid :
    (isnan : ℕ → Bool) (company_name : ℕ → Option Bytes) (r : Registry)
    → Reachable isnan company_name r
    → RegistryIsValid r
Reachable-RegistryIsValid isnan company_name r (begun enforce statics h) =
    registry_init-IsValid enforce statics h
Reachable-RegistryIsValid isnan company_name r (submitted host event c) =
    submit-IsValid isnan company_name host event _
      (Reachable-RegistryIsValid isnan company_name _ c)
Reachable-RegistryIsValid isnan company_name r (device_added host obs c) =
    add_device-IsValid host obs _ (Reachable-RegistryIsValid isnan company_name _ c)
Reachable-RegistryIsValid isnan company_name r (enforced on c) =
    set_enforce_crc-IsValid _ on (Reachable-RegistryIsValid isnan company_name _ c)
Reachable-RegistryIsValid isnan company_name r (tested host aa crc_init c) =
    confirm_for_test-IsValid host aa crc_init _ (Reachable-RegistryIsValid isnan company_name _ c)

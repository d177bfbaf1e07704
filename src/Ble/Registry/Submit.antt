-- ===== src/Ble/Registry/Submit.antt =====
-- The entry points of src/core/protocol/ble/ble_registry.c. Each is one step under the registry's
-- lock. The snapshot that `ble_registry_submit` can fill is read from the state and is left out; the
-- table of company names and `isnan` are arguments.
use supertooth.Base.{
  ℕ, ◌+◌, ◌-◌, bit_and, Bool, true, ◌&&◌, not, Option, none, some, [], ◌∷◌, Bytes, at, get_or, set,
  take, drop, ltb, ◌==◌, if◌then◌else◌, u64, ◌>>>◌,
}
use supertooth.Ble.Bitstream.{advertising_aa}
use supertooth.Models.{BleEvent}
use supertooth.Models.Rssi.{rssi_tracker_add}
use supertooth.Ble.Whiten.{dewhiten}
use supertooth.Ble.Crc.{extract_crc}
use supertooth.Ble.ConnectInd.{connect_ind_parse}
use supertooth.Ble.AdvInfo.{AdvInfo}
use supertooth.Ble.AdvInfo.Parse.{adv_parse_info}
use supertooth.Ble.AdvInfo.Names.{
  addr_bytes_to_u64, adv_addr_bytes, adv_data_bytes, adv_parse_name_manuf,
}
use supertooth.Ble.Frame.{AdvPdu, Packet, Pdu, adv, ll_data, crc_bytes, pdu_max_bytes, decode_frame}
use supertooth.Ble.Frame.Payload.{AddrKind, public, random, AdvPayload, connect_ind}
use supertooth.Ble.Registry.{Registry, Host, Link, conn_find, no_connection}
use supertooth.Ble.Registry.Table.{conn_acquire}
use supertooth.Ble.Registry.Gate.{gate_data_pdu, link_confirm}
use supertooth.Ble.Registry.Devices.{AdvertiserEvent, device_ingest}

-- "PUBLIC", "STATIC", "RESERVED", "RESOLVABLE", "NONRESOLVABLE".
abbrev text_public : Bytes
text_public = b'P' ∷ b'U' ∷ b'B' ∷ b'L' ∷ b'I' ∷ b'C' ∷ []

abbrev text_static : Bytes
text_static = b'S' ∷ b'T' ∷ b'A' ∷ b'T' ∷ b'I' ∷ b'C' ∷ []

abbrev text_reserved : Bytes
text_reserved = b'R' ∷ b'E' ∷ b'S' ∷ b'E' ∷ b'R' ∷ b'V' ∷ b'E' ∷ b'D' ∷ []

abbrev text_resolvable : Bytes
text_resolvable = b'R' ∷ b'E' ∷ b'S' ∷ b'O' ∷ b'L' ∷ b'V' ∷ b'A' ∷ b'B' ∷ b'L' ∷ b'E' ∷ []

abbrev text_nonresolvable : Bytes
text_nonresolvable = b'N' ∷ b'O' ∷ b'N' ∷ text_resolvable

unfoldable pub adv_addr_subtype : AddrKind → Bytes → Bytes
adv_addr_subtype public addr = text_public
adv_addr_subtype random addr =
    let top = bit_and (at addr 5 >>> 6) 3 in
    if top == 3
    then text_static
    else if top == 2
    then text_reserved
    else if top == 1
    then text_resolvable
    else text_nonresolvable

-- The summary of the data, if there is any.
unfoldable pub info_of : Option Bytes → ℕ → Option AdvInfo
unfolding adv_parse_info
info_of none len = none
info_of (some bytes) len = if len == 0 then none else some (adv_parse_info bytes len)

-- The fields of a connection request.
unfoldable pub with_connect : AdvPayload → AdvertiserEvent → AdvertiserEvent
unfolding addr_bytes_to_u64
with_connect (connect_ind p) ev =
    let params = connect_ind_parse p.ll_data in
    record ev {
      is_connect_ind = 1;
      conn_access_address = params.access_address;
      conn_crc_init = params.crc_init;
      conn_initiator_addr = addr_bytes_to_u64 p.init_addr.addr;
      conn_advertiser_addr = addr_bytes_to_u64 p.adv_addr.addr;
    }
with_connect payload ev = ev

-- The event of an advertising PDU from `addr`. `BLE_PDU_CONNECT_IND` is 5.
unfoldable pub adv_event :
    (ℕ → Bool) → (ℕ → Option Bytes) → ℕ → AdvPdu → ℕ → Bytes → AdvertiserEvent
unfolding with_connect addr_bytes_to_u64 adv_addr_subtype adv_data_bytes adv_parse_name_manuf
    info_of
adv_event isnan company_name rssi_dbr pdu crc_ok addr =
    let (adv_data, adv_len) = adv_data_bytes pdu.payload in
    let names = adv_parse_name_manuf company_name 64 32 adv_data adv_len in
    with_connect pdu.payload (record {
      obs = record {
        adv_addr = addr_bytes_to_u64 addr;
        addr_type =
            adv_addr_subtype (if pdu.pdu_type == 5 then pdu.rx_addr_kind else pdu.tx_addr_kind)
              addr;
        name = names.name;
        manufacturer = names.manuf;
        adv_info = info_of adv_data adv_len;
        rssi_db = rssi_dbr;
        rssi_valid = if isnan rssi_dbr then 0 else 1;
      };
      is_connect_ind = 0;
      conn_access_address = 0;
      conn_initiator_addr = 0;
      conn_advertiser_addr = 0;
      conn_crc_init = 0;
      crc_ok = crc_ok;
    })

-- An advertiser with its address, if the PDU has one.
unfoldable pub ingest_adv : Host → Option AdvertiserEvent → Registry → Registry
unfolding device_ingest
ingest_adv host none r = r
ingest_adv host (some ev) r = device_ingest host ev r

abbrev pub event_of :
    (ℕ → Bool) → (ℕ → Option Bytes) → ℕ → AdvPdu → ℕ → Option Bytes → Option AdvertiserEvent
event_of isnan company_name rssi_dbr pdu crc_ok none = none
event_of isnan company_name rssi_dbr pdu crc_ok (some addr) =
    some (adv_event isnan company_name rssi_dbr pdu crc_ok addr)

unfoldable pub submit_pdu :
    (ℕ → Bool) → (ℕ → Option Bytes) → Host → ℕ → ℕ → Pdu → Registry → ℕ × Registry
unfolding ingest_adv adv_addr_bytes adv_event
submit_pdu isnan company_name host rssi_dbr crc_ok (ll_data pdu) r = (0, r)
submit_pdu isnan company_name host rssi_dbr crc_ok (adv pdu) r =
    if not (r.enforce_crc == 0) && crc_ok == 0 then (0, r) else (
      1,
      ingest_adv host (event_of isnan company_name rssi_dbr pdu crc_ok (adv_addr_bytes pdu.payload))
          r,
    )

-- `none` is a frame that cannot be decoded.
unfoldable pub submit_packet :
    (ℕ → Bool) → (ℕ → Option Bytes) → Host → ℕ → Option Packet → Registry → ℕ × Registry
unfolding submit_pdu
submit_packet isnan company_name host rssi_dbr none r = (0, r)
submit_packet isnan company_name host rssi_dbr (some pkt) r =
    submit_pdu isnan company_name host rssi_dbr pkt.crc_ok pkt.pdu r

unfoldable pub submit_adv :
    (ℕ → Bool) → (ℕ → Option Bytes) → Host → BleEvent → Registry → ℕ × BleEvent × Registry
unfolding submit_packet decode_frame
submit_adv isnan company_name host event r =
    let (result, r') =
      submit_packet isnan company_name host event.meta.rssi_dbr
        (decode_frame event.frame event.meta.channel_index) r in
    (result, event, r')

-- The row that a data frame touches.
unfoldable pub touch_row : (ℕ → Bool) → Host → BleEvent → ℕ → Registry → Registry
unfolding rssi_tracker_add
touch_row isnan host event i r =
    let c = get_or r.conns i no_connection in
    record r {
      conns = set r.conns i (record c {
        first_seen_ms = if c.first_seen_ms == 0 then host.now else c.first_seen_ms;
        last_seen_ms = host.now;
        rssi = if isnan event.meta.rssi_dbr then c.rssi else rssi_tracker_add c.rssi event.meta;
      });
    }

unfoldable pub touch_conn : (ℕ → Bool) → Host → BleEvent → Option ℕ → Registry → Registry
unfolding touch_row
touch_conn isnan host event none r = r
touch_conn isnan host event (some i) r = touch_row isnan host event i r

-- An accepted frame is marked in place, with the initial value that was used.
unfoldable pub stamp : Option ℕ → BleEvent → ℕ × BleEvent
stamp none event = (0, event)
stamp (some used) event =
    (1, record event { frame = record event.frame { crc_ok = 1; crc_init = used } })

-- A data frame of `n` bytes.
unfoldable pub submit_dewhitened :
    (ℕ → Bool) → Host → BleEvent → Bytes → ℕ → Registry → ℕ × BleEvent × Registry
unfolding stamp touch_conn gate_data_pdu conn_find extract_crc
submit_dewhitened isnan host event pdu pdu_bytes r =
    let aa = event.frame.access_address in
    let (used, r') = gate_data_pdu host aa pdu pdu_bytes (extract_crc (drop pdu_bytes pdu)) r in
    let (result, event') = stamp used event in
    (result, event', touch_conn isnan host event (conn_find aa r') r')

unfoldable pub submit_data : (ℕ → Bool) → Host → BleEvent → Registry → ℕ × BleEvent × Registry
unfolding submit_dewhitened
submit_data isnan host event r =
    let raw = event.frame.raw_pdu_bytes in
    let size = pdu_max_bytes + crc_bytes in
    let frame_bytes = if ltb size raw then size else raw in
    if ltb raw (crc_bytes + 2)
    then (0, event, r)
    else submit_dewhitened isnan host event
        (dewhiten (take frame_bytes event.frame.raw_pdu) frame_bytes event.meta.channel_index)
        (frame_bytes - crc_bytes) r

-- `ble_registry_submit`: the result, the event as it is left, and the registry.
unfoldable pub submit :
    (ℕ → Bool) → (ℕ → Option Bytes) → Host → BleEvent → Registry → ℕ × BleEvent × Registry
unfolding submit_adv submit_data
submit isnan company_name host event r =
    if event.frame.access_address == advertising_aa
    then submit_adv isnan company_name host event r
    else submit_data isnan host event r

-- `ble_registry_confirm_for_test`, and the copy of a link.
unfoldable pub confirm_at : ℕ → ℕ → Registry → Registry
unfolding link_confirm
confirm_at i crc_init r =
    let seq = u64 (r.seq + 1) in
    let c = get_or r.conns i no_connection in
    record r {
      conns =
          set r.conns i
            (record c { link = link_confirm (record c.link { last_used_seq = seq }) crc_init });
      seq = seq;
    }

unfoldable pub confirm_for_test : Host → ℕ → ℕ → Registry → Registry
unfolding conn_acquire confirm_at
confirm_for_test host aa crc_init r =
    let (c, r') = conn_acquire host aa true r in
    elim c [ none ↦ r' | some i ↦ confirm_at i crc_init r' ]

unfoldable pub find_link_for_test : ℕ → Registry → Option Link
unfolding conn_find
find_link_for_test aa r = elim (conn_find aa r) [
  | none ↦ none
  | some i ↦ some ((get_or r.conns i no_connection).link)
]

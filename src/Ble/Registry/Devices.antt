-- ===== src/Ble/Registry/Devices.antt =====
-- The table of devices of src/core/protocol/ble/ble_registry.c: what is observed of a device, and the
-- two devices that a connection request links.
use supertooth.Base.{
  ℕ, ◌+◌, ◌-◌, ◌*◌, Bool, true, false, ◌||◌, Option, none, some, [], ◌∷◌, ◌++◌, Bytes, length,
  get_or, set, take, ltb, ◌==◌, if◌then◌else◌, u64,
}
use supertooth.Base.Keys.{find_key}
use supertooth.Models.{no_metadata}
use supertooth.Models.Rssi.{cleared_tracker, rssi_tracker_add}
use supertooth.Ble.AdvInfo.{AdvInfo, no_info, adv_info_merge}
use supertooth.Ble.Registry.{DeviceEntry, Registry, Host, conn_find, no_connection, addr_of}
use supertooth.Ble.Registry.Table.{conn_acquire}
use supertooth.Ble.Registry.Gate.{seed_candidate}

-- `ble_device_obs_t`. An empty text stands for the null pointer too.
pub record DeviceObs : Type 0 where
  pub adv_addr : ℕ
  pub addr_type : Bytes
  pub name : Bytes
  pub manufacturer : Bytes
  pub adv_info : Option AdvInfo
  pub rssi_db : ℕ
  pub rssi_valid : ℕ

-- `ble_advertiser_event_t`: an observation, and the fields of a connection request.
pub record AdvertiserEvent : Type 0 where
  pub obs : DeviceObs
  pub is_connect_ind : ℕ
  pub conn_access_address : ℕ
  pub conn_initiator_addr : ℕ
  pub conn_advertiser_addr : ℕ
  pub conn_crc_init : ℕ
  pub crc_ok : ℕ

-- The row as it is made.
abbrev pub no_device : DeviceEntry
no_device = record {
  device_id = 0;
  connection_id = 0;
  adv_addr = 0;
  addr_type = [];
  name = [];
  manufacturer = [];
  adv_info = no_info;
  rssi = cleared_tracker;
  first_seen_ms = 0;
  last_seen_ms = 0;
  total_packets = 0;
  linked_aa = 0;
  has_linked_aa = 0;
}

unfoldable pub device_find : ℕ → Registry → Option ℕ
unfolding find_key
device_find addr r = find_key addr_of addr r.devices

unfoldable pub append_device : Host → ℕ → Registry → Option ℕ × Registry
append_device host addr r = (
  some (length r.devices),
  record r {
    devices =
        r.devices
        ++ record no_device {
          adv_addr = addr;
          device_id = r.next_id;
          first_seen_ms = host.device_made addr;
          last_seen_ms = host.device_made addr;
        }
          ∷ [];
    next_id = u64 (r.next_id + 1);
  },
)

unfoldable pub make_device : Host → ℕ → Registry → Option ℕ × Registry
unfolding append_device
make_device host addr r =
    let new_cap = if r.devices_cap == 0 then 16 else u64 (r.devices_cap * 2) in
    if ltb (length r.devices) r.devices_cap
    then append_device host addr r
    else if host.grows_devices new_cap
    then append_device host addr (record r { devices_cap = new_cap })
    else (none, r)

unfoldable pub device_find_or_create : Host → ℕ → Registry → Option ℕ × Registry
unfolding device_find make_device
device_find_or_create host addr r = elim (device_find addr r) [
  | some i ↦ (some i, r)
  | none ↦ make_device host addr r
]

-- `snprintf(dst, size, "%s", text)`, if there is a text.
abbrev pub store_text : ℕ → Bytes → Bytes → Bytes
store_text size [] dst = dst
store_text size (c ∷ text) dst = take (size - 1) (c ∷ text)

abbrev pub merge_info : Option AdvInfo → AdvInfo → AdvInfo
merge_info none dst = dst
merge_info (some src) dst = adv_info_merge dst src

-- What an observation changes in a row.
unfoldable pub observe : ℕ → DeviceObs → DeviceEntry → DeviceEntry
unfolding rssi_tracker_add adv_info_merge
observe now obs d = record d {
  first_seen_ms = if d.total_packets == 0 then now else d.first_seen_ms;
  last_seen_ms = now;
  total_packets = u64 (d.total_packets + 1);
  rssi =
      if obs.rssi_valid == 0
      then d.rssi
      else rssi_tracker_add d.rssi (record no_metadata {
        radio_sample_rate_hz = 1000;
        radio_start_sample_index = now;
        rssi_dbr = obs.rssi_db;
      });
  addr_type = store_text 16 obs.addr_type d.addr_type;
  name = store_text 64 obs.name d.name;
  manufacturer = store_text 32 obs.manufacturer d.manufacturer;
  adv_info = merge_info obs.adv_info d.adv_info;
}

unfoldable pub observe_at : Host → DeviceObs → ℕ → Registry → Registry
unfolding observe
observe_at host obs i r = record r {
  devices = set r.devices i (observe host.now obs (get_or r.devices i no_device));
}

-- The rows of the two devices, as the connection keeps them.
unfoldable pub link_row : Host → ℕ → ℕ → ℕ → Registry → Registry
link_row host c central peripheral r =
    let row = get_or r.conns c no_connection in
    record r {
      conns = set r.conns c (record row {
        device_id_central = central;
        device_id_peripheral = peripheral;
        first_seen_ms = if row.first_seen_ms == 0 then host.now else row.first_seen_ms;
      });
    }

unfoldable pub link_device : ℕ → ℕ → ℕ → Registry → Registry
link_device adv c aa r = record r {
  devices = set r.devices adv (record (get_or r.devices adv no_device) {
    connection_id = (get_or r.conns c no_connection).connection_id;
    has_linked_aa = 1;
    linked_aa = aa;
  });
}

-- The connection, the advertiser and the initiator, if all three have rows.
unfoldable pub link_peers :
    Host → AdvertiserEvent → ℕ → Option ℕ → Option ℕ → Option ℕ → Registry → Registry
unfolding link_row link_device seed_candidate
link_peers host ev init_id (some c) (some adv) (some init) r =
    link_device adv c ev.conn_access_address (
      seed_candidate host ev.conn_access_address ev.conn_crc_init
        (link_row host c (get_or r.devices adv no_device).device_id init_id r))
link_peers host ev init_id c adv init r = r

-- The identifier behind a pointer, 0 for the null pointer.
abbrev pub id_at : Option ℕ → Registry → ℕ
id_at none r = 0
id_at (some i) r = (get_or r.devices i no_device).device_id

unfoldable pub connect_peers : Host → AdvertiserEvent → Registry → Registry
unfolding link_peers device_find_or_create conn_acquire device_find conn_find
connect_peers host ev r =
    let r1 = (conn_acquire host ev.conn_access_address true r).1 in
    let (init, r2) = device_find_or_create host ev.conn_initiator_addr r1 in
    let r3 = (device_find_or_create host ev.conn_advertiser_addr r2).1 in
    link_peers host ev (id_at init r2) (conn_find ev.conn_access_address r3)
      (device_find ev.conn_advertiser_addr r3) (device_find ev.conn_initiator_addr r3) r3

unfoldable pub ingest_at : Host → AdvertiserEvent → ℕ → Registry → Registry
unfolding observe_at connect_peers
ingest_at host ev i r =
    let observed = observe_at host ev.obs i r in
    if ev.is_connect_ind == 0 || ev.crc_ok == 0 then observed else connect_peers host ev observed

-- `device_ingest_locked`.
unfoldable pub device_ingest : Host → AdvertiserEvent → Registry → Registry
unfolding device_find_or_create ingest_at
device_ingest host ev r =
    let (d, r') = device_find_or_create host ev.obs.adv_addr r in
    elim d [ none ↦ r' | some i ↦ ingest_at host ev i r' ]

-- `ble_registry_add_device`: `false` is the result -1.
unfoldable pub add_device : Host → DeviceObs → Registry → Bool × Registry
unfolding device_find_or_create observe_at
add_device host obs r =
    let (d, r') = device_find_or_create host obs.adv_addr r in
    elim d [ none ↦ (false, r') | some i ↦ (true, observe_at host obs i r') ]

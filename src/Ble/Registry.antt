-- ===== src/Ble/Registry.antt =====
-- The state of src/core/protocol/ble/ble_registry.h and the connections of ble_registry.c: the table,
-- the tally of addresses that have not earned a row, and the recovery of the initial value of a
-- connection's checksum. Each function runs under the registry's lock. A pointer into a table is the
-- index of the row, an array with its count a list, and a text the bytes before its end. The statics
-- of ble_codec.c stand with the registry, which is their only user.
pub mod Table
pub mod Gate
pub mod Devices
pub mod Submit
pub mod Links
pub mod Recover
pub mod Valid
pub mod Rows
pub mod Acquire
pub mod Gated
pub mod Accept
pub mod Observed
pub mod Reachable
pub mod Marked
pub mod Learn
pub mod Victim
use supertooth.Base.{
  ℕ, ◌+◌, ◌*◌, ◌-◌, ◌^◌, bit_and, Bool, true, false, ◌&&◌, ◌||◌, not, Option, none, some, List, [],
  ◌∷◌, ◌++◌, Bytes, length, get_or, set, drop, ltb, ◌==◌, if◌then◌else◌, u32, u64, flag,
}
use supertooth.Base.Keys.{find_key}
use supertooth.Models.Rssi.{RssiTracker, cleared_tracker}
use supertooth.Models.Tally.{Tally, no_tally, pending_bump, pending_drop}
use supertooth.Ble.Crc.{crc_calc}
use supertooth.Ble.CrcInit.{Tables, tables_init, reverse_init_len2}
use supertooth.Ble.AdvInfo.{AdvInfo, no_info}

-- `ble_connection_state_t`.
pub data ConnectionState : Type 0 where
  collecting confirmed : ConnectionState

pub record Link : Type 0 where
  pub access_address : ℕ
  pub state : ConnectionState
  pub crc_init : ℕ
  pub candidates : List ℕ
  pub packets_seen : ℕ
  pub packets_accepted : ℕ
  pub last_used_seq : ℕ

pub record Connection : Type 0 where
  pub link : Link
  pub connection_id : ℕ
  pub device_id_central : ℕ
  pub device_id_peripheral : ℕ
  pub rssi : RssiTracker
  pub first_seen_ms : ℕ
  pub last_seen_ms : ℕ

pub record DeviceEntry : Type 0 where
  pub device_id : ℕ
  pub connection_id : ℕ
  pub adv_addr : ℕ
  pub addr_type : Bytes
  pub name : Bytes
  pub manufacturer : Bytes
  pub adv_info : AdvInfo
  pub rssi : RssiTracker
  pub first_seen_ms : ℕ
  pub last_seen_ms : ℕ
  pub total_packets : ℕ
  pub linked_aa : ℕ
  pub has_linked_aa : ℕ

pub record Registry : Type 0 where
  pub conns : List Connection
  pub conns_cap : ℕ
  pub seq : ℕ
  pub devices : List DeviceEntry
  pub devices_cap : ℕ
  pub tally : Tally
  pub next_id : ℕ
  pub enforce_crc : ℕ
  pub crc_tables : Tables

-- What the C library answers in one call: which sizes `realloc` grants the two tables, and what
-- `now_ms` reads in the call itself, where a connection is made, and where the device with an
-- address is made.
pub record Host : Type 0 where
  pub grows_conns : ℕ → Bool
  pub grows_devices : ℕ → Bool
  pub now : ℕ
  pub conn_made : ℕ
  pub device_made : ℕ → ℕ

abbrev pub conns_max : ℕ
conns_max = 512

abbrev pub pending_cap : ℕ
pending_cap = 1024

abbrev pub max_candidates : ℕ
max_candidates = 4

abbrev pub promote_threshold : ℕ
promote_threshold = 3

abbrev pub aa_of : Connection → ℕ
aa_of c = c.link.access_address

abbrev pub addr_of : DeviceEntry → ℕ
addr_of d = d.adv_addr

-- The registry with the configuration's `enforce_crc`, 0 without one.
unfoldable pub registry_init : ℕ → Tables → Registry
registry_init enforce_crc statics = record {
  conns = [];
  conns_cap = 0;
  seq = 0;
  devices = [];
  devices_cap = 0;
  tally = no_tally;
  next_id = 1;
  enforce_crc = enforce_crc;
  crc_tables = tables_init statics;
}

unfoldable pub set_enforce_crc : Registry → ℕ → Registry
set_enforce_crc r on = record r { enforce_crc = if on == 0 then 0 else 1 }

-- What `ble_registry_free` leaves: the tables are released and everything is cleared. Only another
-- start may follow, as the lock is gone.
unfoldable pub registry_free : Registry → Registry
registry_free r = record {
  conns = [];
  conns_cap = 0;
  seq = 0;
  devices = [];
  devices_cap = 0;
  tally = no_tally;
  next_id = 0;
  enforce_crc = 0;
  crc_tables = r.crc_tables;
}

unfoldable pub conn_find : ℕ → Registry → Option ℕ
unfolding find_key
conn_find aa r = find_key aa_of aa r.conns

-- What `memset` leaves.
abbrev pub no_link : Link
no_link = record {
  access_address = 0;
  state = collecting;
  crc_init = 0;
  candidates = [];
  packets_seen = 0;
  packets_accepted = 0;
  last_used_seq = 0;
}

abbrev pub no_connection : Connection
no_connection = record {
  link = no_link;
  connection_id = 0;
  device_id_central = 0;
  device_id_peripheral = 0;
  rssi = cleared_tracker;
  first_seen_ms = 0;
  last_seen_ms = 0;
}

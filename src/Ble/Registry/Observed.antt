-- ===== src/Ble/Registry/Observed.antt =====
-- What is observed of devices, and the linking of two of them, keep the registry valid.
use supertooth.Base.{
  ℕ, ◌+◌, ◌*◌, ◌<◌, ◌≡◌, inl, inr, refl, sym, ap, subst, arith, Bool, true, false, ◌||◌, Option,
  none, some, List, [], ◌∷◌, ◌++◌, length, get_or, set, ltb, ◌==◌, if◌then◌else◌, Bool-cases, u64,
}
use supertooth.Base.Keys.{
  Fresh, Distinct, Distinct-snoc, keys, keys-set_same, keys-snoc, find_key-Search, find_key-some,
  found, missing, Search,
}
use supertooth.Ble.Registry.{
  Connection, DeviceEntry, Registry, Host, aa_of, addr_of, conn_find, no_connection,
}
use supertooth.Ble.Registry.Table.{conn_acquire}
use supertooth.Ble.Registry.Devices.{
  DeviceObs, AdvertiserEvent, no_device, device_find, append_device, make_device,
  device_find_or_create, observe, observe_at, link_row, link_device, link_peers, id_at,
  connect_peers, ingest_at, device_ingest, add_device,
}
use supertooth.Ble.Registry.Submit.{}
use supertooth.Ble.Registry.Links.{LinkIsValid}
use supertooth.Ble.Registry.Valid.{device_keys, RegistryIsValid, AllLinks-get, Acquired}
use supertooth.Ble.Registry.Acquire.{conn_acquire-Acquired}
use supertooth.Ble.Registry.Gated.{with_row-IsValid, seed_candidate-IsValid}

-- A registry with other devices, whose addresses are distinct.
with_devices :
    (r : Registry) (ds : List DeviceEntry) (room id : ℕ)
    → RegistryIsValid r
    → Distinct (keys addr_of ds)
    → RegistryIsValid (record r { devices = ds; devices_cap = room; next_id = id })
with_devices r ds room id v h = record {
  conns_distinct = v.conns_distinct;
  conns_fit = v.conns_fit;
  cap_bound = v.cap_bound;
  tally_valid = v.tally_valid;
  links_valid = v.links_valid;
  devices_distinct = h;
  tables_reached = v.tables_reached;
}

-- A row of the devices that keeps its address.
with_device :
    (r : Registry) (i : ℕ) (d : DeviceEntry)
    → RegistryIsValid r
    → addr_of d ≡ addr_of (get_or r.devices i no_device)
    → RegistryIsValid (record r { devices = set r.devices i d })
with_device r i d v e =
    with_devices r (set r.devices i d) r.devices_cap r.next_id v
      (subst Distinct (sym (keys-set_same addr_of i d no_device r.devices e)) v.devices_distinct)

-- A row of the connections that keeps its link.
pub with_conn :
    (r : Registry) (i : ℕ) (c : Connection)
    → RegistryIsValid r
    → i < length r.conns
    → c.link ≡ (get_or r.conns i no_connection).link
    → RegistryIsValid (record r { conns = set r.conns i c })
with_conn r i c v inside e =
    with_row-IsValid r v i c r.seq r.crc_tables (ap (λ l. l.access_address) e)
      (subst LinkIsValid (sym e) (AllLinks-get i r.conns inside v.links_valid)) v.tables_reached

pub found_conn : (aa i : ℕ) (r : Registry) → conn_find aa r ≡ some i → i < length r.conns
unfolding conn_find
found_conn aa i r e = (find_key-some aa_of aa i no_connection r.conns e).0

append_device-IsValid :
    (host : Host) (addr room : ℕ) (r : Registry)
    → RegistryIsValid r
    → Fresh addr (device_keys r)
    → RegistryIsValid (append_device host addr (record r { devices_cap = room })).1
unfolding append_device
append_device-IsValid host addr room r v f =
    let d : DeviceEntry = record no_device {
      adv_addr = addr;
      device_id = r.next_id;
      first_seen_ms = host.device_made addr;
      last_seen_ms = host.device_made addr;
    } in
    with_devices r (r.devices ++ d ∷ []) room (u64 (r.next_id + 1)) v (
      subst Distinct (sym (keys-snoc addr_of d r.devices))
        (Distinct-snoc addr (device_keys r) f v.devices_distinct))

make_device-IsValid :
    (host : Host) (addr : ℕ) (r : Registry)
    → RegistryIsValid r
    → Fresh addr (device_keys r)
    → RegistryIsValid (make_device host addr r).1
unfolding make_device
make_device-IsValid host addr r v f = elim (Bool-cases (ltb (length r.devices) r.devices_cap)) [
  | inl room ↦ rw room (append_device-IsValid host addr r.devices_cap r v f)
  | inr full ↦ rw full (grown (if r.devices_cap == 0 then 16 else u64 (r.devices_cap * 2)))
]
  where
    grown :
        (n : ℕ)
        → RegistryIsValid (
            let q : Option ℕ × Registry =
              if host.grows_devices n
              then append_device host addr (record r { devices_cap = n })
              else (none, r) in
            q.1)
    grown n = elim (Bool-cases (host.grows_devices n)) [
      | inl granted ↦ rw granted (append_device-IsValid host addr n r v f)
      | inr refused ↦ rw refused v
    ]

pub device_find_or_create-IsValid :
    (host : Host) (addr : ℕ) (r : Registry)
    → RegistryIsValid r
    → RegistryIsValid (device_find_or_create host addr r).1
unfolding device_find_or_create device_find
device_find_or_create-IsValid host addr r v =
    sought (find_key-Search addr_of addr no_device r.devices)
  where
    sought :
        Search addr_of addr no_device r.devices
        → RegistryIsValid (device_find_or_create host addr r).1
    sought (found i e inside same) =
        let q : device_find_or_create host addr r ≡ (some i, r) = ground (arith, e) in
        subst (λ p. RegistryIsValid p.1) (sym q) v
    sought (missing e f) =
        let q : device_find_or_create host addr r ≡ make_device host addr r = ground (arith, e) in
        subst (λ p. RegistryIsValid p.1) (sym q) (make_device-IsValid host addr r v f)

pub observe_at-IsValid :
    (host : Host) (obs : DeviceObs) (i : ℕ) (r : Registry)
    → RegistryIsValid r
    → RegistryIsValid (observe_at host obs i r)
unfolding observe_at observe
observe_at-IsValid host obs i r v = with_device r i _ v refl

link_peers-IsValid :
    (host : Host) (ev : AdvertiserEvent) (id : ℕ) (c a init : Option ℕ) (r : Registry)
    → RegistryIsValid r
    → conn_find ev.conn_access_address r ≡ c
    → RegistryIsValid (link_peers host ev id c a init r)
unfolding link_peers link_row link_device
link_peers-IsValid host ev id (some c) (some a) (some init) r v e =
    with_device _ a _
      (seed_candidate-IsValid host ev.conn_access_address ev.conn_crc_init _
        (with_conn r c _ v (found_conn ev.conn_access_address c r e) refl))
      refl
link_peers-IsValid host ev id none a init r v e = v
link_peers-IsValid host ev id (some c) none init r v e = v
link_peers-IsValid host ev id (some c) (some a) none r v e = v

pub Acquired-IsValid : (aa : ℕ) (c : Option ℕ) (r : Registry) → Acquired aa c r → RegistryIsValid r
Acquired-IsValid aa none r a = a
Acquired-IsValid aa (some i) r a = a.2

pub connect_peers-IsValid :
    (host : Host) (ev : AdvertiserEvent) (r : Registry)
    → RegistryIsValid r
    → RegistryIsValid (connect_peers host ev r)
unfolding connect_peers
connect_peers-IsValid host ev r v =
    let r1 = conn_acquire host ev.conn_access_address true r in
    let v1 =
      Acquired-IsValid ev.conn_access_address r1.0 r1.1
        (conn_acquire-Acquired host ev.conn_access_address true r v) in
    let r2 = device_find_or_create host ev.conn_initiator_addr r1.1 in
    let v2 = device_find_or_create-IsValid host ev.conn_initiator_addr r1.1 v1 in
    let r3 = (device_find_or_create host ev.conn_advertiser_addr r2.1).1 in
    let v3 = device_find_or_create-IsValid host ev.conn_advertiser_addr r2.1 v2 in
    link_peers-IsValid host ev (id_at r2.0 r2.1) (conn_find ev.conn_access_address r3)
      (device_find ev.conn_advertiser_addr r3) (device_find ev.conn_initiator_addr r3) r3 v3 refl

ingest_at-IsValid :
    (host : Host) (ev : AdvertiserEvent) (i : ℕ) (r : Registry)
    → RegistryIsValid r
    → RegistryIsValid (ingest_at host ev i r)
unfolding ingest_at
ingest_at-IsValid host ev i r v =
    let observed = observe_at-IsValid host ev.obs i r v in
    elim (Bool-cases (ev.is_connect_ind == 0 || ev.crc_ok == 0)) [
      | inl plain ↦ rw plain observed
      | inr request ↦
          rw request (connect_peers-IsValid host ev (observe_at host ev.obs i r) observed)
    ]

pub device_ingest-IsValid :
    (host : Host) (ev : AdvertiserEvent) (r : Registry)
    → RegistryIsValid r
    → RegistryIsValid (device_ingest host ev r)
unfolding device_ingest
device_ingest-IsValid host ev r v =
    ingested (device_find_or_create host ev.obs.adv_addr r).0
      (device_find_or_create host ev.obs.adv_addr r).1
      (device_find_or_create-IsValid host ev.obs.adv_addr r v)
  where
    ingested :
        (d : Option ℕ) (r' : Registry)
        → RegistryIsValid r'
        → RegistryIsValid
            (let q : Registry = elim d [ none ↦ r' | some i ↦ ingest_at host ev i r' ] in q)
    ingested none r' w = w
    ingested (some i) r' w = ingest_at-IsValid host ev i r' w

pub add_device-IsValid :
    (host : Host) (obs : DeviceObs) (r : Registry)
    → RegistryIsValid r
    → RegistryIsValid (add_device host obs r).1
unfolding add_device
add_device-IsValid host obs r v =
    added (device_find_or_create host obs.adv_addr r).0
      (device_find_or_create host obs.adv_addr r).1
      (device_find_or_create-IsValid host obs.adv_addr r v)
  where
    added :
        (d : Option ℕ) (r' : Registry)
        → RegistryIsValid r'
        → RegistryIsValid (
            let q : Bool × Registry = elim d [
              | none ↦ (false, r')
              | some i ↦ (true, observe_at host obs i r')
            ] in
            q.1)
    added none r' w = w
    added (some i) r' w = observe_at-IsValid host obs i r' w

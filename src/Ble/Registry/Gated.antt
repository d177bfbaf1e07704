-- ===== src/Ble/Registry/Gated.antt =====
-- The gate for data PDUs and the seeding of candidates keep the registry valid.
use supertooth.Base.{
  ℕ, ◌+◌, ◌<◌, ◌≡◌, inr, refl, sym, subst, arith, true, false, Option, none, some, Bytes, length,
  get_or, set, length-set, u64,
}
use supertooth.Base.Keys.{Distinct, keys, keys-set_same}
use supertooth.Models.Tally.Laws.{TallyIsValid}
use supertooth.Ble.CrcInit.{Tables, tables_init}
use supertooth.Ble.CrcInit.Recover.{Reached, tables_init-Reached}
use supertooth.Ble.Registry.{
  ConnectionState, collecting, confirmed, Link, Connection, Registry, Host, aa_of, no_connection,
}
use supertooth.Ble.Registry.Table.{conn_acquire}
use supertooth.Ble.Registry.Gate.{
  first_fit, count_accepted, settle, link_confirm, link_add_candidate, gate_link, touch_link,
  gate_at, gate_data_pdu, seed_link, seed_at, seed_candidate,
}
use supertooth.Ble.Registry.Links.{
  LinkIsValid, link_add_candidate-LinkIsValid, gate_link-LinkIsValid, gate_link-Reached,
}
use supertooth.Ble.Registry.Valid.{conn_keys, RegistryIsValid, AllLinks-get, AllLinks-set, Acquired}
use supertooth.Ble.Registry.Acquire.{conn_acquire-Acquired}

-- A registry with another state of one connection.
module _ (r : Registry) (v : RegistryIsValid r) (i : ℕ) (c : Connection) (seq : ℕ)
    (t : Tables) where
  abbrev pub with_row : Registry
  with_row = record r { conns = set r.conns i c; seq = seq; crc_tables = t }

  module _ (same : aa_of c ≡ aa_of (get_or r.conns i no_connection)) where
    same_keys : keys aa_of (set r.conns i c) ≡ conn_keys r
    same_keys = keys-set_same aa_of i c no_connection r.conns same

    pub with_row-IsValid : LinkIsValid c.link → Reached t → RegistryIsValid with_row
    with_row-IsValid w h = record {
      conns_distinct = subst Distinct (sym same_keys) v.conns_distinct;
      conns_fit = omega (arith, length-set r.conns i c, v.conns_fit);
      cap_bound = v.cap_bound;
      tally_valid = subst (λ k. TallyIsValid 1024 k r.tally) (sym same_keys) v.tally_valid;
      links_valid = AllLinks-set i c r.conns w v.links_valid;
      devices_distinct = v.devices_distinct;
      tables_reached = h;
    }

settle-aa : (o : Option ℕ) (link : Link) → (settle o link).1.access_address ≡ link.access_address
unfolding settle link_confirm count_accepted
settle-aa none link = refl
settle-aa (some c) link = refl

pub gate_link-aa :
    (s : ConnectionState) (link : Link) (pdu : Bytes) (n rx_crc : ℕ) (t : Tables)
    → (gate_link s link pdu n rx_crc t).1.access_address ≡ link.access_address
unfolding gate_link link_add_candidate count_accepted
gate_link-aa confirmed link pdu n rx_crc t = ground arith
gate_link-aa collecting link pdu n rx_crc t =
    ground (arith, settle-aa (first_fit pdu n rx_crc link.candidates) link)

gate_at-IsValid :
    (i : ℕ) (pdu : Bytes) (n rx_crc : ℕ) (r : Registry)
    → RegistryIsValid r
    → i < length r.conns
    → RegistryIsValid (gate_at i pdu n rx_crc r).1
unfolding gate_at touch_link
gate_at-IsValid i pdu n rx_crc r v inside =
    let c = get_or r.conns i no_connection in
    let link = touch_link (u64 (r.seq + 1)) c.link in
    let old = AllLinks-get i r.conns inside v.links_valid in
    let touched : LinkIsValid link = record {
      candidates_valid = old.candidates_valid;
      crc_init_bound = old.crc_init_bound;
    } in
    with_row-IsValid r v i
      (record c { link = (gate_link link.state link pdu n rx_crc r.crc_tables).1 })
      (u64 (r.seq + 1)) (gate_link link.state link pdu n rx_crc r.crc_tables).2
      (gate_link-aa link.state link pdu n rx_crc r.crc_tables)
      (gate_link-LinkIsValid link.state link pdu n rx_crc r.crc_tables touched)
      (gate_link-Reached link.state link pdu n rx_crc r.crc_tables v.tables_reached)

-- The registry behind the call that builds the statics.
pub built-IsValid :
    (r : Registry)
    → RegistryIsValid r
    → RegistryIsValid (record r { crc_tables = tables_init r.crc_tables })
built-IsValid r v = record {
  conns_distinct = v.conns_distinct;
  conns_fit = v.conns_fit;
  cap_bound = v.cap_bound;
  tally_valid = v.tally_valid;
  links_valid = v.links_valid;
  devices_distinct = v.devices_distinct;
  tables_reached = inr (tables_init-Reached r.crc_tables v.tables_reached);
}

pub gate_data_pdu-IsValid :
    (host : Host) (aa : ℕ) (pdu : Bytes) (n rx_crc : ℕ) (r : Registry)
    → RegistryIsValid r
    → RegistryIsValid (gate_data_pdu host aa pdu n rx_crc r).1
unfolding gate_data_pdu
gate_data_pdu-IsValid host aa pdu n rx_crc r v =
    let built = record r { crc_tables = tables_init r.crc_tables } in
    passed (conn_acquire host aa false built).0 (conn_acquire host aa false built).1
      (conn_acquire-Acquired host aa false built (built-IsValid r v))
  where
    passed :
        (c : Option ℕ) (r' : Registry)
        → Acquired aa c r'
        → RegistryIsValid (
            let q : Option ℕ × Registry = elim c [
              | none ↦ (none, r')
              | some i ↦ gate_at i pdu n rx_crc r'
            ] in
            q.1)
    passed none r' a = a
    passed (some i) r' a = gate_at-IsValid i pdu n rx_crc r' a.2 a.0

seed_link-aa :
    (s : ConnectionState) (l : Link) (c : ℕ) → (seed_link s l c).access_address ≡ l.access_address
unfolding seed_link link_add_candidate
seed_link-aa confirmed l c = refl
seed_link-aa collecting l c = refl

seed_link-LinkIsValid :
    (s : ConnectionState) (l : Link) (c : ℕ) → LinkIsValid l → LinkIsValid (seed_link s l c)
unfolding seed_link
seed_link-LinkIsValid confirmed l c v = v
seed_link-LinkIsValid collecting l c v = link_add_candidate-LinkIsValid l c v

pub seed_at-IsValid :
    (i crc_init : ℕ) (r : Registry)
    → RegistryIsValid r
    → i < length r.conns
    → RegistryIsValid (seed_at i crc_init r)
unfolding seed_at
seed_at-IsValid i crc_init r v inside =
    let c = get_or r.conns i no_connection in
    let link = record c.link { last_used_seq = u64 (r.seq + 1) } in
    let old = AllLinks-get i r.conns inside v.links_valid in
    let used : LinkIsValid link = record {
      candidates_valid = old.candidates_valid;
      crc_init_bound = old.crc_init_bound;
    } in
    with_row-IsValid r v i (record c { link = seed_link link.state link crc_init })
      (u64 (r.seq + 1)) r.crc_tables (seed_link-aa link.state link crc_init)
      (seed_link-LinkIsValid link.state link crc_init used) v.tables_reached

pub seed_candidate-IsValid :
    (host : Host) (aa crc_init : ℕ) (r : Registry)
    → RegistryIsValid r
    → RegistryIsValid (seed_candidate host aa crc_init r)
unfolding seed_candidate
seed_candidate-IsValid host aa crc_init r v =
    seeded (conn_acquire host aa true r).0 (conn_acquire host aa true r).1
      (conn_acquire-Acquired host aa true r v)
  where
    seeded :
        (c : Option ℕ) (r' : Registry)
        → Acquired aa c r'
        → RegistryIsValid
            (let q : Registry = elim c [ none ↦ r' | some i ↦ seed_at i crc_init r' ] in q)
    seeded none r' a = a
    seeded (some i) r' a = seed_at-IsValid i crc_init r' a.2 a.0

-- ===== src/Ble/Registry/Valid.antt =====
-- What the registry of src/core/protocol/ble/ble_registry.c keeps.
use supertooth.Base.{
  ℕ, zero, suc, ◌<◌, ◌≤◌, ◌≡◌, arith, Option, none, some, List, [], ◌∷◌, ◌++◌, length, get_or, set,
}
use supertooth.Base.Keys.{Distinct, keys}
use supertooth.Models.Tally.Laws.{TallyIsValid}
use supertooth.Ble.CrcInit.Recover.{Reached}
use supertooth.Ble.Registry.{Connection, Registry, aa_of, addr_of, no_connection}
use supertooth.Ble.Registry.Table.{}
use supertooth.Ble.Registry.Links.{LinkIsValid}

abbrev pub conn_keys : Registry → List ℕ
conn_keys r = keys aa_of r.conns

abbrev pub device_keys : Registry → List ℕ
device_keys r = keys addr_of r.devices

abbrev pub AllLinks : List Connection → Type 0
AllLinks [] = Unit {0}
AllLinks (c ∷ cs) = LinkIsValid c.link × AllLinks cs

pub record RegistryIsValid (r : Registry) : Type 0 where
  pub conns_distinct : Distinct (conn_keys r)
  pub conns_fit : length r.conns ≤ r.conns_cap
  pub cap_bound : r.conns_cap ≤ 512
  pub tally_valid : TallyIsValid 1024 (conn_keys r) r.tally
  pub links_valid : AllLinks r.conns
  pub devices_distinct : Distinct (device_keys r)
  pub tables_reached : Reached r.crc_tables

pub AllLinks-get :
    (i : ℕ) (cs : List Connection)
    → i < length cs
    → AllLinks cs
    → LinkIsValid (get_or cs i no_connection).link
AllLinks-get i [] h a = absurd (omega arith)
AllLinks-get zero (c ∷ cs) h a = a.0
AllLinks-get (suc i) (c ∷ cs) h a = AllLinks-get i cs (omega arith) a.1

pub AllLinks-set :
    (i : ℕ) (c : Connection) (cs : List Connection)
    → LinkIsValid c.link
    → AllLinks cs
    → AllLinks (set cs i c)
AllLinks-set i c [] v a = tt
AllLinks-set zero c (x ∷ cs) v a = (v, a.1)
AllLinks-set (suc i) c (x ∷ cs) v a = (a.0, AllLinks-set i c cs v a.1)

pub AllLinks-snoc :
    (c : Connection) (cs : List Connection)
    → LinkIsValid c.link
    → AllLinks cs
    → AllLinks (cs ++ c ∷ [])
AllLinks-snoc c [] v a = (v, tt)
AllLinks-snoc c (x ∷ cs) v a = (a.0, AllLinks-snoc c cs v a.1)

-- A pointer to the row of an address in a valid registry, or none.
abbrev pub Acquired : ℕ → Option ℕ → Registry → Type 0
Acquired aa none r = RegistryIsValid r
Acquired aa (some i) r =
    (i < length r.conns) × (aa_of (get_or r.conns i no_connection) ≡ aa) × RegistryIsValid r

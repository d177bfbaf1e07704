-- ===== src/Ble/Registry/Acquire.antt =====
-- An address gets its row, and the registry of src/core/protocol/ble/ble_registry.c stays valid.
use supertooth.Base.{
  ℕ, ◌<◌, ◌≤◌, ◌≡◌, inl, inr, sym, subst, arith, Bool, true, false, none, some, length, ltb,
  if◌then◌else◌, Bool-cases,
}
use supertooth.Base.Keys.{
  Fresh, find_key-Search, found, missing, Search, find_key, find_key-Fresh, find_key-Fresh,
}
use supertooth.Models.Tally.{Tally, pending_bump, pending_drop}
use supertooth.Models.Tally.Laws.{
  TallyIsValid, pending_keys, pending_bump-TallyIsValid, pending_drop-TallyIsValid,
}
use supertooth.Ble.Registry.{
  Registry, Host, aa_of, conn_find, conns_max, promote_threshold, no_connection,
}
use supertooth.Ble.Registry.Table.{
  conn_victim_index, grown_cap, append_conn, make_conn, conn_create, promote, earn_conn,
  conn_acquire,
}
use supertooth.Ble.Registry.Valid.{conn_keys, RegistryIsValid, Acquired}
use supertooth.Ble.Registry.Rows.{
  append_conn-Acquired, replace_conn-Acquired, conn_victim_index-lt, grown_cap_bounds,
}

make_conn-Acquired :
    (host : Host) (aa : ℕ) (r : Registry)
    → RegistryIsValid r
    → Fresh aa (conn_keys r)
    → Fresh aa (pending_keys r.tally)
    → Acquired aa (make_conn host aa r).0 (make_conn host aa r).1
unfolding make_conn
make_conn-Acquired host aa r v f g = elim (Bool-cases (ltb (length r.conns) r.conns_cap)) [
  | inl room ↦ rw room (append_conn-Acquired host aa r v f g (ground arith))
  | inr full ↦ rw full (elim (Bool-cases (ltb r.conns_cap conns_max)) [
    | inl small ↦ rw small (grown (ground arith) (ground arith))
    | inr large ↦
        let some_row : 0 < length r.conns = ground arith in
        rw large (
          replace_conn-Acquired host aa r v f g (conn_victim_index r.conns)
            (conn_victim_index-lt r.conns some_row))
  ])
]
  where
    wider :
        length r.conns < grown_cap r.conns_cap
        → grown_cap r.conns_cap ≤ 512
        → RegistryIsValid (record r { conns_cap = grown_cap r.conns_cap })
    wider p q = record {
      conns_distinct = v.conns_distinct;
      conns_fit = omega arith;
      cap_bound = q;
      tally_valid = v.tally_valid;
      links_valid = v.links_valid;
      devices_distinct = v.devices_distinct;
      tables_reached = v.tables_reached;
    }

    grown :
        r.conns_cap < 512
        → length r.conns ≡ r.conns_cap
        → Acquired aa
            (if host.grows_conns (grown_cap r.conns_cap)
              then append_conn host aa (record r { conns_cap = grown_cap r.conns_cap })
              else (none, r)).0
            (if host.grows_conns (grown_cap r.conns_cap)
              then append_conn host aa (record r { conns_cap = grown_cap r.conns_cap })
              else (none, r)).1
    grown small same = elim (Bool-cases (host.grows_conns (grown_cap r.conns_cap))) [
      | inl granted ↦
          let (p, q) = grown_cap_bounds r.conns_cap small in
          rw granted (
            append_conn-Acquired host aa (record r { conns_cap = grown_cap r.conns_cap })
              (wider (omega (arith, same)) q) f g (omega (arith, same)))
      | inr refused ↦ rw refused v
    ]

conn_create-Acquired :
    (host : Host) (aa : ℕ) (r : Registry)
    → RegistryIsValid r
    → Fresh aa (conn_keys r)
    → Fresh aa (pending_keys r.tally)
    → Acquired aa (conn_create host aa r).0 (conn_create host aa r).1
unfolding conn_create conn_find
conn_create-Acquired host aa r v f g =
    let absent : find_key aa_of aa r.conns ≡ none = find_key-Fresh aa_of aa r.conns f in
    let e : conn_create host aa r ≡ make_conn host aa r = ground (arith, absent) in
    subst (λ p. Acquired aa p.0 p.1) (sym e) (make_conn-Acquired host aa r v f g)

-- A registry with another tally.
with_tally :
    (r : Registry) (t : Tally)
    → RegistryIsValid r
    → TallyIsValid 1024 (conn_keys r) t
    → RegistryIsValid (record r { tally = t })
with_tally r t v w = record {
  conns_distinct = v.conns_distinct;
  conns_fit = v.conns_fit;
  cap_bound = v.cap_bound;
  tally_valid = w;
  links_valid = v.links_valid;
  devices_distinct = v.devices_distinct;
  tables_reached = v.tables_reached;
}

promote-Acquired :
    (host : Host) (aa : ℕ) (r : Registry)
    → RegistryIsValid r
    → Fresh aa (conn_keys r)
    → Acquired aa (promote host aa r).0 (promote host aa r).1
unfolding promote
promote-Acquired host aa r v f =
    let (w, g) = pending_drop-TallyIsValid 1024 (conn_keys r) aa r.tally v.tally_valid in
    conn_create-Acquired host aa _ (with_tally r (pending_drop aa r.tally) v w) f g

earn_conn-Acquired :
    (force : Bool) (host : Host) (aa : ℕ) (r : Registry)
    → RegistryIsValid r
    → Fresh aa (conn_keys r)
    → Acquired aa (earn_conn force host aa r).0 (earn_conn force host aa r).1
unfolding earn_conn
earn_conn-Acquired true host aa r v f = promote-Acquired host aa r v f
earn_conn-Acquired false host aa r v f =
    let bumped = pending_bump 1024 aa r.tally in
    let counted =
      with_tally r bumped.1 v
        (pending_bump-TallyIsValid 1024 (conn_keys r) aa r.tally (omega arith) v.tally_valid f) in
    elim (Bool-cases (ltb bumped.0 promote_threshold)) [
      | inl few ↦ rw few counted
      | inr enough ↦ rw enough (promote-Acquired host aa (record r { tally = bumped.1 }) counted f)
    ]

-- Whoever asks for the row of an address gets a pointer to the row of that address, or none, and the
-- registry is valid afterwards.
pub conn_acquire-Acquired :
    (host : Host) (aa : ℕ) (force : Bool) (r : Registry)
    → RegistryIsValid r
    → Acquired aa (conn_acquire host aa force r).0 (conn_acquire host aa force r).1
unfolding conn_acquire conn_find
conn_acquire-Acquired host aa force r v = acquired (find_key-Search aa_of aa no_connection r.conns)
  where
    acquired :
        Search aa_of aa no_connection r.conns
        → Acquired aa (conn_acquire host aa force r).0 (conn_acquire host aa force r).1
    acquired (found i e inside same) =
        let q : conn_acquire host aa force r ≡ (some i, r) = ground (arith, e) in
        subst (λ p. Acquired aa p.0 p.1) (sym q) (inside, same, v)
    acquired (missing e f) =
        let q : conn_acquire host aa force r ≡ earn_conn force host aa r = ground (arith, e) in
        subst (λ p. Acquired aa p.0 p.1) (sym q) (earn_conn-Acquired force host aa r v f)

-- The row that is there is found, and nothing changes.
pub conn_acquire_found :
    (host : Host) (aa : ℕ) (force : Bool) (r : Registry) (i : ℕ)
    → conn_find aa r ≡ some i
    → conn_acquire host aa force r ≡ (some i, r)
unfolding conn_acquire
conn_acquire_found host aa force r i e = ground (arith, e)

-- ===== src/Ble/Registry/Rows.antt =====
-- A connection gets its row in src/core/protocol/ble/ble_registry.c: the row that is given up is one of
-- the table, and a row at the end or in place of another keeps the registry valid.
use supertooth.Base.{
  ℕ, ◌+◌, ◌-◌, ◌^◌, ◌<◌, ◌≤◌, ◌≡◌, refl, sym, ap, subst, arith, List, [], ◌∷◌, ◌++◌, length, get_or,
  set, length-append, length-set, get_or-set_self, ltb, if◌then◌else◌,
}
use supertooth.Base.Keys.{
  Fresh, Distinct, Distinct-set, Distinct-snoc, Apart-Fresh, Apart-set_right, keys, keys-set,
  keys-snoc,
}
use supertooth.Models.Tally.Laws.{TallyIsValid, pending_keys}
use supertooth.Ble.Registry.{
  ConnectionState, collecting, confirmed, Link, Connection, Registry, Host, aa_of, no_connection,
}
use supertooth.Ble.Registry.Table.{
  Best, weigh, weigh_loop, oldest_loop, conn_victim_index, new_connection, grown_cap, append_conn,
  replace_conn,
}
use supertooth.Ble.Registry.Links.{LinkIsValid}
use supertooth.Ble.Registry.Valid.{
  conn_keys, RegistryIsValid, AllLinks-set, AllLinks-snoc, Acquired,
}

weigh-lt :
    (s : ConnectionState) (i n : ℕ) (e : Link) (v : Best)
    → i < n
    → v.best < n
    → (weigh s i e v).best < n
unfolding weigh
weigh-lt confirmed i n e v h k = k
weigh-lt collecting i n e v h k = ground arith

weigh_loop-lt :
    (i n : ℕ) (cs : List Connection) (v : Best)
    → v.best < n
    → i + length cs ≤ n
    → (weigh_loop i cs v).best < n
unfolding weigh_loop
weigh_loop-lt i n [] v h k = h
weigh_loop-lt i n (c ∷ cs) v h k =
    weigh_loop-lt (i + 1) n cs (weigh c.link.state i c.link v)
      (weigh-lt c.link.state i n c.link v (omega arith) h) (omega arith)

oldest_loop-lt :
    (i n : ℕ) (cs : List Connection) (best best_seq : ℕ)
    → best < n
    → i + length cs ≤ n
    → oldest_loop i cs best best_seq < n
unfolding oldest_loop
oldest_loop-lt i n [] best best_seq h k = h
oldest_loop-lt i n (c ∷ cs) best best_seq h k =
    oldest_loop-lt (i + 1) n cs (if ltb c.link.last_used_seq best_seq then i else best)
      (if ltb c.link.last_used_seq best_seq then c.link.last_used_seq else best_seq) (ground arith)
      (omega arith)

pub conn_victim_index-lt : (cs : List Connection) → 0 < length cs → conn_victim_index cs < length cs
unfolding conn_victim_index
conn_victim_index-lt cs h =
    let start : Best = record {
      best = 0;
      best_seq = 2 ^ 64 - 1;
      best_pkts = 0;
      best_has_cand = 1;
    } in
    let v = weigh_loop 0 cs start in
    let inside : v.best < length cs = weigh_loop-lt 0 (length cs) cs start h (omega arith) in
    ground (arith, inside, oldest_loop-lt 0 (length cs) cs v.best v.best_seq)

-- The row as it is made.
new_connection-LinkIsValid :
    (host : Host) (aa id : ℕ) → LinkIsValid (new_connection host aa id).link
unfolding new_connection
new_connection-LinkIsValid host aa id = record {
  candidates_valid = record { small = tt; distinct = tt; bound = omega arith };
  crc_init_bound = omega arith;
}

get_last :
    (cs : List Connection) (c : Connection) → get_or (cs ++ c ∷ []) (length cs) no_connection ≡ c
get_last [] c = refl
get_last (x ∷ cs) c = get_last cs c

module _ (host : Host) (aa : ℕ) (r : Registry) (v : RegistryIsValid r) (f : Fresh aa (conn_keys r))
    (g : Fresh aa (pending_keys r.tally)) where
  pub append_conn-Acquired :
      length r.conns < r.conns_cap → Acquired aa (append_conn host aa r).0 (append_conn host aa r).1
  unfolding append_conn new_connection
  append_conn-Acquired room =
      let c : Connection = new_connection host aa r.next_id in
      let more : keys aa_of (r.conns ++ c ∷ []) ≡ conn_keys r ++ aa ∷ [] =
        keys-snoc aa_of c r.conns in
      (
        omega (arith, length-append r.conns (c ∷ [])),
        ap aa_of (get_last r.conns c),
        record {
          conns_distinct =
              subst Distinct (sym more) (Distinct-snoc aa (conn_keys r) f v.conns_distinct);
          conns_fit = omega (arith, length-append r.conns (c ∷ []));
          cap_bound = v.cap_bound;
          tally_valid =
              subst (λ t. TallyIsValid 1024 t r.tally) (sym more)
                (record {
                  distinct = v.tally_valid.distinct;
                  apart = Apart-Fresh aa (pending_keys r.tally) (conn_keys r) v.tally_valid.apart g;
                  bound = v.tally_valid.bound;
                });
          links_valid =
              AllLinks-snoc c r.conns (new_connection-LinkIsValid host aa r.next_id) v.links_valid;
          devices_distinct = v.devices_distinct;
          tables_reached = v.tables_reached;
        },
      )

  pub replace_conn-Acquired :
      (i : ℕ)
      → i < length r.conns
      → Acquired aa (replace_conn host aa i r).0 (replace_conn host aa i r).1
  unfolding replace_conn new_connection
  replace_conn-Acquired i inside =
      let c : Connection = new_connection host aa r.next_id in
      let other : keys aa_of (set r.conns i c) ≡ set (conn_keys r) i aa =
        keys-set aa_of i c r.conns in
      (
        omega (arith, length-set r.conns i c),
        ap aa_of (get_or-set_self r.conns i c no_connection inside),
        record {
          conns_distinct =
              subst Distinct (sym other) (Distinct-set aa i (conn_keys r) f v.conns_distinct);
          conns_fit = omega (arith, length-set r.conns i c, v.conns_fit);
          cap_bound = v.cap_bound;
          tally_valid =
              subst (λ t. TallyIsValid 1024 t r.tally) (sym other)
                (record {
                  distinct = v.tally_valid.distinct;
                  apart =
                      Apart-set_right aa i (pending_keys r.tally) (conn_keys r) v.tally_valid.apart
                        g;
                  bound = v.tally_valid.bound;
                });
          links_valid =
              AllLinks-set i c r.conns (new_connection-LinkIsValid host aa r.next_id) v.links_valid;
          devices_distinct = v.devices_distinct;
          tables_reached = v.tables_reached;
        },
      )

pub grown_cap_bounds : (n : ℕ) → n < 512 → (n < grown_cap n) × (grown_cap n ≤ 512)
unfolding grown_cap
grown_cap_bounds n h = ground arith

-- ===== src/Ble/Registry/Table.antt =====
-- The table of connections of src/core/protocol/ble/ble_registry.c: how an address earns a row, and
-- which row is given up when the table is full.
use supertooth.Base.{
  ℕ, ◌+◌, ◌*◌, ◌-◌, ◌^◌, Bool, true, false, ◌&&◌, ◌||◌, not, Option, none, some, List, [], ◌∷◌,
  ◌++◌, length, set, ltb, ◌==◌, if◌then◌else◌, u32, u64, flag,
}
use supertooth.Models.Tally.{pending_bump, pending_drop}
use supertooth.Ble.Registry.{
  ConnectionState, collecting, confirmed, Link, Connection, Registry, Host, conns_max, pending_cap,
  promote_threshold, conn_find, no_link, no_connection,
}

-- The locals of `conn_victim_index`.
pub record Best : Type 0 where
  pub best : ℕ
  pub best_seq : ℕ
  pub best_pkts : ℕ
  pub best_has_cand : ℕ

unfoldable pub is_better : Link → Best → Bool
is_better e v =
    let has_cand = flag (ltb 0 (length e.candidates)) in
    let pkts = u32 e.packets_seen in
    if not (has_cand == v.best_has_cand)
    then (not (v.best_has_cand == 0) && has_cand == 0)
    else if not (pkts == v.best_pkts)
    then ltb pkts v.best_pkts
    else ltb e.last_used_seq v.best_seq

-- A connection that is not confirmed, at row `i`.
unfoldable pub weigh : ConnectionState → ℕ → Link → Best → Best
unfolding is_better
weigh confirmed i e v = v
weigh collecting i e v =
    if v.best_seq == 2 ^ 64 - 1 || is_better e v
    then record {
      best = i;
      best_seq = e.last_used_seq;
      best_pkts = u32 e.packets_seen;
      best_has_cand = flag (ltb 0 (length e.candidates));
    }
    else v

unfoldable pub weigh_loop : ℕ → List Connection → Best → Best
unfolding weigh
weigh_loop i [] v = v
weigh_loop i (c ∷ cs) v = weigh_loop (i + 1) cs (weigh c.link.state i c.link v)

-- The second loop, over all connections.
unfoldable pub oldest_loop : ℕ → List Connection → ℕ → ℕ → ℕ
oldest_loop i [] best best_seq = best
oldest_loop i (c ∷ cs) best best_seq =
    oldest_loop (i + 1) cs (if ltb c.link.last_used_seq best_seq then i else best)
      (if ltb c.link.last_used_seq best_seq then c.link.last_used_seq else best_seq)

unfoldable pub conn_victim_index : List Connection → ℕ
unfolding weigh_loop oldest_loop
conn_victim_index conns =
    let v =
      weigh_loop 0 conns
        (record { best = 0; best_seq = 2 ^ 64 - 1; best_pkts = 0; best_has_cand = 1 }) in
    if v.best_seq == 2 ^ 64 - 1 then oldest_loop 0 conns v.best v.best_seq else v.best

unfoldable pub new_connection : Host → ℕ → ℕ → Connection
new_connection host aa id = record no_connection {
  link = record no_link { access_address = aa };
  connection_id = id;
  first_seen_ms = host.conn_made;
  last_seen_ms = host.conn_made;
}

unfoldable pub grown_cap : ℕ → ℕ
grown_cap cap_now =
    let new_cap = if cap_now == 0 then 16 else cap_now * 2 in
    if ltb conns_max new_cap then conns_max else new_cap

-- A row at the end of the table, and one in place of a victim.
unfoldable pub append_conn : Host → ℕ → Registry → Option ℕ × Registry
unfolding new_connection
append_conn host aa r = (
  some (length r.conns),
  record r {
    conns = r.conns ++ new_connection host aa r.next_id ∷ [];
    next_id = u64 (r.next_id + 1);
  },
)

unfoldable pub replace_conn : Host → ℕ → ℕ → Registry → Option ℕ × Registry
unfolding new_connection
replace_conn host aa i r = (
  some i,
  record r {
    conns = set r.conns i (new_connection host aa r.next_id);
    next_id = u64 (r.next_id + 1);
  },
)

-- A connection that is not there yet. `none` is the null pointer.
unfoldable pub make_conn : Host → ℕ → Registry → Option ℕ × Registry
unfolding append_conn replace_conn grown_cap conn_victim_index
make_conn host aa r =
    let new_cap = grown_cap r.conns_cap in
    if ltb (length r.conns) r.conns_cap
    then append_conn host aa r
    else if ltb r.conns_cap conns_max
    then (if host.grows_conns new_cap
        then append_conn host aa (record r { conns_cap = new_cap })
        else (none, r))
    else replace_conn host aa (conn_victim_index r.conns) r

unfoldable pub conn_create : Host → ℕ → Registry → Option ℕ × Registry
unfolding conn_find make_conn
conn_create host aa r = elim (conn_find aa r) [ some i ↦ (some i, r) | none ↦ make_conn host aa r ]

-- An address leaves the tally and gets its row.
unfoldable pub promote : Host → ℕ → Registry → Option ℕ × Registry
unfolding conn_create pending_drop
promote host aa r = conn_create host aa (record r { tally = pending_drop aa r.tally })

-- An address without a row, at once or once it was counted often enough.
unfoldable pub earn_conn : Bool → Host → ℕ → Registry → Option ℕ × Registry
unfolding promote pending_bump
earn_conn true host aa r = promote host aa r
earn_conn false host aa r =
    let (cnt, tally) = pending_bump pending_cap aa r.tally in
    let counted = record r { tally = tally } in
    if ltb cnt promote_threshold then (none, counted) else promote host aa counted

unfoldable pub conn_acquire : Host → ℕ → Bool → Registry → Option ℕ × Registry
unfolding conn_find earn_conn
conn_acquire host aa force r = elim (conn_find aa r) [
  | some i ↦ (some i, r)
  | none ↦ earn_conn force host aa r
]

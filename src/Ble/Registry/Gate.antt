-- ===== src/Ble/Registry/Gate.antt =====
-- The gate for data PDUs of src/core/protocol/ble/ble_registry.c: what a connection learns from a PDU
-- about the initial value of its checksum, and which PDUs it accepts.
use supertooth.Base.{
  ℕ, ◌+◌, bit_and, Bool, true, false, ◌||◌, Option, none, some, List, [], ◌∷◌, ◌++◌, Bytes, length,
  get_or, set, drop, ltb, ◌==◌, if◌then◌else◌, u64,
}
use supertooth.Ble.Crc.{crc_calc}
use supertooth.Ble.CrcInit.{Tables, tables_init, reverse_init_len2}
use supertooth.Ble.Registry.{
  ConnectionState, collecting, confirmed, Link, Registry, Host, max_candidates, no_connection,
}
use supertooth.Ble.Registry.Table.{conn_acquire}

unfoldable pub has_candidate : ℕ → List ℕ → Bool
has_candidate crc_init [] = false
has_candidate crc_init (c ∷ cs) = c == crc_init || has_candidate crc_init cs

-- Four candidates are kept; the oldest one leaves.
unfoldable pub add_candidate : ℕ → List ℕ → List ℕ
unfolding has_candidate
add_candidate crc_init cs =
    if has_candidate crc_init cs
    then cs
    else if ltb (length cs) max_candidates
    then cs ++ crc_init ∷ []
    else drop 1 cs ++ crc_init ∷ []

unfoldable pub link_add_candidate : Link → ℕ → Link
unfolding add_candidate
link_add_candidate link crc_init = record link {
  candidates = add_candidate (bit_and crc_init 0xffffff) link.candidates;
}

unfoldable pub link_confirm : Link → ℕ → Link
link_confirm link crc_init = record link {
  state = confirmed;
  crc_init = bit_and crc_init 0xffffff;
  candidates = [];
}

unfoldable pub crc_fits : Bytes → ℕ → ℕ → ℕ → Bool
crc_fits pdu pdu_bytes rx_crc crc_init = crc_calc pdu pdu_bytes crc_init == bit_and rx_crc 0xffffff

-- The loop over the candidates.
unfoldable pub first_fit : Bytes → ℕ → ℕ → List ℕ → Option ℕ
unfolding crc_fits
first_fit pdu pdu_bytes rx_crc [] = none
first_fit pdu pdu_bytes rx_crc (c ∷ cs) =
    if crc_fits pdu pdu_bytes rx_crc c then some c else first_fit pdu pdu_bytes rx_crc cs

unfoldable pub count_accepted : Link → Link
count_accepted link = record link { packets_accepted = u64 (link.packets_accepted + 1) }

-- What a PDU that is no empty one means for a link that collects.
unfoldable pub settle : Option ℕ → Link → Option ℕ × Link
unfolding link_confirm count_accepted
settle none link = (none, link)
settle (some used) link = (some used, count_accepted (link_confirm link used))

-- The initial value that is accepted, the link and the statics.
unfoldable pub gate_link :
    ConnectionState → Link → Bytes → ℕ → ℕ → Tables → Option ℕ × Link × Tables
unfolding settle first_fit link_add_candidate
gate_link confirmed link pdu pdu_bytes rx_crc t =
    if crc_fits pdu pdu_bytes rx_crc link.crc_init
    then (some link.crc_init, count_accepted link, t)
    else (none, link, t)
gate_link collecting link pdu pdu_bytes rx_crc t =
    let (crc_init, t') = reverse_init_len2 t pdu rx_crc in
    let (used, settled) = settle (first_fit pdu pdu_bytes rx_crc link.candidates) link in
    if pdu_bytes == 2 then (none, link_add_candidate link crc_init, t') else (used, settled, t)

-- A link that is used now.
unfoldable pub touch_link : ℕ → Link → Link
touch_link seq link = record link {
  packets_seen = u64 (link.packets_seen + 1);
  last_used_seq = seq;
}

unfoldable pub gate_at : ℕ → Bytes → ℕ → ℕ → Registry → Option ℕ × Registry
unfolding gate_link touch_link
gate_at i pdu pdu_bytes rx_crc r =
    let seq = u64 (r.seq + 1) in
    let c = get_or r.conns i no_connection in
    let link = touch_link seq c.link in
    let (used, link', t) = gate_link link.state link pdu pdu_bytes rx_crc r.crc_tables in
    (
      used,
      record r { conns = set r.conns i (record c { link = link' }); seq = seq; crc_tables = t },
    )

-- `gate_data_pdu`: `none` is the result 0.
unfoldable pub gate_data_pdu : Host → ℕ → Bytes → ℕ → ℕ → Registry → Option ℕ × Registry
unfolding conn_acquire gate_at
gate_data_pdu host aa pdu pdu_bytes rx_crc r =
    let (c, r') = conn_acquire host aa false (record r { crc_tables = tables_init r.crc_tables }) in
    elim c [ none ↦ (none, r') | some i ↦ gate_at i pdu pdu_bytes rx_crc r' ]

unfoldable pub seed_link : ConnectionState → Link → ℕ → Link
unfolding link_add_candidate
seed_link confirmed link crc_init = link
seed_link collecting link crc_init = link_add_candidate link crc_init

unfoldable pub seed_at : ℕ → ℕ → Registry → Registry
unfolding seed_link
seed_at i crc_init r =
    let seq = u64 (r.seq + 1) in
    let c = get_or r.conns i no_connection in
    let link = record c.link { last_used_seq = seq } in
    record r {
      conns = set r.conns i (record c { link = seed_link link.state link crc_init });
      seq = seq;
    }

unfoldable pub seed_candidate : Host → ℕ → ℕ → Registry → Registry
unfolding conn_acquire seed_at
seed_candidate host aa crc_init r =
    let (c, r') = conn_acquire host aa true r in
    elim c [ none ↦ r' | some i ↦ seed_at i crc_init r' ]

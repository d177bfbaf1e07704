-- ===== src/Ble/Registry/Recover.antt =====
-- The registry finds out the initial value of a connection's checksum.
use supertooth.Base.{
  ℕ, ◌+◌, ◌^◌, ◌<◌, ◌≡◌, ◌≢◌, inl, inr, sym, ap, subst, ◌∙◌, arith, bit_and, true, false, some,
  List, [], ◌∷◌, Bytes, length, get_or, get_or-set_self, ◌==◌, ==_iff, Bool-cases, u64,
}
use supertooth.Base.Keys.{find_key-set_same, find_key-some}
use supertooth.Ble.Crc.{crc_calc}
use supertooth.Ble.Crc.Linear.{crc_calc-lt}
use supertooth.Ble.Crc.Detect.{crc_calc_injective}
use supertooth.Ble.CrcInit.{Tables, tables_init}
use supertooth.Ble.CrcInit.Recover.{Reached, reverse_init_len2-crc_calc}
use supertooth.Ble.Registry.{
  ConnectionState, collecting, confirmed, Link, Registry, Host, aa_of, conn_find, no_connection,
}
use supertooth.Ble.Registry.Gate.{
  has_candidate, add_candidate, crc_fits, first_fit, link_add_candidate, gate_link, touch_link,
  gate_at, gate_data_pdu,
}
use supertooth.Ble.Registry.Links.{AllSmall, LinkIsValid, mask_small, has_candidate-add_candidate}
use supertooth.Ble.Registry.Valid.{RegistryIsValid, AllLinks-get}
use supertooth.Ble.Registry.Acquire.{conn_acquire_found}
use supertooth.Ble.Registry.Gated.{built-IsValid, gate_link-aa}
use supertooth.Ble.Registry.Accept.{settle_result}

-- A link that collects and holds an initial value.
pub record Knows (init : ℕ) (link : Link) : Type 0 where
  pub collects : link.state ≡ collecting
  pub holds : has_candidate init link.candidates ≡ true

-- Among the candidates no other than the one that was used gives the checksum.
first_fit_has :
    (pdu : Bytes) (n init : ℕ) (cs : List ℕ)
    → init < 2 ^ 24
    → AllSmall cs
    → has_candidate init cs ≡ true
    → first_fit pdu n (crc_calc pdu n init) cs ≡ some init
unfolding first_fit crc_fits has_candidate
first_fit_has pdu n init [] h a e = cc
first_fit_has pdu n init (c ∷ cs) h a e =
    let rx = crc_calc pdu n init in
    let masked : bit_and rx 0xffffff ≡ rx = mask_small rx (crc_calc-lt pdu n init) in
    elim (Bool-cases (crc_calc pdu n c == bit_and rx 0xffffff)) [
      | inl fits ↦
          let same : c ≡ init =
            crc_calc_injective pdu n c init a.0 h ((==_iff _ _).0 fits ∙ masked) in
          rw fits (ap some same)
      | inr fails ↦
          let other : c ≢ init = λ q.
            (let t : (crc_calc pdu n c == bit_and rx 0xffffff) ≡ true =
                (==_iff _ _).1 (ap (crc_calc pdu n) q ∙ sym masked) in
              cc) in
          rw fails (first_fit_has pdu n init cs h a.1 (ground (arith, other)))
    ]

gate_link-learns :
    (s : ConnectionState) (link : Link) (header : Bytes) (init : ℕ) (t : Tables)
    → link.state ≡ collecting
    → s ≡ collecting
    → init < 2 ^ 24
    → Reached t
    → Knows init (gate_link s link header 2 (crc_calc header 2 init) t).1
unfolding gate_link link_add_candidate
gate_link-learns confirmed link header init t c s h reached = absurd (cc s)
gate_link-learns collecting link header init t c s h reached =
    let back = ap (λ p. p.0) (reverse_init_len2-crc_calc t header init reached h) in
    record {
      collects = c;
      holds =
          ap (λ k. has_candidate init (add_candidate k link.candidates))
            (ap (λ k. bit_and k 0xffffff) back ∙ mask_small init h)
          ∙ has_candidate-add_candidate init link.candidates;
    }

gate_link-uses :
    (s : ConnectionState) (link : Link) (pdu : Bytes) (n init : ℕ) (t : Tables)
    → s ≡ collecting
    → Knows init link
    → LinkIsValid link
    → init < 2 ^ 24
    → n ≢ 2
    → (gate_link s link pdu n (crc_calc pdu n init) t).0 ≡ some init
unfolding gate_link
gate_link-uses confirmed link pdu n init t s k v h d = absurd (cc s)
gate_link-uses collecting link pdu n init t s k v h d =
    let o = first_fit pdu n (crc_calc pdu n init) link.candidates in
    let full : (n == 2) ≡ false = ground (arith, d) in
    rw full (
      settle_result o link
      ∙ first_fit_has pdu n init link.candidates h v.candidates_valid.small k.holds)

-- The row at `i` of a registry.
abbrev pub row_link : Registry → ℕ → Link
row_link r i = (get_or r.conns i no_connection).link

gate_at-learns :
    (i : ℕ) (header : Bytes) (init : ℕ) (r : Registry)
    → RegistryIsValid r
    → i < length r.conns
    → (row_link r i).state ≡ collecting
    → init < 2 ^ 24
    → Knows init (row_link (gate_at i header 2 (crc_calc header 2 init) r).1 i)
unfolding gate_at touch_link
gate_at-learns i header init r v inside c h =
    let old = get_or r.conns i no_connection in
    let link = touch_link (u64 (r.seq + 1)) old.link in
    let gated = gate_link link.state link header 2 (crc_calc header 2 init) r.crc_tables in
    subst (λ x. Knows init x.link)
      (sym (get_or-set_self r.conns i (record old { link = gated.1 }) no_connection inside))
      (gate_link-learns link.state link header init r.crc_tables c c h v.tables_reached)

gate_at-found :
    (i aa : ℕ) (pdu : Bytes) (n rx_crc : ℕ) (r : Registry)
    → conn_find aa r ≡ some i
    → conn_find aa (gate_at i pdu n rx_crc r).1 ≡ some i
unfolding gate_at touch_link conn_find
gate_at-found i aa pdu n rx_crc r e =
    let old = get_or r.conns i no_connection in
    let link = touch_link (u64 (r.seq + 1)) old.link in
    let gated = gate_link link.state link pdu n rx_crc r.crc_tables in
    find_key-set_same aa_of aa i (record old { link = gated.1 }) no_connection r.conns
      (gate_link-aa link.state link pdu n rx_crc r.crc_tables)
    ∙ e

gate_at-uses :
    (i : ℕ) (pdu : Bytes) (n init : ℕ) (r : Registry)
    → RegistryIsValid r
    → i < length r.conns
    → Knows init (row_link r i)
    → init < 2 ^ 24
    → n ≢ 2
    → (gate_at i pdu n (crc_calc pdu n init) r).0 ≡ some init
unfolding gate_at touch_link
gate_at-uses i pdu n init r v inside k h d =
    let link = touch_link (u64 (r.seq + 1)) (row_link r i) in
    let old = AllLinks-get i r.conns inside v.links_valid in
    let touched : LinkIsValid link = record {
      candidates_valid = old.candidates_valid;
      crc_init_bound = old.crc_init_bound;
    } in
    gate_link-uses link.state link pdu n init r.crc_tables k.collects
      (record { collects = k.collects; holds = k.holds }) touched h d

abbrev built : Registry → Registry
built r = record r { crc_tables = tables_init r.crc_tables }

gate_data_pdu_found :
    (host : Host) (aa i : ℕ) (pdu : Bytes) (n rx_crc : ℕ) (r : Registry)
    → conn_find aa r ≡ some i
    → gate_data_pdu host aa pdu n rx_crc r ≡ gate_at i pdu n rx_crc (built r)
unfolding gate_data_pdu conn_find
gate_data_pdu_found host aa i pdu n rx_crc r e =
    ground (arith, conn_acquire_found host aa false (built r) i e)

-- A registry whose connection with an address collects and holds an initial value.
pub record KnowsAt (aa init : ℕ) (r : Registry) : Type 0 where
  pub row : ℕ
  pub is_found : conn_find aa r ≡ some row
  pub knows : Knows init (row_link r row)

-- An empty PDU that was made with an initial value leaves that value with its connection.
pub gate_data_pdu-KnowsAt :
    (host : Host) (aa i : ℕ) (header : Bytes) (init : ℕ) (r : Registry)
    → RegistryIsValid r
    → conn_find aa r ≡ some i
    → (get_or r.conns i no_connection).link.state ≡ collecting
    → init < 2 ^ 24
    → KnowsAt aa init (gate_data_pdu host aa header 2 (crc_calc header 2 init) r).1
gate_data_pdu-KnowsAt host aa i header init r v e c h =
    subst (KnowsAt aa init)
      (sym (ap (λ p. p.1) (gate_data_pdu_found host aa i header 2 (crc_calc header 2 init) r e)))
      (record {
        row = i;
        is_found =
            gate_at-found i aa header 2 (crc_calc header 2 init) (built r) (unfold conn_find in e);
        knows = gate_at-learns i header init (built r) (built-IsValid r v) inside c h;
      })
  where
    inside : i < length r.conns
    inside = unfold conn_find in (find_key-some aa_of aa i no_connection r.conns e).0

-- A connection that holds an initial value accepts a PDU that is made with it and is no empty one.
pub gate_data_pdu-accepts :
    (host : Host) (aa : ℕ) (pdu : Bytes) (n init : ℕ) (r : Registry)
    → RegistryIsValid r
    → KnowsAt aa init r
    → init < 2 ^ 24
    → n ≢ 2
    → (gate_data_pdu host aa pdu n (crc_calc pdu n init) r).0 ≡ some init
gate_data_pdu-accepts host aa pdu n init r v k h d =
    ap (λ p. p.0) (gate_data_pdu_found host aa k.row pdu n (crc_calc pdu n init) r k.is_found)
    ∙ gate_at-uses k.row pdu n init (built r) (built-IsValid r v) inside k.knows h d
  where
    inside : k.row < length r.conns
    inside = unfold conn_find in (find_key-some aa_of aa k.row no_connection r.conns k.is_found).0

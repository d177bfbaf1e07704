-- ===== src/Ble/Registry/Accept.antt =====
-- What the gate for data PDUs accepts has the checksum that was received.
use supertooth.Base.{
  ℕ, ◌+◌, ◌^◌, ◌<◌, ◌≡◌, inl, inr, refl, sym, ap, subst, ◌∙◌, arith, bit_and, false, Option, none,
  some, List, [], ◌∷◌, Bytes, length, get_or, set, get_or-set_self, ◌==◌, Bool-cases, u64,
}
use supertooth.Base.Keys.{find_key, find_key-set_same, find_key-Distinct}
use supertooth.Ble.Crc.{crc_calc}
use supertooth.Ble.CrcInit.{Tables, tables_init}
use supertooth.Ble.Registry.{
  ConnectionState, collecting, confirmed, Link, Registry, Host, aa_of, conn_find, no_connection,
}
use supertooth.Ble.Registry.Table.{conn_acquire}
use supertooth.Ble.Registry.Gate.{
  crc_fits, first_fit, count_accepted, settle, link_confirm, gate_link, touch_link, gate_at,
  gate_data_pdu,
}
use supertooth.Ble.Registry.Links.{AllSmall, LinkIsValid, mask_small}
use supertooth.Ble.Registry.Valid.{RegistryIsValid, AllLinks-get, Acquired}
use supertooth.Ble.Registry.Acquire.{conn_acquire-Acquired}
use supertooth.Ble.Registry.Gated.{built-IsValid, gate_link-aa}

-- What an accepted PDU shows: its connection is there and confirmed, with the initial value that was
-- used, and that value gives the checksum that was received.
pub record AcceptedWith (aa : ℕ) (pdu : Bytes) (n rx_crc used : ℕ) (r : Registry) : Type 0 where
  pub row : ℕ
  pub is_found : conn_find aa r ≡ some row
  pub is_confirmed : (get_or r.conns row no_connection).link.state ≡ confirmed
  pub is_used : (get_or r.conns row no_connection).link.crc_init ≡ used
  pub has_crc : crc_calc pdu n used ≡ bit_and rx_crc 0xffffff

-- At the link.
record LinkAccepts (pdu : Bytes) (n rx_crc used : ℕ) (link : Link) : Type 0 where
  link_confirmed : link.state ≡ confirmed
  link_used : link.crc_init ≡ used
  link_crc : crc_calc pdu n used ≡ bit_and rx_crc 0xffffff

first_fit_lem :
    (pdu : Bytes) (n rx_crc used : ℕ) (cs : List ℕ)
    → AllSmall cs
    → first_fit pdu n rx_crc cs ≡ some used
    → (used < 2 ^ 24) × (crc_calc pdu n used ≡ bit_and rx_crc 0xffffff)
unfolding first_fit crc_fits
first_fit_lem pdu n rx_crc used [] a h = cc
first_fit_lem pdu n rx_crc used (c ∷ cs) a h = elim (Bool-cases (crc_fits pdu n rx_crc c)) [
  | inl fits ↦ let e : c ≡ used = ground arith in (subst (λ t. t < 2 ^ 24) e a.0, ground arith)
  | inr fails ↦ first_fit_lem pdu n rx_crc used cs a.1 (ground arith)
]

pub settle_result : (o : Option ℕ) (link : Link) → (settle o link).0 ≡ o
unfolding settle
settle_result none link = refl
settle_result (some c) link = refl

settle-accepts :
    (pdu : Bytes) (n rx_crc used : ℕ) (o : Option ℕ) (link : Link)
    → o ≡ some used
    → used < 2 ^ 24
    → crc_calc pdu n used ≡ bit_and rx_crc 0xffffff
    → LinkAccepts pdu n rx_crc used (settle o link).1
unfolding settle link_confirm count_accepted
settle-accepts pdu n rx_crc used none link e h k = absurd (cc e)
settle-accepts pdu n rx_crc used (some c) link e h k =
    let same : c ≡ used = ground arith in
    record {
      link_confirmed = refl;
      link_used = ap (λ t. bit_and t 0xffffff) same ∙ mask_small used h;
      link_crc = k;
    }

gate_link-accepts :
    (s : ConnectionState) (link : Link) (pdu : Bytes) (n rx_crc : ℕ) (t : Tables) (used : ℕ)
    → link.state ≡ s
    → LinkIsValid link
    → (gate_link s link pdu n rx_crc t).0 ≡ some used
    → LinkAccepts pdu n rx_crc used (gate_link s link pdu n rx_crc t).1
unfolding gate_link settle link_confirm count_accepted crc_fits
gate_link-accepts confirmed link pdu n rx_crc t used e v h = ground arith
gate_link-accepts collecting link pdu n rx_crc t used e v h =
    let o = first_fit pdu n rx_crc link.candidates in
    elim (Bool-cases (n == 2)) [
      | inl empty ↦ absurd (ground arith)
      | inr full ↦
          let fits : o ≡ some used = sym (settle_result o link) ∙ ground arith in
          let (small, crc) =
            first_fit_lem pdu n rx_crc used link.candidates v.candidates_valid.small fits in
          rw full (settle-accepts pdu n rx_crc used o link fits small crc)
    ]

gate_at-accepts :
    (i : ℕ) (aa : ℕ) (pdu : Bytes) (n rx_crc used : ℕ) (r : Registry)
    → RegistryIsValid r
    → i < length r.conns
    → aa_of (get_or r.conns i no_connection) ≡ aa
    → (gate_at i pdu n rx_crc r).0 ≡ some used
    → AcceptedWith aa pdu n rx_crc used (gate_at i pdu n rx_crc r).1
unfolding gate_at touch_link conn_find
gate_at-accepts i aa pdu n rx_crc used r v inside same h =
    let c = get_or r.conns i no_connection in
    let link = touch_link (u64 (r.seq + 1)) c.link in
    let old = AllLinks-get i r.conns inside v.links_valid in
    let touched : LinkIsValid link = record {
      candidates_valid = old.candidates_valid;
      crc_init_bound = old.crc_init_bound;
    } in
    let gated = gate_link link.state link pdu n rx_crc r.crc_tables in
    let row = record c { link = gated.1 } in
    let here : get_or (set r.conns i row) i no_connection ≡ row =
      get_or-set_self r.conns i row no_connection inside in
    let shows = gate_link-accepts link.state link pdu n rx_crc r.crc_tables used refl touched h in
    let aa_same = gate_link-aa link.state link pdu n rx_crc r.crc_tables in
    record {
      row = i;
      is_found =
          find_key-set_same aa_of aa i row no_connection r.conns aa_same
          ∙ ap (λ k. find_key aa_of k r.conns) (sym same)
          ∙ find_key-Distinct aa_of i no_connection r.conns inside v.conns_distinct;
      is_confirmed = ap (λ x. x.link.state) here ∙ shows.link_confirmed;
      is_used = ap (λ x. x.link.crc_init) here ∙ shows.link_used;
      has_crc = shows.link_crc;
    }

-- The gate accepts a PDU only with the checksum that was received: from a valid registry, whenever
-- an initial value is returned, the connection of the access address is there and confirmed with
-- that value, and the checksum of the PDU from it is the received one.
pub gate_data_pdu-AcceptedWith :
    (host : Host) (aa : ℕ) (pdu : Bytes) (n rx_crc used : ℕ) (r : Registry)
    → RegistryIsValid r
    → (gate_data_pdu host aa pdu n rx_crc r).0 ≡ some used
    → AcceptedWith aa pdu n rx_crc used (gate_data_pdu host aa pdu n rx_crc r).1
unfolding gate_data_pdu
gate_data_pdu-AcceptedWith host aa pdu n rx_crc used r v h =
    let built = record r { crc_tables = tables_init r.crc_tables } in
    passed (conn_acquire host aa false built).0 (conn_acquire host aa false built).1
      (conn_acquire-Acquired host aa false built (built-IsValid r v)) h
  where
    passed :
        (c : Option ℕ) (r' : Registry)
        → Acquired aa c r'
        → (let q : Option ℕ × Registry = elim c [
          | none ↦ (none, r')
          | some i ↦ gate_at i pdu n rx_crc r'
        ] in
            q.0 ≡ some used)
        → (let q : Option ℕ × Registry = elim c [
          | none ↦ (none, r')
          | some i ↦ gate_at i pdu n rx_crc r'
        ] in
            AcceptedWith aa pdu n rx_crc used q.1)
    passed none r' a e = absurd (cc e)
    passed (some i) r' a e = gate_at-accepts i aa pdu n rx_crc used r' a.2 a.0 a.1 e

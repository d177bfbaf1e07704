-- ===== src/Bredr/Sync/Parse.antt =====
-- What `bredr_parse_sync_payload` accepts.
use supertooth.Base.{
  ℕ, zero, suc, ◌+◌, ◌-◌, ◌*◌, ◌<◌, ◌≤◌, ◌≡◌, refl, ap, ◌∙◌, arith, bit_and, Bool, true, false,
  Bytes, Option, none, some, ◌==◌, ltb, if◌then◌else◌, u16, ◌||◌, not,
}
use supertooth.Bredr.PayloadCrc.{payload_crc}
use supertooth.Bredr.Types.{Family, esco, sco, Limit, truncated_payload, unsupported_packet_type}
use supertooth.Bredr.Sync.{
  SyncResult, no_sync, crc_search, after_search, parse_sync_payload, trailer, with_crc, without_crc,
  expected_sync_bytes, crc_search_limit, is_esco_type,
}

-- A length that the search finds is among those it looks at, and the checksum is right there.
crc_search_found :
    (left total : ℕ) (payload : Bytes) (uap found : ℕ)
    → crc_search left total payload uap ≡ some found
    → (total ≤ found)
      × (found < total + left)
      × (payload_crc payload ((found - 2) * 8) uap ≡ trailer payload found)
unfolding crc_search
crc_search_found zero total payload uap found e = ground (arith, e)
crc_search_found (suc left) total payload uap found e =
    ground (arith, crc_search_found left (total + 1) payload uap found)

-- What is filled in after a search that found a length, or none.
after_search-checked :
    (o : Option ℕ) (payload : Bytes) (payload_len t uap bound : ℕ)
    → bound ≤ payload_len
    → bound ≤ 182
    → ((found : ℕ)
        → o ≡ some found
        → (3 ≤ found)
          × (found ≤ bound)
          × (payload_crc payload ((found - 2) * 8) uap ≡ trailer payload found))
    → (after_search o payload payload_len t).out.has_crc ≡ 1
    → let p = (after_search o payload payload_len t).out in
      (p.payload_bytes + 2 ≤ payload_len) × (payload_crc payload (p.payload_bytes * 8) uap ≡ p.crc)
unfolding after_search with_crc without_crc
after_search-checked none payload payload_len t uap bound h h' found e = ground (arith, e)
after_search-checked (some total) payload payload_len t uap bound h h' found e =
    let (low, high, right) = found total refl in
    let n : u16 (total - 2) ≡ total - 2 = omega (arith, low, high) in
    (omega (arith, n, low, high), ap (λ k. payload_crc payload (k * 8) uap) n ∙ right)

search_limit_le : (t : ℕ) → crc_search_limit t ≤ 182
unfolding crc_search_limit expected_sync_bytes
search_limit_le t = ground arith

-- The property below, of any result.
abbrev Checked : Bytes → ℕ → ℕ → SyncResult → Type 0
Checked payload payload_len uap r =
    r.out.has_crc ≡ 1
    → (r.out.payload_bytes + 2 ≤ payload_len)
      × (payload_crc payload (r.out.payload_bytes * 8) uap ≡ r.out.crc)

either :
    (payload : Bytes) (payload_len uap : ℕ) (c : Bool) (x y : SyncResult)
    → Checked payload payload_len uap x
    → Checked payload payload_len uap y
    → Checked payload payload_len uap (if c then x else y)
either payload payload_len uap true x y p q = p
either payload payload_len uap false x y p q = q

abbrev refusal : Family → Limit → SyncResult
refusal family limit = record { accepted = false; out = no_sync; family = family; limit = limit }

-- A payload that is reported with a checksum lies with it within the bytes received, and the
-- checksum of its bytes is the one reported.
pub parse_sync_payload-checked :
    (payload : Bytes) (payload_len type_code uap : ℕ)
    → (parse_sync_payload payload payload_len type_code uap).out.has_crc ≡ 1
    → let p = (parse_sync_payload payload payload_len type_code uap).out in
      (p.payload_bytes + 2 ≤ payload_len) × (payload_crc payload (p.payload_bytes * 8) uap ≡ p.crc)
unfolding parse_sync_payload
parse_sync_payload-checked payload payload_len type_code uap =
    let t = bit_and type_code 0x0f in
    let ev_limit = crc_search_limit t in
    let bound = if ltb payload_len ev_limit then payload_len else ev_limit in
    let minimum = if ev_limit == 0 then expected_sync_bytes t else 3 in
    let family = if is_esco_type t then esco else sco in
    let plain = after_search none payload payload_len t in
    let searched = after_search (crc_search (bound - 2) 3 payload uap) payload payload_len t in
    let resolved = if ev_limit == 0 then plain else searched in
    let short = refusal family truncated_payload in
    either payload payload_len uap (not (t == 5 || t == 6 || t == 7 || is_esco_type t))
      (refusal family unsupported_packet_type) (if ltb payload_len minimum then short else resolved)
      (λ e. ground (arith, e))
      (either payload payload_len uap (ltb payload_len minimum) short resolved
        (λ e. ground (arith, e))
        (either payload payload_len uap (ev_limit == 0) plain searched
          (after_search-checked none payload payload_len t uap 0 (omega arith) (omega arith)
            (λ found e. ground (arith, e)))
          (after_search-checked (crc_search (bound - 2) 3 payload uap) payload payload_len t uap
            bound (ground arith) (ground (arith, search_limit_le t))
            (λ found e.
              let (low, high, right) = crc_search_found (bound - 2) 3 payload uap found e in
              (low, omega (arith, low, high), right)))))

-- ===== src/Bredr/Acl/RoundTrip.antt =====
-- What `bredr_parse_acl_payload` makes of a payload that was sent.
use supertooth.Base.{
  ℕ, suc, ◌+◌, ◌*◌, ◌/◌, ◌%◌, ◌<◌, ◌≤◌, ◌≡◌, ◌≢◌, refl, sym, ap, ap₂, ◌∙◌, arith, bit_and, bit_or,
  true, Bytes, length, at, drop, take, replicate, take-append, drop-append, length-append, u8, u16,
  ◌<<<◌, ◌>>>◌, [], ◌∷◌, ◌++◌,
}
use supertooth.Bredr.Types.{
  acl_payload_header_bytes, acl_max_user_payload_bytes, AclPayload, limit_none,
}
use supertooth.Bredr.PayloadCrc.{payload_crc}
use supertooth.Bredr.Acl.{acl_length, acl_header, acl_body, parse_acl_payload}
use supertooth.Bredr.Acl.Sent.{
  payload_crc-append, payload_crc-lt, two_bytes, head_fields, head, acl_sent, Fits,
}

acl_max_user_payload_bytes-Fits :
    (type_code len : ℕ)
    → acl_max_user_payload_bytes type_code ≢ 0
    → len ≤ acl_max_user_payload_bytes type_code
    → Fits (acl_payload_header_bytes type_code) len
unfolding acl_max_user_payload_bytes acl_payload_header_bytes
acl_max_user_payload_bytes-Fits type_code len some_room h = ground arith

max_user_le : (t : ℕ) → acl_max_user_payload_bytes t ≤ 339
unfolding acl_max_user_payload_bytes
max_user_le t = ground arith

-- The branch in which a payload is accepted.
parse_accepts :
    (payload : Bytes) (payload_len type_code uap len : ℕ) (out : AclPayload)
    → acl_length payload (acl_payload_header_bytes type_code) ≡ len
    → acl_max_user_payload_bytes type_code ≢ 0
    → len ≤ acl_max_user_payload_bytes type_code
    → acl_payload_header_bytes type_code + len ≤ payload_len
    → parse_acl_payload payload payload_len type_code uap out ≡ record {
      accepted = true;
      out = acl_body payload payload_len (acl_payload_header_bytes type_code) len uap;
      limit = limit_none;
    }
unfolding parse_acl_payload
parse_accepts payload payload_len type_code uap len out e some_room h inside = ground (
  arith,
  max_user_le type_code,
  acl_max_user_payload_bytes-Fits type_code len some_room h,
  ap (λ n. acl_body payload payload_len (acl_payload_header_bytes type_code) n uap) e,
)

++-assoc : (xs ys zs : Bytes) → (xs ++ ys) ++ zs ≡ xs ++ (ys ++ zs)
++-assoc [] ys zs = refl
++-assoc (x ∷ xs) ys zs = ap (λ t. x ∷ t) (++-assoc xs ys zs)

at_behind : (xs ys : Bytes) (k : ℕ) → at (xs ++ ys) (length xs + k) ≡ at ys k
at_behind [] ys k = let e : 0 + k ≡ k = omega arith in ap (at ys) e
at_behind (x ∷ xs) ys k =
    let e : length (x ∷ xs) + k ≡ suc (length xs + k) = omega arith in
    ap (at (x ∷ xs ++ ys)) e ∙ at_behind xs ys k

-- What is filled in for a payload with a right checksum.
acl_body_checked :
    (payload : Bytes) (payload_len hb len uap : ℕ)
    → hb + len + 2 ≤ payload_len
    → u16 (bit_or (at payload (hb + len)) (u16 (at payload (hb + len + 1) <<< 8)))
      ≡ payload_crc payload ((hb + len) * 8) uap
    → let p = acl_body payload payload_len hb len uap in
      (p.llid ≡ u8 (bit_and (at payload 0) 0x03))
      × (p.flow ≡ u8 (bit_and (at payload 0 >>> 2) 0x01))
      × (p.length ≡ len)
      × (p.user_payload ≡ take len (drop hb payload) ++ drop len (replicate 1021 0))
      × (p.has_crc ≡ 1)
      × (p.crc_ok ≡ 1)
unfolding acl_body acl_header
acl_body_checked payload payload_len hb len uap room right =
    (ground arith, ground arith, ground arith, ground arith, ground arith, ground (arith, right))

-- The user payload, copied from behind the header.
copied :
    (hd user more payload zs : Bytes) (hb : ℕ)
    → length hd ≡ hb
    → payload ≡ hd ++ (user ++ more)
    → take (length user) (take (length user) (drop hb payload) ++ zs) ≡ user
copied hd user more payload zs hb size e =
    ap (λ n. take (length user) (take (length user) (drop n payload) ++ zs)) (sym size)
    ∙ ap (λ t. take (length user) (take (length user) (drop (length hd) t) ++ zs)) e
    ∙ ap (λ t. take (length user) (take (length user) t ++ zs)) (drop-append hd (user ++ more))
    ∙ ap (λ t. take (length user) (t ++ zs)) (take-append user more)
    ∙ take-append user zs

-- A payload that is sent with its checksum is accepted, with the fields, the bytes and the length
-- that were sent and the checksum found right, whatever follows it in the buffer: for every type of
-- packet that has room for user payload and every user payload that fits it.
pub parse_acl_payload-acl_sent :
    (type_code llid flow uap : ℕ) (user rest : Bytes) (out : AclPayload)
    → llid < 4
    → flow < 2
    → acl_max_user_payload_bytes type_code ≢ 0
    → length user ≤ acl_max_user_payload_bytes type_code
    → let sent = acl_sent (acl_payload_header_bytes type_code) llid flow user uap in
      let r = parse_acl_payload (sent ++ rest) (length sent) type_code uap out in
      (r.accepted ≡ true)
      × (r.out.llid ≡ llid)
      × (r.out.flow ≡ flow)
      × (r.out.length ≡ length user)
      × (take (length user) r.out.user_payload ≡ user)
      × (r.out.crc_ok ≡ 1)
unfolding acl_sent
parse_acl_payload-acl_sent type_code llid flow uap user rest out hl hf some_room h =
    let hb = acl_payload_header_bytes type_code in
    let len = length user in
    let fits = acl_max_user_payload_bytes-Fits type_code len some_room h in
    let hd = head hb llid flow len in
    let body = hd ++ user in
    let crc = payload_crc body (length body * 8) uap in
    let sum = (crc % 256) ∷ (crc / 256) ∷ [] in
    let payload = (body ++ sum) ++ rest in
    let as_tail : payload ≡ body ++ (sum ++ rest) = ++-assoc body sum rest in
    let as_head : payload ≡ hd ++ (user ++ (sum ++ rest)) =
      as_tail ∙ ++-assoc hd user (sum ++ rest) in
    let (len_read, llid_read, flow_read, head_size) =
      head_fields llid flow len (user ++ (sum ++ rest)) hl hf hb fits in
    let body_size : length body ≡ hb + len = omega (arith, length-append hd user, head_size) in
    let whole : length (body ++ sum) ≡ hb + len + 2 =
      omega (arith, length-append body sum, body_size) in
    let accepted =
      parse_accepts payload (length (body ++ sum)) type_code uap len out
        (ap (λ t. acl_length t hb) as_head ∙ len_read) some_room h (omega arith) in
    let low : at payload (hb + len) ≡ crc % 256 =
      let e : hb + len ≡ length body + 0 = omega arith in
      ap (λ t. at t (hb + len)) as_tail
      ∙ ap (at (body ++ (sum ++ rest))) e
      ∙ at_behind body (sum ++ rest) 0 in
    let high : at payload (hb + len + 1) ≡ crc / 256 =
      let e : hb + len + 1 ≡ length body + 1 = omega arith in
      ap (λ t. at t (hb + len + 1)) as_tail
      ∙ ap (at (body ++ (sum ++ rest))) e
      ∙ at_behind body (sum ++ rest) 1 in
    let summed : crc ≡ payload_crc payload ((hb + len) * 8) uap =
      sym (payload_crc-append body (sum ++ rest) uap)
      ∙ ap₂ (λ t n. payload_crc t (n * 8) uap) (sym as_tail) body_size in
    let (l, f, n, bytes, has, ok) =
      acl_body_checked payload (length (body ++ sum)) hb len uap (omega arith) (
        ap₂ (λ x y. u16 (bit_or x (u16 (y <<< 8)))) low high
        ∙ two_bytes crc (payload_crc-lt body (length body * 8) uap)
        ∙ summed) in
    (
      ap (λ r. r.accepted) accepted,
      ap (λ r. r.out.llid) accepted ∙ l ∙ ap (λ t. u8 (bit_and (at t 0) 0x03)) as_head ∙ llid_read,
      ap (λ r. r.out.flow) accepted
          ∙ f
          ∙ ap (λ t. u8 (bit_and (at t 0 >>> 2) 0x01)) as_head
          ∙ flow_read,
      ap (λ r. r.out.length) accepted ∙ n,
      ap (λ r. take len r.out.user_payload) accepted
          ∙ ap (take len) bytes
          ∙ copied hd user (sum ++ rest) payload (drop len (replicate 1021 0)) hb head_size as_head,
      ap (λ r. r.out.crc_ok) accepted ∙ ok,
    )

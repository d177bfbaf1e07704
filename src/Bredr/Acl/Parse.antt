-- ===== src/Bredr/Acl/Parse.antt =====
-- What `bredr_parse_acl_payload` accepts.
use native.Mathlib.Decide.{dec_le}
use supertooth.Base.{
  ℕ, ◌+◌, ◌≤◌, ◌≡◌, ap, ◌∙◌, arith, true, Bytes, length, drop, replicate, length-memcpy,
  length-drop,
}
use supertooth.Bredr.Types.{acl_payload_header_bytes, acl_max_user_payload_bytes, AclPayload}
use supertooth.Bredr.Acl.{acl_length, acl_header, acl_body, parse_acl_payload}

max_user_le : (t : ℕ) → acl_max_user_payload_bytes t ≤ 339
unfolding acl_max_user_payload_bytes
max_user_le t = ground arith

acl_body-length :
    (payload : Bytes) (payload_len hb len uap : ℕ)
    → (acl_body payload payload_len hb len uap).length ≡ len
unfolding acl_body acl_header
acl_body-length payload payload_len hb len uap = elim (dec_le (hb + len + 2) payload_len) [
  | yes p ↦ ground (arith, p)
  | no p ↦ ground (arith, p)
]

acl_body-size :
    (payload : Bytes) (payload_len hb len uap : ℕ)
    → len ≤ 1021
    → hb + len ≤ length payload
    → length (acl_body payload payload_len hb len uap).user_payload ≡ 1021
unfolding acl_body acl_header
acl_body-size payload payload_len hb len uap p q =
    ground (arith, length-memcpy (replicate 1021 0) (drop hb payload) len, length-drop hb payload)

-- An accepted payload stays within the bytes received and within the array that it is copied to,
-- and its length is possible for the type of packet.
pub parse_acl_payload-fits :
    (payload : Bytes) (payload_len type_code uap : ℕ) (out : AclPayload)
    → payload_len ≤ length payload
    → (parse_acl_payload payload payload_len type_code uap out).accepted ≡ true
    → let p = (parse_acl_payload payload payload_len type_code uap out).out in
      (p.length ≤ acl_max_user_payload_bytes type_code)
      × (acl_payload_header_bytes type_code + p.length ≤ payload_len)
      × (length p.user_payload ≡ 1021)
unfolding parse_acl_payload
parse_acl_payload-fits payload payload_len type_code uap out h e =
    let hb = acl_payload_header_bytes type_code in
    let len = acl_length payload hb in
    let body = acl_body payload payload_len hb len uap in
    let result = parse_acl_payload payload payload_len type_code uap out in
    let split : (result.out ≡ body)
        × (len ≤ acl_max_user_payload_bytes type_code)
        × (hb + len ≤ payload_len) =
      ground arith in
    let (same, small, inside) = split in
    let size = ap (λ p. p.length) same ∙ acl_body-length payload payload_len hb len uap in
    (
      omega (arith, size),
      omega (arith, size),
      ap (λ p. length p.user_payload) same
          ∙ acl_body-size payload payload_len hb len uap (omega (arith, max_user_le type_code))
              (omega arith),
    )

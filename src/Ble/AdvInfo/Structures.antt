-- ===== src/Ble/AdvInfo/Structures.antt =====
-- `ble_adv_parse_info` of src/core/protocol/ble/ble_codec.c against the data as an advertiser puts it
-- together: structures of a length byte, a type and a body, one behind the other.
use supertooth.Base.{
  ℕ, zero, suc, ◌+◌, ◌-◌, ◌^◌, ◌<◌, ◌≤◌, ◌≡◌, ◌⊎◌, inl, inr, refl, sym, ap, ap₂, ◌∙◌, arith, true,
  false, ◌&&◌, not, List, [], ◌∷◌, ◌++◌, Bytes, at, length, drop, length-append, ltb, leb, ◌==◌,
  u32,
}
use mathlib.Core.List.{append_assoc}
use supertooth.Ble.AdvInfo.{AdvInfo, no_info}
use supertooth.Ble.AdvInfo.Parse.{parse_lists, parse_values, parse_loop, adv_parse_info}
use supertooth.Ble.AdvInfo.Local.{parse_lists_local, parse_values_local}

pub record Structure : Type 0 where
  pub kind : ℕ
  pub body : Bytes

abbrev pub structure_bytes : Structure → Bytes
structure_bytes s = (length s.body + 1) ∷ s.kind ∷ s.body

abbrev pub sent : List Structure → Bytes → Bytes
sent [] tail = tail
sent (s ∷ ss) tail = structure_bytes s ++ sent ss tail

-- A length byte counts the type and the body.
abbrev pub AllFit : List Structure → Type 0
AllFit [] = Unit {0}
AllFit (s ∷ ss) = (length s.body ≤ 254) × AllFit ss

-- What one structure says, and what all of them say, the first one first.
abbrev pub said : Structure → AdvInfo → AdvInfo
said s out =
    parse_values s.kind s.body (length s.body) (parse_lists s.kind s.body (length s.body) out)

abbrev pub all_said : List Structure → AdvInfo → AdvInfo
all_said [] out = out
all_said (s ∷ ss) out = all_said ss (said s out)

-- Behind the last structure: nothing, a length of 0, or a structure that is cut off.
abbrev pub Ends : Bytes → Type 0
Ends tail = (at tail 0 ≡ 0) ⊎ (length tail < at tail 0 + 1)

pub at-append : (pre rest : Bytes) (k : ℕ) → at (pre ++ rest) (length pre + k) ≡ at rest k
at-append [] rest k = let e : 0 + k ≡ k = omega arith in ap (at rest) e
at-append (x ∷ pre) rest k =
    let e : suc (length pre) + k ≡ suc (length pre + k) = omega arith in
    ap (at (x ∷ pre ++ rest)) e ∙ at-append pre rest k

pub drop-append_more :
    (pre rest : Bytes) (k : ℕ) → drop (length pre + k) (pre ++ rest) ≡ drop k rest
drop-append_more [] rest k = let e : 0 + k ≡ k = omega arith in ap (λ n. drop n rest) e
drop-append_more (x ∷ pre) rest k =
    let e : suc (length pre) + k ≡ suc (length pre + k) = omega arith in
    ap (λ n. drop n (x ∷ pre ++ rest)) e ∙ drop-append_more pre rest k

-- Where no structure begins, the loop is over.
parse_loop-Ends :
    (fuel : ℕ) (pre tail : Bytes) (out : AdvInfo)
    → at tail 0 ≤ 255
    → Ends tail
    → length pre + length tail + 256 ≤ 2 ^ 32
    → parse_loop fuel (length pre) (pre ++ tail) (length pre + length tail) out ≡ out
unfolding parse_loop
parse_loop-Ends zero pre tail out small ends room = refl
parse_loop-Ends (suc fuel) pre tail out small ends room =
    let e : length pre ≡ length pre + 0 = omega arith in
    let here : at (pre ++ tail) (length pre) ≡ at tail 0 =
      ap (at (pre ++ tail)) e ∙ at-append pre tail 0 in
    rw (closed (at (pre ++ tail) (length pre)) ends here) refl
  where
    closed :
        (n : ℕ)
        → Ends tail
        → n ≡ at tail 0
        → (ltb (u32 (length pre + 1)) (length pre + length tail)
            && not (n == 0)
            && leb (u32 (length pre + 1 + n)) (length pre + length tail))
          ≡ false
    closed n (inl stop) h = ground (arith, stop, h)
    closed n (inr cut) h = ground (arith, cut, h, small, room)

-- One structure is one round of the loop.
one_round :
    (fuel : ℕ) (pre : Bytes) (s : Structure) (rest : Bytes) (out : AdvInfo)
    → length s.body ≤ 254
    → length pre + length (structure_bytes s ++ rest) + 256 ≤ 2 ^ 32
    → let bytes = pre ++ (structure_bytes s ++ rest) in
      let len = length pre + length (structure_bytes s ++ rest) in
      parse_loop (suc fuel) (length pre) bytes len out
      ≡ parse_loop fuel (length pre + (length s.body + 2)) bytes len (said s out)
unfolding parse_loop
one_round fuel pre s rest out fits room =
    let bytes = pre ++ (structure_bytes s ++ rest) in
    let i = length pre in
    let len = i + length (structure_bytes s ++ rest) in
    let size : length (structure_bytes s ++ rest) ≡ length s.body + length rest + 2 =
      omega (arith, length-append s.body rest) in
    let first : i ≡ i + 0 = omega arith in
    let here : at bytes i ≡ length s.body + 1 =
      ap (at bytes) first ∙ at-append pre (structure_bytes s ++ rest) 0 in
    let inside : u32 (i + 1) ≡ i + 1 = omega (arith, size) in
    let type_is : at bytes (u32 (i + 1)) ≡ s.kind =
      ap (at bytes) inside ∙ at-append pre (structure_bytes s ++ rest) 1 in
    let body_is : drop (i + 2) bytes ≡ s.body ++ rest =
      drop-append_more pre (structure_bytes s ++ rest) 2 in
    let next : u32 (i + 1 + (length s.body + 1)) ≡ i + (length s.body + 2) = omega (arith, size) in
    let open_ : (ltb (i + 1) len
          && not (length s.body + 1 == 0)
          && leb (i + (length s.body + 2)) len)
        ≡ true =
      ground (arith, size) in
    let pred : length s.body + 1 - 1 ≡ length s.body = omega arith in
    let read : parse_values s.kind (s.body ++ rest) (length s.body)
          (parse_lists s.kind (s.body ++ rest) (length s.body) out)
        ≡ said s out =
      ap (parse_values s.kind (s.body ++ rest) (length s.body))
        (parse_lists_local rest s.kind s.body out)
      ∙ parse_values_local rest s.kind s.body _ in
    rw (type_is, here, inside, next, pred, body_is, open_, read) refl

-- From any structure on.
parse_loop-sent :
    (fuel : ℕ) (pre : Bytes) (ss : List Structure) (tail : Bytes) (out : AdvInfo)
    → AllFit ss
    → at tail 0 ≤ 255
    → Ends tail
    → length (sent ss tail) ≤ fuel
    → length pre + length (sent ss tail) + 256 ≤ 2 ^ 32
    → parse_loop fuel (length pre) (pre ++ sent ss tail) (length pre + length (sent ss tail)) out
      ≡ all_said ss out
parse_loop-sent fuel pre [] tail out fits small ends enough room =
    parse_loop-Ends fuel pre tail out small ends room
parse_loop-sent zero pre (s ∷ ss) tail out fits small ends enough room = absurd (omega arith)
parse_loop-sent (suc fuel) pre (s ∷ ss) tail out fits small ends enough room =
    let rest = sent ss tail in
    let size : length (structure_bytes s ++ rest) ≡ length s.body + length rest + 2 =
      omega (arith, length-append s.body rest) in
    let further : length (pre ++ structure_bytes s) ≡ length pre + (length s.body + 2) =
      omega (arith, length-append pre (structure_bytes s)) in
    let total : length (pre ++ structure_bytes s) + length rest
        ≡ length pre + length (structure_bytes s ++ rest) =
      omega (arith, size, further) in
    one_round fuel pre s rest out fits.0 room
    ∙ ap
        (λ b.
          parse_loop fuel (length pre + (length s.body + 2)) b
            (length pre + length (structure_bytes s ++ rest)) (said s out))
        (sym (append_assoc pre (structure_bytes s) rest))
    ∙ ap₂ (λ i n. parse_loop fuel i ((pre ++ structure_bytes s) ++ rest) n (said s out))
        (sym further) (sym total)
    ∙ parse_loop-sent fuel (pre ++ structure_bytes s) ss tail (said s out) fits.1 small ends
        (omega (arith, size)) (omega (arith, size, further))

-- Data of at most 2^32 - 256 bytes, put together from structures with bodies of at most 254 bytes, is
-- read as those structures, each once, in their order and from its own bytes only. Reading ends where
-- the data ends, at a length byte of 0, or at a structure that is cut off, whatever stands there. The
-- number of rounds that the parser allows itself is enough for that.
pub adv_parse_info-sent :
    (ss : List Structure) (tail : Bytes)
    → AllFit ss
    → at tail 0 ≤ 255
    → Ends tail
    → length (sent ss tail) + 256 ≤ 2 ^ 32
    → adv_parse_info (sent ss tail) (length (sent ss tail)) ≡ all_said ss no_info
unfolding adv_parse_info
adv_parse_info-sent ss tail fits small ends room =
    let n = length (sent ss tail) in
    let none_before : 0 + n ≡ n = omega arith in
    ap (λ l. parse_loop n 0 (sent ss tail) l no_info) (sym none_before)
    ∙ parse_loop-sent n [] ss tail no_info fits small ends (omega arith) (omega arith)

-- ===== src/Ble/AdvInfo/Valid.antt =====
-- What every summary of advertising data keeps: the bounds of its lists, and no entry twice.
use supertooth.Base.{
  u32, ℕ, zero, suc, ◌+◌, ◌-◌, ◌/◌, ◌≤◌, ◌≡◌, refl, arith, Bool, true, false, ◌&&◌, ◌||◌, not, List,
  [], ◌∷◌, ◌++◌, Bytes, at, length, take, drop, ltb, leb, ◌==◌, if◌then◌else◌, Bool-cases, inl, inr,
}
use supertooth.Ble.AdvInfo.{
  AdvInfo, no_info, le16, le32, is_base, has_uuid, add_to, add_to128, info_add_uuid16,
  info_add_uuid32, info_add_uuid128, add_all16, add_all32, add_all128,
}
use supertooth.Ble.AdvInfo.Parse.{parse_lists, parse_values, parse_loop, adv_parse_info}

-- No number stands twice.
abbrev pub Distinct : List ℕ → Type 0
Distinct [] = Unit {0}
Distinct (x ∷ xs) = (has_uuid x xs ≡ false) × Distinct xs

pub record InfoIsValid (info : AdvInfo) : Type 0 where
  pub room16 : length info.service_uuids ≤ 16
  pub distinct16 : Distinct info.service_uuids
  pub room32 : length info.service_uuids32 ≤ 16
  pub distinct32 : Distinct info.service_uuids32
  pub room128 : length info.uuid128 ≤ 4

length-snoc {ℓ} : {A : Type ℓ} (xs : List A) (x : A) → length (xs ++ x ∷ []) ≡ length xs + 1
length-snoc [] x = refl
length-snoc (y ∷ ys) x = omega (arith, length-snoc ys x)

pub has_uuid-snoc : (v u : ℕ) (xs : List ℕ) → has_uuid v (xs ++ u ∷ []) ≡ (has_uuid v xs || u == v)
unfolding has_uuid
has_uuid-snoc v u [] = ground arith
has_uuid-snoc v u (x ∷ xs) = ground (arith, has_uuid-snoc v u xs)

Distinct-snoc :
    (u : ℕ) (xs : List ℕ) → Distinct xs → has_uuid u xs ≡ false → Distinct (xs ++ u ∷ [])
unfolding has_uuid
Distinct-snoc u [] d h = (refl, tt)
Distinct-snoc u (x ∷ xs) (d, ds) h =
    (ground (arith, has_uuid-snoc x u xs), Distinct-snoc u xs ds (ground arith))

-- Entries are only added while there is room, and only new ones.
add_to_valid :
    (u : ℕ) (xs : List ℕ)
    → length xs ≤ 16
    → Distinct xs
    → (length (add_to 16 u xs) ≤ 16) × Distinct (add_to 16 u xs)
unfolding add_to
add_to_valid u xs h d = elim (Bool-cases (has_uuid u xs)) [
  | inl old ↦ rw old (h, d)
  | inr new ↦ elim (Bool-cases (ltb (length xs) 16)) [
    | inl room ↦ rw (new, room) (ground (arith, length-snoc xs u), Distinct-snoc u xs d new)
    | inr full ↦ rw (new, full) (h, d)
  ]
]

add_to128_valid : (u : Bytes) (xs : List Bytes) → length xs ≤ 4 → length (add_to128 u xs) ≤ 4
unfolding add_to128
add_to128_valid u xs h = ground (arith, length-snoc xs (take 16 u))

pub uuid16-InfoIsValid :
    (out : AdvInfo) (u : ℕ) → InfoIsValid out → InfoIsValid (info_add_uuid16 out u)
unfolding info_add_uuid16
uuid16-InfoIsValid out u v =
    let (room, distinct) = add_to_valid u out.service_uuids v.room16 v.distinct16 in
    record {
      room16 = room;
      distinct16 = distinct;
      room32 = v.room32;
      distinct32 = v.distinct32;
      room128 = v.room128;
    }

pub uuid32-InfoIsValid :
    (out : AdvInfo) (u : ℕ) → InfoIsValid out → InfoIsValid (info_add_uuid32 out u)
unfolding info_add_uuid32
uuid32-InfoIsValid out u v =
    let (room, distinct) = add_to_valid u out.service_uuids32 v.room32 v.distinct32 in
    record {
      room16 = v.room16;
      distinct16 = v.distinct16;
      room32 = room;
      distinct32 = distinct;
      room128 = v.room128;
    }

if-InfoIsValid :
    (b : Bool) (x y : AdvInfo) → InfoIsValid x → InfoIsValid y → InfoIsValid (if b then x else y)
if-InfoIsValid true x y h k = h
if-InfoIsValid false x y h k = k

-- Another value in a field that is not a list.
pub same_lists :
    (out out' : AdvInfo)
    → out'.service_uuids ≡ out.service_uuids
    → out'.service_uuids32 ≡ out.service_uuids32
    → out'.uuid128 ≡ out.uuid128
    → InfoIsValid out
    → InfoIsValid out'
same_lists out out' e16 e32 e128 v = record {
  room16 = rw e16 v.room16;
  distinct16 = rw e16 v.distinct16;
  room32 = rw e32 v.room32;
  distinct32 = rw e32 v.distinct32;
  room128 = rw e128 v.room128;
}

pub uuid128-InfoIsValid :
    (out : AdvInfo) (u : Bytes) → InfoIsValid out → InfoIsValid (info_add_uuid128 out u)
unfolding info_add_uuid128
uuid128-InfoIsValid out u v =
    if-InfoIsValid (is_base u) _ _ (uuid16-InfoIsValid out (le16 u 12) v) (record {
      room16 = v.room16;
      distinct16 = v.distinct16;
      room32 = v.room32;
      distinct32 = v.distinct32;
      room128 = add_to128_valid u out.uuid128 v.room128;
    })

all16-InfoIsValid :
    (left k : ℕ) (ad : Bytes) (out : AdvInfo)
    → InfoIsValid out
    → InfoIsValid (add_all16 left k ad out)
unfolding add_all16
all16-InfoIsValid zero k ad out v = v
all16-InfoIsValid (suc left) k ad out v =
    all16-InfoIsValid left (k + 2) ad (info_add_uuid16 out (le16 ad k))
      (uuid16-InfoIsValid out (le16 ad k) v)

all32-InfoIsValid :
    (left k : ℕ) (ad : Bytes) (out : AdvInfo)
    → InfoIsValid out
    → InfoIsValid (add_all32 left k ad out)
unfolding add_all32
all32-InfoIsValid zero k ad out v = v
all32-InfoIsValid (suc left) k ad out v =
    all32-InfoIsValid left (k + 4) ad (info_add_uuid32 out (le32 ad k))
      (uuid32-InfoIsValid out (le32 ad k) v)

all128-InfoIsValid :
    (left k : ℕ) (ad : Bytes) (out : AdvInfo)
    → InfoIsValid out
    → InfoIsValid (add_all128 left k ad out)
unfolding add_all128
all128-InfoIsValid zero k ad out v = v
all128-InfoIsValid (suc left) k ad out v =
    all128-InfoIsValid left (k + 16) ad (info_add_uuid128 out (drop k ad))
      (uuid128-InfoIsValid out (drop k ad) v)

lists-InfoIsValid :
    (kind : ℕ) (ad : Bytes) (n : ℕ) (out : AdvInfo)
    → InfoIsValid out
    → InfoIsValid (parse_lists kind ad n out)
unfolding parse_lists
lists-InfoIsValid kind ad n out v =
    let noted =
      λ (out' : AdvInfo) (e16 : out'.service_uuids ≡ out.service_uuids)
          (e32 : out'.service_uuids32 ≡ out.service_uuids32) (e128 : out'.uuid128 ≡ out.uuid128).
        same_lists out out' e16 e32 e128 v in
    let incomplete = noted (record out { has_incomplete_list = 1 }) refl refl refl in
    let complete = noted (record out { has_complete_list = 1 }) refl refl refl in
    let asked = noted (record out { has_solicitation = 1 }) refl refl refl in
    let offered = noted (record out { has_service_data = 1 }) refl refl refl in
    if-InfoIsValid (kind == 0x02) _ _ (all16-InfoIsValid (n / 2) 0 ad _ incomplete) (
      if-InfoIsValid (kind == 0x03) _ _ (all16-InfoIsValid (n / 2) 0 ad _ complete) (
        if-InfoIsValid (kind == 0x04) _ _ (all32-InfoIsValid (n / 4) 0 ad _ incomplete) (
          if-InfoIsValid (kind == 0x05) _ _ (all32-InfoIsValid (n / 4) 0 ad _ complete) (
            if-InfoIsValid (kind == 0x06) _ _ (all128-InfoIsValid (n / 16) 0 ad _ incomplete) (
              if-InfoIsValid (kind == 0x07) _ _ (all128-InfoIsValid (n / 16) 0 ad _ complete) (
                if-InfoIsValid (kind == 0x14) _ _ (all16-InfoIsValid (n / 2) 0 ad _ asked) (
                  if-InfoIsValid (kind == 0x1f) _ _ (all32-InfoIsValid (n / 4) 0 ad _ asked) (
                    if-InfoIsValid (kind == 0x15) _ _ (all128-InfoIsValid (n / 16) 0 ad _ asked) (
                      if-InfoIsValid (kind == 0x16 && leb 2 n) _ _
                        (uuid16-InfoIsValid _ (le16 ad 0) offered)
                        (if-InfoIsValid (kind == 0x20 && leb 4 n) _ _
                          (uuid32-InfoIsValid _ (le32 ad 0) offered)
                          (if-InfoIsValid (kind == 0x21 && leb 16 n) _ _
                            (uuid128-InfoIsValid _ ad offered) v)))))))))))

values-InfoIsValid :
    (kind : ℕ) (ad : Bytes) (n : ℕ) (out : AdvInfo)
    → InfoIsValid out
    → InfoIsValid (parse_values kind ad n out)
unfolding parse_values
values-InfoIsValid kind ad n out v =
    same_lists out (parse_values kind ad n out) (ground arith) (ground arith) (ground arith) v

loop-InfoIsValid :
    (fuel i : ℕ) (bytes : Bytes) (len : ℕ) (out : AdvInfo)
    → InfoIsValid out
    → InfoIsValid (parse_loop fuel i bytes len out)
unfolding parse_loop
loop-InfoIsValid zero i bytes len out v = v
loop-InfoIsValid (suc fuel) i bytes len out v =
    let n = at bytes i in
    let next = u32 (i + 1 + n) in
    let kind = at bytes (u32 (i + 1)) in
    let ad = drop (i + 2) bytes in
    if-InfoIsValid (ltb (u32 (i + 1)) len && not (n == 0) && leb next len) _ _
      (loop-InfoIsValid fuel next bytes len
        (parse_values kind ad (n - 1) (parse_lists kind ad (n - 1) out))
        (values-InfoIsValid kind ad (n - 1) _ (lists-InfoIsValid kind ad (n - 1) out v)))
      v

-- Whatever the bytes are, the summary that is parsed from them has at most 16 service addresses of
-- 16 bits, 16 of 32 bits and 4 of 128 bits, and none of 16 or 32 bits twice.
pub adv_parse_info-InfoIsValid : (bytes : Bytes) (len : ℕ) → InfoIsValid (adv_parse_info bytes len)
unfolding adv_parse_info
adv_parse_info-InfoIsValid bytes len = loop-InfoIsValid len 0 bytes len no_info (record {
  room16 = omega arith;
  distinct16 = tt;
  room32 = omega arith;
  distinct32 = tt;
  room128 = omega arith;
})

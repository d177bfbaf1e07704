-- ===== src/Ble/AdvInfo/Merge.antt =====
-- What a merge of two summaries of advertising data keeps and counts.
use mathlib.Core.List.{append-nil, append_assoc}
use supertooth.Base.{
  ◌++◌, Bool, true, false, sym, take, length, ℕ, suc, ◌+◌, ◌^◌, ◌<◌, ◌≡◌, refl, ap, ◌∙◌, arith,
  true, List, [], ◌∷◌, Bytes, ltb, if◌then◌else◌, Bool-cases, inl, inr,
}
use supertooth.Ble.AdvInfo.{
  AdvInfo, le16, is_base, has_uuid, has_uuid128, add_to128, add_to, info_add_uuid16,
  info_add_uuid32, info_add_uuid128, merge16, merge32, merge128, merge_values, adv_info_merge,
}
use supertooth.Ble.AdvInfo.Valid.{
  InfoIsValid, same_lists, uuid16-InfoIsValid, uuid32-InfoIsValid, uuid128-InfoIsValid,
}

merge16-InfoIsValid : (us : List ℕ) (dst : AdvInfo) → InfoIsValid dst → InfoIsValid (merge16 us dst)
unfolding merge16
merge16-InfoIsValid [] dst v = v
merge16-InfoIsValid (u ∷ us) dst v =
    merge16-InfoIsValid us (info_add_uuid16 dst u) (uuid16-InfoIsValid dst u v)

merge32-InfoIsValid : (us : List ℕ) (dst : AdvInfo) → InfoIsValid dst → InfoIsValid (merge32 us dst)
unfolding merge32
merge32-InfoIsValid [] dst v = v
merge32-InfoIsValid (u ∷ us) dst v =
    merge32-InfoIsValid us (info_add_uuid32 dst u) (uuid32-InfoIsValid dst u v)

merge128-InfoIsValid :
    (us : List Bytes) (dst : AdvInfo) → InfoIsValid dst → InfoIsValid (merge128 us dst)
unfolding merge128
merge128-InfoIsValid [] dst v = v
merge128-InfoIsValid (u ∷ us) dst v =
    merge128-InfoIsValid us (info_add_uuid128 dst u) (uuid128-InfoIsValid dst u v)

-- A list that begins with another one.
abbrev pub BeginsWith {ℓ} : {A : Type ℓ} → List A → List A → Type ℓ
BeginsWith xs ys = (more : List _) × (ys ≡ xs ++ more)

BeginsWith-refl {ℓ} : {A : Type ℓ} (xs : List A) → BeginsWith xs xs
BeginsWith-refl xs = ([], sym (append-nil xs))

BeginsWith-trans {ℓ} :
    {A : Type ℓ} (xs ys zs : List A) → BeginsWith xs ys → BeginsWith ys zs → BeginsWith xs zs
BeginsWith-trans xs ys zs (a, e) (b, f) = (a ++ b, f ∙ ap (λ t. t ++ b) e ∙ append_assoc xs a b)

-- A summary that keeps the service addresses of another one, in their places.
pub record Extends (dst info : AdvInfo) : Type 0 where
  pub keeps16 : BeginsWith dst.service_uuids info.service_uuids
  pub keeps32 : BeginsWith dst.service_uuids32 info.service_uuids32
  pub keeps128 : BeginsWith dst.uuid128 info.uuid128

Extends-refl : (dst : AdvInfo) → Extends dst dst
Extends-refl dst = record {
  keeps16 = BeginsWith-refl dst.service_uuids;
  keeps32 = BeginsWith-refl dst.service_uuids32;
  keeps128 = BeginsWith-refl dst.uuid128;
}

Extends-trans : (a b c : AdvInfo) → Extends a b → Extends b c → Extends a c
Extends-trans a b c p q = record {
  keeps16 = BeginsWith-trans a.service_uuids b.service_uuids c.service_uuids p.keeps16 q.keeps16;
  keeps32 =
      BeginsWith-trans a.service_uuids32 b.service_uuids32 c.service_uuids32 p.keeps32 q.keeps32;
  keeps128 = BeginsWith-trans a.uuid128 b.uuid128 c.uuid128 p.keeps128 q.keeps128;
}

if-BeginsWith {ℓ} :
    {A : Type ℓ} (b : Bool) (xs ys zs : List A)
    → BeginsWith xs ys
    → BeginsWith xs zs
    → BeginsWith xs (if b then ys else zs)
if-BeginsWith true xs ys zs p q = p
if-BeginsWith false xs ys zs p q = q

add_to-BeginsWith : (room u : ℕ) (xs : List ℕ) → BeginsWith xs (add_to room u xs)
unfolding add_to
add_to-BeginsWith room u xs =
    if-BeginsWith (has_uuid u xs) xs xs _ (BeginsWith-refl xs) (
      if-BeginsWith (ltb (length xs) room) xs (xs ++ u ∷ []) xs (u ∷ [], refl) (BeginsWith-refl xs))

add_to128-BeginsWith : (u : Bytes) (xs : List Bytes) → BeginsWith xs (add_to128 u xs)
unfolding add_to128
add_to128-BeginsWith u xs = if-BeginsWith (has_uuid128 u xs) xs xs _ (BeginsWith-refl xs) (
    if-BeginsWith (ltb (length xs) 4) xs (xs ++ take 16 u ∷ []) xs (take 16 u ∷ [], refl)
      (BeginsWith-refl xs))

uuid16-Extends : (dst : AdvInfo) (u : ℕ) → Extends dst (info_add_uuid16 dst u)
unfolding info_add_uuid16
uuid16-Extends dst u = record {
  keeps16 = add_to-BeginsWith 16 u dst.service_uuids;
  keeps32 = BeginsWith-refl dst.service_uuids32;
  keeps128 = BeginsWith-refl dst.uuid128;
}

uuid32-Extends : (dst : AdvInfo) (u : ℕ) → Extends dst (info_add_uuid32 dst u)
unfolding info_add_uuid32
uuid32-Extends dst u = record {
  keeps16 = BeginsWith-refl dst.service_uuids;
  keeps32 = add_to-BeginsWith 16 u dst.service_uuids32;
  keeps128 = BeginsWith-refl dst.uuid128;
}

uuid128-Extends : (dst : AdvInfo) (u : Bytes) → Extends dst (info_add_uuid128 dst u)
unfolding info_add_uuid128
uuid128-Extends dst u = elim (Bool-cases (is_base u)) [
  | inl alias ↦ rw alias (uuid16-Extends dst (le16 u 12))
  | inr full ↦ rw full (record {
    keeps16 = BeginsWith-refl dst.service_uuids;
    keeps32 = BeginsWith-refl dst.service_uuids32;
    keeps128 = add_to128-BeginsWith u dst.uuid128;
  })
]

merge16-Extends : (us : List ℕ) (dst : AdvInfo) → Extends dst (merge16 us dst)
unfolding merge16
merge16-Extends [] dst = Extends-refl dst
merge16-Extends (u ∷ us) dst =
    Extends-trans dst (info_add_uuid16 dst u) _ (uuid16-Extends dst u) (merge16-Extends us _)

merge32-Extends : (us : List ℕ) (dst : AdvInfo) → Extends dst (merge32 us dst)
unfolding merge32
merge32-Extends [] dst = Extends-refl dst
merge32-Extends (u ∷ us) dst =
    Extends-trans dst (info_add_uuid32 dst u) _ (uuid32-Extends dst u) (merge32-Extends us _)

merge128-Extends : (us : List Bytes) (dst : AdvInfo) → Extends dst (merge128 us dst)
unfolding merge128
merge128-Extends [] dst = Extends-refl dst
merge128-Extends (u ∷ us) dst =
    Extends-trans dst (info_add_uuid128 dst u) _ (uuid128-Extends dst u) (merge128-Extends us _)

-- A merge into a valid summary, such as the empty one, gives a valid one, which begins with all the
-- service addresses of 16, 32 and 128 bits that were there, in their places.
pub adv_info_merge-InfoIsValid :
    (dst src : AdvInfo)
    → InfoIsValid dst
    → InfoIsValid (adv_info_merge dst src) × Extends dst (adv_info_merge dst src)
unfolding adv_info_merge merge_values
adv_info_merge-InfoIsValid dst src valid =
    let a = merge16 src.service_uuids dst in
    let b = merge32 src.service_uuids32 a in
    let c = merge128 src.uuid128 b in
    let all = Extends-trans dst a c (merge16-Extends src.service_uuids dst) (
      Extends-trans a b c (merge32-Extends src.service_uuids32 a)
        (merge128-Extends src.uuid128 b)) in
    (
      same_lists c (adv_info_merge dst src) refl refl refl (
          merge128-InfoIsValid src.uuid128 b (
            merge32-InfoIsValid src.service_uuids32 a
              (merge16-InfoIsValid src.service_uuids dst valid))),
      record { keeps16 = all.keeps16; keeps32 = all.keeps32; keeps128 = all.keeps128 },
    )

-- The entries that are no alias of a 16-bit address.
abbrev pub count_full : List Bytes → ℕ
count_full [] = 0
count_full (u ∷ us) = if is_base u then count_full us else suc (count_full us)

merge16-total : (us : List ℕ) (dst : AdvInfo) → (merge16 us dst).uuid128_total ≡ dst.uuid128_total
unfolding merge16 info_add_uuid16
merge16-total [] dst = refl
merge16-total (u ∷ us) dst = merge16-total us (info_add_uuid16 dst u)

merge32-total : (us : List ℕ) (dst : AdvInfo) → (merge32 us dst).uuid128_total ≡ dst.uuid128_total
unfolding merge32 info_add_uuid32
merge32-total [] dst = refl
merge32-total (u ∷ us) dst = merge32-total us (info_add_uuid32 dst u)

uuid128-total :
    (dst : AdvInfo) (u : Bytes)
    → dst.uuid128_total + 1 < 2 ^ 32
    → (info_add_uuid128 dst u).uuid128_total
      ≡ (if is_base u then dst.uuid128_total else dst.uuid128_total + 1)
unfolding info_add_uuid128 info_add_uuid16
uuid128-total dst u h = ground arith

merge128-total :
    (us : List Bytes) (dst : AdvInfo)
    → dst.uuid128_total + count_full us + 1 < 2 ^ 32
    → (merge128 us dst).uuid128_total ≡ dst.uuid128_total + count_full us
unfolding merge128
merge128-total [] dst h = omega arith
merge128-total (u ∷ us) dst h = elim (Bool-cases (is_base u)) [
  | inl alias ↦
      let small : dst.uuid128_total + count_full us + 1 < 2 ^ 32 = rw alias at h in
      let step : (info_add_uuid128 dst u).uuid128_total ≡ dst.uuid128_total =
        uuid128-total dst u (omega arith) ∙ rw alias in
      rw alias (omega (arith, step, merge128-total us (info_add_uuid128 dst u)))
  | inr full ↦
      let small : dst.uuid128_total + suc (count_full us) + 1 < 2 ^ 32 = rw full at h in
      let step : (info_add_uuid128 dst u).uuid128_total ≡ dst.uuid128_total + 1 =
        uuid128-total dst u (omega arith) ∙ rw full in
      rw full (omega (arith, step, merge128-total us (info_add_uuid128 dst u)))
]

-- While it does not overflow, the number of 128-bit service addresses grows with every merge by the
-- number of those that the other summary holds, also where all of them were there before; it is
-- the other summary's own number if that is larger.
pub adv_info_merge-count_full :
    (dst src : AdvInfo)
    → dst.uuid128_total + count_full src.uuid128 + 1 < 2 ^ 32
    → (adv_info_merge dst src).uuid128_total ≡ (
        if ltb (dst.uuid128_total + count_full src.uuid128) src.uuid128_total
        then src.uuid128_total
        else dst.uuid128_total + count_full src.uuid128)
unfolding adv_info_merge merge_values
adv_info_merge-count_full dst src h =
    let a = merge16 src.service_uuids dst in
    let b = merge32 src.service_uuids32 a in
    let first : b.uuid128_total ≡ dst.uuid128_total =
      merge32-total src.service_uuids32 a ∙ merge16-total src.service_uuids dst in
    let all =
      merge128-total src.uuid128 b (omega arith) ∙ ap (λ n. n + count_full src.uuid128) first in
    ap (λ n. if ltb n src.uuid128_total then src.uuid128_total else n) all

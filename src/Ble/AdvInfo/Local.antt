-- ===== src/Ble/AdvInfo/Local.antt =====
-- A structure of advertising data is read within its length: the bytes behind it, which
-- `ble_adv_parse_info` of src/core/protocol/ble/ble_codec.c has in the same buffer, have no influence.
use supertooth.Base.{
  ℕ, zero, suc, ◌+◌, ◌*◌, ◌/◌, ◌≤◌, ◌≡◌, refl, ap, ap₂, ◌∙◌, arith, ◌++◌, Bytes, at, length, drop,
  map, List, [], ◌∷◌, length-drop, get_or-append, take-append_of_le, ltb, leb, ◌==◌, bit_or, ◌<<<◌,
  if◌then◌else◌, Bool, true, false, ◌&&◌, ◌||◌,
}
use supertooth.Ble.AdvInfo.{
  AdvInfo, le16, le32, is_base, info_add_uuid16, info_add_uuid32, info_add_uuid128, same_bytes,
  has_uuid128, add_to128, add_all16, add_all32, add_all128,
}
use supertooth.Ble.AdvInfo.Parse.{parse_lists, parse_values, store_uri, printable}

drop-append_of_le : (k : ℕ) (xs ys : Bytes) → k ≤ length xs → drop k (xs ++ ys) ≡ drop k xs ++ ys
drop-append_of_le zero xs ys h = refl
drop-append_of_le (suc k) [] ys h = absurd (omega arith)
drop-append_of_le (suc k) (x ∷ xs) ys h = drop-append_of_le k xs ys (omega arith)

module _ (rest : Bytes) where
  at_local : (u : Bytes) (k : ℕ) → k + 1 ≤ length u → at (u ++ rest) k ≡ at u k
  at_local u k h = get_or-append u rest k 0 (omega arith)

  le16_local : (u : Bytes) (k : ℕ) → k + 2 ≤ length u → le16 (u ++ rest) k ≡ le16 u k
  le16_local u k h =
      ap₂ (λ a b. bit_or a (b <<< 8)) (at_local u k (omega arith))
        (at_local u (k + 1) (omega arith))

  le32_local : (u : Bytes) (k : ℕ) → k + 4 ≤ length u → le32 (u ++ rest) k ≡ le32 u k
  le32_local u k h =
      let low =
        ap₂ (λ a b. bit_or a (b <<< 8)) (at_local u k (omega arith))
          (at_local u (k + 1) (omega arith)) in
      ap₂ (λ a b. bit_or a (b <<< 24))
        (ap₂ (λ a b. bit_or a (b <<< 16)) low (at_local u (k + 2) (omega arith)))
        (at_local u (k + 3) (omega arith))

  same_bytes_local :
      (left i : ℕ) (x u : Bytes)
      → i + left ≤ length u
      → same_bytes left i x (u ++ rest) ≡ same_bytes left i x u
  unfolding same_bytes
  same_bytes_local zero i x u h = refl
  same_bytes_local (suc left) i x u h =
      ap₂ (λ a b. at x i == a && b) (at_local u i (omega arith))
        (same_bytes_local left (i + 1) x u (omega arith))

  has_uuid128_local :
      (u : Bytes) (xs : List Bytes) → 16 ≤ length u → has_uuid128 (u ++ rest) xs ≡ has_uuid128 u xs
  unfolding has_uuid128
  has_uuid128_local u [] h = refl
  has_uuid128_local u (x ∷ xs) h =
      ap₂ (λ a b. a || b) (same_bytes_local 16 0 x u (omega arith)) (has_uuid128_local u xs h)

  add_to128_local :
      (u : Bytes) (xs : List Bytes) → 16 ≤ length u → add_to128 (u ++ rest) xs ≡ add_to128 u xs
  unfolding add_to128
  add_to128_local u xs h =
      ap₂ (λ b t. if b then xs else if ltb (length xs) 4 then xs ++ t ∷ [] else xs)
        (has_uuid128_local u xs h) (take-append_of_le 16 u rest h)

  is_base_local : (u : Bytes) → 16 ≤ length u → is_base (u ++ rest) ≡ is_base u
  is_base_local u h =
      rw
        (
          at_local u 0 (omega arith),
          at_local u 1 (omega arith),
          at_local u 2 (omega arith),
          at_local u 3 (omega arith),
          at_local u 4 (omega arith),
          at_local u 5 (omega arith),
          at_local u 6 (omega arith),
          at_local u 7 (omega arith),
          at_local u 8 (omega arith),
          at_local u 9 (omega arith),
          at_local u 10 (omega arith),
          at_local u 11 (omega arith),
          at_local u 14 (omega arith),
          at_local u 15 (omega arith),
        )
        refl

  pub uuid128_local :
      (out : AdvInfo) (u : Bytes)
      → 16 ≤ length u
      → info_add_uuid128 out (u ++ rest) ≡ info_add_uuid128 out u
  unfolding info_add_uuid128
  uuid128_local out u h =
      rw (is_base_local u h, le16_local u 12 (omega arith), add_to128_local u out.uuid128 h) refl

  all16_local :
      (left k : ℕ) (ad : Bytes) (out : AdvInfo)
      → k + 2 * left ≤ length ad
      → add_all16 left k (ad ++ rest) out ≡ add_all16 left k ad out
  unfolding add_all16
  all16_local zero k ad out h = refl
  all16_local (suc left) k ad out h =
      ap (λ u. add_all16 left (k + 2) (ad ++ rest) (info_add_uuid16 out u))
        (le16_local ad k (omega arith))
      ∙ all16_local left (k + 2) ad _ (omega arith)

  all32_local :
      (left k : ℕ) (ad : Bytes) (out : AdvInfo)
      → k + 4 * left ≤ length ad
      → add_all32 left k (ad ++ rest) out ≡ add_all32 left k ad out
  unfolding add_all32
  all32_local zero k ad out h = refl
  all32_local (suc left) k ad out h =
      ap (λ u. add_all32 left (k + 4) (ad ++ rest) (info_add_uuid32 out u))
        (le32_local ad k (omega arith))
      ∙ all32_local left (k + 4) ad _ (omega arith)

  all128_local :
      (left k : ℕ) (ad : Bytes) (out : AdvInfo)
      → k + 16 * left ≤ length ad
      → add_all128 left k (ad ++ rest) out ≡ add_all128 left k ad out
  unfolding add_all128
  all128_local zero k ad out h = refl
  all128_local (suc left) k ad out h =
      ap (λ u. add_all128 left (k + 16) (ad ++ rest) (info_add_uuid128 out u))
        (drop-append_of_le k ad rest (omega arith))
      ∙ ap (add_all128 left (k + 16) (ad ++ rest))
          (uuid128_local out (drop k ad) (omega (arith, length-drop k ad)))
      ∙ all128_local left (k + 16) ad _ (omega arith)

  uri_local :
      (ad uri : Bytes) → store_uri (ad ++ rest) (length ad) uri ≡ store_uri ad (length ad) uri
  uri_local ad uri =
      let n = if ltb (length ad) 63 then length ad else 63 in
      ap (λ t. map printable t ++ 0 ∷ drop (n + 1) uri) (take-append_of_le n ad rest (ground arith))

  -- The first case under its condition.
  if_then_local {ℓ} :
      {A : Type ℓ} (b : Bool) {x x' y y' : A}
      → (b ≡ true → x ≡ x')
      → y ≡ y'
      → (if b then x else y) ≡ (if b then x' else y')
  if_then_local true p q = p refl
  if_then_local false p q = q

  pub parse_lists_local :
      (kind : ℕ) (ad : Bytes) (out : AdvInfo)
      → parse_lists kind (ad ++ rest) (length ad) out ≡ parse_lists kind ad (length ad) out
  unfolding parse_lists
  parse_lists_local kind ad out =
      let n = length ad in
      let all16 = λ (o : AdvInfo). all16_local (n / 2) 0 ad o (omega arith) in
      let all32 = λ (o : AdvInfo). all32_local (n / 4) 0 ad o (omega arith) in
      let all128 = λ (o : AdvInfo). all128_local (n / 16) 0 ad o (omega arith) in
      if_then_local (kind == 0x02) (λ _. all16 _)
        (if_then_local (kind == 0x03) (λ _. all16 _)
          (if_then_local (kind == 0x04) (λ _. all32 _)
            (if_then_local (kind == 0x05) (λ _. all32 _)
              (if_then_local (kind == 0x06) (λ _. all128 _)
                (if_then_local (kind == 0x07) (λ _. all128 _)
                  (if_then_local (kind == 0x14) (λ _. all16 _)
                    (if_then_local (kind == 0x1f) (λ _. all32 _)
                      (if_then_local (kind == 0x15) (λ _. all128 _)
                        (if_then_local (kind == 0x16 && leb 2 n)
                          (λ h. ap (info_add_uuid16 _) (le16_local ad 0 (ground (arith, h))))
                          (if_then_local (kind == 0x20 && leb 4 n)
                            (λ h. ap (info_add_uuid32 _) (le32_local ad 0 (ground (arith, h))))
                            (if_then_local (kind == 0x21 && leb 16 n)
                              (λ h. uuid128_local _ ad (ground (arith, h))) refl)))))))))))

  pub parse_values_local :
      (kind : ℕ) (ad : Bytes) (out : AdvInfo)
      → parse_values kind (ad ++ rest) (length ad) out ≡ parse_values kind ad (length ad) out
  unfolding parse_values
  parse_values_local kind ad out =
      let n = length ad in
      if_then_local (kind == 0x01 && leb 1 n)
        (λ h. ap (λ v. record out { flags = v; has_flags = 1 }) (at_local ad 0 (ground (arith, h))))
        (if_then_local (kind == 0x0a && leb 1 n)
          (λ h.
            ap (λ v. record out { tx_power = v; has_tx_power = 1 })
              (at_local ad 0 (ground (arith, h))))
          (if_then_local (kind == 0x0d && leb 3 n)
            (λ h.
              ap₂ (λ v w. record out { cod = bit_or v (w <<< 16); has_cod = 1 })
                (le16_local ad 0 (ground (arith, h))) (at_local ad 2 (ground (arith, h))))
            (if_then_local (kind == 0x12 && leb 4 n)
              (λ h.
                ap₂
                  (λ v w. record out {
                    conn_interval_min = v;
                    conn_interval_max = w;
                    has_conn_interval = 1;
                  })
                  (le16_local ad 0 (ground (arith, h))) (le16_local ad 2 (ground (arith, h))))
              (if_then_local (kind == 0x19 && leb 2 n)
                (λ h.
                  ap (λ v. record out { appearance = v; has_appearance = 1 })
                    (le16_local ad 0 (ground (arith, h))))
                (if_then_local (kind == 0x1a && leb 2 n)
                  (λ h.
                    ap (λ v. record out { adv_interval = v; has_adv_interval = 1 })
                      (le16_local ad 0 (ground (arith, h))))
                  (if_then_local (kind == 0x1c && leb 1 n)
                    (λ h.
                      ap (λ v. record out { le_role = v; has_le_role = 1 })
                        (at_local ad 0 (ground (arith, h))))
                    (if_then_local (kind == 0x24 && ltb 0 n)
                      (λ h. ap (λ v. record out { uri = v }) (uri_local ad out.uri)) refl)))))))

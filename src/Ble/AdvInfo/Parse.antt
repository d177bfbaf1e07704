-- ===== src/Ble/AdvInfo/Parse.antt =====
-- `ble_adv_parse_info` of src/core/protocol/ble/ble_codec.c: the structures of advertising data.
use supertooth.Base.{
  ℕ, zero, suc, ◌+◌, ◌-◌, ◌/◌, bit_or, ◌&&◌, not, ◌∷◌, ◌++◌, Bytes, at, take, drop, map, ltb, leb,
  ◌==◌, if◌then◌else◌, ◌<<<◌, u32,
}
use supertooth.Ble.AdvInfo.{
  AdvInfo, no_info, le16, le32, info_add_uuid16, info_add_uuid32, info_add_uuid128, add_all16,
  add_all32, add_all128,
}

-- A printable character, or a dot.
abbrev pub printable : ℕ → ℕ
printable c = if leb 0x20 c && ltb c 0x7f then c else 0x2e

abbrev pub store_uri : Bytes → ℕ → Bytes → Bytes
store_uri ad ad_dlen uri =
    let n = if ltb ad_dlen 63 then ad_dlen else 63 in
    map printable (take n ad) ++ 0 ∷ drop (n + 1) uri

-- The cases of the switch with lists of service addresses.
unfoldable pub parse_lists : ℕ → Bytes → ℕ → AdvInfo → AdvInfo
unfolding add_all16 add_all32 add_all128 info_add_uuid16 info_add_uuid32 info_add_uuid128
parse_lists kind ad ad_dlen out =
    if kind == 0x02
    then add_all16 (ad_dlen / 2) 0 ad (record out { has_incomplete_list = 1 })
    else if kind == 0x03
    then add_all16 (ad_dlen / 2) 0 ad (record out { has_complete_list = 1 })
    else if kind == 0x04
    then add_all32 (ad_dlen / 4) 0 ad (record out { has_incomplete_list = 1 })
    else if kind == 0x05
    then add_all32 (ad_dlen / 4) 0 ad (record out { has_complete_list = 1 })
    else if kind == 0x06
    then add_all128 (ad_dlen / 16) 0 ad (record out { has_incomplete_list = 1 })
    else if kind == 0x07
    then add_all128 (ad_dlen / 16) 0 ad (record out { has_complete_list = 1 })
    else if kind == 0x14
    then add_all16 (ad_dlen / 2) 0 ad (record out { has_solicitation = 1 })
    else if kind == 0x1f
    then add_all32 (ad_dlen / 4) 0 ad (record out { has_solicitation = 1 })
    else if kind == 0x15
    then add_all128 (ad_dlen / 16) 0 ad (record out { has_solicitation = 1 })
    else if kind == 0x16 && leb 2 ad_dlen
    then info_add_uuid16 (record out { has_service_data = 1 }) (le16 ad 0)
    else if kind == 0x20 && leb 4 ad_dlen
    then info_add_uuid32 (record out { has_service_data = 1 }) (le32 ad 0)
    else if kind == 0x21 && leb 16 ad_dlen
    then info_add_uuid128 (record out { has_service_data = 1 }) ad
    else out

-- The other cases of the switch.
unfoldable pub parse_values : ℕ → Bytes → ℕ → AdvInfo → AdvInfo
parse_values kind ad ad_dlen out =
    if kind == 0x01 && leb 1 ad_dlen
    then record out { flags = at ad 0; has_flags = 1 }
    else if kind == 0x0a && leb 1 ad_dlen
    then record out { tx_power = at ad 0; has_tx_power = 1 }
    else if kind == 0x0d && leb 3 ad_dlen
    then record out { cod = bit_or (le16 ad 0) (at ad 2 <<< 16); has_cod = 1 }
    else if kind == 0x12 && leb 4 ad_dlen
    then record out {
      conn_interval_min = le16 ad 0;
      conn_interval_max = le16 ad 2;
      has_conn_interval = 1;
    }
    else if kind == 0x19 && leb 2 ad_dlen
    then record out { appearance = le16 ad 0; has_appearance = 1 }
    else if kind == 0x1a && leb 2 ad_dlen
    then record out { adv_interval = le16 ad 0; has_adv_interval = 1 }
    else if kind == 0x1c && leb 1 ad_dlen
    then record out { le_role = at ad 0; has_le_role = 1 }
    else if kind == 0x24 && ltb 0 ad_dlen
    then record out { uri = store_uri ad ad_dlen out.uri }
    else out

-- The loop over the structures, at the `unsigned int` `i`. Each round moves on by two bytes at least,
-- so `len` rounds are enough while `len` is at most 2^32 - 256. Beyond that `i` can wrap around, and
-- the loop of C need not end.
unfoldable pub parse_loop : ℕ → ℕ → Bytes → ℕ → AdvInfo → AdvInfo
parse_loop zero i bytes len out = out
parse_loop (suc fuel) i bytes len out =
    let ad_len = at bytes i in
    let next = u32 (i + 1 + ad_len) in
    let kind = at bytes (u32 (i + 1)) in
    let ad = drop (i + 2) bytes in
    let out' = parse_values kind ad (ad_len - 1) (parse_lists kind ad (ad_len - 1) out) in
    let rest = parse_loop fuel next bytes len out' in
    if ltb (u32 (i + 1)) len && not (ad_len == 0) && leb next len then rest else out

unfoldable pub adv_parse_info : Bytes → ℕ → AdvInfo
unfolding parse_loop parse_lists parse_values
adv_parse_info bytes len = parse_loop len 0 bytes len no_info

-- ===== src/Ble/AdvInfo.antt =====
-- What an advertiser says about itself, in src/core/protocol/ble/ble_codec.c: the summary, how service
-- addresses enter it, and `ble_adv_info_merge`. An array with its count is a list. An `int8_t` is the
-- number of its bits.
pub mod Parse
pub mod Valid
pub mod Local
pub mod Structures
pub mod Items
pub mod Merge
pub mod Names
use supertooth.Base.{
  ℕ, zero, suc, ◌+◌, ◌-◌, ◌/◌, bit_or, Bool, true, false, ◌&&◌, ◌||◌, not, List, [], ◌∷◌, ◌++◌,
  Bytes, at, length, take, drop, replicate, map, ltb, leb, ◌==◌, if◌then◌else◌, u16, u32, ◌<<<◌,
}

pub record AdvInfo : Type 0 where
  pub service_uuids : List ℕ
  pub has_complete_list : ℕ
  pub has_incomplete_list : ℕ
  pub service_uuids32 : List ℕ
  pub uuid128 : List Bytes
  pub uuid128_total : ℕ
  pub has_service_data : ℕ
  pub has_solicitation : ℕ
  pub flags : ℕ
  pub has_flags : ℕ
  pub tx_power : ℕ
  pub has_tx_power : ℕ
  pub appearance : ℕ
  pub has_appearance : ℕ
  pub cod : ℕ
  pub has_cod : ℕ
  pub conn_interval_min : ℕ
  pub conn_interval_max : ℕ
  pub has_conn_interval : ℕ
  pub adv_interval : ℕ
  pub has_adv_interval : ℕ
  pub uri : Bytes
  pub le_role : ℕ
  pub has_le_role : ℕ

-- What `memset` leaves.
abbrev pub no_info : AdvInfo
no_info = record {
  service_uuids = [];
  has_complete_list = 0;
  has_incomplete_list = 0;
  service_uuids32 = [];
  uuid128 = [];
  uuid128_total = 0;
  has_service_data = 0;
  has_solicitation = 0;
  flags = 0;
  has_flags = 0;
  tx_power = 0;
  has_tx_power = 0;
  appearance = 0;
  has_appearance = 0;
  cod = 0;
  has_cod = 0;
  conn_interval_min = 0;
  conn_interval_max = 0;
  has_conn_interval = 0;
  adv_interval = 0;
  has_adv_interval = 0;
  uri = replicate 64 0;
  le_role = 0;
  has_le_role = 0;
}

-- Little-endian numbers of two and of four bytes.
abbrev pub le16 : Bytes → ℕ → ℕ
le16 ad k = bit_or (at ad k) (at ad (k + 1) <<< 8)

abbrev pub le32 : Bytes → ℕ → ℕ
le32 ad k =
    bit_or (bit_or (bit_or (at ad k) (at ad (k + 1) <<< 8)) (at ad (k + 2) <<< 16))
      (at ad (k + 3) <<< 24)

-- The bytes of the Bluetooth base address but those of the alias, with their places.
abbrev pub is_base : Bytes → Bool
is_base u =
    at u 0 == 0xfb
    && at u 1 == 0x34
    && at u 2 == 0x9b
    && at u 3 == 0x5f
    && at u 4 == 0x80
    && at u 5 == 0
    && at u 6 == 0
    && at u 7 == 0x80
    && at u 8 == 0
    && at u 9 == 0x10
    && at u 10 == 0
    && at u 11 == 0
    && at u 14 == 0
    && at u 15 == 0

-- The loops that look for an equal entry, and an entry that is added if there is room.
unfoldable pub has_uuid : ℕ → List ℕ → Bool
has_uuid uuid [] = false
has_uuid uuid (x ∷ xs) = x == uuid || has_uuid uuid xs

unfoldable pub add_to : ℕ → ℕ → List ℕ → List ℕ
add_to room uuid xs =
    if has_uuid uuid xs then xs else if ltb (length xs) room then xs ++ uuid ∷ [] else xs

unfoldable pub info_add_uuid16 : AdvInfo → ℕ → AdvInfo
unfolding add_to
info_add_uuid16 out uuid = record out { service_uuids = add_to 16 uuid out.service_uuids }

unfoldable pub info_add_uuid32 : AdvInfo → ℕ → AdvInfo
unfolding add_to
info_add_uuid32 out uuid = record out { service_uuids32 = add_to 16 uuid out.service_uuids32 }

-- `memcmp(a, b, left) == 0` from the place `i` on.
unfoldable pub same_bytes : ℕ → ℕ → Bytes → Bytes → Bool
same_bytes zero i a b = true
same_bytes (suc left) i a b = at a i == at b i && same_bytes left (i + 1) a b

unfoldable pub has_uuid128 : Bytes → List Bytes → Bool
unfolding same_bytes
has_uuid128 u [] = false
has_uuid128 u (x ∷ xs) = same_bytes 16 0 x u || has_uuid128 u xs

unfoldable pub add_to128 : Bytes → List Bytes → List Bytes
add_to128 u xs =
    if has_uuid128 u xs then xs else if ltb (length xs) 4 then xs ++ take 16 u ∷ [] else xs

unfoldable pub info_add_uuid128 : AdvInfo → Bytes → AdvInfo
unfolding info_add_uuid16 add_to128
info_add_uuid128 out u = if is_base u then info_add_uuid16 out (le16 u 12) else record out {
  uuid128_total = u32 (out.uuid128_total + 1);
  uuid128 = add_to128 u out.uuid128;
}

-- The loops over the entries of a list, at `k`, with `left` entries to go.
unfoldable pub add_all16 : ℕ → ℕ → Bytes → AdvInfo → AdvInfo
add_all16 zero k ad out = out
add_all16 (suc left) k ad out = add_all16 left (k + 2) ad (info_add_uuid16 out (le16 ad k))

unfoldable pub add_all32 : ℕ → ℕ → Bytes → AdvInfo → AdvInfo
add_all32 zero k ad out = out
add_all32 (suc left) k ad out = add_all32 left (k + 4) ad (info_add_uuid32 out (le32 ad k))

unfoldable pub add_all128 : ℕ → ℕ → Bytes → AdvInfo → AdvInfo
add_all128 zero k ad out = out
add_all128 (suc left) k ad out = add_all128 left (k + 16) ad (info_add_uuid128 out (drop k ad))

-- `strncpy(dst, src, n)`: up to the first zero, then zeros.
unfoldable pub strncpy : ℕ → Bytes → Bytes
strncpy zero src = []
strncpy (suc n) [] = 0 ∷ strncpy n []
strncpy (suc n) (c ∷ cs) = if c == 0 then replicate (suc n) 0 else (c ∷ strncpy n cs)

-- The loops over the entries of another summary.
unfoldable pub merge16 : List ℕ → AdvInfo → AdvInfo
merge16 [] dst = dst
merge16 (u ∷ us) dst = merge16 us (info_add_uuid16 dst u)

unfoldable pub merge32 : List ℕ → AdvInfo → AdvInfo
merge32 [] dst = dst
merge32 (u ∷ us) dst = merge32 us (info_add_uuid32 dst u)

unfoldable pub merge128 : List Bytes → AdvInfo → AdvInfo
merge128 [] dst = dst
merge128 (u ∷ us) dst = merge128 us (info_add_uuid128 dst u)

-- A value that is taken over if it is known there and not here.
abbrev pub taken : ℕ → ℕ → Bool
taken src_has dst_has = not (src_has == 0) && dst_has == 0

-- The part of the merge that follows the loops.
unfoldable pub merge_values : AdvInfo → AdvInfo → AdvInfo
merge_values dst src = record dst {
  uuid128_total =
      if ltb dst.uuid128_total src.uuid128_total then src.uuid128_total else dst.uuid128_total;
  has_complete_list = bit_or dst.has_complete_list src.has_complete_list;
  has_incomplete_list = bit_or dst.has_incomplete_list src.has_incomplete_list;
  has_service_data = bit_or dst.has_service_data src.has_service_data;
  has_solicitation = bit_or dst.has_solicitation src.has_solicitation;
  flags = if taken src.has_flags dst.has_flags then src.flags else dst.flags;
  has_flags = if taken src.has_flags dst.has_flags then 1 else dst.has_flags;
  tx_power = if taken src.has_tx_power dst.has_tx_power then src.tx_power else dst.tx_power;
  has_tx_power = if taken src.has_tx_power dst.has_tx_power then 1 else dst.has_tx_power;
  appearance =
      if taken src.has_appearance dst.has_appearance then src.appearance else dst.appearance;
  has_appearance = if taken src.has_appearance dst.has_appearance then 1 else dst.has_appearance;
  cod = if taken src.has_cod dst.has_cod then src.cod else dst.cod;
  has_cod = if taken src.has_cod dst.has_cod then 1 else dst.has_cod;
  conn_interval_min =
      if taken src.has_conn_interval dst.has_conn_interval
      then src.conn_interval_min
      else dst.conn_interval_min;
  conn_interval_max =
      if taken src.has_conn_interval dst.has_conn_interval
      then src.conn_interval_max
      else dst.conn_interval_max;
  has_conn_interval =
      if taken src.has_conn_interval dst.has_conn_interval then 1 else dst.has_conn_interval;
  adv_interval =
      if taken src.has_adv_interval dst.has_adv_interval
      then src.adv_interval
      else dst.adv_interval;
  has_adv_interval =
      if taken src.has_adv_interval dst.has_adv_interval then 1 else dst.has_adv_interval;
  le_role = if taken src.has_le_role dst.has_le_role then src.le_role else dst.le_role;
  has_le_role = if taken src.has_le_role dst.has_le_role then 1 else dst.has_le_role;
  uri =
      if at dst.uri 0 == 0 && not (at src.uri 0 == 0)
      then strncpy 63 src.uri ++ 0 ∷ []
      else dst.uri;
}

unfoldable pub adv_info_merge : AdvInfo → AdvInfo → AdvInfo
unfolding merge16 merge32 merge128 merge_values
adv_info_merge dst src =
    merge_values
      (merge128 src.uuid128 (merge32 src.service_uuids32 (merge16 src.service_uuids dst))) src

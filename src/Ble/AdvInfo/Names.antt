-- ===== src/Ble/AdvInfo/Names.antt =====
-- What an advertising PDU says about its sender: ble_addr_bytes_to_u64, ble_adv_addr_bytes,
-- ble_adv_data_bytes and ble_adv_parse_name_manuf of src/core/protocol/ble/ble_codec.c. A text is
-- the bytes before its end; the table of company names, a generated file, is an argument.
use supertooth.Base.{
  ℕ, zero, suc, ◌+◌, ◌-◌, ◌*◌, bit_or, ◌&&◌, ◌||◌, not, Option, none, some, [], ◌∷◌, Bytes, at,
  take, drop, ltb, leb, ◌==◌, if◌then◌else◌, u8, u32, u64, ◌<<<◌,
}
use supertooth.Ble.AdvInfo.{le16}
use supertooth.Ble.Frame.Payload.{
  AdvPayload, adv_ind, adv_nonconn_ind, adv_scan_ind, scan_rsp, adv_direct_ind, scan_req,
  connect_ind, unknown,
}

-- The loop at byte `i`, with `left` bytes to go.
unfoldable pub addr_loop : ℕ → ℕ → Bytes → ℕ → ℕ
addr_loop zero i a v = v
addr_loop (suc left) i a v = addr_loop left (i + 1) a (bit_or v (u64 (at a i <<< (8 * i))))

unfoldable pub addr_bytes_to_u64 : Bytes → ℕ
unfolding addr_loop
addr_bytes_to_u64 a = addr_loop 6 0 a 0

-- `none` is the null pointer.
unfoldable pub adv_addr_bytes : AdvPayload → Option Bytes
adv_addr_bytes (adv_ind p) = some p.adv_addr.addr
adv_addr_bytes (adv_nonconn_ind p) = some p.adv_addr.addr
adv_addr_bytes (adv_scan_ind p) = some p.adv_addr.addr
adv_addr_bytes (scan_rsp p) = some p.adv_addr.addr
adv_addr_bytes (adv_direct_ind p) = some p.adv_addr.addr
adv_addr_bytes (scan_req p) = some p.adv_addr.addr
adv_addr_bytes (connect_ind p) = some p.adv_addr.addr
adv_addr_bytes (unknown p) = none

-- The data with its length; the null pointer has the length 0.
unfoldable pub adv_data_bytes : AdvPayload → Option Bytes × ℕ
adv_data_bytes (adv_ind p) = (some p.adv_data, p.adv_data_len)
adv_data_bytes (adv_nonconn_ind p) = (some p.adv_data, p.adv_data_len)
adv_data_bytes (adv_scan_ind p) = (some p.adv_data, p.adv_data_len)
adv_data_bytes (scan_rsp p) = (some p.adv_data, p.adv_data_len)
adv_data_bytes (adv_direct_ind p) = (none, 0)
adv_data_bytes (scan_req p) = (none, 0)
adv_data_bytes (connect_ind p) = (none, 0)
adv_data_bytes (unknown p) = (none, 0)

-- The text that an array of characters holds.
unfoldable pub text_of : Bytes → Bytes
text_of [] = []
text_of (c ∷ cs) = if c == 0 then [] else (c ∷ text_of cs)

-- The two texts that are looked for.
pub record Names : Type 0 where
  pub name : Bytes
  pub manuf : Bytes

-- A company that is known replaces what was found before.
unfoldable pub store_manuf : ℕ → Option Bytes → Names → Names
store_manuf manuf_cap none out = out
store_manuf manuf_cap (some mn) out = record out { manuf = take (manuf_cap - 1) mn }

-- One structure, of the type `kind`.
unfoldable pub store_names : (ℕ → Option Bytes) → ℕ → ℕ → ℕ → Bytes → ℕ → Names → Names
unfolding text_of store_manuf
store_names company_name name_cap manuf_cap kind ad ad_dlen out =
    let n = if ltb ad_dlen (name_cap - 1) then ad_dlen else name_cap - 1 in
    if kind == 0x08 || kind == 0x09
    then record out { name = text_of (take n ad) }
    else if kind == 0xff && leb 2 ad_dlen
    then store_manuf manuf_cap (company_name (le16 ad 0)) out
    else out

-- The loop at the `unsigned int` `i`. Each round moves on by two bytes at least, so `len` rounds are
-- enough while `len` is at most 2^32 - 256.
unfoldable pub names_loop : (ℕ → Option Bytes) → ℕ → ℕ → ℕ → ℕ → Bytes → ℕ → Names → Names
unfolding store_names
names_loop company_name name_cap manuf_cap zero i bytes len out = out
names_loop company_name name_cap manuf_cap (suc fuel) i bytes len out =
    let ad_len = at bytes i in
    let next = u32 (i + 1 + ad_len) in
    let out' =
      store_names company_name name_cap manuf_cap (at bytes (u32 (i + 1))) (drop (i + 2) bytes)
        (u8 (ad_len - 1)) out in
    let rest = names_loop company_name name_cap manuf_cap fuel next bytes len out' in
    if ltb (u32 (i + 1)) len && not (ad_len == 0) && leb next len then rest else out

unfoldable pub adv_parse_name_manuf : (ℕ → Option Bytes) → ℕ → ℕ → Option Bytes → ℕ → Names
unfolding names_loop
adv_parse_name_manuf company_name name_cap manuf_cap none len = record { name = []; manuf = [] }
adv_parse_name_manuf company_name name_cap manuf_cap (some bytes) len =
    names_loop company_name name_cap manuf_cap len 0 bytes len (record { name = []; manuf = [] })

-- ===== src/Ble/CrcInit.antt =====
-- The recovery of CRCInit in src/core/protocol/ble/ble_codec.c: `ble_parity32`,
-- `ble_crc_tables_init` and `ble_crc_reverse_init_len2`. The two static variables are the record
-- `Tables`, passed in and out. The columns, rows and shifts are below 24, so that a bit `1u << k`
-- needs no wrap.
pub mod Parity
pub mod Recover
use supertooth.Base.{
  ℕ, zero, suc, ◌+◌, bit_and, bit_or, bit_xor, Bool, true, false, ◌||◌, ◌&&◌, not, Option, none,
  some, [], ◌∷◌, Bytes, at, set, ltb, leb, ◌==◌, if◌then◌else◌, replicate, u8, ◌<<<◌, ◌>>>◌,
}
use supertooth.Ble.Crc.{crc_calc}

pub parity32 : ℕ → ℕ
parity32 v =
    let v1 = bit_xor v (v >>> 16) in
    let v2 = bit_xor v1 (v1 >>> 8) in
    let v3 = bit_xor v2 (v2 >>> 4) in let v4 = bit_and v3 0xf in u8 (bit_and (0x6996 >>> v4) 1)

-- `s_t16_inv_rows` and `s_t16_ready`.
pub record Tables : Type 0 where
  pub rows : Bytes
  pub ready : Bool

abbrev pub fresh : Tables
fresh = record { rows = replicate 24 0; ready = false }

-- The two matrices of the elimination.
pub record Matrices : Type 0 where
  pub left : Bytes
  pub right : Bytes

abbrev bit_set : ℕ → ℕ → Bool
bit_set x i = not (bit_and (x >>> i) 1 == 0)

-- `right[r] = 1u << r`, from row `r` on.
identity_rows : ℕ → ℕ → Bytes
identity_rows zero r = []
identity_rows (suc n) r = (1 <<< r) ∷ identity_rows n (r + 1)

-- Column `k` of T, from row `r` on.
fill_column : ℕ → ℕ → ℕ → ℕ → Bytes → Bytes
fill_column zero r k col left = left
fill_column (suc n) r k col left =
    fill_column n (r + 1) k col
      (if bit_set col r then set left r (bit_or (at left r) (1 <<< k)) else left)

fill_columns : ℕ → ℕ → Bytes → Bytes
fill_columns zero k left = left
fill_columns (suc n) k left =
    fill_columns n (k + 1) (fill_column 24 0 k (crc_calc (0 ∷ 0 ∷ []) 2 (1 <<< k)) left)

-- `while (pivot < 24u && !((left[pivot] >> col) & 1u)) pivot++;` with `n` rows to go.
find_pivot : ℕ → ℕ → ℕ → Bytes → ℕ
find_pivot zero pivot col left = pivot
find_pivot (suc n) pivot col left =
    let rest = find_pivot n (pivot + 1) col left in
    if ltb pivot 24 && not (bit_set (at left pivot) col) then rest else pivot

swap_rows : ℕ → ℕ → Bytes → Bytes
swap_rows i j m = let tmp = at m i in set (set m i (at m j)) j tmp

-- Row `col` is added to the other rows that have a one in that column.
eliminate : ℕ → ℕ → ℕ → Matrices → Matrices
eliminate zero r col m = m
eliminate (suc n) r col m = eliminate n (r + 1) col (
    if not (r == col) && bit_set (at m.left r) col
    then record {
      left = set m.left r (bit_xor (at m.left r) (at m.left col));
      right = set m.right r (bit_xor (at m.right r) (at m.right col));
    }
    else m)

-- One round of the elimination after the pivot is found.
reduce_column : ℕ → ℕ → Matrices → Matrices
reduce_column col pivot m = eliminate 24 0 col (
    if pivot == col
    then m
    else record { left = swap_rows col pivot m.left; right = swap_rows col pivot m.right })

-- `none` is the early return on a singular matrix.
gauss_jordan : ℕ → ℕ → Matrices → Option Matrices
gauss_jordan zero col m = some m
gauss_jordan (suc n) col m =
    let pivot = find_pivot 24 col col m.left in
    let rest = gauss_jordan n (col + 1) (reduce_column col pivot m) in
    if leb 24 pivot then none else rest

pub tables_init : Tables → Tables
unfolding identity_rows fill_columns fill_column gauss_jordan reduce_column eliminate swap_rows
    find_pivot crc_calc
tables_init t =
    if t.ready
    then t
    else elim (gauss_jordan 24 0
        (record { left = fill_columns 24 0 (replicate 24 0); right = identity_rows 24 0 })) [
          | none ↦ t
          | some m ↦ record { rows = m.right; ready = true }
        ]

-- The last loop, at row `r`.
pub init_bits : ℕ → ℕ → Bytes → ℕ → ℕ → ℕ
init_bits zero r rows y init = init
init_bits (suc n) r rows y init =
    init_bits n (r + 1) rows y
      (if parity32 (bit_and (at rows r) y) == 0 then init else bit_or init (1 <<< r))

pub reverse_init_len2 : Tables → Bytes → ℕ → ℕ × Tables
reverse_init_len2 t header rx_crc =
    let t' = if t.ready then t else tables_init t in
    let y = bit_and (bit_xor rx_crc (crc_calc header 2 0)) 0xffffff in
    if t'.ready then (bit_and (init_bits 24 0 t'.rows y 0) 0xffffff, t') else (0, t')

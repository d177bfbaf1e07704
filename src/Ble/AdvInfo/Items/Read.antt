-- ===== src/Ble/AdvInfo/Items/Read.antt =====
-- `ble_adv_parse_info` of src/core/protocol/ble/ble_codec.c notes of every item what it says.
use supertooth.Base.{List}
use supertooth.Ble.AdvInfo.{AdvInfo}

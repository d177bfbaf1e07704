-- ===== src/Ble/AdvInfo/Items.antt =====
-- What advertising data can say after the Bluetooth specification, how it is sent, and what a summary
-- of src/core/protocol/ble/ble_codec.h is to hold of it.
pub mod Read
use supertooth.Base.{
  ℕ, ◌+◌, ◌*◌, ◌/◌, ◌%◌, ◌^◌, ◌<◌, ◌≤◌, ◌≡◌, min, Bool, true, false, ◌||◌, List, [], ◌∷◌, ◌++◌,
  Bytes, length, take, drop, map, ◌==◌, if◌then◌else◌,
}
use supertooth.Ble.AdvInfo.{AdvInfo, info_add_uuid16, info_add_uuid32, info_add_uuid128}
use supertooth.Ble.AdvInfo.Parse.{printable}
use supertooth.Ble.AdvInfo.Structures.{Structure}

-- Lists of service addresses, complete or not; services that are asked for; data of a service; single
-- values; and whatever else. More bytes may stand behind a value.
pub data Item : Type 0 where
  services16 services32 : (complete : Bool) (uuids : List ℕ) → Item
  services128 : (complete : Bool) (uuids : List Bytes) → Item
  solicits16 solicits32 : (uuids : List ℕ) → Item
  solicits128 : (uuids : List Bytes) → Item
  data_of16 data_of32 : (uuid : ℕ) (more : Bytes) → Item
  data_of128 : (uuid more : Bytes) → Item
  some_flags power role : (byte : ℕ) (more : Bytes) → Item
  looks interval : (value : ℕ) (more : Bytes) → Item
  class : (value : ℕ) (more : Bytes) → Item
  intervals : (lowest highest : ℕ) (more : Bytes) → Item
  uri_text : (text : Bytes) → Item
  other : (kind : ℕ) (body : Bytes) → Item

-- Numbers are sent with the lowest byte first.
abbrev pub two_bytes : ℕ → Bytes → Bytes
two_bytes u more = (u % 256) ∷ (u / 256) ∷ more

abbrev pub four_bytes : ℕ → Bytes → Bytes
four_bytes u more = (u % 256) ∷ (u / 256 % 256) ∷ (u / 2 ^ 16 % 256) ∷ (u / 2 ^ 24) ∷ more

abbrev pub all_two : List ℕ → Bytes
all_two [] = []
all_two (u ∷ us) = two_bytes u (all_two us)

abbrev pub all_four : List ℕ → Bytes
all_four [] = []
all_four (u ∷ us) = four_bytes u (all_four us)

abbrev pub all_sixteen : List Bytes → Bytes
all_sixteen [] = []
all_sixteen (u ∷ us) = u ++ all_sixteen us

abbrev pub structure : ℕ → Bytes → Structure
structure kind body = record { kind = kind; body = body }

-- The types of the specification's assigned numbers.
abbrev pub structure_of : Item → Structure
structure_of (services16 complete us) = structure (if complete then 0x03 else 0x02) (all_two us)
structure_of (services32 complete us) = structure (if complete then 0x05 else 0x04) (all_four us)
structure_of (services128 complete us) =
    structure (if complete then 0x07 else 0x06) (all_sixteen us)
structure_of (solicits16 us) = structure 0x14 (all_two us)
structure_of (solicits32 us) = structure 0x1f (all_four us)
structure_of (solicits128 us) = structure 0x15 (all_sixteen us)
structure_of (data_of16 u more) = structure 0x16 (two_bytes u more)
structure_of (data_of32 u more) = structure 0x20 (four_bytes u more)
structure_of (data_of128 u more) = structure 0x21 (u ++ more)
structure_of (some_flags b more) = structure 0x01 (b ∷ more)
structure_of (power b more) = structure 0x0a (b ∷ more)
structure_of (role b more) = structure 0x1c (b ∷ more)
structure_of (looks v more) = structure 0x19 (two_bytes v more)
structure_of (interval v more) = structure 0x1a (two_bytes v more)
structure_of (class v more) = structure 0x0d ((v % 256) ∷ (v / 256 % 256) ∷ (v / 2 ^ 16) ∷ more)
structure_of (intervals low high more) = structure 0x12 (two_bytes low (two_bytes high more))
structure_of (uri_text text) = structure 0x24 text
structure_of (other kind body) = structure kind body

abbrev pub structures_of : List Item → List Structure
structures_of [] = []
structures_of (x ∷ xs) = structure_of x ∷ structures_of xs

-- The types that have a meaning above.
abbrev pub is_known : ℕ → Bool
is_known k =
    k == 0x01
    || (k == 0x02
        || (k == 0x03
            || (k == 0x04
                || (k == 0x05
                    || (k == 0x06
                        || (k == 0x07
                            || (k == 0x0a
                                || (k == 0x0d
                                    || (k == 0x12
                                        || (k == 0x14
                                            || (k == 0x15
                                                || (k == 0x16
                                                    || (k == 0x19
                                                        || (k == 0x1a
                                                            || (k == 0x1c
                                                            || (k == 0x1f
                                                            || (k == 0x20
                                                            || (k == 0x21
                                                            || k == 0x24))))))))))))))))))

abbrev pub AllBelow : ℕ → List ℕ → Type 0
AllBelow bound [] = Unit {0}
AllBelow bound (u ∷ us) = (u < bound) × AllBelow bound us

abbrev pub AllSixteen : List Bytes → Type 0
AllSixteen [] = Unit {0}
AllSixteen (u ∷ us) = (length u ≡ 16) × AllSixteen us

-- Numbers are of the size in which they are sent.
abbrev pub ItemFits : Item → Type 0
ItemFits (services16 complete us) = AllBelow (2 ^ 16) us
ItemFits (services32 complete us) = AllBelow (2 ^ 32) us
ItemFits (services128 complete us) = AllSixteen us
ItemFits (solicits16 us) = AllBelow (2 ^ 16) us
ItemFits (solicits32 us) = AllBelow (2 ^ 32) us
ItemFits (solicits128 us) = AllSixteen us
ItemFits (data_of16 u more) = u < 2 ^ 16
ItemFits (data_of32 u more) = u < 2 ^ 32
ItemFits (data_of128 u more) = length u ≡ 16
ItemFits (some_flags b more) = b < 256
ItemFits (power b more) = b < 256
ItemFits (role b more) = b < 256
ItemFits (looks v more) = v < 2 ^ 16
ItemFits (interval v more) = v < 2 ^ 16
ItemFits (class v more) = v < 2 ^ 24
ItemFits (intervals low high more) = (low < 2 ^ 16) × (high < 2 ^ 16)
ItemFits (uri_text text) = 0 < length text
ItemFits (other kind body) = is_known kind ≡ false

abbrev pub AllItemsFit : List Item → Type 0
AllItemsFit [] = Unit {0}
AllItemsFit (x ∷ xs) = ItemFits x × AllItemsFit xs

abbrev pub noted16 : List ℕ → AdvInfo → AdvInfo
noted16 [] out = out
noted16 (u ∷ us) out = noted16 us (info_add_uuid16 out u)

abbrev pub noted32 : List ℕ → AdvInfo → AdvInfo
noted32 [] out = out
noted32 (u ∷ us) out = noted32 us (info_add_uuid32 out u)

abbrev pub noted128 : List Bytes → AdvInfo → AdvInfo
noted128 [] out = out
noted128 (u ∷ us) out = noted128 us (info_add_uuid128 out u)

abbrev listed : Bool → AdvInfo → AdvInfo
listed true out = record out { has_complete_list = 1 }
listed false out = record out { has_incomplete_list = 1 }

-- What an item adds to a summary. Of a text at most 63 characters are held, dots for those that
-- cannot be printed, and a zero behind them.
abbrev pub noted : Item → AdvInfo → AdvInfo
noted (services16 complete us) out = noted16 us (listed complete out)
noted (services32 complete us) out = noted32 us (listed complete out)
noted (services128 complete us) out = noted128 us (listed complete out)
noted (solicits16 us) out = noted16 us (record out { has_solicitation = 1 })
noted (solicits32 us) out = noted32 us (record out { has_solicitation = 1 })
noted (solicits128 us) out = noted128 us (record out { has_solicitation = 1 })
noted (data_of16 u more) out = info_add_uuid16 (record out { has_service_data = 1 }) u
noted (data_of32 u more) out = info_add_uuid32 (record out { has_service_data = 1 }) u
noted (data_of128 u more) out = info_add_uuid128 (record out { has_service_data = 1 }) u
noted (some_flags b more) out = record out { flags = b; has_flags = 1 }
noted (power b more) out = record out { tx_power = b; has_tx_power = 1 }
noted (role b more) out = record out { le_role = b; has_le_role = 1 }
noted (looks v more) out = record out { appearance = v; has_appearance = 1 }
noted (interval v more) out = record out { adv_interval = v; has_adv_interval = 1 }
noted (class v more) out = record out { cod = v; has_cod = 1 }
noted (intervals low high more) out = record out {
  conn_interval_min = low;
  conn_interval_max = high;
  has_conn_interval = 1;
}
noted (uri_text text) out =
    let n = min 63 (length text) in
    record out { uri = map printable (take n text) ++ 0 ∷ drop (n + 1) out.uri }
noted (other kind body) out = out

abbrev pub all_noted : List Item → AdvInfo → AdvInfo
all_noted [] out = out
all_noted (x ∷ xs) out = all_noted xs (noted x out)

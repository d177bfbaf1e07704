-- ===== src/Ble/Frame/Payload.antt =====
-- The payloads of advertising PDUs, and the functions of src/core/protocol/ble/ble_codec.c that
-- fill them.
pub mod Local
use supertooth.Base.{
  ℕ, zero, suc, ◌+◌, ◌-◌, ◌*◌, Bytes, take, drop, memcpy, replicate, ltb, if◌then◌else◌, u8, Option,
  none, some,
}

-- `ble_addr_kind_t`.
pub data AddrKind : Type 0 where
  public random : AddrKind

pub record Address : Type 0 where
  pub addr : Bytes
  pub kind : AddrKind

pub record AdvData : Type 0 where
  pub adv_addr : Address
  pub adv_data : Bytes
  pub adv_data_len : ℕ

pub record AdvDirectInd : Type 0 where
  pub adv_addr : Address
  pub target_addr : Address

pub record AdvScanReq : Type 0 where
  pub scanner_addr : Address
  pub adv_addr : Address

pub record AdvConnectInd : Type 0 where
  pub init_addr : Address
  pub adv_addr : Address
  pub ll_data : Bytes
  pub ll_data_len : ℕ

pub record AdvUnknown : Type 0 where
  pub payload : Bytes
  pub payload_len : ℕ

-- The union of `ble_adv_pdu_t`.
pub data AdvPayload : Type 0 where
  adv_ind adv_nonconn_ind scan_rsp adv_scan_ind : AdvData → AdvPayload
  adv_direct_ind : AdvDirectInd → AdvPayload
  scan_req : AdvScanReq → AdvPayload
  connect_ind : AdvConnectInd → AdvPayload
  unknown : AdvUnknown → AdvPayload

abbrev pub addr_len : ℕ
addr_len = 6

-- `sizeof(out->adv_data)`, `sizeof(out->ll_data)` and `sizeof(out->payload)`.
abbrev pub adv_data_max_bytes : ℕ
adv_data_max_bytes = 250

abbrev pub connect_ind_data_max_bytes : ℕ
connect_ind_data_max_bytes = 22

abbrev pub reserved_payload_max_bytes : ℕ
reserved_payload_max_bytes = 256

-- The structures as `memset` leaves them.
abbrev pub no_address : Address
no_address = record { addr = replicate addr_len 0; kind = public }

abbrev pub no_adv_data : AdvData
no_adv_data = record {
  adv_addr = no_address;
  adv_data = replicate adv_data_max_bytes 0;
  adv_data_len = 0;
}

abbrev pub no_connect_ind : AdvConnectInd
no_connect_ind = record {
  init_addr = no_address;
  adv_addr = no_address;
  ll_data = replicate connect_ind_data_max_bytes 0;
  ll_data_len = 0;
}

unfoldable pub copy_address : Address → Bytes → AddrKind → Address
copy_address out src kind = record { addr = memcpy out.addr src addr_len; kind = kind }

unfoldable pub decode_adv_data : AdvData → Bytes → ℕ → AddrKind → AdvData
unfolding copy_address
decode_adv_data out payload payload_len addr_kind =
    let rest = payload_len - addr_len in
    let adv_data_len = if ltb adv_data_max_bytes rest then adv_data_max_bytes else rest in
    if ltb payload_len addr_len then out else record {
      adv_addr = copy_address out.adv_addr payload addr_kind;
      adv_data = memcpy out.adv_data (drop addr_len payload) adv_data_len;
      adv_data_len = u8 adv_data_len;
    }

unfoldable pub decode_adv_direct_ind : AdvDirectInd → Bytes → ℕ → AddrKind → AddrKind → AdvDirectInd
unfolding copy_address
decode_adv_direct_ind out payload payload_len tx_kind rx_kind =
    if ltb payload_len (2 * addr_len) then out else record {
      adv_addr = copy_address out.adv_addr payload tx_kind;
      target_addr = copy_address out.target_addr (drop addr_len payload) rx_kind;
    }

unfoldable pub decode_adv_scan_req : AdvScanReq → Bytes → ℕ → AddrKind → AddrKind → AdvScanReq
unfolding copy_address
decode_adv_scan_req out payload payload_len tx_kind rx_kind =
    if ltb payload_len (2 * addr_len) then out else record {
      scanner_addr = copy_address out.scanner_addr payload tx_kind;
      adv_addr = copy_address out.adv_addr (drop addr_len payload) rx_kind;
    }

unfoldable pub decode_adv_connect_ind :
    AdvConnectInd → Bytes → ℕ → AddrKind → AddrKind → AdvConnectInd
unfolding copy_address
decode_adv_connect_ind out payload payload_len tx_kind rx_kind =
    let rest = payload_len - 2 * addr_len in
    let ll_data_len =
      if ltb connect_ind_data_max_bytes rest then connect_ind_data_max_bytes else rest in
    if ltb payload_len (2 * addr_len) then out else record {
      init_addr = copy_address out.init_addr payload tx_kind;
      adv_addr = copy_address out.adv_addr (drop addr_len payload) rx_kind;
      ll_data = memcpy out.ll_data (drop (2 * addr_len) payload) ll_data_len;
      ll_data_len = u8 ll_data_len;
    }

unfoldable pub decode_adv_unknown : AdvUnknown → Bytes → ℕ → AdvUnknown
decode_adv_unknown out payload payload_len =
    let len =
      if ltb reserved_payload_max_bytes payload_len
      then reserved_payload_max_bytes
      else payload_len in
    record { payload = memcpy out.payload payload len; payload_len = u8 len }

-- The switch of `ble_decode_frame` on the PDU type.
unfoldable pub decode_adv_payload : ℕ → Bytes → ℕ → AddrKind → AddrKind → AdvPayload
decode_adv_payload zero payload len tx rx = adv_ind (decode_adv_data no_adv_data payload len tx)
decode_adv_payload (suc zero) payload len tx rx = adv_direct_ind (
    decode_adv_direct_ind (record { adv_addr = no_address; target_addr = no_address }) payload len
      tx rx)
decode_adv_payload (suc (suc zero)) payload len tx rx =
    adv_nonconn_ind (decode_adv_data no_adv_data payload len tx)
decode_adv_payload (suc (suc (suc zero))) payload len tx rx = scan_req (
    decode_adv_scan_req (record { scanner_addr = no_address; adv_addr = no_address }) payload len tx
      rx)
decode_adv_payload (suc (suc (suc (suc zero)))) payload len tx rx =
    scan_rsp (decode_adv_data no_adv_data payload len tx)
decode_adv_payload (suc (suc (suc (suc (suc zero))))) payload len tx rx =
    connect_ind (decode_adv_connect_ind no_connect_ind payload len tx rx)
decode_adv_payload (suc (suc (suc (suc (suc (suc zero)))))) payload len tx rx =
    adv_scan_ind (decode_adv_data no_adv_data payload len tx)
decode_adv_payload other payload len tx rx = unknown (
    decode_adv_unknown
      (record { payload = replicate reserved_payload_max_bytes 0; payload_len = 0 }) payload len)

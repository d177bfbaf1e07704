-- ===== src/Ble/Frame/Payload/Local.antt =====
-- The payload functions read no more than the payload's length: bytes behind it, such as the
-- checksum, have no influence.
use supertooth.Base.{
  ℕ, zero, suc, ◌+◌, ◌-◌, ◌≤◌, ◌≡◌, ap, arith, Bytes, ◌++◌, length, drop, memcpy, ltb,
  take-drop-append, Bool-cases, inl, inr,
}
use supertooth.Ble.Frame.Payload.{
  AddrKind, Address, AdvData, AdvDirectInd, AdvScanReq, AdvConnectInd, AdvUnknown, copy_address,
  decode_adv_data, decode_adv_direct_ind, decode_adv_scan_req, decode_adv_connect_ind,
  decode_adv_unknown, decode_adv_payload, adv_ind, adv_nonconn_ind, scan_rsp, adv_scan_ind,
  adv_direct_ind, scan_req, connect_ind, unknown,
}

module _ (payload tail : Bytes) (len : ℕ) (enough : len ≤ length payload) where
  memcpy_local :
      (k n : ℕ) (dst : Bytes)
      → k + n ≤ len
      → memcpy dst (drop k (payload ++ tail)) n ≡ memcpy dst (drop k payload) n
  memcpy_local k n dst h =
      ap (λ t. t ++ drop n dst) (take-drop-append k n payload tail (omega arith))

  copy_address_local :
      (k : ℕ) (out : Address) (kind : AddrKind)
      → k + 6 ≤ len
      → copy_address out (drop k (payload ++ tail)) kind ≡ copy_address out (drop k payload) kind
  unfolding copy_address
  copy_address_local k out kind h =
      ap (λ t. record { addr = t; kind = kind }) (memcpy_local k 6 out.addr h)

  decode_adv_data_local :
      (out : AdvData) (kind : AddrKind)
      → decode_adv_data out (payload ++ tail) len kind ≡ decode_adv_data out payload len kind
  unfolding decode_adv_data
  decode_adv_data_local out kind = elim (Bool-cases (ltb len 6)) [
    | inl short ↦ rw short
    | inr long ↦ ground (
      arith,
      copy_address_local 0 out.adv_addr kind,
      memcpy_local 6 250 out.adv_data,
      memcpy_local 6 (len - 6) out.adv_data,
    )
  ]

  decode_adv_direct_ind_local :
      (out : AdvDirectInd) (tx rx : AddrKind)
      → decode_adv_direct_ind out (payload ++ tail) len tx rx
        ≡ decode_adv_direct_ind out payload len tx rx
  unfolding decode_adv_direct_ind
  decode_adv_direct_ind_local out tx rx =
      ground (arith, copy_address_local 0 out.adv_addr tx, copy_address_local 6 out.target_addr rx)

  decode_adv_scan_req_local :
      (out : AdvScanReq) (tx rx : AddrKind)
      → decode_adv_scan_req out (payload ++ tail) len tx rx
        ≡ decode_adv_scan_req out payload len tx rx
  unfolding decode_adv_scan_req
  decode_adv_scan_req_local out tx rx =
      ground (arith, copy_address_local 0 out.scanner_addr tx, copy_address_local 6 out.adv_addr rx)

  decode_adv_connect_ind_local :
      (out : AdvConnectInd) (tx rx : AddrKind)
      → decode_adv_connect_ind out (payload ++ tail) len tx rx
        ≡ decode_adv_connect_ind out payload len tx rx
  unfolding decode_adv_connect_ind
  decode_adv_connect_ind_local out tx rx = ground (
    arith,
    copy_address_local 0 out.init_addr tx,
    copy_address_local 6 out.adv_addr rx,
    memcpy_local 12 22 out.ll_data,
    memcpy_local 12 (len - 12) out.ll_data,
  )

  decode_adv_unknown_local :
      (out : AdvUnknown)
      → decode_adv_unknown out (payload ++ tail) len ≡ decode_adv_unknown out payload len
  unfolding decode_adv_unknown
  decode_adv_unknown_local out =
      ground (arith, memcpy_local 0 256 out.payload, memcpy_local 0 len out.payload)

  -- The whole switch.
  pub decode_adv_payload_local :
      (pdu_type : ℕ) (tx rx : AddrKind)
      → decode_adv_payload pdu_type (payload ++ tail) len tx rx
        ≡ decode_adv_payload pdu_type payload len tx rx
  unfolding decode_adv_payload
  decode_adv_payload_local zero tx rx = ap adv_ind (decode_adv_data_local _ tx)
  decode_adv_payload_local (suc zero) tx rx =
      ap adv_direct_ind (decode_adv_direct_ind_local _ tx rx)
  decode_adv_payload_local (suc (suc zero)) tx rx = ap adv_nonconn_ind (decode_adv_data_local _ tx)
  decode_adv_payload_local (suc (suc (suc zero))) tx rx =
      ap scan_req (decode_adv_scan_req_local _ tx rx)
  decode_adv_payload_local (suc (suc (suc (suc zero)))) tx rx =
      ap scan_rsp (decode_adv_data_local _ tx)
  decode_adv_payload_local (suc (suc (suc (suc (suc zero))))) tx rx =
      ap connect_ind (decode_adv_connect_ind_local _ tx rx)
  decode_adv_payload_local (suc (suc (suc (suc (suc (suc zero)))))) tx rx =
      ap adv_scan_ind (decode_adv_data_local _ tx)
  decode_adv_payload_local (suc (suc (suc (suc (suc (suc (suc n))))))) tx rx =
      ap unknown (decode_adv_unknown_local _)

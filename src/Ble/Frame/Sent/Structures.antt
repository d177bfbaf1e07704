-- ===== src/Ble/Frame/Sent/Structures.antt =====
-- Each structure of an advertising PDU, as src/core/protocol/ble/ble_codec.c fills it from the bytes
-- that were sent.
use supertooth.Base.{
  ℕ, zero, suc, ◌+◌, ◌-◌, ◌≤◌, ◌≡◌, refl, sym, ap, ap₂, ◌∙◌, arith, false, Bytes, [], ◌++◌, length,
  drop, replicate, memcpy, length-append, take-append, drop-append, ltb, u8,
}
use mathlib.Core.List.{append-nil, append_assoc}
use supertooth.Ble.Frame.Payload.{
  AddrKind, no_address, no_adv_data, no_connect_ind, copy_address, decode_adv_data,
  decode_adv_direct_ind, decode_adv_scan_req, decode_adv_connect_ind, decode_adv_unknown,
}
use supertooth.Ble.Frame.Sent.{DataFits, PairFits, padded, address_sent, data_sent}

-- Copies into arrays that are zero.
drop_zeros : (n size : ℕ) → drop {A = ℕ} n (replicate size 0) ≡ replicate (size - n) 0
drop_zeros zero size = let e : size ≡ size - 0 = omega arith in ap (λ k. replicate k 0) e
drop_zeros (suc n) zero = let e : 0 ≡ 0 - suc n = omega arith in ap (λ k. replicate k 0) e
drop_zeros (suc n) (suc size) =
    let e : size - n ≡ suc size - suc n = omega arith in
    drop_zeros n size ∙ ap (λ k. replicate k 0) e

memcpy-padded :
    (size : ℕ) (bytes tail : Bytes) (n : ℕ)
    → n ≡ length bytes
    → memcpy (replicate size 0) (bytes ++ tail) n ≡ padded size bytes
memcpy-padded size bytes tail n e =
    ap (λ k. memcpy (replicate size 0) (bytes ++ tail) k) e
    ∙ ap₂ ◌++◌ (take-append bytes tail) (drop_zeros (length bytes) size)

copy_address-sent :
    (address tail : Bytes) (kind : AddrKind)
    → length address ≡ 6
    → copy_address no_address (address ++ tail) kind ≡ address_sent address kind
unfolding copy_address
copy_address-sent address tail kind six =
    let none_left : 6 - length address ≡ 0 = omega (arith, six) in
    ap (λ a. record { addr = a; kind = kind })
      (memcpy-padded 6 address tail 6 (sym six)
        ∙ ap (λ k. address ++ replicate k 0) none_left
        ∙ append-nil address)

module _ (address info : Bytes) (fits : DataFits address info) (kind : AddrKind) where
  pub decode_adv_data-sent :
      decode_adv_data no_adv_data (address ++ info) (length (address ++ info)) kind
      ≡ data_sent address info kind
  unfolding decode_adv_data
  decode_adv_data-sent =
      let n = length (address ++ info) in
      let size : n ≡ length info + 6 = omega (arith, length-append address info, fits.0) in
      let left : n - 6 ≡ length info = omega (arith, size) in
      let rest : drop 6 (address ++ info) ≡ info ++ [] =
        ap (λ k. drop k (address ++ info)) (sym fits.0)
        ∙ drop-append address info
        ∙ sym (append-nil info) in
      let long : ltb n 6 ≡ false = ground (arith, size) in
      let room : ltb 250 (length info) ≡ false = ground (arith, fits.1) in
      let byte : u8 (length info) ≡ length info = omega (arith, fits.1) in
      rw
        (
          long,
          left,
          room,
          byte,
          rest,
          copy_address-sent address info kind fits.0,
          memcpy-padded 250 info [] (length info) refl,
        )
        refl

-- The second of two addresses, with what stands behind it.
after_six : (one two : Bytes) → length one ≡ 6 → drop 6 (one ++ two) ≡ two
after_six one two six = ap (λ k. drop k (one ++ two)) (sym six) ∙ drop-append one two

copy_address-last :
    (address : Bytes) (kind : AddrKind)
    → length address ≡ 6
    → copy_address no_address address kind ≡ address_sent address kind
copy_address-last address kind six =
    ap (λ t. copy_address no_address t kind) (sym (append-nil address))
    ∙ copy_address-sent address [] kind six

module _ (one two : Bytes) (fits : PairFits one two) (tx rx : AddrKind) where
  pub pair_size : length (one ++ two) ≡ 12
  pair_size = omega (arith, length-append one two, fits.0, fits.1)

  pub decode_adv_direct_ind-sent :
      decode_adv_direct_ind
        (record { adv_addr = no_address; target_addr = no_address })
        (one ++ two)
        (length (one ++ two))
        tx
        rx
      ≡ record { adv_addr = address_sent one tx; target_addr = address_sent two rx }
  unfolding decode_adv_direct_ind
  decode_adv_direct_ind-sent =
      let long : ltb (length (one ++ two)) 12 ≡ false = ground (arith, pair_size) in
      rw
        (
          long,
          copy_address-sent one two tx fits.0,
          after_six one two fits.0,
          copy_address-last two rx fits.1,
        )
        refl

  pub decode_adv_scan_req-sent :
      decode_adv_scan_req
        (record { scanner_addr = no_address; adv_addr = no_address })
        (one ++ two)
        (length (one ++ two))
        tx
        rx
      ≡ record { scanner_addr = address_sent one tx; adv_addr = address_sent two rx }
  unfolding decode_adv_scan_req
  decode_adv_scan_req-sent =
      let long : ltb (length (one ++ two)) 12 ≡ false = ground (arith, pair_size) in
      rw
        (
          long,
          copy_address-sent one two tx fits.0,
          after_six one two fits.0,
          copy_address-last two rx fits.1,
        )
        refl

  pub decode_adv_connect_ind-sent :
      (params : Bytes)
      → length params ≤ 22
      → let content = one ++ (two ++ params) in
        decode_adv_connect_ind no_connect_ind content (length content) tx rx ≡ record {
          init_addr = address_sent one tx;
          adv_addr = address_sent two rx;
          ll_data = padded 22 params;
          ll_data_len = length params;
        }
  unfolding decode_adv_connect_ind
  decode_adv_connect_ind-sent params short =
      let content = one ++ (two ++ params) in
      let size : length content ≡ length params + 12 =
        omega
          (arith, length-append one (two ++ params), length-append two params, fits.0, fits.1) in
      let long : ltb (length content) 12 ≡ false = ground (arith, size) in
      let left : length content - 12 ≡ length params = omega (arith, size) in
      let room : ltb 22 (length params) ≡ false = ground (arith, short) in
      let byte : u8 (length params) ≡ length params = omega (arith, short) in
      let behind : drop 12 content ≡ params ++ [] =
        ap (λ t. drop 12 t) (sym (append_assoc one two params))
        ∙ ap (λ k. drop k ((one ++ two) ++ params)) (sym pair_size)
        ∙ drop-append (one ++ two) params
        ∙ sym (append-nil params) in
      rw
        (
          long,
          left,
          room,
          byte,
          behind,
          copy_address-sent one (two ++ params) tx fits.0,
          after_six one (two ++ params) fits.0,
          copy_address-sent two params rx fits.1,
          memcpy-padded 22 params [] (length params) refl,
        )
        refl

pub decode_adv_unknown-sent :
    (content : Bytes)
    → length content ≤ 255
    → decode_adv_unknown
        (record { payload = replicate 256 0; payload_len = 0 })
        content
        (length content)
      ≡ record { payload = padded 256 content; payload_len = length content }
unfolding decode_adv_unknown
decode_adv_unknown-sent content short =
    let room : ltb 256 (length content) ≡ false = ground (arith, short) in
    let byte : u8 (length content) ≡ length content = omega (arith, short) in
    let copied : memcpy (replicate 256 0) content (length content) ≡ padded 256 content =
      ap (λ t. memcpy (replicate 256 0) t (length content)) (sym (append-nil content))
      ∙ memcpy-padded 256 content [] (length content) refl in
    rw (room, byte, copied) refl

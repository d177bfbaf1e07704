-- ===== src/Bredr/Acl/Sent.antt =====
-- A transmitter for ACL payloads, and its header read back.
use native.Mathlib.Nat.{mod-lt}
use supertooth.Base.{
  ℕ, zero, suc, ◌+◌, ◌*◌, ◌/◌, ◌%◌, ◌<◌, ◌^◌, ◌≡◌, ◌⊎◌, refl, ap, ◌∙◌, arith, bit_and, bit_or,
  Bytes, length, at, get_or-append, ◌==◌, if◌then◌else◌, u8, u16, ◌<<<◌, ◌>>>◌, [], ◌∷◌, ◌++◌,
}
use supertooth.Base.Masks.{mask_ones, or_fields}
use supertooth.Bredr.Packed.{get_packed_bit}
use supertooth.Bredr.Types.{}
use supertooth.Bredr.PayloadCrc.{payload_crc, crc_steps, crc_step}
use supertooth.Bredr.PayloadCrc.Linear.{crc_steps-lt}
use supertooth.Bredr.Acl.{acl_length}

-- The checksum of the bits of an array depends on them only.
crc_steps_ext :
    (n i : ℕ) (xs ys : Bytes) (a : ℕ)
    → ((j : ℕ) → j < i + n → get_packed_bit xs j ≡ get_packed_bit ys j)
    → crc_steps n i xs a ≡ crc_steps n i ys a
unfolding crc_steps
crc_steps_ext zero i xs ys a same = refl
crc_steps_ext (suc n) i xs ys a same =
    crc_steps_ext n (i + 1) xs ys (crc_step a (get_packed_bit xs i)) (λ j h. same j (omega arith))
    ∙ ap (λ d. crc_steps n (i + 1) ys (crc_step a d)) (same i (omega arith))

pub payload_crc-append :
    (xs ys : Bytes) (uap : ℕ)
    → payload_crc (xs ++ ys) (length xs * 8) uap ≡ payload_crc xs (length xs * 8) uap
unfolding payload_crc
payload_crc-append xs ys uap =
    crc_steps_ext (length xs * 8) 0 (xs ++ ys) xs _ λ j h. same_bit j (omega arith)
  where
    same_bit : (j : ℕ) → j < length xs * 8 → get_packed_bit (xs ++ ys) j ≡ get_packed_bit xs j
    same_bit j h =
        unfold get_packed_bit in
        ap (λ t. u8 (bit_and (t >>> (j % 8)) 1)) (get_or-append xs ys (j / 8) 0 (omega arith))

pub payload_crc-lt : (xs : Bytes) (n uap : ℕ) → payload_crc xs n uap < 2 ^ 16
unfolding payload_crc
payload_crc-lt xs n uap = crc_steps-lt n 0 xs _ (mod-lt _ (omega arith))

-- The header of a payload of `len` bytes, in one byte or two.
abbrev pub head : ℕ → ℕ → ℕ → ℕ → Bytes
head hb llid flow len =
    if hb == 1
    then (llid + flow * 4 + len * 8) ∷ []
    else (llid + flow * 4 + len % 32 * 8) ∷ (len / 32) ∷ []

-- Header, user payload and checksum, the low byte first.
unfoldable pub acl_sent : ℕ → ℕ → ℕ → Bytes → ℕ → Bytes
acl_sent hb llid flow user uap =
    let body = head hb llid flow (length user) ++ user in
    let crc = payload_crc body (length body * 8) uap in body ++ ((crc % 256) ∷ (crc / 256) ∷ [])

pub two_bytes : (crc : ℕ) → crc < 2 ^ 16 → u16 (bit_or (crc % 256) (u16 ((crc / 256) <<< 8))) ≡ crc
two_bytes crc h =
    let e : u16 ((crc / 256) <<< 8) ≡ crc / 256 * 2 ^ 8 = omega arith in
    ap (λ t. u16 (bit_or (crc % 256) t)) e
    ∙ ap u16 (or_fields 8 (crc % 256) (crc / 256) (omega arith))
    ∙ omega arith

-- The fields of the first byte.
module _ (l f m : ℕ) (hl : l < 4) (hf : f < 2) (hm : m < 32) where
  llid_field : u8 (bit_and (l + f * 4 + m * 8) 0x03) ≡ l
  llid_field = omega (arith, mask_ones 2 (l + f * 4 + m * 8))

  flow_field : u8 (bit_and ((l + f * 4 + m * 8) >>> 2) 0x01) ≡ f
  flow_field = omega (arith, mask_ones 1 ((l + f * 4 + m * 8) >>> 2))

  low_field : u16 (bit_and ((l + f * 4 + m * 8) >>> 3) 0x1f) ≡ m
  low_field = omega (arith, mask_ones 5 ((l + f * 4 + m * 8) >>> 3))

-- The two parts of a length of ten bits.
ten_bits : (len : ℕ) → len < 1024 → bit_or (len % 32) (u16 (bit_and (len / 32) 0x1f <<< 5)) ≡ len
ten_bits len h =
    let e : u16 (bit_and (len / 32) 0x1f <<< 5) ≡ len / 32 * 2 ^ 5 =
      omega (arith, mask_ones 5 (len / 32)) in
    ap (bit_or (len % 32)) e ∙ or_fields 5 (len % 32) (len / 32) (omega arith) ∙ omega arith

-- The sizes for which a length fits its field.
abbrev pub Fits : ℕ → ℕ → Type 0
Fits hb len = ((hb ≡ 1) × (len < 32)) ⊎ ((hb ≡ 2) × (len < 1024))

-- Reading the header back, whatever follows.
module _ (l f len : ℕ) (rest : Bytes) (hl : l < 4) (hf : f < 2) where
  pub head_fields :
      (hb : ℕ)
      → Fits hb len
      → (acl_length (head hb l f len ++ rest) hb ≡ len)
        × (u8 (bit_and (at (head hb l f len ++ rest) 0) 0x03) ≡ l)
        × (u8 (bit_and (at (head hb l f len ++ rest) 0 >>> 2) 0x01) ≡ f)
        × (length (head hb l f len) ≡ hb)
  unfolding acl_length
  head_fields zero fits = absurd (omega arith)
  head_fields (suc zero) fits = (
    low_field l f len hl hf (omega arith),
    llid_field l f len hl hf (omega arith),
    flow_field l f len hl hf (omega arith),
    refl,
  )
  head_fields (suc (suc zero)) fits = (
    ap (λ t. bit_or t (u16 (bit_and (len / 32) 0x1f <<< 5)))
          (low_field l f (len % 32) hl hf (omega arith))
        ∙ ten_bits len (omega arith),
    llid_field l f (len % 32) hl hf (omega arith),
    flow_field l f (len % 32) hl hf (omega arith),
    refl,
  )
  head_fields (suc (suc (suc hb))) fits = absurd (omega arith)

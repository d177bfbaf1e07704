-- ===== src/Ble/ConnectInd/RoundTrip.antt =====
-- `ble_connect_ind_parse` against the layout of the parameters on the air.
use supertooth.Base.{
  ℕ, ◌+◌, ◌*◌, ◌/◌, ◌%◌, ◌^◌, ◌<◌, ◌≡◌, refl, ap, ap₂, ◌∙◌, arith, bit_and, bit_or, [], ◌∷◌, ◌++◌,
  Bytes, length, u8, u32, ◌<<<◌, ◌>>>◌,
}
use supertooth.Base.Masks.{or_fields, mask_ones}
use supertooth.Ble.ConnectInd.{ConnectIndParams, read_u16, read_u24, read_u32, connect_ind_parse}

read_u16_lem : (lo hi : ℕ) → lo < 256 → hi < 256 → read_u16 lo hi ≡ lo + hi * 256
unfolding read_u16
read_u16_lem lo hi h h' = omega (arith, or_fields 8 lo hi h)

read_u24_or :
    (b0 b1 b2 : ℕ)
    → b0 < 256
    → b1 < 256
    → b2 < 256
    → bit_or (bit_or b0 (u32 (b1 <<< 8))) (u32 (b2 <<< 16)) ≡ b0 + b1 * 256 + b2 * 65536
read_u24_or b0 b1 b2 h0 h1 h2 =
    let e1 : u32 (b1 <<< 8) ≡ b1 * 2 ^ 8 = omega arith in
    let e2 : u32 (b2 <<< 16) ≡ b2 * 2 ^ 16 = omega arith in
    ap₂ (λ x y. bit_or (bit_or b0 x) y) e1 e2
    ∙ ap (λ x. bit_or x (b2 * 2 ^ 16)) (or_fields 8 b0 b1 h0)
    ∙ or_fields 16 (b0 + b1 * 2 ^ 8) b2 (omega arith)
    ∙ omega arith

read_u24_lem :
    (b0 b1 b2 : ℕ) → b0 < 256 → b1 < 256 → b2 < 256 → read_u24 b0 b1 b2 ≡ b0 + b1 * 256 + b2 * 65536
unfolding read_u24
read_u24_lem b0 b1 b2 h0 h1 h2 =
    ap (λ t. bit_and t 0xffffff) (read_u24_or b0 b1 b2 h0 h1 h2)
    ∙ mask_ones 24 (b0 + b1 * 256 + b2 * 65536)
    ∙ omega arith

read_u32_lem :
    (b0 b1 b2 b3 : ℕ)
    → b0 < 256
    → b1 < 256
    → b2 < 256
    → b3 < 256
    → read_u32 b0 b1 b2 b3 ≡ b0 + b1 * 256 + b2 * 65536 + b3 * 16777216
unfolding read_u32
read_u32_lem b0 b1 b2 b3 h0 h1 h2 h3 =
    let e3 : u32 (b3 <<< 24) ≡ b3 * 2 ^ 24 = omega arith in
    ap₂ bit_or (read_u24_or b0 b1 b2 h0 h1 h2) e3
    ∙ or_fields 24 (b0 + b1 * 256 + b2 * 65536) b3 (omega arith)
    ∙ omega arith

-- The fields fit their widths.
pub record InRange (p : ConnectIndParams) : Type 0 where
  pub access_address_fits : p.access_address < 2 ^ 32
  pub crc_init_fits : p.crc_init < 2 ^ 24
  pub window_size_fits : p.window_size < 256
  pub window_offset_fits : p.window_offset < 2 ^ 16
  pub interval_fits : p.interval < 2 ^ 16
  pub latency_fits : p.latency < 2 ^ 16
  pub timeout_fits : p.timeout < 2 ^ 16
  pub channel_map_size : length p.channel_map ≡ 5
  pub hop_increment_fits : p.hop_increment < 32
  pub sleep_clock_accuracy_fits : p.sleep_clock_accuracy < 8

-- The byte at place `i` of a number.
abbrev byte : ℕ → ℕ → ℕ
byte x i = x / 256 ^ i % 256

-- The 22 bytes in which a master sends the parameters, least significant byte first.
pub ll_data_of : ConnectIndParams → Bytes
ll_data_of p =
    byte p.access_address 0
    ∷ byte p.access_address 1
    ∷ byte p.access_address 2
    ∷ byte p.access_address 3
    ∷ byte p.crc_init 0
    ∷ byte p.crc_init 1
    ∷ byte p.crc_init 2
    ∷ p.window_size
    ∷ byte p.window_offset 0
    ∷ byte p.window_offset 1
    ∷ byte p.interval 0
    ∷ byte p.interval 1
    ∷ byte p.latency 0
    ∷ byte p.latency 1
    ∷ byte p.timeout 0
    ∷ byte p.timeout 1
    ∷ (p.channel_map ++ (p.sleep_clock_accuracy * 32 + p.hop_increment) ∷ [])

five_bytes : (xs : Bytes) → length xs ≡ 5 → (a b c d e : ℕ) × (xs ≡ a ∷ b ∷ c ∷ d ∷ e ∷ [])
five_bytes [] h = absurd (omega arith)
five_bytes (a ∷ []) h = absurd (omega arith)
five_bytes (a ∷ b ∷ []) h = absurd (omega arith)
five_bytes (a ∷ b ∷ c ∷ []) h = absurd (omega arith)
five_bytes (a ∷ b ∷ c ∷ d ∷ []) h = absurd (omega arith)
five_bytes (a ∷ b ∷ c ∷ d ∷ e ∷ []) h = (a, b, c, d, e, refl)
five_bytes (a ∷ b ∷ c ∷ d ∷ e ∷ f ∷ xs) h = absurd (omega arith)

last_byte :
    (h s : ℕ)
    → h < 32
    → s < 8
    → (bit_and (s * 32 + h) 0x1f ≡ h) × (u8 (bit_and ((s * 32 + h) >>> 5) 0x07) ≡ s)
last_byte h s hh hs =
    (mask_ones 5 (s * 32 + h) ∙ omega arith, ap u8 (mask_ones 3 ((s * 32 + h) >>> 5)) ∙ omega arith)

word : (x : ℕ) → x < 2 ^ 16 → read_u16 (byte x 0) (byte x 1) ≡ x
word x h = read_u16_lem (byte x 0) (byte x 1) (omega arith) (omega arith) ∙ omega arith

triple : (x : ℕ) → x < 2 ^ 24 → read_u24 (byte x 0) (byte x 1) (byte x 2) ≡ x
triple x h =
    read_u24_lem (byte x 0) (byte x 1) (byte x 2) (omega arith) (omega arith) (omega arith)
    ∙ omega arith

dword : (x : ℕ) → x < 2 ^ 32 → read_u32 (byte x 0) (byte x 1) (byte x 2) (byte x 3) ≡ x
dword x h =
    read_u32_lem (byte x 0) (byte x 1) (byte x 2) (byte x 3) (omega arith) (omega arith)
      (omega arith) (omega arith)
    ∙ omega arith

-- Parsing the bytes in which parameters are sent gives the parameters back.
pub connect_ind_parse-ll_data_of :
    (p : ConnectIndParams) → InRange p → connect_ind_parse (ll_data_of p) ≡ p
unfolding connect_ind_parse ll_data_of
connect_ind_parse-ll_data_of p r =
    let (a, b, c, d, e, map_bytes) = five_bytes p.channel_map r.channel_map_size in
    let last =
      last_byte p.hop_increment p.sleep_clock_accuracy r.hop_increment_fits
        r.sleep_clock_accuracy_fits in
    rw (
      map_bytes,
      dword p.access_address r.access_address_fits,
      triple p.crc_init r.crc_init_fits,
      word p.window_offset r.window_offset_fits,
      word p.interval r.interval_fits,
      word p.latency r.latency_fits,
      word p.timeout r.timeout_fits,
      last.0,
      last.1,
    )

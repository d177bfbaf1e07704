-- ===== src/Ble/Crc/Linear.antt =====
-- The checksum is linear over exclusive or, in the register and the data together.
use supertooth.Base.{
  ℕ, zero, suc, ◌+◌, ◌<◌, ◌^◌, bit_and, bit_xor, ◌≡◌, refl, sym, ap, ap₂, ◌∙◌, arith, [], ◌∷◌,
  Bytes, u8, u32, ◌<<<◌, ◌>>>◌, at,
}
use supertooth.Base.Xor.{
  xor-shr, xor-shl, xor-mod, xor-and, xor_swap, xor-zero, zero-xor, and-one, xor-lt,
}
use supertooth.Base.Masks.{and-le}
use supertooth.Base.Linear.{xor_if, xor_if-xor, IsLinear}
use supertooth.Ble.Crc.{crc_bit, crc_byte, crc_loop, crc_calc}

-- The feedback of one round.
abbrev pub feedback : ℕ → ℕ → ℕ
feedback crc d = u8 (bit_and (bit_xor (crc >>> 23) d) 1)

pub feedback-lt : (c d : ℕ) → feedback c d < 2
feedback-lt c d = omega (arith, and-one (bit_xor (c >>> 23) d))

pub feedback-xor :
    (c c' d d' : ℕ)
    → feedback (bit_xor c c') (bit_xor d d') ≡ bit_xor (feedback c d) (feedback c' d')
feedback-xor c c' d d' =
    ap (λ t. u8 (bit_and (bit_xor t (bit_xor d d')) 1)) (xor-shr 23 c c')
    ∙ ap (λ t. u8 (bit_and t 1)) (xor_swap (c >>> 23) (c' >>> 23) d d')
    ∙ ap u8 (xor-and 1 (bit_xor (c >>> 23) d) (bit_xor (c' >>> 23) d'))
    ∙ xor-mod 8 _ _

abbrev pub shifted : ℕ → ℕ
shifted crc = bit_and (u32 (crc <<< 1)) 0xffffff

pub shifted-xor : IsLinear shifted
shifted-xor c c' =
    ap (λ t. bit_and (u32 t) 0xffffff) (xor-shl 1 c c')
    ∙ ap (λ t. bit_and t 0xffffff) (xor-mod 32 (c <<< 1) (c' <<< 1))
    ∙ xor-and 0xffffff (u32 (c <<< 1)) (u32 (c' <<< 1))

pub crc_bit-xor :
    (c c' d d' : ℕ) → crc_bit (bit_xor c c') (bit_xor d d') ≡ bit_xor (crc_bit c d) (crc_bit c' d')
unfolding crc_bit
crc_bit-xor c c' d d' =
    ap₂ (xor_if 0x65b) (feedback-xor c c' d d') (shifted-xor c c')
    ∙ xor_if-xor 0x65b (feedback c d) (feedback c' d') (shifted c) (shifted c') (feedback-lt c d)
        (feedback-lt c' d')

pub data_bit-xor :
    (i b b' : ℕ)
    → u8 (bit_and (bit_xor b b' >>> i) 1)
      ≡ bit_xor (u8 (bit_and (b >>> i) 1)) (u8 (bit_and (b' >>> i) 1))
data_bit-xor i b b' =
    ap (λ t. u8 (bit_and t 1)) (xor-shr i b b')
    ∙ ap u8 (xor-and 1 (b >>> i) (b' >>> i))
    ∙ xor-mod 8 _ _

pub crc_byte-xor :
    (left i c c' b b' : ℕ)
    → crc_byte left i (bit_xor c c') (bit_xor b b')
      ≡ bit_xor (crc_byte left i c b) (crc_byte left i c' b')
unfolding crc_byte
crc_byte-xor zero i c c' b b' = refl
crc_byte-xor (suc left) i c c' b b' =
    let d = u8 (bit_and (b >>> i) 1) in
    let d' = u8 (bit_and (b' >>> i) 1) in
    ap (λ t. crc_byte left (i + 1) (crc_bit (bit_xor c c') t) (bit_xor b b')) (data_bit-xor i b b')
    ∙ ap (λ t. crc_byte left (i + 1) t (bit_xor b b')) (crc_bit-xor c c' d d')
    ∙ crc_byte-xor left (i + 1) (crc_bit c d) (crc_bit c' d') b b'

-- The sum of two arrays, entry by entry, as long as the longer one.
unfoldable pub xor_bytes : Bytes → Bytes → Bytes
xor_bytes [] ys = ys
xor_bytes (x ∷ xs) [] = x ∷ xs
xor_bytes (x ∷ xs) (y ∷ ys) = bit_xor x y ∷ xor_bytes xs ys

at-xor_bytes : (xs ys : Bytes) (i : ℕ) → at (xor_bytes xs ys) i ≡ bit_xor (at xs i) (at ys i)
unfolding xor_bytes
at-xor_bytes [] ys i = sym (zero-xor (at ys i))
at-xor_bytes (x ∷ xs) [] i = sym (xor-zero (at (x ∷ xs) i))
at-xor_bytes (x ∷ xs) (y ∷ ys) zero = refl
at-xor_bytes (x ∷ xs) (y ∷ ys) (suc i) = at-xor_bytes xs ys i

crc_loop-xor :
    (left i c c' : ℕ) (xs ys : Bytes)
    → crc_loop left i (xor_bytes xs ys) (bit_xor c c')
      ≡ bit_xor (crc_loop left i xs c) (crc_loop left i ys c')
unfolding crc_loop
crc_loop-xor zero i c c' xs ys = refl
crc_loop-xor (suc left) i c c' xs ys =
    ap (λ t. crc_loop left (i + 1) (xor_bytes xs ys) (crc_byte 8 0 (bit_xor c c') t))
      (at-xor_bytes xs ys i)
    ∙ ap (crc_loop left (i + 1) (xor_bytes xs ys)) (crc_byte-xor 8 0 c c' (at xs i) (at ys i))
    ∙ crc_loop-xor left (i + 1) (crc_byte 8 0 c (at xs i)) (crc_byte 8 0 c' (at ys i)) xs ys

-- The checksum of a sum of messages from a sum of initial values is the sum of the checksums.
pub crc_calc-xor :
    (xs ys : Bytes) (len init init' : ℕ)
    → crc_calc (xor_bytes xs ys) len (bit_xor init init')
      ≡ bit_xor (crc_calc xs len init) (crc_calc ys len init')
unfolding crc_calc
crc_calc-xor xs ys len init init' =
    ap (crc_loop len 0 (xor_bytes xs ys)) (xor-and 0xffffff init init')
    ∙ crc_loop-xor len 0 (bit_and init 0xffffff) (bit_and init' 0xffffff) xs ys

pub crc_bit-lt : (c d : ℕ) → crc_bit c d < 2 ^ 24
unfolding crc_bit
crc_bit-lt c d =
    let small : shifted c < 2 ^ 24 = omega (arith, and-le (u32 (c <<< 1)) 0xffffff) in
    let fed : bit_xor (shifted c) 0x65b < 2 ^ 24 =
      xor-lt 24 (shifted c) 0x65b small (omega arith) in
    ground (arith, small, fed)

pub crc_byte-lt : (left i c b : ℕ) → c < 2 ^ 24 → crc_byte left i c b < 2 ^ 24
unfolding crc_byte
crc_byte-lt zero i c b h = h
crc_byte-lt (suc left) i c b h =
    crc_byte-lt left (i + 1) (crc_bit c (u8 (bit_and (b >>> i) 1))) b (crc_bit-lt _ _)

crc_loop-lt : (left i c : ℕ) (xs : Bytes) → c < 2 ^ 24 → crc_loop left i xs c < 2 ^ 24
unfolding crc_loop
crc_loop-lt zero i c xs h = h
crc_loop-lt (suc left) i c xs h =
    crc_loop-lt left (i + 1) (crc_byte 8 0 c (at xs i)) xs (crc_byte-lt 8 0 c (at xs i) h)

-- A checksum has 24 bits.
pub crc_calc-lt : (xs : Bytes) (len init : ℕ) → crc_calc xs len init < 2 ^ 24
unfolding crc_calc
crc_calc-lt xs len init =
    crc_loop-lt len 0 (bit_and init 0xffffff) xs (omega (arith, and-le init 0xffffff))

crc_loop_ext :
    (left i c : ℕ) (xs ys : Bytes)
    → ((k : ℕ) → k < i + left → at xs k ≡ at ys k)
    → crc_loop left i xs c ≡ crc_loop left i ys c
unfolding crc_loop
crc_loop_ext zero i c xs ys h = refl
crc_loop_ext (suc left) i c xs ys h =
    ap (λ b. crc_loop left (i + 1) xs (crc_byte 8 0 c b)) (h i (omega arith))
    ∙ crc_loop_ext left (i + 1) (crc_byte 8 0 c (at ys i)) xs ys (λ k p. h k (omega arith))

-- Only the bytes that are counted matter.
pub crc_calc_ext :
    (xs ys : Bytes) (len init : ℕ)
    → ((k : ℕ) → k < len → at xs k ≡ at ys k)
    → crc_calc xs len init ≡ crc_calc ys len init
unfolding crc_calc
crc_calc_ext xs ys len init h =
    crc_loop_ext len 0 (bit_and init 0xffffff) xs ys (λ k p. h k (omega arith))

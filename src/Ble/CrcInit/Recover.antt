-- ===== src/Ble/CrcInit/Recover.antt =====
-- `ble_crc_reverse_init_len2` inverts the checksum of a two-byte message in its initial value.
use native.Mathlib.Nat.{pow-suc, one-mul}
use native.Mathlib.Numerals.{add-one}
use supertooth.Base.{
  ℕ, zero, suc, ◌+◌, ◌*◌, ◌<◌, ◌^◌, bit_and, bit_or, bit_xor, ◌≡◌, ◌⊎◌, inl, inr, refl, sym, ap,
  ap₂, ◌∙◌, arith, Bool, true, [], ◌∷◌, Bytes, at, ◌<<<◌, ◌==◌, if◌then◌else◌, all_below,
}
use supertooth.Base.Xor.{xor-and, and-xor, xor_cancel, xor-zero, xor-lt}
use supertooth.Base.Masks.{and-le, or_top}
use supertooth.Base.Linear.{IsLinear, xor_if, xor_if-xor, linear_ext_checked}
use supertooth.Ble.Crc.{crc_calc}
use supertooth.Ble.Crc.Linear.{crc_calc-xor, xor_bytes, crc_calc-lt}
use supertooth.Ble.CrcInit.Parity.{parity32-xor, parity32-lt}
use supertooth.Ble.CrcInit.{Tables, fresh, parity32, tables_init, init_bits, reverse_init_len2}

-- The elimination succeeds, with these rows of the inverse.
abbrev inverse_rows : Bytes
inverse_rows =
    115386 ∷ 149455 ∷ 298911 ∷ 580997 ∷ 1079729 ∷ 2159459 ∷ 4203644 ∷ 8407289 ∷ 37362 ∷ 57694 ∷ 7
    ∷ 14 ∷ 28 ∷ 56 ∷ 112 ∷ 225 ∷ 450 ∷ 901 ∷ 1802 ∷ 3605 ∷ 7211 ∷ 14423 ∷ 28846 ∷ 57693 ∷ []

tables_init-fresh : tables_init fresh ≡ record { rows = inverse_rows; ready = true }
unfolding tables_init
tables_init-fresh = refl

-- The new bit of a round, as an exclusive or.
add_bit : (r p a : ℕ) → a < 2 ^ r → (if p == 0 then a else bit_or a (1 <<< r)) ≡ xor_if (2 ^ r) p a
add_bit r p a h = ground (arith, or_top r a h, one-mul (2 ^ r), ap (bit_or a) (one-mul (2 ^ r)))

pow_next : (r : ℕ) → 2 ^ (r + 1) ≡ 2 * 2 ^ r
pow_next r = rw add-one (omega (arith, pow-suc 2 r))

add_bit-lt : (r p a : ℕ) → a < 2 ^ r → xor_if (2 ^ r) p a < 2 ^ (r + 1)
add_bit-lt r p a h =
    let sum = xor-lt (r + 1) a (2 ^ r) (omega (arith, pow_next r)) (omega (arith, pow_next r)) in
    ground (arith, sum, pow_next r)

init_bits-suc :
    (n r y a : ℕ) (rows : Bytes)
    → a < 2 ^ r
    → init_bits (suc n) r rows y a
      ≡ init_bits n (r + 1) rows y (xor_if (2 ^ r) (parity32 (bit_and (at rows r) y)) a)
unfolding init_bits
init_bits-suc n r y a rows h =
    ap (init_bits n (r + 1) rows y) (add_bit r (parity32 (bit_and (at rows r) y)) a h)

init_bits-xor :
    (n r y y' a a' : ℕ) (rows : Bytes)
    → a < 2 ^ r
    → a' < 2 ^ r
    → init_bits n r rows (bit_xor y y') (bit_xor a a')
      ≡ bit_xor (init_bits n r rows y a) (init_bits n r rows y' a')
init_bits-xor zero r y y' a a' rows h h' = unfold init_bits in refl
init_bits-xor (suc n) r y y' a a' rows h h' =
    let p = parity32 (bit_and (at rows r) y) in
    let p' = parity32 (bit_and (at rows r) y') in
    init_bits-suc n r (bit_xor y y') (bit_xor a a') rows (xor-lt r a a' h h')
    ∙ ap (λ t. init_bits n (r + 1) rows (bit_xor y y') (xor_if (2 ^ r) t (bit_xor a a')))
        (ap parity32 (and-xor (at rows r) y y') ∙ parity32-xor _ _)
    ∙ ap (init_bits n (r + 1) rows (bit_xor y y'))
        (xor_if-xor (2 ^ r) p p' a a' (parity32-lt _) (parity32-lt _))
    ∙ init_bits-xor n (r + 1) y y' (xor_if (2 ^ r) p a) (xor_if (2 ^ r) p' a') rows
        (add_bit-lt r p a h) (add_bit-lt r p' a' h')
    ∙ sym (ap₂ bit_xor (init_bits-suc n r y a rows h) (init_bits-suc n r y' a' rows h'))

-- What the code computes from the difference of the checksums.
abbrev recover : ℕ → ℕ
recover y = bit_and (init_bits 24 0 inverse_rows y 0) 0xffffff

recover-xor : IsLinear recover
recover-xor y y' =
    ap (λ t. bit_and t 0xffffff)
      (init_bits-xor 24 0 y y' 0 0 inverse_rows (omega arith) (omega arith))
    ∙ xor-and 0xffffff _ _

mask_24 : (x : ℕ) → x < 2 ^ 24 → bit_and x 0xffffff ≡ x
mask_24 =
    linear_ext_checked (λ x. bit_and x 0xffffff) (λ x. x) (xor-and 0xffffff) (λ a b. refl) 24 refl

-- The checksum of two zero bytes, as a function of the initial value.
abbrev zero_crc : ℕ → ℕ
zero_crc init = crc_calc [] 2 init

zero_crc-xor : IsLinear zero_crc
unfolding xor_bytes
zero_crc-xor = crc_calc-xor [] [] 2

recover_table : all_below 24 (λ k. recover (bit_and (zero_crc (2 ^ k)) 0xffffff) == 2 ^ k) ≡ true
unfolding init_bits parity32 crc_calc
recover_table = refl

zero_crc_table : all_below 24 (λ k. zero_crc (recover (2 ^ k)) == 2 ^ k) ≡ true
unfolding init_bits parity32 crc_calc
zero_crc_table = refl

recover-zero_crc : (init : ℕ) → init < 2 ^ 24 → recover (bit_and (zero_crc init) 0xffffff) ≡ init
recover-zero_crc =
    linear_ext_checked (λ x. recover (bit_and (zero_crc x) 0xffffff)) (λ x. x) linear (λ a b. refl)
      24 recover_table
  where
    linear : IsLinear (λ x. recover (bit_and (zero_crc x) 0xffffff))
    linear a b =
        ap (λ t. recover (bit_and t 0xffffff)) (zero_crc-xor a b)
        ∙ ap recover (xor-and 0xffffff (zero_crc a) (zero_crc b))
        ∙ recover-xor _ _

zero_crc-recover : (y : ℕ) → y < 2 ^ 24 → zero_crc (recover y) ≡ y
zero_crc-recover =
    linear_ext_checked (λ y. zero_crc (recover y)) (λ y. y) linear (λ a b. refl) 24 zero_crc_table
  where
    linear : IsLinear (λ y. zero_crc (recover y))
    linear a b = ap zero_crc (recover-xor a b) ∙ zero_crc-xor (recover a) (recover b)

-- The statics at the start of the program, or once the tables are built.
abbrev pub Reached : Tables → Type 0
Reached t = (t ≡ fresh) ⊎ (t ≡ tables_init fresh)

reverse-recover :
    (t : Tables) (header : Bytes) (rx_crc : ℕ)
    → Reached t
    → reverse_init_len2 t header rx_crc
      ≡ (recover (bit_and (bit_xor rx_crc (crc_calc header 2 0)) 0xffffff), tables_init fresh)
unfolding reverse_init_len2
reverse-recover t header rx_crc (inl e) = rw (e, tables_init-fresh)
reverse-recover t header rx_crc (inr e) = rw (e, tables_init-fresh)

if_true : (b : Bool) (x y : Tables) → b ≡ true → (if b then x else y) ≡ x
if_true b x y h = ground arith

ready_stays : (t : Tables) → t.ready ≡ true → tables_init t ≡ t
unfolding tables_init
ready_stays t h = if_true t.ready t _ h

-- Once the statics are built they stay.
pub tables_init-Reached : (t : Tables) → Reached t → tables_init t ≡ tables_init fresh
tables_init-Reached t (inl e) = ap tables_init e
tables_init-Reached t (inr e) =
    ready_stays t (ap (λ u. u.ready) e ∙ ap (λ u. u.ready) tables_init-fresh) ∙ e

pub reverse_init_len2-tables :
    (t : Tables) (header : Bytes) (rx_crc : ℕ)
    → Reached t
    → (reverse_init_len2 t header rx_crc).1 ≡ tables_init fresh
reverse_init_len2-tables t header rx_crc reached =
    ap (λ p. p.1) (reverse-recover t header rx_crc reached)

-- The checksum from an initial value is the checksum from zero, and a part that does not depend on
-- the message.
crc_calc_split :
    (header : Bytes) (init : ℕ)
    → crc_calc header 2 init ≡ bit_xor (zero_crc init) (crc_calc header 2 0)
unfolding xor_bytes
crc_calc_split header init =
    ap (crc_calc header 2) (sym (xor-zero init)) ∙ crc_calc-xor [] header 2 init 0

-- The recovered value is the initial value with which the checksum was computed, whatever the two
-- bytes, and the tables are built afterwards.
pub reverse_init_len2-crc_calc :
    (t : Tables) (header : Bytes) (init : ℕ)
    → Reached t
    → init < 2 ^ 24
    → reverse_init_len2 t header (crc_calc header 2 init) ≡ (init, tables_init fresh)
reverse_init_len2-crc_calc t header init reached h =
    reverse-recover t header (crc_calc header 2 init) reached
    ∙ ap (λ v. (v, tables_init fresh))
        (ap (λ c. recover (bit_and (bit_xor c (crc_calc header 2 0)) 0xffffff))
            (crc_calc_split header init)
          ∙ ap (λ c. recover (bit_and c 0xffffff))
              (xor_cancel (zero_crc init) (crc_calc header 2 0))
          ∙ recover-zero_crc init h)

-- Conversely the checksum from the recovered value is the received one: the equation for CRCInit
-- always has a solution, and by the theorem above no other.
pub crc_calc-reverse_init_len2 :
    (t : Tables) (header : Bytes) (rx_crc : ℕ)
    → Reached t
    → rx_crc < 2 ^ 24
    → crc_calc header 2 (reverse_init_len2 t header rx_crc).0 ≡ rx_crc
crc_calc-reverse_init_len2 t header rx_crc reached h =
    let c = crc_calc header 2 0 in
    let y = bit_and (bit_xor rx_crc c) 0xffffff in
    ap (λ r. crc_calc header 2 r.0) (reverse-recover t header rx_crc reached)
    ∙ crc_calc_split header (recover y)
    ∙ ap (λ v. bit_xor v c)
        (zero_crc-recover y (omega (arith, and-le (bit_xor rx_crc c) 0xffffff))
          ∙ mask_24 (bit_xor rx_crc c) (xor-lt 24 rx_crc c h (crc_calc-lt header 2 0)))
    ∙ xor_cancel rx_crc c

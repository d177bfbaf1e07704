-- ===== src/Ble/CrcInit/Parity.antt =====
-- `ble_parity32` is linear and gives one bit.
use supertooth.Base.{
  ℕ, ◌<◌, bit_and, bit_xor, ◌≡◌, refl, ap, ◌∙◌, arith, Bool, true, u8, ◌>>>◌, ◌==◌, ==_iff,
  all_below, all_below_sound,
}
use supertooth.Base.Xor.{xor-shr, xor-and, xor_swap}
use supertooth.Base.Masks.{and-le}
use supertooth.Base.Linear.{IsLinear}
use supertooth.Ble.CrcInit.{parity32}

fold-xor :
    (k a b : ℕ)
    → bit_xor (bit_xor a b) (bit_xor a b >>> k)
      ≡ bit_xor (bit_xor a (a >>> k)) (bit_xor b (b >>> k))
fold-xor k a b = ap (bit_xor (bit_xor a b)) (xor-shr k a b) ∙ xor_swap a b (a >>> k) (b >>> k)

-- The table of the parities of four bits.
abbrev nibble_parity : ℕ → ℕ
nibble_parity v = u8 (bit_and (0x6996 >>> v) 1)

abbrev nibble_row : ℕ → ℕ → Bool
nibble_row v w = nibble_parity (bit_xor v w) == bit_xor (nibble_parity v) (nibble_parity w)

nibble_table : all_below 16 (λ v. all_below 16 (nibble_row v)) ≡ true
nibble_table = refl

nibble_parity-xor :
    (v w : ℕ)
    → v < 16
    → w < 16
    → nibble_parity (bit_xor v w) ≡ bit_xor (nibble_parity v) (nibble_parity w)
nibble_parity-xor v w hv hw =
    (==_iff (nibble_parity (bit_xor v w)) (bit_xor (nibble_parity v) (nibble_parity w))).0 (
      all_below_sound 16 (nibble_row v) w
        (all_below_sound 16 (λ x. all_below 16 (nibble_row x)) v nibble_table hv) hw)

pub parity32-xor : IsLinear parity32
unfolding parity32
parity32-xor a b =
    let f = λ (k v : ℕ). bit_xor v (v >>> k) in
    ap (λ t. nibble_parity (bit_and (f 4 (f 8 t)) 0xf)) (fold-xor 16 a b)
    ∙ ap (λ t. nibble_parity (bit_and (f 4 t) 0xf)) (fold-xor 8 (f 16 a) (f 16 b))
    ∙ ap (λ t. nibble_parity (bit_and t 0xf)) (fold-xor 4 (f 8 (f 16 a)) (f 8 (f 16 b)))
    ∙ ap nibble_parity (xor-and 0xf (f 4 (f 8 (f 16 a))) (f 4 (f 8 (f 16 b))))
    ∙ nibble_parity-xor _ _ (omega (arith, and-le (f 4 (f 8 (f 16 a))) 0xf))
        (omega (arith, and-le (f 4 (f 8 (f 16 b))) 0xf))

pub parity32-lt : (v : ℕ) → parity32 v < 2
unfolding parity32
parity32-lt v = omega (arith, and-le _ 1)

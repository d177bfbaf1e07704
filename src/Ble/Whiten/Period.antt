-- ===== src/Ble/Whiten/Period.antt =====
-- The whitening register of `ble_dewhiten` runs through all its 127 states.
use supertooth.Base.{
  ℕ, zero, suc, ◌+◌, ◌<◌, ◌≡◌, ◌≢◌, refl, arith, Bool, true, false, ◌&&◌, ◌||◌, not, ◌==◌, ==_iff,
  all_below, all_below_sound,
}
use supertooth.Ble.Whiten.{shift_register}

-- The register after `n` bits.
pub registers : ℕ → ℕ → ℕ
registers zero lfsr = lfsr
registers (suc n) lfsr = registers n (shift_register lfsr)

-- Whether `start` is among the next `n` states, the present one included.
meets : ℕ → ℕ → ℕ → Bool
meets zero start lfsr = false
meets (suc n) start lfsr = (lfsr == start) || meets n start (shift_register lfsr)

meets-false : (n start lfsr k : ℕ) → meets n start lfsr ≡ false → k < n → registers k lfsr ≢ start
unfolding meets registers
meets-false zero start lfsr k h lt = absurd (omega arith)
meets-false (suc n) start lfsr zero h lt = ground arith
meets-false (suc n) start lfsr (suc k) h lt =
    meets-false n start (shift_register lfsr) k (ground arith) (omega arith)

abbrev full_period_at : ℕ → Bool
full_period_at s =
    not (meets 126 (s + 1) (shift_register (s + 1))) && (registers 127 (s + 1) == s + 1)

full_period_table : all_below 127 full_period_at ≡ true
unfolding meets registers shift_register
full_period_table = refl

full_period :
    (s : ℕ)
    → s < 127
    → (registers 127 (s + 1) ≡ s + 1) × (meets 126 (s + 1) (shift_register (s + 1)) ≡ false)
full_period s h = ground (
  arith,
  all_below_sound 127 full_period_at s full_period_table h,
  ==_iff (registers 127 (s + 1)) (s + 1),
)

-- From any state but 0 the register comes back after 127 bits, and not before.
pub registers_period :
    (lfsr : ℕ)
    → 0 < lfsr
    → lfsr < 128
    → (registers 127 lfsr ≡ lfsr) × ((n : ℕ) → 0 < n → n < 127 → registers n lfsr ≢ lfsr)
unfolding registers
registers_period zero p h = absurd (omega arith)
registers_period (suc s) p h =
    let e : s + 1 ≡ suc s = omega arith in
    let (back, apart) = full_period s (omega arith) in (rw e at back, later apart)
  where
    later :
        meets 126 (s + 1) (shift_register (s + 1)) ≡ false
        → (n : ℕ) → 0 < n
        → n < 127
        → registers n (suc s) ≢ suc s
    later apart zero p q = absurd (omega arith)
    later apart (suc n) p q =
        let e : s + 1 ≡ suc s = omega arith in
        meets-false 126 (suc s) (shift_register (suc s)) n (rw e at apart) (omega arith)

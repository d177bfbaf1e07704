-- ===== src/Bredr/PayloadCrc/Detect.antt =====
-- The payload checksum tells device addresses apart, and shows any single wrong bit.
use native.Mathlib.Decide.{ℕ_discrete}
use native.Mathlib.Nat.{mod-lt}
use supertooth.Base.{
  ℕ, zero, suc, ◌+◌, ◌^◌, ◌<◌, ◌≤◌, ◌≡◌, ◌≢◌, refl, sym, ap, ◌∙◌, arith, Bytes, u16, ◌<<<◌,
}
use supertooth.Base.Xor.{}
use supertooth.Bredr.Packed.{get_packed_bit}
use supertooth.Bredr.Packed.Laws.{get_packed_bit-lt}
use supertooth.Bredr.PayloadCrc.{reverse_byte, crc_step, crc_steps, payload_crc}
use supertooth.Bredr.PayloadCrc.Linear.{
  crc_step_bits, crc_step-lt, crc_steps_injective, reverse_byte_twice, reverse_byte-lt,
}

-- For the same payload, two different upper address parts below 256 have different checksums.
pub payload_crc_distinct :
    (bytes : Bytes) (bit_count u v : ℕ)
    → u < 256
    → v < 256
    → u ≢ v
    → payload_crc bytes bit_count u ≢ payload_crc bytes bit_count v
unfolding payload_crc
payload_crc_distinct bytes bit_count u v hu hv differ e =
    differ (sym (reverse_byte_twice u hu) ∙ ap reverse_byte same ∙ reverse_byte_twice v hv)
  where
    start : (w : ℕ) → u16 (reverse_byte w <<< 8) < 2 ^ 16
    start w = mod-lt _ (omega arith)

    shifted : u16 (reverse_byte u <<< 8) ≡ u16 (reverse_byte v <<< 8)
    shifted = crc_steps_injective bit_count 0 bytes _ _ (start u) (start v) e

    same : reverse_byte u ≡ reverse_byte v
    same = omega (arith, shifted, reverse_byte-lt u, reverse_byte-lt v)

-- Registers that differ after a bit still differ at the end, if the remaining bits agree.
crc_steps_distinct :
    (n i k : ℕ) (xs ys : Bytes) (a : ℕ)
    → i ≤ k
    → k < i + n
    → a < 2 ^ 16
    → ((j : ℕ) → j ≢ k → get_packed_bit xs j ≡ get_packed_bit ys j)
    → crc_steps n i xs a ≡ crc_steps n i ys a
    → get_packed_bit xs k ≡ get_packed_bit ys k
unfolding crc_steps
crc_steps_distinct zero i k xs ys a p q h same e = absurd (omega arith)
crc_steps_distinct (suc n) i k xs ys a p q h same e = elim (ℕ_discrete i k) [
  | yes at_k ↦
      let d = get_packed_bit xs i in
      let d' = get_packed_bit ys i in
      let rest = crc_steps_rest n (i + 1) xs ys (crc_step a d') (λ j r. same j (omega arith)) in
      let bits : d ≡ d' = crc_step_bits a d d' h (get_packed_bit-lt xs i) (get_packed_bit-lt ys i) (
        crc_steps_injective n (i + 1) xs _ _ (crc_step-lt a d) (crc_step-lt a d') (e ∙ sym rest)) in
      rw at_k at bits
  | no earlier ↦
      let one = ap (λ d. crc_steps n (i + 1) xs (crc_step a d)) (same i earlier) in
      crc_steps_distinct n (i + 1) k xs ys (crc_step a (get_packed_bit ys i)) (omega arith)
        (omega arith) (crc_step-lt a _) same (sym one ∙ e)
]
  where
    crc_steps_rest :
        (n i : ℕ) (xs ys : Bytes) (a : ℕ)
        → ((j : ℕ) → i ≤ j → get_packed_bit xs j ≡ get_packed_bit ys j)
        → crc_steps n i xs a ≡ crc_steps n i ys a
    crc_steps_rest zero i xs ys a agree = refl
    crc_steps_rest (suc n) i xs ys a agree =
        crc_steps_rest n (i + 1) xs ys (crc_step a (get_packed_bit xs i))
          (λ j r. agree j (omega arith))
        ∙ ap (λ d. crc_steps n (i + 1) ys (crc_step a d)) (agree i (omega arith))

-- A single wrong bit never goes unnoticed: two payloads that differ in exactly one of the bits
-- which are summed have different checksums, whatever the upper address part.
pub payload_crc_detects :
    (xs ys : Bytes) (bit_count uap k : ℕ)
    → k < bit_count
    → ((j : ℕ) → j ≢ k → get_packed_bit xs j ≡ get_packed_bit ys j)
    → get_packed_bit xs k ≢ get_packed_bit ys k
    → payload_crc xs bit_count uap ≢ payload_crc ys bit_count uap
unfolding payload_crc
payload_crc_detects xs ys bit_count uap k h same differ e = differ (
    crc_steps_distinct bit_count 0 k xs ys (u16 (reverse_byte uap <<< 8)) (omega arith)
      (omega arith) (mod-lt _ (omega arith)) same e)

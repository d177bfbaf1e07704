-- ===== src/Bredr/Whitening/Payload.antt =====
-- `bredr_xor_whitening_payload` adds the whitening word to the bits of the payload.
use Prim.Native.Nat.{min}
use native.Mathlib.Nat.{mod-lt}
use supertooth.Base.{
  ℕ, zero, suc, ◌+◌, ◌-◌, ◌*◌, ◌/◌, ◌%◌, ◌<◌, ◌≤◌, ◌≡◌, ◌≢◌, refl, ap, ◌∙◌, arith, bit_and, bit_xor,
  Bytes, at, length, ltb, ◌==◌, if◌then◌else◌, Bool-cases, ==_iff, inl, inr,
}
use supertooth.Base.Xor.{xor-lt}
use supertooth.Bredr.Packed.{get_packed_bit, set_packed_bit, write_bits, memset_zero}
use supertooth.Bredr.Packed.Laws.{
  get_packed_bit-lt, write_bits_inside, length-memset_zero, get_packed_bit-memset_zero,
}
use supertooth.Bredr.Whitening.{
  whitening_indices, whitening_data, whitening_index_after_bits, xor_loop, xor_whitening_payload,
}
use supertooth.Bredr.Whitening.Register.{
  whitening_bit, whitening_data-register, register_bit-lt, run,
}

-- What is written at a position, from a start index.
abbrev whitened : ℕ → Bytes → ℕ → ℕ
whitened start src pos = bit_xor (get_packed_bit src pos) (at whitening_data ((start + pos) % 127))

module _ (start bytes : ℕ) (src : Bytes) where
  next_index : (p : ℕ) → ((start + p) % 127 + 1) % 127 ≡ (start + (p + 1)) % 127
  next_index p = omega arith

  xor_loop-write_bits :
      (left p n : ℕ) (dst : Bytes)
      → n ≡ min left (8 * bytes - p)
      → xor_loop left p ((start + p) % 127) src bytes dst ≡ write_bits n p (whitened start src) dst
  unfolding xor_loop write_bits
  xor_loop-write_bits zero p zero dst e = refl
  xor_loop-write_bits zero p (suc n) dst e = absurd (omega arith)
  xor_loop-write_bits (suc left) p zero dst e = ground arith
  xor_loop-write_bits (suc left) p (suc n) dst e =
      let rest =
        ap (λ i. xor_loop left (p + 1) i src bytes (set_packed_bit dst p (whitened start src p)))
          (next_index p)
        ∙ xor_loop-write_bits left (p + 1) n (set_packed_bit dst p (whitened start src p))
            (omega arith) in
      ground (arith, rest)

-- The number of bytes that are produced.
abbrev pub produced : ℕ → ℕ → ℕ
produced bits capacity =
    let wanted = (bits + 7) / 8 in if ltb capacity wanted then capacity else wanted

shift_index : (i off j : ℕ) → ((i + off) % 127 + j) % 127 ≡ (i + (off + j)) % 127
shift_index i off j = omega arith

-- The running index is the index for the position.
index_at :
    (clk6 off j : ℕ)
    → (whitening_index_after_bits clk6 off + j) % 127 ≡ whitening_index_after_bits clk6 (off + j)
unfolding whitening_index_after_bits
index_at clk6 off j = shift_index (at whitening_indices (bit_and clk6 0x3f)) off j

index-lt : (clk6 off : ℕ) → whitening_index_after_bits clk6 off < 127
unfolding whitening_index_after_bits
index-lt clk6 off = mod-lt _ (omega arith)

one_bit : (a b : ℕ) → a < 2 → b < 2 → bit_xor a b % 2 ≡ bit_xor a b
one_bit a b p q = omega (arith, xor-lt 1 a b p q)

-- The call as a loop of writes over a cleared array.
payload_lem :
    (src : Bytes) (bits clk6 offset : ℕ) (dst : Bytes) (capacity : ℕ)
    → capacity ≢ 0
    → let bytes = produced bits capacity in
      xor_whitening_payload src bits clk6 offset dst capacity ≡ (
        bytes,
        write_bits
            (min bits (8 * bytes))
            0
            (whitened (whitening_index_after_bits clk6 offset) src)
            (memset_zero dst bytes),
      )
unfolding xor_whitening_payload
payload_lem src bits clk6 offset dst capacity some_room =
    let bytes = produced bits capacity in
    let index = whitening_index_after_bits clk6 offset in
    let entry : index ≡ (index + 0) % 127 = omega (arith, index-lt clk6 offset) in
    let loop =
      ap (λ i. xor_loop bits 0 i src bytes (memset_zero dst bytes)) entry
      ∙ xor_loop-write_bits index bytes src bits 0 (min bits (8 * bytes)) (memset_zero dst bytes)
          (omega arith) in
    elim (Bool-cases (capacity == 0)) [
      | inl none_left ↦ absurd (some_room ((==_iff capacity 0).0 none_left))
      | inr room ↦ rw room (ap (λ t. (bytes, t)) loop)
    ]

-- The bits that come out are those that go in, added to the whitening word of the clock from the
-- offset on, as far as both arrays reach.
pub xor_whitening_payload_bits :
    (src : Bytes) (bits clk6 offset : ℕ) (dst : Bytes) (capacity j : ℕ)
    → capacity ≢ 0
    → capacity ≤ length dst
    → j < bits
    → j < 8 * capacity
    → ((xor_whitening_payload src bits clk6 offset dst capacity).0 ≡ produced bits capacity)
      × (get_packed_bit (xor_whitening_payload src bits clk6 offset dst capacity).1 j
          ≡ bit_xor (get_packed_bit src j) (whitening_bit clk6 (offset + j)))
xor_whitening_payload_bits src bits clk6 offset dst capacity j some_room fits inside room =
    let bytes = produced bits capacity in
    let index = whitening_index_after_bits clk6 offset in
    let call = payload_lem src bits clk6 offset dst capacity some_room in
    let small : bytes ≤ capacity = ground arith in
    let reached : j < 8 * bytes = ground arith in
    (
      ap (λ r. r.0) call,
      ap (λ r. get_packed_bit r.1 j) call
          ∙ write_bits_inside (min bits (8 * bytes)) 0 (whitened index src) (memset_zero dst bytes)
              j (omega (arith, length-memset_zero dst bytes))
              (λ k p q. get_packed_bit-memset_zero dst bytes k (omega arith)) (omega arith)
              (omega arith)
          ∙ ap (λ i. bit_xor (get_packed_bit src j) (at whitening_data i) % 2)
              (index_at clk6 offset j)
          ∙ ap (λ t. bit_xor (get_packed_bit src j) t % 2)
              (whitening_data-register clk6 (offset + j))
          ∙ one_bit (get_packed_bit src j) (whitening_bit clk6 (offset + j))
              (get_packed_bit-lt src j) (register_bit-lt (run (offset + j) (64 + clk6 % 64))),
    )

-- ===== src/Bredr/Fec13/Correct.antt =====
-- What the repetition code corrects.
use supertooth.Base.{
  ℕ, zero, suc, ◌+◌, ◌-◌, ◌*◌, ◌/◌, ◌%◌, ◌<◌, ◌≤◌, ◌≡◌, refl, ap, ap₂, ◌∙◌, arith, some, Bytes,
  length, leb, ◌==◌, if◌then◌else◌, flag,
}
use supertooth.Bredr.Packed.{get_packed_bit, set_packed_bit, write_bits, memset_zero}
use supertooth.Bredr.Packed.Laws.{get_packed_bit-lt, write_fresh}
use supertooth.Bredr.Fec13.{Decoded, ones_at, decode_1_3_loop, fec_decode_1_3}

-- One for two different bits.
abbrev differs : ℕ → ℕ → ℕ
differs a b = if a == b then 0 else 1

-- How many of the three copies of bit `k` of a message were received wrong.
abbrev pub wrong : Bytes → (ℕ → ℕ) → ℕ → ℕ
wrong input message k =
    differs (get_packed_bit input (k * 3)) (message k)
    + differs (get_packed_bit input (k * 3 + 1)) (message k)
    + differs (get_packed_bit input (k * 3 + 2)) (message k)

-- The sum of a count over `n` blocks from block `k` on.
abbrev pub total : ℕ → ℕ → (ℕ → ℕ) → ℕ
total zero k count = 0
total (suc n) k count = count k + total n (k + 1) count

-- The majority of a block.
abbrev majority : Bytes → ℕ → ℕ
majority input k = flag (leb 2 (ones_at input (k * 3)))

-- The errors that the decoder counts in a block.
abbrev block_errors : Bytes → ℕ → ℕ
block_errors input k =
    let ones = ones_at input (k * 3) in if majority input k == 0 then ones else 3 - ones

decode_loop-write_bits :
    (left k : ℕ) (input out : Bytes) (errors : ℕ)
    → decode_1_3_loop left k input out errors
      ≡ (write_bits left k (majority input) out, errors + total left k (block_errors input))
unfolding decode_1_3_loop write_bits
decode_loop-write_bits zero k input out errors = ap (λ e. (out, e)) (omega arith)
decode_loop-write_bits (suc left) k input out errors =
    decode_loop-write_bits left (k + 1) input (set_packed_bit out k (majority input k))
      (errors + block_errors input k)
    ∙ ap
        (λ e.
          (write_bits left (k + 1) (majority input) (set_packed_bit out k (majority input k)), e))
        (omega arith)

-- With at most one wrong copy the majority is the message bit, and the count is right.
block_lem :
    (input : Bytes) (message : ℕ → ℕ) (k : ℕ)
    → message k < 2
    → wrong input message k ≤ 1
    → (majority input k ≡ message k) × (block_errors input k ≡ wrong input message k)
unfolding ones_at
block_lem input message k m h = ground (
  arith,
  get_packed_bit-lt input (k * 3),
  get_packed_bit-lt input (k * 3 + 1),
  get_packed_bit-lt input (k * 3 + 2),
)

total_ext :
    (n k : ℕ) (f g : ℕ → ℕ) → ((j : ℕ) → k ≤ j → j < k + n → f j ≡ g j) → total n k f ≡ total n k g
total_ext zero k f g h = refl
total_ext (suc n) k f g h =
    ap₂ ◌+◌ (h k (omega arith) (omega arith))
      (total_ext n (k + 1) f g (λ j p q. h j (omega arith) (omega arith)))

-- The decoder's result on whole blocks.
abbrev decoded : Bytes → ℕ → Bytes → Decoded
decoded input n output = record {
  bits = write_bits n 0 (majority input) (memset_zero output ((n + 7) / 8));
  bit_count = n;
  error_count = total n 0 (block_errors input);
}

pub fec_decode_1_3_lem :
    (input : Bytes) (n : ℕ) (output : Bytes)
    → fec_decode_1_3 input (n * 3) output ≡ some (decoded input n output)
unfolding fec_decode_1_3
fec_decode_1_3_lem input n output =
    let third : n * 3 / 3 ≡ n = omega arith in
    ground (arith, third, decode_loop-write_bits n 0 input (memset_zero output ((n + 7) / 8)) 0)

-- If of every three copies of a message bit at most one was received wrong, and the output array
-- holds the message, the decoder returns the message, its length, and the number of wrong copies.
pub fec_decode_1_3_corrects :
    (input : Bytes) (n : ℕ) (message : ℕ → ℕ) (output : Bytes)
    → (n + 7) / 8 ≤ length output
    → ((k : ℕ) → k < n → message k < 2)
    → ((k : ℕ) → k < n → wrong input message k ≤ 1)
    → (d : Decoded) × (fec_decode_1_3 input (n * 3) output ≡ some d)
      × (d.bit_count ≡ n)
      × (d.error_count ≡ total n 0 (wrong input message))
      × ((k : ℕ) → k < n → get_packed_bit d.bits k ≡ message k)
fec_decode_1_3_corrects input n message output fits binary few =
    let right = λ (k : ℕ) (p : k < n). block_lem input message k (binary k p) (few k p) in
    (
      decoded input n output,
      fec_decode_1_3_lem input n output,
      refl,
      total_ext n 0 (block_errors input) (wrong input message) (λ k p q. (right k (omega arith)).1),
      λ k p.
          write_fresh n (majority input) output k fits p
          ∙ ap (λ t. t % 2) (right k p).0
          ∙ omega (arith, binary k p),
    )

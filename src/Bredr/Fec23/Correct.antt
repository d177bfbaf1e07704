-- ===== src/Bredr/Fec23/Correct.antt =====
-- `bredr_fec_decode_2_3` puts right one wrong bit in every block.
use native.Mathlib.Decide.{dec_lt}
use native.Mathlib.Nat.{add_assoc}
use supertooth.Base.{
  ℕ, zero, suc, ◌+◌, ◌-◌, ◌*◌, ◌/◌, ◌%◌, ◌^◌, ◌<◌, ◌≤◌, ◌≡◌, ◌⊎◌, inl, inr, refl, ap, ◌∙◌, arith,
  bit_and, bit_xor, Option, none, some, Bytes, length, u8, u16, ◌>>>◌,
}
use supertooth.Base.Bits.{bit}
use supertooth.Base.Xor.{xor-lt, and-one}
use supertooth.Base.Masks.{bit-shr}
use supertooth.Bredr.Packed.{
  get_packed_bit, set_packed_bit, read_packed_field, write_bits, memset_zero,
}
use supertooth.Bredr.Packed.Laws.{
  write_bits_inside, write_bits_outside, length-write_bits, get_packed_bit-memset_zero,
  length-memset_zero,
}
use supertooth.Bredr.Fec13.{Decoded}
use supertooth.Bredr.Fec13.Correct.{total}
use supertooth.Bredr.Fec23.{
  fec_2_3_remainder, correct_block, store_block, decode_2_3_loop, fec_decode_2_3,
}
use supertooth.Bredr.Fec23.Syndrome.{correct_block-valid, correct_block_single, power_lt}

-- The bit that is stored at a position, for a block at `off`.
abbrev stored : ℕ → ℕ → ℕ → ℕ
stored off c pos = u8 (bit_and (c >>> (pos - off)) 1)

store_block-write_bits :
    (left i off c : ℕ) (out : Bytes)
    → store_block left i off c out ≡ write_bits left (off + i) (stored off c) out
unfolding store_block write_bits
store_block-write_bits zero i off c out = refl
store_block-write_bits (suc left) i off c out =
    let place : i ≡ off + i - off = omega arith in
    let next : off + (i + 1) ≡ off + i + 1 = omega arith in
    ap
      (λ k.
        store_block left (i + 1) off c (set_packed_bit out (off + i) (u8 (bit_and (c >>> k) 1))))
      place
    ∙ store_block-write_bits left (i + 1) off c
        (set_packed_bit out (off + i) (stored off c (off + i)))
    ∙ ap
        (λ k.
          write_bits left k (stored off c) (set_packed_bit out (off + i) (stored off c (off + i))))
        next

-- What storing block `k` does to the output.
module _ (k c : ℕ) (out : Bytes) (fits : 10 * k + 10 ≤ 8 * length out) where
  abbrev after : Bytes
  after = store_block 10 0 (k * 10) c out

  as_writes : after ≡ write_bits 10 (10 * k) (stored (k * 10) c) out
  as_writes =
      let off : k * 10 + 0 ≡ 10 * k = omega arith in
      store_block-write_bits 10 0 (k * 10) c out
      ∙ ap (λ t. write_bits 10 t (stored (k * 10) c) out) off

  length-after : length after ≡ length out
  length-after = ap length as_writes ∙ length-write_bits 10 (10 * k) (stored (k * 10) c) out

  outside :
      (pos : ℕ)
      → (pos < 10 * k) ⊎ (10 * k + 10 ≤ pos)
      → get_packed_bit after pos ≡ get_packed_bit out pos
  outside pos h =
      ap (λ t. get_packed_bit t pos) as_writes
      ∙ write_bits_outside 10 (10 * k) (stored (k * 10) c) out pos fits h

  inside :
      ((pos : ℕ) → 10 * k ≤ pos → pos < 10 * k + 10 → get_packed_bit out pos ≡ 0)
      → (pos : ℕ) → 10 * k ≤ pos
      → pos < 10 * k + 10
      → get_packed_bit after pos ≡ bit c (pos % 10)
  inside clear pos p q =
      let place : pos - k * 10 ≡ pos % 10 = omega arith in
      ap (λ t. get_packed_bit t pos) as_writes
      ∙ write_bits_inside 10 (10 * k) (stored (k * 10) c) out pos fits clear p q
      ∙ ap (λ t. u8 (bit_and (c >>> t) 1) % 2) place
      ∙ omega (arith, and-one (c >>> (pos % 10)), bit-shr (pos % 10) c)

-- What the decoder returns when every block from `k` on comes to a codeword.
record IsDecoded (k n : ℕ) (code wrong : ℕ → ℕ) (out : Bytes) (errors : ℕ)
    (result : Option (Bytes × ℕ)) : Type 0 where
  bits : Bytes
  returns : result ≡ some (bits, errors + total n k wrong)
  before : (pos : ℕ) → pos < 10 * k → get_packed_bit bits pos ≡ get_packed_bit out pos
  blocks :
      (pos : ℕ)
      → 10 * k ≤ pos
      → pos < 10 * (k + n)
      → get_packed_bit bits pos ≡ bit (code (pos / 10)) (pos % 10)

module _ (input : Bytes) (code wrong : ℕ → ℕ) where
  abbrev received : ℕ → ℕ
  received k = u16 (read_packed_field input (k * 15) 15)

  decode_2_3_loop-suc :
      (left k errors : ℕ) (out : Bytes)
      → correct_block (received k) ≡ some (code k, wrong k)
      → decode_2_3_loop (suc left) k input out errors
        ≡ decode_2_3_loop left
            (k + 1)
            input
            (store_block 10 0 (k * 10) (code k) out)
            (errors + wrong k)
  unfolding decode_2_3_loop
  decode_2_3_loop-suc left k errors out h = ground (arith, h)

  decode_2_3_loop-IsDecoded :
      (n k errors : ℕ) (out : Bytes)
      → 10 * (k + n) ≤ 8 * length out
      → ((pos : ℕ) → 10 * k ≤ pos → pos < 10 * (k + n) → get_packed_bit out pos ≡ 0)
      → ((j : ℕ) → k ≤ j → j < k + n → correct_block (received j) ≡ some (code j, wrong j))
      → IsDecoded k n code wrong out errors (decode_2_3_loop n k input out errors)
  decode_2_3_loop-IsDecoded zero k errors out fits clear good = record {
    bits = out;
    returns = unfold decode_2_3_loop in ap (λ e. some (out, e)) (omega arith);
    before = λ pos h. refl;
    blocks = λ pos p q. absurd (omega arith);
  }
  decode_2_3_loop-IsDecoded (suc n) k errors out fits clear good =
      let c = code k in
      let room : 10 * k + 10 ≤ 8 * length out = omega arith in
      let out' = after k c out room in
      let rest =
        decode_2_3_loop-IsDecoded n (k + 1) (errors + wrong k) out'
          (omega (arith, length-after k c out room))
          (λ pos p q.
            outside k c out room pos (inr (omega arith)) ∙ clear pos (omega arith) (omega arith))
          (λ j p q. good j (omega arith) (omega arith)) in
      record {
        bits = rest.bits;
        returns =
            decode_2_3_loop-suc n k errors out (good k (omega arith) (omega arith))
            ∙ rest.returns
            ∙ ap (λ e. some (rest.bits, e)) (add_assoc errors (wrong k) (total n (k + 1) wrong));
        before = λ pos h. rest.before pos (omega arith) ∙ outside k c out room pos (inl h);
        blocks = λ pos p q. elim (dec_lt pos (10 * k + 10)) [
          | yes lt ↦
              let block : k ≡ pos / 10 = omega arith in
              rest.before pos (omega arith)
              ∙ inside k c out room (λ j lo hi. clear j lo (omega arith)) pos p lt
              ∙ ap (λ t. bit (code t) (pos % 10)) block
          | no ge ↦ rest.blocks pos (omega arith) (omega arith)
        ];
      }

-- What a receiver has of codeword `c`, with the bit at `b` wrong, or none.
abbrev pub damaged : ℕ → Option ℕ → ℕ
damaged c none = c
damaged c (some b) = bit_xor c (2 ^ b)

abbrev pub damage : Option ℕ → ℕ
damage none = 0
damage (some b) = 1

abbrev pub InBlock : Option ℕ → Type 0
InBlock none = Unit
InBlock (some b) = b < 15

correct_block-damaged :
    (c : ℕ) (e : Option ℕ)
    → c < 2 ^ 15
    → fec_2_3_remainder c ≡ 0
    → InBlock e
    → correct_block (u16 (damaged c e)) ≡ some (c, damage e)
correct_block-damaged c none hc valid h =
    let whole : u16 c ≡ c = omega arith in ap correct_block whole ∙ correct_block-valid c valid
correct_block-damaged c (some b) hc valid h =
    let small = xor-lt 15 c (2 ^ b) hc (power_lt b h) in
    let whole : u16 (bit_xor c (2 ^ b)) ≡ bit_xor c (2 ^ b) = omega (arith, small) in
    ap correct_block whole ∙ correct_block_single c b hc valid h

fec_decode_2_3_lem :
    (input : Bytes) (n : ℕ) (output bits : Bytes) (errors : ℕ)
    → decode_2_3_loop n 0 input (memset_zero output ((n * 10 + 7) / 8)) 0 ≡ some (bits, errors)
    → fec_decode_2_3 input (n * 15) output
      ≡ some (record { bits = bits; bit_count = n * 10; error_count = errors })
unfolding fec_decode_2_3
fec_decode_2_3_lem input n output bits errors e =
    let blocks : n * 15 / 15 ≡ n = omega arith in ground (arith, blocks, e)

-- If every block of the input is a codeword with at most one wrong bit, and the output array holds
-- the data, the decoder returns the ten data bits of each codeword, ten bits for each block, and the
-- number of blocks with a wrong bit.
pub fec_decode_2_3_corrects :
    (input : Bytes) (n : ℕ) (code : ℕ → ℕ) (errors : ℕ → Option ℕ) (output : Bytes)
    → (n * 10 + 7) / 8 ≤ length output
    → ((k : ℕ) → k < n → (code k < 2 ^ 15) × (fec_2_3_remainder (code k) ≡ 0) × InBlock (errors k))
    → ((k : ℕ) → k < n → read_packed_field input (k * 15) 15 ≡ damaged (code k) (errors k))
    → (d : Decoded) × (fec_decode_2_3 input (n * 15) output ≡ some d)
      × (d.bit_count ≡ n * 10)
      × (d.error_count ≡ total n 0 (λ k. damage (errors k)))
      × ((pos : ℕ) → pos < n * 10 → get_packed_bit d.bits pos ≡ bit (code (pos / 10)) (pos % 10))
fec_decode_2_3_corrects input n code errors output fits codes reads =
    let clean = memset_zero output ((n * 10 + 7) / 8) in
    let loop =
      decode_2_3_loop-IsDecoded input code (λ k. damage (errors k)) n 0 0 clean
        (omega (arith, length-memset_zero output ((n * 10 + 7) / 8) fits))
        (λ pos p q. get_packed_bit-memset_zero output ((n * 10 + 7) / 8) pos (omega arith))
        (λ j p q.
          let (small, valid, inside) = codes j (omega arith) in
          ap (λ t. correct_block (u16 t)) (reads j (omega arith))
          ∙ correct_block-damaged (code j) (errors j) small valid inside) in
    (
      record {
        bits = loop.bits;
        bit_count = n * 10;
        error_count = 0 + total n 0 (λ k. damage (errors k));
      },
      fec_decode_2_3_lem input n output loop.bits (0 + total n 0 (λ k. damage (errors k)))
          loop.returns,
      refl,
      omega arith,
      λ pos p. loop.blocks pos (omega arith) (omega arith),
    )

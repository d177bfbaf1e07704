-- ===== src/Bredr/Tests.antt =====
-- Runs of the BR/EDR codec on concrete arrays.
use supertooth.Base.{
  ℕ, zero, suc, ◌+◌, ◌*◌, ◌/◌, ◌%◌, ◌<◌, ◌≤◌, ◌≡◌, refl, arith, bit_xor, Option, some, [], ◌∷◌,
  Bytes, at, ◌≢◌,
}
use supertooth.Base.Bits.{bit}
use supertooth.Bredr.Packed.{get_packed_bit, set_packed_bit, read_packed_field, copy_packed_bits}
use supertooth.Bredr.Packed.Laws.{get_packed_bit-set_packed_bit}
use supertooth.Bredr.Packed.Fields.{read_packed_field-copy_packed_bits}
use supertooth.Bredr.Fec13.{Decoded, fec_decode_1_3}
use supertooth.Bredr.Fec13.Correct.{wrong, total, fec_decode_1_3_corrects}
use supertooth.Bredr.Fec23.{fec_2_3_remainder, fec_decode_2_3}
use supertooth.Bredr.Fec23.Correct.{damage, damaged, fec_decode_2_3_corrects}
use supertooth.Bredr.Whitening.{whitening_data, whitening_index_after_bits, xor_whitening_payload}
use supertooth.Bredr.Whitening.Register.{whitening_bit, whitening_data-register}
use supertooth.Bredr.Whitening.Payload.{produced, xor_whitening_payload_bits}
use supertooth.Bredr.PayloadCrc.{payload_crc}
use supertooth.Bredr.PayloadCrc.Detect.{payload_crc_distinct, payload_crc_detects}

abbrev bytes : Bytes
bytes = 0x5a ∷ 0xc3 ∷ 0x0f ∷ []

read_packed_field-copy_packed_bits_example :
    read_packed_field (copy_packed_bits bytes 3 10 (9 ∷ 9 ∷ [])) 0 10 ≡ read_packed_field bytes 3 10
read_packed_field-copy_packed_bits_example =
    read_packed_field-copy_packed_bits bytes 3 10 (9 ∷ 9 ∷ []) (omega arith) (omega arith)

-- The message 1, 0 with one copy of each bit wrong.
abbrev message : ℕ → ℕ
message zero = 1
message (suc k) = 0

message_binary : (k : ℕ) → k < 2 → message k < 2
message_binary zero h = omega arith
message_binary (suc k) h = omega arith

few_wrong : (k : ℕ) → k < 2 → wrong (0x0d ∷ []) message k ≤ 1
unfolding get_packed_bit
few_wrong zero h = omega arith
few_wrong (suc zero) h = omega arith
few_wrong (suc (suc k)) h = absurd (omega arith)

fec_decode_1_3_corrects_example :
    (d : Decoded) × (fec_decode_1_3 (0x0d ∷ []) (2 * 3) (7 ∷ []) ≡ some d)
    × (d.bit_count ≡ 2)
    × (d.error_count ≡ total 2 0 (wrong (0x0d ∷ []) message))
    × ((k : ℕ) → k < 2 → get_packed_bit d.bits k ≡ message k)
fec_decode_1_3_corrects_example =
    fec_decode_1_3_corrects (0x0d ∷ []) 2 message (7 ∷ []) (omega arith) message_binary few_wrong

-- One codeword, with its fourth bit wrong.
abbrev codeword : ℕ → ℕ
codeword k = 0x2b

abbrev fourth : ℕ → Option ℕ
fourth k = some 3

codeword_valid : fec_2_3_remainder 0x2b ≡ 0
unfolding fec_2_3_remainder
codeword_valid = refl

block_read :
    (k : ℕ)
    → k < 1
    → read_packed_field (0x23 ∷ 0 ∷ []) (k * 15) 15 ≡ damaged (codeword k) (fourth k)
unfolding read_packed_field get_packed_bit
block_read zero h = refl
block_read (suc k) h = absurd (omega arith)

fec_decode_2_3_corrects_example :
    (d : Decoded) × (fec_decode_2_3 (0x23 ∷ 0 ∷ []) (1 * 15) (0 ∷ 0 ∷ []) ≡ some d)
    × (d.bit_count ≡ 1 * 10)
    × (d.error_count ≡ total 1 0 (λ k. damage (fourth k)))
    × ((pos : ℕ) → pos < 1 * 10 → get_packed_bit d.bits pos ≡ bit (codeword (pos / 10)) (pos % 10))
fec_decode_2_3_corrects_example =
    fec_decode_2_3_corrects (0x23 ∷ 0 ∷ []) 1 codeword fourth (0 ∷ 0 ∷ []) (omega arith)
      (λ k h. (omega arith, codeword_valid, omega arith)) block_read

whitening_data-register_example :
    at whitening_data (whitening_index_after_bits 5 200) ≡ whitening_bit 5 200
whitening_data-register_example = whitening_data-register 5 200

xor_whitening_payload_bits_example :
    ((xor_whitening_payload bytes 20 5 18 (0 ∷ 0 ∷ 0 ∷ []) 3).0 ≡ produced 20 3)
    × (get_packed_bit (xor_whitening_payload bytes 20 5 18 (0 ∷ 0 ∷ 0 ∷ []) 3).1 7
        ≡ bit_xor (get_packed_bit bytes 7) (whitening_bit 5 (18 + 7)))
xor_whitening_payload_bits_example =
    xor_whitening_payload_bits bytes 20 5 18 (0 ∷ 0 ∷ 0 ∷ []) 3 7 (omega arith) (omega arith)
      (omega arith) (omega arith)

payload_crc_distinct_example : payload_crc bytes 24 0x47 ≢ payload_crc bytes 24 0x48
payload_crc_distinct_example =
    payload_crc_distinct bytes 24 0x47 0x48 (omega arith) (omega arith) (omega arith)

-- The eleventh bit is damaged.
same_elsewhere :
    (j : ℕ) → j ≢ 10 → get_packed_bit bytes j ≡ get_packed_bit (set_packed_bit bytes 10 1) j
same_elsewhere j h = ground (arith, get_packed_bit-set_packed_bit bytes 10 1 j (omega arith))

damaged_there : get_packed_bit bytes 10 ≢ get_packed_bit (set_packed_bit bytes 10 1) 10
unfolding get_packed_bit set_packed_bit
damaged_there = omega arith

payload_crc_detects_example :
    payload_crc bytes 24 0x47 ≢ payload_crc (set_packed_bit bytes 10 1) 24 0x47
payload_crc_detects_example =
    payload_crc_detects bytes (set_packed_bit bytes 10 1) 24 0x47 10 (omega arith) same_elsewhere
      damaged_there

-- ===== src/Bredr/Fec23/Syndrome.antt =====
-- The remainder is linear, and tells the fifteen single errors apart.
use native.Mathlib.Decide.{ℕ_discrete}
use native.Mathlib.Nat.{pow-le-pow_right, one-le-pow}
use supertooth.Base.{
  ℕ, zero, suc, ◌+◌, ◌*◌, ◌^◌, ◌<◌, ◌≤◌, ◌≡◌, refl, sym, ap, ap₂, ◌∙◌, arith, bit_and, bit_xor,
  Bool, true, false, not, some, ◌==◌, if◌then◌else◌, all_below, all_below_sound, u8, u16, ◌<<<◌,
}
use supertooth.Base.Bits.{bit, bit-lt}
use supertooth.Base.Xor.{xor-and, xor-mod, xor_assoc, xor_cancel, zero-xor, xor-lt}
use supertooth.Base.Masks.{and-pow, bit-xor}
use supertooth.Base.Linear.{IsLinear, xor_if, xor_if-xor}
use supertooth.Bredr.Fec23.{remainder_loop, fec_2_3_remainder, find_single, correct_block}

digit_test : (g p : ℕ) → g < 2 → 0 < p → (g * p == 0) ≡ (g == 0)
digit_test zero p h pos = ground arith
digit_test (suc zero) p h pos = ground arith
digit_test (suc (suc g)) p h pos = absurd (omega arith)

-- A shift of one by less than 16 places keeps within a word.
pub power_fits : (k : ℕ) → k < 16 → u16 (1 <<< k) ≡ 2 ^ k
power_fits k h =
    let below : 2 ^ k ≤ 2 ^ 15 =
      pow-le-pow_right {n = 2} (omega arith) {i = k} {j = 15} (omega arith) in
    omega arith

-- A round, with its test read as a digit.
round_lem :
    (left rem : ℕ)
    → left < 10
    → remainder_loop (suc left) rem
      ≡ remainder_loop left (xor_if (u16 (0x2b <<< left)) (bit rem (left + 5)) rem)
unfolding remainder_loop
round_lem left rem h =
    let p = u16 (0x2b <<< left) in
    let test : (bit_and rem (u16 (1 <<< (left + 5))) == 0) ≡ (bit rem (left + 5) == 0) =
      ap (λ t. bit_and rem t == 0) (power_fits (left + 5) (omega arith))
      ∙ ap (λ t. t == 0) (and-pow rem (left + 5))
      ∙ digit_test (bit rem (left + 5)) (2 ^ (left + 5)) (bit-lt rem (left + 5))
          (one-le-pow (left + 5) 2 (omega arith)) in
    ap (λ t. remainder_loop left (if t then rem else bit_xor rem p)) test

remainder_loop-xor :
    (left a b : ℕ)
    → left ≤ 10
    → remainder_loop left (bit_xor a b) ≡ bit_xor (remainder_loop left a) (remainder_loop left b)
remainder_loop-xor zero a b h = unfold remainder_loop in refl
remainder_loop-xor (suc left) a b h =
    let p = u16 (0x2b <<< left) in
    let f = λ (x : ℕ). bit x (left + 5) in
    round_lem left (bit_xor a b) (omega arith)
    ∙ ap (λ t. remainder_loop left (xor_if p t (bit_xor a b))) (bit-xor a b (left + 5))
    ∙ ap (remainder_loop left)
        (xor_if-xor p (f a) (f b) a b (bit-lt a (left + 5)) (bit-lt b (left + 5)))
    ∙ remainder_loop-xor left (xor_if p (f a) a) (xor_if p (f b) b) (omega arith)
    ∙ sym (ap₂ bit_xor (round_lem left a (omega arith)) (round_lem left b (omega arith)))

pub fec_2_3_remainder-xor : IsLinear fec_2_3_remainder
fec_2_3_remainder-xor a b =
    unfold fec_2_3_remainder in
    ap (λ t. u8 (bit_and t 0x1f)) (remainder_loop-xor 10 a b (omega arith))
    ∙ ap u8 (xor-and 0x1f (remainder_loop 10 a) (remainder_loop 10 b))
    ∙ xor-mod 8 _ _

-- Two single errors have one remainder only if they are the same.
abbrev distinct : ℕ → ℕ → Bool
distinct b i = elim (i == b) [
  | true ↦ fec_2_3_remainder (bit_xor (2 ^ b) (2 ^ i)) == 0
  | false ↦ elim (fec_2_3_remainder (bit_xor (2 ^ b) (2 ^ i)) == 0) [ true ↦ false | false ↦ true ]
]

distinct_table : all_below 15 (λ b. all_below 15 (distinct b)) ≡ true
unfolding fec_2_3_remainder
distinct_table = refl

distinct_lem :
    (b i : ℕ) → b < 15 → i < 15 → (fec_2_3_remainder (bit_xor (2 ^ b) (2 ^ i)) == 0) ≡ (i == b)
distinct_lem b i hb hi = ground (
  arith,
  all_below_sound 15 (distinct b) i
      (all_below_sound 15 (λ c. all_below 15 (distinct c)) b distinct_table hb) hi,
)

pub power_lt : (k : ℕ) → k < 15 → 2 ^ k < 2 ^ 15
power_lt k h =
    let below : 2 ^ k ≤ 2 ^ 14 =
      pow-le-pow_right {n = 2} (omega arith) {i = k} {j = 14} (omega arith) in
    omega arith

-- What the search tries in place of a codeword with bit `b` wrong.
candidate_lem :
    (i b c : ℕ)
    → c < 2 ^ 15
    → b < 15
    → i < 15
    → u16 (bit_xor (bit_xor c (2 ^ b)) (u16 (1 <<< i))) ≡ bit_xor (bit_xor c (2 ^ b)) (2 ^ i)
candidate_lem i b c hc hb hi =
    let sum = bit_xor (bit_xor c (2 ^ b)) (2 ^ i) in
    let small : sum < 2 ^ 15 =
      xor-lt 15 (bit_xor c (2 ^ b)) (2 ^ i) (xor-lt 15 c (2 ^ b) hc (power_lt b hb))
        (power_lt i hi) in
    let whole : u16 sum ≡ sum = omega arith in
    ap (λ t. u16 (bit_xor (bit_xor c (2 ^ b)) t)) (power_fits i (omega arith)) ∙ whole

-- It has remainder 0 only if the wrong bit is put right.
candidate_test :
    (i b c : ℕ)
    → c < 2 ^ 15
    → fec_2_3_remainder c ≡ 0
    → b < 15
    → i < 15
    → (fec_2_3_remainder (u16 (bit_xor (bit_xor c (2 ^ b)) (u16 (1 <<< i)))) == 0) ≡ (i == b)
candidate_test i b c hc valid hb hi =
    ap (λ t. fec_2_3_remainder t == 0) (candidate_lem i b c hc hb hi ∙ xor_assoc c (2 ^ b) (2 ^ i))
    ∙ ap (λ t. t == 0)
        (fec_2_3_remainder-xor c (bit_xor (2 ^ b) (2 ^ i))
          ∙ ap (λ t. bit_xor t (fec_2_3_remainder (bit_xor (2 ^ b) (2 ^ i)))) valid
          ∙ zero-xor (fec_2_3_remainder (bit_xor (2 ^ b) (2 ^ i))))
    ∙ distinct_lem b i hb hi

-- The search meets the wrong bit, if it starts at it or below.
find_single_lem :
    (left i b c : ℕ)
    → c < 2 ^ 15
    → fec_2_3_remainder c ≡ 0
    → b < 15
    → i ≤ b
    → i + left ≡ 15
    → find_single left i (bit_xor c (2 ^ b)) ≡ some c
unfolding find_single
find_single_lem zero i b c hc valid hb le e = absurd (omega arith)
find_single_lem (suc left) i b c hc valid hb le e =
    let test = candidate_test i b c hc valid hb (omega arith) in
    elim (ℕ_discrete i b) [
      | yes here ↦
          let found : u16 (bit_xor (bit_xor c (2 ^ b)) (u16 (1 <<< i))) ≡ c =
            candidate_lem i b c hc hb (omega arith)
            ∙ ap (λ k. bit_xor (bit_xor c (2 ^ b)) (2 ^ k)) here
            ∙ xor_cancel c (2 ^ b) in
          ground (arith, test, found)
      | no there ↦
          let later = find_single_lem left (i + 1) b c hc valid hb (omega arith) (omega arith) in
          ground (arith, test, later)
    ]

abbrev shows : ℕ → Bool
shows b = not (fec_2_3_remainder (2 ^ b) == 0)

shows_table : all_below 15 shows ≡ true
unfolding fec_2_3_remainder
shows_table = refl

-- A codeword is kept, and one with a single wrong bit is put right.
pub correct_block-valid : (c : ℕ) → fec_2_3_remainder c ≡ 0 → correct_block c ≡ some (c, 0)
unfolding correct_block
correct_block-valid c valid = ground (arith, valid)

pub correct_block_single :
    (c b : ℕ)
    → c < 2 ^ 15
    → fec_2_3_remainder c ≡ 0
    → b < 15
    → correct_block (bit_xor c (2 ^ b)) ≡ some (c, 1)
unfolding correct_block
correct_block_single c b hc valid hb =
    let seen : fec_2_3_remainder (bit_xor c (2 ^ b)) ≡ fec_2_3_remainder (2 ^ b) =
      fec_2_3_remainder-xor c (2 ^ b)
      ∙ ap (λ t. bit_xor t (fec_2_3_remainder (2 ^ b))) valid
      ∙ zero-xor (fec_2_3_remainder (2 ^ b)) in
    ground (
      arith,
      seen,
      all_below_sound 15 shows b shows_table hb,
      find_single_lem 15 0 b c hc valid hb (omega arith) (omega arith),
    )

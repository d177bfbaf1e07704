-- ===== src/Bredr/Whitening/Register.antt =====
-- The whitening tables against the register that the Bluetooth specification gives:
-- x⁷ + x⁴ + 1, started with the clock bits and a one on top.
use supertooth.Base.{
  ℕ, zero, suc, ◌+◌, ◌*◌, ◌/◌, ◌%◌, ◌<◌, ◌≡◌, refl, sym, ap, ◌∙◌, arith, bit_and, bit_xor, Bool,
  true, at, ◌==◌, ==_iff, all_below, all_below_sound, if◌then◌else◌,
}
use supertooth.Base.Masks.{mask_ones}
use supertooth.Bredr.Whitening.{whitening_indices, whitening_data, whitening_index_after_bits}

-- The bit that the register gives, and its next state.
unfoldable pub register_bit : ℕ → ℕ
register_bit r = r / 64 % 2

pub register_bit-lt : (r : ℕ) → register_bit r < 2
unfolding register_bit
register_bit-lt r = omega arith

unfoldable pub register_next : ℕ → ℕ
register_next r =
    let shifted = r * 2 % 128 in if register_bit r == 0 then shifted else bit_xor shifted 0x11

-- The state after `n` bits.
unfoldable pub run : ℕ → ℕ → ℕ
run zero r = r
run (suc n) r = run n (register_next r)

-- Bit `n` of the whitening word for a clock.
abbrev pub whitening_bit : ℕ → ℕ → ℕ
whitening_bit clk6 n = register_bit (run n (64 + clk6 % 64))

pub run-add : (m n r : ℕ) → run (m + n) r ≡ run n (run m r)
unfolding run
run-add zero n r = let e : 0 + n ≡ n = omega arith in ap (λ t. run t r) e
run-add (suc m) n r =
    let e : suc m + n ≡ suc (m + n) = omega arith in
    ap (λ t. run t r) e ∙ run-add m n (register_next r)

-- The tables are read along the orbit of the state 127, at which the first table has index 0.
abbrev data_right : ℕ → Bool
data_right j = at whitening_data j == register_bit (run j 127)

data_table : all_below 127 data_right ≡ true
unfolding run register_next register_bit
data_table = refl

abbrev index_right : ℕ → Bool
index_right c = run (at whitening_indices c) 127 == 64 + c

index_table : all_below 64 index_right ≡ true
unfolding run register_next register_bit
index_table = refl

run_period : run 127 127 ≡ 127
unfolding run register_next register_bit
run_period = refl

run_cycles : (q n : ℕ) → run (q * 127 + n) 127 ≡ run n 127
run_cycles zero n = let e : 0 * 127 + n ≡ n = omega arith in ap (λ t. run t 127) e
run_cycles (suc q) n =
    let e : suc q * 127 + n ≡ 127 + (q * 127 + n) = omega arith in
    ap (λ t. run t 127) e
    ∙ run-add 127 (q * 127 + n) 127
    ∙ ap (run (q * 127 + n)) run_period
    ∙ run_cycles q n

run-mod : (n : ℕ) → run (n % 127) 127 ≡ run n 127
run-mod n =
    let e : n / 127 * 127 + n % 127 ≡ n = omega arith in
    sym (run_cycles (n / 127) (n % 127)) ∙ ap (λ t. run t 127) e

-- Read at the index for a clock and an offset, the table gives the register's bit at that offset,
-- at every offset.
pub whitening_data-register :
    (clk6 n : ℕ) → at whitening_data (whitening_index_after_bits clk6 n) ≡ whitening_bit clk6 n
unfolding whitening_index_after_bits
whitening_data-register clk6 n =
    let c = bit_and clk6 0x3f in
    let i = at whitening_indices c in
    let clock : c ≡ clk6 % 64 = mask_ones 6 clk6 in
    let started : run i 127 ≡ 64 + c =
      (==_iff (run i 127) (64 + c)).0
        (all_below_sound 64 index_right c index_table (omega arith)) in
    (==_iff (at whitening_data ((i + n) % 127)) (register_bit (run ((i + n) % 127) 127))).0
      (all_below_sound 127 data_right ((i + n) % 127) data_table (omega arith))
    ∙ ap register_bit
        (run-mod (i + n) ∙ run-add i n 127 ∙ ap (run n) (started ∙ ap (λ t. 64 + t) clock))

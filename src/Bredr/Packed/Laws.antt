-- ===== src/Bredr/Packed/Laws.antt =====
-- Reading and writing packed bits, in terms of the digits of the bytes.
use native.Mathlib.Decide.{ℕ_discrete}
use supertooth.Base.{
  ℕ, zero, suc, ◌+◌, ◌*◌, ◌/◌, ◌%◌, ◌<◌, ◌≤◌, ◌≡◌, ◌≢◌, ◌⊎◌, inl, refl, sym, ap, ◌∙◌, arith, bit_or,
  Bool, true, Bytes, at, set, length, ◌==◌, ==_iff, if◌then◌else◌, u8, ◌<<<◌, ◌>>>◌, all_below,
  all_below_sound, flag, get_or-set_self, get_or-set_ne, length-set, drop, replicate, ◌++◌,
  length-drop, length-append, length-replicate,
}
use Prim.Native.Nat.{max}
use supertooth.Base.Bits.{bit, bit-lt, bit-zero, bit-bit_or}
use supertooth.Base.Xor.{and-one}
use supertooth.Base.Masks.{bit-shr, bit-mod}
use supertooth.Bredr.Packed.{get_packed_bit, set_packed_bit, write_bits, memset_zero}

pub get_packed_bit_lem :
    (bytes : Bytes) (i : ℕ) → get_packed_bit bytes i ≡ bit (at bytes (i / 8)) (i % 8)
unfolding get_packed_bit
get_packed_bit_lem bytes i =
    omega (arith, and-one (at bytes (i / 8) >>> (i % 8)), bit-shr (i % 8) (at bytes (i / 8)))

pub get_packed_bit-lt : (bytes : Bytes) (i : ℕ) → get_packed_bit bytes i < 2
get_packed_bit-lt bytes i =
    omega (arith, get_packed_bit_lem bytes i, bit-lt (at bytes (i / 8)) (i % 8))

abbrev single_bit : ℕ → ℕ → Bool
single_bit k i = bit (u8 (1 <<< k)) i == flag (i == k)

single_bit_table : all_below 8 (λ k. all_below 8 (single_bit k)) ≡ true
single_bit_table = refl

bit-single : (k i : ℕ) → k < 8 → i < 8 → bit (u8 (1 <<< k)) i ≡ flag (i == k)
bit-single k i hk hi = (==_iff (bit (u8 (1 <<< k)) i) (flag (i == k))).0 (
    all_below_sound 8 (single_bit k) i
      (all_below_sound 8 (λ m. all_below 8 (single_bit m)) k single_bit_table hk) hi)

-- A byte after one of its bits is set.
bit-set_bit :
    (x k i : ℕ)
    → k < 8
    → i < 8
    → bit (u8 (bit_or x (u8 (1 <<< k)))) i ≡ max (bit x i) (flag (i == k))
bit-set_bit x k i hk hi =
    bit-mod 8 i (bit_or x (u8 (1 <<< k))) hi
    ∙ bit-bit_or x (u8 (1 <<< k)) i
    ∙ ap (max (bit x i)) (bit-single k i hk hi)

-- The byte that a write leaves.
abbrev written : Bytes → ℕ → ℕ
written bytes pos = u8 (bit_or (at bytes (pos / 8)) (u8 (1 <<< (pos % 8))))

set_packed_bit_even : (bytes : Bytes) (pos b : ℕ) → b % 2 ≡ 0 → set_packed_bit bytes pos b ≡ bytes
unfolding set_packed_bit
set_packed_bit_even bytes pos b e = ground (arith, and-one b)

set_packed_bit_odd :
    (bytes : Bytes) (pos b : ℕ)
    → b % 2 ≡ 1
    → set_packed_bit bytes pos b ≡ set bytes (pos / 8) (written bytes pos)
unfolding set_packed_bit
set_packed_bit_odd bytes pos b e = ground (arith, and-one b)

-- The bits of the byte that is written.
same_byte :
    (bytes : Bytes) (pos i : ℕ)
    → pos < 8 * length bytes
    → i / 8 ≡ pos / 8
    → bit (at (set bytes (pos / 8) (written bytes pos)) (i / 8)) (i % 8)
      ≡ max (get_packed_bit bytes i) (flag (i % 8 == pos % 8))
same_byte bytes pos i h e =
    ap (λ t. bit (at (set bytes (pos / 8) (written bytes pos)) t) (i % 8)) e
    ∙ ap (λ t. bit t (i % 8)) (get_or-set_self bytes (pos / 8) (written bytes pos) 0 (omega arith))
    ∙ bit-set_bit (at bytes (pos / 8)) (pos % 8) (i % 8) (omega arith) (omega arith)
    ∙ ap (λ t. max t (flag (i % 8 == pos % 8)))
        (ap (λ t. bit (at bytes t) (i % 8)) (sym e) ∙ sym (get_packed_bit_lem bytes i))

other_byte :
    (bytes : Bytes) (pos i : ℕ)
    → i / 8 ≢ pos / 8
    → bit (at (set bytes (pos / 8) (written bytes pos)) (i / 8)) (i % 8) ≡ get_packed_bit bytes i
other_byte bytes pos i ne =
    ap (λ t. bit t (i % 8))
      (get_or-set_ne bytes (pos / 8) (i / 8) (written bytes pos) 0 (λ e. ne (sym e)))
    ∙ sym (get_packed_bit_lem bytes i)

-- The value of a bit after another bit, or itself, is set.
abbrev pub after_set : Bytes → ℕ → ℕ → ℕ → ℕ
after_set bytes pos b i =
    if i == pos then max (get_packed_bit bytes i) (b % 2) else get_packed_bit bytes i

get-set_odd :
    (bytes : Bytes) (pos b i : ℕ)
    → pos < 8 * length bytes
    → b % 2 ≡ 1
    → get_packed_bit (set bytes (pos / 8) (written bytes pos)) i ≡ after_set bytes pos b i
get-set_odd bytes pos b i h odd = elim (ℕ_discrete (i / 8) (pos / 8)) [
  | yes e ↦ ground (
    arith,
    get_packed_bit_lem (set bytes (pos / 8) (written bytes pos)) i,
    same_byte bytes pos i h e,
    get_packed_bit-lt bytes i,
  )
  | no ne ↦ ground (
    arith,
    get_packed_bit_lem (set bytes (pos / 8) (written bytes pos)) i,
    other_byte bytes pos i ne,
  )
]

-- Setting a bit within the array turns that bit on if the value is odd, and leaves the others.
pub get_packed_bit-set_packed_bit :
    (bytes : Bytes) (pos b i : ℕ)
    → pos < 8 * length bytes
    → get_packed_bit (set_packed_bit bytes pos b) i ≡ after_set bytes pos b i
get_packed_bit-set_packed_bit bytes pos b i h = elim (ℕ_discrete (b % 2) 0) [
  | yes even ↦ ground (arith, set_packed_bit_even bytes pos b even)
  | no odd ↦
      let one : b % 2 ≡ 1 = omega arith in
      ap (λ t. get_packed_bit t i) (set_packed_bit_odd bytes pos b one)
      ∙ get-set_odd bytes pos b i h one
]

pub length-set_packed_bit :
    (bytes : Bytes) (pos b : ℕ) → length (set_packed_bit bytes pos b) ≡ length bytes
unfolding set_packed_bit
length-set_packed_bit bytes pos b =
    ground
      (arith, length-set bytes (pos / 8) (u8 (bit_or (at bytes (pos / 8)) (u8 (1 <<< (pos % 8))))))

pub length-write_bits :
    (left i : ℕ) (f : ℕ → ℕ) (dst : Bytes) → length (write_bits left i f dst) ≡ length dst
unfolding write_bits
length-write_bits zero i f dst = refl
length-write_bits (suc left) i f dst =
    length-write_bits left (i + 1) f (set_packed_bit dst i (f i))
    ∙ length-set_packed_bit dst i (f i)

-- The loop leaves the bits outside its range alone.
pub write_bits_outside :
    (left i : ℕ) (f : ℕ → ℕ) (dst : Bytes) (j : ℕ)
    → i + left ≤ 8 * length dst
    → (j < i) ⊎ (i + left ≤ j)
    → get_packed_bit (write_bits left i f dst) j ≡ get_packed_bit dst j
unfolding write_bits
write_bits_outside zero i f dst j fits out = refl
write_bits_outside (suc left) i f dst j fits out =
    write_bits_outside left (i + 1) f (set_packed_bit dst i (f i)) j
      (omega (arith, length-set_packed_bit dst i (f i))) (ground arith)
    ∙ ground (arith, get_packed_bit-set_packed_bit dst i (f i) j)

-- Over bits that are clear it writes the values of the function.
pub write_bits_inside :
    (left i : ℕ) (f : ℕ → ℕ) (dst : Bytes) (j : ℕ)
    → i + left ≤ 8 * length dst
    → ((k : ℕ) → i ≤ k → k < i + left → get_packed_bit dst k ≡ 0)
    → i ≤ j
    → j < i + left
    → get_packed_bit (write_bits left i f dst) j ≡ f j % 2
unfolding write_bits
write_bits_inside zero i f dst j fits clear p q = absurd (omega arith)
write_bits_inside (suc left) i f dst j fits clear p q =
    let size = length-set_packed_bit dst i (f i) in
    let rest =
      write_bits_inside left (i + 1) f (set_packed_bit dst i (f i)) j (omega (arith, size))
        λ k lo hi. ground (arith, get_packed_bit-set_packed_bit dst i (f i) k, clear k) in
    elim (ℕ_discrete i j) [
      | yes e ↦
          write_bits_outside left (i + 1) f (set_packed_bit dst i (f i)) j (omega (arith, size))
            (inl (omega arith))
          ∙ ground (arith, get_packed_bit-set_packed_bit dst i (f i) j, clear j)
      | no ne ↦ rest (omega arith) (omega arith)
    ]

at-replicate : (m k : ℕ) (ys : Bytes) → k < m → at (replicate m 0 ++ ys) k ≡ 0
at-replicate zero k ys h = absurd (omega arith)
at-replicate (suc m) zero ys h = refl
at-replicate (suc m) (suc k) ys h = at-replicate m k ys (omega arith)

-- The bits of the cleared bytes are clear.
pub get_packed_bit-memset_zero :
    (dst : Bytes) (n i : ℕ) → i < 8 * n → get_packed_bit (memset_zero dst n) i ≡ 0
get_packed_bit-memset_zero dst n i h =
    get_packed_bit_lem (memset_zero dst n) i
    ∙ ap (λ t. bit t (i % 8)) (at-memset_zero n (i / 8) (omega arith))
    ∙ bit-zero (i % 8)
  where
    at-memset_zero : (m k : ℕ) → k < m → at (memset_zero dst m) k ≡ 0
    at-memset_zero m k lt = at-replicate m k (drop m dst) lt

pub length-memset_zero :
    (dst : Bytes) (n : ℕ) → n ≤ length dst → length (memset_zero dst n) ≡ length dst
length-memset_zero dst n h = omega (
  arith,
  length-append (replicate n 0) (drop n dst),
  length-replicate {A = ℕ} n 0,
  length-drop n dst,
)

-- A loop that fills a cleared array from its start.
pub write_fresh :
    (n : ℕ) (f : ℕ → ℕ) (dst : Bytes) (j : ℕ)
    → (n + 7) / 8 ≤ length dst
    → j < n
    → get_packed_bit (write_bits n 0 f (memset_zero dst ((n + 7) / 8))) j ≡ f j % 2
write_fresh n f dst j fits h =
    write_bits_inside n 0 f (memset_zero dst ((n + 7) / 8)) j
      (omega (arith, length-memset_zero dst ((n + 7) / 8) fits))
      (λ k p q. get_packed_bit-memset_zero dst ((n + 7) / 8) k (omega arith)) (omega arith)
      (omega arith)

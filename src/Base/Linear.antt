-- ===== src/Base/Linear.antt =====
-- Maps of bit strings that respect exclusive or. Two of them that agree on the powers of two agree.
use Prim.Native.Nat.{ℕ, zero, suc, ◌-◌, ◌^◌, ◌<◌, bit_xor}
use mathlib.Core.Path.{◌≡◌, refl, sym, ap, ◌∙◌}
use mathlib.Core.Bool.{true}
use native.Mathlib.Nat.{pow-suc}
use native.Mathlib.Decide.{dec_lt}
use native.Mathlib.Omega.{arith}
use supertooth.Base.Tests.{◌==◌, if◌then◌else◌, all_below, all_below_sound, ==_iff}
use supertooth.Base.Xor.{
  xor_cong, xor_self, xor-zero, xor_top, eq_of_xor, xor_swap, xor_assoc, xor_comm,
}

abbrev pub IsLinear : (ℕ → ℕ) → Type 0
IsLinear f = (a b : ℕ) → f (bit_xor a b) ≡ bit_xor (f a) (f b)

pub linear-zero : (f : ℕ → ℕ) → IsLinear f → f 0 ≡ 0
linear-zero f lin = lin 0 0 ∙ xor_self (f 0)

-- Equal on the powers of two below `2 ^ n`, hence on every number below `2 ^ n`.
pub linear_ext :
    (f g : ℕ → ℕ)
    → IsLinear f
    → IsLinear g
    → (n : ℕ) → ((k : ℕ) → k < n → f (2 ^ k) ≡ g (2 ^ k))
    → (x : ℕ) → x < 2 ^ n
    → f x ≡ g x
linear_ext f g lf lg zero basis x h =
    let e : x ≡ 0 = omega arith in rw e (linear-zero f lf ∙ sym (linear-zero g lg))
linear_ext f g lf lg (suc n) basis x h = elim (dec_lt x (2 ^ n)) [
  | yes p ↦ linear_ext f g lf lg n (λ k q. basis k (omega arith)) x p
  | no p ↦
      let low : x - 2 ^ n < 2 ^ n = omega (arith, pow-suc 2 n) in
      let e : x ≡ bit_xor (x - 2 ^ n) (2 ^ n) = omega (arith, xor_top n (x - 2 ^ n) low) in
      let rest = linear_ext f g lf lg n (λ k q. basis k (omega arith)) (x - 2 ^ n) low in
      let here = basis n (omega arith) in
      ap f e
      ∙ lf (x - 2 ^ n) (2 ^ n)
      ∙ xor_cong _ _ _ _ rest here
      ∙ sym (lg (x - 2 ^ n) (2 ^ n))
      ∙ sym (ap g e)
]

-- The same with the powers of two checked by evaluation.
pub linear_ext_checked :
    (f g : ℕ → ℕ)
    → IsLinear f
    → IsLinear g
    → (n : ℕ) → all_below n (λ k. f (2 ^ k) == g (2 ^ k)) ≡ true
    → (x : ℕ) → x < 2 ^ n
    → f x ≡ g x
linear_ext_checked f g lf lg n checked = linear_ext f g lf lg n λ k h.
    (==_iff (f (2 ^ k)) (g (2 ^ k))).0 (all_below_sound n (λ j. f (2 ^ j) == g (2 ^ j)) k checked h)

-- A linear map that sends only 0 to 0 is injective on the words of a width.
pub linear_injective :
    (f : ℕ → ℕ)
    → IsLinear f
    → (P : ℕ → Type 0) → ((a b : ℕ) → P a → P b → P (bit_xor a b))
    → ((a : ℕ) → P a → f a ≡ 0 → a ≡ 0)
    → (a b : ℕ) → P a
    → P b
    → f a ≡ f b
    → a ≡ b
linear_injective f lin P closed kernel a b pa pb e =
    eq_of_xor a b
      (kernel (bit_xor a b) (closed a b pa pb) (lin a b ∙ xor_cong _ _ _ _ e refl ∙ xor_self (f b)))

-- `if (f) c ^= p;`
abbrev pub xor_if : ℕ → ℕ → ℕ → ℕ
xor_if p f c = if f == 0 then c else bit_xor c p

-- It is linear in the flag and the word together.
pub xor_if-xor :
    (p f g c d : ℕ)
    → f < 2
    → g < 2
    → xor_if p (bit_xor f g) (bit_xor c d) ≡ bit_xor (xor_if p f c) (xor_if p g d)
xor_if-xor p zero zero c d hf hg = refl
xor_if-xor p zero (suc zero) c d hf hg = xor_assoc c d p
xor_if-xor p (suc zero) zero c d hf hg =
    xor_assoc c d p ∙ ap (bit_xor c) (xor_comm d p) ∙ sym (xor_assoc c p d)
xor_if-xor p (suc zero) (suc zero) c d hf hg =
    sym (xor_swap c p d p ∙ xor_cong _ _ _ _ refl (xor_self p) ∙ xor-zero (bit_xor c d))
xor_if-xor p (suc (suc f)) g c d hf hg = absurd (omega arith)
xor_if-xor p zero (suc (suc g)) c d hf hg = absurd (omega arith)
xor_if-xor p (suc zero) (suc (suc g)) c d hf hg = absurd (omega arith)

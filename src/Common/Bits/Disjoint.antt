-- ===== src/Common/Bits/Disjoint.antt =====
-- `v |= b << shift` adds where the bits of `v` end below the shift.
use Prim.Native.Nat.{
  ℕ, zero, suc, ◌+◌, ◌*◌, ◌/◌, ◌%◌, ◌^◌, ◌≤◌, ◌<◌, max, digits, bit_or, bit_or-bitwise,
}
use mathlib.Core.Path.{◌≡◌, refl, ap, ◌∙◌}
use native.Mathlib.Omega.{arith, pow_step}

-- What the native operation stands for: a recursion on binary digits with fuel.
abbrev or_digits : ℕ → ℕ → ℕ → ℕ
or_digits fuel a b = digits (λ rest. rest) max fuel a b

or_digits_step :
    (fuel a b : ℕ)
    → or_digits (suc fuel) (suc a) b
      ≡ or_digits fuel (suc a / 2) (b / 2) * 2 + max (suc a % 2) (b % 2)
or_digits_step fuel a b = refl

or_digits_zero : (fuel b : ℕ) → or_digits fuel 0 b ≡ b
or_digits_zero zero b = refl
or_digits_zero (suc fuel) b = refl

max_zero : (x : ℕ) → x < 2 → max x 0 ≡ x
max_zero zero h = refl
max_zero (suc zero) h = refl
max_zero (suc (suc x)) h = absurd (omega arith)

doubled : (b s : ℕ) → b * 2 ^ suc s ≡ 2 * (b * 2 ^ s)
doubled b s = ap (λ p. b * p) (pow_step 2 s) ∙ swap b (2 ^ s)
  where
    swap : (x p : ℕ) → x * (2 * p) ≡ 2 * (x * p)
    swap x p = omega arith

double_half : (x : ℕ) → 2 * x / 2 ≡ x
double_half x = omega arith

double_even : (x : ℕ) → 2 * x % 2 ≡ 0
double_even x = omega arith

halves : (x p : ℕ) → x < 2 * p → x / 2 < p
halves x p h = omega arith

regroup : (x y : ℕ) → (x / 2 + y) * 2 + x % 2 ≡ x + 2 * y
regroup x y = omega arith

-- With enough fuel, the digits of `a` and of a multiple of a power of two above it are those of the sum.
or_digits_disjoint :
    (fuel s a b : ℕ) → a ≤ fuel → a < 2 ^ s → or_digits fuel a (b * 2 ^ s) ≡ a + b * 2 ^ s
or_digits_disjoint fuel s zero b h l = or_digits_zero fuel (b * 2 ^ s) ∙ omega arith
or_digits_disjoint zero s (suc a) b h l = absurd (omega arith)
or_digits_disjoint (suc fuel) zero (suc a) b h l = absurd (omega arith)
or_digits_disjoint (suc fuel) (suc s) (suc a) b h l =
    let half =
      or_digits_disjoint fuel s (suc a / 2) b (omega arith)
        (halves (suc a) (2 ^ s) (rw (pow_step 2 s) at l)) in
    rw (doubled b s, double_half (b * 2 ^ s), double_even (b * 2 ^ s))
      (ap (λ r. r * 2 + max (suc a % 2) 0) half
        ∙ ap (λ r. (suc a / 2 + b * 2 ^ s) * 2 + r) (max_zero (suc a % 2) (omega arith))
        ∙ regroup (suc a) (b * 2 ^ s))

-- `v |= b << s` is an addition where v < 2 ^ s.
pub bit_or-shifted : (v b s : ℕ) → v < 2 ^ s → bit_or v (b * 2 ^ s) ≡ v + b * 2 ^ s
bit_or-shifted v b s l = bit_or-bitwise v (b * 2 ^ s) ∙ or_digits_disjoint v s v b (omega arith) l

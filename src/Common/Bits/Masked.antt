-- ===== src/Common/Bits/Masked.antt =====
-- `number & 0x7F` is a remainder, of a number of any width.
use Prim.Native.Nat.{
  ℕ, zero, suc, ◌+◌, ◌*◌, ◌/◌, ◌%◌, ◌≤◌, ◌<◌, min, digits, bit_and, bit_and-bitwise,
}
use mathlib.Core.Path.{◌≡◌, refl, ap, sym, ◌∙◌}
use native.Mathlib.Nat.{zero-mod}
use native.Mathlib.Omega.{arith}

abbrev and_digits : ℕ → ℕ → ℕ → ℕ
and_digits fuel a m = digits (λ rest. zero) min fuel a m

abbrev Masks : ℕ → ℕ → Type 0
Masks m p = (fuel a : ℕ) → a ≤ fuel → and_digits fuel a m ≡ a % p

min_one : (x : ℕ) → x < 2 → min x 1 ≡ x
min_one zero h = refl
min_one (suc zero) h = refl
min_one (suc (suc x)) h = absurd (omega arith)

min_zero : (x : ℕ) → min x 0 ≡ 0
min_zero zero = refl
min_zero (suc x) = omega arith

mask_zero : Masks 0 1
mask_zero zero zero h = refl
mask_zero zero (suc a) h = absurd (omega arith)
mask_zero (suc fuel) zero h = refl
mask_zero (suc fuel) (suc a) h =
    ap (λ r. r * 2 + min (suc a % 2) 0) (mask_zero fuel (suc a / 2) (omega arith))
    ∙ ap (λ r. suc a / 2 % 1 * 2 + r) (min_zero (suc a % 2))
    ∙ omega arith

-- One more digit in the mask.
mask_next :
    (m p : ℕ)
    → ((x : ℕ) → x / 2 % p * 2 + x % 2 ≡ x % (2 * p))
    → Masks m p
    → Masks (2 * m + 1) (2 * p)
mask_next m p split h zero zero l = sym (zero-mod (2 * p))
mask_next m p split h zero (suc a) l = absurd (omega arith)
mask_next m p split h (suc fuel) zero l = sym (zero-mod (2 * p))
mask_next m p split h (suc fuel) (suc a) l =
    rw (half m, odd m)
      (ap (λ r. r * 2 + min (suc a % 2) 1) (h fuel (suc a / 2) (omega arith))
        ∙ ap (λ r. suc a / 2 % p * 2 + r) (min_one (suc a % 2) (omega arith))
        ∙ split (suc a))
  where
    half : (k : ℕ) → (2 * k + 1) / 2 ≡ k
    half k = omega arith

    odd : (k : ℕ) → (2 * k + 1) % 2 ≡ 1
    odd k = omega arith

mask_127 : Masks 127 128
mask_127 =
    mask_next 63 64 (λ x. omega arith)
      (mask_next 31 32 (λ x. omega arith)
        (mask_next 15 16 (λ x. omega arith)
          (mask_next 7 8 (λ x. omega arith)
            (mask_next 3 4 (λ x. omega arith)
              (mask_next 1 2 (λ x. omega arith) (mask_next 0 1 (λ x. omega arith) mask_zero))))))

pub bit_and-0x7f : (a : ℕ) → bit_and a 0x7f ≡ a % 128
bit_and-0x7f a = bit_and-bitwise a 0x7f ∙ mask_127 a a (omega arith)

-- ===== src/Print/Signed/Magnitude.antt =====
-- What bigint_to_str of app/src/parser_print_common.c takes for the magnitude of an amount.
use ledger_namada.Common.{
  ℕ, zero, suc, ◌+◌, ◌-◌, ◌*◌, ◌%◌, ◌^◌, ◌≤◌, ◌<◌, ◌≡◌, refl, arith, Bool, true, false, List, [],
  ◌∷◌, length, All, ltb, ◌==◌, if◌then◌else◌, Bool-cases, inl, inr,
}
use ledger_namada.Print.Signed.{sign_bit, complement, absolute}

abbrev pub IsByte : ℕ → Type 0
IsByte x = x < 256

-- The number of bytes from low to high.
abbrev pub value_of : List ℕ → ℕ
value_of [] = 0
value_of (x ∷ xs) = x + 256 * value_of xs

-- Without a carry the complement of each byte; with one, the number up to the power behind it.
value_of-complement_0 :
    (xs : List ℕ) → All IsByte xs → value_of (complement 0 xs) + value_of xs + 1 ≡ 256 ^ length xs
unfolding complement
value_of-complement_0 [] h = refl
value_of-complement_0 (x ∷ xs) (hx, hs) = grind (arith, value_of-complement_0 xs hs)

value_of-complement_1 :
    (xs : List ℕ)
    → All IsByte xs
    → 1 ≤ value_of xs
    → value_of (complement 1 xs) + value_of xs ≡ 256 ^ length xs
unfolding complement
value_of-complement_1 [] h l = absurd (omega arith)
value_of-complement_1 (zero ∷ xs) (hx, hs) l =
    grind (arith, value_of-complement_1 xs hs (omega arith))
value_of-complement_1 (suc x ∷ xs) (hx, hs) l =
    rw (low x hx, nonzero x hx) (grind (arith, value_of-complement_0 xs hs))
  where
    low : (x : ℕ) → suc x < 256 → (255 - suc x + 1) % 256 ≡ 255 - x
    low x h = omega arith

    nonzero : (x : ℕ) → suc x < 256 → (255 - x == 0) ≡ false
    nonzero x h = ground arith

-- A number with its sign bit is at least half of the power.
sign_bit-half :
    (xs : List ℕ) → All IsByte xs → sign_bit xs ≡ true → 256 ^ length xs ≤ 2 * value_of xs
unfolding sign_bit
sign_bit-half [] h e = absurd cc
sign_bit-half (x ∷ []) (hx, hs) e = ground arith
sign_bit-half (x ∷ y ∷ ys) (hx, hs) e = grind (arith, sign_bit-half (y ∷ ys) hs e)

no_sign_bit :
    (xs : List ℕ) → All IsByte xs → sign_bit xs ≡ false → 2 * value_of xs < 256 ^ length xs
unfolding sign_bit
no_sign_bit [] h e = omega arith
no_sign_bit (x ∷ []) (hx, hs) e = ground arith
no_sign_bit (x ∷ y ∷ ys) (hx, hs) e = grind (arith, no_sign_bit (y ∷ ys) hs e)

-- The sign and the magnitude of a two's complement number.
abbrev pub signed_value : List ℕ → Bool × ℕ
signed_value xs =
    if ltb (2 * value_of xs) (256 ^ length xs)
    then (false, value_of xs)
    else (true, 256 ^ length xs - value_of xs)

-- For bytes read as a two's complement number, bigint_to_str takes the sign for the sign and the
-- magnitude for the bytes it prints: of a negative number what is missing to the power behind it.
pub absolute-signed_value :
    (xs : List ℕ)
    → All IsByte xs
    → ((absolute true xs).0 ≡ (signed_value xs).0)
      × (value_of (absolute true xs).1 ≡ (signed_value xs).1)
unfolding absolute
absolute-signed_value xs h = elim (Bool-cases (sign_bit xs)) [
  | inl e ↦
      let half = sign_bit-half xs h e in
      rw (e, above (256 ^ length xs) (value_of xs) half)
        (
          refl,
          taken (256 ^ length xs) (value_of xs) (value_of-complement_1 xs h (positive xs half)),
        )
  | inr e ↦ rw (e, under (256 ^ length xs) (value_of xs) (no_sign_bit xs h e)) (refl, refl)
]
  where
    above : (p v : ℕ) → p ≤ 2 * v → ltb (2 * v) p ≡ false
    above p v l = ground arith

    under : (p v : ℕ) → 2 * v < p → ltb (2 * v) p ≡ true
    under p v l = ground arith

    taken : {m : ℕ} (p v : ℕ) → m + v ≡ p → m ≡ p - v
    taken p v e = omega arith

    power : (n : ℕ) → 1 ≤ 256 ^ n
    power zero = omega arith
    power (suc n) = omega (arith, power n)

    positive : (xs : List ℕ) → 256 ^ length xs ≤ 2 * value_of xs → 1 ≤ value_of xs
    positive xs l = omega (arith, power (length xs))

-- ===== src/Leb128/Groups.antt =====
-- The groups of seven bits that encodeLEB128 of app/src/leb128.c writes.
use native.Mathlib.Omega.{pow_step}
use ledger_namada.Common.{
  ℕ, zero, suc, ◌+◌, ◌*◌, ◌/◌, ◌%◌, ◌^◌, ◌≤◌, ◌<◌, ◌≡◌, refl, ◌∙◌, ap, arith, true, false, List, [],
  ◌∷◌, ◌++◌, length, length-append, leb, ◌==◌, Bool-cases, if◌then◌else◌, inl, inr,
}
use ledger_namada.Common.Bits.{set_top_bit}
use ledger_namada.Common.Bits.Masked.{bit_and-0x7f}
use ledger_namada.Leb128.{encoded, encode_loop}

-- The groups of seven bits, lowest first, and the top bit on all but the last.
abbrev pub groups : ℕ → ℕ → List ℕ
groups zero n = []
groups (suc fuel) n =
    let rest = groups fuel (n / 128) in
    if n / 128 == 0 then (n % 128) ∷ [] else (n % 128 + 128) ∷ rest

abbrev pub nth : List ℕ → ℕ → ℕ
nth [] i = 0
nth (x ∷ xs) zero = x
nth (x ∷ xs) (suc i) = nth xs i

pub length-groups : (fuel n : ℕ) → length (groups fuel n) ≤ fuel
length-groups zero n = omega arith
length-groups (suc fuel) n = elim (Bool-cases (n / 128 == 0)) [
  | inl e ↦ rw e (omega arith)
  | inr e ↦ rw e (omega (arith, length-groups fuel (n / 128)))
]

pub append_assoc : (xs ys zs : List ℕ) → (xs ++ ys) ++ zs ≡ xs ++ (ys ++ zs)
append_assoc [] ys zs = refl
append_assoc (x ∷ xs) ys zs = ap (λ r. x ∷ r) (append_assoc xs ys zs)

room : (len x f : ℕ) → x + suc f ≤ len → leb len x ≡ false
room len x f h = ground arith

pub last_group : (q : ℕ) → q < 1 → (q == 0) ≡ true
last_group q h = ground arith

pub quotient : (x p : ℕ) → x < 128 * p → x / 128 < p
quotient x p h = omega arith

pub encode_loop_lem :
    (fuel n len : ℕ) (out : List ℕ)
    → n < 128 ^ suc fuel
    → length out + suc fuel ≤ len
    → encode_loop (suc fuel) len n out ≡ encoded (out ++ groups (suc fuel) n)
unfolding encode_loop
encode_loop_lem zero n len out h l =
    rw (room len (length out) 0 l, last_group (n / 128) (omega arith), bit_and-0x7f n) refl
encode_loop_lem (suc fuel) n len out h l = elim (Bool-cases (n / 128 == 0)) [
  | inl e ↦ rw (room len (length out) (suc fuel) l, e, bit_and-0x7f n) refl
  | inr e ↦
      rw
        (room len (length out) (suc fuel) l, e, bit_and-0x7f n, set_top_bit (n % 128) (omega arith))
        (encode_loop_lem fuel (n / 128) len (out ++ (n % 128 + 128) ∷ [])
            (quotient n (128 ^ suc fuel) (rw (pow_step 128 (suc fuel)) at h))
            (rw (length-append out ((n % 128 + 128) ∷ [])) (omega arith))
          ∙ ap encoded (append_assoc out ((n % 128 + 128) ∷ []) (groups (suc fuel) (n / 128))))
]

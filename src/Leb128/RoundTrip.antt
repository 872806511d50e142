-- ===== src/Leb128/RoundTrip.antt =====
-- decodeLEB128 of app/src/leb128.c on what encodeLEB128 writes.
use Prim.Native.Nat.{bit_or}
use native.Mathlib.Omega.{pow_step}
use mathlib.Core.Path.{ap₂}
use ledger_namada.Common.{
  ℕ, zero, suc, ◌+◌, ◌*◌, ◌/◌, ◌%◌, ◌^◌, ◌≤◌, ◌<◌, ◌≡◌, refl, ◌∙◌, ap, arith, true, false, ◌&&◌,
  List, [], ◌∷◌, ◌++◌, length, length-append, leb, ltb, ◌==◌, Bool-cases, inl, inr,
}
use ledger_namada.Common.Bits.{top_bit}
use ledger_namada.Common.Bits.Disjoint.{bit_or-shifted}
use ledger_namada.Common.Bits.Masked.{bit_and-0x7f}
use ledger_namada.Leb128.{encoded, encode_leb128, decoded, decode_loop, decode_leb128}
use ledger_namada.Leb128.Groups.{
  groups, nth, length-groups, append_assoc, last_group, quotient, encode_loop_lem,
}

-- A tenth group is at most 1.
no_overflow : (s b n : ℕ) → s ≤ 63 → b ≤ n → n * 2 ^ s < 2 ^ 64 → (leb 63 s && ltb 1 b) ≡ false
no_overflow s b n h l o = elim (Bool-cases (leb 63 s)) [
  | inl e ↦ rw (e, small (rw (top e) at o)) refl
  | inr e ↦ rw e refl
]
  where
    top : leb 63 s ≡ true → s ≡ 63
    top e = ground arith

    small : n * 2 ^ 63 < 2 ^ 64 → ltb 1 b ≡ false
    small g = ground arith

-- One round on the group `b` of `n`.
module _ (s v n : ℕ) (low : v < 2 ^ s) (fits : v + n * 2 ^ s < 2 ^ 64) where
  whole : (b : ℕ) → b ≤ n → (b * 2 ^ s) % 2 ^ 64 ≡ b * 2 ^ s
  whole b h = mod_lt (b * 2 ^ s) (omega (arith, scaled b n (2 ^ s) h))
    where
      scaled : (x y p : ℕ) → x ≤ y → x * p ≤ y * p
      scaled x y p g = grind arith

      mod_lt : (x : ℕ) → x < 2 ^ 64 → x % 2 ^ 64 ≡ x
      mod_lt x g = omega arith

  combined : (b : ℕ) → b ≤ n → bit_or v ((b * 2 ^ s) % 2 ^ 64) ≡ v + b * 2 ^ s
  combined b h = rw (whole b h) (bit_or-shifted v b s low)

  module _ (input : ℕ → ℕ) (size fuel i b : ℕ) (inside : i < size) (short : s ≤ 63) (b_le : b ≤ n)
      (b_lt : b < 128) where
    o : n * 2 ^ s < 2 ^ 64
    o = omega (arith, fits)

    here : leb size i ≡ false
    here = ground arith

    stop_round :
        input i ≡ b → decode_loop input size (suc fuel) i s v ≡ decoded (i + 1) (v + b * 2 ^ s)
    unfolding decode_loop
    stop_round e =
        rw
          (
            here,
            e,
            top_bit b (omega arith),
            bit_and-0x7f b,
            low_part,
            clear,
            no_overflow s b n short b_le o,
            combined b b_le,
          )
          refl
      where
        low_part : b % 128 ≡ b
        low_part = omega arith

        clear : (b / 128 * 128 == 0) ≡ true
        clear = ground arith

    go_round :
        input i ≡ b + 128
        → decode_loop input size (suc fuel) i s v
          ≡ decode_loop input size fuel (i + 1) (s + 7) (v + b * 2 ^ s)
    unfolding decode_loop
    go_round e =
        rw
          (
            here,
            e,
            top_bit (b + 128) (omega arith),
            bit_and-0x7f (b + 128),
            low_part,
            marked,
            no_overflow s b n short b_le o,
            combined b b_le,
          )
          refl
      where
        low_part : (b + 128) % 128 ≡ b
        low_part = omega arith

        marked : ((b + 128) / 128 * 128 == 0) ≡ false
        marked = ground arith

-- The input has the bytes `xs` from the index i.
abbrev Shows : (ℕ → ℕ) → ℕ → List ℕ → Type 0
Shows input i [] = Unit
Shows input i (x ∷ xs) = (input i ≡ x) × Shows input (i + 1) xs

power_step : (s : ℕ) → 2 ^ (s + 7) ≡ 128 * 2 ^ s
power_step s = omega (
  arith,
  two_step s (1 + s) (omega arith),
  two_step (1 + s) (2 + s) (omega arith),
  two_step (2 + s) (3 + s) (omega arith),
  two_step (3 + s) (4 + s) (omega arith),
  two_step (4 + s) (5 + s) (omega arith),
  two_step (5 + s) (6 + s) (omega arith),
  two_step (6 + s) (s + 7) (omega arith),
)
  where
    two_step : (k j : ℕ) → j ≡ suc k → 2 ^ j ≡ 2 * 2 ^ k
    two_step k j e = rw e (pow_step 2 k)

recompose : (n p : ℕ) → n % 128 * p + n / 128 * (128 * p) ≡ n * p
recompose n p = sum (n % 128) (n / 128) ∙ ap (λ x. x * p) (whole n)
  where
    sum : (r q : ℕ) → r * p + q * (128 * p) ≡ (r + 128 * q) * p
    sum r q = grind arith

    whole : (x : ℕ) → x % 128 + 128 * (x / 128) ≡ x
    whole x = omega arith

groups_last : (fuel n : ℕ) → (n / 128 == 0) ≡ true → groups (suc fuel) n ≡ n ∷ []
groups_last fuel n e = rw e (ap (λ x. x ∷ []) (small n e))
  where
    small : (x : ℕ) → (x / 128 == 0) ≡ true → x % 128 ≡ x
    small x g = ground arith

groups_more :
    (fuel n : ℕ)
    → (n / 128 == 0) ≡ false
    → groups (suc fuel) n ≡ (n % 128 + 128) ∷ groups fuel (n / 128)
groups_more fuel n e = rw e refl

==_small : (x : ℕ) → (x / 128 == 0) ≡ true → x < 128
==_small x g = ground arith

module _ (input : ℕ → ℕ) (size fuel i s v n : ℕ) (short : s ≤ 63) (low : v < 2 ^ s)
    (fits : v + n * 2 ^ s < 2 ^ 64) where
  last_round :
      (n / 128 == 0) ≡ true
      → Shows input i (groups (suc fuel) n)
      → i + length (groups (suc fuel) n) ≤ size
      → decode_loop input size (suc fuel) i s v
        ≡ decoded (i + length (groups (suc fuel) n)) (v + n * 2 ^ s)
  last_round e at l =
      let g = groups_last fuel n e in
      rw g (
        stop_round s v n low fits input size fuel i n (inside (rw g at l)) short (omega arith)
          (==_small n e) (rw g at at).0)
    where
      inside : i + length (n ∷ []) ≤ size → i < size
      inside h = omega arith

decode_loop_lem :
    (input : ℕ → ℕ) (size fuel i s v n : ℕ)
    → s + 7 * suc fuel ≤ 70
    → n < 128 ^ suc fuel
    → v < 2 ^ s
    → v + n * 2 ^ s < 2 ^ 64
    → Shows input i (groups (suc fuel) n)
    → i + length (groups (suc fuel) n) ≤ size
    → decode_loop input size (suc fuel) i s v
      ≡ decoded (i + length (groups (suc fuel) n)) (v + n * 2 ^ s)
decode_loop_lem input size zero i s v n r h low fits at l =
    last_round input size zero i s v n (omega arith) low fits (last_group (n / 128) (omega arith))
      at l
decode_loop_lem input size (suc fuel) i s v n r h low fits at l = elim (Bool-cases (n / 128 == 0)) [
  | inl e ↦ last_round input size (suc fuel) i s v n (omega arith) low fits e at l
  | inr e ↦
      let g = groups_more (suc fuel) n e in
      let q = n / 128 in
      let gs = groups (suc fuel) q in
      rw g (
        go_round s v n low fits input size (suc fuel) i (n % 128) (inside gs (rw g at l))
          (omega arith) (omega arith) (omega arith) (rw g at at).0
        ∙ decode_loop_lem input size fuel (i + 1) (s + 7) (v + n % 128 * 2 ^ s) q (omega arith)
            (quotient n (128 ^ suc fuel) (rw (pow_step 128 (suc fuel)) at h))
            (rw (power_step s) (room_below v (n % 128) (2 ^ s) low (omega arith))) (rw sum fits)
            (rw g at at).1 (rest gs (rw g at l))
        ∙ ap₂ decoded (count gs) sum)
]
  where
    inside : (xs : List ℕ) → i + length ((n % 128 + 128) ∷ xs) ≤ size → i < size
    inside xs k = omega arith

    rest : (xs : List ℕ) → i + length ((n % 128 + 128) ∷ xs) ≤ size → i + 1 + length xs ≤ size
    rest xs k = omega arith

    count : (xs : List ℕ) → i + 1 + length xs ≡ i + length ((n % 128 + 128) ∷ xs)
    count xs = omega arith

    sum : v + n % 128 * 2 ^ s + n / 128 * 2 ^ (s + 7) ≡ v + n * 2 ^ s
    sum = rw (power_step s) (omega (arith, recompose n (2 ^ s)))

    room_below : (x r p : ℕ) → x < p → r < 128 → x + r * p < 128 * p
    room_below x r p a b = omega (arith, rows r p b)
      where
        rows : (y z : ℕ) → y < 128 → y * z + z ≤ 128 * z
        rows y z c = grind arith

-- nth of an appended list shows its parts.
nth-Shows : (pre xs rest : List ℕ) → Shows (nth (pre ++ (xs ++ rest))) (length pre) xs
nth-Shows pre [] rest = tt
nth-Shows pre (x ∷ xs) rest =
    (nth_middle pre x (xs ++ rest), subst2 pre x xs rest (nth-Shows (pre ++ x ∷ []) xs rest))
  where
    nth_middle : (p : List ℕ) (y : ℕ) (zs : List ℕ) → nth (p ++ y ∷ zs) (length p) ≡ y
    nth_middle [] y zs = refl
    nth_middle (z ∷ p) y zs = nth_middle p y zs

    subst2 :
        (p : List ℕ) (y : ℕ) (ys zs : List ℕ)
        → Shows (nth ((p ++ y ∷ []) ++ (ys ++ zs))) (length (p ++ y ∷ [])) ys
        → Shows (nth (p ++ (y ∷ ys ++ zs))) (length p + 1) ys
    subst2 p y ys zs h = rw (append_assoc p (y ∷ []) (ys ++ zs), length-append p (y ∷ [])) at h

-- Every uint64_t is encoded in ten bytes or fewer, and decoding these bytes, with any bytes behind
-- them, gives the number back and consumes exactly the encoding.
pub decode_leb128-encode_leb128 :
    (v : ℕ) (rest : List ℕ)
    → v < 2 ^ 64
    → (bytes : List ℕ) × (encode_leb128 v 10 ≡ encoded bytes)
      × (length bytes ≤ 10)
      × (decode_leb128 (nth (bytes ++ rest)) (length (bytes ++ rest)) ≡ decoded (length bytes) v)
unfolding encode_leb128 decode_leb128
decode_leb128-encode_leb128 v rest h = (
  groups 10 v,
  encode_loop_lem 9 v 10 [] (omega arith) (omega arith),
  length-groups 10 v,
  decode_loop_lem (nth (groups 10 v ++ rest)) (length (groups 10 v ++ rest)) 9 0 0 0 v (omega arith)
        (omega arith) (omega arith) (omega arith) (nth-Shows [] (groups 10 v) rest)
        (rw (length-append (groups 10 v) rest) (omega arith))
      ∙ ap₂ decoded (zero_add (length (groups 10 v))) (times_one v),
)
  where
    zero_add : (x : ℕ) → 0 + x ≡ x
    zero_add x = omega arith

    times_one : (x : ℕ) → 0 + x * 2 ^ 0 ≡ x
    times_one x = omega arith

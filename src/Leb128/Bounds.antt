-- ===== src/Leb128/Bounds.antt =====
-- The bounds of decodeLEB128 of app/src/leb128.c.
use Prim.Native.Nat.{bit_and, bit_or}
use ledger_namada.Common.{
  ℕ, zero, suc, ◌+◌, ◌*◌, ◌%◌, ◌^◌, ◌≤◌, ◌<◌, ◌≡◌, refl, arith, Bool, true, false, ◌&&◌, leb, ltb,
  ◌==◌, if◌then◌else◌, Bool-cases, inl, inr,
}
use ledger_namada.Leb128.{Decoded, decoded, unknown, decode_loop, decode_leb128}

-- Where the answer consumes bytes, they are inside the input, at most `last` of them.
abbrev pub Within : ℕ → ℕ → Decoded → Type 0
Within size last (decoded consumed v) = (consumed ≤ size) × (consumed ≤ last)
Within size last unknown = Unit

Within-if :
    (size last : ℕ) (b : Bool) (x y : Decoded)
    → Within size last x
    → (b ≡ false → Within size last y)
    → Within size last (if b then x else y)
Within-if size last true x y hx hy = hx
Within-if size last false x y hx hy = hy refl

module _ (input other : ℕ → ℕ) (size : ℕ) (same : (i : ℕ) → i < size → input i ≡ other i) where
  decode_loop_same :
      (fuel i s v : ℕ) → decode_loop input size fuel i s v ≡ decode_loop other size fuel i s v
  unfolding decode_loop
  decode_loop_same zero i s v = refl
  decode_loop_same (suc fuel) i s v = elim (Bool-cases (leb size i)) [
    | inl e ↦ rw e refl
    | inr e ↦
        rw (e, same i (ground arith))
          (rw
            (decode_loop_same fuel (i + 1) (s + 7)
              (bit_or v ((bit_and (other i) 0x7f * 2 ^ s) % 2 ^ 64)))
            refl)
  ]

decode_loop-Within :
    (input : ℕ → ℕ) (size fuel i s v : ℕ)
    → Within size (i + fuel) (decode_loop input size fuel i s v)
unfolding decode_loop
decode_loop-Within input size zero i s v = tt
decode_loop-Within input size (suc fuel) i s v =
    Within-if size (i + suc fuel) (leb size i) _ _ tt λ e.
      Within-if size (i + suc fuel) (leb 63 s && ltb 1 (bit_and (input i) 0x7f)) _ _ tt λ _.
        Within-if size (i + suc fuel) (bit_and (input i) 0x80 == 0) _ _ (ground arith, omega arith)
          λ _. rw (shifted i fuel) (decode_loop-Within input size fuel (i + 1) (s + 7) _)
  where
    shifted : (a b : ℕ) → a + suc b ≡ a + 1 + b
    shifted a b = omega arith

-- decodeLEB128 looks at no byte behind the `size` bytes of its input, whatever they are, and where it
-- succeeds it has consumed at most these and at most ten.
pub decode_leb128-Within :
    (input other : ℕ → ℕ) (size : ℕ)
    → ((i : ℕ) → i < size → input i ≡ other i)
    → Within size 10 (decode_leb128 input size)
      × (decode_leb128 input size ≡ decode_leb128 other size)
unfolding decode_leb128
decode_leb128-Within input other size same =
    (decode_loop-Within input size 10 0 0 0, decode_loop_same input other size same 10 0 0 0)

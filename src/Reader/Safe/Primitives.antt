-- ===== src/Reader/Safe/Primitives.antt =====
-- Memory safety of the primitives of app/src/parser_impl_common.c.
use ledger_namada.Common.{
  ℕ, zero, suc, ◌+◌, ◌*◌, ◌%◌, ◌^◌, ◌≤◌, ◌<◌, ◌≡◌, refl, arith, Bool, true, false, List, ◌∷◌,
  if◌then◌else◌, inl, inr, ltb, leb, ◌==◌, Bool-cases,
}
use ledger_namada.Reader.{
  Ctx, ParserError, Reader, ◌>>=◌, fail, load, slice, load_le, skip, get_offset, peek,
  check_and_advance, read_byte, read_uint, read_bytes, expect_end, position,
}
use mathlib.Core.Path.{ap}
use native.Mathlib.Nat.{add_assoc}
use ledger_namada.Reader.Safe.Predicates.{Agree, Safe, Robust}

-- What the buffer shows at its positions.
load-Agree :
    {slack : ℕ} (c : Ctx) (mem : ℕ → ℕ) (i : ℕ)
    → Agree slack c mem
    → i < c.buffer_len + slack
    → load c.mem (c.buffer + i) ≡ load mem (c.buffer + i)
load-Agree c mem i ag l = ap (λ (x : ℕ). x % 256) (ag.same i l)

slice-Agree :
    {slack : ℕ} (c : Ctx) (mem : ℕ → ℕ) (i n : ℕ)
    → Agree slack c mem
    → i + n ≤ c.buffer_len + slack
    → slice c.mem (c.buffer + i) n ≡ slice mem (c.buffer + i) n
unfolding slice
slice-Agree c mem i zero ag l = refl
slice-Agree c mem i (suc n) ag l = rw (load-Agree c mem i ag (omega arith)) (
    rw (add_assoc c.buffer i 1) (
      ap (λ (xs : List ℕ). load mem (c.buffer + i) ∷ xs)
        (slice-Agree c mem (i + 1) n ag (omega arith))))

load_le-Agree :
    {slack : ℕ} (c : Ctx) (mem : ℕ → ℕ) (i n : ℕ)
    → Agree slack c mem
    → i + n ≤ c.buffer_len + slack
    → load_le c.mem (c.buffer + i) n ≡ load_le mem (c.buffer + i) n
unfolding load_le
load_le-Agree c mem i zero ag l = refl
load_le-Agree c mem i (suc n) ag l = rw (load-Agree c mem i ag (omega arith)) (
    rw (add_assoc c.buffer i 1) (
      ap (λ (x : ℕ). load mem (c.buffer + i) + 256 * x)
        (load_le-Agree c mem (i + 1) n ag (omega arith))))

module _ {slack : ℕ} where
  pub Safe-position : Safe slack position
  unfolding position
  Safe-position = record { at = λ c mem ib ag. (refl, refl, refl, refl, refl, ib.within) }

  pub Safe-get_offset : Safe slack get_offset
  unfolding get_offset
  Safe-get_offset = record { at = λ c mem ib ag. (refl, refl, refl, refl, refl, ib.within) }

  pub Robust-peek : (e : ParserError) → Robust slack (peek e)
  unfolding peek
  Robust-peek e = record {
    at = λ c mem ib ag. elim (Bool-cases (leb c.buffer_len c.offset)) [
      | inl t ↦ rw t refl
      | inr t ↦
          rw t (load-Agree c mem c.offset ag (ground arith), refl, refl, refl, refl, ground arith)
    ];
  }

  pub Robust-check_and_advance : (n : ℕ) → Robust slack (check_and_advance n)
  unfolding check_and_advance
  Robust-check_and_advance n = record {
    at = λ c mem ib ag. elim (Bool-cases (ltb c.buffer_len (c.offset + n))) [
      | inl t ↦ rw t refl
      | inr t ↦ rw t (refl, refl, refl, refl, refl, ground arith)
    ];
  }

  pub Robust-read_byte : Robust slack read_byte
  unfolding read_byte
  Robust-read_byte = record {
    at = λ c mem ib ag. elim (Bool-cases (leb c.buffer_len c.offset)) [
      | inl t ↦ rw t refl
      | inr t ↦
          rw t (load-Agree c mem c.offset ag (ground arith), refl, refl, refl, refl, ground arith)
    ];
  }

  pub Robust-read_uint : (n : ℕ) → Robust slack (read_uint n)
  unfolding read_uint
  Robust-read_uint n = record {
    at = λ c mem ib ag. elim (Bool-cases (ltb c.buffer_len (c.offset + n))) [
      | inl t ↦ rw t refl
      | inr t ↦
          rw t
            (load_le-Agree c mem c.offset n ag (ground arith), refl, refl, refl, refl, ground arith)
    ];
  }

  pub Robust-read_bytes : (n : ℕ) → Robust slack (read_bytes n)
  unfolding read_bytes
  Robust-read_bytes n = record {
    at = λ c mem ib ag. elim (Bool-cases (ltb c.buffer_len (c.offset + n))) [
      | inl t ↦ rw t refl
      | inr t ↦ rw t (
        rw (slice-Agree c mem c.offset n ag (ground arith)) refl,
        refl,
        refl,
        refl,
        refl,
        ground arith,
      )
    ];
  }

  pub Robust-expect_end : (e : ParserError) → Robust slack (expect_end e)
  unfolding expect_end
  Robust-expect_end e = record {
    at = λ c mem ib ag. elim (Bool-cases (c.offset == c.buffer_len)) [
      | inl t ↦ rw t (refl, refl, refl, refl, refl, ground arith)
      | inr t ↦ rw t refl
    ];
  }

module _ {A : Type 0} {slack : ℕ} where
  pub Robust→Safe : (m : Reader A) → Robust slack m → Safe slack m
  Robust→Safe m r = record { at = λ c mem ib ag. r.at c mem ib.fits ag }

  pub Robust-fail : (e : ParserError) → Robust slack (fail {A = A} e)
  unfolding fail
  Robust-fail e = record { at = λ c mem ib ag. refl }

  pub Robust-if :
      (b : Bool) (m n : Reader A)
      → Robust slack m
      → Robust slack n
      → Robust slack (if b then m else n)
  Robust-if true m n sm sn = sm
  Robust-if false m n sm sn = sn

  -- An offset moved without a check is no harm if the next step checks it.
  pub Safe-skip : (n : ℕ) (m : Reader A) → Robust slack m → Safe slack (skip n >>= λ _. m)
  unfolding ◌>>=◌ skip
  Safe-skip n m r = record {
    at = λ c mem ib ag.
        r.at (record c { offset = (c.offset + n) % 2 ^ 16 }) mem ib.fits
          (record { same = ag.same });
  }

  pub Robust-skip : (n : ℕ) (m : Reader A) → Robust slack m → Robust slack (skip n >>= λ _. m)
  unfolding ◌>>=◌ skip
  Robust-skip n m r = record {
    at = λ c mem ib ag.
        r.at (record c { offset = (c.offset + n) % 2 ^ 16 }) mem ib (record { same = ag.same });
  }

-- ===== src/Reader/Safe/Rules.antt =====
-- Rules for readers that are built from the primitives of app/src/parser_impl_common.c.
use ledger_namada.Common.{ℕ, ◌^◌, ◌<◌, ◌≡◌, refl, arith, Bool, true, false, if◌then◌else◌}
use ledger_namada.Reader.{
  Ctx, ParserError, Outcome, ok, err, fault, Reader, and_then, ◌>>=◌, pure, fail, skip, peek,
  reject_if, check_and_advance, read_byte, read_uint16, read_uint32, read_uint64, read_bytes,
  check_tag, expect_end, read_pubkey,
}
use mathlib.Core.Path.{fun_ext, subst}
use ledger_namada.Reader.Safe.Predicates.{
  with_mem, InBounds, Agree, Alike, Safe, Robust, Yields, bind-Alike, Safe-bind, Safe-bind-Yields,
  Safe-pure, Safe-fail, Safe-if,
}
use ledger_namada.Reader.Safe.Primitives.{
  Safe-position, Safe-get_offset, Robust-peek, Robust-check_and_advance, Robust-read_byte,
  Robust-read_uint, Robust-read_bytes, Robust-expect_end, Robust→Safe, Robust-fail, Robust-if,
  Safe-skip, Robust-skip,
}

module _ {A B : Type 0} {slack : ℕ} where
  bind-Alike_fits :
      (c : Ctx) (mem : ℕ → ℕ) (o o' : Outcome A) (f : A → Reader B)
      → c.buffer_len < 2 ^ 16
      → Agree slack c mem
      → ((a : A) → Safe slack (f a))
      → Alike c mem o o'
      → Alike c mem (and_then o f) (and_then o' f)
  bind-Alike_fits c mem o o' f fits ag sf h =
      let start : Ctx = record c { offset = 0 } in
      bind-Alike start mem o o' f (record { within = omega arith; fits = fits })
        (record { same = ag.same }) (λ a d e. sf a) h

  pub Robust-bind :
      (m : Reader A) (f : A → Reader B)
      → Robust slack m
      → ((a : A) → Safe slack (f a))
      → Robust slack (m >>= f)
  unfolding ◌>>=◌
  Robust-bind m f sm sf = record {
    at = λ c mem ib ag.
        bind-Alike_fits c mem (m c) (m (with_mem mem c)) f ib ag sf (sm.at c mem ib ag);
  }

module _ {slack : ℕ} where
  pub Robust-read_uint16 : Robust slack read_uint16
  unfolding read_uint16
  Robust-read_uint16 = Robust-read_uint 2

  pub Robust-read_uint32 : Robust slack read_uint32
  unfolding read_uint32
  Robust-read_uint32 = Robust-read_uint 4

  pub Robust-read_uint64 : Robust slack read_uint64
  unfolding read_uint64
  Robust-read_uint64 = Robust-read_uint 8

  pub Safe-peek : (e : ParserError) → Safe slack (peek e)
  Safe-peek e = Robust→Safe _ (Robust-peek e)

  pub Safe-check_and_advance : (n : ℕ) → Safe slack (check_and_advance n)
  Safe-check_and_advance n = Robust→Safe _ (Robust-check_and_advance n)

  pub Safe-read_byte : Safe slack read_byte
  Safe-read_byte = Robust→Safe _ Robust-read_byte

  pub Safe-read_uint16 : Safe slack read_uint16
  Safe-read_uint16 = Robust→Safe _ Robust-read_uint16

  pub Safe-read_uint32 : Safe slack read_uint32
  Safe-read_uint32 = Robust→Safe _ Robust-read_uint32

  pub Safe-read_uint64 : Safe slack read_uint64
  Safe-read_uint64 = Robust→Safe _ Robust-read_uint64

  pub Safe-read_bytes : (n : ℕ) → Safe slack (read_bytes n)
  Safe-read_bytes n = Robust→Safe _ (Robust-read_bytes n)

  pub Safe-expect_end : (e : ParserError) → Safe slack (expect_end e)
  Safe-expect_end e = Robust→Safe _ (Robust-expect_end e)

pub ruleset safe_rules = (
  Safe-bind, Safe-pure, Safe-fail, Safe-if, Safe-position, Safe-get_offset, Safe-peek,
  Safe-check_and_advance, Safe-read_byte, Safe-read_uint16, Safe-read_uint32, Safe-read_uint64,
  Safe-read_bytes, Safe-expect_end,
)

pub ruleset robust_rules = (
  Robust-bind, Robust-fail, Robust-if, Robust-peek, Robust-check_and_advance, Robust-read_byte,
  Robust-read_uint16, Robust-read_uint32, Robust-read_uint64, Robust-read_bytes, Robust-expect_end,
)

module _ {slack : ℕ} where
  pub Robust-check_tag : (tag : ℕ) → Robust slack (check_tag tag)
  unfolding check_tag
  Robust-check_tag tag = search (safe_rules, robust_rules)

  pub Safe-check_tag : (tag : ℕ) → Safe slack (check_tag tag)
  Safe-check_tag tag = Robust→Safe _ (Robust-check_tag tag)

  pub Safe-read_pubkey : Safe slack read_pubkey
  unfolding read_pubkey
  Safe-read_pubkey = search safe_rules

module _ {A : Type 0} {slack : ℕ} where
  -- Behind a guard the rest may use that the guard did not reject.
  pub Safe-guard :
      (bad : Bool) (e : ParserError) (f : Unit {0} → Reader A)
      → (bad ≡ false → Safe slack (f tt))
      → Safe slack (reject_if bad e >>= f)
  unfolding ◌>>=◌ pure fail
  Safe-guard true e f h = record { at = λ c mem ib ag. refl }
  Safe-guard false e f h = record { at = λ c mem ib ag. (h refl).at c mem ib ag }

module _ {A B C : Type 0} where
  bind_outcome :
      (o : Outcome A) (f : A → Reader B) (g : B → Reader C)
      → and_then (and_then o f) g ≡ and_then o (λ a. f a >>= g)
  unfolding ◌>>=◌
  bind_outcome (ok a c) f g = refl
  bind_outcome (err e) f g = refl
  bind_outcome fault f g = refl

  pub bind_assoc :
      (m : Reader A) (f : A → Reader B) (g : B → Reader C)
      → (m >>= f >>= g) ≡ (m >>= λ a. f a >>= g)
  unfolding ◌>>=◌
  bind_assoc m f g = fun_ext λ c. bind_outcome (m c) f g

module _ {A B : Type 0} {slack : ℕ} where
  pub Safe-if_bind :
      (b : Bool) (m n : Reader A) (f : A → Reader B)
      → Safe slack (m >>= f)
      → Safe slack (n >>= f)
      → Safe slack ((if b then m else n) >>= f)
  Safe-if_bind true m n f sm sn = sm
  Safe-if_bind false m n f sm sn = sn

module _ {B : Type 0} {slack : ℕ} where
  -- A length that is read and skipped, where the next step checks the offset.
  pub Safe-skip_read :
      (m : Reader ℕ) (n : Reader B)
      → Safe slack m
      → Robust slack n
      → Safe slack ((m >>= λ k. skip k) >>= λ _. n)
  Safe-skip_read m n sm rn =
      rw (bind_assoc m (λ k. skip k) (λ _. n)) (Safe-bind m _ sm (λ k. Safe-skip k n rn))

ok_injective : {A : Type 0} (a b : A) (c d : Ctx) → ok a c ≡ ok b d → a ≡ b
ok_injective a b c d e = cc

module _ {A : Type 0} {P : A → Type 0} where
  pub Yields-pure : (a : A) → P a → Yields P (pure a)
  unfolding pure
  Yields-pure a h = record { result = λ c d b e. subst P (ok_injective a b c d e) h }

  pub Yields-fail : (e : ParserError) → Yields P (fail e)
  unfolding fail
  Yields-fail e = record { result = λ c d a h. cc }

  pub Yields-if :
      (b : Bool) (m n : Reader A) → Yields P m → Yields P n → Yields P (if b then m else n)
  Yields-if true m n ym yn = ym
  Yields-if false m n ym yn = yn

module _ {A B : Type 0} {P : B → Type 0} where
  yields_outcome :
      (o : Outcome A) (f : A → Reader B)
      → ((a : A) → Yields P (f a))
      → (e : Ctx) (b : B) → and_then o f ≡ ok b e
      → P b
  yields_outcome (ok a d) f yf e b h = (yf a).result d e b h
  yields_outcome (err x) f yf e b h = cc
  yields_outcome fault f yf e b h = cc

  pub Yields-bind :
      (m : Reader A) (f : A → Reader B) → ((a : A) → Yields P (f a)) → Yields P (m >>= f)
  unfolding ◌>>=◌
  Yields-bind m f yf = record { result = λ c d b h. yields_outcome (m c) f yf d b h }

pub ruleset yields_rules = (Yields-bind, Yields-pure, Yields-fail, Yields-if)

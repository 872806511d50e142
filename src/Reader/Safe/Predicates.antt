-- ===== src/Reader/Safe/Predicates.antt =====
-- What memory safety of a reader is, for the readers of app/src/parser_impl_common.c and all built from them.
use ledger_namada.Common.{
  ℕ, ◌+◌, ◌^◌, ◌≤◌, ◌<◌, ◌≡◌, refl, ◌∙◌, arith, Bool, true, false, if◌then◌else◌,
}
use ledger_namada.Reader.{
  Ctx, ParserError, Outcome, ok, err, fault, Reader, and_then, ◌>>=◌, pure, fail,
}

abbrev pub with_mem : (ℕ → ℕ) → Ctx → Ctx
with_mem mem c = record c { mem = mem }

pub record InBounds (c : Ctx) : Type 0 where
  pub within : c.offset ≤ c.buffer_len
  pub fits : c.buffer_len < 2 ^ 16

-- The memory `mem` has the bytes of the buffer, and of the `slack` bytes behind it.
pub record Agree (slack : ℕ) (c : Ctx) (mem : ℕ → ℕ) : Type 0 where
  pub same : (i : ℕ) → i < c.buffer_len + slack → c.mem (c.buffer + i) ≡ mem (c.buffer + i)

-- What a call on `c` answers, and what it answers if the memory is `mem` instead.
abbrev pub Alike : {A : Type 0} → Ctx → (ℕ → ℕ) → Outcome A → Outcome A → Type 0
Alike c mem (ok a d) (ok b e) =
    (a ≡ b)
    × (e ≡ with_mem mem d)
    × (d.mem ≡ c.mem)
    × (d.buffer ≡ c.buffer)
    × (d.buffer_len ≡ c.buffer_len)
    × (d.offset ≤ d.buffer_len)
Alike c mem (err d) (err e) = d ≡ e
Alike c mem _ _ = ⊥

-- From a context in bounds, `m` reads nothing but the buffer and the `slack` bytes behind it, since
-- all other memory may change and its answer stays; where it succeeds it keeps the buffer and stays
-- in bounds; and it never faults.
pub record Safe {A : Type 0} (slack : ℕ) (m : Reader A) : Type 0 where
  pub at :
      (c : Ctx) (mem : ℕ → ℕ)
      → InBounds c
      → Agree slack c mem
      → Alike c mem (m c) (m (with_mem mem c))

-- The same from a context whose offset may have left the buffer.
pub record Robust {A : Type 0} (slack : ℕ) (m : Reader A) : Type 0 where
  pub at :
      (c : Ctx) (mem : ℕ → ℕ)
      → c.buffer_len < 2 ^ 16
      → Agree slack c mem
      → Alike c mem (m c) (m (with_mem mem c))

-- Every result of `m` meets `P`.
pub record Yields {A : Type 0} (P : A → Type 0) (m : Reader A) : Type 0 where
  pub result : (c d : Ctx) (a : A) → m c ≡ ok a d → P a

Alike-trans :
    {A : Type 0} (c d : Ctx) (mem : ℕ → ℕ) (o o' : Outcome A)
    → d.mem ≡ c.mem
    → d.buffer ≡ c.buffer
    → d.buffer_len ≡ c.buffer_len
    → Alike d mem o o'
    → Alike c mem o o'
Alike-trans c d mem (ok a x) (ok b y) p q r (e0, e1, e2, e3, e4, e5) =
    (e0, e1, e2 ∙ p, e3 ∙ q, e4 ∙ r, e5)
Alike-trans c d mem (err x) (err y) p q r h = h
Alike-trans c d mem (ok a x) (err y) p q r h = h
Alike-trans c d mem (ok a x) fault p q r h = h
Alike-trans c d mem (err x) (ok b y) p q r h = h
Alike-trans c d mem (err x) fault p q r h = h
Alike-trans c d mem fault (ok b y) p q r h = h
Alike-trans c d mem fault (err y) p q r h = h
Alike-trans c d mem fault fault p q r h = h

Agree-trans :
    {slack : ℕ} (c d : Ctx) (mem : ℕ → ℕ)
    → d.mem ≡ c.mem
    → d.buffer ≡ c.buffer
    → d.buffer_len ≡ c.buffer_len
    → Agree slack c mem
    → Agree slack d mem
Agree-trans c d mem p q r h = record { same = λ i l. rw (p, q) (h.same i (rw r at l)) }

InBounds-trans :
    (c d : Ctx) → d.buffer_len ≡ c.buffer_len → d.offset ≤ d.buffer_len → InBounds c → InBounds d
InBounds-trans c d r l h = omega arith

module _ {A B : Type 0} {slack : ℕ} where
  pub bind-Alike :
      (c : Ctx) (mem : ℕ → ℕ) (o o' : Outcome A) (f : A → Reader B)
      → InBounds c
      → Agree slack c mem
      → ((a : A) (d : Ctx) → o ≡ ok a d → Safe slack (f a))
      → Alike c mem o o'
      → Alike c mem (and_then o f) (and_then o' f)
  bind-Alike c mem (ok a d) (ok b e) f ib ag sf (e0, e1, e2, e3, e4, e5) =
      rw (← e0, e1)
        (Alike-trans c d mem (f a d) (f a (with_mem mem d)) e2 e3 e4
          ((sf a d refl).at d mem (InBounds-trans c d e4 e5 ib) (Agree-trans c d mem e2 e3 e4 ag)))
  bind-Alike c mem (err x) (err y) f ib ag sf h = h
  bind-Alike c mem (ok a x) (err y) f ib ag sf h = absurd h
  bind-Alike c mem (ok a x) fault f ib ag sf h = absurd h
  bind-Alike c mem (err x) (ok b y) f ib ag sf h = absurd h
  bind-Alike c mem (err x) fault f ib ag sf h = absurd h
  bind-Alike c mem fault (ok b y) f ib ag sf h = absurd h
  bind-Alike c mem fault (err y) f ib ag sf h = absurd h
  bind-Alike c mem fault fault f ib ag sf h = absurd h

  pub Safe-bind :
      (m : Reader A) (f : A → Reader B)
      → Safe slack m
      → ((a : A) → Safe slack (f a))
      → Safe slack (m >>= f)
  unfolding ◌>>=◌
  Safe-bind m f sm sf = record {
    at = λ c mem ib ag.
        bind-Alike c mem (m c) (m (with_mem mem c)) f ib ag (λ a d e. sf a) (sm.at c mem ib ag);
  }

  -- The rest may use what every result of the first step has.
  pub Safe-bind-Yields :
      {P : A → Type 0} (m : Reader A) (f : A → Reader B)
      → Safe slack m
      → Yields P m
      → ((a : A) → P a → Safe slack (f a))
      → Safe slack (m >>= f)
  unfolding ◌>>=◌
  Safe-bind-Yields m f sm ym sf = record {
    at = λ c mem ib ag.
        bind-Alike c mem (m c) (m (with_mem mem c)) f ib ag (λ a d e. sf a (ym.result c d a e))
          (sm.at c mem ib ag);
  }

module _ {A : Type 0} {slack : ℕ} where
  pub Safe-pure : (a : A) → Safe slack (pure a)
  unfolding pure
  Safe-pure a = record { at = λ c mem ib ag. (refl, refl, refl, refl, refl, ib.within) }

  pub Safe-fail : (e : ParserError) → Safe slack (fail {A = A} e)
  unfolding fail
  Safe-fail e = record { at = λ c mem ib ag. refl }

  pub Safe-if :
      (b : Bool) (m n : Reader A) → Safe slack m → Safe slack n → Safe slack (if b then m else n)
  Safe-if true m n sm sn = sm
  Safe-if false m n sm sn = sn

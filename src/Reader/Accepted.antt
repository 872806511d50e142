-- ===== src/Reader/Accepted.antt =====
-- What a run of a reader over the context of app/src/parser_impl_common.c went through if it succeeds.
use ledger_namada.Common.{
  ℕ, ◌≡◌, refl, arith, Bool, true, false, List, [], ◌∷◌, eq_list, ◌==◌, Bool-cases, inl, inr,
}
use mathlib.Core.Path.{subst}
use ledger_namada.Reader.{
  Ctx, ParserError, Outcome, ok, err, fault, Reader, and_then, ◌>>=◌, pure, fail, reject_if,
  expect_end,
}
use ledger_namada.Reader.Safe.{Yields}

module _ {A B : Type 0} where
  and_then_ok :
      (o : Outcome A) (f : A → Reader B) (b : B) (e : Ctx)
      → and_then o f ≡ ok b e
      → (a : A) × (d : Ctx) × (o ≡ ok a d) × (f a d ≡ ok b e)
  and_then_ok (ok a d) f b e h = (a, d, refl, h)
  and_then_ok (err x) f b e h = absurd cc
  and_then_ok fault f b e h = absurd cc

  pub bind_ok :
      (m : Reader A) (f : A → Reader B) (c e : Ctx) (b : B)
      → (m >>= f) c ≡ ok b e
      → (a : A) × (d : Ctx) × (m c ≡ ok a d) × (f a d ≡ ok b e)
  unfolding ◌>>=◌
  bind_ok m f c e b h = and_then_ok (m c) f b e h

  pub Yields-bind-Yields :
      {P : A → Type 0} {Q : B → Type 0} (m : Reader A) (f : A → Reader B)
      → Yields P m
      → ((a : A) → P a → Yields Q (f a))
      → Yields Q (m >>= f)
  Yields-bind-Yields m f ym yf = record {
    result = λ c d b h.
        let (a, x, h0, h1) = bind_ok m f c d b h in (yf a (ym.result c x a h0)).result x d b h1;
  }

module _ {A : Type 0} where
  pub guard_ok :
      (bad : Bool) (x : ParserError) (k : Reader A) (c e : Ctx) (a : A)
      → (reject_if bad x >>= λ _. k) c ≡ ok a e
      → (bad ≡ false) × (k c ≡ ok a e)
  unfolding ◌>>=◌ fail pure
  guard_ok true x k c e a h = absurd cc
  guard_ok false x k c e a h = (refl, h)

  pub Yields-guard :
      {P : A → Type 0} (bad : Bool) (x : ParserError) (k : Reader A)
      → (bad ≡ false → Yields P k)
      → Yields P (reject_if bad x >>= λ _. k)
  Yields-guard bad x k y = record {
    result = λ c d a h. let (e, h') = guard_ok bad x k c d a h in (y e).result c d a h';
  }

  pub pure_ok : (a b : A) (c d : Ctx) → pure a c ≡ ok b d → (a ≡ b) × (c ≡ d)
  unfolding pure
  pure_ok a b c d h = (cc, cc)

pub expect_end_ok :
    (x : ParserError) (c d : Ctx) (u : Unit {0})
    → expect_end x c ≡ ok u d
    → (c ≡ d) × (d.offset ≡ d.buffer_len)
unfolding expect_end
expect_end_ok x c d u h = elim (Bool-cases (c.offset == c.buffer_len)) [
  | inl e ↦
      let same : c ≡ d = ended (rw e at h) in
      (same, subst (λ (k : Ctx). k.offset ≡ k.buffer_len) same (at_end e))
  | inr e ↦ absurd (refused (rw e at h))
]
  where
    at_end : (c.offset == c.buffer_len) ≡ true → c.offset ≡ c.buffer_len
    at_end e = ground arith

    ended : ok tt c ≡ ok u d → c ≡ d
    ended g = cc

    refused : err x ≡ ok u d → ⊥
    refused g = cc

-- memcmp answers 0 on equal bytes only.
pub eq_list→eq : (xs ys : List ℕ) → eq_list xs ys ≡ true → xs ≡ ys
eq_list→eq [] [] h = refl
eq_list→eq [] (y ∷ ys) h = absurd cc
eq_list→eq (x ∷ xs) [] h = absurd cc
eq_list→eq (x ∷ xs) (y ∷ ys) h = elim (Bool-cases (x == y)) [
  | inl e ↦ rw (same x y e, eq_list→eq xs ys (rw e at h)) refl
  | inr e ↦ absurd (differ (rw e at h))
]
  where
    same : (a b : ℕ) → (a == b) ≡ true → a ≡ b
    same a b e = ground arith

    differ : false ≡ true → ⊥
    differ g = cc

-- ===== src/Print/Runs.antt =====
-- The switches over a display index, as lists of cases with a continuation behind them.
use ledger_namada.Common.{
  ℕ, zero, suc, ◌+◌, ◌-◌, ◌%◌, ◌≤◌, ◌<◌, ◌≡◌, refl, sym, ap, ◌∙◌, arith, Bool, true, false, ◌&&◌,
  List, [], ◌∷◌, ◌++◌, length, leb, if◌then◌else◌, Bool-cases, inl, inr,
}
use ledger_namada.Print.{switch, bump, bumps, minus}

module _ {ℓ} {A : Type ℓ} where
  -- The case with the index, or the continuation at the index less the number of cases.
  abbrev pub runs : List A → (ℕ → A) → ℕ → A
  runs [] others i = others i
  runs (a ∷ cases) others zero = a
  runs (a ∷ cases) others (suc i) = runs cases others i

  -- A case that is there unless it is absent.
  abbrev pub keep : Bool → A → List A → List A
  keep absent a rest = if absent then rest else a ∷ rest

  pub switch-runs :
      (cases : List A) (i : ℕ) (x : A) (others : ℕ → A)
      → (length cases ≤ i → x ≡ others (i - length cases))
      → switch i cases x ≡ runs cases others i
  switch-runs [] i x others h = h (omega arith) ∙ ap others (less_nothing i)
    where
      less_nothing : (i : ℕ) → i - 0 ≡ i
      less_nothing i = omega arith
  switch-runs (a ∷ cases) zero x others h = refl
  switch-runs (a ∷ cases) (suc i) x others h =
      switch-runs cases i x others (λ l. h (omega arith) ∙ ap others (one_less i (length cases)))
    where
      one_less : (i n : ℕ) → suc i - suc n ≡ i - n
      one_less i n = omega arith

  pub runs-append :
      (xs ys : List A) (others : ℕ → A) (i : ℕ)
      → runs (xs ++ ys) others i ≡ runs xs (runs ys others) i
  runs-append [] ys others i = refl
  runs-append (x ∷ xs) ys others zero = refl
  runs-append (x ∷ xs) ys others (suc i) = runs-append xs ys others i

-- What bumps take out of a list.
module _ {ℓ} {A : Type ℓ} where
  abbrev pub without : ℕ → Bool → List A → List A
  without k absent [] = []
  without zero absent (a ∷ cases) = keep absent a cases
  without (suc k) absent (a ∷ cases) = a ∷ without k absent cases

  abbrev pub without_all : List (ℕ × Bool) → List A → List A
  without_all [] cases = cases
  without_all ((k, absent) ∷ bs) cases = without k absent (without_all bs cases)

module _ {ℓ} {A : Type ℓ} (x : A) where
  without-below :
      (cases : List A) (k : ℕ) (absent : Bool) (i : ℕ)
      → i < k
      → runs cases (λ j. x) i ≡ runs (without k absent cases) (λ j. x) i
  without-below [] k absent i h = refl
  without-below (a ∷ cases) zero absent i h = absurd (omega arith)
  without-below (a ∷ cases) (suc k) absent zero h = refl
  without-below (a ∷ cases) (suc k) absent (suc i) h = without-below cases k absent i (omega arith)

  without-above :
      (cases : List A) (k i : ℕ)
      → k ≤ i
      → runs cases (λ j. x) (suc i) ≡ runs (without k true cases) (λ j. x) i
  without-above [] k i h = refl
  without-above (a ∷ cases) zero i h = refl
  without-above (a ∷ cases) (suc k) zero h = absurd (omega arith)
  without-above (a ∷ cases) (suc k) (suc i) h = without-above cases k i (omega arith)

  without-present :
      (cases : List A) (k i : ℕ) → runs cases (λ j. x) i ≡ runs (without k false cases) (λ j. x) i
  without-present [] k i = refl
  without-present (a ∷ cases) zero i = refl
  without-present (a ∷ cases) (suc k) zero = refl
  without-present (a ∷ cases) (suc k) (suc i) = without-present cases k i

  -- A bump takes an absent case out of the list.
  pub runs-bump :
      (cases : List A) (k : ℕ) (absent : Bool) (i : ℕ)
      → i < 255
      → runs cases (λ j. x) (bump k absent i) ≡ runs (without k absent cases) (λ j. x) i
  runs-bump cases k false i h = rw (same k i) (without-present cases k i)
    where
      same : (k i : ℕ) → (leb k i && false) ≡ false
      same k i = ground arith
  runs-bump cases k true i h = elim (Bool-cases (leb k i)) [
    | inl l ↦ rw (l, next i h) (without-above cases k i (ground arith))
    | inr g ↦ rw g (without-below cases k true i (ground arith))
  ]
    where
      next : (i : ℕ) → i < 255 → (i + 1) % 256 ≡ suc i
      next i h = omega arith

  pub runs-bumps :
      (bs : List (ℕ × Bool)) (cases : List A) (i : ℕ)
      → i + length bs < 255
      → runs cases (λ j. x) (bumps bs i) ≡ runs (without_all bs cases) (λ j. x) i
  runs-bumps [] cases i h = refl
  runs-bumps ((k, absent) ∷ bs) cases i h =
      runs-bumps bs cases (bump k absent i) (grown k absent i (length bs) h)
      ∙ runs-bump (without_all bs cases) k absent i (omega arith)
    where
      grown : (k : ℕ) (b : Bool) (i n : ℕ) → i + suc n < 255 → bump k b i + n < 255
      grown k b i n h = ground arith

  -- A switch on a bumped index whose default case shows the items `rest`.
  pub switch-without :
      (bs : List (ℕ × Bool)) (cases rest : List A) (others : ℕ → A) (n i : ℕ)
      → length cases ≡ n
      → i + length bs < 255
      → ((j : ℕ) → j < 255 → others j ≡ runs rest (λ j. x) j)
      → switch (bumps bs i) cases (others (minus (bumps bs i) n))
        ≡ runs (without_all bs (cases ++ rest)) (λ j. x) i
  switch-without bs cases rest others n i e h f =
      switch-runs cases (bumps bs i) _ (runs rest (λ j. x)) (λ l.
        f (minus (bumps bs i) n) (reduced n (bumps bs i) (length cases) e (below bs i h) l)
        ∙ ap (runs rest (λ j. x)) (enough n (bumps bs i) (length cases) e (below bs i h) l))
      ∙ sym (runs-append cases rest (λ j. x) (bumps bs i))
      ∙ runs-bumps bs (cases ++ rest) i h
    where
      grown : (k : ℕ) (b : Bool) (i n : ℕ) → i + suc n < 255 → bump k b i + n < 255
      grown k b i n h = ground arith

      below : (bs : List (ℕ × Bool)) (i : ℕ) → i + length bs < 255 → bumps bs i < 255
      below [] i h = omega arith
      below ((k, absent) ∷ bs) i h = below bs (bump k absent i) (grown k absent i (length bs) h)

      enough : (n i m : ℕ) → m ≡ n → i < 255 → m ≤ i → (i + 256 - n) % 256 ≡ i - m
      enough n i m e h l = omega arith

      reduced : (n i m : ℕ) → m ≡ n → i < 255 → m ≤ i → (i + 256 - n) % 256 < 255
      reduced n i m e h l = omega arith

-- ===== src/Print/Shown/Adjusted.antt =====
-- Where the index of a print function leads to that shows one case several times.
use ledger_namada.Common.{
  ℕ, zero, suc, ◌+◌, ◌-◌, ◌%◌, ◌^◌, ◌≤◌, ◌<◌, ◌≡◌, refl, sym, ap, ◌∙◌, arith, List, [], ◌∷◌, ◌++◌,
  length, ltb, Bool-cases, inl, inr,
}
use ledger_namada.Print.Several.{adjusted_index}
use ledger_namada.Print.Items.{from_on}
use ledger_namada.Print.Runs.{runs}

-- Where the adjusted index leads to.
pub data Adjusted (first n i j : ℕ) : Type 0 where
  before : i < first → j ≡ i → Adjusted first n i j
  among : first ≤ i → i < first + n → j ≡ first → Adjusted first n i j
  behind : first + n ≤ i → j + n ≡ i + 1 → Adjusted first n i j

pub adjusted_index-Adjusted :
    (first n i : ℕ)
    → first < 8
    → n < 2 ^ 31
    → i < 240
    → Adjusted first n i (adjusted_index first n i)
adjusted_index-Adjusted first n i hf hn hi = elim (Bool-cases (ltb i first)) [
  | inl b ↦ rw b (before (ground arith) refl)
  | inr b ↦ elim (Bool-cases (ltb i ((first + n) % 2 ^ 32))) [
    | inl c ↦ rw (b, c) (among (ground arith) (ground arith) refl)
    | inr c ↦ rw (b, c) (behind (ground arith) (ground arith))
  ]
]

module _ {ℓ} {A : Type ℓ} (x : A) where
  pub runs_at :
      (ys : List A) (f : ℕ → A) (k n i : ℕ)
      → i < n
      → runs (from_on f k n ++ ys) (λ j. x) i ≡ f (k + i)
  runs_at ys f k zero i h = absurd (omega arith)
  runs_at ys f k (suc n) zero h = ap f (same k)
    where
      same : (k : ℕ) → k ≡ k + 0
      same k = omega arith
  runs_at ys f k (suc n) (suc i) h = runs_at ys f (k + 1) n i (omega arith) ∙ ap f (moved k i)
    where
      moved : (k i : ℕ) → k + 1 + i ≡ k + suc i
      moved k i = omega arith

  pub runs_behind :
      (ys : List A) (f : ℕ → A) (k n i : ℕ)
      → runs (from_on f k n ++ ys) (λ j. x) (n + i) ≡ runs ys (λ j. x) i
  runs_behind ys f k zero i = ap (runs ys (λ j. x)) (same i)
    where
      same : (i : ℕ) → 0 + i ≡ i
      same i = omega arith
  runs_behind ys f k (suc n) i = rw (moved n i) (runs_behind ys f (k + 1) n i)
    where
      moved : (n i : ℕ) → suc n + i ≡ suc (n + i)
      moved n i = omega arith

  runs_prefix :
      (pre ys zs : List A) (i : ℕ)
      → i < length pre
      → runs (pre ++ ys) (λ j. x) i ≡ runs (pre ++ zs) (λ j. x) i
  runs_prefix [] ys zs i h = absurd (omega arith)
  runs_prefix (p ∷ pre) ys zs zero h = refl
  runs_prefix (p ∷ pre) ys zs (suc i) h = runs_prefix pre ys zs i (omega arith)

  runs_past :
      (pre ys : List A) (n i j : ℕ)
      → length pre ≡ n
      → j ≡ n + i
      → runs (pre ++ ys) (λ j. x) j ≡ runs ys (λ j. x) i
  runs_past [] ys n i j e f = ap (runs ys (λ j. x)) (omega (arith, e, f))
  runs_past (p ∷ pre) ys n i zero e f = absurd (omega arith)
  runs_past (p ∷ pre) ys n i (suc j) e f =
      runs_past pre ys (length pre) i j refl (omega (arith, e, f))

  -- One case that stands for n of them.
  pub runs-several :
      (pre ys : List A) (c : A) (f : ℕ → A) (k n i j : ℕ)
      → Adjusted (length pre) n i j
      → (length pre ≤ i → i < length pre + n → c ≡ f (k + (i - length pre)))
      → runs (pre ++ c ∷ ys) (λ j. x) j ≡ runs (pre ++ (from_on f k n ++ ys)) (λ j. x) i
  runs-several pre ys c f k n i j (before h e) g =
      rw e (runs_prefix pre (c ∷ ys) (from_on f k n ++ ys) i h)
  runs-several pre ys c f k n i j (among h l e) g =
      runs_past pre (c ∷ ys) (length pre) 0 j refl (omega (arith, e))
      ∙ g h l
      ∙ sym (runs_at ys f k n (i - length pre) (omega arith))
      ∙ sym (runs_past pre (from_on f k n ++ ys) (length pre) (i - length pre) i refl (omega arith))
  runs-several pre ys c f k n i j (behind h e) g =
      let m : ℕ = i - length pre - n in
      runs_past pre (c ∷ ys) (length pre) (suc m) j refl (omega (arith, e))
      ∙ sym (runs_behind ys f k n m)
      ∙ sym (runs_past pre (from_on f k n ++ ys) (length pre) (n + m) i refl (omega arith))

pub Adjusted-below : (first n i j : ℕ) → Adjusted first n i j → first < 8 → i < 240 → j < 242
Adjusted-below first n i j (before h e) hf hi = omega (arith, e)
Adjusted-below first n i j (among h l e) hf hi = omega (arith, e)
Adjusted-below first n i j (behind h e) hf hi = omega (arith, e)

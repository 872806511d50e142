-- ===== src/Print/Joined/Windows.antt =====
-- Stretches of lists: what take and drop leave of two lists one behind the other.
use ledger_namada.Common.{
  ℕ, zero, suc, ◌-◌, ◌≤◌, ◌≡◌, refl, ap, ◌∙◌, arith, true, false, List, [], ◌∷◌, ◌++◌, take, length,
  leb, Bool-cases, inl, inr,
}
use ledger_namada.Print.Joined.{drop}

module _ {ℓ} {A : Type ℓ} where
  pub take_all : (n : ℕ) (xs : List A) → length xs ≤ n → take n xs ≡ xs
  take_all zero [] h = refl
  take_all zero (x ∷ xs) h = absurd (omega arith)
  take_all (suc n) [] h = refl
  take_all (suc n) (x ∷ xs) h = ap (λ l. x ∷ l) (take_all n xs (omega arith))

  pub length-take_short : (n : ℕ) (xs : List A) → n ≤ length xs → length (take n xs) ≡ n
  length-take_short zero xs h = refl
  length-take_short (suc n) [] h = absurd (omega arith)
  length-take_short (suc n) (x ∷ xs) h = ap suc (length-take_short n xs (omega arith))

  pub length-drop : (n : ℕ) (xs : List A) → length (drop n xs) ≡ length xs - n
  length-drop zero xs = omega arith
  length-drop (suc n) [] = omega arith
  length-drop (suc n) (x ∷ xs) = omega (arith, length-drop n xs)

  pub drop_all : (n : ℕ) (xs : List A) → length xs ≤ n → drop n xs ≡ []
  drop_all zero [] h = refl
  drop_all zero (x ∷ xs) h = absurd (omega arith)
  drop_all (suc n) [] h = refl
  drop_all (suc n) (x ∷ xs) h = drop_all n xs (omega arith)

  -- A window over two lists.
  pub window-append :
      (start n : ℕ) (xs ys : List A)
      → take n (drop start (xs ++ ys))
        ≡ take n (drop start xs)
          ++ take (n - length (take n (drop start xs))) (drop (start - length xs) ys)
  window-append zero zero xs ys = refl
  window-append zero (suc n) [] ys = ap (λ m. take m ys) (whole n)
    where
      whole : (n : ℕ) → suc n ≡ suc n - 0
      whole n = omega arith
  window-append zero (suc n) (x ∷ xs) ys =
      ap (λ l. x ∷ l)
        (window-append zero n xs ys
          ∙ ap (λ l. take n xs ++ l)
              (ap (λ m. take (n - length (take n xs)) (drop m ys)) (nothing (length xs))
                ∙ ap (λ m. take m (drop (0 - suc (length xs)) ys))
                    (one_less n (length (take n xs)))))
    where
      nothing : (m : ℕ) → 0 - m ≡ 0 - suc m
      nothing m = omega arith

      one_less : (n m : ℕ) → n - m ≡ suc n - suc m
      one_less n m = omega arith
  window-append (suc start) zero [] ys = refl
  window-append (suc start) (suc n) [] ys =
      ap (λ m. take m (drop (suc start) ys)) (whole n)
      ∙ ap (λ m. take (suc n - 0) (drop m ys)) (whole start)
    where
      whole : (n : ℕ) → suc n ≡ suc n - 0
      whole n = omega arith
  window-append (suc start) n (x ∷ xs) ys =
      window-append start n xs ys
      ∙ ap (λ m. take n (drop start xs) ++ take (n - length (take n (drop start xs))) (drop m ys))
          (one_less start (length xs))
    where
      one_less : (n m : ℕ) → n - m ≡ suc n - suc m
      one_less n m = omega arith

  -- What a window over a list has, in number: the smaller of its size and what is left.
  pub length-window :
      (start n : ℕ) (xs : List A) → length (take n (drop start xs)) ≡ n - (n - (length xs - start))
  length-window start n xs = elim (Bool-cases (leb n (length xs - start))) [
    | inl e ↦
        length-take_short n (drop start xs) (small e (length-drop start xs))
        ∙ fits n (length xs - start) e
    | inr e ↦
        ap length (take_all n (drop start xs) (large e (length-drop start xs)))
        ∙ length-drop start xs
        ∙ exceeds n (length xs - start) e
  ]
    where
      small : {n m k : ℕ} → leb n m ≡ true → k ≡ m → n ≤ k
      small e h = ground arith

      large : {n m k : ℕ} → leb n m ≡ false → k ≡ m → k ≤ n
      large e h = ground arith

      fits : (n m : ℕ) → leb n m ≡ true → n ≡ n - (n - m)
      fits n m e = ground arith

      exceeds : (n m : ℕ) → leb n m ≡ false → m ≡ n - (n - m)
      exceeds n m e = ground arith

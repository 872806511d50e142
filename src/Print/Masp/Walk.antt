-- ===== src/Print/Masp/Walk.antt =====
-- printMaspTransferTxn of app/src/parser_print_txn.c over the items from first to last.
use ledger_namada.Common.{
  ℕ, zero, suc, ◌+◌, ◌-◌, ◌*◌, ◌/◌, ◌%◌, ◌≤◌, ◌<◌, ◌≡◌, refl, sym, ap, ◌∙◌, arith, true, false, ltb,
  ◌==◌, if◌then◌else◌, Bool-cases, inl, inr,
}
use ledger_namada.Txn.Transfer.{Transfer}
use ledger_namada.Print.Masp.{Indices, rebase_spends, rebase_outputs, masp_case}
use ledger_namada.Print.Masp.Rebase.{
  indices, n_items_lem, passed_over-none, rebase_spends-among, rebase_spends-first,
  rebase_spends-behind, rebase_outputs-before, rebase_outputs-one, rebase_outputs-two,
}

-- Where the item i belongs: its case, and the spend or the output that it is of.
abbrev pub place : ℕ → ℕ → ℕ × Indices
place n zero = (0, indices 0 0)
place n (suc i) =
    if ltb i (3 * n)
    then (1 + i % 3, indices (i / 3) 0)
    else (4 + (i - 3 * n) % 3, indices 0 ((i - 3 * n) / 3))

-- The items from the first to the one with the number, on their first pages.
abbrev pub masp_walk : ℕ → ℕ → Transfer → Indices → ℕ → ℕ × Indices
masp_walk n m t st zero = masp_case n m t 0 0 st
masp_walk n m t st (suc i) = masp_case n m t 0 (suc i) (masp_walk n m t st i).1

module _ (n m : ℕ) (t : Transfer) (hn : 1 ≤ n) (ln : n ≤ 70) (hm : 1 ≤ m) (lm : m ≤ 2) where
  case_lem :
      (i : ℕ) (st : Indices)
      → masp_case n m t 0 (suc i) st ≡ (
          let spends = rebase_spends (3 * n) 0 (suc i) st in
          rebase_outputs (3 * n) (3 * m) 0 (suc i) spends.0 spends.1)
  unfolding masp_case
  case_lem i st =
      rw
        (
          passed_over-none n m t (suc i) hn hm,
          n_items_lem n hn ln,
          n_items_lem m hm (omega arith),
          not_first i,
        )
        refl
    where
      not_first : (i : ℕ) → (suc i == 0) ≡ false
      not_first i = ground arith

  step_among :
      (i o : ℕ)
      → suc i ≤ 3 * n
      → masp_case n m t 0 (suc i) (indices ((i - 1) / 3) o) ≡ (1 + i % 3, indices (i / 3) o)
  step_among i o h =
      case_lem i (indices ((i - 1) / 3) o)
      ∙ ap (λ (r : ℕ × Indices). rebase_outputs (3 * n) (3 * m) 0 (suc i) r.0 r.1)
          (rebase_spends-among n i o hn ln h)
      ∙ rebase_outputs-before n m (suc i) (1 + i % 3) (i / 3) o hm h (omega arith)

  step_behind :
      (k s : ℕ)
      → k < 3 * m
      → s < n
      → masp_case n m t 0 (suc (3 * n + k)) (indices s ((k - 1) / 3))
        ≡ (4 + k % 3, indices 0 (k / 3))
  step_behind k s h l =
      case_lem (3 * n + k) (indices s ((k - 1) / 3))
      ∙ ap (λ (r : ℕ × Indices). rebase_outputs (3 * n) (3 * m) 0 (suc (3 * n + k)) r.0 r.1)
          (rebase_spends-behind n (suc (3 * n + k)) s ((k - 1) / 3) l ln (omega arith)
            (omega arith))
      ∙ ap (λ j. rebase_outputs (3 * n) (3 * m) 0 (suc (3 * n + k)) j (indices 0 ((k - 1) / 3)))
          (moved n k)
      ∙ outputs m hm lm h
    where
      moved : (n k : ℕ) → suc (3 * n + k) + 3 - 3 * n ≡ 4 + k
      moved n k = omega arith

      count : (n k : ℕ) → suc (3 * n + k) ≡ 3 * n + 1 + k
      count n k = omega arith

      small : (k : ℕ) → k < 3 → (4 + k ≡ 4 + k % 3) × ((k - 1) / 3 ≡ k / 3)
      small k h = (omega arith, omega arith)

      outputs :
          (m : ℕ)
          → 1 ≤ m
          → m ≤ 2
          → k < 3 * m
          → rebase_outputs (3 * n) (3 * m) 0 (suc (3 * n + k)) (4 + k) (indices 0 ((k - 1) / 3))
            ≡ (4 + k % 3, indices 0 (k / 3))
      outputs zero a b c = absurd (omega arith)
      outputs (suc zero) a b c =
          rebase_outputs-one n (suc (3 * n + k)) (4 + k) 0 ((k - 1) / 3)
          ∙ ap (λ j. (j, indices 0 ((k - 1) / 3))) (small k c).0
          ∙ ap (λ o. (4 + k % 3, indices 0 o)) (small k c).1
      outputs (suc (suc zero)) a b c =
          ap (λ i. rebase_outputs (3 * n) 6 0 i (4 + k) (indices 0 ((k - 1) / 3))) (count n k)
          ∙ rebase_outputs-two n k 0 hn ln c
      outputs (suc (suc (suc m))) a b c = absurd (omega arith)

  among_place : (i : ℕ) → suc i ≤ 3 * n → place n (suc i) ≡ (1 + i % 3, indices (i / 3) 0)
  among_place i h =
      ap
        (λ b.
          if b
          then (1 + i % 3, indices (i / 3) 0)
          else (4 + (i - 3 * n) % 3, indices 0 ((i - 3 * n) / 3)))
        (inside i n h)
    where
      inside : (i n : ℕ) → suc i ≤ 3 * n → ltb i (3 * n) ≡ true
      inside i n h = ground arith

  behind_place : (k : ℕ) → place n (suc (3 * n + k)) ≡ (4 + k % 3, indices 0 (k / 3))
  behind_place k =
      ap
        (λ b.
          if b
          then (1 + (3 * n + k) % 3, indices ((3 * n + k) / 3) 0)
          else (4 + (3 * n + k - 3 * n) % 3, indices 0 ((3 * n + k - 3 * n) / 3)))
        (outside n k)
      ∙ ap (λ r. (4 + r % 3, indices 0 (r / 3))) (rest n k)
    where
      outside : (n k : ℕ) → ltb (3 * n + k) (3 * n) ≡ false
      outside n k = ground arith

      rest : (n k : ℕ) → 3 * n + k - 3 * n ≡ k
      rest n k = omega arith

  -- The index of the spends before an item of theirs.
  before_among : (i : ℕ) → suc i ≤ 3 * n → (place n i).1 ≡ indices ((i - 1) / 3) 0
  before_among zero h = refl
  before_among (suc i) h =
      ap (λ (r : ℕ × Indices). r.1) (among_place i (omega arith))
      ∙ ap (λ j. indices (j / 3) 0) (less_one i)
    where
      less_one : (i : ℕ) → i ≡ suc i - 1
      less_one i = omega arith

  before_behind :
      (k : ℕ) → k < 3 * m → (s : ℕ) × (s < n) × ((place n (3 * n + k)).1 ≡ indices s ((k - 1) / 3))
  before_behind zero h = (
    (3 * n - 1) / 3,
    omega arith,
    ap (λ i. (place n i).1) (last n hn)
        ∙ ap (λ (r : ℕ × Indices). r.1) (among_place (3 * n - 1) (omega arith)),
  )
    where
      last : (n : ℕ) → 1 ≤ n → 3 * n + 0 ≡ suc (3 * n - 1)
      last n h = omega arith
  before_behind (suc k) h = (
    0,
    hn,
    ap (λ i. (place n i).1) (next n k)
        ∙ ap (λ (r : ℕ × Indices). r.1) (behind_place k)
        ∙ ap (λ j. indices 0 (j / 3)) (less_one k),
  )
    where
      next : (n k : ℕ) → 3 * n + suc k ≡ suc (3 * n + k)
      next n k = omega arith

      less_one : (i : ℕ) → i ≡ suc i - 1
      less_one i = omega arith

  first_case : (st : Indices) → masp_case n m t 0 0 st ≡ (0, indices 0 0)
  unfolding masp_case
  first_case st =
      rw
        (
          passed_over-none n m t 0 hn hm,
          n_items_lem n hn ln,
          n_items_lem m hm (omega arith),
          rebase_spends-first n,
        )
        (rebase_outputs-before n m 0 0 0 0 hm (omega arith) (omega arith))

  -- For a shielded transfer with 1 to 70 spends and one or two outputs: if the items are shown from the
  -- first on, each with its first page, then item i is shown from the place it belongs to, whatever the
  -- static indices were before.
  pub masp_walk-place :
      (st : Indices) (i : ℕ) → i ≤ 3 * n + 3 * m → masp_walk n m t st i ≡ place n i
  masp_walk-place st zero h = first_case st
  masp_walk-place st (suc i) h =
      ap (λ (r : ℕ × Indices). masp_case n m t 0 (suc i) r.1) (masp_walk-place st i (omega arith))
      ∙ elim (Bool-cases (ltb i (3 * n))) [
        | inl e ↦
            ap (masp_case n m t 0 (suc i)) (before_among i (ground arith))
            ∙ step_among i 0 (ground arith)
            ∙ sym (among_place i (ground arith))
        | inr e ↦ behind i (i - 3 * n) (ground arith) (ground arith)
      ]
    where
      behind :
          (i k : ℕ)
          → i ≡ 3 * n + k
          → k < 3 * m
          → masp_case n m t 0 (suc i) (place n i).1 ≡ place n (suc i)
      behind i k e l =
          let b = before_behind k l in
          ap (λ j. masp_case n m t 0 (suc j) (place n j).1) e
          ∙ ap (masp_case n m t 0 (suc (3 * n + k))) b.2
          ∙ step_behind k b.0 l b.1
          ∙ sym (behind_place k)
          ∙ ap (λ j. place n (suc j)) (sym e)

-- ===== src/Print/Count/Refused.antt =====
-- Where getNumItems of app/src/parser_impl.c counts an item that printTxnFields does not have.
use Prim.Native.String.{String}
use ledger_namada.Common.{
  ℕ, suc, ◌+◌, ◌%◌, ◌≤◌, ◌<◌, ◌≡◌, refl, ap, ◌∙◌, ◌⊎◌, inl, inr, arith, Bool, true, false, not,
  ◌&&◌, Option, none, some, List, [], ◌∷◌, length, ◌==◌, if◌then◌else◌,
}
use ledger_namada.Reader.{display_idx_out_of_range, Reader, fail}
use ledger_namada.Transaction.{ParserTx, of_custom}
use ledger_namada.Transaction.Items.{params, flag, data_items, get_num_items}
use ledger_namada.Print.{Item}
use ledger_namada.Print.Common.{is_some, has_memo}
use ledger_namada.Print.Fields.{print_data, print_transfer, print_txn_fields}
use ledger_namada.Print.Masp.{Indices}
use ledger_namada.Print.Items.{item_at, header_items, items, field_items}
use ledger_namada.Print.Count.Complete.{print_data-items}

item_at-end : (l : List (Reader Item)) → item_at l (length l) ≡ fail display_idx_out_of_range
item_at-end [] = refl
item_at-end (a ∷ l) = item_at-end l

abbrev no_symbol : ParserTx → Bool
no_symbol tx = elim tx.header.fees.symbol [ none ↦ true | some s ↦ false ]

abbrev memo_count : ParserTx → ℕ
memo_count tx = elim tx.memo_section [ none ↦ 0 | some i ↦ 1 ]

length-header_items : (tx : ParserTx) → length (header_items tx) ≤ 5
unfolding header_items
length-header_items tx = go tx.header.fees.symbol _ _
  where
    go :
        (o : Option String) (a b : Reader Item)
        → suc (suc (suc (length (elim o [ some s ↦ a ∷ [] | none ↦ b ∷ a ∷ [] ])))) ≤ 5
    go none a b = omega arith
    go (some s) a b = omega arith

-- The list of a transaction of an unknown type is shorter than what is counted.
custom_shorter :
    (expert : Bool) (tx : ParserTx) (f : ℕ)
    → (expert ≡ true) ⊎ (has_memo tx ≡ true)
    → length (items expert tx of_custom) < params expert 1 7 + memo_count tx + f
unfolding items field_items
custom_shorter true tx f h = omega (arith, length-header_items tx)
custom_shorter false tx f (inl h) = absurd cc
custom_shorter false tx f (inr h) = go tx.memo_section h
  where
    go : (o : Option ℕ) → is_some o ≡ true → 1 < 1 + elim o [ none ↦ 0 | some i ↦ 1 ] + f
    go none h = absurd cc
    go (some i) h = omega arith

few :
    (expert : Bool) (o : Option ℕ) (b : Bool)
    → params expert 1 7 + elim o [ none ↦ 0 | some i ↦ 1 ] + flag b < 240
few true none b = ground arith
few true (some i) b = ground arith
few false none b = ground arith
few false (some i) b = ground arith

positive : (expert : Bool) (m f : ℕ) → 1 ≤ params expert 1 7 + m + f
positive true m f = omega arith
positive false m f = omega arith

counted_small : (k : ℕ) → 1 ≤ k → k < 240 → (if k % 256 == 0 then none else some (k % 256)) ≡ some k
counted_small k h l = rw (small k l, nonzero k h) refl
  where
    small : (k : ℕ) → k < 240 → k % 256 ≡ k
    small k l = omega arith

    nonzero : (k : ℕ) → 1 ≤ k → (k == 0) ≡ false
    nonzero k h = ground arith

either_way :
    (b : Bool) (x : Reader Item) (st : Indices)
    → (let r : Reader Item × Indices = if b then (x, st) else (x, st) in r.0) ≡ x
either_way true x st = refl
either_way false x st = refl

-- In expert mode, or with a memo, getNumItems counts an item of a transaction of an unknown type that
-- printTxnFields answers with an index out of range.
pub custom-out_of_range :
    (expert : Bool) (tx : ParserTx) (page_idx : ℕ) (st : Indices) (mem : ℕ → ℕ)
    → tx.tx_data ≡ of_custom
    → (expert ≡ true) ⊎ (has_memo tx ≡ true)
    → (n : ℕ) × (i : ℕ) × (get_num_items expert tx ≡ some n)
      × (i < n)
      × ((print_txn_fields expert tx page_idx i st mem).0 ≡ fail display_idx_out_of_range)
unfolding get_num_items data_items print_txn_fields print_transfer
custom-out_of_range expert tx page_idx st mem e h =
    let fees = expert && (no_symbol tx && not tx.sections.is_masp) in
    let n = params expert 1 7 + memo_count tx + flag fees in
    let i = length (items expert tx of_custom) in
    let shorter = custom_shorter expert tx (flag fees) h in
    let small = few expert tx.memo_section fees in
    (
      n,
      i,
      ap
            (λ d.
              let num : ℕ = (data_items expert d tx.sections + memo_count tx + flag fees) % 256 in
              if num == 0 then none else some num)
            e
          ∙ counted_small n (positive expert (memo_count tx) (flag fees)) small,
      shorter,
      ap
            (λ d.
              let r : Reader Item × Indices =
                if tx.sections.is_masp
                then print_transfer expert tx d page_idx i st mem
                else (print_data expert tx d i, st) in
              r.0)
            e
          ∙ either_way tx.sections.is_masp (print_data expert tx of_custom i) st
          ∙ print_data-items expert tx of_custom i (omega (arith, shorter, small))
              (omega (arith, shorter, small))
          ∙ item_at-end (items expert tx of_custom),
    )

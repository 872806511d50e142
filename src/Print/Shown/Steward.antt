-- ===== src/Print/Shown/Steward.antt =====
-- printUpdateStewardCommission against its list of items.
use ledger_namada.Common.{
  ℕ, zero, suc, ◌+◌, ◌-◌, ◌*◌, ◌%◌, ◌^◌, ◌<◌, ◌≡◌, refl, sym, ap, ◌∙◌, arith, Bool, true, false,
  not, ◌&&◌, List, ◌++◌, ltb, ◌==◌, if◌then◌else◌, Bool-cases, inl, inr,
}
use ledger_namada.Reader.{display_idx_out_of_range, Reader, fail}
use ledger_namada.Transaction.{ParserTx, of_update_steward_commission}
use ledger_namada.Txn.Steward.{UpdateStewardCommission}
use ledger_namada.Print.{Item}
use ledger_namada.Print.Common.{has_memo, print_others, print_memo}
use ledger_namada.Print.Several.{
  minus_long, one_if, print_commission, print_update_steward_commission, print_commission,
}
use ledger_namada.Print.Items.{from_on, item_at, items, field_items, others_items, last_items}
use ledger_namada.Print.Runs.{runs, keep}
use ledger_namada.Print.Shown.Adjusted.{runs_at, runs_behind}
use ledger_namada.Print.Shown.Several.{others_at}

no_first : (r : ℕ) → (suc r == 0) ≡ false
no_first r = ground arith

-- The memo and the header behind the fields.
last_items-at :
    (memo : Bool) (show_memo : Reader Item) (rest : List (Reader Item)) (others : ℕ → Reader Item)
    (r : ℕ)
    → ((i j : ℕ) → j < 255 → i ≡ j → others i ≡ item_at rest j)
    → r < 240
    → (if memo && r == 0 then show_memo else others ((r + 256 - one_if memo) % 256))
      ≡ item_at (keep (not memo) show_memo rest) r
last_items-at false m rest others r f h = f _ r (omega arith) (omega arith)
last_items-at true m rest others zero f h = refl
last_items-at true m rest others (suc r) f h = rw (no_first r) (f _ r (omega arith) (omega arith))

module _ (expert : Bool) (tx : ParserTx) where
  pub print_update_steward_commission-items :
      (u : UpdateStewardCommission) (i : ℕ)
      → 2 * u.commission_len < 2 ^ 31
      → i < 240
      → print_update_steward_commission expert tx u i
        ≡ item_at (items expert tx (of_update_steward_commission u)) i
  unfolding print_update_steward_commission items field_items
  print_update_steward_commission-items u zero hn hi = refl
  print_update_steward_commission-items u (suc zero) hn hi = refl
  print_update_steward_commission-items u (suc (suc m)) hn hi =
      elim (Bool-cases (ltb m (2 * u.commission_len))) [
        | inl e ↦
            rw (no_first (suc m), no_second m, entry m (2 * u.commission_len) hn e)
              (ap (print_commission u.commission) (moved m)
                ∙ sym (
                    runs_at (fail display_idx_out_of_range) (last_items expert tx)
                      (print_commission u.commission) 2 (2 * u.commission_len) m (ground arith)))
        | inr e ↦
            rw
              (
                no_first (suc m),
                no_second m,
                no_entry m (2 * u.commission_len) hn e,
                memo_at m (2 * u.commission_len) hn e,
                rest_at m (2 * u.commission_len) (has_memo tx) hn hi e,
              )
              (last_items-at (has_memo tx) (print_memo tx) (others_items expert tx)
                  (print_others expert tx) (m - 2 * u.commission_len) (others_at expert tx)
                  (omega arith)
                ∙ sym (
                    runs_behind (fail display_idx_out_of_range) (last_items expert tx)
                      (print_commission u.commission) 2 (2 * u.commission_len)
                      (m - 2 * u.commission_len))
                ∙ ap
                    (runs
                      (from_on (print_commission u.commission) 2 (2 * u.commission_len)
                        ++ last_items expert tx)
                      (λ j. fail display_idx_out_of_range))
                    (together m (2 * u.commission_len) e))
      ]
    where
      no_second : (m : ℕ) → (suc (suc m) == 1) ≡ false
      no_second m = ground arith

      moved : (m : ℕ) → suc (suc m) ≡ 2 + m
      moved m = omega arith

      entry : (m n : ℕ) → n < 2 ^ 31 → ltb m n ≡ true → ltb (suc (suc m)) ((2 + n) % 2 ^ 32) ≡ true
      entry m n h e = ground arith

      no_entry :
          (m n : ℕ) → n < 2 ^ 31 → ltb m n ≡ false → ltb (suc (suc m)) ((2 + n) % 2 ^ 32) ≡ false
      no_entry m n h e = ground arith

      memo_at :
          (m n : ℕ)
          → n < 2 ^ 31
          → ltb m n ≡ false
          → ltb (suc (suc m)) ((2 + n + 1) % 2 ^ 32) ≡ (m - n == 0)
      memo_at m n h e = ground arith

      rest_at :
          (m n : ℕ) (memo : Bool)
          → n < 2 ^ 31
          → suc (suc m) < 240
          → ltb m n ≡ false
          → minus_long (suc (suc m)) (2 + n % 2 ^ 32 + one_if memo)
            ≡ (m - n + 256 - one_if memo) % 256
      rest_at m n true h hi e = ground arith
      rest_at m n false h hi e = ground arith

      together : (m n : ℕ) → ltb m n ≡ false → n + (m - n) ≡ m
      together m n e = ground arith

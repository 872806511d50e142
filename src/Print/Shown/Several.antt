-- ===== src/Print/Shown/Several.antt =====
-- The print functions with several keys, against the lists of items: printInitAccountTxn, and the
-- switch that it shares with the others.
use ledger_namada.Common.{
  ℕ, ◌+◌, ◌-◌, ◌%◌, ◌^◌, ◌≤◌, ◌<◌, ◌≡◌, refl, sym, ap, ◌∙◌, arith, Bool, true, false, not, List, [],
  ◌∷◌, ◌++◌, length, ◌==◌, if◌then◌else◌,
}
use ledger_namada.Reader.{display_idx_out_of_range, unexpected_error, Reader, fail}
use ledger_namada.Transaction.{ParserTx, of_init_account}
use ledger_namada.Txn.Fields.{Span}
use ledger_namada.Txn.Linked.{InitAccount}
use ledger_namada.Print.{Item, bump, bumps}
use ledger_namada.Print.Common.{has_memo, print_others, switch_at}
use ledger_namada.Print.Simple.{no_memo}
use ledger_namada.Print.Several.{
  adjusted_index, minus_long, one_if, print_pubkey, print_init_account_txn,
}
use ledger_namada.Print.Items.{item_at, items, field_items, others_items}
use ledger_namada.Print.Runs.{without_all, switch-runs, runs-append, runs-bumps}
use ledger_namada.Print.Shown.{print_others-items}
use ledger_namada.Print.Shown.Adjusted.{
  Adjusted, before, among, behind, adjusted_index-Adjusted, runs-several, Adjusted-below,
}

-- How many items are behind those of an account.
init_rest :
    (memo : Bool) (n i j : ℕ)
    → Adjusted 1 n i j
    → i < 240
    → 5 ≤ bumps ((4, not memo) ∷ []) j
    → minus_long i (3 + n + one_if memo) ≡ bumps ((4, not memo) ∷ []) j - 5
init_rest true n i j (before h e) hi l = ground arith
init_rest true n i j (among h m e) hi l = ground arith
init_rest true n i j (behind h e) hi l = ground arith
init_rest false n i j (before h e) hi l = ground arith
init_rest false n i j (among h m e) hi l = ground arith
init_rest false n i j (behind h e) hi l = ground arith

-- The key of a case, where there is one.
pub key_case :
    (pubkeys : Span) (first n i : ℕ)
    → first ≤ i
    → i < first + n
    → i < 240
    → (if n == 0 then fail unexpected_error else print_pubkey pubkeys ((1 + (i - first)) % 256))
      ≡ print_pubkey pubkeys (1 + (i - first))
key_case pubkeys first n i h l hi =
    rw (some_keys n i first h l, ap (print_pubkey pubkeys) (small i first hi)) refl
  where
    some_keys : (n i first : ℕ) → first ≤ i → i < first + n → (n == 0) ≡ false
    some_keys n i first h l = ground arith

    small : (i first : ℕ) → i < 240 → (1 + (i - first)) % 256 ≡ 1 + (i - first)
    small i first hi = omega arith

module _ (expert : Bool) (tx : ParserTx) where
  -- The default case where its index is that of a switch behind its cases.
  pub others_at :
      (i j : ℕ) → j < 255 → i ≡ j → print_others expert tx i ≡ item_at (others_items expert tx) j
  others_at i j h e = ap (print_others expert tx) e ∙ print_others-items tx expert j h

  -- A switch on a bumped index with a default case of its own.
  pub switch_at-items :
      (bs : List (ℕ × Bool)) (cases : List (Reader Item)) (j i : ℕ)
      → j + length bs < 255
      → (length cases ≤ bumps bs j → i ≡ bumps bs j - length cases)
      → bumps bs j - length cases < 255
      → switch_at bs cases (print_others expert tx i) j
        ≡ item_at (without_all bs (cases ++ others_items expert tx)) j
  unfolding switch_at
  switch_at-items bs cases j i h f l =
      switch-runs cases (bumps bs j) _ (item_at (others_items expert tx))
        (λ m. others_at i (bumps bs j - length cases) l (f m))
      ∙ sym (runs-append cases (others_items expert tx) _ (bumps bs j))
      ∙ runs-bumps (fail display_idx_out_of_range) bs (cases ++ others_items expert tx) j h

  bumped_below : (k : ℕ) (b : Bool) (j m : ℕ) → j < m → m < 254 → bump k b j - 5 < 255
  bumped_below k b j m h l = ground arith

  pub print_init_account_txn-items :
      (a : InitAccount) (i : ℕ)
      → a.number_of_pubkeys < 2 ^ 31
      → i < 240
      → print_init_account_txn expert tx a i ≡ item_at (items expert tx (of_init_account a)) i
  unfolding print_init_account_txn items field_items
  print_init_account_txn-items a i hn hi =
      let n = a.number_of_pubkeys in
      let j = adjusted_index 1 n i in
      let h = adjusted_index-Adjusted 1 n i (omega arith) hn hi in
      let below = Adjusted-below 1 n i j h (omega arith) hi in
      switch_at-items ((4, no_memo tx) ∷ []) _ j _ (omega (arith, below))
        (λ l. init_rest (has_memo tx) n i j h hi l)
        (bumped_below 4 (no_memo tx) j 242 below (omega arith))
      ∙ runs-several (fail display_idx_out_of_range) (_ ∷ []) _ _ (print_pubkey a.pubkeys) 1 n i j h
          (λ g l. key_case a.pubkeys 1 n i g l hi)

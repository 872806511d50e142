-- ===== src/Print/Shown/UpdateVp.antt =====
-- printUpdateVPTxn against its list of items.
use ledger_namada.Common.{
  ℕ, ◌+◌, ◌-◌, ◌^◌, ◌≤◌, ◌<◌, ◌≡◌, refl, ◌∙◌, arith, Bool, true, false, not, List, [], ◌∷◌, ◌++◌,
  ◌==◌, if◌then◌else◌, Bool-cases, inl, inr,
}
use ledger_namada.Reader.{display_idx_out_of_range, unexpected_error, Reader, pure, fail}
use ledger_namada.Transaction.{ParserTx, of_update_vp}
use ledger_namada.Txn.Linked.{UpdateVp}
use ledger_namada.Print.{decimal, Item, item, bumps}
use ledger_namada.Print.Common.{has_memo}
use ledger_namada.Print.Simple.{no_memo}
use ledger_namada.Print.Several.{
  adjusted_index, minus_long, one_if, print_pubkey, print_update_vp_txn,
}
use ledger_namada.Print.Items.{item_at, items, field_items}
use ledger_namada.Print.Runs.{keep}
use ledger_namada.Print.Shown.Adjusted.{
  Adjusted, before, among, behind, adjusted_index-Adjusted, runs-several, Adjusted-below,
}
use ledger_namada.Print.Shown.Several.{key_case, switch_at-items}

-- How many items are behind those of an update, which are behind its keys.
vp_rest :
    (threshold code memo : Bool) (n i j : ℕ)
    → j + n ≡ i + 1
    → i < 240
    → 2 + n ≤ i
    → 6 ≤ bumps ((3, threshold) ∷ (4, code) ∷ (5, not memo) ∷ []) j
    → minus_long i (5 + n - one_if threshold - one_if code - one_if (not memo))
      ≡ bumps ((3, threshold) ∷ (4, code) ∷ (5, not memo) ∷ []) j - 6
vp_rest true true true n i j e hi l m = ground arith
vp_rest true true false n i j e hi l m = ground arith
vp_rest true false true n i j e hi l m = ground arith
vp_rest true false false n i j e hi l m = ground arith
vp_rest false true true n i j e hi l m = ground arith
vp_rest false true false n i j e hi l m = ground arith
vp_rest false false true n i j e hi l m = ground arith
vp_rest false false false n i j e hi l m = ground arith

late_index :
    (threshold code none : Bool) (j : ℕ)
    → 6 ≤ bumps ((3, threshold) ∷ (4, code) ∷ (5, none) ∷ []) j
    → 3 ≤ j
late_index threshold code none j l = ground arith

vp_rest_all :
    (threshold code memo : Bool) (n i j : ℕ)
    → Adjusted 2 n i j
    → i < 240
    → 6 ≤ bumps ((3, threshold) ∷ (4, code) ∷ (5, not memo) ∷ []) j
    → minus_long i (5 + n - one_if threshold - one_if code - one_if (not memo))
      ≡ bumps ((3, threshold) ∷ (4, code) ∷ (5, not memo) ∷ []) j - 6
vp_rest_all t v memo n i j (behind h e) hi l = vp_rest t v memo n i j e hi h l
vp_rest_all t v memo n i j (before h e) hi l =
    absurd (omega (arith, late_index t v (not memo) j l, e))
vp_rest_all t v memo n i j (among h m e) hi l =
    absurd (omega (arith, late_index t v (not memo) j l, e))

-- An error in place of an absent item is never shown.
keep_present :
    (a b : Reader Item) (xs : List (Reader Item)) (n : ℕ) (c : Reader Item)
    (rest : List (Reader Item)) (i : ℕ)
    → item_at (a ∷ b ∷ (xs ++ keep (n == 0) (if n == 0 then fail unexpected_error else c) rest)) i
      ≡ item_at (a ∷ b ∷ (xs ++ keep (n == 0) c rest)) i
keep_present a b xs n c rest i = elim (Bool-cases (n == 0)) [
  | inl e ↦ rw e refl
  | inr e ↦ rw e refl
]

module _ (expert : Bool) (tx : ParserTx) where
  last_below : (a b c : Bool) (j : ℕ) → j < 242 → bumps ((3, a) ∷ (4, b) ∷ (5, c) ∷ []) j - 6 < 255
  last_below a b c j h = ground arith

  pub print_update_vp_txn-items :
      (u : UpdateVp) (i : ℕ)
      → u.number_of_pubkeys < 2 ^ 31
      → i < 240
      → print_update_vp_txn expert tx u i ≡ item_at (items expert tx (of_update_vp u)) i
  unfolding print_update_vp_txn items field_items
  print_update_vp_txn-items u i hn hi =
      let n = u.number_of_pubkeys in
      let j = adjusted_index 2 n i in
      let t = u.has_threshold == 0 in
      let v = u.has_vp_code == 0 in
      let h = adjusted_index-Adjusted 2 n i (omega arith) hn hi in
      let below = Adjusted-below 2 n i j h (omega arith) hi in
      switch_at-items expert tx ((3, t) ∷ (4, v) ∷ (5, no_memo tx) ∷ []) _ j _
        (omega (arith, below)) (λ l. vp_rest_all t v (has_memo tx) n i j h hi l)
        (last_below t v (no_memo tx) j below)
      ∙ runs-several (fail display_idx_out_of_range) (_ ∷ _ ∷ []) _ _ (print_pubkey u.pubkeys) 1 n i
          j h (λ g l. key_case u.pubkeys 2 n i g l hi)
      ∙ keep_present _ _ _ u.has_threshold (pure (item "Threshold" (decimal u.threshold))) _ i

-- ===== src/Print/Shown.antt =====
-- The print functions against the lists of items.
pub mod Simple
pub mod Adjusted
pub mod Several
pub mod UpdateVp
pub mod Steward
pub mod Proposal
use Prim.Native.String.{String}
use ledger_namada.Common.{
  ℕ, zero, suc, ◌+◌, ◌-◌, ◌%◌, ◌≤◌, ◌<◌, ◌≡◌, refl, sym, ap, ◌∙◌, arith, Bool, true, false, not,
  ◌&&◌, Option, none, some, List, [], ◌∷◌, ◌++◌, length, leb, ltb, ◌==◌, if◌then◌else◌,
  Option-cases, Bool-cases, inl, inr,
}
use ledger_namada.Reader.{display_idx_out_of_range, Reader, pure, fail}
use ledger_namada.Transaction.{ParserTx}
use ledger_namada.Print.{Item, item, address, timestamp, public_key, number, switch, bump, minus}
use ledger_namada.Print.Common.{print_expert, print_others, print_memo, fees_item, is_some}
use ledger_namada.Print.Simple.{no_memo}
use ledger_namada.Print.Items.{item_at, header_items, others_items, last_items}
use ledger_namada.Print.Runs.{runs, keep, switch-runs, runs-bump}

-- The header's items by whether the token of the fees is known.
header_end :
    (symbol : Option String) (a b c : Reader Item) (fees token : Item) (i : ℕ)
    → item_at
        (a
          ∷ b
          ∷ c
          ∷ pure (if is_some symbol then fees else token)
          ∷ keep (is_some symbol) (pure fees) [])
        i
      ≡ item_at
          (a ∷ b ∷ c ∷ elim symbol [ some s ↦ pure fees ∷ [] | none ↦ pure token ∷ pure fees ∷ [] ])
          i
header_end none a b c fees token i = refl
header_end (some s) a b c fees token i = refl

module _ (tx : ParserTx) where
  print_expert-header : (i : ℕ) → i < 255 → print_expert tx i ≡ item_at (header_items tx) i
  unfolding print_expert header_items
  print_expert-header i h =
      let others : ℕ → Reader Item = λ j. fail display_idx_out_of_range in
      let known = is_some tx.header.fees.symbol in
      let token = item "Fee token" (address tx.header.fees.address) in
      let time : Reader Item = pure (item "Timestamp" (timestamp tx.header.timestamp)) in
      let key : Reader Item = pure (item "Pubkey" (public_key tx.header.pubkey)) in
      let gas : Reader Item = pure (item "Gas limit" (number tx.header.gas_limit)) in
      let fourth : Reader Item = pure (if known then fees_item tx else token) in
      switch-runs (time ∷ key ∷ gas ∷ fourth ∷ pure (fees_item tx) ∷ []) (bump 4 known i) (others 0)
        others (λ l. refl)
      ∙ runs-bump (others 0) (time ∷ key ∷ gas ∷ fourth ∷ pure (fees_item tx) ∷ []) 4 known i h
      ∙ header_end tx.header.fees.symbol time key gas (fees_item tx) token i

module _ (tx : ParserTx) where
  -- The default case shows the header's items to experts.
  pub print_others-items :
      (expert : Bool) (i : ℕ)
      → i < 255
      → print_others expert tx i ≡ item_at (others_items expert tx) i
  unfolding print_others
  print_others-items true i h = print_expert-header tx i h
  print_others-items false i h = refl

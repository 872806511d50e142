-- ===== src/Print/Shown/Proposal.antt =====
-- printInitProposalTxn against the list of items.
use ledger_namada.Common.{
  ℕ, ◌+◌, ◌-◌, ◌%◌, ◌^◌, ◌≤◌, ◌<◌, ◌≡◌, refl, ap, ◌∙◌, arith, Bool, [], ◌∷◌, leb, Bool-cases, inl,
  inr,
}
use ledger_namada.Reader.{display_idx_out_of_range, fail}
use ledger_namada.Transaction.{ParserTx, of_init_proposal}
use ledger_namada.Txn.Proposal.{InitProposal}
use ledger_namada.Print.Proposal.{
  print_proposal, proposal_elements, adjusted_proposal_index, print_init_proposal_txn,
}
use ledger_namada.Print.Items.{item_at, items, field_items}
use ledger_namada.Print.Shown.Simple.{print_cases-items}
use ledger_namada.Print.Shown.Adjusted.{
  Adjusted, before, among, behind, Adjusted-below, runs-several,
}

adjusted_proposal_index-Adjusted :
    (n i : ℕ) → n < 2 ^ 31 → i < 240 → Adjusted 1 n i (adjusted_proposal_index n i)
adjusted_proposal_index-Adjusted n i hn hi = elim (Bool-cases (leb ((1 + n) % 2 ^ 32) i)) [
  | inl b ↦ rw b (behind (ground arith) (ground arith))
  | inr b ↦ elim (Bool-cases (leb 1 i)) [
    | inl c ↦ rw (b, c) (among (ground arith) (ground arith) refl)
    | inr c ↦ rw (b, c) (before (ground arith) refl)
  ]
]

module _ (expert : Bool) (tx : ParserTx) where
  pub print_init_proposal_txn-items :
      (p : InitProposal) (i : ℕ)
      → proposal_elements p.body < 2 ^ 31
      → i < 240
      → print_init_proposal_txn expert tx p i ≡ item_at (items expert tx (of_init_proposal p)) i
  unfolding print_init_proposal_txn items field_items
  print_init_proposal_txn-items p i hn hi =
      let n = proposal_elements p.body in
      let j = adjusted_proposal_index n i in
      let h = adjusted_proposal_index-Adjusted n i hn hi in
      let below = Adjusted-below 1 n i j h (omega arith) hi in
      print_cases-items expert tx _ _ _ j refl (omega (arith, below))
      ∙ runs-several (fail display_idx_out_of_range) (_ ∷ []) _ _ (print_proposal p) 0 n i j h
          (λ g l. ap (print_proposal p) (small i g hi))
    where
      small : (i : ℕ) → 1 ≤ i → i < 240 → (i - 1) % 256 ≡ 0 + (i - 1)
      small i g hi = omega arith

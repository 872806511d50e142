-- ===== src/Print/Shown/Simple.antt =====
-- The print functions with a fixed number of fields at most, against the lists of items.
use Prim.Native.String.{String}
use ledger_namada.Common.{
  ℕ, ◌+◌, ◌<◌, ◌≡◌, refl, ◌∙◌, arith, Bool, false, Option, none, some, List, [], ◌∷◌, ◌++◌, length,
  ◌==◌, if◌then◌else◌, Bool-cases, inl, inr,
}
use ledger_namada.Reader.{display_idx_out_of_range, unexpected_value, Reader, pure, fail}
use ledger_namada.Transaction.{
  ParserTx, of_bond, of_custom, of_transfer, of_vote_proposal, of_reveal_pubkey, of_withdraw,
  of_commission_change, of_become_validator, of_unjail_validator, of_ibc, of_redelegation,
  of_resign_steward, of_consensus_key_change, of_metadata_change, of_bridge_pool_transfer,
}
use ledger_namada.Txn.Delegation.{Bond, Redelegation}
use ledger_namada.Txn.Validator.{BecomeValidator, UnjailValidator}
use ledger_namada.Txn.Simple.{
  VoteProposal, RevealPubkey, Withdraw, CommissionChange, ConsensusKeyChange, MetadataChange,
  BridgePoolTransfer,
}
use ledger_namada.Txn.Steward.{ResignSteward}
use ledger_namada.Txn.Transfer.{Transfer}
use ledger_namada.Txn.Ibc.{Ibc}
use ledger_namada.Print.{Item, item, address, amount}
use ledger_namada.Print.Common.{is_some, print_others, print_cases}
use ledger_namada.Print.Simple.{
  symbol_text, print_bond_txn, print_resign_steward, print_transfer_txn, print_custom_txn,
  print_vote_proposal_txn, print_reveal_pubkey_txn, print_change_consensus_key_txn,
  print_unjail_validator_txn, print_become_validator_txn, print_withdraw_txn,
  print_commission_change_txn, print_ibc_txn, print_redelegate, print_change_validator_metadata,
  print_bridge_pool_transfer,
}
use ledger_namada.Print.Items.{item_at, items, field_items, others_items, last_items}
use ledger_namada.Print.Runs.{keep, without_all, switch-without}
use ledger_namada.Print.Shown.{print_others-items}

module _ (expert : Bool) (tx : ParserTx) where
  -- What a switch on a bumped index shows.
  pub print_cases-items :
      (bs : List (ℕ × Bool)) (cases : List (Reader Item)) (n i : ℕ)
      → length cases ≡ n
      → i + length bs < 255
      → print_cases expert tx bs cases n i
        ≡ item_at (without_all bs (cases ++ others_items expert tx)) i
  unfolding print_cases
  print_cases-items bs cases n i e h =
      switch-without (fail display_idx_out_of_range) bs cases (others_items expert tx)
        (print_others expert tx) n i e h (print_others-items tx expert)

  -- An error in place of an absent item is never shown.
  keep_present :
      (before : List (Reader Item)) (n : ℕ) (a : Reader Item) (rest : List (Reader Item)) (i : ℕ)
      → item_at (before ++ keep (n == 0) (if n == 0 then fail unexpected_value else a) rest) i
        ≡ item_at (before ++ keep (n == 0) a rest) i
  keep_present before n a rest i = elim (Bool-cases (n == 0)) [
    | inl e ↦ rw e refl
    | inr e ↦ rw e refl
  ]

  pub print_bond_txn-items :
      (b : Bond) (i : ℕ)
      → i < 240
      → print_bond_txn expert tx b i ≡ item_at (items expert tx (of_bond b)) i
  unfolding print_bond_txn items field_items
  print_bond_txn-items b i h =
      print_cases-items _ _ _ i refl (omega arith)
      ∙ keep_present (_ ∷ []) b.has_source (pure (item "Source" (address b.source))) _ i

  pub print_resign_steward-items :
      (r : ResignSteward) (i : ℕ)
      → i < 240
      → print_resign_steward expert tx r i ≡ item_at (items expert tx (of_resign_steward r)) i
  unfolding print_resign_steward items field_items
  print_resign_steward-items r i h = print_cases-items _ _ _ i refl (omega arith)

  pub print_vote_proposal_txn-items :
      (v : VoteProposal) (i : ℕ)
      → i < 240
      → print_vote_proposal_txn expert tx v i ≡ item_at (items expert tx (of_vote_proposal v)) i
  unfolding print_vote_proposal_txn items field_items
  print_vote_proposal_txn-items v i h = print_cases-items _ _ _ i refl (omega arith)

  pub print_reveal_pubkey_txn-items :
      (r : RevealPubkey) (i : ℕ)
      → i < 240
      → print_reveal_pubkey_txn expert tx r i ≡ item_at (items expert tx (of_reveal_pubkey r)) i
  unfolding print_reveal_pubkey_txn items field_items
  print_reveal_pubkey_txn-items r i h = print_cases-items _ _ _ i refl (omega arith)

  pub print_change_consensus_key_txn-items :
      (c : ConsensusKeyChange) (i : ℕ)
      → i < 240
      → print_change_consensus_key_txn expert tx c i
        ≡ item_at (items expert tx (of_consensus_key_change c)) i
  unfolding print_change_consensus_key_txn items field_items
  print_change_consensus_key_txn-items c i h = print_cases-items _ _ _ i refl (omega arith)

  pub print_unjail_validator_txn-items :
      (u : UnjailValidator) (i : ℕ)
      → i < 240
      → print_unjail_validator_txn expert tx u i
        ≡ item_at (items expert tx (of_unjail_validator u)) i
  unfolding print_unjail_validator_txn items field_items
  print_unjail_validator_txn-items u i h = print_cases-items _ _ _ i refl (omega arith)

  pub print_become_validator_txn-items :
      (b : BecomeValidator) (i : ℕ)
      → i < 240
      → print_become_validator_txn expert tx b i
        ≡ item_at (items expert tx (of_become_validator b)) i
  unfolding print_become_validator_txn items field_items
  print_become_validator_txn-items b i h = print_cases-items _ _ _ i refl (omega arith)

  pub print_commission_change_txn-items :
      (c : CommissionChange) (i : ℕ)
      → i < 240
      → print_commission_change_txn expert tx c i
        ≡ item_at (items expert tx (of_commission_change c)) i
  unfolding print_commission_change_txn items field_items
  print_commission_change_txn-items c i h = print_cases-items _ _ _ i refl (omega arith)

  pub print_ibc_txn-items :
      (b : Ibc) (i : ℕ)
      → i < 240
      → print_ibc_txn expert tx b i ≡ item_at (items expert tx (of_ibc b)) i
  unfolding print_ibc_txn items field_items
  print_ibc_txn-items b i h = print_cases-items _ _ _ i refl (omega arith)

  pub print_redelegate-items :
      (r : Redelegation) (i : ℕ)
      → i < 240
      → print_redelegate expert tx r i ≡ item_at (items expert tx (of_redelegation r)) i
  unfolding print_redelegate items field_items
  print_redelegate-items r i h = print_cases-items _ _ _ i refl (omega arith)

  pub print_change_validator_metadata-items :
      (m : MetadataChange) (i : ℕ)
      → i < 240
      → print_change_validator_metadata expert tx m i
        ≡ item_at (items expert tx (of_metadata_change m)) i
  unfolding print_change_validator_metadata items field_items
  print_change_validator_metadata-items m i h = print_cases-items _ _ _ i refl (omega arith)

  pub print_bridge_pool_transfer-items :
      (b : BridgePoolTransfer) (i : ℕ)
      → i < 240
      → print_bridge_pool_transfer expert tx b i
        ≡ item_at (items expert tx (of_bridge_pool_transfer b)) i
  unfolding print_bridge_pool_transfer items field_items
  print_bridge_pool_transfer-items b i h = print_cases-items _ _ _ i refl (omega arith)

  pub print_withdraw_txn-items :
      (w : Withdraw) (i : ℕ)
      → i < 240
      → print_withdraw_txn expert tx w i ≡ item_at (items expert tx (of_withdraw w)) i
  unfolding print_withdraw_txn items field_items
  print_withdraw_txn-items w i h =
      print_cases-items _ _ _ i refl (omega arith)
      ∙ keep_present (_ ∷ []) w.has_source (pure (item "Source" (address w.source))) _ i

  pub print_custom_txn-items :
      (i : ℕ) → i < 240 → print_custom_txn expert tx i ≡ item_at (items expert tx of_custom) i
  unfolding print_custom_txn items field_items
  print_custom_txn-items i h = print_cases-items _ _ _ i refl (omega arith)

  -- The amount of a transfer by whether its token is known.
  transfer_end :
      (symbol : Option String) (a b c token : Reader Item) (t : Transfer) (i : ℕ)
      → item_at
          (a
            ∷ b
            ∷ c
            ∷ pure (
                if is_some symbol
                then item "Amount" (amount t.amount false t.amount_denom (symbol_text symbol))
                else item "Token" (address t.token))
            ∷ keep
                (is_some symbol)
                (pure (item "Amount" (amount t.amount false t.amount_denom "")))
                (last_items expert tx))
          i
        ≡ item_at
            (a ∷ b ∷ c ∷ elim symbol [
              | some s ↦
                  pure (item "Amount" (amount t.amount false t.amount_denom s))
                  ∷ last_items expert tx
              | none ↦
                  pure (item "Token" (address t.token))
                  ∷ pure (item "Amount" (amount t.amount false t.amount_denom ""))
                  ∷ last_items expert tx
            ])
            i
  transfer_end none a b c token t i = refl
  transfer_end (some s) a b c token t i = refl

  pub print_transfer_txn-items :
      (t : Transfer) (i : ℕ)
      → i < 240
      → print_transfer_txn expert tx t i ≡ item_at (items expert tx (of_transfer t)) i
  unfolding print_transfer_txn items field_items
  print_transfer_txn-items t i h =
      print_cases-items _ _ _ i refl (omega arith)
      ∙ transfer_end t.symbol _ _ _ (pure (item "Token" (address t.token))) t i

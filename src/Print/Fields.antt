-- ===== src/Print/Fields.antt =====
-- printTxnFields of app/src/parser_print_txn.c
use ledger_namada.Common.{ℕ, Bool, if◌then◌else◌}
use ledger_namada.Reader.{Reader}
use ledger_namada.Transaction.{
  ParserTx, TxData, of_bond, of_custom, of_transfer, of_init_account, of_init_proposal,
  of_vote_proposal, of_reveal_pubkey, of_withdraw, of_commission_change, of_become_validator,
  of_update_vp, of_unjail_validator, of_ibc, of_redelegation, of_resign_steward,
  of_consensus_key_change, of_update_steward_commission, of_metadata_change,
  of_bridge_pool_transfer,
}
use ledger_namada.Print.{Item}
use ledger_namada.Print.Simple.{
  print_bond_txn, print_resign_steward, print_transfer_txn, print_custom_txn,
  print_vote_proposal_txn, print_reveal_pubkey_txn, print_change_consensus_key_txn,
  print_unjail_validator_txn, print_become_validator_txn, print_withdraw_txn,
  print_commission_change_txn, print_ibc_txn, print_redelegate, print_change_validator_metadata,
  print_bridge_pool_transfer,
}
use ledger_namada.Print.Several.{
  print_init_account_txn, print_update_vp_txn, print_update_steward_commission,
}
use ledger_namada.Print.Proposal.{print_init_proposal_txn}
use ledger_namada.Print.Masp.{Indices, print_masp_transfer_txn}

module _ (expert : Bool) (tx : ParserTx) where
  -- The cases that do not touch the static indices. The union's member stands for typeTx.
  unfoldable pub print_data : TxData → ℕ → Reader Item
  print_data (of_bond b) = print_bond_txn expert tx b
  print_data of_custom = print_custom_txn expert tx
  print_data (of_transfer t) = print_transfer_txn expert tx t
  print_data (of_init_account a) = print_init_account_txn expert tx a
  print_data (of_init_proposal p) = print_init_proposal_txn expert tx p
  print_data (of_vote_proposal v) = print_vote_proposal_txn expert tx v
  print_data (of_reveal_pubkey r) = print_reveal_pubkey_txn expert tx r
  print_data (of_withdraw w) = print_withdraw_txn expert tx w
  print_data (of_commission_change c) = print_commission_change_txn expert tx c
  print_data (of_become_validator b) = print_become_validator_txn expert tx b
  print_data (of_update_vp u) = print_update_vp_txn expert tx u
  print_data (of_unjail_validator u) = print_unjail_validator_txn expert tx u
  print_data (of_ibc b) = print_ibc_txn expert tx b
  print_data (of_redelegation r) = print_redelegate expert tx r
  print_data (of_resign_steward r) = print_resign_steward expert tx r
  print_data (of_consensus_key_change c) = print_change_consensus_key_txn expert tx c
  print_data (of_update_steward_commission u) = print_update_steward_commission expert tx u
  print_data (of_metadata_change m) = print_change_validator_metadata expert tx m
  print_data (of_bridge_pool_transfer b) = print_bridge_pool_transfer expert tx b

  unfoldable pub print_transfer : TxData → ℕ → ℕ → Indices → (ℕ → ℕ) → Reader Item × Indices
  print_transfer (of_transfer t) page_idx i st mem =
      print_masp_transfer_txn expert tx t page_idx i st mem
  print_transfer d page_idx i st mem = (print_data d i, st)

  unfoldable pub print_txn_fields : ℕ → ℕ → Indices → (ℕ → ℕ) → Reader Item × Indices
  print_txn_fields page_idx i st mem =
      if tx.sections.is_masp
      then print_transfer tx.tx_data page_idx i st mem
      else (print_data tx.tx_data i, st)

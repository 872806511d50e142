-- ===== src/Transaction/Safe.antt =====
-- The switch on the type in validateTransactionParams of app/src/parser_impl_txn.c, in the context of
-- the data section, against the predicate of memory safety.
use ledger_namada.Common.{◌≡◌, ◌≢◌, refl, length}
use ledger_namada.Crypto.{Library}
use ledger_namada.Reader.Safe.{Safe, Safe-bind, Safe-pure}
use ledger_namada.Sections.All.{Sections}
use ledger_namada.Transaction.{
  TransactionType, bond, unbond, transfer, init_account, init_proposal, vote_proposal,
  become_validator, reveal_pubkey, update_vp, custom, withdraw, commission_change, ibc,
  unjail_validator, deactivate_validator, reactivate_validator, redelegate, claim_rewards,
  resign_steward, change_consensus_key, update_steward_commission, change_validator_metadata,
  bridge_pool_transfer, read_tx_data,
}
use ledger_namada.Txn.Safe.{
  Safe-read_bond_unbond, Safe-read_redelegate, Safe-read_become_validator,
  Safe-read_unjail_validator, Safe-read_activate_validator, Safe-read_vote_proposal_txn,
  Safe-read_reveal_pubkey_txn, Safe-read_withdraw_txn, Safe-read_commission_change_txn,
  Safe-read_change_consensus_key, Safe-read_change_validator_metadata,
  Safe-read_bridge_pool_transfer, Safe-read_resign_steward, Safe-read_update_steward_commission,
}
use ledger_namada.Txn.LinkedSafe.{
  Safe-read_transfer_txn, Safe-read_init_account_txn, Safe-read_init_proposal_txn,
}

-- For every transaction type but IBC and UpdateVP, where the array of extra data has its 4 elements, the
-- reader of the data section looks at no byte outside that section (slack 0), stays inside it where it
-- succeeds, and makes no access outside the array.
pub Safe-read_tx_data :
    (lib : Library) (type : TransactionType) (st : Sections)
    → type ≢ ibc
    → type ≢ update_vp
    → length st.extra_data ≡ 4
    → Safe 0 (read_tx_data lib type st)
unfolding read_tx_data
Safe-read_tx_data lib bond st ni nu size = Safe-bind _ _ Safe-read_bond_unbond λ x. Safe-pure _
Safe-read_tx_data lib unbond st ni nu size = Safe-bind _ _ Safe-read_bond_unbond λ x. Safe-pure _
Safe-read_tx_data lib custom st ni nu size = Safe-pure _
Safe-read_tx_data lib transfer st ni nu size =
    Safe-bind _ _ (Safe-read_transfer_txn lib) λ x. Safe-pure _
Safe-read_tx_data lib init_account st ni nu size =
    Safe-bind _ _ (Safe-read_init_account_txn lib st.extra_data st.extra_data_len size)
      λ x. Safe-pure _
Safe-read_tx_data lib init_proposal st ni nu size =
    Safe-bind _ _ (Safe-read_init_proposal_txn lib st.extra_data st.extra_data_len size)
      λ x. Safe-pure _
Safe-read_tx_data lib vote_proposal st ni nu size =
    Safe-bind _ _ Safe-read_vote_proposal_txn λ x. Safe-pure _
Safe-read_tx_data lib reveal_pubkey st ni nu size =
    Safe-bind _ _ Safe-read_reveal_pubkey_txn λ x. Safe-pure _
Safe-read_tx_data lib claim_rewards st ni nu size =
    Safe-bind _ _ Safe-read_withdraw_txn λ x. Safe-pure _
Safe-read_tx_data lib withdraw st ni nu size = Safe-bind _ _ Safe-read_withdraw_txn λ x. Safe-pure _
Safe-read_tx_data lib commission_change st ni nu size =
    Safe-bind _ _ Safe-read_commission_change_txn λ x. Safe-pure _
Safe-read_tx_data lib become_validator st ni nu size =
    Safe-bind _ _ (Safe-read_become_validator st.extra_data_len) λ x. Safe-pure _
Safe-read_tx_data lib update_vp st ni nu size = absurd (nu refl)
Safe-read_tx_data lib unjail_validator st ni nu size =
    Safe-bind _ _ Safe-read_unjail_validator λ x. Safe-pure _
Safe-read_tx_data lib ibc st ni nu size = absurd (ni refl)
Safe-read_tx_data lib reactivate_validator st ni nu size =
    Safe-bind _ _ Safe-read_activate_validator λ x. Safe-pure _
Safe-read_tx_data lib deactivate_validator st ni nu size =
    Safe-bind _ _ Safe-read_activate_validator λ x. Safe-pure _
Safe-read_tx_data lib redelegate st ni nu size = Safe-bind _ _ Safe-read_redelegate λ x. Safe-pure _
Safe-read_tx_data lib resign_steward st ni nu size =
    Safe-bind _ _ Safe-read_resign_steward λ x. Safe-pure _
Safe-read_tx_data lib change_consensus_key st ni nu size =
    Safe-bind _ _ Safe-read_change_consensus_key λ x. Safe-pure _
Safe-read_tx_data lib update_steward_commission st ni nu size =
    Safe-bind _ _ Safe-read_update_steward_commission λ x. Safe-pure _
Safe-read_tx_data lib change_validator_metadata st ni nu size =
    Safe-bind _ _ Safe-read_change_validator_metadata λ x. Safe-pure _
Safe-read_tx_data lib bridge_pool_transfer st ni nu size =
    Safe-bind _ _ Safe-read_bridge_pool_transfer λ x. Safe-pure _

-- ===== src/Transaction.antt =====
-- The parsed transaction and its checks: readTransactionType and validateTransactionParams of
-- app/src/parser_impl_txn.c, _read of app/src/parser_impl.c and parser_parse of app/src/parser.c.
pub mod Items
pub mod Safe
pub mod Accepted
pub mod Signable
mod Tests
use Prim.Native.String.{String}
use ledger_namada.Common.{
  ℕ, zero, suc, ◌+◌, ◌%◌, ◌^◌, Bool, true, false, Option, none, some, List, [], ◌∷◌, eq_list, ◌==◌,
  if◌then◌else◌,
}
use ledger_namada.Reader.{
  unexpected_error, unexpected_unparsed_bytes, init_context_empty, Ctx, Outcome, ok, err, fault,
  Reader, Ptr, null, Bytes, ◌>>=◌, ◌>>◌, pure, fail, expect_end, is_all_zeroes, open_bytes,
}
use ledger_namada.Crypto.{Library, Section, hash_extra_data_section}
use ledger_namada.Header.{Header, read_header}
use ledger_namada.Masp.Builder.{RandCounts}
use ledger_namada.Sections.All.{Sections, read_sections}
use ledger_namada.Txn.Delegation.{Bond, read_bond_unbond, Redelegation, read_redelegate}
use ledger_namada.Txn.Validator.{
  BecomeValidator, read_become_validator, UnjailValidator, read_unjail_validator,
  read_activate_validator,
}
use ledger_namada.Txn.Simple.{
  VoteProposal, read_vote_proposal_txn, RevealPubkey, read_reveal_pubkey_txn, Withdraw,
  read_withdraw_txn, CommissionChange, read_commission_change_txn, ConsensusKeyChange,
  read_change_consensus_key, MetadataChange, read_change_validator_metadata, BridgePoolTransfer,
  read_bridge_pool_transfer,
}
use ledger_namada.Txn.Steward.{
  ResignSteward, read_resign_steward, UpdateStewardCommission, read_update_steward_commission,
}
use ledger_namada.Txn.Transfer.{Transfer, read_transfer_txn}
use ledger_namada.Txn.Linked.{
  InitAccount, read_init_account_txn, UpdateVp, read_update_vp_txn, tag_is, section_at,
  hash_or_error,
}
use ledger_namada.Txn.Proposal.{InitProposal, read_init_proposal_txn}
use ledger_namada.Txn.Ibc.{Ibc, read_ibc_txn}

-- transaction_type_e
pub data TransactionType : Type 0 where
  bond unbond transfer init_account init_proposal vote_proposal : TransactionType
  become_validator reveal_pubkey update_vp custom withdraw commission_change : TransactionType
  ibc unjail_validator deactivate_validator reactivate_validator redelegate : TransactionType
  claim_rewards resign_steward change_consensus_key update_steward_commission : TransactionType
  change_validator_metadata bridge_pool_transfer : TransactionType

-- The union of parser_tx_t.
pub data TxData : Type 0 where
  of_bond : Bond → TxData
  of_custom : TxData
  of_transfer : Transfer → TxData
  of_init_account : InitAccount → TxData
  of_init_proposal : InitProposal → TxData
  of_vote_proposal : VoteProposal → TxData
  of_reveal_pubkey : RevealPubkey → TxData
  of_withdraw : Withdraw → TxData
  of_commission_change : CommissionChange → TxData
  of_become_validator : BecomeValidator → TxData
  of_update_vp : UpdateVp → TxData
  of_unjail_validator : UnjailValidator → TxData
  of_ibc : Ibc → TxData
  of_redelegation : Redelegation → TxData
  of_resign_steward : ResignSteward → TxData
  of_consensus_key_change : ConsensusKeyChange → TxData
  of_update_steward_commission : UpdateStewardCommission → TxData
  of_metadata_change : MetadataChange → TxData
  of_bridge_pool_transfer : BridgePoolTransfer → TxData

-- parser_tx_t; memo_section is the index of header.memoSection in the array of extra data.
pub record ParserTx : Type 0 where
  pub type_tx : TransactionType
  pub tx_data : TxData
  pub header : Header
  pub sections : Sections
  pub memo_section : Option ℕ

-- app/src/allowed_transactions.h
abbrev pub allowed_txn : List (String × TransactionType)
allowed_txn =
    ("tx_bond.wasm", bond)
    ∷ ("tx_unbond.wasm", unbond)
    ∷ ("tx_redelegate.wasm", redelegate)
    ∷ ("tx_init_account.wasm", init_account)
    ∷ ("tx_init_proposal.wasm", init_proposal)
    ∷ ("tx_vote_proposal.wasm", vote_proposal)
    ∷ ("tx_become_validator.wasm", become_validator)
    ∷ ("tx_reveal_pk.wasm", reveal_pubkey)
    ∷ ("tx_transfer.wasm", transfer)
    ∷ ("tx_update_account.wasm", update_vp)
    ∷ ("tx_withdraw.wasm", withdraw)
    ∷ ("tx_change_validator_commission.wasm", commission_change)
    ∷ ("tx_unjail_validator.wasm", unjail_validator)
    ∷ ("tx_ibc.wasm", ibc)
    ∷ ("tx_deactivate_validator.wasm", deactivate_validator)
    ∷ ("tx_reactivate_validator.wasm", reactivate_validator)
    ∷ ("tx_claim_rewards.wasm", claim_rewards)
    ∷ ("tx_resign_steward.wasm", resign_steward)
    ∷ ("tx_change_consensus_key.wasm", change_consensus_key)
    ∷ ("tx_update_steward_commission.wasm", update_steward_commission)
    ∷ ("tx_change_validator_metadata.wasm", change_validator_metadata)
    ∷ ("tx_bridge_pool.wasm", bridge_pool_transfer)
    ∷ []

-- The first entry whose tag is the code's, or Custom.
unfoldable pub find_type : Bytes → List (String × TransactionType) → TransactionType
find_type tag [] = custom
find_type tag ((name, type) ∷ rest) = if tag_is tag name then type else find_type tag rest

unfoldable pub read_transaction_type : Bytes → TransactionType
read_transaction_type tag = elim tag.ptr [ null ↦ custom | _ ↦ find_type tag allowed_txn ]

-- A reader of the data section in a context of its own; the outer context stays.
unfoldable pub in_bytes : {A : Type 0} → Bytes → Reader A → Reader A
in_bytes b m c = elim (m (open_bytes c.mem b)) [ ok a d ↦ ok a c | err e ↦ err e | fault ↦ fault ]

module _ (lib : Library) where
  -- The loop over the extra data sections: the last one with the memo's hash.
  unfoldable pub find_memo : List Section → List ℕ → ℕ → ℕ → Option ℕ → Reader (Option ℕ)
  find_memo extra memo_hash zero i found = pure found
  find_memo extra memo_hash (suc n) i found = do
    s ← section_at extra i
    h ← hash_or_error (hash_extra_data_section lib s)
    find_memo extra memo_hash n (i + 1) (if eq_list h memo_hash then some i else found)

  unfoldable pub read_memo : Header → Sections → Reader (Option ℕ)
  read_memo header st = if is_all_zeroes header.memo_hash.content then pure none else (do
    found ← find_memo st.extra_data header.memo_hash.content st.extra_data_len 0 none
    elim found [ none ↦ fail unexpected_error | some i ↦ pure (some i) ])

  -- The switch on the type, in the context of the data section.
  unfoldable pub read_tx_data : TransactionType → Sections → Reader TxData
  read_tx_data bond st = do x ← read_bond_unbond; pure (of_bond x)
  read_tx_data unbond st = do x ← read_bond_unbond; pure (of_bond x)
  read_tx_data custom st = pure of_custom
  read_tx_data transfer st = do x ← read_transfer_txn lib; pure (of_transfer x)
  read_tx_data init_account st = do
    x ← read_init_account_txn lib st.extra_data st.extra_data_len
    pure (of_init_account x)
  read_tx_data init_proposal st = do
    x ← read_init_proposal_txn lib st.extra_data st.extra_data_len
    pure (of_init_proposal x)
  read_tx_data vote_proposal st = do x ← read_vote_proposal_txn; pure (of_vote_proposal x)
  read_tx_data reveal_pubkey st = do x ← read_reveal_pubkey_txn; pure (of_reveal_pubkey x)
  read_tx_data claim_rewards st = do x ← read_withdraw_txn; pure (of_withdraw x)
  read_tx_data withdraw st = do x ← read_withdraw_txn; pure (of_withdraw x)
  read_tx_data commission_change st = do
    x ← read_commission_change_txn
    pure (of_commission_change x)
  read_tx_data become_validator st = do
    x ← read_become_validator st.extra_data_len
    pure (of_become_validator x)
  read_tx_data update_vp st = do
    x ← read_update_vp_txn lib st.extra_data st.extra_data_len
    pure (of_update_vp x)
  read_tx_data unjail_validator st = do x ← read_unjail_validator; pure (of_unjail_validator x)
  read_tx_data ibc st = do x ← read_ibc_txn; pure (of_ibc x)
  read_tx_data reactivate_validator st = do
    x ← read_activate_validator
    pure (of_unjail_validator x)
  read_tx_data deactivate_validator st = do
    x ← read_activate_validator
    pure (of_unjail_validator x)
  read_tx_data redelegate st = do x ← read_redelegate; pure (of_redelegation x)
  read_tx_data resign_steward st = do x ← read_resign_steward; pure (of_resign_steward x)
  read_tx_data change_consensus_key st = do
    x ← read_change_consensus_key
    pure (of_consensus_key_change x)
  read_tx_data update_steward_commission st = do
    x ← read_update_steward_commission
    pure (of_update_steward_commission x)
  read_tx_data change_validator_metadata st = do
    x ← read_change_validator_metadata
    pure (of_metadata_change x)
  read_tx_data bridge_pool_transfer st = do
    x ← read_bridge_pool_transfer
    pure (of_bridge_pool_transfer x)

  unfoldable pub validate_transaction_params : Header → Sections → Reader ParserTx
  validate_transaction_params header st = do
    memo_section ← read_memo header st
    let type_tx = read_transaction_type st.code.tag
    tx_data ← in_bytes st.data_section.bytes (read_tx_data type_tx st)
    pure (record {
      type_tx = type_tx;
      tx_data = tx_data;
      header = header;
      sections = st;
      memo_section = memo_section;
    })

  -- _read
  unfoldable pub read_transaction : RandCounts → Reader ParserTx
  read_transaction rand = do
    header ← read_header lib
    sections ← read_sections lib rand header
    tx ← validate_transaction_params header sections
    expect_end unexpected_unparsed_bytes
    pure tx

  -- parser_parse over the memory at `buffer`; the length is cut to the uint16_t bufferSize.
  unfoldable pub parser_parse : RandCounts → (ℕ → ℕ) → ℕ → ℕ → Outcome ParserTx
  parser_parse rand mem buffer data_len =
      if data_len % 2 ^ 16 == 0
      then err init_context_empty
      else read_transaction rand
          (record { mem = mem; buffer = buffer; buffer_len = data_len % 2 ^ 16; offset = 0 })

-- ===== src/Print/Simple.antt =====
-- The print functions of app/src/parser_print_txn.c and of app/src/txn_delegation.c for the transactions
-- with a fixed number of fields at most.
use Prim.Native.String.{String}
use ledger_namada.Common.{
  ℕ, Bool, true, false, not, Option, none, some, [], ◌∷◌, ltb, ◌==◌, if◌then◌else◌,
}
use ledger_namada.Reader.{unexpected_value, Reader, Bytes, null, pure, fail}
use ledger_namada.Transaction.{
  ParserTx, TransactionType, unbond, claim_rewards, deactivate_validator, reactivate_validator,
}
use ledger_namada.Txn.Delegation.{Bond, Redelegation}
use ledger_namada.Txn.Validator.{BecomeValidator, UnjailValidator}
use ledger_namada.Txn.Simple.{
  VoteProposal, RevealPubkey, Withdraw, CommissionChange, ConsensusKeyChange, MetadataChange,
  BridgePoolTransfer,
}
use ledger_namada.Txn.Steward.{ResignSteward}
use ledger_namada.Txn.Transfer.{Transfer}
use ledger_namada.Txn.Ibc.{Ibc}
use ledger_namada.Print.{
  Item, item, Value, words, address, amount, public_key, page_hex, page_ext, page_number, ethereum,
  height, date, joined, loose_address, untouched,
}
use ledger_namada.Print.Common.{has_memo, is_some, print_type, print_memo, print_cases}

abbrev pub coin_amount_decimal_places : ℕ
coin_amount_decimal_places = 6

abbrev pub coin_ticker : String
coin_ticker = "NAM "

abbrev pub pos_decimal_precision : ℕ
pos_decimal_precision = 12

abbrev pub is_null : Bytes → Bool
is_null b = elim b.ptr [ null ↦ true | _ ↦ false ]

-- `b.len > 0 ? pageStringExt : ""`
abbrev pub text_or_empty : Bytes → Value
text_or_empty b = if ltb 0 b.len then page_ext b else words ""

abbrev pub no_memo : ParserTx → Bool
no_memo tx = not (has_memo tx)

abbrev pub bond_name : TransactionType → String
bond_name unbond = "Unbond"
bond_name _ = "Bond"

abbrev pub symbol_text : Option String → String
symbol_text none = ""
symbol_text (some s) = s

abbrev pub vote_name : ℕ → Value
vote_name vote =
    if vote == 0
    then words "yay"
    else if vote == 1
    then words "nay"
    else if vote == 2
    then words "abstain"
    else untouched

-- printUnjailValidatorTxn and printActivateValidator, which differ in the name only
abbrev pub validator_name : TransactionType → String
validator_name deactivate_validator = "Deactivate Validator"
validator_name reactivate_validator = "Reactivate Validator"
validator_name _ = "Unjail Validator"

abbrev pub withdraw_name : TransactionType → String
withdraw_name claim_rewards = "Claim Rewards"
withdraw_name _ = "Withdraw"

abbrev pub kind_name : ℕ → String
kind_name kind = if kind == 1 then "NUT" else "ERC20"

module _ (expert : Bool) (tx : ParserTx) where
  unfoldable pub print_bond_txn : Bond → ℕ → Reader Item
  print_bond_txn b display_idx =
      print_cases expert tx ((1, b.has_source == 0) ∷ (4, no_memo tx) ∷ [])
        (pure (print_type expert tx (bond_name tx.type_tx))
          ∷ (if b.has_source == 0
              then fail unexpected_value
              else pure (item "Source" (address b.source)))
          ∷ pure (item "Validator" (address b.validator))
          ∷ pure (item "Amount" (amount b.amount false coin_amount_decimal_places coin_ticker))
          ∷ print_memo tx
          ∷ [])
        5 display_idx

  unfoldable pub print_resign_steward : ResignSteward → ℕ → Reader Item
  print_resign_steward r display_idx =
      print_cases expert tx ((2, no_memo tx) ∷ [])
        (pure (print_type expert tx "Resign Steward")
          ∷ pure (item "Steward" (address r.steward))
          ∷ print_memo tx
          ∷ [])
        3 display_idx

  unfoldable pub print_transfer_txn : Transfer → ℕ → Reader Item
  print_transfer_txn t display_idx =
      print_cases expert tx ((4, is_some t.symbol) ∷ (5, no_memo tx) ∷ [])
        (pure (print_type expert tx "Transfer")
          ∷ pure (item "Sender" (address t.source_address))
          ∷ pure (item "Destination" (address t.target_address))
          ∷ pure (
              if is_some t.symbol
              then item "Amount" (amount t.amount false t.amount_denom (symbol_text t.symbol))
              else item "Token" (address t.token))
          ∷ pure (item "Amount" (amount t.amount false t.amount_denom ""))
          ∷ print_memo tx
          ∷ [])
        6 display_idx

  unfoldable pub print_custom_txn : ℕ → Reader Item
  print_custom_txn display_idx =
      print_cases expert tx [] (pure (print_type expert tx "Custom") ∷ []) 1 display_idx

  unfoldable pub print_vote_proposal_txn : VoteProposal → ℕ → Reader Item
  print_vote_proposal_txn v display_idx =
      print_cases expert tx ((4, no_memo tx) ∷ [])
        (pure (print_type expert tx "Vote Proposal")
          ∷ pure (item "ID" (page_number 30 v.proposal_id))
          ∷ pure (item "Vote" (vote_name v.proposal_vote))
          ∷ pure (item "Voter" (address v.voter))
          ∷ print_memo tx
          ∷ [])
        5 display_idx

  unfoldable pub print_reveal_pubkey_txn : RevealPubkey → ℕ → Reader Item
  print_reveal_pubkey_txn r display_idx =
      print_cases expert tx ((2, no_memo tx) ∷ [])
        (pure (print_type expert tx "Reveal Pubkey")
          ∷ pure (item "Public key" (public_key r.pubkey))
          ∷ print_memo tx
          ∷ [])
        3 display_idx

  unfoldable pub print_change_consensus_key_txn : ConsensusKeyChange → ℕ → Reader Item
  print_change_consensus_key_txn c display_idx =
      print_cases expert tx ((3, no_memo tx) ∷ [])
        (pure (print_type expert tx "Change consensus key")
          ∷ pure (item "New consensus key" (public_key c.consensus_key))
          ∷ pure (item "Validator" (address c.validator))
          ∷ print_memo tx
          ∷ [])
        4 display_idx

  unfoldable pub print_unjail_validator_txn : UnjailValidator → ℕ → Reader Item
  print_unjail_validator_txn u display_idx =
      print_cases expert tx ((2, no_memo tx) ∷ [])
        (pure (print_type expert tx (validator_name tx.type_tx))
          ∷ pure (item "Validator" (address u.validator))
          ∷ print_memo tx
          ∷ [])
        3 display_idx

  unfoldable pub print_become_validator_txn : BecomeValidator → ℕ → Reader Item
  print_become_validator_txn b display_idx =
      print_cases expert tx
        ((9, is_null b.description)
          ∷ (10, is_null b.website)
          ∷ (11, is_null b.discord_handle)
          ∷ (12, no_memo tx)
          ∷ [])
        (pure (print_type expert tx "Init Validator")
          ∷ pure (item "Address" (address b.address))
          ∷ pure (item "Consensus key" (public_key b.consensus_key))
          ∷ pure (item "Ethereum cold key" (page_hex b.eth_cold_key.content))
          ∷ pure (item "Ethereum hot key" (page_hex b.eth_hot_key.content))
          ∷ pure (item "Protocol key" (public_key b.protocol_key))
          ∷ pure (item "Commission rate" (amount b.commission_rate true pos_decimal_precision ""))
          ∷ pure (
              item "Maximum commission rate change"
                (amount b.max_commission_rate_change true pos_decimal_precision ""))
          ∷ pure (item "Email" (text_or_empty b.email))
          ∷ pure (item "Description" (text_or_empty b.description))
          ∷ pure (item "Website" (page_ext b.website))
          ∷ pure (item "Discord handle" (page_ext b.discord_handle))
          ∷ print_memo tx
          ∷ [])
        13 display_idx

  unfoldable pub print_withdraw_txn : Withdraw → ℕ → Reader Item
  print_withdraw_txn w display_idx =
      print_cases expert tx ((1, w.has_source == 0) ∷ (3, no_memo tx) ∷ [])
        (pure (print_type expert tx (withdraw_name tx.type_tx))
          ∷ (if w.has_source == 0
              then fail unexpected_value
              else pure (item "Source" (address w.source)))
          ∷ pure (item "Validator" (address w.validator))
          ∷ print_memo tx
          ∷ [])
        4 display_idx

  unfoldable pub print_commission_change_txn : CommissionChange → ℕ → Reader Item
  print_commission_change_txn c display_idx =
      print_cases expert tx ((3, no_memo tx) ∷ [])
        (pure (print_type expert tx "Change commission")
          ∷ pure (item "New rate" (amount c.new_rate true pos_decimal_precision ""))
          ∷ pure (item "Validator" (address c.validator))
          ∷ print_memo tx
          ∷ [])
        4 display_idx

  unfoldable pub print_ibc_txn : Ibc → ℕ → Reader Item
  print_ibc_txn b display_idx =
      print_cases expert tx ((8, no_memo tx) ∷ [])
        (pure (print_type expert tx "IBC")
          ∷ pure (item "Source port" (page_ext b.port_id))
          ∷ pure (item "Source channel" (page_ext b.channel_id))
          ∷ pure (item "Token" (joined b.token_amount b.token_address " "))
          ∷ pure (item "Sender" (page_ext b.sender_address))
          ∷ pure (item "Receiver" (page_ext b.receiver))
          ∷ pure (
              item "Timeout height" (
                if b.timeout_height_type == 0
                then words "no timeout"
                else height b.revision_number b.revision_height))
          ∷ pure (item "Timeout timestamp" (date b.timeout_timestamp))
          ∷ print_memo tx
          ∷ [])
        9 display_idx

  -- printRedelegate
  unfoldable pub print_redelegate : Redelegation → ℕ → Reader Item
  print_redelegate r display_idx =
      print_cases expert tx ((5, no_memo tx) ∷ [])
        (pure (print_type expert tx "Redelegate")
          ∷ pure (item "Source Validator" (address r.src_validator))
          ∷ pure (item "Destination Validator" (address r.dest_validator))
          ∷ pure (item "Owner" (address r.owner))
          ∷ pure (item "Amount" (amount r.amount false coin_amount_decimal_places ""))
          ∷ print_memo tx
          ∷ [])
        6 display_idx

  unfoldable pub print_change_validator_metadata : MetadataChange → ℕ → Reader Item
  print_change_validator_metadata m display_idx =
      print_cases expert tx
        ((2, is_null m.email)
          ∷ (3, is_null m.description)
          ∷ (4, is_null m.website)
          ∷ (5, is_null m.discord_handle)
          ∷ (6, is_null m.avatar)
          ∷ (7, m.has_commission_rate == 0)
          ∷ (8, no_memo tx)
          ∷ [])
        (pure (print_type expert tx "Change metadata")
          ∷ pure (item "Validator" (loose_address m.validator))
          ∷ pure (item "Email" (page_ext m.email))
          ∷ pure (item "Description" (page_ext m.description))
          ∷ pure (item "Website" (page_ext m.website))
          ∷ pure (item "Discord handle" (page_ext m.discord_handle))
          ∷ pure (item "Avatar" (page_ext m.avatar))
          ∷ pure (item "Commission rate" (amount m.commission_rate true pos_decimal_precision ""))
          ∷ print_memo tx
          ∷ [])
        9 display_idx

  unfoldable pub print_bridge_pool_transfer : BridgePoolTransfer → ℕ → Reader Item
  print_bridge_pool_transfer b display_idx =
      print_cases expert tx ((9, no_memo tx) ∷ [])
        (pure (print_type expert tx "Bridge Pool Transfer")
          ∷ pure (item "Transfer Kind" (words (kind_name b.kind)))
          ∷ pure (item "Transfer Sender" (address b.sender))
          ∷ pure (item "Transfer Recipient" (ethereum b.recipient.content))
          ∷ pure (item "Transfer Asset" (ethereum b.asset.content))
          ∷ pure (item "Transfer Amount" (amount b.amount false 0 ""))
          ∷ pure (item "Gas Payer" (address b.gas_payer))
          ∷ pure (item "Gas Token" (address b.gas_token))
          ∷ pure (item "Gas Amount" (amount b.gas_amount false 0 ""))
          ∷ print_memo tx
          ∷ [])
        10 display_idx

-- ===== src/Print/Items.antt =====
-- The items that a transaction is meant to be shown with, as lists: the fields of each type in the order
-- of app/src/parser_print_txn.c, those that are there, then the memo and, for experts, the header.
use Prim.Native.String.{String}
use ledger_namada.Common.{
  ℕ, zero, suc, ◌+◌, ◌*◌, Bool, true, false, none, some, List, [], ◌∷◌, ◌++◌, ◌==◌, if◌then◌else◌,
}
use ledger_namada.Reader.{display_idx_out_of_range, Reader, pure, fail}
use ledger_namada.Transaction.{
  ParserTx, TxData, of_bond, of_custom, of_transfer, of_init_account, of_init_proposal,
  of_vote_proposal, of_reveal_pubkey, of_withdraw, of_commission_change, of_become_validator,
  of_update_vp, of_unjail_validator, of_ibc, of_redelegation, of_resign_steward,
  of_consensus_key_change, of_update_steward_commission, of_metadata_change,
  of_bridge_pool_transfer,
}
use ledger_namada.Print.{
  Item, item, words, address, amount, public_key, hex_string, page_hex, page_ext, page_number,
  small_number, decimal, number, timestamp, ethereum, height, date, joined, loose_address,
}
use ledger_namada.Print.Common.{print_type, print_memo, fees_item}
use ledger_namada.Print.Simple.{
  no_memo, is_null, text_or_empty, bond_name, withdraw_name, validator_name, vote_name, kind_name,
  coin_amount_decimal_places, coin_ticker, pos_decimal_precision,
}
use ledger_namada.Print.Several.{print_pubkey, print_commission, vp_value}
use ledger_namada.Print.Proposal.{print_proposal, proposal_elements}
use ledger_namada.Print.Runs.{runs, keep}

-- f k, f (k + 1) and so on, n of them.
abbrev pub from_on {ℓ} : {A : Type ℓ} → (ℕ → A) → ℕ → ℕ → List A
from_on f k zero = []
from_on f k (suc n) = f k ∷ from_on f (k + 1) n

-- The items in order, and the error behind them.
abbrev pub item_at : List (Reader Item) → ℕ → Reader Item
item_at items = runs items (λ i. fail display_idx_out_of_range)

module _ (tx : ParserTx) where
  unfoldable pub header_items : List (Reader Item)
  header_items =
      pure (item "Timestamp" (timestamp tx.header.timestamp))
      ∷ pure (item "Pubkey" (public_key tx.header.pubkey))
      ∷ pure (item "Gas limit" (number tx.header.gas_limit))
      ∷ elim tx.header.fees.symbol [
        | some s ↦ pure (fees_item tx) ∷ []
        | none ↦ pure (item "Fee token" (address tx.header.fees.address)) ∷ pure (fees_item tx) ∷ []
      ]

module _ (expert : Bool) (tx : ParserTx) where
  abbrev pub others_items : List (Reader Item)
  others_items = if expert then header_items tx else []

  abbrev pub last_items : List (Reader Item)
  last_items = keep (no_memo tx) (print_memo tx) others_items

  -- Behind the type.
  unfoldable pub field_items : TxData → List (Reader Item)
  field_items (of_bond b) = keep (b.has_source == 0) (pure (item "Source" (address b.source))) (
      pure (item "Validator" (address b.validator))
      ∷ pure (item "Amount" (amount b.amount false coin_amount_decimal_places coin_ticker))
      ∷ last_items)
  field_items of_custom = others_items
  field_items (of_transfer t) =
      pure (item "Sender" (address t.source_address))
      ∷ pure (item "Destination" (address t.target_address))
      ∷ elim t.symbol [
        | some s ↦ pure (item "Amount" (amount t.amount false t.amount_denom s)) ∷ last_items
        | none ↦
            pure (item "Token" (address t.token))
            ∷ pure (item "Amount" (amount t.amount false t.amount_denom ""))
            ∷ last_items
      ]
  field_items (of_init_account a) =
      from_on (print_pubkey a.pubkeys) 1 a.number_of_pubkeys
      ++ (pure (item "Threshold" (small_number a.threshold))
          ∷ pure (item "VP type" (vp_value expert a.vp))
          ∷ last_items)
  field_items (of_init_proposal p) =
      from_on (print_proposal p) 0 (proposal_elements p.body)
      ++ (pure (item "Author" (address p.author))
          ∷ pure (item "Voting start epoch" (page_number 25 p.voting_start_epoch))
          ∷ pure (item "Voting end epoch" (page_number 25 p.voting_end_epoch))
          ∷ pure (item "Activation epoch" (page_number 25 p.activation_epoch))
          ∷ pure (item "Content" (hex_string 65 p.links.content_hash.content))
          ∷ last_items)
  field_items (of_vote_proposal v) =
      pure (item "ID" (page_number 30 v.proposal_id))
      ∷ pure (item "Vote" (vote_name v.proposal_vote))
      ∷ pure (item "Voter" (address v.voter))
      ∷ last_items
  field_items (of_reveal_pubkey r) = pure (item "Public key" (public_key r.pubkey)) ∷ last_items
  field_items (of_withdraw w) =
      keep (w.has_source == 0) (pure (item "Source" (address w.source)))
        (pure (item "Validator" (address w.validator)) ∷ last_items)
  field_items (of_commission_change c) =
      pure (item "New rate" (amount c.new_rate true pos_decimal_precision ""))
      ∷ pure (item "Validator" (address c.validator))
      ∷ last_items
  field_items (of_become_validator b) =
      pure (item "Address" (address b.address))
      ∷ pure (item "Consensus key" (public_key b.consensus_key))
      ∷ pure (item "Ethereum cold key" (page_hex b.eth_cold_key.content))
      ∷ pure (item "Ethereum hot key" (page_hex b.eth_hot_key.content))
      ∷ pure (item "Protocol key" (public_key b.protocol_key))
      ∷ pure (item "Commission rate" (amount b.commission_rate true pos_decimal_precision ""))
      ∷ pure (
          item "Maximum commission rate change"
            (amount b.max_commission_rate_change true pos_decimal_precision ""))
      ∷ pure (item "Email" (text_or_empty b.email))
      ∷ keep (is_null b.description) (pure (item "Description" (text_or_empty b.description))) (
          keep (is_null b.website) (pure (item "Website" (page_ext b.website))) (
            keep (is_null b.discord_handle)
              (pure (item "Discord handle" (page_ext b.discord_handle))) last_items))
  field_items (of_update_vp u) =
      pure (item "Address" (address u.address))
      ∷ (from_on (print_pubkey u.pubkeys) 1 u.number_of_pubkeys
          ++ keep (u.has_threshold == 0) (pure (item "Threshold" (decimal u.threshold)))
              (keep (u.has_vp_code == 0) (pure (item "VP type" (vp_value expert u.vp))) last_items))
  field_items (of_unjail_validator u) = pure (item "Validator" (address u.validator)) ∷ last_items
  field_items (of_ibc b) =
      pure (item "Source port" (page_ext b.port_id))
      ∷ pure (item "Source channel" (page_ext b.channel_id))
      ∷ pure (item "Token" (joined b.token_amount b.token_address " "))
      ∷ pure (item "Sender" (page_ext b.sender_address))
      ∷ pure (item "Receiver" (page_ext b.receiver))
      ∷ pure (
          item "Timeout height" (
            if b.timeout_height_type == 0
            then words "no timeout"
            else height b.revision_number b.revision_height))
      ∷ pure (item "Timeout timestamp" (date b.timeout_timestamp))
      ∷ last_items
  field_items (of_redelegation r) =
      pure (item "Source Validator" (address r.src_validator))
      ∷ pure (item "Destination Validator" (address r.dest_validator))
      ∷ pure (item "Owner" (address r.owner))
      ∷ pure (item "Amount" (amount r.amount false coin_amount_decimal_places ""))
      ∷ last_items
  field_items (of_resign_steward r) = pure (item "Steward" (address r.steward)) ∷ last_items
  field_items (of_consensus_key_change c) =
      pure (item "New consensus key" (public_key c.consensus_key))
      ∷ pure (item "Validator" (address c.validator))
      ∷ last_items
  field_items (of_update_steward_commission u) =
      pure (item "Steward" (address u.steward))
      ∷ (from_on (print_commission u.commission) 2 (2 * u.commission_len) ++ last_items)
  field_items (of_metadata_change m) =
      pure (item "Validator" (loose_address m.validator))
      ∷ keep (is_null m.email) (pure (item "Email" (page_ext m.email))) (
          keep (is_null m.description) (pure (item "Description" (page_ext m.description))) (
            keep (is_null m.website) (pure (item "Website" (page_ext m.website))) (
              keep (is_null m.discord_handle)
                (pure (item "Discord handle" (page_ext m.discord_handle)))
                (keep (is_null m.avatar) (pure (item "Avatar" (page_ext m.avatar))) (
                  keep (m.has_commission_rate == 0)
                    (pure (
                      item "Commission rate"
                        (amount m.commission_rate true pos_decimal_precision "")))
                    last_items)))))
  field_items (of_bridge_pool_transfer b) =
      pure (item "Transfer Kind" (words (kind_name b.kind)))
      ∷ pure (item "Transfer Sender" (address b.sender))
      ∷ pure (item "Transfer Recipient" (ethereum b.recipient.content))
      ∷ pure (item "Transfer Asset" (ethereum b.asset.content))
      ∷ pure (item "Transfer Amount" (amount b.amount false 0 ""))
      ∷ pure (item "Gas Payer" (address b.gas_payer))
      ∷ pure (item "Gas Token" (address b.gas_token))
      ∷ pure (item "Gas Amount" (amount b.gas_amount false 0 ""))
      ∷ last_items

  abbrev pub type_name : TxData → String
  type_name (of_bond b) = bond_name tx.type_tx
  type_name of_custom = "Custom"
  type_name (of_transfer t) = "Transfer"
  type_name (of_init_account a) = "Init Account"
  type_name (of_init_proposal p) = "Init proposal"
  type_name (of_vote_proposal v) = "Vote Proposal"
  type_name (of_reveal_pubkey r) = "Reveal Pubkey"
  type_name (of_withdraw w) = withdraw_name tx.type_tx
  type_name (of_commission_change c) = "Change commission"
  type_name (of_become_validator b) = "Init Validator"
  type_name (of_update_vp u) = "Update Account"
  type_name (of_unjail_validator u) = validator_name tx.type_tx
  type_name (of_ibc b) = "IBC"
  type_name (of_redelegation r) = "Redelegate"
  type_name (of_resign_steward r) = "Resign Steward"
  type_name (of_consensus_key_change c) = "Change consensus key"
  type_name (of_update_steward_commission u) = "Update Steward Commission"
  type_name (of_metadata_change m) = "Change metadata"
  type_name (of_bridge_pool_transfer b) = "Bridge Pool Transfer"

  unfoldable pub items : TxData → List (Reader Item)
  items d = pure (print_type expert tx (type_name d)) ∷ field_items d

-- ===== src/Txn/Simple.antt =====
-- The readers of app/src/parser_impl_txn.c whose data has no loop and no linked section.
use ledger_namada.Common.{ℕ, ltb, ◌==◌, if◌then◌else◌}
use ledger_namada.Reader.{
  unexpected_characters, unexpected_value, value_out_of_range, Reader, Bytes, no_bytes, ◌>>=◌, ◌>>◌,
  pure, read_byte, read_bytes, read_uint64, read_pubkey, expect_end, reject_if,
}
use ledger_namada.Address.{AddressAlt, no_address, read_address_alt}
use ledger_namada.Txn.Fields.{read_flagged_text, read_checked_text}

-- tx_vote_proposal_t, as far as it is read
pub record VoteProposal : Type 0 where
  pub proposal_id : ℕ
  pub proposal_vote : ℕ
  pub voter : AddressAlt

abbrev pub abstain : ℕ
abstain = 2

unfoldable pub read_vote_proposal_txn : Reader VoteProposal
read_vote_proposal_txn = do
  proposal_id ← read_uint64
  proposal_vote ← read_byte
  reject_if (ltb abstain proposal_vote) unexpected_value
  voter ← read_address_alt
  expect_end unexpected_characters
  pure (record { proposal_id = proposal_id; proposal_vote = proposal_vote; voter = voter })

-- tx_reveal_pubkey_t
pub record RevealPubkey : Type 0 where
  pub pubkey : Bytes

unfoldable pub read_reveal_pubkey_txn : Reader RevealPubkey
read_reveal_pubkey_txn = do
  pubkey ← read_pubkey
  expect_end unexpected_characters
  pure (record { pubkey = pubkey })

-- tx_withdraw_t
pub record Withdraw : Type 0 where
  pub validator : AddressAlt
  pub has_source : ℕ
  pub source : AddressAlt

unfoldable pub read_withdraw_txn : Reader Withdraw
read_withdraw_txn = do
  validator ← read_address_alt
  has_source ← read_byte
  source ← (if has_source == 0 then pure no_address else read_address_alt)
  expect_end unexpected_characters
  pure (record { validator = validator; has_source = has_source; source = source })

-- tx_commission_change_t
pub record CommissionChange : Type 0 where
  pub validator : AddressAlt
  pub new_rate : Bytes

unfoldable pub read_commission_change_txn : Reader CommissionChange
read_commission_change_txn = do
  validator ← read_address_alt
  new_rate ← read_bytes 32
  expect_end unexpected_characters
  pure (record { validator = validator; new_rate = new_rate })

-- tx_consensus_key_change_t
pub record ConsensusKeyChange : Type 0 where
  pub validator : AddressAlt
  pub consensus_key : Bytes

unfoldable pub read_change_consensus_key : Reader ConsensusKeyChange
read_change_consensus_key = do
  validator ← read_address_alt
  consensus_key ← read_pubkey
  expect_end unexpected_characters
  pure (record { validator = validator; consensus_key = consensus_key })

-- tx_metadata_change_t
pub record MetadataChange : Type 0 where
  pub validator : AddressAlt
  pub email : Bytes
  pub description : Bytes
  pub website : Bytes
  pub discord_handle : Bytes
  pub avatar : Bytes
  pub name : Bytes
  pub has_commission_rate : ℕ
  pub commission_rate : Bytes

unfoldable pub read_change_validator_metadata : Reader MetadataChange
read_change_validator_metadata = do
  validator ← read_address_alt
  email ← read_checked_text
  description ← read_checked_text
  website ← read_flagged_text
  discord_handle ← read_flagged_text
  avatar ← read_flagged_text
  name ← read_flagged_text
  has_commission_rate ← read_byte
  commission_rate ← (if has_commission_rate == 0 then pure no_bytes else read_bytes 32)
  expect_end unexpected_characters
  pure (record {
    validator = validator;
    email = email;
    description = description;
    website = website;
    discord_handle = discord_handle;
    avatar = avatar;
    name = name;
    has_commission_rate = has_commission_rate;
    commission_rate = commission_rate;
  })

-- tx_bridge_pool_transfer_t
pub record BridgePoolTransfer : Type 0 where
  pub kind : ℕ
  pub asset : Bytes
  pub recipient : Bytes
  pub sender : AddressAlt
  pub amount : Bytes
  pub gas_token : AddressAlt
  pub gas_amount : Bytes
  pub gas_payer : AddressAlt

abbrev pub nut : ℕ
nut = 1

abbrev pub eth_address_len : ℕ
eth_address_len = 20

unfoldable pub read_bridge_pool_transfer : Reader BridgePoolTransfer
read_bridge_pool_transfer = do
  kind ← read_byte
  reject_if (ltb nut kind) value_out_of_range
  asset ← read_bytes eth_address_len
  recipient ← read_bytes eth_address_len
  sender ← read_address_alt
  amount ← read_bytes 32
  gas_amount ← read_bytes 32
  gas_payer ← read_address_alt
  gas_token ← read_address_alt
  expect_end unexpected_characters
  pure (record {
    kind = kind;
    asset = asset;
    recipient = recipient;
    sender = sender;
    amount = amount;
    gas_token = gas_token;
    gas_amount = gas_amount;
    gas_payer = gas_payer;
  })

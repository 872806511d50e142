-- ===== src/Txn/Validator.antt =====
-- app/src/txn_validator.c
use ledger_namada.Common.{ℕ, leb}
use ledger_namada.Reader.{
  unexpected_characters, unexpected_value, Reader, Bytes, ◌>>=◌, ◌>>◌, pure, read_bytes,
  read_pubkey, expect_end, reject_if, compressed_secp256k1_pk_len,
}
use ledger_namada.Address.{AddressAlt, read_address_alt}
use ledger_namada.Txn.Fields.{read_text, read_flagged_text, read_checked_text}

-- tx_become_validator_t
pub record BecomeValidator : Type 0 where
  pub address : AddressAlt
  pub consensus_key : Bytes
  pub eth_cold_key : Bytes
  pub eth_hot_key : Bytes
  pub protocol_key : Bytes
  pub commission_rate : Bytes
  pub max_commission_rate_change : Bytes
  pub email : Bytes
  pub description : Bytes
  pub website : Bytes
  pub discord_handle : Bytes
  pub avatar : Bytes
  pub name : Bytes

abbrev pub max_extra_data_secs : ℕ
max_extra_data_secs = 4

-- Of the extra data sections only the number is looked at.
unfoldable pub read_become_validator : ℕ → Reader BecomeValidator
read_become_validator extra_data_len = do
  reject_if (leb max_extra_data_secs extra_data_len) unexpected_value
  address ← read_address_alt
  consensus_key ← read_pubkey
  eth_cold_key ← read_bytes compressed_secp256k1_pk_len
  eth_hot_key ← read_bytes compressed_secp256k1_pk_len
  protocol_key ← read_pubkey
  commission_rate ← read_bytes 32
  max_commission_rate_change ← read_bytes 32
  email ← read_text
  description ← read_checked_text
  website ← read_flagged_text
  discord_handle ← read_flagged_text
  avatar ← read_flagged_text
  name ← read_flagged_text
  expect_end unexpected_characters
  pure (record {
    address = address;
    consensus_key = consensus_key;
    eth_cold_key = eth_cold_key;
    eth_hot_key = eth_hot_key;
    protocol_key = protocol_key;
    commission_rate = commission_rate;
    max_commission_rate_change = max_commission_rate_change;
    email = email;
    description = description;
    website = website;
    discord_handle = discord_handle;
    avatar = avatar;
    name = name;
  })

-- tx_unjail_validator_t, also tx_activate_validator_t
pub record UnjailValidator : Type 0 where
  pub validator : AddressAlt

unfoldable pub read_unjail_validator : Reader UnjailValidator
read_unjail_validator = do
  validator ← read_address_alt
  expect_end unexpected_characters
  pure (record { validator = validator })

unfoldable pub read_activate_validator : Reader UnjailValidator
read_activate_validator = do
  validator ← read_address_alt
  expect_end unexpected_characters
  pure (record { validator = validator })

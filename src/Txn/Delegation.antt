-- ===== src/Txn/Delegation.antt =====
-- readBondUnbond and readRedelegate of app/src/txn_delegation.c
use ledger_namada.Common.{ℕ, ◌==◌, if◌then◌else◌}
use ledger_namada.Reader.{
  unexpected_characters, Reader, Bytes, ◌>>=◌, ◌>>◌, pure, read_bytes, expect_end,
}
use ledger_namada.Address.{AddressAlt, no_address, read_address_alt}
use ledger_namada.Txn.Fields.{try_read_byte}

-- tx_bond_t
pub record Bond : Type 0 where
  pub validator : AddressAlt
  pub amount : Bytes
  pub has_source : ℕ
  pub source : AddressAlt

-- has_source is 0 in the zeroed transaction object before it is read.
unfoldable pub read_bond_unbond : Reader Bond
read_bond_unbond = do
  validator ← read_address_alt
  amount ← read_bytes 32
  has_source ← try_read_byte 0
  if has_source == 0
      then (do
        expect_end unexpected_characters
        pure (record {
          validator = validator;
          amount = amount;
          has_source = has_source;
          source = no_address;
        }))
      else (do
        source ← read_address_alt
        expect_end unexpected_characters
        pure (record { validator = validator; amount = amount; has_source = 1; source = source }))

-- tx_redelegation_t
pub record Redelegation : Type 0 where
  pub src_validator : AddressAlt
  pub dest_validator : AddressAlt
  pub owner : AddressAlt
  pub amount : Bytes

unfoldable pub read_redelegate : Reader Redelegation
read_redelegate = do
  src_validator ← read_address_alt
  dest_validator ← read_address_alt
  owner ← read_address_alt
  amount ← read_bytes 32
  expect_end unexpected_characters
  pure (record {
    src_validator = src_validator;
    dest_validator = dest_validator;
    owner = owner;
    amount = amount;
  })

-- ===== src/Txn/Steward.antt =====
-- readResignSteward and readUpdateStewardCommission of app/src/parser_impl_txn.c
use ledger_namada.Common.{ℕ, zero, suc}
use ledger_namada.Reader.{
  unexpected_characters, Reader, ◌>>=◌, ◌>>◌, pure, read_bytes, read_uint32, expect_end, get_offset,
  position,
}
use ledger_namada.Address.{AddressAlt, read_address_alt}
use ledger_namada.Txn.Fields.{Span, distance}

-- tx_resign_steward_t
pub record ResignSteward : Type 0 where
  pub steward : AddressAlt

unfoldable pub read_resign_steward : Reader ResignSteward
read_resign_steward = do
  steward ← read_address_alt
  expect_end unexpected_characters
  pure (record { steward = steward })

-- tx_update_steward_commission_t
pub record UpdateStewardCommission : Type 0 where
  pub steward : AddressAlt
  pub commission_len : ℕ
  pub commission : Span

-- One address and 32 bytes for each entry; their values are dropped.
unfoldable pub read_commissions : ℕ → Reader (Unit {0})
read_commissions zero = pure tt
read_commissions (suc n) = do address ← read_address_alt; amount ← read_bytes 32; read_commissions n

unfoldable pub read_update_steward_commission : Reader UpdateStewardCommission
read_update_steward_commission = do
  steward ← read_address_alt
  commission_len ← read_uint32
  start ← position
  start_offset ← get_offset
  read_commissions commission_len
  offset ← get_offset
  expect_end unexpected_characters
  pure (record {
    steward = steward;
    commission_len = commission_len;
    commission = record { ptr = start; len = distance start_offset offset };
  })

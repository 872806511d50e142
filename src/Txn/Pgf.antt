-- ===== src/Txn/Pgf.antt =====
-- The public goods funding actions of a proposal: readPGFInternal, readPGFTargetIBC and
-- readPGFPaymentAction of app/src/parser_impl_txn.c.
use ledger_namada.Common.{ℕ, Option, none, some, ltb, ◌==◌, if◌then◌else◌}
use ledger_namada.Reader.{
  value_out_of_range, unexpected_error, Reader, Bytes, ◌>>=◌, ◌>>◌, pure, fail, reject_if,
  read_byte, read_bytes, get_offset, peek,
}
use ledger_namada.Address.{AddressAlt, read_address_alt}
use ledger_namada.Txn.Fields.{distance, read_text}

-- pgf_internal_t and pgf_ibc_t, the members of the union
pub data PgfTarget : Type 0 where
  internal : AddressAlt → Bytes → PgfTarget
  ibc : Bytes → Bytes → Bytes → Bytes → PgfTarget

-- pgf_payment_action_t; add_rem is `none` where it is left as it was
pub record PgfPaymentAction : Type 0 where
  pub action : ℕ
  pub add_rem : Option ℕ
  pub target_type : ℕ
  pub target : PgfTarget
  pub length : ℕ

unfoldable pub read_pgf_internal : Reader PgfTarget
read_pgf_internal = do
  address ← read_address_alt
  amount ← read_bytes 32
  pure (internal address amount)

unfoldable pub read_pgf_target_ibc : Reader PgfTarget
read_pgf_target_ibc = do
  target ← read_text
  amount ← read_bytes 32
  port_id ← read_text
  channel_id ← read_text
  pure (ibc target amount port_id channel_id)

abbrev pub retro : ℕ
retro = 1

abbrev pub continuous : ℕ
continuous = 0

abbrev pub pgf_target_internal : ℕ
pgf_target_internal = 0

abbrev pub pgf_target_ibc : ℕ
pgf_target_ibc = 1

unfoldable pub read_pgf_target : ℕ → Reader PgfTarget
read_pgf_target target_type =
    if target_type == pgf_target_internal
    then read_pgf_internal
    else if target_type == pgf_target_ibc
    then read_pgf_target_ibc
    else fail unexpected_error

-- The first byte is only tested to be there.
unfoldable pub read_pgf_payment_action : Reader PgfPaymentAction
read_pgf_payment_action = do
  first ← peek unexpected_error
  start_offset ← get_offset
  action ← read_byte
  reject_if (ltb retro action) value_out_of_range
  add_rem ← (if action == continuous then (do a ← read_byte; pure (some a)) else pure none)
  target_type ← read_byte
  target ← read_pgf_target target_type
  offset ← get_offset
  pure (record {
    action = action;
    add_rem = add_rem;
    target_type = target_type;
    target = target;
    length = distance start_offset offset;
  })

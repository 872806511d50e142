-- ===== src/Txn/Fields.antt =====
-- Blocks of code that several readers of app/src/parser_impl_txn.c and txn_validator.c repeat.
use ledger_namada.Common.{ℕ, zero, suc, ◌+◌, ◌-◌, ◌%◌, ◌^◌, not, ◌&&◌, ltb, ◌==◌, if◌then◌else◌}
use ledger_namada.Reader.{
  value_out_of_range, ok, err, fault, Reader, Ptr, Bytes, no_bytes, ◌>>=◌, pure, fail, read_byte,
  read_bytes, read_uint32, read_pubkey, null,
}

-- readUint32 into tmpValue, the test against UINT16_MAX, readBytes of that many bytes
unfoldable pub read_text : Reader Bytes
read_text = do len ← read_uint32; if ltb 0xffff len then fail value_out_of_range else read_bytes len

-- A presence byte that is only tested for zero, and a text.
unfoldable pub read_flagged_text : Reader Bytes
read_flagged_text = do has ← read_byte; if has == 0 then pure no_bytes else read_text

-- A presence byte that must be 0 or 1, and a text.
unfoldable pub read_checked_text : Reader Bytes
read_checked_text = do
  has ← read_byte
  if not (has == 0) && not (has == 1)
      then fail value_out_of_range
      else if has == 0
      then pure no_bytes
      else read_text

-- A bytes_t over several fields that were read one by one: where it starts and how long it is.
pub record Span : Type 0 where
  pub ptr : Ptr
  pub len : ℕ

abbrev pub no_span : Span
no_span = record { ptr = null; len = 0 }

-- `len += n` on a uint16_t
abbrev pub extend : Span → ℕ → Span
extend s n = record s { len = (s.len + n) % 2 ^ 16 }

-- `offset - start` stored in a uint16_t
abbrev pub distance : ℕ → ℕ → ℕ
distance start offset = (offset + 2 ^ 16 - start) % 2 ^ 16

-- The loop over number_of_pubkeys in readInitAccountTxn and readUpdateVPTxn.
unfoldable pub read_pubkeys : ℕ → Span → Reader Span
read_pubkeys zero keys = pure keys
read_pubkeys (suc n) keys = do key ← read_pubkey; read_pubkeys n (extend keys key.len)

-- A call of readByte whose error is dropped: the output keeps its old value.
unfoldable pub try_read_byte : ℕ → Reader ℕ
try_read_byte old c = elim (read_byte c) [ ok b d ↦ ok b d | err e ↦ ok old c | fault ↦ fault ]

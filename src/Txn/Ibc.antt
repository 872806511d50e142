-- ===== src/Txn/Ibc.antt =====
-- readFieldSize and readFieldSizeU16 of app/src/parser_impl_common.c, readTimestamp and readIBCTxn of
-- app/src/parser_impl_txn.c: a protobuf message.
use ledger_namada.Common.{ℕ, ◌+◌, ◌-◌, ◌*◌, ◌/◌, ◌%◌, ◌^◌, ltb, ◌==◌, if◌then◌else◌}
use ledger_namada.Reader.{
  value_out_of_range, unexpected_buffer_end, unexpected_characters, ok, err, Ctx, Reader, Bytes,
  no_bytes, load, advance, ◌>>=◌, ◌>>◌, pure, read_byte, read_bytes, peek, check_tag, expect_end,
}
use ledger_namada.Leb128.{Decoded, decoded, unknown, decode_leb128}
use ledger_namada.Txn.Fields.{distance}

-- *consumed and *v after decodeLEB128, whose answer no caller looks at.
abbrev pub consumed_or : ℕ → Decoded → ℕ
consumed_or old (decoded consumed v) = consumed
consumed_or old unknown = old

abbrev pub value_or_zero : Decoded → ℕ
value_or_zero (decoded consumed v) = v
value_or_zero unknown = 0

-- decodeLEB128 at the context's offset, over `input_size` bytes
abbrev pub decode_at : ℕ → Ctx → Decoded
decode_at input_size c = decode_leb128 (λ i. load c.mem (c.buffer + (c.offset + i))) input_size

-- readFieldSize at limit = UINT32_MAX, readFieldSizeU16 at limit = UINT16_MAX: ten bytes are
-- decoded whatever the buffer has left.
unfoldable pub read_field_size_to : ℕ → Reader ℕ
read_field_size_to limit c =
    let d = decode_at 10 c in
    if ltb limit (value_or_zero d)
    then err value_out_of_range
    else ok (value_or_zero d) (advance (consumed_or 0 d) c)

unfoldable pub read_field_size : Reader ℕ
read_field_size = read_field_size_to 0xffff_ffff

unfoldable pub read_field_size_u16 : Reader ℕ
read_field_size_u16 = read_field_size_to 0xffff

-- readFieldSizeU16 and readBytes
unfoldable pub read_field : Reader Bytes
read_field = do len ← read_field_size_u16; read_bytes len

-- decodeLEB128 over the rest of the buffer; `old` is what `consumed` was before.
unfoldable pub read_leb128 : ℕ → Reader (ℕ × ℕ)
read_leb128 old c =
    let d = decode_at (distance c.offset c.buffer_len) c in
    ok (consumed_or old d, value_or_zero d) (advance (consumed_or old d) c)

-- timestamp_t
pub record Timestamp : Type 0 where
  pub millis : ℕ
  pub nanos : ℕ

abbrev pub e9 : ℕ
e9 = 1000000000

unfoldable pub read_timestamp : Reader Timestamp
read_timestamp = do
  check_tag 0x38
  (consumed, tmp) ← read_leb128 0
  pure (record { millis = tmp / e9; nanos = (tmp - tmp / e9 * e9) % 2 ^ 32 })

-- tx_ibc_t
pub record Ibc : Type 0 where
  pub port_id : Bytes
  pub channel_id : Bytes
  pub token_address : Bytes
  pub token_amount : Bytes
  pub sender_address : Bytes
  pub receiver : Bytes
  pub timeout_height_type : ℕ
  pub revision_number : ℕ
  pub revision_height : ℕ
  pub timeout_timestamp : Timestamp

-- A field that is there if its tag is: CTX_CHECK_AVAIL, then a look at the next byte.
unfoldable pub read_tagged_field : ℕ → Reader Bytes
read_tagged_field tag = do
  next ← peek unexpected_buffer_end
  if next == tag then (do check_tag tag; read_field) else pure no_bytes

-- revision_number and revision_height
unfoldable pub read_timeout_height : ℕ → Reader (ℕ × ℕ)
read_timeout_height timeout_height_type = if timeout_height_type == 0 then pure (0, 0) else (do
  check_tag 0x08
  (consumed, number) ← read_leb128 0
  check_tag 0x10
  (consumed', height) ← read_leb128 consumed
  pure (number, height))

-- `tmpFieldLen != ctx.bufferLen - ctx.offset` on int, so an offset behind the end is unequal too.
unfoldable pub expect_rest : ℕ → Reader (Unit {0})
expect_rest len c = if c.offset + len == c.buffer_len then ok tt c else err unexpected_buffer_end

-- A memo field may stand behind the timestamp.
unfoldable pub read_ibc_memo : Reader (Unit {0})
read_ibc_memo c =
    if ltb c.offset c.buffer_len then (do check_tag 0x42; memo ← read_field; pure tt) c else ok tt c

unfoldable pub read_ibc_txn : Reader Ibc
read_ibc_txn = do
  check_tag 0x0a
  url ← read_field
  check_tag 0x12
  field_len ← read_field_size_u16
  expect_rest field_len
  check_tag 0x0a
  port_id ← read_field
  check_tag 0x12
  channel_id ← read_field
  check_tag 0x1a
  packed_len ← read_field_size_u16
  check_tag 0x0a
  token_address ← read_field
  check_tag 0x12
  token_amount ← read_field
  sender_address ← read_tagged_field 0x22
  receiver ← read_tagged_field 0x2a
  check_tag 0x32
  timeout_height_type ← read_byte
  (revision_number, revision_height) ← read_timeout_height timeout_height_type
  timeout_timestamp ← read_timestamp
  read_ibc_memo
  expect_end unexpected_characters
  pure (record {
    port_id = port_id;
    channel_id = channel_id;
    token_address = token_address;
    token_amount = token_amount;
    sender_address = sender_address;
    receiver = receiver;
    timeout_height_type = timeout_height_type;
    revision_number = revision_number;
    revision_height = revision_height;
    timeout_timestamp = timeout_timestamp;
  })

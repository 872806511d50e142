-- ===== src/Header.antt =====
-- readHeader of app/src/parser_impl_txn.c
pub mod Safe
use Prim.Native.String.{String}
use ledger_namada.Common.{ℕ, ◌+◌, ◌%◌, ◌^◌, Option, not, ltb, ◌==◌, if◌then◌else◌}
use ledger_namada.Reader.{
  value_out_of_range, unexpected_value, Reader, Ptr, Bytes, ◌>>=◌, ◌>>◌, pure, fail, reject_if,
  read_byte, read_bytes, read_uint32, read_uint64, read_pubkey, check_tag, skip, position,
  get_offset, hash_len,
}
use ledger_namada.Address.{AddressAlt, read_address_alt}
use ledger_namada.Crypto.{Library}
use ledger_namada.Txn.Fields.{Span, distance, read_text}
use ledger_namada.Txn.Transfer.{read_token}

-- fees_t
pub record Fees : Type 0 where
  pub address : AddressAlt
  pub amount : Bytes
  pub denom : ℕ
  pub symbol : Option String

-- header_t and the timestamp; memoSection is set later, from memo_hash
pub record Header : Type 0 where
  pub ext_bytes : Span
  pub bytes : Span
  pub timestamp : Bytes
  pub fees : Fees
  pub pubkey : Bytes
  pub gas_limit : ℕ
  pub batch_len : ℕ
  pub code_hash : Bytes
  pub data_hash : Bytes
  pub memo_hash : Bytes
  pub atomic : ℕ

-- `ctx->offset += chain_id_len`, a uint32_t onto a uint16_t with no test
unfoldable pub skip_chain_id : Reader (Unit {0})
skip_chain_id = do chain_id_len ← read_uint32; skip chain_id_len

unfoldable pub skip_expiration : ℕ → Reader (Unit {0})
skip_expiration has_expiration =
    if has_expiration == 0 then pure tt else (do expiration_len ← read_uint32; skip expiration_len)

module _ (lib : Library) where
  -- What follows the timestamp.
  unfoldable pub read_header_fields : Ptr → ℕ → Bytes → Reader Header
  read_header_fields start tmp_offset timestamp = do
    batch_len ← read_uint32
    reject_if (not (batch_len == 1)) unexpected_value
    code_hash ← read_bytes hash_len
    data_hash ← read_bytes hash_len
    memo_hash ← read_bytes hash_len
    atomic ← read_byte
    end_of_bytes ← get_offset
    check_tag 0x01
    amount ← read_bytes 32
    denom ← read_byte
    address ← read_address_alt
    symbol ← read_token lib address
    pubkey ← read_pubkey
    gas_limit ← read_uint64
    end_of_ext ← get_offset
    pure (record {
      ext_bytes = record { ptr = start; len = distance tmp_offset end_of_ext };
      bytes = record { ptr = start; len = distance tmp_offset end_of_bytes };
      timestamp = timestamp;
      fees = record { address = address; amount = amount; denom = denom; symbol = symbol };
      pubkey = pubkey;
      gas_limit = gas_limit;
      batch_len = batch_len;
      code_hash = code_hash;
      data_hash = data_hash;
      memo_hash = memo_hash;
      atomic = atomic;
    })

  unfoldable pub read_header : Reader Header
  read_header = do
    start ← position
    tmp_offset ← get_offset
    skip_chain_id
    has_expiration ← read_byte
    skip_expiration has_expiration
    timestamp ← read_text
    read_header_fields start tmp_offset timestamp

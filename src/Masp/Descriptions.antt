-- ===== src/Masp/Descriptions.antt =====
-- The walk over descriptions that were read before: getSpendDescriptionLen, getNextSpendDescription,
-- getNextOutputDescription and getNextConvertDescription of app/src/parser_impl_masp.c.
use ledger_namada.Common.{ℕ, ◌+◌, ◌*◌, ◌%◌, ◌^◌, ltb, ◌==◌, if◌then◌else◌}
use ledger_namada.Reader.{
  unexpected_buffer_end, ok, err, Reader, load, advance, ◌>>=◌, ◌>>◌, read_byte, check_and_advance,
}
use ledger_namada.Masp.Bundle.{read_compact_size, asset_id_len, int_128_len}
use ledger_namada.Masp.Builder.{
  repeat_reader, extended_fvk_len, diversifier_len, note_len, payment_addr_len, memo_len, ovk_len,
}

abbrev pub position_len : ℕ
position_len = 8

-- *len, from the byte behind the fixed part of the spend at the address `spend`
unfoldable pub get_spend_description_len : (ℕ → ℕ) → ℕ → ℕ
get_spend_description_len mem spend =
    let offset = extended_fvk_len + diversifier_len + note_len in
    (offset + 1 + load mem (spend + offset) * (32 + 1) + position_len) % 2 ^ 16

unfoldable pub skip_spend_description : Reader (Unit {0})
skip_spend_description = do
  check_and_advance (extended_fvk_len + diversifier_len + note_len)
  auth_path_len ← read_byte
  check_and_advance (auth_path_len * (32 + 1) + position_len)

-- The fixed part uses NOTE_LEN, where readSaplingOutputDescriptionInfo reads OUT_NOTE_LEN.
unfoldable pub skip_output_description : Reader (Unit {0})
skip_output_description = do
  has_ovk ← read_byte
  check_and_advance (
      (if has_ovk == 0 then 0 else ovk_len)
      + diversifier_len
      + payment_addr_len
      + note_len
      + memo_len)

-- CTX_CHECK_AND_ADVANCE at a size of type uint64_t: the sum in the check is taken on 64 bits.
unfoldable pub check_and_advance_u64 : ℕ → Reader (Unit {0})
check_and_advance_u64 n c =
    if ltb c.buffer_len ((c.offset + n) % 2 ^ 64)
    then err unexpected_buffer_end
    else ok tt (advance n c)

unfoldable pub skip_convert_description : Reader (Unit {0})
skip_convert_description = do
  allowed_size ← read_compact_size
  check_and_advance_u64 ((allowed_size * (asset_id_len + int_128_len) + 8) % 2 ^ 64)
  merkel_size ← read_byte
  check_and_advance (merkel_size * (32 + 1) + 8)

unfoldable pub get_next_spend_description : ℕ → Reader (Unit {0})
get_next_spend_description index = repeat_reader skip_spend_description index

unfoldable pub get_next_output_description : ℕ → Reader (Unit {0})
get_next_output_description index = repeat_reader skip_output_description index

unfoldable pub get_next_convert_description : ℕ → Reader (Unit {0})
get_next_convert_description index = repeat_reader skip_convert_description index

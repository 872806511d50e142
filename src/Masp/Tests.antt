-- ===== src/Masp/Tests.antt =====
-- The walk of app/src/parser_impl_masp.c over spends and outputs of zero bytes.
use ledger_namada.Common.{ℕ, ◌≡◌, refl, arith}
use ledger_namada.Reader.{
  Ctx, ok, ◌>>=◌, pure, slice, load_le, read_byte, read_bytes, read_uint, read_uint64,
  check_and_advance,
}
use ledger_namada.Masp.Builder.{read_spend_description, read_output_description, repeat_reader}
use ledger_namada.Masp.Descriptions.{skip_output_description, get_next_spend_description}
use ledger_namada.Masp.Walk.{
  get_next_spend_description-read_spend_description,
  skip_output_description-read_output_description,
}

abbrev zeroes_at : ℕ → Ctx
zeroes_at offset = record { mem = λ i. 0; buffer = 5; buffer_len = 700; offset = offset }

two_spends_read : repeat_reader read_spend_description 2 (zeroes_at 0) ≡ ok tt (zeroes_at 652)
unfolding ◌>>=◌ pure slice load_le read_byte read_bytes read_uint read_uint64 read_spend_description
    repeat_reader
two_spends_read = refl

get_next_spend_description_example :
    get_next_spend_description 2 (zeroes_at 0) ≡ ok tt (zeroes_at 652)
get_next_spend_description_example =
    get_next_spend_description-read_spend_description 2 (zeroes_at 0) (zeroes_at 652) tt
      (omega arith) two_spends_read

output_read : read_output_description (zeroes_at 0) ≡ ok tt (zeroes_at 660)
unfolding ◌>>=◌ pure slice load_le read_byte read_bytes read_uint read_uint64
    read_output_description
output_read = refl

skip_output_description_example :
    skip_output_description (zeroes_at 0) ≡ check_and_advance 33 (zeroes_at 660)
skip_output_description_example =
    skip_output_description-read_output_description (zeroes_at 0) (zeroes_at 660) tt (omega arith)
      output_read

-- ===== src/Bech32/Tests.antt =====
-- Runs of the encoder of app/src/bech32_encoding.c.
use ledger_namada.Common.{ℕ, ◌+◌, ◌≤◌, List, length, arith, true, inr, ◌≡◌, refl, [], ◌∷◌, some}
use ledger_namada.Bech32.{
  bech32_encode_large, check_prefix, add_prefix, add_data, end_text, checksum_chars, add_zeroes,
  bech32_polymod_step, masked, bech32_final_constant, char_at, bech32m,
  bech32_encode_from_large_bytes, text_or_failed, convert_bits, convert_loop, take_groups, padding,
  EncodedText, text, failed,
}
use ledger_namada.Bech32.Fits.{Written, bech32_encode_from_large_bytes-Written}

-- "a1lqfn3a", the test vector of BIP 350 for the prefix "a" and no data.
empty_text :
    bech32_encode_large (97 ∷ []) [] bech32m ≡ some (97 ∷ 49 ∷ 108 ∷ 113 ∷ 102 ∷ 110 ∷ 51 ∷ 97 ∷ [])
unfolding bech32_encode_large check_prefix add_prefix add_data end_text checksum_chars add_zeroes
    bech32_polymod_step masked bech32_final_constant char_at
empty_text = refl

abbrev test_prefix : List ℕ
test_prefix = 97 ∷ []

abbrev test_bytes : List ℕ
test_bytes = 1 ∷ 2 ∷ 255 ∷ []

bech32_encode_from_large_bytes-Written_example :
    (t : List ℕ) × (bech32_encode_from_large_bytes 14 test_prefix test_bytes true bech32m ≡ text t)
    × Written test_prefix (convert_bits 5 test_bytes 8 true).0 t
    × (length t ≡ 1 + 5 + 7)
    × (length t + 1 ≤ 14)
bech32_encode_from_large_bytes-Written_example =
    bech32_encode_from_large_bytes-Written 14 test_prefix test_bytes bech32m
      ((omega arith, omega arith, inr (omega arith)), tt) (omega arith) (omega arith) (omega arith)
      (omega arith)

-- Two bytes with an output of twelve that the length test accepts: the text has twelve characters, and
-- its terminating zero is behind the output.
abbrev text_length : EncodedText → ℕ
text_length (text t) = length t
text_length (failed e) = 0

no_room_for_zero :
    text_length (bech32_encode_from_large_bytes 12 test_prefix (1 ∷ 2 ∷ []) true bech32m) ≡ 12
unfolding bech32_encode_from_large_bytes text_or_failed convert_bits convert_loop take_groups
    padding bech32_encode_large check_prefix add_prefix add_data end_text checksum_chars add_zeroes
    bech32_polymod_step masked bech32_final_constant char_at
no_room_for_zero = refl

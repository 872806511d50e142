-- ===== src/Transaction/Tests.antt =====
-- Small inputs for the readers of app/src/parser_impl_txn.c, and the theorems on them.
use ledger_namada.Common.{
  List, ℕ, ◌+◌, ◌<◌, ◌≤◌, ltb, ◌≡◌, ◌≢◌, refl, arith, some, [], replicate, ◌==◌, if◌then◌else◌,
}
use ledger_namada.Reader.{
  Ctx, Outcome, ok, err, fault, ◌>>=◌, pure, fail, slice, load_le, skip, get_offset, position, peek,
  check_and_advance, read_byte, read_uint, read_uint16, read_uint32, read_uint64, read_bytes,
  check_tag, expect_end, read_pubkey, is_all_zeroes,
}
use ledger_namada.Address.{read_address_alt, read_address_established}
use ledger_namada.Crypto.{
  Section, Library, tag_bytes, compute_code_hash, hash_data_section, hash_code_section,
  address_payload, encode_alt_address, le_bytes,
}
use ledger_namada.Header.{Header, read_header, read_header_fields, skip_chain_id, skip_expiration}
use ledger_namada.Masp.Builder.{RandCounts, read_masp_builder}
use ledger_namada.Txn.Fields.{read_text, read_checked_text, read_flagged_text}
use ledger_namada.Txn.Transfer.{read_token, find_token}
use ledger_namada.Sections.{read_salt, read_hash_array, read_data_section, read_code_section}
use ledger_namada.Sections.All.{
  Sections, read_section, read_section_loop, read_sections, no_sections,
}
use ledger_namada.Masp.Bundle.{read_masp_tx}
use ledger_namada.Masp.Safe.{Safe-read_masp_tx, Safe-read_masp_builder}
use ledger_namada.Sections.Authentic.{Committed, read_sections-Committed}
use ledger_namada.Reader.Safe.{Agree, InBounds, Alike, with_mem}
use ledger_namada.Transaction.{
  ParserTx, bond, ibc, update_vp, read_transaction_type, in_bytes, find_memo, read_memo,
  read_tx_data, validate_transaction_params, read_transaction, parser_parse,
}
use ledger_namada.Header.Safe.{Safe-read_header}
use ledger_namada.Transaction.Accepted.{IsChecked, parser_parse-IsChecked}
use ledger_namada.Txn.Linked.{InitAccount, UpdateVp, read_init_account_txn, read_update_vp_txn}
use ledger_namada.Signing.Entries.{IsSignable}
use ledger_namada.Transaction.Signable.{parser_parse-IsSignable}
use ledger_namada.Transaction.Safe.{Safe-read_tx_data}

abbrev test_library : Library
test_library = record {
  sha256 = λ bytes. some (replicate 32 0);
  bech32m = λ hrp payload. some [];
  derivation_path = [];
}

-- A header with a batch of one, a data section without bytes and a code section without a tag.
abbrev test_memory : ℕ → ℕ
test_memory i =
    if i == 9 then 1 else if i == 110 then 1 else if i == 206 then 2 else if i == 223 then 2 else 0

abbrev test_counts : RandCounts
test_counts = record { n_spends = 0; n_converts = 0 }

module _ {A : Type 0} where
  abbrev Accepts : Outcome A → Type 0
  Accepts (ok tx d) = Unit
  Accepts _ = ⊥

  abbrev result_of : (o : Outcome A) → Accepts o → A
  result_of (ok tx d) h = tx
  result_of (err e) h = absurd h
  result_of fault h = absurd h

  abbrev ctx_of : (o : Outcome A) → Accepts o → Ctx
  ctx_of (ok tx d) h = d
  ctx_of (err e) h = absurd h
  ctx_of fault h = absurd h

  accepted_ok : (o : Outcome A) (h : Accepts o) → o ≡ ok (result_of o h) (ctx_of o h)
  accepted_ok (ok tx d) h = refl
  accepted_ok (err e) h = absurd h
  accepted_ok fault h = absurd h

abbrev test_run : Outcome ParserTx
test_run = parser_parse test_library test_counts test_memory 0 266

test_run-Accepts : Accepts test_run
unfolding ◌>>=◌ pure fail slice load_le skip get_offset position peek check_and_advance read_byte
    read_uint read_uint16 read_uint32 read_uint64 read_bytes check_tag expect_end read_pubkey
    is_all_zeroes read_address_alt read_address_established tag_bytes compute_code_hash
    hash_data_section hash_code_section address_payload encode_alt_address le_bytes read_header
    read_header_fields skip_chain_id skip_expiration read_text read_checked_text read_flagged_text
    read_token find_token read_salt read_hash_array read_data_section read_code_section read_section
    read_section_loop read_sections read_transaction_type in_bytes find_memo read_memo read_tx_data
    validate_transaction_params read_transaction parser_parse
test_run-Accepts = tt

parser_parse-IsChecked_example :
    IsChecked test_library (result_of test_run test_run-Accepts)
    × ((ctx_of test_run test_run-Accepts).offset ≡ (ctx_of test_run test_run-Accepts).buffer_len)
parser_parse-IsChecked_example =
    parser_parse-IsChecked test_library test_counts test_memory 0 266
      (result_of test_run test_run-Accepts) (ctx_of test_run test_run-Accepts)
      (accepted_ok test_run test_run-Accepts)

parser_parse-IsSignable_example : IsSignable (result_of test_run test_run-Accepts)
parser_parse-IsSignable_example =
    parser_parse-IsSignable test_library test_counts test_memory 0 266
      (result_of test_run test_run-Accepts) (ctx_of test_run test_run-Accepts)
      (accepted_ok test_run test_run-Accepts)

bond_not_ibc : bond ≢ ibc
bond_not_ibc e = cc

bond_not_update_vp : bond ≢ update_vp
bond_not_update_vp e = cc

abbrev test_ctx : ℕ → Ctx
test_ctx offset = record { mem = test_memory; buffer = 0; buffer_len = 266; offset = offset }

-- The same bytes in the buffer, and other bytes behind it.
abbrev other_memory : ℕ → ℕ
other_memory i = if ltb i 266 then test_memory i else 7

same_below : (k m n : ℕ) → k < 266 → m ≡ (if ltb k 266 then m else n)
same_below k m n h = ground arith

other_memory-Agree : (offset : ℕ) → Agree 0 (test_ctx offset) other_memory
other_memory-Agree offset = record { same = λ i h. same_at i (omega arith) }
  where
    same_at : (k : ℕ) → k < 266 → test_memory (0 + k) ≡ other_memory (0 + k)
    same_at k h = same_below (0 + k) (test_memory (0 + k)) 7 (omega arith)

test_ctx-InBounds : (offset : ℕ) → offset ≤ 266 → InBounds (test_ctx offset)
test_ctx-InBounds offset h = record { within = h; fits = omega arith }

Safe-read_header_example :
    Alike
      (test_ctx 0)
      other_memory
      (read_header test_library (test_ctx 0))
      (read_header test_library (with_mem other_memory (test_ctx 0)))
Safe-read_header_example =
    (Safe-read_header test_library).at (test_ctx 0) other_memory (test_ctx-InBounds 0 (omega arith))
      (other_memory-Agree 0)

abbrev test_header : Header
test_header = (result_of test_run test_run-Accepts).header

abbrev sections_run : Outcome Sections
sections_run = read_sections test_library test_counts test_header (test_ctx 206)

sections_run-Accepts : Accepts sections_run
unfolding ◌>>=◌ pure fail slice load_le skip get_offset position peek check_and_advance read_byte
    read_uint read_uint16 read_uint32 read_uint64 read_bytes check_tag expect_end read_pubkey
    is_all_zeroes read_address_alt read_address_established tag_bytes compute_code_hash
    hash_data_section hash_code_section address_payload encode_alt_address le_bytes read_header
    read_header_fields skip_chain_id skip_expiration read_text read_checked_text read_flagged_text
    read_token find_token read_salt read_hash_array read_data_section read_code_section read_section
    read_section_loop read_sections read_transaction_type in_bytes find_memo read_memo read_tx_data
    validate_transaction_params read_transaction parser_parse
sections_run-Accepts = tt

read_sections-Committed_example :
    Committed test_library test_header (result_of sections_run sections_run-Accepts)
read_sections-Committed_example =
    (read_sections-Committed test_library test_counts test_header).result (test_ctx 206)
      (ctx_of sections_run sections_run-Accepts) (result_of sections_run sections_run-Accepts)
      (accepted_ok sections_run sections_run-Accepts)

Safe-read_masp_tx_example :
    Alike
      (test_ctx 0)
      other_memory
      (read_masp_tx (test_ctx 0))
      (read_masp_tx (with_mem other_memory (test_ctx 0)))
Safe-read_masp_tx_example =
    Safe-read_masp_tx.at (test_ctx 0) other_memory (test_ctx-InBounds 0 (omega arith))
      (other_memory-Agree 0)

Safe-read_masp_builder_example :
    Alike
      (test_ctx 0)
      other_memory
      (read_masp_builder test_counts (test_ctx 0))
      (read_masp_builder test_counts (with_mem other_memory (test_ctx 0)))
Safe-read_masp_builder_example =
    (Safe-read_masp_builder test_counts).at (test_ctx 0) other_memory
      (test_ctx-InBounds 0 (omega arith)) (other_memory-Agree 0)

Safe-read_tx_data_example :
    Alike
      (test_ctx 0)
      other_memory
      (read_tx_data test_library bond (no_sections 2) (test_ctx 0))
      (read_tx_data test_library bond (no_sections 2) (with_mem other_memory (test_ctx 0)))
Safe-read_tx_data_example =
    (Safe-read_tx_data test_library bond (no_sections 2) bond_not_ibc bond_not_update_vp refl).at
      (test_ctx 0) other_memory (test_ctx-InBounds 0 (omega arith)) (other_memory-Agree 0)

-- No public keys, and the code with the hash zero.
abbrev init_account_ctx : Ctx
init_account_ctx = record { mem = λ i. 0; buffer = 0; buffer_len = 37; offset = 0 }

abbrev test_extra : List Section
test_extra = (no_sections 2).extra_data

abbrev init_account_run : Outcome InitAccount
init_account_run = read_init_account_txn test_library test_extra 1 init_account_ctx

-- An update with has_vp_code 1.
abbrev update_vp_ctx : Ctx
update_vp_ctx = record {
  mem = λ i. if i == 21 then 1 else 0;
  buffer = 0;
  buffer_len = 59;
  offset = 0;
}

abbrev update_vp_run : Outcome UpdateVp
update_vp_run = read_update_vp_txn test_library test_extra 1 update_vp_ctx

-- ===== src/Print/Tests.antt =====
-- The printing of app/src/parser_print_txn.c at small transactions.
use ledger_namada.Common.{
  ℕ, ◌+◌, ◌-◌, ◌<◌, ◌≡◌, refl, arith, inl, true, false, none, some, [], ◌∷◌, ◌++◌, take, length,
}
use ledger_namada.Reader.{Ctx, display_idx_out_of_range, no_bytes, pure, fail}
use ledger_namada.Address.{no_address}
use ledger_namada.Txn.Delegation.{Bond}
use ledger_namada.Txn.Transfer.{Transfer}
use ledger_namada.Transaction.{ParserTx, bond, of_bond, of_transfer}
use ledger_namada.Transaction.Items.{get_num_items}
use ledger_namada.Signing.Tests.{test_sdk, test_tx}
use ledger_namada.Print.{item, amount}
use ledger_namada.Print.Masp.{Indices}
use ledger_namada.Masp.Zero.{no_masp_builder}
use ledger_namada.Print.Masp.Walk.{place, masp_walk, masp_walk-place}
use ledger_namada.Print.Common.{print_cases}
use ledger_namada.Print.Simple.{print_bond_txn}
use ledger_namada.Print.Fields.{print_data, print_txn_fields}
use ledger_namada.Print.Text.{Format, parser_get_item}
use ledger_namada.Print.Joined.{drop, pages_of, join_strings}
use ledger_namada.Print.Joined.Pages.{join_strings-window}
use ledger_namada.Print.Signed.{absolute}
use ledger_namada.Print.Signed.Magnitude.{value_of, signed_value, absolute-signed_value}
use ledger_namada.Print.Items.{item_at, items, field_items, header_items}
use ledger_namada.Print.Count.Complete.{print_txn_fields-items}
use ledger_namada.Print.Count.Refused.{custom-out_of_range}
use ledger_namada.Print.Count.Answered.{texts, parser_get_item-items}
use ledger_namada.Print.Validate.{all_answered, validate_display, validate_display-all_answered}

abbrev test_bond : Bond
test_bond = record {
  validator = no_address;
  amount = no_bytes;
  has_source = 1;
  source = no_address;
}

abbrev bond_tx : ParserTx
bond_tx = record test_tx { type_tx = bond; tx_data = of_bond test_bond; memo_section = some 0 }

abbrev test_indices : Indices
test_indices = record { spend_index = 5; out_index = 6 }

abbrev test_memory : ℕ → ℕ
test_memory i = 7

bond_tx-short : length (items true bond_tx bond_tx.tx_data) < 240
unfolding items field_items header_items
bond_tx-short = omega arith

bond_tx-ten : length (items true bond_tx bond_tx.tx_data) ≡ 10
unfolding items field_items header_items
bond_tx-ten = refl

print_txn_fields-items_example :
    (get_num_items true bond_tx ≡ some (length (items true bond_tx bond_tx.tx_data)))
    × ((page_idx i : ℕ) (st : Indices) (mem : ℕ → ℕ)
        → i < 240
        → (print_txn_fields true bond_tx page_idx i st mem).0
          ≡ item_at (items true bond_tx bond_tx.tx_data) i)
print_txn_fields-items_example =
    print_txn_fields-items true bond_tx refl (omega arith) bond_tx-short

-- The third item of the bond.
third_item :
    print_data false bond_tx bond_tx.tx_data 3
    ≡ pure (item "Amount" (amount no_bytes false 6 "NAM "))
unfolding print_data print_bond_txn print_cases
third_item = refl

abbrev test_format : Format
test_format = record {
  page_string = λ size t page. (take (size - 1) t, 1);
  page_string_hex = λ size t page. (take (size - 1) t, 1);
  array_to_hexstr = λ size t. t;
  uint64_to_str = λ size n. some (48 ∷ []);
  bignum_to_str = λ size t. some (48 ∷ []);
  insert_decimal_point = λ size t places. some t;
  str3join = λ size t before after. before ++ t ++ after;
  number_trimming = λ t n. t;
  bech32_encode_from_bytes = λ size hrp t. some t;
  extract_time = λ millis. none;
}

parser_get_item-items_example :
    (parser_get_item test_format test_sdk.library [] 40 0 true bond_tx 40 3 test_indices
      test_memory).0
    ≡ texts test_format test_sdk.library [] 40 0 40 (item_at (items true bond_tx bond_tx.tx_data) 3)
parser_get_item-items_example =
    parser_get_item-items test_format test_sdk.library [] 40 0 true bond_tx 40 3 test_indices
      test_memory refl (omega arith) bond_tx-short (omega arith)

abbrev test_ctx : Ctx
test_ctx = record { mem = test_memory; buffer = 0; buffer_len = 0; offset = 0 }

validate_display-all_answered_example :
    (validate_display test_format test_sdk.library [] true bond_tx test_indices test_memory
      test_ctx).0
    ≡ all_answered
        (texts test_format test_sdk.library [] 40 0 40)
        (items true bond_tx bond_tx.tx_data)
        test_ctx
validate_display-all_answered_example =
    validate_display-all_answered test_format test_sdk.library [] true bond_tx refl (omega arith)
      bond_tx-short test_indices test_memory test_ctx

custom-out_of_range_example :
    (n : ℕ) × (i : ℕ) × (get_num_items true test_tx ≡ some n)
    × (i < n)
    × ((print_txn_fields true test_tx 0 i test_indices test_memory).0
        ≡ fail display_idx_out_of_range)
custom-out_of_range_example =
    custom-out_of_range true test_tx 0 test_indices test_memory refl (inl refl)

abbrev test_transfer : Transfer
test_transfer = record {
  source_address = record no_address { tag = 2 };
  target_address = record no_address { tag = 2 };
  token = no_address;
  amount = no_bytes;
  amount_denom = 0;
  symbol = none;
  has_shielded_hash = 1;
  shielded_hash_len = 32;
}

-- The amount of the second output, with three spends and two outputs.
masp_walk-place_example : masp_walk 3 2 test_transfer test_indices 15 ≡ place 3 15
masp_walk-place_example =
    masp_walk-place 3 2 test_transfer (omega arith) (omega arith) (omega arith) (omega arith)
      test_indices 15 (omega arith)

abbrev third_tx : ParserTx
third_tx = record bond_tx {
  tx_data = of_transfer test_transfer;
  sections = record bond_tx.sections {
    is_masp = true;
    masp_builder = some (record no_masp_builder {
      builder = record no_masp_builder.builder {
        sapling_builder = record no_masp_builder.builder.sapling_builder {
          n_spends = 1;
          n_outputs = 3;
        };
      };
    });
  };
}

two_pages : 1 < pages_of 4 (2 + 1 + 3)
unfolding pages_of
two_pages = omega arith

-- "12 abc" on pages of four characters
join_strings-window_example :
    join_strings (49 ∷ 50 ∷ []) (97 ∷ 98 ∷ 99 ∷ []) (32 ∷ []) 4 1
    ≡ some (take 4 (drop 4 ((49 ∷ 50 ∷ []) ++ 32 ∷ 97 ∷ 98 ∷ 99 ∷ [])), pages_of 4 (2 + 1 + 3))
join_strings-window_example =
    join_strings-window (49 ∷ 50 ∷ []) (97 ∷ 98 ∷ 99 ∷ []) 32 4 1 (omega arith) (omega arith)
      (omega arith) two_pages

-- -2 in two bytes
absolute-signed_value_example :
    ((absolute true (254 ∷ 255 ∷ [])).0 ≡ (signed_value (254 ∷ 255 ∷ [])).0)
    × (value_of (absolute true (254 ∷ 255 ∷ [])).1 ≡ (signed_value (254 ∷ 255 ∷ [])).1)
absolute-signed_value_example =
    absolute-signed_value (254 ∷ 255 ∷ []) (omega arith, (omega arith, tt))

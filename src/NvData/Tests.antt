-- ===== src/NvData/Tests.antt =====
-- The theorems on app/src/nvdata.c at a small list of random values.
use ledger_namada.Common.{ℕ, ◌<◌, ◌≡◌, refl, arith, [], ◌∷◌, some, none, replicate}
use ledger_namada.NvData.{
  NvData, zxerr_ok, spend_list_size, transaction_reset, spend_append_rand_item,
  spendlist_retrieve_rand_item, output_append_rand_item, outputlist_retrieve_rand_item,
}
use ledger_namada.NvData.Reset.{IsWellSized, transaction_reset_lem}
use ledger_namada.NvData.Signatures.{
  append_signatures, get_signatures, spendlist_retrieve_rand_item-spend_append_rand_item,
  outputlist_retrieve_rand_item-output_append_rand_item,
  get_next_spend_signature-spend_signatures_append,
}

abbrev two_spends : NvData
two_spends = record {
  spendlist_len = 2;
  outputlist_len = 1;
  convertlist_len = 0;
  spends_sign_index = 0;
  spends =
      record { rcv = 3; alpha = 4 }
      ∷ record { rcv = 5; alpha = 6 }
      ∷ replicate 13 (record { rcv = 0; alpha = 0 });
  outputs = record { rcv = 7; rcm = 8 } ∷ replicate 14 (record { rcv = 0; rcm = 0 });
  converts = replicate 15 (record { rcv = 9 });
  spend_signatures = replicate 15 0;
}

two_spends-IsWellSized : IsWellSized two_spends
two_spends-IsWellSized = record { spends = refl; outputs = refl; converts = refl }

transaction_reset_example : transaction_reset two_spends ≡ record {
  spendlist_len = 0;
  outputlist_len = 0;
  convertlist_len = 0;
  spends_sign_index = 0;
  spends = replicate spend_list_size (record { rcv = 0; alpha = 0 });
  outputs = replicate spend_list_size (record { rcv = 0; rcm = 0 });
  converts = replicate spend_list_size (record { rcv = 0 });
  spend_signatures = two_spends.spend_signatures;
}
transaction_reset_example = transaction_reset_lem two_spends two_spends-IsWellSized

spend_append_rand_item_example :
    let e : NvData = (spend_append_rand_item 10 11 two_spends).0 in
    ((spend_append_rand_item 10 11 two_spends).1 ≡ zxerr_ok)
    × (e.spendlist_len ≡ 3)
    × (spendlist_retrieve_rand_item 2 e ≡ some (record { rcv = 10; alpha = 11 }))
    × ((j : ℕ)
        → j < 2
        → spendlist_retrieve_rand_item j e ≡ spendlist_retrieve_rand_item j two_spends)
spend_append_rand_item_example =
    spendlist_retrieve_rand_item-spend_append_rand_item two_spends 10 11 two_spends-IsWellSized
      (omega arith)

output_append_rand_item_example :
    let e : NvData = (output_append_rand_item 10 11 two_spends).0 in
    ((output_append_rand_item 10 11 two_spends).1 ≡ zxerr_ok)
    × (e.outputlist_len ≡ 2)
    × (outputlist_retrieve_rand_item 1 e ≡ some (record { rcv = 10; rcm = 11 }))
    × ((j : ℕ)
        → j < 1
        → outputlist_retrieve_rand_item j e ≡ outputlist_retrieve_rand_item j two_spends)
    × (outputlist_retrieve_rand_item 1 two_spends ≡ none)
output_append_rand_item_example =
    outputlist_retrieve_rand_item-output_append_rand_item two_spends 10 11 two_spends-IsWellSized
      (omega arith)

get_next_spend_signature_example :
    get_signatures 2 (append_signatures (21 ∷ 22 ∷ []) two_spends) ≡ (
      transaction_reset
          (record (append_signatures (21 ∷ 22 ∷ []) two_spends) { spends_sign_index = 0 }),
      some 21 ∷ some 22 ∷ [],
    )
get_next_spend_signature_example =
    get_next_spend_signature-spend_signatures_append 21 (22 ∷ []) two_spends refl refl refl
      (omega arith)

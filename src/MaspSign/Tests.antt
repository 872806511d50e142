-- ===== src/MaspSign/Tests.antt =====
-- The theorems on the shielded half at a transaction with one spend.
use ledger_namada.Common.{
  ℕ, ◌+◌, ◌<◌, ◌≡◌, refl, [], ◌∷◌, ◌++◌, eq_list, replicate, ltb, if◌then◌else◌,
}
use ledger_namada.Reader.{
  ok, Ctx, buf, ◌>>=◌, pure, fail, slice, load_le, read_bytes, read_uint, read_uint64,
  check_and_advance,
}
use ledger_namada.Crypto.{le_bytes}
use ledger_namada.NvData.{NvData, spendlist_retrieve_rand_item}
use ledger_namada.Masp.Bundle.{MaspTx}
use ledger_namada.Masp.Builder.{MaspBuilderSection, repeat_reader}
use ledger_namada.Masp.Descriptions.{get_next_spend_description}
use ledger_namada.Sdk.{Sdk}
use ledger_namada.Signing.Tests.{test_sdk}
use ledger_namada.Masp.Zero.{no_masp_tx, no_masp_builder}
use ledger_namada.TxHash.{signature_hash}
use ledger_namada.TxHash.Signed.{signature_hash-sapling_bundle}
use ledger_namada.MaspKeys.{Keys, compute_value_commitment, compute_rk}
use ledger_namada.MaspKeys.Diversifier.{next_four}
use ledger_namada.Signing.Response.{byte_at}
use ledger_namada.MaspSign.{over, rewind, check_spend, check_spends_loop}
use ledger_namada.MaspSign.Spends.{check_spends}
use ledger_namada.MaspSign.Checked.{IsCommitted, check_spends-IsCommitted}

-- The commitment is 32 bytes 9 at the start, the randomized key is zero; the builder stands from 1000 on.
abbrev test_memory : ℕ → ℕ
test_memory i = if ltb i 32 then 9 else 0

abbrev test_tx : MaspTx
test_tx = record no_masp_tx {
  sapling_bundle = record no_masp_tx.sapling_bundle {
    n_shielded_spends = 1;
    shielded_spends = record { ptr = buf 0; len = 96; content = [] };
  };
}

abbrev test_builder : MaspBuilderSection
test_builder = record no_masp_builder {
  builder = record no_masp_builder.builder {
    sapling_builder = record no_masp_builder.builder.sapling_builder {
      n_spends = 1;
      spends = record { ptr = buf 1000; len = 360 };
    };
  };
}

abbrev test_nv : NvData
test_nv = record {
  spendlist_len = 1;
  outputlist_len = 0;
  convertlist_len = 0;
  spends_sign_index = 0;
  spends = replicate 15 (record { rcv = 5; alpha = 0 });
  outputs = replicate 15 (record { rcv = 0; rcm = 0 });
  converts = replicate 15 (record { rcv = 0 });
  spend_signatures = replicate 15 0;
}

abbrev test_keys : Keys
test_keys = record {
  ask = [];
  ak = [];
  nsk = [];
  nk = [];
  ovk = [];
  ivk = [];
  diversifier = [];
  address = [];
}

abbrev spends_ctx : Ctx
spends_ctx = record { mem = test_memory; buffer = 1000; buffer_len = 360; offset = 0 }

test_check_spends :
    check_spends test_sdk test_memory test_tx test_builder test_nv test_keys ≡ ok tt spends_ctx
unfolding ◌>>=◌ pure fail slice load_le read_bytes read_uint read_uint64 check_and_advance le_bytes
    spendlist_retrieve_rand_item repeat_reader get_next_spend_description compute_value_commitment
    compute_rk rewind check_spend check_spends_loop check_spends
test_check_spends = refl

check_spends-IsCommitted_example :
    (test_builder.builder.sapling_builder.n_spends ≡ test_tx.sapling_bundle.n_shielded_spends)
    × ((i : ℕ)
        → i < test_tx.sapling_bundle.n_shielded_spends
        → IsCommitted test_sdk test_nv test_keys
            (over test_memory test_tx.sapling_bundle.shielded_spends)
            i)
    × ((i : ℕ)
        → i + 1 < test_tx.sapling_bundle.n_shielded_spends
        → i + 1 < 256
        → i < test_nv.spendlist_len)
check_spends-IsCommitted_example =
    check_spends-IsCommitted test_sdk test_memory test_tx test_builder test_nv test_keys tt
      spends_ctx test_check_spends

signature_hash-sapling_bundle_example :
    signature_hash test_sdk test_memory
      (record no_masp_tx { sapling_bundle = test_tx.sapling_bundle })
    ≡ signature_hash test_sdk test_memory no_masp_tx
signature_hash-sapling_bundle_example =
    signature_hash-sapling_bundle test_sdk test_memory no_masp_tx test_tx.sapling_bundle

-- A list function that gives back the index four times, and hashes that are valid as they end in zero.
abbrev counting_sdk : Sdk
counting_sdk = record test_sdk {
  diversifier_list = λ dk start. (next_four start, start ++ start ++ start ++ start);
  blake2s = λ key message. byte_at message 64 ∷ [];
  is_valid_diversifier = λ hash. eq_list hash (8 ∷ []);
}

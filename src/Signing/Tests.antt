-- ===== src/Signing/Tests.antt =====
-- The theorems on crypto_sign at a small transaction.
use ledger_namada.Common.{
  ℕ, ◌≡◌, ◌≤◌, ◌||◌, arith, some, none, List, [], ◌∷◌, replicate, length, take, eq_list, ◌==◌, true,
}
use ledger_namada.Reader.{buf, no_bytes, slice, address_of, hash_len}
use ledger_namada.Address.{no_address}
use ledger_namada.Txn.Fields.{no_span}
use ledger_namada.Sections.{no_signature}
use ledger_namada.Sections.All.{no_sections}
use ledger_namada.Transaction.{init_account, of_init_account, ParserTx, custom, of_custom}
use ledger_namada.Txn.Linked.{no_link}
use ledger_namada.Sdk.{Sdk}
use ledger_namada.Signing.Outcomes.{Outcomes}
use ledger_namada.Signing.Response.{Entry, crypto_sign, is_eligible, all_hashes}
use ledger_namada.Signing.Entries.{IsSignable}
use ledger_namada.Signing.Eligible.{is_eligible_lem}
use ledger_namada.Signing.Output.{IsSized, IsSigned, crypto_sign-IsSigned}

abbrev pub test_sdk : Sdk
test_sdk = record {
  library = record {
    sha256 = λ bytes. some (replicate 32 7);
    bech32m = λ hrp payload. some [];
    derivation_path = [];
  };
  blake2b = λ bits key message. some (replicate 32 8);
  blake2s = λ key message. replicate 32 9;
  derive_ed25519 = λ path. some (replicate 64 1);
  derive_normal = λ path. some (replicate 64 2);
  ed25519_pair = λ key. some (λ i. i);
  ed25519_sign = λ key message. some (replicate 64 3);
  from_bytes_wide = λ bytes. take 32 bytes;
  scalar_multiplication = λ scalar point. scalar;
  randomized_secret_from_seed = λ ask alpha. alpha;
  compute_sbar = λ s r rsk. s;
  add_points = λ hash value scalar. hash;
  get_pkd = λ ivk hash. hash;
  diversifier_list = λ dk start. (start, replicate 44 0);
  is_valid_diversifier = λ hash. true;
  bech32_text = λ hrp bytes. some (replicate 45 65);
}

abbrev pub test_tx : ParserTx
test_tx = record {
  type_tx = custom;
  tx_data = of_custom;
  header = record {
    ext_bytes = no_span;
    bytes = no_span;
    timestamp = no_bytes;
    fees = record { address = no_address; amount = no_bytes; denom = 0; symbol = none };
    pubkey = no_bytes;
    gas_limit = 0;
    batch_len = 1;
    code_hash = no_bytes;
    data_hash = no_bytes;
    memo_hash = no_bytes;
    atomic = 0;
  };
  sections = no_sections 2;
  memo_section = none;
}

abbrev test_memory : ℕ → ℕ
test_memory i = 7

test_sdk-IsSized : IsSized test_sdk
test_sdk-IsSized = record { signature = λ key message s e. same s e }
  where
    same : (s : List ℕ) → some (replicate 64 3) ≡ some s → length s ≡ 64
    same s e = cc

-- An account with the code of a section of index 3.
abbrev account_tx : ParserTx
account_tx = record test_tx {
  type_tx = init_account;
  tx_data = of_init_account (record {
    number_of_pubkeys = 1;
    pubkeys = no_span;
    threshold = 1;
    vp_type_sechash = record { ptr = buf 40; len = 32; content = replicate 32 6 };
    vp = record no_link { vp_type_secidx = 3 };
  });
}

account_tx-IsSignable : IsSignable account_tx
account_tx-IsSignable = record {
  signatures_read = omega arith;
  signatures_few = omega arith;
  extra_read = omega arith;
  memo_read = λ i e. absurd cc;
}

crypto_sign-IsSigned_example :
    Outcomes ⊥
      (λ out. IsSigned test_sdk test_memory (44 ∷ 877 ∷ []) account_tx out × (length out ≤ 194))
      (crypto_sign test_sdk (44 ∷ 877 ∷ []) test_memory account_tx 258)
crypto_sign-IsSigned_example =
    crypto_sign-IsSigned test_sdk test_memory (44 ∷ 877 ∷ []) account_tx 258 account_tx-IsSignable
      (λ e. cc) test_sdk-IsSized (omega arith)

abbrev one_entry : List Entry
one_entry = record { idx = 255; hash = replicate 32 7 } ∷ []

is_eligible_example :
    is_eligible test_memory (record no_signature { hashes_count = 2 }) one_entry ≡ (
      2 == 0
      || eq_list
          (slice test_memory (address_of no_bytes.ptr) hash_len)
          (take hash_len (all_hashes one_entry)))
is_eligible_example =
    is_eligible_lem test_memory (record no_signature { hashes_count = 2 }) one_entry (omega arith)

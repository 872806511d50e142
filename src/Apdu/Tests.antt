-- ===== src/Apdu/Tests.antt =====
-- The theorems on the commands, with a buffer that is a list of at most 100 bytes.
use ledger_namada.Common.{
  ℕ, ◌+◌, ◌-◌, ◌/◌, ◌≡◌, ◌⊎◌, refl, arith, true, false, none, List, [], ◌∷◌, ◌++◌, length, ◌==◌,
  if◌then◌else◌, replicate,
}
use ledger_namada.Reader.{load_le, slice}
use ledger_namada.Signing.Tests.{test_sdk}
use ledger_namada.Apdu.{show_response, Zxlib, idle, App, Apdu, Env, is_allowed_path, path_at}
use ledger_namada.Apdu.Upload.{
  more, last, is_malformed, extract_hd_path, start_upload, add_chunk, last_chunk, process_chunk,
  payload, append_payload,
}
use ledger_namada.Apdu.Refinement.{
  IsBuffering, abstract_step, start, finish, request, upload_of, seen, process_chunk-abstract,
}
use ledger_namada.Apdu.Whole.{run_adds, AreTaken, all_payloads, process_chunk-whole}
use ledger_namada.Apdu.Handlers.{handle_apdu, handle_get_keys, status_word}
use ledger_namada.Apdu.Answers.{IsBare, handle_get_keys-IsBare, status_word-code}
use ledger_namada.Apdu.Session.{here, next, command}
use ledger_namada.Apdu.Invariant.{Inv}
use ledger_namada.Apdu.Reachable.{Inv-Reach}

abbrev test_append : List ℕ → List ℕ → List ℕ × ℕ
test_append xs s = (s ++ xs, length xs)

abbrev test_zxlib : Zxlib (List ℕ)
test_zxlib = record {
  offset_cla = 0;
  offset_ins = 1;
  offset_p1 = 2;
  offset_p2 = 3;
  offset_payload_type = 2;
  offset_data = 5;
  apdu_min_length = 5;
  io_apdu_buffer_size = 260;
  p1_init = 0;
  p1_add = 1;
  p1_last = 2;
  ins_get_version = 0;
  ins_get_addr = 1;
  ins_sign = 2;
  code_ok = 0x9000;
  code_wrong_length = 0x6700;
  code_data_invalid = 0x6984;
  code_invalidp1p2 = 0x6b00;
  code_tx_not_initialized = 0x6987;
  code_output_buffer_too_small = 0x6983;
  code_cla_not_supported = 0x6e00;
  code_ins_not_supported = 0x6d00;
  code_execution_error = 0x6400;
  code_sign_verify_error = 0x6f01;
  code_command_not_allowed = 0x6986;
  fresh = [];
  append = test_append;
  contents = λ s. s;
}

test_zxlib-IsBuffering : IsBuffering test_zxlib
test_zxlib-IsBuffering = record { empty = refl; appended = λ xs s e. refl }

abbrev test_env : Env
test_env = record {
  pin_validated = true;
  code_pin = 0x6982;
  expert = false;
  behind = λ i. 0;
  random = λ i. replicate 64 i;
  version = replicate 12 0;
  fuel = 4;
  print_item = λ tx i. none;
}

abbrev test_app : App (List ℕ)
test_app = record {
  tx_initialized = false;
  hd_path = replicate 5 0;
  store = 9 ∷ [];
  tx_obj = none;
  nv = record {
    spendlist_len = 0;
    outputlist_len = 0;
    convertlist_len = 0;
    spends_sign_index = 0;
    spends = replicate 15 (record { rcv = 0; alpha = 0 });
    outputs = replicate 15 (record { rcv = 0; rcm = 0 });
    converts = replicate 15 (record { rcv = 0 });
    spend_signatures = replicate 15 0;
  };
  review = idle;
}

-- INS_SIGN with the path 44'/877'/0/0/0, and chunks of two bytes.
abbrev byte_of : List ℕ → ℕ → ℕ
byte_of [] i = 0
byte_of (x ∷ xs) i = if i == 0 then x else byte_of xs (i - 1)

abbrev start_apdu : Apdu
start_apdu = record {
  bytes =
      byte_of
        (0x57 ∷ 2 ∷ 0 ∷ 0 ∷ 21 ∷ 5 ∷ 0x2c ∷ 0 ∷ 0 ∷ 0x80 ∷ 0x6d ∷ 3 ∷ 0 ∷ 0x80 ∷ replicate 12 0);
  rx = 26;
}

abbrev chunk_apdu : ℕ → ℕ → Apdu
chunk_apdu p1 b = record { bytes = byte_of (0x57 ∷ 2 ∷ p1 ∷ 0 ∷ 2 ∷ b ∷ (b + 1) ∷ []); rx = 7 }

process_chunk-abstract_example :
    seen test_zxlib (process_chunk test_zxlib start_apdu test_app)
    ≡ abstract_step
        (request test_zxlib start_apdu)
        (append_payload test_zxlib start_apdu test_app).1
        (upload_of test_zxlib test_app)
process_chunk-abstract_example =
    process_chunk-abstract test_zxlib test_zxlib-IsBuffering start_apdu test_app

abbrev opened_app : App (List ℕ)
opened_app = (process_chunk test_zxlib start_apdu test_app).0

abbrev added_apdus : List Apdu
added_apdus = chunk_apdu 1 30 ∷ chunk_apdu 1 40 ∷ []

started_ok :
    (request test_zxlib start_apdu ≡ start true (path_at start_apdu.bytes 6))
    × ((process_chunk test_zxlib start_apdu test_app).1 ≡ more)
unfolding is_allowed_path is_malformed extract_hd_path start_upload process_chunk load_le
started_ok = (refl, refl)

added_ok : AreTaken test_zxlib added_apdus opened_app
unfolding is_allowed_path is_malformed extract_hd_path start_upload add_chunk process_chunk load_le
    slice
added_ok = (refl, refl, (refl, refl, tt))

finished_ok :
    (request test_zxlib (chunk_apdu 2 50) ≡ finish (payload test_zxlib (chunk_apdu 2 50)))
    × ((process_chunk test_zxlib (chunk_apdu 2 50) (run_adds test_zxlib added_apdus opened_app)).1
        ≡ last)
unfolding is_allowed_path is_malformed extract_hd_path start_upload add_chunk last_chunk
    process_chunk load_le slice
finished_ok = (refl, refl)

process_chunk-whole_example :
    let t : App (List ℕ) =
      (process_chunk test_zxlib (chunk_apdu 2 50) (run_adds test_zxlib added_apdus opened_app)).0 in
    (t.store ≡ all_payloads test_zxlib added_apdus ++ payload test_zxlib (chunk_apdu 2 50))
    × (t.hd_path ≡ path_at start_apdu.bytes 6)
process_chunk-whole_example =
    process_chunk-whole test_zxlib test_zxlib-IsBuffering start_apdu (chunk_apdu 2 50) added_apdus
      test_app true (path_at start_apdu.bytes 6) started_ok.0 started_ok.1 added_ok finished_ok.0
      finished_ok.1

-- The keys command for the viewing keys, without confirmation.
abbrev view_keys_apdu : Apdu
view_keys_apdu = record { bytes = byte_of (0x57 ∷ 3 ∷ 0 ∷ 1 ∷ 21 ∷ 5 ∷ replicate 20 0); rx = 26 }

handle_get_keys-IsBare_example :
    IsBare test_zxlib test_sdk test_env test_app
      (handle_get_keys test_zxlib test_sdk test_env view_keys_apdu test_app)
handle_get_keys-IsBare_example =
    handle_get_keys-IsBare test_zxlib test_sdk test_env view_keys_apdu test_app refl refl

status_word-code_example :
    ((status_word 0x9000 0x102 / 0x1000 ≡ 6) ⊎ (status_word 0x9000 0x102 / 0x1000 ≡ 9))
    × ((0x102 / 0x1000 ≡ 6) ⊎ (0x102 / 0x1000 ≡ 9) → status_word 0x9000 0x102 ≡ 0x102)
status_word-code_example = status_word-code 0x9000 0x102 refl (omega arith)

test_app-Inv : Inv test_zxlib test_sdk test_app
test_app-Inv = record { open_path = λ e. absurd cc; stored = omega arith; asked = λ e. absurd e }

Inv-Reach_example :
    Inv test_zxlib test_sdk (handle_apdu test_zxlib test_sdk test_env start_apdu test_app).0
Inv-Reach_example =
    Inv-Reach test_zxlib test_sdk (next here (command test_env start_apdu refl refl)) test_app-Inv

-- A session in which an address is on the screen.
abbrev asked_app : App (List ℕ)
asked_app = record test_app { review = show_response (1 ∷ []) }

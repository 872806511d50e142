-- ===== src/Apdu/Handlers.antt =====
-- The handlers and handleApdu of app/src/apdu_handler.c, tx_parse of app/src/common/tx.c with
-- parser_validate and parser_getItem of app/src/parser.c, parser_getErrorDescription of
-- app/src/parser_impl.c, and what a confirmation or a rejection calls in app/src/common/actions.h.
use Prim.Native.String.{String}
use ledger_namada.Common.{
  ℕ, zero, suc, ◌+◌, ◌-◌, ◌*◌, ◌/◌, ◌%◌, ◌^◌, Bool, not, Option, none, some, List, [], get_elem?,
  length, ltb, leb, ◌==◌, ◌&&◌, if◌then◌else◌,
}
use ledger_namada.Reader.{
  ParserError, no_data, init_context_empty, unexpected_buffer_end, unexpected_version,
  unexpected_characters, unexpected_field, duplicated_field, value_out_of_range, unexpected_chain,
  missing_field, display_idx_out_of_range, display_page_out_of_range, decimal_too_big,
  invalid_output_buffer, unexpected_number_items, Outcome, ok, err, fault, load,
}
use ledger_namada.Crypto.{codes}
use ledger_namada.NvData.{NvData, transaction_reset}
use ledger_namada.Transaction.{ParserTx, parser_parse}
use ledger_namada.Crypto.{on_path}
use ledger_namada.Transaction.Items.{get_num_items}
use ledger_namada.Sdk.{Sdk}
use ledger_namada.KeyAddress.{fill_address_ed25519}
use ledger_namada.MaspKeys.{crypto_fill_masp, view_keys, invalid_key}
use ledger_namada.MaspSign.{MaspType, spend, output, convert, compute_randomness}
use ledger_namada.MaspSign.Spends.{extract_spend_signature}
use ledger_namada.Apdu.{
  Zxlib, Review, sign, sign_masp, show_response, App, Apdu, Env, Answer, thrown, asynch, bad,
}
use ledger_namada.Apdu.Upload.{more, last, refused, extract_hd_path, process_chunk}

unfoldable pub error_description : ParserError → String
error_description no_data = "No more data"
error_description init_context_empty = "Initialized empty context"
error_description unexpected_buffer_end = "Unexpected buffer end"
error_description unexpected_version = "Unexpected version"
error_description unexpected_characters = "Unexpected characters"
error_description unexpected_field = "Unexpected field"
error_description duplicated_field = "Unexpected duplicated field"
error_description value_out_of_range = "Value out of range"
error_description unexpected_chain = "Unexpected chain"
error_description missing_field = "missing field"
error_description display_idx_out_of_range = "display index out of range"
error_description display_page_out_of_range = "display page out of range"
error_description decimal_too_big = "decimal cannot be parsed"
error_description invalid_output_buffer = "invalid output buffer"
error_description _ = "Unrecognized error code"

-- The upload in memory, with what stands behind it.
abbrev pub memory_of : List ℕ → (ℕ → ℕ) → ℕ → ℕ
memory_of xs behind i = elim (get_elem? xs i) [ none ↦ behind i | some b ↦ b ]

module _ (env : Env) (tx : ParserTx) where
  -- parser_getItem, as far as parser_validate needs it
  unfoldable pub get_item : ℕ → Option ParserError
  get_item i = elim (get_num_items env.expert tx) [
    | none ↦ some unexpected_number_items
    | some n ↦ if leb n i then some display_idx_out_of_range else env.print_item tx i
  ]

  -- n rounds of the loop from the item i on
  unfoldable pub validate_items : ℕ → ℕ → Option ParserError
  validate_items zero i = none
  validate_items (suc n) i =
      let rest = validate_items n (i + 1) in elim (get_item i) [ none ↦ rest | some e ↦ some e ]

  unfoldable pub parser_validate : Option ParserError
  parser_validate = elim (get_num_items env.expert tx) [
    | none ↦ some unexpected_number_items
    | some n ↦ validate_items n 0
  ]

-- What tx_parse leaves in tx_obj and answers: NULL, an error text, or no answer of the C code.
pub data Parsed : Type 0 where
  accepted : ParserTx → Parsed
  rejected : ParserError → Parsed
  no_answer : Parsed

module _ (sdk : Sdk) (env : Env) where
  abbrev pub validated : Outcome ParserTx → Parsed
  validated (ok tx c) = elim (parser_validate env tx) [ none ↦ accepted tx | some e ↦ rejected e ]
  validated (err e) = rejected e
  validated fault = no_answer

  -- hdPath, the bytes of the upload, and the numbers of the random values that were handed out.
  unfoldable pub tx_parse : List ℕ → List ℕ → NvData → Parsed
  tx_parse path uploaded nv = validated (
      parser_parse (on_path path sdk.library)
        (record { n_spends = nv.spendlist_len; n_converts = nv.convertlist_len })
        (memory_of uploaded env.behind) 0 (length uploaded))

-- The cases of the switch on G_io_apdu_buffer[OFFSET_INS].
pub data Ins : Type 0 where
  get_version get_addr sign_transaction get_keys : Ins
  get_rand : MaspType → Ins
  sign_shielded extract_spend_sign unknown : Ins

unfoldable pub ins_of : {Store : Type 0} → Zxlib Store → ℕ → Ins
ins_of z ins =
    if ins == z.ins_get_version
    then get_version
    else if ins == z.ins_get_addr
    then get_addr
    else if ins == z.ins_sign
    then sign_transaction
    else if ins == 3
    then get_keys
    else if ins == 4
    then get_rand spend
    else if ins == 5
    then get_rand output
    else if ins == 6
    then get_rand convert
    else if ins == 7
    then sign_shielded
    else if ins == 8
    then extract_spend_sign
    else unknown

module _ {Store : Type 0} (z : Zxlib Store) (sdk : Sdk) (env : Env) where
  -- A command that throws a status with nothing before it.
  abbrev pub refuse : ℕ → App Store → App Store × Answer
  refuse code app = (app, thrown [] code)

  -- After the last chunk: the review, or the error's text with APDU_CODE_DATA_INVALID. A transaction that
  -- is not accepted leaves no tx_obj to sign.
  abbrev pub reviewed : Review → App Store → Parsed → App Store × Answer
  reviewed r app (accepted tx) = (record app { tx_obj = some tx; review = r }, asynch)
  reviewed r app (rejected e) =
      (record app { tx_obj = none }, thrown (codes (error_description e)) z.code_data_invalid)
  reviewed r app no_answer = (record app { tx_obj = none }, bad)

  -- handleSignTransaction and handleSignMasp, which differ in the review's action.
  unfoldable pub handle_sign : Review → Apdu → App Store → App Store × Answer
  handle_sign r a app =
      let (app', chunk) = process_chunk z a app in
      elim chunk [
        | more ↦ (app', thrown [] z.code_ok)
        | refused code ↦ (app', thrown [] code)
        | last ↦ reviewed r app' (tx_parse sdk env app'.hd_path (z.contents app'.store) app'.nv)
      ]

  -- A response that is sent at once, or shown first. app_fill_address and app_fill_keys throw when there is none.
  abbrev pub respond : ℕ → Bool → Option (List ℕ) → App Store → App Store × Answer
  respond on_error confirm none app = (app, thrown [] on_error)
  respond on_error confirm (some out) app =
      if length out == 0
      then (app, thrown [] on_error)
      else if confirm
      then (record app { review = show_response out }, asynch)
      else (app, thrown out z.code_ok)

  unfoldable pub handle_get_addr : Apdu → App Store → App Store × Answer
  handle_get_addr a app =
      let (app', status) = extract_hd_path z a z.offset_data app in
      elim status [
        | some code ↦ (app', thrown [] code)
        | none ↦
            respond z.code_execution_error (not (load a.bytes z.offset_p1 == 0))
              (fill_address_ed25519 sdk app'.hd_path z.io_apdu_buffer_size) app'
      ]

  -- handleGetKeys after the path: viewing keys leave only with a confirmation.
  unfoldable pub keys_answer : Apdu → App Store → App Store × Answer
  keys_answer a app =
      let confirm = not (load a.bytes z.offset_p1 == 0) in
      let requested = load a.bytes z.offset_p2 in
      if leb invalid_key requested
      then refuse z.code_invalidp1p2 app
      else if not confirm && requested == view_keys
      then refuse z.code_invalidp1p2 app
      else respond z.code_execution_error confirm
          (crypto_fill_masp sdk env.fuel app.hd_path requested z.io_apdu_buffer_size) app

  unfoldable pub handle_get_keys : Apdu → App Store → App Store × Answer
  handle_get_keys a app =
      let (app', status) = extract_hd_path z a z.offset_data app in
      elim status [ some code ↦ (app', thrown [] code) | none ↦ keys_answer a app' ]

  -- app_fill_randomness and app_fill_spend_sig: an error resets the stored values.
  abbrev pub respond_stored : NvData × Option (List ℕ) → App Store → App Store × Answer
  respond_stored (nv, none) app =
      (record app { nv = transaction_reset nv }, thrown [] z.code_data_invalid)
  respond_stored (nv, some out) app = (record app { nv = nv }, thrown out z.code_ok)

  unfoldable pub handle_compute_masp_rand : MaspType → App Store → App Store × Answer
  handle_compute_masp_rand type app =
      respond_stored
        (compute_randomness sdk type (env.random 0) (env.random 1) (z.io_apdu_buffer_size - 3)
          app.nv)
        app

  unfoldable pub handle_extract_spend_sign : App Store → App Store × Answer
  handle_extract_spend_sign app = respond_stored (extract_spend_signature app.nv) app

  -- CHECK_PIN_VALIDATED of the zxlib in front of a handler
  abbrev pub pinned : (App Store → App Store × Answer) → App Store → App Store × Answer
  pinned handler app = if env.pin_validated then handler app else refuse env.code_pin app

  -- What the case of an instruction calls.
  abbrev pub dispatch : Ins → Apdu → App Store → App Store × Answer
  dispatch get_version a app = (app, thrown env.version z.code_ok)
  dispatch get_addr a app = pinned (handle_get_addr a) app
  dispatch sign_transaction a app = pinned (handle_sign sign a) app
  dispatch get_keys a app = pinned (handle_get_keys a) app
  dispatch (get_rand type) a app = pinned (handle_compute_masp_rand type) app
  dispatch sign_shielded a app = pinned (handle_sign sign_masp a) app
  dispatch extract_spend_sign a app = pinned handle_extract_spend_sign app
  dispatch unknown a app = refuse z.code_ins_not_supported app

  unfoldable pub handle_apdu : Apdu → App Store → App Store × Answer
  handle_apdu a app =
      if not (load a.bytes z.offset_cla == 0x57)
      then refuse z.code_cla_not_supported app
      else if ltb a.rx z.apdu_min_length
      then refuse z.code_wrong_length app
      else dispatch (ins_of z (load a.bytes z.offset_ins)) a app

-- The status word of CATCH_OTHER: an exception that is no status of an APDU is put under 0x6800.
unfoldable pub status_word : ℕ → ℕ → ℕ
status_word code_ok e =
    if e / 0x1000 % 16 == 6
    then e % 2 ^ 16
    else if e / 0x1000 % 16 * 0x1000 == code_ok
    then e % 2 ^ 16
    else 0x6800 + e % 0x800

-- ===== src/Apdu/Upload.antt =====
-- extractHDPath and process_chunk of app/src/apdu_handler.c, and the buffer of app/src/common/tx.c.
use ledger_namada.Common.{
  ℕ, ◌+◌, ◌-◌, ◌*◌, ◌%◌, ◌^◌, Bool, true, false, not, Option, none, some, List, ltb, ◌==◌, ◌||◌,
  if◌then◌else◌,
}
use ledger_namada.Reader.{load, slice}
use ledger_namada.Apdu.{Zxlib, App, Apdu, hdpath_len_default, is_allowed_path, path_at}

-- What process_chunk does: false, true, or a status that it throws.
pub data Chunk : Type 0 where
  more : Chunk
  last : Chunk
  refused : ℕ → Chunk

-- `pathLength != HDPATH_LEN_DEFAULT || (rx - offset) != sizeof(uint32_t) * pathLength`, where `rx - offset`
-- is on a uint32_t
unfoldable pub is_malformed : Apdu → ℕ → Bool
is_malformed a offset =
    not (load a.bytes offset == hdpath_len_default)
    || not ((a.rx + 2 ^ 32 - (offset + 1)) % 2 ^ 32 == 4 * load a.bytes offset)

module _ {Store : Type 0} (z : Zxlib Store) where
  -- The checks, and hdPath between them. `none` is a return, and a number the status that is thrown.
  abbrev pub path_result : Bool → Bool → List ℕ → App Store → App Store × Option ℕ
  path_result true allowed path app = (app, some z.code_wrong_length)
  path_result false true path app = (record app { hd_path = path }, none)
  path_result false false path app = (record app { hd_path = path }, some z.code_data_invalid)

  unfoldable pub extract_hd_path : Apdu → ℕ → App Store → App Store × Option ℕ
  extract_hd_path a offset app =
      let path = path_at a.bytes (offset + 1) in
      path_result (is_malformed a offset) (is_allowed_path path) path
        (record app { tx_initialized = false })

  -- The bytes of a command behind its header.
  abbrev pub payload : Apdu → List ℕ
  payload a = slice a.bytes z.offset_data (a.rx - z.offset_data)

  -- tx_append, and whether every byte was taken
  abbrev pub append_payload : Apdu → App Store → App Store × Bool
  append_payload a app =
      let (store, added) = z.append (payload a) app.store in
      (record app { store = store }, added == a.rx - z.offset_data)

  abbrev pub opened : App Store × Option ℕ → App Store × Chunk
  opened (app, none) = (record app { tx_initialized = true }, more)
  opened (app, some code) = (app, refused code)

  -- tx_initialize and tx_reset, and then the path.
  unfoldable pub start_upload : Apdu → App Store → App Store × Chunk
  start_upload a app = opened (extract_hd_path a z.offset_data (record app { store = z.fresh }))

  abbrev pub added : App Store × Bool → App Store × Chunk
  added (app, true) = (app, more)
  added (app, false) =
      (record app { tx_initialized = false }, refused z.code_output_buffer_too_small)

  unfoldable pub add_chunk : Apdu → App Store → App Store × Chunk
  add_chunk a app =
      if app.tx_initialized
      then added (append_payload a app)
      else (app, refused z.code_tx_not_initialized)

  abbrev pub finished : App Store × Bool → App Store × Chunk
  finished (app, true) = (record app { tx_initialized = false }, last)
  finished (app, false) =
      (record app { tx_initialized = false }, refused z.code_output_buffer_too_small)

  unfoldable pub last_chunk : Apdu → App Store → App Store × Chunk
  last_chunk a app =
      if app.tx_initialized
      then finished (append_payload a app)
      else (app, refused z.code_tx_not_initialized)

  unfoldable pub process_chunk : Apdu → App Store → App Store × Chunk
  process_chunk a app =
      let payload_type = load a.bytes z.offset_payload_type in
      if ltb a.rx z.offset_data
      then (app, refused z.code_wrong_length)
      else if payload_type == z.p1_init
      then start_upload a app
      else if payload_type == z.p1_add
      then add_chunk a app
      else if payload_type == z.p1_last
      then last_chunk a app
      else (app, refused z.code_invalidp1p2)

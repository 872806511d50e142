-- ===== src/Apdu/Answers.antt =====
-- The answers of single commands.
use ledger_namada.Common.{ℕ, ◌/◌, ◌^◌, ◌<◌, ◌≡◌, ◌⊎◌, refl, arith, Option, none, some, []}
use ledger_namada.Reader.{load}
use ledger_namada.MaspKeys.{view_keys}
use ledger_namada.Sdk.{Sdk}
use ledger_namada.Apdu.{Zxlib, App, Apdu, Env, Answer, thrown}
use ledger_namada.Apdu.Upload.{extract_hd_path}
use ledger_namada.Apdu.Chunks.{Kept, Kept-extract_hd_path}
use ledger_namada.Apdu.Handlers.{keys_answer, handle_get_keys, status_word}

module _ {Store : Type 0} (z : Zxlib Store) (sdk : Sdk) (env : Env) where
  -- An answer of a status alone, that leaves the review as it was.
  pub record IsBare (app : App Store) (r : App Store × Answer) : Type 0 where
    pub code : ℕ
    pub bare : r.1 ≡ thrown [] code
    pub review : r.0.review ≡ app.review

  IsBare-keys_answer :
      (a : Apdu) (app : App Store)
      → load a.bytes z.offset_p2 ≡ view_keys
      → load a.bytes z.offset_p1 ≡ 0
      → keys_answer z sdk env a app ≡ (app, thrown [] z.code_invalidp1p2)
  unfolding keys_answer
  IsBare-keys_answer a app view silent = rw (keys_answer, view, silent) refl

  -- Without a confirmation (P1 is 0), the command for the viewing keys answers a status and no other byte,
  -- and asks the user nothing, in every state.
  pub handle_get_keys-IsBare :
      (a : Apdu) (app : App Store)
      → load a.bytes z.offset_p2 ≡ view_keys
      → load a.bytes z.offset_p1 ≡ 0
      → IsBare app (handle_get_keys z sdk env a app)
  unfolding handle_get_keys
  handle_get_keys-IsBare a app view silent =
      by_status (extract_hd_path z a z.offset_data app).1
        (Kept-extract_hd_path z a z.offset_data app)
    where
      by_status :
          (o : Option ℕ)
          → Kept z app (extract_hd_path z a z.offset_data app).0
          → IsBare app (elim o [
            | some code ↦ ((extract_hd_path z a z.offset_data app).0, thrown [] code)
            | none ↦ keys_answer z sdk env a (extract_hd_path z a z.offset_data app).0
          ])
      by_status (some code) k = record { code = code; bare = refl; review = k.review }
      by_status none k =
          rw (IsBare-keys_answer a (extract_hd_path z a z.offset_data app).0 view silent)
            (record { code = z.code_invalidp1p2; bare = refl; review = k.review })

-- Where APDU_CODE_OK is 0x9000, the status word of an exception below 2 ^ 16 is a number 0x6... or 0x9...,
-- and an exception of that form is its own status word.
pub status_word-code :
    (code_ok e : ℕ)
    → code_ok ≡ 0x9000
    → e < 2 ^ 16
    → ((status_word code_ok e / 0x1000 ≡ 6) ⊎ (status_word code_ok e / 0x1000 ≡ 9))
      × ((e / 0x1000 ≡ 6) ⊎ (e / 0x1000 ≡ 9) → status_word code_ok e ≡ e)
unfolding status_word
status_word-code code_ok e h l = ground arith

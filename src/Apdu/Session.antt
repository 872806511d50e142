-- ===== src/Apdu/Session.antt =====
-- What a confirmation or a rejection does (app/src/common/actions.h), and the steps of a session.
use ledger_namada.Common.{
  ℕ, ◌+◌, ◌-◌, ◌*◌, ◌≡◌, ◌≢◌, Option, none, some, List, [], ◌++◌, take, replicate,
}
use ledger_namada.Reader.{hash_len}
use ledger_namada.Sections.{salt_len}
use ledger_namada.NvData.{NvData, transaction_reset}
use ledger_namada.Masp.Bundle.{MaspTx}
use ledger_namada.Masp.Builder.{MaspBuilderSection}
use ledger_namada.Masp.Zero.{no_masp_tx, no_masp_builder}
use ledger_namada.Transaction.{ParserTx}
use ledger_namada.Sdk.{Sdk}
use ledger_namada.Signing.{Attempt, done, failed, bad_access}
use ledger_namada.Signing.Response.{crypto_sign}
use ledger_namada.MaspSign.Spends.{crypto_sign_masp}
use ledger_namada.Apdu.{
  Zxlib, Review, idle, sign, sign_masp, show_response, App, Apdu, Env, Answer, thrown, bad,
}
use ledger_namada.Apdu.Handlers.{memory_of, handle_apdu}

-- responseLen of app_sign
abbrev pub sign_response_len : ℕ
sign_response_len = 33 + 2 * salt_len + 2 * 65 + 2 + 10

-- The first bytes of a zeroed buffer that a response was written to.
abbrev pub cut_to : ℕ → List ℕ → List ℕ
cut_to n out = take n (out ++ replicate n 0)

-- A section that the transaction does not have is zeroed.
abbrev pub masp_tx_or_zero : Option MaspTx → MaspTx
masp_tx_or_zero (some tx) = tx
masp_tx_or_zero none = no_masp_tx

abbrev pub masp_builder_or_zero : Option MaspBuilderSection → MaspBuilderSection
masp_builder_or_zero (some b) = b
masp_builder_or_zero none = no_masp_builder

module _ {Store : Type 0} (z : Zxlib Store) (sdk : Sdk) (env : Env) where
  abbrev pub signed_answer : Attempt (List ℕ) → Answer
  signed_answer (done out) = thrown (cut_to sign_response_len out) z.code_ok
  signed_answer failed = thrown [] z.code_sign_verify_error
  signed_answer bad_access = bad

  -- app_sign. The transaction's pointers lead into the upload.
  unfoldable pub app_sign : App Store → Answer
  app_sign app = elim app.tx_obj [
    | none ↦ bad
    | some tx ↦ signed_answer (
        crypto_sign sdk app.hd_path (memory_of (z.contents app.store) env.behind) tx
          (z.io_apdu_buffer_size - 2))
  ]

  abbrev pub masp_answer : App Store → Option (NvData × Option (List ℕ)) → App Store × Answer
  masp_answer app none = (app, bad)
  masp_answer app (some (nv, none)) =
      (record app { nv = transaction_reset nv }, thrown [] z.code_sign_verify_error)
  masp_answer app (some (nv, some hash)) =
      (record app { nv = nv }, thrown (cut_to hash_len hash) z.code_ok)

  abbrev pub app_sign_masp : Option ParserTx → App Store → App Store × Answer
  app_sign_masp none app = (app, bad)
  app_sign_masp (some tx) app = masp_answer app (
      crypto_sign_masp sdk env.fuel app.hd_path (memory_of (z.contents app.store) env.behind)
        (masp_tx_or_zero tx.sections.masp_tx) (masp_builder_or_zero tx.sections.masp_builder)
        (z.contents app.store) env.random (z.io_apdu_buffer_size - 3) app.nv)

  abbrev pub confirmed : Review → App Store → App Store × Answer
  confirmed idle app = (app, bad)
  confirmed sign app = (app, app_sign app)
  confirmed sign_masp app = app_sign_masp app.tx_obj app
  confirmed (show_response out) app = (app, thrown out z.code_ok)

  -- The review's action, after which nothing is asked any more.
  unfoldable pub confirm : App Store → App Store × Answer
  confirm app =
      let (app', answer) = confirmed app.review app in (record app' { review = idle }, answer)

  unfoldable pub app_reject : App Store → App Store × Answer
  app_reject app = (
    record app { nv = transaction_reset app.nv; review = idle },
    thrown [] z.code_command_not_allowed,
  )

-- A step of a session: with IO_ASYNCH_REPLY no command is taken before the review is answered, and
-- only a review that is open is answered.
pub data Step {Store : Type 0} (z : Zxlib Store) (sdk : Sdk) (app app' : App Store) : Type 0 where
  command :
      (env : Env) (a : Apdu)
      → app.review ≡ idle
      → app' ≡ (handle_apdu z sdk env a app).0
      → Step z sdk app app'
  confirmation :
      (env : Env) → app.review ≢ idle → app' ≡ (confirm z sdk env app).0 → Step z sdk app app'
  rejection :
      (env : Env) → app.review ≢ idle → app' ≡ (app_reject z sdk env app).0 → Step z sdk app app'

pub data Reach {Store : Type 0} (z : Zxlib Store) (sdk : Sdk) (app : App Store)
    : App Store → Type 0 where
  here : Reach z sdk app app
  next : {t u : App Store} → Reach z sdk app t → Step z sdk t u → Reach z sdk app u

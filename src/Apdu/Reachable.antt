-- ===== src/Apdu/Reachable.antt =====
-- Every state that a session reaches.
use mathlib.Core.Path.{subst}
use ledger_namada.Common.{ℕ, ◌≡◌, refl, sym, Option, none, some, List}
use ledger_namada.NvData.{NvData, transaction_reset}
use ledger_namada.Transaction.{ParserTx}
use ledger_namada.Sdk.{Sdk}
use ledger_namada.MaspSign.Counters.{
  IsBounded, transaction_reset-IsBounded, crypto_sign_masp-IsBounded,
}
use ledger_namada.Apdu.{Zxlib, Review, idle, sign, sign_masp, show_response, App, Env, Answer}
use ledger_namada.Apdu.Session.{
  masp_answer, app_sign_masp, confirmed, confirm, app_reject, Step, command, confirmation,
  rejection, Reach, here, next,
}
use ledger_namada.Apdu.Invariant.{Inv, Inv-handle_apdu}

module _ {Store : Type 0} (z : Zxlib Store) (sdk : Sdk) where
  -- An answered review: the stored values may have changed, and nothing is asked.
  Inv-answered :
      (app : App Store) (nv : NvData)
      → Inv z sdk app
      → IsBounded nv
      → Inv z sdk (record app { nv = nv; review = idle })
  Inv-answered app nv i b = record { open_path = i.open_path; stored = b; asked = λ f. absurd f }

  module _ (env : Env) where
    abbrev IsAnswered : App Store × Answer → Type 0
    IsAnswered r = Inv z sdk (record r.0 { review = idle })

    Inv-masp_answer :
        (app : App Store) (o : Option (NvData × Option (List ℕ)))
        → Inv z sdk app
        → ((nv : NvData) (out : Option (List ℕ)) → o ≡ some (nv, out) → IsBounded nv)
        → IsAnswered (masp_answer z sdk env app o)
    Inv-masp_answer app none i b = Inv-answered app app.nv i i.stored
    Inv-masp_answer app (some (nv, none)) i b =
        Inv-answered app (transaction_reset nv) i (transaction_reset-IsBounded nv (b nv none refl))
    Inv-masp_answer app (some (nv, some hash)) i b = Inv-answered app nv i (b nv (some hash) refl)

    Inv-app_sign_masp :
        (o : Option ParserTx) (app : App Store)
        → Inv z sdk app
        → IsAnswered (app_sign_masp z sdk env o app)
    Inv-app_sign_masp none app i = Inv-answered app app.nv i i.stored
    Inv-app_sign_masp (some tx) app i =
        Inv-masp_answer app _ i
          (λ nv out e. crypto_sign_masp-IsBounded sdk _ _ _ _ _ _ _ _ app.nv nv out i.stored e)

    Inv-confirmed :
        (r : Review) (app : App Store) → Inv z sdk app → IsAnswered (confirmed z sdk env r app)
    Inv-confirmed idle app i = Inv-answered app app.nv i i.stored
    Inv-confirmed sign app i = Inv-answered app app.nv i i.stored
    Inv-confirmed sign_masp app i = Inv-app_sign_masp app.tx_obj app i
    Inv-confirmed (show_response out) app i = Inv-answered app app.nv i i.stored

  Inv-Step : {app app' : App Store} → Step z sdk app app' → Inv z sdk app → Inv z sdk app'
  unfolding confirm app_reject
  Inv-Step (command env a quiet e) i =
      subst (Inv z sdk) (sym e) (Inv-handle_apdu z sdk env a _ i quiet)
  Inv-Step (confirmation env asked e) i = subst (Inv z sdk) (sym e) (Inv-confirmed env _ _ i)
  Inv-Step (rejection env asked e) i =
      subst (Inv z sdk) (sym e) (Inv-answered _ _ i (transaction_reset-IsBounded _ i.stored))

  -- In every state that a session reaches from one where it holds: an upload that goes on has the path of
  -- a key of one of the two networks; the counters of the stored random values and signatures stay within
  -- their arrays, with at most as many signatures as spends; and where the user is asked to sign, the
  -- transaction is one that tx_parse accepted of exactly the bytes in the upload buffer, the path is
  -- allowed, and the upload is closed.
  pub Inv-Reach : {s t : App Store} → Reach z sdk s t → Inv z sdk s → Inv z sdk t
  Inv-Reach here i = i
  Inv-Reach (next r st) i = Inv-Step st (Inv-Reach r i)

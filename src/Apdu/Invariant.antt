-- ===== src/Apdu/Invariant.antt =====
-- What holds in every state of a session.
use mathlib.Core.Path.{subst}
use ledger_namada.Common.{
  ℕ, ◌-◌, ◌≡◌, refl, sym, ◌∙◌, Bool, true, false, not, Option, none, some, List, [], length, ltb,
  leb, ◌==◌, ◌&&◌, if◌then◌else◌,
}
use ledger_namada.Reader.{load}
use ledger_namada.NvData.{NvData}
use ledger_namada.Transaction.{ParserTx}
use ledger_namada.MaspSign.{MaspType}
use ledger_namada.MaspSign.Counters.{
  IsBounded, transaction_reset-IsBounded, compute_randomness-IsBounded,
  extract_spend_signature-IsBounded,
}
use ledger_namada.KeyAddress.{fill_address_ed25519}
use ledger_namada.MaspKeys.{crypto_fill_masp, view_keys, invalid_key}
use ledger_namada.Sdk.{Sdk}
use ledger_namada.Apdu.{
  Zxlib, Review, idle, sign, sign_masp, show_response, App, Apdu, Env, Answer, thrown, asynch,
  is_allowed_path,
}
use ledger_namada.Apdu.Chunks.{Kept, Kept-extract_hd_path, Chunked, Chunked-process_chunk}
use ledger_namada.Apdu.Upload.{Chunk, more, last, refused, extract_hd_path, process_chunk}
use ledger_namada.Apdu.Handlers.{
  Parsed, accepted, rejected, no_answer, tx_parse, reviewed, handle_sign, respond, handle_get_addr,
  keys_answer, handle_get_keys, respond_stored, handle_compute_masp_rand, handle_extract_spend_sign,
  pinned, handle_apdu, Ins, get_version, get_addr, sign_transaction, get_keys, get_rand,
  sign_shielded, extract_spend_sign, unknown, ins_of, dispatch,
}

abbrev pub IsReviewOf : Review → Type 0
IsReviewOf sign = Unit
IsReviewOf sign_masp = Unit
IsReviewOf _ = ⊥

module _ {Store : Type 0} (z : Zxlib Store) (sdk : Sdk) where
  -- What the user is asked to sign: tx_obj is what tx_parse accepted of the upload as it is now, and the key's
  -- path is one of the two networks'.
  pub record IsReviewed (app : App Store) : Type 0 where
    pub tx : ParserTx
    pub env : Env
    pub is_tx : app.tx_obj ≡ some tx
    pub parsed : tx_parse sdk env app.hd_path (z.contents app.store) app.nv ≡ accepted tx
    pub path : is_allowed_path app.hd_path ≡ true
    pub closed : app.tx_initialized ≡ false

  -- An upload that goes on has an allowed path; the stored values are in bounds; and what is asked to be
  -- signed was parsed and accepted.
  pub record Inv (app : App Store) : Type 0 where
    pub open_path : app.tx_initialized ≡ true → is_allowed_path app.hd_path ≡ true
    pub stored : IsBounded app.nv
    pub asked : IsReviewOf app.review → IsReviewed app

  quiet : {r : Review} → r ≡ idle → IsReviewOf r → ⊥
  quiet e f = subst IsReviewOf e f

  -- Nothing is asked, and what was touched was kept.
  Inv-Kept : (app app' : App Store) → Inv app → app.review ≡ idle → Kept z app app' → Inv app'
  Inv-Kept app app' i e k = record {
    open_path = k.path;
    stored = subst IsBounded (sym k.nv) i.stored;
    asked = λ f. absurd (quiet (k.review ∙ e) f);
  }

  Inv-stored :
      (app : App Store) (nv : NvData)
      → Inv app
      → app.review ≡ idle
      → IsBounded nv
      → Inv (record app { nv = nv })
  Inv-stored app nv i e b = record {
    open_path = i.open_path;
    stored = b;
    asked = λ f. absurd (quiet e f);
  }

  abbrev pub Keeps : App Store × Answer → Type 0
  Keeps r = Inv r.0

  module _ (env : Env) where
    Inv-reviewed :
        (r : Review) (app : App Store) (p : Parsed)
        → Inv app
        → app.review ≡ idle
        → app.tx_initialized ≡ false
        → is_allowed_path app.hd_path ≡ true
        → tx_parse sdk env app.hd_path (z.contents app.store) app.nv ≡ p
        → Keeps (reviewed z sdk env r app p)
    Inv-reviewed r app (accepted tx) i e c a f = record {
      open_path = i.open_path;
      stored = i.stored;
      asked = λ g. record { tx = tx; env = env; is_tx = refl; parsed = f; path = a; closed = c };
    }
    Inv-reviewed r app (rejected x) i e c a f = record {
      open_path = i.open_path;
      stored = i.stored;
      asked = λ g. absurd (quiet e g);
    }
    Inv-reviewed r app no_answer i e c a f = record {
      open_path = i.open_path;
      stored = i.stored;
      asked = λ g. absurd (quiet e g);
    }

    Inv-respond :
        (code : ℕ) (confirm : Bool) (o : Option (List ℕ)) (app : App Store)
        → Inv app
        → Keeps (respond z sdk env code confirm o app)
    Inv-respond code confirm none app i = i
    Inv-respond code confirm (some out) app i = by_test (length out == 0) confirm
      where
        by_test :
            (b c : Bool)
            → Keeps (
                if b
                then (app, thrown [] code)
                else if c
                then (record app { review = show_response out }, asynch)
                else (app, thrown out z.code_ok))
        by_test true c = i
        by_test false true = record {
          open_path = i.open_path;
          stored = i.stored;
          asked = λ f. absurd f;
        }
        by_test false false = i

    Inv-if : (b : Bool) (x y : App Store × Answer) → Keeps x → Keeps y → Keeps (if b then x else y)
    Inv-if true x y c d = c
    Inv-if false x y c d = d

    Inv-keys_answer : (a : Apdu) (app : App Store) → Inv app → Keeps (keys_answer z sdk env a app)
    unfolding keys_answer
    Inv-keys_answer a app i =
        let confirm = not (load a.bytes z.offset_p1 == 0) in
        let requested = load a.bytes z.offset_p2 in
        let out = crypto_fill_masp sdk env.fuel app.hd_path requested z.io_apdu_buffer_size in
        let r = respond z sdk env z.code_execution_error confirm out app in
        let no : App Store × Answer = (app, thrown [] z.code_invalidp1p2) in
        let hidden = not confirm && requested == view_keys in
        Inv-if (leb invalid_key requested) no (if hidden then no else r) i
          (Inv-if hidden no r i (Inv-respond z.code_execution_error confirm out app i))

    Inv-respond_stored :
        (r : NvData × Option (List ℕ)) (app : App Store)
        → Inv app
        → app.review ≡ idle
        → IsBounded r.0
        → Keeps (respond_stored z sdk env r app)
    Inv-respond_stored (nv, none) app i e b =
        Inv-stored app _ i e (transaction_reset-IsBounded nv b)
    Inv-respond_stored (nv, some out) app i e b = Inv-stored app nv i e b

    module _ (a : Apdu) (app : App Store) (i : Inv app) (e : app.review ≡ idle) where
      Inv-handle_sign : (r : Review) → Keeps (handle_sign z sdk env r a app)
      unfolding handle_sign
      Inv-handle_sign r =
          by_chunk (process_chunk z a app) (Chunked-process_chunk z a app i.open_path)
        where
          by_chunk :
              (c : App Store × Chunk)
              → Chunked z app c
              → Keeps (elim c.1 [
                | more ↦ (c.0, thrown [] z.code_ok)
                | refused code ↦ (c.0, thrown [] code)
                | last ↦
                    reviewed z sdk env r c.0
                      (tx_parse sdk env c.0.hd_path (z.contents c.0.store) c.0.nv)
              ])
          by_chunk (app', more) (k, f) = Inv-Kept app app' i e k
          by_chunk (app', refused code) (k, f) = Inv-Kept app app' i e k
          by_chunk (app', last) (k, f) =
              Inv-reviewed r app' _ (Inv-Kept app app' i e k) (k.review ∙ e) f.0 f.1 refl

      extracted : Inv (extract_hd_path z a z.offset_data app).0
      extracted = Inv-Kept app _ i e (Kept-extract_hd_path z a z.offset_data app)

      Inv-status :
          (o : Option ℕ) (app' : App Store) (k : App Store × Answer)
          → Inv app'
          → Keeps k
          → Keeps (elim o [ some code ↦ (app', thrown [] code) | none ↦ k ])
      Inv-status (some code) app' k h j = h
      Inv-status none app' k h j = j

      Inv-handle_get_addr : Keeps (handle_get_addr z sdk env a app)
      unfolding handle_get_addr
      Inv-handle_get_addr = Inv-status (extract_hd_path z a z.offset_data app).1 _ _ extracted (
          Inv-respond z.code_execution_error (not (load a.bytes z.offset_p1 == 0))
            (fill_address_ed25519 sdk (extract_hd_path z a z.offset_data app).0.hd_path
              z.io_apdu_buffer_size)
            (extract_hd_path z a z.offset_data app).0 extracted)

      Inv-handle_get_keys : Keeps (handle_get_keys z sdk env a app)
      unfolding handle_get_keys
      Inv-handle_get_keys =
          Inv-status (extract_hd_path z a z.offset_data app).1 _
            (keys_answer z sdk env a (extract_hd_path z a z.offset_data app).0) extracted
            (Inv-keys_answer a _ extracted)

      Inv-handle_compute_masp_rand :
          (type : MaspType) → Keeps (handle_compute_masp_rand z sdk env type app)
      unfolding handle_compute_masp_rand
      Inv-handle_compute_masp_rand type = Inv-respond_stored _ app i e (
          compute_randomness-IsBounded sdk type (env.random 0) (env.random 1)
            (z.io_apdu_buffer_size - 3) app.nv i.stored)

      Inv-handle_extract_spend_sign : Keeps (handle_extract_spend_sign z sdk env app)
      unfolding handle_extract_spend_sign
      Inv-handle_extract_spend_sign =
          Inv-respond_stored _ app i e (extract_spend_signature-IsBounded app.nv i.stored)

      Inv-pinned :
          (handler : App Store → App Store × Answer)
          → Keeps (handler app)
          → Keeps (pinned z sdk env handler app)
      Inv-pinned handler k =
          Inv-if env.pin_validated (handler app) (app, thrown [] env.code_pin) k i

      Inv-dispatch : (ins : Ins) → Keeps (dispatch z sdk env ins a app)
      Inv-dispatch get_version = i
      Inv-dispatch get_addr = Inv-pinned (handle_get_addr z sdk env a) Inv-handle_get_addr
      Inv-dispatch sign_transaction =
          Inv-pinned (handle_sign z sdk env sign a) (Inv-handle_sign sign)
      Inv-dispatch get_keys = Inv-pinned (handle_get_keys z sdk env a) Inv-handle_get_keys
      Inv-dispatch (get_rand type) =
          Inv-pinned (handle_compute_masp_rand z sdk env type) (Inv-handle_compute_masp_rand type)
      Inv-dispatch sign_shielded =
          Inv-pinned (handle_sign z sdk env sign_masp a) (Inv-handle_sign sign_masp)
      Inv-dispatch extract_spend_sign =
          Inv-pinned (handle_extract_spend_sign z sdk env) Inv-handle_extract_spend_sign
      Inv-dispatch unknown = i

      pub Inv-handle_apdu : Keeps (handle_apdu z sdk env a app)
      unfolding handle_apdu
      Inv-handle_apdu =
          let run = dispatch z sdk env (ins_of z (load a.bytes z.offset_ins)) a app in
          let short = ltb a.rx z.apdu_min_length in
          let too_short : App Store × Answer = (app, thrown [] z.code_wrong_length) in
          Inv-if (not (load a.bytes z.offset_cla == 0x57)) (app, thrown [] z.code_cla_not_supported)
            (if short then too_short else run) i
            (Inv-if short too_short run i (Inv-dispatch (ins_of z (load a.bytes z.offset_ins))))

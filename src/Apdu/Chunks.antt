-- ===== src/Apdu/Chunks.antt =====
-- What the commands of an upload keep: extractHDPath and process_chunk of app/src/apdu_handler.c.
use ledger_namada.Common.{ℕ, ◌+◌, ◌≡◌, refl, Bool, true, false, List, if◌then◌else◌}
use ledger_namada.Apdu.{Zxlib, App, Apdu, is_allowed_path, path_at}
use ledger_namada.Apdu.Upload.{
  Chunk, last, refused, is_malformed, path_result, extract_hd_path, append_payload, opened,
  start_upload, added, add_chunk, finished, last_chunk, process_chunk,
}

module _ {Store : Type 0} (z : Zxlib Store) where
  -- The part that process_chunk and extractHDPath touch.
  pub record Kept (app app' : App Store) : Type 0 where
    pub nv : app'.nv ≡ app.nv
    pub review : app'.review ≡ app.review
    pub path : app'.tx_initialized ≡ true → is_allowed_path app'.hd_path ≡ true

  -- Where a chunk is the last one, the upload has ended on an allowed path.
  abbrev pub Ended : App Store × Chunk → Type 0
  Ended (app, last) = (app.tx_initialized ≡ false) × (is_allowed_path app.hd_path ≡ true)
  Ended (app, _) = Unit

  Kept-path_result :
      (m l : Bool) (path : List ℕ) (app : App Store)
      → app.tx_initialized ≡ false
      → Kept app (path_result z m l path app).0
  Kept-path_result true l path app e = record {
    nv = refl;
    review = refl;
    path = λ f. absurd (no e f);
  }
    where
      no : app.tx_initialized ≡ false → app.tx_initialized ≡ true → ⊥
      no e f = cc
  Kept-path_result false true path app e = record {
    nv = refl;
    review = refl;
    path = λ f. absurd cc;
  }
  Kept-path_result false false path app e = record {
    nv = refl;
    review = refl;
    path = λ f. absurd cc;
  }

  -- A path that is returned was allowed.
  Kept-opened :
      (m l : Bool) (path : List ℕ) (app : App Store)
      → is_allowed_path path ≡ l
      → app.tx_initialized ≡ false
      → Kept app (opened z (path_result z m l path app)).0
        × Ended (opened z (path_result z m l path app))
  Kept-opened true l path app a e =
      (record { nv = refl; review = refl; path = λ f. absurd (no e f) }, tt)
    where
      no : app.tx_initialized ≡ false → app.tx_initialized ≡ true → ⊥
      no e f = cc
  Kept-opened false true path app a e = (record { nv = refl; review = refl; path = λ f. a }, tt)
  Kept-opened false false path app a e =
      (record { nv = refl; review = refl; path = λ f. absurd (no e f) }, tt)
    where
      no : app.tx_initialized ≡ false → app.tx_initialized ≡ true → ⊥
      no e f = cc

  pub Kept-extract_hd_path :
      (a : Apdu) (p : ℕ) (app : App Store) → Kept app (extract_hd_path z a p app).0
  unfolding extract_hd_path
  Kept-extract_hd_path a p app =
      let k =
        Kept-path_result (is_malformed a p) (is_allowed_path (path_at a.bytes (p + 1)))
          (path_at a.bytes (p + 1)) (record app { tx_initialized = false }) refl in
      record { nv = k.nv; review = k.review; path = k.path }

  -- What holds after a chunk.
  abbrev pub Chunked : App Store → App Store × Chunk → Type 0
  Chunked app r = Kept app r.0 × Ended r

  module _ (a : Apdu) (app : App Store)
      (allowed : app.tx_initialized ≡ true → is_allowed_path app.hd_path ≡ true) where
    unchanged : (code : ℕ) → Chunked app (app, refused code)
    unchanged code = (record { nv = refl; review = refl; path = allowed }, tt)

    Chunked-start_upload : Chunked app (start_upload z a app)
    unfolding start_upload extract_hd_path
    Chunked-start_upload =
        let (k, e) =
          Kept-opened (is_malformed a z.offset_data)
            (is_allowed_path (path_at a.bytes (z.offset_data + 1)))
            (path_at a.bytes (z.offset_data + 1))
            (record app { tx_initialized = false; store = z.fresh }) refl refl in
        (record { nv = k.nv; review = k.review; path = k.path }, e)

    Chunked-added : (t : Bool) (s : Store) → Chunked app (added z (record app { store = s }, t))
    Chunked-added true s = (record { nv = refl; review = refl; path = allowed }, tt)
    Chunked-added false s = (record { nv = refl; review = refl; path = λ f. absurd cc }, tt)

    Chunked-finished :
        (t : Bool) (s : Store)
        → app.tx_initialized ≡ true
        → Chunked app (finished z (record app { store = s }, t))
    Chunked-finished true s e =
        (record { nv = refl; review = refl; path = λ f. absurd cc }, (refl, allowed e))
    Chunked-finished false s e = (record { nv = refl; review = refl; path = λ f. absurd cc }, tt)

    Chunked-add_chunk : Chunked app (add_chunk z a app)
    unfolding add_chunk
    Chunked-add_chunk =
        by_open app.tx_initialized
          (Chunked-added (append_payload z a app).1 (append_payload z a app).0.store)
      where
        by_open :
            (o : Bool)
            → Chunked app (added z (append_payload z a app))
            → Chunked app (
                if o
                then added z (append_payload z a app)
                else (app, refused z.code_tx_not_initialized))
        by_open true c = c
        by_open false c = unchanged z.code_tx_not_initialized

    Chunked-last_chunk : Chunked app (last_chunk z a app)
    unfolding last_chunk
    Chunked-last_chunk =
        by_open app.tx_initialized refl
          (Chunked-finished (append_payload z a app).1 (append_payload z a app).0.store)
      where
        by_open :
            (o : Bool)
            → app.tx_initialized ≡ o
            → (app.tx_initialized ≡ true → Chunked app (finished z (append_payload z a app)))
            → Chunked app (
                if o
                then finished z (append_payload z a app)
                else (app, refused z.code_tx_not_initialized))
        by_open true e c = c e
        by_open false e c = unchanged z.code_tx_not_initialized

    Chunked-if :
        (b : Bool) (x y : App Store × Chunk)
        → Chunked app x
        → Chunked app y
        → Chunked app (if b then x else y)
    Chunked-if true x y c d = c
    Chunked-if false x y c d = d

    pub Chunked-process_chunk : Chunked app (process_chunk z a app)
    unfolding process_chunk
    Chunked-process_chunk = Chunked-if _ _ _ (unchanged z.code_wrong_length) (
        Chunked-if _ _ _ Chunked-start_upload (
          Chunked-if _ _ _ Chunked-add_chunk
            (Chunked-if _ _ _ Chunked-last_chunk (unchanged z.code_invalidp1p2))))

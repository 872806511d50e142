-- ===== src/Apdu/Refinement.antt =====
-- The upload as an abstract machine, and process_chunk of app/src/apdu_handler.c against it.
use ledger_namada.Common.{
  ℕ, zero, suc, ◌+◌, ◌-◌, ◌≡◌, refl, ap, arith, Bool, true, false, List, [], ◌++◌, length, ltb,
  ◌==◌, if◌then◌else◌,
}
use ledger_namada.Reader.{load, slice}
use ledger_namada.Apdu.{Zxlib, App, Apdu, is_allowed_path, path_at}
use ledger_namada.Apdu.Upload.{
  Chunk, more, last, refused, extract_hd_path, payload, append_payload, start_upload, add_chunk,
  last_chunk, process_chunk, is_malformed, path_result, opened, added, finished,
}

length-slice : (mem : ℕ → ℕ) (p n : ℕ) → length (slice mem p n) ≡ n
unfolding slice
length-slice mem p zero = refl
length-slice mem p (suc n) = ap suc (length-slice mem (p + 1) n)

-- What the zxlib says of the buffer: it starts empty, and bytes that it takes whole stand behind the others.
pub record IsBuffering {Store : Type 0} (z : Zxlib Store) : Type 0 where
  pub empty : z.contents z.fresh ≡ []
  pub appended :
      (xs : List ℕ) (s : Store)
      → (z.append xs s).1 ≡ length xs
      → z.contents (z.append xs s).0 ≡ z.contents s ++ xs

-- No upload, or one with its path and the bytes so far.
pub data Upload : Type 0 where
  closed : Upload
  collecting : List ℕ → List ℕ → Upload

-- What a command asks for.
pub data Request : Type 0 where
  start : Bool → List ℕ → Request
  add : List ℕ → Request
  finish : List ℕ → Request
  malformed : Request

-- What a command leads to. `fits` is whether the buffer takes the bytes. A start with a path that is
-- well formed but not allowed ends in an error, like every request that is not in order; the bytes of a
-- finished upload are handed out.
pub data Result : Type 0 where
  goes_on : Result
  complete : List ℕ → List ℕ → Result
  error : Result

unfoldable pub abstract_step : Request → Bool → Upload → Upload × Result
abstract_step (start allowed path) fits u =
    if allowed then (collecting path [], goes_on) else (closed, error)
abstract_step (add bytes) fits closed = (closed, error)
abstract_step (add bytes) fits (collecting path got) =
    if fits then (collecting path (got ++ bytes), goes_on) else (closed, error)
abstract_step (finish bytes) fits closed = (closed, error)
abstract_step (finish bytes) fits (collecting path got) =
    if fits then (closed, complete path (got ++ bytes)) else (closed, error)
abstract_step malformed fits u = (u, error)

module _ {Store : Type 0} (z : Zxlib Store) where
  abbrev pub asked_path : Apdu → List ℕ
  asked_path a = path_at a.bytes (z.offset_data + 1)

  abbrev pub started : Apdu → Request
  started a =
      if is_malformed a z.offset_data
      then start false []
      else start (is_allowed_path (asked_path a)) (asked_path a)

  -- The request that the bytes of a command make.
  abbrev pub request : Apdu → Request
  request a =
      let payload_type = load a.bytes z.offset_payload_type in
      if ltb a.rx z.offset_data
      then malformed
      else if payload_type == z.p1_init
      then started a
      else if payload_type == z.p1_add
      then add (payload z a)
      else if payload_type == z.p1_last
      then finish (payload z a)
      else malformed

  abbrev pub upload_of : App Store → Upload
  upload_of app =
      if app.tx_initialized then collecting app.hd_path (z.contents app.store) else closed

  abbrev pub result_of : App Store → Chunk → Result
  result_of app more = goes_on
  result_of app last = complete app.hd_path (z.contents app.store)
  result_of app (refused code) = error

  -- The abstract outcome of a concrete one.
  abbrev pub seen : App Store × Chunk → Upload × Result
  seen (app, chunk) = (upload_of app, result_of app chunk)

  start_upload-abstract :
      IsBuffering z
      → (a : Apdu) (app : App Store) (fits : Bool) (u : Upload)
      → seen (start_upload z a app) ≡ abstract_step (started a) fits u
  unfolding start_upload extract_hd_path abstract_step
  start_upload-abstract b a app fits u =
      by_path (is_malformed a z.offset_data) (is_allowed_path (asked_path a))
    where
      by_path :
          (m l : Bool)
          → seen (
              opened z (
                path_result z m l
                  (asked_path a)
                  (record app { tx_initialized = false; store = z.fresh })))
            ≡ abstract_step (if m then start false [] else start l (asked_path a)) fits u
      by_path true l = refl
      by_path false true = ap (λ c. (collecting (asked_path a) c, goes_on)) b.empty
      by_path false false = refl

  -- The bytes stand behind the others where they were all taken.
  taken_all :
      IsBuffering z
      → (a : Apdu) (app : App Store) → (append_payload z a app).1 ≡ true
      → z.contents (append_payload z a app).0.store ≡ z.contents app.store ++ payload z a
  taken_all b a app e =
      b.appended (payload z a) app.store
        (all_of _ _ e (length-slice a.bytes z.offset_data (a.rx - z.offset_data)))
    where
      all_of : (added n : ℕ) {m : ℕ} → (added == n) ≡ true → m ≡ n → added ≡ m
      all_of added n e f = ground arith

  add_chunk-abstract :
      IsBuffering z
      → (a : Apdu) (app : App Store)
      → seen (add_chunk z a app)
        ≡ abstract_step (add (payload z a)) (append_payload z a app).1 (upload_of app)
  unfolding add_chunk abstract_step
  add_chunk-abstract b a app = by_open app.tx_initialized refl
    where
      by_taken :
          (t : Bool) (s : Store)
          → (t ≡ true → z.contents s ≡ z.contents app.store ++ payload z a)
          → seen (added z (record app { tx_initialized = true; store = s }, t))
            ≡ abstract_step (add (payload z a)) t (collecting app.hd_path (z.contents app.store))
      by_taken true s h = ap (λ c. (collecting app.hd_path c, goes_on)) (h refl)
      by_taken false s h = refl

      by_open :
          (o : Bool)
          → app.tx_initialized ≡ o
          → seen (add_chunk z a app)
            ≡ abstract_step (add (payload z a)) (append_payload z a app).1 (upload_of app)
      by_open true e =
          rw (add_chunk, e) (by_taken _ (append_payload z a app).0.store (taken_all b a app))
      by_open false e = rw (add_chunk, e) refl

  last_chunk-abstract :
      IsBuffering z
      → (a : Apdu) (app : App Store)
      → seen (last_chunk z a app)
        ≡ abstract_step (finish (payload z a)) (append_payload z a app).1 (upload_of app)
  unfolding last_chunk abstract_step
  last_chunk-abstract b a app = by_open app.tx_initialized refl
    where
      by_taken :
          (t : Bool) (s : Store)
          → (t ≡ true → z.contents s ≡ z.contents app.store ++ payload z a)
          → seen (finished z (record app { store = s }, t))
            ≡ abstract_step (finish (payload z a)) t (collecting app.hd_path (z.contents app.store))
      by_taken true s h = ap (λ c. (closed, complete app.hd_path c)) (h refl)
      by_taken false s h = refl

      by_open :
          (o : Bool)
          → app.tx_initialized ≡ o
          → seen (last_chunk z a app)
            ≡ abstract_step (finish (payload z a)) (append_payload z a app).1 (upload_of app)
      by_open true e =
          rw (last_chunk, e) (by_taken _ (append_payload z a app).0.store (taken_all b a app))
      by_open false e = rw (last_chunk, e) refl

  -- Where the buffer starts empty and puts bytes it takes whole behind the others, process_chunk is the
  -- abstract machine on the request that the command makes: a start opens an empty upload for its path,
  -- an add and a finish put their bytes behind those of the upload, a finish hands out the whole upload
  -- and closes it, bytes that the buffer does not take whole close it, and nothing but a start opens it.
  pub process_chunk-abstract :
      IsBuffering z
      → (a : Apdu) (app : App Store)
      → seen (process_chunk z a app)
        ≡ abstract_step (request a) (append_payload z a app).1 (upload_of app)
  unfolding process_chunk abstract_step
  process_chunk-abstract b a app =
      by_type (ltb a.rx z.offset_data) (load a.bytes z.offset_payload_type == z.p1_init)
        (load a.bytes z.offset_payload_type == z.p1_add)
        (load a.bytes z.offset_payload_type == z.p1_last)
    where
      refusal :
          (code : ℕ) (fits : Bool)
          → seen (app, refused code) ≡ abstract_step malformed fits (upload_of app)
      refusal code fits = refl

      by_type :
          (short first middle final : Bool)
          → seen (
              if short
              then (app, refused z.code_wrong_length)
              else if first
              then start_upload z a app
              else if middle
              then add_chunk z a app
              else if final
              then last_chunk z a app
              else (app, refused z.code_invalidp1p2))
            ≡ abstract_step
                (if short
                  then malformed
                  else if first
                  then started a
                  else if middle
                  then add (payload z a)
                  else if final
                  then finish (payload z a)
                  else malformed)
                (append_payload z a app).1
                (upload_of app)
      by_type true first middle final = refusal z.code_wrong_length (append_payload z a app).1
      by_type false true middle final =
          start_upload-abstract b a app (append_payload z a app).1 (upload_of app)
      by_type false false true final = add_chunk-abstract b a app
      by_type false false false true = last_chunk-abstract b a app
      by_type false false false false = refusal z.code_invalidp1p2 (append_payload z a app).1

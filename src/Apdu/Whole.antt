-- ===== src/Apdu/Whole.antt =====
-- A whole upload: P1_INIT, any number of P1_ADD, P1_LAST.
use ledger_namada.Common.{
  append_assoc, ℕ, ◌≡◌, refl, sym, ◌∙◌, ap, Bool, true, false, List, [], ◌∷◌, ◌++◌,
}
use ledger_namada.Apdu.{Zxlib, App, Apdu}
use ledger_namada.Apdu.Upload.{Chunk, more, last, process_chunk, payload, append_payload}
use ledger_namada.Apdu.Refinement.{
  IsBuffering, Upload, collecting, start, add, finish, Result, goes_on, complete, error,
  abstract_step, request, upload_of, result_of, seen, process_chunk-abstract,
}

module _ {Store : Type 0} (z : Zxlib Store) where
  -- What a run answered, by the outcome of the abstract machine.
  of_more :
      (r : App Store × Chunk) (u : Upload) (x : Result)
      → seen z r ≡ (u, x)
      → r.1 ≡ more
      → (upload_of z r.0 ≡ u) × (goes_on ≡ x)
  of_more (app, c) u x e f = (
    ap (λ (q : Upload × Result). q.0) e,
    sym (ap (result_of z app) f) ∙ ap (λ (q : Upload × Result). q.1) e,
  )

  of_last :
      (r : App Store × Chunk) (u : Upload) (x : Result)
      → seen z r ≡ (u, x)
      → r.1 ≡ last
      → complete r.0.hd_path (z.contents r.0.store) ≡ x
  of_last (app, c) u x e f = sym (ap (result_of z app) f) ∙ ap (λ (q : Upload × Result). q.1) e

  go_not_error : goes_on ≡ error → ⊥
  go_not_error e = cc

  module _ (b : IsBuffering z) (a : Apdu) (app : App Store) where
    after_start :
        (l : Bool) (path : List ℕ)
        → request z a ≡ start l path
        → (process_chunk z a app).1 ≡ more
        → upload_of z (process_chunk z a app).0 ≡ collecting path []
    unfolding abstract_step
    after_start l path q m = by_path l (
        process_chunk-abstract z b a app
        ∙ ap (λ r. abstract_step r (append_payload z a app).1 (upload_of z app)) q)
      where
        by_path :
            (allowed : Bool)
            → seen z (process_chunk z a app)
              ≡ abstract_step (start allowed path) (append_payload z a app).1 (upload_of z app)
            → upload_of z (process_chunk z a app).0 ≡ collecting path []
        by_path true e = (of_more (process_chunk z a app) _ _ e m).0
        by_path false e = absurd (go_not_error (of_more (process_chunk z a app) _ _ e m).1)

    after_add :
        (path got bytes : List ℕ)
        → upload_of z app ≡ collecting path got
        → request z a ≡ add bytes
        → (process_chunk z a app).1 ≡ more
        → upload_of z (process_chunk z a app).0 ≡ collecting path (got ++ bytes)
    unfolding abstract_step
    after_add path got bytes u q m = by_fits (append_payload z a app).1 (
        process_chunk-abstract z b a app
        ∙ ap (λ r. abstract_step r (append_payload z a app).1 (upload_of z app)) q
        ∙ ap (abstract_step (add bytes) (append_payload z a app).1) u)
      where
        by_fits :
            (fits : Bool)
            → seen z (process_chunk z a app) ≡ abstract_step (add bytes) fits (collecting path got)
            → upload_of z (process_chunk z a app).0 ≡ collecting path (got ++ bytes)
        by_fits true e = (of_more (process_chunk z a app) _ _ e m).0
        by_fits false e = absurd (go_not_error (of_more (process_chunk z a app) _ _ e m).1)

    after_finish :
        (path got bytes : List ℕ)
        → upload_of z app ≡ collecting path got
        → request z a ≡ finish bytes
        → (process_chunk z a app).1 ≡ last
        → complete (process_chunk z a app).0.hd_path (z.contents (process_chunk z a app).0.store)
          ≡ complete path (got ++ bytes)
    unfolding abstract_step
    after_finish path got bytes u q m = by_fits (append_payload z a app).1 (
        process_chunk-abstract z b a app
        ∙ ap (λ r. abstract_step r (append_payload z a app).1 (upload_of z app)) q
        ∙ ap (abstract_step (finish bytes) (append_payload z a app).1) u)
      where
        not_error : {p c : List ℕ} → complete p c ≡ error → ⊥
        not_error e = cc

        by_fits :
            (fits : Bool)
            → seen z (process_chunk z a app)
              ≡ abstract_step (finish bytes) fits (collecting path got)
            → complete
                (process_chunk z a app).0.hd_path
                (z.contents (process_chunk z a app).0.store)
              ≡ complete path (got ++ bytes)
        by_fits true e = of_last (process_chunk z a app) _ _ e m
        by_fits false e = absurd (not_error (of_last (process_chunk z a app) _ _ e m))

  -- The state after the chunks, and that each one asks to add its bytes and is taken.
  abbrev pub run_adds : List Apdu → App Store → App Store
  run_adds [] app = app
  run_adds (a ∷ cs) app = run_adds cs (process_chunk z a app).0

  abbrev pub AreTaken : List Apdu → App Store → Type 0
  AreTaken [] app = Unit
  AreTaken (a ∷ cs) app =
      (request z a ≡ add (payload z a))
      × ((process_chunk z a app).1 ≡ more)
      × AreTaken cs (process_chunk z a app).0

  abbrev pub all_payloads : List Apdu → List ℕ
  all_payloads [] = []
  all_payloads (a ∷ cs) = payload z a ++ all_payloads cs

  after_adds :
      IsBuffering z
      → (cs : List Apdu) (app : App Store) (path got : List ℕ)
      → upload_of z app ≡ collecting path got
      → AreTaken cs app
      → upload_of z (run_adds cs app) ≡ collecting path (got ++ all_payloads cs)
  after_adds b [] app path got u t = u ∙ ap (collecting path) (sym (append_nil got))
    where
      append_nil : (xs : List ℕ) → xs ++ [] ≡ xs
      append_nil [] = refl
      append_nil (x ∷ xs) = ap (λ l. x ∷ l) (append_nil xs)
  after_adds b (a ∷ cs) app path got u (q, m, t) =
      after_adds b cs (process_chunk z a app).0 path (got ++ payload z a)
        (after_add b a app path got (payload z a) u q m) t
      ∙ ap (collecting path) (append_assoc got (payload z a) (all_payloads cs))

  -- After a start, any number of chunks to add and a last one, in this order from any state, all of them
  -- taken, the buffer holds the bytes of the chunks one behind the other, and nothing from before the
  -- start, and the path is that of the start. The buffer is one that starts empty and puts bytes it takes
  -- whole behind the others.
  pub process_chunk-whole :
      IsBuffering z
      → (first final : Apdu) (cs : List Apdu) (app : App Store) (l : Bool) (path : List ℕ)
      → request z first ≡ start l path
      → (process_chunk z first app).1 ≡ more
      → AreTaken cs (process_chunk z first app).0
      → request z final ≡ finish (payload z final)
      → (process_chunk z final (run_adds cs (process_chunk z first app).0)).1 ≡ last
      → let t : App Store = (process_chunk z final (run_adds cs (process_chunk z first app).0)).0 in
        (z.contents t.store ≡ all_payloads cs ++ payload z final) × (t.hd_path ≡ path)
  process_chunk-whole b first final cs app l path q m t r e =
      let done =
        after_finish b final (run_adds cs (process_chunk z first app).0) path (all_payloads cs)
          (payload z final)
          (after_adds b cs (process_chunk z first app).0 path []
            (after_start b first app l path q m) t)
          r e in
      (bytes_of done, path_of done)
    where
      bytes_of : {p q c d : List ℕ} → complete p c ≡ complete q d → c ≡ d
      bytes_of e = cc

      path_of : {p q c d : List ℕ} → complete p c ≡ complete q d → p ≡ q
      path_of e = cc

-- ===== src/Signing/Growth.antt =====
-- The functions of crypto_sign that add to the list of hashes.
use mathlib.Core.Path.{subst}
use ledger_namada.Common.{
  ℕ, zero, suc, ◌+◌, ◌%◌, ◌≤◌, ◌<◌, ◌≡◌, refl, arith, Option, none, some, List, length, get_elem?,
}
use ledger_namada.Crypto.{Section, hash_extra_data_section, hash_code_section, hash_data_section}
use ledger_namada.Sections.{SignatureSection}
use ledger_namada.Transaction.{ParserTx}
use ledger_namada.Sdk.{Sdk}
use ledger_namada.Signing.Outcomes.{
  Outcomes, Outcomes-bind, Outcomes-if, Outcomes-checked, Outcomes-done, Outcomes-map,
}
use ledger_namada.Signing.Response.{
  Entry, add_memo_hash, add_signature_hash, add_signature_hashes, is_eligible, add_section_hashes,
}
use ledger_namada.Signing.Entries.{
  Grows, Grows-refl, Grows-le, Grows-trans, length-pos, Room, Room-le, Room-Grows, IsStored,
  IsStored-Grows, Outcomes-add_entry, found_at, IsSignable,
}

module _ (sdk : Sdk) (mem : ℕ → ℕ) where
  Outcomes-add_signature_hash :
      (s : SignatureSection) (es : List Entry)
      → Room ⊥ 1 es
      → 0 < length es
      → Outcomes ⊥ (Grows 1 es) (add_signature_hash sdk mem s es)
  unfolding add_signature_hash
  Outcomes-add_signature_hash s es room pos =
      Outcomes-if (is_eligible mem s es) _ _
        (Outcomes-bind _ _ (Outcomes-checked _)
          (λ hash h. Outcomes-map _ (Outcomes-add_entry s.idx hash es room pos) (λ fs g. g.0)))
        (Outcomes-done es (Grows-le (omega arith) (Grows-refl es)))

  Outcomes-add_signature_hashes :
      (signatures : List SignatureSection) (n i : ℕ) (es : List Entry)
      → i + n ≤ length signatures
      → Room ⊥ n es
      → 0 < length es
      → Outcomes ⊥ (Grows n es) (add_signature_hashes sdk mem signatures n i es)
  unfolding add_signature_hashes
  Outcomes-add_signature_hashes signatures zero i es h room pos = Outcomes-done es (Grows-refl es)
  Outcomes-add_signature_hashes signatures (suc n) i es h room pos =
      let (s, e) = found_at signatures i (omega (arith, h)) in
      rw (add_signature_hashes, e)
        (Outcomes-bind _ _ (Outcomes-add_signature_hash s es (Room-le (omega arith) room) pos)
          (λ fs g.
            Outcomes-map _
              (Outcomes-add_signature_hashes signatures n (i + 1) fs (omega (arith, h))
                (Room-Grows (Room-le (omega arith) room) g) (length-pos g pos))
              (λ gs g'. Grows-le (omega arith) (Grows-trans g g'))))

  -- The memo's hash is in the list behind the first slot, if there is a memo.
  pub record HasMemo (extra : List Section) (memo : Option ℕ) (es : List Entry) : Type 0 where
    pub stored :
        (i : ℕ)
        → memo ≡ some i
        → (s : Section) × (h : List ℕ) × (get_elem? extra i ≡ some s)
          × (hash_extra_data_section sdk.library s ≡ some h)
          × IsStored es s.idx h

  Outcomes-add_memo_hash :
      (extra : List Section) (memo : Option ℕ) (es : List Entry)
      → ((i : ℕ) → memo ≡ some i → i < length extra)
      → Room ⊥ 1 es
      → 0 < length es
      → Outcomes ⊥
          (λ fs. Grows 1 es fs × HasMemo extra memo fs)
          (add_memo_hash sdk mem extra memo es)
  unfolding add_memo_hash
  Outcomes-add_memo_hash extra none es w room pos =
      Outcomes-done es
        (Grows-le (omega arith) (Grows-refl es), record { stored = λ i f. absurd cc })
  Outcomes-add_memo_hash extra (some i) es w room pos =
      let (s, f) = found_at extra i (w i refl) in
      rw (add_memo_hash, f)
        (Outcomes-bind _ _ (Outcomes-checked _) (λ h k.
          Outcomes-map _ (Outcomes-add_entry s.idx h es room pos) (λ fs g. (
            g.0,
            record {
              stored =
                  λ j e. (s, h, subst (λ n. get_elem? extra n ≡ some s) (same i j e) f, k, g.1);
            },
          ))))
    where
      same : (a b : ℕ) → some a ≡ some b → a ≡ b
      same a b e = cc

  -- What the wrapper's list holds behind the hashes that the raw signature is over.
  pub record Covers (tx : ParserTx) (raw_hash : List ℕ) (es : List Entry) : Type 0 where
    pub raw : IsStored es ((tx.sections.section_len + 1) % 256) raw_hash
    pub code :
        (h : List ℕ) × (hash_code_section sdk.library tx.sections.code ≡ some h)
        × IsStored es tx.sections.code.idx h
    pub contents :
        (h : List ℕ) × (hash_data_section sdk.library tx.sections.data_section ≡ some h)
        × IsStored es tx.sections.data_section.idx h
    pub memo : HasMemo tx.sections.extra_data tx.memo_section es

  -- It stays so in a list that stores what this one does.
  pub Covers-map :
      {tx : ParserTx} {raw_hash : List ℕ} {es fs : List Entry}
      → ((idx : ℕ) (h : List ℕ) → IsStored es idx h → IsStored fs idx h)
      → Covers tx raw_hash es
      → Covers tx raw_hash fs
  Covers-map keep c = record {
    raw = keep _ _ c.raw;
    code = let (h, e, s) = c.code in (h, e, keep _ _ s);
    contents = let (h, e, s) = c.contents in (h, e, keep _ _ s);
    memo = record {
      stored = λ i e. let (s, h, f, k, st) = c.memo.stored i e in (s, h, f, k, keep _ _ st);
    };
  }

  pub Outcomes-add_section_hashes :
      (tx : ParserTx) (raw_hash : List ℕ) (es : List Entry)
      → IsSignable tx
      → Room ⊥ 7 es
      → 0 < length es
      → Outcomes ⊥
          (λ fs. Grows 7 es fs × Covers tx raw_hash fs)
          (add_section_hashes sdk mem tx raw_hash es)
  unfolding add_section_hashes
  Outcomes-add_section_hashes tx raw_hash es w room pos =
      Outcomes-bind _ _ (Outcomes-add_entry _ raw_hash es (Room-le (omega arith) room) pos) (λ fs g.
        let rf = Room-Grows room g.0 in
        let pf = length-pos g.0 pos in
        Outcomes-bind _ _ (Outcomes-checked _) (λ code ec.
          Outcomes-bind _ _ (Outcomes-add_entry _ code fs (Room-le (omega arith) rf) pf) (λ gs h.
            let rg = Room-Grows rf h.0 in
            let pg = length-pos h.0 pf in
            Outcomes-bind _ _ (Outcomes-checked _) (λ dat ed.
              Outcomes-bind _ _ (Outcomes-add_entry _ dat gs (Room-le (omega arith) rg) pg) (λ hs k.
                let rh = Room-Grows rg k.0 in
                let ph = length-pos k.0 pg in
                Outcomes-bind _ _
                  (Outcomes-add_memo_hash _ _ hs
                    (λ i e. omega (arith, w.memo_read i e, w.extra_read)) (Room-le (omega arith) rh)
                    ph)
                  (λ is l.
                    let held : Covers tx raw_hash is = record {
                      raw = IsStored-Grows l.0 (IsStored-Grows k.0 (IsStored-Grows h.0 g.1));
                      code = (code, ec, IsStored-Grows l.0 (IsStored-Grows k.0 h.1));
                      contents = (dat, ed, IsStored-Grows l.0 k.1);
                      memo = l.1;
                    } in
                    Outcomes-map _
                      (Outcomes-add_signature_hashes tx.sections.signatures
                        tx.sections.signatures_len 0 is (omega (arith, w.signatures_read))
                        (Room-le w.signatures_few (Room-Grows rh l.0)) (length-pos l.0 ph))
                      (λ js m. (
                        Grows-le (omega (arith, w.signatures_few)) (
                            Grows-trans (Grows-trans (Grows-trans (Grows-trans g.0 h.0) k.0) l.0)
                              m),
                        Covers-map (λ idx h. IsStored-Grows m) held,
                      ))))))))

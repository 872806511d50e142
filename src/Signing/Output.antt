-- ===== src/Signing/Output.antt =====
-- What crypto_sign answers.
use mathlib.Core.Option
use ledger_namada.Common.{
  ℕ, suc, ◌+◌, ◌≤◌, ◌<◌, ◌≡◌, refl, ◌∙◌, ap, arith, false, Option, none, some, List, [], ◌∷◌, ◌++◌,
  length, length-append, get_elem?-set_ne, length-set, take, ltb, inl, if◌then◌else◌,
}
use ledger_namada.Transaction.{ParserTx}
use ledger_namada.Sdk.{Sdk}
use ledger_namada.Signing.{
  done, bad_access, hash_fee_header, hash_raw_header, hash_sig_section, extract_public_key,
  sign_ed25519, public_key, pair_key, signed_by,
}
use ledger_namada.Signing.Outcomes.{
  Outcomes, Outcomes-bind, Outcomes-if, Outcomes-checked, Outcomes-done, Outcomes-failed,
  Outcomes-map,
}
use ledger_namada.Signing.Response.{
  Entry, crypto_sign, sign_entries, with_fee_header, response_bytes, own_section, all_indices,
  minimum_buffer_size,
}
use ledger_namada.Signing.Entries.{Grows, length-Grows, IsStored, IsSignable}
use ledger_namada.Signing.Growth.{Covers, Covers-map, Outcomes-add_section_hashes}
use ledger_namada.Signing.Copied.{HasHashes, named_entries, few_named, Outcomes-add_txn_hashes}

-- The library's signatures have the size of an ed25519 signature.
pub record IsSized (sdk : Sdk) : Type 0 where
  pub signature : (key message s : List ℕ) → sdk.ed25519_sign key message ≡ some s → length s ≡ 64

length-all_indices : (es : List Entry) → length (all_indices es) ≡ length es
length-all_indices [] = refl
length-all_indices (e ∷ es) = ap suc (length-all_indices es)

length-response_bytes :
    (key raw wrapper : List ℕ) (own es : List Entry)
    → length key ≡ 32
    → length raw ≡ 64
    → length wrapper ≡ 64
    → length (response_bytes (0 ∷ key) raw wrapper own es) ≡ 181 + length own + length es
length-response_bytes key raw wrapper own es k r w = omega (
  arith,
  k,
  r,
  w,
  length-append key (
      0 ∷ 0 ∷ 0 ∷ 0 ∷ 0 ∷ 0 ∷ 0 ∷ 0 ∷ 0 ∷ raw
      ++ (0 ∷ 0 ∷ 0 ∷ 0 ∷ 0 ∷ 0 ∷ 0 ∷ 0 ∷ 0 ∷ wrapper
          ++ (length own ∷ all_indices own ++ (length es ∷ all_indices es)))),
  length-append raw (
      0 ∷ 0 ∷ 0 ∷ 0 ∷ 0 ∷ 0 ∷ 0 ∷ 0 ∷ 0 ∷ wrapper
      ++ (length own ∷ all_indices own ++ (length es ∷ all_indices es))),
  length-append wrapper (length own ∷ all_indices own ++ (length es ∷ all_indices es)),
  length-append (all_indices own) (length es ∷ all_indices es),
  length-all_indices own,
  length-all_indices es,
)

module _ (sdk : Sdk) (hd_path : List ℕ) where
  length-extract_public_key : (k : List ℕ) → extract_public_key sdk hd_path ≡ some k → length k ≡ 32
  unfolding extract_public_key
  length-extract_public_key k e = by_seed (sdk.derive_ed25519 hd_path) e
    where
      by_point : (o : Option (ℕ → ℕ)) → Option.map public_key o ≡ some k → length k ≡ 32
      by_point none f = absurd cc
      by_point (some w) f = ap length (same f)
        where
          same : some (public_key w) ≡ some k → k ≡ public_key w
          same g = cc

      by_seed : (o : Option (List ℕ)) → pair_key sdk o ≡ some k → length k ≡ 32
      by_seed none f = absurd cc
      by_seed (some private) f = by_point _ f

  length-sign_ed25519 :
      IsSized sdk → (message s : List ℕ) → sign_ed25519 sdk hd_path message ≡ some s → length s ≡ 64
  unfolding sign_ed25519
  length-sign_ed25519 sized message s e = by_seed (sdk.derive_ed25519 hd_path) e
    where
      by_seed : (o : Option (List ℕ)) → signed_by sdk message o ≡ some s → length s ≡ 64
      by_seed none f = absurd cc
      by_seed (some private) f = sized.signature (take 32 private) message s f

  -- A signature over the hash of the list, of the right size.
  pub record IsSignature (pubkey : List ℕ) (es : List Entry) (s : List ℕ) : Type 0 where
    pub hash : List ℕ
    pub hashed : hash_sig_section sdk [] (own_section pubkey es 0 []) ≡ some hash
    pub signed : sign_ed25519 sdk hd_path hash ≡ some s

  Outcomes-sign_entries :
      (pubkey : List ℕ) (es : List Entry)
      → Outcomes ⊥ (IsSignature pubkey es) (sign_entries sdk hd_path pubkey es)
  unfolding sign_entries
  Outcomes-sign_entries pubkey es = Outcomes-bind _ _ (Outcomes-checked _) (λ hash e.
      Outcomes-map _ (Outcomes-checked _) (λ s f. record { hash = hash; hashed = e; signed = f }))

length-set_0 : (es : List Entry) (e : Entry) → length (with_fee_header e.hash es) ≡ length es
length-set_0 es e = length-set es 0 _

IsStored-with_fee_header :
    (fee : List ℕ) (es : List Entry) (idx : ℕ) (h : List ℕ)
    → IsStored es idx h
    → IsStored (with_fee_header fee es) idx h
IsStored-with_fee_header fee es idx h s = record {
  place = s.place;
  behind = s.behind;
  found = get_elem?-set_ne es 0 s.place _ (λ e. absurd (apart s.place s.behind e)) ∙ s.found;
}
  where
    apart : (p : ℕ) → 0 < p → 0 ≡ p → ⊥
    apart p h e = omega (arith, h, e)

module _ (sdk : Sdk) (mem : ℕ → ℕ) (hd_path : List ℕ) (tx : ParserTx) where
  -- What a response is: two signatures by the key, the first over the raw header and the hashes that
  -- the data names, and over nothing else, the second over the whole header, these hashes and the
  -- sections.
  pub record IsSigned (out : List ℕ) : Type 0 where
    pub key : List ℕ
    pub raw : List ℕ
    pub wrapper : List ℕ
    pub own : List Entry
    pub signed : List Entry
    pub layout : out ≡ response_bytes (0 ∷ key) raw wrapper own signed
    pub has_key : extract_public_key sdk hd_path ≡ some key
    pub raw_signature : IsSignature sdk hd_path (0 ∷ key) own raw
    pub wrapper_signature : IsSignature sdk hd_path (0 ∷ key) signed wrapper
    pub raw_header :
        (h : List ℕ) × (hash_raw_header sdk mem tx.header ≡ some h)
        × (own ≡ record { idx = 255; hash = h } ∷ named_entries tx.tx_data)
    pub fee_header :
        (h : List ℕ) × (hash_fee_header sdk mem tx.header ≡ some h)
        × (rest : List Entry) × (signed
            ≡ record { idx = 0; hash = h } ∷ (named_entries tx.tx_data ++ rest))
    pub raw_hash : List ℕ
    pub raw_section :
        hash_sig_section sdk (3 ∷ []) (own_section (0 ∷ key) own 1 (0 ∷ 0 ∷ raw)) ≡ some raw_hash
    pub sections : Covers sdk mem tx raw_hash signed

  -- Where the arrays of the transaction are as long as their counters say, with at most three signature
  -- sections, where its data names the hashes that are copied, where signatures have 64 bytes and the
  -- output has room for 194: crypto_sign makes no access outside an array, and what it answers with
  -- success has at most 194 bytes and consists of the key, a signature over the raw header and exactly
  -- the hashes the data names, in their order, and a signature over the header with its fees, these
  -- hashes, the raw signature section, the code, the data, and the memo, if there is one.
  pub crypto_sign-IsSigned :
      (output_len : ℕ)
      → IsSignable tx
      → HasHashes tx.tx_data
      → IsSized sdk
      → 194 ≤ output_len
      → Outcomes ⊥
          (λ out. IsSigned out × (length out ≤ 194))
          (crypto_sign sdk hd_path mem tx output_len)
  unfolding crypto_sign
  crypto_sign-IsSigned output_len w hashes sized big =
      Outcomes-if (ltb output_len minimum_buffer_size) _ _ Outcomes-failed (
        Outcomes-bind _ _ (Outcomes-checked _) (λ key ek.
          Outcomes-bind _ _ (Outcomes-checked _) (λ raw_header eh.
            let first : List Entry = record { idx = 255; hash = raw_header } ∷ [] in
            Outcomes-bind _ _ (Outcomes-add_txn_hashes tx.tx_data first hashes (omega arith))
              (λ own e.
                let few : length own ≤ 3 = omega (arith, ap length e, few_named tx.tx_data) in
                let some_own : 0 < length own = omega (arith, ap length e) in
                Outcomes-bind _ _ (Outcomes-sign_entries sdk hd_path (0 ∷ key) own) (λ raw sr.
                  Outcomes-bind _ _ (Outcomes-checked _) (λ raw_hash er.
                    Outcomes-bind _ _
                      (Outcomes-add_section_hashes sdk mem tx raw_hash own w
                        (record { fits = inl (omega (arith, few)) }) some_own)
                      (λ es h. Outcomes-bind _ _ (Outcomes-checked _) (λ fee ef.
                        Outcomes-bind _ _
                          (Outcomes-sign_entries sdk hd_path (0 ∷ key) (with_fee_header fee es))
                          (λ wrapper sw.
                            let signed = with_fee_header fee es in
                            let grown : Grows 7 own es = h.0 in
                            within _
                              (record {
                                key = key;
                                raw = raw;
                                wrapper = wrapper;
                                own = own;
                                signed = signed;
                                layout = refl;
                                has_key = ek;
                                raw_signature = sr;
                                wrapper_signature = sw;
                                raw_header = (raw_header, eh, e);
                                fee_header = (
                                  fee,
                                  ef,
                                  h.0.added,
                                  ap (with_fee_header fee) (h.0.split ∙ ap (λ l. l ++ h.0.added) e),
                                );
                                raw_hash = raw_hash;
                                raw_section = er;
                                sections = Covers-map sdk mem (IsStored-with_fee_header fee es) h.1;
                              })
                              (omega (
                                arith,
                                few,
                                length-Grows h.0,
                                length-set es 0 (record { idx = 0; hash = fee }),
                                length-response_bytes key raw wrapper own signed
                                    (length-extract_public_key sdk hd_path key ek)
                                    (length-sign_ed25519 sdk hd_path sized sr.hash raw sr.signed)
                                    (length-sign_ed25519 sdk hd_path sized sw.hash wrapper
                                      sw.signed),
                              )))))))))))
    where
      within :
          (out : List ℕ)
          → IsSigned out
          → length out ≤ 194
          → Outcomes ⊥
              (λ o. IsSigned o × (length o ≤ 194))
              (if ltb output_len (length out) then bad_access else done out)
      within out s l = rw (fits output_len (length out) big l) (Outcomes-done out (s, l))
        where
          fits : (m n : ℕ) → 194 ≤ m → n ≤ 194 → ltb m n ≡ false
          fits m n a b = ground arith

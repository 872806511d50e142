-- ===== src/Sections/Authentic.antt =====
-- The comparisons of hashes in readDataSection and readCodeSection of app/src/parser_impl_txn.c.
use ledger_namada.Common.{
  ℕ, zero, suc, ◌+◌, ◌≡◌, refl, ap, ◌∙◌, Bool, true, false, not, Option, some, List, eq_list, ◌⊎◌,
  inl, inr, ◌==◌,
}
use ledger_namada.Reader.{◌>>=◌, pure}
use ledger_namada.Reader.Safe.{Yields, Yields-bind, Yields-pure, Yields-if, yields_rules}
use ledger_namada.Reader.Accepted.{Yields-bind-Yields, Yields-guard, eq_list→eq}
use ledger_namada.Crypto.{Library, Section, no_section, hash_data_section, hash_code_section}
use ledger_namada.Header.{Header}
use ledger_namada.Masp.Bundle.{MaspTx}
use ledger_namada.Masp.Builder.{RandCounts, MaspBuilderSection}
use ledger_namada.Txn.LinkedCode.{hash_or_error-Yields}
use ledger_namada.Sections.{
  read_data_section, read_code_section, discriminant_data, discriminant_extra_data,
  discriminant_code, discriminant_signature,
}
use ledger_namada.Sections.All.{
  Sections, no_sections, read_section, read_section_loop, read_sections, add_extra_data,
  add_signature,
}

-- Each of the two sections is missing, or it hashes to the hash in the header.
pub record Committed (lib : Library) (header : Header) (st : Sections) : Type 0 where
  pub data_hash_ok :
      (st.data_section ≡ no_section)
      ⊎ (hash_data_section lib st.data_section ≡ some header.data_hash.content)
  pub code_hash_ok :
      (st.code ≡ no_section) ⊎ (hash_code_section lib st.code ≡ some header.code_hash.content)

-- `reject_if` on the comparison of two hashes.
compared :
    (o : Option (List ℕ)) (h expected : List ℕ)
    → o ≡ some h
    → not (eq_list h expected) ≡ false
    → o ≡ some expected
compared o h expected e ne = e ∙ ap some (eq_list→eq h expected (undo (eq_list h expected) ne))
  where
    undo : (b : Bool) → not b ≡ false → b ≡ true
    undo true g = refl
    undo false g = absurd cc

module _ (lib : Library) (header : Header) where
  read_data_section-Yields :
      (was : Section)
      → Yields
          (λ s. hash_data_section lib s ≡ some header.data_hash.content)
          (read_data_section lib header was)
  unfolding read_data_section
  read_data_section-Yields was = Yields-bind _ _ λ d. Yields-bind _ _ λ u. Yields-bind _ _ λ salt.
      Yields-bind _ _ λ b.
        Yields-bind-Yields _ _ (hash_or_error-Yields _)
          λ h e. Yields-guard _ _ _ λ ne. Yields-pure _ (compared _ h header.data_hash.content e ne)

  read_code_section-Yields :
      (was : Section)
      → Yields
          (λ s. hash_code_section lib s ≡ some header.code_hash.content)
          (read_code_section lib header was)
  unfolding read_code_section
  read_code_section-Yields was = Yields-bind _ _ λ d. Yields-bind _ _ λ u. Yields-bind _ _ λ salt.
      Yields-bind _ _ λ b. Yields-bind _ _ λ bs. Yields-bind _ _ λ bh. Yields-bind _ _ λ t.
        Yields-bind-Yields _ _ (hash_or_error-Yields _)
          λ h e. Yields-guard _ _ _ λ ne. Yields-pure _ (compared _ h header.code_hash.content e ne)

  module _ (rand : RandCounts) where
    module _ (st : Sections) (h : Committed lib header st) where
      data_branch :
          (i : ℕ)
          → Yields (Committed lib header) (
              read_data_section lib header st.data_section >>= λ s.
              pure (record st { data_section = record s { idx = i + 1 } }))
      unfolding hash_data_section
      data_branch i = Yields-bind-Yields _ _ (read_data_section-Yields st.data_section) λ s e.
          Yields-pure (record st { data_section = record s { idx = i + 1 } })
            (record { data_hash_ok = inr e; code_hash_ok = h.code_hash_ok })

      code_branch :
          (i : ℕ)
          → Yields (Committed lib header) (
              read_code_section lib header st.code >>= λ s.
              pure (record st { code = record s { idx = i + 1 } }))
      unfolding hash_code_section
      code_branch i = Yields-bind-Yields _ _ (read_code_section-Yields st.code) λ s e.
          Yields-pure (record st { code = record s { idx = i + 1 } })
            (record { data_hash_ok = h.data_hash_ok; code_hash_ok = inr e })

      extra_data_branch :
          (i : ℕ) → Yields (Committed lib header) (add_extra_data lib rand header i st)
      unfolding add_extra_data
      extra_data_branch i = Yields-bind _ _ λ _. Yields-bind _ _ λ was. Yields-bind _ _ λ s.
          Yields-pure _ (record { data_hash_ok = h.data_hash_ok; code_hash_ok = h.code_hash_ok })

      signature_branch :
          (i : ℕ) → Yields (Committed lib header) (add_signature lib rand header i st)
      unfolding add_signature
      signature_branch i = Yields-bind _ _ λ _. Yields-bind _ _ λ s.
          Yields-pure _ (record { data_hash_ok = h.data_hash_ok; code_hash_ok = h.code_hash_ok })

      masp_tx_kept :
          (m : MaspTx) → Committed lib header (record st { masp_tx = some m; is_masp = true })
      masp_tx_kept m = record { data_hash_ok = h.data_hash_ok; code_hash_ok = h.code_hash_ok }

      masp_builder_kept :
          (b : MaspBuilderSection) → Committed lib header (record st { masp_builder = some b })
      masp_builder_kept b = record { data_hash_ok = h.data_hash_ok; code_hash_ok = h.code_hash_ok }

    Committed-read_section :
        (d i : ℕ) (st : Sections)
        → Committed lib header st
        → Yields (Committed lib header) (read_section lib rand header d i st)
    unfolding read_section
    Committed-read_section d i st h = Yields-if (d == discriminant_data) _ _ (data_branch st h i) (
        Yields-if (d == discriminant_extra_data) _ _ (extra_data_branch st h i) (
          Yields-if (d == discriminant_code) _ _ (code_branch st h i) (
            Yields-if (d == discriminant_signature) _ _ (signature_branch st h i)
              (search (yields_rules, masp_tx_kept, masp_builder_kept) depth 8))))

    Committed-read_section_loop :
        (n i : ℕ) (st : Sections)
        → Committed lib header st
        → Yields (Committed lib header) (read_section_loop lib rand header n i st)
    unfolding read_section_loop
    Committed-read_section_loop zero i st h = Yields-pure st h
    Committed-read_section_loop (suc n) i st h = Yields-bind _ _ λ d.
        Yields-bind-Yields _ _ (Committed-read_section d i st h)
          λ st' h'. Committed-read_section_loop n (i + 1) st' h'

-- When readSections succeeds, the data section is missing or its hash is the data hash of the header,
-- and the code section is missing or its hash is the code hash of the header.
pub read_sections-Committed :
    (lib : Library) (rand : RandCounts) (header : Header)
    → Yields (Committed lib header) (read_sections lib rand header)
unfolding read_sections
read_sections-Committed lib rand header = Yields-bind _ _ λ n. Yields-bind _ _ λ u.
    Committed-read_section_loop lib header rand n 0 (no_sections n)
      (record { data_hash_ok = inl refl; code_hash_ok = inl refl })

-- ===== src/Sections/All.antt =====
-- readSections of app/src/parser_impl_txn.c
use ledger_namada.Common.{
  ℕ, zero, suc, ◌+◌, Bool, true, false, Option, none, some, List, set, replicate, ltb, leb, ◌==◌,
  if◌then◌else◌,
}
use ledger_namada.Reader.{
  value_out_of_range, unexpected_error, unexpected_field, invalid_output_buffer, Reader, ◌>>=◌,
  ◌>>◌, pure, fail, reject_if, read_uint32, peek,
}
use ledger_namada.Crypto.{Library, Section, no_section}
use ledger_namada.Txn.Validator.{max_extra_data_secs}
use ledger_namada.Txn.Linked.{section_at}
use ledger_namada.Header.{Header}
use ledger_namada.Masp.Bundle.{MaspTx, read_masp_tx, discriminant_masp_tx}
use ledger_namada.Masp.Builder.{
  MaspBuilderSection, RandCounts, read_masp_builder, discriminant_masp_builder,
}
use ledger_namada.Sections.{
  SignatureSection, no_signature, read_signature_section, read_extra_data_section,
  read_data_section, read_code_section, discriminant_data, discriminant_extra_data,
  discriminant_code, discriminant_signature,
}

-- sections_t with isMasp; the arrays hold four and three sections. maspTx and maspBuilder are
-- `none` while they are zeroed.
pub record Sections : Type 0 where
  pub section_len : ℕ
  pub extra_data_len : ℕ
  pub signatures_len : ℕ
  pub code : Section
  pub data_section : Section
  pub extra_data : List Section
  pub signatures : List SignatureSection
  pub masp_tx : Option MaspTx
  pub masp_builder : Option MaspBuilderSection
  pub is_masp : Bool

abbrev pub max_signature_secs : ℕ
max_signature_secs = 3

abbrev pub no_sections : ℕ → Sections
no_sections section_len = record {
  section_len = section_len;
  extra_data_len = 0;
  signatures_len = 0;
  code = no_section;
  data_section = no_section;
  extra_data = replicate 4 no_section;
  signatures = replicate 3 no_signature;
  masp_tx = none;
  masp_builder = none;
  is_masp = false;
}

module _ (lib : Library) (rand : RandCounts) (header : Header) where
  -- extraData[extraDataLen++]
  unfoldable pub add_extra_data : ℕ → Sections → Reader Sections
  add_extra_data i st = do
    reject_if (leb max_extra_data_secs st.extra_data_len) unexpected_field
    was ← section_at st.extra_data st.extra_data_len
    s ← read_extra_data_section lib was
    pure (record st {
      extra_data_len = st.extra_data_len + 1;
      extra_data = set st.extra_data st.extra_data_len (record s { idx = i + 1 });
    })

  -- signatures[signaturesLen++]
  unfoldable pub add_signature : ℕ → Sections → Reader Sections
  add_signature i st = do
    reject_if (leb max_signature_secs st.signatures_len) value_out_of_range
    s ← read_signature_section
    pure (record st {
      signatures_len = st.signatures_len + 1;
      signatures = set st.signatures st.signatures_len (record s { idx = i + 1 });
    })

  -- The switch on the discriminant of the section with index i.
  unfoldable pub read_section : ℕ → ℕ → Sections → Reader Sections
  read_section discriminant i st =
      if discriminant == discriminant_data
      then (do
        s ← read_data_section lib header st.data_section
        pure (record st { data_section = record s { idx = i + 1 } }))
      else if discriminant == discriminant_extra_data
      then add_extra_data i st
      else if discriminant == discriminant_code
      then (do
        s ← read_code_section lib header st.code
        pure (record st { code = record s { idx = i + 1 } }))
      else if discriminant == discriminant_signature
      then add_signature i st
      else if discriminant == discriminant_masp_tx
      then (do m ← read_masp_tx; pure (record st { masp_tx = some m; is_masp = true }))
      else if discriminant == discriminant_masp_builder
      then (do b ← read_masp_builder rand; pure (record st { masp_builder = some b }))
      else fail unexpected_field

  -- n rounds of the loop from the index i on
  unfoldable pub read_section_loop : ℕ → ℕ → Sections → Reader Sections
  read_section_loop zero i st = pure st
  read_section_loop (suc n) i st = do
    discriminant ← peek unexpected_error
    st' ← read_section discriminant i st
    read_section_loop n (i + 1) st'

  unfoldable pub read_sections : Reader Sections
  read_sections = do
    section_len ← read_uint32
    reject_if (ltb 7 section_len) invalid_output_buffer
    read_section_loop section_len 0 (no_sections section_len)

-- ===== src/Transaction/Signable.antt =====
-- What crypto_sign of app/src/crypto.c relies on of a transaction that parser_parse accepted.
use mathlib.Core.Path.{subst}
use ledger_namada.Common.{
  ℕ, zero, suc, ◌+◌, ◌%◌, ◌^◌, ◌≤◌, ◌<◌, ◌≡◌, refl, sym, ◌∙◌, arith, true, false, Option, none,
  some, length, length-set, leb, ◌==◌, inl, inr, Bool-cases,
}
use ledger_namada.Reader.{Ctx, ok, err, init_context_empty, unexpected_unparsed_bytes, expect_end}
use ledger_namada.Reader.Safe.{Yields, Yields-bind, Yields-pure, yields_rules}
use ledger_namada.Reader.Accepted.{bind_ok, pure_ok, Yields-bind-Yields, Yields-guard}
use ledger_namada.Crypto.{Library, Section}
use ledger_namada.Header.{Header, read_header}
use ledger_namada.Masp.Bundle.{MaspTx}
use ledger_namada.Masp.Builder.{RandCounts, MaspBuilderSection}
use ledger_namada.Sections.All.{
  Sections, no_sections, add_extra_data, add_signature, read_section, read_section_loop,
  read_sections,
}
use ledger_namada.Transaction.{
  ParserTx, validate_transaction_params, read_transaction, parser_parse,
}
use ledger_namada.Transaction.Accepted.{
  MemoOf, Typed-validate_transaction_params, parser_parse-IsChecked,
}
use ledger_namada.Signing.Entries.{IsSignable}

-- The arrays of signature and of extra data sections have their sizes, and the counters stay within
-- them.
pub record Counted (st : Sections) : Type 0 where
  pub size : length st.signatures ≡ 3
  pub few : st.signatures_len ≤ 3
  pub extra_size : length st.extra_data ≡ 4
  pub extra_few : st.extra_data_len ≤ 4

module _ (lib : Library) (rand : RandCounts) (header : Header) where
  Counted-add_extra_data :
      (i : ℕ) (st : Sections) → Counted st → Yields Counted (add_extra_data lib rand header i st)
  unfolding add_extra_data
  Counted-add_extra_data i st h = Yields-guard _ _ _ λ room. Yields-bind _ _ λ was.
      Yields-bind _ _ λ s. Yields-pure _ (record {
        size = h.size;
        few = h.few;
        extra_size = length-set st.extra_data _ _ ∙ h.extra_size;
        extra_few = room_for st.extra_data_len room;
      })
    where
      room_for : (n : ℕ) → leb 4 n ≡ false → n + 1 ≤ 4
      room_for n e = ground arith

  Counted-add_signature :
      (i : ℕ) (st : Sections) → Counted st → Yields Counted (add_signature lib rand header i st)
  unfolding add_signature
  Counted-add_signature i st h = Yields-guard _ _ _ λ room. Yields-bind _ _ λ s.
      Yields-pure _ (record {
        size = length-set st.signatures _ _ ∙ h.size;
        few = room_for st.signatures_len room;
        extra_size = h.extra_size;
        extra_few = h.extra_few;
      })
    where
      room_for : (n : ℕ) → leb 3 n ≡ false → n + 1 ≤ 3
      room_for n e = ground arith

  Counted-data :
      (st : Sections) (s : Section) → Counted st → Counted (record st { data_section = s })
  Counted-data st s h = record {
    size = h.size;
    few = h.few;
    extra_size = h.extra_size;
    extra_few = h.extra_few;
  }

  Counted-code : (st : Sections) (s : Section) → Counted st → Counted (record st { code = s })
  Counted-code st s h = record {
    size = h.size;
    few = h.few;
    extra_size = h.extra_size;
    extra_few = h.extra_few;
  }

  Counted-masp_tx :
      (st : Sections) (m : MaspTx)
      → Counted st
      → Counted (record st { masp_tx = some m; is_masp = true })
  Counted-masp_tx st m h = record {
    size = h.size;
    few = h.few;
    extra_size = h.extra_size;
    extra_few = h.extra_few;
  }

  Counted-masp_builder :
      (st : Sections) (b : MaspBuilderSection)
      → Counted st
      → Counted (record st { masp_builder = some b })
  Counted-masp_builder st b h = record {
    size = h.size;
    few = h.few;
    extra_size = h.extra_size;
    extra_few = h.extra_few;
  }

  Counted-read_section :
      (d i : ℕ) (st : Sections) → Counted st → Yields Counted (read_section lib rand header d i st)
  unfolding read_section
  Counted-read_section d i st h =
      search
        (
          yields_rules, Counted-add_extra_data, Counted-add_signature, Counted-data, Counted-code,
          Counted-masp_tx, Counted-masp_builder,
        )
        depth 10

  Counted-read_section_loop :
      (n i : ℕ) (st : Sections)
      → Counted st
      → Yields Counted (read_section_loop lib rand header n i st)
  unfolding read_section_loop
  Counted-read_section_loop zero i st h = Yields-pure st h
  Counted-read_section_loop (suc n) i st h = Yields-bind _ _ λ d.
      Yields-bind-Yields _ _ (Counted-read_section d i st h)
        λ st' h'. Counted-read_section_loop n (i + 1) st' h'

  Counted-read_sections : Yields Counted (read_sections lib rand header)
  unfolding read_sections
  Counted-read_sections = Yields-bind _ _ λ n. Yields-guard _ _ _ λ few.
      Counted-read_section_loop n 0 (no_sections n)
        (record { size = refl; few = omega arith; extra_size = refl; extra_few = omega arith })

Counted-read_transaction :
    (lib : Library) (rand : RandCounts) (c d : Ctx) (tx : ParserTx)
    → read_transaction lib rand c ≡ ok tx d
    → Counted tx.sections
unfolding read_transaction
Counted-read_transaction lib rand c d tx run =
    let (header, c1, run1, rest1) = bind_ok (read_header lib) _ c d tx run in
    let (st, c2, run2, rest2) = bind_ok (read_sections lib rand header) _ c1 d tx rest1 in
    let (tx', c3, run3, rest3) =
      bind_ok (validate_transaction_params lib header st) _ c2 d tx rest2 in
    let (u, c4, run4, rest4) = bind_ok (expect_end unexpected_unparsed_bytes) _ c3 d tx rest3 in
    let (same, end) = pure_ok tx' tx c4 d rest4 in
    let typed = (Typed-validate_transaction_params lib header st).result c2 c3 tx' run3 in
    subst (λ (t : ParserTx). Counted t.sections) same
      (subst Counted (sym typed.sections_ok)
        ((Counted-read_sections lib rand header).result c1 c2 st run2))

-- A transaction that parser_parse accepts has at most three signature sections, and no more of them and
-- of the extra data sections than their arrays have room for; its memo section, if it has one, is below
-- the number of extra data sections.
pub parser_parse-IsSignable :
    (lib : Library) (rand : RandCounts) (mem : ℕ → ℕ) (buffer data_len : ℕ) (tx : ParserTx)
    (d : Ctx)
    → parser_parse lib rand mem buffer data_len ≡ ok tx d
    → IsSignable tx
unfolding parser_parse
parser_parse-IsSignable lib rand mem buffer data_len tx d run =
    elim (Bool-cases (data_len % 2 ^ 16 == 0)) [
      | inl e ↦ absurd (refused (rw e at run))
      | inr e ↦
          let k = Counted-read_transaction lib rand _ d tx (rw e at run) in
          record {
            signatures_read = omega (arith, k.size, k.few);
            signatures_few = k.few;
            extra_read = omega (arith, k.extra_size, k.extra_few);
            memo_read = λ i f.
                memo_at tx.memo_section
                  (parser_parse-IsChecked lib rand mem buffer data_len tx d run).0.typed.memo_ok i
                  f;
          }
    ]
  where
    refused : err init_context_empty ≡ ok tx d → ⊥
    refused g = cc

    memo_at :
        (o : Option ℕ)
        → MemoOf lib tx.header tx.sections o
        → (i : ℕ) → o ≡ some i
        → i < tx.sections.extra_data_len
    memo_at none m i f = absurd cc
    memo_at (some j) m i f = subst (λ n. n < tx.sections.extra_data_len) (same f) m.1
      where
        same : some j ≡ some i → j ≡ i
        same g = cc

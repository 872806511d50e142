-- ===== src/Transaction/Accepted.antt =====
-- The checks that parser_parse of app/src/parser.c makes.
use ledger_namada.Common.{
  ◌<◌, ◌≤◌, ℕ, zero, suc, ◌+◌, ◌%◌, ◌^◌, ◌≡◌, refl, sym, ap, ◌∙◌, arith, Bool, true, false, not,
  Option, none, some, List, get_elem?, eq_list, inl, inr, Bool-cases, ◌==◌, if◌then◌else◌,
}
use mathlib.Core.Path.{subst}
use ledger_namada.Reader.{
  Ctx, Reader, ok, err, init_context_empty, unexpected_error, unexpected_unparsed_bytes, pure, fail,
  expect_end, is_all_zeroes,
}
use ledger_namada.Reader.Safe.{Yields, Yields-bind, Yields-pure, Yields-fail, yields_rules}
use ledger_namada.Reader.Accepted.{
  bind_ok, pure_ok, expect_end_ok, Yields-bind-Yields, Yields-guard, eq_list→eq,
}
use ledger_namada.Crypto.{Library, Section, hash_extra_data_section}
use ledger_namada.Header.{Header, read_header, read_header_fields}
use ledger_namada.Masp.Builder.{RandCounts}
use ledger_namada.Sections.All.{Sections, read_sections}
use ledger_namada.Txn.LinkedCode.{section_at-Yields, hash_or_error-Yields}
use ledger_namada.Sections.Authentic.{Committed, read_sections-Committed}
use ledger_namada.Transaction.{
  ParserTx, read_transaction_type, find_memo, read_memo, validate_transaction_params,
  read_transaction, parser_parse,
}

-- The extra data section with the index i has the hash `memo_hash`.
pub record Commits (lib : Library) (extra : List Section) (memo_hash : List ℕ) (i : ℕ)
    : Type 0 where
  pub section : Section
  pub present : get_elem? extra i ≡ some section
  pub hash_ok : hash_extra_data_section lib section ≡ some memo_hash

-- `memo` is what the memo hash of the header stands for: nothing if it is zero, else a section of that
-- hash below the number of extra data sections.
abbrev pub MemoOf : Library → Header → Sections → Option ℕ → Type 0
MemoOf lib header st none = is_all_zeroes header.memo_hash.content ≡ true
MemoOf lib header st (some i) =
    Commits lib st.extra_data header.memo_hash.content i × (i < st.extra_data_len)

module _ (lib : Library) (extra : List Section) (memo_hash : List ℕ) (len : ℕ) where
  abbrev Found : Option ℕ → Type 0
  Found none = Unit
  Found (some i) = Commits lib extra memo_hash i × (i < len)

  Found-if :
      (i : ℕ) (s : Section) (h : List ℕ) (found : Option ℕ)
      → i < len
      → get_elem? extra i ≡ some s
      → hash_extra_data_section lib s ≡ some h
      → Found found
      → Found (if eq_list h memo_hash then some i else found)
  Found-if i s h found below e e' f = elim (Bool-cases (eq_list h memo_hash)) [
    | inl b ↦ rw b (
      record { section = s; present = e; hash_ok = e' ∙ ap some (eq_list→eq h memo_hash b) },
      below,
    )
    | inr b ↦ rw b f
  ]

  Found-find_memo :
      (n i : ℕ) (found : Option ℕ)
      → i + n ≤ len
      → Found found
      → Yields Found (find_memo lib extra memo_hash n i found)
  unfolding find_memo
  Found-find_memo zero i found l f = Yields-pure found f
  Found-find_memo (suc n) i found l f = Yields-bind-Yields _ _ (section_at-Yields extra i) λ s e.
      Yields-bind-Yields _ _ (hash_or_error-Yields (hash_extra_data_section lib s)) λ h e'.
        Found-find_memo n (i + 1) _ (omega arith) (Found-if i s h found (omega arith) e e' f)

module _ (lib : Library) (header : Header) (st : Sections) where
  Found-or_error :
      (found : Option ℕ)
      → Found lib st.extra_data header.memo_hash.content st.extra_data_len found
      → Yields
          (MemoOf lib header st)
          (elim found [ none ↦ fail unexpected_error | some i ↦ pure (some i) ])
  Found-or_error none f = Yields-fail unexpected_error
  Found-or_error (some i) f = Yields-pure (some i) f

  MemoOf-if :
      (b : Bool) (m : Reader (Option ℕ))
      → is_all_zeroes header.memo_hash.content ≡ b
      → Yields (MemoOf lib header st) m
      → Yields (MemoOf lib header st) (if b then pure none else m)
  MemoOf-if true m e y = Yields-pure none e
  MemoOf-if false m e y = y

  MemoOf-read_memo : Yields (MemoOf lib header st) (read_memo lib header st)
  unfolding read_memo
  MemoOf-read_memo = MemoOf-if (is_all_zeroes header.memo_hash.content) _ refl (
      Yields-bind-Yields _ _
        (Found-find_memo lib st.extra_data header.memo_hash.content st.extra_data_len
          st.extra_data_len 0 none (omega arith) tt)
        Found-or_error)

-- The type is the one that the tag of the code section names, and the memo is the committed one.
pub record Typed (lib : Library) (header : Header) (st : Sections) (tx : ParserTx) : Type 0 where
  pub type_ok : tx.type_tx ≡ read_transaction_type st.code.tag
  pub memo_ok : MemoOf lib header st tx.memo_section
  pub header_ok : tx.header ≡ header
  pub sections_ok : tx.sections ≡ st

pub Typed-validate_transaction_params :
    (lib : Library) (header : Header) (st : Sections)
    → Yields (Typed lib header st) (validate_transaction_params lib header st)
unfolding validate_transaction_params
Typed-validate_transaction_params lib header st =
    Yields-bind-Yields _ _ (MemoOf-read_memo lib header st) λ memo m. Yields-bind _ _ λ d.
      Yields-pure _ (record { type_ok = refl; memo_ok = m; header_ok = refl; sections_ok = refl })

-- What is known of an accepted transaction.
pub record IsChecked (lib : Library) (tx : ParserTx) : Type 0 where
  pub one_batch : tx.header.batch_len ≡ 1
  pub committed : Committed lib tx.header tx.sections
  pub typed : Typed lib tx.header tx.sections tx

one_batch-read_header : (lib : Library) → Yields (λ h. h.batch_len ≡ 1) (read_header lib)
unfolding read_header read_header_fields
one_batch-read_header lib = Yields-bind _ _ λ _. Yields-bind _ _ λ _. Yields-bind _ _ λ _.
    Yields-bind _ _ λ _. Yields-bind _ _ λ _. Yields-bind _ _ λ _.
      Yields-bind _ _
        λ n. Yields-guard _ _ _ λ one. let h = is_one n one in search (yields_rules, h) depth 20
  where
    is_one : (n : ℕ) → not (n == 1) ≡ false → n ≡ 1
    is_one n e = ground arith

read_transaction-IsChecked :
    (lib : Library) (rand : RandCounts) (c d : Ctx) (tx : ParserTx)
    → read_transaction lib rand c ≡ ok tx d
    → IsChecked lib tx × (d.offset ≡ d.buffer_len)
unfolding read_transaction
read_transaction-IsChecked lib rand c d tx run =
    let (header, c1, run1, rest1) = bind_ok (read_header lib) _ c d tx run in
    let (st, c2, run2, rest2) = bind_ok (read_sections lib rand header) _ c1 d tx rest1 in
    let (tx', c3, run3, rest3) =
      bind_ok (validate_transaction_params lib header st) _ c2 d tx rest2 in
    let (u, c4, run4, rest4) = bind_ok (expect_end unexpected_unparsed_bytes) _ c3 d tx rest3 in
    let (same, last) = pure_ok tx' tx c4 d rest4 in
    let checked : IsChecked lib tx' =
      gather lib header st tx' ((one_batch-read_header lib).result c c1 header run1)
        ((read_sections-Committed lib rand header).result c1 c2 st run2)
        ((Typed-validate_transaction_params lib header st).result c2 c3 tx' run3) in
    (
      subst (IsChecked lib) same checked,
      subst (λ (k : Ctx). k.offset ≡ k.buffer_len) last (expect_end_ok _ c3 c4 u run4).1,
    )
  where
    gather :
        (l : Library) (header : Header) (st : Sections) (t : ParserTx)
        → header.batch_len ≡ 1
        → Committed l header st
        → Typed l header st t
        → IsChecked l t
    gather l header st t b k y = record {
      one_batch = rw y.header_ok b;
      committed = rw (y.header_ok, y.sections_ok) k;
      typed =
          subst (λ h. Typed l h t.sections t) (sym y.header_ok)
            (subst (λ (s : Sections). Typed l header s t) (sym y.sections_ok) y);
    }

-- A transaction that parser_parse accepts has a batch of one; its data and code sections are missing or
-- hash to what its header commits to; its type is the one that the tag of the code section names; its
-- memo section is missing where the memo hash is zero, and otherwise is an extra data section of that
-- hash; and no byte is left unread.
pub parser_parse-IsChecked :
    (lib : Library) (rand : RandCounts) (mem : ℕ → ℕ) (buffer data_len : ℕ) (tx : ParserTx)
    (d : Ctx)
    → parser_parse lib rand mem buffer data_len ≡ ok tx d
    → IsChecked lib tx × (d.offset ≡ d.buffer_len)
unfolding parser_parse
parser_parse-IsChecked lib rand mem buffer data_len tx d run =
    elim (Bool-cases (data_len % 2 ^ 16 == 0)) [
      | inl e ↦ absurd (refused (rw e at run))
      | inr e ↦ read_transaction-IsChecked lib rand _ d tx (rw e at run)
    ]
  where
    refused : err init_context_empty ≡ ok tx d → ⊥
    refused g = cc

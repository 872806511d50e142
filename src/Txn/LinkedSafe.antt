-- ===== src/Txn/LinkedSafe.antt =====
-- The readers of app/src/parser_impl_txn.c that look into the array of extra data sections, against
-- the predicate of memory safety.
use ledger_namada.Common.{ℕ, zero, suc, ◌+◌, ◌≤◌, ◌≡◌, arith, List, length, leb, Option, false}
use ledger_namada.Reader.{Bytes}
use ledger_namada.Reader.Safe.{
  Safe, safe_rules, robust_rules, Safe-bind, Safe-pure, Safe-guard, Safe-skip, Safe-read_byte,
}
use ledger_namada.Address.Safe.{Safe-read_address_alt}
use ledger_namada.Crypto.{Library, Section, hash_extra_data_section}
use ledger_namada.Header.Safe.{Safe-read_token}
use ledger_namada.Sections.Safe.{Safe-section_at, Safe-hash_or_error}
use ledger_namada.Txn.Fields.{Span}
use ledger_namada.Txn.Safe.{Safe-read_pubkeys, Safe-read_text}
use ledger_namada.Txn.Transfer.{read_transfer_txn}
use ledger_namada.Txn.Validator.{max_extra_data_secs}
use ledger_namada.Txn.Linked.{VpLink, no_link, find_vp_code, read_init_account_txn}
use ledger_namada.Txn.Pgf.{
  read_pgf_internal, read_pgf_target_ibc, read_pgf_target, read_pgf_payment_action,
}
use ledger_namada.Txn.Proposal.{
  ProposalLinks, read_steward_actions, read_payment_actions, read_proposal_body,
  find_proposal_sections, read_init_proposal_txn,
}

module _ {slack : ℕ} where
  Safe-read_pgf_internal : Safe slack read_pgf_internal
  unfolding read_pgf_internal
  Safe-read_pgf_internal = search (safe_rules, Safe-read_address_alt)

  Safe-read_pgf_target_ibc : Safe slack read_pgf_target_ibc
  unfolding read_pgf_target_ibc
  Safe-read_pgf_target_ibc = search (safe_rules, Safe-read_text) depth 8

  Safe-read_pgf_target : (t : ℕ) → Safe slack (read_pgf_target t)
  unfolding read_pgf_target
  Safe-read_pgf_target t = search (safe_rules, Safe-read_pgf_internal, Safe-read_pgf_target_ibc)

  Safe-read_pgf_payment_action : Safe slack read_pgf_payment_action
  unfolding read_pgf_payment_action
  Safe-read_pgf_payment_action = search (safe_rules, Safe-read_pgf_target) depth 12

  Safe-read_steward_actions : (n : ℕ) → Safe slack (read_steward_actions n)
  unfolding read_steward_actions
  Safe-read_steward_actions zero = Safe-pure tt
  Safe-read_steward_actions (suc n) =
      Safe-bind _ _ Safe-read_byte
        λ d. Safe-bind _ _ Safe-read_address_alt λ a. Safe-read_steward_actions n

  Safe-read_payment_actions : (n : ℕ) (s : Span) (k : ℕ) → Safe slack (read_payment_actions n s k)
  unfolding read_payment_actions
  Safe-read_payment_actions zero s k = Safe-pure (s, k)
  Safe-read_payment_actions (suc n) s k =
      Safe-bind _ _ Safe-read_pgf_payment_action λ a. Safe-read_payment_actions n _ _

  Safe-read_proposal_body : (t : ℕ) → Safe slack (read_proposal_body t)
  unfolding read_proposal_body
  Safe-read_proposal_body t =
      search (safe_rules, Safe-read_steward_actions, Safe-read_payment_actions) depth 14

module _ {slack : ℕ} (lib : Library) (extra : List Section) where
  pub Safe-find_vp_code :
      (sechash : Bytes) (n i : ℕ) (link : VpLink)
      → i + n ≤ length extra
      → Safe slack (find_vp_code lib extra sechash n i link)
  unfolding find_vp_code
  Safe-find_vp_code sechash zero i link h = Safe-pure link
  Safe-find_vp_code sechash (suc n) i link h =
      Safe-bind _ _ (Safe-section_at lib extra i (omega arith)) λ s.
        Safe-bind _ _ (Safe-hash_or_error (hash_extra_data_section lib s))
          λ k. Safe-find_vp_code sechash n (i + 1) _ (omega arith)

  Safe-find_proposal_sections :
      (content : Bytes) (code : Option Bytes) (n i : ℕ) (links : ProposalLinks)
      → i + n ≤ length extra
      → Safe slack (find_proposal_sections lib extra content code n i links)
  unfolding find_proposal_sections
  Safe-find_proposal_sections content code zero i links h = Safe-pure links
  Safe-find_proposal_sections content code (suc n) i links h =
      Safe-bind _ _ (Safe-section_at lib extra i (omega arith)) λ s.
        Safe-bind _ _ (Safe-hash_or_error (hash_extra_data_section lib s))
          λ k. Safe-find_proposal_sections content code n (i + 1) _ (omega arith)

few_rounds :
    (extra : List Section) (n : ℕ)
    → length extra ≡ 4
    → leb max_extra_data_secs n ≡ false
    → 0 + n ≤ length extra
few_rounds extra n size few = ground arith

module _ {slack : ℕ} (lib : Library) (extra : List Section) where
  pub Safe-read_init_account_txn :
      (n : ℕ) → length extra ≡ 4 → Safe slack (read_init_account_txn lib extra n)
  unfolding read_init_account_txn
  Safe-read_init_account_txn n size = Safe-guard _ _ _ λ few.
      let find = λ (sechash : Bytes).
        Safe-find_vp_code {slack = slack} lib extra sechash n 0 no_link
          (few_rounds extra n size few) in
      search (safe_rules, Safe-read_pubkeys, find) depth 14

  pub Safe-read_init_proposal_txn :
      (n : ℕ) → length extra ≡ 4 → Safe slack (read_init_proposal_txn lib extra n)
  unfolding read_init_proposal_txn
  Safe-read_init_proposal_txn n size = Safe-guard _ _ _ λ few.
      let find = λ (content : Bytes) (code : Option Bytes) (links : ProposalLinks).
        Safe-find_proposal_sections {slack = slack} lib extra content code n 0 links
          (few_rounds extra n size few) in
      search (safe_rules, Safe-read_address_alt, Safe-read_proposal_body, find) depth 16

module _ {slack : ℕ} (lib : Library) where
  pub Safe-read_transfer_txn : Safe slack (read_transfer_txn lib)
  unfolding read_transfer_txn
  Safe-read_transfer_txn =
      search (safe_rules, robust_rules, Safe-skip, Safe-read_address_alt, Safe-read_token) depth 16

-- ===== src/Sections/Safe.antt =====
-- The section readers of app/src/parser_impl_txn.c against the predicate of memory safety.
use ledger_namada.Common.{ℕ, zero, suc, ◌<◌, ◌≡◌, arith, Option, none, some, List, [], ◌∷◌, length}
use ledger_namada.Reader.{unexpected_error}
use ledger_namada.Reader.Safe.{
  Safe, safe_rules, Safe-pure, Safe-fail, Safe-skip, Robust-bind, Robust-read_byte,
}
use ledger_namada.Address.Safe.{Safe-read_address_alt}
use ledger_namada.Crypto.{Library, Section}
use ledger_namada.Txn.Fields.{Span}
use ledger_namada.Txn.Safe.{Safe-read_text, Safe-read_checked_text}
use ledger_namada.Txn.Linked.{section_at, hash_or_error}
use ledger_namada.Header.{Header}
use ledger_namada.Sections.{
  read_salt, read_hash_array, or_unexpected_error, read_signer_keys, read_signatures, read_signer,
  read_signature_section,
}
use ledger_namada.Sections.All.{Sections}

pub Safe-hash_or_error : {slack : ℕ} (o : Option (List ℕ)) → Safe slack (hash_or_error o)
Safe-hash_or_error none = Safe-fail unexpected_error
Safe-hash_or_error (some h) = Safe-pure h

Safe-or_unexpected_error : {slack : ℕ} (o : Option Section) → Safe slack (or_unexpected_error o)
Safe-or_unexpected_error none = Safe-fail unexpected_error
Safe-or_unexpected_error (some h) = Safe-pure h

module _ {slack : ℕ} where
  Safe-read_salt : Safe slack read_salt
  unfolding read_salt
  Safe-read_salt = search safe_rules

  Safe-read_hash_array : Safe slack read_hash_array
  unfolding read_hash_array
  Safe-read_hash_array = search safe_rules

  Safe-read_signer_keys : (n : ℕ) (keys : Span) → Safe slack (read_signer_keys n keys)
  unfolding read_signer_keys
  Safe-read_signer_keys zero keys = Safe-pure keys
  Safe-read_signer_keys (suc n) keys =
      search (safe_rules, λ (k : Span). Safe-read_signer_keys n k) depth 8

  Safe-read_signatures : (n : ℕ) (sigs : Span) → Safe slack (read_signatures n sigs)
  unfolding read_signatures
  Safe-read_signatures zero sigs = Safe-pure sigs
  Safe-read_signatures (suc n) sigs = Safe-skip 1 _ (
      Robust-bind _ _ Robust-read_byte
        λ tag. search (safe_rules, λ (k : Span). Safe-read_signatures n k) depth 8)

  Safe-read_signer : (d : ℕ) → Safe slack (read_signer d)
  unfolding read_signer
  Safe-read_signer d = search (safe_rules, Safe-read_signer_keys, Safe-read_address_alt) depth 10

  pub Safe-read_signature_section : Safe slack read_signature_section
  unfolding read_signature_section
  Safe-read_signature_section = search (safe_rules, Safe-read_signer, Safe-read_signatures) depth 14

ruleset section_rules = (
  safe_rules, Safe-read_salt, Safe-read_text, Safe-read_hash_array, Safe-read_checked_text,
  Safe-hash_or_error, Safe-or_unexpected_error,
)

module _ {slack : ℕ} (lib : Library) where
  -- An element inside the array is no fault.
  pub Safe-section_at :
      (extra : List Section) (i : ℕ) → i < length extra → Safe slack (section_at extra i)
  Safe-section_at [] i h = absurd (omega arith)
  Safe-section_at (s ∷ extra) zero h = Safe-pure s
  Safe-section_at (s ∷ extra) (suc i) h = Safe-section_at extra i (omega arith)

-- What the loop keeps: the arrays have their sizes, and the counts stay within them.
pub record Fitted (st : Sections) : Type 0 where
  pub extra_size : length st.extra_data ≡ 4
  pub signatures_size : length st.signatures ≡ 3

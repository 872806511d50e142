-- ===== src/Header/Safe.antt =====
-- readHeader of app/src/parser_impl_txn.c against the predicate of memory safety.
use ledger_namada.Common.{ℕ, Option, none, some, List, ◌==◌}
use ledger_namada.Reader.{
  value_out_of_range, unexpected_error, Reader, Ptr, Bytes, ◌>>=◌, fail, pure, skip, read_uint32,
}
use ledger_namada.Reader.Safe.{
  Safe, Robust, safe_rules, robust_rules, Safe-bind, Safe-pure, Safe-fail, Safe-if_bind,
  Safe-skip_read, Safe-read_uint32, Safe-check_tag, Safe-read_pubkey, Safe-get_offset,
  Safe-position, Robust-bind, Robust-read_byte, Robust→Safe,
}
use ledger_namada.Address.{AddressAlt}
use ledger_namada.Address.Safe.{Safe-read_address_alt}
use ledger_namada.Crypto.{Library, encode_alt_address, address_payload, address_hrp}
use ledger_namada.Txn.Fields.{read_text}
use ledger_namada.Txn.Safe.{Safe-read_text}
use ledger_namada.Txn.Transfer.{read_token}
use ledger_namada.Header.{skip_chain_id, skip_expiration, read_header_fields, read_header}

module _ {slack : ℕ} where
  Robust-read_text : Robust slack read_text
  unfolding read_text
  Robust-read_text = search (safe_rules, robust_rules)

module _ {A : Type 0} {slack : ℕ} where
  Safe-skip_chain_id : (n : Reader A) → Robust slack n → Safe slack (skip_chain_id >>= λ _. n)
  unfolding skip_chain_id
  Safe-skip_chain_id n r = Safe-skip_read read_uint32 n Safe-read_uint32 r

  Safe-skip_expiration :
      (has : ℕ) (n : Reader A) → Robust slack n → Safe slack (skip_expiration has >>= λ _. n)
  unfolding skip_expiration
  Safe-skip_expiration has n r =
      Safe-if_bind (has == 0) (pure tt) (read_uint32 >>= λ k. skip k) (λ _. n)
        (Safe-bind (pure tt) (λ _. n) (Safe-pure tt) (λ _. Robust→Safe n r))
        (Safe-skip_read read_uint32 n Safe-read_uint32 r)

module _ {slack : ℕ} (lib : Library) where
  encoded_Safe :
      (payload : Option (List ℕ))
      → Safe {A = List ℕ} slack (elim payload [
        | none ↦ fail value_out_of_range
        | some p ↦ elim (lib.bech32m (address_hrp lib) p) [
          | none ↦ fail unexpected_error
          | some text ↦ pure text
        ]
      ])
  encoded_Safe none = Safe-fail value_out_of_range
  encoded_Safe (some p) = texts (lib.bech32m (address_hrp lib) p)
    where
      texts :
          (text : Option (List ℕ))
          → Safe {A = List ℕ} slack (elim text [ none ↦ fail unexpected_error | some t ↦ pure t ])
      texts none = Safe-fail unexpected_error
      texts (some t) = Safe-pure t

  pub Safe-encode_alt_address : (a : AddressAlt) → Safe slack (encode_alt_address lib a)
  unfolding encode_alt_address
  Safe-encode_alt_address a = encoded_Safe (address_payload a)

  pub Safe-read_token : (a : AddressAlt) → Safe slack (read_token lib a)
  unfolding read_token
  Safe-read_token a = search (safe_rules, Safe-encode_alt_address)

ruleset header_rules = (
  safe_rules, Safe-read_text, Safe-check_tag, Safe-read_address_alt, Safe-read_token,
  Safe-read_pubkey,
)

module _ {slack : ℕ} (lib : Library) where
  Safe-read_header_fields :
      (start : Ptr) (tmp_offset : ℕ) (timestamp : Bytes)
      → Safe slack (read_header_fields lib start tmp_offset timestamp)
  unfolding read_header_fields
  Safe-read_header_fields start tmp_offset timestamp = search header_rules depth 24

  -- readHeader, which moves the offset by two lengths from the input without a check, looks at no byte
  -- outside the buffer (and `slack` bytes behind it, for any `slack`), is inside the buffer where it
  -- succeeds, and makes no other invalid access.
  pub Safe-read_header : Safe slack (read_header lib)
  unfolding read_header
  Safe-read_header = Safe-bind _ _ Safe-position λ start.
      Safe-bind _ _ Safe-get_offset λ tmp_offset. Safe-skip_chain_id _ (
        Robust-bind _ _ Robust-read_byte λ has_expiration. Safe-skip_expiration has_expiration _ (
          Robust-bind _ _ Robust-read_text
            λ timestamp. Safe-read_header_fields start tmp_offset timestamp))

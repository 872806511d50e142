-- ===== src/Address/Safe.antt =====
-- The readers of app/src/parser_address.c against the predicate of memory safety.
use ledger_namada.Common.{ℕ}
use ledger_namada.Reader.Safe.{Safe, safe_rules}
use ledger_namada.Address.{
  read_address_established, read_address_implicit, read_internal_address_erc20,
  read_internal_address_ibc_token, read_internal_address_nut, read_internal_token,
  read_address_internal, read_address_alt,
}

module _ {slack : ℕ} where
  Safe-read_internal_token : (tag : ℕ) → Safe slack (read_internal_token tag)
  unfolding read_internal_token read_internal_address_ibc_token read_internal_address_erc20
      read_internal_address_nut
  Safe-read_internal_token tag = search safe_rules

  Safe-read_address_internal : Safe slack read_address_internal
  unfolding read_address_internal
  Safe-read_address_internal = search (safe_rules, Safe-read_internal_token)

  pub Safe-read_address_alt : Safe slack read_address_alt
  unfolding read_address_alt read_address_established read_address_implicit
  Safe-read_address_alt = search (safe_rules, Safe-read_address_internal) depth 9

-- ===== src/Address.antt =====
-- Addresses: AddressAlt of app/src/parser_types.h and the readers of app/src/parser_address.c.
pub mod Safe
use ledger_namada.Common.{
  ℕ, ◌+◌, Bool, Option, none, some, List, [], ◌∷◌, ◌++◌, replicate, ◌||◌, ◌==◌, if◌then◌else◌,
}
use ledger_namada.Reader.{
  ParserError, value_out_of_range, Reader, Bytes, no_bytes, ◌>>=◌, pure, read_byte, read_bytes,
}

-- The union's members IbcToken, Erc20 and Nut are one bytes_t each: `token` is the one in use.
pub record InternalAddress : Type 0 where
  pub tag : ℕ
  pub token : Bytes

-- `hash` is Established.hash or Implicit.pubKeyHash.
pub record AddressAlt : Type 0 where
  pub tag : ℕ
  pub hash : Bytes
  pub internal : InternalAddress

abbrev pub no_internal : InternalAddress
no_internal = record { tag = 0; token = no_bytes }

-- after MEMZERO
abbrev pub no_address : AddressAlt
no_address = record { tag = 0; hash = no_bytes; internal = no_internal }

unfoldable pub read_address_established : Reader Bytes
read_address_established = read_bytes 20

unfoldable pub read_address_implicit : Reader Bytes
read_address_implicit = read_bytes 20

unfoldable pub read_internal_address_erc20 : Reader Bytes
read_internal_address_erc20 = read_bytes 20

unfoldable pub read_internal_address_ibc_token : Reader Bytes
read_internal_address_ibc_token = read_bytes 20

unfoldable pub read_internal_address_nut : Reader Bytes
read_internal_address_nut = read_bytes 20

-- The switch has no default: any other tag is accepted with nothing behind it.
unfoldable pub read_internal_token : ℕ → Reader Bytes
read_internal_token tag =
    if tag == 4
    then read_internal_address_ibc_token
    else if tag == 8
    then read_internal_address_erc20
    else if tag == 9
    then read_internal_address_nut
    else pure no_bytes

unfoldable pub read_address_internal : Reader InternalAddress
read_address_internal = do
  tag ← read_byte
  token ← read_internal_token tag
  pure (record { tag = tag; token = token })

-- Likewise: a tag above 2 is accepted.
unfoldable pub read_address_alt : Reader AddressAlt
read_address_alt = do
  tag ← read_byte
  if tag == 0
      then (do
        hash ← read_address_established
        pure (record { tag = tag; hash = hash; internal = no_internal }))
      else if tag == 1
      then (do
        hash ← read_address_implicit
        pure (record { tag = tag; hash = hash; internal = no_internal }))
      else if tag == 2
      then (do
        internal ← read_address_internal
        pure (record { tag = tag; hash = no_bytes; internal = internal }))
      else pure (record { tag = tag; hash = no_bytes; internal = no_internal })

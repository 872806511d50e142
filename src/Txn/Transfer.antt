-- ===== src/Txn/Transfer.antt =====
-- readToken and readTransferTxn of app/src/parser_impl_txn.c
use Prim.Native.String.{String}
use ledger_namada.Common.{
  ℕ, Option, none, some, List, [], ◌∷◌, ◌++◌, take, replicate, eq_list, ◌==◌, if◌then◌else◌,
}
use ledger_namada.Reader.{
  unexpected_characters, Reader, Bytes, ◌>>=◌, ◌>>◌, pure, read_byte, read_bytes, skip, expect_end,
  hash_len,
}
use ledger_namada.Address.{AddressAlt, read_address_alt}
use ledger_namada.Crypto.{Library, codes, encode_alt_address}

-- tokens_t: an array of 49 bytes, zero behind the text, and the symbol
abbrev pub nam_tokens : List (String × String)
nam_tokens =
    ("tnam1qye0m4890at9r92pfyf3948fpzgryfzweg2v95fs", "NAM ")
    ∷ ("tnam1qx3jyxy292rlqu40syq3nfnlgtsusyewkcuyddhp", "BTC ")
    ∷ ("tnam1q8dug9yu52tzz3mmn976574fj7yfl4yj0qynxvrk", "ETH ")
    ∷ ("tnam1q8d2xskmexg9j9yvfda7cwy48vy8wrmwsuw5lxtv", "DOT ")
    ∷ ("tnam1q8qy9puaq5plu2csa4gk3l2fpl5vc4r2ccxqjhqk", "Schnitzel ")
    ∷ ("tnam1q9zsxkpuk4sle4lhfcfnu5fdep8fy3n2aqufyc97", "Apfel ")
    ∷ ("tnam1qyev25082t47tqxmj4gd4c07d3pm9t6rnc7jgwyq", "Kartoffel ")
    ∷ []

abbrev pub address_len_testnet : ℕ
address_len_testnet = 49

-- The first 49 bytes of a zeroed array that a text was written into.
abbrev pub address_field : List ℕ → List ℕ
address_field text = take address_len_testnet (text ++ replicate address_len_testnet 0)

unfoldable pub find_token : List ℕ → List (String × String) → Option String
find_token address [] = none
find_token address ((token, symbol) ∷ rest) =
    if eq_list (address_field address) (address_field (codes token))
    then some symbol
    else find_token address rest

-- tx_transfer_t, as far as it is read; of shielded_hash only the length is stored
pub record Transfer : Type 0 where
  pub source_address : AddressAlt
  pub target_address : AddressAlt
  pub token : AddressAlt
  pub amount : Bytes
  pub amount_denom : ℕ
  pub symbol : Option String
  pub has_shielded_hash : ℕ
  pub shielded_hash_len : ℕ

module _ (lib : Library) where
  unfoldable pub read_token : AddressAlt → Reader (Option String)
  read_token token = do address ← encode_alt_address lib token; pure (find_token address nam_tokens)

  unfoldable pub read_transfer_txn : Reader Transfer
  read_transfer_txn = do
    source_address ← read_address_alt
    target_address ← read_address_alt
    token ← read_address_alt
    symbol ← read_token token
    amount ← read_bytes 32
    amount_denom ← read_byte
    has_shielded_hash ← read_byte
    if has_shielded_hash == 0
        then (do
          expect_end unexpected_characters
          pure (record {
            source_address = source_address;
            target_address = target_address;
            token = token;
            amount = amount;
            amount_denom = amount_denom;
            symbol = symbol;
            has_shielded_hash = has_shielded_hash;
            shielded_hash_len = 0;
          }))
        else (do
          skip hash_len
          expect_end unexpected_characters
          pure (record {
            source_address = source_address;
            target_address = target_address;
            token = token;
            amount = amount;
            amount_denom = amount_denom;
            symbol = symbol;
            has_shielded_hash = has_shielded_hash;
            shielded_hash_len = hash_len;
          }))

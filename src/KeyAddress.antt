-- ===== src/KeyAddress.antt =====
-- The response of the address command: crypto_publicKeyHash_ed25519, crypto_encodeRawPubkey and
-- crypto_encodeAddress of app/src/crypto_helper.c, crypto_fillAddress_ed25519 and crypto_fillAddress of
-- app/src/crypto.c.
use Prim.Native.String.{String}
use ledger_namada.Common.{
  ℕ, ◌+◌, ◌-◌, Option, none, some, List, ◌∷◌, ◌++◌, take, length, ltb, leb, ◌==◌, ◌||◌,
  if◌then◌else◌,
}
use ledger_namada.Reader.{key_ed25519}
use ledger_namada.Signing.{extract_public_key}
use ledger_namada.Sdk.{Sdk}
use ledger_namada.Crypto.{second, hdpath_1_testnet}

-- `*output = len`, and the text behind it, if it fits.
abbrev pub with_length : ℕ → Option (List ℕ) → Option (List ℕ)
with_length output_len none = none
with_length output_len (some text) =
    if ltb 255 (length text) || leb output_len (length text)
    then none
    else some (length text ∷ text)

module _ (sdk : Sdk) (hd_path : List ℕ) where
  abbrev pub prefix_for : String → String → String
  prefix_for mainnet testnet = if second hd_path == hdpath_1_testnet then testnet else mainnet

  -- The prefix of an implicit address, and 20 bytes of the hash of the tagged key.
  unfoldable pub public_key_hash : List ℕ → Option (List ℕ)
  public_key_hash pubkey = elim (sdk.library.sha256 (0 ∷ pubkey)) [
    | none ↦ none
    | some pkh ↦ some (0 ∷ take 20 pkh)
  ]

  unfoldable pub encode_raw_pubkey : List ℕ → ℕ → Option (List ℕ)
  encode_raw_pubkey raw_pubkey output_len =
      with_length output_len (sdk.bech32_text (prefix_for "tpknam" "testtpknam") raw_pubkey)

  unfoldable pub encode_address : List ℕ → ℕ → Option (List ℕ)
  encode_address pubkey output_len = elim (public_key_hash pubkey) [
    | none ↦ none
    | some payload ↦ with_length output_len (sdk.bech32_text (prefix_for "tnam" "testtnam") payload)
  ]

  -- key, length and text of the key, length and text of the address
  unfoldable pub fill_address_ed25519 : ℕ → Option (List ℕ)
  fill_address_ed25519 buffer_len =
      if ltb buffer_len (33 + 70 + 49 + 2) then none else elim (extract_public_key sdk hd_path) [
        | none ↦ none
        | some key ↦ elim (encode_raw_pubkey (key_ed25519 ∷ key) (buffer_len - 33)) [
          | none ↦ none
          | some pubkey ↦ elim (encode_address key (buffer_len - 33 - length pubkey)) [
            | none ↦ none
            | some address ↦ some (key_ed25519 ∷ key ++ (pubkey ++ address))
          ]
        ]
      ]

-- ===== src/Sdk.antt =====
-- What app/src/crypto.c, crypto_helper.c and tx_hash.c call: the device's SDK (key derivation,
-- ed25519, BLAKE2b), the copy of BLAKE2s and the curve arithmetic of app/rust. It is a parameter.
use Prim.Native.String.{String}
use ledger_namada.Common.{ℕ, Bool, Option, List}
use ledger_namada.Crypto.{Library}

-- The constant points of constant_key_t that the application names.
pub data Generator : Type 0 where
  spending_key_generator proof_generation_key_generator : Generator
  value_commitment_randomness_generator : Generator

-- `none` is an error. The functions of app/rust answer parser_ok on every input.
pub record Sdk : Type 0 where
  pub library : Library
  -- the size in bits, the personalization, the message
  pub blake2b : ℕ → List ℕ → List ℕ → Option (List ℕ)
  pub blake2s : List ℕ → List ℕ → List ℕ
  -- os_derive_bip32_with_seed_no_throw with HDW_ED25519_SLIP10 and with HDW_NORMAL
  pub derive_ed25519 : List ℕ → Option (List ℕ)
  pub derive_normal : List ℕ → Option (List ℕ)
  -- `W` of the public key of a private key, as a function of the index
  pub ed25519_pair : List ℕ → Option (ℕ → ℕ)
  pub ed25519_sign : List ℕ → List ℕ → Option (List ℕ)
  pub from_bytes_wide : List ℕ → List ℕ
  pub scalar_multiplication : List ℕ → Generator → List ℕ
  pub randomized_secret_from_seed : List ℕ → List ℕ → List ℕ
  pub compute_sbar : List ℕ → List ℕ → List ℕ → List ℕ
  pub add_points : List ℕ → List ℕ → List ℕ → List ℕ
  pub get_pkd : List ℕ → List ℕ → List ℕ
  -- get_default_diversifier_list: the start index that it leaves, and the four diversifiers
  pub diversifier_list : List ℕ → List ℕ → List ℕ × List ℕ
  pub is_valid_diversifier : List ℕ → Bool
  -- bech32EncodeFromBytes of ledger-zxlib, with a human-readable part
  pub bech32_text : String → List ℕ → Option (List ℕ)

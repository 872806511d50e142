-- ===== src/Crypto.antt =====
-- What the application hashes and encodes: the section hashes and the address encoding of
-- app/src/crypto_helper.c. SHA-256 and bech32m belong to the device's SDK and to ledger-zxlib, and
-- come as the record `Library`.
pub mod Payload
mod Tests
use Prim.Native.Char.{code}
use Prim.Native.String.{String}
use ledger_namada.Common.{
  ℕ, zero, suc, ◌+◌, ◌*◌, ◌/◌, ◌%◌, Option, none, some, List, [], ◌∷◌, ◌++◌, take, replicate, ◌==◌,
  if◌then◌else◌,
}
use ledger_namada.Reader.{
  value_out_of_range, unexpected_error, Reader, Bytes, Ptr, null, buf, hash_of, no_bytes, ◌>>=◌,
  pure, fail,
}
use ledger_namada.Address.{AddressAlt, InternalAddress}

-- `none` is an error of the library. bech32m takes the human readable part and the bytes;
-- `derivation_path` is hdPath, which the command set.
pub record Library : Type 0 where
  pub sha256 : List ℕ → Option (List ℕ)
  pub bech32m : List ℕ → List ℕ → Option (List ℕ)
  pub derivation_path : List ℕ

abbrev pub on_path : List ℕ → Library → Library
on_path path lib = record lib { derivation_path = path }

abbrev pub hdpath_1_testnet : ℕ
hdpath_1_testnet = 0x80000001

-- hdPath[1]
abbrev pub second : List ℕ → ℕ
second (a ∷ b ∷ rest) = b
second _ = 0

-- The bytes of an ASCII text.
abbrev pub codes : String → List ℕ
codes String.[] = []
codes (String.◌∷◌ c s) = code c ∷ codes s

-- The n bytes of a number, lowest first.
unfoldable pub le_bytes : ℕ → ℕ → List ℕ
le_bytes zero v = []
le_bytes (suc n) v = v % 256 ∷ le_bytes n (v / 256)

-- section_t
pub record Section : Type 0 where
  pub discriminant : ℕ
  pub salt : Bytes
  pub commitment_discriminant : ℕ
  pub bytes : Bytes
  pub bytes_hash : List ℕ
  pub tag : Bytes
  pub idx : ℕ

-- after MEMZERO
abbrev pub no_section : Section
no_section = record {
  discriminant = 0;
  salt = no_bytes;
  commitment_discriminant = 0;
  bytes = no_bytes;
  bytes_hash = replicate 32 0;
  tag = no_bytes;
  idx = 0;
}

-- has_tag, the length of the tag and the tag, the latter two where has_tag is 1
unfoldable pub tag_bytes : Bytes → List ℕ
tag_bytes tag = elim tag.ptr [
  | null ↦ 0 ∷ []
  | buf p ↦ 1 ∷ le_bytes 4 tag.len ++ tag.content
  | hash_of i ↦ 1 ∷ le_bytes 4 tag.len ++ tag.content
]

module _ (lib : Library) where
  -- crypto_computeCodeHash
  unfoldable pub compute_code_hash : Section → Option Section
  compute_code_hash s =
      if s.commitment_discriminant == 0 then some s else elim (lib.sha256 s.bytes.content) [
        | none ↦ none
        | some h ↦ some (record s { bytes_hash = h })
      ]

  unfoldable pub hash_extra_data_section : Section → Option (List ℕ)
  hash_extra_data_section s =
      lib.sha256 (s.discriminant ∷ (s.salt.content ++ (s.bytes_hash ++ tag_bytes s.tag)))

  unfoldable pub hash_data_section : Section → Option (List ℕ)
  hash_data_section s =
      lib.sha256 (s.discriminant ∷ (s.salt.content ++ (le_bytes 4 s.bytes.len ++ s.bytes.content)))

  unfoldable pub hash_code_section : Section → Option (List ℕ)
  hash_code_section s =
      lib.sha256 (s.discriminant ∷ (s.salt.content ++ (s.bytes_hash ++ tag_bytes s.tag)))

-- The PREFIX_* constants of app/src/parser_address.h by the tag of an internal address. A tag that
-- the switch does not know leaves tmpBuffer zeroed.
unfoldable pub internal_prefix : ℕ → ℕ
internal_prefix tag =
    if tag == 0
    then 2
    else if tag == 1
    then 3
    else if tag == 2
    then 4
    else if tag == 3
    then 6
    else if tag == 4
    then 13
    else if tag == 5
    then 5
    else if tag == 6
    then 7
    else if tag == 7
    then 8
    else if tag == 8
    then 11
    else if tag == 9
    then 12
    else if tag == 10
    then 9
    else if tag == 11
    then 10
    else if tag == 12
    then 14
    else if tag == 13
    then 15
    else 0

-- The cases that copy 20 bytes behind the prefix.
unfoldable pub internal_body : InternalAddress → List ℕ
internal_body a =
    if a.tag == 4
    then take 20 a.token.content
    else if a.tag == 8
    then take 20 a.token.content
    else if a.tag == 9
    then take 20 a.token.content
    else replicate 20 0

-- tmpBuffer of crypto_encodeAltAddress
unfoldable pub address_payload : AddressAlt → Option (List ℕ)
address_payload a =
    if a.tag == 0
    then some (1 ∷ take 20 a.hash.content)
    else if a.tag == 1
    then some (0 ∷ take 20 a.hash.content)
    else if a.tag == 2
    then some (internal_prefix a.internal.tag ∷ internal_body a.internal)
    else none

module _ (lib : Library) where
  abbrev pub address_hrp : List ℕ
  address_hrp =
      codes (if second lib.derivation_path == hdpath_1_testnet then "testtnam" else "tnam")

  unfoldable pub encode_alt_address : AddressAlt → Reader (List ℕ)
  encode_alt_address a = elim (address_payload a) [
    | none ↦ fail value_out_of_range
    | some payload ↦ elim (lib.bech32m address_hrp payload) [
      | none ↦ fail unexpected_error
      | some text ↦ pure text
    ]
  ]

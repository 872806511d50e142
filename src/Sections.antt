-- ===== src/Sections.antt =====
-- The sections of a transaction: readSalt, readDataSection, readExtraDataSection, readCodeSection and
-- readSignatureSection of app/src/parser_impl_txn.c; readSections is in Sections/All.
pub mod All
pub mod Safe
pub mod Authentic
use ledger_namada.Common.{
  ℕ, zero, suc, ◌+◌, ◌*◌, ◌%◌, ◌^◌, Bool, true, false, not, ◌&&◌, ◌||◌, Option, none, some, List,
  [], ◌∷◌, set, take, replicate, eq_list, ltb, leb, ◌==◌, if◌then◌else◌,
}
use ledger_namada.Reader.{
  value_out_of_range, unexpected_value, unexpected_error, unexpected_field, invalid_output_buffer,
  Reader, Bytes, no_bytes, ◌>>=◌, ◌>>◌, pure, fail, reject_if, read_byte, read_bytes, read_uint32,
  peek, position, get_offset, skip, hash_len, key_ed25519, key_secp256k1, pk_len_25519,
  compressed_secp256k1_pk_len,
}
use ledger_namada.Address.{AddressAlt, no_address, read_address_alt}
use ledger_namada.Crypto.{
  Library, Section, no_section, compute_code_hash, hash_data_section, hash_code_section,
}
use ledger_namada.Txn.Fields.{Span, no_span, extend, distance, read_text, read_checked_text}
use ledger_namada.Txn.Validator.{max_extra_data_secs}
use ledger_namada.Txn.Linked.{hash_or_error}
use ledger_namada.Header.{Header}
use ledger_namada.Masp.Bundle.{MaspTx, read_masp_tx}
use ledger_namada.Masp.Builder.{MaspBuilderSection, RandCounts, read_masp_builder}

abbrev pub salt_len : ℕ
salt_len = 8

unfoldable pub read_salt : Reader Bytes
read_salt = read_bytes salt_len

-- The section's contents or, where the commitment is by hash, the 32 bytes of the hash.
unfoldable pub read_hash_array : Reader (List ℕ)
read_hash_array = do h ← read_bytes hash_len; pure h.content

abbrev pub or_unexpected_error {ℓ} : {A : Type ℓ} → Option A → Reader A
or_unexpected_error none = fail unexpected_error
or_unexpected_error (some a) = pure a

-- signature_section_t; `hashes` is a mut_bytes_t with a length of 32 bits
pub record SignatureSection : Type 0 where
  pub idx : ℕ
  pub hashes_count : ℕ
  pub hashes_len : ℕ
  pub hashes : Bytes
  pub signer_discriminant : ℕ
  pub address : AddressAlt
  pub address_bytes : Span
  pub pub_keys_len : ℕ
  pub pub_keys : Span
  pub signatures_len : ℕ
  pub indexed_signatures : Span

abbrev pub no_signature : SignatureSection
no_signature = record {
  idx = 0;
  hashes_count = 0;
  hashes_len = 0;
  hashes = no_bytes;
  signer_discriminant = 0;
  address = no_address;
  address_bytes = no_span;
  pub_keys_len = 0;
  pub_keys = no_span;
  signatures_len = 0;
  indexed_signatures = no_span;
}

abbrev pub bad_key_tag : ℕ → Bool
bad_key_tag tag = not (tag == key_ed25519) && not (tag == key_secp256k1)

-- The loop over the public keys: a tag and the key.
unfoldable pub read_signer_keys : ℕ → Span → Reader Span
read_signer_keys zero keys = pure keys
read_signer_keys (suc n) keys = do
  tag ← read_byte
  reject_if (bad_key_tag tag) unexpected_value
  key ← read_bytes (if tag == key_ed25519 then pk_len_25519 else compressed_secp256k1_pk_len)
  read_signer_keys n (extend (extend keys 1) key.len)

abbrev pub ed25519_signature_size : ℕ
ed25519_signature_size = 64

abbrev pub sig_secp256k1_len : ℕ
sig_secp256k1_len = 65

-- The loop over the signatures: an index byte that is skipped unchecked, a tag, the signature.
unfoldable pub read_signatures : ℕ → Span → Reader Span
read_signatures zero sigs = pure sigs
read_signatures (suc n) sigs = do
  skip 1
  tag ← read_byte
  reject_if (bad_key_tag tag) unexpected_value
  sig ← read_bytes (if tag == key_ed25519 then ed25519_signature_size else sig_secp256k1_len)
  read_signatures n (extend (extend (extend sigs 1) 1) sig.len)

-- signerDiscriminant, address, addressBytes, pubKeysLen and pubKeys
pub record Signer : Type 0 where
  pub address : AddressAlt
  pub address_bytes : Span
  pub pub_keys_len : ℕ
  pub pub_keys : Span

-- The cases PubKeys (1) and Address (0); readBytes of length 0 sets the pointer.
unfoldable pub read_signer : ℕ → Reader Signer
read_signer discriminant =
    if discriminant == 1
    then (do
      n ← read_uint32
      start ← read_bytes 0
      keys ← read_signer_keys n (record { ptr = start.ptr; len = 0 })
      pure (record {
        address = no_address;
        address_bytes = no_span;
        pub_keys_len = n;
        pub_keys = keys;
      }))
    else if discriminant == 0
    then (do
      start ← position
      start_offset ← get_offset
      address ← read_address_alt
      offset ← get_offset
      pure (record {
        address = address;
        address_bytes = record { ptr = start; len = distance start_offset offset };
        pub_keys_len = 0;
        pub_keys = no_span;
      }))
    else fail unexpected_value

abbrev pub discriminant_data : ℕ
discriminant_data = 0

abbrev pub discriminant_extra_data : ℕ
discriminant_extra_data = 1

abbrev pub discriminant_code : ℕ
discriminant_code = 2

abbrev pub discriminant_signature : ℕ
discriminant_signature = 3

-- The length of the hashes is HASH_LEN * hashesLen on 32 bits, and readBytes takes 16 bits of it.
unfoldable pub read_signature_section : Reader SignatureSection
read_signature_section = do
  discriminant ← read_byte
  reject_if (not (discriminant == discriminant_signature)) unexpected_value
  count ← read_uint32
  let len = hash_len * count % 2 ^ 32
  hashes ← read_bytes (len % 2 ^ 16)
  signer_discriminant ← read_byte
  signer ← read_signer signer_discriminant
  signatures_len ← read_uint32
  start ← read_bytes 0
  signatures ← read_signatures signatures_len (record { ptr = start.ptr; len = 0 })
  pure (record {
    idx = 0;
    hashes_count = count;
    hashes_len = len;
    hashes = hashes;
    signer_discriminant = signer_discriminant;
    address = signer.address;
    address_bytes = signer.address_bytes;
    pub_keys_len = signer.pub_keys_len;
    pub_keys = signer.pub_keys;
    signatures_len = signatures_len;
    indexed_signatures = signatures;
  })

module _ (lib : Library) where
  -- The tag is read by the block of readCheckedText; `was` is the array element written over.
  unfoldable pub read_extra_data_section : Section → Reader Section
  read_extra_data_section was = do
    discriminant ← read_byte
    reject_if (not (discriminant == discriminant_extra_data)) unexpected_value
    salt ← read_salt
    commitment ← read_byte
    bytes ← (if commitment == 0 then pure was.bytes else read_text)
    bytes_hash ← (if commitment == 0 then read_hash_array else pure was.bytes_hash)
    tag ← read_checked_text
    or_unexpected_error (
        compute_code_hash lib (record {
          discriminant = discriminant;
          salt = salt;
          commitment_discriminant = commitment;
          bytes = bytes;
          bytes_hash = bytes_hash;
          tag = tag;
          idx = was.idx;
        }))

  unfoldable pub read_data_section : Header → Section → Reader Section
  read_data_section header was = do
    discriminant ← read_byte
    reject_if (not (discriminant == discriminant_data)) unexpected_value
    salt ← read_salt
    bytes ← read_text
    let s : Section = record was { discriminant = discriminant; salt = salt; bytes = bytes }
    h ← hash_or_error (hash_data_section lib s)
    reject_if (not (eq_list h header.data_hash.content)) unexpected_value
    pure s

  -- The length of inline code is a uint32_t that is cut to 16 bits with no test.
  unfoldable pub read_code_section : Header → Section → Reader Section
  read_code_section header was = do
    discriminant ← read_byte
    reject_if (not (discriminant == discriminant_code)) unexpected_value
    salt ← read_salt
    commitment ← read_byte
    bytes ←
        (if commitment == 0
          then pure was.bytes
          else (do bytes_len ← read_uint32; read_bytes (bytes_len % 2 ^ 16)))
    bytes_hash ← (if commitment == 0 then read_hash_array else pure was.bytes_hash)
    tag ← read_checked_text
    let s : Section = record {
      discriminant = discriminant;
      salt = salt;
      commitment_discriminant = commitment;
      bytes = bytes;
      bytes_hash = bytes_hash;
      tag = tag;
      idx = was.idx;
    }
    h ← hash_or_error (hash_code_section lib s)
    reject_if (not (eq_list h header.code_hash.content)) unexpected_value
    pure s

-- ===== src/Signing.antt =====
-- The hashes and signatures of a transparent transaction: crypto_extractPublicKey_ed25519,
-- crypto_sign_ed25519, crypto_hashFeeHeader, crypto_hashRawHeader and crypto_hashSigSection of
-- app/src/crypto.c.
pub mod Response
pub mod Outcomes
pub mod Entries
pub mod Growth
pub mod Eligible
pub mod Copied
pub mod Output
pub mod Tests
use mathlib.Core.Option
use ledger_namada.Common.{
  ℕ, zero, suc, ◌+◌, ◌-◌, ◌*◌, ◌%◌, ◌^◌, Bool, true, false, Option, none, some, List, [], ◌∷◌, ◌++◌,
  take, replicate, ltb, leb, eq_list, length, ◌==◌, if◌then◌else◌, set, get_elem?,
}
use ledger_namada.Reader.{
  Bytes, Ptr, null, address_of, slice, key_ed25519, pk_len_25519, compressed_secp256k1_pk_len,
  hash_len,
}
use ledger_namada.Crypto.{
  Section, hash_extra_data_section, hash_data_section, hash_code_section, le_bytes,
}
use ledger_namada.Header.{Header}
use ledger_namada.Sections.{
  SignatureSection, bad_key_tag, ed25519_signature_size, sig_secp256k1_len, salt_len,
}
use ledger_namada.Txn.Fields.{Span}
use ledger_namada.Transaction.{ParserTx, TxData, of_init_account, of_update_vp, of_init_proposal}
use ledger_namada.Txn.Proposal.{default_with_wasm}
use ledger_namada.Sdk.{Sdk}

-- What a signing call answers: zxerr_ok with its result, an error, or no answer of the C code, since
-- it read a NULL pointer or wrote behind an array.
pub data Attempt (A : Type 0) : Type 0 where
  done : A → Attempt A
  failed : Attempt A
  bad_access : Attempt A

infixl 5 ◌>>=◌
abbrev pub ◌>>=◌ : {A B : Type 0} → Attempt A → (A → Attempt B) → Attempt B
done a >>= f = f a
failed >>= f = failed
bad_access >>= f = bad_access

-- CHECK_ZXERR and CHECK_CX_OK
abbrev pub checked : {A : Type 0} → Option A → Attempt A
checked none = failed
checked (some a) = done a

abbrev public_bytes : (ℕ → ℕ) → ℕ → List ℕ
public_bytes w zero = []
public_bytes w (suc n) = w (33 + n) % 256 ∷ public_bytes w n

-- pubKey[i] = W[64 - i] for the 32 bytes, and the parity of W[32] in the top bit of the last.
abbrev pub public_key : (ℕ → ℕ) → List ℕ
public_key w =
    take 31 (public_bytes w 32) ++ (if w 32 % 2 == 0 then w 33 % 256 else w 33 % 128 + 128) ∷ []

module _ (sdk : Sdk) where
  abbrev pub pair_key : Option (List ℕ) → Option (List ℕ)
  pair_key none = none
  pair_key (some private) = Option.map public_key (sdk.ed25519_pair (take 32 private))

  unfoldable pub extract_public_key : List ℕ → Option (List ℕ)
  extract_public_key hd_path = pair_key (sdk.derive_ed25519 hd_path)

  abbrev pub signed_by : List ℕ → Option (List ℕ) → Option (List ℕ)
  signed_by message none = none
  signed_by message (some private) = sdk.ed25519_sign (take 32 private) message

  unfoldable pub sign_ed25519 : List ℕ → List ℕ → Option (List ℕ)
  sign_ed25519 hd_path message = signed_by message (sdk.derive_ed25519 hd_path)

-- signature_section_t as crypto_hashSigSection reads it: a pointer is the function from an offset to
-- the byte there.
pub record SignedSection : Type 0 where
  pub hashes_count : ℕ
  pub hashes : List ℕ
  pub signer_discriminant : ℕ
  pub address_bytes : List ℕ
  pub pub_keys_len : ℕ
  pub pub_keys : ℕ → ℕ
  pub signatures_len : ℕ
  pub indexed_signatures : ℕ → ℕ

-- A section that was read before. Its hashes are looked at for HASH_LEN * hashesLen bytes.
abbrev pub at_span : (ℕ → ℕ) → Span → ℕ → ℕ
at_span mem s i = mem (address_of s.ptr + i)

unfoldable pub as_signed : (ℕ → ℕ) → SignatureSection → SignedSection
as_signed mem s = record {
  hashes_count = s.hashes_count;
  hashes = slice mem (address_of s.hashes.ptr) (hash_len * s.hashes_count % 2 ^ 32);
  signer_discriminant = s.signer_discriminant;
  address_bytes = slice mem (address_of s.address_bytes.ptr) s.address_bytes.len;
  pub_keys_len = s.pub_keys_len;
  pub_keys = at_span mem s.pub_keys;
  signatures_len = s.signatures_len;
  indexed_signatures = at_span mem s.indexed_signatures;
}

-- The loop over the public keys: the final `pos`, from one where a tag is read.
unfoldable pub walk_keys : (ℕ → ℕ) → ℕ → ℕ → Option ℕ
walk_keys p zero pos = some pos
walk_keys p (suc n) pos =
    let tag = p pos % 256 in
    let size = if tag == key_ed25519 then pk_len_25519 else compressed_secp256k1_pk_len in
    let rest = walk_keys p n ((pos + 1 + size) % 2 ^ 32) in if bad_key_tag tag then none else rest

-- The loop over the signatures: an index, a tag, the signature.
unfoldable pub walk_signatures : (ℕ → ℕ) → ℕ → ℕ → Option ℕ
walk_signatures p zero pos = some pos
walk_signatures p (suc n) pos =
    let tag = p (pos + 1) % 256 in
    let size = if tag == key_ed25519 then ed25519_signature_size else sig_secp256k1_len in
    let rest = walk_signatures p n ((pos + 2 + size) % 2 ^ 32) in
    if bad_key_tag tag then none else rest

-- The bytes that the switch on signerDiscriminant adds to the hash.
unfoldable pub signer_bytes : SignedSection → Option (List ℕ)
signer_bytes s =
    if s.signer_discriminant == 1
    then elim (walk_keys s.pub_keys s.pub_keys_len 0) [
      | none ↦ none
      | some pos ↦ some (le_bytes 4 s.pub_keys_len ++ slice s.pub_keys 0 pos)
    ]
    else if s.signer_discriminant == 0
    then some s.address_bytes
    else none

-- Everything that crypto_hashSigSection hands to SHA-256; a NULL prefix is [].
unfoldable pub signed_bytes : List ℕ → SignedSection → Option (List ℕ)
signed_bytes prefix s = elim (signer_bytes s) [
  | none ↦ none
  | some signer ↦ elim (walk_signatures s.indexed_signatures s.signatures_len 0) [
    | none ↦ none
    | some pos ↦ some (
        prefix
        ++ (le_bytes 4 s.hashes_count
            ++ (s.hashes
                ++ (s.signer_discriminant % 256
                    ∷ (signer
                        ++ (le_bytes 4 s.signatures_len ++ slice s.indexed_signatures 0 pos))))))
  ]
]

abbrev pub discriminant_header : ℕ
discriminant_header = 0x06

abbrev pub span_bytes : (ℕ → ℕ) → Span → List ℕ
span_bytes mem s = slice mem (address_of s.ptr) s.len

module _ (sdk : Sdk) where
  unfoldable pub hash_fee_header : (ℕ → ℕ) → Header → Option (List ℕ)
  hash_fee_header mem h = sdk.library.sha256 (discriminant_header ∷ span_bytes mem h.ext_bytes)

  unfoldable pub hash_raw_header : (ℕ → ℕ) → Header → Option (List ℕ)
  hash_raw_header mem h =
      sdk.library.sha256 (discriminant_header ∷ (span_bytes mem h.bytes ++ 0x00 ∷ []))

  unfoldable pub hash_sig_section : List ℕ → SignedSection → Option (List ℕ)
  hash_sig_section prefix s = elim (signed_bytes prefix s) [
    | none ↦ none
    | some bytes ↦ sdk.library.sha256 bytes
  ]

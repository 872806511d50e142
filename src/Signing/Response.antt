-- ===== src/Signing/Response.antt =====
-- crypto_addTxnHashes and crypto_sign of app/src/crypto.c.
use ledger_namada.Common.{
  ℕ, zero, suc, ◌+◌, ◌*◌, ◌%◌, Bool, true, false, Option, none, some, List, [], ◌∷◌, ◌++◌, take,
  replicate, ltb, leb, eq_list, length, if◌then◌else◌, set, get_elem?,
}
use ledger_namada.Reader.{Bytes, null, address_of, slice, key_ed25519, hash_len}
use ledger_namada.Crypto.{Section, hash_extra_data_section, hash_data_section, hash_code_section}
use ledger_namada.Sections.{SignatureSection, salt_len}
use ledger_namada.Transaction.{ParserTx, TxData, of_init_account, of_update_vp, of_init_proposal}
use ledger_namada.Txn.Proposal.{default_with_wasm}
use ledger_namada.Sdk.{Sdk}
use ledger_namada.Signing.{
  Attempt, done, failed, bad_access, ◌>>=◌, checked, SignedSection, as_signed, extract_public_key,
  sign_ed25519, hash_fee_header, hash_raw_header, hash_sig_section,
}

-- A slot of hashes_buffer and of indices_buffer.
pub record Entry : Type 0 where
  pub idx : ℕ
  pub hash : List ℕ

abbrev pub max_signature_hashes : ℕ
max_signature_hashes = 10

-- hashes_buffer[hashesLen] = hash, indices_buffer[hashesLen] = idx, hashesLen++
unfoldable pub add_entry : ℕ → List ℕ → List Entry → Attempt (List Entry)
add_entry idx hash es =
    if leb max_signature_hashes (length es)
    then bad_access
    else done (es ++ record { idx = idx; hash = hash } ∷ [])

-- MEMCPY of HASH_LEN bytes from a pointer that was read, or is NULL
abbrev pub add_read_entry : ℕ → Bytes → List Entry → Attempt (List Entry)
add_read_entry idx b es = elim b.ptr [ null ↦ bad_access | _ ↦ add_entry idx b.content es ]

unfoldable pub add_txn_hashes : TxData → List Entry → Attempt (List Entry)
add_txn_hashes (of_init_account t) es = add_read_entry t.vp.vp_type_secidx t.vp_type_sechash es
add_txn_hashes (of_update_vp t) es = add_read_entry t.vp.vp_type_secidx t.vp_type_sechash es
add_txn_hashes (of_init_proposal t) es = do
  es' ← add_read_entry t.links.content_secidx t.content_sechash es
  elim t.body [
    | default_with_wasm code_sechash ↦ add_read_entry t.links.proposal_code_secidx code_sechash es'
    | _ ↦ done es'
  ]
add_txn_hashes t es = done es

-- The byte of a local buffer at an offset.
abbrev pub byte_at : List ℕ → ℕ → ℕ
byte_at [] i = 0
byte_at (x ∷ xs) zero = x
byte_at (x ∷ xs) (suc i) = byte_at xs i

abbrev pub all_hashes : List Entry → List ℕ
all_hashes [] = []
all_hashes (e ∷ es) = e.hash ++ all_hashes es

abbrev pub all_indices : List Entry → List ℕ
all_indices [] = []
all_indices (e ∷ es) = e.idx ∷ all_indices es

-- signature_section over the hashes so far: one key or none, one signature or none.
abbrev pub own_section : List ℕ → List Entry → ℕ → List ℕ → SignedSection
own_section pubkey es count signature = record {
  hashes_count = length es;
  hashes = all_hashes es;
  signer_discriminant = 1;
  address_bytes = [];
  pub_keys_len = count;
  pub_keys = byte_at pubkey;
  signatures_len = count;
  indexed_signatures = byte_at signature;
}

-- The loop on k: memcmp does not look at k. `same` is its answer.
unfoldable pub is_known_hash : Bool → ℕ → Bool
is_known_hash same zero = false
is_known_hash same (suc n) = if same then true else is_known_hash same n

-- The loop on j, which does not look at j either.
unfoldable pub knows_hashes : Bool → ℕ → ℕ → Bool
knows_hashes same known zero = true
knows_hashes same known (suc n) =
    if is_known_hash same known then knows_hashes same known n else false

unfoldable pub is_eligible : (ℕ → ℕ) → SignatureSection → List Entry → Bool
is_eligible mem s es =
    knows_hashes
      (eq_list (slice mem (address_of s.hashes.ptr) hash_len) (take hash_len (all_hashes es)))
      (length es) s.hashes_count

module _ (sdk : Sdk) (mem : ℕ → ℕ) where
  -- One round: a section that is not eligible is passed over.
  unfoldable pub add_signature_hash : SignatureSection → List Entry → Attempt (List Entry)
  add_signature_hash s es =
      if is_eligible mem s es
      then (do
        hash ← checked (hash_sig_section sdk (0x03 ∷ []) (as_signed mem s))
        add_entry s.idx hash es)
      else done es

  -- The loop over the signature sections that were read, from the index i on.
  unfoldable pub add_signature_hashes :
      List SignatureSection → ℕ → ℕ → List Entry → Attempt (List Entry)
  add_signature_hashes signatures zero i es = done es
  add_signature_hashes signatures (suc n) i es = elim (get_elem? signatures i) [
    | none ↦ bad_access
    | some s ↦ (do es' ← add_signature_hash s es; add_signature_hashes signatures n (i + 1) es')
  ]

  unfoldable pub add_memo_hash : List Section → Option ℕ → List Entry → Attempt (List Entry)
  add_memo_hash extra none es = done es
  add_memo_hash extra (some i) es = elim (get_elem? extra i) [
    | none ↦ bad_access
    | some memo ↦ (do
      hash ← checked (hash_extra_data_section sdk.library memo)
      add_entry memo.idx hash es)
  ]

  -- The hashes that the wrapper signs: those of the raw signature section, the code, the data, the
  -- memo and the eligible signature sections behind the ones that the raw signature is over.
  unfoldable pub add_section_hashes : ParserTx → List ℕ → List Entry → Attempt (List Entry)
  add_section_hashes tx raw_hash es = do
    with_raw ← add_entry ((tx.sections.section_len + 1) % 256) raw_hash es
    code ← checked (hash_code_section sdk.library tx.sections.code)
    with_code ← add_entry tx.sections.code.idx code with_raw
    dat ← checked (hash_data_section sdk.library tx.sections.data_section)
    with_data ← add_entry tx.sections.data_section.idx dat with_code
    with_memo ← add_memo_hash tx.sections.extra_data tx.memo_section with_data
    add_signature_hashes tx.sections.signatures tx.sections.signatures_len 0 with_memo

-- The wrapper's header hash replaces the raw one in the first slot.
abbrev pub with_fee_header : List ℕ → List Entry → List Entry
with_fee_header fee es = set es 0 (record { idx = 0; hash = fee })

-- The response: key, salt, raw signature, salt, wrapper signature, and the two lists of indices.
abbrev pub response_bytes : List ℕ → List ℕ → List ℕ → List Entry → List Entry → List ℕ
response_bytes pubkey raw wrapper own es =
    pubkey
    ++ (replicate salt_len 0
        ++ (0 ∷ raw
            ++ (replicate salt_len 0
                ++ (0 ∷ wrapper
                    ++ (length own ∷ all_indices own ++ (length es ∷ all_indices es))))))

abbrev pub minimum_buffer_size : ℕ
minimum_buffer_size = 33 + 2 * salt_len + 2 * 65 + 2 + 10

module _ (sdk : Sdk) (hd_path : List ℕ) where
  -- The signature over the hash of an unsigned section.
  unfoldable pub sign_entries : List ℕ → List Entry → Attempt (List ℕ)
  sign_entries pubkey es = do
    hash ← checked (hash_sig_section sdk [] (own_section pubkey es 0 []))
    checked (sign_ed25519 sdk hd_path hash)

  -- The bytes behind outputLen are not the call's.
  unfoldable pub crypto_sign : (ℕ → ℕ) → ParserTx → ℕ → Attempt (List ℕ)
  crypto_sign mem tx output_len = if ltb output_len minimum_buffer_size then failed else (do
    key ← checked (extract_public_key sdk hd_path)
    let pubkey = key_ed25519 ∷ key
    raw_header ← checked (hash_raw_header sdk mem tx.header)
    own ← add_txn_hashes tx.tx_data (record { idx = 255; hash = raw_header } ∷ [])
    raw ← sign_entries pubkey own
    raw_hash ←
        checked
          (hash_sig_section sdk (0x03 ∷ []) (own_section pubkey own 1 (0 ∷ key_ed25519 ∷ raw)))
    es ← add_section_hashes sdk mem tx raw_hash own
    fee ← checked (hash_fee_header sdk mem tx.header)
    let signed = with_fee_header fee es
    wrapper ← sign_entries pubkey signed
    let response = response_bytes pubkey raw wrapper own signed
    if ltb output_len (length response) then bad_access else done response)

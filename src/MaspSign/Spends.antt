-- ===== src/MaspSign/Spends.antt =====
-- crypto_check_masp, h_star, sign_sapling_spend, crypto_sign_spends_sapling, crypto_sign_masp and
-- crypto_extract_spend_signature of app/src/crypto.c.
use ledger_namada.Common.{
  ℕ, zero, suc, ◌+◌, ◌%◌, not, Option, none, some, List, ◌++◌, replicate, ltb, ◌==◌, if◌then◌else◌,
}
use ledger_namada.Reader.{
  invalid_number_of_spends, invalid_number_of_outputs, Outcome, ok, err, fault, ◌>>◌, reject_if,
  hash_len,
}
use ledger_namada.Crypto.{codes, le_bytes}
use ledger_namada.NvData.{
  NvData, ZxErr, zxerr_ok, zxerr_unknown, spendlist_retrieve_rand_item, spend_signatures_append,
  spend_signatures_more_extract, get_next_spend_signature,
}
use ledger_namada.Masp.Bundle.{MaspTx}
use ledger_namada.Masp.Builder.{MaspBuilderSection}
use ledger_namada.TxHash.{signature_hash}
use ledger_namada.MaspKeys.{Keys, blake2b_output_len, sapling_keys}
use ledger_namada.Sdk.{Sdk, spending_key_generator}
use ledger_namada.MaspSign.{
  over, over_span, check_spends_loop, check_outputs_loop, check_converts_loop, number_of,
  random_bytes, signature_size,
}

module _ (sdk : Sdk) (mem : ℕ → ℕ) (tx : MaspTx) (b : MaspBuilderSection) where
  unfoldable pub check_spends : NvData → Keys → Outcome (Unit {0})
  check_spends nv keys =
      (do
        reject_if (not (b.builder.sapling_builder.n_spends == tx.sapling_bundle.n_shielded_spends))
            invalid_number_of_spends
        check_spends_loop sdk nv keys b.builder.sapling_builder.n_spends 0
            (over mem tx.sapling_bundle.shielded_spends))
        (over_span mem b.builder.sapling_builder.spends)

  unfoldable pub check_outputs : NvData → Outcome (Unit {0})
  check_outputs nv =
      (do
        reject_if (not (b.builder.sapling_builder.n_outputs == b.metadata.n_outputs_indices))
            invalid_number_of_outputs
        check_outputs_loop sdk nv b.metadata.n_outputs_indices 0
            (over mem tx.sapling_bundle.shielded_outputs) (over mem b.metadata.outputs_indices))
        (over_span mem b.builder.sapling_builder.outputs)

  unfoldable pub check_converts : NvData → Outcome (Unit {0})
  check_converts nv =
      (do
        reject_if
            (not (b.builder.sapling_builder.n_converts == tx.sapling_bundle.n_shielded_converts))
            invalid_number_of_outputs
        check_converts_loop sdk nv b.builder.sapling_builder.n_converts 0
            (over mem tx.sapling_bundle.shielded_converts))
        (over_span mem b.builder.sapling_builder.converts)

-- CHECK_PARSER_OK of three calls in order.
abbrev pub all_ok :
    Outcome (Unit {0}) → Outcome (Unit {0}) → Outcome (Unit {0}) → Outcome (Unit {0})
all_ok (ok u c) (ok v d) third = third
all_ok (ok u c) (err e) third = err e
all_ok (ok u c) fault third = fault
all_ok (err e) second third = err e
all_ok fault second third = fault

module _ (sdk : Sdk) where
  unfoldable pub check_masp :
      (ℕ → ℕ) → MaspTx → MaspBuilderSection → NvData → Keys → Outcome (Unit {0})
  check_masp mem tx b nv keys =
      all_ok (check_spends sdk mem tx b nv keys) (check_outputs sdk mem tx b nv)
        (check_converts sdk mem tx b nv)

  -- `none` is a failed assertion of the SDK's BLAKE2b.
  unfoldable pub h_star : List ℕ → List ℕ → Option (List ℕ)
  h_star a m = elim (sdk.blake2b blake2b_output_len (codes "MASP__RedJubjubH") (a ++ m)) [
    | none ↦ none
    | some hash ↦ some (sdk.from_bytes_wide hash)
  ]

  -- rbar and sbar; `rng` is what the generator answers.
  unfoldable pub sign_sapling_spend : List ℕ → List ℕ → List ℕ → List ℕ → Option (List ℕ)
  sign_sapling_spend ask alpha sign_hash rng =
      let rsk = sdk.randomized_secret_from_seed ask alpha in
      let m = sdk.scalar_multiplication rsk spending_key_generator ++ sign_hash in
      elim (h_star rng m) [
        | none ↦ none
        | some r ↦
            let rbar = sdk.scalar_multiplication r spending_key_generator in
            elim (h_star rbar m) [ none ↦ none | some s ↦ some (rbar ++ sdk.compute_sbar s r rsk) ]
      ]

  -- n rounds from the index i on, with the random bytes of each. `none` in front is an access through
  -- a NULL item; the stored values are those after the call, errors included.
  unfoldable pub sign_spends_loop :
      Keys → List ℕ → (ℕ → List ℕ) → ℕ → ℕ → NvData → Option (NvData × ZxErr)
  sign_spends_loop keys sign_hash rng zero i nv = some (nv, zxerr_ok)
  sign_spends_loop keys sign_hash rng (suc n) i nv =
      elim (spendlist_retrieve_rand_item (i % 256) nv) [
        | none ↦ none
        | some item ↦
            elim (sign_sapling_spend keys.ask (random_bytes item.alpha) sign_hash (rng i)) [
              | none ↦ some (nv, zxerr_unknown)
              | some signature ↦
                  let (nv', answer) = spend_signatures_append (number_of signature) nv in
                  elim answer [
                    | zxerr_ok ↦ sign_spends_loop keys sign_hash rng n (i + 1) nv'
                    | zxerr_unknown ↦ some (nv', zxerr_unknown)
                  ]
            ]
      ]

  -- A hash that could not be made stays zero: its error is dropped.
  unfoldable pub sign_spends_sapling :
      (ℕ → ℕ) → MaspTx → MaspBuilderSection → Keys → (ℕ → List ℕ) → NvData → Option (NvData × ZxErr)
  sign_spends_sapling mem tx b keys rng nv =
      if tx.sapling_bundle.n_shielded_spends == 0
      then some (nv, zxerr_ok)
      else (let sign_hash : List ℕ = elim (signature_hash sdk mem tx) [
        | none ↦ replicate hash_len 0
        | some h ↦ h
      ] in
          sign_spends_loop keys sign_hash rng b.builder.sapling_builder.n_spends 0 nv)

  -- After the checks: the signatures, and SHA-256 of the uploaded transaction as the response.
  abbrev pub sign_checked :
      Outcome (Unit {0})
      → Option (NvData × ZxErr)
      → NvData
      → Option (List ℕ)
      → Option (NvData × Option (List ℕ))
  sign_checked (ok u c) none nv hash = none
  sign_checked (ok u c) (some (nv', zxerr_ok)) nv hash = some (nv', hash)
  sign_checked (ok u c) (some (nv', zxerr_unknown)) nv hash = some (nv', none)
  sign_checked (err e) signed nv hash = some (nv, none)
  sign_checked fault signed nv hash = none

  unfoldable pub crypto_sign_masp :
      ℕ
      → List ℕ
      → (ℕ → ℕ)
      → MaspTx
      → MaspBuilderSection
      → List ℕ
      → (ℕ → List ℕ)
      → ℕ
      → NvData
      → Option (NvData × Option (List ℕ))
  crypto_sign_masp fuel hd_path mem tx b uploaded rng output_len nv =
      if ltb output_len signature_size
      then some (nv, none)
      else elim (sapling_keys sdk fuel hd_path) [
        | none ↦ some (nv, none)
        | some keys ↦
            sign_checked (check_masp mem tx b nv keys) (sign_spends_sapling mem tx b keys rng nv) nv
              (sdk.library.sha256 uploaded)
      ]

-- crypto_extract_spend_signature
unfoldable pub extract_spend_signature : NvData → NvData × Option (List ℕ)
extract_spend_signature nv =
    if spend_signatures_more_extract nv
    then (let (nv', answer) = get_next_spend_signature nv in
        (nv', elim answer [ none ↦ none | some s ↦ some (le_bytes signature_size s) ]))
    else (nv, none)

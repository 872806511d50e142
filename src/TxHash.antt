-- ===== src/TxHash.antt =====
-- The hash of a shielded transaction: app/src/tx_hash.c and signature_hash of app/src/signhash.c, over
-- BLAKE2b. `mem` is the memory that the pointers of the parsed bundles lead to.
pub mod Signed
use Prim.Native.String.{String}
use ledger_namada.Common.{
  ℕ, zero, suc, ◌+◌, ◌-◌, ◌%◌, ◌^◌, Option, none, some, List, [], ◌∷◌, ◌++◌, ◌==◌, if◌then◌else◌,
}
use ledger_namada.Reader.{Bytes, address_of, slice}
use ledger_namada.Crypto.{codes, le_bytes}
use ledger_namada.Masp.Bundle.{
  MaspTx, SaplingBundle, TransparentBundle, shielded_spends_len, shielded_converts_len,
  shielded_outputs_len, asset_id_len, anchor_len, txout_auth_len,
}
use ledger_namada.Sdk.{Sdk}

abbrev pub cv_len : ℕ
cv_len = 32

abbrev pub nullifier_len : ℕ
nullifier_len = 32

abbrev pub rk_len : ℕ
rk_len = 32

abbrev pub cmu_len : ℕ
cmu_len = 32

abbrev pub epk_len : ℕ
epk_len = 32

abbrev pub enc_cipher_len : ℕ
enc_cipher_len = 612

abbrev pub out_cipher_len : ℕ
out_cipher_len = 80

abbrev pub compact_note_size : ℕ
compact_note_size = 52

abbrev pub note_plaintext_size : ℕ
note_plaintext_size = 564

-- The bytes that a loop adds for n elements of a size, from the address p on.
unfoldable pub add_rows : (ℕ → List ℕ) → ℕ → ℕ → ℕ → List ℕ
add_rows row size zero p = []
add_rows row size (suc n) p = row p ++ add_rows row size n (p + size)

module _ (sdk : Sdk) where
  -- A hash of 256 bits with a personalization.
  abbrev pub tx_hash : String → List ℕ → Option (List ℕ)
  tx_hash personalization = sdk.blake2b 256 (codes personalization)

  -- Two digests, and a hash over them.
  abbrev pub join_two :
      (List ℕ → Option (List ℕ)) → Option (List ℕ) → Option (List ℕ) → Option (List ℕ)
  join_two h (some a) (some b) = h (a ++ b)
  join_two h _ _ = none

  abbrev pub join_three :
      (List ℕ → Option (List ℕ))
      → Option (List ℕ)
      → Option (List ℕ)
      → Option (List ℕ)
      → Option (List ℕ)
  join_three h (some a) (some b) (some c) = h (a ++ (b ++ c))
  join_three h _ _ _ = none

  unfoldable pub tx_hash_header_data : MaspTx → Option (List ℕ)
  tx_hash_header_data tx = tx_hash "ZTxIdHeadersHash" (
      le_bytes 4 tx.tx_version
      ++ (le_bytes 4 tx.version_group_id
          ++ (le_bytes 4 tx.consensus_branch_id
              ++ (le_bytes 4 tx.lock_time ++ le_bytes 4 tx.expiry_height))))

  module _ (mem : ℕ → ℕ) where
    -- An element of the transparent inputs: asset, value and address.
    abbrev input_row : ℕ → List ℕ
    input_row p = slice mem p asset_id_len ++ (slice mem (p + 32) 8 ++ slice mem (p + 40) 20)

    unfoldable pub tx_hash_transparent_inputs : TransparentBundle → Option (List ℕ)
    tx_hash_transparent_inputs b = tx_hash "ZTxIdInputs_Hash" (
        if b.n_vin == 0
        then []
        else add_rows input_row txout_auth_len b.n_vin (address_of b.vin.ptr))

    unfoldable pub tx_hash_transparent_outputs : TransparentBundle → Option (List ℕ)
    tx_hash_transparent_outputs b = tx_hash "ZTxIdOutputsHash" (
        if b.n_vout == 0
        then []
        else add_rows (λ p. slice mem p txout_auth_len) txout_auth_len b.n_vout
            (address_of b.vout.ptr))

    -- The nullifiers, and the rest of each spend with the anchor, are hashed apart.
    unfoldable pub tx_hash_sapling_spends : SaplingBundle → Option (List ℕ)
    tx_hash_sapling_spends b =
        if b.n_shielded_spends == 0
        then tx_hash "ZTxIdSSpendsHash" []
        else join_two (tx_hash "ZTxIdSSpendsHash")
            (tx_hash "ZTxIdSSpendCHash" (
              add_rows (λ p. slice mem (p + cv_len) nullifier_len) shielded_spends_len
                b.n_shielded_spends (address_of b.shielded_spends.ptr)))
            (tx_hash "ZTxIdSSpendNHash" (
              add_rows
                (λ p.
                  slice mem p cv_len
                  ++ (slice mem (address_of b.anchor_shielded_spends.ptr) anchor_len
                      ++ slice mem (p + cv_len + nullifier_len) rk_len))
                shielded_spends_len b.n_shielded_spends (address_of b.shielded_spends.ptr)))

    unfoldable pub tx_hash_sapling_converts : SaplingBundle → Option (List ℕ)
    tx_hash_sapling_converts b = tx_hash "ZTxIdConvertHash" (
        if b.n_shielded_converts == 0
        then []
        else add_rows
            (λ p.
              slice mem p cv_len
              ++ slice mem (address_of b.anchor_shielded_converts.ptr) anchor_len)
            shielded_converts_len b.n_shielded_converts (address_of b.shielded_converts.ptr))

    -- The lengths are the code's: EPK_OFFSET bytes from EPK_OFFSET on, NOTE_PLAINTEXT_SIZE bytes behind
    -- the compact note, and then a difference that wraps on a 32-bit size_t.
    unfoldable pub tx_hash_sapling_outputs : SaplingBundle → Option (List ℕ)
    tx_hash_sapling_outputs b =
        let over : (ℕ → List ℕ) → List ℕ = λ row.
          add_rows row shielded_outputs_len b.n_shielded_outputs
            (address_of b.shielded_outputs.ptr) in
        let enc : ℕ = cv_len + cmu_len + epk_len in
        if b.n_shielded_outputs == 0
        then tx_hash "ZTxIdSOutputHash" []
        else join_three (tx_hash "ZTxIdSOutputHash")
            (tx_hash "ZTxIdSOutC__Hash" (
              over (λ p.
                slice mem (p + cv_len) cmu_len
                ++ (slice mem (p + (cv_len + cmu_len)) (cv_len + cmu_len)
                    ++ slice mem (p + enc) compact_note_size))))
            (tx_hash "ZTxIdSOutM__Hash"
              (over (λ p. slice mem (p + enc + compact_note_size) note_plaintext_size)))
            (tx_hash "ZTxIdSOutN__Hash" (
              over (λ p.
                slice mem p cv_len
                ++ (slice mem (p + enc + compact_note_size + note_plaintext_size) (
                      (enc_cipher_len + 2 ^ 32 - (compact_note_size + note_plaintext_size))
                      % 2 ^ 32)
                    ++ slice mem (p + enc + enc_cipher_len) out_cipher_len))))

    -- The three calls are of the functions over transparent inputs and outputs.
    unfoldable pub tx_hash_sapling_data : MaspTx → Option (List ℕ)
    tx_hash_sapling_data tx =
        join_three (tx_hash "ZTxIdSOutputHash") (tx_hash_transparent_inputs tx.transparent_bundle)
          (tx_hash_transparent_outputs tx.transparent_bundle)
          (tx_hash_transparent_outputs tx.transparent_bundle)

    unfoldable pub tx_hash_transparent_data : MaspTx → Option (List ℕ)
    tx_hash_transparent_data tx =
        join_two (tx_hash "ZTxIdSOutputHash") (tx_hash_transparent_inputs tx.transparent_bundle)
          (tx_hash_transparent_outputs tx.transparent_bundle)

    -- The personalization ends in CONSENSUS_BRANCH_ID.
    unfoldable pub signature_hash : MaspTx → Option (List ℕ)
    signature_hash tx =
        join_three (sdk.blake2b 256 (codes "ZcashTxHash_" ++ 0xe9 ∷ 0xff ∷ 0x75 ∷ 0xa6 ∷ []))
          (tx_hash_header_data tx) (tx_hash_transparent_data tx) (tx_hash_sapling_data tx)

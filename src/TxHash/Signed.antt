-- ===== src/TxHash/Signed.antt =====
-- What signature_hash of app/src/signhash.c depends on.
use ledger_namada.Common.{ℕ, ◌≡◌, refl}
use ledger_namada.Masp.Bundle.{MaspTx, SaplingBundle}
use ledger_namada.Sdk.{Sdk}
use ledger_namada.TxHash.{
  signature_hash, tx_hash_sapling_data, tx_hash_transparent_data, tx_hash_header_data,
}

-- The hash that the spend signatures are over does not depend on the sapling bundle: two transactions
-- that differ only in their shielded spends, converts, outputs, anchors and proofs have the same hash.
pub signature_hash-sapling_bundle :
    (sdk : Sdk) (mem : ℕ → ℕ) (tx : MaspTx) (b : SaplingBundle)
    → signature_hash sdk mem (record tx { sapling_bundle = b }) ≡ signature_hash sdk mem tx
unfolding signature_hash tx_hash_sapling_data tx_hash_transparent_data tx_hash_header_data
signature_hash-sapling_bundle sdk mem tx b = refl

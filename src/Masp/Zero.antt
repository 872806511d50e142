-- ===== src/Masp/Zero.antt =====
-- masp_tx_data_t and masp_builder_section_t of app/src/parser_txdef.h after MEMZERO.
use ledger_namada.Reader.{no_bytes}
use ledger_namada.Txn.Fields.{no_span}
use ledger_namada.Masp.Bundle.{MaspTx}
use ledger_namada.Masp.Builder.{no_asset, MaspBuilderSection}

abbrev pub no_masp_tx : MaspTx
no_masp_tx = record {
  tx_version = 0;
  version_group_id = 0;
  consensus_branch_id = 0;
  lock_time = 0;
  expiry_height = 0;
  transparent_bundle = record { n_vin = 0; vin = no_bytes; n_vout = 0; vout = no_bytes };
  sapling_bundle = record {
    n_shielded_spends = 0;
    n_shielded_converts = 0;
    n_shielded_outputs = 0;
    shielded_spends = no_bytes;
    shielded_converts = no_bytes;
    shielded_outputs = no_bytes;
    n_value_sum_asset_type = 0;
    value_sum_asset_type = no_bytes;
    anchor_shielded_spends = no_bytes;
    anchor_shielded_converts = no_bytes;
    zkproof_shielded_spends = no_bytes;
    auth_sig_shielded_spends = no_bytes;
    zkproof_shielded_converts = no_bytes;
    authorization = no_bytes;
  };
}

abbrev pub no_masp_builder : MaspBuilderSection
no_masp_builder = record {
  target_hash = no_bytes;
  n_asset_type = 0;
  asset_data = no_asset;
  metadata = record {
    n_spends_indices = 0;
    n_converts_indices = 0;
    n_outputs_indices = 0;
    spends_indices = no_bytes;
    converts_indices = no_bytes;
    outputs_indices = no_bytes;
  };
  builder = record {
    target_height = 0;
    expiry_height = 0;
    transparent_builder = record { n_inputs = 0; inputs = no_bytes; n_vout = 0; vout = no_bytes };
    sapling_builder = record {
      has_spend_anchor = 0;
      spend_anchor = no_bytes;
      target_height = 0;
      n_value_sum_asset_type = 0;
      value_sum_asset_type = no_bytes;
      has_convert_anchor = 0;
      convert_anchor = no_bytes;
      n_spends = 0;
      n_converts = 0;
      n_outputs = 0;
      spends = no_span;
      converts = no_span;
      outputs = no_span;
    };
  };
}

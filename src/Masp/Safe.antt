-- ===== src/Masp/Safe.antt =====
-- The readers of app/src/parser_impl_masp.c against the predicate of memory safety.
use ledger_namada.Common.{ℕ, zero, suc}
use ledger_namada.Reader.{Reader}
use ledger_namada.Reader.Safe.{Safe, safe_rules, Safe-bind, Safe-pure}
use ledger_namada.Masp.Bundle.{
  read_compact_size, read_array, read_some_array, read_sapling_bundle, read_transparent_bundle,
  read_masp_tx,
}
use ledger_namada.Masp.Builder.{
  AssetData, RandCounts, read_sapling_metadata, read_internal_address, read_asset_token,
  read_asset_data, read_assets, read_transparent_builder, read_spend_description,
  read_convert_description, read_output_description, repeat_reader, read_descriptions,
  read_sapling_builder, read_builder, read_masp_builder,
}

module _ {slack : ℕ} where
  pub Safe-read_compact_size : Safe slack read_compact_size
  unfolding read_compact_size
  Safe-read_compact_size = search safe_rules depth 8

  pub Safe-read_array : (size n : ℕ) → Safe slack (read_array size n)
  unfolding read_array
  Safe-read_array size n = search safe_rules

  pub Safe-read_some_array : (size n : ℕ) → Safe slack (read_some_array size n)
  unfolding read_some_array
  Safe-read_some_array size n = search (safe_rules, Safe-read_array)

ruleset array_rules = (safe_rules, Safe-read_compact_size, Safe-read_array, Safe-read_some_array)

module _ {slack : ℕ} where
  Safe-read_sapling_bundle : Safe slack read_sapling_bundle
  unfolding read_sapling_bundle
  Safe-read_sapling_bundle = search array_rules depth 24

  Safe-read_transparent_bundle : Safe slack read_transparent_bundle
  unfolding read_transparent_bundle
  Safe-read_transparent_bundle = search array_rules depth 9

  -- readMaspTx looks at no byte outside the buffer (and `slack` bytes behind it, for any `slack`) and
  -- is inside the buffer where it succeeds.
  pub Safe-read_masp_tx : Safe slack read_masp_tx
  unfolding read_masp_tx
  Safe-read_masp_tx =
      search (safe_rules, Safe-read_transparent_bundle, Safe-read_sapling_bundle) depth 20

  Safe-read_sapling_metadata : Safe slack read_sapling_metadata
  unfolding read_sapling_metadata
  Safe-read_sapling_metadata = search array_rules depth 12

  Safe-read_internal_address : Safe slack read_internal_address
  unfolding read_internal_address
  Safe-read_internal_address = search safe_rules

  Safe-read_asset_token : (d : ℕ) → Safe slack (read_asset_token d)
  unfolding read_asset_token
  Safe-read_asset_token d = search (safe_rules, Safe-read_internal_address)

  Safe-read_asset_data : Safe slack read_asset_data
  unfolding read_asset_data
  Safe-read_asset_data = search (safe_rules, Safe-read_asset_token) depth 12

  Safe-read_assets : (n : ℕ) (asset : AssetData) → Safe slack (read_assets n asset)
  unfolding read_assets
  Safe-read_assets zero asset = Safe-pure asset
  Safe-read_assets (suc n) asset = Safe-bind _ _ Safe-read_asset_data (λ a. Safe-read_assets n a)

  Safe-read_transparent_builder : Safe slack read_transparent_builder
  unfolding read_transparent_builder
  Safe-read_transparent_builder = search array_rules depth 9

  Safe-read_spend_description : Safe slack read_spend_description
  unfolding read_spend_description
  Safe-read_spend_description = search array_rules depth 12

  Safe-read_convert_description : Safe slack read_convert_description
  unfolding read_convert_description
  Safe-read_convert_description = search array_rules depth 12

  Safe-read_output_description : Safe slack read_output_description
  unfolding read_output_description
  Safe-read_output_description = search array_rules depth 12

  Safe-repeat_reader : (m : Reader Unit) (n : ℕ) → Safe slack m → Safe slack (repeat_reader m n)
  unfolding repeat_reader
  Safe-repeat_reader m zero h = Safe-pure tt
  Safe-repeat_reader m (suc n) h = Safe-bind _ _ h (λ a. Safe-repeat_reader m n h)

  Safe-read_descriptions :
      (m : Reader Unit) (n : ℕ) → Safe slack m → Safe slack (read_descriptions m n)
  unfolding read_descriptions
  Safe-read_descriptions m n h = search (safe_rules, Safe-repeat_reader) depth 9

ruleset description_rules = (
  array_rules, Safe-read_descriptions, Safe-read_spend_description, Safe-read_convert_description,
  Safe-read_output_description,
)

module _ {slack : ℕ} (rand : RandCounts) where
  Safe-read_sapling_builder : Safe slack (read_sapling_builder rand)
  unfolding read_sapling_builder
  Safe-read_sapling_builder = search description_rules depth 24

  Safe-read_builder : Safe slack (read_builder rand)
  unfolding read_builder
  Safe-read_builder =
      search (safe_rules, Safe-read_transparent_builder, Safe-read_sapling_builder) depth 9

  -- readMaspBuilder looks at no byte outside the buffer (and `slack` bytes behind it, for any `slack`)
  -- and is inside the buffer where it succeeds, however many random values were made.
  pub Safe-read_masp_builder : Safe slack (read_masp_builder rand)
  unfolding read_masp_builder
  Safe-read_masp_builder =
      search (safe_rules, Safe-read_assets, Safe-read_sapling_metadata, Safe-read_builder) depth 14

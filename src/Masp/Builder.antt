-- ===== src/Masp/Builder.antt =====
-- readMaspBuilder of app/src/parser_impl_masp.c and what it calls
use ledger_namada.Common.{ℕ, zero, suc, ◌*◌, ◌+◌, not, ◌||◌, ◌==◌, if◌then◌else◌}
use ledger_namada.Reader.{
  unexpected_value, invalid_number_of_spends, invalid_number_of_converts, Reader, Bytes, no_bytes,
  ◌>>=◌, ◌>>◌, pure, reject_if, read_byte, read_bytes, read_uint32, read_uint64, position,
  get_offset, hash_len,
}
use ledger_namada.Txn.Fields.{Span, distance}
use ledger_namada.Masp.Bundle.{
  read_compact_size, read_array, read_some_array, asset_id_len, int_128_len, anchor_len,
  txout_auth_len,
}

-- masp_sapling_metadata_t
pub record SaplingMetadata : Type 0 where
  pub n_spends_indices : ℕ
  pub n_converts_indices : ℕ
  pub n_outputs_indices : ℕ
  pub spends_indices : Bytes
  pub converts_indices : Bytes
  pub outputs_indices : Bytes

unfoldable pub read_sapling_metadata : Reader SaplingMetadata
read_sapling_metadata = do
  spends ← read_uint32
  spends_indices ← read_some_array 8 spends
  converts ← read_uint32
  converts_indices ← read_some_array 8 converts
  outputs ← read_uint32
  outputs_indices ← read_some_array 8 outputs
  pure (record {
    n_spends_indices = spends;
    n_converts_indices = converts;
    n_outputs_indices = outputs;
    spends_indices = spends_indices;
    converts_indices = converts_indices;
    outputs_indices = outputs_indices;
  })

-- readInternalAddress: any tag but 4, 8 and 9 has nothing behind it.
unfoldable pub read_internal_address : Reader Bytes
read_internal_address = do
  tag ← read_byte
  if tag == 4 || (tag == 8 || tag == 9) then read_bytes 20 else pure no_bytes

-- masp_asset_data_t
pub record AssetData : Type 0 where
  pub token_discriminant : ℕ
  pub token : Bytes
  pub denom : ℕ
  pub position : ℕ
  pub has_epoch : ℕ
  pub epoch : ℕ

unfoldable pub read_asset_token : ℕ → Reader Bytes
read_asset_token discriminant =
    if discriminant == 0
    then read_bytes 20
    else if discriminant == 1
    then read_bytes 20
    else if discriminant == 2
    then read_internal_address
    else pure no_bytes

unfoldable pub read_asset_data : Reader AssetData
read_asset_data = do
  token_discriminant ← read_byte
  token ← read_asset_token token_discriminant
  denom ← read_byte
  place ← read_byte
  has_epoch ← read_byte
  epoch ← (if has_epoch == 0 then pure 0 else read_uint64)
  pure (record {
    token_discriminant = token_discriminant;
    token = token;
    denom = denom;
    position = place;
    has_epoch = has_epoch;
    epoch = epoch;
  })

-- asset_data before the first entry
abbrev pub no_asset : AssetData
no_asset = record {
  token_discriminant = 0;
  token = no_bytes;
  denom = 0;
  position = 0;
  has_epoch = 0;
  epoch = 0;
}

-- All entries are read into one asset_data, so the last one stays. In the C code an entry without a token
-- or an epoch leaves those of the entry before, which nothing reads.
unfoldable pub read_assets : ℕ → AssetData → Reader AssetData
read_assets zero asset = pure asset
read_assets (suc n) asset = do next ← read_asset_data; read_assets n next

-- masp_transparent_builder_t
pub record TransparentBuilder : Type 0 where
  pub n_inputs : ℕ
  pub inputs : Bytes
  pub n_vout : ℕ
  pub vout : Bytes

unfoldable pub read_transparent_builder : Reader TransparentBuilder
read_transparent_builder = do
  n_inputs ← read_uint32
  inputs ← read_some_array txout_auth_len n_inputs
  n_vout ← read_uint32
  vout ← read_some_array txout_auth_len n_vout
  pure (record { n_inputs = n_inputs; inputs = inputs; n_vout = n_vout; vout = vout })

abbrev pub extended_fvk_len : ℕ
extended_fvk_len = 169

abbrev pub diversifier_len : ℕ
diversifier_len = 11

abbrev pub note_len : ℕ
note_len = 137

abbrev pub out_note_len : ℕ
out_note_len = 32 + 8 + 32 + 32

abbrev pub ovk_len : ℕ
ovk_len = 32

abbrev pub payment_addr_len : ℕ
payment_addr_len = 32

abbrev pub memo_len : ℕ
memo_len = 512

-- The body of the loop in readSpendDescriptionInfo.
unfoldable pub read_spend_description : Reader (Unit {0})
read_spend_description = do
  fvk ← read_bytes extended_fvk_len
  diversifier ← read_bytes diversifier_len
  note ← read_bytes note_len
  path_len ← read_byte
  path ← read_bytes (path_len * (32 + 1))
  place ← read_uint64
  pure tt

-- The body of the loop in readConvertDescriptionInfo.
unfoldable pub read_convert_description : Reader (Unit {0})
read_convert_description = do
  n ← read_compact_size
  assets ← read_array (asset_id_len + int_128_len) n
  value ← read_uint64
  path_len ← read_byte
  path ← read_bytes (path_len * (32 + 1))
  place ← read_uint64
  pure tt

-- The body of the loop in readSaplingOutputDescriptionInfo.
unfoldable pub read_output_description : Reader (Unit {0})
read_output_description = do
  has_ovk ← read_byte
  ovk ← (if has_ovk == 0 then pure no_bytes else read_bytes ovk_len)
  diversifier ← read_bytes diversifier_len
  payment_addr ← read_bytes payment_addr_len
  note ← read_bytes out_note_len
  memo ← read_bytes memo_len
  pure tt

unfoldable pub repeat_reader : Reader (Unit {0}) → ℕ → Reader (Unit {0})
repeat_reader m zero = pure tt
repeat_reader m (suc n) = do m; repeat_reader m n

-- The span over n descriptions: the pointer before the loop, the distance after it.
unfoldable pub read_descriptions : Reader (Unit {0}) → ℕ → Reader Span
read_descriptions m n = do
  start ← position
  tmp_offset ← get_offset
  repeat_reader m n
  offset ← get_offset
  pure (record { ptr = start; len = distance tmp_offset offset })

-- masp_sapling_builder_t, as far as it is read
pub record SaplingBuilder : Type 0 where
  pub has_spend_anchor : ℕ
  pub spend_anchor : Bytes
  pub target_height : ℕ
  pub n_value_sum_asset_type : ℕ
  pub value_sum_asset_type : Bytes
  pub has_convert_anchor : ℕ
  pub convert_anchor : Bytes
  pub n_spends : ℕ
  pub n_converts : ℕ
  pub n_outputs : ℕ
  pub spends : Span
  pub converts : Span
  pub outputs : Span

-- transaction_get_n_spends() and transaction_get_n_converts()
pub record RandCounts : Type 0 where
  pub n_spends : ℕ
  pub n_converts : ℕ

-- masp_builder_t
pub record MaspBuilder : Type 0 where
  pub target_height : ℕ
  pub expiry_height : ℕ
  pub transparent_builder : TransparentBuilder
  pub sapling_builder : SaplingBuilder

-- masp_builder_section_t, as far as it is read
pub record MaspBuilderSection : Type 0 where
  pub target_hash : Bytes
  pub n_asset_type : ℕ
  pub asset_data : AssetData
  pub metadata : SaplingMetadata
  pub builder : MaspBuilder

abbrev pub discriminant_masp_builder : ℕ
discriminant_masp_builder = 5

-- The build for a device: the numbers of spends and converts must be those of the random values
-- that the device has handed out.
module _ (rand : RandCounts) where
  unfoldable pub read_sapling_builder : Reader SaplingBuilder
  read_sapling_builder = do
    has_spend_anchor ← read_byte
    spend_anchor ← (if has_spend_anchor == 0 then pure no_bytes else read_bytes anchor_len)
    target_height ← read_uint32
    value_sums ← read_compact_size
    value_sum_asset_type ← read_array (asset_id_len + int_128_len) value_sums
    has_convert_anchor ← read_byte
    convert_anchor ← (if has_convert_anchor == 0 then pure no_bytes else read_bytes anchor_len)
    n_spends ← read_uint32
    reject_if (not (rand.n_spends == n_spends)) invalid_number_of_spends
    spends ← read_descriptions read_spend_description n_spends
    n_converts ← read_uint32
    reject_if (not (rand.n_converts == n_converts)) invalid_number_of_converts
    converts ← read_descriptions read_convert_description n_converts
    n_outputs ← read_uint32
    outputs ← read_descriptions read_output_description n_outputs
    pure (record {
      has_spend_anchor = has_spend_anchor;
      spend_anchor = spend_anchor;
      target_height = target_height;
      n_value_sum_asset_type = value_sums;
      value_sum_asset_type = value_sum_asset_type;
      has_convert_anchor = has_convert_anchor;
      convert_anchor = convert_anchor;
      n_spends = n_spends;
      n_converts = n_converts;
      n_outputs = n_outputs;
      spends = spends;
      converts = converts;
      outputs = outputs;
    })

  unfoldable pub read_builder : Reader MaspBuilder
  read_builder = do
    target_height ← read_uint32
    expiry_height ← read_uint32
    transparent_builder ← read_transparent_builder
    sapling_builder ← read_sapling_builder
    pure (record {
      target_height = target_height;
      expiry_height = expiry_height;
      transparent_builder = transparent_builder;
      sapling_builder = sapling_builder;
    })

  unfoldable pub read_masp_builder : Reader MaspBuilderSection
  read_masp_builder = do
    discriminant ← read_byte
    reject_if (not (discriminant == discriminant_masp_builder)) unexpected_value
    target_hash ← read_bytes hash_len
    n_asset_type ← read_uint32
    asset_data ← read_assets n_asset_type no_asset
    metadata ← read_sapling_metadata
    builder ← read_builder
    pure (record {
      target_hash = target_hash;
      n_asset_type = n_asset_type;
      asset_data = asset_data;
      metadata = metadata;
      builder = builder;
    })

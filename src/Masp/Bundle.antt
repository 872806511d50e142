-- ===== src/Masp/Bundle.antt =====
-- readCompactSize, the bundles and readMaspTx of app/src/parser_impl_masp.c
use ledger_namada.Common.{ℕ, ◌*◌, ◌+◌, ◌%◌, ◌^◌, not, ◌||◌, ◌==◌, if◌then◌else◌}
use ledger_namada.Reader.{
  unexpected_value, Reader, Bytes, no_bytes, ◌>>=◌, ◌>>◌, pure, reject_if, read_byte, read_bytes,
  read_uint16, read_uint32, read_uint64,
}

unfoldable pub read_compact_size : Reader ℕ
read_compact_size = do
  tag ← read_byte
  if tag == 253
      then read_uint16
      else if tag == 254
      then read_uint32
      else if tag == 255
      then read_uint64
      else pure tag

-- `len = size * n` on the uint16_t of a bytes_t, and readBytes of that length
unfoldable pub read_array : ℕ → ℕ → Reader Bytes
read_array size n = read_bytes (size * n % 2 ^ 16)

-- The same if there are elements.
unfoldable pub read_some_array : ℕ → ℕ → Reader Bytes
read_some_array size n = if n == 0 then pure no_bytes else read_array size n

abbrev pub shielded_spends_len : ℕ
shielded_spends_len = 96

abbrev pub shielded_converts_len : ℕ
shielded_converts_len = 32

abbrev pub shielded_outputs_len : ℕ
shielded_outputs_len = 788

abbrev pub asset_id_len : ℕ
asset_id_len = 32

abbrev pub int_128_len : ℕ
int_128_len = 16

abbrev pub anchor_len : ℕ
anchor_len = 32

abbrev pub zkproff_len : ℕ
zkproff_len = 192

abbrev pub auth_sig_len : ℕ
auth_sig_len = 64

abbrev pub txout_auth_len : ℕ
txout_auth_len = 60

-- masp_sapling_bundle_t, as far as it is read
pub record SaplingBundle : Type 0 where
  pub n_shielded_spends : ℕ
  pub n_shielded_converts : ℕ
  pub n_shielded_outputs : ℕ
  pub shielded_spends : Bytes
  pub shielded_converts : Bytes
  pub shielded_outputs : Bytes
  pub n_value_sum_asset_type : ℕ
  pub value_sum_asset_type : Bytes
  pub anchor_shielded_spends : Bytes
  pub anchor_shielded_converts : Bytes
  pub zkproof_shielded_spends : Bytes
  pub auth_sig_shielded_spends : Bytes
  pub zkproof_shielded_converts : Bytes
  pub authorization : Bytes

-- Where there are outputs, their proofs are stored over those of the spends.
unfoldable pub read_sapling_bundle : Reader SaplingBundle
read_sapling_bundle = do
  spends ← read_compact_size
  shielded_spends ← read_some_array shielded_spends_len spends
  converts ← read_compact_size
  shielded_converts ← read_some_array shielded_converts_len converts
  outputs ← read_compact_size
  shielded_outputs ← read_some_array shielded_outputs_len outputs
  let any = not (spends == 0) || (not (outputs == 0) || not (converts == 0))
  value_sums ← (if any then read_compact_size else pure 0)
  value_sum_asset_type ←
      (if any then read_array (asset_id_len + int_128_len) value_sums else pure no_bytes)
  anchor_shielded_spends ← (if spends == 0 then pure no_bytes else read_bytes anchor_len)
  anchor_shielded_converts ← (if converts == 0 then pure no_bytes else read_bytes anchor_len)
  spend_proofs ← read_some_array zkproff_len spends
  auth_sig_shielded_spends ← read_some_array auth_sig_len spends
  zkproof_shielded_converts ← read_some_array zkproff_len converts
  zkproof_shielded_spends ←
      (if outputs == 0 then pure spend_proofs else read_array zkproff_len outputs)
  authorization ← (if any then read_bytes auth_sig_len else pure no_bytes)
  pure (record {
    n_shielded_spends = spends;
    n_shielded_converts = converts;
    n_shielded_outputs = outputs;
    shielded_spends = shielded_spends;
    shielded_converts = shielded_converts;
    shielded_outputs = shielded_outputs;
    n_value_sum_asset_type = value_sums;
    value_sum_asset_type = value_sum_asset_type;
    anchor_shielded_spends = anchor_shielded_spends;
    anchor_shielded_converts = anchor_shielded_converts;
    zkproof_shielded_spends = zkproof_shielded_spends;
    auth_sig_shielded_spends = auth_sig_shielded_spends;
    zkproof_shielded_converts = zkproof_shielded_converts;
    authorization = authorization;
  })

-- masp_transparent_bundle_t
pub record TransparentBundle : Type 0 where
  pub n_vin : ℕ
  pub vin : Bytes
  pub n_vout : ℕ
  pub vout : Bytes

-- TXIN_AUTH_LEN and TXOUT_AUTH_LEN are both 60.
unfoldable pub read_transparent_bundle : Reader TransparentBundle
read_transparent_bundle = do
  n_vin ← read_compact_size
  vin ← read_array txout_auth_len n_vin
  n_vout ← read_compact_size
  vout ← read_array txout_auth_len n_vout
  pure (record { n_vin = n_vin; vin = vin; n_vout = n_vout; vout = vout })

abbrev pub maspv5_tx_version : ℕ
maspv5_tx_version = 0x02

abbrev pub maspv5_version_group_id : ℕ
maspv5_version_group_id = 0x26a7270a

abbrev pub branch_id_identifier : ℕ
branch_id_identifier = 0xe9ff75a6

abbrev pub discriminant_masp_tx : ℕ
discriminant_masp_tx = 4

-- masp_tx_section_t and masp_tx_data_t, as far as they are read
pub record MaspTx : Type 0 where
  pub tx_version : ℕ
  pub version_group_id : ℕ
  pub consensus_branch_id : ℕ
  pub lock_time : ℕ
  pub expiry_height : ℕ
  pub transparent_bundle : TransparentBundle
  pub sapling_bundle : SaplingBundle

unfoldable pub read_masp_tx : Reader MaspTx
read_masp_tx = do
  discriminant ← read_byte
  reject_if (not (discriminant == discriminant_masp_tx)) unexpected_value
  tx_version ← read_uint32
  reject_if (not (tx_version == maspv5_tx_version)) unexpected_value
  version_group_id ← read_uint32
  reject_if (not (version_group_id == maspv5_version_group_id)) unexpected_value
  consensus_branch_id ← read_uint32
  reject_if (not (consensus_branch_id == branch_id_identifier)) unexpected_value
  lock_time ← read_uint32
  expiry_height ← read_uint32
  transparent_bundle ← read_transparent_bundle
  sapling_bundle ← read_sapling_bundle
  pure (record {
    tx_version = tx_version;
    version_group_id = version_group_id;
    consensus_branch_id = consensus_branch_id;
    lock_time = lock_time;
    expiry_height = expiry_height;
    transparent_bundle = transparent_bundle;
    sapling_bundle = sapling_bundle;
  })

-- ===== src/MaspKeys.antt =====
-- The keys of the shielded account: convertKey, generate_key, computeIVK, computeMasterFromSeed,
-- check_diversifier, computeDiversifier, computePkd, computeValueCommitment and computeRk of
-- app/src/crypto_helper.c, and crypto_computeSaplingSeed, computeKeys, copyKeys and crypto_fillMASP
-- of app/src/crypto.c.
pub mod Diversifier
use ledger_namada.Common.{
  ℕ, zero, suc, ◌+◌, ◌*◌, ◌%◌, Bool, true, false, Option, none, some, List, [], ◌∷◌, ◌++◌, take,
  replicate, ltb, ◌==◌, ◌&&◌, if◌then◌else◌,
}
use ledger_namada.Crypto.{codes, le_bytes}
use ledger_namada.Sdk.{
  Sdk, Generator, spending_key_generator, proof_generation_key_generator,
  value_commitment_randomness_generator,
}

abbrev pub key_length : ℕ
key_length = 32

abbrev pub diversifier_length : ℕ
diversifier_length = 11

abbrev pub blake2b_output_len : ℕ
blake2b_output_len = 512

-- keys_t, as far as it is read after computeKeys
pub record Keys : Type 0 where
  pub ask : List ℕ
  pub ak : List ℕ
  pub nsk : List ℕ
  pub nk : List ℕ
  pub ovk : List ℕ
  pub ivk : List ℕ
  pub diversifier : List ℕ
  pub address : List ℕ

abbrev pub skip_bytes : ℕ → List ℕ → List ℕ
skip_bytes zero xs = xs
skip_bytes (suc n) [] = []
skip_bytes (suc n) (x ∷ xs) = skip_bytes n xs

-- `ivk[31] &= 0x07`
abbrev pub mask_ivk : List ℕ → List ℕ
mask_ivk xs = take 31 xs ++ (elim (skip_bytes 31 xs) [ [] ↦ [] | b ∷ rest ↦ b % 8 ∷ [] ])

-- GH_FIRST_BLOCK
abbrev pub gh_first_block : List ℕ
gh_first_block = codes "096b36a5804bfacef1691e173c366a47ff5ba84a44f26ddd7e8d9f79d5b42df0"

abbrev pub reached_max_index : List ℕ → Bool
reached_max_index [] = true
reached_max_index (x ∷ xs) = x == 255 && reached_max_index xs

-- The `while` of computeDiversifier: the first valid diversifier, parser_diversifier_not_found, or
-- still running when the rounds are used up.
pub data Search : Type 0 where
  found : List ℕ → Search
  not_found : Search
  running : Search

module _ (sdk : Sdk) where
  unfoldable pub convert_key : List ℕ → ℕ → Bool → Option (List ℕ)
  convert_key spending_key modifier reduce_wide_byte =
      elim (sdk.blake2b blake2b_output_len (codes "MASP__ExpandSeed")
        (spending_key ++ modifier ∷ [])) [
          | none ↦ none
          | some output ↦
              some (if reduce_wide_byte then sdk.from_bytes_wide output else take key_length output)
        ]

  unfoldable pub generate_key : List ℕ → Generator → List ℕ
  generate_key expanded_key key_type = sdk.scalar_multiplication expanded_key key_type

  unfoldable pub compute_ivk : List ℕ → List ℕ → List ℕ
  compute_ivk ak nk = mask_ivk (sdk.blake2s (codes "MASP_ivk") (ak ++ nk))

  -- The hash has 64 bytes and the buffer of the caller 32: the rest lands in `ask`, which is computed
  -- later.
  unfoldable pub compute_master_from_seed : List ℕ → Option (List ℕ)
  compute_master_from_seed seed =
      elim (sdk.blake2b blake2b_output_len (codes "MASP_IP32Sapling") seed) [
        | none ↦ none
        | some master ↦ some (take key_length master)
      ]

  abbrev pub diversifier_hash : List ℕ → List ℕ
  diversifier_hash d = sdk.blake2s (codes "MASP__gd") (gh_first_block ++ d)

  unfoldable pub check_diversifier : List ℕ → Bool
  check_diversifier d = sdk.is_valid_diversifier (diversifier_hash d)

  -- The `for` over the four diversifiers of a list.
  unfoldable pub first_valid : ℕ → List ℕ → Option (List ℕ)
  first_valid zero list = none
  first_valid (suc n) list =
      let d = take diversifier_length list in
      let rest = first_valid n (skip_bytes diversifier_length list) in
      if check_diversifier d then some d else rest

  unfoldable pub compute_diversifier : ℕ → List ℕ → List ℕ → Search
  compute_diversifier zero dk start_index = running
  compute_diversifier (suc fuel) dk start_index =
      let (next, list) = sdk.diversifier_list dk start_index in
      let rest = compute_diversifier fuel dk next in
      if reached_max_index next
      then not_found
      else elim (first_valid 4 list) [ none ↦ rest | some d ↦ found d ]

  unfoldable pub compute_pkd : List ℕ → List ℕ → List ℕ
  compute_pkd ivk diversifier = sdk.get_pkd ivk (diversifier_hash diversifier)

  -- u64_to_bytes writes 32 bytes.
  unfoldable pub compute_value_commitment : ℕ → List ℕ → List ℕ → List ℕ
  compute_value_commitment value rcv identifier =
      sdk.add_points (sdk.blake2s (codes "MASP__v_") identifier)
        (le_bytes 8 value ++ replicate 24 0)
        (sdk.scalar_multiplication rcv value_commitment_randomness_generator)

  unfoldable pub compute_rk : List ℕ → List ℕ → List ℕ
  compute_rk ask alpha =
      sdk.scalar_multiplication (sdk.randomized_secret_from_seed ask alpha) spending_key_generator

  abbrev pub keys_with : Search → List ℕ → List ℕ → List ℕ → Option Keys
  keys_with (found d) ask nsk ovk =
      let ak = generate_key ask spending_key_generator in
      let nk = generate_key nsk proof_generation_key_generator in
      let ivk = compute_ivk ak nk in
      some (record {
        ask = ask;
        ak = ak;
        nsk = nsk;
        nk = nk;
        ovk = ovk;
        ivk = ivk;
        diversifier = d;
        address = compute_pkd ivk d;
      })
  keys_with not_found ask nsk ovk = none
  keys_with running ask nsk ovk = none

  unfoldable pub compute_keys : ℕ → List ℕ → Option Keys
  compute_keys fuel spending_key = elim (convert_key spending_key 0x00 true) [
    | none ↦ none
    | some ask ↦ elim (convert_key spending_key 0x01 true) [
      | none ↦ none
      | some nsk ↦ elim (convert_key spending_key 0x02 true) [
        | none ↦ none
        | some ovk ↦ elim (convert_key spending_key 0x10 true) [
          | none ↦ none
          | some dk ↦
              keys_with (compute_diversifier fuel dk (replicate diversifier_length 0)) ask nsk ovk
        ]
      ]
    ]
  ]

  -- crypto_computeSaplingSeed and computeMasterFromSeed, and then the keys.
  unfoldable pub sapling_keys : ℕ → List ℕ → Option Keys
  sapling_keys fuel hd_path = elim (sdk.derive_normal hd_path) [
    | none ↦ none
    | some seed ↦ elim (compute_master_from_seed (take key_length seed)) [
      | none ↦ none
      | some spending_key ↦ compute_keys fuel spending_key
    ]
  ]

-- key_kind_e; other numbers are InvalidKey and above
abbrev pub public_address : ℕ
public_address = 0

abbrev pub view_keys : ℕ
view_keys = 1

abbrev pub proof_generation_key : ℕ
proof_generation_key = 2

abbrev pub invalid_key : ℕ
invalid_key = 3

unfoldable pub copy_keys : Keys → ℕ → ℕ → Option (List ℕ)
copy_keys keys requested output_len =
    if requested == public_address
    then (if ltb output_len key_length then none else some (take key_length keys.address))
    else if requested == view_keys
    then (if ltb output_len (4 * key_length)
        then none
        else some (
            take key_length keys.ak
            ++ (take key_length keys.nk ++ (take key_length keys.ovk ++ take key_length keys.ivk))))
    else if requested == proof_generation_key
    then (if ltb output_len (2 * key_length)
        then none
        else some (take key_length keys.ak ++ take key_length keys.nsk))
    else none

-- The response of crypto_fillMASP, which has the length of what copyKeys wrote.
unfoldable pub crypto_fill_masp : Sdk → ℕ → List ℕ → ℕ → ℕ → Option (List ℕ)
crypto_fill_masp sdk fuel hd_path requested output_len =
    if ltb output_len (3 * key_length) then none else elim (sapling_keys sdk fuel hd_path) [
      | none ↦ none
      | some keys ↦ copy_keys keys requested output_len
    ]

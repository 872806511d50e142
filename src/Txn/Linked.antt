-- ===== src/Txn/Linked.antt =====
-- The readers of app/src/parser_impl_txn.c that look for a validity predicate among the extra data
-- sections: readVPType, readInitAccountTxn, readUpdateVPTxn.
use Prim.Native.String.{String}
use ledger_namada.Common.{
  ℕ, zero, suc, ◌+◌, ◌*◌, Bool, true, false, not, ◌&&◌, Option, none, some, List, length, get_elem?,
  eq_list, leb, ◌==◌, if◌then◌else◌,
}
use ledger_namada.Reader.{
  unexpected_characters, unexpected_value, unexpected_error, missing_field, fault, Reader, null,
  hash_of, Bytes, no_bytes, ◌>>=◌, ◌>>◌, pure, fail, reject_if, read_byte, read_bytes, read_uint32,
  position, expect_end, hash_len,
}
use ledger_namada.Address.{AddressAlt, read_address_alt}
use ledger_namada.Crypto.{Library, Section, codes, hash_extra_data_section}
use ledger_namada.Txn.Fields.{Span, read_pubkeys}
use ledger_namada.Txn.Validator.{max_extra_data_secs}

-- strnlen(tag) == len && !memcmp(ptr, tag, len)
unfoldable pub tag_is : Bytes → String → Bool
tag_is tag name = length (codes name) == tag.len && eq_list tag.content (codes name)

unfoldable pub read_vp_type : Bytes → Option String
read_vp_type tag = elim tag.ptr [
  | null ↦ none
  | _ ↦
      if tag_is tag "vp_user.wasm"
      then some "User"
      else if tag_is tag "vp_validator.wasm"
      then some "Validator"
      else none
]

-- The section that holds the code: vp_type_secidx, vp_type_hash, vp_type_text and found_vp_code.
pub record VpLink : Type 0 where
  pub vp_type_secidx : ℕ
  pub vp_type_hash : Bytes
  pub vp_type_text : Option String
  pub found_vp_code : Bool

abbrev pub no_link : VpLink
no_link = record {
  vp_type_secidx = 0;
  vp_type_hash = no_bytes;
  vp_type_text = none;
  found_vp_code = false;
}

-- extra_data[i] outside the array of four is a fault.
abbrev pub section_at : List Section → ℕ → Reader Section
section_at extra i = elim (get_elem? extra i) [ none ↦ λ c. fault | some s ↦ pure s ]

abbrev pub hash_or_error : Option (List ℕ) → Reader (List ℕ)
hash_or_error none = fail unexpected_error
hash_or_error (some h) = pure h

-- tx_init_account_t
pub record InitAccount : Type 0 where
  pub number_of_pubkeys : ℕ
  pub pubkeys : Span
  pub threshold : ℕ
  pub vp_type_sechash : Bytes
  pub vp : VpLink

-- tx_update_vp_t
pub record UpdateVp : Type 0 where
  pub address : AddressAlt
  pub number_of_pubkeys : ℕ
  pub pubkeys : Span
  pub has_threshold : ℕ
  pub threshold : ℕ
  pub has_vp_code : ℕ
  pub vp_type_sechash : Bytes
  pub vp : VpLink

module _ (lib : Library) (extra : List Section) where
  -- The loop over the extra data sections: n rounds from the index i on.
  unfoldable pub find_vp_code : Bytes → ℕ → ℕ → VpLink → Reader VpLink
  find_vp_code sechash zero i link = pure link
  find_vp_code sechash (suc n) i link = do
    s ← section_at extra i
    h ← hash_or_error (hash_extra_data_section lib s)
    find_vp_code sechash n (i + 1) (
        if eq_list h sechash.content
        then record {
          vp_type_secidx = s.idx;
          vp_type_hash = record { ptr = hash_of i; len = hash_len; content = s.bytes_hash };
          vp_type_text = read_vp_type s.tag;
          found_vp_code = true;
        }
        else link)

  unfoldable pub read_init_account_txn : ℕ → Reader InitAccount
  read_init_account_txn extra_data_len = do
    reject_if (leb max_extra_data_secs extra_data_len) unexpected_value
    number_of_pubkeys ← read_uint32
    start ← position
    pubkeys ← read_pubkeys number_of_pubkeys (record { ptr = start; len = 0 })
    vp_type_sechash ← read_bytes hash_len
    threshold ← read_byte
    vp ← find_vp_code vp_type_sechash extra_data_len 0 no_link
    reject_if (not vp.found_vp_code) missing_field
    expect_end unexpected_characters
    pure (record {
      number_of_pubkeys = number_of_pubkeys;
      pubkeys = pubkeys;
      threshold = threshold;
      vp_type_sechash = vp_type_sechash;
      vp = vp;
    })

  -- The loop runs extraDataLen * has_vp_code times, and has_vp_code is any byte.
  unfoldable pub read_update_vp_txn : ℕ → Reader UpdateVp
  read_update_vp_txn extra_data_len = do
    reject_if (leb max_extra_data_secs extra_data_len) unexpected_value
    address ← read_address_alt
    has_vp_code ← read_byte
    vp_type_sechash ← (if has_vp_code == 0 then pure no_bytes else read_bytes hash_len)
    number_of_pubkeys ← read_uint32
    start ← position
    pubkeys ← read_pubkeys number_of_pubkeys (record { ptr = start; len = 0 })
    has_threshold ← read_byte
    threshold ← (if has_threshold == 0 then pure 0 else read_byte)
    vp ← find_vp_code vp_type_sechash (extra_data_len * has_vp_code) 0 no_link
    reject_if (not (has_vp_code == 0) && not vp.found_vp_code) missing_field
    expect_end unexpected_characters
    pure (record {
      address = address;
      number_of_pubkeys = number_of_pubkeys;
      pubkeys = pubkeys;
      has_threshold = has_threshold;
      threshold = threshold;
      has_vp_code = has_vp_code;
      vp_type_sechash = vp_type_sechash;
      vp = vp;
    })

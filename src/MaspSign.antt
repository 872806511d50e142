-- ===== src/MaspSign.antt =====
-- The shielded half of app/src/crypto.c: random_fr and crypto_computeRandomness, checkSpends,
-- checkOutputs, checkConverts and crypto_check_masp, h_star, sign_sapling_spend,
-- crypto_sign_spends_sapling, crypto_extract_spend_signature and crypto_sign_masp.
pub mod Spends
pub mod Checked
pub mod Counters
mod Tests
use ledger_namada.Common.{
  ℕ, zero, suc, ◌+◌, ◌*◌, ◌%◌, ◌^◌, Bool, true, false, not, Option, none, some, List, [], ◌∷◌, ◌++◌,
  take, replicate, eq_list, ltb, ◌==◌, if◌then◌else◌,
}
use ledger_namada.Reader.{
  ParserError, unexpected_error, invalid_number_of_spends, invalid_number_of_outputs, invalid_cv,
  invalid_rk, Ctx, Outcome, ok, err, fault, Reader, ◌>>=◌, ◌>>◌, pure, fail, reject_if, address_of,
  slice, Bytes, check_and_advance, read_byte, read_bytes, read_uint64, load_le,
}
use ledger_namada.Crypto.{codes, le_bytes}
use ledger_namada.Txn.Fields.{Span}
use ledger_namada.NvData.{
  NvData, SpendItem, OutputItem, ConvertItem, ZxErr, zxerr_ok, zxerr_unknown,
  spend_append_rand_item, output_append_rand_item, convert_append_rand_item,
  spendlist_retrieve_rand_item, outputlist_retrieve_rand_item, convertlist_retrieve_rand_item,
  spend_signatures_append, spend_signatures_more_extract, get_next_spend_signature,
}
use ledger_namada.Masp.Bundle.{
  MaspTx, shielded_spends_len, shielded_converts_len, shielded_outputs_len, asset_id_len,
  int_128_len,
}
use ledger_namada.Masp.Builder.{
  MaspBuilderSection, extended_fvk_len, diversifier_len, payment_addr_len,
}
use ledger_namada.Masp.Descriptions.{
  check_and_advance_u64, get_next_spend_description, get_next_output_description,
  get_next_convert_description,
}
use ledger_namada.TxHash.{cv_len, nullifier_len, rk_len, signature_hash}
use ledger_namada.MaspKeys.{Keys, key_length, compute_value_commitment, compute_rk, sapling_keys}
use ledger_namada.Sdk.{Sdk, spending_key_generator}

abbrev pub random_len : ℕ
random_len = 32

abbrev pub identifier_len : ℕ
identifier_len = 32

abbrev pub signature_size : ℕ
signature_size = 64

-- A stored random value is the number that its 32 bytes spell, and a signature that of its 64.
abbrev pub number_of : List ℕ → ℕ
number_of [] = 0
number_of (x ∷ xs) = x % 256 + 256 * number_of xs

abbrev pub random_bytes : ℕ → List ℕ
random_bytes = le_bytes random_len

-- masp_type_e
pub data MaspType : Type 0 where
  spend output convert : MaspType

-- The response, where zxerr_ok is answered, and the stored values after the call.
abbrev pub replied : List ℕ → NvData × ZxErr → NvData × Option (List ℕ)
replied out (d, zxerr_ok) = (d, some out)
replied out (d, zxerr_unknown) = (d, none)

module _ (sdk : Sdk) where
  -- random_fr of 64 bytes from the generator
  abbrev pub random_fr : List ℕ → List ℕ
  random_fr random = take random_len (sdk.from_bytes_wide random)

  -- The switch on the type. The two calls of the generator answer `one` and `two`.
  unfoldable pub append_random : MaspType → List ℕ → List ℕ → NvData → NvData × Option (List ℕ)
  append_random spend one two d =
      replied (random_fr one ++ random_fr two)
        (spend_append_rand_item (number_of (random_fr one)) (number_of (random_fr two)) d)
  append_random output one two d =
      replied (random_fr one ++ take random_len two)
        (output_append_rand_item (number_of (random_fr one)) (number_of (take random_len two)) d)
  append_random convert one two d =
      replied (random_fr one) (convert_append_rand_item (number_of (random_fr one)) d)

  unfoldable pub compute_randomness :
      MaspType → List ℕ → List ℕ → ℕ → NvData → NvData × Option (List ℕ)
  compute_randomness type one two out_len d =
      if ltb out_len (2 * random_len) then (d, none) else append_random type one two d

-- A reader on another context, which is handed on.
abbrev pub on : {A : Type 0} → Ctx → Reader A → Reader (A × Ctx)
on t m c = elim (m t) [ ok a d ↦ ok (a, d) c | err e ↦ err e | fault ↦ fault ]

-- `ctx->offset = 0`
unfoldable pub rewind : Reader (Unit {0})
rewind c = ok tt (record c { offset = 0 })

-- computeValueCommitment answers an error for `item->rcv` of a NULL item, which is NULL.
abbrev pub rcv_of : {A : Type 0} → Option A → Reader A
rcv_of none = fail unexpected_error
rcv_of (some a) = pure a

-- The bytes at a context's place, which memcmp reads without a check.
abbrev pub here : Ctx → ℕ → List ℕ
here t n = slice t.mem (t.buffer + t.offset) n

-- A context over a pointer and a length of a parsed section.
abbrev pub over : (ℕ → ℕ) → Bytes → Ctx
over mem b = record { mem = mem; buffer = address_of b.ptr; buffer_len = b.len; offset = 0 }

abbrev pub over_span : (ℕ → ℕ) → Span → Ctx
over_span mem s = record { mem = mem; buffer = address_of s.ptr; buffer_len = s.len; offset = 0 }

module _ (sdk : Sdk) (nv : NvData) where
  -- One round of checkSpends, in the context of the builder; t is that of the transaction.
  unfoldable pub check_spend : Keys → ℕ → Ctx → Reader (Unit {0})
  check_spend keys i t = do
    get_next_spend_description (i % 256)
    (u, t1) ← on t (check_and_advance (shielded_spends_len * i))
    check_and_advance (extended_fvk_len + diversifier_len)
    identifier ← read_bytes identifier_len
    value ← read_uint64
    item ← rcv_of (spendlist_retrieve_rand_item (i % 256) nv)
    let cv = compute_value_commitment sdk value (random_bytes item.rcv) identifier.content
    reject_if (not (eq_list cv (here t1 cv_len))) invalid_cv
    (v, t2) ← on t1 (check_and_advance (cv_len + nullifier_len))
    reject_if (not (eq_list (compute_rk sdk keys.ask (random_bytes item.alpha)) (here t2 rk_len)))
        invalid_rk

  -- n rounds from the index i on; both offsets are 0 before each.
  unfoldable pub check_spends_loop : Keys → ℕ → ℕ → Ctx → Reader (Unit {0})
  check_spends_loop keys zero i t = pure tt
  check_spends_loop keys (suc n) i t = do
    check_spend keys i t
    rewind
    check_spends_loop keys n (i + 1) t

  -- The index is the next uint64_t of the metadata, whose context goes on.
  unfoldable pub check_output : ℕ → Ctx → Ctx → Reader Ctx
  check_output i t indices = do
    get_next_output_description (i % 256)
    (indice, indices') ← on indices read_uint64
    (u, t1) ← on t (check_and_advance_u64 (shielded_outputs_len * indice % 2 ^ 64))
    has_ovk ← read_byte
    check_and_advance ((if has_ovk == 0 then 0 else 32) + diversifier_len + payment_addr_len)
    identifier ← read_bytes identifier_len
    value ← read_uint64
    item ← rcv_of (outputlist_retrieve_rand_item indice nv)
    let cv = compute_value_commitment sdk value (random_bytes item.rcv) identifier.content
    reject_if (not (eq_list cv (here t1 cv_len))) invalid_cv
    pure indices'

  unfoldable pub check_outputs_loop : ℕ → ℕ → Ctx → Ctx → Reader (Unit {0})
  check_outputs_loop zero i t indices = pure tt
  check_outputs_loop (suc n) i t indices = do
    indices' ← check_output i t indices
    rewind
    check_outputs_loop n (i + 1) t indices'

  -- The transaction's context is handed on: its offset is not set back.
  unfoldable pub check_convert : ℕ → Ctx → Reader Ctx
  check_convert i t = do
    get_next_convert_description (i % 256)
    (u, t1) ← on t (check_and_advance (shielded_converts_len * i))
    check_and_advance 1
    identifier ← read_bytes identifier_len
    check_and_advance (asset_id_len + int_128_len + 8)
    value ← read_uint64
    item ← rcv_of (convertlist_retrieve_rand_item (i % 256) nv)
    let cv = compute_value_commitment sdk value (random_bytes item.rcv) identifier.content
    reject_if (not (eq_list cv (here t1 cv_len))) invalid_cv
    pure t1

  unfoldable pub check_converts_loop : ℕ → ℕ → Ctx → Reader (Unit {0})
  check_converts_loop zero i t = pure tt
  check_converts_loop (suc n) i t = do
    t' ← check_convert i t
    rewind
    check_converts_loop n (i + 1) t'

-- ===== src/NvData.antt =====
-- app/src/nvdata.c: the random values handed out for spends, outputs and converts, and the spend
-- signatures, in arrays of SPEND_LIST_SIZE elements with counters in transaction_header.
pub mod Reset
pub mod Signatures
mod Tests
use ledger_namada.Common.{
  ℕ, zero, suc, ◌+◌, ◌-◌, ◌%◌, Bool, Option, none, some, List, [], ◌∷◌, replicate, set, get_elem?,
  ltb, leb, if◌then◌else◌,
}

abbrev pub spend_list_size : ℕ
spend_list_size = 15

-- spend_item_t, output_item_t and convert_item_t; a random value is the number that its bytes spell
pub record SpendItem : Type 0 where
  pub rcv : ℕ
  pub alpha : ℕ

pub record OutputItem : Type 0 where
  pub rcv : ℕ
  pub rcm : ℕ

pub record ConvertItem : Type 0 where
  pub rcv : ℕ

-- transaction_header_t, N_spendlist, N_outputlist, N_convertlist and N_transactioninfo
pub record NvData : Type 0 where
  pub spendlist_len : ℕ
  pub outputlist_len : ℕ
  pub convertlist_len : ℕ
  pub spends_sign_index : ℕ
  pub spends : List SpendItem
  pub outputs : List OutputItem
  pub converts : List ConvertItem
  pub spend_signatures : List ℕ

-- zxerr_t: the functions answer zxerr_ok or zxerr_unknown
pub data ZxErr : Type 0 where
  zxerr_ok zxerr_unknown : ZxErr

unfoldable pub spend_append_rand_item : ℕ → ℕ → NvData → NvData × ZxErr
spend_append_rand_item rcv alpha d =
    if leb spend_list_size d.spendlist_len then (d, zxerr_unknown) else (
      record d {
        spends = set d.spends d.spendlist_len (record { rcv = rcv; alpha = alpha });
        spendlist_len = (d.spendlist_len + 1) % 256;
      },
      zxerr_ok,
    )

-- The test is `spendlist_len < i`; the other two lists have `<=`. `none` is NULL, and an index
-- outside the array is none too.
unfoldable pub spendlist_retrieve_rand_item : ℕ → NvData → Option SpendItem
spendlist_retrieve_rand_item i d = if ltb d.spendlist_len i then none else get_elem? d.spends i

unfoldable pub output_append_rand_item : ℕ → ℕ → NvData → NvData × ZxErr
output_append_rand_item rcv rcm d =
    if leb spend_list_size d.outputlist_len then (d, zxerr_unknown) else (
      record d {
        outputs = set d.outputs d.outputlist_len (record { rcv = rcv; rcm = rcm });
        outputlist_len = (d.outputlist_len + 1) % 256;
      },
      zxerr_ok,
    )

unfoldable pub outputlist_retrieve_rand_item : ℕ → NvData → Option OutputItem
outputlist_retrieve_rand_item i d = if leb d.outputlist_len i then none else get_elem? d.outputs i

unfoldable pub convert_append_rand_item : ℕ → NvData → NvData × ZxErr
convert_append_rand_item rcv d =
    if leb spend_list_size d.convertlist_len then (d, zxerr_unknown) else (
      record d {
        converts = set d.converts d.convertlist_len (record { rcv = rcv });
        convertlist_len = (d.convertlist_len + 1) % 256;
      },
      zxerr_ok,
    )

unfoldable pub convertlist_retrieve_rand_item : ℕ → NvData → Option ConvertItem
convertlist_retrieve_rand_item i d =
    if leb d.convertlist_len i then none else get_elem? d.converts i

unfoldable pub spend_signatures_more_extract : NvData → Bool
spend_signatures_more_extract d = ltb 0 d.spends_sign_index

unfoldable pub spend_signatures_append : ℕ → NvData → NvData × ZxErr
spend_signatures_append signature d =
    if leb d.spendlist_len d.spends_sign_index then (d, zxerr_unknown) else (
      record d {
        spend_signatures = set d.spend_signatures d.spends_sign_index signature;
        spends_sign_index = (d.spends_sign_index + 1) % 256;
      },
      zxerr_ok,
    )

-- `for (int i = 0; i < n; i++) f();` with the answers dropped
unfoldable pub repeat_append : (NvData → NvData × ZxErr) → ℕ → NvData → NvData
repeat_append f zero d = d
repeat_append f (suc n) d = repeat_append f n (f d).0

unfoldable pub zeroize_signatures : NvData → NvData
unfolding repeat_append spend_signatures_append
zeroize_signatures d =
    record (repeat_append (spend_signatures_append 0) spend_list_size
      (record d { spends_sign_index = 0 })) { spends_sign_index = 0 }

unfoldable pub zeroize_spends : NvData → NvData
unfolding repeat_append spend_append_rand_item
zeroize_spends d =
    record (repeat_append (spend_append_rand_item 0 0) spend_list_size
      (record d { spendlist_len = 0 })) { spendlist_len = 0 }

unfoldable pub zeroize_outputs : NvData → NvData
unfolding repeat_append output_append_rand_item
zeroize_outputs d =
    record (repeat_append (output_append_rand_item 0 0) spend_list_size
      (record d { outputlist_len = 0 })) { outputlist_len = 0 }

unfoldable pub zeroize_converts : NvData → NvData
unfolding repeat_append convert_append_rand_item
zeroize_converts d =
    record (repeat_append (convert_append_rand_item 0) spend_list_size
      (record d { convertlist_len = 0 })) { convertlist_len = 0 }

-- MEMZERO of transaction_header
abbrev pub clear_header : NvData → NvData
clear_header d = record d {
  spendlist_len = 0;
  outputlist_len = 0;
  convertlist_len = 0;
  spends_sign_index = 0;
}

unfoldable pub transaction_reset : NvData → NvData
unfolding zeroize_spends zeroize_outputs zeroize_converts zeroize_signatures
transaction_reset d =
    zeroize_signatures (zeroize_converts (zeroize_outputs (zeroize_spends (clear_header d))))

-- `index` is a uint8_t; the read of spend_signatures[index] is `none` outside the array.
unfoldable pub get_next_spend_signature : NvData → NvData × Option ℕ
unfolding transaction_reset spend_signatures_more_extract
get_next_spend_signature d =
    let index = (d.spendlist_len + 256 - d.spends_sign_index) % 256 in
    if leb d.spendlist_len index
    then (d, none)
    else let d' : NvData = record d { spends_sign_index = (d.spends_sign_index + 255) % 256 } in
      (
        if spend_signatures_more_extract d' then d' else transaction_reset d',
        get_elem? d.spend_signatures index,
      )

-- ===== src/Print/Text.antt =====
-- The texts of the values: app/src/parser_print_common.c, crypto_encodeLargeBech32 of
-- app/src/crypto_helper.c, what the cases of app/src/parser_print_txn.c write by themselves, and
-- parser_getItem of app/src/parser.c. The functions of ledger-zxlib that format and page are the record
-- `Format`.
use Prim.Native.String.{String}
use ledger_namada.Common.{
  ℕ, zero, suc, ◌+◌, ◌-◌, ◌/◌, ◌%◌, Bool, true, false, Option, none, some, List, [], ◌∷◌, ◌++◌,
  take, length, replicate, ltb, leb, ◌==◌, ◌||◌, if◌then◌else◌,
}
use ledger_namada.Reader.{
  ParserError, unexpected_error, unexpected_value, unexpected_buffer_end, unexpected_number_items,
  display_idx_out_of_range, ok, err, fault, Reader, null, Bytes, ◌>>=◌, ◌>>◌, pure, fail, reject_if,
}
use ledger_namada.Address.{AddressAlt}
use ledger_namada.Crypto.{Library, codes, encode_alt_address, on_path, second, hdpath_1_testnet}
use ledger_namada.Bech32.{text, failed, bech32m, bech32_encode_from_large_bytes}
use ledger_namada.Transaction.{ParserTx}
use ledger_namada.Transaction.Items.{get_num_items}
use ledger_namada.Txn.Ibc.{Timestamp}
use ledger_namada.Print.{
  Value, words, address, amount, public_key, hex_string, page_hex, page, page_ext, number,
  page_number, small_number, decimal, ethereum, height, timestamp, date, joined, large_bech32,
  loose_amount, loose_address, untouched,
}
use ledger_namada.Print.Signed.{absolute}
use ledger_namada.Print.Joined.{join_strings}
use ledger_namada.Print.Simple.{is_null}
use ledger_namada.Print.Masp.{Indices}
use ledger_namada.Print.Fields.{print_txn_fields}

-- timedata_t of ledger-zxlib
pub record TimeData : Type 0 where
  pub year : ℕ
  pub mon : ℕ
  pub day : ℕ
  pub hour : ℕ
  pub min : ℕ
  pub sec : ℕ

-- zxformat.h, timeutils.h, bignum.h and bech32.h of ledger-zxlib: a size is that of the output, the text
-- ends before its zero, and a page comes with the number of pages.
pub record Format : Type 0 where
  -- pageString and pageStringExt: size, text, page
  pub page_string : ℕ → List ℕ → ℕ → List ℕ × ℕ
  -- pageStringHex: size, bytes, page
  pub page_string_hex : ℕ → List ℕ → ℕ → List ℕ × ℕ
  -- array_to_hexstr: size, bytes
  pub array_to_hexstr : ℕ → List ℕ → List ℕ
  -- uint64_to_str: size, number; `none` where it answers an error text
  pub uint64_to_str : ℕ → ℕ → Option (List ℕ)
  -- bignumLittleEndian_to_bcd with 40 bytes and bignumLittleEndian_bcdprint: size, bytes
  pub bignum_to_str : ℕ → List ℕ → Option (List ℕ)
  -- insertDecimalPoint: size, text, decimal places
  pub insert_decimal_point : ℕ → List ℕ → ℕ → Option (List ℕ)
  -- z_str3join: size, text, prefix, suffix
  pub str3join : ℕ → List ℕ → List ℕ → List ℕ → List ℕ
  -- number_inplace_trimming: text, the zeros that stay
  pub number_trimming : List ℕ → ℕ → List ℕ
  -- bech32EncodeFromBytes with padding and bech32m: size, prefix, bytes
  pub bech32_encode_from_bytes : ℕ → List ℕ → List ℕ → Option (List ℕ)
  -- extractTime
  pub extract_time : ℕ → Option TimeData

-- snprintf into a buffer of the size
abbrev pub print_into : ℕ → List ℕ → List ℕ
print_into size t = take (size - 1) t

-- The decimal digits of a number below 10 ^ 20, and "%0wd".
unfoldable pub digits : ℕ → ℕ → List ℕ
digits zero n = []
digits (suc fuel) n =
    let rest = digits fuel (n / 10) in
    if ltb n 10 then (48 + n) ∷ [] else rest ++ (48 + n % 10) ∷ []

unfoldable pub padded : ℕ → ℕ → List ℕ
padded w n = let t = digits 20 n in replicate (w - length t) 48 ++ t

-- A C string: up to the first zero.
abbrev pub c_string : List ℕ → List ℕ
c_string [] = []
c_string (x ∷ xs) = if x == 0 then [] else x ∷ c_string xs

-- The first 'T' becomes a space.
abbrev pub replace_separator : List ℕ → List ℕ
replace_separator [] = []
replace_separator (x ∷ xs) = if x == 84 then 32 ∷ xs else x ∷ replace_separator xs

abbrev pub some_or {ℓ} : {A : Type ℓ} → Option A → ParserError → Reader A
some_or none e = fail e
some_or (some a) e = pure a

-- The outputs: their sizes, the page, and the device's derivation path.
module _ (fmt : Format) (lib : Library) (hd_path : List ℕ) (out_val_len page_idx : ℕ) where
  abbrev pub paged : List ℕ → Reader (List ℕ × ℕ)
  paged t = pure (fmt.page_string out_val_len t page_idx)

  -- What is not paged leaves the page count at 1.
  abbrev pub whole : List ℕ → Reader (List ℕ × ℕ)
  whole t = pure (print_into out_val_len t, 1)

  -- The digits and the sign; the output has 325 bytes, and its first page is taken, with the number of
  -- pages.
  unfoldable pub bigint_to_str : Bytes → Bool → Reader (List ℕ × ℕ)
  bigint_to_str value is_signed = do
    reject_if (elim value.ptr [ null ↦ true | _ ↦ false ]) unexpected_error
    reject_if (ltb 32 value.len) unexpected_value
    let number : Bool × List ℕ = absolute is_signed value.content
    let size : ℕ = if number.0 then 99 else 100
    t ← some_or (fmt.bignum_to_str size number.1) unexpected_buffer_end
    pure (fmt.page_string 325 (if number.0 then 45 ∷ t else t) 0)

  -- insertDecimalPoint behind the sign
  unfoldable pub insert_point : List ℕ → ℕ → Reader (List ℕ)
  insert_point [] denom = some_or (fmt.insert_decimal_point 325 [] denom) unexpected_error
  insert_point (x ∷ t) denom =
      if x == 45
      then (do
        pointed ← some_or (fmt.insert_decimal_point 324 t denom) unexpected_error
        pure (45 ∷ pointed))
      else some_or (fmt.insert_decimal_point 325 (x ∷ t) denom) unexpected_error

  unfoldable pub print_amount : Bytes → Bool → ℕ → String → Reader (List ℕ × ℕ)
  print_amount value is_signed denom symbol = do
    t ← bigint_to_str value is_signed
    pointed ← insert_point t.0 denom
    paged (fmt.number_trimming (fmt.str3join 325 pointed (codes symbol) []) 1)

  unfoldable pub print_address_alt : AddressAlt → Reader (List ℕ × ℕ)
  print_address_alt a = do t ← encode_alt_address (on_path hd_path lib) a; paged t

  unfoldable pub print_public_key : Bytes → Reader (List ℕ × ℕ)
  print_public_key pubkey = do
    t ← some_or (fmt.bech32_encode_from_bytes 85 (codes "tpknam") pubkey.content) unexpected_error
    paged t

  unfoldable pub print_timestamp : Bytes → Reader (List ℕ × ℕ)
  print_timestamp t = do
    reject_if (ltb 38 t.len || ltb t.len 25) unexpected_value
    paged (replace_separator (c_string (take (t.len - 6) t.content ++ codes " UTC")))

  -- The timeout of an IBC transfer.
  unfoldable pub print_date : Timestamp → Reader (List ℕ × ℕ)
  print_date t = do
    d ← some_or (fmt.extract_time t.millis) unexpected_error
    let seconds : List ℕ =
        fmt.number_trimming (print_into 15 (padded 2 d.sec ++ 46 ∷ padded 9 t.nanos)) 0
    let day : List ℕ = padded 4 d.year ++ 45 ∷ padded 2 d.mon ++ 45 ∷ padded 2 d.day
    whole (day ++ 84 ∷ padded 2 d.hour ++ 58 ∷ padded 2 d.min ++ 58 ∷ seconds ++ 90 ∷ [])

  unfoldable pub print_height : ℕ → ℕ → Reader (List ℕ × ℕ)
  print_height revision_number revision_height = do
    n ← some_or (fmt.uint64_to_str 45 revision_number) unexpected_error
    h ← some_or (fmt.uint64_to_str (45 - length n - 1) revision_height) unexpected_error
    paged (n ++ 45 ∷ h)

  -- crypto_encodeLargeBech32 into a buffer of 500 bytes
  unfoldable pub encode_large_bech32 : List ℕ → Bool → Reader (List ℕ)
  encode_large_bech32 xs payment_addr =
      let testnet = second hd_path == hdpath_1_testnet in
      let mainnet_hrp = if payment_addr then "znam" else "zvknam" in
      let testnet_hrp = if payment_addr then "testznam" else "testzvknam" in
      let hrp = codes (if testnet then testnet_hrp else mainnet_hrp) in
      elim (bech32_encode_from_large_bytes 500 hrp xs true bech32m) [
        | text t ↦ pure t
        | failed e ↦ fail unexpected_value
      ]

  -- A call whose error is dropped: outVal is as cleanOutput leaves it, and the page count as the call
  -- left it.
  abbrev pub or_clean {ℓ} :
      {A : Type ℓ} → Reader A → ℕ → (A → Reader (List ℕ × ℕ)) → Reader (List ℕ × ℕ)
  or_clean m pages k c = elim (m c) [
    | ok a d ↦ k a d
    | err e ↦ ok (print_into out_val_len (32 ∷ []), pages) c
    | fault ↦ fault
  ]

  -- printAmount without its error: the digits have set the page count where the decimal point fails.
  unfoldable pub print_amount_loosely : Bytes → ℕ → Reader (List ℕ × ℕ)
  print_amount_loosely value denom = or_clean (bigint_to_str value false) 1 (λ t.
      or_clean (insert_point t.0 denom) t.1
        (λ pointed. paged (fmt.number_trimming (fmt.str3join 325 pointed [] []) 1)))

  abbrev pub with_count : Option (List ℕ × ℕ) → Reader (List ℕ × ℕ)
  with_count o = some_or o unexpected_error

  unfoldable pub print_value : Value → Reader (List ℕ × ℕ)
  print_value (words s) = whole (codes s)
  print_value (address a) = print_address_alt a
  print_value (amount b is_signed denom symbol) = print_amount b is_signed denom symbol
  print_value (public_key b) = print_public_key b
  print_value (hex_string size xs) = paged (fmt.array_to_hexstr size xs)
  print_value (page_hex xs) = pure (fmt.page_string_hex out_val_len xs page_idx)
  print_value (page s) = paged (codes s)
  print_value (page_ext b) = paged b.content
  print_value (number n) = do
    t ← some_or (fmt.uint64_to_str out_val_len n) unexpected_error
    pure (t, 1)
  print_value (page_number size n) = do
    t ← some_or (fmt.uint64_to_str size n) unexpected_error
    paged t
  print_value (small_number n) = do t ← some_or (fmt.uint64_to_str 4 n) unexpected_error; whole t
  print_value (decimal n) = whole (digits 20 n)
  print_value (ethereum xs) =
      paged (take 45 (48 ∷ 120 ∷ fmt.array_to_hexstr 43 xs ++ replicate 45 0))
  print_value (height n h) = print_height n h
  print_value (timestamp b) = print_timestamp b
  print_value (date t) = print_date t
  print_value (joined first second separator) =
      if is_null first || (is_null second || leb out_val_len 1)
      then fail unexpected_error
      else with_count
          (join_strings first.content second.content (codes separator) (out_val_len - 1) page_idx)
  print_value (large_bech32 xs payment_addr) = do t ← encode_large_bech32 xs payment_addr; paged t
  print_value (loose_amount b denom) = print_amount_loosely b denom
  print_value (loose_address a) = or_clean (print_address_alt a) 1 pure
  print_value untouched = whole (32 ∷ [])

  -- parser_getItem: the key, the value and the number of pages, with the static indices.
  unfoldable pub parser_get_item :
      Bool → ParserTx → ℕ → ℕ → Indices → (ℕ → ℕ) → Reader (List ℕ × List ℕ × ℕ) × Indices
  parser_get_item expert tx out_key_len display_idx st mem = elim (get_num_items expert tx) [
    | none ↦ (fail unexpected_number_items, st)
    | some n ↦
        if leb n display_idx
        then (fail display_idx_out_of_range, st)
        else (let printed = print_txn_fields expert tx page_idx display_idx st mem in
            (
              (do
                i ← printed.0
                v ← print_value i.value
                pure (print_into out_key_len (codes i.key), v.0, v.1)),
              printed.1,
            ))
  ]

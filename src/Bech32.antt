-- ===== src/Bech32.antt =====
-- app/src/bech32_encoding.c: the checksum, the regrouping of bits and the text. A mask with 2 ^ k - 1
-- is written as the remainder modulo 2 ^ k. What a failing run leaves in its output is left out.
pub mod Fits
mod Tests
use Prim.Native.Nat.{bit_or, bit_xor}
use ledger_namada.Common.{
  ℕ, zero, suc, ◌+◌, ◌-◌, ◌*◌, ◌/◌, ◌%◌, ◌^◌, Bool, true, false, not, ◌&&◌, ◌||◌, Option, none,
  some, List, [], ◌∷◌, ◌++◌, length, get_elem?, leb, ltb, ◌==◌, if◌then◌else◌,
}

-- BECH32_ENCODING_BECH32, BECH32_ENCODING_BECH32M, and every other value.
pub data Bech32Encoding : Type 0 where
  bech32 : Bech32Encoding
  bech32m : Bech32Encoding
  none_encoding : Bech32Encoding

-- The errors of bech32EncodeFromLargeBytes.
pub data ZxError : Type 0 where
  out_of_bounds : ZxError
  buffer_too_small : ZxError
  encoding_failed : ZxError

-- zxerr_ok with the text before its terminating zero, or an error.
pub data EncodedText : Type 0 where
  text : List ℕ → EncodedText
  failed : ZxError → EncodedText

abbrev pub max_size : ℕ
max_size = 200

-- `-((b >> k) & 1) & generator`
unfoldable pub masked : ℕ → ℕ → ℕ → ℕ
masked b k generator = if b / 2 ^ k % 2 == 1 then generator else 0

unfoldable pub bech32_polymod_step : ℕ → ℕ
bech32_polymod_step pre =
    let b = pre / 2 ^ 25 % 256 in
    bit_xor
      (bit_xor
        (bit_xor
          (bit_xor (bit_xor (pre % 2 ^ 25 * 32) (masked b 0 0x3b6a57b2)) (masked b 1 0x26508e6d))
          (masked b 2 0x1ea119fa))
        (masked b 3 0x3d4233dd))
      (masked b 4 0x2a1462b3)

unfoldable pub bech32_final_constant : Bech32Encoding → ℕ
bech32_final_constant bech32 = 1
bech32_final_constant bech32m = 0x2bc830a3
bech32_final_constant none_encoding = 0

-- "qpzry9x8gf2tvdw0s3jn54khce6mua7l"
abbrev pub charset : List ℕ
charset =
    113 ∷ 112 ∷ 122 ∷ 114 ∷ 121 ∷ 57 ∷ 120 ∷ 56 ∷ 103 ∷ 102 ∷ 50 ∷ 116 ∷ 118 ∷ 100 ∷ 119 ∷ 48 ∷ 115
    ∷ 51 ∷ 106 ∷ 110 ∷ 53 ∷ 52 ∷ 107 ∷ 104 ∷ 99 ∷ 101 ∷ 54 ∷ 109 ∷ 117 ∷ 97 ∷ 55 ∷ 108 ∷ []

-- `charset[i]`; behind its 32 characters stands the zero that ends the string.
unfoldable pub char_at : ℕ → ℕ
char_at i = elim (get_elem? charset i) [ none ↦ 0 | some c ↦ c ]

-- The first loop of bech32_encode_large: the upper bits of the prefix, its characters tested.
unfoldable pub check_prefix : List ℕ → ℕ → Option ℕ
check_prefix [] chk = some chk
check_prefix (ch ∷ hrp) chk =
    let rest = check_prefix hrp (bit_xor (bech32_polymod_step chk) (ch / 32)) in
    if ltb ch 33 || ltb 126 ch then none else if leb 65 ch && leb ch 90 then none else rest

-- The second one: the lower bits of the prefix.
unfoldable pub add_prefix : List ℕ → ℕ → ℕ
add_prefix [] chk = chk
add_prefix (ch ∷ hrp) chk = add_prefix hrp (bit_xor (bech32_polymod_step chk) (ch % 32))

-- The loop over the data: the checksum and the characters.
unfoldable pub add_data : List ℕ → ℕ → List ℕ → Option (ℕ × List ℕ)
add_data [] chk output = some (chk, output)
add_data (d ∷ data_in) chk output =
    let rest = add_data data_in (bit_xor (bech32_polymod_step chk) d) (output ++ char_at d ∷ []) in
    if d / 32 == 0 then rest else none

unfoldable pub add_zeroes : ℕ → ℕ → ℕ
add_zeroes zero chk = chk
add_zeroes (suc n) chk = add_zeroes n (bech32_polymod_step chk)

-- The last n characters of the checksum, the group of the highest bits first.
unfoldable pub checksum_chars : ℕ → ℕ → List ℕ
checksum_chars zero chk = []
checksum_chars (suc n) chk = char_at (chk / 2 ^ (n * 5) % 32) ∷ checksum_chars n chk

unfoldable pub end_text : Bech32Encoding → ℕ × List ℕ → Option (List ℕ)
end_text enc done =
    some (done.1 ++ checksum_chars 6 (bit_xor (add_zeroes 6 done.0) (bech32_final_constant enc)))

unfoldable pub bech32_encode_large : List ℕ → List ℕ → Bech32Encoding → Option (List ℕ)
bech32_encode_large hrp data_in enc = elim (check_prefix hrp 1) [
  | none ↦ none
  | some chk ↦
      if ltb (2 * max_size) (length hrp + 7 + length data_in)
      then none
      else elim (add_data data_in (add_prefix hrp (bech32_polymod_step chk)) (hrp ++ 49 ∷ [])) [
        | none ↦ none
        | some done ↦ end_text enc done
      ]
]

-- The inner while of convert_bits on fuel: the groups of out_bits bits that `val` has, `bits` of its bits
-- being left. Where out_bits is not 0, as many rounds as there are bits are enough.
unfoldable pub take_groups : ℕ → ℕ → ℕ → ℕ → List ℕ → List ℕ × ℕ
take_groups zero out_bits val bits out = (out, bits)
take_groups (suc fuel) out_bits val bits out =
    let rest =
      take_groups fuel out_bits val (bits - out_bits)
        (out ++ (val / 2 ^ (bits - out_bits) % 2 ^ out_bits) ∷ []) in
    if leb out_bits bits then rest else (out, bits)

-- The outer one: what was written, `val` and `bits`.
unfoldable pub convert_loop : ℕ → ℕ → List ℕ → ℕ → ℕ → List ℕ → List ℕ × ℕ × ℕ
convert_loop out_bits in_bits [] val bits out = (out, val, bits)
convert_loop out_bits in_bits (x ∷ xs) val bits out =
    let val' = bit_or (val * 2 ^ in_bits % 2 ^ 32) x in
    let q = take_groups (bits + in_bits) out_bits val' (bits + in_bits) out in
    convert_loop out_bits in_bits xs val' q.1 q.0

-- The bits that are left, filled up with zeros.
unfoldable pub padding : ℕ → ℕ → ℕ → ℕ
padding out_bits val bits = val * 2 ^ (out_bits - bits) % 2 ^ 32 % 2 ^ out_bits

-- What was written, and the int that it returns.
unfoldable pub convert_bits : ℕ → List ℕ → ℕ → Bool → List ℕ × ℕ
convert_bits out_bits xs in_bits pad =
    let r = convert_loop out_bits in_bits xs 0 0 [] in
    let left = padding out_bits r.1 r.2 in
    if pad
    then ((if r.2 == 0 then r.0 else r.0 ++ left ∷ []), 1)
    else if not (left == 0) || leb in_bits r.2
    then (r.0, 0)
    else (r.0, 1)

unfoldable pub text_or_failed : Option (List ℕ) → EncodedText
text_or_failed none = failed encoding_failed
text_or_failed (some t) = text t

-- The caller takes what convert_bits has written and not what it returns.
unfoldable pub bech32_encode_from_large_bytes :
    ℕ → List ℕ → List ℕ → Bool → Bech32Encoding → EncodedText
bech32_encode_from_large_bytes out_len hrp xs pad enc =
    let tmp = (convert_bits 5 xs 8 pad).0 in
    if ltb max_size (length xs)
    then failed out_of_bounds
    else if ltb out_len (length hrp + length xs * 2 + 7)
    then failed buffer_too_small
    else if leb out_len (length tmp)
    then failed out_of_bounds
    else text_or_failed (bech32_encode_large hrp tmp enc)

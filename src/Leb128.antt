-- ===== src/Leb128.antt =====
-- app/src/leb128.c
pub mod Bounds
pub mod Groups
pub mod RoundTrip
mod Tests
use Prim.Native.Nat.{bit_and, bit_or}
use ledger_namada.Common.{
  ℕ, zero, suc, ◌+◌, ◌*◌, ◌/◌, ◌%◌, ◌^◌, ◌&&◌, ◌||◌, not, List, [], ◌∷◌, ◌++◌, length, leb, ltb,
  ◌==◌, if◌then◌else◌,
}

-- encodeLEB128: the error or the bytes written. `out_of_fuel` is no answer of the code.
pub data Encoded : Type 0 where
  encoded : List ℕ → Encoded
  buffer_too_small : Encoded
  out_of_fuel : Encoded

-- The do-while loop on fuel; `out` is what was written so far, of encodedLen bytes at most.
unfoldable pub encode_loop : ℕ → ℕ → ℕ → List ℕ → Encoded
encode_loop zero encoded_len number out = out_of_fuel
encode_loop (suc fuel) encoded_len number out =
    let low = bit_and number 0x7f in
    let number' = number / 128 in
    let byte = if number' == 0 then low else bit_or low 0x80 in
    let rest = encode_loop fuel encoded_len number' (out ++ byte ∷ []) in
    if leb encoded_len (length out)
    then buffer_too_small
    else if number' == 0
    then encoded (out ++ byte ∷ [])
    else rest

-- A uint64_t has ten groups of seven bits at most.
unfoldable pub encode_leb128 : ℕ → ℕ → Encoded
unfolding encode_loop
encode_leb128 number encoded_len = encode_loop 10 encoded_len number []

-- What decodeLEB128 leaves: *consumed (`untouched` where it is not written) with zxerr_ok and *v,
-- or zxerr_unknown with *v set to 0.
pub data Decoded : Type 0 where
  decoded : ℕ → ℕ → Decoded
  unknown : Decoded

-- The while loop: `fuel` counts the rounds that `i < 10` leaves, `input` reads a byte.
-- `*v |= b << shift` is on a uint64_t.
unfoldable pub decode_loop : (ℕ → ℕ) → ℕ → ℕ → ℕ → ℕ → ℕ → Decoded
decode_loop input input_size zero i shift v = unknown
decode_loop input input_size (suc fuel) i shift v =
    let b = bit_and (input i) 0x7f in
    let v' = bit_or v ((b * 2 ^ shift) % 2 ^ 64) in
    let rest = decode_loop input input_size fuel (i + 1) (shift + 7) v' in
    if leb input_size i
    then unknown
    else if leb 63 shift && ltb 1 b
    then unknown
    else if bit_and (input i) 0x80 == 0
    then decoded (i + 1) v'
    else rest

unfoldable pub decode_leb128 : (ℕ → ℕ) → ℕ → Decoded
unfolding decode_loop
decode_leb128 input input_size = decode_loop input input_size 10 0 0 0

-- ===== src/Print/Signed.antt =====
-- The sign of an amount in bigint_to_str of app/src/parser_print_common.c: bytes from low to high.
pub mod Magnitude
use ledger_namada.Common.{
  ℕ, zero, suc, ◌+◌, ◌-◌, ◌*◌, ◌%◌, ◌^◌, Bool, true, false, List, [], ◌∷◌, ltb, leb, ◌==◌, ◌&&◌,
  if◌then◌else◌,
}

-- `value->ptr[ptrLen - 1] & 0x80`, for a value that is not empty
unfoldable pub sign_bit : List ℕ → Bool
sign_bit [] = false
sign_bit (x ∷ []) = leb 128 (x % 256)
sign_bit (x ∷ y ∷ ys) = sign_bit (y ∷ ys)

-- The loop of the two's complement.
unfoldable pub complement : ℕ → List ℕ → List ℕ
complement carry [] = []
complement carry (x ∷ xs) =
    let v = (255 - x + carry) % 256 in v ∷ complement (if v == 0 then carry else 0) xs

-- isNegative and intAbsVal
unfoldable pub absolute : Bool → List ℕ → Bool × List ℕ
absolute is_signed value =
    if is_signed && sign_bit value then (true, complement 1 value) else (false, value)

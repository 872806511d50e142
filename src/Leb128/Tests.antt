-- ===== src/Leb128/Tests.antt =====
-- app/src/leb128.c on 300.
use ledger_namada.Common.{ℕ, ◌≡◌, ◌≤◌, ◌<◌, ◌==◌, if◌then◌else◌, arith, List, [], ◌∷◌, ◌++◌, length}
use ledger_namada.Leb128.{encoded, encode_leb128, decoded, decode_leb128}
use ledger_namada.Leb128.Bounds.{Within, decode_leb128-Within}
use ledger_namada.Leb128.Groups.{nth}
use ledger_namada.Leb128.RoundTrip.{decode_leb128-encode_leb128}

decode_leb128-encode_leb128_example :
    (bytes : List ℕ) × (encode_leb128 300 10 ≡ encoded bytes)
    × (length bytes ≤ 10)
    × (decode_leb128 (nth (bytes ++ 1 ∷ 2 ∷ [])) (length (bytes ++ 1 ∷ 2 ∷ []))
        ≡ decoded (length bytes) 300)
decode_leb128-encode_leb128_example = decode_leb128-encode_leb128 300 (1 ∷ 2 ∷ []) (omega arith)

-- 300 in two bytes of which only one is input, then other bytes.
abbrev cut_short : ℕ → ℕ
cut_short i = if i == 0 then 172 else 2

abbrev other_rest : ℕ → ℕ
other_rest i = if i == 0 then 172 else 9

cut_short_same : (i : ℕ) → i < 1 → cut_short i ≡ other_rest i
cut_short_same i h = ground arith

decode_leb128-Within_example :
    Within 1 10 (decode_leb128 cut_short 1)
    × (decode_leb128 cut_short 1 ≡ decode_leb128 other_rest 1)
decode_leb128-Within_example = decode_leb128-Within cut_short other_rest 1 cut_short_same

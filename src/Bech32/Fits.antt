-- ===== src/Bech32/Fits.antt =====
-- The length of what bech32EncodeFromLargeBytes of app/src/bech32_encoding.c writes.
use Prim.Native.Nat.{bit_or, bit_xor}
use ledger_namada.Common.{
  ℕ, zero, suc, ◌+◌, ◌-◌, ◌*◌, ◌/◌, ◌%◌, ◌^◌, ◌≤◌, ◌<◌, ◌≡◌, refl, ap, ◌∙◌, ◌⊎◌, inl, inr, arith,
  true, false, Option, none, some, List, [], ◌∷◌, ◌++◌, length, All, map, append_assoc,
  length-append, leb, ltb, ◌==◌, if◌then◌else◌, Bool-cases, ◌||◌, ◌&&◌,
}
use ledger_namada.Bech32.{
  Bech32Encoding, text, max_size, char_at, bech32_polymod_step, check_prefix, add_prefix, add_data,
  add_zeroes, bech32_final_constant, checksum_chars, end_text, bech32_encode_large, take_groups,
  convert_loop, padding, convert_bits, text_or_failed, bech32_encode_from_large_bytes,
}

-- A character that a prefix may have: visible and no upper case letter.
abbrev pub IsPrefixChar : ℕ → Type 0
IsPrefixChar ch = (33 ≤ ch) × (ch ≤ 126) × ((ch < 65) ⊎ (90 < ch))

check_prefix-some :
    (hrp : List ℕ) (chk : ℕ) → All IsPrefixChar hrp → (c : ℕ) × (check_prefix hrp chk ≡ some c)
unfolding check_prefix
check_prefix-some [] chk h = (chk, refl)
check_prefix-some (ch ∷ hrp) chk (h, hs) =
    let rest = check_prefix-some hrp (bit_xor (bech32_polymod_step chk) (ch / 32)) hs in
    (rest.0, skipped ch h _ ∙ rest.1)
  where
    skipped :
        (ch : ℕ)
        → IsPrefixChar ch
        → (r : Option ℕ)
        → (if ltb ch 33 || ltb 126 ch then none else if leb 65 ch && leb ch 90 then none else r) ≡ r
    skipped ch h r = ground arith

-- A group of five bits.
abbrev IsGroup : ℕ → Type 0
IsGroup g = g < 32

add_data-some :
    (xs : List ℕ) (chk : ℕ) (output : List ℕ)
    → All IsGroup xs
    → (c : ℕ) × (add_data xs chk output ≡ some (c, output ++ map char_at xs))
unfolding add_data
add_data-some [] chk output h = (chk, ap (λ l. some (chk, l)) (append_nil output))
  where
    append_nil : (l : List ℕ) → l ≡ l ++ []
    append_nil [] = refl
    append_nil (x ∷ l) = ap (λ r. x ∷ r) (append_nil l)
add_data-some (d ∷ xs) chk output (h, hs) =
    let rest =
      add_data-some xs (bit_xor (bech32_polymod_step chk) d) (output ++ char_at d ∷ []) hs in
    (
      rest.0,
      kept d h _
          ∙ rest.1
          ∙ ap (λ l. some (rest.0, l)) (append_assoc output (char_at d ∷ []) (map char_at xs)),
    )
  where
    kept : (d : ℕ) → d < 32 → (r : Option (ℕ × List ℕ)) → (if d / 32 == 0 then r else none) ≡ r
    kept d h r = ground arith

length-checksum_chars : (n chk : ℕ) → length (checksum_chars n chk) ≡ n
unfolding checksum_chars
length-checksum_chars zero chk = refl
length-checksum_chars (suc n) chk = ap suc (length-checksum_chars n chk)

All-snoc : (xs : List ℕ) (x : ℕ) → All IsGroup xs → x < 32 → All IsGroup (xs ++ x ∷ [])
All-snoc [] x h hx = (hx, tt)
All-snoc (y ∷ xs) x (hy, h) hx = (hy, All-snoc xs x h hx)

length-snoc : (xs : List ℕ) (x : ℕ) → length (xs ++ x ∷ []) ≡ length xs + 1
length-snoc xs x = length-append xs (x ∷ [])

-- What the loops keep: every bit that was read is written or left.
record Regrouped (total : ℕ) (out : List ℕ) (bits : ℕ) : Type 0 where
  groups : All IsGroup out
  count : 5 * length out + bits ≡ total

with_total :
    (a b : ℕ) {out : List ℕ} {bits : ℕ} → a ≡ b → Regrouped a out bits → Regrouped b out bits
with_total a b e r = record { groups = r.groups; count = r.count ∙ e }

take_groups-Regrouped :
    (total fuel val bits : ℕ) (out : List ℕ)
    → Regrouped total out bits
    → bits ≤ fuel
    → Regrouped total (take_groups fuel 5 val bits out).0 (take_groups fuel 5 val bits out).1
      × ((take_groups fuel 5 val bits out).1 < 5)
unfolding take_groups
take_groups-Regrouped total zero val bits out r h = (r, ground arith)
take_groups-Regrouped total (suc fuel) val bits out r h = elim (Bool-cases (leb 5 bits)) [
  | inr e ↦ rw e (r, ground arith)
  | inl e ↦ rw e (
      take_groups-Regrouped total fuel val (bits - 5) _
        record {
          groups = All-snoc out _ r.groups (omega arith);
          count = counted (length out) (length-snoc out _) r.count (five bits e);
        }
        (ground arith))
]
  where
    five : (b : ℕ) → leb 5 b ≡ true → 5 ≤ b
    five b e = ground arith

    counted :
        {n b total : ℕ} (m : ℕ) → n ≡ m + 1 → 5 * m + b ≡ total → 5 ≤ b → 5 * n + (b - 5) ≡ total
    counted m h r e = omega arith

convert_loop-Regrouped :
    (xs : List ℕ) (n val bits : ℕ) (out : List ℕ)
    → Regrouped (8 * n) out bits
    → bits < 5
    → Regrouped
        (8 * (n + length xs))
        (convert_loop 5 8 xs val bits out).0
        (convert_loop 5 8 xs val bits out).2
      × ((convert_loop 5 8 xs val bits out).2 < 5)
unfolding convert_loop
convert_loop-Regrouped [] n val bits out r h = (with_total (8 * n) _ (same n) r, h)
  where
    same : (n : ℕ) → 8 * n ≡ 8 * (n + 0)
    same n = omega arith
convert_loop-Regrouped (x ∷ xs) n val bits out r h =
    let q =
      take_groups-Regrouped (8 * suc n) (bits + 8) (bit_or (val * 2 ^ 8 % 2 ^ 32) x) (bits + 8) out
        record { groups = r.groups; count = more (length out) bits n r.count } (omega arith) in
    rw (moved n (length xs)) (convert_loop-Regrouped xs (suc n) _ _ _ q.0 q.1)
  where
    more : (m b n : ℕ) → 5 * m + b ≡ 8 * n → 5 * m + (b + 8) ≡ 8 * suc n
    more m b n e = omega arith

    moved : (n m : ℕ) → n + suc m ≡ suc n + m
    moved n m = omega arith

-- With padding the groups are as many as the bits need, five bits to a group.
convert_bits-groups :
    (xs : List ℕ)
    → All IsGroup (convert_bits 5 xs 8 true).0
      × (length (convert_bits 5 xs 8 true).0 ≡ (8 * length xs + 4) / 5)
unfolding convert_bits padding
convert_bits-groups xs =
    let r = convert_loop-Regrouped xs 0 0 0 [] record { groups = tt; count = refl } (omega arith) in
    elim (Bool-cases ((convert_loop 5 8 xs 0 0 []).2 == 0)) [
      | inl e ↦ rw e (r.0.groups, none_left _ _ (length xs) r.0.count e)
      | inr e ↦ rw e (
        All-snoc _ _ r.0.groups (omega arith),
        length-snoc _ _ ∙ some_left _ _ (length xs) r.0.count r.1 e,
      )
    ]
  where
    none_left : (m b n : ℕ) → 5 * m + b ≡ 8 * (0 + n) → (b == 0) ≡ true → m ≡ (8 * n + 4) / 5
    none_left m b n h e = ground arith

    some_left :
        (m b n : ℕ) → 5 * m + b ≡ 8 * (0 + n) → b < 5 → (b == 0) ≡ false → m + 1 ≡ (8 * n + 4) / 5
    some_left m b n h hb e = ground arith

map-length : (xs : List ℕ) → length (map char_at xs) ≡ length xs
map-length [] = refl
map-length (x ∷ xs) = ap suc (map-length xs)

-- What the encoder writes for a prefix and the groups: the prefix, "1", a character per group, and six.
pub record Written (hrp groups : List ℕ) (t : List ℕ) : Type 0 where
  checksum : List ℕ
  six : length checksum ≡ 6
  parts : t ≡ hrp ++ 49 ∷ [] ++ map char_at groups ++ checksum

length-Written :
    (hrp groups t : List ℕ) → Written hrp groups t → length t ≡ length hrp + length groups + 7
length-Written hrp groups t w =
    ap length w.parts
    ∙ length-append (hrp ++ 49 ∷ [] ++ map char_at groups) w.checksum
    ∙ summed (length hrp) (length groups) (length-append (hrp ++ 49 ∷ []) (map char_at groups))
        (length-append hrp (49 ∷ [])) (map-length groups) w.six
  where
    summed : {a b c d : ℕ} (h g : ℕ) → a ≡ b + c → b ≡ h + 1 → c ≡ g → d ≡ 6 → a + d ≡ h + g + 7
    summed h g p q r s = omega arith

bech32_encode_large-Written :
    (hrp groups : List ℕ) (enc : Bech32Encoding)
    → All IsPrefixChar hrp
    → All IsGroup groups
    → length hrp + 7 + length groups ≤ 2 * max_size
    → (t : List ℕ) × (bech32_encode_large hrp groups enc ≡ some t) × Written hrp groups t
unfolding bech32_encode_large end_text
bech32_encode_large-Written hrp groups enc hp hg fits =
    let p = check_prefix-some hrp 1 hp in
    let q = add_data-some groups (add_prefix hrp (bech32_polymod_step p.0)) (hrp ++ 49 ∷ []) hg in
    let sum = bit_xor (add_zeroes 6 q.0) (bech32_final_constant enc) in
    (
      hrp ++ 49 ∷ [] ++ map char_at groups ++ checksum_chars 6 sum,
      rw (bech32_encode_large, p.1)
          (rw (inside (length hrp + 7 + length groups) fits) (rw q.1 refl)),
      record { checksum = checksum_chars 6 sum; six = length-checksum_chars 6 sum; parts = refl },
    )
  where
    inside : (n : ℕ) → n ≤ 2 * max_size → ltb (2 * max_size) n ≡ false
    inside n h = ground arith

-- For 3 to 200 bytes, a prefix of at most 73 characters that are visible and no upper case letters, and
-- an output that the length test accepts, bech32EncodeFromLargeBytes with padding succeeds: the text is
-- the prefix, "1", a character for each five bits and six characters more, and it and its terminating
-- zero fit in the output.
pub bech32_encode_from_large_bytes-Written :
    (out_len : ℕ) (hrp xs : List ℕ) (enc : Bech32Encoding)
    → All IsPrefixChar hrp
    → length hrp ≤ 73
    → 3 ≤ length xs
    → length xs ≤ max_size
    → length hrp + length xs * 2 + 7 ≤ out_len
    → (t : List ℕ) × (bech32_encode_from_large_bytes out_len hrp xs true enc ≡ text t)
      × Written hrp (convert_bits 5 xs 8 true).0 t
      × (length t ≡ length hrp + (8 * length xs + 4) / 5 + 7)
      × (length t + 1 ≤ out_len)
unfolding bech32_encode_from_large_bytes text_or_failed
bech32_encode_from_large_bytes-Written out_len hrp xs enc hp short least most room =
    let c = convert_bits-groups xs in
    let e =
      bech32_encode_large-Written hrp (convert_bits 5 xs 8 true).0 enc hp c.0
        (rw c.1 (omega arith)) in
    let size =
      length-Written hrp (convert_bits 5 xs 8 true).0 e.0 e.2 ∙ ap (λ n. length hrp + n + 7) c.1 in
    (
      e.0,
      rw
          (
            small (length xs) most,
            enough out_len (length hrp + length xs * 2 + 7) room,
            c.1,
            groups_fit out_len (length xs) (omega arith),
            e.1,
          )
          refl,
      e.2,
      size,
      omega (arith, size),
    )
  where
    small : (n : ℕ) → n ≤ max_size → ltb max_size n ≡ false
    small n h = ground arith

    enough : (o n : ℕ) → n ≤ o → ltb o n ≡ false
    enough o n h = ground arith

    groups_fit : (o n : ℕ) → n * 2 + 7 ≤ o → leb o ((8 * n + 4) / 5) ≡ false
    groups_fit o n h = ground arith

-- ===== src/Masp/Walk.antt =====
-- The walk over descriptions in app/src/parser_impl_masp.c against the reading of them.
use ledger_namada.Common.{
  ℕ, zero, suc, ◌+◌, ◌*◌, ◌%◌, ◌^◌, ◌≤◌, ◌<◌, ◌≡◌, refl, sym, ap, ◌∙◌, arith, false, ltb, leb, ◌==◌,
  if◌then◌else◌, Bool-cases, inl, inr,
}
use mathlib.Core.Path.{ap₂}
use ledger_namada.Reader.{
  Ctx, Bytes, buf, no_bytes, unexpected_buffer_end, unexpected_error, ok, err, Reader, advance,
  load, slice, load_le, ◌>>=◌, pure, read_byte, read_bytes, read_uint, read_uint64,
  check_and_advance,
}
use ledger_namada.Reader.Accepted.{bind_ok, pure_ok}
use ledger_namada.Masp.Builder.{read_spend_description, read_output_description, repeat_reader}
use ledger_namada.Masp.Descriptions.{
  skip_spend_description, skip_output_description, get_next_spend_description,
}

module _ {B : Type 0} (c e : Ctx) (b : B) where
  read_bytes_then :
      (n : ℕ) (f : Bytes → Reader B)
      → (read_bytes n >>= f) c ≡ ok b e
      → (c.offset + n ≤ c.buffer_len)
        × (f
              (record {
                ptr = buf (c.buffer + c.offset);
                len = n;
                content = slice c.mem (c.buffer + c.offset) n;
              })
              (advance n c)
            ≡ ok b e)
  unfolding ◌>>=◌ read_bytes
  read_bytes_then n f h = elim (Bool-cases (ltb c.buffer_len (c.offset + n))) [
    | inl t ↦ absurd (refused (rw t at h))
    | inr t ↦ (ground arith, rw t at h)
  ]
    where
      refused : err unexpected_buffer_end ≡ ok b e → ⊥
      refused g = cc

  read_byte_then :
      (f : ℕ → Reader B)
      → (read_byte >>= f) c ≡ ok b e
      → (c.offset < c.buffer_len) × (f (load c.mem (c.buffer + c.offset)) (advance 1 c) ≡ ok b e)
  unfolding ◌>>=◌ read_byte
  read_byte_then f h = elim (Bool-cases (leb c.buffer_len c.offset)) [
    | inl t ↦ absurd (refused (rw t at h))
    | inr t ↦ (ground arith, rw t at h)
  ]
    where
      refused : err unexpected_error ≡ ok b e → ⊥
      refused g = cc

  read_uint64_then :
      (f : ℕ → Reader B)
      → (read_uint64 >>= f) c ≡ ok b e
      → (c.offset + 8 ≤ c.buffer_len)
        × (f (load_le c.mem (c.buffer + c.offset) 8) (advance 8 c) ≡ ok b e)
  unfolding ◌>>=◌ read_uint64 read_uint
  read_uint64_then f h = elim (Bool-cases (ltb c.buffer_len (c.offset + 8))) [
    | inl t ↦ absurd (refused (rw t at h))
    | inr t ↦ (ground arith, rw t at h)
  ]
    where
      refused : err unexpected_error ≡ ok b e → ⊥
      refused g = cc

check_and_advance_here :
    (n : ℕ) (c : Ctx) → c.offset + n ≤ c.buffer_len → check_and_advance n c ≡ ok tt (advance n c)
unfolding check_and_advance
check_and_advance_here n c h = rw (inside c.buffer_len (c.offset + n) h) refl
  where
    inside : (m o : ℕ) → o ≤ m → ltb m o ≡ false
    inside m o k = ground arith

read_byte_here :
    (c : Ctx)
    → c.offset < c.buffer_len
    → read_byte c ≡ ok (load c.mem (c.buffer + c.offset)) (advance 1 c)
unfolding read_byte
read_byte_here c h = rw (inside c.buffer_len c.offset h) refl
  where
    inside : (m o : ℕ) → o < m → leb m o ≡ false
    inside m o k = ground arith

bind_here :
    {A B : Type 0} (m : Reader A) (f : A → Reader B) (c d : Ctx) (a : A)
    → m c ≡ ok a d
    → (m >>= f) c ≡ f a d
unfolding ◌>>=◌
bind_here m f c d a h = rw h refl

advance_twice : (n k : ℕ) (c : Ctx) → advance k (advance n c) ≡ advance (n + k) c
advance_twice n k c = ap (λ (o : ℕ). record c { offset = o }) (sum c.offset n k)
  where
    sum : (o x y : ℕ) → ((o + x) % 2 ^ 16 + y) % 2 ^ 16 ≡ (o + (x + y)) % 2 ^ 16
    sum o x y = omega arith

-- In a buffer of less than 2 ^ 16 bytes the two parts of a checked step are a checked step.
joined :
    (n k : ℕ) (c : Ctx)
    → c.buffer_len < 2 ^ 16
    → c.offset + n ≤ c.buffer_len
    → (advance n c).offset + k ≤ c.buffer_len
    → c.offset + (n + k) ≤ c.buffer_len
joined n k c fits h h' = omega arith

skip_spend_description_follows :
    (c d : Ctx) (u : Unit {0})
    → c.buffer_len < 2 ^ 16
    → read_spend_description c ≡ ok u d
    → (skip_spend_description c ≡ ok tt d) × (d.buffer_len ≡ c.buffer_len)
unfolding read_spend_description skip_spend_description
skip_spend_description_follows c d u fits run =
    let c1 : Ctx = advance 169 c in
    let c2 : Ctx = advance 11 c1 in
    let c3 : Ctx = advance 137 c2 in
    let path_len = load c3.mem (c3.buffer + c3.offset) in
    let c4 : Ctx = advance 1 c3 in
    let c5 : Ctx = advance (path_len * 33) c4 in
    let (h1, r1) = read_bytes_then c d u 169 _ run in
    let (h2, r2) = read_bytes_then c1 d u 11 _ r1 in
    let (h3, r3) = read_bytes_then c2 d u 137 _ r2 in
    let (h4, r4) = read_byte_then c3 d u _ r3 in
    let (h5, r5) = read_bytes_then c4 d u (path_len * 33) _ r4 in
    let (h6, r6) = read_uint64_then c5 d u _ r5 in
    let last = (pure_ok tt u (advance 8 c5) d r6).1 in
    let fixed : c3 ≡ advance 317 c =
      ap (advance 137) (advance_twice 169 11 c) ∙ advance_twice 180 137 c in
    (
      bind_here (check_and_advance 317) _ c (advance 317 c) tt
            (check_and_advance_here 317 c (three c.buffer_len c.offset fits h1 h2 h3))
          ∙ ap (read_byte >>= λ n. check_and_advance (n * 33 + 8)) (sym fixed)
          ∙ bind_here read_byte _ c3 c4 path_len (read_byte_here c3 h4)
          ∙ check_and_advance_here (path_len * 33 + 8) c4 (joined (path_len * 33) 8 c4 fits h5 h6)
          ∙ ap (ok tt) (sym (advance_twice (path_len * 33) 8 c4) ∙ last),
      ap (λ (k : Ctx). k.buffer_len) (sym last),
    )
  where
    three :
        (len o : ℕ)
        → len < 2 ^ 16
        → o + 169 ≤ len
        → (o + 169) % 2 ^ 16 + 11 ≤ len
        → ((o + 169) % 2 ^ 16 + 11) % 2 ^ 16 + 137 ≤ len
        → o + 317 ≤ len
    three len o f a b g = omega arith

-- In a buffer of less than 2 ^ 16 bytes, where readSpendDescriptionInfo's loop has read `n` descriptions,
-- getNextSpendDescription with the index n, from the same place, succeeds and ends at the same place.
pub get_next_spend_description-read_spend_description :
    (n : ℕ) (c d : Ctx) (u : Unit {0})
    → c.buffer_len < 2 ^ 16
    → repeat_reader read_spend_description n c ≡ ok u d
    → get_next_spend_description n c ≡ ok tt d
unfolding repeat_reader get_next_spend_description pure
get_next_spend_description-read_spend_description zero c d u fits run =
    ap (ok tt) (pure_ok tt u c d run).1
get_next_spend_description-read_spend_description (suc n) c d u fits run =
    let (x, k, first, rest) = bind_ok read_spend_description _ c d u run in
    let (skipped, same) = skip_spend_description_follows c k x fits first in
    bind_here skip_spend_description _ c k tt skipped
    ∙ get_next_spend_description-read_spend_description n k d u (rw same fits) rest

-- A check of two steps, of which the first one fits, is the check of the second behind the first.
check_and_advance_split :
    (n k : ℕ) (c : Ctx)
    → c.buffer_len < 2 ^ 16
    → c.offset + n ≤ c.buffer_len
    → check_and_advance (n + k) c ≡ check_and_advance k (advance n c)
unfolding check_and_advance
check_and_advance_split n k c fits h =
    ap₂ (λ (o : ℕ) (e : Ctx). if ltb c.buffer_len o then err unexpected_buffer_end else ok tt e)
      (sym (place c.offset c.buffer_len h fits)) (sym (advance_twice n k c))
  where
    place : (o len : ℕ) → o + n ≤ len → len < 2 ^ 16 → (o + n) % 2 ^ 16 + k ≡ o + (n + k)
    place o len g f = omega arith

module _ (c d : Ctx) (u : Unit {0}) (fits : c.buffer_len < 2 ^ 16) where
  -- What an output has in front of its memo, behind the viewing key.
  output_rest :
      (read_bytes 11 >>= λ _.
      read_bytes 32 >>= λ _. read_bytes 104 >>= λ _. read_bytes 512 >>= λ _. pure tt)
          c
        ≡ ok u d
      → (c.offset + 659 ≤ c.buffer_len) × (advance 659 c ≡ d)
  output_rest run =
      let (h1, r1) = read_bytes_then c d u 11 _ run in
      let (h2, r2) = read_bytes_then (advance 11 c) d u 32 _ r1 in
      let (h3, r3) = read_bytes_then (advance 32 (advance 11 c)) d u 104 _ r2 in
      let (h4, r4) = read_bytes_then (advance 104 (advance 32 (advance 11 c))) d u 512 _ r3 in
      (
        four c.buffer_len c.offset fits h1 h2 h3 h4,
        sym (
              ap (λ k. advance 512 (advance 104 k)) (advance_twice 11 32 c)
              ∙ ap (advance 512) (advance_twice 43 104 c)
              ∙ advance_twice 147 512 c)
            ∙ (pure_ok tt u _ d r4).1,
      )
    where
      four :
          (len o : ℕ)
          → len < 2 ^ 16
          → o + 11 ≤ len
          → (o + 11) % 2 ^ 16 + 32 ≤ len
          → ((o + 11) % 2 ^ 16 + 32) % 2 ^ 16 + 104 ≤ len
          → (((o + 11) % 2 ^ 16 + 32) % 2 ^ 16 + 104) % 2 ^ 16 + 512 ≤ len
          → o + 659 ≤ len
      four len o f a b g e = omega arith

skip_output_lem :
    (has : ℕ) (c d : Ctx) (u : Unit {0})
    → c.buffer_len < 2 ^ 16
    → ((if has == 0 then pure no_bytes else read_bytes 32) >>= λ _. read_bytes 11 >>= λ _.
          read_bytes 32 >>= λ _. read_bytes 104 >>= λ _. read_bytes 512 >>= λ _. pure tt)
        c
      ≡ ok u d
    → check_and_advance ((if has == 0 then 0 else 32) + 11 + 32 + 137 + 512) c
      ≡ check_and_advance 33 d
unfolding ◌>>=◌ pure
skip_output_lem has c d u fits run = elim (Bool-cases (has == 0)) [
  | inl t ↦
      let (h, e) = output_rest c d u fits (rw t at run) in
      rw t (check_and_advance_split 659 33 c fits h ∙ ap (check_and_advance 33) e)
  | inr t ↦
      let (h1, r1) = read_bytes_then c d u 32 _ (rw t at run) in
      let (h, e) = output_rest (advance 32 c) d u fits r1 in
      rw t (
        check_and_advance_split 691 33 c fits (joined 32 659 c fits h1 h)
        ∙ ap (check_and_advance 33) (sym (advance_twice 32 659 c) ∙ e))
]

-- In a buffer of less than 2 ^ 16 bytes, where the loop body of readSaplingOutputDescriptionInfo has
-- read an output and ended at `d`, the loop body of getNextOutputDescription, from the same place, tries
-- to go 33 bytes further.
pub skip_output_description-read_output_description :
    (c d : Ctx) (u : Unit {0})
    → c.buffer_len < 2 ^ 16
    → read_output_description c ≡ ok u d
    → skip_output_description c ≡ check_and_advance 33 d
unfolding read_output_description skip_output_description
skip_output_description-read_output_description c d u fits run =
    let (h, rest) = read_byte_then c d u _ run in
    bind_here read_byte _ c (advance 1 c) (load c.mem (c.buffer + c.offset)) (read_byte_here c h)
    ∙ skip_output_lem (load c.mem (c.buffer + c.offset)) (advance 1 c) d u fits rest

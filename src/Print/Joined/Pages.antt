-- ===== src/Print/Joined/Pages.antt =====
-- What the pages of joinStrings of app/src/parser_print_common.c show.
use ledger_namada.Common.{
  ◌/◌, ◌%◌, ◌^◌, ◌&&◌, ◌==◌, ℕ, zero, suc, ◌+◌, ◌-◌, ◌*◌, ◌≤◌, ◌<◌, ◌≡◌, refl, sym, ap, ◌∙◌, arith,
  true, false, some, List, [], ◌∷◌, ◌++◌, take, length, append_assoc, ltb, leb, if◌then◌else◌,
  Bool-cases, inl, inr,
}
use native.Mathlib.Nat.{div-mul-le_self, mul-le-mul_right, le_trans}
use ledger_namada.Print.Joined.{
  drop, pages_of, first_part, separator_part, second_part, join_strings,
}
use ledger_namada.Print.Joined.Windows.{
  take_all, length-drop, drop_all, window-append, length-window,
}
use ledger_namada.Print.Joined.Plain.{
  plain_first_part, plain_separator_part, plain_second_part, first_part-plain, separator_part-plain,
  second_part-plain,
}

plain_first_part_lem :
    (first : List ℕ) (start room : ℕ)
    → plain_first_part first start room ≡ take room (drop start first)
unfolding plain_first_part
plain_first_part_lem first start room = elim (Bool-cases (ltb start (length first))) [
  | inr e ↦ rw (e, drop_all start first (ground arith), take_nil room) refl
  | inl e ↦ elim (Bool-cases (leb (start + room) (length first))) [
    | inl f ↦ rw (e, f) refl
    | inr f ↦
        rw (e, f)
          (take_all (length first - start) (drop start first)
              (omega (arith, length-drop start first))
            ∙ sym (
                take_all room (drop start first)
                  (some_left room start (length first) f (length-drop start first))))
  ]
]
  where
    take_nil : (n : ℕ) → take {A = ℕ} n [] ≡ []
    take_nil zero = refl
    take_nil (suc n) = refl

    some_left : {m : ℕ} (room start n : ℕ) → leb (start + room) n ≡ false → m ≡ n - start → m ≤ room
    some_left room start n e h = ground arith

-- The separator has one character; `a` is what was copied before.
plain_separator_part_lem :
    (first_len c start end room a : ℕ)
    → 1 ≤ room
    → (start ≤ first_len → start + a ≤ first_len)
    → (start ≤ first_len → end ≤ first_len → room ≤ a)
    → plain_separator_part first_len (c ∷ []) start end room a
      ≡ take (room - a) (drop (start - first_len) (c ∷ []))
unfolding plain_separator_part
plain_separator_part_lem first_len c start end room a hr inside full =
    elim (Bool-cases (leb start first_len)) [
      | inr e ↦ rw e (
          sym (
            ap (take (room - a)) (drop_all (start - first_len) (c ∷ []) (ground arith))
            ∙ take_nil (room - a)))
      | inl e ↦ elim (Bool-cases (ltb first_len end)) [
        | inl f ↦
            rw
              (
                e,
                f,
                none_cut first_len (start + a) (inside (ground arith)),
                nothing_before start first_len e,
              )
              (cut room a)
        | inr f ↦ rw (e, f, none_left room a (full (ground arith) (ground arith))) refl
      ]
    ]
  where
    take_nil : (n : ℕ) → take {A = ℕ} n [] ≡ []
    take_nil zero = refl
    take_nil (suc n) = refl

    none_cut : (n s : ℕ) → s ≤ n → ltb n s ≡ false
    none_cut n s h = ground arith

    nothing_before : (s n : ℕ) → leb s n ≡ true → s - n ≡ 0
    nothing_before s n e = ground arith

    none_left : (room a : ℕ) → room ≤ a → room - a ≡ 0
    none_left room a h = omega arith

    cut :
        (room a : ℕ)
        → take (if ltb room (1 + a) then room - a else 1) (c ∷ []) ≡ take (room - a) (c ∷ [])
    cut room a = elim (Bool-cases (ltb room (1 + a))) [
      | inl e ↦ rw e refl
      | inr e ↦
          rw e
            (take_all 1 (c ∷ []) (omega arith) ∙ sym (take_all (room - a) (c ∷ []) (ground arith)))
    ]

plain_second_part_lem :
    (before : ℕ) (second : List ℕ) (start end room a : ℕ)
    → (end ≤ before → room ≤ a)
    → plain_second_part before second start end room a
      ≡ take (room - a) (drop (start - before) second)
unfolding plain_second_part
plain_second_part_lem before second start end room a full = elim (Bool-cases (ltb before end)) [
  | inr f ↦ rw (f, none_left room a (full (ground arith))) refl
  | inl f ↦ rw (f, start_eq before start) (cut (length-drop (start - before) second))
]
  where
    none_left : (room a : ℕ) → room ≤ a → room - a ≡ 0
    none_left room a h = omega arith

    start_eq : (b s : ℕ) → (if ltb b s then s - b else 0) ≡ s - b
    start_eq b s = ground arith

    fits : (room a n m : ℕ) → ltb room (a + n) ≡ false → m ≡ n → m ≤ room - a
    fits room a n m e h = ground arith

    cut :
        length (drop (start - before) second) ≡ length second - (start - before)
        → take
            (if ltb room (a + (length second - (start - before)))
              then room - a
              else length second - (start - before))
            (drop (start - before) second)
          ≡ take (room - a) (drop (start - before) second)
    cut h = elim (Bool-cases (ltb room (a + (length second - (start - before))))) [
      | inl e ↦ rw e refl
      | inr e ↦ rw e (
          take_all (length second - (start - before)) (drop (start - before) second)
            (omega (arith, h))
          ∙ sym (
              take_all (room - a) (drop (start - before) second)
                (fits room a (length second - (start - before)) _ e h)))
    ]

-- A page that ends before the second text is full.
early_end :
    (start room total end first_len second_len : ℕ)
    → total ≡ first_len + 1 + second_len
    → end ≡ (if ltb (start + room) (total + 1) then start + room else total + 1)
    → end ≤ first_len + 1
    → end ≡ start + room
early_end start room total end f n ht he h = elim (Bool-cases (ltb (start + room) (total + 1))) [
  | inl e ↦ he ∙ ap (λ b. if b then start + room else total + 1) e
  | inr e ↦ absurd (omega (arith, ht, h, he ∙ ap (λ b. if b then start + room else total + 1) e))
]

-- The three parts of a page make up its window; `total` counts the characters.
parts-window :
    (first second : List ℕ) (c start room total end : ℕ)
    → 1 ≤ room
    → total ≡ length first + 1 + length second
    → end ≡ (if ltb (start + room) (total + 1) then start + room else total + 1)
    → plain_first_part first start room
        ++ plain_separator_part
            (length first)
            (c ∷ [])
            start
            end
            room
            (length (plain_first_part first start room))
        ++ plain_second_part (length first + 1) second start end room (
            length (plain_first_part first start room)
            + length (
                plain_separator_part
                  (length first)
                  (c ∷ [])
                  start
                  end
                  room
                  (length (plain_first_part first start room))))
      ≡ take room (drop start (first ++ c ∷ second))
parts-window first second c start room total end hr ht he =
    let one = take room (drop start first) in
    let two = take (room - length one) (drop (start - length first) (c ∷ [])) in
    let l₁ = length-window start room first in
    let l₂ = length-window (start - length first) (room - length one) (c ∷ []) in
    rw
      (
        plain_first_part_lem first start room,
        plain_separator_part_lem (length first) c start end room (length one) hr
            (λ h. inside start room (length first) h l₁)
            (λ h g.
              full start room (length first) end h g
                (early_end start room total end (length first) (length second) ht he
                  (omega (arith, g)))
                l₁),
        plain_second_part_lem (length first + 1) second start end room (length one + length two)
            (λ g.
              full_two start room (length first) end hr g
                (early_end start room total end (length first) (length second) ht he g) l₁ l₂),
      )
      (append_assoc one two
          (take (room - (length one + length two)) (drop (start - (length first + 1)) second))
        ∙ sym (
            window-append start room first (c ∷ second)
            ∙ ap (λ l. one ++ l)
                (window-append (start - length first) (room - length one) (c ∷ []) second
                  ∙ ap (λ n. two ++ take n (drop (start - length first - 1) second))
                      (less_twice room (length one) (length two))
                  ∙ ap (λ n. two ++ take (room - (length one + length two)) (drop n second))
                      (less_twice start (length first) 1))))
  where
    less_twice : (a b c : ℕ) → a - b - c ≡ a - (b + c)
    less_twice a b c = omega arith

    inside :
        {n : ℕ} (start room f : ℕ) → start ≤ f → n ≡ room - (room - (f - start)) → start + n ≤ f
    inside start room f h e = omega arith

    full :
        {n : ℕ} (start room f end : ℕ)
        → start ≤ f
        → end ≤ f
        → end ≡ start + room
        → n ≡ room - (room - (f - start))
        → room ≤ n
    full start room f end h g e l = omega arith

    full_two :
        {n m : ℕ} (start room f end : ℕ)
        → 1 ≤ room
        → end ≤ f + 1
        → end ≡ start + room
        → n ≡ room - (room - (f - start))
        → m ≡ room - n - (room - n - (1 - (start - f)))
        → room ≤ n + m
    full_two start room f end hr g e l k = omega arith

length-take_le : (n : ℕ) (xs : List ℕ) → length (take n xs) ≤ n
length-take_le zero xs = omega arith
length-take_le (suc n) [] = omega arith
length-take_le (suc n) (x ∷ xs) = omega (arith, length-take_le n xs)

short_first : (first : List ℕ) (start room : ℕ) → length (plain_first_part first start room) ≤ room
unfolding plain_first_part
short_first first start room = elim (Bool-cases (ltb start (length first))) [
  | inr e ↦ rw e (omega arith)
  | inl e ↦ rw e (
      below
        (length-take_le (if leb (start + room) (length first) then room else length first - start)
          (drop start first))
        (at_most start room (length first)))
]
  where
    below : {a b c : ℕ} → a ≤ b → b ≤ c → a ≤ c
    below h l = omega arith

    at_most : (start room n : ℕ) → (if leb (start + room) n then room else n - start) ≤ room
    at_most start room n = ground arith

short_separator :
    (first_len c start end room a : ℕ)
    → a ≤ room
    → a + length (plain_separator_part first_len (c ∷ []) start end room a) ≤ room
unfolding plain_separator_part
short_separator f c start end room a h = elim (Bool-cases (leb start f && ltb f end)) [
  | inr e ↦ rw e (omega arith)
  | inl e ↦ rw e (
      below
        (length-take_le
          (if ltb room ((if ltb f (start + a) then 1 - (start + a - f) else 1) + a)
            then room - a
            else if ltb f (start + a)
            then 1 - (start + a - f)
            else 1)
          (c ∷ []))
        (at_most (if ltb f (start + a) then 1 - (start + a - f) else 1) room a h))
]
  where
    below : {m n : ℕ} → m ≤ n → a + n ≤ room → a + m ≤ room
    below h l = omega arith

    at_most :
        (left room a : ℕ) → a ≤ room → a + (if ltb room (left + a) then room - a else left) ≤ room
    at_most left room a h = ground arith

-- The three parts as joinStrings puts them together.
unfoldable parts : List ℕ → List ℕ → ℕ → ℕ → ℕ → ℕ → List ℕ
parts first second c start end room =
    let one = first_part first start room in
    let copied = length one % 2 ^ 16 in
    let two = separator_part (length first) (c ∷ []) start end room copied in
    one
    ++ two
    ++ second_part (length first + 1) second start end room ((copied + length two) % 2 ^ 16)

small : {room n : ℕ} → room < 2 ^ 16 → n ≤ room → n % 2 ^ 16 ≡ n
small h l = omega arith

parts-plain :
    (first second : List ℕ) (c start end room : ℕ)
    → room < 2 ^ 16
    → length first + 1 + length second < 2 ^ 16
    → start ≤ length first + 1 + length second
    → parts first second c start end room ≡ (
        let one = plain_first_part first start room in
        let two = plain_separator_part (length first) (c ∷ []) start end room (length one) in
        one
        ++ two
        ++ plain_second_part (length first + 1) second start end room (length one + length two))
unfolding parts
parts-plain first second c start end room h l k =
    let short = short_first first start room in
    rw
      (
        first_part-plain first start room (omega arith) h,
        small h short,
        separator_part-plain (length first) c start end room
            (length (plain_first_part first start room)) (omega arith) h short,
        small h (
            short_separator (length first) c start end room
              (length (plain_first_part first start room)) short),
        second_part-plain (length first + 1) second start end room
            (length (plain_first_part first start room)
              + length (
                  plain_separator_part (length first) (c ∷ []) start end room
                    (length (plain_first_part first start room))))
            k (omega arith) h,
      )
      refl

-- A page that is counted starts within the text.
page-start : (page_idx room total : ℕ) → page_idx < pages_of room total → page_idx * room ≤ total
unfolding pages_of
page-start page_idx room total h =
    le_trans (mul-le-mul_right room (at_most (total / room) (total % room) h))
      (div-mul-le_self total room)
  where
    at_most : (q r : ℕ) → page_idx < (q + (if r == 0 then 0 else 1)) % 256 → page_idx ≤ q
    at_most q r l = ground arith

-- A page of joinStrings, with a separator of one character, room for one character at least, and a text
-- that with its zero has less than 2 ^ 16 characters, is the page's stretch of the two texts with the
-- separator between them.
pub join_strings-window :
    (first second : List ℕ) (c room page_idx : ℕ)
    → 1 ≤ room
    → room < 2 ^ 16
    → length first + 1 + length second + 1 < 2 ^ 16
    → page_idx < pages_of room (length first + 1 + length second)
    → join_strings first second (c ∷ []) room page_idx
      ≡ some (
        take room (drop (page_idx * room) (first ++ c ∷ second)),
        pages_of room (length first + 1 + length second),
      )
unfolding join_strings parts
join_strings-window first second c room page_idx hr hm ht h =
    let total = length first + 1 + length second in
    let start = page_idx * room in
    let end = if ltb (start + room) (total + 1) then start + room else total + 1 in
    let inside = page-start page_idx room total h in
    rw
      (
        in_range page_idx (pages_of room total) h,
        start_small start total inside ht,
        end_small start room total ht,
      )
      (ap (λ p. some (p, pages_of room total))
        (parts-plain first second c start end room hm (omega arith) inside
          ∙ parts-window first second c start room total end hr refl refl))
  where
    in_range : (i n : ℕ) → i < n → leb n i ≡ false
    in_range i n h = ground arith

    start_small : (s n : ℕ) → s ≤ n → n + 1 < 2 ^ 16 → s % 2 ^ 16 ≡ s
    start_small s n h l = omega arith

    end_small :
        (s room n : ℕ)
        → n + 1 < 2 ^ 16
        → (if ltb (s + room) (n + 1) then s + room else n + 1) % 2 ^ 16
          ≡ (if ltb (s + room) (n + 1) then s + room else n + 1)
    end_small s room n h = ground arith

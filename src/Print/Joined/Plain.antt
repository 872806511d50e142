-- ===== src/Print/Joined/Plain.antt =====
-- The parts of a page of joinStrings where no uint16_t wraps around.
use ledger_namada.Common.{
  ◌%◌, ◌^◌, ◌&&◌, ℕ, ◌+◌, ◌-◌, ◌≤◌, ◌<◌, ◌≡◌, refl, ap, arith, true, List, [], ◌∷◌, take, length,
  ltb, leb, if◌then◌else◌, Bool-cases, inl, inr,
}
use ledger_namada.Print.Joined.{drop, first_part, separator_part, second_part}

unfoldable pub plain_first_part : List ℕ → ℕ → ℕ → List ℕ
plain_first_part first start room =
    if ltb start (length first)
    then take (if leb (start + room) (length first) then room else length first - start)
        (drop start first)
    else []

unfoldable pub plain_separator_part : ℕ → List ℕ → ℕ → ℕ → ℕ → ℕ → List ℕ
plain_separator_part first_len separator start end room copied =
    let shown = start + copied in
    let left =
      if ltb first_len shown then length separator - (shown - first_len) else length separator in
    if leb start first_len && ltb first_len end
    then take (if ltb room (left + copied) then room - copied else left) separator
    else []

unfoldable pub plain_second_part : ℕ → List ℕ → ℕ → ℕ → ℕ → ℕ → List ℕ
plain_second_part before second start end room copied =
    let second_start = if ltb before start then start - before else 0 in
    let left = length second - second_start in
    if ltb before end
    then take (if ltb room (copied + left) then room - copied else left) (drop second_start second)
    else []

pub first_part-plain :
    (first : List ℕ) (start room : ℕ)
    → length first < 2 ^ 16
    → room < 2 ^ 16
    → first_part first start room ≡ plain_first_part first start room
unfolding first_part plain_first_part
first_part-plain first start room h l =
    ap (λ n. if ltb start (length first) then take n (drop start first) else [])
      (small start room (length first) h l)
  where
    small :
        (start room n : ℕ)
        → n < 2 ^ 16
        → room < 2 ^ 16
        → (if leb (start + room) n then room else n - start) % 2 ^ 16
          ≡ (if leb (start + room) n then room else n - start)
    small start room n h l = ground arith

pub separator_part-plain :
    (first_len c start end room copied : ℕ)
    → start < 2 ^ 16
    → room < 2 ^ 16
    → copied ≤ room
    → separator_part first_len (c ∷ []) start end room copied
      ≡ plain_separator_part first_len (c ∷ []) start end room copied
unfolding separator_part plain_separator_part
separator_part-plain first_len c start end room copied h l k =
    elim (Bool-cases (leb start first_len)) [
      | inr e ↦ rw e refl
      | inl e ↦
          ap (λ n. if leb start first_len && ltb first_len end then take n (c ∷ []) else [])
            (small first_len start room copied h l k e)
    ]
  where
    small :
        (f start room copied : ℕ)
        → start < 2 ^ 16
        → room < 2 ^ 16
        → copied ≤ room
        → leb start f ≡ true
        → (if ltb room
                ((if ltb f (start + copied) then 1 - (start + copied - f) % 2 ^ 16 else 1) + copied)
              then room - copied
              else if ltb f (start + copied)
              then 1 - (start + copied - f) % 2 ^ 16
              else 1)
            % 2 ^ 16
          ≡ (if ltb room ((if ltb f (start + copied) then 1 - (start + copied - f) else 1) + copied)
              then room - copied
              else if ltb f (start + copied)
              then 1 - (start + copied - f)
              else 1)
    small f start room copied h l k e = ground arith

pub second_part-plain :
    (before : ℕ) (second : List ℕ) (start end room copied : ℕ)
    → start ≤ before + length second
    → length second < 2 ^ 16
    → room < 2 ^ 16
    → second_part before second start end room copied
      ≡ plain_second_part before second start end room copied
unfolding second_part plain_second_part
second_part-plain before second start end room copied h l k =
    rw
      (
        start_small before start (length second) h l,
        left_small before start (length second) h l,
        count_small (length second - (if ltb before start then start - before else 0)) room copied
            (omega arith) k,
      )
      refl
  where
    start_small :
        (b s n : ℕ)
        → s ≤ b + n
        → n < 2 ^ 16
        → (if ltb b s then s - b else 0) % 2 ^ 16 ≡ (if ltb b s then s - b else 0)
    start_small b s n h l = ground arith

    left_small :
        (b s n : ℕ)
        → s ≤ b + n
        → n < 2 ^ 16
        → (n + 2 ^ 16 - (if ltb b s then s - b else 0)) % 2 ^ 16
          ≡ n - (if ltb b s then s - b else 0)
    left_small b s n h l = ground arith

    count_small :
        (n room copied : ℕ)
        → n < 2 ^ 16
        → room < 2 ^ 16
        → (if ltb room (copied + n) then room - copied else n) % 2 ^ 16
          ≡ (if ltb room (copied + n) then room - copied else n)
    count_small n room copied h l = ground arith

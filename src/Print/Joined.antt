-- ===== src/Print/Joined.antt =====
-- joinStrings of app/src/parser_print_common.c: one page of two texts with a separator between them.
pub mod Windows
pub mod Plain
pub mod Pages
use ledger_namada.Common.{
  ℕ, zero, suc, ◌+◌, ◌-◌, ◌*◌, ◌/◌, ◌%◌, ◌^◌, Option, none, some, List, [], ◌∷◌, ◌++◌, take, length,
  ltb, leb, ◌==◌, ◌||◌, ◌&&◌, not, if◌then◌else◌,
}

-- The text behind its first n bytes.
abbrev pub drop {ℓ} : {A : Type ℓ} → ℕ → List A → List A
drop zero xs = xs
drop (suc n) [] = []
drop (suc n) (x ∷ xs) = drop n xs

-- *pageCount: the whole pages of `room` characters, and one for the rest, if there is one; on a uint8_t.
unfoldable pub pages_of : ℕ → ℕ → ℕ
pages_of room n = (n / room + (if n % room == 0 then 0 else 1)) % 256

-- firstPartLen, a uint16_t as the places and lengths below
unfoldable pub first_part : List ℕ → ℕ → ℕ → List ℕ
first_part first start room =
    if ltb start (length first)
    then take ((if leb (start + room) (length first) then room else length first - start) % 2 ^ 16)
        (drop start first)
    else []

-- sepCopyLen; `copied` is outValPos so far.
unfoldable pub separator_part : ℕ → List ℕ → ℕ → ℕ → ℕ → ℕ → List ℕ
separator_part first_len separator start end room copied =
    let shown = start + copied in
    let left =
      if ltb first_len shown
      then length separator - (shown - first_len) % 2 ^ 16
      else length separator in
    if leb start first_len && ltb first_len end
    then take ((if ltb room (left + copied) then room - copied else left) % 2 ^ 16) separator
    else []

-- secondStartPos and secondPartLen
unfoldable pub second_part : ℕ → List ℕ → ℕ → ℕ → ℕ → ℕ → List ℕ
second_part before second start end room copied =
    let second_start = (if ltb before start then start - before else 0) % 2 ^ 16 in
    let left = (length second + 2 ^ 16 - second_start) % 2 ^ 16 in
    if ltb before end
    then take ((if ltb room (copied + left) then room - copied else left) % 2 ^ 16)
        (drop second_start second)
    else []

-- The page and *pageCount, or parser_unexpected_error. `room` is outValLen - 1, at least 1; pageStartPos,
-- endPos and outValPos are uint16_t.
unfoldable pub join_strings : List ℕ → List ℕ → List ℕ → ℕ → ℕ → Option (List ℕ × ℕ)
join_strings first second separator room page_idx =
    let total = length first + length separator + length second in
    let count = pages_of room total in
    let start = page_idx * room % 2 ^ 16 in
    let end = (if ltb (start + room) (total + 1) then start + room else total + 1) % 2 ^ 16 in
    let one = first_part first start room in
    let copied = length one % 2 ^ 16 in
    let two = separator_part (length first) separator start end room copied in
    let three =
      second_part (length first + length separator) second start end room
        ((copied + length two) % 2 ^ 16) in
    if leb count page_idx then none else some (one ++ two ++ three, count)

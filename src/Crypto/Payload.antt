-- ===== src/Crypto/Payload.antt =====
-- The bytes that crypto_encodeAltAddress of app/src/crypto_helper.c encodes.
use ledger_namada.Common.{
  ℕ, zero, suc, ◌≤◌, ◌<◌, ◌≡◌, refl, sym, ap, ◌∙◌, arith, Bool, true, false, ◌||◌, some, List, [],
  ◌∷◌, take, length, replicate, leb, ◌==◌, if◌then◌else◌,
}
use ledger_namada.Common.Bits.{agree_below, agree_below→eq}
use mathlib.Core.Option
use ledger_namada.Reader.{Bytes}
use ledger_namada.Address.{AddressAlt, InternalAddress}
use ledger_namada.Crypto.{internal_prefix, internal_body, address_payload}

-- What an address is: an established or implicit one is its hash, and an internal one its tag,
-- with the hash of the token where the tag has one.
pub data Address : Type 0 where
  established implicit : List ℕ → Address
  internal : ℕ → Address
  internal_token : ℕ → List ℕ → Address
  unknown_tag : Address

abbrev pub has_token : ℕ → Bool
has_token tag = (tag == 4) || ((tag == 8) || (tag == 9))

-- A tag that the app knows, and what readAddressAlt reads behind it: the hash of an established or an
-- implicit address, the token of an internal one that has one.
pub record IsKnown (a : AddressAlt) : Type 0 where
  pub tag_ok : a.tag < 3
  pub hash_ok : a.tag < 2 → length a.hash.content ≡ 20
  pub internal_ok : a.tag ≡ 2 → a.internal.tag < 14
  pub token_ok : a.tag ≡ 2 → has_token a.internal.tag ≡ true → length a.internal.token.content ≡ 20

abbrev pub internal_of : ℕ → List ℕ → Address
internal_of tag token = if has_token tag then internal_token tag token else internal tag

abbrev pub address_of : AddressAlt → Address
address_of a =
    if a.tag == 0
    then established a.hash.content
    else if a.tag == 1
    then implicit a.hash.content
    else if a.tag == 2
    then internal_of a.internal.tag a.internal.token.content
    else unknown_tag

-- The tag for a prefix, read off the PREFIX_* constants.
abbrev tag_of_prefix : ℕ → ℕ
tag_of_prefix p =
    if p == 2
    then 0
    else if p == 3
    then 1
    else if p == 4
    then 2
    else if p == 6
    then 3
    else if p == 13
    then 4
    else if p == 5
    then 5
    else if p == 7
    then 6
    else if p == 8
    then 7
    else if p == 11
    then 8
    else if p == 12
    then 9
    else if p == 9
    then 10
    else if p == 10
    then 11
    else if p == 14
    then 12
    else if p == 15
    then 13
    else 14

abbrev address_of_payload : List ℕ → Address
address_of_payload [] = unknown_tag
address_of_payload (p ∷ body) =
    if p == 0
    then implicit body
    else if p == 1
    then established body
    else internal_of (tag_of_prefix p) body

tag_of_prefix-internal_prefix : (t : ℕ) → t < 14 → tag_of_prefix (internal_prefix t) ≡ t
unfolding agree_below internal_prefix
tag_of_prefix-internal_prefix t h =
    agree_below→eq (λ t. tag_of_prefix (internal_prefix t)) (λ t. t) 14 refl t h

abbrev low : ℕ → ℕ
low p = if leb 2 p then 0 else 1

internal_prefix_high : (t : ℕ) → t < 14 → 2 ≤ internal_prefix t
unfolding agree_below internal_prefix
internal_prefix_high t h =
    high (internal_prefix t) (agree_below→eq (λ t. low (internal_prefix t)) (λ t. 0) 14 refl t h)
  where
    high : (p : ℕ) → low p ≡ 0 → 2 ≤ p
    high p e = ground arith

take-length : (n : ℕ) (xs : List ℕ) → length xs ≡ n → take n xs ≡ xs
take-length zero [] h = refl
take-length zero (x ∷ xs) h = absurd (omega arith)
take-length (suc n) [] h = refl
take-length (suc n) (x ∷ xs) h = ap (λ ys. x ∷ ys) (take-length n xs (omega arith))

-- The body behind the prefix is the token's hash, or is not looked at.
internal_of-internal_body :
    (a : InternalAddress)
    → (has_token a.tag ≡ true → length a.token.content ≡ 20)
    → internal_of a.tag (internal_body a) ≡ internal_of a.tag a.token.content
unfolding internal_body
internal_of-internal_body a h =
    by_tests (a.tag == 4) (a.tag == 8) (a.tag == 9) (λ t. take-length 20 a.token.content (h t))
  where
    by_tests :
        (x y z : Bool)
        → ((x || (y || z)) ≡ true → take 20 a.token.content ≡ a.token.content)
        → (if x || (y || z)
            then internal_token a.tag (
                if x
                then take 20 a.token.content
                else if y
                then take 20 a.token.content
                else if z
                then take 20 a.token.content
                else replicate 20 0)
            else internal a.tag)
          ≡ (if x || (y || z) then internal_token a.tag a.token.content else internal a.tag)
    by_tests true y z e = ap (internal_token a.tag) (e refl)
    by_tests false true z e = ap (internal_token a.tag) (e refl)
    by_tests false false true e = ap (internal_token a.tag) (e refl)
    by_tests false false false e = refl

payload_lem :
    (tag : ℕ) (hash : Bytes) (i : InternalAddress)
    → IsKnown (record { tag = tag; hash = hash; internal = i })
    → Option.map address_of_payload
        (address_payload (record { tag = tag; hash = hash; internal = i }))
      ≡ some (address_of (record { tag = tag; hash = hash; internal = i }))
unfolding address_payload
payload_lem zero hash i k =
    ap (λ x. some (established x)) (take-length 20 hash.content (k.hash_ok (omega arith)))
payload_lem (suc zero) hash i k =
    ap (λ x. some (implicit x)) (take-length 20 hash.content (k.hash_ok (omega arith)))
payload_lem (suc (suc zero)) hash i k =
    rw
      (
        not_zero (internal_prefix i.tag) high,
        not_one (internal_prefix i.tag) high,
        tag_of_prefix-internal_prefix i.tag (k.internal_ok refl),
      )
      (ap some (internal_of-internal_body i (k.token_ok refl)))
  where
    high : 2 ≤ internal_prefix i.tag
    high = internal_prefix_high i.tag (k.internal_ok refl)

    not_zero : (p : ℕ) → 2 ≤ p → (p == 0) ≡ false
    not_zero p h = ground arith

    not_one : (p : ℕ) → 2 ≤ p → (p == 1) ≡ false
    not_one p h = ground arith
payload_lem (suc (suc (suc t))) hash i k = absurd (too_big t k.tag_ok)
  where
    too_big : (n : ℕ) → suc (suc (suc n)) < 3 → ⊥
    too_big n h = omega arith

-- Two addresses with known tags, each with the 20 bytes that its tag has, if it has any, that give the
-- same bytes are the same address:
-- the same kind and, as far as the kind has them, the same hash, internal tag and token.
pub address_payload-injective :
    (a b : AddressAlt)
    → IsKnown a
    → IsKnown b
    → address_payload a ≡ address_payload b
    → address_of a ≡ address_of b
address_payload-injective a b ka kb e = some_injective (
    sym (payload_lem a.tag a.hash a.internal ka)
    ∙ ap (Option.map address_of_payload) e
    ∙ payload_lem b.tag b.hash b.internal kb)
  where
    some_injective : some (address_of a) ≡ some (address_of b) → address_of a ≡ address_of b
    some_injective h = cc

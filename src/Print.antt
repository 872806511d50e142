-- ===== src/Print.antt =====
-- What the device shows of a transaction: app/src/parser_print_txn.c and app/src/parser_print_common.c.
-- A print function answers an item: the key, and the call that writes its value, which Print/Text runs.
-- `outKey` and the value are written whole on success only, so an error is the whole answer.
pub mod Common
pub mod Simple
pub mod Several
pub mod Proposal
pub mod Masp
pub mod Fields
pub mod Text
pub mod Joined
pub mod Signed
pub mod Runs
pub mod Items
pub mod Shown
pub mod Count
pub mod Validate
mod Tests
use Prim.Native.String.{String}
use ledger_namada.Common.{
  ℕ, zero, suc, ◌+◌, ◌-◌, ◌%◌, Bool, ◌&&◌, List, [], ◌∷◌, leb, if◌then◌else◌,
}
use ledger_namada.Reader.{Bytes}
use ledger_namada.Address.{AddressAlt}
use ledger_namada.Txn.Ibc.{Timestamp}

-- What a case of a switch writes to outVal.
pub data Value : Type 0 where
  -- snprintf of a text
  words : String → Value
  -- printAddressAlt
  address : AddressAlt → Value
  -- printAmount: the bytes, isSigned, the denomination and the symbol
  amount : Bytes → Bool → ℕ → String → Value
  -- printPublicKey
  public_key : Bytes → Value
  -- array_to_hexstr into a buffer of the size, and pageString
  hex_string : ℕ → List ℕ → Value
  -- pageStringHex
  page_hex : List ℕ → Value
  -- pageString of a text, and pageStringExt of bytes
  page : String → Value
  page_ext : Bytes → Value
  -- uint64_to_str into outVal, and through a buffer of the size and pageString
  number : ℕ → Value
  page_number : ℕ → ℕ → Value
  -- snprintf with "%s" of uint64_to_str, and with "%d"
  small_number : ℕ → Value
  decimal : ℕ → Value
  -- "0x", array_to_hexstr and pageStringExt of the whole buffer of 45 characters
  ethereum : List ℕ → Value
  -- two numbers with "-" between them, paged
  height : ℕ → ℕ → Value
  -- printTimestamp, and the date of an IBC timeout
  timestamp : Bytes → Value
  date : Timestamp → Value
  -- joinStrings
  joined : Bytes → Bytes → String → Value
  -- crypto_encodeLargeBech32, with its paymentAddr
  large_bech32 : List ℕ → Bool → Value
  -- printAmount whose error is dropped
  loose_amount : Bytes → ℕ → Value
  -- printAddressAlt whose error is dropped
  loose_address : AddressAlt → Value
  -- nothing is written
  untouched : Value

pub record Item : Type 0 where
  pub key : String
  pub value : Value

abbrev pub item : String → Value → Item
item key value = record { key = key; value = value }

-- A switch whose cases are 0, 1, 2 and so on.
abbrev pub switch {ℓ} : {A : Type ℓ} → ℕ → List A → A → A
switch i [] other = other
switch zero (a ∷ cases) other = a
switch (suc i) (a ∷ cases) other = switch i cases other

-- `if (displayIdx >= k && absent) { displayIdx++; }` on a uint8_t
abbrev pub bump : ℕ → Bool → ℕ → ℕ
bump k absent i = if leb k i && absent then (i + 1) % 256 else i

-- Bumps, the first one first.
abbrev pub bumps : List (ℕ × Bool) → ℕ → ℕ
bumps [] i = i
bumps ((k, absent) ∷ bs) i = bumps bs (bump k absent i)

-- `displayIdx - n` on a uint8_t, n at most 256
abbrev pub minus : ℕ → ℕ → ℕ
minus i n = (i + 256 - n) % 256

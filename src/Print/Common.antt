-- ===== src/Print/Common.antt =====
-- printCodeHash, printMemo and printExpert of app/src/parser_print_common.c
use Prim.Native.String.{String}
use ledger_namada.Common.{
  ℕ, Bool, true, false, Option, none, some, List, [], ◌∷◌, ◌==◌, if◌then◌else◌,
}
use ledger_namada.Reader.{unexpected_error, display_idx_out_of_range, Reader, ◌>>=◌, pure, fail}
use ledger_namada.Crypto.{Section}
use ledger_namada.Transaction.{ParserTx}
use ledger_namada.Txn.Linked.{section_at}
use ledger_namada.Print.{
  Item, item, words, hex_string, page_ext, page_hex, timestamp, public_key, number, amount, address,
  switch, bump, bumps, minus,
}

abbrev pub is_some {ℓ} : {A : Type ℓ} → Option A → Bool
is_some none = false
is_some (some a) = true

unfoldable pub print_code_hash : Section → Item
print_code_hash code_section = item "Code hash" (
    if code_section.commitment_discriminant == 0
    then hex_string 65 code_section.bytes_hash
    else hex_string 65 code_section.bytes.content)

-- Item 0 of every transaction: in expert mode the code hash is written over the name.
unfoldable pub print_type : Bool → ParserTx → String → Item
print_type expert tx name =
    if expert then print_code_hash tx.sections.code else item "Type" (words name)

unfoldable pub memo_item : Section → Item
memo_item s =
    if s.commitment_discriminant == 0
    then item "Memo Hash" (page_hex s.bytes_hash)
    else item "Memo" (page_ext s.bytes)

abbrev pub has_memo : ParserTx → Bool
has_memo tx = is_some tx.memo_section

-- printMemo
unfoldable pub print_memo : ParserTx → Reader Item
print_memo tx = elim tx.memo_section [
  | none ↦ fail unexpected_error
  | some i ↦ do s ← section_at tx.sections.extra_data i; pure (memo_item s)
]

abbrev pub fees_item : ParserTx → Item
fees_item tx = item "Fees/gas unit" (amount tx.header.fees.amount true tx.header.fees.denom "")

unfoldable pub print_expert : ParserTx → ℕ → Reader Item
print_expert tx display_idx =
    switch (bump 4 (is_some tx.header.fees.symbol) display_idx)
      (pure (item "Timestamp" (timestamp tx.header.timestamp))
        ∷ pure (item "Pubkey" (public_key tx.header.pubkey))
        ∷ pure (item "Gas limit" (number tx.header.gas_limit))
        ∷ pure (
            if is_some tx.header.fees.symbol
            then fees_item tx
            else item "Fee token" (address tx.header.fees.address))
        ∷ pure (fees_item tx)
        ∷ [])
      (fail display_idx_out_of_range)

-- The default case: printExpert in expert mode, with the index less the items before it.
unfoldable pub print_others : Bool → ParserTx → ℕ → Reader Item
print_others expert tx display_idx =
    if expert then print_expert tx display_idx else fail display_idx_out_of_range

-- The bumps and the switch, with a default case.
unfoldable pub switch_at : List (ℕ × Bool) → List (Reader Item) → Reader Item → ℕ → Reader Item
switch_at bs cases other display_idx = switch (bumps bs display_idx) cases other

-- The bumps, the switch, and the default case behind its n cases.
unfoldable pub print_cases :
    Bool → ParserTx → List (ℕ × Bool) → List (Reader Item) → ℕ → ℕ → Reader Item
print_cases expert tx bs cases n display_idx =
    let i = bumps bs display_idx in switch i cases (print_others expert tx (minus i n))

-- ===== src/Print/Proposal.antt =====
-- printProposal of app/src/parser_print_common.c and printInitProposalTxn of
-- app/src/parser_print_txn.c
use Prim.Native.String.{String}
use ledger_namada.Common.{
  ℕ, zero, suc, ◌+◌, ◌-◌, ◌*◌, ◌%◌, ◌^◌, Bool, false, none, some, [], ◌∷◌, leb, ◌==◌, if◌then◌else◌,
}
use ledger_namada.Reader.{Reader, no_bytes, ◌>>=◌, pure, read_byte}
use ledger_namada.Address.{AddressAlt, no_address, read_address_alt}
use ledger_namada.Transaction.{ParserTx}
use ledger_namada.Txn.Fields.{Span}
use ledger_namada.Txn.Pgf.{
  PgfTarget, internal, ibc, PgfPaymentAction, read_pgf_payment_action, retro, pgf_target_ibc,
}
use ledger_namada.Txn.Proposal.{
  InitProposal, ProposalBody, default, default_with_wasm, pgf_steward, pgf_payment,
}
use ledger_namada.Print.{
  Item, item, words, address, amount, hex_string, page_hex, page_ext, page_number, untouched,
  switch, minus,
}
use ledger_namada.Print.Common.{print_type, print_memo, print_cases}
use ledger_namada.Print.Simple.{no_memo, coin_amount_decimal_places, coin_ticker}
use ledger_namada.Print.Several.{in_span}

abbrev pub proposal_name : ProposalBody → String
proposal_name default = "Default"
proposal_name (default_with_wasm sechash) = "Default"
proposal_name (pgf_steward n actions) = "PGF Steward"
proposal_name (pgf_payment n ibc_num actions) = "PGF Payment"

-- The loop over the steward actions: the last discriminant and address.
unfoldable pub last_steward_action : ℕ → ℕ × AddressAlt → Reader (ℕ × AddressAlt)
last_steward_action zero entry = pure entry
last_steward_action (suc n) entry = do
  add_rem_discriminant ← read_byte
  a ← read_address_alt
  last_steward_action n (add_rem_discriminant, a)

unfoldable pub print_steward_action : Span → ℕ → Reader Item
print_steward_action actions display_idx = do
  entry ← in_span actions (last_steward_action display_idx (0, no_address))
  pure (item (if entry.0 == 1 then "Remove" else "Add") (address entry.1))

-- pgfPayment after `= {0}`
abbrev pub no_payment : PgfPaymentAction
no_payment = record {
  action = 0;
  add_rem = none;
  target_type = 0;
  target = internal no_address no_bytes;
  length = 0;
}

-- The loop over the payment actions: printItemIdx, on a uint8_t, and the last action.
unfoldable pub payment_action_at : ℕ → ℕ → ℕ → PgfPaymentAction → Reader (ℕ × PgfPaymentAction)
payment_action_at zero display_idx print_item_idx a = pure (print_item_idx, a)
payment_action_at (suc n) display_idx print_item_idx a = do
  next ← read_pgf_payment_action
  let fields : ℕ = if next.target_type == pgf_target_ibc then 5 else 3
  let idx : ℕ = (print_item_idx + fields) % 256
  if leb display_idx idx then pure (idx, next) else payment_action_at n display_idx idx next

abbrev pub payment_name : PgfPaymentAction → String
payment_name a = if a.action == retro then "Retro Payment" else elim a.add_rem [
  | none ↦ "Add Continuous Payment"
  | some r ↦ if r == 0 then "Add Continuous Payment" else "Remove Continuous Payment"
]

-- The two switches on tmpIdx, which counts from the last field of the action down; the fields of a
-- target are as readPGFPaymentAction sets them for its type.
unfoldable pub payment_item : PgfPaymentAction → PgfTarget → ℕ → Item
payment_item a (internal target sum) i =
    switch i
      (item "Amount" (amount sum false coin_amount_decimal_places coin_ticker)
        ∷ item "Target" (address target)
        ∷ item "PGF Action" (words (payment_name a))
        ∷ [])
      (item "?" untouched)
payment_item a (ibc target sum port_id channel_id) i =
    switch i
      (item "Channel ID" (page_ext channel_id)
        ∷ item "Port ID" (page_ext port_id)
        ∷ item "Amount" (amount sum false coin_amount_decimal_places coin_ticker)
        ∷ item "Target" (page_ext target)
        ∷ item "PGF Action" (words (payment_name a))
        ∷ [])
      (item "?" untouched)

unfoldable pub print_payment_action : ℕ → Span → ℕ → Reader Item
print_payment_action n actions display_idx = do
  found ← in_span actions (payment_action_at n display_idx 0 no_payment)
  pure (payment_item found.1 found.1.target (minus found.0 display_idx))

unfoldable pub print_proposal : InitProposal → ℕ → Reader Item
print_proposal p zero = pure (item "Proposal type" (words (proposal_name p.body)))
print_proposal p (suc i) = elim p.body [
  | default ↦ pure (item "Proposal hash" (page_hex p.links.proposal_code_hash.content))
  | default_with_wasm sechash ↦
      pure (item "Proposal hash" (page_hex p.links.proposal_code_hash.content))
  | pgf_steward n actions ↦ print_steward_action actions (suc i)
  | pgf_payment n ibc_num actions ↦ print_payment_action n actions (suc i)
]

-- proposalElements, on a uint32_t
unfoldable pub proposal_elements : ProposalBody → ℕ
proposal_elements default = 1
proposal_elements (default_with_wasm sechash) = 2
proposal_elements (pgf_steward n actions) = (1 + n) % 2 ^ 32
proposal_elements (pgf_payment n ibc_num actions) = (1 + 3 * n + 2 * ibc_num) % 2 ^ 32

abbrev pub adjusted_proposal_index : ℕ → ℕ → ℕ
adjusted_proposal_index elements i =
    if leb ((1 + elements) % 2 ^ 32) i
    then (i + 1 + 2 ^ 32 - elements) % 256
    else if leb 1 i
    then 1
    else i

module _ (expert : Bool) (tx : ParserTx) where
  unfoldable pub print_init_proposal_txn : InitProposal → ℕ → Reader Item
  print_init_proposal_txn p display_idx =
      print_cases expert tx ((7, no_memo tx) ∷ [])
        (pure (print_type expert tx "Init proposal")
          ∷ print_proposal p ((display_idx - 1) % 256)
          ∷ pure (item "Author" (address p.author))
          ∷ pure (item "Voting start epoch" (page_number 25 p.voting_start_epoch))
          ∷ pure (item "Voting end epoch" (page_number 25 p.voting_end_epoch))
          ∷ pure (item "Activation epoch" (page_number 25 p.activation_epoch))
          ∷ pure (item "Content" (hex_string 65 p.links.content_hash.content))
          ∷ print_memo tx
          ∷ [])
        8 (adjusted_proposal_index (proposal_elements p.body) display_idx)

-- ===== src/Print/Several.antt =====
-- printInitAccountTxn, printUpdateVPTxn and printUpdateStewardCommission of
-- app/src/parser_print_txn.c, which show several keys or entries.
use ledger_namada.Common.{
  ℕ, zero, suc, ◌+◌, ◌-◌, ◌*◌, ◌/◌, ◌%◌, ◌^◌, Bool, true, none, some, [], ◌∷◌, ltb, ◌==◌, ◌&&◌,
  if◌then◌else◌,
}
use ledger_namada.Reader.{
  unexpected_error, Ctx, ok, err, fault, Reader, Bytes, address_of, no_bytes, ◌>>=◌, pure, fail,
  read_bytes, read_pubkey,
}
use ledger_namada.Address.{AddressAlt, no_address, read_address_alt}
use ledger_namada.Transaction.{ParserTx}
use ledger_namada.Txn.Fields.{Span}
use ledger_namada.Txn.Linked.{InitAccount, UpdateVp, VpLink}
use ledger_namada.Txn.Steward.{UpdateStewardCommission}
use ledger_namada.Print.{
  Item, item, Value, address, amount, public_key, page, page_hex, small_number, decimal,
}
use ledger_namada.Print.Common.{has_memo, print_type, print_memo, print_others, switch_at}
use ledger_namada.Print.Simple.{no_memo, pos_decimal_precision}

-- tmpCtx over the bytes of a span; the outer context stays.
abbrev pub open_span : (ℕ → ℕ) → Span → Ctx
open_span mem s = record { mem = mem; buffer = address_of s.ptr; buffer_len = s.len; offset = 0 }

unfoldable pub in_span : {A : Type 0} → Span → Reader A → Reader A
in_span s m c = elim (m (open_span c.mem s)) [ ok a d ↦ ok a c | err e ↦ err e | fault ↦ fault ]

-- The loop over readPubkey: the last key that is read.
unfoldable pub last_pubkey : ℕ → Bytes → Reader Bytes
last_pubkey zero pubkey = pure pubkey
last_pubkey (suc n) pubkey = do key ← read_pubkey; last_pubkey n key

unfoldable pub print_pubkey : Span → ℕ → Reader Item
print_pubkey pubkeys key_index = do
  pubkey ← in_span pubkeys (last_pubkey key_index no_bytes)
  pure (item "Public key" (public_key pubkey))

-- The index where `several` fields from `first` on count as one; on a uint32_t, then a uint8_t.
abbrev pub adjusted_index : ℕ → ℕ → ℕ → ℕ
adjusted_index first several i =
    if ltb i first
    then i
    else if ltb i ((first + several) % 2 ^ 32)
    then first
    else (i + 1 + 2 ^ 32 - several) % 256

-- `displayIdx -= n`, with n below 2 ^ 33
abbrev pub minus_long : ℕ → ℕ → ℕ
minus_long i n = (i + 2 ^ 33 - n) % 256

abbrev pub one_if : Bool → ℕ
one_if b = if b then 1 else 0

abbrev pub vp_value : Bool → VpLink → Value
vp_value expert vp = elim vp.vp_type_text [
  | none ↦ page_hex vp.vp_type_hash.content
  | some t ↦ if expert then page_hex vp.vp_type_hash.content else page t
]

-- The loop over the entries: the last address and rate that are read.
unfoldable pub last_commission : ℕ → AddressAlt × Bytes → Reader (AddressAlt × Bytes)
last_commission zero entry = pure entry
last_commission (suc n) entry = do
  a ← read_address_alt
  rate ← read_bytes 32
  last_commission n (a, rate)

unfoldable pub print_commission : Span → ℕ → Reader Item
print_commission commission display_idx = do
  entry ← in_span commission (last_commission (display_idx / 2) (no_address, no_bytes))
  pure (
      if display_idx % 2 == 0
      then item "Validator" (address entry.0)
      else item "Commission Rate" (amount entry.1 true pos_decimal_precision ""))

module _ (expert : Bool) (tx : ParserTx) where
  unfoldable pub print_init_account_txn : InitAccount → ℕ → Reader Item
  print_init_account_txn a display_idx =
      switch_at ((4, no_memo tx) ∷ [])
        (pure (print_type expert tx "Init Account")
          ∷ (if a.number_of_pubkeys == 0
              then fail unexpected_error
              else print_pubkey a.pubkeys ((1 + (display_idx - 1)) % 256))
          ∷ pure (item "Threshold" (small_number a.threshold))
          ∷ pure (item "VP type" (vp_value expert a.vp))
          ∷ print_memo tx
          ∷ [])
        (print_others expert tx
          (minus_long display_idx (3 + a.number_of_pubkeys + one_if (has_memo tx))))
        (adjusted_index 1 a.number_of_pubkeys display_idx)

  unfoldable pub print_update_vp_txn : UpdateVp → ℕ → Reader Item
  print_update_vp_txn u display_idx =
      switch_at ((3, u.has_threshold == 0) ∷ (4, u.has_vp_code == 0) ∷ (5, no_memo tx) ∷ [])
        (pure (print_type expert tx "Update Account")
          ∷ pure (item "Address" (address u.address))
          ∷ (if u.number_of_pubkeys == 0
              then fail unexpected_error
              else print_pubkey u.pubkeys ((1 + (display_idx - 2)) % 256))
          ∷ (if u.has_threshold == 0
              then fail unexpected_error
              else pure (item "Threshold" (decimal u.threshold)))
          ∷ pure (item "VP type" (vp_value expert u.vp))
          ∷ print_memo tx
          ∷ [])
        (print_others expert tx (
          minus_long display_idx (
            5
            + u.number_of_pubkeys
            - one_if (u.has_threshold == 0)
            - one_if (u.has_vp_code == 0)
            - one_if (no_memo tx))))
        (adjusted_index 2 u.number_of_pubkeys display_idx)

  unfoldable pub print_update_steward_commission : UpdateStewardCommission → ℕ → Reader Item
  print_update_steward_commission u i =
      if i == 0
      then pure (print_type expert tx "Update Steward Commission")
      else if i == 1
      then pure (item "Steward" (address u.steward))
      else if ltb i ((2 + 2 * u.commission_len) % 2 ^ 32)
      then print_commission u.commission i
      else if has_memo tx && ltb i ((2 + 2 * u.commission_len + 1) % 2 ^ 32)
      then print_memo tx
      else print_others expert tx
          (minus_long i (2 + 2 * u.commission_len % 2 ^ 32 + one_if (has_memo tx)))

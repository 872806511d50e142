-- ===== src/Print/Masp.antt =====
-- printMaspTransferTxn of app/src/parser_print_txn.c with its static indices, and getSpendfromIndex and
-- getOutputfromIndex.
pub mod Rebase
pub mod Walk
use Prim.Native.String.{String}
use ledger_namada.Common.{
  ℕ, zero, suc, ◌+◌, ◌-◌, ◌*◌, ◌%◌, ◌^◌, Bool, true, false, Option, none, some, List, [], ◌∷◌, ◌++◌,
  take, replicate, ltb, leb, ◌==◌, ◌&&◌, not, if◌then◌else◌,
}
use ledger_namada.Reader.{
  Ctx, Outcome, ok, fault, Reader, Ptr, Bytes, buf, address_of, load, slice, ◌>>=◌, pure,
}
use ledger_namada.Address.{AddressAlt}
use ledger_namada.Transaction.{ParserTx}
use ledger_namada.Transaction.Items.{builder_spends, builder_outputs}
use ledger_namada.Txn.Fields.{Span}
use ledger_namada.Txn.Transfer.{Transfer}
use ledger_namada.Masp.Bundle.{asset_id_len}
use ledger_namada.Masp.Builder.{
  MaspBuilderSection, AssetData, no_asset, extended_fvk_len, diversifier_len, note_len,
  out_note_len, payment_addr_len, memo_len,
}
use ledger_namada.Print.{
  Item, item, Value, address, amount, hex_string, large_bech32, loose_amount, switch, bump, minus,
}
use ledger_namada.Print.Common.{print_type, print_memo, print_others}
use ledger_namada.Print.Simple.{no_memo}

-- The address behind `index` spends, and behind `index` outputs.
unfoldable pub get_spend_from_index : (ℕ → ℕ) → ℕ → ℕ → ℕ
get_spend_from_index mem zero spend = spend
get_spend_from_index mem (suc index) spend =
    let end = spend + (extended_fvk_len + diversifier_len + note_len) in
    get_spend_from_index mem index (end + 1 + load mem end * (32 + 1) + 8)

abbrev pub skip_ovk : (ℕ → ℕ) → ℕ → ℕ
skip_ovk mem out = out + (if load mem out == 0 then 1 else 33)

unfoldable pub get_output_from_index : (ℕ → ℕ) → ℕ → ℕ → ℕ
get_output_from_index mem zero out = out
get_output_from_index mem (suc index) out =
    get_output_from_index mem index
      (skip_ovk mem out + (diversifier_len + payment_addr_len + out_note_len + memo_len))

-- spend_index and out_index, static and of type uint16_t.
pub record Indices : Type 0 where
  pub spend_index : ℕ
  pub out_index : ℕ

-- n_send_items and n_dest_items
abbrev pub n_items : ℕ → ℕ
n_items n = if ltb 0 n then n * 3 % 2 ^ 32 else 3

-- The index where the items of a shielded side with no description are passed over.
unfoldable pub passed_over : ℕ → ℕ → Transfer → ℕ → ℕ
passed_over n_spends n_outs t display_idx =
    let i =
      if leb 1 display_idx && (n_spends == 0 && t.source_address.tag == 2)
      then (display_idx + 3) % 256
      else display_idx in
    if leb 4 i && (n_outs == 0 && t.target_address.tag == 2) then (i + 3) % 256 else i

-- The first rebase: the spends.
unfoldable pub rebase_spends : ℕ → ℕ → ℕ → Indices → ℕ × Indices
rebase_spends n_send page_idx i st =
    if ltb 3 n_send
    then (if leb 4 i && leb i n_send
        then (let j : ℕ = if i % 3 == 0 then 3 else i % 3 in
            (
              j,
              if j == 1 && page_idx == 0
                  then record st { spend_index = (st.spend_index + 1) % 2 ^ 16 }
                  else st,
            ))
        else if ltb n_send i
        then (((i + 3 + 2 ^ 32 - n_send) % 256), record st { spend_index = 0 })
        else (i, st))
    else (i, st)

-- The second one: the outputs. `orig` is the index before the first.
unfoldable pub rebase_outputs : ℕ → ℕ → ℕ → ℕ → ℕ → Indices → ℕ × Indices
rebase_outputs n_send n_dest page_idx orig i st =
    let end = (n_send + n_dest) % 2 ^ 32 in
    if ltb 3 n_dest
    then (if leb 7 i && (leb i end && leb orig end)
        then (let j : ℕ = i % 6 + 3 in
            (
              j,
              if j == 4 && page_idx == 0
                  then record st { out_index = (st.out_index + 1) % 2 ^ 16 }
                  else st,
            ))
        else if ltb n_dest i
        then (((i + 3 + 2 ^ 32 - n_dest) % 256), record st { out_index = 0 })
        else (i, st))
    else (i, st)

-- The case of the switch that an index leads to, before the memo is looked at, and the static indices.
unfoldable pub masp_case : ℕ → ℕ → Transfer → ℕ → ℕ → Indices → ℕ × Indices
masp_case n_spends n_outs t page_idx display_idx st =
    let i = passed_over n_spends n_outs t display_idx in
    let st' : Indices = if i == 0 then record { spend_index = 0; out_index = 0 } else st in
    let spends = rebase_spends (n_items n_spends) page_idx i st' in
    rebase_outputs (n_items n_spends) (n_items n_outs) page_idx i spends.0 spends.1

abbrev pub spends_of : Option MaspBuilderSection → ℕ
spends_of none = 0
spends_of (some b) = address_of b.builder.sapling_builder.spends.ptr

abbrev pub outputs_of : Option MaspBuilderSection → ℕ
outputs_of none = 0
outputs_of (some b) = address_of b.builder.sapling_builder.outputs.ptr

abbrev pub asset_of : Option MaspBuilderSection → AssetData
asset_of none = no_asset
asset_of (some b) = b.asset_data

-- The eight bytes of an amount in the array of 32, which is on the stack and not in the memory of the
-- transaction; `position` may lead behind it.
unfoldable pub placed_amount : ℕ → List ℕ → Reader Bytes
placed_amount place sum =
    if ltb 3 place
    then (λ c. fault)
    else pure (record {
      ptr = buf 0;
      len = 32;
      content = take 32 (replicate (place * 8) 0 ++ sum ++ replicate 32 0);
    })

module _ (expert : Bool) (tx : ParserTx) where
  unfoldable pub masp_amount : String → ℕ → Reader Item
  masp_amount key p c =
      let asset = asset_of tx.sections.masp_builder in
      (do
        sum ← placed_amount asset.position (slice c.mem p 8)
        pure (item key (loose_amount sum asset.denom)))
        c

  -- The switch, with the pointers to the spend and to the output.
  unfoldable pub masp_item : Transfer → (ℕ → ℕ) → ℕ → ℕ → ℕ → Reader Item
  masp_item t mem spend out i =
      let from_body = not (t.source_address.tag == 2) in
      let to_body = not (t.target_address.tag == 2) in
      let note = skip_ovk mem out in
      let paid = note + (payment_addr_len + diversifier_len) in
      let sum = amount t.amount false t.amount_denom "" in
      switch i
        (pure (print_type expert tx "Transfer")
          ∷ pure (
              item "Sender" (
                if from_body
                then address t.source_address
                else large_bech32 (slice mem spend extended_fvk_len) false))
          ∷ pure (
              item "Sending Token" (
                if from_body
                then address t.token
                else hex_string 500
                    (slice mem (spend + (extended_fvk_len + diversifier_len)) asset_id_len)))
          ∷ (if from_body
              then pure (item "Sending Amount" sum)
              else masp_amount "Sending Amount"
                  (spend + (extended_fvk_len + diversifier_len + asset_id_len)))
          ∷ pure (
              item "Destination" (
                if to_body
                then address t.target_address
                else large_bech32 (slice mem note (payment_addr_len + diversifier_len)) true))
          ∷ pure (
              item "Receiving Token"
                (if to_body then address t.token else hex_string 500 (slice mem paid asset_id_len)))
          ∷ (if to_body
              then pure (item "Receiving Amount" sum)
              else masp_amount "Receiving Amount" (paid + asset_id_len))
          ∷ print_memo tx
          ∷ [])
        (print_others expert tx (minus i 8))

  -- With the static indices that a call finds and leaves; the pointers move on only where there is
  -- more than one description.
  unfoldable pub print_masp_transfer_txn :
      Transfer → ℕ → ℕ → Indices → (ℕ → ℕ) → Reader Item × Indices
  print_masp_transfer_txn t page_idx display_idx st mem =
      let builder = tx.sections.masp_builder in
      let n_spends = builder_spends builder in
      let n_outs = builder_outputs builder in
      let i = masp_case n_spends n_outs t page_idx display_idx st in
      let spend =
        if ltb 3 (n_items n_spends)
        then get_spend_from_index mem i.1.spend_index (spends_of builder)
        else spends_of builder in
      let out =
        if ltb 3 (n_items n_outs)
        then get_output_from_index mem i.1.out_index (outputs_of builder)
        else outputs_of builder in
      (masp_item t mem spend out (bump 7 (no_memo tx) i.0), i.1)

-- ===== src/Print/Count/Answered.antt =====
-- What parser_getItem of app/src/parser.c answers.
use ledger_namada.Common.{
  ℕ, zero, suc, ◌≤◌, ◌<◌, ◌≡◌, refl, sym, ap, ◌∙◌, arith, Bool, false, Option, none, some, List, [],
  ◌∷◌, length, leb, if◌then◌else◌, Bool-cases, inl, inr,
}
use ledger_namada.Reader.{
  display_idx_out_of_range, unexpected_number_items, Reader, ◌>>=◌, pure, fail,
}
use ledger_namada.Crypto.{Library, codes}
use ledger_namada.Transaction.{ParserTx}
use ledger_namada.Print.{Item}
use ledger_namada.Print.Masp.{Indices}
use ledger_namada.Print.Fields.{print_txn_fields}
use ledger_namada.Print.Text.{Format, print_into, print_value, parser_get_item}
use ledger_namada.Print.Items.{item_at, items}
use ledger_namada.Print.Count.{HasFlags}
use ledger_namada.Print.Count.Complete.{print_txn_fields-items}

item_at-behind :
    (l : List (Reader Item)) (i : ℕ) → length l ≤ i → item_at l i ≡ fail display_idx_out_of_range
item_at-behind [] i h = refl
item_at-behind (a ∷ l) zero h = absurd (omega arith)
item_at-behind (a ∷ l) (suc i) h = item_at-behind l i (omega arith)

module _ (fmt : Format) (lib : Library) (hd_path : List ℕ) (out_val_len page_idx : ℕ) where
  -- The texts of an item, cut to the outputs.
  abbrev pub texts : ℕ → Reader Item → Reader (List ℕ × List ℕ × ℕ)
  texts out_key_len m = do
    i ← m
    v ← print_value fmt lib hd_path out_val_len page_idx i.value
    pure (print_into out_key_len (codes i.key), v.0, v.1)

  -- Where the transaction is not shielded, has less than 240 items and flags of 0 or 1, and is of a known
  -- type, parser_getItem answers the texts of the item in the list, and an index out of range behind it.
  pub parser_get_item-items :
      (expert : Bool) (tx : ParserTx) (out_key_len i : ℕ) (st : Indices) (mem : ℕ → ℕ)
      → tx.sections.is_masp ≡ false
      → HasFlags tx.tx_data
      → length (items expert tx tx.tx_data) < 240
      → i < 240
      → (parser_get_item fmt lib hd_path out_val_len page_idx expert tx out_key_len i st mem).0
        ≡ texts out_key_len (item_at (items expert tx tx.tx_data) i)
  unfolding parser_get_item fail ◌>>=◌
  parser_get_item-items expert tx out_key_len i st mem m f n h =
      let whole = print_txn_fields-items expert tx m f n in
      let list = items expert tx tx.tx_data in
      let printed = print_txn_fields expert tx page_idx i st mem in
      let answer : Option ℕ → Reader (List ℕ × List ℕ × ℕ) × Indices = λ o. elim o [
        | none ↦ (fail unexpected_number_items, st)
        | some k ↦
            if leb k i
            then (fail display_idx_out_of_range, st)
            else (texts out_key_len printed.0, printed.1)
      ] in
      ap (λ o. (answer o).0) whole.0 ∙ elim (Bool-cases (leb (length list) i)) [
        | inl e ↦
            ap
              (λ b.
                (let r : Reader (List ℕ × List ℕ × ℕ) × Indices =
                    if b
                    then (fail display_idx_out_of_range, st)
                    else (texts out_key_len printed.0, printed.1) in
                  r.0))
              e
            ∙ sym (ap (texts out_key_len) (item_at-behind list i (ground arith)))
        | inr e ↦
            ap
              (λ b.
                (let r : Reader (List ℕ × List ℕ × ℕ) × Indices =
                    if b
                    then (fail display_idx_out_of_range, st)
                    else (texts out_key_len printed.0, printed.1) in
                  r.0))
              e
            ∙ ap (texts out_key_len) (whole.1 page_idx i st mem h)
      ]

-- ===== src/Print/Validate.antt =====
-- The loop of parser_validate of app/src/parser.c over the printed items: with the indices that the
-- printer keeps, and with buffers of 40 characters for the key and the value.
use ledger_namada.Common.{
  ℕ, zero, suc, ◌+◌, ◌%◌, ◌<◌, ◌≡◌, refl, ap, ◌∙◌, arith, Bool, false, none, some, List, [], ◌∷◌,
  length,
}
use ledger_namada.Reader.{
  unexpected_number_items, Ctx, Outcome, ok, err, fault, and_then, Reader, ◌>>=◌, pure,
}
use ledger_namada.Crypto.{Library}
use ledger_namada.Transaction.{ParserTx}
use ledger_namada.Transaction.Items.{get_num_items}
use ledger_namada.Print.{Item}
use ledger_namada.Print.Masp.{Indices}
use ledger_namada.Print.Text.{Format, parser_get_item}
use ledger_namada.Print.Items.{item_at, items}
use ledger_namada.Print.Count.{HasFlags}
use ledger_namada.Print.Count.Complete.{print_txn_fields-items}
use ledger_namada.Print.Count.Answered.{texts, parser_get_item-items}

abbrev pub Answer : Type 0
Answer = List ℕ × List ℕ × ℕ

-- n rounds of the loop from the item idx on, with what the calls of parser_getItem leave in the
-- static indices.
unfoldable pub validate_from :
    (ℕ → Indices → Reader Answer × Indices) → ℕ → ℕ → Indices → Ctx → Outcome (Unit {0}) × Indices
validate_from get zero idx st c = (ok tt c, st)
validate_from get (suc n) idx st c =
    let got = get idx st in
    let rest : Ctx → Outcome (Unit {0}) × Indices = validate_from get n ((idx + 1) % 256) got.1 in
    elim (got.0 c) [ ok a d ↦ rest d | err e ↦ (err e, got.1) | fault ↦ (fault, got.1) ]

-- The calls of parser_getItem one behind the other, until one fails.
unfoldable pub all_answered : {A : Type 0} → (A → Reader Answer) → List A → Reader (Unit {0})
all_answered f [] = pure tt
all_answered f (a ∷ l) = do answer ← f a; all_answered f l

one_more :
    (o : Outcome Answer) (rest : Ctx → Outcome (Unit {0}) × Indices) (st : Indices)
    (k : Reader (Unit {0}))
    → ((d : Ctx) → (rest d).0 ≡ k d)
    → (let r : Outcome (Unit {0}) × Indices = elim o [
      | ok a d ↦ rest d
      | err e ↦ (err e, st)
      | fault ↦ (fault, st)
    ] in
        r.0)
      ≡ and_then o (λ answer. k)
one_more (ok a d) rest st k h = h d
one_more (err e) rest st k h = refl
one_more fault rest st k h = refl

validate_from-all_answered :
    (get : ℕ → Indices → Reader Answer × Indices) (f : Reader Item → Reader Answer)
    (l : List (Reader Item)) (idx : ℕ) (st : Indices) (c : Ctx)
    → idx + length l < 240
    → ((k : ℕ) (s : Indices) → k < length l → (get (idx + k) s).0 ≡ f (item_at l k))
    → (validate_from get (length l) idx st c).0 ≡ all_answered f l c
unfolding validate_from all_answered ◌>>=◌ pure
validate_from-all_answered get f [] idx st c h e = refl
validate_from-all_answered get f (a ∷ l) idx st c h e =
    one_more ((get idx st).0 c) (validate_from get (length l) ((idx + 1) % 256) (get idx st).1)
      (get idx st).1 (all_answered f l)
      (λ d.
        validate_from-all_answered get f l ((idx + 1) % 256) (get idx st).1 d (omega arith)
          (λ k s below.
            ap (λ i. (get i s).0) (place idx k (omega arith)) ∙ e (suc k) s (omega arith)))
    ∙ ap (λ m. and_then (m c) (λ answer. all_answered f l))
        (ap (λ i. (get i st).0) (first idx) ∙ e 0 st (omega arith))
  where
    first : (idx : ℕ) → idx ≡ idx + 0
    first idx = omega arith

    place : (idx k : ℕ) → idx + 1 < 256 → (idx + 1) % 256 + k ≡ idx + suc k
    place idx k h = omega arith

module _ (fmt : Format) (lib : Library) (hd_path : List ℕ) (expert : Bool) (tx : ParserTx) where
  -- parser_validate, from the indices that the printer was left with
  unfoldable pub validate_display : Indices → (ℕ → ℕ) → Ctx → Outcome (Unit {0}) × Indices
  validate_display st mem c = elim (get_num_items expert tx) [
    | none ↦ (err unexpected_number_items, st)
    | some n ↦
        validate_from (λ idx s. parser_get_item fmt lib hd_path 40 0 expert tx 40 idx s mem) n 0 st
          c
  ]

  -- Where the transaction is not shielded, has less than 240 items and flags of 0 or 1, and is of a known
  -- type, parser_validate answers what the first pages of the items of the list answer one behind the
  -- other, the first error included, whatever the printer was left with.
  pub validate_display-all_answered :
      tx.sections.is_masp ≡ false
      → HasFlags tx.tx_data
      → length (items expert tx tx.tx_data) < 240
      → (st : Indices) (mem : ℕ → ℕ) (c : Ctx)
      → (validate_display st mem c).0
        ≡ all_answered (texts fmt lib hd_path 40 0 40) (items expert tx tx.tx_data) c
  unfolding validate_display
  validate_display-all_answered m f n st mem c =
      let get : ℕ → Indices → Reader Answer × Indices =
        λ idx s. parser_get_item fmt lib hd_path 40 0 expert tx 40 idx s mem in
      ap
        (λ o.
          let r : Outcome (Unit {0}) × Indices = elim o [
            | none ↦ (err unexpected_number_items, st)
            | some n ↦ validate_from get n 0 st c
          ] in
          r.0)
        (print_txn_fields-items expert tx m f n).0
      ∙ validate_from-all_answered get (texts fmt lib hd_path 40 0 40) (items expert tx tx.tx_data)
          0 st c (omega (arith, n))
          (λ k s below.
            ap (λ i. (get i s).0) (from_zero k)
            ∙ parser_get_item-items fmt lib hd_path 40 0 expert tx 40 k s mem m f n
                (omega (arith, n, below)))
    where
      from_zero : (k : ℕ) → 0 + k ≡ k
      from_zero k = omega arith

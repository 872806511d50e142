-- ===== src/NvData/Reset.antt =====
-- transaction_reset of app/src/nvdata.c.
use ledger_namada.Common.{
  ℕ, zero, suc, ◌+◌, ◌%◌, ◌≡◌, refl, ◌∙◌, ap, arith, List, [], ◌∷◌, length, set, replicate, leb,
  false, true,
}
use ledger_namada.NvData.{
  NvData, SpendItem, OutputItem, ConvertItem, spend_list_size, repeat_append,
  spend_append_rand_item, output_append_rand_item, convert_append_rand_item,
  spend_signatures_append, zeroize_spends, zeroize_outputs, zeroize_converts, zeroize_signatures,
  transaction_reset,
}

-- The arrays have the sizes that nvdata.h declares.
pub record IsWellSized (d : NvData) : Type 0 where
  pub spends : length d.spends ≡ 15
  pub outputs : length d.outputs ≡ 15
  pub converts : length d.converts ≡ 15

module _ {A : Type 0} (a : A) where
  abbrev set_from : ℕ → ℕ → List A → List A
  set_from zero k xs = xs
  set_from (suc n) k xs = set_from n (suc k) (set xs k a)

  set_from-cons :
      (n k : ℕ) (x : A) (xs : List A) → set_from n (suc k) (x ∷ xs) ≡ x ∷ set_from n k xs
  set_from-cons zero k x xs = refl
  set_from-cons (suc n) k x xs = set_from-cons n (suc k) x (set xs k a)

  set_from-replicate : (n : ℕ) (xs : List A) → length xs ≡ n → set_from n 0 xs ≡ replicate n a
  set_from-replicate zero [] h = refl
  set_from-replicate zero (x ∷ xs) h = absurd (omega arith)
  set_from-replicate (suc n) [] h = absurd (omega arith)
  set_from-replicate (suc n) (x ∷ xs) h =
      set_from-cons n 0 a xs ∙ ap (λ ys. a ∷ ys) (set_from-replicate n xs (omega arith))

next : (n k : ℕ) → k + suc n ≡ 15 → (k + 1) % 256 ≡ suc k
next n k h = omega arith

fits : (n k : ℕ) → k + suc n ≡ 15 → leb 15 k ≡ false
fits n k h = ground arith

shift : (n k : ℕ) → k + suc n ≡ 15 → suc k + n ≡ 15
shift n k h = omega arith

last : (k : ℕ) → k + zero ≡ 15 → k ≡ 15
last k h = omega arith

abbrev zero_spend : SpendItem
zero_spend = record { rcv = 0; alpha = 0 }

abbrev zero_output : OutputItem
zero_output = record { rcv = 0; rcm = 0 }

abbrev zero_convert : ConvertItem
zero_convert = record { rcv = 0 }

spends_loop :
    (n : ℕ) (d : NvData)
    → d.spendlist_len + n ≡ 15
    → repeat_append (spend_append_rand_item 0 0) n d
      ≡ record d { spends = set_from zero_spend n d.spendlist_len d.spends; spendlist_len = 15 }
unfolding repeat_append spend_append_rand_item
spends_loop zero d h = rw (← last d.spendlist_len h) refl
spends_loop (suc n) d h =
    rw (fits n d.spendlist_len h, next n d.spendlist_len h)
      (spends_loop n
        (record d {
          spends = set d.spends d.spendlist_len zero_spend;
          spendlist_len = suc d.spendlist_len;
        })
        (shift n d.spendlist_len h))

outputs_loop :
    (n : ℕ) (d : NvData)
    → d.outputlist_len + n ≡ 15
    → repeat_append (output_append_rand_item 0 0) n d ≡ record d {
      outputs = set_from zero_output n d.outputlist_len d.outputs;
      outputlist_len = 15;
    }
unfolding repeat_append output_append_rand_item
outputs_loop zero d h = rw (← last d.outputlist_len h) refl
outputs_loop (suc n) d h =
    rw (fits n d.outputlist_len h, next n d.outputlist_len h)
      (outputs_loop n
        (record d {
          outputs = set d.outputs d.outputlist_len zero_output;
          outputlist_len = suc d.outputlist_len;
        })
        (shift n d.outputlist_len h))

converts_loop :
    (n : ℕ) (d : NvData)
    → d.convertlist_len + n ≡ 15
    → repeat_append (convert_append_rand_item 0) n d ≡ record d {
      converts = set_from zero_convert n d.convertlist_len d.converts;
      convertlist_len = 15;
    }
unfolding repeat_append convert_append_rand_item
converts_loop zero d h = rw (← last d.convertlist_len h) refl
converts_loop (suc n) d h =
    rw (fits n d.convertlist_len h, next n d.convertlist_len h)
      (converts_loop n
        (record d {
          converts = set d.converts d.convertlist_len zero_convert;
          convertlist_len = suc d.convertlist_len;
        })
        (shift n d.convertlist_len h))

-- Without spends no signature is stored.
signatures_refused :
    (n : ℕ) (d : NvData) → d.spendlist_len ≡ 0 → repeat_append (spend_signatures_append 0) n d ≡ d
unfolding repeat_append spend_signatures_append
signatures_refused zero d h = refl
signatures_refused (suc n) d h =
    rw (full d.spendlist_len d.spends_sign_index h) (signatures_refused n d h)
  where
    full : (s i : ℕ) → s ≡ 0 → leb s i ≡ true
    full s i e = ground arith

module _ (d : NvData) (ws : IsWellSized d) where
  zeroize_spends_lem :
      zeroize_spends d ≡ record d { spends = replicate 15 zero_spend; spendlist_len = 0 }
  unfolding zeroize_spends
  zeroize_spends_lem =
      ap (λ (e : NvData). record e { spendlist_len = 0 })
        (spends_loop 15 (record d { spendlist_len = 0 }) refl)
      ∙ ap (λ (xs : List SpendItem). record d { spends = xs; spendlist_len = 0 })
          (set_from-replicate zero_spend 15 d.spends ws.spends)

  zeroize_outputs_lem :
      zeroize_outputs d ≡ record d { outputs = replicate 15 zero_output; outputlist_len = 0 }
  unfolding zeroize_outputs
  zeroize_outputs_lem =
      ap (λ (e : NvData). record e { outputlist_len = 0 })
        (outputs_loop 15 (record d { outputlist_len = 0 }) refl)
      ∙ ap (λ (xs : List OutputItem). record d { outputs = xs; outputlist_len = 0 })
          (set_from-replicate zero_output 15 d.outputs ws.outputs)

  zeroize_converts_lem :
      zeroize_converts d ≡ record d { converts = replicate 15 zero_convert; convertlist_len = 0 }
  unfolding zeroize_converts
  zeroize_converts_lem =
      ap (λ (e : NvData). record e { convertlist_len = 0 })
        (converts_loop 15 (record d { convertlist_len = 0 }) refl)
      ∙ ap (λ (xs : List ConvertItem). record d { converts = xs; convertlist_len = 0 })
          (set_from-replicate zero_convert 15 d.converts ws.converts)

zeroize_signatures_lem :
    (d : NvData) → d.spendlist_len ≡ 0 → zeroize_signatures d ≡ record d { spends_sign_index = 0 }
unfolding zeroize_signatures
zeroize_signatures_lem d h =
    ap (λ (e : NvData). record e { spends_sign_index = 0 })
      (signatures_refused spend_list_size (record d { spends_sign_index = 0 }) h)

-- Where the arrays have their declared sizes, transaction_reset sets every counter to 0 and every random
-- value of the three arrays to zero, and leaves the spend signatures that are stored as they are.
pub transaction_reset_lem :
    (d : NvData)
    → IsWellSized d
    → transaction_reset d ≡ record {
      spendlist_len = 0;
      outputlist_len = 0;
      convertlist_len = 0;
      spends_sign_index = 0;
      spends = replicate spend_list_size (record { rcv = 0; alpha = 0 });
      outputs = replicate spend_list_size (record { rcv = 0; rcm = 0 });
      converts = replicate spend_list_size (record { rcv = 0 });
      spend_signatures = d.spend_signatures;
    }
unfolding transaction_reset
transaction_reset_lem d ws =
    let clear : NvData = record d {
      spendlist_len = 0;
      outputlist_len = 0;
      convertlist_len = 0;
      spends_sign_index = 0;
    } in
    let spent : NvData = record clear { spends = replicate 15 zero_spend } in
    let put : NvData = record spent { outputs = replicate 15 zero_output } in
    let converted : NvData = record put { converts = replicate 15 zero_convert } in
    ap (λ (e : NvData). zeroize_signatures (zeroize_converts (zeroize_outputs e)))
      (zeroize_spends_lem clear
        (record { spends = ws.spends; outputs = ws.outputs; converts = ws.converts }))
    ∙ ap (λ (e : NvData). zeroize_signatures (zeroize_converts e))
        (zeroize_outputs_lem spent
          (record { spends = refl; outputs = ws.outputs; converts = ws.converts }))
    ∙ ap zeroize_signatures (
        zeroize_converts_lem put (record { spends = refl; outputs = refl; converts = ws.converts }))
    ∙ zeroize_signatures_lem converted refl

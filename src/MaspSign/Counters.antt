-- ===== src/MaspSign/Counters.antt =====
-- What holds of the stored values of app/src/nvdata.c between two calls of app/src/crypto.c.
use mathlib.Core.Path.{subst}
use ledger_namada.Common.{
  ℕ, zero, suc, ◌+◌, ◌-◌, ◌%◌, ◌≤◌, ◌≡◌, refl, sym, arith, Bool, true, false, Option, none, some,
  List, length, length-set, leb, ltb, ◌==◌, Bool-cases, Option-cases, inl, inr, if◌then◌else◌,
}
use ledger_namada.NvData.{
  NvData, ZxErr, zxerr_ok, zxerr_unknown, spend_append_rand_item, output_append_rand_item,
  convert_append_rand_item, spendlist_retrieve_rand_item, spend_signatures_append,
  spend_signatures_more_extract, get_next_spend_signature, transaction_reset,
}
use ledger_namada.NvData.Reset.{transaction_reset_lem}
use ledger_namada.Sdk.{Sdk}
use ledger_namada.MaspSign.{
  MaspType, spend, output, convert, append_random, replied, number_of, random_bytes,
  compute_randomness,
}
use ledger_namada.Reader.{Outcome, ok, err, fault}
use ledger_namada.Masp.Bundle.{MaspTx}
use ledger_namada.Masp.Builder.{MaspBuilderSection}
use ledger_namada.MaspKeys.{Keys, sapling_keys}
use ledger_namada.MaspSign.Spends.{
  extract_spend_signature, sign_spends_loop, sign_sapling_spend, sign_spends_sapling, sign_checked,
  check_masp, crypto_sign_masp,
}

-- The counters stay within the arrays, and no more signatures are stored than there are spends.
pub record IsBounded (d : NvData) : Type 0 where
  pub spends : length d.spends ≡ 15
  pub outputs : length d.outputs ≡ 15
  pub converts : length d.converts ≡ 15
  pub spends_fit : d.spendlist_len ≤ 15
  pub outputs_fit : d.outputlist_len ≤ 15
  pub converts_fit : d.convertlist_len ≤ 15
  pub signatures_fit : d.spends_sign_index ≤ d.spendlist_len

pub transaction_reset-IsBounded : (d : NvData) → IsBounded d → IsBounded (transaction_reset d)
transaction_reset-IsBounded d b =
    subst IsBounded
      (sym (
        transaction_reset_lem d
          (record { spends = b.spends; outputs = b.outputs; converts = b.converts })))
      (omega arith)

spend_append_rand_item-IsBounded :
    (rcv alpha : ℕ) (d : NvData) → IsBounded d → IsBounded (spend_append_rand_item rcv alpha d).0
unfolding spend_append_rand_item
spend_append_rand_item-IsBounded rcv alpha d b =
    ground (arith, length-set d.spends d.spendlist_len (record { rcv = rcv; alpha = alpha }))

output_append_rand_item-IsBounded :
    (rcv rcm : ℕ) (d : NvData) → IsBounded d → IsBounded (output_append_rand_item rcv rcm d).0
unfolding output_append_rand_item
output_append_rand_item-IsBounded rcv rcm d b =
    ground (arith, length-set d.outputs d.outputlist_len (record { rcv = rcv; rcm = rcm }))

convert_append_rand_item-IsBounded :
    (rcv : ℕ) (d : NvData) → IsBounded d → IsBounded (convert_append_rand_item rcv d).0
unfolding convert_append_rand_item
convert_append_rand_item-IsBounded rcv d b =
    ground (arith, length-set d.converts d.convertlist_len (record { rcv = rcv }))

pub spend_signatures_append-IsBounded :
    (signature : ℕ) (d : NvData) → IsBounded d → IsBounded (spend_signatures_append signature d).0
unfolding spend_signatures_append
spend_signatures_append-IsBounded signature d b = ground arith

get_next_spend_signature-IsBounded :
    (d : NvData) → IsBounded d → IsBounded (get_next_spend_signature d).0
unfolding get_next_spend_signature spend_signatures_more_extract
get_next_spend_signature-IsBounded d b =
    elim (Bool-cases (leb d.spendlist_len ((d.spendlist_len + 256 - d.spends_sign_index) % 256))) [
      | inl e ↦ rw (get_next_spend_signature, e) b
      | inr e ↦
          rw (get_next_spend_signature, e)
            (by_more (ltb 0 ((d.spends_sign_index + 255) % 256))
              (lowered (down d.spendlist_len d.spends_sign_index e b.spends_fit b.signatures_fit)))
    ]
  where
    d' : NvData
    d' = record d { spends_sign_index = (d.spends_sign_index + 255) % 256 }

    down : (l i : ℕ) → leb l ((l + 256 - i) % 256) ≡ false → l ≤ 15 → i ≤ l → (i + 255) % 256 ≤ l
    down l i e few le = ground arith

    lowered : (d.spends_sign_index + 255) % 256 ≤ d.spendlist_len → IsBounded d'
    lowered le = record {
      spends = b.spends;
      outputs = b.outputs;
      converts = b.converts;
      spends_fit = b.spends_fit;
      outputs_fit = b.outputs_fit;
      converts_fit = b.converts_fit;
      signatures_fit = le;
    }

    by_more : (more : Bool) → IsBounded d' → IsBounded (if more then d' else transaction_reset d')
    by_more true k = k
    by_more false k = transaction_reset-IsBounded d' k

replied-IsBounded :
    (out : List ℕ) (p : NvData × ZxErr) → IsBounded p.0 → IsBounded (replied out p).0
replied-IsBounded out (d, zxerr_ok) b = b
replied-IsBounded out (d, zxerr_unknown) b = b

append_random-IsBounded :
    (sdk : Sdk) (type : MaspType) (one two : List ℕ) (d : NvData)
    → IsBounded d
    → IsBounded (append_random sdk type one two d).0
unfolding append_random
append_random-IsBounded sdk spend one two d b =
    replied-IsBounded _ _ (spend_append_rand_item-IsBounded _ _ d b)
append_random-IsBounded sdk output one two d b =
    replied-IsBounded _ _ (output_append_rand_item-IsBounded _ _ d b)
append_random-IsBounded sdk convert one two d b =
    replied-IsBounded _ _ (convert_append_rand_item-IsBounded _ d b)

pub compute_randomness-IsBounded :
    (sdk : Sdk) (type : MaspType) (one two : List ℕ) (out_len : ℕ) (d : NvData)
    → IsBounded d
    → IsBounded (compute_randomness sdk type one two out_len d).0
unfolding compute_randomness
compute_randomness-IsBounded sdk type one two out_len d b = elim (Bool-cases (ltb out_len 64)) [
  | inl e ↦ rw (compute_randomness, e) b
  | inr e ↦ rw (compute_randomness, e) (append_random-IsBounded sdk type one two d b)
]

pub extract_spend_signature-IsBounded :
    (d : NvData) → IsBounded d → IsBounded (extract_spend_signature d).0
unfolding extract_spend_signature
extract_spend_signature-IsBounded d b = elim (Bool-cases (spend_signatures_more_extract d)) [
  | inl e ↦ rw (extract_spend_signature, e) (get_next_spend_signature-IsBounded d b)
  | inr e ↦ rw (extract_spend_signature, e) b
]

some_first : {A B : Type 0} {p q : A × B} → some p ≡ some q → p.0 ≡ q.0
some_first f = cc

none_not_some : {A : Type 0} {a : A} → none ≡ some a → ⊥
none_not_some f = cc

sign_spends_loop-IsBounded :
    (sdk : Sdk) (keys : Keys) (hash : List ℕ) (rng : ℕ → List ℕ) (n i : ℕ) (d e : NvData)
    (x : ZxErr)
    → IsBounded d
    → sign_spends_loop sdk keys hash rng n i d ≡ some (e, x)
    → IsBounded e
unfolding sign_spends_loop
sign_spends_loop-IsBounded sdk keys hash rng zero i d e x b run = subst IsBounded (some_first run) b
sign_spends_loop-IsBounded sdk keys hash rng (suc n) i d e x b run =
    elim (Option-cases (spendlist_retrieve_rand_item (i % 256) d)) [
      | inl f ↦ absurd (none_not_some (rw (sign_spends_loop, f) at run))
      | inr (item, f) ↦
          elim (Option-cases
            (sign_sapling_spend sdk keys.ask (random_bytes item.alpha) hash (rng i))) [
              | inl g ↦ subst IsBounded (some_first (rw (sign_spends_loop, f, g) at run)) b
              | inr (s, g) ↦
                  by_answer
                    (λ k c r. sign_spends_loop-IsBounded sdk keys hash rng n (i + 1) k e x c r)
                    (spend_signatures_append (number_of s) d)
                    (spend_signatures_append-IsBounded (number_of s) d b)
                    (rw (sign_spends_loop, f, g) at run)
            ]
    ]
  where
    by_answer :
        ((k : NvData)
          → IsBounded k
          → sign_spends_loop sdk keys hash rng n (i + 1) k ≡ some (e, x)
          → IsBounded e)
        → (p : NvData × ZxErr) → IsBounded p.0
        → (elim p.1 [
          | zxerr_ok ↦ sign_spends_loop sdk keys hash rng n (i + 1) p.0
          | zxerr_unknown ↦ some (p.0, zxerr_unknown)
        ])
          ≡ some (e, x)
        → IsBounded e
    by_answer next (k, zxerr_ok) c f = next k c f
    by_answer next (k, zxerr_unknown) c f = subst IsBounded (some_first f) c

sign_spends_sapling-IsBounded :
    (sdk : Sdk) (mem : ℕ → ℕ) (tx : MaspTx) (b : MaspBuilderSection) (keys : Keys)
    (rng : ℕ → List ℕ) (d e : NvData) (x : ZxErr)
    → IsBounded d
    → sign_spends_sapling sdk mem tx b keys rng d ≡ some (e, x)
    → IsBounded e
unfolding sign_spends_sapling
sign_spends_sapling-IsBounded sdk mem tx b keys rng d e x c f =
    elim (Bool-cases (tx.sapling_bundle.n_shielded_spends == 0)) [
      | inl g ↦ subst IsBounded (some_first (rw (sign_spends_sapling, g) at f)) c
      | inr g ↦
          sign_spends_loop-IsBounded sdk keys _ rng b.builder.sapling_builder.n_spends 0 d e x c
            (rw (sign_spends_sapling, g) at f)
    ]

-- crypto_sign_masp keeps the counters within their arrays, whether it succeeds or not.
pub crypto_sign_masp-IsBounded :
    (sdk : Sdk) (fuel : ℕ) (hd_path : List ℕ) (mem : ℕ → ℕ) (tx : MaspTx) (b : MaspBuilderSection)
    (uploaded : List ℕ) (rng : ℕ → List ℕ) (output_len : ℕ) (d e : NvData) (out : Option (List ℕ))
    → IsBounded d
    → crypto_sign_masp sdk fuel hd_path mem tx b uploaded rng output_len d ≡ some (e, out)
    → IsBounded e
unfolding crypto_sign_masp
crypto_sign_masp-IsBounded sdk fuel hd_path mem tx b uploaded rng output_len d e out c run =
    elim (Bool-cases (ltb output_len 64)) [
      | inl f ↦ subst IsBounded (some_first (rw (crypto_sign_masp, f) at run)) c
      | inr f ↦ elim (Option-cases (sapling_keys sdk fuel hd_path)) [
        | inl g ↦ subst IsBounded (some_first (rw (crypto_sign_masp, f, g) at run)) c
        | inr (keys, g) ↦
            by_check keys (check_masp sdk mem tx b d keys)
              (sign_spends_sapling sdk mem tx b keys rng d) refl
              (rw (crypto_sign_masp, f, g) at run)
      ]
    ]
  where
    by_check :
        (keys : Keys) (o : Outcome (Unit {0})) (s : Option (NvData × ZxErr))
        → sign_spends_sapling sdk mem tx b keys rng d ≡ s
        → sign_checked sdk o s d (sdk.library.sha256 uploaded) ≡ some (e, out)
        → IsBounded e
    by_check keys (ok u t) none g f = absurd (none_not_some f)
    by_check keys (ok u t) (some (k, zxerr_ok)) g f =
        subst IsBounded (some_first f)
          (sign_spends_sapling-IsBounded sdk mem tx b keys rng d k _ c g)
    by_check keys (ok u t) (some (k, zxerr_unknown)) g f =
        subst IsBounded (some_first f)
          (sign_spends_sapling-IsBounded sdk mem tx b keys rng d k _ c g)
    by_check keys (err x) s g f = subst IsBounded (some_first f) c
    by_check keys fault s g f = absurd (none_not_some f)

-- ===== src/NvData/Signatures.antt =====
-- The lists of random values and of signatures of app/src/nvdata.c.
use ledger_namada.Common.{
  ℕ, zero, suc, ◌+◌, ◌-◌, ◌%◌, ◌≤◌, ◌<◌, ◌≡◌, refl, ◌∙◌, ap, arith, true, false, Option, none, some,
  List, [], ◌∷◌, length, set, get_elem?, length-set, get_elem?-set_self, get_elem?-set_ne, ltb, leb,
}
use ledger_namada.NvData.{
  NvData, zxerr_ok, spend_append_rand_item, spendlist_retrieve_rand_item, output_append_rand_item,
  outputlist_retrieve_rand_item, spend_signatures_append, spend_signatures_more_extract,
  get_next_spend_signature, transaction_reset,
}
use ledger_namada.NvData.Reset.{IsWellSized}

not_full : (n : ℕ) → n < 15 → leb 15 n ≡ false
not_full n h = ground arith

next_len : (n : ℕ) → n < 15 → (n + 1) % 256 ≡ suc n
next_len n h = omega arith

-- Where the arrays have their declared sizes and there is room, the list empty or not, the item that
-- spend_append_rand_item stores is the one that spendlist_retrieve_rand_item finds under the old
-- length, the length grows by 1, and the items below keep their places.
pub spendlist_retrieve_rand_item-spend_append_rand_item :
    (d : NvData) (rcv alpha : ℕ)
    → IsWellSized d
    → d.spendlist_len < 15
    → let e : NvData = (spend_append_rand_item rcv alpha d).0 in
      ((spend_append_rand_item rcv alpha d).1 ≡ zxerr_ok)
      × (e.spendlist_len ≡ suc d.spendlist_len)
      × (spendlist_retrieve_rand_item d.spendlist_len e
          ≡ some (record { rcv = rcv; alpha = alpha }))
      × ((j : ℕ)
          → j < d.spendlist_len
          → spendlist_retrieve_rand_item j e ≡ spendlist_retrieve_rand_item j d)
unfolding spend_append_rand_item spendlist_retrieve_rand_item
spendlist_retrieve_rand_item-spend_append_rand_item d rcv alpha ws room =
    rw (not_full d.spendlist_len room, next_len d.spendlist_len room, new d.spendlist_len)
      (
        refl,
        refl,
        get_elem?-set_self d.spends d.spendlist_len _ (omega (arith, ws.spends)),
        λ j old.
            rw (above j d.spendlist_len old, here j d.spendlist_len old)
              (get_elem?-set_ne d.spends d.spendlist_len j _ (λ e. omega (arith, e, old))),
      )
  where
    new : (n : ℕ) → ltb (suc n) n ≡ false
    new n = ground arith

    above : (j n : ℕ) → j < n → ltb (suc n) j ≡ false
    above j n h = ground arith

    here : (j n : ℕ) → j < n → ltb n j ≡ false
    here j n h = ground arith

-- Where the arrays have their declared sizes and there is room, the list empty or not, the item that output_append_rand_item
-- stores is the one that outputlist_retrieve_rand_item finds under the old length, which it refused
-- before; the length grows by 1, and the items below keep their places.
pub outputlist_retrieve_rand_item-output_append_rand_item :
    (d : NvData) (rcv rcm : ℕ)
    → IsWellSized d
    → d.outputlist_len < 15
    → let e : NvData = (output_append_rand_item rcv rcm d).0 in
      ((output_append_rand_item rcv rcm d).1 ≡ zxerr_ok)
      × (e.outputlist_len ≡ suc d.outputlist_len)
      × (outputlist_retrieve_rand_item d.outputlist_len e ≡ some (record { rcv = rcv; rcm = rcm }))
      × ((j : ℕ)
          → j < d.outputlist_len
          → outputlist_retrieve_rand_item j e ≡ outputlist_retrieve_rand_item j d)
      × (outputlist_retrieve_rand_item d.outputlist_len d ≡ none)
unfolding output_append_rand_item outputlist_retrieve_rand_item
outputlist_retrieve_rand_item-output_append_rand_item d rcv rcm ws room =
    rw
      (
        not_full d.outputlist_len room,
        next_len d.outputlist_len room,
        new d.outputlist_len,
        self d.outputlist_len,
      )
      (
        refl,
        refl,
        get_elem?-set_self d.outputs d.outputlist_len _ (omega (arith, ws.outputs)),
        λ j old.
            rw (above j d.outputlist_len old, here j d.outputlist_len old)
              (get_elem?-set_ne d.outputs d.outputlist_len j _ (λ e. omega (arith, e, old))),
        refl,
      )
  where
    new : (n : ℕ) → leb (suc n) n ≡ false
    new n = ground arith

    above : (j n : ℕ) → j < n → leb (suc n) j ≡ false
    above j n h = ground arith

    here : (j n : ℕ) → j < n → leb n j ≡ false
    here j n h = ground arith

    self : (n : ℕ) → leb n n ≡ true
    self n = ground arith

-- Storing a list of signatures, and fetching n of them.
abbrev pub append_signatures : List ℕ → NvData → NvData
append_signatures [] d = d
append_signatures (x ∷ xs) d = append_signatures xs (spend_signatures_append x d).0

abbrev pub get_signatures : ℕ → NvData → NvData × List (Option ℕ)
get_signatures zero d = (d, [])
get_signatures (suc n) d =
    let (d', signature) = get_next_spend_signature d in
    let (e, signatures) = get_signatures n d' in (e, signature ∷ signatures)

abbrev pub all_some : List ℕ → List (Option ℕ)
all_some [] = []
all_some (x ∷ xs) = some x ∷ all_some xs

-- The list `sigs` has `xs` from the index k.
abbrev At : List ℕ → ℕ → List ℕ → Type 0
At sigs k [] = Unit
At sigs k (x ∷ xs) = (get_elem? sigs k ≡ some x) × At sigs (suc k) xs

abbrev set_signatures : List ℕ → ℕ → List ℕ → List ℕ
set_signatures sigs k [] = sigs
set_signatures sigs k (x ∷ xs) = set_signatures (set sigs k x) (suc k) xs

append_signatures_lem :
    (xs : List ℕ) (d : NvData)
    → d.spends_sign_index + length xs ≤ d.spendlist_len
    → d.spendlist_len ≤ 15
    → append_signatures xs d ≡ record d {
      spend_signatures = set_signatures d.spend_signatures d.spends_sign_index xs;
      spends_sign_index = d.spends_sign_index + length xs;
    }
unfolding spend_signatures_append
append_signatures_lem [] d h l = rw (add_zero d.spends_sign_index) refl
  where
    add_zero : (n : ℕ) → n + 0 ≡ n
    add_zero n = omega arith
append_signatures_lem (x ∷ xs) d h l =
    rw
      (
        room d.spendlist_len d.spends_sign_index (length xs) h,
        next d.spendlist_len d.spends_sign_index (length xs) h l,
        add_suc d.spends_sign_index (length xs),
      )
      (append_signatures_lem xs
        (record d {
          spend_signatures = set d.spend_signatures d.spends_sign_index x;
          spends_sign_index = suc d.spends_sign_index;
        })
        (omega arith) l)
  where
    room : (s i n : ℕ) → i + suc n ≤ s → leb s i ≡ false
    room s i n g = ground arith

    next : (s i n : ℕ) → i + suc n ≤ s → s ≤ 15 → (i + 1) % 256 ≡ suc i
    next s i n g k = omega arith

    add_suc : (i n : ℕ) → i + suc n ≡ suc i + n
    add_suc i n = omega arith

set_signatures_keeps :
    (xs sigs : List ℕ) (k j : ℕ) → j < k → get_elem? (set_signatures sigs k xs) j ≡ get_elem? sigs j
set_signatures_keeps [] sigs k j h = refl
set_signatures_keeps (x ∷ xs) sigs k j h =
    set_signatures_keeps xs (set sigs k x) (suc k) j (omega arith)
    ∙ get_elem?-set_ne sigs k j x (λ e. omega (arith, e))

set_signatures-At :
    (xs sigs : List ℕ) (k : ℕ) → k + length xs ≤ length sigs → At (set_signatures sigs k xs) k xs
set_signatures-At [] sigs k h = tt
set_signatures-At (x ∷ xs) sigs k h = (
  set_signatures_keeps xs (set sigs k x) (suc k) k (omega arith)
      ∙ get_elem?-set_self sigs k x (omega arith),
  set_signatures-At xs (set sigs k x) (suc k) (omega (arith, length-set sigs k x)),
)

index_of : (k n : ℕ) → k + suc n ≤ 15 → (k + suc n + 256 - suc n) % 256 ≡ k
index_of k n h = omega arith

index_inside : (k n : ℕ) → leb (k + suc n) k ≡ false
index_inside k n = ground arith

get_next_more :
    (d : NvData) (k n x : ℕ)
    → d.spends_sign_index ≡ suc (suc n)
    → d.spendlist_len ≡ k + suc (suc n)
    → k + suc (suc n) ≤ 15
    → get_elem? d.spend_signatures k ≡ some x
    → get_next_spend_signature d ≡ (record d { spends_sign_index = suc n }, some x)
unfolding get_next_spend_signature spend_signatures_more_extract
get_next_more d k n x i s l at =
    rw (i, s, index_of k (suc n) l, index_inside k (suc n), back n (omega arith), more n, at) refl
  where
    back : (m : ℕ) → m ≤ 15 → (suc (suc m) + 255) % 256 ≡ suc m
    back m h = omega arith

    more : (m : ℕ) → ltb 0 (suc m) ≡ true
    more m = ground arith

get_next_last :
    (d : NvData) (k x : ℕ)
    → d.spends_sign_index ≡ 1
    → d.spendlist_len ≡ k + 1
    → k + 1 ≤ 15
    → get_elem? d.spend_signatures k ≡ some x
    → get_next_spend_signature d ≡ (transaction_reset (record d { spends_sign_index = 0 }), some x)
unfolding get_next_spend_signature spend_signatures_more_extract
get_next_last d k x i s l at = rw (i, s, index_of k 0 l, index_inside k 0, at) refl

get_signatures_lem :
    (x : ℕ) (xs : List ℕ) (k : ℕ) (d : NvData)
    → d.spends_sign_index ≡ suc (length xs)
    → d.spendlist_len ≡ k + suc (length xs)
    → k + suc (length xs) ≤ 15
    → At d.spend_signatures k (x ∷ xs)
    → get_signatures (suc (length xs)) d
      ≡ (transaction_reset (record d { spends_sign_index = 0 }), some x ∷ all_some xs)
get_signatures_lem x [] k d i s l at = rw (get_next_last d k x i s l at.0) refl
get_signatures_lem x (y ∷ xs) k d i s l at =
    ap
      (λ (r : NvData × Option ℕ).
        ((get_signatures (suc (length xs)) r.0).0, r.1 ∷ (get_signatures (suc (length xs)) r.0).1))
      (get_next_more d k (length xs) x i s l at.0)
    ∙ ap (λ (r : NvData × List (Option ℕ)). (r.0, some x ∷ r.1))
        (get_signatures_lem y xs (suc k) (record d { spends_sign_index = suc (length xs) }) refl
          (omega arith) (omega arith) at.1)

-- Where as many signatures are stored as there are spends (1 to 15), from none on, get_next_spend_signature
-- answers them in the order they were stored, and after the last one everything is reset.
pub get_next_spend_signature-spend_signatures_append :
    (x : ℕ) (xs : List ℕ) (d : NvData)
    → length d.spend_signatures ≡ 15
    → d.spends_sign_index ≡ 0
    → d.spendlist_len ≡ suc (length xs)
    → suc (length xs) ≤ 15
    → let stored : NvData = append_signatures (x ∷ xs) d in
      get_signatures (suc (length xs)) stored
      ≡ (transaction_reset (record stored { spends_sign_index = 0 }), some x ∷ all_some xs)
get_next_spend_signature-spend_signatures_append x xs d size i s l =
    rw (append_signatures_lem (x ∷ xs) d (omega arith) (omega arith), i)
      (get_signatures_lem x xs 0 _ (omega arith) (omega arith) (omega arith)
        (set_signatures-At (x ∷ xs) d.spend_signatures 0 (omega arith)))

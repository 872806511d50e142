-- ===== src/MaspSign/Checked.antt =====
-- What checkSpends of app/src/crypto.c has checked when it succeeds.
use mathlib.Core.Path.{subst}
use ledger_namada.Common.{
  ℕ, zero, suc, ◌+◌, ◌*◌, ◌%◌, ◌<◌, ◌≡◌, refl, sym, ◌∙◌, ap, arith, Bool, true, false, not, Option,
  none, some, List, ltb, get_elem?, ◌⊎◌, ◌==◌, Bool-cases, inl, inr,
}
use ledger_namada.Reader.{
  ParserError, invalid_cv, invalid_rk, invalid_number_of_spends, Ctx, ok, err, pure, fail,
  reject_if, advance, check_and_advance, read_bytes, read_uint64,
}
use ledger_namada.Reader.Accepted.{bind_ok, guard_ok, eq_list→eq}
use ledger_namada.NvData.{NvData, SpendItem, spendlist_retrieve_rand_item}
use ledger_namada.Masp.Bundle.{MaspTx, shielded_spends_len}
use ledger_namada.Masp.Builder.{MaspBuilderSection, extended_fvk_len, diversifier_len}
use ledger_namada.Masp.Descriptions.{get_next_spend_description}
use ledger_namada.TxHash.{cv_len, nullifier_len, rk_len}
use ledger_namada.MaspKeys.{Keys, compute_value_commitment, compute_rk}
use ledger_namada.Sdk.{Sdk}
use ledger_namada.MaspSign.{
  on, rewind, rcv_of, here, over, identifier_len, random_bytes, check_spend, check_spends_loop,
}
use ledger_namada.MaspSign.Spends.{check_spends}

err_not_ok : {A : Type 0} {x : ParserError} {a : A} {c : Ctx} → err x ≡ ok a c → ⊥
err_not_ok e = cc

ok_second : {A B : Type 0} {a b : A × B} {c d : Ctx} → ok a c ≡ ok b d → a.1 ≡ b.1
ok_second e = cc

rcv_of_ok : {A : Type 0} (o : Option A) (a : A) (c d : Ctx) → rcv_of o c ≡ ok a d → o ≡ some a
unfolding pure fail
rcv_of_ok none a c d e = absurd (err_not_ok e)
rcv_of_ok (some b) a c d e = cc

reject_if_ok :
    (b : Bool) (x : ParserError) (c d : Ctx) (u : Unit {0})
    → reject_if (not b) x c ≡ ok u d
    → b ≡ true
unfolding pure fail
reject_if_ok true x c d u e = refl
reject_if_ok false x c d u e = absurd (err_not_ok e)

undo_not : (b : Bool) → not b ≡ false → b ≡ true
undo_not true e = refl
undo_not false e = absurd cc

module _ (sdk : Sdk) (nv : NvData) (keys : Keys) where
  -- The spend with the index i of the transaction, whose bytes stand in the context t, has the value
  -- commitment of some value and asset under the random value in the slot of the list of spends with
  -- that index (a uint8_t), and the randomized key of the slot's alpha. The slot is one that was handed
  -- out, or the first one behind those.
  pub record IsCommitted (t : Ctx) (i : ℕ) : Type 0 where
    pub item : SpendItem
    pub value : ℕ
    pub identifier : List ℕ
    pub slot : get_elem? nv.spends (i % 256) ≡ some item
    pub handed_out : (i % 256 < nv.spendlist_len) ⊎ (i % 256 ≡ nv.spendlist_len)
    pub cv :
        compute_value_commitment sdk value (random_bytes item.rcv) identifier
        ≡ here (advance (shielded_spends_len * i) t) cv_len
    pub rk :
        compute_rk sdk keys.ask (random_bytes item.alpha)
        ≡ here (advance (cv_len + nullifier_len) (advance (shielded_spends_len * i) t)) rk_len

  retrieved :
      (i : ℕ) (item : SpendItem)
      → spendlist_retrieve_rand_item i nv ≡ some item
      → (get_elem? nv.spends i ≡ some item) × ((i < nv.spendlist_len) ⊎ (i ≡ nv.spendlist_len))
  unfolding spendlist_retrieve_rand_item
  retrieved i item e = elim (Bool-cases (ltb nv.spendlist_len i)) [
    | inl l ↦ absurd (nothing (rw l at e))
    | inr l ↦ (rw l at e, within nv.spendlist_len l)
  ]
    where
      nothing : none ≡ some item → ⊥
      nothing f = cc

      within : (n : ℕ) → ltb n i ≡ false → (i < n) ⊎ (i ≡ n)
      within n l = elim (Bool-cases (ltb i n)) [
        | inl f ↦ inl (ground arith)
        | inr f ↦ inr (ground arith)
      ]

  on-check_and_advance :
      (n : ℕ) (t t' c d : Ctx) (u : Unit {0})
      → on t (check_and_advance n) c ≡ ok (u, t') d
      → t' ≡ advance n t
  unfolding check_and_advance
  on-check_and_advance n t t' c d u run = elim (Bool-cases (ltb t.buffer_len (t.offset + n))) [
    | inl e ↦ absurd (err_not_ok (rw (on, check_and_advance, e) at run))
    | inr e ↦ sym (ok_second (rw (on, check_and_advance, e) at run))
  ]

  check_spend-IsCommitted :
      (i : ℕ) (t c d : Ctx) (u : Unit {0})
      → check_spend sdk nv keys i t c ≡ ok u d
      → IsCommitted t i
  unfolding check_spend
  check_spend-IsCommitted i t c d u run =
      let (u1, c1, r1, k1) = bind_ok (get_next_spend_description (i % 256)) _ c d u run in
      let ((u2, t1), c2, r2, k2) =
        bind_ok (on t (check_and_advance (shielded_spends_len * i))) _ c1 d u k1 in
      let (u3, c3, r3, k3) =
        bind_ok (check_and_advance (extended_fvk_len + diversifier_len)) _ c2 d u k2 in
      let (identifier, c4, r4, k4) = bind_ok (read_bytes identifier_len) _ c3 d u k3 in
      let (value, c5, r5, k5) = bind_ok read_uint64 _ c4 d u k4 in
      let (item, c6, r6, k6) =
        bind_ok (rcv_of (spendlist_retrieve_rand_item (i % 256) nv)) _ c5 d u k5 in
      let (same, k7) = guard_ok _ invalid_cv _ c6 d u k6 in
      let ((u8, t2), c8, r8, k8) =
        bind_ok (on t1 (check_and_advance (cv_len + nullifier_len))) _ c6 d u k7 in
      let stored = retrieved (i % 256) item (rcv_of_ok _ item c5 c6 r6) in
      let here1 = on-check_and_advance _ t t1 c1 c2 u2 r2 in
      let here2 = on-check_and_advance _ t1 t2 c6 c8 u8 r8 in
      record {
        item = item;
        value = value;
        identifier = identifier.content;
        slot = stored.0;
        handed_out = stored.1;
        cv = eq_list→eq _ _ (undo_not _ same) ∙ ap (λ x. here x cv_len) here1;
        rk =
            eq_list→eq _ _ (reject_if_ok _ invalid_rk c8 d u k8)
            ∙ ap (λ x. here x rk_len) (here2 ∙ ap (advance (cv_len + nullifier_len)) here1);
      }

  check_spends_loop-IsCommitted :
      (n i : ℕ) (t c d : Ctx) (u : Unit {0})
      → check_spends_loop sdk nv keys n i t c ≡ ok u d
      → (k : ℕ) → k < n
      → IsCommitted t (i + k)
  unfolding check_spends_loop
  check_spends_loop-IsCommitted zero i t c d u run k l = absurd (omega arith)
  check_spends_loop-IsCommitted (suc n) i t c d u run zero l =
      let (u1, c1, r1, k1) = bind_ok (check_spend sdk nv keys i t) _ c d u run in
      subst (IsCommitted t) (omega arith) (check_spend-IsCommitted i t c c1 u1 r1)
  check_spends_loop-IsCommitted (suc n) i t c d u run (suc k) l =
      let (u1, c1, r1, k1) = bind_ok (check_spend sdk nv keys i t) _ c d u run in
      let (u2, c2, r2, k2) = bind_ok rewind _ c1 d u k1 in
      subst (IsCommitted t) (omega arith)
        (check_spends_loop-IsCommitted n (i + 1) t c2 d u k2 k (omega arith))

-- When checkSpends succeeds, the transaction has as many spends as its builder, and every one of them has
-- the value commitment of some value and asset under the random value in the slot with its index (modulo
-- 256), and the randomized key of the account under the slot's alpha. The slot was handed out, or is the
-- first one behind those that were; of less than 257 spends every one but the last has a slot that was
-- handed out.
pub check_spends-IsCommitted :
    (sdk : Sdk) (mem : ℕ → ℕ) (tx : MaspTx) (b : MaspBuilderSection) (nv : NvData) (keys : Keys)
    (u : Unit {0}) (d : Ctx)
    → check_spends sdk mem tx b nv keys ≡ ok u d
    → (b.builder.sapling_builder.n_spends ≡ tx.sapling_bundle.n_shielded_spends)
      × ((i : ℕ)
          → i < tx.sapling_bundle.n_shielded_spends
          → IsCommitted sdk nv keys (over mem tx.sapling_bundle.shielded_spends) i)
      × ((i : ℕ) → i + 1 < tx.sapling_bundle.n_shielded_spends → i + 1 < 256 → i < nv.spendlist_len)
unfolding check_spends
check_spends-IsCommitted sdk mem tx b nv keys u d run =
    let (same, loop) = guard_ok _ invalid_number_of_spends _ _ d u run in
    let equal = numbers _ _ same in
    let committed : (i : ℕ)
        → i < tx.sapling_bundle.n_shielded_spends
        → IsCommitted sdk nv keys (over mem tx.sapling_bundle.shielded_spends) i =
      λ i l.
        subst (IsCommitted sdk nv keys (over mem tx.sapling_bundle.shielded_spends)) (from_zero i)
          (check_spends_loop-IsCommitted sdk nv keys _ 0 _ _ d u loop i (below equal l)) in
    (
      equal,
      committed,
      λ i l small. not_last i nv.spendlist_len small (committed (i + 1) l).handed_out,
    )
  where
    numbers : (m n : ℕ) → not (m == n) ≡ false → m ≡ n
    numbers m n e = ground arith

    not_last : (i n : ℕ) → i + 1 < 256 → ((i + 1) % 256 < n) ⊎ ((i + 1) % 256 ≡ n) → i < n
    not_last i n h (inl l) = omega arith
    not_last i n h (inr e) = omega arith

    from_zero : (i : ℕ) → 0 + i ≡ i
    from_zero i = omega arith

    below : {m n i : ℕ} → m ≡ n → i < n → i < m
    below e l = omega (arith, e, l)

-- ===== src/Print/Count/Complete.antt =====
-- printTxnFields and getNumItems together: what is counted is what is shown.
use ledger_namada.Common.{
  ℕ, ◌+◌, ◌%◌, ◌≤◌, ◌<◌, ◌≡◌, refl, sym, ap, ◌∙◌, arith, Bool, true, false, not, ◌&&◌, none, some,
  length, length-append, ◌==◌, if◌then◌else◌,
}
use ledger_namada.Transaction.{
  ParserTx, TxData, of_bond, of_custom, of_transfer, of_init_account, of_init_proposal,
  of_vote_proposal, of_reveal_pubkey, of_withdraw, of_commission_change, of_become_validator,
  of_update_vp, of_unjail_validator, of_ibc, of_redelegation, of_resign_steward,
  of_consensus_key_change, of_update_steward_commission, of_metadata_change,
  of_bridge_pool_transfer,
}
use ledger_namada.Transaction.Items.{params, flag, data_items, get_num_items}
use ledger_namada.Reader.{Reader}
use ledger_namada.Print.{Item}
use ledger_namada.Print.Fields.{print_data, print_txn_fields}
use ledger_namada.Print.Masp.{Indices}
use ledger_namada.Print.Items.{item_at, items, field_items}
use ledger_namada.Print.Shown.Simple.{
  print_bond_txn-items, print_resign_steward-items, print_transfer_txn-items,
  print_custom_txn-items, print_vote_proposal_txn-items, print_reveal_pubkey_txn-items,
  print_change_consensus_key_txn-items, print_unjail_validator_txn-items,
  print_become_validator_txn-items, print_withdraw_txn-items, print_commission_change_txn-items,
  print_ibc_txn-items, print_redelegate-items, print_change_validator_metadata-items,
  print_bridge_pool_transfer-items,
}
use ledger_namada.Print.Shown.Several.{print_init_account_txn-items}
use ledger_namada.Print.Shown.UpdateVp.{print_update_vp_txn-items}
use ledger_namada.Print.Shown.Steward.{print_update_steward_commission-items}
use ledger_namada.Print.Shown.Proposal.{print_init_proposal_txn-items}
use ledger_namada.Print.Count.{HasFlags, length-from_on, count, length-last_items}

-- The counter of getNumItems where it agrees with a length.
counted :
    (d memo header fees n : ℕ)
    → (d + (memo + header + fees)) % 256 ≡ (n + header) % 256
    → 1 ≤ n
    → n < 240
    → (if (d + memo + fees) % 256 == 0 then none else some ((d + memo + fees) % 256)) ≡ some n
counted d memo header fees n e l h = rw (agrees d memo header fees n e h, some_items n l) refl
  where
    agrees :
        (d memo header fees n : ℕ)
        → (d + (memo + header + fees)) % 256 ≡ (n + header) % 256
        → n < 240
        → (d + memo + fees) % 256 ≡ n
    agrees d memo header fees n e h = omega arith

    some_items : (n : ℕ) → 1 ≤ n → (n == 0) ≡ false
    some_items n l = ground arith

not_masp : {A : Type 0} (b : Bool) (x y : A) → b ≡ false → (if b then x else y) ≡ y
not_masp b x y e = rw e refl

module _ (expert : Bool) (tx : ParserTx) where
  pub print_data-items :
      (d : TxData) (i : ℕ)
      → length (items expert tx d) < 240
      → i < 240
      → print_data expert tx d i ≡ item_at (items expert tx d) i
  unfolding print_data items field_items
  print_data-items (of_bond b) i n h = print_bond_txn-items expert tx b i h
  print_data-items of_custom i n h = print_custom_txn-items expert tx i h
  print_data-items (of_transfer t) i n h = print_transfer_txn-items expert tx t i h
  print_data-items (of_init_account a) i n h =
      print_init_account_txn-items expert tx a i (grind (arith, length-append, length-from_on)) h
  print_data-items (of_init_proposal p) i n h =
      print_init_proposal_txn-items expert tx p i (grind (arith, length-append, length-from_on)) h
  print_data-items (of_vote_proposal v) i n h = print_vote_proposal_txn-items expert tx v i h
  print_data-items (of_reveal_pubkey r) i n h = print_reveal_pubkey_txn-items expert tx r i h
  print_data-items (of_withdraw w) i n h = print_withdraw_txn-items expert tx w i h
  print_data-items (of_commission_change c) i n h =
      print_commission_change_txn-items expert tx c i h
  print_data-items (of_become_validator b) i n h = print_become_validator_txn-items expert tx b i h
  print_data-items (of_update_vp u) i n h =
      print_update_vp_txn-items expert tx u i (grind (arith, length-append, length-from_on)) h
  print_data-items (of_unjail_validator u) i n h = print_unjail_validator_txn-items expert tx u i h
  print_data-items (of_ibc b) i n h = print_ibc_txn-items expert tx b i h
  print_data-items (of_redelegation r) i n h = print_redelegate-items expert tx r i h
  print_data-items (of_resign_steward r) i n h = print_resign_steward-items expert tx r i h
  print_data-items (of_consensus_key_change c) i n h =
      print_change_consensus_key_txn-items expert tx c i h
  print_data-items (of_update_steward_commission u) i n h =
      print_update_steward_commission-items expert tx u i
        (grind (arith, length-append, length-from_on)) h
  print_data-items (of_metadata_change m) i n h =
      print_change_validator_metadata-items expert tx m i h
  print_data-items (of_bridge_pool_transfer b) i n h =
      print_bridge_pool_transfer-items expert tx b i h

  some_item : (d : TxData) → 1 ≤ length (items expert tx d)
  unfolding items
  some_item d = omega arith

  get_num_items-length :
      tx.sections.is_masp ≡ false
      → HasFlags tx.tx_data
      → length (items expert tx tx.tx_data) < 240
      → get_num_items expert tx ≡ some (length (items expert tx tx.tx_data))
  unfolding get_num_items
  get_num_items-length m f n =
      let memo : ℕ = elim tx.memo_section [ none ↦ 0 | some i ↦ 1 ] in
      let d = data_items expert tx.tx_data tx.sections in
      let no_symbol : Bool = elim tx.header.fees.symbol [ none ↦ true | some s ↦ false ] in
      ap
        (λ b.
          let num : ℕ = (d + memo + flag (expert && (no_symbol && not b))) % 256 in
          if num == 0 then none else some num)
        m
      ∙ counted d memo (params expert 0 4) (flag (expert && (no_symbol && true)))
          (length (items expert tx tx.tx_data))
          (ap (λ l. (d + l) % 256) (sym (length-last_items tx expert))
            ∙ count tx tx.tx_data expert tx.sections f m)
          (some_item tx.tx_data) n

  -- Where the transaction is not shielded, has less than 240 items and flags of 0 or 1, and is of a known
  -- type: getNumItems counts the items of its list, and printTxnFields shows each of them under its
  -- place in the list, and is out of range behind them.
  pub print_txn_fields-items :
      tx.sections.is_masp ≡ false
      → HasFlags tx.tx_data
      → length (items expert tx tx.tx_data) < 240
      → (get_num_items expert tx ≡ some (length (items expert tx tx.tx_data)))
        × ((page_idx i : ℕ) (st : Indices) (mem : ℕ → ℕ)
            → i < 240
            → (print_txn_fields expert tx page_idx i st mem).0
              ≡ item_at (items expert tx tx.tx_data) i)
  unfolding print_txn_fields
  print_txn_fields-items m f n = (
    get_num_items-length m f n,
    λ page_idx i st mem h.
        ap (λ (r : Reader Item × Indices). r.0) (not_masp tx.sections.is_masp _ _ m)
        ∙ print_data-items tx.tx_data i n h,
  )

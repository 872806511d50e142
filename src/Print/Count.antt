-- ===== src/Print/Count.antt =====
-- getNumItems of app/src/parser_impl.c against the lists of items.
pub mod Complete
pub mod Refused
pub mod Answered
use Prim.Native.String.{String}
use ledger_namada.Common.{
  ℕ, zero, suc, ◌+◌, ◌-◌, ◌*◌, ◌%◌, ◌^◌, ◌≤◌, ◌<◌, ◌≡◌, refl, sym, ap, ◌∙◌, arith, Bool, true,
  false, not, ◌&&◌, Option, none, some, List, [], ◌∷◌, ◌++◌, length, length-append, ◌==◌,
  if◌then◌else◌, Option-cases, Bool-cases, inl, inr,
}
use ledger_namada.Reader.{Ptr, null, buf, hash_of, Bytes, Reader, pure}
use ledger_namada.Transaction.{
  ParserTx, TxData, of_bond, of_custom, of_transfer, of_init_account, of_init_proposal,
  of_vote_proposal, of_reveal_pubkey, of_withdraw, of_commission_change, of_become_validator,
  of_update_vp, of_unjail_validator, of_ibc, of_redelegation, of_resign_steward,
  of_consensus_key_change, of_update_steward_commission, of_metadata_change,
  of_bridge_pool_transfer,
}
use ledger_namada.Transaction.Items.{
  params, shown, flag, data_items, proposal_items, transfer_items, get_num_items,
}
use ledger_namada.Txn.Proposal.{ProposalBody, default, default_with_wasm, pgf_steward, pgf_payment}
use ledger_namada.Sections.All.{Sections}
use ledger_namada.Print.{Item, item, address, amount}
use ledger_namada.Print.Common.{fees_item, print_memo, has_memo, is_some}
use ledger_namada.Print.Simple.{no_memo, is_null}
use ledger_namada.Print.Several.{one_if}
use ledger_namada.Print.Proposal.{proposal_elements}
use ledger_namada.Print.Items.{from_on, header_items, others_items, last_items, items, field_items}
use ledger_namada.Print.Runs.{keep}

-- The bytes that say whether a field is there are 0 or 1, and the type is known.
abbrev pub HasFlags : TxData → Type 0
HasFlags (of_bond b) = b.has_source ≤ 1
HasFlags (of_withdraw w) = w.has_source ≤ 1
HasFlags (of_update_vp u) = (u.has_threshold ≤ 1) × (u.has_vp_code ≤ 1)
HasFlags of_custom = 1 ≤ 0
HasFlags d = Unit

length-keep :
    {A : Type 0} (absent : Bool) (a : A) (rest : List A)
    → length (keep absent a rest) ≡ one_if (not absent) + length rest
length-keep true a rest = omega arith
length-keep false a rest = omega arith

pub length-from_on : {A : Type 0} (f : ℕ → A) (k n : ℕ) → length (from_on f k n) ≡ n
length-from_on f k zero = refl
length-from_on f k (suc n) = ap suc (length-from_on f (k + 1) n)

shown_eq : (b : Bytes) → one_if (not (is_null b)) ≡ shown b
shown_eq b = go b.ptr
  where
    go : (p : Ptr) → one_if (not (elim p [ null ↦ true | _ ↦ false ])) ≡ elim p [ null ↦ 0 | _ ↦ 1 ]
    go null = refl
    go (buf p) = refl
    go (hash_of i) = refl

flag_eq : (n : ℕ) → n ≤ 1 → one_if (not (n == 0)) ≡ n
flag_eq n h = ground arith

elements_eq : (b : ProposalBody) → proposal_elements b % 256 ≡ (1 + proposal_items b) % 256
unfolding proposal_elements proposal_items
elements_eq default = refl
elements_eq (default_with_wasm sechash) = refl
elements_eq (pgf_steward n actions) = omega arith
elements_eq (pgf_payment n ibc_num actions) = omega arith

length-optional :
    (o : Option String) (a : String → Reader Item) (b c : Reader Item) (rest : List (Reader Item))
    → length (elim o [ some s ↦ a s ∷ rest | none ↦ b ∷ c ∷ rest ])
      ≡ 1 + (let n : ℕ = elim o [ none ↦ 1 | some s ↦ 0 ] in n) + length rest
length-optional none a b c rest = omega arith
length-optional (some s) a b c rest = omega arith

module _ (tx : ParserTx) where
  -- The number that the switch of getNumItems gives, less the header's items, and the items before the
  -- memo.
  pub count :
      (d : TxData) (expert : Bool) (st : Sections)
      → HasFlags d
      → st.is_masp ≡ false
      → (data_items expert d st + length (last_items expert tx)) % 256
        ≡ (length (items expert tx d) + params expert 0 4) % 256
  unfolding data_items transfer_items proposal_items items field_items
  count (of_bond b) true st h m = grind (arith, length-keep, flag_eq b.has_source h)
  count (of_bond b) false st h m = grind (arith, length-keep, flag_eq b.has_source h)
  count of_custom expert st h m = absurd (omega arith)
  count (of_transfer t) true st h m = rw m (
      omega (
        arith,
        length-optional t.symbol
            (λ s. pure (item "Amount" (amount t.amount false t.amount_denom s)))
            (pure (item "Token" (address t.token)))
            (pure (item "Amount" (amount t.amount false t.amount_denom ""))) (last_items true tx),
      ))
  count (of_transfer t) false st h m = rw m (
      omega (
        arith,
        length-optional t.symbol
            (λ s. pure (item "Amount" (amount t.amount false t.amount_denom s)))
            (pure (item "Token" (address t.token)))
            (pure (item "Amount" (amount t.amount false t.amount_denom ""))) (last_items false tx),
      ))
  count (of_init_account a) true st h m = grind (arith, length-append, length-from_on)
  count (of_init_account a) false st h m = grind (arith, length-append, length-from_on)
  count (of_init_proposal p) true st h m =
      grind (arith, length-append, length-from_on, elements_eq p.body)
  count (of_init_proposal p) false st h m =
      grind (arith, length-append, length-from_on, elements_eq p.body)
  count (of_vote_proposal v) true st h m = omega arith
  count (of_vote_proposal v) false st h m = omega arith
  count (of_reveal_pubkey r) true st h m = omega arith
  count (of_reveal_pubkey r) false st h m = omega arith
  count (of_withdraw w) true st h m = grind (arith, length-keep, flag_eq w.has_source h)
  count (of_withdraw w) false st h m = grind (arith, length-keep, flag_eq w.has_source h)
  count (of_commission_change c) true st h m = omega arith
  count (of_commission_change c) false st h m = omega arith
  count (of_become_validator b) true st h m =
      grind
        (arith, length-keep, shown_eq b.description, shown_eq b.website, shown_eq b.discord_handle)
  count (of_become_validator b) false st h m =
      grind
        (arith, length-keep, shown_eq b.description, shown_eq b.website, shown_eq b.discord_handle)
  count (of_update_vp u) true st h m = grind (
    arith,
    length-keep,
    length-append,
    length-from_on,
    flag_eq u.has_threshold h.0,
    flag_eq u.has_vp_code h.1,
  )
  count (of_update_vp u) false st h m = grind (
    arith,
    length-keep,
    length-append,
    length-from_on,
    flag_eq u.has_threshold h.0,
    flag_eq u.has_vp_code h.1,
  )
  count (of_unjail_validator u) true st h m = omega arith
  count (of_unjail_validator u) false st h m = omega arith
  count (of_ibc b) true st h m = omega arith
  count (of_ibc b) false st h m = omega arith
  count (of_redelegation r) true st h m = omega arith
  count (of_redelegation r) false st h m = omega arith
  count (of_resign_steward r) true st h m = omega arith
  count (of_resign_steward r) false st h m = omega arith
  count (of_consensus_key_change c) true st h m = omega arith
  count (of_consensus_key_change c) false st h m = omega arith
  count (of_update_steward_commission u) true st h m = grind (arith, length-append, length-from_on)
  count (of_update_steward_commission u) false st h m = grind (arith, length-append, length-from_on)
  count (of_metadata_change d) true st h m = grind (
    arith,
    length-keep,
    shown_eq d.email,
    shown_eq d.description,
    shown_eq d.website,
    shown_eq d.discord_handle,
    shown_eq d.avatar,
  )
  count (of_metadata_change d) false st h m = grind (
    arith,
    length-keep,
    shown_eq d.email,
    shown_eq d.description,
    shown_eq d.website,
    shown_eq d.discord_handle,
    shown_eq d.avatar,
  )
  count (of_bridge_pool_transfer b) true st h m = omega arith
  count (of_bridge_pool_transfer b) false st h m = omega arith

  -- The memo and the header's items, in number.
  pub length-last_items :
      (expert : Bool)
      → length (last_items expert tx)
        ≡ (let memo : ℕ = elim tx.memo_section [ none ↦ 0 | some i ↦ 1 ] in memo)
          + params expert 0 4
          + (let no_symbol : Bool = elim tx.header.fees.symbol [ none ↦ true | some s ↦ false ] in
              flag (expert && (no_symbol && true)))
  unfolding header_items
  length-last_items expert = go tx.memo_section expert
    where
      header :
          (o : Option String) (a b : Reader Item)
          → length (elim o [ some s ↦ a ∷ [] | none ↦ b ∷ a ∷ [] ])
            ≡ 1
              + flag (
                  (let no_symbol : Bool = elim o [ none ↦ true | some s ↦ false ] in no_symbol)
                  && true)
      header none a b = refl
      header (some s) a b = refl

      go :
          (o : Option ℕ) (expert : Bool)
          → length (keep (not (is_some o)) (print_memo tx) (others_items expert tx))
            ≡ (let memo : ℕ = elim o [ none ↦ 0 | some i ↦ 1 ] in memo)
              + params expert 0 4
              + (let no_symbol : Bool = elim tx.header.fees.symbol [
                | none ↦ true
                | some s ↦ false
              ] in
                  flag (expert && (no_symbol && true)))
      go none false = refl
      go (some i) false = refl
      go none true = omega (
        arith,
        header tx.header.fees.symbol (pure (fees_item tx))
            (pure (item "Fee token" (address tx.header.fees.address))),
      )
      go (some i) true = omega (
        arith,
        header tx.header.fees.symbol (pure (fees_item tx))
            (pure (item "Fee token" (address tx.header.fees.address))),
      )

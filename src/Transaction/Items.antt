-- ===== src/Transaction/Items.antt =====
-- getNumItems of app/src/parser_impl.c: how many items the device shows, on a uint8_t.
use ledger_namada.Common.{
  ℕ, ◌+◌, ◌*◌, ◌%◌, Bool, true, false, not, ◌&&◌, Option, none, some, ◌==◌, if◌then◌else◌,
}
use ledger_namada.Reader.{null, Bytes}
use ledger_namada.Masp.Builder.{MaspBuilderSection}
use ledger_namada.Sections.All.{Sections}
use ledger_namada.Txn.Transfer.{Transfer}
use ledger_namada.Txn.Proposal.{ProposalBody, default, default_with_wasm, pgf_steward, pgf_payment}
use ledger_namada.Transaction.{
  ParserTx, TxData, of_bond, of_custom, of_transfer, of_init_account, of_init_proposal,
  of_vote_proposal, of_reveal_pubkey, of_withdraw, of_commission_change, of_become_validator,
  of_update_vp, of_unjail_validator, of_ibc, of_redelegation, of_resign_steward,
  of_consensus_key_change, of_update_steward_commission, of_metadata_change,
  of_bridge_pool_transfer,
}

-- X_NORMAL_PARAMS and X_EXPERT_PARAMS of app/src/parser_impl_common.h
abbrev pub params : Bool → ℕ → ℕ → ℕ
params expert normal more = if expert then more else normal

-- 1 for a pointer that is not NULL
abbrev pub shown : Bytes → ℕ
shown b = elim b.ptr [ null ↦ 0 | _ ↦ 1 ]

abbrev pub flag : Bool → ℕ
flag b = if b then 1 else 0

-- n_spends and n_outputs of the sapling builder, 0 while the section is zeroed
abbrev pub builder_spends : Option MaspBuilderSection → ℕ
builder_spends none = 0
builder_spends (some b) = b.builder.sapling_builder.n_spends

abbrev pub builder_outputs : Option MaspBuilderSection → ℕ
builder_outputs none = 0
builder_outputs (some b) = b.builder.sapling_builder.n_outputs

-- Every `+=` is on the uint8_t `items`.
unfoldable pub masp_transfer_items : Transfer → Option MaspBuilderSection → ℕ
masp_transfer_items t b =
    if not (t.source_address.tag == 2)
    then (if t.target_address.tag == 2
        then (1 + 3 + 3 * builder_outputs b) % 256
        else (1 + 3 + 3) % 256)
    else (if not (t.target_address.tag == 2)
        then (1 + 3 * builder_spends b + 3) % 256
        else (1 + 3 * builder_spends b + 3 * builder_outputs b) % 256)

unfoldable pub transfer_items : Bool → Transfer → Sections → ℕ
unfolding masp_transfer_items
transfer_items expert t st =
    if st.is_masp
    then (if expert
        then (masp_transfer_items t st.masp_builder + 5) % 256
        else masp_transfer_items t st.masp_builder)
    else (let no_symbol : ℕ = elim t.symbol [ none ↦ 1 | some s ↦ 0 ] in
        (params expert 4 8 + no_symbol) % 256)

unfoldable pub proposal_items : ProposalBody → ℕ
proposal_items default = 0
proposal_items (default_with_wasm sechash) = 1
proposal_items (pgf_steward n actions) = n
proposal_items (pgf_payment n ibc_num actions) = 3 * n + 2 * ibc_num

-- The switch. ClaimRewards has the numbers of Withdraw, and the three types over one validator have
-- those of UnjailValidator, so the union's member decides.
unfoldable pub data_items : Bool → TxData → Sections → ℕ
unfolding transfer_items proposal_items
data_items expert (of_bond b) st = (params expert 3 7 + b.has_source) % 256
data_items expert of_custom st = params expert 1 7
data_items expert (of_transfer t) st = transfer_items expert t st
data_items expert (of_init_account a) st = (params expert 3 7 + a.number_of_pubkeys) % 256
data_items expert (of_init_proposal p) st = (params expert 7 11 + proposal_items p.body) % 256
data_items expert (of_vote_proposal v) st = params expert 4 8
data_items expert (of_reveal_pubkey r) st = params expert 2 6
data_items expert (of_withdraw w) st = (params expert 2 6 + w.has_source) % 256
data_items expert (of_commission_change c) st = params expert 3 7
data_items expert (of_become_validator b) st =
    (params expert 9 13 + shown b.description + shown b.discord_handle + shown b.website) % 256
data_items expert (of_update_vp u) st =
    (params expert 2 6 + u.number_of_pubkeys + u.has_threshold + u.has_vp_code) % 256
data_items expert (of_unjail_validator u) st = params expert 2 6
data_items expert (of_ibc i) st = params expert 8 12
data_items expert (of_redelegation r) st = params expert 5 9
data_items expert (of_resign_steward r) st = params expert 2 6
data_items expert (of_consensus_key_change c) st = params expert 3 7
data_items expert (of_update_steward_commission u) st =
    (params expert 2 6 + 2 * u.commission_len) % 256
data_items expert (of_metadata_change m) st =
    (params expert 2 6
      + shown m.email
      + shown m.description
      + shown m.website
      + shown m.discord_handle
      + shown m.avatar
      + flag (not (m.has_commission_rate == 0)))
    % 256
data_items expert (of_bridge_pool_transfer b) st = params expert 9 13

-- `none` is parser_unexpected_number_items.
unfoldable pub get_num_items : Bool → ParserTx → Option ℕ
unfolding data_items
get_num_items expert tx =
    let items = data_items expert tx.tx_data tx.sections in
    let memo : ℕ = elim tx.memo_section [ none ↦ 0 | some i ↦ 1 ] in
    let no_symbol : Bool = elim tx.header.fees.symbol [ none ↦ true | some s ↦ false ] in
    let fees = flag (expert && (no_symbol && not tx.sections.is_masp)) in
    let num = (items + memo + fees) % 256 in if num == 0 then none else some num

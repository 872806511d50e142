-- ===== src/Txn/Proposal.antt =====
-- readInitProposalTxn of app/src/parser_impl_txn.c
use ledger_namada.Common.{
  ℕ, zero, suc, ◌+◌, ◌%◌, ◌^◌, Bool, true, false, not, ◌&&◌, ◌||◌, Option, none, some, List,
  eq_list, leb, ◌==◌, if◌then◌else◌,
}
use ledger_namada.Reader.{
  unexpected_characters, unexpected_value, unexpected_type, missing_field, Reader, hash_of, Bytes,
  no_bytes, ◌>>=◌, ◌>>◌, pure, fail, reject_if, read_byte, read_bytes, read_uint32, read_uint64,
  position, get_offset, expect_end, hash_len,
}
use ledger_namada.Address.{AddressAlt, read_address_alt}
use ledger_namada.Crypto.{Library, Section, hash_extra_data_section}
use ledger_namada.Txn.Fields.{Span, no_span, extend, distance}
use ledger_namada.Txn.Validator.{max_extra_data_secs}
use ledger_namada.Txn.Linked.{section_at, hash_or_error}
use ledger_namada.Txn.Pgf.{read_pgf_payment_action, pgf_target_ibc}

-- The union of tx_init_proposal_t by proposal_type.
pub data ProposalBody : Type 0 where
  default : ProposalBody
  default_with_wasm : Bytes → ProposalBody
  pgf_steward : ℕ → Span → ProposalBody
  pgf_payment : ℕ → ℕ → Span → ProposalBody

-- One byte and one address for each action of a PGFSteward proposal.
unfoldable pub read_steward_actions : ℕ → Reader (Unit {0})
read_steward_actions zero = pure tt
read_steward_actions (suc n) = do
  add_rem_discriminant ← read_byte
  address ← read_address_alt
  read_steward_actions n

-- The actions of a PGFPayment proposal: the span over them and the number of IBC targets.
unfoldable pub read_payment_actions : ℕ → Span → ℕ → Reader (Span × ℕ)
read_payment_actions zero actions ibc_num = pure (actions, ibc_num)
read_payment_actions (suc n) actions ibc_num = do
  a ← read_pgf_payment_action
  read_payment_actions n (extend actions a.length)
      (if a.target_type == pgf_target_ibc then (ibc_num + 1) % 2 ^ 32 else ibc_num)

-- The span of steward actions is set in the loop, so with no action its length is 0 all the same.
unfoldable pub read_proposal_body : ℕ → Reader ProposalBody
read_proposal_body proposal_type =
    if proposal_type == 0
    then pure default
    else if proposal_type == 1
    then (do sechash ← read_bytes hash_len; pure (default_with_wasm sechash))
    else if proposal_type == 2
    then (do
      n ← read_uint32
      start ← position
      start_offset ← get_offset
      read_steward_actions n
      offset ← get_offset
      pure (pgf_steward n (record { ptr = start; len = distance start_offset offset })))
    else if proposal_type == 3
    then (do
      n ← read_uint32
      if n == 0 then pure (pgf_payment n 0 no_span) else (do
        start ← position
        (actions, ibc_num) ← read_payment_actions n (record { ptr = start; len = 0 }) 0
        pure (pgf_payment n ibc_num actions)))
    else fail unexpected_type

-- content_secidx, content_hash, proposal_code_secidx, proposal_code_hash and the two flags
pub record ProposalLinks : Type 0 where
  pub content_secidx : ℕ
  pub content_hash : Bytes
  pub found_content : Bool
  pub proposal_code_secidx : ℕ
  pub proposal_code_hash : Bytes
  pub found_code : Bool

abbrev pub no_links : ProposalLinks
no_links = record {
  content_secidx = 0;
  content_hash = no_bytes;
  found_content = false;
  proposal_code_secidx = 0;
  proposal_code_hash = no_bytes;
  found_code = false;
}

-- proposal_code_sechash where the proposal has one
abbrev pub code_sechash : ProposalBody → Option Bytes
code_sechash (default_with_wasm sechash) = some sechash
code_sechash b = none

-- One section against the two hashes.
unfoldable pub link_section :
    Bytes → Option Bytes → ℕ → Section → List ℕ → ProposalLinks → ProposalLinks
link_section content code i s h links =
    let hash : Bytes = record { ptr = hash_of i; len = hash_len; content = s.bytes_hash } in
    let links' : ProposalLinks =
      if eq_list h content.content
      then record links { content_secidx = s.idx; content_hash = hash; found_content = true }
      else links in
    elim code [
      | none ↦ links'
      | some sechash ↦
          if eq_list h sechash.content
          then record links' {
            proposal_code_secidx = s.idx;
            proposal_code_hash = hash;
            found_code = true;
          }
          else links'
    ]

abbrev pub is_wasm : ProposalBody → Bool
is_wasm (default_with_wasm sechash) = true
is_wasm b = false

-- tx_init_proposal_t
pub record InitProposal : Type 0 where
  pub content_sechash : Bytes
  pub author : AddressAlt
  pub proposal_type : ℕ
  pub body : ProposalBody
  pub voting_start_epoch : ℕ
  pub voting_end_epoch : ℕ
  pub activation_epoch : ℕ
  pub links : ProposalLinks

module _ (lib : Library) (extra : List Section) where
  unfoldable pub find_proposal_sections :
      Bytes → Option Bytes → ℕ → ℕ → ProposalLinks → Reader ProposalLinks
  find_proposal_sections content code zero i links = pure links
  find_proposal_sections content code (suc n) i links = do
    s ← section_at extra i
    h ← hash_or_error (hash_extra_data_section lib s)
    find_proposal_sections content code n (i + 1) (link_section content code i s h links)

  unfoldable pub read_init_proposal_txn : ℕ → Reader InitProposal
  read_init_proposal_txn extra_data_len = do
    reject_if (leb max_extra_data_secs extra_data_len) unexpected_value
    content_sechash ← read_bytes hash_len
    author ← read_address_alt
    proposal_type ← read_byte
    body ← read_proposal_body proposal_type
    voting_start_epoch ← read_uint64
    voting_end_epoch ← read_uint64
    activation_epoch ← read_uint64
    links ← find_proposal_sections content_sechash (code_sechash body) extra_data_len 0 no_links
    reject_if (not links.found_content || (is_wasm body && not links.found_code)) missing_field
    expect_end unexpected_characters
    pure (record {
      content_sechash = content_sechash;
      author = author;
      proposal_type = proposal_type;
      body = body;
      voting_start_epoch = voting_start_epoch;
      voting_end_epoch = voting_end_epoch;
      activation_epoch = activation_epoch;
      links = links;
    })

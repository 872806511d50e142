-- ===== src/Txn/Safe.antt =====
-- The readers of transaction data of app/src/parser_impl_txn.c, txn_delegation.c and txn_validator.c
-- against the predicate of memory safety.
use ledger_namada.Common.{ℕ, zero, suc, refl}
use ledger_namada.Reader.{Ctx, Outcome, ok, err, fault, read_byte}
use ledger_namada.Reader.Safe.{
  Safe, InBounds, Alike, with_mem, safe_rules, Safe-bind, Safe-read_byte, Safe-read_bytes,
  Safe-read_pubkey,
}
use ledger_namada.Address.Safe.{Safe-read_address_alt}
use ledger_namada.Txn.Fields.{
  Span, extend, read_text, read_flagged_text, read_checked_text, read_pubkeys, try_read_byte,
}
use ledger_namada.Txn.Delegation.{read_bond_unbond, read_redelegate}
use ledger_namada.Txn.Validator.{
  read_become_validator, read_unjail_validator, read_activate_validator,
}
use ledger_namada.Txn.Simple.{
  read_vote_proposal_txn, read_reveal_pubkey_txn, read_withdraw_txn, read_commission_change_txn,
  read_change_consensus_key, read_change_validator_metadata, read_bridge_pool_transfer,
}
use ledger_namada.Txn.Steward.{
  read_resign_steward, read_commissions, read_update_steward_commission,
}

ruleset field_rules = (safe_rules, Safe-read_pubkey, Safe-read_address_alt)

kept-Alike :
    (c : Ctx) (mem : ℕ → ℕ) (old : ℕ) (o o' : Outcome ℕ)
    → InBounds c
    → Alike c mem o o'
    → Alike c mem
        (elim o [ ok b d ↦ ok b d | err e ↦ ok old c | fault ↦ fault ])
        (elim o' [ ok b d ↦ ok b d | err e ↦ ok old (with_mem mem c) | fault ↦ fault ])
kept-Alike c mem old (ok a d) (ok b e) ib h = h
kept-Alike c mem old (err x) (err y) ib h = (refl, refl, refl, refl, refl, ib.within)
kept-Alike c mem old (ok a d) (err y) ib h = absurd h
kept-Alike c mem old (ok a d) fault ib h = absurd h
kept-Alike c mem old (err x) (ok b e) ib h = absurd h
kept-Alike c mem old (err x) fault ib h = absurd h
kept-Alike c mem old fault (ok b e) ib h = absurd h
kept-Alike c mem old fault (err y) ib h = absurd h
kept-Alike c mem old fault fault ib h = absurd h

module _ {slack : ℕ} where
  pub Safe-read_text : Safe slack read_text
  unfolding read_text
  Safe-read_text = search safe_rules

  pub Safe-read_flagged_text : Safe slack read_flagged_text
  unfolding read_flagged_text
  Safe-read_flagged_text = search (safe_rules, Safe-read_text)

  pub Safe-read_checked_text : Safe slack read_checked_text
  unfolding read_checked_text
  Safe-read_checked_text = search (safe_rules, Safe-read_text)

  pub Safe-read_pubkeys : (n : ℕ) (keys : Span) → Safe slack (read_pubkeys n keys)
  unfolding read_pubkeys
  Safe-read_pubkeys zero keys = search safe_rules
  Safe-read_pubkeys (suc n) keys =
      search (field_rules, λ (k : ℕ). Safe-read_pubkeys n (extend keys k))

  pub Safe-try_read_byte : (old : ℕ) → Safe slack (try_read_byte old)
  unfolding try_read_byte
  Safe-try_read_byte old = record {
    at = λ c mem ib ag.
        kept-Alike c mem old (read_byte c) (read_byte (with_mem mem c)) ib
          (Safe-read_byte.at c mem ib ag);
  }

  Safe-read_commissions : (n : ℕ) → Safe slack (read_commissions n)
  unfolding read_commissions
  Safe-read_commissions zero = search safe_rules
  Safe-read_commissions (suc n) =
      Safe-bind _ _ Safe-read_address_alt
        (λ a. Safe-bind _ _ (Safe-read_bytes 32) (λ b. Safe-read_commissions n))

  pub Safe-read_bond_unbond : Safe slack read_bond_unbond
  unfolding read_bond_unbond
  Safe-read_bond_unbond = search (field_rules, Safe-try_read_byte) depth 9

  pub Safe-read_redelegate : Safe slack read_redelegate
  unfolding read_redelegate
  Safe-read_redelegate = search field_rules depth 9

  pub Safe-read_become_validator : (n : ℕ) → Safe slack (read_become_validator n)
  unfolding read_become_validator
  Safe-read_become_validator n =
      search (field_rules, Safe-read_text, Safe-read_flagged_text, Safe-read_checked_text) depth 20

  pub Safe-read_unjail_validator : Safe slack read_unjail_validator
  unfolding read_unjail_validator
  Safe-read_unjail_validator = search field_rules

  pub Safe-read_activate_validator : Safe slack read_activate_validator
  unfolding read_activate_validator
  Safe-read_activate_validator = search field_rules

  pub Safe-read_vote_proposal_txn : Safe slack read_vote_proposal_txn
  unfolding read_vote_proposal_txn
  Safe-read_vote_proposal_txn = search field_rules depth 9

  pub Safe-read_reveal_pubkey_txn : Safe slack read_reveal_pubkey_txn
  unfolding read_reveal_pubkey_txn
  Safe-read_reveal_pubkey_txn = search field_rules

  pub Safe-read_withdraw_txn : Safe slack read_withdraw_txn
  unfolding read_withdraw_txn
  Safe-read_withdraw_txn = search field_rules depth 9

  pub Safe-read_commission_change_txn : Safe slack read_commission_change_txn
  unfolding read_commission_change_txn
  Safe-read_commission_change_txn = search field_rules

  pub Safe-read_change_consensus_key : Safe slack read_change_consensus_key
  unfolding read_change_consensus_key
  Safe-read_change_consensus_key = search field_rules

  pub Safe-read_change_validator_metadata : Safe slack read_change_validator_metadata
  unfolding read_change_validator_metadata
  Safe-read_change_validator_metadata =
      search (field_rules, Safe-read_flagged_text, Safe-read_checked_text) depth 14

  pub Safe-read_bridge_pool_transfer : Safe slack read_bridge_pool_transfer
  unfolding read_bridge_pool_transfer
  Safe-read_bridge_pool_transfer = search field_rules depth 14

  pub Safe-read_resign_steward : Safe slack read_resign_steward
  unfolding read_resign_steward
  Safe-read_resign_steward = search field_rules

  pub Safe-read_update_steward_commission : Safe slack read_update_steward_commission
  unfolding read_update_steward_commission
  Safe-read_update_steward_commission = search (field_rules, Safe-read_commissions) depth 12

-- ===== src/Txn.antt =====
-- The readers of the transaction data: app/src/parser_impl_txn.c, app/src/txn_delegation.c and
-- app/src/txn_validator.c. Each reads the bytes of the data section in a context of its own, and
-- the section must end where the reader stops.
pub mod Fields
pub mod Delegation
pub mod Validator
pub mod Simple
pub mod Steward
pub mod Transfer
pub mod Linked
pub mod Pgf
pub mod Proposal
pub mod Ibc
pub mod Safe
pub mod LinkedSafe
pub mod LinkedCode

-- ===== src/Transaction.antt =====
-- pkg/core/transaction: the witness conditions, rules and scopes of a transaction's signers.
pub mod Condition
pub mod Rule
pub mod Signer
mod Examples

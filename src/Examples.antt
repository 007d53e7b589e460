-- ===== src/Examples.antt =====
-- Runs of the model at concrete inputs: tests, and each theorem with a premise at an input that
-- meets it.
mod Orders
mod Cross
mod Ledger
mod Money
mod Time
mod Service
mod Legs
pub mod Canton
pub mod Transactions
mod Fees

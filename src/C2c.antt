-- ===== src/C2c.antt =====
-- The same-ledger swaps of CBTC and CC.
pub mod Order
pub mod Logic
pub mod Create
pub mod Projector
pub mod Service

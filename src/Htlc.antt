-- ===== src/Htlc.antt =====
-- The cross-chain HTLC orders.
pub mod Order
pub mod Logic
pub mod Create
pub mod Invariants
pub mod Visibility
pub mod Projector

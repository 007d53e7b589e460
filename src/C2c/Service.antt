-- ===== src/C2c/Service.antt =====
-- lib/canton-swap-service.ts: the service of same-ledger swaps.
pub mod Store
pub mod Call
pub mod Diagram
pub mod Create
pub mod Reserve
pub mod Fill
pub mod Settle
pub mod Receipt
pub mod UserLeg
pub mod Filling
pub mod Sweep
pub mod Expire
pub mod Counter
pub mod Reissue
pub mod Safe
pub mod Rows
pub mod Runs
pub mod Requests
pub mod Interleaved

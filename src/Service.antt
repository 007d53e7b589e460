-- ===== src/Service.antt =====
-- lib/htlc-service-singleton.ts and lib/htlc-order-store.ts: the service that moves an order through
-- its statuses, and the table it keeps the orders in.
pub mod Store
pub mod Call
pub mod Diagram
pub mod Lock
pub mod Counter
pub mod Preimage
pub mod Claim
pub mod Record
pub mod Refund
pub mod Settle
pub mod Requests
pub mod Safe
pub mod Runs
pub mod Paths
pub mod OfferIndex
pub mod TableLaws
pub mod Interleaved

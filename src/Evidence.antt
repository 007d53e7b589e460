-- ===== src/Evidence.antt =====
-- lib/canton-swap-leg-verify-logic.ts: what a Canton transaction proves about the legs of a swap.
pub mod Ledger
pub mod Match
pub mod UserLeg
pub mod Offers
pub mod Delivery
pub mod Outcome
pub mod Sender
pub mod Filled
pub mod Results
pub mod Fee
pub mod Created
pub mod FeeSend
pub mod FeeChange
pub mod FeeOffer
pub mod FeePaid

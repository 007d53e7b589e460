-- ===== src/Htlc/Order.antt =====
-- lib/htlc-types.ts: the order of a cross-chain swap, as the service and the store share it.
-- The status `open` is `opened` (`open` is a reserved word). Amounts are unix seconds and decimal strings as in the source; optional fields are `Option`.
use cantonbit.Shared.{ℕ, Bool, Option, List, Text, ◌==◌}

pub data SwapDirection : Type 0 where
  evm_to_canton canton_to_evm : SwapDirection

pub data SwapStatus : Type 0 where
  opened accepted main_locking main_locked counter_locking counter_locked : SwapStatus
  counter_claimed main_claimed refunding refunded cancelled failed : SwapStatus

pub data CounterMode : Type 0 where
  managed loop : CounterMode

pub record SwapOrder : Type 0 where
  pub id : Text
  pub direction : SwapDirection
  pub status : SwapStatus
  pub evm_chain_slug : Option Text
  pub evm_chain_id : Option ℕ
  pub evm_escrow_address : Option Text
  pub evm_wbtc_address : Option Text
  pub hash_lock : Text
  pub user_evm_address : Option Text
  pub solver_evm_address : Option Text
  pub wbtc_amount : Option Text
  pub user_timelock : ℕ
  pub user_canton_party : Text
  pub solver_canton_party : Text
  pub cbtc_amount : Option Text
  pub solver_timelock : ℕ
  pub main_lock_tx : Option Text
  pub counter_lock_tx : Option Text
  pub counter_claim_update_id : Option Text
  pub revealed_preimage : Option Text
  pub main_claim_tx : Option Text
  pub created_at : ℕ
  pub updated_at : Option ℕ
  pub counter_mode : Option CounterMode
  pub allocation_cid : Option Text
  pub htlc_cid : Option Text
  pub htlc_blob : Option Text
  pub counter_transfer_offer_cid : Option Text
  pub counter_transfer_update_id : Option Text
  pub solver_custody_baseline_cids : Option (List Text)
  pub evm_float_reserved : Option Bool
  pub network_fee_cc : Option Text
  pub network_fee_expires_at : Option ℕ
  pub network_fee_preapproval_cid : Option Text
  pub network_fee_settlement_update_id : Option Text
  pub network_fee_accounting_pending : Option Bool

-- A number for each status, so that a comparison of statuses is one of numbers.
abbrev pub status_code : SwapStatus → ℕ
status_code SwapStatus.opened = 0
status_code SwapStatus.accepted = 1
status_code SwapStatus.main_locking = 2
status_code SwapStatus.main_locked = 3
status_code SwapStatus.counter_locking = 4
status_code SwapStatus.counter_locked = 5
status_code SwapStatus.counter_claimed = 6
status_code SwapStatus.main_claimed = 7
status_code SwapStatus.refunding = 8
status_code SwapStatus.refunded = 9
status_code SwapStatus.cancelled = 10
status_code SwapStatus.failed = 11

-- `a === b` on statuses.
abbrev pub status_eq : SwapStatus → SwapStatus → Bool
status_eq a b = status_code a == status_code b

-- ===== src/Htlc/Logic.antt =====
-- lib/htlc-order-logic.ts: what an order's fields say about its life.
pub mod Exclusive
use cantonbit.Shared.{
  ℕ, Bool, true, false, not, ◌&&◌, ◌||◌, Option, none, some, [], ◌∷◌, Text, codes, truthy,
  has_prefix, is_hex, all, length, leb, ◌==◌, if◌then◌else◌,
}
use cantonbit.Htlc.Order.{
  SwapDirection, evm_to_canton, canton_to_evm, SwapStatus, CounterMode, SwapOrder, status_eq,
}

abbrev pub is_forward : SwapDirection → Bool
is_forward evm_to_canton = true
is_forward canton_to_evm = false

-- `o.counterMode === "loop"`
abbrev pub is_loop : Option CounterMode → Bool
is_loop none = false
is_loop (some CounterMode.managed) = false
is_loop (some CounterMode.loop) = true

pub data ReconcileOutcome : Type 0 where
  counter_claimed continue : ReconcileOutcome

unfoldable pub reverse_zero_lock_reconcile_outcome : Bool → ReconcileOutcome
reverse_zero_lock_reconcile_outcome evm_claimed =
    if evm_claimed then ReconcileOutcome.counter_claimed else ReconcileOutcome.continue

unfoldable pub is_smoke_test_order_id : Option Text → Bool
unfolding has_prefix
is_smoke_test_order_id none = false
is_smoke_test_order_id (some id) = truthy (some id) && has_prefix (codes "smoke-") id

unfoldable pub is_swap_claimable : SwapOrder → Bool
is_swap_claimable o =
    if truthy o.revealed_preimage
    then false
    else status_eq o.status SwapStatus.counter_locked
      || (status_eq o.status SwapStatus.main_locked
          && is_loop o.counter_mode
          && is_forward o.direction)

unfoldable pub is_abandoned_swap_draft : SwapOrder → Bool
is_abandoned_swap_draft o =
    is_forward o.direction && status_eq o.status SwapStatus.accepted && not (truthy o.main_lock_tx)

-- `0x` and 64 hexadecimal digits.
unfoldable pub is_evm_tx_hash : Option Text → Bool
is_evm_tx_hash none = false
is_evm_tx_hash (some []) = false
is_evm_tx_hash (some (_ ∷ [])) = false
is_evm_tx_hash (some (z ∷ x ∷ digits)) =
    z == b'0' && x == b'x' && length digits == 64 && all is_hex digits

-- The fields that `htlcUserWbtcClaimTx` reads. `none` stands for the direction "canton-swap", and
-- for a missing status.
pub record ClaimView : Type 0 where
  pub direction : Option SwapDirection
  pub main_claim_tx : Option Text
  pub counter_claim_update_id : Option Text
  pub revealed_preimage : Option Text
  pub status : Option SwapStatus

abbrev pub claim_view : SwapOrder → ClaimView
claim_view o = record {
  direction = some o.direction;
  main_claim_tx = o.main_claim_tx;
  counter_claim_update_id = o.counter_claim_update_id;
  revealed_preimage = o.revealed_preimage;
  status = some o.status;
}

abbrev is_reverse_view : Option SwapDirection → Bool
is_reverse_view (some canton_to_evm) = true
is_reverse_view (some evm_to_canton) = false
is_reverse_view none = false

-- `status !== undefined && status !== "main_claimed" && status !== "counter_claimed"`
abbrev is_unclaimed_status : Option SwapStatus → Bool
is_unclaimed_status none = false
is_unclaimed_status (some s) =
    not (status_eq s SwapStatus.main_claimed) && not (status_eq s SwapStatus.counter_claimed)

unfoldable pub htlc_user_wbtc_claim_tx : ClaimView → Option Text
htlc_user_wbtc_claim_tx v =
    if not (is_reverse_view v.direction)
    then none
    else if is_evm_tx_hash v.main_claim_tx
        && not (truthy v.revealed_preimage)
        && is_unclaimed_status v.status
    then none
    else if is_evm_tx_hash v.main_claim_tx
    then v.main_claim_tx
    else if is_evm_tx_hash v.counter_claim_update_id
    then v.counter_claim_update_id
    else none

unfoldable pub htlc_reverse_solver_retake_tx : SwapOrder → Option Text
htlc_reverse_solver_retake_tx o =
    if is_forward o.direction
    then none
    else if truthy o.revealed_preimage
    then none
    else if not (is_evm_tx_hash o.main_claim_tx)
    then none
    else if status_eq o.status SwapStatus.failed
        || status_eq o.status SwapStatus.refunded
        || status_eq o.status SwapStatus.refunding
        || status_eq o.status SwapStatus.counter_locked
    then o.main_claim_tx
    else none

unfoldable pub htlc_solver_wbtc_claim_tx : SwapOrder → Option Text
htlc_solver_wbtc_claim_tx o = if is_forward o.direction then o.main_claim_tx else none

unfoldable pub htlc_canton_claim_update_id : SwapOrder → Option Text
htlc_canton_claim_update_id o =
    if not (truthy o.counter_claim_update_id)
    then none
    else if not (is_forward o.direction) && is_evm_tx_hash o.counter_claim_update_id
    then none
    else o.counter_claim_update_id

-- `REFUND_MAIN_ACTIVE_STATUSES.has(s)`
abbrev pub is_refund_main_active : SwapStatus → Bool
is_refund_main_active SwapStatus.main_locked = true
is_refund_main_active SwapStatus.counter_locking = true
is_refund_main_active SwapStatus.counter_locked = true
is_refund_main_active SwapStatus.counter_claimed = true
is_refund_main_active SwapStatus.refunding = true
is_refund_main_active _ = false

unfoldable pub is_refund_main_canton_status_eligible : SwapOrder → Bool
is_refund_main_canton_status_eligible o =
    is_refund_main_active o.status
    || (status_eq o.status SwapStatus.failed
        && truthy o.main_claim_tx
        && not (truthy o.revealed_preimage))

unfoldable pub is_reverse_main_expired_sweep_candidate : SwapOrder → ℕ → Bool
is_reverse_main_expired_sweep_candidate o now_seconds =
    not (is_forward o.direction)
    && not (is_loop o.counter_mode)
    && truthy o.htlc_cid
    && not (truthy o.revealed_preimage)
    && leb o.user_timelock now_seconds
    && (not (status_eq o.status SwapStatus.failed) || truthy o.main_claim_tx)

-- ===== src/Htlc/Visibility.antt =====
-- lib/swap-order-visibility.ts: which cross-chain orders a user sees.
pub mod Drafts
use cantonbit.Shared.{
  Bool, true, false, not, ◌&&◌, ◌||◌, Option, none, some, List, Text, truthy, trim, to_lower,
  filter, opt_text_eq, if◌then◌else◌,
}
use cantonbit.Htlc.Order.{SwapStatus, SwapOrder, status_eq}
use cantonbit.Htlc.Logic.{is_forward, is_loop, is_smoke_test_order_id}

unfoldable pub htlc_order_has_user_payment_proof : SwapOrder → Bool
htlc_order_has_user_payment_proof o =
    if is_forward o.direction
    then truthy o.main_lock_tx
    else truthy o.counter_transfer_offer_cid
      || truthy o.counter_transfer_update_id
      || truthy o.allocation_cid
      || truthy o.htlc_cid
      || status_eq o.status SwapStatus.main_locked
      || status_eq o.status SwapStatus.counter_locking
      || status_eq o.status SwapStatus.counter_locked
      || status_eq o.status SwapStatus.counter_claimed
      || status_eq o.status SwapStatus.main_claimed
      || status_eq o.status SwapStatus.refunding
      || status_eq o.status SwapStatus.refunded

-- `o.evmFloatReserved === true`
abbrev pub is_true : Option Bool → Bool
is_true none = false
is_true (some b) = b

unfoldable pub htlc_order_needs_loop_recovery : SwapOrder → Bool
htlc_order_needs_loop_recovery o =
    not (is_forward o.direction)
    && is_loop o.counter_mode
    && is_true o.evm_float_reserved
    && (status_eq o.status SwapStatus.main_locking || status_eq o.status SwapStatus.accepted)
    && not (truthy o.counter_transfer_offer_cid)
    && not (truthy o.counter_transfer_update_id)
    && not (truthy o.allocation_cid)
    && not (truthy o.htlc_cid)

unfoldable pub htlc_order_visible_in_history : SwapOrder → Bool
unfolding htlc_order_has_user_payment_proof htlc_order_needs_loop_recovery
htlc_order_visible_in_history o =
    htlc_order_has_user_payment_proof o || htlc_order_needs_loop_recovery o

-- `opts?.userEvmAddress?.trim().toLowerCase()`
abbrev pub wanted_address : Option Text → Option Text
wanted_address none = none
wanted_address (some a) = some (to_lower (trim a))

abbrev pub lower_opt : Option Text → Option Text
lower_opt none = none
lower_opt (some a) = some (to_lower a)

-- The test of `filterVisibleHtlcHistoryOrders`.
unfoldable pub shown_in_history : Option Text → SwapOrder → Bool
unfolding is_smoke_test_order_id htlc_order_visible_in_history
shown_in_history evm o =
    if is_smoke_test_order_id (some o.id)
    then false
    else if not (htlc_order_visible_in_history o)
    then false
    else if truthy evm && not (opt_text_eq (lower_opt o.user_evm_address) evm)
    then false
    else true

unfoldable pub filter_visible_htlc_history_orders : List SwapOrder → Option Text → List SwapOrder
unfolding shown_in_history
filter_visible_htlc_history_orders orders user_evm_address =
    filter (shown_in_history (wanted_address user_evm_address)) orders

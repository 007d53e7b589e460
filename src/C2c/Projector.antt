-- ===== src/C2c/Projector.antt =====
-- lib/swap-product-invariants.ts, lib/swap-order-visibility.ts and lib/swap-status-projector.ts for
-- same-ledger orders.
pub mod Truthful
use cantonbit.Shared.{Bool, true, false, not, ◌&&◌, ◌||◌, some, List, if◌then◌else◌, truthy, filter}
use cantonbit.Htlc.Logic.{is_smoke_test_order_id}
use cantonbit.Htlc.Invariants.{SwapFlowKey}
use cantonbit.Htlc.Projector.{ProjectedSwapStatus, Label, Tone, running, final}
use cantonbit.C2c.Order.{CantonSwapOrder, CantonSwapStatus, status_eq, is_loop}

unfoldable pub c2c_flow_key : CantonSwapOrder → SwapFlowKey
c2c_flow_key o = if is_loop o.wallet_mode then SwapFlowKey.c2c_loop else SwapFlowKey.c2c_managed

unfoldable pub c2c_counter_leg_proof_present : CantonSwapOrder → Bool
c2c_counter_leg_proof_present o =
    if not (truthy o.settlement_update_id)
    then false
    else if truthy o.counter_leg_offer_cid && not (truthy o.counter_receipt_update_id)
    then false
    else if not (truthy o.counter_leg_offer_cid) && not (truthy o.counter_receipt_update_id)
    then false
    else true

unfoldable pub c2c_visible_completed : CantonSwapOrder → Bool
unfolding c2c_counter_leg_proof_present
c2c_visible_completed o =
    status_eq o.status CantonSwapStatus.filled && c2c_counter_leg_proof_present o

unfoldable pub c2c_order_has_user_payment_proof : CantonSwapOrder → Bool
c2c_order_has_user_payment_proof o =
    if not (is_loop o.wallet_mode)
    then not (status_eq o.status CantonSwapStatus.opened)
      && not (status_eq o.status CantonSwapStatus.expired)
      && not (status_eq o.status CantonSwapStatus.cancelled)
    else truthy o.user_leg_offer_cid
      || truthy o.user_leg_submit_update_id
      || truthy o.settlement_update_id
      || status_eq o.status CantonSwapStatus.user_locked
      || status_eq o.status CantonSwapStatus.filling
      || status_eq o.status CantonSwapStatus.filled
      || status_eq o.status CantonSwapStatus.settling

unfoldable pub filter_visible_c2c_history_orders : List CantonSwapOrder → List CantonSwapOrder
unfolding c2c_order_has_user_payment_proof
filter_visible_c2c_history_orders orders =
    filter (λ o. not (is_smoke_test_order_id (some o.id)) && c2c_order_has_user_payment_proof o)
      orders

-- The `switch` on the status.
project_c2c_by_status : CantonSwapStatus → ProjectedSwapStatus
project_c2c_by_status CantonSwapStatus.filled = running Label.finalizing Tone.waiting
project_c2c_by_status CantonSwapStatus.user_locked = running Label.settling Tone.active
project_c2c_by_status CantonSwapStatus.filling = running Label.settling Tone.active
project_c2c_by_status CantonSwapStatus.settling = running Label.settling Tone.active
project_c2c_by_status CantonSwapStatus.opened = running Label.opened Tone.muted
project_c2c_by_status CantonSwapStatus.expired = final Label.expired Tone.muted
project_c2c_by_status CantonSwapStatus.cancelled = final Label.cancelled Tone.muted
project_c2c_by_status CantonSwapStatus.failed = final Label.failed Tone.danger

unfoldable pub project_c2c_status : CantonSwapOrder → ProjectedSwapStatus
unfolding project_c2c_by_status c2c_visible_completed
project_c2c_status o =
    if c2c_visible_completed o
    then final Label.completed Tone.success
    else if truthy o.counter_leg_offer_cid && not (truthy o.counter_receipt_update_id)
    then running Label.accept_pending Tone.waiting
    else project_c2c_by_status o.status

-- ===== src/Htlc/Invariants.antt =====
-- lib/swap-product-invariants.ts: which evidence an order carries, and when it counts as done.
pub mod Completion
use cantonbit.Shared.{
  ◌>>◌, Bool, true, false, not, ◌&&◌, ◌||◌, truthy, if◌then◌else◌, Result, ok, err, is_ok,
}
use cantonbit.Htlc.Order.{SwapStatus, SwapOrder, status_eq}
use cantonbit.Htlc.Logic.{is_forward, is_loop, claim_view, htlc_user_wbtc_claim_tx}

pub data SwapFlowKey : Type 0 where
  htlc_forward_managed htlc_forward_loop htlc_reverse_managed htlc_reverse_loop : SwapFlowKey
  c2c_managed c2c_loop : SwapFlowKey

unfoldable pub htlc_flow_key : SwapOrder → SwapFlowKey
htlc_flow_key o =
    if is_forward o.direction
    then (if is_loop o.counter_mode
        then SwapFlowKey.htlc_forward_loop
        else SwapFlowKey.htlc_forward_managed)
    else if is_loop o.counter_mode
    then SwapFlowKey.htlc_reverse_loop
    else SwapFlowKey.htlc_reverse_managed

unfoldable pub htlc_forward_loop_delivery_proven : SwapOrder → Bool
htlc_forward_loop_delivery_proven o =
    if not (is_forward o.direction) || not (is_loop o.counter_mode)
    then true
    else truthy o.counter_transfer_update_id && truthy o.counter_claim_update_id

unfoldable pub htlc_counter_claim_proof_present : SwapOrder → Bool
unfolding htlc_forward_loop_delivery_proven
htlc_counter_claim_proof_present o =
    if is_forward o.direction && is_loop o.counter_mode
    then htlc_forward_loop_delivery_proven o
    else if is_forward o.direction
    then truthy o.counter_claim_update_id
    else if is_loop o.counter_mode
    then truthy o.counter_transfer_update_id
    else truthy o.counter_claim_update_id

-- The `reason` of a refusal.
pub data Refusal : Type 0 where
  counter_not_claimed preimage_not_revealed loop_delivery_missing managed_claim_missing : Refusal
  solver_claim_missing not_finalized user_claim_missing custody_missing : Refusal

unfoldable pub htlc_can_expose_preimage_to_solver : SwapOrder → Result Refusal (Unit {0})
unfolding htlc_forward_loop_delivery_proven
htlc_can_expose_preimage_to_solver o =
    if not (status_eq o.status SwapStatus.counter_claimed)
      && not (status_eq o.status SwapStatus.main_claimed)
    then err Refusal.counter_not_claimed
    else if not (truthy o.revealed_preimage)
    then err Refusal.preimage_not_revealed
    else if is_forward o.direction
        && is_loop o.counter_mode
        && not (htlc_forward_loop_delivery_proven o)
    then err Refusal.loop_delivery_missing
    else if is_forward o.direction
        && not (is_loop o.counter_mode)
        && not (truthy o.counter_claim_update_id)
    then err Refusal.managed_claim_missing
    else ok tt

-- The reverse half reads the order with `direction: "canton-to-evm"`, which it has there.
forward_can_mark_complete : SwapOrder → Result Refusal (Unit {0})
unfolding htlc_can_expose_preimage_to_solver
forward_can_mark_complete o =
    htlc_can_expose_preimage_to_solver o
    >> (if not (truthy o.main_claim_tx) && status_eq o.status SwapStatus.main_claimed
        then err Refusal.solver_claim_missing
        else ok tt)

reverse_can_mark_complete : SwapOrder → Result Refusal (Unit {0})
unfolding htlc_user_wbtc_claim_tx htlc_counter_claim_proof_present
reverse_can_mark_complete o =
    if not (status_eq o.status SwapStatus.main_claimed)
    then err Refusal.not_finalized
    else if not (truthy (htlc_user_wbtc_claim_tx (claim_view o)))
    then err Refusal.user_claim_missing
    else if not (htlc_counter_claim_proof_present o)
    then err Refusal.custody_missing
    else ok tt

unfoldable pub htlc_can_mark_complete : SwapOrder → Result Refusal (Unit {0})
unfolding forward_can_mark_complete reverse_can_mark_complete
htlc_can_mark_complete o =
    if is_forward o.direction then forward_can_mark_complete o else reverse_can_mark_complete o

unfoldable pub htlc_visible_completed : SwapOrder → Bool
unfolding htlc_can_mark_complete
htlc_visible_completed o =
    if not (status_eq o.status SwapStatus.main_claimed)
    then false
    else is_ok (htlc_can_mark_complete o)

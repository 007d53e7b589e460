-- ===== src/Htlc/Invariants/Completion.antt =====
-- An order is shown as complete exactly when both legs are proved.
use cantonbit.Shared.{◌≡◌, ◌↔◌, Bool, true, not, ◌&&◌, ◌||◌, arith, ok, if◌then◌else◌}
use cantonbit.Htlc.Order.{SwapOrder}
use cantonbit.Htlc.Invariants.{
  claim_view, is_loop, is_forward, SwapStatus, status_eq, true, truthy, ok,
  htlc_forward_loop_delivery_proven, Bool, htlc_user_wbtc_claim_tx,
  htlc_can_expose_preimage_to_solver, htlc_visible_completed,
}

-- What must have happened on both ledgers, field by field.
abbrev pub both_legs_proved : SwapOrder → Bool
both_legs_proved o =
    if is_forward o.direction
    then truthy o.revealed_preimage
      && truthy o.main_claim_tx
      && truthy o.counter_claim_update_id
      && (not (is_loop o.counter_mode) || truthy o.counter_transfer_update_id)
    else truthy (htlc_user_wbtc_claim_tx (claim_view o))
      && (if is_loop o.counter_mode
          then truthy o.counter_transfer_update_id
          else truthy o.counter_claim_update_id)

-- An order counts as complete exactly when its status is `main_claimed` and both legs are proved.
-- Forward: the secret is out, the solver's WBTC claim is recorded, and so is the user's Canton
-- claim, with the delivery's update id for Loop. Reverse: the order's reading as a claim of the WBTC by
-- the user is present, and the field for the Canton claim is not empty or, for Loop, that for the
-- custody transfer. The field for the Canton claim is not read any closer: a hash of the EVM chain in
-- it counts, also one that is itself the reading of the WBTC claim.
pub htlc_visible_completed_lem :
    (o : SwapOrder)
    → htlc_visible_completed o ≡ (status_eq o.status SwapStatus.main_claimed && both_legs_proved o)
unfolding htlc_visible_completed
htlc_visible_completed_lem o = ground arith

-- The solver is given the secret exactly when the secret was revealed, the counter leg was claimed by
-- status, and, on a forward order, the update of the user's Canton claim is recorded and, for Loop, also
-- the update of the delivery.
pub expose_iff :
    (o : SwapOrder)
    → (htlc_can_expose_preimage_to_solver o ≡ ok tt) ↔ (
        (truthy o.revealed_preimage ≡ true)
        × ((status_eq o.status SwapStatus.counter_claimed
              || status_eq o.status SwapStatus.main_claimed)
            ≡ true)
        × ((not (is_forward o.direction)
              || (truthy o.counter_claim_update_id
                  && (not (is_loop o.counter_mode) || truthy o.counter_transfer_update_id)))
            ≡ true))
unfolding htlc_can_expose_preimage_to_solver htlc_forward_loop_delivery_proven
expose_iff o = ground arith

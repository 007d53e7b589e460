-- ===== src/Evidence/Outcome.antt =====
-- lib/canton-swap-leg-verify-logic.ts, buildLoopFillResultFromEvents: what a fill that is on the ledger
-- did.
use cantonbit.Shared.{
  Bool, true, false, Option, none, some, List, Text, Result, ok, err, ◌>>◌, if◌then◌else◌, truthy,
  guard,
}
use cantonbit.C2c.Order.{CantonSwapOrder, swap_party}
use cantonbit.C2c.Service.Create.{decimals_of}
use cantonbit.Evidence.Ledger.{InstrumentId, Node}
use cantonbit.Evidence.Match.{Leg}
use cantonbit.Evidence.Delivery.{
  counter_leg_delivered_to_user_in_events, extract_counter_offer_cid_from_events,
  is_direct_transfer_kind,
}

pub record LoopFillResult : Type 0 where
  pub update_id : Text
  pub counter_leg_offer_cid : Option Text
  pub counter_leg_pending_accept : Bool

pub data FillError : Type 0 where
  direct_transfer_did_not_deliver outcome_not_found : FillError

abbrev pub counter_leg : CantonSwapOrder → Option Text → Leg
counter_leg o memo = record {
  sender_party = swap_party o;
  receiver_party = o.user_party;
  amount = o.out_amount;
  amount_decimals = decimals_of o.to_asset;
  expected_memo = memo;
}

abbrev pub outcome_of : Text → Text → Bool → Option Text → Result FillError LoopFillResult
outcome_of update_id kind delivered offer =
    if delivered
    then ok (record {
      update_id = update_id;
      counter_leg_offer_cid = none;
      counter_leg_pending_accept = false;
    })
    else if truthy offer
    then ok (record {
      update_id = update_id;
      counter_leg_offer_cid = offer;
      counter_leg_pending_accept = true;
    })
    else if is_direct_transfer_kind kind
    then err FillError.direct_transfer_did_not_deliver
    else err FillError.outcome_not_found

-- `wanted` is `expectedInstrument ?? asset.instrumentId`, the second from the configured network.
unfoldable pub build_loop_fill_result_from_events :
    CantonSwapOrder
    → Text
    → List Node
    → Text
    → InstrumentId
    → Option Text
    → Result FillError LoopFillResult
unfolding counter_leg_delivered_to_user_in_events extract_counter_offer_cid_from_events
build_loop_fill_result_from_events o update_id nodes kind wanted memo =
    let leg = counter_leg o memo in
    outcome_of update_id kind (counter_leg_delivered_to_user_in_events (some nodes) leg wanted)
      (extract_counter_offer_cid_from_events (some nodes) leg (some wanted))

pub data ConsumptionError : Type 0 where
  no_pending_offer no_accept_leg : ConsumptionError

unfoldable pub assert_fill_includes_user_leg_consumption :
    Bool → Bool → Result ConsumptionError (Unit {0})
assert_fill_includes_user_leg_consumption accept_leg_included is_pending_offer =
    guard is_pending_offer ConsumptionError.no_pending_offer
    >> guard accept_leg_included ConsumptionError.no_accept_leg

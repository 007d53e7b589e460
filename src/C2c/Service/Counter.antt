-- ===== src/C2c/Service/Counter.antt =====
-- lib/canton-swap-service.ts: the counter leg that a user has to take: its acceptance, and the
-- proof of it on filled orders.
use cantonbit.Shared.{
  ℕ, Bool, false, not, ◌&&◌, ◌||◌, Option, none, some, [], Text, Result, if◌then◌else◌, or_else,
  codes, truthy,
}
use cantonbit.C2c.Order.{CantonSwapOrder, CantonSwapStatus, is_loop, status_eq}
use cantonbit.C2c.Projector.{c2c_counter_leg_proof_present}
use cantonbit.C2c.Service.Store.{is_some}
use cantonbit.C2c.Service.Call.{Call, if_ok, if_some, must, test◌then◌else◌, transition}
use cantonbit.C2c.Service.Fill.{Fill, apply_filled_proof_repair}
use cantonbit.C2c.Service.Receipt.{Proof, Reading, verify_counter_leg_receipt_proof}
use cantonbit.C2c.Service.Sweep.{counted, has_status, ignore, noted, swept}

-- What the acceptance of a counter leg is told: whether the offer is still listed, the looks at the
-- ledger, and the accounting of the fee.
pub record Acceptance : Type 0 where
  pub listed : Result Text Bool
  pub readings : ℕ → Result Text Reading
  pub fees_on : Bool
  pub positive : Text → Bool
  pub recorded : Result Text (Unit {0})

abbrev pub mark_filled : Text → CantonSwapStatus → CantonSwapOrder → Call
mark_filled id prior o =
    let o' = record o { status = CantonSwapStatus.filled; failure_reason = none } in
    transition Call.throw o' prior (Call.done o') (
      must id (λ fresh.
        test status_eq fresh.status CantonSwapStatus.filled
        then Call.done fresh
        else Call.throw (codes "cannot mark filled")))

abbrev pub fee_accounted : CantonSwapOrder → CantonSwapOrder
fee_accounted o = record o {
  network_fee_accounting_pending = some false;
  network_fee_settlement_update_id = o.settlement_update_id;
}

abbrev pub mark_proved : Acceptance → Text → CantonSwapStatus → CantonSwapOrder → Proof → Call
mark_proved a id prior o (Proof.received update_id) =
    let o' = record o { counter_receipt_update_id = some update_id } in
    test not (is_loop o.wallet_mode)
      && a.fees_on
      && truthy o.network_fee_cc
      && a.positive (or_else o.network_fee_cc [])
    then if_ok a.recorded (λ _. mark_filled id prior (fee_accounted o')) Call.throw
    else mark_filled id prior o'
mark_proved a id prior o Proof.pending = Call.throw (codes "Counter leg accept not verified")
mark_proved a id prior o Proof.not_received = Call.throw (codes "Counter leg accept not verified")
mark_proved a id prior o Proof.unknown = Call.throw (codes "Counter leg accept not verified")

-- The status that an order waits in for its counter leg.
abbrev pub waiting_status : CantonSwapOrder → CantonSwapStatus
waiting_status o =
    if is_loop o.wallet_mode then CantonSwapStatus.user_locked else CantonSwapStatus.settling

unfoldable pub mark_counter_accepted : Acceptance → Text → Call
unfolding verify_counter_leg_receipt_proof
mark_counter_accepted a id = must id (λ o.
    test not (status_eq o.status (waiting_status o))
    then Call.throw (codes "invalid status")
    else test not (truthy o.counter_leg_offer_cid)
    then Call.throw (codes "no counter leg offer on order")
    else test not (truthy o.settlement_update_id)
    then Call.throw (codes "solver fill not completed yet")
    else if_ok a.listed
        (λ listed.
          test listed
          then Call.throw (codes "Counter leg not accepted yet")
          else if_ok (verify_counter_leg_receipt_proof o 5 a.readings)
              (mark_proved a id (waiting_status o) o) Call.throw)
        Call.throw)

-- What the settlement shows of the counter leg.
pub data Delivery : Type 0 where
  delivered : Text → Delivery
  unreadable undelivered : Delivery

abbrev pub delivered_with : Text → CantonSwapOrder → CantonSwapOrder
delivered_with update_id o = record o {
  counter_receipt_update_id = some update_id;
  counter_leg_offer_cid = none;
  counter_leg_created_offset = none;
  counter_pending_cleared_at = none;
  status = CantonSwapStatus.filled;
  failure_reason = none;
}

abbrev pub blocked_for : Text → CantonSwapOrder → CantonSwapOrder
blocked_for reason o = record o { failure_reason = some reason }

-- `tryCompleteFromSettlementDelivery`, and what goes on with the order as it is by then.
abbrev pub by_delivery : (CantonSwapOrder → Call) → CantonSwapOrder → Delivery → Call
by_delivery go_on o (Delivery.delivered update_id) =
    let o' = delivered_with update_id o in
    transition ignore o' CantonSwapStatus.user_locked (Call.done o') (go_on o')
by_delivery go_on o Delivery.unreadable =
    noted
      (blocked_for
        (codes "Counter receipt proof incomplete — settlement ledger unreadable; reissue blocked")
        o)
      CantonSwapStatus.user_locked
by_delivery go_on o Delivery.undelivered = go_on o

-- Without a settlement there is nothing to look at.
abbrev pub try_complete : Result Text Delivery → (CantonSwapOrder → Call) → CantonSwapOrder → Call
try_complete delivery go_on o =
    test truthy o.settlement_update_id then if_ok delivery (by_delivery go_on o) ignore else go_on o

abbrev pub not_cleared : CantonSwapOrder → CantonSwapOrder
not_cleared o = record o { counter_pending_cleared_at = none }

abbrev pub keep_waiting : CantonSwapOrder → Call
keep_waiting o =
    test is_some o.counter_pending_cleared_at
    then noted (not_cleared o) CantonSwapStatus.user_locked
    else Call.skip

abbrev pub filled_by_delivery : CantonSwapOrder → Delivery → Call
filled_by_delivery o (Delivery.delivered update_id) =
    counted (record o { counter_receipt_update_id = some update_id; failure_reason = none })
      CantonSwapStatus.filled
filled_by_delivery o Delivery.unreadable =
    noted
      (blocked_for
        (codes
          "Counter receipt proof missing — refusing repair until settlement ledger is readable")
        o)
      CantonSwapStatus.filled
filled_by_delivery o Delivery.undelivered =
    noted
      (blocked_for
        (codes
          "Counter receipt proof missing on filled order — reissue disabled; use user_locked reconcile path")
        o)
      CantonSwapStatus.filled

unfoldable pub reconcile_filled_loop_counter_proof :
    Result Text (Option Fill) → Result Text Delivery → Text → Call
unfolding apply_filled_proof_repair
reconcile_filled_loop_counter_proof repaired delivery id =
    swept (has_status CantonSwapStatus.filled) id (λ o.
      test not (is_loop o.wallet_mode)
        || c2c_counter_leg_proof_present o
        || not (truthy o.settlement_update_id)
      then Call.skip
      else if_ok repaired
          (λ found.
            if_some found (λ r. counted (apply_filled_proof_repair o r) CantonSwapStatus.filled)
              (if_ok delivery (filled_by_delivery o) ignore))
          ignore)

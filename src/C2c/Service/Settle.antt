-- ===== src/C2c/Service/Settle.antt =====
-- lib/canton-swap-service.ts: the settlement of orders whose wallets the service signs for. The wait
-- for the ledger is in the answers; an error inside a `try` goes to `settle_failed` with the order as
-- it is by then.
use cantonbit.Shared.{
  Bool, true, false, not, ◌&&◌, Option, some, ◌++◌, Text, Result, if◌then◌else◌, codes, truthy,
  includes,
}
use cantonbit.C2c.Order.{CantonSwapOrder, CantonSwapStatus, is_loop, status_eq}
use cantonbit.C2c.Service.Store.{Guard, is_true}
use cantonbit.C2c.Service.Call.{Call, if_ok, if_some, must, must_or, test◌then◌else◌, transition}
use cantonbit.C2c.Service.Create.{Intake, OrderParams, create_then}
use cantonbit.C2c.Service.Reserve.{
  Check, Floats, enforce_settlement_quote, plain_move, reserve_swap_float,
}
use cantonbit.C2c.Service.Fill.{Fill, apply_managed_fill_result, repair_managed_from_ledger}

-- The answers that one settlement gets. `fee` is the fee charged, if fees are on; `collected` whether
-- the settlement took it; `recorded` whether the accounting was written.
pub record Settlement : Type 0 where
  pub check : Check
  pub fee : Option (Result Text Text)
  pub offer : Result Text Text
  pub result : Result Text Fill
  pub collected : Bool
  pub recorded : Bool
  pub repaired : Result Text (Option Fill)
  pub rejects : Result Text (Unit {0})

abbrev pub failed_with : Text → CantonSwapOrder → CantonSwapOrder
failed_with msg o = record o {
  status = CantonSwapStatus.failed;
  float_reserved = some false;
  failure_reason = some msg;
}

abbrev pub settling_still : Text → CantonSwapOrder → CantonSwapOrder
settling_still reason o = record o {
  status = CantonSwapStatus.settling;
  failure_reason = some reason;
}

-- A write that is followed by the error, whether it was made or not.
abbrev pub put_and_throw : Text → CantonSwapOrder → CantonSwapStatus → Call
put_and_throw msg o expected = transition Call.throw o expected (Call.throw msg) (Call.throw msg)

-- The `catch` of `completeSettling`, after the repair has found nothing.
abbrev pub settle_abandoned : Settlement → Text → CantonSwapOrder → Call
settle_abandoned a msg o =
    test includes (codes "duplicate command committed but settle transaction not found") msg
    then must o.id Call.done
    else test includes (codes "submission in flight") msg
    then put_and_throw msg
        (settling_still (codes "Settle still processing on ledger — retry shortly") o)
        CantonSwapStatus.settling
    else test truthy o.user_leg_offer_cid && not (truthy o.settlement_update_id)
    then if_ok a.rejects (λ _. put_and_throw msg (failed_with msg o) CantonSwapStatus.settling)
        (λ reject_error.
          put_and_throw msg
            (settling_still
              (codes "Settle failed and user sell offer rejection failed: " ++ reject_error) o)
            CantonSwapStatus.settling)
    else put_and_throw msg (failed_with msg o) CantonSwapStatus.settling

abbrev pub settle_failed : Settlement → CantonSwapOrder → Text → Call
settle_failed a o msg =
    repair_managed_from_ledger Call.throw Call.done (settle_abandoned a msg o) a.repaired o

abbrev pub accounted : CantonSwapOrder → CantonSwapOrder
accounted o = record o { network_fee_accounting_pending = some false }

-- The accounting of a fee that was taken; its errors are only logged.
abbrev pub fee_booked : CantonSwapOrder → CantonSwapOrder → Call
fee_booked o fresh =
    test is_true fresh.network_fee_accounting_pending
    then Call.put (accounted fresh) fresh.status Guard.any_offer (λ _. Call.done o)
    else Call.done o

abbrev pub account_fee : Settlement → Bool → CantonSwapOrder → Call
account_fee a estimated o =
    test a.collected && estimated && a.recorded
    then must_or (λ _. Call.done o) o.id (fee_booked o)
    else Call.done o

abbrev pub with_fee_marker : Bool → Text → CantonSwapOrder → CantonSwapOrder
with_fee_marker collected update_id o = record o {
  network_fee_settlement_update_id =
      if collected then some update_id else o.network_fee_settlement_update_id;
  network_fee_accounting_pending =
      if collected then some true else o.network_fee_accounting_pending;
}

abbrev pub settled_with : Settlement → Bool → CantonSwapOrder → Fill → Call
settled_with a estimated o r =
    let marked = with_fee_marker a.collected r.update_id o in
    if_ok (apply_managed_fill_result marked r)
      (λ o'.
        transition (settle_failed a o') o' CantonSwapStatus.settling (account_fee a estimated o')
          (must_or (settle_failed a o') o'.id Call.done))
      (settle_failed a marked)

abbrev pub settle_on_ledger : Settlement → Bool → CantonSwapOrder → Call
settle_on_ledger a estimated o = if_ok a.result (settled_with a estimated o) (settle_failed a o)

-- The user's offer is made once, and linked before anything is settled.
abbrev pub offer_linked : Settlement → Bool → CantonSwapOrder → Text → Call
offer_linked a estimated o cid =
    let o' = record o { user_leg_offer_cid = some cid } in
    transition (settle_failed a o') o' CantonSwapStatus.settling (settle_on_ledger a estimated o') (
      must_or (settle_failed a o') o'.id (λ fresh.
        test truthy fresh.user_leg_offer_cid
        then settle_on_ledger a estimated fresh
        else settle_failed a fresh (codes "managed user offer created but could not be persisted")))

abbrev pub with_offer : Settlement → Bool → CantonSwapOrder → Call
with_offer a estimated o =
    test truthy o.user_leg_offer_cid
    then settle_on_ledger a estimated o
    else if_ok a.offer (offer_linked a estimated o) (settle_failed a o)

abbrev pub fee_bound : Settlement → CantonSwapOrder → Text → Call
fee_bound a o fee_cc =
    let o' = record o {
      network_fee_cc = some fee_cc;
      network_fee_expires_at = some o.quote_expires_at;
    } in
    transition (settle_failed a o') o' CantonSwapStatus.settling (with_offer a true o')
      (must_or (settle_failed a o') o'.id (with_offer a true))

abbrev pub with_fee : Settlement → CantonSwapOrder → Call
with_fee a o =
    test truthy o.network_fee_cc
    then if_some a.fee (λ fee. if_ok fee (fee_bound a o) (settle_failed a o)) (with_offer a false o)
    else with_offer a false o

unfoldable pub complete_settling : Settlement → CantonSwapOrder → Call
unfolding enforce_settlement_quote repair_managed_from_ledger apply_managed_fill_result
complete_settling a o =
    if_ok (enforce_settlement_quote o a.check) (λ _. with_fee a o) (settle_failed a o)

-- The reservation of an open order; if it throws, another worker may have come first.
abbrev pub reserve_failed : Settlement → Text → Text → Call
reserve_failed a id msg = must id (λ fresh.
    test status_eq fresh.status CantonSwapStatus.filled
    then Call.done fresh
    else test status_eq fresh.status CantonSwapStatus.settling
    then complete_settling a fresh
    else Call.throw msg)

abbrev pub settle_open : Check → Floats → Settlement → Text → CantonSwapOrder → Call
settle_open first f a id o =
    if_ok (enforce_settlement_quote o first)
      (λ _.
        reserve_swap_float (reserve_failed a id) (complete_settling a) f o
          (plain_move CantonSwapStatus.opened CantonSwapStatus.settling))
      Call.throw

unfoldable pub settle_managed : Check → Floats → Settlement → Text → Call
unfolding complete_settling enforce_settlement_quote reserve_swap_float
settle_managed first f a id = must id (λ o.
    test is_loop o.wallet_mode
    then Call.throw (codes "settle is for managed users only")
    else test status_eq o.status CantonSwapStatus.filled
    then Call.done o
    else test status_eq o.status CantonSwapStatus.settling
    then (test not (is_true o.float_reserved) && not (truthy o.settlement_update_id)
        then reserve_swap_float Call.throw (complete_settling a) f o
            (plain_move CantonSwapStatus.settling CantonSwapStatus.settling)
        else complete_settling a o)
    else test not (status_eq o.status CantonSwapStatus.opened)
    then Call.throw (codes "cannot settle")
    else settle_open first f a id o)

-- `submitManaged`: the order is created and settled in one request.
unfoldable pub submit_managed : OrderParams → Intake → Check → Floats → Settlement → Call
unfolding settle_managed
submit_managed p intake first f a =
    create_then (λ order. settle_managed first f a order.id) p intake

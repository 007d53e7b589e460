-- ===== src/C2c/Service/Sweep.antt =====
-- lib/canton-swap-service.ts: the sweeps that repair orders. A sweep reads the orders of a status and
-- works on one after the other: it is one request for each order, which begins with the read of its
-- row. `skip` leaves an order for the next sweep; an order that the sweep counts is returned.
use cantonbit.Shared.{
  ℕ, Bool, not, ◌&&◌, ◌||◌, Option, none, some, [], Text, Result, if◌then◌else◌, or_else, codes,
  truthy,
}
use cantonbit.C2c.Order.{CantonSwapOrder, CantonSwapStatus, is_loop, status_eq}
use cantonbit.C2c.Logic.{is_order_expired}
use cantonbit.C2c.Service.Store.{is_true}
use cantonbit.C2c.Service.Call.{Call, if_ok, if_some, test◌then◌else◌, transition}
use cantonbit.C2c.Service.Fill.{Fill, apply_loop_fill_result, repair_managed_from_ledger}
use cantonbit.C2c.Service.Settle.{accounted}
use cantonbit.C2c.Service.Receipt.{Proof, Reading, verify_counter_leg_receipt_proof}
use cantonbit.C2c.Service.Filling.{Filling, fill_loop}

abbrev pub row_of :
    (CantonSwapOrder → Bool) → (CantonSwapOrder → Call) → Option CantonSwapOrder → Call
row_of wanted body none = Call.skip
row_of wanted body (some o) = test wanted o then body o else Call.skip

-- The part of a sweep about one order, whose row has to be as wanted.
abbrev pub swept : (CantonSwapOrder → Bool) → Text → (CantonSwapOrder → Call) → Call
swept wanted id body = Call.read id (row_of wanted body)

abbrev pub has_status : CantonSwapStatus → CantonSwapOrder → Bool
has_status s o = status_eq o.status s

abbrev pub ignore : Text → Call
ignore _ = Call.skip

-- A write of a sweep, which counts if it was made.
abbrev pub counted : CantonSwapOrder → CantonSwapStatus → Call
counted o expected = transition ignore o expected (Call.done o) Call.skip

-- A write of a sweep that does not count.
abbrev pub noted : CantonSwapOrder → CantonSwapStatus → Call
noted o expected = transition ignore o expected Call.skip Call.skip

abbrev pub repair_fill : CantonSwapOrder → CantonSwapStatus → Fill → Call
repair_fill o expected r = if_ok (apply_loop_fill_result o r) (λ o'. counted o' expected) ignore

unfoldable pub reconcile_filling : Result Text (Option Fill) → Filling → Text → Call
unfolding apply_loop_fill_result fill_loop
reconcile_filling repaired a id = swept (has_status CantonSwapStatus.filling) id (λ o.
    test not (is_loop o.wallet_mode)
    then Call.skip
    else if_ok repaired
        (λ found. if_some found (repair_fill o CantonSwapStatus.filling) (fill_loop a id)) ignore)

unfoldable pub reconcile_failed_loop : Result Text (Option Fill) → ℕ → Text → Call
unfolding apply_loop_fill_result
reconcile_failed_loop repaired now id = swept (has_status CantonSwapStatus.failed) id (λ o.
    test not (is_loop o.wallet_mode)
    then Call.skip
    else test is_order_expired o now
    then Call.skip
    else if_ok repaired
        (λ found. if_some found (repair_fill o CantonSwapStatus.failed) (
          test truthy o.user_leg_offer_cid
          then counted
              (record o {
                status = CantonSwapStatus.user_locked;
                failure_reason = some (codes "Retrying after transient fill failure");
              })
              CantonSwapStatus.failed
          else Call.skip))
        ignore)

abbrev pub received_with : Text → CantonSwapOrder → CantonSwapOrder
received_with update_id o = record o {
  counter_receipt_update_id = some update_id;
  status = CantonSwapStatus.filled;
  failure_reason = none;
}

abbrev pub settled_by_proof : CantonSwapOrder → Proof → Call
settled_by_proof o (Proof.received update_id) =
    counted (received_with update_id o) CantonSwapStatus.settling
settled_by_proof o Proof.pending = Call.skip
settled_by_proof o Proof.not_received = Call.skip
settled_by_proof o Proof.unknown = Call.skip

unfoldable pub reconcile_settling :
    Result Text (Option Fill) → (ℕ → Result Text Reading) → Text → Call
unfolding repair_managed_from_ledger verify_counter_leg_receipt_proof
reconcile_settling repaired readings id =
    swept (λ o. has_status CantonSwapStatus.settling o || has_status CantonSwapStatus.failed o) id
      (λ o.
        test is_loop o.wallet_mode
        then Call.skip
        else repair_managed_from_ledger ignore Call.done
            (test status_eq o.status CantonSwapStatus.settling
                && truthy o.settlement_update_id
                && truthy o.counter_leg_offer_cid
              then if_ok (verify_counter_leg_receipt_proof o 3 readings) (settled_by_proof o) ignore
              else Call.skip)
            repaired o)

-- The statuses at which the ledger may have more than the table.
abbrev pub may_lag : CantonSwapOrder → Bool
may_lag o =
    has_status CantonSwapStatus.expired o
    || has_status CantonSwapStatus.opened o
    || has_status CantonSwapStatus.settling o
    || has_status CantonSwapStatus.failed o

abbrev pub count_filled : CantonSwapOrder → Call
count_filled o = test status_eq o.status CantonSwapStatus.filled then Call.done o else Call.skip

unfoldable pub reconcile_expired_managed : Result Text (Option Fill) → Text → Call
unfolding repair_managed_from_ledger
reconcile_expired_managed repaired id = swept may_lag id (λ o.
    test is_loop o.wallet_mode
    then Call.skip
    else repair_managed_from_ledger ignore count_filled Call.skip repaired o)

-- `history`, for one order of the page.
abbrev pub shown : Result Text (Option Fill) → Option CantonSwapOrder → Call
shown repaired none = Call.skip
shown repaired (some o) =
    test not (is_loop o.wallet_mode) && may_lag o
    then repair_managed_from_ledger Call.throw Call.done (Call.done o) repaired o
    else Call.done o

unfoldable pub history_entry : Result Text (Option Fill) → Text → Call
unfolding repair_managed_from_ledger
history_entry repaired id = Call.read id (shown repaired)

-- `positive` is whether a fee is above zero, `recorded` whether the accounting was written.
unfoldable pub reconcile_network_fee_accounting : (Text → Bool) → Bool → Text → Call
reconcile_network_fee_accounting positive recorded id =
    swept (λ o. is_true o.network_fee_accounting_pending) id
      (λ o.
        test not (truthy o.network_fee_cc)
          || not (truthy o.network_fee_settlement_update_id)
          || not (positive (or_else o.network_fee_cc []))
        then Call.skip
        else test recorded
        then counted (accounted o) o.status
        else Call.skip)

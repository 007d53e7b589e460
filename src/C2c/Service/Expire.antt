-- ===== src/C2c/Service/Expire.antt =====
-- lib/canton-swap-service.ts, `expireStale`: the sweep that expires orders, one order at a time.
use cantonbit.Shared.{
  ℕ, Bool, false, not, ◌&&◌, ◌||◌, Option, some, Text, Result, if◌then◌else◌, codes, truthy,
}
use cantonbit.C2c.Order.{CantonSwapOrder, CantonSwapStatus, status_eq, is_loop}
use cantonbit.C2c.Logic.{
  is_order_expired, should_expire_for_vault_migration, is_loop_fill_pending_counter_accept,
  is_loop_fill_in_flight,
}
use cantonbit.C2c.Service.Fill.{Fill, apply_loop_fill_result, apply_managed_fill_result}
use cantonbit.C2c.Service.Sweep.{swept, has_status, counted}
use cantonbit.C2c.Service.Call.{Call, test◌then◌else◌, if_ok, if_some, must_or, transition}

-- What the sweep is told about one order: the vault, the clock, whether the user's offer could be
-- rejected, and what the ledger was found to have.
pub record Expiring : Type 0 where
  pub vault_party : Option Text
  pub now : ℕ
  pub rejected : Bool
  pub managed_fill : Result Text (Option Fill)
  pub loop_fill : Result Text (Option Fill)

abbrev pub expired_for : Text → CantonSwapOrder → CantonSwapOrder
expired_for reason o = record o {
  status = CantonSwapStatus.expired;
  float_reserved = some false;
  failure_reason = some reason;
}

abbrev pub stale_reason : CantonSwapOrder → Text
stale_reason o = if is_loop o.wallet_mode then codes "order expired" else codes "quote expired"

abbrev pub unsettled_offer : CantonSwapOrder → Bool
unsettled_offer o = truthy o.user_leg_offer_cid && not (truthy o.settlement_update_id)

-- The user's offer is rejected first; if that fails the order is left.
abbrev pub expire_after_reject : Expiring → CantonSwapStatus → CantonSwapOrder → Call
expire_after_reject a prior o =
    test (status_eq prior CantonSwapStatus.user_locked
        || status_eq prior CantonSwapStatus.filling
        || status_eq prior CantonSwapStatus.settling)
      && unsettled_offer o
      && not a.rejected
    then Call.skip
    else counted (expired_for (stale_reason o) o) prior

-- A filling order without a settlement may have one on the ledger.
abbrev pub expire_filling : Expiring → CantonSwapOrder → Fill → Call
expire_filling a o r =
    if_ok (apply_loop_fill_result o r)
      (λ o'.
        transition (λ _. expire_after_reject a CantonSwapStatus.filling o') o'
          CantonSwapStatus.filling (Call.done o') Call.skip)
      (λ _. expire_after_reject a CantonSwapStatus.filling o)

abbrev pub expire_from : Expiring → CantonSwapStatus → CantonSwapOrder → Call
expire_from a prior o =
    test status_eq prior CantonSwapStatus.filling
      && is_loop o.wallet_mode
      && not (truthy o.settlement_update_id)
    then if_ok a.loop_fill
        (λ found. if_some found (expire_filling a o) (expire_after_reject a prior o))
        (λ _. expire_after_reject a prior o)
    else expire_after_reject a prior o

-- A fill that the ledger has is written first; if the order is not filled by that, the sweep goes on
-- with the order as the repair has left it in memory.
abbrev pub unless_filled : Call → CantonSwapOrder → Call
unless_filled c repaired =
    test status_eq repaired.status CantonSwapStatus.filled then Call.done repaired else c

abbrev pub expire_repaired : Expiring → CantonSwapStatus → CantonSwapOrder → Fill → Call
expire_repaired a prior o r =
    if_ok (apply_managed_fill_result o r)
      (λ o'.
        let rest = expire_from a prior o' in
        transition (λ _. rest) o' o.status (unless_filled rest o')
          (must_or (λ _. rest) o.id (unless_filled rest)))
      (λ _. expire_from a prior o)

abbrev pub expire_managed : Expiring → CantonSwapOrder → Call
expire_managed a o =
    if_ok a.managed_fill
      (λ found. if_some found (expire_repaired a o.status o) (expire_from a o.status o))
      (λ _. expire_from a o.status o)

abbrev pub expire_due : Expiring → CantonSwapOrder → Call
expire_due a o =
    test not (is_order_expired o a.now)
    then Call.skip
    else test not (is_loop o.wallet_mode)
        && (status_eq o.status CantonSwapStatus.opened
            || status_eq o.status CantonSwapStatus.settling)
    then expire_managed a o
    else expire_from a o.status o

unfoldable pub is_swept : CantonSwapOrder → Bool
is_swept o =
    has_status CantonSwapStatus.opened o
    || has_status CantonSwapStatus.user_locked o
    || has_status CantonSwapStatus.settling o
    || has_status CantonSwapStatus.filling o
    || has_status CantonSwapStatus.failed o

unfoldable pub expire_stale : Expiring → Text → Call
unfolding apply_managed_fill_result apply_loop_fill_result is_swept
expire_stale a id = swept is_swept id (λ o.
    test should_expire_for_vault_migration o a.vault_party a.now
    then (test is_loop o.wallet_mode && unsettled_offer o && not a.rejected
        then Call.skip
        else counted (expired_for (codes "order superseded — settlement vault migration") o)
            o.status)
    else test is_loop_fill_pending_counter_accept o
    then Call.skip
    else test is_loop_fill_in_flight o
    then Call.skip
    else test status_eq o.status CantonSwapStatus.failed && unsettled_offer o && not a.rejected
    then Call.skip
    else expire_due a o)

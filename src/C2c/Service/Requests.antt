-- ===== src/C2c/Service/Requests.antt =====
-- The requests of the service and the work of its sweeps as one type, with what the ledger, the price
-- source and the clock answer.
use cantonbit.Shared.{ℕ, Bool, Option, List, [], ◌∷◌, Text, Result}
use cantonbit.C2c.Service.Call.{Call}
use cantonbit.C2c.Service.Create.{
  Intake, OrderParams, cancel, create_order, get_order, reopen_false_vault_migration_if_needed,
}
use cantonbit.C2c.Service.Reserve.{Check, Floats}
use cantonbit.C2c.Service.Fill.{Fill}
use cantonbit.C2c.Service.Settle.{Settlement, settle_managed, submit_managed}
use cantonbit.C2c.Service.Receipt.{Reading}
use cantonbit.C2c.Service.UserLeg.{
  Confirmation, commit_user_leg_order, confirm_user_leg, prepare_user_leg,
}
use cantonbit.C2c.Service.Filling.{Filling, fill_loop}
use cantonbit.C2c.Service.Sweep.{
  history_entry, reconcile_expired_managed, reconcile_failed_loop, reconcile_filling,
  reconcile_network_fee_accounting, reconcile_settling, shown,
}
use cantonbit.C2c.Service.Expire.{Expiring, expire_stale}
use cantonbit.C2c.Service.Counter.{
  Acceptance, Delivery, mark_counter_accepted, reconcile_filled_loop_counter_proof,
}
use cantonbit.C2c.Service.Reissue.{Reissue, reconcile_loop_counters}

pub data Request : Type 0 where
  creates : OrderParams → Intake → Request
  submits : OrderParams → Intake → Check → Floats → Settlement → Request
  settles_managed : Check → Floats → Settlement → Text → Request
  gets : Option Text → Text → Request
  reopens : Option Text → Text → Request
  cancels : Text → Request
  prepares_leg : Option Text → ℕ → Result Text (Unit {0}) → Text → Request
  confirms_leg : Confirmation → Option Text → Text → Request
  commits_leg :
      OrderParams → Intake → Confirmation → Result Text (Option Text × Option Text) → Text → Request
  fills : Filling → Text → Request
  accepts_counter : Acceptance → Text → Request
  sweeps_filling : Result Text (Option Fill) → Filling → Text → Request
  sweeps_failed : Result Text (Option Fill) → ℕ → Text → Request
  sweeps_settling : Result Text (Option Fill) → (ℕ → Result Text Reading) → Text → Request
  sweeps_expired : Result Text (Option Fill) → Text → Request
  sweeps_counters : Reissue → Text → Request
  sweeps_filled : Result Text (Option Fill) → Result Text Delivery → Text → Request
  sweeps_fees : (Text → Bool) → Bool → Text → Request
  sweeps_stale : Expiring → Text → Request
  shows_history : Result Text (Option Fill) → Text → Request

unfoldable pub call : Request → Call
unfolding create_order submit_managed settle_managed get_order
    reopen_false_vault_migration_if_needed cancel prepare_user_leg confirm_user_leg
    commit_user_leg_order fill_loop mark_counter_accepted reconcile_filling reconcile_failed_loop
    reconcile_settling reconcile_expired_managed reconcile_loop_counters
    reconcile_filled_loop_counter_proof reconcile_network_fee_accounting expire_stale history_entry
call (Request.creates p intake) = create_order p intake
call (Request.submits p intake first f a) = submit_managed p intake first f a
call (Request.settles_managed first f a id) = settle_managed first f a id
call (Request.gets vault_party id) = get_order vault_party id
call (Request.reopens vault_party id) = reopen_false_vault_migration_if_needed vault_party id
call (Request.cancels id) = cancel id
call (Request.prepares_leg vault_party now built id) = prepare_user_leg vault_party now built id
call (Request.confirms_leg a hint id) = confirm_user_leg a hint id
call (Request.commits_leg p intake a shown update_id) =
    commit_user_leg_order p intake a shown update_id
call (Request.fills a id) = fill_loop a id
call (Request.accepts_counter a id) = mark_counter_accepted a id
call (Request.sweeps_filling repaired a id) = reconcile_filling repaired a id
call (Request.sweeps_failed repaired now id) = reconcile_failed_loop repaired now id
call (Request.sweeps_settling repaired readings id) = reconcile_settling repaired readings id
call (Request.sweeps_expired repaired id) = reconcile_expired_managed repaired id
call (Request.sweeps_counters a id) = reconcile_loop_counters a id
call (Request.sweeps_filled repaired delivery id) =
    reconcile_filled_loop_counter_proof repaired delivery id
call (Request.sweeps_fees positive recorded id) =
    reconcile_network_fee_accounting positive recorded id
call (Request.sweeps_stale a id) = expire_stale a id
call (Request.shows_history repaired id) = history_entry repaired id

abbrev pub calls : List Request → List Call
calls [] = []
calls (q ∷ qs) = call q ∷ calls qs

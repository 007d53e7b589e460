-- ===== src/C2c/Service/Reissue.antt =====
-- lib/canton-swap-service.ts, `reconcileLoopCounters`: the reissue of counter offers that ran out.
use cantonbit.Shared.{
  ℕ, Bool, not, ◌&&◌, ◌||◌, none, some, Text, Result, ◌==◌, if◌then◌else◌, or_else, codes, truthy,
  opt_text_eq,
}
use cantonbit.C2c.Order.{CantonSwapOrder, CantonSwapStatus, is_loop}
use cantonbit.C2c.Logic.{counter_reissue_cooldown_elapsed}
use cantonbit.C2c.Service.Store.{Guard, is_true}
use cantonbit.C2c.Service.Reserve.{Floats, plain_move, reserve_swap_float}
use cantonbit.C2c.Service.Fill.{Fill, first_of, counter_pending_reason}
use cantonbit.C2c.Service.Receipt.{Proof, Reading, verify_counter_leg_receipt_proof}
use cantonbit.C2c.Service.Filling.{assert_current_swap_float}
use cantonbit.C2c.Service.Sweep.{swept, has_status, counted, noted, ignore, received_with}
use cantonbit.C2c.Service.Counter.{Delivery, not_cleared, keep_waiting, blocked_for, try_complete}
use cantonbit.C2c.Service.Call.{Call, test◌then◌else◌, if_ok, must_or, by_outcome}

-- The answers that one order gets in the sweep of the counter legs.
pub record Reissue : Type 0 where
  pub listed : Result Text Bool
  pub readings : ℕ → Result Text Reading
  pub delivery : Result Text Delivery
  pub now : ℕ
  pub readings_again : ℕ → Result Text Reading
  pub delivery_again : Result Text Delivery
  pub floats : Floats
  pub float_now : Result Text ℕ
  pub result : Result Text (Fill × ℕ)

-- `counterLegOfferCid` and `counterReissueAttempt ?? 0` are those seen before.
abbrev pub as_before : CantonSwapOrder → CantonSwapOrder → Bool
as_before o fresh =
    opt_text_eq fresh.counter_leg_offer_cid o.counter_leg_offer_cid
    && or_else fresh.counter_reissue_attempt 0 == or_else o.counter_reissue_attempt 0

abbrev pub reissued : CantonSwapOrder → Fill × ℕ → CantonSwapOrder
reissued fresh (r, tried) =
    if r.counter_leg_pending_accept
    then record fresh {
      counter_reissue_attempt = some tried;
      counter_leg_offer_cid = first_of r.counter_leg_offer_cid fresh.counter_leg_offer_cid;
      counter_leg_created_offset = r.counter_leg_created_offset;
      counter_receipt_update_id = none;
      counter_pending_cleared_at = none;
      failure_reason = some counter_pending_reason;
    }
    else record fresh {
      counter_reissue_attempt = some tried;
      counter_leg_offer_cid = r.counter_leg_offer_cid;
      counter_leg_created_offset = none;
      counter_receipt_update_id = some r.update_id;
      counter_pending_cleared_at = none;
      status = CantonSwapStatus.filled;
      failure_reason = none;
    }

-- The write is guarded by the offer that is replaced.
abbrev pub write_reissue : CantonSwapOrder → CantonSwapOrder → Call
write_reissue o fresh =
    Call.put fresh CantonSwapStatus.user_locked (Guard.offer_is o.counter_leg_offer_cid)
      (by_outcome (Call.done fresh) Call.skip ignore)

-- `reissueLoopCounterLeg` asks for a settlement first.
abbrev pub reissue_with : Reissue → CantonSwapOrder → CantonSwapOrder → Call
reissue_with a o fresh =
    if_ok (assert_current_swap_float fresh a.float_now)
      (λ _.
        test truthy fresh.settlement_update_id
        then if_ok a.result (λ r. write_reissue o (reissued fresh r)) ignore
        else Call.skip)
      ignore

abbrev pub reissue : Reissue → CantonSwapOrder → CantonSwapOrder → Call
reissue a o fresh =
    test not (is_true fresh.float_reserved)
    then reserve_swap_float ignore
        (λ booked. test as_before o booked then reissue_with a o booked else Call.skip) a.floats
        fresh (plain_move CantonSwapStatus.user_locked CantonSwapStatus.user_locked)
    else reissue_with a o fresh

abbrev pub by_recheck : Reissue → CantonSwapOrder → CantonSwapOrder → Proof → Call
by_recheck a o fresh (Proof.received update_id) =
    counted (not_cleared (received_with update_id fresh)) CantonSwapStatus.user_locked
by_recheck a o fresh Proof.pending = noted (not_cleared fresh) CantonSwapStatus.user_locked
by_recheck a o fresh Proof.unknown =
    noted (blocked_for (codes "Counter receipt proof incomplete — refusing unsafe reissue") fresh)
      CantonSwapStatus.user_locked
by_recheck a o fresh Proof.not_received = try_complete a.delivery_again (reissue a o) fresh

abbrev pub recheck : Reissue → CantonSwapOrder → CantonSwapOrder → Call
recheck a o fresh =
    test as_before o fresh
    then if_ok (verify_counter_leg_receipt_proof fresh 4 a.readings_again) (by_recheck a o fresh)
        ignore
    else Call.skip

-- The offer has to be out of the user's list for a while. A time of 0 counts as none.
abbrev pub cooled : Reissue → Text → CantonSwapOrder → Call
cooled a id o =
    test or_else o.counter_pending_cleared_at 0 == 0
    then noted
        (record o {
          counter_pending_cleared_at = some a.now;
          failure_reason = some (codes "Verifying counter accept on ledger — wait before reissue");
        })
        CantonSwapStatus.user_locked
    else test counter_reissue_cooldown_elapsed o.counter_pending_cleared_at a.now
    then must_or ignore id (recheck a o)
    else Call.skip

abbrev pub by_first_proof : Reissue → Text → CantonSwapOrder → Proof → Call
by_first_proof a id o (Proof.received update_id) =
    counted (not_cleared (received_with update_id o)) CantonSwapStatus.user_locked
by_first_proof a id o Proof.pending = keep_waiting o
by_first_proof a id o Proof.unknown =
    noted
      (blocked_for
        (codes
          "Counter receipt proof incomplete — reissue blocked until creation offset is recovered")
        o)
      CantonSwapStatus.user_locked
by_first_proof a id o Proof.not_received = try_complete a.delivery (cooled a id) o

unfoldable pub reconcile_loop_counters : Reissue → Text → Call
unfolding verify_counter_leg_receipt_proof reserve_swap_float assert_current_swap_float
reconcile_loop_counters a id = swept (has_status CantonSwapStatus.user_locked) id (λ o.
    test not (is_loop o.wallet_mode)
      || not (truthy o.settlement_update_id)
      || not (truthy o.counter_leg_offer_cid)
    then Call.skip
    else if_ok a.listed
        (λ listed.
          test listed
          then keep_waiting o
          else if_ok (verify_counter_leg_receipt_proof o 8 a.readings) (by_first_proof a id o)
              ignore)
        ignore)

-- ===== src/C2c/Service/Fill.antt =====
-- lib/canton-swap-service.ts: what a settlement, a fill or a repair on the ledger writes to an order.
use cantonbit.Shared.{
  ℕ, Bool, false, Option, none, some, [], Text, Result, ok, err, if◌then◌else◌, codes, text_eq,
}
use cantonbit.C2c.Order.{CantonSwapOrder, CantonSwapStatus, is_loop}
use cantonbit.C2c.Service.Call.{Call, if_ok, if_some, must_or, test◌then◌else◌, transition}

-- What a settlement or a fill on the ledger results in.
pub record Fill : Type 0 where
  pub update_id : Text
  pub counter_leg_offer_cid : Option Text
  pub counter_leg_pending_accept : Bool
  pub counter_leg_created_offset : Option ℕ

abbrev pub first_of : Option Text → Option Text → Option Text
first_of (some cid) old = some cid
first_of none old = old

abbrev pub offset_if_pending : Fill → Option ℕ
offset_if_pending r = if r.counter_leg_pending_accept then r.counter_leg_created_offset else none

abbrev pub managed_filled : CantonSwapOrder → Fill → CantonSwapOrder
managed_filled o r = record o {
  settlement_update_id = some r.update_id;
  counter_leg_offer_cid = first_of r.counter_leg_offer_cid o.counter_leg_offer_cid;
  counter_leg_created_offset = offset_if_pending r;
  counter_receipt_update_id = if r.counter_leg_pending_accept then none else some r.update_id;
  float_reserved = some false;
  status =
      if r.counter_leg_pending_accept then CantonSwapStatus.settling else CantonSwapStatus.filled;
  failure_reason =
      if r.counter_leg_pending_accept
      then some (codes "Counter leg pending accept — accept incoming transfer to complete swap")
      else none;
}

unfoldable pub apply_managed_fill_result : CantonSwapOrder → Fill → Result Text CantonSwapOrder
apply_managed_fill_result o r =
    if text_eq r.update_id []
    then err (codes "settle result missing settlement update id")
    else ok (managed_filled o r)

abbrev pub counter_pending_reason : Text
counter_pending_reason =
    codes "Counter leg pending Loop accept — user must accept incoming transfer"

abbrev pub loop_filled : CantonSwapOrder → Fill → CantonSwapOrder
loop_filled o r = record o {
  settlement_update_id = some r.update_id;
  counter_leg_offer_cid = first_of r.counter_leg_offer_cid o.counter_leg_offer_cid;
  counter_leg_created_offset = offset_if_pending r;
  counter_receipt_update_id = if r.counter_leg_pending_accept then none else some r.update_id;
  counter_pending_cleared_at = none;
  float_reserved = some r.counter_leg_pending_accept;
  status =
      if r.counter_leg_pending_accept
      then CantonSwapStatus.user_locked
      else CantonSwapStatus.filled;
  failure_reason = if r.counter_leg_pending_accept then some counter_pending_reason else none;
}

unfoldable pub apply_loop_fill_result : CantonSwapOrder → Fill → Result Text CantonSwapOrder
apply_loop_fill_result o r =
    if text_eq r.update_id []
    then err (codes "fill result missing settlement update id")
    else ok (loop_filled o r)

-- `applyFilledProofRepair`
unfoldable pub apply_filled_proof_repair : CantonSwapOrder → Fill → CantonSwapOrder
apply_filled_proof_repair o r = record o {
  settlement_update_id = some r.update_id;
  counter_leg_offer_cid = r.counter_leg_offer_cid;
  counter_leg_created_offset = offset_if_pending r;
  counter_receipt_update_id = if r.counter_leg_pending_accept then none else some r.update_id;
  counter_pending_cleared_at = none;
  float_reserved = some false;
  status =
      if r.counter_leg_pending_accept
      then CantonSwapStatus.user_locked
      else CantonSwapStatus.filled;
  failure_reason = if r.counter_leg_pending_accept then some counter_pending_reason else none;
}

-- `repairManagedFromLedger` with what the ledger was found to have, what follows an order or nothing,
-- and what is done when it throws.
abbrev pub repair_from : (Text → Call) → (CantonSwapOrder → Call) → CantonSwapOrder → Fill → Call
repair_from fail next o r =
    if_ok (apply_managed_fill_result o r)
      (λ o'. transition fail o' o.status (next o') (must_or fail o.id next)) fail

unfoldable pub repair_managed_from_ledger :
    (Text → Call)
    → (CantonSwapOrder → Call)
    → Call
    → Result Text (Option Fill)
    → CantonSwapOrder
    → Call
unfolding apply_managed_fill_result
repair_managed_from_ledger fail next nothing ledger o =
    test is_loop o.wallet_mode
    then nothing
    else if_ok ledger (λ found. if_some found (repair_from fail next o) nothing) fail

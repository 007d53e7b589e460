-- ===== src/C2c/Service/Safe.antt =====
-- What every request keeps to, however the requests interleave. A request knows of its order what it
-- has read: that it is in the table, and that its status is on from the one that was read.
pub mod Create
pub mod Reserve
pub mod Repair
pub mod Settling
pub mod Settle
pub mod Selling
pub mod LoopFill
pub mod Sweeping
pub mod Expiry
pub mod CounterLeg
pub mod Reissued
pub mod Reissuing
use cantonbit.Shared.{
  ℕ, zero, suc, ◌+◌, ◌-◌, ◌*◌, ◌/◌, ◌%◌, ◌^◌, ◌≤◌, ◌<◌, ◌≡◌, refl, ◌≢◌, ◌↔◌, ◌⊎◌, inl, inr, Bool,
  true, false, not, ◌&&◌, ◌||◌, Option, none, some, List, [], ◌∷◌, ◌++◌, arith, Text, Result, ok,
  err, ◌>>=◌, ◌>>◌, ltb, leb, ◌==◌, if◌then◌else◌, sym, subst, ap, codes,
}
use cantonbit.C2c.Order.{
  CantonSwapOrder, CantonSwapStatus, SwapAsset, WalletMode, asset_code, asset_eq,
  is_canton_swap_active, is_canton_swap_mvp_pair, is_loop, is_terminal, loop_fill_act_as_parties,
  managed_fill_act_as_parties, status_code, status_eq, swap_party,
}
use cantonbit.C2c.Logic.{
  ExpiryError, assert_order_not_expired, counter_reissue_cooldown_elapsed,
  counter_reissue_cooldown_seconds, is_false_vault_migration_expire, is_loop_fill_in_flight,
  is_loop_fill_pending_counter_accept, is_loop_user_leg_preapproval_settled,
  is_managed_pending_counter_accept, is_order_expired, is_pending_counter_accept,
  is_retriable_loop_fill_error, loop_order_deadline, loop_swap_order_ttl_seconds,
  loop_user_leg_preapproval_settled, managed_open_ttl_seconds, max_safe_integer, order_deadline,
  order_uses_current_vault, quote_deadline, quote_grace_seconds, reason_includes,
  should_expire_for_vault_migration, trim_party, vault_migration_grace_seconds,
}
use cantonbit.C2c.Create.{
  CreateError, immutable_terms_match, mode_eq, new_order, resolve_create_canton_swap_order,
}
use cantonbit.C2c.Projector.{
  c2c_counter_leg_proof_present, c2c_flow_key, c2c_order_has_user_payment_proof,
  c2c_visible_completed, filter_visible_c2c_history_orders, project_c2c_status,
}
use cantonbit.C2c.Service.Store.{
  Answer, Booking, Guard, Outcome, binds_user_leg, booked, clash, get, holds_float, insert,
  insert_over, is_some, is_true, kept, need_units, others_units, passes, put_if_status, put_over,
  replace, reserve_float, reserve_over, reserved_units, same_float, used_user_leg_offer_cids,
  written,
}
use cantonbit.C2c.Service.Store.Solvency.{UniqueIds, reserve_covers, total_held}
use cantonbit.C2c.Service.Call.{
  Call, access, added, by_outcome, found_or, if_ok, if_some, must, must_or, not_found_message, run,
  test◌then◌else◌, transition, turn,
}
use cantonbit.C2c.Service.Diagram.{PathAlong, loop_advance, managed_advance, may_advance}
use cantonbit.C2c.Service.Create.{
  Intake, OrderParams, asked, cancel, create_order, create_over, create_result, create_then,
  decimals_of, expiry_for, fee_expiry, fee_for, get_order, got, incoming_order, intent_time,
  pay_limit, quote_ttl_seconds, relabel, reopen_false_vault_migration_if_needed, reopen_then,
  reopen_to, reopened, settlement_min_out_amount, settlement_min_out_units, units_or, winner_of,
  winner_result, withdrawn,
}
use cantonbit.C2c.Service.Reserve.{
  Check, Floats, Move, attempt, booking, enforce_settlement_quote, plain_move, reserve_answer,
  reserve_attempts, reserve_swap_float, reserved_now,
}
use cantonbit.C2c.Service.Fill.{
  Fill, apply_filled_proof_repair, apply_loop_fill_result, apply_managed_fill_result,
  counter_pending_reason, first_of, loop_filled, managed_filled, offset_if_pending, repair_from,
  repair_managed_from_ledger,
}
use cantonbit.C2c.Service.Settle.{
  Settlement, account_fee, accounted, complete_settling, failed_with, fee_booked, fee_bound,
  offer_linked, put_and_throw, reserve_failed, settle_abandoned, settle_failed, settle_managed,
  settle_on_ledger, settle_open, settled_with, settling_still, submit_managed, with_fee,
  with_fee_marker, with_offer,
}
use cantonbit.C2c.Service.Receipt.{
  Proof, Reading, after_reading, format_settlement_error, poll, verify_counter_leg_receipt_proof,
}
use cantonbit.C2c.Service.UserLeg.{
  Confirmation, UserLeg, assert_offer_only, commit_user_leg_order, commit_with, confirm_user_leg,
  lock_failed, lock_move, lock_user_leg, own_offer, prepare_user_leg, prepared, update_or,
  with_evidence, without,
}
use cantonbit.C2c.Service.Filling.{
  Filling, assert_current_swap_float, back_to_locked, fill_again, fill_failed, fill_failure,
  fill_from, fill_locked, fill_loop, fill_on_ledger, fill_or_repair, fill_reserved, fill_taken,
  filled_with, put_and_read,
}
use cantonbit.C2c.Service.Sweep.{
  count_filled, counted, has_status, history_entry, ignore, may_lag, noted, received_with,
  reconcile_expired_managed, reconcile_failed_loop, reconcile_filling,
  reconcile_network_fee_accounting, reconcile_settling, repair_fill, row_of, settled_by_proof,
  shown, swept,
}
use cantonbit.C2c.Service.Expire.{
  Expiring, expire_after_reject, expire_due, expire_filling, expire_from, expire_managed,
  expire_repaired, expire_stale, expired_for, is_swept, stale_reason, unless_filled,
  unsettled_offer,
}
use cantonbit.C2c.Service.Counter.{
  Acceptance, Delivery, blocked_for, by_delivery, delivered_with, fee_accounted, filled_by_delivery,
  keep_waiting, mark_counter_accepted, mark_filled, mark_proved, not_cleared,
  reconcile_filled_loop_counter_proof, try_complete, waiting_status,
}
use cantonbit.C2c.Service.Reissue.{
  Reissue, as_before, by_first_proof, by_recheck, cooled, recheck, reconcile_loop_counters, reissue,
  reissue_with, reissued, write_reissue,
}

-- A filled order has its settlement. Only an order that is in the hands of the vault, or filled, holds
-- float. An expired order of a wallet that the service signs for has not the reason that reopens it.
abbrev pub may_hold : CantonSwapStatus → Bool
may_hold s =
    status_eq s CantonSwapStatus.settling
    || status_eq s CantonSwapStatus.filling
    || status_eq s CantonSwapStatus.user_locked
    || status_eq s CantonSwapStatus.filled

unfoldable pub sound : CantonSwapOrder → Bool
sound o =
    (not (status_eq o.status CantonSwapStatus.filled) || is_some o.settlement_update_id)
    && (not (is_true o.float_reserved) || may_hold o.status)
    && (not (status_eq o.status CantonSwapStatus.expired)
        || is_loop o.wallet_mode
        || not (reason_includes (codes "settlement vault migration") o.failure_reason))

-- What the two sides agreed on.
pub record Terms : Type 0 where
  pub from_asset : SwapAsset
  pub to_asset : SwapAsset
  pub in_amount : Text
  pub out_amount : Text
  pub min_out : Text
  pub quote_expires_at : ℕ
  pub user_party : Text
  pub solver_party : Text
  pub settlement_party : Option Text
  pub wallet_mode : WalletMode

abbrev pub terms_of : CantonSwapOrder → Terms
terms_of o = record {
  from_asset = o.from_asset;
  to_asset = o.to_asset;
  in_amount = o.in_amount;
  out_amount = o.out_amount;
  min_out = o.min_out;
  quote_expires_at = o.quote_expires_at;
  user_party = o.user_party;
  solver_party = o.solver_party;
  settlement_party = o.settlement_party;
  wallet_mode = o.wallet_mode;
}

-- A copy of the order `id`, sound and with the terms that are registered for that id.
abbrev pub Copy : (Text → Terms) → Text → CantonSwapOrder → Type 0
Copy t id o = (sound o ≡ true) × (o.id ≡ id) × (terms_of o ≡ t id)

-- A status on from what is known.
abbrev pub OnFrom : WalletMode → Option CantonSwapStatus → CantonSwapStatus → Type 0
OnFrom m none s = Unit
OnFrom m (some r) s = PathAlong m r s

-- What a read may show: an order that is known to be in the table is found, and is on from there.
abbrev pub Seen : (Text → Terms) → Text → Option CantonSwapOrder → Option CantonSwapStatus → Type 0
Seen t id (some o) known = Copy t id o × OnFrom (t id).wallet_mode known o.status
Seen t id none none = Unit
Seen t id none (some s) = ⊥

abbrev pub after : Option CantonSwapStatus → Option CantonSwapOrder → Option CantonSwapStatus
after known none = known
after known (some o) = some o.status

-- A request about the order `id` that returns and writes only sound copies of that order. A write and
-- a reservation are over a status from which the diagram of the wallet mode allows the new one, if
-- the order can have come to that status from what is known. This as long as what it reads is so.
pub data Safe (t : Text → Terms) (id : Text) : Option CantonSwapStatus → Call → Type 0 where
  returns :
      {known : Option CantonSwapStatus} {o : CantonSwapOrder}
      → Copy t id o
      → Safe t id known (Call.done o)
  skips : {known : Option CantonSwapStatus} → Safe t id known Call.skip
  throws : {known : Option CantonSwapStatus} {e : Text} → Safe t id known (Call.throw e)
  reads :
      {known : Option CantonSwapStatus} {k : Option CantonSwapOrder → Call}
      → ((r : Option CantonSwapOrder) → Seen t id r known → Safe t id (after known r) (k r))
      → Safe t id known (Call.read id k)
  lists :
      {known : Option CantonSwapStatus} {k : List Text → Call}
      → ((used : List Text) → Safe t id known (k used))
      → Safe t id known (Call.offers k)
  adds :
      {known : Option CantonSwapStatus} {o : CantonSwapOrder} {k : Bool → Call}
      → Copy t id o
      → ((b : Bool) → Safe t id known (k b))
      → Safe t id known (Call.add o k)
  puts :
      {known : Option CantonSwapStatus} {o : CantonSwapOrder} {s : CantonSwapStatus} {g : Guard}
      {k : Outcome → Call}
      → Copy t id o
      → (OnFrom o.wallet_mode known s → may_advance o.wallet_mode s o.status ≡ true)
      → ((outcome : Outcome) → Safe t id known (k outcome))
      → Safe t id known (Call.put o s g k)
  books :
      {known : Option CantonSwapStatus} {b : Booking} {k : Answer → Call}
      → b.order_id ≡ id
      → may_advance (t id).wallet_mode b.expected_status b.next_status ≡ true
      → may_hold b.next_status ≡ true
      → (b.next_status ≢ CantonSwapStatus.filled)
      → ((a : Answer) → Safe t id known (k a))
      → Safe t id known (Call.book b k)

module _ {t : Text → Terms} {id : Text} {known : Option CantonSwapStatus} where
  pub Safe-test :
      {b : Bool} {c c' : Call}
      → (b ≡ true → Safe t id known c)
      → (b ≡ false → Safe t id known c')
      → Safe t id known (test b then c else c')
  unfolding test◌then◌else◌
  Safe-test {b = true} p q = p refl
  Safe-test {b = false} p q = q refl

  pub Safe-if_some {ℓ} :
      {A : Type ℓ} (r : Option A) {next : A → Call} {c : Call}
      → ((a : A) → r ≡ some a → Safe t id known (next a))
      → Safe t id known c
      → Safe t id known (if_some r next c)
  unfolding if_some
  Safe-if_some none p q = q
  Safe-if_some (some a) p q = p a refl

  pub Safe-if_ok {ℓ} :
      {A : Type ℓ} (r : Result Text A) {next : A → Call} {fail : Text → Call}
      → ((a : A) → r ≡ ok a → Safe t id known (next a))
      → ((msg : Text) → Safe t id known (fail msg))
      → Safe t id known (if_ok r next fail)
  unfolding if_ok
  Safe-if_ok (ok a) p q = p a refl
  Safe-if_ok (err msg) p q = q msg

-- The statuses that a request may go on with after it has read one.
abbrev pub Next : (Text → Terms) → Text → CantonSwapOrder → (CantonSwapOrder → Call) → Type 0
Next t id o next = Copy t id o → Safe t id (some o.status) (next o)

module _ {t : Text → Terms} {id : Text} where
  pub Safe-thrown :
      {known : Option CantonSwapStatus} (msg : Text) → Safe t id known (Call.throw msg)
  Safe-thrown msg = Safe.throws

  pub Safe-found :
      {known : Option CantonSwapStatus} (r : Option CantonSwapOrder) {next : CantonSwapOrder → Call}
      {fail : Text → Call}
      → ((msg : Text) → Safe t id known (fail msg))
      → ((o : CantonSwapOrder)
          → Copy t id o
          → OnFrom (t id).wallet_mode known o.status
          → Safe t id (some o.status) (next o))
      → Seen t id r known
      → Safe t id (after known r) (found_or fail next r)
  Safe-found none q p w = q _
  Safe-found (some o) q p (c, f) = p o c f

  pub Safe-must_or :
      {known : Option CantonSwapStatus} {next : CantonSwapOrder → Call} {fail : Text → Call}
      → ((msg : Text) → Safe t id known (fail msg))
      → ((o : CantonSwapOrder)
          → Copy t id o
          → OnFrom (t id).wallet_mode known o.status
          → Safe t id (some o.status) (next o))
      → Safe t id known (must_or fail id next)
  Safe-must_or q p = Safe.reads (λ r w. Safe-found r q p w)

  -- Reading the order again, by the id that its copy has.
  pub Safe-again :
      {known : Option CantonSwapStatus} (o : CantonSwapOrder) {next : CantonSwapOrder → Call}
      {fail : Text → Call}
      → Copy t id o
      → ((msg : Text) → Safe t id known (fail msg))
      → ((fresh : CantonSwapOrder)
          → Copy t id fresh
          → OnFrom (t id).wallet_mode known fresh.status
          → Safe t id (some fresh.status) (next fresh))
      → Safe t id known (must_or fail o.id next)
  Safe-again {known} o {next} {fail} (_, same, _) q p =
      subst (λ i. Safe t id known (must_or fail i next)) (sym same) (Safe-must_or q p)

  pub Safe-fresh : {known : Option CantonSwapStatus} → Safe t id known (must id Call.done)
  Safe-fresh = Safe-must_or Safe-thrown (λ o c f. Safe.returns c)

  pub Safe-fresh_of :
      {known : Option CantonSwapStatus} (o : CantonSwapOrder)
      → Copy t id o
      → Safe t id known (must o.id Call.done)
  Safe-fresh_of o c = Safe-again o c Safe-thrown (λ o c f. Safe.returns c)

  pub Safe-by_outcome :
      {known : Option CantonSwapStatus} {won lost : Call} {fail : Text → Call}
      → Safe t id known won
      → Safe t id known lost
      → ((msg : Text) → Safe t id known (fail msg))
      → (outcome : Outcome) → Safe t id known (by_outcome won lost fail outcome)
  Safe-by_outcome p q f Outcome.saved = p
  Safe-by_outcome p q f Outcome.stale = q
  Safe-by_outcome p q f Outcome.rejected = f _

  pub Safe-transition :
      {known : Option CantonSwapStatus} {o : CantonSwapOrder} {s : CantonSwapStatus}
      {won lost : Call} {fail : Text → Call}
      → Copy t id o
      → may_advance o.wallet_mode s o.status ≡ true
      → Safe t id known won
      → Safe t id known lost
      → ((msg : Text) → Safe t id known (fail msg))
      → Safe t id known (transition fail o s won lost)
  Safe-transition c m p q f = Safe.puts c (λ _. m) (Safe-by_outcome p q f)

-- The mode of every copy of the order is the registered one.
pub mode_of-Copy :
    (t : Text → Terms) (id : Text) (o : CantonSwapOrder)
    → Copy t id o
    → o.wallet_mode ≡ (t id).wallet_mode
mode_of-Copy t id o (_, _, same) = ap (λ (x : Terms). x.wallet_mode) same

-- A status may always be written again.
pub stay_advance : (m : WalletMode) (s : CantonSwapStatus) → may_advance m s s ≡ true
stay_advance m s = ground arith

-- ===== src/C2c/Service/Store.antt =====
-- lib/canton-swap-store.ts and the procedure `reserve_canton_swap_float`: the table of same-ledger
-- orders, with its primary key and its three unique indexes. A row is read back as an order.
pub mod Solvency
pub mod Race
use cantonbit.Shared.{
  ℕ, zero, suc, ◌+◌, ◌-◌, ◌*◌, ◌/◌, ◌%◌, ◌^◌, ◌≤◌, ◌<◌, ◌≡◌, refl, ◌≢◌, ◌↔◌, ◌⊎◌, inl, inr, Bool,
  true, false, not, ◌&&◌, ◌||◌, Option, none, some, List, [], ◌∷◌, ◌++◌, arith, Text, Result, ok,
  err, ◌>>=◌, ◌>>◌, ltb, leb, ◌==◌, if◌then◌else◌, any, or_else, text_eq,
}
use cantonbit.C2c.Order.{
  CantonSwapOrder, CantonSwapStatus, SwapAsset, WalletMode, asset_code, asset_eq,
  is_canton_swap_active, is_canton_swap_mvp_pair, is_loop, is_terminal, loop_fill_act_as_parties,
  managed_fill_act_as_parties, status_code, status_eq, swap_party,
}
use cantonbit.C2c.Logic.{
  ExpiryError, assert_order_not_expired, counter_reissue_cooldown_elapsed,
  counter_reissue_cooldown_seconds, is_false_vault_migration_expire, is_loop_fill_in_flight,
  is_loop_fill_pending_counter_accept, is_loop_user_leg_preapproval_settled,
  is_managed_pending_counter_accept, is_order_expired, is_pending_counter_accept,
  is_retriable_loop_fill_error, loop_order_deadline, loop_swap_order_ttl_seconds,
  loop_user_leg_preapproval_settled, managed_open_ttl_seconds, max_safe_integer, order_deadline,
  order_uses_current_vault, quote_deadline, quote_grace_seconds, reason_includes,
  should_expire_for_vault_migration, trim_party, vault_migration_grace_seconds,
}
use cantonbit.C2c.Create.{
  CreateError, immutable_terms_match, mode_eq, new_order, resolve_create_canton_swap_order,
}
use cantonbit.C2c.Projector.{
  c2c_counter_leg_proof_present, c2c_flow_key, c2c_order_has_user_payment_proof,
  c2c_visible_completed, filter_visible_c2c_history_orders, project_c2c_status,
}

-- A column that an update sends only when the order has a value.
abbrev pub kept {ℓ} : {A : Type ℓ} → Option A → Option A → Option A
kept (some new) old = some new
kept none old = old

abbrev pub is_some {ℓ} : {A : Type ℓ} → Option A → Bool
is_some none = false
is_some (some _) = true

-- `Boolean(b)` of an optional flag.
abbrev pub is_true : Option Bool → Bool
is_true none = false
is_true (some b) = b

-- A time that is 0 is stored as no time.
abbrev nonzero : Option ℕ → Option ℕ
nonzero none = none
nonzero (some t) = if t == 0 then none else some t

-- `orderToRow` of an order, read back by `rowToOrder`, over the row that is there.
unfoldable pub written : CantonSwapOrder → CantonSwapOrder → CantonSwapOrder
written row o = record o {
  float_reserved = some (is_true o.float_reserved);
  counter_reissue_attempt = some (or_else o.counter_reissue_attempt 0);
  counter_pending_cleared_at = nonzero o.counter_pending_cleared_at;
  network_fee_cc = kept o.network_fee_cc row.network_fee_cc;
  network_fee_expires_at = kept o.network_fee_expires_at row.network_fee_expires_at;
  network_fee_settlement_update_id =
      kept o.network_fee_settlement_update_id row.network_fee_settlement_update_id;
  network_fee_accounting_pending =
      if is_true o.network_fee_accounting_pending || is_some o.network_fee_settlement_update_id
      then some (is_true o.network_fee_accounting_pending)
      else some (is_true row.network_fee_accounting_pending);
  created_at = if ltb 0 o.created_at then o.created_at else row.created_at;
}

unfoldable pub get : Text → List CantonSwapOrder → Option CantonSwapOrder
get id [] = none
get id (row ∷ rows) = let rest = get id rows in if text_eq row.id id then some row else rest

-- The same value in two columns, null being different from null.
abbrev same_value : Option Text → Option Text → Bool
same_value (some a) (some b) = text_eq a b
same_value _ _ = false

-- The statuses that the two indexes on the user's leg look at.
abbrev pub binds_user_leg : CantonSwapStatus → Bool
binds_user_leg s =
    status_eq s CantonSwapStatus.opened
    || status_eq s CantonSwapStatus.user_locked
    || status_eq s CantonSwapStatus.filling

-- Whether two rows break a unique index.
unfoldable pub clash : CantonSwapOrder → CantonSwapOrder → Bool
clash o row =
    not (text_eq row.id o.id)
    && ((binds_user_leg o.status
          && binds_user_leg row.status
          && (same_value o.user_leg_offer_cid row.user_leg_offer_cid
              || same_value o.user_leg_submit_update_id row.user_leg_submit_update_id))
        || same_value o.counter_receipt_update_id row.counter_receipt_update_id)

-- The row with the order's id gives way to the order.
unfoldable pub replace : CantonSwapOrder → List CantonSwapOrder → List CantonSwapOrder
replace o [] = []
replace o (row ∷ rows) =
    let rest = replace o rows in if text_eq row.id o.id then o ∷ rows else row ∷ rest

-- `insert` fails on a row with the same id and on a broken index.
abbrev pub insert_over :
    Option CantonSwapOrder
    → CantonSwapOrder
    → ℕ
    → List CantonSwapOrder
    → Option (List CantonSwapOrder)
insert_over (some _) o now rows = none
insert_over none o now rows =
    let row = written (record o { created_at = now }) o in
    if any (clash row) rows then none else some (row ∷ rows)

unfoldable pub insert : CantonSwapOrder → ℕ → List CantonSwapOrder → Option (List CantonSwapOrder)
unfolding written get clash
insert o now rows = insert_over (get o.id rows) o now rows

-- What an update asks of the counter offer of the row.
pub data Guard : Type 0 where
  any_offer : Guard
  offer_is : Option Text → Guard

abbrev pub passes : Guard → Option Text → Bool
passes Guard.any_offer offer = true
passes (Guard.offer_is none) offer = not (is_some offer)
passes (Guard.offer_is (some cid)) offer = same_value offer (some cid)

-- A row was written; none matched; or the database refused the row.
pub data Outcome : Type 0 where
  saved stale rejected : Outcome

abbrev pub put_over :
    Option CantonSwapOrder
    → CantonSwapOrder
    → CantonSwapStatus
    → Guard
    → List CantonSwapOrder
    → List CantonSwapOrder × Outcome
put_over none o expected g rows = (rows, Outcome.stale)
put_over (some row) o expected g rows =
    if not (status_eq row.status expected && passes g row.counter_leg_offer_cid)
    then (rows, Outcome.stale)
    else if any (clash (written row o)) rows
    then (rows, Outcome.rejected)
    else (replace (written row o) rows, Outcome.saved)

-- `putIfStatus`, and `putIfStatusAndCounterOffer` with its guard.
unfoldable pub put_if_status :
    CantonSwapOrder
    → CantonSwapStatus
    → Guard
    → List CantonSwapOrder
    → List CantonSwapOrder × Outcome
unfolding written get clash replace
put_if_status o expected g rows = put_over (get o.id rows) o expected g rows

-- `usedUserLegOfferCids`: the offers that any order has linked.
abbrev cons_truthy : Option Text → List Text → List Text
cons_truthy none used = used
cons_truthy (some []) used = used
cons_truthy (some (c ∷ cid)) used = (c ∷ cid) ∷ used

unfoldable pub used_user_leg_offer_cids : List CantonSwapOrder → List Text
used_user_leg_offer_cids [] = []
used_user_leg_offer_cids (row ∷ rows) =
    cons_truthy row.user_leg_offer_cid (used_user_leg_offer_cids rows)

-- The arguments of `reserve_canton_swap_float`; `others` is what the orders of the HTLC table hold of
-- the vault's cBTC.
pub record Booking : Type 0 where
  pub order_id : Text
  pub expected_status : CantonSwapStatus
  pub next_status : CantonSwapStatus
  pub float_units : ℕ
  pub others : ℕ
  pub user_leg_offer_cid : Option Text
  pub user_leg_submit_update_id : Option Text

pub data Answer : Type 0 where
  reserved insufficient not_found duplicate : Answer
  other_status : CantonSwapStatus → Answer

abbrev pub holds_float : CantonSwapOrder → Bool
holds_float row =
    is_true row.float_reserved
    && (status_eq row.status CantonSwapStatus.settling
        || status_eq row.status CantonSwapStatus.filling
        || status_eq row.status CantonSwapStatus.user_locked)

abbrev pub same_float : CantonSwapOrder → CantonSwapOrder → Bool
same_float o row = text_eq row.solver_party o.solver_party && asset_eq row.to_asset o.to_asset

-- The row after a reservation.
abbrev pub booked : Booking → CantonSwapOrder → CantonSwapOrder
booked b row = record row {
  status = b.next_status;
  float_reserved = some true;
  user_leg_offer_cid = kept b.user_leg_offer_cid row.user_leg_offer_cid;
  user_leg_submit_update_id = kept b.user_leg_submit_update_id row.user_leg_submit_update_id;
  failure_reason = none;
}

-- `units asset amount` is `trunc(amount::numeric * scale)` at the scale of the asset.
module _ (units : SwapAsset → Text → ℕ) where
  unfoldable pub need_units : CantonSwapOrder → ℕ
  need_units o = units o.to_asset o.out_amount

  -- What the orders other than `o` hold of the float that `o` needs.
  unfoldable pub reserved_units : CantonSwapOrder → List CantonSwapOrder → ℕ
  unfolding need_units
  reserved_units o [] = 0
  reserved_units o (row ∷ rows) =
      (if same_float o row && not (text_eq row.id o.id) && holds_float row
        then need_units row
        else 0)
      + reserved_units o rows

  -- For cBTC the HTLC orders count too.
  abbrev pub others_units : Booking → CantonSwapOrder → ℕ
  others_units b o = if asset_eq o.to_asset SwapAsset.cbtc then b.others else 0

  abbrev pub reserve_over :
      Option CantonSwapOrder → Booking → List CantonSwapOrder → List CantonSwapOrder × Answer
  reserve_over none b rows = (rows, Answer.not_found)
  reserve_over (some row) b rows =
      if not (status_eq row.status b.expected_status)
      then (rows, Answer.other_status row.status)
      else if ltb b.float_units (others_units b row + reserved_units row rows + need_units row)
      then (rows, Answer.insufficient)
      else if any (clash (booked b row)) rows
      then (rows, Answer.duplicate)
      else (replace (booked b row) rows, Answer.reserved)

  unfoldable pub reserve_float : Booking → List CantonSwapOrder → List CantonSwapOrder × Answer
  unfolding get clash replace need_units reserved_units
  reserve_float b rows = reserve_over (get b.order_id rows) b rows

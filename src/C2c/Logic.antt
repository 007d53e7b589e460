-- ===== src/C2c/Logic.antt =====
-- lib/canton-swap-order-logic.ts: deadlines, expiry and the vault of a same-ledger order.
-- Times are whole unix seconds; `now` is an argument everywhere.
pub mod Expiry
use cantonbit.Shared.{
  ℕ, zero, suc, ◌+◌, ◌-◌, ◌*◌, ◌/◌, ◌%◌, ◌^◌, ◌≤◌, ◌<◌, ◌≡◌, refl, ◌≢◌, ◌↔◌, ◌⊎◌, inl, inr, Bool,
  true, false, not, ◌&&◌, ◌||◌, Option, none, some, List, [], ◌∷◌, ◌++◌, arith, Text, Result, ok,
  err, ◌>>=◌, ◌>>◌, ltb, leb, ◌==◌, if◌then◌else◌, codes, or_else, truthy, trim, text_eq, includes,
  to_lower,
}
use cantonbit.C2c.Order.{CantonSwapOrder, CantonSwapStatus, status_eq, is_loop}

abbrev pub loop_swap_order_ttl_seconds : ℕ
loop_swap_order_ttl_seconds = 900

abbrev pub counter_reissue_cooldown_seconds : ℕ
counter_reissue_cooldown_seconds = 90

abbrev pub quote_grace_seconds : ℕ
quote_grace_seconds = 30

abbrev pub managed_open_ttl_seconds : ℕ
managed_open_ttl_seconds = 300

abbrev pub vault_migration_grace_seconds : ℕ
vault_migration_grace_seconds = 30

abbrev pub loop_user_leg_preapproval_settled : Text
loop_user_leg_preapproval_settled = codes "transfer-preapproval-settled"

abbrev pub max_safe_integer : ℕ
max_safe_integer = 9_007_199_254_740_991

-- `!clearedAtUnix` holds of `undefined` and of 0.
unfoldable pub counter_reissue_cooldown_elapsed : Option ℕ → ℕ → Bool
counter_reissue_cooldown_elapsed none now_unix = false
counter_reissue_cooldown_elapsed (some cleared_at) now_unix =
    if cleared_at == 0 then false else leb (cleared_at + counter_reissue_cooldown_seconds) now_unix

unfoldable pub is_retriable_loop_fill_error : Text → Bool
unfolding includes to_lower
is_retriable_loop_fill_error msg =
    includes (codes "offer not visible") msg
    || includes (codes "pending offer not found") msg
    || includes (codes "cannot fill atomically") msg
    || includes (codes "Retry shortly") msg
    || includes (codes "still in flight") msg
    || includes (codes "duplicate command committed but fill transaction not found") msg
    || includes (codes "transferfactory registry call failed") (to_lower msg)
    || includes (codes "failed to reach consensus") (to_lower msg)
    || includes (codes "scan nodes") (to_lower msg)

unfoldable pub is_loop_user_leg_preapproval_settled : Option Text → Bool
is_loop_user_leg_preapproval_settled none = false
is_loop_user_leg_preapproval_settled (some cid) = text_eq cid loop_user_leg_preapproval_settled

-- `(party ?? "").trim()`
unfoldable pub trim_party : Option Text → Text
trim_party party = trim (or_else party [])

unfoldable pub order_uses_current_vault : CantonSwapOrder → Option Text → Bool
order_uses_current_vault o vault_party =
    let vault = trim_party vault_party in
    let settlement = trim_party o.settlement_party in
    if not (truthy (some vault))
    then true
    else if truthy (some settlement)
    then text_eq settlement vault
    else text_eq (trim_party (some o.solver_party)) vault

-- `now - o.createdAt < 30` with the difference moved over.
unfoldable pub should_expire_for_vault_migration : CantonSwapOrder → Option Text → ℕ → Bool
should_expire_for_vault_migration o vault_party now =
    if not (is_loop o.wallet_mode)
    then false
    else if not (status_eq o.status CantonSwapStatus.opened)
    then false
    else if truthy o.user_leg_offer_cid || truthy o.user_leg_submit_update_id
    then false
    else if not (truthy (some (trim_party vault_party)))
    then false
    else if truthy (some (trim_party o.settlement_party))
    then false
    else if order_uses_current_vault o vault_party
    then false
    else if o.created_at == 0
    then false
    else if ltb now (o.created_at + vault_migration_grace_seconds)
    then false
    else true

-- `o.failureReason?.includes(part) ?? false`
abbrev pub reason_includes : Text → Option Text → Bool
reason_includes part none = false
reason_includes part (some reason) = includes part reason

unfoldable pub is_false_vault_migration_expire : CantonSwapOrder → Option Text → Bool → Bool
is_false_vault_migration_expire o vault_party after_user_leg =
    let base =
      status_eq o.status CantonSwapStatus.expired
      && reason_includes (codes "settlement vault migration") o.failure_reason
      && order_uses_current_vault o vault_party in
    if after_user_leg
    then base && truthy o.user_leg_offer_cid
    else base && not (truthy o.user_leg_offer_cid)

unfoldable pub loop_order_deadline : CantonSwapOrder → ℕ
loop_order_deadline o = o.created_at + loop_swap_order_ttl_seconds

unfoldable pub quote_deadline : CantonSwapOrder → ℕ
quote_deadline o = o.quote_expires_at + quote_grace_seconds

unfoldable pub order_deadline : CantonSwapOrder → ℕ
unfolding loop_order_deadline quote_deadline
order_deadline o =
    if is_loop o.wallet_mode
    then loop_order_deadline o
    else if status_eq o.status CantonSwapStatus.settling
    then max_safe_integer
    else if status_eq o.status CantonSwapStatus.opened
    then o.created_at + managed_open_ttl_seconds
    else quote_deadline o

unfoldable pub is_loop_fill_in_flight : CantonSwapOrder → Bool
is_loop_fill_in_flight o =
    let msg = or_else o.failure_reason [] in
    if not (is_loop o.wallet_mode)
    then false
    else if status_eq o.status CantonSwapStatus.filling
    then true
    else if not (status_eq o.status CantonSwapStatus.user_locked) || truthy o.settlement_update_id
    then false
    else includes (codes "Fill still processing") msg
      || includes (codes "submission in flight") msg
      || includes (codes "Retrying after transient fill failure") msg

unfoldable pub is_order_expired : CantonSwapOrder → ℕ → Bool
unfolding is_loop_fill_in_flight order_deadline
is_order_expired o now =
    if is_loop_fill_in_flight o
    then false
    else if not (is_loop o.wallet_mode) && status_eq o.status CantonSwapStatus.settling
    then false
    else if is_loop o.wallet_mode
        && status_eq o.status CantonSwapStatus.user_locked
        && truthy o.settlement_update_id
        && truthy o.counter_leg_offer_cid
    then false
    else ltb (order_deadline o) now

unfoldable pub is_loop_fill_pending_counter_accept : CantonSwapOrder → Bool
is_loop_fill_pending_counter_accept o =
    is_loop o.wallet_mode
    && status_eq o.status CantonSwapStatus.user_locked
    && truthy o.settlement_update_id
    && truthy o.counter_leg_offer_cid

unfoldable pub is_managed_pending_counter_accept : CantonSwapOrder → Bool
is_managed_pending_counter_accept o =
    not (is_loop o.wallet_mode)
    && status_eq o.status CantonSwapStatus.settling
    && truthy o.settlement_update_id
    && truthy o.counter_leg_offer_cid

unfoldable pub is_pending_counter_accept : CantonSwapOrder → Bool
unfolding is_loop_fill_pending_counter_accept is_managed_pending_counter_accept
is_pending_counter_accept o =
    is_loop_fill_pending_counter_accept o || is_managed_pending_counter_accept o

pub data ExpiryError : Type 0 where
  order_expired quote_expired : ExpiryError

unfoldable pub assert_order_not_expired : CantonSwapOrder → ℕ → Result ExpiryError (Unit {0})
unfolding is_order_expired
assert_order_not_expired o now =
    if is_order_expired o now
    then err
        (if is_loop o.wallet_mode then ExpiryError.order_expired else ExpiryError.quote_expired)
    else ok tt

-- ===== src/C2c/Service/Filling.antt =====
-- lib/canton-swap-service.ts, `fillLoop`: the fill of orders of Loop wallets.
use cantonbit.Shared.{
  ℕ, false, not, ◌&&◌, Option, some, Text, Result, ◌>>=◌, ltb, if◌then◌else◌, codes, truthy,
  includes, throw_if,
}
use cantonbit.C2c.Order.{CantonSwapOrder, CantonSwapStatus, is_loop, status_eq}
use cantonbit.C2c.Logic.{is_loop_fill_pending_counter_accept, is_retriable_loop_fill_error}
use cantonbit.C2c.Service.Store.{is_true}
use cantonbit.C2c.Service.Call.{Call, if_ok, if_some, must, must_or, test◌then◌else◌, transition}
use cantonbit.C2c.Service.Create.{reopen_then, units_or}
use cantonbit.C2c.Service.Reserve.{
  Check, Floats, enforce_settlement_quote, plain_move, reserve_swap_float,
}
use cantonbit.C2c.Service.Fill.{Fill, apply_loop_fill_result}
use cantonbit.C2c.Service.Receipt.{format_settlement_error}

-- The answers that one fill gets; `float_now` is what the vault holds right before.
pub record Filling : Type 0 where
  pub vault_party : Option Text
  pub check : Check
  pub floats : Floats
  pub float_now : Result Text ℕ
  pub repaired : Result Text (Option Fill)
  pub result : Result Text Fill

unfoldable pub assert_current_swap_float : CantonSwapOrder → Result Text ℕ → Result Text (Unit {0})
assert_current_swap_float o current = units_or o.out_amount o.to_asset >>= λ need.
    current >>= λ units. throw_if (ltb units need) (codes "swap vault insufficient float")

abbrev pub back_to_locked : Text → CantonSwapOrder → CantonSwapOrder
back_to_locked reason o = record o {
  status = CantonSwapStatus.user_locked;
  failure_reason = some reason;
}

abbrev pub fill_failure : Text → CantonSwapOrder → CantonSwapOrder
fill_failure msg o = record o {
  status = CantonSwapStatus.failed;
  float_reserved = some false;
  failure_reason = some (format_settlement_error msg);
}

-- A write over a filling order, after which the order is read again.
abbrev pub put_and_read : Text → CantonSwapOrder → Call
put_and_read id o =
    transition Call.throw o CantonSwapStatus.filling (must id Call.done) (must id Call.done)

-- The `catch` of `fillLoop`; the rejection of the user's offer is only logged.
abbrev pub fill_failed : Text → CantonSwapOrder → Text → Call
fill_failed id o msg =
    test includes (codes "submission in flight") msg
    then must id (λ fresh.
      test status_eq fresh.status CantonSwapStatus.filling
      then Call.done fresh
      else put_and_read id
          (back_to_locked (codes "Fill still processing on ledger — retry shortly") fresh))
    else test includes (codes "duplicate command committed but fill transaction not found") msg
    then must id Call.done
    else test is_retriable_loop_fill_error msg
    then put_and_read id (back_to_locked (format_settlement_error msg) o)
    else transition Call.throw (fill_failure msg o) CantonSwapStatus.filling (Call.throw msg)
        (Call.throw msg)

-- A fill of the ledger is written over a filling order.
abbrev pub filled_with :
    (Text → Call) → (CantonSwapOrder → Text → Call) → Text → CantonSwapOrder → Fill → Call
filled_with fail fail_with id o r =
    if_ok (apply_loop_fill_result o r)
      (λ o'.
        transition (fail_with o') o' CantonSwapStatus.filling (Call.done o')
          (must_or (fail_with o') id Call.done))
      fail

abbrev pub fill_on_ledger : Filling → Text → CantonSwapOrder → Call
fill_on_ledger a id o =
    if_ok a.result (filled_with (fill_failed id o) (fill_failed id) id o) (fill_failed id o)

abbrev pub fill_or_repair : Filling → Text → CantonSwapOrder → Call
fill_or_repair a id o =
    if_ok a.repaired
      (λ found.
        if_some found (filled_with Call.throw (λ _. Call.throw) id o) (fill_on_ledger a id o))
      Call.throw

-- Another worker has moved the order on.
abbrev pub fill_taken : CantonSwapOrder → Call
fill_taken fresh =
    test status_eq fresh.status CantonSwapStatus.filled
    then Call.done fresh
    else test is_loop_fill_pending_counter_accept fresh
    then Call.done fresh
    else test status_eq fresh.status CantonSwapStatus.filling
    then Call.done fresh
    else Call.throw (codes "cannot fill")

abbrev pub fill_reserved : Filling → Text → CantonSwapOrder → Call
fill_reserved a id o =
    if_ok (assert_current_swap_float o a.float_now)
      (λ _.
        test status_eq o.status CantonSwapStatus.user_locked
        then (let o' = record o { status = CantonSwapStatus.filling } in
            transition Call.throw o' CantonSwapStatus.user_locked (fill_or_repair a id o')
              (must id fill_taken))
        else fill_or_repair a id o)
      Call.throw

abbrev pub fill_locked : Filling → Text → CantonSwapOrder → Call
fill_locked a id o =
    test not (status_eq o.status CantonSwapStatus.user_locked)
      && not (status_eq o.status CantonSwapStatus.filling)
    then Call.throw (codes "cannot fill")
    else test is_loop_fill_pending_counter_accept o
    then Call.done o
    else if_ok (enforce_settlement_quote o a.check)
        (λ _.
          test not (is_true o.float_reserved) && not (truthy o.settlement_update_id)
          then reserve_swap_float Call.throw (fill_reserved a id) a.floats o
              (plain_move o.status o.status)
          else fill_reserved a id o)
        Call.throw

-- An expired order is refused here, so that the later test for a mistaken expiry never holds.
abbrev pub fill_again : Filling → Text → CantonSwapOrder → Call
fill_again a id o =
    test status_eq o.status CantonSwapStatus.expired
    then Call.throw (codes "cannot fill")
    else fill_locked a id o

abbrev pub fill_from : Filling → Text → CantonSwapOrder → Call
fill_from a id o =
    test not (is_loop o.wallet_mode)
    then Call.throw (codes "fill is loop only")
    else test status_eq o.status CantonSwapStatus.filled
    then Call.done o
    else test status_eq o.status CantonSwapStatus.filling
    then must id (λ fresh.
      test status_eq fresh.status CantonSwapStatus.filled
      then Call.done fresh
      else test is_loop_fill_pending_counter_accept fresh
      then Call.done fresh
      else fill_again a id fresh)
    else fill_again a id o

unfoldable pub fill_loop : Filling → Text → Call
unfolding apply_loop_fill_result assert_current_swap_float enforce_settlement_quote
    reserve_swap_float
fill_loop a id = reopen_then Call.throw (fill_from a id) a.vault_party id

-- ===== src/C2c/Service/UserLeg.antt =====
-- lib/canton-swap-service.ts: the sell leg of orders of Loop wallets.
use cantonbit.Shared.{
  ℕ, false, not, Option, none, some, List, [], Text, Result, ok, err, ◌>>=◌, if◌then◌else◌, any,
  codes, text_eq, truthy, includes, throw_if, filter,
}
use cantonbit.C2c.Order.{CantonSwapOrder, CantonSwapStatus, is_loop, status_eq}
use cantonbit.C2c.Logic.{assert_order_not_expired, is_false_vault_migration_expire}
use cantonbit.C2c.Service.Call.{Call, if_ok, must, test◌then◌else◌}
use cantonbit.C2c.Service.Create.{Intake, OrderParams, create_then, relabel, reopen_then}
use cantonbit.C2c.Service.Reserve.{Floats, Move, reserve_swap_float}
use cantonbit.Timelock.{assert_valid_prepare_created_at}

-- `prepareUserLeg`: the command that the wallet signs is built by the ledger client; the order is not
-- changed, but it may be reopened.
abbrev pub prepared : ℕ → Result Text (Unit {0}) → CantonSwapOrder → Call
prepared now built o =
    test not (is_loop o.wallet_mode)
    then Call.throw (codes "prepare-user-leg is loop only")
    else test not (status_eq o.status CantonSwapStatus.opened)
    then Call.throw (codes "invalid status")
    else if_ok (relabel (codes "order expired") (assert_order_not_expired o now))
        (λ _. if_ok built (λ _. Call.done o) Call.throw) Call.throw

unfoldable pub prepare_user_leg : Option Text → ℕ → Result Text (Unit {0}) → Text → Call
prepare_user_leg vault_party now built id =
    reopen_then Call.throw (prepared now built) vault_party id

-- The offer and the update that prove the user's leg.
pub record UserLeg : Type 0 where
  pub user_leg_offer_cid : Text
  pub user_leg_submit_update_id : Option Text

-- What a confirmation is told: the vault, the clock, the leg that the ledger shows when the offers
-- that other orders have linked are left out, and the vault's float.
pub record Confirmation : Type 0 where
  pub vault_party : Option Text
  pub now : ℕ
  pub evidence : List Text → Result Text UserLeg
  pub floats : Floats

abbrev pub own_offer : Option CantonSwapOrder → Option Text
own_offer none = none
own_offer (some self) = self.user_leg_offer_cid

-- `used.delete(cid)`
abbrev pub without : Option Text → List Text → List Text
without none used = used
without (some cid) used = filter (λ u. not (text_eq u cid)) used

abbrev pub update_or : Option Text → Option Text → Option Text
update_or (some update_id) hint = some update_id
update_or none hint = hint

abbrev pub lock_move : CantonSwapStatus → UserLeg → Option Text → Move
lock_move s leg hint = record {
  expected_status = s;
  next_status = CantonSwapStatus.user_locked;
  user_leg_offer_cid = some leg.user_leg_offer_cid;
  user_leg_submit_update_id = update_or leg.user_leg_submit_update_id hint;
}

-- The user's offer is rejected if the order could not be locked; an error of that is only logged.
abbrev pub lock_failed : Text → Text → Call
lock_failed id msg =
    test includes (codes "duplicate key") msg
    then Call.throw (codes "user leg offer already reserved by another order")
    else must id (λ fresh.
      test status_eq fresh.status CantonSwapStatus.user_locked
      then Call.done fresh
      else Call.throw msg)

abbrev pub lock_user_leg : Confirmation → Option Text → Text → CantonSwapOrder → UserLeg → Call
lock_user_leg a hint id o leg =
    test is_false_vault_migration_expire o a.vault_party false
    then reserve_swap_float (lock_failed id) Call.done a.floats o
        (lock_move CantonSwapStatus.expired leg hint)
    else reserve_swap_float (lock_failed id) Call.done a.floats o
        (lock_move CantonSwapStatus.opened leg hint)

abbrev pub with_evidence : Confirmation → Option Text → Text → CantonSwapOrder → Call
with_evidence a hint id o = Call.offers (λ used. Call.read id (λ self.
    if_ok (a.evidence (without (own_offer self) used)) (lock_user_leg a hint id o) Call.throw))

unfoldable pub confirm_user_leg : Confirmation → Option Text → Text → Call
unfolding reserve_swap_float
confirm_user_leg a hint id = must id (λ o.
    test not (is_loop o.wallet_mode)
    then Call.throw (codes "confirm-user-leg is loop only")
    else test status_eq o.status CantonSwapStatus.user_locked
    then Call.done o
    else test is_false_vault_migration_expire o a.vault_party false
    then with_evidence a hint id o
    else test not (status_eq o.status CantonSwapStatus.opened)
    then Call.throw (codes "invalid status")
    else if_ok (relabel (codes "order expired") (assert_order_not_expired o a.now))
        (λ _. with_evidence a hint id o) Call.throw)

-- `assertOfferOnlyUserLegEvidence` on the offer and the holding that a submitted update shows.
unfoldable pub assert_offer_only : Option Text → Option Text → Result Text Text
assert_offer_only none holding =
    if truthy holding
    then err (codes "user leg settled via preapproval auto-accept")
    else err (codes "user leg submit update does not prove pending offer")
assert_offer_only (some cid) holding =
    if text_eq cid []
    then (if truthy holding
        then err (codes "user leg settled via preapproval auto-accept")
        else err (codes "user leg submit update does not prove pending offer"))
    else ok cid

-- `commitUserLegOrder`: `shown` is the verified evidence of the submitted update.
abbrev pub commit_with : OrderParams → Intake → Confirmation → Text → Text → Call
commit_with p intake a update_id cid = Call.offers (λ used.
    test any (text_eq cid) used
    then Call.throw (codes "user leg offer already reserved by another order")
    else create_then (λ _. confirm_user_leg a (some update_id) p.order_id) p intake)

unfoldable pub commit_user_leg_order :
    OrderParams → Intake → Confirmation → Result Text (Option Text × Option Text) → Text → Call
unfolding confirm_user_leg assert_offer_only
commit_user_leg_order p intake a shown update_id =
    if_ok
      (throw_if (text_eq intake.vault_party [])
        (codes "CANTON_SWAP_SETTLEMENT_PARTY not configured"))
      (λ _.
        if_ok
          (relabel (codes "prepare intent") (assert_valid_prepare_created_at p.created_at a.now))
          (λ created_at.
            if_ok (shown >>= λ (offer, holding). assert_offer_only offer holding)
              (commit_with (record p { created_at = some created_at }) intake a update_id)
              Call.throw)
          Call.throw)
      Call.throw

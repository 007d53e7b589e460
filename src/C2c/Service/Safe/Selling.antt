-- ===== src/C2c/Service/Safe/Selling.antt =====
-- What the sell leg of Loop orders keeps to.
use cantonbit.Shared.{
  ℕ, ◌≡◌, refl, Bool, true, false, not, Option, none, some, arith, Text, Result, ◌∙◌,
}
use cantonbit.C2c.Order.{CantonSwapOrder, CantonSwapStatus, WalletMode, is_loop}
use cantonbit.C2c.Service.Call.{Call}
use cantonbit.C2c.Service.Diagram.{may_advance}
use cantonbit.C2c.Service.Create.{Intake, OrderParams}
use cantonbit.C2c.Service.Reserve.{reserve_swap_float}
use cantonbit.C2c.Service.UserLeg.{
  Confirmation, UserLeg, commit_user_leg_order, confirm_user_leg, lock_failed, lock_move, own_offer,
  prepare_user_leg, prepared, with_evidence, without,
}
use cantonbit.C2c.Service.Sweep.{shown}
use cantonbit.C2c.Service.Safe.{
  sym, ap, Copy, Safe, Safe-if_ok, Safe-must_or, Safe-test, Safe-thrown, Terms, mode_of-Copy,
}
use cantonbit.C2c.Service.Safe.Create.{Registered, create_then-Safe, reopen_over-Safe}
use cantonbit.C2c.Service.Safe.Reserve.{reserve_swap_float-Safe}

lock_advance :
    (m : WalletMode)
    → is_loop m ≡ true
    → (may_advance m CantonSwapStatus.opened CantonSwapStatus.user_locked ≡ true)
      × (may_advance m CantonSwapStatus.expired CantonSwapStatus.user_locked ≡ true)
lock_advance m e = ground arith

pub of_not : {b : Bool} → not b ≡ false → b ≡ true
of_not e = ground arith

module _ {t : Text → Terms} {id : Text} where
  pub prepare_user_leg-Safe :
      (vault_party : Option Text) (now : ℕ) (built : Result Text (Unit {0}))
      → Safe t id none (prepare_user_leg vault_party now built id)
  unfolding prepare_user_leg
  prepare_user_leg-Safe vault_party now built =
      reopen_over-Safe Call.throw (prepared now built) vault_party
        (λ known o c.
          Safe-test (λ _. Safe.throws)
            (λ _.
              Safe-test (λ _. Safe.throws)
                (λ _.
                  Safe-if_ok _ (λ _ _. Safe-if_ok built (λ _ _. Safe.returns c) Safe-thrown)
                    Safe-thrown)))
        (λ msg known. Safe.throws)

  lock_failed-Safe :
      {known : Option CantonSwapStatus} (msg : Text) → Safe t id known (lock_failed id msg)
  lock_failed-Safe msg =
      Safe-test (λ _. Safe.throws)
        (λ _.
          Safe-must_or Safe-thrown
            (λ fresh c _. Safe-test (λ _. Safe.returns c) (λ _. Safe.throws)))

  lock_from-Safe :
      {known : Option CantonSwapStatus} (a : Confirmation) (hint : Option Text)
      (s : CantonSwapStatus) (o : CantonSwapOrder) (leg : UserLeg)
      → may_advance (t id).wallet_mode s CantonSwapStatus.user_locked ≡ true
      → Copy t id o
      → Safe t id known
          (reserve_swap_float (lock_failed id) Call.done a.floats o (lock_move s leg hint))
  lock_from-Safe a hint s o leg m c =
      reserve_swap_float-Safe (lock_failed id) Call.done (λ msg known. lock_failed-Safe msg)
        (lock_move s leg hint) (λ x d e. Safe.returns d) (m, refl, (λ p. ground arith)) a.floats o c

  with_evidence-Safe :
      {known : Option CantonSwapStatus} (a : Confirmation) (hint : Option Text)
      (o : CantonSwapOrder)
      → is_loop o.wallet_mode ≡ true
      → Copy t id o
      → Safe t id known (with_evidence a hint id o)
  with_evidence-Safe a hint o e c = Safe.lists (λ used. Safe.reads (λ self _.
      Safe-if_ok (a.evidence (without (own_offer self) used))
        (λ leg _.
          Safe-test
            (λ _.
              lock_from-Safe a hint CantonSwapStatus.expired o leg
                ((lock_advance (t id).wallet_mode loop).1) c)
            (λ _.
              lock_from-Safe a hint CantonSwapStatus.opened o leg
                ((lock_advance (t id).wallet_mode loop).0) c))
        Safe-thrown))
    where
      loop : is_loop (t id).wallet_mode ≡ true
      loop = ap is_loop (sym (mode_of-Copy t id o c)) ∙ e

  pub confirm_user_leg-Safe :
      {known : Option CantonSwapStatus} (a : Confirmation) (hint : Option Text)
      → Safe t id known (confirm_user_leg a hint id)
  unfolding confirm_user_leg
  confirm_user_leg-Safe a hint = Safe-must_or Safe-thrown (λ o c _.
      Safe-test (λ _. Safe.throws)
        (λ e.
          Safe-test (λ _. Safe.returns c)
            (λ _.
              Safe-test (λ _. with_evidence-Safe a hint o (of_not e) c)
                (λ _.
                  Safe-test (λ _. Safe.throws)
                    (λ _.
                      Safe-if_ok _ (λ _ _. with_evidence-Safe a hint o (of_not e) c)
                        Safe-thrown)))))

pub commit_user_leg_order-Safe :
    (t : Text → Terms) (p : OrderParams) (intake : Intake) (a : Confirmation)
    (shown : Result Text (Option Text × Option Text)) (update_id : Text)
    → ((created_at : Option ℕ) → Registered t (record p { created_at = created_at }) intake)
    → Safe t p.order_id none (commit_user_leg_order p intake a shown update_id)
unfolding commit_user_leg_order
commit_user_leg_order-Safe t p intake a shown update_id registered =
    Safe-if_ok _
      (λ _ _.
        Safe-if_ok _
          (λ created_at _.
            Safe-if_ok _
              (λ cid _. Safe.lists (λ used.
                Safe-test (λ _. Safe.throws)
                  (λ _.
                    create_then-Safe t (record p { created_at = some created_at }) intake
                      (registered (some created_at)) none _
                      (λ known o c. confirm_user_leg-Safe a (some update_id)))))
              Safe-thrown)
          Safe-thrown)
      Safe-thrown

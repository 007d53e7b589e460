-- ===== src/C2c/Service/Safe/Settle.antt =====
-- What the settlement of orders keeps to, of wallets that the service signs for.
use cantonbit.Shared.{◌≡◌, refl, true, false, Option, none, some, arith, Text, ◌∙◌}
use cantonbit.C2c.Order.{CantonSwapOrder, CantonSwapStatus, is_loop}
use cantonbit.C2c.Service.Call.{Call}
use cantonbit.C2c.Service.Diagram.{may_advance}
use cantonbit.C2c.Service.Create.{Intake, OrderParams}
use cantonbit.C2c.Service.Reserve.{
  Check, Floats, enforce_settlement_quote, plain_move, reserve_swap_float,
}
use cantonbit.C2c.Service.Settle.{
  Settlement, complete_settling, reserve_failed, settle_managed, submit_managed,
}
use cantonbit.C2c.Service.Safe.{
  sym, ap, subst, Copy, Safe, Safe-if_ok, Safe-must_or, Safe-test, Safe-thrown, Terms, mode_of-Copy,
  stay_advance,
}
use cantonbit.C2c.Service.Safe.Create.{Registered, create_then-Safe}
use cantonbit.C2c.Service.Safe.Reserve.{reserve_swap_float-Safe}
use cantonbit.C2c.Service.Safe.Repair.{settles}
use cantonbit.C2c.Service.Safe.Settling.{complete_settling-Safe, open_advance}

module _ (t : Text → Terms) (id : Text) (first : Check) (f : Floats) (a : Settlement) where
  managed_of :
      (o : CantonSwapOrder)
      → Copy t id o
      → is_loop o.wallet_mode ≡ false
      → is_loop (t id).wallet_mode ≡ false
  managed_of o c e = ap is_loop (sym (mode_of-Copy t id o c)) ∙ e

  complete-Safe :
      (o : CantonSwapOrder)
      → is_loop (t id).wallet_mode ≡ false
      → Copy t id o
      → settles o.status ≡ true
      → Safe t id (some o.status) (complete_settling a o)
  complete-Safe o e c h = complete_settling-Safe t id e a o h (c, h)

  -- A reservation for an order to settle, after which the settlement goes on.
  reserve_then_complete-Safe :
      {known : Option CantonSwapStatus} (fail : Text → Call) (s : CantonSwapStatus)
      (o : CantonSwapOrder)
      → is_loop (t id).wallet_mode ≡ false
      → may_advance (t id).wallet_mode s CantonSwapStatus.settling ≡ true
      → ((msg : Text) (known : Option CantonSwapStatus) → Safe t id known (fail msg))
      → Copy t id o
      → Safe t id known (
          reserve_swap_float fail
            (complete_settling a)
            f
            o
            (plain_move s CantonSwapStatus.settling))
  reserve_then_complete-Safe fail s o e m fails c =
      reserve_swap_float-Safe fail (complete_settling a) fails
        (plain_move s CantonSwapStatus.settling) (λ x d h. complete-Safe x e d (ap settles h))
        (m, refl, (λ p. ground arith)) f o c

  reserve_failed-Safe :
      {known : Option CantonSwapStatus} (msg : Text)
      → is_loop (t id).wallet_mode ≡ false
      → Safe t id known (reserve_failed a id msg)
  reserve_failed-Safe msg e = Safe-must_or Safe-thrown (λ fresh c _.
      Safe-test (λ _. Safe.returns c)
        (λ _. Safe-test (λ h. complete-Safe fresh e c (ground arith)) (λ _. Safe.throws)))

  pub settle_managed-Safe :
      {known : Option CantonSwapStatus} → Safe t id known (settle_managed first f a id)
  unfolding settle_managed
  settle_managed-Safe = Safe-must_or Safe-thrown (λ o c _.
      Safe-test (λ _. Safe.throws)
        (λ e.
          let managed = managed_of o c e in
          Safe-test (λ _. Safe.returns c)
            (λ _.
              Safe-test
                (λ h.
                  Safe-test
                    (λ _.
                      reserve_then_complete-Safe Call.throw CantonSwapStatus.settling o managed
                        (stay_advance (t id).wallet_mode CantonSwapStatus.settling)
                        (λ msg known. Safe.throws) c)
                    (λ _. complete-Safe o managed c (ground arith)))
                (λ _.
                  Safe-test (λ _. Safe.throws)
                    (λ _.
                      Safe-if_ok (enforce_settlement_quote o first)
                        (λ _ _.
                          reserve_then_complete-Safe (reserve_failed a id) CantonSwapStatus.opened o
                            managed (open_advance (t id).wallet_mode managed)
                            (λ msg known. reserve_failed-Safe msg managed) c)
                        Safe-thrown)))))

pub submit_managed-Safe :
    (t : Text → Terms) (p : OrderParams) (intake : Intake) (first : Check) (f : Floats)
    (a : Settlement)
    → Registered t p intake
    → Safe t p.order_id none (submit_managed p intake first f a)
unfolding submit_managed
submit_managed-Safe t p intake first f a registered =
    create_then-Safe t p intake registered none (λ order. settle_managed first f a order.id)
      (λ known o (s, same, terms).
        subst (λ i. Safe t p.order_id known (settle_managed first f a i)) (sym same)
          (settle_managed-Safe t p.order_id first f a))

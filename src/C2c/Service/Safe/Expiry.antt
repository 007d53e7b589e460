-- ===== src/C2c/Service/Safe/Expiry.antt =====
-- What the sweep that expires orders keeps to.
use cantonbit.Shared.{
  Bool-cases, has_prefix, includes, ℕ, ◌≡◌, refl, inl, inr, Bool, true, false, ◌||◌, Option, none,
  arith, Text,
}
use cantonbit.C2c.Order.{CantonSwapOrder, CantonSwapStatus, WalletMode, is_loop, status_eq}
use cantonbit.C2c.Logic.{should_expire_for_vault_migration}
use cantonbit.C2c.Service.Call.{Call}
use cantonbit.C2c.Service.Diagram.{may_advance}
use cantonbit.C2c.Service.Fill.{managed_filled}
use cantonbit.C2c.Service.Expire.{
  Expiring, expire_after_reject, expire_from, expire_managed, expire_stale, expired_for, is_swept,
  stale_reason, unless_filled,
}
use cantonbit.C2c.Service.Safe.{
  Copy, Safe, Safe-again, Safe-if_ok, Safe-if_some, Safe-test, Safe-transition, Terms, sound,
}
use cantonbit.C2c.Service.Safe.Repair.{apply_managed-Safe, repair_advance, repairable}
use cantonbit.C2c.Service.Safe.LoopFill.{apply_loop-Safe, fill_advance}
use cantonbit.C2c.Service.Safe.Sweeping.{Safe-counted, Safe-swept}

abbrev swept_status : CantonSwapStatus → Bool
swept_status s =
    status_eq s CantonSwapStatus.opened
    || status_eq s CantonSwapStatus.user_locked
    || status_eq s CantonSwapStatus.settling
    || status_eq s CantonSwapStatus.filling
    || status_eq s CantonSwapStatus.failed

expire_advance :
    (m : WalletMode) (s : CantonSwapStatus)
    → swept_status s ≡ true
    → may_advance m s CantonSwapStatus.expired ≡ true
expire_advance m s h = ground arith

expired_stale-sound : (o : CantonSwapOrder) → sound (expired_for (stale_reason o) o) ≡ true
unfolding sound includes has_prefix
expired_stale-sound o = elim (Bool-cases (is_loop o.wallet_mode)) [
  | inl e ↦ rw e refl
  | inr e ↦ rw e refl
]

expired_loop-sound :
    (reason : Text) (o : CantonSwapOrder)
    → is_loop o.wallet_mode ≡ true
    → sound (expired_for reason o) ≡ true
unfolding sound
expired_loop-sound reason o e = rw e refl

migrates-is_loop :
    (o : CantonSwapOrder) (vault_party : Option Text) (now : ℕ)
    → should_expire_for_vault_migration o vault_party now ≡ true
    → is_loop o.wallet_mode ≡ true
unfolding should_expire_for_vault_migration
migrates-is_loop o vault_party now e = ground arith

module _ (t : Text → Terms) (id : Text) (a : Expiring) where
  expire_after_reject-Safe :
      {known : Option CantonSwapStatus} (prior : CantonSwapStatus) (o : CantonSwapOrder)
      → swept_status prior ≡ true
      → Copy t id o
      → Safe t id known (expire_after_reject a prior o)
  expire_after_reject-Safe prior o h c =
      Safe-test (λ _. Safe.skips)
        (λ _.
          Safe-counted (expired_for (stale_reason o) o) prior (expired_stale-sound o, c.1, c.2)
            (expire_advance o.wallet_mode prior h))

  expire_from-Safe :
      {known : Option CantonSwapStatus} (prior : CantonSwapStatus) (o : CantonSwapOrder)
      → swept_status prior ≡ true
      → Copy t id o
      → Safe t id known (expire_from a prior o)
  expire_from-Safe prior o h c =
      Safe-test
        (λ e.
          Safe-if_ok a.loop_fill
            (λ found _.
              Safe-if_some found
                (λ r _.
                  apply_loop-Safe o r _ _ c
                    (λ d.
                      Safe-transition d (fill_advance o.wallet_mode r o (ground arith)).0
                        (Safe.returns d) Safe.skips
                        (λ msg. expire_after_reject-Safe CantonSwapStatus.filling _ refl d))
                    (λ msg. expire_after_reject-Safe CantonSwapStatus.filling o refl c))
                (expire_after_reject-Safe prior o h c))
            (λ msg. expire_after_reject-Safe prior o h c))
        (λ _. expire_after_reject-Safe prior o h c)

  unless_filled-Safe :
      {known : Option CantonSwapStatus} (c : Call) (o : CantonSwapOrder)
      → Copy t id o
      → Safe t id known c
      → Safe t id known (unless_filled c o)
  unless_filled-Safe c o d p = Safe-test (λ _. Safe.returns d) (λ _. p)

  expire_managed-Safe :
      {known : Option CantonSwapStatus} (o : CantonSwapOrder)
      → is_loop o.wallet_mode ≡ false
      → repairable o.status ≡ true
      → swept_status o.status ≡ true
      → Copy t id o
      → Safe t id known (expire_managed a o)
  expire_managed-Safe o e r h c =
      Safe-if_ok a.managed_fill
        (λ found _.
          Safe-if_some found
            (λ fill _.
              apply_managed-Safe o fill _ _ c
                (λ d.
                  let rest = λ (known : Option CantonSwapStatus).
                    expire_from-Safe {known = known} o.status (managed_filled o fill) h d in
                  Safe-transition d (repair_advance o.wallet_mode o.status fill o e r)
                    (unless_filled-Safe _ (managed_filled o fill) d (rest _))
                    (Safe-again o c (λ msg. rest _)
                      (λ fresh d' _. unless_filled-Safe _ fresh d' (rest _)))
                    (λ msg. rest _))
                (λ msg. expire_from-Safe o.status o h c))
            (expire_from-Safe o.status o h c))
        (λ msg. expire_from-Safe o.status o h c)

  pub expire_stale-Safe : Safe t id none (expire_stale a id)
  unfolding expire_stale is_swept
  expire_stale-Safe = Safe-swept _ (λ o c w.
      Safe-test
        (λ e.
          Safe-test (λ _. Safe.skips)
            (λ _.
              Safe-counted (expired_for _ o) o.status
                (expired_loop-sound _ o (migrates-is_loop o a.vault_party a.now e), c.1, c.2)
                (expire_advance o.wallet_mode o.status w)))
        (λ _.
          Safe-test (λ _. Safe.skips)
            (λ _.
              Safe-test (λ _. Safe.skips)
                (λ _.
                  Safe-test (λ _. Safe.skips)
                    (λ _.
                      Safe-test (λ _. Safe.skips)
                        (λ _.
                          Safe-test (λ e. expire_managed-Safe o (ground arith) (ground arith) w c)
                            (λ _. expire_from-Safe o.status o w c)))))))

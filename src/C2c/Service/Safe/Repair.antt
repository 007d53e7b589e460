-- ===== src/C2c/Service/Safe/Repair.antt =====
-- What a repair from the ledger keeps to, and where a settling order can come to.
use cantonbit.Shared.{◌≡◌, Bool, true, false, ◌||◌, Option, none, some, arith, Text, Result, ok}
use cantonbit.C2c.Order.{CantonSwapOrder, CantonSwapStatus, WalletMode, is_loop, status_eq}
use cantonbit.C2c.Service.Store.{kept}
use cantonbit.C2c.Service.Call.{Call, if_ok, must_or, transition}
use cantonbit.C2c.Service.Diagram.{PathAlong, managed_advance, may_advance}
use cantonbit.C2c.Service.Fill.{
  Fill, apply_managed_fill_result, managed_filled, repair_managed_from_ledger,
}
use cantonbit.C2c.Service.Safe.{
  subst, Copy, OnFrom, Safe, Safe-again, Safe-if_ok, Safe-if_some, Safe-test, Safe-transition,
  Terms, sound,
}

-- The statuses that a settling order of such a wallet can come to.
abbrev pub settles : CantonSwapStatus → Bool
settles s =
    status_eq s CantonSwapStatus.settling
    || status_eq s CantonSwapStatus.filled
    || status_eq s CantonSwapStatus.failed
    || status_eq s CantonSwapStatus.expired

settles_advance :
    (r s : CantonSwapStatus) → settles r ≡ true → managed_advance r s ≡ true → settles s ≡ true
settles_advance CantonSwapStatus.settling s e m = ground arith
settles_advance CantonSwapStatus.filled s e m = ground arith
settles_advance CantonSwapStatus.failed s e m = ground arith
settles_advance CantonSwapStatus.expired s e m = ground arith
settles_advance CantonSwapStatus.opened s e m = cc
settles_advance CantonSwapStatus.cancelled s e m = cc
settles_advance CantonSwapStatus.user_locked s e m = cc
settles_advance CantonSwapStatus.filling s e m = cc

pub settles_path :
    (m : WalletMode) {r s : CantonSwapStatus}
    → is_loop m ≡ false
    → PathAlong m r s
    → settles r ≡ true
    → settles s ≡ true
settles_path m e (PathAlong.stay s) h = h
settles_path WalletMode.loop e p h = cc
settles_path WalletMode.managed {r} {s} e (PathAlong.step p q) h =
    settles_advance _ s (settles_path WalletMode.managed e p h) q

-- What a request knows once the order is settling.
abbrev pub Settling : Option CantonSwapStatus → Type 0
Settling none = ⊥
Settling (some s) = settles s ≡ true

pub Settling-next :
    (m : WalletMode) (known : Option CantonSwapStatus) (s : CantonSwapStatus)
    → is_loop m ≡ false
    → Settling known
    → OnFrom m known s
    → settles s ≡ true
Settling-next m none s e k f = absurd k
Settling-next m (some r) s e k f = settles_path m e f k

-- A result of the ledger fits any order but a cancelled one or one in the hands of a Loop fill.
abbrev pub repairable : CantonSwapStatus → Bool
repairable s = settles s || status_eq s CantonSwapStatus.opened

pub managed_filled_lem :
    (o : CantonSwapOrder) (r : Fill)
    → (sound (managed_filled o r) ≡ true) × (settles (managed_filled o r).status ≡ true)
unfolding sound
managed_filled_lem o r = ground arith

pub repair_advance :
    (m : WalletMode) (s : CantonSwapStatus) (r : Fill) (o : CantonSwapOrder)
    → is_loop m ≡ false
    → repairable s ≡ true
    → may_advance m s (managed_filled o r).status ≡ true
repair_advance m s r o e h = ground arith

pub apply_managed_lem :
    (o : CantonSwapOrder) (r : Fill) {o' : CantonSwapOrder}
    → apply_managed_fill_result o r ≡ ok o'
    → managed_filled o r ≡ o'
unfolding apply_managed_fill_result
apply_managed_lem o r e = ground arith

module _ {t : Text → Terms} {id : Text} where
  -- What a settlement on the ledger writes to an order.
  pub apply_managed-Safe :
      {known : Option CantonSwapStatus} (o : CantonSwapOrder) (r : Fill)
      (next : CantonSwapOrder → Call) (fail : Text → Call)
      → Copy t id o
      → (Copy t id (managed_filled o r) → Safe t id known (next (managed_filled o r)))
      → ((msg : Text) → Safe t id known (fail msg))
      → Safe t id known (if_ok (apply_managed_fill_result o r) next fail)
  apply_managed-Safe {known} o r next fail (s, same, terms) p q =
      Safe-if_ok (apply_managed_fill_result o r)
        (λ o' e.
          subst (λ x. Safe t id known (next x)) (apply_managed_lem o r e)
            (p ((managed_filled_lem o r).0, same, terms)))
        q

  -- A repair of an order that the ledger has more of.
  pub repair_managed-Safe :
      {known : Option CantonSwapStatus} (fail : Text → Call) (next : CantonSwapOrder → Call)
      (nothing : Call) (ledger : Result Text (Option Fill)) (o : CantonSwapOrder)
      → Copy t id o
      → (is_loop o.wallet_mode ≡ false → repairable o.status ≡ true)
      → ((msg : Text) (known : Option CantonSwapStatus) → Safe t id known (fail msg))
      → ((known : Option CantonSwapStatus) (x : CantonSwapOrder)
          → Copy t id x
          → Safe t id known (next x))
      → Safe t id known nothing
      → Safe t id known (repair_managed_from_ledger fail next nothing ledger o)
  unfolding repair_managed_from_ledger
  repair_managed-Safe fail next nothing ledger o c h fails kept p =
      Safe-test (λ _. p)
        (λ e.
          Safe-if_ok ledger
            (λ found _.
              Safe-if_some found
                (λ r _.
                  apply_managed-Safe o r
                    (λ o'. transition fail o' o.status (next o') (must_or fail o.id next)) fail c
                    (λ d.
                      Safe-transition d (repair_advance o.wallet_mode o.status r o e (h e))
                        (kept _ _ d)
                        (Safe-again o c (λ msg. fails msg _) (λ fresh d' _. kept _ fresh d'))
                        (λ msg. fails msg _))
                    (λ msg. fails msg _))
                p)
            (λ msg. fails msg _))

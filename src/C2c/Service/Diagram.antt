-- ===== src/C2c/Service/Diagram.antt =====
-- The status diagrams of same-ledger orders, as a specification that does not look at the service's
-- code: one for the wallets that the service signs for, and one for Loop wallets.
use cantonbit.Shared.{◌≡◌, Bool, true, ◌||◌}
use cantonbit.C2c.Order.{CantonSwapStatus, WalletMode, status_eq}

-- Whether a row of one status may get another. A cancelled order stays so; only an open one is
-- cancelled. A locked order may be set back to open or failed by a sweep that has read it so before
-- it was locked again.
abbrev pub managed_advance : CantonSwapStatus → CantonSwapStatus → Bool
managed_advance CantonSwapStatus.opened t =
    status_eq t CantonSwapStatus.opened
    || status_eq t CantonSwapStatus.settling
    || status_eq t CantonSwapStatus.filled
    || status_eq t CantonSwapStatus.expired
    || status_eq t CantonSwapStatus.cancelled
managed_advance CantonSwapStatus.settling t =
    status_eq t CantonSwapStatus.settling
    || status_eq t CantonSwapStatus.filled
    || status_eq t CantonSwapStatus.failed
    || status_eq t CantonSwapStatus.expired
managed_advance CantonSwapStatus.failed t =
    status_eq t CantonSwapStatus.failed
    || status_eq t CantonSwapStatus.settling
    || status_eq t CantonSwapStatus.filled
    || status_eq t CantonSwapStatus.expired
managed_advance CantonSwapStatus.expired t =
    status_eq t CantonSwapStatus.expired
    || status_eq t CantonSwapStatus.settling
    || status_eq t CantonSwapStatus.filled
managed_advance CantonSwapStatus.filled t =
    status_eq t CantonSwapStatus.filled || status_eq t CantonSwapStatus.settling
managed_advance CantonSwapStatus.cancelled t = status_eq t CantonSwapStatus.cancelled
managed_advance CantonSwapStatus.user_locked t =
    status_eq t CantonSwapStatus.user_locked || status_eq t CantonSwapStatus.expired
managed_advance CantonSwapStatus.filling t =
    status_eq t CantonSwapStatus.filling || status_eq t CantonSwapStatus.expired

abbrev pub loop_advance : CantonSwapStatus → CantonSwapStatus → Bool
loop_advance CantonSwapStatus.opened t =
    status_eq t CantonSwapStatus.opened
    || status_eq t CantonSwapStatus.user_locked
    || status_eq t CantonSwapStatus.expired
    || status_eq t CantonSwapStatus.cancelled
loop_advance CantonSwapStatus.user_locked t =
    status_eq t CantonSwapStatus.user_locked
    || status_eq t CantonSwapStatus.filling
    || status_eq t CantonSwapStatus.filled
    || status_eq t CantonSwapStatus.expired
    || status_eq t CantonSwapStatus.opened
    || status_eq t CantonSwapStatus.failed
loop_advance CantonSwapStatus.filling t =
    status_eq t CantonSwapStatus.filling
    || status_eq t CantonSwapStatus.user_locked
    || status_eq t CantonSwapStatus.filled
    || status_eq t CantonSwapStatus.failed
    || status_eq t CantonSwapStatus.expired
loop_advance CantonSwapStatus.failed t =
    status_eq t CantonSwapStatus.failed
    || status_eq t CantonSwapStatus.user_locked
    || status_eq t CantonSwapStatus.filled
    || status_eq t CantonSwapStatus.expired
loop_advance CantonSwapStatus.expired t =
    status_eq t CantonSwapStatus.expired
    || status_eq t CantonSwapStatus.opened
    || status_eq t CantonSwapStatus.user_locked
loop_advance CantonSwapStatus.filled t =
    status_eq t CantonSwapStatus.filled || status_eq t CantonSwapStatus.user_locked
loop_advance CantonSwapStatus.cancelled t = status_eq t CantonSwapStatus.cancelled
loop_advance CantonSwapStatus.settling t =
    status_eq t CantonSwapStatus.settling || status_eq t CantonSwapStatus.expired

abbrev pub may_advance : WalletMode → CantonSwapStatus → CantonSwapStatus → Bool
may_advance WalletMode.managed s t = managed_advance s t
may_advance WalletMode.loop s t = loop_advance s t

-- One status after another, along the diagram of a wallet mode.
pub data PathAlong (m : WalletMode) : CantonSwapStatus → CantonSwapStatus → Type 0 where
  stay : (s : CantonSwapStatus) → PathAlong m s s
  step : {r s t : CantonSwapStatus} → PathAlong m r s → may_advance m s t ≡ true → PathAlong m r t

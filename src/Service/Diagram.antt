-- ===== src/Service/Diagram.antt =====
-- The status diagram of an order, as a specification that does not look at the service's code.
use cantonbit.Shared.{◌≡◌, Bool, true, ◌||◌}
use cantonbit.Htlc.Order.{SwapStatus, status_eq}

-- Whether a row of one status may get another. A status may be written again; the outcomes
-- `main_claimed`, `refunded` and `cancelled` are final; a failed order can only be refunded.
abbrev pub may_advance : SwapStatus → SwapStatus → Bool
may_advance SwapStatus.opened t =
    status_eq t SwapStatus.opened
    || status_eq t SwapStatus.accepted
    || status_eq t SwapStatus.cancelled
    || status_eq t SwapStatus.failed
    || status_eq t SwapStatus.refunded
may_advance SwapStatus.accepted t =
    status_eq t SwapStatus.accepted
    || status_eq t SwapStatus.main_locking
    || status_eq t SwapStatus.main_locked
    || status_eq t SwapStatus.cancelled
    || status_eq t SwapStatus.refunded
may_advance SwapStatus.main_locking t =
    status_eq t SwapStatus.main_locking
    || status_eq t SwapStatus.accepted
    || status_eq t SwapStatus.main_locked
    || status_eq t SwapStatus.failed
    || status_eq t SwapStatus.refunded
may_advance SwapStatus.main_locked t =
    status_eq t SwapStatus.main_locked
    || status_eq t SwapStatus.counter_locking
    || status_eq t SwapStatus.counter_locked
    || status_eq t SwapStatus.counter_claimed
    || status_eq t SwapStatus.refunding
    || status_eq t SwapStatus.refunded
may_advance SwapStatus.counter_locking t =
    status_eq t SwapStatus.counter_locking
    || status_eq t SwapStatus.main_locked
    || status_eq t SwapStatus.counter_locked
    || status_eq t SwapStatus.refunding
    || status_eq t SwapStatus.refunded
may_advance SwapStatus.counter_locked t =
    status_eq t SwapStatus.counter_locked
    || status_eq t SwapStatus.main_locked
    || status_eq t SwapStatus.counter_claimed
    || status_eq t SwapStatus.refunding
    || status_eq t SwapStatus.refunded
    || status_eq t SwapStatus.failed
may_advance SwapStatus.counter_claimed t =
    status_eq t SwapStatus.counter_claimed
    || status_eq t SwapStatus.main_claimed
    || status_eq t SwapStatus.refunding
    || status_eq t SwapStatus.failed
may_advance SwapStatus.main_claimed t = status_eq t SwapStatus.main_claimed
may_advance SwapStatus.refunding t =
    status_eq t SwapStatus.refunding
    || status_eq t SwapStatus.refunded
    || status_eq t SwapStatus.main_locked
    || status_eq t SwapStatus.counter_locking
    || status_eq t SwapStatus.counter_locked
    || status_eq t SwapStatus.counter_claimed
    || status_eq t SwapStatus.failed
may_advance SwapStatus.refunded t = status_eq t SwapStatus.refunded
may_advance SwapStatus.cancelled t = status_eq t SwapStatus.cancelled
may_advance SwapStatus.failed t =
    status_eq t SwapStatus.failed
    || status_eq t SwapStatus.refunding
    || status_eq t SwapStatus.refunded

-- The statuses that an order never leaves.
abbrev pub is_final : SwapStatus → Bool
is_final s =
    status_eq s SwapStatus.main_claimed
    || status_eq s SwapStatus.refunded
    || status_eq s SwapStatus.cancelled

-- One status after another, along the diagram.
pub data PathAlong : SwapStatus → SwapStatus → Type 0 where
  stay : (s : SwapStatus) → PathAlong s s
  step : {r s t : SwapStatus} → PathAlong r s → may_advance s t ≡ true → PathAlong r t

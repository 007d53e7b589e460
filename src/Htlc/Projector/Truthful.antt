-- ===== src/Htlc/Projector/Truthful.antt =====
-- The status line says no more than the evidence does.
use cantonbit.Shared.{arith, ◌||◌, ◌↔◌, ◌≡◌}
use cantonbit.Htlc.Order.{status_eq, SwapStatus, SwapOrder}
use cantonbit.Htlc.Projector.{true, htlc_visible_completed, Bool, Label, project_htlc_status}

abbrev pub is_ended : SwapStatus → Bool
is_ended s =
    status_eq s SwapStatus.refunded
    || status_eq s SwapStatus.cancelled
    || status_eq s SwapStatus.failed

-- The line reads "Completed" exactly when the order counts as complete; it is final exactly when the
-- order is complete, refunded, cancelled or failed; and it claims a finished proof exactly when it is
-- final.
pub project_htlc_status_lem :
    (o : SwapOrder)
    → (((project_htlc_status o).label ≡ Label.completed) ↔ (htlc_visible_completed o ≡ true))
      × ((project_htlc_status o).terminal ≡ (htlc_visible_completed o || is_ended o.status))
      × ((project_htlc_status o).proof_complete ≡ (project_htlc_status o).terminal)
unfolding project_htlc_status
project_htlc_status_lem o = ground arith

-- ===== src/C2c/Projector/Truthful.antt =====
-- The status line of a same-ledger order says no more than the evidence does.
use cantonbit.Shared.{◌≡◌, ◌↔◌, Bool, true, not, ◌&&◌, ◌||◌, arith, truthy}
use cantonbit.C2c.Order.{CantonSwapOrder, CantonSwapStatus, status_eq}
use cantonbit.C2c.Projector.{Label, c2c_visible_completed, project_c2c_status}

abbrev pub is_ended : CantonSwapStatus → Bool
is_ended s =
    status_eq s CantonSwapStatus.expired
    || status_eq s CantonSwapStatus.cancelled
    || status_eq s CantonSwapStatus.failed

abbrev pub awaits_accept : CantonSwapOrder → Bool
awaits_accept o = truthy o.counter_leg_offer_cid && not (truthy o.counter_receipt_update_id)

-- A same-ledger order reads "Completed" exactly when it is filled and has both a settlement update
-- and a receipt of the counter leg. It is final exactly when it is complete, or has ended with no
-- counter offer left to accept; and it claims a finished proof exactly when it is final.
pub project_c2c_status_lem :
    (o : CantonSwapOrder)
    → (((project_c2c_status o).label ≡ Label.completed) ↔ (
        (status_eq o.status CantonSwapStatus.filled
          && truthy o.settlement_update_id
          && truthy o.counter_receipt_update_id)
        ≡ true))
      × ((project_c2c_status o).terminal
          ≡ (c2c_visible_completed o || (not (awaits_accept o) && is_ended o.status)))
      × ((project_c2c_status o).proof_complete ≡ (project_c2c_status o).terminal)
unfolding project_c2c_status c2c_visible_completed
project_c2c_status_lem o = ground arith

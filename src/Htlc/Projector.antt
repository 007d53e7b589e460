-- ===== src/Htlc/Projector.antt =====
-- lib/swap-status-projector.ts: the status line that a user reads for a cross-chain order.
pub mod Truthful
use cantonbit.Shared.{Bool, true, false, not, ◌&&◌, truthy, if◌then◌else◌}
use cantonbit.Htlc.Order.{SwapStatus, SwapOrder}
use cantonbit.Htlc.Logic.{is_forward, is_loop}
use cantonbit.Htlc.Invariants.{htlc_visible_completed}

pub data Tone : Type 0 where
  success active waiting muted danger : Tone

pub data Label : Type 0 where
  completed finalizing accept_pending ready_to_claim in_progress confirming pending opened : Label
  refunding refunded cancelled failed settling expired : Label

pub record ProjectedSwapStatus : Type 0 where
  pub label : Label
  pub tone : Tone
  pub terminal : Bool
  pub proof_complete : Bool

abbrev pub running : Label → Tone → ProjectedSwapStatus
running l t = record { label = l; tone = t; terminal = false; proof_complete = false }

abbrev pub final : Label → Tone → ProjectedSwapStatus
final l t = record { label = l; tone = t; terminal = true; proof_complete = true }

abbrev pending_loop_accept : SwapOrder → Bool
pending_loop_accept o =
    is_forward o.direction
    && is_loop o.counter_mode
    && truthy o.counter_transfer_offer_cid
    && not (truthy o.counter_claim_update_id)

-- The `switch` on the status.
unfoldable pub project_by_status : SwapStatus → SwapOrder → ProjectedSwapStatus
project_by_status SwapStatus.main_claimed o = running Label.finalizing Tone.waiting
project_by_status SwapStatus.counter_claimed o =
    running (if pending_loop_accept o then Label.accept_pending else Label.finalizing) Tone.waiting
project_by_status SwapStatus.counter_locked o = running Label.ready_to_claim Tone.active
project_by_status SwapStatus.counter_locking o = running Label.in_progress Tone.active
project_by_status SwapStatus.main_locked o = running Label.in_progress Tone.active
project_by_status SwapStatus.main_locking o = running Label.confirming Tone.waiting
project_by_status SwapStatus.accepted o = running Label.pending Tone.muted
project_by_status SwapStatus.opened o = running Label.opened Tone.muted
project_by_status SwapStatus.refunding o = running Label.refunding Tone.waiting
project_by_status SwapStatus.refunded o = final Label.refunded Tone.muted
project_by_status SwapStatus.cancelled o = final Label.cancelled Tone.muted
project_by_status SwapStatus.failed o = final Label.failed Tone.danger

unfoldable pub project_htlc_status : SwapOrder → ProjectedSwapStatus
unfolding project_by_status
project_htlc_status o =
    if htlc_visible_completed o
    then final Label.completed Tone.success
    else project_by_status o.status o

-- ===== src/Htlc/Logic/Exclusive.antt =====
-- The readings of one claim transaction exclude one another, and the sweep's timing.
use cantonbit.Shared.{ℕ, ◌≤◌, ◌≡◌, refl, ◌⊎◌, true, false, none, arith}
use cantonbit.Htlc.Order.{SwapDirection, SwapOrder}
use cantonbit.Htlc.Logic.{
  SwapStatus, status_eq, false, truthy, claim_view, true, ℕ, none,
  is_refund_main_canton_status_eligible, is_reverse_main_expired_sweep_candidate, is_forward,
  is_loop, htlc_user_wbtc_claim_tx, htlc_reverse_solver_retake_tx,
}

-- An order whose WBTC the solver took back is never also shown as claimed by the user: at most one
-- of the two readings of the order is present.
pub retake_or_claim :
    (o : SwapOrder)
    → (htlc_reverse_solver_retake_tx o ≡ none) ⊎ (htlc_user_wbtc_claim_tx (claim_view o) ≡ none)
unfolding htlc_reverse_solver_retake_tx htlc_user_wbtc_claim_tx
retake_or_claim o = ground arith

reverse_of : (d : SwapDirection) → is_forward d ≡ false → d ≡ SwapDirection.canton_to_evm
reverse_of SwapDirection.evm_to_canton h = cc
reverse_of SwapDirection.canton_to_evm h = refl

-- A sweep candidate is a reverse order that is not one of Loop, with a Canton lock, past the user's timelock, whose
-- secret is not out; it stays one as time goes on; and if it has failed, a refund of its main leg
-- is still allowed.
pub sweep_candidate_lem :
    (o : SwapOrder) (now later : ℕ)
    → is_reverse_main_expired_sweep_candidate o now ≡ true
    → now ≤ later
    → (o.direction ≡ SwapDirection.canton_to_evm)
      × (is_loop o.counter_mode ≡ false)
      × (o.user_timelock ≤ now)
      × (truthy o.htlc_cid ≡ true)
      × (truthy o.revealed_preimage ≡ false)
      × (is_reverse_main_expired_sweep_candidate o later ≡ true)
      × ((status_eq o.status SwapStatus.failed ≡ false)
          ⊎ (is_refund_main_canton_status_eligible o ≡ true))
unfolding is_reverse_main_expired_sweep_candidate is_refund_main_canton_status_eligible
sweep_candidate_lem o now later h le = ground (arith, reverse_of o.direction)

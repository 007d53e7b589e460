-- ===== src/Htlc/Visibility/Drafts.antt =====
-- Unpaid drafts stay out of a user's history.
use cantonbit.Shared.{arith, ◌≡◌, ◌&&◌}
use cantonbit.Htlc.Order.{SwapOrder}
use cantonbit.Htlc.Logic.{is_abandoned_swap_draft}
use cantonbit.Htlc.Visibility.{
  false, htlc_order_has_user_payment_proof, htlc_order_needs_loop_recovery,
  htlc_order_visible_in_history,
}

-- An abandoned forward draft is not shown, and an order that asks for Loop recovery has no proof of
-- payment, so it is shown on no other ground.
pub drafts_hidden :
    (o : SwapOrder)
    → ((is_abandoned_swap_draft o && htlc_order_visible_in_history o) ≡ false)
      × ((htlc_order_needs_loop_recovery o && htlc_order_has_user_payment_proof o) ≡ false)
unfolding is_abandoned_swap_draft htlc_order_visible_in_history htlc_order_needs_loop_recovery
    htlc_order_has_user_payment_proof
drafts_hidden o = ground arith

-- ===== src/Examples/Cross.antt =====
-- Cross-chain orders.
use cantonbit.Shared.{
  ◌≤◌, ◌≡◌, refl, ◌↔◌, ◌⊎◌, Bool, true, false, not, ◌&&◌, ◌||◌, none, some, arith, ok, truthy,
}
use cantonbit.Htlc.Order.{SwapDirection, SwapStatus, status_eq}
use cantonbit.Htlc.Logic.{
  is_loop, is_refund_main_canton_status_eligible, htlc_reverse_solver_retake_tx,
  is_reverse_main_expired_sweep_candidate, claim_view, is_abandoned_swap_draft,
  htlc_user_wbtc_claim_tx, is_evm_tx_hash, is_forward,
}
use cantonbit.Htlc.Invariants.{htlc_visible_completed, htlc_can_expose_preimage_to_solver}
use cantonbit.Htlc.Invariants.Completion.{htlc_visible_completed_lem, expose_iff, both_legs_proved}
use cantonbit.Htlc.Create.{resolve_create_order}
use cantonbit.Htlc.Create.Terms.{SameTerms}
use cantonbit.Htlc.Create.Immutable.{resolve_existing_iff, resolve_replay}
use cantonbit.Htlc.Logic.Exclusive.{retake_or_claim, sweep_candidate_lem}
use cantonbit.Htlc.Projector.{project_htlc_status, Label}
use cantonbit.Htlc.Projector.Truthful.{project_htlc_status_lem, is_ended}
use cantonbit.Htlc.Visibility.{
  htlc_order_visible_in_history, htlc_order_needs_loop_recovery, htlc_order_has_user_payment_proof,
}
use cantonbit.Htlc.Visibility.Drafts.{drafts_hidden}
use cantonbit.Examples.Orders.{request, done, retaken}

done_completed : htlc_visible_completed done ≡ true
unfolding htlc_visible_completed
done_completed = refl

retaken_is_no_claim : htlc_user_wbtc_claim_tx (claim_view retaken) ≡ none
unfolding htlc_user_wbtc_claim_tx is_evm_tx_hash
retaken_is_no_claim = refl

htlc_visible_completed_example :
    htlc_visible_completed done
    ≡ (status_eq done.status SwapStatus.main_claimed && both_legs_proved done)
htlc_visible_completed_example = htlc_visible_completed_lem done

expose_example : (htlc_can_expose_preimage_to_solver done ≡ ok tt) ↔ (
    (truthy done.revealed_preimage ≡ true)
    × ((status_eq done.status SwapStatus.counter_claimed
          || status_eq done.status SwapStatus.main_claimed)
        ≡ true)
    × ((not (is_forward done.direction)
          || (truthy done.counter_claim_update_id
              && (not (is_loop done.counter_mode) || truthy done.counter_transfer_update_id)))
        ≡ true))
expose_example = expose_iff done

resolve_existing_example :
    (resolve_create_order (some done) request 7 ≡ ok (done, false)) ↔ SameTerms done request
resolve_existing_example = resolve_existing_iff done request 7

resolve_replay_example :
    (resolve_create_order (some (record request { created_at = 5 })) request 9
      ≡ ok (record request { created_at = 5 }, false))
    × (◌≡◌ {A = Bool} true true)
resolve_replay_example =
    resolve_replay request 5 9 {o = record request { created_at = 5 }} {is_new = true}
      (unfold resolve_create_order in refl)

retake_or_claim_example :
    (htlc_reverse_solver_retake_tx retaken ≡ none)
    ⊎ (htlc_user_wbtc_claim_tx (claim_view retaken) ≡ none)
retake_or_claim_example = retake_or_claim retaken

sweep_candidate_example :
    (retaken.direction ≡ SwapDirection.canton_to_evm)
    × (is_loop retaken.counter_mode ≡ false)
    × (retaken.user_timelock ≤ 20001)
    × (truthy retaken.htlc_cid ≡ true)
    × (truthy retaken.revealed_preimage ≡ false)
    × (is_reverse_main_expired_sweep_candidate retaken 30000 ≡ true)
    × ((status_eq retaken.status SwapStatus.failed ≡ false)
        ⊎ (is_refund_main_canton_status_eligible retaken ≡ true))
sweep_candidate_example =
    sweep_candidate_lem retaken 20001 30000 (unfold is_reverse_main_expired_sweep_candidate in refl)
      (omega arith)

project_htlc_status_example :
    (((project_htlc_status done).label ≡ Label.completed) ↔ (htlc_visible_completed done ≡ true))
    × ((project_htlc_status done).terminal ≡ (htlc_visible_completed done || is_ended done.status))
    × ((project_htlc_status done).proof_complete ≡ (project_htlc_status done).terminal)
project_htlc_status_example = project_htlc_status_lem done

drafts_hidden_example :
    ((is_abandoned_swap_draft request && htlc_order_visible_in_history request) ≡ false)
    × ((htlc_order_needs_loop_recovery request && htlc_order_has_user_payment_proof request)
        ≡ false)
drafts_hidden_example = drafts_hidden request

-- ===== src/Evidence/Results.antt =====
-- lib/canton-swap-leg-verify-logic.ts, buildLoopFillResultFromEvents: every result and every refusal.
use cantonbit.Shared.{
  ◌≡◌, refl, ◌⊎◌, inl, inr, Bool, true, false, Option, none, some, List, arith, Text, Result, ok,
  err, ◌∙◌, truthy, ap, sym,
}
use cantonbit.C2c.Order.{CantonSwapOrder}
use cantonbit.Evidence.Ledger.{InstrumentId, Node}
use cantonbit.Evidence.Delivery.{
  is_counter_instrument, extract_counter_offer_cid_from_events,
  counter_leg_delivered_to_user_in_events,
}
use cantonbit.Evidence.Created.{Among, Offers}
use cantonbit.Evidence.Sender.{PaidBy, delivery_is_paid}
use cantonbit.Evidence.Filled.{hits_in_sound, hits_in-finds}
use cantonbit.Evidence.Outcome.{
  LoopFillResult, FillError, counter_leg, outcome_of, build_loop_fill_result_from_events,
}

outcome_of-cases :
    (update_id kind : Text) (delivered : Bool) (offer : Option Text) (r : LoopFillResult)
    → outcome_of update_id kind delivered offer ≡ ok r
    → ((r.counter_leg_pending_accept ≡ false)
        × (r.counter_leg_offer_cid ≡ none)
        × (delivered ≡ true))
      ⊎ ((r.counter_leg_pending_accept ≡ true)
          × (r.counter_leg_offer_cid ≡ offer)
          × (truthy offer ≡ true))
outcome_of-cases update_id kind true offer r h =
    let same = ap result_of h in
    inl (
      ap (λ (x : LoopFillResult). x.counter_leg_pending_accept) (sym same),
      ap (λ (x : LoopFillResult). x.counter_leg_offer_cid) (sym same),
      refl,
    )
  where
    result_of : Result FillError LoopFillResult → LoopFillResult
    result_of (ok x) = x
    result_of (err _) = r
outcome_of-cases update_id kind false offer r h = ground arith

outcome_of-ok :
    (update_id kind : Text) (delivered : Bool) (offer : Option Text)
    → truthy offer ≡ true
    → (r : LoopFillResult) × (outcome_of update_id kind delivered offer ≡ ok r)
outcome_of-ok update_id kind true offer h = (_, refl)
outcome_of-ok update_id kind false offer h = (
  record {
    update_id = update_id;
    counter_leg_offer_cid = offer;
    counter_leg_pending_accept = true;
  },
  ground (arith, h),
)

some_of_truthy : (o : Option Text) → truthy o ≡ true → (cid : Text) × (o ≡ some cid)
some_of_truthy none h = cc
some_of_truthy (some cid) h = (cid, refl)

-- A fill's result is one of two. No acceptance is pending and no offer is named: then the transaction
-- shows the swap's party paying the counter leg to the user. Or an acceptance is pending: then the
-- offer named is a transfer instruction that the transaction creates, from the swap's party to the
-- user, of the promised amount in base units, of the instrument where one is shown, and under the
-- wanted memo or one that names no order. A transaction that creates such an offer always gives a
-- result.
pub fill_result_lem :
    (o : CantonSwapOrder) (update_id : Text) (nodes : List Node) (kind : Text)
    (wanted : InstrumentId) (memo : Option Text)
    → ((r : LoopFillResult)
        → build_loop_fill_result_from_events o update_id nodes kind wanted memo ≡ ok r
        → ((r.counter_leg_pending_accept ≡ false)
            × (r.counter_leg_offer_cid ≡ none)
            × Among (PaidBy (counter_leg o memo)) nodes)
          ⊎ ((r.counter_leg_pending_accept ≡ true)
              × ((cid : Text) × (r.counter_leg_offer_cid ≡ some cid)
                  × Among
                      (Offers (counter_leg o memo) (is_counter_instrument (some wanted)) cid)
                      nodes)))
      × ((cid : Text)
          → Among (Offers (counter_leg o memo) (is_counter_instrument (some wanted)) cid) nodes
          → (r : LoopFillResult) × (build_loop_fill_result_from_events o update_id nodes kind wanted
                memo
              ≡ ok r))
unfolding build_loop_fill_result_from_events extract_counter_offer_cid_from_events
fill_result_lem o update_id nodes kind wanted memo =
    let leg = counter_leg o memo in
    let offer = extract_counter_offer_cid_from_events (some nodes) leg (some wanted) in
    let delivered = counter_leg_delivered_to_user_in_events (some nodes) leg wanted in
    (
      (λ r built. elim (outcome_of-cases update_id kind delivered offer r built) [
        | inl (settled, unnamed, paid) ↦
            inl (settled, unnamed, delivery_is_paid leg wanted nodes paid)
        | inr (waits, named, found) ↦
            let (cid, shown) = some_of_truthy offer found in
            inr (waits, (cid, named ∙ shown, hits_in_sound leg (some wanted) nodes cid shown))
      ]),
      λ cid among.
          outcome_of-ok update_id kind delivered offer
            (hits_in-finds leg (some wanted) nodes cid among),
    )

-- ===== src/C2c/Service/Receipt.antt =====
-- lib/canton-swap-settle.ts, `verifyCounterLegReceiptProof`: whether the user has taken the counter
-- leg; and lib/swap-settlement-messages.ts, the messages that an order stores.
use cantonbit.Shared.{
  text_eq, ℕ, zero, suc, not, ◌&&◌, ◌||◌, Option, none, some, [], ◌∷◌, Text, Result, ok, err, leb,
  if◌then◌else◌, codes, truthy, includes, to_lower, trim, length,
}
use cantonbit.C2c.Order.{CantonSwapOrder}
use cantonbit.C2c.Logic.{is_pending_counter_accept}

pub data Proof : Type 0 where
  received : Text → Proof
  pending not_received unknown : Proof

-- One look at the ledger: the offer is still there; it was taken in an update; neither is seen.
pub data Reading : Type 0 where
  still_offered unseen : Reading
  taken : Text → Reading

abbrev pub after_reading : Result Text Proof → Result Text Reading → Result Text Proof
after_reading later (err msg) = err msg
after_reading later (ok Reading.still_offered) = ok Proof.pending
after_reading later (ok (Reading.taken update_id)) = ok (Proof.received update_id)
after_reading later (ok Reading.unseen) = later

-- The loop of looks, by the number that is left.
unfoldable pub poll : ℕ → (ℕ → Result Text Reading) → Result Text Proof
poll zero readings = ok Proof.not_received
poll (suc left) readings = after_reading (poll left readings) (readings left)

abbrev proof_of_open :
    CantonSwapOrder → ℕ → (ℕ → Result Text Reading) → Option ℕ → Result Text Proof
proof_of_open o max_attempts readings none = ok Proof.unknown
proof_of_open o max_attempts readings (some offset) = poll max_attempts readings

abbrev proof_of : CantonSwapOrder → ℕ → (ℕ → Result Text Reading) → Option Text → Result Text Proof
proof_of o max_attempts readings (some (c ∷ id)) = ok (Proof.received (c ∷ id))
proof_of o max_attempts readings _ =
    if not (is_pending_counter_accept o) || not (truthy o.counter_leg_offer_cid)
    then ok Proof.not_received
    else proof_of_open o max_attempts readings o.counter_leg_created_offset

unfoldable pub verify_counter_leg_receipt_proof :
    CantonSwapOrder → ℕ → (ℕ → Result Text Reading) → Result Text Proof
unfolding poll
verify_counter_leg_receipt_proof o max_attempts readings =
    if not (truthy o.settlement_update_id)
    then ok Proof.not_received
    else proof_of o max_attempts readings o.counter_receipt_update_id

-- The text of an error that a user is shown.
unfoldable pub format_settlement_error : Text → Text
format_settlement_error raw =
    let m = to_lower raw in
    if text_eq (trim raw) []
    then codes
        "Settlement temporarily unavailable. Your funds are safe — we'll retry automatically."
    else if includes (codes "transferfactory") m
        || includes (codes "scan nodes") m
        || includes (codes "failed to reach consensus") m
        || includes (codes "registry call failed (502") m
    then codes
        "Canton registry is temporarily unavailable. Your locked funds are safe — we're retrying automatically. Check Orders for status."
    else if includes (codes "network fee not collected") m
    then codes
        "The Canton network fee was not collected in the settlement transaction. Refresh the quote and try again."
    else if includes (codes "insufficient cc") m && includes (codes "network fee") m
    then trim raw
    else if leb (length raw) 160 && not (includes (codes "::") raw)
    then trim raw
    else codes
        "Something went wrong during settlement. Your funds are safe — check Orders or try again shortly."

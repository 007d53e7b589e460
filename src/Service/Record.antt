-- ===== src/Service/Record.antt =====
-- lib/htlc-service-singleton.ts: the records of claims and of Loop deliveries that were made elsewhere.
use cantonbit.Service.Preimage.{normalized, preimage_matches}
use cantonbit.Service.Claim.{is_managed}
use cantonbit.Shared.{
  to_lower, is_ok, opt_text_eq, trim, truthy, ℕ, zero, suc, Bool, not, ◌&&◌, ◌||◌, Option, none,
  some, List, Text, Result, ok, err, if◌then◌else◌,
}
use cantonbit.Htlc.Order.{SwapOrder, SwapStatus, status_eq}
use cantonbit.Htlc.Logic.{is_forward, is_loop, is_evm_tx_hash}
use cantonbit.Htlc.Invariants.{htlc_can_expose_preimage_to_solver, Refusal}
use cantonbit.Htlc.Visibility.{lower_opt}
use cantonbit.Service.Store.{kept}
use cantonbit.Service.Call.{Call, ServiceError, test◌then◌else◌, must, put_or_fresh, put_then}

-- `verified`: the transaction claims the WBTC of the order.
abbrev pub exposed : Bool → Text → SwapOrder → Result Refusal (Unit {0}) → Call
exposed verified tx o (err _) = Call.throw ServiceError.not_exposable
exposed verified tx o (ok _) =
    test not verified
    then Call.throw ServiceError.unverified
    else put_or_fresh (record o { status = SwapStatus.main_claimed; main_claim_tx = some tx })
        SwapStatus.counter_claimed

unfoldable pub record_main_claim : Bool → Text → Text → Call
unfolding htlc_can_expose_preimage_to_solver
record_main_claim verified id tx = must id (λ o.
    test not (is_forward o.direction)
    then Call.throw ServiceError.wrong_direction
    else test not (status_eq o.status SwapStatus.counter_claimed)
    then Call.throw ServiceError.bad_status
    else exposed verified tx o (htlc_can_expose_preimage_to_solver o))

-- What the ledger shows of a Loop delivery: it reached the user; or the given update consumes its
-- offer; or neither.
pub data Delivery : Type 0 where
  delivered consumed unproven : Delivery

abbrev pub loop_delivery : SwapOrder → Text → Delivery → Call
loop_delivery o claim_ref Delivery.delivered =
    put_or_fresh
      (record o {
        counter_claim_update_id = o.counter_transfer_update_id;
        counter_transfer_offer_cid =
            if truthy o.counter_transfer_offer_cid then none else o.counter_transfer_offer_cid;
      })
      SwapStatus.counter_claimed
loop_delivery o claim_ref Delivery.consumed =
    test truthy o.counter_transfer_offer_cid
    then put_or_fresh (record o { counter_claim_update_id = some claim_ref })
        SwapStatus.counter_claimed
    else Call.throw ServiceError.unverified
loop_delivery o claim_ref Delivery.unproven = Call.throw ServiceError.unverified

abbrev pub claimed_again : SwapOrder → Text → Delivery → Call
claimed_again o claim_ref delivery =
    test is_forward o.direction && is_loop o.counter_mode
    then (test truthy o.counter_claim_update_id
        then Call.done o
        else test not (truthy o.counter_transfer_update_id)
        then Call.throw ServiceError.evidence_missing
        else loop_delivery o claim_ref delivery)
    else Call.done o

-- The first record of a claim: the reference is the user's WBTC claim on a reverse order.
abbrev pub claim_recorded : SwapOrder → Text → Text → SwapOrder
claim_recorded o preimage_hex claim_ref = record o {
  revealed_preimage = some (normalized preimage_hex);
  main_claim_tx =
      if not (is_forward o.direction) && is_evm_tx_hash (some claim_ref)
      then some claim_ref
      else o.main_claim_tx;
  counter_claim_update_id =
      if not (is_forward o.direction) && is_evm_tx_hash (some claim_ref)
      then o.counter_claim_update_id
      else some claim_ref;
  status = SwapStatus.counter_claimed;
}

-- A reverse order that the solver has settled already.
abbrev pub settled_before : Bool → Text → SwapOrder → Call
settled_before claim_verified claim_ref o =
    test not (is_evm_tx_hash (some claim_ref))
    then Call.done o
    else test truthy o.main_claim_tx
    then (test opt_text_eq (lower_opt o.main_claim_tx) (some (to_lower claim_ref))
        then Call.done o
        else Call.throw ServiceError.terms_differ)
    else test not claim_verified
    then Call.throw ServiceError.unverified
    else put_then (record o { main_claim_tx = some claim_ref }) SwapStatus.main_claimed
        (λ b. test b then Call.done (record o { main_claim_tx = some claim_ref }) else Call.done o)

-- `claimed`: the chain shows that the WBTC is claimed; `claim_verified`: by this transaction.
unfoldable pub record_counter_claimed :
    (List ℕ → List ℕ) → Bool → Bool → Bool → Delivery → Text → Text → Text → Call
unfolding preimage_matches
record_counter_claimed keccak lock_verified claimed claim_verified delivery id preimage_hex
      update_id =
    let claim_ref = trim update_id in
    must id (λ o.
      test is_forward o.direction && is_managed o.counter_mode
      then Call.throw ServiceError.wrong_mode
      else test not (preimage_matches keccak preimage_hex o.hash_lock)
      then Call.throw ServiceError.invalid_preimage
      else test not (is_forward o.direction) && status_eq o.status SwapStatus.main_claimed
      then settled_before claim_verified claim_ref o
      else test not (is_forward o.direction)
          && status_eq o.status SwapStatus.counter_claimed
          && is_evm_tx_hash (some claim_ref)
          && opt_text_eq (lower_opt o.main_claim_tx) (some (to_lower claim_ref))
      then Call.done o
      else test not (status_eq o.status SwapStatus.counter_locked)
          && not (status_eq o.status SwapStatus.counter_claimed)
      then Call.throw ServiceError.bad_status
      else test is_forward o.direction && not lock_verified
      then Call.throw ServiceError.unverified
      else test status_eq o.status SwapStatus.counter_claimed
      then claimed_again o claim_ref delivery
      else test not (is_forward o.direction)
          && (not claimed || (is_evm_tx_hash (some claim_ref) && not claim_verified))
      then Call.throw ServiceError.unverified
      else put_or_fresh (claim_recorded o preimage_hex claim_ref) SwapStatus.counter_locked)

-- The claim of the counter leg that the chain shows, for a forward order whose claim is recorded: the
-- lock is read, and if it is empty a claim of it is looked for and verified.
unfoldable pub reconcile_forward_evm_main_claim : Bool → Option Text → Bool → SwapOrder → Call
unfolding htlc_can_expose_preimage_to_solver
reconcile_forward_evm_main_claim lock_empty claim_tx verified o =
    test not (is_forward o.direction) || not (status_eq o.status SwapStatus.counter_claimed)
    then Call.done o
    else test truthy o.main_claim_tx
    then put_or_fresh (record o { status = SwapStatus.main_claimed }) SwapStatus.counter_claimed
    else test not (is_ok (htlc_can_expose_preimage_to_solver o))
    then Call.done o
    else test not lock_empty || not (truthy claim_tx) || not verified
    then Call.done o
    else put_or_fresh (record o { status = SwapStatus.main_claimed; main_claim_tx = claim_tx })
        SwapStatus.counter_claimed

-- What is written of a delivery: the update, and its proof or its offer.
abbrev pub with_delivery : SwapOrder → Text → Option Text → Bool → SwapOrder
with_delivery o update_id offer direct = record o {
  counter_transfer_update_id = kept o.counter_transfer_update_id (some update_id);
  counter_claim_update_id =
      if direct then kept o.counter_claim_update_id (some update_id) else o.counter_claim_update_id;
  counter_transfer_offer_cid =
      if direct
      then none
      else if truthy offer
      then kept o.counter_transfer_offer_cid offer
      else o.counter_transfer_offer_cid;
}

-- The loop of attempts, with the read after the last.
unfoldable pub delivery_attempts : ℕ → Text → Text → Option Text → Bool → Call
delivery_attempts zero id update_id offer direct = must id (λ o.
    test opt_text_eq o.counter_transfer_update_id (some update_id)
    then Call.done o
    else Call.throw ServiceError.bad_status)
delivery_attempts (suc left) id update_id offer direct =
    let rest = delivery_attempts left id update_id offer direct in
    must id (λ fresh.
      test not (status_eq fresh.status SwapStatus.counter_claimed)
        && not (status_eq fresh.status SwapStatus.main_claimed)
      then Call.throw ServiceError.bad_status
      else test truthy fresh.counter_transfer_update_id
          && not (opt_text_eq fresh.counter_transfer_update_id (some update_id))
      then Call.throw ServiceError.terms_differ
      else test truthy offer
          && truthy fresh.counter_transfer_offer_cid
          && not (opt_text_eq fresh.counter_transfer_offer_cid offer)
      then Call.throw ServiceError.terms_differ
      else put_then (with_delivery fresh update_id offer direct) fresh.status
          (λ b. test b then Call.done (with_delivery fresh update_id offer direct) else rest))

unfoldable pub persist_loop_counter_delivery_evidence : Text → Text → Option Text → Bool → Call
unfolding delivery_attempts
persist_loop_counter_delivery_evidence id update_id offer direct =
    delivery_attempts 3 id update_id offer direct

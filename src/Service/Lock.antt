-- ===== src/Service/Lock.antt =====
-- lib/htlc-service-singleton.ts: the operations up to the lock of the main leg.
use cantonbit.Shared.{
  ℕ, zero, suc, Bool, false, not, ◌&&◌, ◌||◌, Option, some, List, Text, Result, ok, err,
  if◌then◌else◌, to_lower, opt_text_eq, truthy,
}
use cantonbit.Htlc.Order.{SwapOrder, SwapStatus, status_eq}
use cantonbit.Htlc.Logic.{is_forward, is_loop, is_evm_tx_hash}
use cantonbit.Htlc.Create.{CreateError, resolve_create_order}
use cantonbit.Htlc.Visibility.{lower_opt}
use cantonbit.Service.Store.{Reservation, Answer}
use cantonbit.Service.Call.{Call, ServiceError, test◌then◌else◌, must, put_or_fresh, put_then}

-- `createOrder`: `intake` is whether swaps of the chain are taken; the two clocks are those of the
-- two calls of `resolveCreateOrder`.
abbrev pub winner_result : Result CreateError (SwapOrder × Bool) → Call
winner_result (err _) = Call.throw ServiceError.terms_differ
winner_result (ok (order, _)) = Call.done order

abbrev pub winner_of : SwapOrder → ℕ → Option SwapOrder → Call
winner_of incoming later winner = winner_result (resolve_create_order winner incoming later)

abbrev pub create_result : SwapOrder → ℕ → Result CreateError (SwapOrder × Bool) → Call
create_result incoming later (err _) = Call.throw ServiceError.terms_differ
create_result incoming later (ok (order, is_new)) =
    test is_new
    then Call.add order (λ added.
      test added then Call.done order else Call.read incoming.id (winner_of incoming later))
    else Call.done order

abbrev pub create_over : SwapOrder → ℕ → ℕ → Option SwapOrder → Call
create_over incoming now later existing =
    create_result incoming later (resolve_create_order existing incoming now)

unfoldable pub create_order : Bool → SwapOrder → ℕ → ℕ → Call
create_order intake incoming now later =
    test intake
    then Call.read incoming.id (create_over incoming now later)
    else Call.throw ServiceError.wrong_mode

-- The end of the loop of attempts in `accept`.
abbrev pub accept_answer : SwapOrder → Answer → Call
accept_answer o Answer.reserved = must o.id Call.done
accept_answer o (Answer.refused s) =
    test status_eq s SwapStatus.accepted
    then must o.id Call.done
    else Call.throw ServiceError.bad_status
accept_answer o Answer.insufficient = Call.throw ServiceError.not_reserved
accept_answer o Answer.not_found = Call.throw ServiceError.bad_status
accept_answer o Answer.unbound_chain = Call.throw ServiceError.bad_status

-- What an attempt does on an answer: only too low a balance leads to the attempts that are left.
abbrev pub accept_again : Call → SwapOrder → Answer → Call
accept_again attempts o Answer.insufficient = attempts
accept_again attempts o Answer.reserved = accept_answer o Answer.reserved
accept_again attempts o (Answer.refused s) = accept_answer o (Answer.refused s)
accept_again attempts o Answer.not_found = accept_answer o Answer.not_found
accept_again attempts o Answer.unbound_chain = accept_answer o Answer.unbound_chain

-- The loop of attempts. `enough n` is the comparison of the procedure when `n` attempts are left.
unfoldable pub accept_attempts : ℕ → (ℕ → Bool) → SwapOrder → Call
accept_attempts zero enough o =
    Call.book Reservation.accept_forward (enough 0) o.id (accept_answer o)
accept_attempts (suc left) enough o =
    Call.book Reservation.accept_forward (enough (suc left)) o.id
      (accept_again (accept_attempts left enough o) o)

-- The reverse half: custody holdings that are there already are noted for Loop.
abbrev pub accepted_with : List Text → SwapOrder → SwapOrder
accepted_with baseline o = record o {
  status = SwapStatus.accepted;
  solver_custody_baseline_cids =
      if is_loop o.counter_mode then some baseline else o.solver_custody_baseline_cids;
}

abbrev pub accept_reverse : List Text → SwapOrder → Call
accept_reverse baseline o = put_then (accepted_with baseline o) SwapStatus.opened (λ b.
    test b
    then must o.id Call.done
    else must o.id (λ fresh.
      test status_eq fresh.status SwapStatus.accepted
      then Call.done fresh
      else Call.throw ServiceError.bad_status))

unfoldable pub accept : (ℕ → Bool) → List Text → Text → Call
unfolding accept_attempts
accept enough baseline id = must id (λ o.
    test status_eq o.status SwapStatus.accepted
    then must id Call.done
    else test not (status_eq o.status SwapStatus.opened)
    then Call.throw ServiceError.bad_status
    else test is_forward o.direction
    then accept_attempts 2 enough o
    else accept_reverse baseline o)

-- `live_offer`: the custody offer is still pending on the ledger.
unfoldable pub release_reverse_prelock_without_custody : Bool → Text → Call
release_reverse_prelock_without_custody live_offer id = must id (λ o.
    test not (status_eq o.status SwapStatus.main_locking)
    then Call.done o
    else test truthy o.counter_transfer_offer_cid
        || truthy o.counter_transfer_update_id
        || truthy o.allocation_cid
        || truthy o.htlc_cid
    then Call.throw ServiceError.evidence_linked
    else test live_offer
    then Call.throw ServiceError.evidence_linked
    else put_or_fresh (record o { status = SwapStatus.failed; evm_float_reserved = some false })
        SwapStatus.main_locking)

unfoldable pub cancel : Text → Call
cancel id = must id (λ o.
    test not (status_eq o.status SwapStatus.opened) && not (status_eq o.status SwapStatus.accepted)
    then Call.throw ServiceError.bad_status
    else let o' = record o { status = SwapStatus.cancelled } in
      put_then o' o.status (λ b.
        test b
        then Call.done o'
        else must id (λ fresh.
          test status_eq fresh.status SwapStatus.cancelled
          then Call.done fresh
          else Call.throw ServiceError.bad_status)))

-- `verified`: the transaction is final and the escrow holds the lock that the order expects.
abbrev pub lock_verified : Bool → Text → SwapOrder → Call
lock_verified verified tx o =
    test verified
    then put_or_fresh (record o { status = SwapStatus.main_locked; main_lock_tx = some tx })
        SwapStatus.main_locking
    else put_then (record o { status = SwapStatus.accepted }) SwapStatus.main_locking
        (λ _. Call.throw ServiceError.unverified)

abbrev pub lock_race : Text → SwapOrder → Call
lock_race tx fresh =
    test not (truthy fresh.main_lock_tx) && status_eq fresh.status SwapStatus.main_locking
    then Call.done fresh
    else test opt_text_eq (lower_opt fresh.main_lock_tx) (some (to_lower tx))
    then Call.done fresh
    else Call.throw ServiceError.bad_status

unfoldable pub record_main_lock : Bool → Text → Text → Call
record_main_lock verified id tx = must id (λ o.
    test not (is_evm_tx_hash (some tx))
    then Call.throw ServiceError.invalid_hash
    else test truthy o.main_lock_tx
    then (test opt_text_eq (lower_opt o.main_lock_tx) (some (to_lower tx))
        then Call.done o
        else Call.throw ServiceError.terms_differ)
    else test not (status_eq o.status SwapStatus.accepted)
        && not (status_eq o.status SwapStatus.main_locking)
    then Call.throw ServiceError.bad_status
    else test not (is_forward o.direction)
    then Call.throw ServiceError.wrong_direction
    else test status_eq o.status SwapStatus.accepted
    then (let o' = record o { status = SwapStatus.main_locking } in
        put_then o' SwapStatus.accepted
          (λ b. test b then lock_verified verified tx o' else must id (lock_race tx)))
    else lock_verified verified tx o)

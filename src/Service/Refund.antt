-- ===== src/Service/Refund.antt =====
-- lib/htlc-service-singleton.ts: refunds, retakes and the end of abandoned orders.
use cantonbit.Shared.{
  ℕ, ◌+◌, Bool, true, false, not, ◌&&◌, ◌||◌, some, Text, ltb, leb, if◌then◌else◌, or_else, truthy,
}
use cantonbit.Htlc.Order.{SwapOrder, SwapStatus, status_eq}
use cantonbit.Htlc.Logic.{is_forward, is_loop, is_refund_main_canton_status_eligible}
use cantonbit.Service.Call.{Call, ServiceError, test◌then◌else◌, must, put_or_fresh, put_then}

-- How the return of the funds on the ledger ends: with its update, with an update that cannot be
-- found, or with an error.
pub data LedgerRefund : Type 0 where
  returned : Text → LedgerRefund
  lost failed : LedgerRefund

-- The part after the order is marked `refunding`. `previous` is where an error rolls it back to.
abbrev pub finish_refund : SwapOrder → SwapStatus → LedgerRefund → Call
finish_refund o previous (LedgerRefund.returned update_id) =
    put_or_fresh
      (record o { status = SwapStatus.refunded; counter_claim_update_id = some update_id })
      SwapStatus.refunding
finish_refund o previous LedgerRefund.lost = Call.throw ServiceError.ledger_failed
finish_refund o previous LedgerRefund.failed =
    Call.put (record o { status = previous }) SwapStatus.refunding
      (λ _. Call.throw ServiceError.ledger_failed)

-- `assertEvmCounterNotClaimed` returns. `unclaimed`: the lock on the chain is empty, and no claim of
-- it is found.
unfoldable pub evm_counter_not_claimed : Bool → SwapOrder → Bool
evm_counter_not_claimed unclaimed o =
    if is_forward o.direction
    then true
    else if status_eq o.status SwapStatus.main_claimed
        || (status_eq o.status SwapStatus.counter_claimed && truthy o.revealed_preimage)
    then false
    else unclaimed

unfoldable pub refund_counter : Bool → ℕ → LedgerRefund → Text → Call
unfolding evm_counter_not_claimed
refund_counter unclaimed now ledger id = must id (λ o.
    test not (status_eq o.status SwapStatus.counter_locked)
      && not (status_eq o.status SwapStatus.refunding)
    then Call.throw ServiceError.bad_status
    else test not (truthy o.htlc_cid) || not (truthy o.allocation_cid)
    then Call.throw ServiceError.evidence_missing
    else test truthy o.revealed_preimage
    then Call.throw ServiceError.preimage_out
    else test not (evm_counter_not_claimed unclaimed o)
    then Call.throw ServiceError.preimage_out
    else test ltb now o.solver_timelock
    then Call.throw ServiceError.too_early
    else put_then (record o { status = SwapStatus.refunding }) o.status
        (λ b.
          test b
          then finish_refund (record o { status = SwapStatus.refunding }) SwapStatus.counter_locked
              ledger
          else must id Call.done))

abbrev pub main_refunding : SwapOrder → SwapOrder
main_refunding o = record o { status = SwapStatus.refunding; evm_float_reserved = some false }

-- Without the evidence of what is to return, the call fails before it reaches the ledger.
abbrev pub main_refund_result : SwapOrder → LedgerRefund → LedgerRefund
main_refund_result o ledger =
    if is_loop o.counter_mode
    then (if truthy o.counter_transfer_update_id then ledger else LedgerRefund.failed)
    else if truthy o.htlc_cid && truthy o.allocation_cid
    then ledger
    else LedgerRefund.failed

unfoldable pub refund_main_canton : Bool → ℕ → LedgerRefund → Text → Call
unfolding is_refund_main_canton_status_eligible evm_counter_not_claimed
refund_main_canton unclaimed now ledger id = must id (λ o.
    test is_forward o.direction
    then Call.throw ServiceError.wrong_direction
    else test not (is_refund_main_canton_status_eligible o)
    then Call.throw ServiceError.bad_status
    else test ltb now o.user_timelock
    then Call.throw ServiceError.too_early
    else test truthy o.revealed_preimage
    then Call.throw ServiceError.preimage_out
    else test not (evm_counter_not_claimed unclaimed o)
    then Call.throw ServiceError.preimage_out
    else put_then (main_refunding o) o.status (λ b.
      test b
      then finish_refund (main_refunding o) o.status (main_refund_result o ledger)
      else must id Call.done))

-- `lock_empty`: no WBTC is locked under the hash on the chain.
unfoldable pub early_refund_loop_custody : Bool → LedgerRefund → Text → Call
early_refund_loop_custody lock_empty ledger id = must id (λ o.
    test is_forward o.direction || not (is_loop o.counter_mode)
    then Call.throw ServiceError.wrong_mode
    else test not (status_eq o.status SwapStatus.main_locked)
        && not (status_eq o.status SwapStatus.refunding)
    then Call.throw ServiceError.bad_status
    else test truthy o.revealed_preimage
    then Call.throw ServiceError.preimage_out
    else test not (truthy o.counter_transfer_update_id)
    then Call.throw ServiceError.evidence_missing
    else test not lock_empty
    then Call.throw ServiceError.unverified
    else put_then (record o { status = SwapStatus.refunding }) o.status
        (λ b.
          test b
          then finish_refund (record o { status = SwapStatus.refunding }) o.status ledger
          else must id Call.done))

-- `verified`: the transaction retakes the lock of the order.
unfoldable pub record_counter_retake : Bool → Bool → ℕ → LedgerRefund → Text → Text → Call
unfolding refund_main_canton
record_counter_retake verified unclaimed now ledger id retake_tx = must id (λ o.
    test is_forward o.direction
    then Call.throw ServiceError.wrong_direction
    else test truthy o.revealed_preimage
    then Call.throw ServiceError.preimage_out
    else test not (status_eq o.status SwapStatus.counter_locked)
    then Call.throw ServiceError.bad_status
    else test not verified
    then Call.throw ServiceError.unverified
    else let retaken : SwapOrder = record o {
      main_claim_tx = some retake_tx;
      evm_float_reserved = some false;
    } in
      put_then retaken o.status (λ b.
        test not b
        then must id Call.done
        else test leb o.user_timelock now
        then refund_main_canton unclaimed now ledger id
        else put_or_fresh (record retaken { status = SwapStatus.failed }) o.status))

unfoldable pub record_main_retake : Bool → Bool → ℕ → LedgerRefund → Text → Text → Call
unfolding refund_counter
record_main_retake verified unclaimed now ledger id retake_tx = must id (λ o.
    test not (is_forward o.direction)
    then Call.throw ServiceError.wrong_direction
    else test status_eq o.status SwapStatus.main_claimed
        || status_eq o.status SwapStatus.refunded
        || status_eq o.status SwapStatus.cancelled
    then Call.throw ServiceError.bad_status
    else test not verified
    then Call.throw ServiceError.unverified
    else test status_eq o.status SwapStatus.counter_locked
        && truthy o.htlc_cid
        && truthy o.allocation_cid
    then put_then (record o { main_claim_tx = some retake_tx }) SwapStatus.counter_locked
        (λ b. test not b then must id Call.done else refund_counter unclaimed now ledger id)
    else put_or_fresh
        (record o {
          main_claim_tx = some retake_tx;
          status =
              if status_eq o.status SwapStatus.counter_claimed
              then SwapStatus.failed
              else SwapStatus.refunded;
        })
        o.status)

unfoldable pub mark_refunded : Text → Call
mark_refunded id = must id (λ o.
    test not (status_eq o.status SwapStatus.main_locked)
      && not (status_eq o.status SwapStatus.counter_locked)
    then Call.throw ServiceError.bad_status
    else put_or_fresh (record o { status = SwapStatus.refunded; evm_float_reserved = some false })
        o.status)

-- What the chain shows of the lock of a stale accepted order.
pub data StaleLock : Type 0 where
  unread absent present present_unverified : StaleLock

abbrev pub stale_cancelled : SwapOrder → Call
stale_cancelled o = put_or_fresh (record o { status = SwapStatus.cancelled }) SwapStatus.accepted

abbrev pub stale_forward : SwapOrder → StaleLock → Call
stale_forward o StaleLock.unread = Call.throw ServiceError.unverified
stale_forward o StaleLock.absent = stale_cancelled o
stale_forward o StaleLock.present =
    put_or_fresh (record o { status = SwapStatus.main_locked }) SwapStatus.accepted
stale_forward o StaleLock.present_unverified = Call.throw ServiceError.unverified

-- `o.updatedAt ?? o.createdAt`, and the grace period `ttl` of a draft.
unfoldable pub expire_abandoned_accepted : StaleLock → ℕ → ℕ → Text → Call
expire_abandoned_accepted lock ttl now id = must id (λ o.
    test not (status_eq o.status SwapStatus.accepted)
    then Call.done o
    else test ltb now (or_else o.updated_at o.created_at + ttl)
    then Call.throw ServiceError.too_early
    else test is_forward o.direction
    then stale_forward o lock
    else stale_cancelled o)

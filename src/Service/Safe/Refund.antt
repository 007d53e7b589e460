-- ===== src/Service/Safe/Refund.antt =====
-- Refunds, retakes and the end of abandoned orders keep to the secret and to the diagram.
use cantonbit.Service.Refund.{
  LedgerRefund, finish_refund, refund_counter, main_refunding, main_refund_result,
  refund_main_canton, early_refund_loop_custody, record_counter_retake, record_main_retake,
  mark_refunded, StaleLock, stale_forward, expire_abandoned_accepted,
}
use cantonbit.Shared.{ℕ, ◌≡◌, refl, Bool, true, false, not, some, arith, Text}
use cantonbit.Htlc.Order.{SwapOrder, SwapStatus}
use cantonbit.Htlc.Logic.{is_refund_main_canton_status_eligible}
use cantonbit.Service.Diagram.{may_advance}
use cantonbit.Service.Safe.{
  Safe, respects_secret, Terms, SameOrder, Safe-test, Safe-must, Safe-fresh, Safe-put_or_fresh,
  Safe-put_then,
}

-- From a status that a refund of the main leg starts in, `refunding` and back is on the diagram.
eligible_advance :
    (o : SwapOrder)
    → not (is_refund_main_canton_status_eligible o) ≡ false
    → (may_advance o.status SwapStatus.refunding ≡ true)
      × (may_advance SwapStatus.refunding o.status ≡ true)
unfolding is_refund_main_canton_status_eligible
eligible_advance o e = ground arith

module _ {t : Text → Terms} {id : Text} where
  -- The order that an error rolls back was respecting its secret before.
  finish_refund-Safe :
      (o : SwapOrder) (previous : SwapStatus) (ledger : LedgerRefund)
      → SameOrder t id o
      → respects_secret (record o { status = previous }) ≡ true
      → may_advance SwapStatus.refunding previous ≡ true
      → Safe t id (finish_refund o previous ledger)
  unfolding respects_secret
  finish_refund-Safe o previous (LedgerRefund.returned update_id) same r m =
      Safe-put_or_fresh (refl, same) refl
  finish_refund-Safe o previous LedgerRefund.lost same r m = Safe.throws
  finish_refund-Safe o previous LedgerRefund.failed same r m =
      Safe.puts {o = record o { status = previous }} (r, same) m (λ _. Safe.throws)

  pub refund_counter-Safe :
      (unclaimed : Bool) (now : ℕ) (ledger : LedgerRefund)
      → Safe t id (refund_counter unclaimed now ledger id)
  unfolding refund_counter respects_secret
  refund_counter-Safe unclaimed now ledger = Safe-must (λ o (r, same).
      let o' : SwapOrder = record o { status = SwapStatus.refunding } in
      Safe-test (λ _. Safe.throws)
        (λ stage.
          Safe-test (λ _. Safe.throws)
            (λ _.
              Safe-test (λ _. Safe.throws)
                (λ hidden.
                  Safe-test (λ _. Safe.throws)
                    (λ _.
                      Safe-test (λ _. Safe.throws)
                        (λ _.
                          Safe-put_then {o = o'} (ground arith, same) (ground arith)
                            (λ b.
                              Safe-test
                                (λ _.
                                  finish_refund-Safe o' SwapStatus.counter_locked ledger same refl
                                    refl)
                                (λ _. Safe-fresh))))))))

  pub refund_main_canton-Safe :
      (unclaimed : Bool) (now : ℕ) (ledger : LedgerRefund)
      → Safe t id (refund_main_canton unclaimed now ledger id)
  unfolding refund_main_canton respects_secret
  refund_main_canton-Safe unclaimed now ledger = Safe-must (λ o (r, same).
      Safe-test (λ _. Safe.throws)
        (λ _.
          Safe-test (λ _. Safe.throws)
            (λ stage.
              Safe-test (λ _. Safe.throws)
                (λ _.
                  Safe-test (λ _. Safe.throws)
                    (λ hidden.
                      Safe-test (λ _. Safe.throws)
                        (λ _.
                          let (there, back) = eligible_advance o stage in
                          Safe-put_then {o = main_refunding o} (ground arith, same) there
                            (λ b.
                              Safe-test
                                (λ _.
                                  finish_refund-Safe (main_refunding o) o.status
                                    (main_refund_result o ledger) same r back)
                                (λ _. Safe-fresh))))))))

  pub early_refund_loop_custody-Safe :
      (lock_empty : Bool) (ledger : LedgerRefund)
      → Safe t id (early_refund_loop_custody lock_empty ledger id)
  unfolding early_refund_loop_custody respects_secret
  early_refund_loop_custody-Safe lock_empty ledger = Safe-must (λ o (r, same).
      let o' : SwapOrder = record o { status = SwapStatus.refunding } in
      Safe-test (λ _. Safe.throws)
        (λ _.
          Safe-test (λ _. Safe.throws)
            (λ stage.
              Safe-test (λ _. Safe.throws)
                (λ hidden.
                  Safe-test (λ _. Safe.throws)
                    (λ _.
                      Safe-test (λ _. Safe.throws)
                        (λ _.
                          Safe-put_then {o = o'} (ground arith, same) (ground arith)
                            (λ b.
                              Safe-test
                                (λ _. finish_refund-Safe o' o.status ledger same r (ground arith))
                                (λ _. Safe-fresh))))))))

  pub record_counter_retake-Safe :
      (verified unclaimed : Bool) (now : ℕ) (ledger : LedgerRefund) (tx : Text)
      → Safe t id (record_counter_retake verified unclaimed now ledger id tx)
  unfolding record_counter_retake respects_secret
  record_counter_retake-Safe verified unclaimed now ledger tx = Safe-must (λ o (r, same).
      let o' : SwapOrder = record o { main_claim_tx = some tx; evm_float_reserved = some false } in
      Safe-test (λ _. Safe.throws)
        (λ _.
          Safe-test (λ _. Safe.throws)
            (λ _.
              Safe-test (λ _. Safe.throws)
                (λ stage.
                  Safe-test (λ _. Safe.throws)
                    (λ _.
                      Safe-put_then {o = o'} (r, same) (ground arith)
                        (λ b.
                          Safe-test (λ _. Safe-fresh)
                            (λ _.
                              Safe-test (λ _. refund_main_canton-Safe unclaimed now ledger)
                                (λ _. Safe-put_or_fresh (refl, same) (ground arith)))))))))

  pub record_main_retake-Safe :
      (verified unclaimed : Bool) (now : ℕ) (ledger : LedgerRefund) (tx : Text)
      → Safe t id (record_main_retake verified unclaimed now ledger id tx)
  unfolding record_main_retake respects_secret
  record_main_retake-Safe verified unclaimed now ledger tx = Safe-must (λ o (r, same).
      let o' : SwapOrder = record o { main_claim_tx = some tx } in
      Safe-test (λ _. Safe.throws)
        (λ _.
          Safe-test (λ _. Safe.throws)
            (λ live.
              Safe-test (λ _. Safe.throws)
                (λ _.
                  Safe-test
                    (λ stage.
                      Safe-put_then {o = o'} (r, same) (ground arith)
                        (λ b.
                          Safe-test (λ _. Safe-fresh)
                            (λ _. refund_counter-Safe unclaimed now ledger)))
                    (λ _. Safe-put_or_fresh (ground arith, same) (ground arith))))))

  pub mark_refunded-Safe : Safe t id (mark_refunded id)
  unfolding mark_refunded respects_secret
  mark_refunded-Safe = Safe-must (λ o (r, same).
      Safe-test (λ _. Safe.throws) (λ stage. Safe-put_or_fresh (refl, same) (ground arith)))

  stale_forward-Safe :
      (o : SwapOrder) (lock : StaleLock) → SameOrder t id o → Safe t id (stale_forward o lock)
  unfolding respects_secret
  stale_forward-Safe o StaleLock.unread same = Safe.throws
  stale_forward-Safe o StaleLock.absent same = Safe-put_or_fresh (refl, same) refl
  stale_forward-Safe o StaleLock.present same = Safe-put_or_fresh (refl, same) refl
  stale_forward-Safe o StaleLock.present_unverified same = Safe.throws

  pub expire_abandoned_accepted-Safe :
      (lock : StaleLock) (ttl now : ℕ) → Safe t id (expire_abandoned_accepted lock ttl now id)
  unfolding expire_abandoned_accepted respects_secret
  expire_abandoned_accepted-Safe lock ttl now = Safe-must (λ o (r, same).
      Safe-test (λ _. Safe.returns (r, same))
        (λ _.
          Safe-test (λ _. Safe.throws)
            (λ _.
              Safe-test (λ _. stale_forward-Safe o lock same)
                (λ _. Safe-put_or_fresh (refl, same) refl))))

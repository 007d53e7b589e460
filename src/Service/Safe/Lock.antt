-- ===== src/Service/Safe/Lock.antt =====
-- The operations up to the lock of the main leg keep to the secret and to the diagram.
use cantonbit.Shared.{ℕ, zero, suc, refl, Bool, List, arith, Text}
use cantonbit.Htlc.Order.{SwapOrder, SwapStatus}
use cantonbit.Service.Store.{Answer}
use cantonbit.Service.Call.{Call}
use cantonbit.Service.Safe.{
  Safe, Respects, respects_secret, Terms, Safe-again, Safe-test, Safe-must, Safe-fresh,
  Safe-put_or_fresh, Safe-put_then,
}
use cantonbit.Service.Lock.{
  accept, accept_attempts, accept_again, accept_answer, accept_reverse, accepted_with,
  lock_verified, lock_race, lock_verified, lock_race, record_main_lock, cancel,
  release_reverse_prelock_without_custody,
}

module _ {t : Text → Terms} {id : Text} where
  pub cancel-Safe : Safe t id (cancel id)
  unfolding cancel respects_secret
  cancel-Safe = Safe-must (λ o (r, same).
      Safe-test (λ _. Safe.throws)
        (λ g.
          let o' : SwapOrder = record o { status = SwapStatus.cancelled } in
          Safe-put_then {o = o'} (refl, same) (ground arith)
            (λ b.
              Safe-test (λ _. Safe.returns {o = o'} (refl, same))
                (λ _. Safe-must (λ fresh q. Safe-test (λ _. Safe.returns q) (λ _. Safe.throws))))))

  pub release-Safe :
      (live_offer : Bool) → Safe t id (release_reverse_prelock_without_custody live_offer id)
  unfolding release_reverse_prelock_without_custody respects_secret
  release-Safe live_offer = Safe-must (λ o (r, same).
      Safe-test (λ _. Safe.returns (r, same))
        (λ _.
          Safe-test (λ _. Safe.throws)
            (λ _. Safe-test (λ _. Safe.throws) (λ _. Safe-put_or_fresh (refl, same) refl))))

  lock_verified-Safe :
      (verified : Bool) (tx : Text) (o : SwapOrder)
      → Respects t id o
      → Safe t id (lock_verified verified tx o)
  unfolding respects_secret
  lock_verified-Safe verified tx o (r, same) =
      Safe-test (λ _. Safe-put_or_fresh (refl, same) refl)
        (λ _.
          Safe-put_then {o = record o { status = SwapStatus.accepted }} (refl, same) refl
            (λ _. Safe.throws))

  lock_race-Safe : (tx : Text) (o : SwapOrder) → Respects t id o → Safe t id (lock_race tx o)
  lock_race-Safe tx o r =
      Safe-test (λ _. Safe.returns r) (λ _. Safe-test (λ _. Safe.returns r) (λ _. Safe.throws))

  pub record_main_lock-Safe :
      (verified : Bool) (tx : Text) → Safe t id (record_main_lock verified id tx)
  unfolding record_main_lock respects_secret
  record_main_lock-Safe verified tx = Safe-must (λ o (r, same).
      let o' : SwapOrder = record o { status = SwapStatus.main_locking } in
      Safe-test (λ _. Safe.throws)
        (λ _.
          Safe-test (λ _. Safe-test (λ _. Safe.returns (r, same)) (λ _. Safe.throws))
            (λ _.
              Safe-test (λ _. Safe.throws)
                (λ _.
                  Safe-test (λ _. Safe.throws)
                    (λ _.
                      Safe-test
                        (λ _.
                          Safe-put_then {o = o'} (refl, same) refl
                            (λ b.
                              Safe-test (λ _. lock_verified-Safe verified tx o' (refl, same))
                                (λ _. Safe-must (lock_race-Safe tx))))
                        (λ _. lock_verified-Safe verified tx o (r, same)))))))

  accept_answer-Safe :
      (o : SwapOrder) (a : Answer) → Respects t id o → Safe t id (accept_answer o a)
  accept_answer-Safe o Answer.reserved r = Safe-again o r (λ fresh q. Safe.returns q)
  accept_answer-Safe o (Answer.refused s) r =
      Safe-test (λ _. Safe-again o r (λ fresh q. Safe.returns q)) (λ _. Safe.throws)
  accept_answer-Safe o Answer.insufficient r = Safe.throws
  accept_answer-Safe o Answer.not_found r = Safe.throws
  accept_answer-Safe o Answer.unbound_chain r = Safe.throws

  accept_again-Safe :
      (c : Call) (o : SwapOrder) (a : Answer)
      → Respects t id o
      → Safe t id c
      → Safe t id (accept_again c o a)
  accept_again-Safe c o Answer.insufficient r s = s
  accept_again-Safe c o Answer.reserved r s = accept_answer-Safe o Answer.reserved r
  accept_again-Safe c o (Answer.refused u) r s = accept_answer-Safe o (Answer.refused u) r
  accept_again-Safe c o Answer.not_found r s = accept_answer-Safe o Answer.not_found r
  accept_again-Safe c o Answer.unbound_chain r s = accept_answer-Safe o Answer.unbound_chain r

  accept_attempts-Safe :
      (left : ℕ) (enough : ℕ → Bool) (o : SwapOrder)
      → Respects t id o
      → Safe t id (accept_attempts left enough o)
  unfolding accept_attempts
  accept_attempts-Safe zero enough o r = Safe.books (λ a. accept_answer-Safe o a r)
  accept_attempts-Safe (suc left) enough o r = Safe.books (λ a.
      accept_again-Safe (accept_attempts left enough o) o a r
        (accept_attempts-Safe left enough o r))

  accept_reverse-Safe :
      (baseline : List Text) (o : SwapOrder)
      → Respects t id o
      → Safe t id (accept_reverse baseline o)
  unfolding respects_secret
  accept_reverse-Safe baseline o (r, same) =
      Safe-put_then {o = accepted_with baseline o} (refl, same) refl
        (λ b.
          Safe-test (λ _. Safe-again o (r, same) (λ fresh q. Safe.returns q))
            (λ _.
              Safe-again o (r, same)
                (λ fresh q. Safe-test (λ _. Safe.returns q) (λ _. Safe.throws))))

  pub accept-Safe :
      (enough : ℕ → Bool) (baseline : List Text) → Safe t id (accept enough baseline id)
  unfolding accept
  accept-Safe enough baseline = Safe-must (λ o r.
      Safe-test (λ _. Safe-fresh)
        (λ _.
          Safe-test (λ _. Safe.throws)
            (λ _.
              Safe-test (λ _. accept_attempts-Safe 2 enough o r)
                (λ _. accept_reverse-Safe baseline o r))))

-- ===== src/Service/Safe/Counter.antt =====
-- The operations on the lock of the counter leg keep to the secret and to the diagram.
use cantonbit.Service.Counter.{
  or_roll_back, retake_noted, counter_answer, begin_counter_lock, abort_counter_lock, LedgerLock,
  lock_created, allocated, lock_counter_from, lock_counter, CounterProof, counter_proved,
  record_counter_from, roll_back, reconcile_wrong_chain_reverse_counter_lock, Claimed, Landed,
  LockReading, without_claim, lock_reading, phantom_from, reconcile_phantom_evm_counter_lock,
  record_counter_locked,
}
use cantonbit.Shared.{◌≡◌, refl, Bool, true, false, ◌||◌, Option, none, some, arith, Text, sym, ◌∙◌}
use cantonbit.Htlc.Order.{SwapOrder, SwapStatus, status_eq}
use cantonbit.Htlc.Logic.{is_forward, reverse_zero_lock_reconcile_outcome}
use cantonbit.Service.Store.{Answer}
use cantonbit.Service.Safe.{
  Safe-put_then, Outcome, Safe, Respects, respects_secret, Terms, direction_of_copy, claimed_secret,
  Safe-again, Safe-test, Safe-must, Safe-fresh, Safe-put_or_fresh, Safe-and_then,
}

module _ {t : Text → Terms} {id : Text} where
  counter_answer-Safe : (a : Answer) → Safe t id (counter_answer id a)
  counter_answer-Safe Answer.reserved = Safe-fresh
  counter_answer-Safe (Answer.refused s) = Safe.throws
  counter_answer-Safe Answer.insufficient = Safe.throws
  counter_answer-Safe Answer.not_found = Safe.throws
  counter_answer-Safe Answer.unbound_chain = Safe.throws

  pub begin_counter_lock-Safe :
      (units enough : Bool) → Safe t id (begin_counter_lock units enough id)
  unfolding begin_counter_lock respects_secret
  begin_counter_lock-Safe units enough = Safe-must (λ o (r, same).
      Safe-test (λ _. Safe.returns (r, same))
        (λ _.
          Safe-test (λ _. Safe.throws)
            (λ _.
              Safe-test (λ _. Safe-test (λ _. Safe.throws) (λ _. Safe.books counter_answer-Safe))
                (λ _. Safe-put_or_fresh (refl, same) refl))))

  pub abort_counter_lock-Safe : Safe t id (abort_counter_lock id)
  unfolding abort_counter_lock respects_secret
  abort_counter_lock-Safe = Safe-must (λ o (r, same).
      Safe-test (λ _. Safe.returns (r, same)) (λ _. Safe-put_or_fresh (refl, same) refl))

  lock_created-Safe :
      (o : SwapOrder) (lock : Option (Text × Text))
      → Respects t id o
      → Safe t id (lock_created o lock)
  unfolding respects_secret
  lock_created-Safe o none r = Safe.throws
  lock_created-Safe o (some (cid, blob)) (r, same) = Safe-put_or_fresh (refl, same) refl

  allocated-Safe :
      (o : SwapOrder) (ledger : LedgerLock) (a : Option Text)
      → Respects t id o
      → Safe t id (allocated o ledger a)
  unfolding respects_secret
  allocated-Safe o ledger none r = Safe.throws
  allocated-Safe o ledger (some cid) (r, same) =
      let o' : SwapOrder = record o { allocation_cid = some cid } in
      Safe-put_then {o = o'} (r, same) (ground arith)
        (λ b.
          Safe-test (λ _. lock_created-Safe o' ledger.lock (r, same))
            (λ _. Safe-again o (r, same) (λ fresh q. Safe.returns q)))

  lock_counter_from-Safe :
      (ledger : LedgerLock) (o : SwapOrder)
      → Respects t id o
      → Safe t id (lock_counter_from ledger o)
  unfolding lock_counter_from
  lock_counter_from-Safe ledger o r =
      Safe-test (λ _. Safe-test (λ _. Safe.throws) (λ _. lock_created-Safe o ledger.lock r))
        (λ _.
          Safe-test (λ _. Safe.throws)
            (λ _. Safe-test (λ _. Safe.throws) (λ _. allocated-Safe o ledger ledger.allocation r)))

  pub lock_counter-Safe : (ledger : LedgerLock) → Safe t id (lock_counter ledger id)
  unfolding lock_counter
  lock_counter-Safe ledger = Safe-must (λ o r.
      Safe-test (λ _. Safe.returns r)
        (λ _.
          Safe-test
            (λ _.
              Safe-and_then (begin_counter_lock false false id)
                (begin_counter_lock-Safe false false) (lock_counter_from-Safe ledger))
            (λ _. lock_counter_from-Safe ledger o r)))

  roll_back-Safe : (o : SwapOrder) → Respects t id o → Safe t id (roll_back o)
  unfolding respects_secret
  roll_back-Safe o (r, same) = Safe-put_or_fresh (refl, same) refl

  reconcile_wrong_chain-Safe :
      (lock_intact elsewhere : Bool) (o : SwapOrder)
      → Respects t id o
      → Safe t id (reconcile_wrong_chain_reverse_counter_lock lock_intact elsewhere o)
  unfolding reconcile_wrong_chain_reverse_counter_lock
  reconcile_wrong_chain-Safe lock_intact elsewhere o r =
      Safe-test (λ _. Safe.returns r)
        (λ _.
          Safe-test (λ _. Safe.returns r)
            (λ _.
              Safe-test (λ _. Safe.returns r)
                (λ _. Safe-test (λ _. Safe.returns r) (λ _. roll_back-Safe o r))))

  or_roll_back-Safe :
      (o : SwapOrder) (outcome : Outcome) → Respects t id o → Safe t id (or_roll_back o outcome)
  unfolding or_roll_back
  or_roll_back-Safe o Outcome.won r = Safe.returns r
  or_roll_back-Safe o Outcome.lost r = Safe-again o r (λ fresh q. Safe.returns q)
  or_roll_back-Safe o Outcome.refused r = roll_back-Safe o r

  without_claim-Safe :
      (o : SwapOrder) (lock : Landed)
      → Respects t id o
      → status_eq o.status SwapStatus.counter_locked ≡ true
      → Safe t id (without_claim o lock)
  unfolding respects_secret
  without_claim-Safe o Landed.never_landed r e = roll_back-Safe o r
  without_claim-Safe o (Landed.landed retake) (r, same) e =
      Safe-test
        (λ _.
          Safe.puts {o = retake_noted o retake} (r, same) (ground arith)
            (λ outcome. or_roll_back-Safe (retake_noted o retake) outcome (r, same)))
        (λ _. roll_back-Safe o (r, same))

  lock_reading-Safe :
      (o : SwapOrder) (reading : LockReading)
      → Respects t id o
      → status_eq o.status SwapStatus.counter_locked ≡ true
      → is_forward (t id).direction ≡ false
      → Safe t id (lock_reading o reading)
  unfolding reverse_zero_lock_reconcile_outcome
  lock_reading-Safe o LockReading.unreadable r e d = Safe.returns r
  lock_reading-Safe o (LockReading.cleared Claimed.scan_failed lock) r e d = Safe.returns r
  lock_reading-Safe o (LockReading.cleared Claimed.was_claimed lock) (r, same) e d =
      Safe-put_or_fresh (claimed_secret o (direction_of_copy t id o same ∙ d), same) refl
  lock_reading-Safe o (LockReading.cleared Claimed.not_claimed lock) r e d =
      without_claim-Safe o lock r e
  lock_reading-Safe o LockReading.held r e d = Safe.returns r
  lock_reading-Safe o LockReading.ready_unknown r e d = Safe.returns r
  lock_reading-Safe o LockReading.mismatched r e d = roll_back-Safe o r

  phantom_from-Safe :
      (reading : LockReading) (o : SwapOrder)
      → Respects t id o
      → is_forward (t id).direction ≡ false
      → Safe t id (phantom_from reading o)
  phantom_from-Safe reading o r d =
      Safe-test (λ _. Safe.returns r)
        (λ e. Safe-test (λ _. Safe.returns r) (λ _. lock_reading-Safe o reading r (ground arith) d))

  pub reconcile_phantom-Safe :
      (lock_intact elsewhere : Bool) (reading : LockReading) (o : SwapOrder)
      → Respects t id o
      → Safe t id (reconcile_phantom_evm_counter_lock lock_intact elsewhere reading o)
  unfolding reconcile_phantom_evm_counter_lock
  reconcile_phantom-Safe lock_intact elsewhere reading o (r, same) =
      Safe-test (λ _. Safe.returns (r, same))
        (λ d.
          Safe-test (λ _. Safe.returns (r, same))
            (λ _.
              Safe-and_then (reconcile_wrong_chain_reverse_counter_lock lock_intact elsewhere o)
                (reconcile_wrong_chain-Safe lock_intact elsewhere o (r, same))
                (λ fresh q.
                  phantom_from-Safe reading fresh q (sym (direction_of_copy t id o same) ∙ d))))

  counter_proved-Safe :
      (o : SwapOrder) (tx : Text) (proof : CounterProof)
      → Respects t id o
      → (status_eq o.status SwapStatus.counter_locking || status_eq o.status SwapStatus.main_locked)
        ≡ true
      → Safe t id (counter_proved o tx proof)
  unfolding respects_secret
  counter_proved-Safe o tx CounterProof.final (r, same) e =
      Safe-put_or_fresh (refl, same) (ground arith)
  counter_proved-Safe o tx CounterProof.awaiting_finality (r, same) e =
      Safe-put_or_fresh (refl, same) (ground arith)
  counter_proved-Safe o tx CounterProof.invalid r e = Safe.throws
  counter_proved-Safe o tx CounterProof.wrong_chain r e = Safe.throws

  record_counter_from-Safe :
      (proof : CounterProof) (tx : Text) (o : SwapOrder)
      → Respects t id o
      → Safe t id (record_counter_from proof tx o)
  unfolding record_counter_from
  record_counter_from-Safe proof tx o r =
      Safe-test (λ _. Safe.throws)
        (λ e. Safe-test (λ _. Safe.throws) (λ _. counter_proved-Safe o tx proof r (ground arith)))

  pub record_counter_locked-Safe :
      (lock_intact elsewhere : Bool) (reading : LockReading) (proof : CounterProof) (tx : Text)
      → Safe t id (record_counter_locked lock_intact elsewhere reading proof id tx)
  unfolding record_counter_locked
  record_counter_locked-Safe lock_intact elsewhere reading proof tx = Safe-must (λ o r.
      Safe-test (λ _. Safe.throws)
        (λ _.
          Safe-test
            (λ _.
              Safe-and_then (reconcile_phantom_evm_counter_lock lock_intact elsewhere reading o)
                (reconcile_phantom-Safe lock_intact elsewhere reading o r)
                (λ fresh q.
                  Safe-test (λ _. Safe.returns q) (λ _. record_counter_from-Safe proof tx fresh q)))
            (λ _. record_counter_from-Safe proof tx o r)))

-- ===== src/Service/Counter.antt =====
-- lib/htlc-service-singleton.ts: the operations on the lock of the counter leg.
use cantonbit.Shared.{
  Bool, true, false, not, ◌&&◌, ◌||◌, Option, none, some, Text, if◌then◌else◌, truthy,
}
use cantonbit.Htlc.Order.{SwapOrder, SwapStatus, status_eq}
use cantonbit.Htlc.Logic.{is_forward, ReconcileOutcome, reverse_zero_lock_reconcile_outcome}
use cantonbit.Service.Store.{Outcome, Reservation, Answer}
use cantonbit.Service.Call.{
  put_then, Call, ServiceError, test◌then◌else◌, must, put_or_fresh, and_then,
}

-- `evm_float_units`: the balance was given; `enough`: it covers what is reserved.
abbrev pub counter_answer : Text → Answer → Call
counter_answer id Answer.reserved = must id Call.done
counter_answer id (Answer.refused s) = Call.throw ServiceError.not_reserved
counter_answer id Answer.insufficient = Call.throw ServiceError.not_reserved
counter_answer id Answer.not_found = Call.throw ServiceError.not_reserved
counter_answer id Answer.unbound_chain = Call.throw ServiceError.not_reserved

unfoldable pub begin_counter_lock : Bool → Bool → Text → Call
begin_counter_lock evm_float_units enough id = must id (λ o.
    test status_eq o.status SwapStatus.counter_locking
      || status_eq o.status SwapStatus.counter_locked
    then Call.done o
    else test not (status_eq o.status SwapStatus.main_locked)
    then Call.throw ServiceError.bad_status
    else test not (is_forward o.direction)
    then (test not evm_float_units
        then Call.throw ServiceError.evidence_missing
        else Call.book Reservation.before_counter_lock enough id (counter_answer id))
    else put_or_fresh (record o { status = SwapStatus.counter_locking }) SwapStatus.main_locked)

unfoldable pub abort_counter_lock : Text → Call
abort_counter_lock id = must id (λ o.
    test not (status_eq o.status SwapStatus.counter_locking)
    then Call.done o
    else put_or_fresh
        (record o { status = SwapStatus.main_locked; evm_float_reserved = some false })
        SwapStatus.counter_locking)

-- What the ledger and the chain answer while the solver's CBTC is locked: whether the EVM lock is
-- proved, the allocation, and the lock made from it.
pub record LedgerLock : Type 0 where
  pub evm_lock_verified : Bool
  pub allocation : Option Text
  pub lock : Option (Text × Text)

-- `htlcCid, htlcBlob` of `createHtlcLock`, and the last write.
abbrev pub lock_created : SwapOrder → Option (Text × Text) → Call
lock_created o none = Call.throw ServiceError.ledger_failed
lock_created o (some (cid, blob)) =
    put_or_fresh
      (record o { htlc_cid = some cid; htlc_blob = some blob; status = SwapStatus.counter_locked })
      SwapStatus.counter_locking

-- The allocation is written before the lock is made, so that a retry takes it again.
abbrev pub allocated : SwapOrder → LedgerLock → Option Text → Call
allocated o ledger none = Call.throw ServiceError.ledger_failed
allocated o ledger (some cid) =
    put_then (record o { allocation_cid = some cid }) o.status
      (λ b.
        test b
        then lock_created (record o { allocation_cid = some cid }) ledger.lock
        else must o.id Call.done)

-- The part of `lockCounter` after the stage is claimed.
unfoldable pub lock_counter_from : LedgerLock → SwapOrder → Call
lock_counter_from ledger o =
    test truthy o.allocation_cid && not (truthy o.htlc_cid)
    then (test is_forward o.direction && not ledger.evm_lock_verified
        then Call.throw ServiceError.unverified
        else lock_created o ledger.lock)
    else test not (status_eq o.status SwapStatus.counter_locking)
        && not (status_eq o.status SwapStatus.main_locked)
    then Call.throw ServiceError.bad_status
    else test is_forward o.direction && not ledger.evm_lock_verified
    then Call.throw ServiceError.unverified
    else allocated o ledger ledger.allocation

unfoldable pub lock_counter : LedgerLock → Text → Call
unfolding begin_counter_lock and_then
lock_counter ledger id = must id (λ o.
    test status_eq o.status SwapStatus.counter_locked
      && truthy o.allocation_cid
      && truthy o.htlc_cid
    then Call.done o
    else test status_eq o.status SwapStatus.main_locked
    then and_then (begin_counter_lock false false id) (lock_counter_from ledger)
    else lock_counter_from ledger o)

-- What the chain says of a counter-lock transaction.
pub data CounterProof : Type 0 where
  final awaiting_finality invalid wrong_chain : CounterProof

abbrev pub counter_proved : SwapOrder → Text → CounterProof → Call
counter_proved o tx CounterProof.final =
    put_or_fresh
      (record o {
        counter_lock_tx = some tx;
        status = SwapStatus.counter_locked;
        evm_float_reserved = some false;
      })
      o.status
counter_proved o tx CounterProof.awaiting_finality =
    put_or_fresh (record o { counter_lock_tx = some tx; status = SwapStatus.counter_locking })
      o.status
counter_proved o tx CounterProof.invalid = Call.throw ServiceError.unverified
counter_proved o tx CounterProof.wrong_chain = Call.throw ServiceError.unverified

-- The rest of `recordCounterLocked`, on the order as it is after the reconciliation.
unfoldable pub record_counter_from : CounterProof → Text → SwapOrder → Call
record_counter_from proof tx o =
    test not (status_eq o.status SwapStatus.counter_locking)
      && not (status_eq o.status SwapStatus.main_locked)
    then Call.throw ServiceError.bad_status
    else test not (truthy o.wbtc_amount) || not (truthy o.user_evm_address)
    then Call.throw ServiceError.evidence_missing
    else counter_proved o tx proof

-- The rollback of a counter lock that the chain does not have.
abbrev pub roll_back : SwapOrder → Call
roll_back o =
    put_or_fresh
      (record o {
        status = SwapStatus.main_locked;
        counter_lock_tx = none;
        evm_float_reserved = some false;
      })
      SwapStatus.counter_locked

-- `lock_intact`: the mapping holds the amount, or cannot be read; `elsewhere`: the transaction
-- was mined on another chain.
unfoldable pub reconcile_wrong_chain_reverse_counter_lock : Bool → Bool → SwapOrder → Call
reconcile_wrong_chain_reverse_counter_lock lock_intact elsewhere o =
    test is_forward o.direction || not (status_eq o.status SwapStatus.counter_locked)
    then Call.done o
    else test not (truthy o.counter_lock_tx) || not (truthy o.evm_chain_slug)
    then Call.done o
    else test lock_intact
    then Call.done o
    else test not elsewhere
    then Call.done o
    else roll_back o

-- What the chain says of an order whose counter leg is locked.
pub data Claimed : Type 0 where
  scan_failed was_claimed not_claimed : Claimed

-- The recorded transaction is a lock that landed, with the transaction of the retake if one is found.
pub data Landed : Type 0 where
  never_landed : Landed
  landed : Option Text → Landed

pub data LockReading : Type 0 where
  unreadable : LockReading
  cleared : Claimed → Landed → LockReading
  held ready_unknown mismatched : LockReading

-- `if (retakeTx) o.mainClaimTx = retakeTx`
abbrev pub truthy_or : Option Text → Option Text → Option Text
truthy_or new old = if truthy new then new else old

abbrev pub retake_noted : SwapOrder → Option Text → SwapOrder
retake_noted o retake = record o {
  main_claim_tx = truthy_or retake o.main_claim_tx;
  evm_float_reserved = some false;
}

-- An error of this write is caught, and the lock is rolled back after all.
unfoldable pub or_roll_back : SwapOrder → Outcome → Call
or_roll_back o Outcome.won = Call.done o
or_roll_back o Outcome.lost = must o.id Call.done
or_roll_back o Outcome.refused = roll_back o

abbrev pub without_claim : SwapOrder → Landed → Call
without_claim o Landed.never_landed = roll_back o
without_claim o (Landed.landed retake) =
    test truthy o.counter_lock_tx
    then Call.put (retake_noted o retake) SwapStatus.counter_locked
        (or_roll_back (retake_noted o retake))
    else roll_back o

abbrev pub zero_lock : SwapOrder → Landed → ReconcileOutcome → Call
zero_lock o lock ReconcileOutcome.counter_claimed =
    put_or_fresh (record o { status = SwapStatus.counter_claimed }) SwapStatus.counter_locked
zero_lock o lock ReconcileOutcome.continue = without_claim o lock

abbrev pub lock_reading : SwapOrder → LockReading → Call
lock_reading o LockReading.unreadable = Call.done o
lock_reading o (LockReading.cleared Claimed.scan_failed lock) = Call.done o
lock_reading o (LockReading.cleared Claimed.was_claimed lock) =
    zero_lock o lock (reverse_zero_lock_reconcile_outcome true)
lock_reading o (LockReading.cleared Claimed.not_claimed lock) =
    zero_lock o lock (reverse_zero_lock_reconcile_outcome false)
lock_reading o LockReading.held = Call.done o
lock_reading o LockReading.ready_unknown = Call.done o
lock_reading o LockReading.mismatched = roll_back o

abbrev pub phantom_from : LockReading → SwapOrder → Call
phantom_from reading o =
    test not (status_eq o.status SwapStatus.counter_locked)
    then Call.done o
    else test not (truthy o.wbtc_amount) || not (truthy o.user_evm_address)
    then Call.done o
    else lock_reading o reading

-- The statuses other than `counter_locked` all return the order.
unfoldable pub reconcile_phantom_evm_counter_lock : Bool → Bool → LockReading → SwapOrder → Call
unfolding reconcile_wrong_chain_reverse_counter_lock and_then reverse_zero_lock_reconcile_outcome
reconcile_phantom_evm_counter_lock lock_intact elsewhere reading o =
    test is_forward o.direction
    then Call.done o
    else test not (status_eq o.status SwapStatus.counter_locked)
    then Call.done o
    else and_then (reconcile_wrong_chain_reverse_counter_lock lock_intact elsewhere o)
        (phantom_from reading)

abbrev pub counter_reconciled : CounterProof → Text → SwapOrder → Call
counter_reconciled proof tx o =
    test status_eq o.status SwapStatus.counter_locked
    then Call.done o
    else record_counter_from proof tx o

unfoldable pub record_counter_locked : Bool → Bool → LockReading → CounterProof → Text → Text → Call
unfolding record_counter_from reconcile_phantom_evm_counter_lock and_then
record_counter_locked lock_intact elsewhere reading proof id tx = must id (λ o.
    test is_forward o.direction
    then Call.throw ServiceError.wrong_direction
    else test status_eq o.status SwapStatus.counter_locked
    then and_then (reconcile_phantom_evm_counter_lock lock_intact elsewhere reading o)
        (counter_reconciled proof tx)
    else record_counter_from proof tx o)

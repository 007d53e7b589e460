-- ===== src/Service/Requests.antt =====
-- The requests of the service as one type, with what the ledger, the chain and the clock answer.
use cantonbit.Shared.{ℕ, Bool, Option, List, [], ◌∷◌, Text}
use cantonbit.Htlc.Order.{SwapOrder}
use cantonbit.Service.Call.{Call}
use cantonbit.Service.Lock.{
  create_order, accept, cancel, release_reverse_prelock_without_custody, record_main_lock,
}
use cantonbit.Service.Counter.{
  begin_counter_lock, abort_counter_lock, LedgerLock, lock_counter, LockReading, CounterProof,
  record_counter_locked,
}
use cantonbit.Service.Claim.{FeeQuote, LedgerClaim, claim_counter_as_backend}
use cantonbit.Service.Record.{
  record_main_claim, Delivery, record_counter_claimed, persist_loop_counter_delivery_evidence,
}
use cantonbit.Service.Settle.{claim_main_as_solver, prepare_forward_intent, commit_forward_order}
use cantonbit.Service.Refund.{
  LedgerRefund, refund_counter, refund_main_canton, early_refund_loop_custody,
  record_counter_retake, record_main_retake, mark_refunded, StaleLock, expire_abandoned_accepted,
}

pub data Request : Type 0 where
  creates : Bool → SwapOrder → ℕ → ℕ → Request
  accepts : (ℕ → Bool) → List Text → Text → Request
  cancels : Text → Request
  releases : Bool → Text → Request
  locks_main : Bool → Text → Text → Request
  begins_counter : Bool → Bool → Text → Request
  aborts_counter : Text → Request
  locks_counter : LedgerLock → Text → Request
  records_counter : Bool → Bool → LockReading → CounterProof → Text → Text → Request
  claims_counter : (List ℕ → List ℕ) → Bool → FeeQuote → Bool → LedgerClaim → Text → Text → Request
  records_claim : (List ℕ → List ℕ) → Bool → Bool → Bool → Delivery → Text → Text → Text → Request
  records_main_claim : Bool → Text → Text → Request
  refunds_counter : Bool → ℕ → LedgerRefund → Text → Request
  refunds_main : Bool → ℕ → LedgerRefund → Text → Request
  refunds_custody : Bool → LedgerRefund → Text → Request
  retakes_counter : Bool → Bool → ℕ → LedgerRefund → Text → Text → Request
  retakes_main : Bool → Bool → ℕ → LedgerRefund → Text → Text → Request
  marks_refunded : Text → Request
  expires : StaleLock → ℕ → ℕ → Text → Request
  persists_delivery : Text → Text → Option Text → Bool → Request
  settles : (List ℕ → List ℕ) → Option Text → Option Text → Text → Option Text → Request
  prepares_forward : Bool → Bool → Bool → (ℕ → Bool) → List Text → ℕ → ℕ → SwapOrder → Request
  commits_forward : Bool → Bool → (ℕ → Bool) → List Text → ℕ → ℕ → SwapOrder → Text → Request

unfoldable pub call : Request → Call
unfolding create_order accept cancel release_reverse_prelock_without_custody record_main_lock
    begin_counter_lock abort_counter_lock lock_counter record_counter_locked
    claim_counter_as_backend record_counter_claimed record_main_claim refund_counter
    refund_main_canton early_refund_loop_custody record_counter_retake record_main_retake
    mark_refunded expire_abandoned_accepted persist_loop_counter_delivery_evidence
    claim_main_as_solver prepare_forward_intent commit_forward_order
call (Request.creates intake o now later) = create_order intake o now later
call (Request.accepts enough baseline id) = accept enough baseline id
call (Request.cancels id) = cancel id
call (Request.releases live id) = release_reverse_prelock_without_custody live id
call (Request.locks_main verified id tx) = record_main_lock verified id tx
call (Request.begins_counter units enough id) = begin_counter_lock units enough id
call (Request.aborts_counter id) = abort_counter_lock id
call (Request.locks_counter ledger id) = lock_counter ledger id
call (Request.records_counter intact elsewhere reading proof id tx) =
    record_counter_locked intact elsewhere reading proof id tx
call (Request.claims_counter keccak verified quote recorded claim id hex) =
    claim_counter_as_backend keccak verified quote recorded claim id hex
call (Request.records_claim keccak verified claimed by_this delivery id hex update) =
    record_counter_claimed keccak verified claimed by_this delivery id hex update
call (Request.records_main_claim verified id tx) = record_main_claim verified id tx
call (Request.refunds_counter unclaimed now ledger id) = refund_counter unclaimed now ledger id
call (Request.refunds_main unclaimed now ledger id) = refund_main_canton unclaimed now ledger id
call (Request.refunds_custody empty ledger id) = early_refund_loop_custody empty ledger id
call (Request.retakes_counter verified unclaimed now ledger id tx) =
    record_counter_retake verified unclaimed now ledger id tx
call (Request.retakes_main verified unclaimed now ledger id tx) =
    record_main_retake verified unclaimed now ledger id tx
call (Request.marks_refunded id) = mark_refunded id
call (Request.expires lock ttl now id) = expire_abandoned_accepted lock ttl now id
call (Request.persists_delivery id update_id offer direct) =
    persist_loop_counter_delivery_evidence id update_id offer direct
call (Request.settles keccak claim_tx ledger id hex) =
    claim_main_as_solver keccak claim_tx ledger id hex
call (Request.prepares_forward intake capped fresh enough baseline now later o) =
    prepare_forward_intent intake capped fresh enough baseline now later o
call (Request.commits_forward intake verified enough baseline now later o tx) =
    commit_forward_order intake verified enough baseline now later o tx

abbrev pub calls : List Request → List Call
calls [] = []
calls (q ∷ qs) = call q ∷ calls qs

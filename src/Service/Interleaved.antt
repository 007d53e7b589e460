-- ===== src/Service/Interleaved.antt =====
-- What holds of the table however the requests of the service interleave.
use cantonbit.Shared.{ℕ, ◌≡◌, true, some, List, [], ◌∷◌, ◌++◌, Text, All}
use cantonbit.Htlc.Order.{SwapOrder}
use cantonbit.Service.Store.{get}
use cantonbit.Service.Call.{run}
use cantonbit.Service.Diagram.{may_advance, is_final}
use cantonbit.Service.Safe.{Terms, terms_of}
use cantonbit.Service.Requests.{Request, call, calls}
use cantonbit.Service.Runs.{Kept, SafeCall, run-Safe}
use cantonbit.Service.Paths.{turn_after_run, outcome_stays}
use cantonbit.Service.Safe.Settle.{
  claim_main_as_solver-Safe, prepare_forward_intent-Safe, commit_forward_order-Safe,
}
use cantonbit.Service.Safe.Create.{create_order-Safe}
use cantonbit.Service.Safe.Lock.{accept-Safe, cancel-Safe, release-Safe, record_main_lock-Safe}
use cantonbit.Service.Safe.Counter.{
  begin_counter_lock-Safe, abort_counter_lock-Safe, lock_counter-Safe, record_counter_locked-Safe,
}
use cantonbit.Service.Safe.Claim.{claim_counter_as_backend-Safe}
use cantonbit.Service.Safe.Record.{
  record_counter_claimed-Safe, record_main_claim-Safe, persist_delivery-Safe,
}
use cantonbit.Service.Safe.Refund.{
  refund_counter-Safe, refund_main_canton-Safe, early_refund_loop_custody-Safe,
  record_counter_retake-Safe, record_main_retake-Safe, mark_refunded-Safe,
  expire_abandoned_accepted-Safe,
}

-- A request that may create an order asks for the terms that are registered for its id. The other
-- requests do not state terms.
abbrev pub Agrees : (Text → Terms) → Request → Type 0
Agrees t (Request.creates intake o now later) = terms_of o ≡ t o.id
Agrees t (Request.prepares_forward intake capped fresh enough baseline now later o) =
    terms_of o ≡ t o.id
Agrees t (Request.commits_forward intake verified enough baseline now later o tx) =
    terms_of o ≡ t o.id
Agrees t _ = Unit

module _ (t : Text → Terms) where
  call-Safe : (q : Request) → Agrees t q → SafeCall t (call q)
  unfolding call
  call-Safe (Request.creates intake o now later) e =
      (o.id, create_order-Safe t o e intake now later)
  call-Safe (Request.accepts enough baseline id) e = (id, accept-Safe enough baseline)
  call-Safe (Request.cancels id) e = (id, cancel-Safe)
  call-Safe (Request.releases live id) e = (id, release-Safe live)
  call-Safe (Request.locks_main verified id tx) e = (id, record_main_lock-Safe verified tx)
  call-Safe (Request.begins_counter units enough id) e = (id, begin_counter_lock-Safe units enough)
  call-Safe (Request.aborts_counter id) e = (id, abort_counter_lock-Safe)
  call-Safe (Request.locks_counter ledger id) e = (id, lock_counter-Safe ledger)
  call-Safe (Request.records_counter intact elsewhere reading proof id tx) e =
      (id, record_counter_locked-Safe intact elsewhere reading proof tx)
  call-Safe (Request.claims_counter keccak verified quote recorded claim id hex) e =
      (id, claim_counter_as_backend-Safe keccak verified quote recorded claim hex)
  call-Safe (Request.records_claim keccak verified claimed by_this delivery id hex update) e =
      (id, record_counter_claimed-Safe keccak verified claimed by_this delivery hex update)
  call-Safe (Request.records_main_claim verified id tx) e = (id, record_main_claim-Safe verified tx)
  call-Safe (Request.refunds_counter unclaimed now ledger id) e =
      (id, refund_counter-Safe unclaimed now ledger)
  call-Safe (Request.refunds_main unclaimed now ledger id) e =
      (id, refund_main_canton-Safe unclaimed now ledger)
  call-Safe (Request.refunds_custody empty ledger id) e =
      (id, early_refund_loop_custody-Safe empty ledger)
  call-Safe (Request.retakes_counter verified unclaimed now ledger id tx) e =
      (id, record_counter_retake-Safe verified unclaimed now ledger tx)
  call-Safe (Request.retakes_main verified unclaimed now ledger id tx) e =
      (id, record_main_retake-Safe verified unclaimed now ledger tx)
  call-Safe (Request.marks_refunded id) e = (id, mark_refunded-Safe)
  call-Safe (Request.expires lock ttl now id) e = (id, expire_abandoned_accepted-Safe lock ttl now)
  call-Safe (Request.persists_delivery id update_id offer direct) e =
      (id, persist_delivery-Safe update_id offer direct)
  call-Safe (Request.settles keccak claim_tx ledger id hex) e =
      (id, claim_main_as_solver-Safe keccak claim_tx ledger hex)
  call-Safe (Request.prepares_forward intake capped fresh enough baseline now later o) e =
      (o.id, prepare_forward_intent-Safe t o e intake capped fresh enough baseline now later)
  call-Safe (Request.commits_forward intake verified enough baseline now later o tx) e =
      (o.id, commit_forward_order-Safe t o e intake verified enough baseline now later tx)

  calls-Safe : (qs : List Request) → All (Agrees t) qs → All (SafeCall t) (calls qs)
  calls-Safe [] es = tt
  calls-Safe (q ∷ qs) (e, es) = (call-Safe q e, calls-Safe qs es)

  -- If every row has the terms that are registered for its id and respects its secret, and every
  -- request that creates an order asks for its registered terms, then this is so of every row however
  -- the requests interleave, and whenever. To respect the secret is to have it stored when the order is
  -- completed, or when it is a forward order whose counter leg is claimed, and to have none stored while
  -- the order is being refunded.
  pub terms_and_secrets-Kept :
      (schedule : List (ℕ × ℕ)) (qs : List Request) (rows : List SwapOrder)
      → All (Agrees t) qs
      → All (Kept t) rows
      → All (Kept t) (run schedule (calls qs) rows).0
  terms_and_secrets-Kept schedule qs rows es ks =
      (run-Safe t schedule (calls qs) rows (calls-Safe qs es) ks).0

  -- Of requests whose creations ask for the registered terms, on a table whose rows have theirs and
  -- respect their secrets: after any run, the next access of any request leaves every order in the
  -- table, and takes its status over at most one edge of the status diagram. So no order is moved from
  -- one status to another that is not next to it, however the requests interleave, and whenever.
  pub status_follows_diagram :
      (schedule : List (ℕ × ℕ)) (who now : ℕ) (qs : List Request) (rows : List SwapOrder)
      → All (Agrees t) qs
      → All (Kept t) rows
      → (id : Text) (o : SwapOrder) → get id (run schedule (calls qs) rows).0 ≡ some o
      → (o' : SwapOrder) × (get id (run (schedule ++ (who, now) ∷ []) (calls qs) rows).0 ≡ some o')
        × (may_advance o.status o'.status ≡ true)
  status_follows_diagram schedule who now qs rows es ks id o e =
      turn_after_run t schedule who now (calls qs) rows (calls-Safe qs es) ks id o e

  -- Of requests whose creations ask for the registered terms, on a table whose rows have theirs and
  -- respect their secrets: an order that is completed, refunded or cancelled keeps that status however
  -- the requests interleave, and whenever. So an order that is completed is never refunded, nor the
  -- other way round.
  pub outcome_is_final :
      (schedule : List (ℕ × ℕ)) (qs : List Request) (rows : List SwapOrder)
      → All (Agrees t) qs
      → All (Kept t) rows
      → (id : Text) (o : SwapOrder) → get id rows ≡ some o
      → is_final o.status ≡ true
      → (o' : SwapOrder) × (get id (run schedule (calls qs) rows).0 ≡ some o')
        × (o'.status ≡ o.status)
  outcome_is_final schedule qs rows es ks id o e f =
      outcome_stays t schedule (calls qs) rows (calls-Safe qs es) ks id o e f

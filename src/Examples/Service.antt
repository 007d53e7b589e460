-- ===== src/Examples/Service.antt =====
-- Runs of the service.
use cantonbit.Shared.{
  ℕ, ◌≡◌, refl, ◌≢◌, ◌↔◌, Bool, true, false, Option, none, some, List, [], ◌∷◌, Text, ltb,
  if◌then◌else◌, to_lower, text_eq, has_prefix, codes, All,
}
use cantonbit.Htlc.Order.{SwapOrder, SwapStatus}
use cantonbit.Htlc.Logic.{is_evm_tx_hash}
use cantonbit.Htlc.Create.{resolve_create_order, new_order}
use cantonbit.Htlc.Invariants.{
  htlc_can_mark_complete, htlc_can_expose_preimage_to_solver, htlc_visible_completed,
}
use cantonbit.Service.Store.{
  get, insert, put_if_status, replace_if, put_outcome, Outcome, wins, written, reserve, reserve_row,
}
use cantonbit.Service.Call.{
  by_outcome, Call, ServiceError, test◌then◌else◌, and_then, access, turn, run,
}
use cantonbit.Service.Diagram.{may_advance}
use cantonbit.Service.Safe.{respects_secret, Terms, terms_of}
use cantonbit.Examples.Orders.{tx, request, done}
use cantonbit.Service.Preimage.{preimage_matches, bytes_of_hex, to_hex_digits}
use cantonbit.Service.Requests.{Request, call, calls}
use cantonbit.Service.Counter.{lock_counter, lock_counter_from, begin_counter_lock}
use cantonbit.Service.Claim.{
  FeeQuote, LedgerClaim, claim_counter_as_backend, flush_network_fee_accounting,
}
use cantonbit.Service.Record.{record_main_claim}
use cantonbit.Service.Refund.{LedgerRefund}
use cantonbit.Service.Runs.{Kept}
use cantonbit.Service.Interleaved.{
  Agrees, terms_and_secrets-Kept, status_follows_diagram, outcome_is_final,
}
use cantonbit.Service.OfferIndex.{OfferFree}
use cantonbit.Service.TableLaws.{put_if_status_lem, only_one_wins, accept_retry_futile}
use cantonbit.Service.Lock.{accept, accept_attempts, record_main_lock, create_order}

-- The terms of every order here.
abbrev agreed : Text → Terms
agreed _ = terms_of request

-- Requests that race: a repeated creation, a cancellation, a retake and a refund.
abbrev racing : List Request
racing =
    Request.creates true request 1000 1001
    ∷ Request.cancels request.id
    ∷ Request.retakes_main true true 30000 (LedgerRefund.returned (codes "r1")) request.id tx
    ∷ Request.refunds_counter true 30000 (LedgerRefund.returned (codes "r1")) request.id
    ∷ Request.accepts (λ n. true) [] request.id
    ∷ []

abbrev turns : List (ℕ × ℕ)
turns =
    (4, 1) ∷ (1, 2) ∷ (0, 3) ∷ (2, 4) ∷ (3, 5) ∷ (1, 6) ∷ (4, 7) ∷ (2, 8) ∷ (4, 9) ∷ (1, 10) ∷ []

racing-Agrees : All (Agrees agreed) racing
racing-Agrees = (refl, (tt, (tt, (tt, (tt, tt)))))

terms_and_secrets_example : All (Kept agreed) (run turns (calls racing) (request ∷ [])).0
terms_and_secrets_example =
    terms_and_secrets-Kept agreed turns racing (request ∷ []) racing-Agrees
      (((unfold respects_secret in refl), refl), tt)

-- The first access of the acceptance reads the order, the second accepts it.
diagram_example :
    (o : SwapOrder) × (get request.id (run ((4, 1) ∷ (4, 2) ∷ []) (calls racing) (request ∷ [])).0
      ≡ some o)
    × (may_advance SwapStatus.opened o.status ≡ true)
unfolding text_eq
diagram_example =
    status_follows_diagram agreed ((4, 1) ∷ []) 4 2 racing (request ∷ []) racing-Agrees
      (((unfold respects_secret in refl), refl), tt) request.id request
      (unfold get run turn access call accept test◌then◌else◌ in refl)

final_example :
    (o : SwapOrder) × (get request.id (run turns (calls racing) (done ∷ [])).0 ≡ some o)
    × (o.status ≡ SwapStatus.main_claimed)
unfolding text_eq
final_example =
    outcome_is_final agreed turns racing (done ∷ []) racing-Agrees
      (((unfold respects_secret in refl), refl), tt) request.id done (unfold get in refl) refl

-- Two writes from `open`: the one that accepts, and the one that cancels.
abbrev accepting : SwapOrder
accepting = record request { status = SwapStatus.accepted }

abbrev cancelling : SwapOrder
cancelling = record request { status = SwapStatus.cancelled }

swap_example :
    ((put_outcome accepting SwapStatus.opened (request ∷ []) ≡ Outcome.won)
      ↔ ((request.status ≡ SwapStatus.opened) × OfferFree accepting (request ∷ [])))
    × ((put_outcome accepting SwapStatus.opened (request ∷ []) ≡ Outcome.lost)
        ↔ (request.status ≢ SwapStatus.opened))
    × (get request.id (put_if_status accepting SwapStatus.opened 5 (request ∷ []))
        ≡ some (
            if wins accepting SwapStatus.opened (request ∷ [])
            then written request accepting 5
            else request))
unfolding text_eq
swap_example =
    put_if_status_lem accepting SwapStatus.opened 5 (request ∷ []) request (unfold get in refl)

one_wins_example :
    wins cancelling SwapStatus.opened (put_if_status accepting SwapStatus.opened 5 (request ∷ []))
    ≡ false
unfolding text_eq
one_wins_example =
    only_one_wins accepting cancelling SwapStatus.opened 5 (request ∷ []) refl
      (unfold wins put_outcome get in refl) refl

-- The balance is too low at the first attempt only.
retry_example :
    ((run
        ((0, 1) ∷ (0, 2) ∷ (0, 3) ∷ [])
        (accept (λ n. ltb n 2) [] request.id ∷ [])
        (request ∷ [])).1
      ≡ Call.throw ServiceError.bad_status ∷ [])
    × (get request.id
          (run
            ((0, 1) ∷ (0, 2) ∷ (0, 3) ∷ [])
            (accept (λ n. ltb n 2) [] request.id ∷ [])
            (request ∷ [])).0
        ≡ some (record request { status = SwapStatus.failed; updated_at = some 2 }))
unfolding text_eq
retry_example =
    accept_retry_futile (λ n. ltb n 2) [] (request ∷ []) request 1 2 3 (unfold get in refl) refl
      refl refl

-- A forward swap of a managed user, with a hash that sends every secret to the byte 0xaa, from its creation to the solver's claim, one request at a time.
abbrev swap_requests : List Request
swap_requests =
    Request.creates true request 1000 1000
    ∷ Request.accepts (λ n. true) [] request.id
    ∷ Request.locks_main true request.id tx
    ∷ Request.locks_counter
        (record {
          evm_lock_verified = true;
          allocation = some (codes "a1");
          lock = some (codes "h1", codes "b1");
        })
        request.id
    ∷ Request.claims_counter (λ bytes. 170 ∷ []) true FeeQuote.free true
        (LedgerClaim.committed (codes "u1") false) request.id (codes "99")
    ∷ Request.records_main_claim true request.id tx
    ∷ []

abbrev in_order : List (ℕ × ℕ)
in_order =
    (0, 1)
    ∷ (0, 2)
    ∷ (1, 3)
    ∷ (1, 4)
    ∷ (1, 5)
    ∷ (2, 6)
    ∷ (2, 7)
    ∷ (2, 8)
    ∷ (3, 9)
    ∷ (3, 10)
    ∷ (3, 11)
    ∷ (3, 12)
    ∷ (3, 13)
    ∷ (4, 14)
    ∷ (4, 15)
    ∷ (5, 16)
    ∷ (5, 17)
    ∷ []

abbrev is_completed : Option SwapOrder → Bool
is_completed none = false
is_completed (some o) = htlc_visible_completed o

swap_completes : is_completed (get request.id (run in_order (calls swap_requests) []).0) ≡ true
unfolding run turn access call get insert put_if_status replace_if put_outcome by_outcome written
    reserve reserve_row and_then test◌then◌else◌ create_order accept accept_attempts
    record_main_lock lock_counter lock_counter_from begin_counter_lock claim_counter_as_backend
    flush_network_fee_accounting record_main_claim resolve_create_order new_order
    htlc_visible_completed htlc_can_expose_preimage_to_solver htlc_can_mark_complete
    preimage_matches bytes_of_hex to_hex_digits to_lower has_prefix text_eq is_evm_tx_hash
swap_completes = refl

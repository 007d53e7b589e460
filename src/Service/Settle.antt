-- ===== src/Service/Settle.antt =====
-- lib/htlc-service-singleton.ts: the solver's claim of a reverse order's main leg, and the requests
-- that are made of others.
use cantonbit.Service.Preimage.{normalized, preimage_matches}
use cantonbit.Service.Lock.{create_order, accept, record_main_lock}
use cantonbit.Shared.{
  ℕ, Bool, false, not, ◌&&◌, ◌||◌, Option, none, some, List, [], Text, if◌then◌else◌, or_else,
  to_lower, drop, truthy, opt_text_eq,
}
use cantonbit.Htlc.Order.{SwapOrder, SwapStatus, status_eq}
use cantonbit.Htlc.Logic.{is_forward, is_loop}
use cantonbit.Htlc.Visibility.{lower_opt}
use cantonbit.Service.Call.{
  Call, ServiceError, test◌then◌else◌, must, put_or_fresh, put_then, and_then,
}

-- `preimageHex ?? (o.revealedPreimage ? o.revealedPreimage.slice(2) : undefined)`
abbrev pub preimage_for : Option Text → SwapOrder → Option Text
preimage_for (some hex) o = some hex
preimage_for none o =
    if truthy o.revealed_preimage then some (drop 2 (or_else o.revealed_preimage [])) else none

-- The last write. The update of the claim is there.
abbrev pub main_claimed_by : SwapOrder → Text → Option Text → SwapOrder
main_claimed_by o preimage update_id = record o {
  revealed_preimage = some preimage;
  status = SwapStatus.main_claimed;
  evm_float_reserved = some false;
  counter_claim_update_id = update_id;
}

abbrev pub ledger_claimed : SwapOrder → Text → Option Text → Call
ledger_claimed o preimage none = Call.throw ServiceError.ledger_failed
ledger_claimed o preimage (some update_id) =
    put_or_fresh (main_claimed_by o preimage (some update_id)) o.status

-- The settlement, once the claim on the chain is recorded: Loop custody is there already, a managed
-- lock is claimed on the ledger.
abbrev pub settle_main : Text → Option Text → SwapOrder → Call
settle_main preimage ledger o =
    test is_loop o.counter_mode
    then (test not (truthy o.counter_transfer_update_id)
        then Call.throw ServiceError.evidence_missing
        else put_or_fresh (main_claimed_by o preimage o.counter_transfer_update_id) o.status)
    else test not (truthy o.htlc_cid) || not (truthy o.allocation_cid)
    then Call.throw ServiceError.evidence_missing
    else ledger_claimed o preimage ledger

-- Another request has moved the order while the claim was to be recorded.
abbrev pub settle_race : Text → Option Text → SwapOrder → Call
settle_race preimage ledger fresh =
    test status_eq fresh.status SwapStatus.main_claimed
    then Call.done fresh
    else test not (status_eq fresh.status SwapStatus.counter_claimed)
        || not (opt_text_eq fresh.revealed_preimage (some preimage))
    then Call.throw ServiceError.bad_status
    else settle_main preimage ledger fresh

abbrev pub revealed_by : SwapOrder → Text → Text → SwapOrder
revealed_by o preimage claim_tx = record o {
  main_claim_tx = some claim_tx;
  status = SwapStatus.counter_claimed;
  revealed_preimage = some preimage;
}

-- With the transaction that claims the WBTC.
abbrev pub claim_seen : Text → Option Text → SwapOrder → Text → Call
claim_seen preimage ledger o claim_tx =
    test truthy o.main_claim_tx
      && not (opt_text_eq (lower_opt o.main_claim_tx) (some (to_lower claim_tx)))
    then Call.throw ServiceError.terms_differ
    else test not (opt_text_eq o.revealed_preimage (some preimage))
        || status_eq o.status SwapStatus.counter_locked
    then put_then (revealed_by o preimage claim_tx) o.status (λ b.
      test b
      then settle_main preimage ledger (revealed_by o preimage claim_tx)
      else must o.id (settle_race preimage ledger))
    else settle_main preimage ledger (record o { main_claim_tx = some claim_tx })

abbrev pub claim_found : Text → Option Text → SwapOrder → Option Text → Call
claim_found preimage ledger o none = Call.throw ServiceError.unverified
claim_found preimage ledger o (some claim_tx) =
    test not (truthy (some claim_tx))
    then Call.throw ServiceError.unverified
    else claim_seen preimage ledger o claim_tx

abbrev pub claim_with :
    (List ℕ → List ℕ) → Option Text → Option Text → SwapOrder → Option Text → Call
claim_with keccak claim_tx ledger o none = Call.throw ServiceError.preimage_missing
claim_with keccak claim_tx ledger o (some hex) =
    test not (truthy (some hex))
    then Call.throw ServiceError.preimage_missing
    else test not (preimage_matches keccak hex o.hash_lock)
    then Call.throw ServiceError.invalid_preimage
    else claim_found (normalized hex) ledger o claim_tx

-- `claim_tx`: the claim that the chain shows; `ledger`: the update of the claim on Canton.
unfoldable pub claim_main_as_solver :
    (List ℕ → List ℕ) → Option Text → Option Text → Text → Option Text → Call
unfolding preimage_matches
claim_main_as_solver keccak claim_tx ledger id preimage_hex = must id (λ o.
    test is_forward o.direction
    then Call.throw ServiceError.wrong_direction
    else test status_eq o.status SwapStatus.main_claimed
    then Call.done o
    else test not (status_eq o.status SwapStatus.counter_claimed)
        && not (status_eq o.status SwapStatus.counter_locked)
    then Call.throw ServiceError.bad_status
    else claim_with keccak claim_tx ledger o (preimage_for preimage_hex o))

-- `drafts_capped`: the party has too many drafts; `quote_fresh`: the quote still holds.
abbrev pub prepared : SwapOrder → Call
prepared o =
    test not (status_eq o.status SwapStatus.accepted)
    then Call.throw ServiceError.not_reserved
    else Call.done o

unfoldable pub prepare_forward_intent :
    Bool → Bool → Bool → (ℕ → Bool) → List Text → ℕ → ℕ → SwapOrder → Call
unfolding create_order accept and_then
prepare_forward_intent intake drafts_capped quote_fresh enough baseline now later incoming =
    test not (is_forward incoming.direction)
    then Call.throw ServiceError.wrong_direction
    else and_then (create_order intake incoming now later) (λ _. must incoming.id (λ o.
      test truthy o.main_lock_tx || status_eq o.status SwapStatus.main_locked
      then Call.throw ServiceError.bad_status
      else test status_eq o.status SwapStatus.opened
      then (test drafts_capped
          then Call.throw ServiceError.not_reserved
          else test not quote_fresh
          then Call.throw ServiceError.unverified
          else and_then (accept enough baseline incoming.id) (λ _. must incoming.id prepared))
      else prepared o))

abbrev pub committed_lock : Bool → Text → SwapOrder → Call
committed_lock verified tx incoming = record_main_lock verified incoming.id tx

abbrev pub commit_new : Bool → Bool → (ℕ → Bool) → List Text → ℕ → ℕ → SwapOrder → Text → Call
commit_new intake verified enough baseline now later incoming tx =
    and_then (create_order intake incoming now later) (λ _. must incoming.id (λ fresh.
      test status_eq fresh.status SwapStatus.opened
      then and_then (accept enough baseline incoming.id) (λ _. committed_lock verified tx incoming)
      else committed_lock verified tx incoming))

abbrev pub commit_over :
    Bool → Bool → (ℕ → Bool) → List Text → ℕ → ℕ → SwapOrder → Text → Option SwapOrder → Call
commit_over intake verified enough baseline now later incoming tx none =
    commit_new intake verified enough baseline now later incoming tx
commit_over intake verified enough baseline now later incoming tx (some o) =
    test status_eq o.status SwapStatus.main_locked
    then Call.done o
    else test status_eq o.status SwapStatus.opened
    then commit_new intake verified enough baseline now later incoming tx
    else test not (status_eq o.status SwapStatus.accepted)
        && not (status_eq o.status SwapStatus.main_locking)
    then Call.throw ServiceError.bad_status
    else committed_lock verified tx incoming

unfoldable pub commit_forward_order :
    Bool → Bool → (ℕ → Bool) → List Text → ℕ → ℕ → SwapOrder → Text → Call
unfolding create_order accept record_main_lock and_then
commit_forward_order intake verified enough baseline now later incoming tx =
    Call.read incoming.id (commit_over intake verified enough baseline now later incoming tx)

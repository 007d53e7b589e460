-- ===== src/Service/Claim.antt =====
-- lib/htlc-service-singleton.ts: the claim of the counter leg on the ledger, and the network fee.
use cantonbit.Shared.{
  ℕ, Bool, true, false, not, ◌&&◌, ◌||◌, Option, none, some, List, Text, if◌then◌else◌, truthy,
}
use cantonbit.Htlc.Order.{SwapOrder, SwapStatus, CounterMode, status_eq}
use cantonbit.Htlc.Logic.{is_forward}
use cantonbit.Htlc.Visibility.{is_true}
use cantonbit.Service.Call.{Call, ServiceError, test◌then◌else◌, must, put_or_fresh, put_then}
use cantonbit.Service.Preimage.{normalized, preimage_matches}

abbrev pub is_managed : Option CounterMode → Bool
is_managed none = false
is_managed (some CounterMode.managed) = true
is_managed (some CounterMode.loop) = false

-- `flushNetworkFeeAccounting`, after which `o` is returned; `recorded`: the record was made.
abbrev pub flush_fresh : SwapOrder → Option SwapOrder → Call
flush_fresh o none = Call.done o
flush_fresh o (some fresh) =
    Call.put (record fresh { network_fee_accounting_pending = some false }) fresh.status
      (λ _. Call.done o)

unfoldable pub flush_network_fee_accounting : Bool → SwapOrder → Call
flush_network_fee_accounting recorded o =
    test not (is_true o.network_fee_accounting_pending)
      || not (truthy o.network_fee_settlement_update_id)
      || not (truthy o.network_fee_cc)
    then Call.done o
    else test not recorded
    then Call.done o
    else Call.read o.id (flush_fresh o)

-- The network fee of a claim: none is due, or an amount, or its check fails.
pub data FeeQuote : Type 0 where
  free fee_refused : FeeQuote
  fee : Text → FeeQuote

-- How the claim on the ledger ends: its update and whether the fee came with it; a command that was
-- committed before, with its update if that is found; or an error.
pub data LedgerClaim : Type 0 where
  committed : Text → Bool → LedgerClaim
  duplicate : Option Text → LedgerClaim
  claim_failed : LedgerClaim

abbrev pub with_fee : SwapOrder → Text → Bool → FeeQuote → SwapOrder
with_fee o update_id collected FeeQuote.free = o
with_fee o update_id collected FeeQuote.fee_refused = o
with_fee o update_id false (FeeQuote.fee cc) = o
with_fee o update_id true (FeeQuote.fee cc) = record o {
  network_fee_cc = some cc;
  network_fee_settlement_update_id = some update_id;
  network_fee_accounting_pending = some true;
}

abbrev pub claimed_by_user : SwapOrder → Text → Text → SwapOrder
claimed_by_user o preimage_hex update_id = record o {
  revealed_preimage = some (normalized preimage_hex);
  counter_claim_update_id = some update_id;
  status = SwapStatus.counter_claimed;
}

-- A claim that was committed before the row was written.
abbrev pub heal_claim : Text → Option Text → SwapOrder → Call
heal_claim preimage_hex recovered fresh =
    test status_eq fresh.status SwapStatus.counter_claimed
    then Call.done fresh
    else test status_eq fresh.status SwapStatus.counter_locked
    then (elim recovered [
      | none ↦ Call.throw ServiceError.ledger_failed
      | some update_id ↦
          put_or_fresh (claimed_by_user fresh preimage_hex update_id) SwapStatus.counter_locked
    ])
    else Call.throw ServiceError.ledger_failed

abbrev pub claim_on_ledger : SwapOrder → Text → FeeQuote → Bool → LedgerClaim → Call
claim_on_ledger o preimage_hex quote recorded (LedgerClaim.committed update_id collected) =
    let o' = with_fee (claimed_by_user o preimage_hex update_id) update_id collected quote in
    put_then o' SwapStatus.counter_locked
      (λ b. test b then flush_network_fee_accounting recorded o' else must o.id Call.done)
claim_on_ledger o preimage_hex quote recorded (LedgerClaim.duplicate recovered) =
    must o.id (heal_claim preimage_hex recovered)
claim_on_ledger o preimage_hex quote recorded LedgerClaim.claim_failed =
    Call.throw ServiceError.ledger_failed

abbrev pub claim_with_fee : SwapOrder → Text → FeeQuote → Bool → LedgerClaim → Call
claim_with_fee o preimage_hex FeeQuote.fee_refused recorded claim =
    Call.throw ServiceError.unverified
claim_with_fee o preimage_hex FeeQuote.free recorded claim =
    claim_on_ledger o preimage_hex FeeQuote.free recorded claim
claim_with_fee o preimage_hex (FeeQuote.fee cc) recorded claim =
    claim_on_ledger o preimage_hex (FeeQuote.fee cc) recorded claim

-- `lock_verified`: the EVM lock leaves time.
unfoldable pub claim_counter_as_backend :
    (List ℕ → List ℕ) → Bool → FeeQuote → Bool → LedgerClaim → Text → Text → Call
unfolding flush_network_fee_accounting preimage_matches
claim_counter_as_backend keccak lock_verified quote recorded claim id preimage_hex = must id (λ o.
    test not (status_eq o.status SwapStatus.counter_locked)
    then Call.throw ServiceError.bad_status
    else test not (truthy o.htlc_cid) || not (truthy o.allocation_cid)
    then Call.throw ServiceError.evidence_missing
    else test not (preimage_matches keccak preimage_hex o.hash_lock)
    then Call.throw ServiceError.invalid_preimage
    else test is_forward o.direction && not lock_verified
    then Call.throw ServiceError.unverified
    else claim_with_fee o preimage_hex (if is_managed o.counter_mode then quote else FeeQuote.free)
        recorded claim)

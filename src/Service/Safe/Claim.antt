-- ===== src/Service/Safe/Claim.antt =====
-- The claim of the counter leg keeps to the secret and to the diagram.
use cantonbit.Service.Claim.{
  is_managed, flush_fresh, flush_network_fee_accounting, FeeQuote, LedgerClaim, with_fee,
  claimed_by_user, heal_claim, claim_on_ledger, claim_with_fee, claim_counter_as_backend,
}
use cantonbit.Shared.{
  ℕ, ◌≡◌, refl, Bool, true, false, Option, none, some, List, arith, Text, if◌then◌else◌, sym, ◌∙◌,
  subst,
}
use cantonbit.Htlc.Order.{SwapOrder, SwapStatus}
use cantonbit.Service.Call.{Call, test◌then◌else◌}
use cantonbit.Service.Diagram.{may_advance}
use cantonbit.Service.Safe.{
  Safe, Respects, respects_secret, WhenFound, Terms, SameOrder, Safe-again, Safe-test, Safe-must,
  Safe-put_or_fresh, Safe-put_then,
}

-- Writing a status again is on the diagram.
pub again : (s : SwapStatus) → may_advance s s ≡ true
again s = ground arith

-- A claimed order whose secret is stored respects it.
claimed_Respects :
    (o : SwapOrder) (hex : Text) (update_id : Text)
    → respects_secret (claimed_by_user o hex update_id) ≡ true
unfolding respects_secret
claimed_Respects o hex update_id = ground arith

with_fee_secret :
    (o : SwapOrder) (update_id : Text) (collected : Bool) (quote : FeeQuote)
    → respects_secret (with_fee o update_id collected quote) ≡ respects_secret o
unfolding respects_secret
with_fee_secret o update_id collected FeeQuote.free = refl
with_fee_secret o update_id collected FeeQuote.fee_refused = refl
with_fee_secret o update_id false (FeeQuote.fee cc) = refl
with_fee_secret o update_id true (FeeQuote.fee cc) = refl

with_fee_same :
    (t : Text → Terms) (id : Text) (o : SwapOrder) (update_id : Text) (collected : Bool)
    (quote : FeeQuote)
    → SameOrder t id o
    → SameOrder t id (with_fee o update_id collected quote)
with_fee_same t id o update_id collected FeeQuote.free same = same
with_fee_same t id o update_id collected FeeQuote.fee_refused same = same
with_fee_same t id o update_id false (FeeQuote.fee cc) same = same
with_fee_same t id o update_id true (FeeQuote.fee cc) same = same

with_fee_status :
    (o : SwapOrder) (update_id : Text) (collected : Bool) (quote : FeeQuote)
    → (with_fee o update_id collected quote).status ≡ o.status
with_fee_status o update_id collected FeeQuote.free = refl
with_fee_status o update_id collected FeeQuote.fee_refused = refl
with_fee_status o update_id false (FeeQuote.fee cc) = refl
with_fee_status o update_id true (FeeQuote.fee cc) = refl

module _ {t : Text → Terms} {id : Text} where
  flush_fresh-Safe :
      (o : SwapOrder) (r : Option SwapOrder)
      → Respects t id o
      → WhenFound t id r
      → Safe t id (flush_fresh o r)
  unfolding respects_secret
  flush_fresh-Safe o none q w = Safe.returns q
  flush_fresh-Safe o (some fresh) q (r, same) =
      Safe.puts {o = record fresh { network_fee_accounting_pending = some false }} (r, same)
        (again fresh.status) (λ _. Safe.returns q)

  pub flush-Safe :
      (recorded : Bool) (o : SwapOrder)
      → Respects t id o
      → Safe t id (flush_network_fee_accounting recorded o)
  unfolding flush_network_fee_accounting
  flush-Safe recorded o (r, (i, same)) =
      Safe-test (λ _. Safe.returns (r, (i, same)))
        (λ _.
          Safe-test (λ _. Safe.returns (r, (i, same)))
            (λ _.
              subst (λ x. Safe t id (Call.read x (flush_fresh o))) (sym i)
                (Safe.reads (λ f w. flush_fresh-Safe o f (r, (i, same)) w))))

  heal_claim-Safe :
      (hex : Text) (recovered : Option Text) (fresh : SwapOrder)
      → Respects t id fresh
      → Safe t id (heal_claim hex recovered fresh)
  heal_claim-Safe hex none fresh r =
      Safe-test (λ _. Safe.returns r) (λ _. Safe-test (λ _. Safe.throws) (λ _. Safe.throws))
  heal_claim-Safe hex (some update_id) fresh (r, same) =
      Safe-test (λ _. Safe.returns (r, same))
        (λ _.
          Safe-test (λ _. Safe-put_or_fresh (claimed_Respects fresh hex update_id, same) refl)
            (λ _. Safe.throws))

  claim_on_ledger-Safe :
      (o : SwapOrder) (hex : Text) (quote : FeeQuote) (recorded : Bool) (claim : LedgerClaim)
      → Respects t id o
      → Safe t id (claim_on_ledger o hex quote recorded claim)
  claim_on_ledger-Safe o hex quote recorded (LedgerClaim.committed update_id collected) (r, same) =
      let c = claimed_by_user o hex update_id in
      let o' = with_fee c update_id collected quote in
      let q : Respects t id o' = (
        with_fee_secret c update_id collected quote ∙ claimed_Respects o hex update_id,
        with_fee_same t id c update_id collected quote same,
      ) in
      Safe-put_then {o = o'} q
        (subst (λ s. may_advance SwapStatus.counter_locked s ≡ true)
          (sym (with_fee_status c update_id collected quote)) refl)
        (λ b.
          Safe-test (λ _. flush-Safe recorded o' q)
            (λ _. Safe-again o (r, same) (λ fresh f. Safe.returns f)))
  claim_on_ledger-Safe o hex quote recorded (LedgerClaim.duplicate recovered) r =
      Safe-again o r (heal_claim-Safe hex recovered)
  claim_on_ledger-Safe o hex quote recorded LedgerClaim.claim_failed r = Safe.throws

  claim_with_fee-Safe :
      (o : SwapOrder) (hex : Text) (quote : FeeQuote) (recorded : Bool) (claim : LedgerClaim)
      → Respects t id o
      → Safe t id (claim_with_fee o hex quote recorded claim)
  claim_with_fee-Safe o hex FeeQuote.fee_refused recorded claim r = Safe.throws
  claim_with_fee-Safe o hex FeeQuote.free recorded claim r =
      claim_on_ledger-Safe o hex FeeQuote.free recorded claim r
  claim_with_fee-Safe o hex (FeeQuote.fee cc) recorded claim r =
      claim_on_ledger-Safe o hex (FeeQuote.fee cc) recorded claim r

  pub claim_counter_as_backend-Safe :
      (keccak : List ℕ → List ℕ) (lock_verified : Bool) (quote : FeeQuote) (recorded : Bool)
      (claim : LedgerClaim) (hex : Text)
      → Safe t id (claim_counter_as_backend keccak lock_verified quote recorded claim id hex)
  unfolding claim_counter_as_backend
  claim_counter_as_backend-Safe keccak lock_verified quote recorded claim hex = Safe-must (λ o r.
      Safe-test (λ _. Safe.throws)
        (λ _.
          Safe-test (λ _. Safe.throws)
            (λ _.
              Safe-test (λ _. Safe.throws)
                (λ _.
                  Safe-test (λ _. Safe.throws)
                    (λ _.
                      claim_with_fee-Safe o hex
                        (if is_managed o.counter_mode then quote else FeeQuote.free) recorded claim
                        r)))))

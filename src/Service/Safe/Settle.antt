-- ===== src/Service/Safe/Settle.antt =====
-- The solver's claim of the main leg, and the requests that are made of others, keep to the secret and
-- to the diagram.
use cantonbit.Service.Lock.{create_order, accept}
use cantonbit.Service.Safe.Create.{create_order-Safe}
use cantonbit.Service.Safe.Lock.{accept-Safe, record_main_lock-Safe}
use cantonbit.Service.Preimage.{normalized}
use cantonbit.Service.Settle.{
  preimage_for, ledger_claimed, settle_main, settle_race, revealed_by, claim_seen, claim_found,
  claim_with, claim_main_as_solver, prepared, prepare_forward_intent, commit_new, commit_over,
  commit_forward_order,
}
use cantonbit.Shared.{ℕ, ◌≡◌, refl, Bool, true, ◌||◌, Option, none, some, List, arith, Text}
use cantonbit.Htlc.Order.{SwapOrder, SwapStatus, status_eq}
use cantonbit.Service.Safe.{
  Safe, Respects, respects_secret, WhenFound, Terms, terms_of, Safe-again, Safe-test, Safe-must,
  Safe-put_or_fresh, Safe-put_then, Safe-and_then,
}

module _ {t : Text → Terms} {id : Text} where
  ledger_claimed-Safe :
      (o : SwapOrder) (hex : Text) (ledger : Option Text)
      → Respects t id o
      → status_eq o.status SwapStatus.counter_claimed ≡ true
      → Safe t id (ledger_claimed o (normalized hex) ledger)
  unfolding respects_secret
  ledger_claimed-Safe o hex none r e = Safe.throws
  ledger_claimed-Safe o hex (some update_id) (r, same) e =
      Safe-put_or_fresh (refl, same) (ground arith)

  settle_main-Safe :
      (hex : Text) (ledger : Option Text) (o : SwapOrder)
      → Respects t id o
      → status_eq o.status SwapStatus.counter_claimed ≡ true
      → Safe t id (settle_main (normalized hex) ledger o)
  unfolding respects_secret
  settle_main-Safe hex ledger o (r, same) e =
      Safe-test
        (λ _. Safe-test (λ _. Safe.throws) (λ _. Safe-put_or_fresh (refl, same) (ground arith)))
        (λ _. Safe-test (λ _. Safe.throws) (λ _. ledger_claimed-Safe o hex ledger (r, same) e))

  settle_race-Safe :
      (hex : Text) (ledger : Option Text) (fresh : SwapOrder)
      → Respects t id fresh
      → Safe t id (settle_race (normalized hex) ledger fresh)
  settle_race-Safe hex ledger fresh r =
      Safe-test (λ _. Safe.returns r)
        (λ _.
          Safe-test (λ _. Safe.throws) (λ e. settle_main-Safe hex ledger fresh r (ground arith)))

  claim_seen-Safe :
      (hex : Text) (ledger : Option Text) (o : SwapOrder) (claim_tx : Text)
      → Respects t id o
      → (status_eq o.status SwapStatus.counter_claimed
          || status_eq o.status SwapStatus.counter_locked)
        ≡ true
      → Safe t id (claim_seen (normalized hex) ledger o claim_tx)
  unfolding respects_secret
  claim_seen-Safe hex ledger o claim_tx (r, same) stage =
      let o' : SwapOrder = revealed_by o (normalized hex) claim_tx in
      let secret : respects_secret o' ≡ true = ground arith in
      Safe-test (λ _. Safe.throws)
        (λ _.
          Safe-test
            (λ _.
              Safe-put_then {o = o'} (secret, same) (ground arith)
                (λ b.
                  Safe-test (λ _. settle_main-Safe hex ledger o' (secret, same) refl)
                    (λ _. Safe-again o (r, same) (settle_race-Safe hex ledger))))
            (λ e.
              settle_main-Safe hex ledger (record o { main_claim_tx = some claim_tx }) (r, same)
                (ground arith)))

  claim_found-Safe :
      (hex : Text) (ledger : Option Text) (o : SwapOrder) (claim_tx : Option Text)
      → Respects t id o
      → (status_eq o.status SwapStatus.counter_claimed
          || status_eq o.status SwapStatus.counter_locked)
        ≡ true
      → Safe t id (claim_found (normalized hex) ledger o claim_tx)
  claim_found-Safe hex ledger o none r stage = Safe.throws
  claim_found-Safe hex ledger o (some claim_tx) r stage =
      Safe-test (λ _. Safe.throws) (λ _. claim_seen-Safe hex ledger o claim_tx r stage)

  claim_with-Safe :
      (keccak : List ℕ → List ℕ) (claim_tx ledger : Option Text) (o : SwapOrder) (hex : Option Text)
      → Respects t id o
      → (status_eq o.status SwapStatus.counter_claimed
          || status_eq o.status SwapStatus.counter_locked)
        ≡ true
      → Safe t id (claim_with keccak claim_tx ledger o hex)
  claim_with-Safe keccak claim_tx ledger o none r stage = Safe.throws
  claim_with-Safe keccak claim_tx ledger o (some hex) r stage =
      Safe-test (λ _. Safe.throws)
        (λ _. Safe-test (λ _. Safe.throws) (λ _. claim_found-Safe hex ledger o claim_tx r stage))

  pub claim_main_as_solver-Safe :
      (keccak : List ℕ → List ℕ) (claim_tx ledger hex : Option Text)
      → Safe t id (claim_main_as_solver keccak claim_tx ledger id hex)
  unfolding claim_main_as_solver
  claim_main_as_solver-Safe keccak claim_tx ledger hex = Safe-must (λ o r.
      Safe-test (λ _. Safe.throws)
        (λ _.
          Safe-test (λ _. Safe.returns r)
            (λ _.
              Safe-test (λ _. Safe.throws)
                (λ e.
                  claim_with-Safe keccak claim_tx ledger o (preimage_for hex o) r (ground arith)))))

module _ (t : Text → Terms) (incoming : SwapOrder)
    (agreed : terms_of incoming ≡ t incoming.id) where
  prepared-Safe : (o : SwapOrder) → Respects t incoming.id o → Safe t incoming.id (prepared o)
  prepared-Safe o r = Safe-test (λ _. Safe.throws) (λ _. Safe.returns r)

  pub prepare_forward_intent-Safe :
      (intake drafts_capped quote_fresh : Bool) (enough : ℕ → Bool) (baseline : List Text)
      (now later : ℕ)
      → Safe t incoming.id (
          prepare_forward_intent intake drafts_capped quote_fresh enough baseline now later
            incoming)
  unfolding prepare_forward_intent
  prepare_forward_intent-Safe intake drafts_capped quote_fresh enough baseline now later =
      Safe-test (λ _. Safe.throws)
        (λ _.
          Safe-and_then (create_order intake incoming now later)
            (create_order-Safe t incoming agreed intake now later)
            (λ _ _. Safe-must (λ o r.
              Safe-test (λ _. Safe.throws)
                (λ _.
                  Safe-test
                    (λ _.
                      Safe-test (λ _. Safe.throws)
                        (λ _.
                          Safe-test (λ _. Safe.throws)
                            (λ _.
                              Safe-and_then (accept enough baseline incoming.id)
                                (accept-Safe enough baseline) (λ _ _. Safe-must prepared-Safe))))
                    (λ _. prepared-Safe o r)))))

  commit_new-Safe :
      (intake verified : Bool) (enough : ℕ → Bool) (baseline : List Text) (now later : ℕ)
      (tx : Text)
      → Safe t incoming.id (commit_new intake verified enough baseline now later incoming tx)
  commit_new-Safe intake verified enough baseline now later tx =
      Safe-and_then (create_order intake incoming now later)
        (create_order-Safe t incoming agreed intake now later)
        (λ _ _. Safe-must (λ fresh r.
          Safe-test
            (λ _.
              Safe-and_then (accept enough baseline incoming.id) (accept-Safe enough baseline)
                (λ _ _. record_main_lock-Safe verified tx))
            (λ _. record_main_lock-Safe verified tx)))

  commit_over-Safe :
      (intake verified : Bool) (enough : ℕ → Bool) (baseline : List Text) (now later : ℕ)
      (tx : Text) (r : Option SwapOrder)
      → WhenFound t incoming.id r
      → Safe t incoming.id (commit_over intake verified enough baseline now later incoming tx r)
  commit_over-Safe intake verified enough baseline now later tx none w =
      commit_new-Safe intake verified enough baseline now later tx
  commit_over-Safe intake verified enough baseline now later tx (some o) r =
      Safe-test (λ _. Safe.returns r)
        (λ _.
          Safe-test (λ _. commit_new-Safe intake verified enough baseline now later tx)
            (λ _. Safe-test (λ _. Safe.throws) (λ _. record_main_lock-Safe verified tx)))

  pub commit_forward_order-Safe :
      (intake verified : Bool) (enough : ℕ → Bool) (baseline : List Text) (now later : ℕ)
      (tx : Text)
      → Safe t incoming.id
          (commit_forward_order intake verified enough baseline now later incoming tx)
  unfolding commit_forward_order
  commit_forward_order-Safe intake verified enough baseline now later tx =
      Safe.reads (commit_over-Safe intake verified enough baseline now later tx)

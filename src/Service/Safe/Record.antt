-- ===== src/Service/Safe/Record.antt =====
-- The records of claims and of deliveries keep to the secret and to the diagram.
use cantonbit.Service.Record.{
  exposed, record_main_claim, Delivery, loop_delivery, claimed_again, claim_recorded,
  settled_before, record_counter_claimed, reconcile_forward_evm_main_claim, with_delivery,
  delivery_attempts, persist_loop_counter_delivery_evidence,
}
use cantonbit.Service.Safe.Claim.{again}
use cantonbit.Shared.{
  ℕ, zero, suc, ◌≡◌, refl, Bool, true, Option, some, List, arith, Text, Result, ok, err, trim,
}
use cantonbit.Htlc.Order.{SwapOrder, SwapStatus, status_eq}
use cantonbit.Htlc.Invariants.{htlc_can_expose_preimage_to_solver, Refusal}
use cantonbit.Service.Safe.{
  truthy, Safe, Respects, respects_secret, Terms, Safe-test, Safe-must, Safe-put_or_fresh,
  Safe-put_then,
}

recorded_Respects :
    (o : SwapOrder) (hex claim_ref : Text) → respects_secret (claim_recorded o hex claim_ref) ≡ true
unfolding respects_secret
recorded_Respects o hex claim_ref = ground arith

-- What the gate lets through has its secret.
exposed_secret :
    (o : SwapOrder)
    → htlc_can_expose_preimage_to_solver o ≡ ok tt
    → truthy o.revealed_preimage ≡ true
unfolding htlc_can_expose_preimage_to_solver
exposed_secret o e = ground arith

module _ {t : Text → Terms} {id : Text} where
  exposed-Safe :
      (verified : Bool) (tx : Text) (o : SwapOrder) (gate : Result Refusal (Unit {0}))
      → htlc_can_expose_preimage_to_solver o ≡ gate
      → Respects t id o
      → Safe t id (exposed verified tx o gate)
  unfolding respects_secret
  exposed-Safe verified tx o (err e) g r = Safe.throws
  exposed-Safe verified tx o (ok u) g (r, same) =
      let out = exposed_secret o g in
      Safe-test (λ _. Safe.throws) (λ _. Safe-put_or_fresh (ground arith, same) refl)

  pub record_main_claim-Safe :
      (verified : Bool) (tx : Text) → Safe t id (record_main_claim verified id tx)
  unfolding record_main_claim
  record_main_claim-Safe verified tx = Safe-must (λ o r.
      Safe-test (λ _. Safe.throws)
        (λ _.
          Safe-test (λ _. Safe.throws)
            (λ _. exposed-Safe verified tx o (htlc_can_expose_preimage_to_solver o) refl r)))

  loop_delivery-Safe :
      (o : SwapOrder) (claim_ref : Text) (delivery : Delivery)
      → Respects t id o
      → status_eq o.status SwapStatus.counter_claimed ≡ true
      → Safe t id (loop_delivery o claim_ref delivery)
  unfolding respects_secret
  loop_delivery-Safe o claim_ref Delivery.delivered (r, same) e =
      Safe-put_or_fresh (r, same) (ground arith)
  loop_delivery-Safe o claim_ref Delivery.consumed (r, same) e =
      Safe-test (λ _. Safe-put_or_fresh (r, same) (ground arith)) (λ _. Safe.throws)
  loop_delivery-Safe o claim_ref Delivery.unproven r e = Safe.throws

  claimed_again-Safe :
      (o : SwapOrder) (claim_ref : Text) (delivery : Delivery)
      → Respects t id o
      → status_eq o.status SwapStatus.counter_claimed ≡ true
      → Safe t id (claimed_again o claim_ref delivery)
  claimed_again-Safe o claim_ref delivery r e =
      Safe-test
        (λ _.
          Safe-test (λ _. Safe.returns r)
            (λ _. Safe-test (λ _. Safe.throws) (λ _. loop_delivery-Safe o claim_ref delivery r e)))
        (λ _. Safe.returns r)

  settled_before-Safe :
      (claim_verified : Bool) (claim_ref : Text) (o : SwapOrder)
      → Respects t id o
      → status_eq o.status SwapStatus.main_claimed ≡ true
      → Safe t id (settled_before claim_verified claim_ref o)
  unfolding respects_secret
  settled_before-Safe claim_verified claim_ref o (r, same) e =
      let o' : SwapOrder = record o { main_claim_tx = some claim_ref } in
      Safe-test (λ _. Safe.returns (r, same))
        (λ _.
          Safe-test (λ _. Safe-test (λ _. Safe.returns (r, same)) (λ _. Safe.throws))
            (λ _.
              Safe-test (λ _. Safe.throws)
                (λ _.
                  Safe-put_then {o = o'} (r, same) (ground arith)
                    (λ b.
                      Safe-test (λ _. Safe.returns {o = o'} (r, same))
                        (λ _. Safe.returns (r, same))))))

  pub record_counter_claimed-Safe :
      (keccak : List ℕ → List ℕ) (lock_verified claimed claim_verified : Bool) (delivery : Delivery)
      (hex update_id : Text)
      → Safe t id (
          record_counter_claimed keccak lock_verified claimed claim_verified delivery id hex
            update_id)
  unfolding record_counter_claimed
  record_counter_claimed-Safe keccak lock_verified claimed claim_verified delivery hex update_id =
      let claim_ref = trim update_id in
      Safe-must (λ o (r, same).
        Safe-test (λ _. Safe.throws)
          (λ _.
            Safe-test (λ _. Safe.throws)
              (λ _.
                Safe-test
                  (λ e. settled_before-Safe claim_verified claim_ref o (r, same) (ground arith))
                  (λ _.
                    Safe-test (λ _. Safe.returns (r, same))
                      (λ _.
                        Safe-test (λ _. Safe.throws)
                          (λ _.
                            Safe-test (λ _. Safe.throws)
                              (λ _.
                                Safe-test (λ e. claimed_again-Safe o claim_ref delivery (r, same) e)
                                  (λ _.
                                    Safe-test (λ _. Safe.throws)
                                      (λ _.
                                        Safe-put_or_fresh (recorded_Respects o hex claim_ref, same)
                                          refl)))))))))

  pub reconcile_forward-Safe :
      (lock_empty : Bool) (claim_tx : Option Text) (verified : Bool) (o : SwapOrder)
      → Respects t id o
      → Safe t id (reconcile_forward_evm_main_claim lock_empty claim_tx verified o)
  unfolding reconcile_forward_evm_main_claim respects_secret
  reconcile_forward-Safe lock_empty claim_tx verified o (r, same) =
      Safe-test (λ _. Safe.returns (r, same))
        (λ stage.
          Safe-test (λ _. Safe-put_or_fresh (ground arith, same) refl)
            (λ _.
              Safe-test (λ _. Safe.returns (r, same))
                (λ _.
                  Safe-test (λ _. Safe.returns (r, same))
                    (λ _. Safe-put_or_fresh (ground arith, same) refl))))

  delivery_attempts-Safe :
      (left : ℕ) (update_id : Text) (offer : Option Text) (direct : Bool)
      → Safe t id (delivery_attempts left id update_id offer direct)
  unfolding delivery_attempts respects_secret
  delivery_attempts-Safe zero update_id offer direct =
      Safe-must (λ o r. Safe-test (λ _. Safe.returns r) (λ _. Safe.throws))
  delivery_attempts-Safe (suc left) update_id offer direct = Safe-must (λ fresh (r, same).
      let o' : SwapOrder = with_delivery fresh update_id offer direct in
      Safe-test (λ _. Safe.throws)
        (λ _.
          Safe-test (λ _. Safe.throws)
            (λ _.
              Safe-test (λ _. Safe.throws)
                (λ _.
                  Safe-put_then {o = o'} (r, same) (again fresh.status)
                    (λ b.
                      Safe-test (λ _. Safe.returns {o = o'} (r, same))
                        (λ _. delivery_attempts-Safe left update_id offer direct))))))

  pub persist_delivery-Safe :
      (update_id : Text) (offer : Option Text) (direct : Bool)
      → Safe t id (persist_loop_counter_delivery_evidence id update_id offer direct)
  unfolding persist_loop_counter_delivery_evidence
  persist_delivery-Safe update_id offer direct = delivery_attempts-Safe 3 update_id offer direct

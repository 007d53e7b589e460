-- ===== src/C2c/Service/Safe/CounterLeg.antt =====
-- What the acceptance of a counter leg, and its proof on filled orders, keep to.
use cantonbit.Shared.{truthy, ◌≡◌, true, Option, none, some, arith, Text, Result}
use cantonbit.C2c.Order.{CantonSwapOrder, CantonSwapStatus, is_loop, status_eq}
use cantonbit.C2c.Service.Diagram.{may_advance}
use cantonbit.C2c.Service.Fill.{Fill, apply_filled_proof_repair}
use cantonbit.C2c.Service.Receipt.{Proof, verify_counter_leg_receipt_proof}
use cantonbit.C2c.Service.Sweep.{has_status}
use cantonbit.C2c.Service.Counter.{
  Acceptance, Delivery, fee_accounted, filled_by_delivery, mark_counter_accepted, mark_filled,
  mark_proved, reconcile_filled_loop_counter_proof, waiting_status,
}
use cantonbit.C2c.Service.Safe.{
  Copy, Safe, Safe-if_ok, Safe-if_some, Safe-must_or, Safe-test, Safe-thrown, Safe-transition,
  Terms, sound, terms_of,
}
use cantonbit.C2c.Service.Safe.Selling.{of_not}
use cantonbit.C2c.Service.Safe.Sweeping.{Safe-counted, Safe-ignored, Safe-noted, Safe-swept}

filled-sound :
    (o : CantonSwapOrder)
    → truthy o.settlement_update_id ≡ true
    → sound (record o { status = CantonSwapStatus.filled; failure_reason = none }) ≡ true
unfolding sound
filled-sound o e = ground arith

waiting_advance :
    (o : CantonSwapOrder)
    → may_advance o.wallet_mode (waiting_status o) CantonSwapStatus.filled ≡ true
waiting_advance o = ground arith

noted_filled-sound :
    (o : CantonSwapOrder) (receipt : Option Text) (reason : Option Text)
    → sound o ≡ true
    → status_eq o.status CantonSwapStatus.filled ≡ true
    → sound (record o { counter_receipt_update_id = receipt; failure_reason = reason }) ≡ true
unfolding sound
noted_filled-sound o receipt reason s e = ground arith

filled_stays :
    (o : CantonSwapOrder)
    → status_eq o.status CantonSwapStatus.filled ≡ true
    → may_advance o.wallet_mode CantonSwapStatus.filled o.status ≡ true
filled_stays o e = ground arith

proof_repair_lem :
    (o : CantonSwapOrder) (r : Fill)
    → is_loop o.wallet_mode ≡ true
    → (sound (apply_filled_proof_repair o r) ≡ true)
      × (may_advance o.wallet_mode CantonSwapStatus.filled (apply_filled_proof_repair o r).status
          ≡ true)
unfolding sound apply_filled_proof_repair
proof_repair_lem o r e = ground arith

module _ {t : Text → Terms} {id : Text} where
  mark_filled-Safe :
      {known : Option CantonSwapStatus} (prior : CantonSwapStatus) (o : CantonSwapOrder)
      → o.id ≡ id
      → terms_of o ≡ t id
      → truthy o.settlement_update_id ≡ true
      → may_advance o.wallet_mode prior CantonSwapStatus.filled ≡ true
      → Safe t id known (mark_filled id prior o)
  mark_filled-Safe prior o same terms e m =
      let c : Copy t id (record o { status = CantonSwapStatus.filled; failure_reason = none }) =
        (filled-sound o e, same, terms) in
      Safe-transition c m (Safe.returns c)
        (Safe-must_or Safe-thrown (λ fresh d _. Safe-test (λ _. Safe.returns d) (λ _. Safe.throws)))
        Safe-thrown

  mark_proved-Safe :
      {known : Option CantonSwapStatus} (a : Acceptance) (o : CantonSwapOrder) (p : Proof)
      → Copy t id o
      → truthy o.settlement_update_id ≡ true
      → Safe t id known (mark_proved a id (waiting_status o) o p)
  mark_proved-Safe a o (Proof.received u) (s, same, terms) e =
      Safe-test
        (λ _.
          Safe-if_ok a.recorded
            (λ _ _.
              mark_filled-Safe (waiting_status o)
                (fee_accounted (record o { counter_receipt_update_id = some u })) same terms e
                (waiting_advance o))
            Safe-thrown)
        (λ _.
          mark_filled-Safe (waiting_status o) (record o { counter_receipt_update_id = some u }) same
            terms e (waiting_advance o))
  mark_proved-Safe a o Proof.pending c e = Safe.throws
  mark_proved-Safe a o Proof.not_received c e = Safe.throws
  mark_proved-Safe a o Proof.unknown c e = Safe.throws

  pub mark_counter_accepted-Safe : (a : Acceptance) → Safe t id none (mark_counter_accepted a id)
  unfolding mark_counter_accepted
  mark_counter_accepted-Safe a = Safe-must_or Safe-thrown (λ o c _.
      Safe-test (λ _. Safe.throws)
        (λ _.
          Safe-test (λ _. Safe.throws)
            (λ _.
              Safe-test (λ _. Safe.throws)
                (λ e.
                  Safe-if_ok a.listed
                    (λ listed _.
                      Safe-test (λ _. Safe.throws)
                        (λ _.
                          Safe-if_ok (verify_counter_leg_receipt_proof o 5 a.readings)
                            (λ p _. mark_proved-Safe a o p c (of_not e)) Safe-thrown))
                    Safe-thrown))))

  filled_by_delivery-Safe :
      {known : Option CantonSwapStatus} (o : CantonSwapOrder) (d : Delivery)
      → Copy t id o
      → status_eq o.status CantonSwapStatus.filled ≡ true
      → Safe t id known (filled_by_delivery o d)
  filled_by_delivery-Safe o (Delivery.delivered u) c e =
      Safe-counted _ CantonSwapStatus.filled (noted_filled-sound o (some u) none c.0 e, c.1, c.2)
        (filled_stays o e)
  filled_by_delivery-Safe o Delivery.unreadable c e =
      Safe-noted _ CantonSwapStatus.filled
        (noted_filled-sound o o.counter_receipt_update_id _ c.0 e, c.1, c.2) (filled_stays o e)
  filled_by_delivery-Safe o Delivery.undelivered c e =
      Safe-noted _ CantonSwapStatus.filled
        (noted_filled-sound o o.counter_receipt_update_id _ c.0 e, c.1, c.2) (filled_stays o e)

  pub reconcile_filled-Safe :
      (repaired : Result Text (Option Fill)) (delivery : Result Text Delivery)
      → Safe t id none (reconcile_filled_loop_counter_proof repaired delivery id)
  unfolding reconcile_filled_loop_counter_proof
  reconcile_filled-Safe repaired delivery =
      Safe-swept (has_status CantonSwapStatus.filled) (λ o c w.
        Safe-test (λ _. Safe.skips)
          (λ e.
            Safe-if_ok repaired
              (λ found _.
                Safe-if_some found
                  (λ r _.
                    let (s, m) = proof_repair_lem o r (ground arith) in
                    Safe-counted (apply_filled_proof_repair o r) CantonSwapStatus.filled
                      (
                        s,
                        unfold apply_filled_proof_repair in c.1,
                        unfold apply_filled_proof_repair in c.2,
                      )
                      m)
                  (Safe-if_ok delivery (λ d _. filled_by_delivery-Safe o d c w) Safe-ignored))
              Safe-ignored))

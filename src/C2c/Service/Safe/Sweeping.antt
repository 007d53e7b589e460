-- ===== src/C2c/Service/Safe/Sweeping.antt =====
-- What the sweeps keep to.
use cantonbit.Shared.{
  ℕ, ◌≡◌, refl, Bool, true, false, Option, none, some, arith, Text, Result, ◌∙◌, truthy,
}
use cantonbit.C2c.Order.{CantonSwapOrder, CantonSwapStatus, WalletMode, is_loop}
use cantonbit.C2c.Service.Call.{Call}
use cantonbit.C2c.Service.Diagram.{may_advance}
use cantonbit.C2c.Service.Fill.{Fill, loop_filled}
use cantonbit.C2c.Service.Settle.{accounted}
use cantonbit.C2c.Service.Receipt.{Proof, Reading, verify_counter_leg_receipt_proof}
use cantonbit.C2c.Service.Filling.{Filling, back_to_locked}
use cantonbit.C2c.Service.Sweep.{
  count_filled, counted, has_status, history_entry, ignore, may_lag, noted, received_with,
  reconcile_expired_managed, reconcile_failed_loop, reconcile_filling,
  reconcile_network_fee_accounting, reconcile_settling, repair_fill, row_of, settled_by_proof,
  shown, swept,
}
use cantonbit.C2c.Service.Safe.{
  Copy, Safe, Safe-if_ok, Safe-if_some, Safe-test, Safe-transition, Seen, Terms, after, sound,
  stay_advance,
}
use cantonbit.C2c.Service.Safe.Repair.{repair_managed-Safe, settles}
use cantonbit.C2c.Service.Safe.Settling.{accounted-sound}
use cantonbit.C2c.Service.Safe.Selling.{of_not}
use cantonbit.C2c.Service.Safe.LoopFill.{apply_loop-Safe, fill_advance, fill_loop-Safe}

filled_advance :
    (m : WalletMode) (s : CantonSwapStatus)
    → is_loop m ≡ false
    → settles s ≡ true
    → may_advance m s CantonSwapStatus.filled ≡ true
filled_advance m s e h = ground arith

retry-sound : (reason : Text) (o : CantonSwapOrder) → sound (back_to_locked reason o) ≡ true
unfolding sound
retry-sound reason o = ground arith

retry_advance :
    (m : WalletMode)
    → is_loop m ≡ true
    → may_advance m CantonSwapStatus.failed CantonSwapStatus.user_locked ≡ true
retry_advance m e = ground arith

pub received_with-sound :
    (update_id : Text) (o : CantonSwapOrder)
    → truthy o.settlement_update_id ≡ true
    → sound (received_with update_id o) ≡ true
unfolding sound
received_with-sound update_id o e = ground arith

pub has_status→eq :
    (s : CantonSwapStatus) (o : CantonSwapOrder) → has_status s o ≡ true → o.status ≡ s
has_status→eq s o e = ground arith

module _ {t : Text → Terms} {id : Text} where
  Safe-row_of :
      (known : Option CantonSwapStatus) (wanted : CantonSwapOrder → Bool)
      {body : CantonSwapOrder → Call} (r : Option CantonSwapOrder)
      → ((o : CantonSwapOrder) → Copy t id o → wanted o ≡ true → Safe t id (some o.status) (body o))
      → Seen t id r known
      → Safe t id (after known r) (row_of wanted body r)
  Safe-row_of known wanted none p w = Safe.skips
  Safe-row_of known wanted (some o) p (c, f) = Safe-test (λ e. p o c e) (λ _. Safe.skips)

  pub Safe-swept :
      (wanted : CantonSwapOrder → Bool) {body : CantonSwapOrder → Call}
      → ((o : CantonSwapOrder) → Copy t id o → wanted o ≡ true → Safe t id (some o.status) (body o))
      → Safe t id none (swept wanted id body)
  Safe-swept wanted p = Safe.reads (λ r w. Safe-row_of none wanted r p w)

  pub Safe-ignored : {known : Option CantonSwapStatus} (msg : Text) → Safe t id known (ignore msg)
  Safe-ignored msg = Safe.skips

  pub Safe-counted :
      {known : Option CantonSwapStatus} (o : CantonSwapOrder) (s : CantonSwapStatus)
      → Copy t id o
      → may_advance o.wallet_mode s o.status ≡ true
      → Safe t id known (counted o s)
  Safe-counted o s c m = Safe-transition c m (Safe.returns c) Safe.skips Safe-ignored

  pub Safe-noted :
      {known : Option CantonSwapStatus} (o : CantonSwapOrder) (s : CantonSwapStatus)
      → Copy t id o
      → may_advance o.wallet_mode s o.status ≡ true
      → Safe t id known (noted o s)
  Safe-noted o s c m = Safe-transition c m Safe.skips Safe.skips Safe-ignored

  repair_fill-Safe :
      {known : Option CantonSwapStatus} (o : CantonSwapOrder) (s : CantonSwapStatus) (r : Fill)
      → Copy t id o
      → may_advance o.wallet_mode s (loop_filled o r).status ≡ true
      → Safe t id known (repair_fill o s r)
  repair_fill-Safe o s r c m =
      apply_loop-Safe o r (λ o'. counted o' s) ignore c (λ d. Safe-counted (loop_filled o r) s d m)
        Safe-ignored

  pub reconcile_filling-Safe :
      (repaired : Result Text (Option Fill)) (a : Filling)
      → Safe t id none (reconcile_filling repaired a id)
  unfolding reconcile_filling
  reconcile_filling-Safe repaired a = Safe-swept (has_status CantonSwapStatus.filling) (λ o c _.
      Safe-test (λ _. Safe.skips)
        (λ e.
          Safe-if_ok repaired
            (λ found _.
              Safe-if_some found
                (λ r _.
                  repair_fill-Safe o CantonSwapStatus.filling r c
                    (fill_advance o.wallet_mode r o (of_not e)).0)
                (fill_loop-Safe a))
            Safe-ignored))

  pub reconcile_failed_loop-Safe :
      (repaired : Result Text (Option Fill)) (now : ℕ)
      → Safe t id none (reconcile_failed_loop repaired now id)
  unfolding reconcile_failed_loop
  reconcile_failed_loop-Safe repaired now =
      Safe-swept (has_status CantonSwapStatus.failed) (λ o c _.
        Safe-test (λ _. Safe.skips)
          (λ e.
            Safe-test (λ _. Safe.skips)
              (λ _.
                Safe-if_ok repaired
                  (λ found _.
                    Safe-if_some found
                      (λ r _.
                        repair_fill-Safe o CantonSwapStatus.failed r c
                          (fill_advance o.wallet_mode r o (of_not e)).1)
                      (Safe-test
                        (λ _.
                          Safe-counted (back_to_locked _ o) CantonSwapStatus.failed
                            (retry-sound _ o, c.1, c.2) (retry_advance o.wallet_mode (of_not e)))
                        (λ _. Safe.skips)))
                  Safe-ignored)))

  settled_by_proof-Safe :
      {known : Option CantonSwapStatus} (o : CantonSwapOrder) (p : Proof)
      → Copy t id o
      → is_loop o.wallet_mode ≡ false
      → truthy o.settlement_update_id ≡ true
      → Safe t id known (settled_by_proof o p)
  settled_by_proof-Safe o (Proof.received u) c e h =
      Safe-counted (received_with u o) CantonSwapStatus.settling
        (received_with-sound u o h, c.1, c.2)
        (filled_advance o.wallet_mode CantonSwapStatus.settling e refl)
  settled_by_proof-Safe o Proof.pending c e h = Safe.skips
  settled_by_proof-Safe o Proof.not_received c e h = Safe.skips
  settled_by_proof-Safe o Proof.unknown c e h = Safe.skips

  pub reconcile_settling-Safe :
      (repaired : Result Text (Option Fill)) (readings : ℕ → Result Text Reading)
      → Safe t id none (reconcile_settling repaired readings id)
  unfolding reconcile_settling
  reconcile_settling-Safe repaired readings = Safe-swept _ (λ o c w.
      Safe-test (λ _. Safe.skips)
        (λ e.
          repair_managed-Safe ignore Call.done _ repaired o c (λ _. ground arith)
            (λ msg known. Safe.skips) (λ known x d. Safe.returns d)
            (Safe-test
              (λ h.
                Safe-if_ok (verify_counter_leg_receipt_proof o 3 readings)
                  (λ p _. settled_by_proof-Safe o p c e (ground arith)) Safe-ignored)
              (λ _. Safe.skips))))

  pub reconcile_expired_managed-Safe :
      (repaired : Result Text (Option Fill))
      → Safe t id none (reconcile_expired_managed repaired id)
  unfolding reconcile_expired_managed
  reconcile_expired_managed-Safe repaired = Safe-swept may_lag (λ o c w.
      Safe-test (λ _. Safe.skips)
        (λ e.
          repair_managed-Safe ignore count_filled Call.skip repaired o c (λ _. ground arith)
            (λ msg known. Safe.skips)
            (λ known x d. Safe-test (λ _. Safe.returns d) (λ _. Safe.skips)) Safe.skips))

  shown-Safe :
      (known : Option CantonSwapStatus) (repaired : Result Text (Option Fill))
      (r : Option CantonSwapOrder)
      → Seen t id r known
      → Safe t id (after known r) (shown repaired r)
  shown-Safe known repaired none w = Safe.skips
  shown-Safe known repaired (some o) (c, f) =
      Safe-test
        (λ e.
          repair_managed-Safe Call.throw Call.done (Call.done o) repaired o c (λ _. ground arith)
            (λ msg known. Safe.throws) (λ known x d. Safe.returns d) (Safe.returns c))
        (λ _. Safe.returns c)

  pub history_entry-Safe :
      (repaired : Result Text (Option Fill)) → Safe t id none (history_entry repaired id)
  unfolding history_entry
  history_entry-Safe repaired = Safe.reads (λ r w. shown-Safe none repaired r w)

  pub reconcile_network_fee_accounting-Safe :
      (positive : Text → Bool) (recorded : Bool)
      → Safe t id none (reconcile_network_fee_accounting positive recorded id)
  unfolding reconcile_network_fee_accounting
  reconcile_network_fee_accounting-Safe positive recorded = Safe-swept _ (λ o c _.
      Safe-test (λ _. Safe.skips)
        (λ _.
          Safe-test
            (λ _.
              let d : Copy t id (accounted o) = (accounted-sound o ∙ c.0, c.1, c.2) in
              Safe-counted (accounted o) o.status d (stay_advance o.wallet_mode o.status))
            (λ _. Safe.skips)))

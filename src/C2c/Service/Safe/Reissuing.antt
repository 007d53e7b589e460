-- ===== src/C2c/Service/Safe/Reissuing.antt =====
-- What the reissue of counter offers keeps to. An order may be read at one status and written when it
-- is locked again: what can be written is what the diagram allows after such a way.
use cantonbit.Shared.{◌≡◌, refl, true, Option, none, some, arith, Text, ok, ◌∙◌}
use cantonbit.C2c.Order.{CantonSwapOrder, CantonSwapStatus, is_loop}
use cantonbit.C2c.Service.Diagram.{may_advance}
use cantonbit.C2c.Service.Reserve.{plain_move}
use cantonbit.C2c.Service.Receipt.{Proof, verify_counter_leg_receipt_proof}
use cantonbit.C2c.Service.Filling.{assert_current_swap_float}
use cantonbit.C2c.Service.Sweep.{has_status, ignore}
use cantonbit.C2c.Service.Reissue.{
  Reissue, by_first_proof, by_recheck, cooled, recheck, reconcile_loop_counters, reissue,
  reissue_with,
}
use cantonbit.C2c.Service.Safe.{
  sym, ap, subst, Safe, Safe-by_outcome, Safe-if_ok, Safe-must_or, Safe-test, Terms, mode_of-Copy,
  stay_advance,
}
use cantonbit.C2c.Service.Safe.Reserve.{reserve_swap_float-Safe}
use cantonbit.C2c.Service.Safe.Sweeping.{Safe-ignored, Safe-swept}
use cantonbit.C2c.Service.Safe.Reissued.{
  Puttable, away, away_path, keep_waiting-Safe, locked_advance, loop_of_guard, mode, note-Safe,
  read_advance, received-Safe, received_settled, reissued-Puttable, try_complete-Safe,
}

module _ (t : Text → Terms) (id : Text) (loop : is_loop (t id).wallet_mode ≡ true) where
  -- `before` is the order as it was when the sweep came to it.
  module _ (a : Reissue) (before : CantonSwapOrder) where
    reissue_with-Safe :
        {known : Option CantonSwapStatus} (o : CantonSwapOrder)
        → Puttable t id loop known o
        → Safe t id known (reissue_with a before o)
    reissue_with-Safe o q =
        Safe-if_ok (assert_current_swap_float o a.float_now)
          (λ _ _.
            Safe-test
              (λ e.
                Safe-if_ok a.result
                  (λ r _.
                    let (d, p) = reissued-Puttable t id loop _ o r (e) q in
                    Safe.puts d p (Safe-by_outcome (Safe.returns d) Safe.skips Safe-ignored))
                  Safe-ignored)
              (λ _. Safe.skips))
          Safe-ignored

    reissue-Safe :
        {known : Option CantonSwapStatus} (o : CantonSwapOrder)
        → Puttable t id loop known o
        → Safe t id known (reissue a before o)
    reissue-Safe o q =
        Safe-test
          (λ _.
            reserve_swap_float-Safe ignore _ (λ msg known. Safe.skips)
              (plain_move CantonSwapStatus.user_locked CantonSwapStatus.user_locked)
              (λ x d e.
                Safe-test
                  (λ _. reissue_with-Safe x (
                    d,
                    λ _.
                        subst (λ s. may_advance x.wallet_mode CantonSwapStatus.user_locked s ≡ true)
                          (sym e) (stay_advance x.wallet_mode CantonSwapStatus.user_locked),
                  ))
                  (λ _. Safe.skips))
              (
                stay_advance (t id).wallet_mode CantonSwapStatus.user_locked,
                refl,
                (λ p. ground arith),
              )
              a.floats o q.0)
          (λ _. reissue_with-Safe o q)

    by_recheck-Safe :
        {known : Option CantonSwapStatus} (o : CantonSwapOrder) (p : Proof)
        → verify_counter_leg_receipt_proof o 4 a.readings_again ≡ ok p
        → Puttable t id loop known o
        → Safe t id known (by_recheck a before o p)
    by_recheck-Safe o (Proof.received u) e q =
        received-Safe t id loop u o q.0 (received_settled o 4 a.readings_again e)
    by_recheck-Safe o Proof.pending e q = note-Safe t id loop o none o.failure_reason q
    by_recheck-Safe o Proof.unknown e q = note-Safe t id loop o o.counter_pending_cleared_at _ q
    by_recheck-Safe o Proof.not_received e q =
        try_complete-Safe t id loop a.delivery_again (reissue a before) o (λ x p. reissue-Safe x p)
          q

    recheck-Safe :
        {known : Option CantonSwapStatus} (o : CantonSwapOrder)
        → Puttable t id loop known o
        → Safe t id known (recheck a before o)
    recheck-Safe o q =
        Safe-test
          (λ _.
            Safe-if_ok (verify_counter_leg_receipt_proof o 4 a.readings_again)
              (λ p e. by_recheck-Safe o p e q) Safe-ignored)
          (λ _. Safe.skips)

  module _ (a : Reissue) where
    -- The order is read again; what is known of it came from a locked order.
    cooled-Safe :
        (s : CantonSwapStatus) (o : CantonSwapOrder)
        → away s ≡ true
        → Puttable t id loop (some s) o
        → Safe t id (some s) (cooled a id o)
    cooled-Safe s o h q =
        Safe-test (λ _. note-Safe t id loop o (some a.now) _ q)
          (λ _.
            Safe-test
              (λ _. Safe-must_or Safe-ignored (λ fresh d f. recheck-Safe a o fresh (
                d,
                λ p.
                    read_advance fresh.wallet_mode fresh.status (mode t id loop fresh d)
                      (away_path (t id).wallet_mode loop f h) p,
              )))
              (λ _. Safe.skips))

    by_first_proof-Safe :
        (s : CantonSwapStatus) (o : CantonSwapOrder) (p : Proof)
        → away s ≡ true
        → verify_counter_leg_receipt_proof o 8 a.readings ≡ ok p
        → Puttable t id loop (some s) o
        → Safe t id (some s) (by_first_proof a id o p)
    by_first_proof-Safe s o (Proof.received u) h e q =
        received-Safe t id loop u o q.0 (received_settled o 8 a.readings e)
    by_first_proof-Safe s o Proof.pending h e q = keep_waiting-Safe t id loop o q
    by_first_proof-Safe s o Proof.unknown h e q =
        note-Safe t id loop o o.counter_pending_cleared_at _ q
    by_first_proof-Safe s o Proof.not_received h e q =
        try_complete-Safe t id loop a.delivery (cooled a id) o (λ x p. cooled-Safe s x h p) q

pub reconcile_loop_counters-Safe :
    (t : Text → Terms) (id : Text) (a : Reissue) → Safe t id none (reconcile_loop_counters a id)
unfolding reconcile_loop_counters
reconcile_loop_counters-Safe t id a = Safe-swept (has_status CantonSwapStatus.user_locked) (λ o c w.
    Safe-test (λ _. Safe.skips)
      (λ e.
        let loop : is_loop (t id).wallet_mode ≡ true =
          ap is_loop (sym (mode_of-Copy t id o c)) ∙ loop_of_guard o e in
        let locked = locked_advance o w in
        Safe-if_ok a.listed
          (λ listed _.
            Safe-test (λ _. keep_waiting-Safe t id loop o (c, λ _. locked.0))
              (λ _.
                Safe-if_ok (verify_counter_leg_receipt_proof o 8 a.readings)
                  (λ p f.
                    by_first_proof-Safe t id loop a o.status o p locked.1 f (c, λ _. locked.0))
                  Safe-ignored))
          Safe-ignored))

-- ===== src/C2c/Service/Safe/LoopFill.antt =====
-- What the fill of Loop orders keeps to.
use cantonbit.Shared.{◌≡◌, refl, ◌≢◌, true, false, not, ◌&&◌, Option, arith, Text, ok, ◌∙◌}
use cantonbit.C2c.Order.{CantonSwapOrder, CantonSwapStatus, WalletMode, is_loop, status_eq}
use cantonbit.C2c.Service.Call.{Call, if_ok}
use cantonbit.C2c.Service.Diagram.{may_advance}
use cantonbit.C2c.Service.Reserve.{enforce_settlement_quote, plain_move}
use cantonbit.C2c.Service.Fill.{Fill, apply_loop_fill_result, loop_filled}
use cantonbit.C2c.Service.Filling.{
  Filling, assert_current_swap_float, back_to_locked, fill_again, fill_failed, fill_failure,
  fill_from, fill_loop, fill_or_repair, fill_reserved, filled_with, put_and_read,
}
use cantonbit.C2c.Service.Safe.{
  sym, ap, subst, Copy, Safe, Safe-fresh, Safe-if_ok, Safe-if_some, Safe-must_or, Safe-test,
  Safe-thrown, Safe-transition, Terms, may_hold, mode_of-Copy, sound, stay_advance,
}
use cantonbit.C2c.Service.Safe.Create.{reopen_over-Safe}
use cantonbit.C2c.Service.Safe.Reserve.{reserve_swap_float-Safe}
use cantonbit.C2c.Service.Safe.Selling.{of_not}

loop_filled_lem : (o : CantonSwapOrder) (r : Fill) → (sound (loop_filled o r) ≡ true)
unfolding sound
loop_filled_lem o r = ground arith

apply_loop_lem :
    (o : CantonSwapOrder) (r : Fill) {o' : CantonSwapOrder}
    → apply_loop_fill_result o r ≡ ok o'
    → loop_filled o r ≡ o'
unfolding apply_loop_fill_result
apply_loop_lem o r e = ground arith

-- A fill can be written over an order that is being filled, or whose fill has failed.
pub fill_advance :
    (m : WalletMode) (r : Fill) (o : CantonSwapOrder)
    → is_loop m ≡ true
    → (may_advance m CantonSwapStatus.filling (loop_filled o r).status ≡ true)
      × (may_advance m CantonSwapStatus.failed (loop_filled o r).status ≡ true)
fill_advance m r o e = ground arith

filling_advance :
    (m : WalletMode)
    → is_loop m ≡ true
    → (may_advance m CantonSwapStatus.filling CantonSwapStatus.user_locked ≡ true)
      × (may_advance m CantonSwapStatus.filling CantonSwapStatus.failed ≡ true)
      × (may_advance m CantonSwapStatus.user_locked CantonSwapStatus.filling ≡ true)
filling_advance m e = ground arith

fill_failure-sound : (msg : Text) (o : CantonSwapOrder) → sound (fill_failure msg o) ≡ true
unfolding sound
fill_failure-sound msg o = refl

-- An order that is taken up, or put back, is in the hands of the vault.
back_to_locked-sound :
    (reason : Text) (o : CantonSwapOrder) → sound (back_to_locked reason o) ≡ true
unfolding sound
back_to_locked-sound reason o = ground arith

taken_up-sound :
    (o : CantonSwapOrder) → sound (record o { status = CantonSwapStatus.filling }) ≡ true
unfolding sound
taken_up-sound o = ground arith

held :
    (s : CantonSwapStatus)
    → not (status_eq s CantonSwapStatus.user_locked) && not (status_eq s CantonSwapStatus.filling)
      ≡ false
    → may_hold s ≡ true
held s e = ground arith

not_filled :
    (s : CantonSwapStatus)
    → not (status_eq s CantonSwapStatus.user_locked) && not (status_eq s CantonSwapStatus.filling)
      ≡ false
    → s ≢ CantonSwapStatus.filled
not_filled s e f = ground arith

module _ {t : Text → Terms} {id : Text} where
  put_and_read-Safe :
      {known : Option CantonSwapStatus} (o : CantonSwapOrder)
      → Copy t id o
      → may_advance o.wallet_mode CantonSwapStatus.filling o.status ≡ true
      → Safe t id known (put_and_read id o)
  put_and_read-Safe o c m = Safe-transition c m Safe-fresh Safe-fresh Safe-thrown

  -- A fill of the ledger over a status from which it may be written.
  pub apply_loop-Safe :
      {known : Option CantonSwapStatus} (o : CantonSwapOrder) (r : Fill)
      (next : CantonSwapOrder → Call) (fail : Text → Call)
      → Copy t id o
      → (Copy t id (loop_filled o r) → Safe t id known (next (loop_filled o r)))
      → ((msg : Text) → Safe t id known (fail msg))
      → Safe t id known (if_ok (apply_loop_fill_result o r) next fail)
  apply_loop-Safe {known} o r next fail (s, same, terms) p q =
      Safe-if_ok (apply_loop_fill_result o r)
        (λ o' e.
          subst (λ x. Safe t id known (next x)) (apply_loop_lem o r e)
            (p (loop_filled_lem o r, same, terms)))
        q

module _ (t : Text → Terms) (id : Text) (loop : is_loop (t id).wallet_mode ≡ true) where
  mode : (o : CantonSwapOrder) → Copy t id o → is_loop o.wallet_mode ≡ true
  mode o c = ap is_loop (mode_of-Copy t id o c) ∙ loop

  fill_failed-Safe :
      {known : Option CantonSwapStatus} (o : CantonSwapOrder) (msg : Text)
      → Copy t id o
      → Safe t id known (fill_failed id o msg)
  fill_failed-Safe o msg (s, same, terms) =
      Safe-test
        (λ _. Safe-must_or Safe-thrown (λ fresh d _.
          Safe-test (λ _. Safe.returns d)
            (λ _.
              put_and_read-Safe (back_to_locked _ fresh) (back_to_locked-sound _ fresh, d.1, d.2)
                (filling_advance fresh.wallet_mode (mode fresh d)).0)))
        (λ _.
          Safe-test (λ _. Safe-fresh)
            (λ _.
              Safe-test
                (λ _.
                  put_and_read-Safe (back_to_locked _ o) (back_to_locked-sound _ o, same, terms)
                    a.0)
                (λ _.
                  let c : Copy t id (fill_failure msg o) =
                    (fill_failure-sound msg o, same, terms) in
                  Safe-transition c a.1 Safe.throws Safe.throws Safe-thrown)))
    where
      a :
          (may_advance o.wallet_mode CantonSwapStatus.filling CantonSwapStatus.user_locked ≡ true)
          × (may_advance o.wallet_mode CantonSwapStatus.filling CantonSwapStatus.failed ≡ true)
          × (may_advance o.wallet_mode CantonSwapStatus.user_locked CantonSwapStatus.filling ≡ true)
      a = filling_advance o.wallet_mode (mode o (s, same, terms))

  filled_with-Safe :
      {known : Option CantonSwapStatus} (fail : Text → Call)
      (fail_with : CantonSwapOrder → Text → Call) (o : CantonSwapOrder) (r : Fill)
      → ((msg : Text) → Safe t id known (fail msg))
      → ((x : CantonSwapOrder) (msg : Text) → Copy t id x → Safe t id known (fail_with x msg))
      → Copy t id o
      → Safe t id known (filled_with fail fail_with id o r)
  filled_with-Safe fail fail_with o r fails fails_with c =
      apply_loop-Safe o r _ fail c
        (λ d.
          Safe-transition d (fill_advance o.wallet_mode r o (mode o c)).0 (Safe.returns d)
            (Safe-must_or (λ msg. fails_with _ msg d) (λ fresh d' _. Safe.returns d'))
            (λ msg. fails_with _ msg d))
        fails

  fill_or_repair-Safe :
      {known : Option CantonSwapStatus} (a : Filling) (o : CantonSwapOrder)
      → Copy t id o
      → Safe t id known (fill_or_repair a id o)
  fill_or_repair-Safe a o c =
      Safe-if_ok a.repaired
        (λ found _.
          Safe-if_some found
            (λ r _.
              filled_with-Safe Call.throw (λ _. Call.throw) o r Safe-thrown (λ x msg d. Safe.throws)
                c)
            (Safe-if_ok a.result
              (λ r _.
                filled_with-Safe (fill_failed id o) (fill_failed id) o r
                  (λ msg. fill_failed-Safe o msg c) (λ x msg d. fill_failed-Safe x msg d) c)
              (λ msg. fill_failed-Safe o msg c)))
        Safe-thrown

  fill_reserved-Safe :
      {known : Option CantonSwapStatus} (a : Filling) (o : CantonSwapOrder)
      → Copy t id o
      → Safe t id known (fill_reserved a id o)
  fill_reserved-Safe a o (s, same, terms) =
      Safe-if_ok (assert_current_swap_float o a.float_now)
        (λ _ _.
          Safe-test
            (λ _.
              let c : Copy t id (record o { status = CantonSwapStatus.filling }) =
                (taken_up-sound o, same, terms) in
              Safe-transition c (filling_advance o.wallet_mode (mode o (s, same, terms))).2
                (fill_or_repair-Safe a _ c)
                (Safe-must_or Safe-thrown (λ fresh d _.
                  Safe-test (λ _. Safe.returns d)
                    (λ _.
                      Safe-test (λ _. Safe.returns d)
                        (λ _. Safe-test (λ _. Safe.returns d) (λ _. Safe.throws)))))
                Safe-thrown)
            (λ _. fill_or_repair-Safe a o (s, same, terms)))
        Safe-thrown

  fill_again-Safe :
      {known : Option CantonSwapStatus} (a : Filling) (o : CantonSwapOrder)
      → Copy t id o
      → Safe t id known (fill_again a id o)
  fill_again-Safe a o c =
      Safe-test (λ _. Safe.throws)
        (λ _.
          Safe-test (λ _. Safe.throws)
            (λ e.
              Safe-test (λ _. Safe.returns c)
                (λ _.
                  Safe-if_ok (enforce_settlement_quote o a.check)
                    (λ _ _.
                      Safe-test
                        (λ _.
                          reserve_swap_float-Safe Call.throw (fill_reserved a id)
                            (λ msg known. Safe.throws) (plain_move o.status o.status)
                            (λ x d _. fill_reserved-Safe a x d)
                            (
                              stay_advance (t id).wallet_mode o.status,
                              held o.status e,
                              not_filled o.status e,
                            )
                            a.floats o c)
                        (λ _. fill_reserved-Safe a o c))
                    Safe-thrown)))

module _ {t : Text → Terms} {id : Text} where
  pub fill_loop-Safe :
      {known : Option CantonSwapStatus} (a : Filling) → Safe t id known (fill_loop a id)
  unfolding fill_loop
  fill_loop-Safe a =
      reopen_over-Safe Call.throw (fill_from a id) a.vault_party
        (λ known o c.
          Safe-test (λ _. Safe.throws)
            (λ e.
              let loop : is_loop (t id).wallet_mode ≡ true =
                ap is_loop (sym (mode_of-Copy t id o c)) ∙ of_not e in
              Safe-test (λ _. Safe.returns c)
                (λ _.
                  Safe-test
                    (λ _. Safe-must_or Safe-thrown (λ fresh d _.
                      Safe-test (λ _. Safe.returns d)
                        (λ _.
                          Safe-test (λ _. Safe.returns d)
                            (λ _. fill_again-Safe t id loop a fresh d))))
                    (λ _. fill_again-Safe t id loop a o c))))
        (λ msg known. Safe.throws)

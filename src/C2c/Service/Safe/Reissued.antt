-- ===== src/C2c/Service/Safe/Reissued.antt =====
-- What may be written over a locked order, and what the sweep of the counter legs writes.
use cantonbit.Shared.{
  ℕ, ◌≡◌, refl, inl, inr, Bool, true, false, not, ◌||◌, Option, none, arith, Text, Result, ok,
  Bool-cases, ◌∙◌, truthy,
}
use cantonbit.C2c.Order.{CantonSwapOrder, CantonSwapStatus, WalletMode, is_loop, status_eq}
use cantonbit.C2c.Service.Call.{Call}
use cantonbit.C2c.Service.Diagram.{PathAlong, loop_advance, may_advance}
use cantonbit.C2c.Service.Fill.{Fill}
use cantonbit.C2c.Service.Receipt.{Proof, Reading, verify_counter_leg_receipt_proof}
use cantonbit.C2c.Service.Sweep.{counted, has_status, noted, received_with}
use cantonbit.C2c.Service.Counter.{
  Delivery, by_delivery, delivered_with, keep_waiting, not_cleared, try_complete,
}
use cantonbit.C2c.Service.Reissue.{reissued}
use cantonbit.C2c.Service.Safe.{
  ap, subst, Copy, OnFrom, Safe, Safe-by_outcome, Safe-if_ok, Safe-test, Safe-transition, Terms,
  mode_of-Copy, sound, terms_of,
}
use cantonbit.C2c.Service.Safe.Sweeping.{Safe-counted, Safe-ignored, received_with-sound}

-- A locked order of a Loop wallet never is settling.
abbrev pub away : CantonSwapStatus → Bool
away s = not (status_eq s CantonSwapStatus.settling)

away_advance : (r s : CantonSwapStatus) → away r ≡ true → loop_advance r s ≡ true → away s ≡ true
away_advance CantonSwapStatus.settling s e m = cc
away_advance _ s e m = ground arith

pub away_path :
    (m : WalletMode) {r s : CantonSwapStatus}
    → is_loop m ≡ true
    → PathAlong m r s
    → away r ≡ true
    → away s ≡ true
away_path m e (PathAlong.stay s) h = h
away_path WalletMode.managed e p h = cc
away_path WalletMode.loop {r} {s} e (PathAlong.step p q) h =
    away_advance _ s (away_path WalletMode.loop e p h) q

pub cancelled_advance :
    (m : WalletMode) (s : CantonSwapStatus)
    → may_advance m CantonSwapStatus.cancelled s ≡ true
    → s ≡ CantonSwapStatus.cancelled
cancelled_advance m s e = ground arith

pub cancelled_path :
    (m : WalletMode) {r s : CantonSwapStatus}
    → PathAlong m r s
    → r ≡ CantonSwapStatus.cancelled
    → s ≡ CantonSwapStatus.cancelled
cancelled_path m (PathAlong.stay s) h = h
cancelled_path m {r} {s} (PathAlong.step p q) h =
    cancelled_advance m s (subst (λ x. may_advance m x s ≡ true) (cancelled_path m p h) q)

-- What was read on the way from a locked order can be written over a locked one.
pub read_advance :
    (m : WalletMode) (s : CantonSwapStatus)
    → is_loop m ≡ true
    → away s ≡ true
    → PathAlong m s CantonSwapStatus.user_locked
    → may_advance m CantonSwapStatus.user_locked s ≡ true
read_advance m CantonSwapStatus.cancelled e h p =
    let same : CantonSwapStatus.user_locked ≡ CantonSwapStatus.cancelled =
      cancelled_path m p refl in
    cc
read_advance m _ e h p = ground arith

noted-sound :
    (o : CantonSwapOrder) (cleared : Option ℕ) (reason : Option Text)
    → is_loop o.wallet_mode ≡ true
    → sound o ≡ true
    → sound (record o { counter_pending_cleared_at = cleared; failure_reason = reason }) ≡ true
unfolding sound
noted-sound o cleared reason e s = ground arith

delivered-sound :
    (update_id : Text) (o : CantonSwapOrder)
    → truthy o.settlement_update_id ≡ true
    → sound (delivered_with update_id o) ≡ true
unfolding sound
delivered-sound update_id o e = ground arith

reissued-sound :
    (o : CantonSwapOrder) (r : Fill × ℕ)
    → is_loop o.wallet_mode ≡ true
    → truthy o.settlement_update_id ≡ true
    → sound o ≡ true
    → sound (reissued o r) ≡ true
unfolding sound
reissued-sound o (r, tried) e h s = ground arith

filled_of_locked :
    (m : WalletMode)
    → is_loop m ≡ true
    → may_advance m CantonSwapStatus.user_locked CantonSwapStatus.filled ≡ true
filled_of_locked m e = ground arith

-- A reissue keeps the terms, and the status too or makes it filled.
reissued_terms :
    (o : CantonSwapOrder) (r : Fill × ℕ)
    → ((reissued o r).id ≡ o.id) × (terms_of (reissued o r) ≡ terms_of o)
reissued_terms o (r, tried) = elim (Bool-cases r.counter_leg_pending_accept) [
  | inl e ↦ rw e (refl, refl)
  | inr e ↦ rw e (refl, refl)
]

reissued_advance :
    (o : CantonSwapOrder) (r : Fill × ℕ)
    → is_loop o.wallet_mode ≡ true
    → may_advance o.wallet_mode CantonSwapStatus.user_locked o.status ≡ true
    → may_advance (reissued o r).wallet_mode CantonSwapStatus.user_locked (reissued o r).status
      ≡ true
reissued_advance o (r, tried) l m = elim (Bool-cases r.counter_leg_pending_accept) [
  | inl e ↦ rw e m
  | inr e ↦ rw e (filled_of_locked o.wallet_mode l)
]

reissued_mode : (o : CantonSwapOrder) (r : Fill × ℕ) → (reissued o r).wallet_mode ≡ o.wallet_mode
reissued_mode o (r, tried) = elim (Bool-cases r.counter_leg_pending_accept) [
  | inl e ↦ rw e refl
  | inr e ↦ rw e refl
]

pub received_settled :
    (o : CantonSwapOrder) (n : ℕ) (readings : ℕ → Result Text Reading) {u : Text}
    → verify_counter_leg_receipt_proof o n readings ≡ ok (Proof.received u)
    → truthy o.settlement_update_id ≡ true
unfolding verify_counter_leg_receipt_proof
received_settled o n readings e = ground arith

pub loop_of_guard :
    (o : CantonSwapOrder)
    → not (is_loop o.wallet_mode)
        || not (truthy o.settlement_update_id)
        || not (truthy o.counter_leg_offer_cid)
      ≡ false
    → is_loop o.wallet_mode ≡ true
loop_of_guard o e = ground arith

pub locked_advance :
    (o : CantonSwapOrder)
    → has_status CantonSwapStatus.user_locked o ≡ true
    → (may_advance o.wallet_mode CantonSwapStatus.user_locked o.status ≡ true)
      × (away o.status ≡ true)
locked_advance o e = ground arith

module _ (t : Text → Terms) (id : Text) (loop : is_loop (t id).wallet_mode ≡ true) where
  -- A copy that may be written over a locked row.
  abbrev pub Puttable : Option CantonSwapStatus → CantonSwapOrder → Type 0
  Puttable known o =
      Copy t id o
      × (OnFrom o.wallet_mode known CantonSwapStatus.user_locked
          → may_advance o.wallet_mode CantonSwapStatus.user_locked o.status ≡ true)

  pub mode : (o : CantonSwapOrder) → Copy t id o → is_loop o.wallet_mode ≡ true
  mode o c = ap is_loop (mode_of-Copy t id o c) ∙ loop

  pub note-Safe :
      {known : Option CantonSwapStatus} (o : CantonSwapOrder) (cleared : Option ℕ)
      (reason : Option Text)
      → Puttable known o
      → Safe t id known (
          noted
            (record o { counter_pending_cleared_at = cleared; failure_reason = reason })
            CantonSwapStatus.user_locked)
  note-Safe o cleared reason (c, p) =
      let d : Copy t id
          (record o { counter_pending_cleared_at = cleared; failure_reason = reason }) =
        (noted-sound o cleared reason (mode o c) c.0, c.1, c.2) in
      Safe.puts d p (Safe-by_outcome Safe.skips Safe.skips Safe-ignored)

  by_delivery-Safe :
      {known : Option CantonSwapStatus} (go_on : CantonSwapOrder → Call) (o : CantonSwapOrder)
      (d : Delivery)
      → ((x : CantonSwapOrder) → Puttable known x → Safe t id known (go_on x))
      → truthy o.settlement_update_id ≡ true
      → Puttable known o
      → Safe t id known (by_delivery go_on o d)
  by_delivery-Safe go_on o (Delivery.delivered u) next e (c, p) =
      let d : Copy t id (delivered_with u o) = (delivered-sound u o e, c.1, c.2) in
      let m = filled_of_locked o.wallet_mode (mode o c) in
      Safe-transition d m (Safe.returns d) (next (delivered_with u o) (d, λ _. m)) Safe-ignored
  by_delivery-Safe go_on o Delivery.unreadable next e q =
      note-Safe o o.counter_pending_cleared_at _ q
  by_delivery-Safe go_on o Delivery.undelivered next e q = next o q

  pub try_complete-Safe :
      {known : Option CantonSwapStatus} (delivery : Result Text Delivery)
      (go_on : CantonSwapOrder → Call) (o : CantonSwapOrder)
      → ((x : CantonSwapOrder) → Puttable known x → Safe t id known (go_on x))
      → Puttable known o
      → Safe t id known (try_complete delivery go_on o)
  try_complete-Safe delivery go_on o next q =
      Safe-test (λ e. Safe-if_ok delivery (λ d _. by_delivery-Safe go_on o d next e q) Safe-ignored)
        (λ _. next o q)

  pub received-Safe :
      {known : Option CantonSwapStatus} (u : Text) (o : CantonSwapOrder)
      → Copy t id o
      → truthy o.settlement_update_id ≡ true
      → Safe t id known (counted (not_cleared (received_with u o)) CantonSwapStatus.user_locked)
  received-Safe u o c e =
      let d : Copy t id (not_cleared (received_with u o)) =
        (unfold sound in received_with-sound u o e, c.1, c.2) in
      Safe-counted (not_cleared (received_with u o)) CantonSwapStatus.user_locked d
        (filled_of_locked o.wallet_mode (mode o c))

  pub keep_waiting-Safe :
      {known : Option CantonSwapStatus} (o : CantonSwapOrder)
      → Puttable known o
      → Safe t id known (keep_waiting o)
  keep_waiting-Safe o q = Safe-test (λ _. note-Safe o none o.failure_reason q) (λ _. Safe.skips)

  pub reissued-Puttable :
      (known : Option CantonSwapStatus) (o : CantonSwapOrder) (r : Fill × ℕ)
      → truthy o.settlement_update_id ≡ true
      → Puttable known o
      → Puttable known (reissued o r)
  reissued-Puttable known o r e ((s, same, terms), p) =
      let (same', terms') = reissued_terms o r in
      let l = mode o (s, same, terms) in
      (
        (reissued-sound o r l e s, same' ∙ same, terms' ∙ terms),
        λ f.
            reissued_advance o r l
              (p (subst (λ m. OnFrom m known CantonSwapStatus.user_locked) (reissued_mode o r) f)),
      )

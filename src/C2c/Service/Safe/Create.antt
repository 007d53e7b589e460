-- ===== src/C2c/Service/Safe/Create.antt =====
-- What creation, cancellation and reopening keep to.
use cantonbit.Shared.{
  ℕ, ◌≡◌, refl, Bool, true, false, Option, none, some, arith, Text, Result, ok, err, ◌∙◌,
}
use cantonbit.C2c.Order.{CantonSwapOrder, CantonSwapStatus, WalletMode}
use cantonbit.C2c.Logic.{is_false_vault_migration_expire}
use cantonbit.C2c.Create.{CreateError, new_order, resolve_create_canton_swap_order}
use cantonbit.C2c.Service.Store.{is_true, kept}
use cantonbit.C2c.Service.Call.{Call}
use cantonbit.C2c.Service.Diagram.{may_advance}
use cantonbit.C2c.Service.Create.{
  Intake, OrderParams, cancel, create_order, create_over, create_result, create_then, get_order,
  got, incoming_order, intent_time, reopen_false_vault_migration_if_needed, reopen_then, reopen_to,
  reopened, winner_of, winner_result, withdrawn,
}
use cantonbit.C2c.Service.Safe.{
  sym, ap, subst, Copy, Safe, Safe-if_ok, Safe-must_or, Safe-test, Safe-thrown, Safe-transition,
  Seen, Terms, after, sound, terms_of,
}

-- A fresh order has no settlement and holds nothing.
abbrev Blank : CantonSwapOrder → Type 0
Blank o = (is_true o.float_reserved ≡ false)

new_order-sound : (o : CantonSwapOrder) (now : ℕ) → Blank o → sound (new_order o now) ≡ true
unfolding new_order sound
new_order-sound o now b = ground arith

cancel_advance :
    (m : WalletMode) → may_advance m CantonSwapStatus.opened CantonSwapStatus.cancelled ≡ true
cancel_advance WalletMode.managed = refl
cancel_advance WalletMode.loop = refl

-- An order that is reopened is one of a Loop wallet, and holds no float.
reopen_lem :
    (o : CantonSwapOrder) (vault_party : Option Text) (after_user_leg : Bool)
    → sound o ≡ true
    → is_false_vault_migration_expire o vault_party after_user_leg ≡ true
    → (may_advance o.wallet_mode CantonSwapStatus.expired CantonSwapStatus.user_locked ≡ true)
      × (may_advance o.wallet_mode CantonSwapStatus.expired CantonSwapStatus.opened ≡ true)
      × (sound (reopened CantonSwapStatus.user_locked o) ≡ true)
      × (sound (reopened CantonSwapStatus.opened o) ≡ true)
unfolding sound is_false_vault_migration_expire
reopen_lem o vault_party after_user_leg s e = ground arith

module _ (t : Text → Terms) (incoming : CantonSwapOrder)
    (registered : terms_of incoming ≡ t incoming.id) (blank : Blank incoming) where
  new_order-Copy : (now : ℕ) → Copy t incoming.id (new_order incoming now)
  unfolding new_order
  new_order-Copy now = (unfold new_order in new_order-sound incoming now blank, refl, registered)

  -- What `resolveCreateCantonSwapOrder` gives: the stored order, or a new one.
  resolved :
      (known : Option CantonSwapStatus) (r : Option CantonSwapOrder) (now : ℕ) {o : CantonSwapOrder}
      {b : Bool}
      → Seen t incoming.id r known
      → resolve_create_canton_swap_order r incoming now ≡ ok (o, b)
      → Copy t incoming.id o
  unfolding resolve_create_canton_swap_order
  resolved known none now {o} w e =
      let same : new_order incoming now ≡ o = cc in
      subst (Copy t incoming.id) same (new_order-Copy now)
  resolved known (some x) now {o} (c, f) e =
      let same : x ≡ o = ground arith in subst (Copy t incoming.id) same c

  module _ (next : CantonSwapOrder → Call)
      (kept : (known : Option CantonSwapStatus) (o : CantonSwapOrder)
        → Copy t incoming.id o
        → Safe t incoming.id known (next o)) where
    winner_of-Safe :
        (known : Option CantonSwapStatus) (r : Option CantonSwapOrder) (now : ℕ)
        → Seen t incoming.id r known
        → Safe t incoming.id (after known r) (winner_of next incoming now r)
    winner_of-Safe known r now w = go (resolve_create_canton_swap_order r incoming now) refl
      where
        go :
            (res : Result CreateError (CantonSwapOrder × Bool))
            → resolve_create_canton_swap_order r incoming now ≡ res
            → Safe t incoming.id (after known r) (winner_result next res)
        go (err _) e = Safe.throws
        go (ok (order, is_new)) e =
            Safe-test (λ _. kept _ order (resolved known r now w e)) (λ _. Safe.throws)

    create_over-Safe :
        (known : Option CantonSwapStatus) (r : Option CantonSwapOrder) (now : ℕ)
        → Seen t incoming.id r known
        → Safe t incoming.id (after known r) (create_over next incoming now r)
    create_over-Safe known r now w = go (resolve_create_canton_swap_order r incoming now) refl
      where
        go :
            (res : Result CreateError (CantonSwapOrder × Bool))
            → resolve_create_canton_swap_order r incoming now ≡ res
            → Safe t incoming.id (after known r) (create_result next incoming now res)
        go (err _) e = Safe.throws
        go (ok (order, is_new)) e =
            let c = resolved known r now w e in
            let (sound_order, same, terms) = c in
            Safe-test
              (λ _. Safe.adds c (λ b.
                Safe-test (λ _. kept _ order c)
                  (λ _.
                    subst
                      (λ i.
                        Safe t incoming.id (after known r)
                          (Call.read i (winner_of next incoming now)))
                      (sym same) (Safe.reads (λ q v. winner_of-Safe (after known r) q now v)))))
              (λ _. Safe-test (λ _. kept _ order c) (λ _. Safe.throws))

incoming_lem :
    (p : OrderParams) (a : Intake) {o : CantonSwapOrder}
    → incoming_order p a ≡ ok o
    → (is_true o.float_reserved ≡ false) × (o.id ≡ p.order_id)
unfolding incoming_order
incoming_lem p a e = ground arith

-- Terms that are registered for what a request asks to create.
abbrev pub Registered : (Text → Terms) → OrderParams → Intake → Type 0
Registered t p a = (o : CantonSwapOrder) → incoming_order p a ≡ ok o → terms_of o ≡ t p.order_id

module _ (t : Text → Terms) (p : OrderParams) (a : Intake) (registered : Registered t p a) where
  pub create_then-Safe :
      (known : Option CantonSwapStatus) (next : CantonSwapOrder → Call)
      → ((known : Option CantonSwapStatus) (o : CantonSwapOrder)
          → Copy t p.order_id o
          → Safe t p.order_id known (next o))
      → Safe t p.order_id known (create_then next p a)
  create_then-Safe known next kept =
      Safe-if_ok (incoming_order p a)
        (λ o e.
          let (b, same) = incoming_lem p a e in
          subst (λ i. Safe t i known (Call.read o.id (create_over next o (intent_time p a)))) same
            (Safe.reads (λ r w.
              create_over-Safe t o (registered o e ∙ ap t (sym same)) b next
                (subst
                  (λ i.
                    (known : Option CantonSwapStatus) (x : CantonSwapOrder)
                    → Copy t i x
                    → Safe t i known (next x))
                  (sym same) kept)
                known r (intent_time p a) w)))
        Safe-thrown

  pub create_order-Safe : Safe t p.order_id none (create_order p a)
  unfolding create_order
  create_order-Safe = create_then-Safe none Call.done (λ known o c. Safe.returns c)

module _ {t : Text → Terms} {id : Text} where
  pub cancel-Safe : Safe t id none (cancel id)
  unfolding cancel
  cancel-Safe = Safe-must_or Safe-thrown (λ o (s, same, terms) _.
      Safe-test (λ _. Safe.throws)
        (λ _.
          let c : Copy t id (withdrawn o) = (unfold sound in refl, same, terms) in
          Safe-transition c (cancel_advance o.wallet_mode) (Safe.returns c)
            (Safe-must_or Safe-thrown
              (λ fresh c' _. Safe-test (λ _. Safe.returns c') (λ _. Safe.throws)))
            Safe-thrown))

  module _ (fail : Text → Call) (next : CantonSwapOrder → Call) (vault_party : Option Text)
      (kept : (known : Option CantonSwapStatus) (o : CantonSwapOrder)
        → Copy t id o
        → Safe t id known (next o)) where
    reopen_to-Safe :
        {known : Option CantonSwapStatus} (target : CantonSwapStatus) (o : CantonSwapOrder)
        → ((msg : Text) (known : Option CantonSwapStatus) → Safe t id known (fail msg))
        → Copy t id (reopened target o)
        → may_advance o.wallet_mode CantonSwapStatus.expired target ≡ true
        → Safe t id known (reopen_to fail next target id o)
    reopen_to-Safe target o fails c m =
        Safe-transition c m (kept _ _ c)
          (Safe-must_or (λ msg. fails msg _)
            (λ fresh c' _. Safe-test (λ _. kept _ fresh c') (λ _. fails _ _)))
          (λ msg. fails msg _)

    -- Reopening, if it may fail at any time.
    pub reopen_over-Safe :
        {known : Option CantonSwapStatus}
        → ((msg : Text) (known : Option CantonSwapStatus) → Safe t id known (fail msg))
        → Safe t id known (reopen_then fail next vault_party id)
    reopen_over-Safe fails =
        Safe-must_or (λ msg. fails msg _)
          (λ o (s, same, terms) _.
            Safe-test
              (λ e.
                let (m, m', r, r') = reopen_lem o vault_party true s e in
                reopen_to-Safe CantonSwapStatus.user_locked o fails (r, same, terms) m)
              (λ _.
                Safe-test
                  (λ e.
                    let (m, m', r, r') = reopen_lem o vault_party false s e in
                    reopen_to-Safe CantonSwapStatus.opened o fails (r', same, terms) m')
                  (λ _. kept _ o (s, same, terms))))

  pub reopen-Safe :
      (vault_party : Option Text)
      → Safe t id none (reopen_false_vault_migration_if_needed vault_party id)
  unfolding reopen_false_vault_migration_if_needed
  reopen-Safe vault_party =
      reopen_over-Safe Call.throw Call.done vault_party (λ known o c. Safe.returns c)
        (λ msg known. Safe.throws)

  got-Safe :
      (vault_party : Option Text) (known : Option CantonSwapStatus) (r : Option CantonSwapOrder)
      → Seen t id r known
      → Safe t id (after known r) (got vault_party id r)
  got-Safe vault_party known none w = Safe.skips
  got-Safe vault_party known (some o) (c, f) =
      Safe-test (λ _. Safe.returns c)
        (λ _.
          reopen_over-Safe (λ _. Call.done o) Call.done vault_party (λ known o c. Safe.returns c)
            (λ msg known. Safe.returns c))

  pub get_order-Safe : (vault_party : Option Text) → Safe t id none (get_order vault_party id)
  unfolding get_order
  get_order-Safe vault_party = Safe.reads (λ r w. got-Safe vault_party none r w)

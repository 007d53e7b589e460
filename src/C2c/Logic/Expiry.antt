-- ===== src/C2c/Logic/Expiry.antt =====
-- Which same-ledger orders expire, and which must not.
use cantonbit.Shared.{
  text_eq_of_eq, ℕ, ◌+◌, ◌≤◌, ◌≡◌, refl, ◌≢◌, ◌⊎◌, inl, inr, Bool, true, false, ◌||◌, Option, some,
  [], ◌∷◌, arith, Text, ok, ltb, if◌then◌else◌, codes, includes, or_else, truthy,
}
use cantonbit.C2c.Order.{CantonSwapOrder, CantonSwapStatus, WalletMode, status_eq}
use cantonbit.C2c.Logic.{
  text_eq, trim_party, order_uses_current_vault, is_loop_fill_in_flight,
  is_false_vault_migration_expire, is_loop, should_expire_for_vault_migration,
  assert_order_not_expired, is_order_expired,
}

-- How money of an order is in motion: a Loop fill is running, or may still land after a transient
-- error, or it is done and the user has not taken the counter offer yet; or a managed settlement runs.
abbrev pub Moving : CantonSwapOrder → Type 0
Moving o =
    ((o.wallet_mode ≡ WalletMode.loop) × (o.status ≡ CantonSwapStatus.filling))
    ⊎ ((o.wallet_mode ≡ WalletMode.loop)
        × (o.status ≡ CantonSwapStatus.user_locked)
        × (truthy o.settlement_update_id ≡ true)
        × (truthy o.counter_leg_offer_cid ≡ true))
    ⊎ ((o.wallet_mode ≡ WalletMode.loop)
        × (o.status ≡ CantonSwapStatus.user_locked)
        × (truthy o.settlement_update_id ≡ false)
        × ((includes (codes "Fill still processing") (or_else o.failure_reason []) ≡ true)
            ⊎ (includes (codes "submission in flight") (or_else o.failure_reason []) ≡ true)
            ⊎ (includes (codes "Retrying after transient fill failure")
                  (or_else o.failure_reason [])
                ≡ true)))
    ⊎ ((o.wallet_mode ≡ WalletMode.managed) × (o.status ≡ CantonSwapStatus.settling))

-- However late it is, an order with money in motion does not expire: one of Loop that is filling; one
-- of Loop that is locked and settled and has a counter offer for the user to take; one of Loop that is
-- locked and not settled, whose failure reason says that a fill is still processing, in flight or to be
-- retried; and a managed order that is settling.
pub in_motion_never_expires :
    (o : CantonSwapOrder) (now : ℕ)
    → Moving o
    → (is_order_expired o now ≡ false) × (assert_order_not_expired o now ≡ ok tt)
unfolding is_order_expired assert_order_not_expired is_loop_fill_in_flight
in_motion_never_expires o now (inl (loop, filling)) = rw (loop, filling) (refl, refl)
in_motion_never_expires o now (inr (inl (loop, locked, settled, offered))) =
    rw (loop, locked, settled, offered) (refl, refl)
in_motion_never_expires o now (inr (inr (inl (loop, locked, unsettled, inl why)))) =
    rw (loop, locked, unsettled, why) (refl, refl)
in_motion_never_expires o now (inr (inr (inl (loop, locked, unsettled, inr (inl why))))) =
    rw (loop, locked, unsettled, why) (ground (arith, why))
in_motion_never_expires o now (inr (inr (inl (loop, locked, unsettled, inr (inr why))))) =
    rw (loop, locked, unsettled, why) (ground (arith, why))
in_motion_never_expires o now (inr (inr (inr (managed, settling)))) =
    rw (managed, settling) (refl, refl)

-- An open order expires exactly when more than its time to live has passed since its creation: 15
-- minutes for Loop, 5 for a managed wallet.
pub open_order_expires :
    (o : CantonSwapOrder) (now : ℕ)
    → o.status ≡ CantonSwapStatus.opened
    → is_order_expired o now ≡ ltb (o.created_at + (if is_loop o.wallet_mode then 900 else 300)) now
unfolding is_order_expired
open_order_expires o now h = ground arith

-- Expiry is final in time: an order that has expired stays so as long as its row does not change.
pub expired_stays :
    (o : CantonSwapOrder) (now later : ℕ)
    → is_order_expired o now ≡ true
    → now ≤ later
    → is_order_expired o later ≡ true
unfolding is_order_expired
expired_stays o now later h le = ground arith

blank_text : (t : Text) → truthy (some t) ≡ false → t ≡ []
blank_text [] h = refl
blank_text (c ∷ s) h = cc

named_text : (t : Text) → truthy (some t) ≡ true → t ≢ []
named_text [] h = λ e. cc
named_text (c ∷ s) h = λ e. cc

-- The parties as the migration tests them.
migration_parties :
    (o : CantonSwapOrder) (vault : Option Text) (now : ℕ)
    → should_expire_for_vault_migration o vault now ≡ true
    → (truthy (some (trim_party o.settlement_party)) ≡ false)
      × (truthy (some (trim_party vault)) ≡ true)
      × (text_eq (trim_party (some o.solver_party)) (trim_party vault) ≡ false)
unfolding should_expire_for_vault_migration order_uses_current_vault
migration_parties o vault now h = ground arith

-- A vault migration expires only an open Loop order that is unsigned, names no settlement party, has a
-- solver's party that is not the configured vault, and is at least half a minute old; and whatever reason is written on it
-- then, the repair of false expiries does not take it back.
pub vault_migration_safe :
    (o : CantonSwapOrder) (vault reason : Option Text) (after_user_leg : Bool) (now : ℕ)
    → should_expire_for_vault_migration o vault now ≡ true
    → (is_loop o.wallet_mode ≡ true)
      × (status_eq o.status CantonSwapStatus.opened ≡ true)
      × ((truthy o.user_leg_offer_cid || truthy o.user_leg_submit_update_id) ≡ false)
      × (trim_party o.settlement_party ≡ [])
      × (trim_party vault ≢ [])
      × (trim_party (some o.solver_party) ≢ trim_party vault)
      × (o.created_at + 30 ≤ now)
      × (is_false_vault_migration_expire
            (record o { status = CantonSwapStatus.expired; failure_reason = reason })
            vault
            after_user_leg
          ≡ false)
unfolding should_expire_for_vault_migration is_false_vault_migration_expire order_uses_current_vault
vault_migration_safe o vault reason after_user_leg now h =
    let (unnamed, configured, other) = migration_parties o vault now h in
    (
      ground arith,
      ground arith,
      ground arith,
      blank_text (trim_party o.settlement_party) unnamed,
      named_text (trim_party vault) configured,
      (λ same.
          cc (
            rw (text_eq_of_eq (trim_party (some o.solver_party)) (trim_party vault) same) at
              other)),
      ground arith,
      ground arith,
    )

-- ===== src/C2c/Service/Create.antt =====
-- lib/canton-swap-service.ts: creation, cancellation, and the reopening of orders that were expired
-- by mistake.
use cantonbit.Shared.{
  ℕ, ◌+◌, ◌-◌, ◌*◌, ◌/◌, Bool, true, false, not, ◌&&◌, Option, none, some, [], Text, Result, ok,
  err, ◌>>=◌, ◌>>◌, ltb, ◌==◌, if◌then◌else◌, text_eq, throw_if, guard, codes,
}
use cantonbit.C2c.Order.{
  CantonSwapOrder, CantonSwapStatus, SwapAsset, WalletMode, is_canton_swap_active, status_eq,
}
use cantonbit.C2c.Logic.{is_false_vault_migration_expire, quote_grace_seconds}
use cantonbit.C2c.Create.{CreateError, resolve_create_canton_swap_order}
use cantonbit.C2c.Service.Call.{Call, if_ok, must, must_or, test◌then◌else◌, transition}
use cantonbit.Amount.{to_base_units, from_base_units}
use cantonbit.Limits.{SwapPayAsset, assert_swap_pay_amount_limit}

-- The parameters of `createOrder`; a missing order id is replaced before.
pub record OrderParams : Type 0 where
  pub from_asset : SwapAsset
  pub to_asset : SwapAsset
  pub in_amount : Text
  pub out_amount : Text
  pub user_party : Text
  pub wallet_mode : WalletMode
  pub order_id : Text
  pub created_at : Option ℕ

-- What `createOrder` is told: whether swaps are taken in, the vault, the check of the amounts, the
-- quote with its expiry, the network fee if fees are on, and the clock.
pub record Intake : Type 0 where
  pub enabled : Bool
  pub vault_party : Text
  pub amounts : Result Text (Unit {0})
  pub quote : Result Text (ℕ × ℕ)
  pub network_fee : Option (Result Text Text)
  pub now : ℕ

abbrev pub quote_ttl_seconds : ℕ
quote_ttl_seconds = 60

abbrev pub decimals_of : SwapAsset → ℕ
decimals_of SwapAsset.cbtc = 8
decimals_of SwapAsset.cc = 10
decimals_of SwapAsset.usdcx = 6

-- Any error of another module, as the message given.
abbrev pub relabel {ℓ} : {E : Type 0} {A : Type ℓ} → Text → Result E A → Result Text A
relabel msg (ok a) = ok a
relabel msg (err _) = err msg

abbrev pub pay_limit : SwapAsset → Text → Result Text ℕ
pay_limit SwapAsset.cbtc amount =
    relabel (codes "amount limit") (assert_swap_pay_amount_limit SwapPayAsset.cbtc amount)
pay_limit SwapAsset.cc amount =
    relabel (codes "amount limit") (assert_swap_pay_amount_limit SwapPayAsset.cc amount)
pay_limit SwapAsset.usdcx amount = err (codes "unsupported pair")

abbrev pub units_or : Text → SwapAsset → Result Text ℕ
units_or amount asset = relabel (codes "invalid amount") (to_base_units amount (decimals_of asset))

-- `settlementMinOutUnits` at half a percent.
unfoldable pub settlement_min_out_units : ℕ → ℕ
settlement_min_out_units promised = promised - promised * 50 / 10_000

unfoldable pub settlement_min_out_amount : Text → SwapAsset → Result Text Text
unfolding settlement_min_out_units
settlement_min_out_amount out_amount asset = units_or out_amount asset >>= λ promised.
    ok (from_base_units (settlement_min_out_units promised) (decimals_of asset))

-- Fees are taken from wallets that the service signs for; the estimate may throw.
abbrev pub fee_for : WalletMode → Option (Result Text Text) → Result Text (Option Text)
fee_for WalletMode.loop fee = ok none
fee_for WalletMode.managed none = ok none
fee_for WalletMode.managed (some (ok fee_cc)) = ok (some fee_cc)
fee_for WalletMode.managed (some (err msg)) = err msg

abbrev pub intent_time : OrderParams → Intake → ℕ
intent_time p a = elim p.created_at [ none ↦ a.now | some t ↦ t ]

abbrev pub expiry_for : OrderParams → Intake → ℕ → ℕ
expiry_for p a quoted = elim p.wallet_mode [
  | WalletMode.managed ↦ intent_time p a + quote_ttl_seconds + quote_grace_seconds
  | WalletMode.loop ↦ quoted
]

abbrev pub fee_expiry : Option Text → ℕ → Option ℕ
fee_expiry none quoted = none
fee_expiry (some _) quoted = some quoted

-- The order that `createOrder` asks for.
abbrev pub asked : OrderParams → Intake → ℕ → Option Text → Text → CantonSwapOrder
asked p a quoted fee_cc min_out = record {
  id = p.order_id;
  status = CantonSwapStatus.opened;
  from_asset = p.from_asset;
  to_asset = p.to_asset;
  in_amount = p.in_amount;
  out_amount = p.out_amount;
  min_out = min_out;
  quote_expires_at = expiry_for p a quoted;
  user_party = p.user_party;
  solver_party = a.vault_party;
  settlement_party = some a.vault_party;
  wallet_mode = p.wallet_mode;
  float_reserved = some false;
  user_leg_offer_cid = none;
  user_leg_submit_update_id = none;
  counter_leg_offer_cid = none;
  counter_leg_created_offset = none;
  counter_receipt_update_id = none;
  settlement_update_id = none;
  counter_reissue_attempt = none;
  counter_pending_cleared_at = none;
  failure_reason = none;
  created_at = 0;
  network_fee_cc = fee_cc;
  network_fee_expires_at = fee_expiry fee_cc quoted;
  network_fee_settlement_update_id = none;
  network_fee_accounting_pending = none;
}

-- The checks of `createOrder` before it looks at the table.
unfoldable pub incoming_order : OrderParams → Intake → Result Text CantonSwapOrder
unfolding settlement_min_out_amount
incoming_order p a = do
  guard a.enabled (codes "swaps are disabled")
  throw_if (text_eq a.vault_party []) (codes "CANTON_SWAP_SETTLEMENT_PARTY not configured")
  pay_units ← pay_limit p.from_asset p.in_amount
  a.amounts
  (out_units, quoted) ← a.quote
  throw_if (out_units == 0) (codes "quote output must be > 0")
  claimed ← units_or p.out_amount p.to_asset
  throw_if (ltb out_units claimed) (codes "outAmount exceeds quote")
  min_out ← settlement_min_out_amount p.out_amount p.to_asset
  fee_cc ← fee_for p.wallet_mode a.network_fee
  ok (asked p a quoted fee_cc min_out)

-- What follows a call of `createOrder`.
module _ (next : CantonSwapOrder → Call) where
  abbrev pub winner_result : Result CreateError (CantonSwapOrder × Bool) → Call
  winner_result (err _) = Call.throw (codes "order id already used with different terms")
  winner_result (ok (order, is_new)) =
      test not is_new && is_canton_swap_active order
      then next order
      else Call.throw (codes "order id already exists with different or inactive terms")

  abbrev pub winner_of : CantonSwapOrder → ℕ → Option CantonSwapOrder → Call
  winner_of incoming now winner =
      winner_result (resolve_create_canton_swap_order winner incoming now)

  abbrev pub create_result :
      CantonSwapOrder → ℕ → Result CreateError (CantonSwapOrder × Bool) → Call
  create_result incoming now (err _) =
      Call.throw (codes "order id already used with different terms")
  create_result incoming now (ok (order, is_new)) =
      test is_new
      then Call.add order
          (λ added. test added then next order else Call.read order.id (winner_of incoming now))
      else test is_canton_swap_active order
      then next order
      else Call.throw (codes "order no longer active — start a new swap")

  abbrev pub create_over : CantonSwapOrder → ℕ → Option CantonSwapOrder → Call
  create_over incoming now existing =
      create_result incoming now (resolve_create_canton_swap_order existing incoming now)

  abbrev pub create_then : OrderParams → Intake → Call
  create_then p a =
      if_ok (incoming_order p a)
        (λ incoming. Call.read incoming.id (create_over incoming (intent_time p a))) Call.throw

unfoldable pub create_order : OrderParams → Intake → Call
create_order p a = create_then Call.done p a

abbrev pub withdrawn : CantonSwapOrder → CantonSwapOrder
withdrawn o = record o {
  status = CantonSwapStatus.cancelled;
  float_reserved = some false;
  failure_reason = none;
}

unfoldable pub cancel : Text → Call
cancel id = must id (λ o.
    test not (status_eq o.status CantonSwapStatus.opened)
    then Call.throw (codes "cannot cancel")
    else transition Call.throw (withdrawn o) CantonSwapStatus.opened (Call.done (withdrawn o)) (
        must id (λ fresh.
          test status_eq fresh.status CantonSwapStatus.cancelled
          then Call.done fresh
          else Call.throw (codes "cannot cancel"))))

-- `reopenFalseVaultMigrationIfNeeded`, what follows it, and what is done when it throws.
abbrev pub reopened : CantonSwapStatus → CantonSwapOrder → CantonSwapOrder
reopened target o = record o { status = target; failure_reason = none }

abbrev pub reopen_to :
    (Text → Call) → (CantonSwapOrder → Call) → CantonSwapStatus → Text → CantonSwapOrder → Call
reopen_to fail next target id o =
    transition fail (reopened target o) CantonSwapStatus.expired (next (reopened target o)) (
      must_or fail id (λ fresh.
        test status_eq fresh.status target then next fresh else fail (codes "cannot reopen order")))

abbrev pub reopen_then : (Text → Call) → (CantonSwapOrder → Call) → Option Text → Text → Call
reopen_then fail next vault_party id = must_or fail id (λ o.
    test is_false_vault_migration_expire o vault_party true
    then reopen_to fail next CantonSwapStatus.user_locked id o
    else test is_false_vault_migration_expire o vault_party false
    then reopen_to fail next CantonSwapStatus.opened id o
    else next o)

unfoldable pub reopen_false_vault_migration_if_needed : Option Text → Text → Call
reopen_false_vault_migration_if_needed vault_party id =
    reopen_then Call.throw Call.done vault_party id

-- `get`: an expired order is reopened if it has to be; if that throws, it is returned as it was.
abbrev pub got : Option Text → Text → Option CantonSwapOrder → Call
got vault_party id none = Call.skip
got vault_party id (some o) =
    test not (status_eq o.status CantonSwapStatus.expired)
    then Call.done o
    else reopen_then (λ _. Call.done o) Call.done vault_party id

unfoldable pub get_order : Option Text → Text → Call
get_order vault_party id = Call.read id (got vault_party id)

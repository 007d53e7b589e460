-- ===== src/Examples/Canton.antt =====
-- Runs of the service of same-ledger swaps.
use cantonbit.Shared.{
  ℕ, ◌+◌, ◌≤◌, ◌≡◌, refl, ◌⊎◌, true, false, Option, none, some, List, [], ◌∷◌, arith, Text, ok,
  trim, sym, All, ap, text_eq, codes,
}
use cantonbit.C2c.Order.{CantonSwapOrder, CantonSwapStatus, SwapAsset, WalletMode}
use cantonbit.C2c.Logic.{
  assert_order_not_expired, is_loop_fill_pending_counter_accept, is_order_expired,
  should_expire_for_vault_migration,
}
use cantonbit.C2c.Service.Store.{Booking, Guard, Outcome, get, put_if_status, reserve_float}
use cantonbit.C2c.Service.Store.Solvency.{reserve_covers, total_held}
use cantonbit.C2c.Service.Store.Race.{one_reissue_wins}
use cantonbit.C2c.Service.Call.{access, if_ok, if_some, run, test◌then◌else◌, turn}
use cantonbit.C2c.Service.Diagram.{may_advance}
use cantonbit.C2c.Service.Create.{
  Intake, OrderParams, asked, incoming_order, settlement_min_out_amount, settlement_min_out_units,
}
use cantonbit.C2c.Service.Reserve.{Check, Floats}
use cantonbit.C2c.Service.Fill.{Fill}
use cantonbit.C2c.Service.Settle.{Settlement}
use cantonbit.C2c.Service.Expire.{Expiring}
use cantonbit.C2c.Service.Safe.{Terms, sound, terms_of}
use cantonbit.C2c.Service.Rows.{Kept}
use cantonbit.C2c.Service.Requests.{Request, call, calls}
use cantonbit.C2c.Service.Safe.Create.{Registered}
use cantonbit.C2c.Service.Interleaved.{Agrees, copies_stay-Kept, order_follows_diagram}
use cantonbit.Limits.{assert_swap_pay_amount_limit, swap_pay_amount_limit_units}
use cantonbit.Amount.{to_base_units, from_base_units}

abbrev params : OrderParams
params = record {
  from_asset = SwapAsset.cbtc;
  to_asset = SwapAsset.cc;
  in_amount = codes "0.00005";
  out_amount = codes "40";
  user_party = codes "user::1";
  wallet_mode = WalletMode.managed;
  order_id = codes "c2c-1";
  created_at = none;
}

abbrev intake : Intake
intake = record {
  enabled = true;
  vault_party = codes "vault::1";
  amounts = ok tt;
  quote = ok (410_000_000_000, 1060);
  network_fee = none;
  now = 1000;
}

abbrev pub incoming : CantonSwapOrder
incoming = asked params intake 1060 none (codes "39.8")

incoming_is : incoming_order params intake ≡ ok incoming
unfolding incoming_order settlement_min_out_amount settlement_min_out_units text_eq
    assert_swap_pay_amount_limit to_base_units trim swap_pay_amount_limit_units from_base_units
incoming_is = refl

abbrev agreed : Text → Terms
agreed _ = terms_of incoming

registered : Registered agreed params intake
registered o e =
    let same : incoming ≡ o = cc incoming_is in ap (λ (x : CantonSwapOrder). terms_of x) (sym same)

-- The order as it is in the table once it is created.
abbrev stored : CantonSwapOrder
stored = record incoming { created_at = 1000; counter_reissue_attempt = some 0 }

abbrev check : Check
check = record { now = 1010; fresh = ok 400_000_000_000 }

abbrev floats : Floats
floats = record { units = λ n. ok 500_000_000_000; others = λ n. 0 }

abbrev fill : Fill
fill = record {
  update_id = codes "u1";
  counter_leg_offer_cid = none;
  counter_leg_pending_accept = false;
  counter_leg_created_offset = none;
}

abbrev settlement : Settlement
settlement = record {
  check = check;
  fee = none;
  offer = ok (codes "offer-1");
  result = ok fill;
  collected = false;
  recorded = false;
  repaired = ok none;
  rejects = ok tt;
}

abbrev expiring : Expiring
expiring = record {
  vault_party = some (codes "vault::1");
  now = 9999;
  rejected = true;
  managed_fill = ok none;
  loop_fill = ok none;
}

-- A settlement, a repeated creation, a cancellation and the sweep of stale orders race.
abbrev racing : List Request
racing =
    Request.settles_managed check floats settlement params.order_id
    ∷ Request.creates params intake
    ∷ Request.cancels params.order_id
    ∷ Request.sweeps_stale expiring params.order_id
    ∷ []

abbrev turns : List (ℕ × ℕ)
turns =
    (0, 1) ∷ (2, 2) ∷ (3, 3) ∷ (0, 4) ∷ (2, 5) ∷ (0, 6) ∷ (1, 7) ∷ (3, 8) ∷ (0, 9) ∷ (0, 10) ∷ []

abbrev units : SwapAsset → Text → ℕ
units asset amount = 400_000_000_000

racing-Agrees : All (Agrees agreed) racing
racing-Agrees = (tt, (registered, (tt, (tt, tt))))

stored-Kept : All (Kept agreed) (stored ∷ [])
stored-Kept = (((unfold sound in refl), refl), tt)

copies_stay_example : All (Kept agreed) (run units turns (calls racing) (stored ∷ [])).0
copies_stay_example =
    copies_stay-Kept agreed units turns racing (stored ∷ []) racing-Agrees stored-Kept

-- The first access of the cancellation reads the order, the second cancels it.
order_follows_example :
    (o : CantonSwapOrder) × (get
        (codes "c2c-1")
        (run units ((2, 2) ∷ (2, 5) ∷ []) (calls racing) (stored ∷ [])).0
      ≡ some o)
    × (may_advance WalletMode.managed CantonSwapStatus.opened o.status ≡ true)
    × (CantonSwapStatus.opened ≡ CantonSwapStatus.cancelled → o.status ≡ CantonSwapStatus.cancelled)
    × (o.status ≡ CantonSwapStatus.cancelled
        → (CantonSwapStatus.opened ≡ CantonSwapStatus.opened)
          ⊎ (CantonSwapStatus.opened ≡ CantonSwapStatus.cancelled))
order_follows_example =
    order_follows_diagram agreed units ((2, 2) ∷ []) racing (stored ∷ []) racing-Agrees stored-Kept
      2 5 (codes "c2c-1") stored (unfold get run turn access call text_eq in refl)

-- The order in the table after a run, by its status.
abbrev status_after : List (ℕ × ℕ) → List Request → Option CantonSwapStatus
status_after schedule qs =
    elim (get (codes "c2c-1") (run units schedule (calls qs) (stored ∷ [])).0) [
      | none ↦ none
      | some o ↦ some o.status
    ]

-- The settlement comes first in that race; the cancellation and the sweep come too late.
settlement_wins : status_after turns racing ≡ some CantonSwapStatus.filled
unfolding call run access turn get put_if_status reserve_float text_eq is_order_expired
    test◌then◌else◌ if_ok assert_order_not_expired to_base_units trim
    should_expire_for_vault_migration is_loop_fill_pending_counter_accept if_some incoming_order
    assert_swap_pay_amount_limit swap_pay_amount_limit_units
settlement_wins = refl

abbrev booking_example : Booking
booking_example = record {
  order_id = codes "c2c-1";
  expected_status = CantonSwapStatus.opened;
  next_status = CantonSwapStatus.settling;
  float_units = 500_000_000_000;
  others = 0;
  user_leg_offer_cid = none;
  user_leg_submit_update_id = none;
}

-- Two orders of the same vault; the other one holds some of its float.
abbrev two_rows : List CantonSwapOrder
two_rows =
    stored
    ∷ record stored {
      id = codes "c2c-2";
      status = CantonSwapStatus.settling;
      float_reserved = some true;
    }
    ∷ []

abbrev small_units : SwapAsset → Text → ℕ
small_units asset amount = 200_000_000_000

reserve_covers_example :
    0 + total_held small_units stored (reserve_float small_units booking_example two_rows).0
    ≤ 500_000_000_000
reserve_covers_example =
    reserve_covers small_units booking_example two_rows stored (unfold get text_eq in refl)
      (unfold get text_eq in (refl, (refl, tt))) (unfold reserve_float text_eq in refl)

-- A locked order whose counter offer two workers reissue.
abbrev offered : CantonSwapOrder
offered = record stored {
  status = CantonSwapStatus.user_locked;
  wallet_mode = WalletMode.loop;
  settlement_update_id = some (codes "u1");
  counter_leg_offer_cid = some (codes "offer-1");
}

abbrev reissued_once : CantonSwapOrder
reissued_once = record offered { counter_leg_offer_cid = some (codes "offer-2") }

abbrev reissued_too : CantonSwapOrder
reissued_too = record offered { counter_leg_offer_cid = some (codes "offer-3") }

one_reissue_example :
    put_if_status reissued_too CantonSwapStatus.user_locked
      (Guard.offer_is (some (codes "offer-1")))
      (put_if_status reissued_once CantonSwapStatus.user_locked
        (Guard.offer_is (some (codes "offer-1")))
        (offered ∷ [])).0
    ≡ (
      (put_if_status reissued_once CantonSwapStatus.user_locked
          (Guard.offer_is (some (codes "offer-1")))
          (offered ∷ [])).0,
      Outcome.stale,
    )
one_reissue_example =
    one_reissue_wins reissued_once reissued_too CantonSwapStatus.user_locked
      CantonSwapStatus.user_locked (codes "offer-1") (offered ∷ []) refl (λ e. ground arith)
      (unfold put_if_status text_eq in refl)

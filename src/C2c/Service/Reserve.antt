-- ===== src/C2c/Service/Reserve.antt =====
-- lib/canton-swap-service.ts: the check of a quote at settlement, and the reservation of the vault's
-- float.
use cantonbit.Shared.{
  ℕ, zero, suc, not, ◌||◌, Option, none, Text, Result, ◌>>=◌, ◌>>◌, ltb, if◌then◌else◌, codes,
  throw_if,
}
use cantonbit.C2c.Order.{CantonSwapOrder, CantonSwapStatus, status_eq}
use cantonbit.C2c.Logic.{assert_order_not_expired}
use cantonbit.C2c.Service.Store.{Booking, Answer, is_true}
use cantonbit.C2c.Service.Create.{relabel, units_or}
use cantonbit.C2c.Service.Call.{Call, test◌then◌else◌, if_ok, must_or}

-- The clock and the fresh quote of `enforceSettlementQuote`.
pub record Check : Type 0 where
  pub now : ℕ
  pub fresh : Result Text ℕ

unfoldable pub enforce_settlement_quote : CantonSwapOrder → Check → Result Text (Unit {0})
enforce_settlement_quote o a = do
  relabel (codes "order expired") (assert_order_not_expired o a.now)
  in_units ← units_or o.in_amount o.from_asset
  min_out_units ← units_or o.min_out o.to_asset
  fresh_units ← a.fresh
  throw_if (ltb fresh_units min_out_units) (codes "price moved")

-- What the vault holds at each attempt, by the attempts that are left, and what the orders of the
-- other table hold of it.
pub record Floats : Type 0 where
  pub units : ℕ → Result Text ℕ
  pub others : ℕ → ℕ

-- A reservation: the move that it makes, with the evidence that it links.
pub record Move : Type 0 where
  pub expected_status : CantonSwapStatus
  pub next_status : CantonSwapStatus
  pub user_leg_offer_cid : Option Text
  pub user_leg_submit_update_id : Option Text

abbrev pub plain_move : CantonSwapStatus → CantonSwapStatus → Move
plain_move s t = record {
  expected_status = s;
  next_status = t;
  user_leg_offer_cid = none;
  user_leg_submit_update_id = none;
}

abbrev pub booking : CantonSwapOrder → Move → ℕ → ℕ → Booking
booking o m float_units others = record {
  order_id = o.id;
  expected_status = m.expected_status;
  next_status = m.next_status;
  float_units = float_units;
  others = others;
  user_leg_offer_cid = m.user_leg_offer_cid;
  user_leg_submit_update_id = m.user_leg_submit_update_id;
}

module _ (fail : Text → Call) (next : CantonSwapOrder → Call) where
  -- The order is read again, and must be as reserved.
  abbrev pub reserved_now : CantonSwapOrder → Move → Call
  reserved_now o m = must_or fail o.id (λ reserved.
      test not (status_eq reserved.status m.next_status) || not (is_true reserved.float_reserved)
      then fail (codes "swap float reservation committed without expected order state")
      else next reserved)

  -- Only too low a float leads to the attempts that are left.
  abbrev pub reserve_answer : Call → CantonSwapOrder → Move → Answer → Call
  reserve_answer again o m Answer.reserved = reserved_now o m
  reserve_answer again o m Answer.insufficient = again
  reserve_answer again o m Answer.not_found =
      fail (codes "could not reserve swap float (not_found)")
  reserve_answer again o m (Answer.other_status s) =
      fail (codes "could not reserve swap float (status)")
  reserve_answer again o m Answer.duplicate = fail (codes "duplicate key")

  abbrev pub attempt : Floats → ℕ → CantonSwapOrder → Move → Call → Call
  attempt f left o m again =
      if_ok (f.units left)
        (λ float_units.
          Call.book (booking o m float_units (f.others left)) (reserve_answer again o m))
        fail

  unfoldable pub reserve_attempts : Floats → ℕ → CantonSwapOrder → Move → Call
  reserve_attempts f zero o m = attempt f zero o m (fail (codes "swap vault insufficient float"))
  reserve_attempts f (suc left) o m = attempt f (suc left) o m (reserve_attempts f left o m)

  unfoldable pub reserve_swap_float : Floats → CantonSwapOrder → Move → Call
  unfolding reserve_attempts
  reserve_swap_float f o m = reserve_attempts f 2 o m

-- ===== src/Examples/Money.antt =====
-- Amounts, quotes and caps.
use cantonbit.Shared.{arith, ◌+◌, ◌-◌, ◌*◌, ◌≤◌, ◌<◌, ◌≡◌, refl, ◌↔◌, some, ok, err, codes, trim}
use cantonbit.Htlc.Order.{SwapDirection}
use cantonbit.Amount.{to_base_units, to_base_units_floor, from_base_units}
use cantonbit.Amount.RoundTrip.{to_base_units-from_base_units, to_base_units_floor_agrees}
use cantonbit.Quote.Bounds.{quote_round_trip, apply_output_fee_bounds, quote_out_units_mono}
use cantonbit.Quote.{quote_out_units, apply_output_fee}
use cantonbit.Limits.{
  SwapPayAsset, Verdict, LimitError, decimals_of, assert_swap_pay_amount_limit,
  check_swap_pay_amount_limit,
}
use cantonbit.Limits.Caps.{assert_swap_pay_amount_limit_iff, check_agrees, cap}

parse_point : to_base_units (codes " 12.05 ") 8 ≡ ok 1205000000
unfolding to_base_units trim
parse_point = refl

print_small : from_base_units 5 8 ≡ codes "0.00000005"
unfolding from_base_units
print_small = refl

print_whole : from_base_units 700 2 ≡ codes "7"
unfolding from_base_units
print_whole = refl

to_base_units-from_base_units_example :
    to_base_units (from_base_units 1205000000 8) 8 ≡ ok 1205000000
to_base_units-from_base_units_example = to_base_units-from_base_units 1205000000 8

to_base_units_floor_example : to_base_units_floor (codes "0.5") 8 ≡ ok 50000000
unfolding to_base_units trim
to_base_units_floor_example = to_base_units_floor_agrees (codes "0.5") 8 refl

fee_example :
    (1999 * (10_000 - 30) ≤ 1994 * 10_000)
    × (1994 * 10_000 < 1999 * (10_000 - 30) + 10_000)
    × (1994 ≤ 1999)
unfolding apply_output_fee
fee_example = apply_output_fee_bounds 1999 30 {out = 1994} refl

quote_round_trip_example : 4951 ≤ 5000
unfolding quote_out_units
quote_round_trip_example =
    quote_round_trip SwapDirection.evm_to_canton 5000 99_000_000 (some 50) (some 50) {there = 4926}
      {back = 4951} refl refl

quote_mono_example : 4926 ≤ 4935
unfolding quote_out_units
quote_mono_example =
    quote_out_units_mono SwapDirection.evm_to_canton 5000 5010 99_000_000 50 {a = 4926} {b = 4935}
      (omega arith) refl refl

limit_example : (assert_swap_pay_amount_limit SwapPayAsset.cbtc (codes "0.0001") ≡ ok 10_000) ↔ (
    (to_base_units (trim (codes "0.0001")) (decimals_of SwapPayAsset.cbtc) ≡ ok 10_000)
    × (0 < 10_000)
    × (10_000 ≤ cap SwapPayAsset.cbtc))
limit_example = assert_swap_pay_amount_limit_iff SwapPayAsset.cbtc (codes "0.0001") 10_000

check_agrees_example :
    (check_swap_pay_amount_limit SwapPayAsset.cc (codes "201") ≡ Verdict.too_much SwapPayAsset.cc)
    ↔ (assert_swap_pay_amount_limit SwapPayAsset.cc (codes "201")
        ≡ err (LimitError.over_limit SwapPayAsset.cc))
check_agrees_example = check_agrees SwapPayAsset.cc (codes "201")

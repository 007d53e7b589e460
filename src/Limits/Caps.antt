-- ===== src/Limits/Caps.antt =====
-- What the caps let through, and that the form and the server agree.
use cantonbit.Shared.{ℕ, ◌≤◌, ◌<◌, ◌≡◌, refl, ◌↔◌, arith, Text, ok, err, trim}
use cantonbit.Amount.{to_base_units}
use cantonbit.Limits.{
  LimitError, decimals_of, Verdict, check_swap_pay_amount_limit, SwapPayAsset,
  swap_pay_amount_limit_units, assert_swap_pay_amount_limit,
}

-- The caps in base units: 200 CC at ten decimals, 0.0001 BTC at eight.
abbrev pub cap : SwapPayAsset → ℕ
cap SwapPayAsset.cc = 2_000_000_000_000
cap SwapPayAsset.cbtc = 10_000
cap SwapPayAsset.wbtc = 10_000

swap_pay_amount_limit_units_lem :
    (asset : SwapPayAsset) → swap_pay_amount_limit_units asset ≡ ok (cap asset)
unfolding swap_pay_amount_limit_units trim
swap_pay_amount_limit_units_lem SwapPayAsset.cc = refl
swap_pay_amount_limit_units_lem SwapPayAsset.cbtc = refl
swap_pay_amount_limit_units_lem SwapPayAsset.wbtc = refl

-- The server accepts an amount, as so many units, exactly when it parses to that many units, which
-- are more than none and at most the cap: 200 CC, or 0.0001 CBTC or WBTC.
pub assert_swap_pay_amount_limit_iff :
    (asset : SwapPayAsset) (amount : Text) (units : ℕ)
    → (assert_swap_pay_amount_limit asset amount ≡ ok units) ↔ (
        (to_base_units (trim amount) (decimals_of asset) ≡ ok units)
        × (0 < units)
        × (units ≤ cap asset))
unfolding assert_swap_pay_amount_limit
assert_swap_pay_amount_limit_iff asset amount units = (
  λ h. ground (arith, swap_pay_amount_limit_units_lem asset),
  λ h. ground (arith, swap_pay_amount_limit_units_lem asset),
)

-- The form refuses an amount exactly when the server would refuse it for being over the cap.
pub check_agrees :
    (asset : SwapPayAsset) (amount : Text)
    → (check_swap_pay_amount_limit asset amount ≡ Verdict.too_much asset)
      ↔ (assert_swap_pay_amount_limit asset amount ≡ err (LimitError.over_limit asset))
unfolding check_swap_pay_amount_limit assert_swap_pay_amount_limit
check_agrees asset amount = (
  λ h. ground (arith, swap_pay_amount_limit_units_lem asset),
  λ h. ground (arith, swap_pay_amount_limit_units_lem asset),
)

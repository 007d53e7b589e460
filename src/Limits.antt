-- ===== src/Limits.antt =====
-- lib/swap-amount-limits.ts: the cap on the amount that a user pays into one swap.
pub mod Caps
use cantonbit.Shared.{
  ℕ, zero, suc, ◌+◌, ◌-◌, ◌*◌, ◌/◌, ◌%◌, ◌^◌, ◌≤◌, ◌<◌, ◌≡◌, refl, ◌≢◌, ◌↔◌, ◌⊎◌, inl, inr, Bool,
  true, false, not, ◌&&◌, ◌||◌, Option, none, some, List, [], ◌∷◌, ◌++◌, arith, Text, Result, ok,
  err, ◌>>=◌, ◌>>◌, ltb, leb, ◌==◌, if◌then◌else◌, codes, trim,
}
use cantonbit.Amount.{to_base_units}

pub data SwapPayAsset : Type 0 where
  cc cbtc wbtc : SwapPayAsset

pub data LimitError : Type 0 where
  invalid_amount not_positive : SwapPayAsset → LimitError
  over_limit : SwapPayAsset → LimitError

abbrev pub max_swap_cc : Text
max_swap_cc = codes "200"

abbrev pub max_swap_cbtc : Text
max_swap_cbtc = codes "0.0001"

-- `asset === "CC" ? CC_DECIMALS : BTC_DECIMALS`
abbrev pub decimals_of : SwapPayAsset → ℕ
decimals_of SwapPayAsset.cc = 10
decimals_of SwapPayAsset.cbtc = 8
decimals_of SwapPayAsset.wbtc = 8

-- The base units of a text; any throw becomes the error given.
abbrev pub parse_or : Text → ℕ → LimitError → Result LimitError ℕ
parse_or amount decimals e = elim (to_base_units amount decimals) [
  | ok units ↦ ok units
  | err _ ↦ err e
]

unfoldable pub swap_pay_amount_limit_units : SwapPayAsset → Result LimitError ℕ
unfolding to_base_units
swap_pay_amount_limit_units SwapPayAsset.cc =
    parse_or max_swap_cc 10 (LimitError.invalid_amount SwapPayAsset.cc)
swap_pay_amount_limit_units SwapPayAsset.cbtc =
    parse_or max_swap_cbtc 8 (LimitError.invalid_amount SwapPayAsset.cbtc)
swap_pay_amount_limit_units SwapPayAsset.wbtc =
    parse_or max_swap_cbtc 8 (LimitError.invalid_amount SwapPayAsset.wbtc)

-- The answer of the form's check: fine, or the message for an asset.
pub data Verdict : Type 0 where
  fine : Verdict
  too_much : SwapPayAsset → Verdict

-- `catch { return { ok: true } }`
abbrev verdict_of : Result LimitError Verdict → Verdict
verdict_of (ok v) = v
verdict_of (err _) = Verdict.fine

unfoldable pub check_swap_pay_amount_limit : SwapPayAsset → Text → Verdict
check_swap_pay_amount_limit asset amount = verdict_of (do
  units ← parse_or (trim amount) (decimals_of asset) (LimitError.invalid_amount asset)
  limit ← swap_pay_amount_limit_units asset
  ok (
      if units == 0
      then Verdict.fine
      else if ltb limit units
      then Verdict.too_much asset
      else Verdict.fine))

unfoldable pub assert_swap_pay_amount_limit_units : SwapPayAsset → ℕ → Result LimitError ℕ
assert_swap_pay_amount_limit_units asset units =
    if units == 0
    then err (LimitError.not_positive asset)
    else swap_pay_amount_limit_units asset >>= λ limit.
        if ltb limit units then err (LimitError.over_limit asset) else ok units

unfoldable pub assert_swap_pay_amount_limit : SwapPayAsset → Text → Result LimitError ℕ
unfolding assert_swap_pay_amount_limit_units
assert_swap_pay_amount_limit asset amount =
    parse_or (trim amount) (decimals_of asset) (LimitError.invalid_amount asset) >>= λ units.
    assert_swap_pay_amount_limit_units asset units

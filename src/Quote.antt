-- ===== src/Quote.antt =====
-- lib/htlc-quote-math.ts: the quote of a cross-chain swap in base units.
-- `bigint` values are natural numbers here: amounts and prices are never negative on these paths.
pub mod Bounds
use cantonbit.Shared.{
  ℕ, zero, suc, ◌+◌, ◌-◌, ◌*◌, ◌/◌, ◌%◌, ◌^◌, ◌≤◌, ◌<◌, ◌≡◌, refl, ◌≢◌, ◌↔◌, ◌⊎◌, inl, inr, Bool,
  true, false, not, ◌&&◌, ◌||◌, Option, none, some, List, [], ◌∷◌, ◌++◌, arith, Text, Result, ok,
  err, ◌>>=◌, ◌>>◌, ltb, leb, ◌==◌, if◌then◌else◌,
}
use cantonbit.Htlc.Order.{SwapDirection, evm_to_canton, canton_to_evm}

pub data QuoteError : Type 0 where
  bad_price bad_fee : QuoteError

unfoldable pub quote_gross_out_units : SwapDirection → ℕ → ℕ → Result QuoteError ℕ
quote_gross_out_units SwapDirection.canton_to_evm in_units price8 =
    if price8 == 0 then err QuoteError.bad_price else ok (in_units * 100_000_000 / price8)
quote_gross_out_units SwapDirection.evm_to_canton in_units price8 =
    if price8 == 0 then err QuoteError.bad_price else ok (in_units * price8 / 100_000_000)

-- `none` stands for a fee that is fractional, negative or not a number.
unfoldable pub apply_output_fee : ℕ → Option ℕ → Result QuoteError ℕ
apply_output_fee gross none = err QuoteError.bad_fee
apply_output_fee gross (some fee_bps) =
    if ltb 10_000 fee_bps then err QuoteError.bad_fee else ok (gross - gross * fee_bps / 10_000)

unfoldable pub quote_out_units : SwapDirection → ℕ → ℕ → Option ℕ → Result QuoteError ℕ
unfolding quote_gross_out_units apply_output_fee
quote_out_units direction in_units price8 fee_bps =
    quote_gross_out_units direction in_units price8 >>= λ gross. apply_output_fee gross fee_bps

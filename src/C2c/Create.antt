-- ===== src/C2c/Create.antt =====
-- lib/canton-swap-order-logic.ts, `resolveCreateCantonSwapOrder`.
pub mod Replay
use cantonbit.Shared.{
  ℕ, Bool, true, false, not, ◌&&◌, Option, none, some, Result, ok, err, ◌==◌, if◌then◌else◌,
  text_eq, opt_text_eq, opt_num_eq, or_else,
}
use cantonbit.C2c.Order.{CantonSwapOrder, CantonSwapStatus, WalletMode, asset_eq, is_loop}

-- `a === b` on wallet modes.
abbrev pub mode_eq : WalletMode → WalletMode → Bool
mode_eq WalletMode.managed m = not (is_loop m)
mode_eq WalletMode.loop m = is_loop m

unfoldable pub immutable_terms_match : CantonSwapOrder → CantonSwapOrder → Bool
immutable_terms_match existing incoming =
    asset_eq existing.from_asset incoming.from_asset
    && asset_eq existing.to_asset incoming.to_asset
    && text_eq existing.in_amount incoming.in_amount
    && text_eq existing.out_amount incoming.out_amount
    && text_eq existing.min_out incoming.min_out
    && existing.quote_expires_at == incoming.quote_expires_at
    && text_eq existing.user_party incoming.user_party
    && text_eq existing.solver_party incoming.solver_party
    && text_eq (or_else existing.settlement_party existing.solver_party)
        (or_else incoming.settlement_party incoming.solver_party)
    && mode_eq existing.wallet_mode incoming.wallet_mode
    && opt_text_eq existing.network_fee_cc incoming.network_fee_cc
    && opt_num_eq existing.network_fee_expires_at incoming.network_fee_expires_at

pub data CreateError : Type 0 where
  different_terms : CreateError

-- `{ ...incoming, status: "open", createdAt: nowSeconds }`; the request carries neither field.
unfoldable pub new_order : CantonSwapOrder → ℕ → CantonSwapOrder
new_order incoming now_seconds = record incoming {
  status = CantonSwapStatus.opened;
  created_at = now_seconds;
}

unfoldable pub resolve_create_canton_swap_order :
    Option CantonSwapOrder → CantonSwapOrder → ℕ → Result CreateError (CantonSwapOrder × Bool)
unfolding new_order
resolve_create_canton_swap_order none incoming now_seconds =
    ok (new_order incoming now_seconds, true)
resolve_create_canton_swap_order (some existing) incoming now_seconds =
    if immutable_terms_match existing incoming
    then ok (existing, false)
    else err CreateError.different_terms

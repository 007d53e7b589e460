-- ===== src/C2c/Order.antt =====
-- lib/canton-swap-types.ts: the order of a same-ledger swap, and the parties that act for it.
use cantonbit.Shared.{
  ℕ, Bool, true, false, not, ◌&&◌, ◌||◌, Option, List, [], ◌∷◌, Text, ◌==◌, if◌then◌else◌, or_else,
}

pub data SwapAsset : Type 0 where
  cbtc cc usdcx : SwapAsset

pub data CantonSwapStatus : Type 0 where
  opened settling filling user_locked filled expired failed cancelled : CantonSwapStatus

pub data WalletMode : Type 0 where
  managed loop : WalletMode

pub record CantonSwapOrder : Type 0 where
  pub id : Text
  pub status : CantonSwapStatus
  pub from_asset : SwapAsset
  pub to_asset : SwapAsset
  pub in_amount : Text
  pub out_amount : Text
  pub min_out : Text
  pub quote_expires_at : ℕ
  pub user_party : Text
  pub solver_party : Text
  pub settlement_party : Option Text
  pub wallet_mode : WalletMode
  pub float_reserved : Option Bool
  pub user_leg_offer_cid : Option Text
  pub user_leg_submit_update_id : Option Text
  pub counter_leg_offer_cid : Option Text
  pub counter_leg_created_offset : Option ℕ
  pub counter_receipt_update_id : Option Text
  pub settlement_update_id : Option Text
  pub counter_reissue_attempt : Option ℕ
  pub counter_pending_cleared_at : Option ℕ
  pub failure_reason : Option Text
  pub created_at : ℕ
  pub network_fee_cc : Option Text
  pub network_fee_expires_at : Option ℕ
  pub network_fee_settlement_update_id : Option Text
  pub network_fee_accounting_pending : Option Bool

abbrev pub asset_code : SwapAsset → ℕ
asset_code SwapAsset.cbtc = 0
asset_code SwapAsset.cc = 1
asset_code SwapAsset.usdcx = 2

abbrev pub asset_eq : SwapAsset → SwapAsset → Bool
asset_eq a b = asset_code a == asset_code b

abbrev pub status_code : CantonSwapStatus → ℕ
status_code CantonSwapStatus.opened = 0
status_code CantonSwapStatus.settling = 1
status_code CantonSwapStatus.filling = 2
status_code CantonSwapStatus.user_locked = 3
status_code CantonSwapStatus.filled = 4
status_code CantonSwapStatus.expired = 5
status_code CantonSwapStatus.failed = 6
status_code CantonSwapStatus.cancelled = 7

-- `a === b` on statuses.
abbrev pub status_eq : CantonSwapStatus → CantonSwapStatus → Bool
status_eq a b = status_code a == status_code b

-- `o.walletMode === "loop"`
abbrev pub is_loop : WalletMode → Bool
is_loop WalletMode.managed = false
is_loop WalletMode.loop = true

unfoldable pub is_canton_swap_mvp_pair : SwapAsset → SwapAsset → Bool
is_canton_swap_mvp_pair from_asset to_asset =
    not (asset_eq from_asset to_asset)
    && (asset_eq from_asset SwapAsset.cbtc || asset_eq from_asset SwapAsset.cc)
    && (asset_eq to_asset SwapAsset.cbtc || asset_eq to_asset SwapAsset.cc)

-- `CANTON_SWAP_TERMINAL.includes(s)`
abbrev pub is_terminal : CantonSwapStatus → Bool
is_terminal CantonSwapStatus.filled = true
is_terminal CantonSwapStatus.expired = true
is_terminal CantonSwapStatus.failed = true
is_terminal CantonSwapStatus.cancelled = true
is_terminal _ = false

unfoldable pub is_canton_swap_active : CantonSwapOrder → Bool
is_canton_swap_active o = not (is_terminal o.status)

unfoldable pub swap_party : CantonSwapOrder → Text
swap_party o = or_else o.settlement_party o.solver_party

unfoldable pub loop_fill_act_as_parties : CantonSwapOrder → List Text
unfolding swap_party
loop_fill_act_as_parties o = swap_party o ∷ []

unfoldable pub managed_fill_act_as_parties : CantonSwapOrder → Bool → List Text
unfolding loop_fill_act_as_parties
managed_fill_act_as_parties o with_network_fee =
    if with_network_fee then o.user_party ∷ swap_party o ∷ [] else loop_fill_act_as_parties o

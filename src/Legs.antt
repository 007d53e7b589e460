-- ===== src/Legs.antt =====
-- lib/swap-leg.ts: the two legs of a swap as the user picks them, and the rules that make them a pair.
pub mod Rules
use cantonbit.Shared.{
  ℕ, zero, suc, ◌+◌, ◌-◌, ◌*◌, ◌/◌, ◌%◌, ◌^◌, ◌≤◌, ◌<◌, ◌≡◌, refl, ◌≢◌, ◌↔◌, ◌⊎◌, inl, inr, Bool,
  true, false, not, ◌&&◌, ◌||◌, Option, none, some, List, [], ◌∷◌, ◌++◌, arith, Text, Result, ok,
  err, ◌>>=◌, ◌>>◌, ltb, leb, ◌==◌, if◌then◌else◌, any,
}

-- `CantonSwapAssetId` of lib/canton-assets.ts.
pub data CantonAsset : Type 0 where
  cbtc cc usdcx : CantonAsset

pub data SwapLeg : Type 0 where
  evm : SwapLeg
  canton : CantonAsset → SwapLeg

pub data SwapKind : Type 0 where
  evm_to_canton canton_to_evm canton_to_canton : SwapKind
  invalid_evm_evm invalid_same_asset invalid_cross_chain_canton : SwapKind

abbrev pub asset_number : CantonAsset → ℕ
asset_number CantonAsset.cbtc = 0
asset_number CantonAsset.cc = 1
asset_number CantonAsset.usdcx = 2

abbrev pub same_asset : CantonAsset → CantonAsset → Bool
same_asset a b = asset_number a == asset_number b

unfoldable pub resolve_swap_kind : SwapLeg → SwapLeg → SwapKind
resolve_swap_kind SwapLeg.evm SwapLeg.evm = SwapKind.invalid_evm_evm
resolve_swap_kind (SwapLeg.canton a) (SwapLeg.canton b) =
    if same_asset a b then SwapKind.invalid_same_asset else SwapKind.canton_to_canton
resolve_swap_kind SwapLeg.evm (SwapLeg.canton b) =
    if same_asset b CantonAsset.cbtc
    then SwapKind.evm_to_canton
    else SwapKind.invalid_cross_chain_canton
resolve_swap_kind (SwapLeg.canton a) SwapLeg.evm =
    if same_asset a CantonAsset.cbtc
    then SwapKind.canton_to_evm
    else SwapKind.invalid_cross_chain_canton

-- The flags, after their defaults.
pub record SwapFeatureFlags : Type 0 where
  pub cross_chain_enabled : Bool
  pub c2c_enabled : Bool

-- Whether the row of a token is disabled in the picker, next to the other leg if there is one.
unfoldable pub swap_leg_picker_disabled : SwapLeg → Option SwapLeg → SwapFeatureFlags → Bool
swap_leg_picker_disabled SwapLeg.evm none flags = not flags.cross_chain_enabled
swap_leg_picker_disabled SwapLeg.evm (some SwapLeg.evm) flags = true
swap_leg_picker_disabled SwapLeg.evm (some (SwapLeg.canton b)) flags =
    not flags.cross_chain_enabled || not (same_asset b CantonAsset.cbtc)
swap_leg_picker_disabled (SwapLeg.canton a) none flags = false
swap_leg_picker_disabled (SwapLeg.canton a) (some SwapLeg.evm) flags =
    not (same_asset a CantonAsset.cbtc)
swap_leg_picker_disabled (SwapLeg.canton a) (some (SwapLeg.canton b)) flags =
    not flags.c2c_enabled || same_asset b a

-- `enabled.find((t) => t !== current) ?? "CBTC"`
unfoldable pub alternate_canton_token : CantonAsset → List CantonAsset → CantonAsset
alternate_canton_token current [] = CantonAsset.cbtc
alternate_canton_token current (a ∷ enabled) =
    let rest = alternate_canton_token current enabled in if same_asset a current then rest else a

-- Each step of `normalizeSwapLegs` on the two legs, in its order.
abbrev pub without_cross_chain :
    SwapFeatureFlags → CantonAsset → SwapLeg × SwapLeg → SwapLeg × SwapLeg
without_cross_chain flags other (SwapLeg.canton a, SwapLeg.canton b) =
    (SwapLeg.canton a, SwapLeg.canton b)
without_cross_chain flags other (SwapLeg.evm, r) =
    if flags.cross_chain_enabled
    then (SwapLeg.evm, r)
    else (SwapLeg.canton CantonAsset.cbtc, SwapLeg.canton other)
without_cross_chain flags other (SwapLeg.canton a, SwapLeg.evm) =
    if flags.cross_chain_enabled
    then (SwapLeg.canton a, SwapLeg.evm)
    else (SwapLeg.canton CantonAsset.cbtc, SwapLeg.canton other)

abbrev pub without_c2c : SwapFeatureFlags → SwapLeg × SwapLeg → SwapLeg × SwapLeg
without_c2c flags (SwapLeg.evm, r) = (SwapLeg.evm, r)
without_c2c flags (SwapLeg.canton a, SwapLeg.evm) = (SwapLeg.canton a, SwapLeg.evm)
without_c2c flags (SwapLeg.canton a, SwapLeg.canton b) =
    if not flags.c2c_enabled && flags.cross_chain_enabled
    then (SwapLeg.evm, SwapLeg.canton CantonAsset.cbtc)
    else (SwapLeg.canton a, SwapLeg.canton b)

-- The two steps on a pair with an EVM leg: one such leg at most, and CBTC on the other.
abbrev pub cross_chain_pair : SwapLeg × SwapLeg → SwapLeg × SwapLeg
cross_chain_pair (SwapLeg.evm, r) = (SwapLeg.evm, SwapLeg.canton CantonAsset.cbtc)
cross_chain_pair (SwapLeg.canton a, SwapLeg.evm) = (SwapLeg.canton CantonAsset.cbtc, SwapLeg.evm)
cross_chain_pair (SwapLeg.canton a, SwapLeg.canton b) = (SwapLeg.canton a, SwapLeg.canton b)

abbrev pub distinct_pair : List CantonAsset → SwapLeg × SwapLeg → SwapLeg × SwapLeg
distinct_pair enabled (SwapLeg.evm, r) = (SwapLeg.evm, r)
distinct_pair enabled (SwapLeg.canton a, SwapLeg.evm) = (SwapLeg.canton a, SwapLeg.evm)
distinct_pair enabled (SwapLeg.canton a, SwapLeg.canton b) =
    if same_asset a b
    then (SwapLeg.canton a, SwapLeg.canton (alternate_canton_token a enabled))
    else (SwapLeg.canton a, SwapLeg.canton b)

unfoldable pub normalize_swap_legs :
    SwapLeg × SwapLeg → List CantonAsset → SwapFeatureFlags → SwapLeg × SwapLeg
unfolding alternate_canton_token
normalize_swap_legs legs enabled flags =
    if not flags.cross_chain_enabled && not flags.c2c_enabled
    then legs
    else distinct_pair enabled (
        cross_chain_pair (
          without_c2c flags
            (without_cross_chain flags (alternate_canton_token CantonAsset.cbtc enabled) legs)))

pub data Side : Type 0 where
  pay receive : Side

unfoldable pub apply_leg_change :
    Side → SwapLeg → SwapLeg × SwapLeg → List CantonAsset → SwapFeatureFlags → SwapLeg × SwapLeg
unfolding normalize_swap_legs
apply_leg_change Side.pay next (p, r) enabled flags = normalize_swap_legs (next, r) enabled flags
apply_leg_change Side.receive next (p, r) enabled flags =
    normalize_swap_legs (p, next) enabled flags

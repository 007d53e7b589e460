-- ===== src/Examples/Legs.antt =====
-- Picking the legs of a swap.
use cantonbit.Shared.{◌≡◌, refl, true, not, some, List, [], ◌∷◌}
use cantonbit.Legs.{
  CantonAsset, SwapLeg, SwapFeatureFlags, resolve_swap_kind, normalize_swap_legs,
  swap_leg_picker_disabled,
}
use cantonbit.Legs.Rules.{kind_allowed, normalized_allowed, normalized_same, picker_agrees}

abbrev all_on : SwapFeatureFlags
all_on = record { cross_chain_enabled = true; c2c_enabled = true }

abbrev assets : List CantonAsset
assets = CantonAsset.cbtc ∷ CantonAsset.cc ∷ CantonAsset.usdcx ∷ []

allowed_example :
    kind_allowed all_on (
      resolve_swap_kind
        (normalize_swap_legs (SwapLeg.canton CantonAsset.cc, SwapLeg.evm) assets all_on).0
        (normalize_swap_legs (SwapLeg.canton CantonAsset.cc, SwapLeg.evm) assets all_on).1)
    ≡ true
allowed_example =
    normalized_allowed (SwapLeg.canton CantonAsset.cc) SwapLeg.evm assets all_on refl refl

same_example :
    normalize_swap_legs (SwapLeg.evm, SwapLeg.canton CantonAsset.cbtc) assets all_on
    ≡ (SwapLeg.evm, SwapLeg.canton CantonAsset.cbtc)
unfolding resolve_swap_kind
same_example = normalized_same SwapLeg.evm (SwapLeg.canton CantonAsset.cbtc) assets all_on refl

picker_example :
    (swap_leg_picker_disabled (SwapLeg.canton CantonAsset.cc) (some SwapLeg.evm) all_on
      ≡ not (kind_allowed all_on (resolve_swap_kind (SwapLeg.canton CantonAsset.cc) SwapLeg.evm)))
    × (swap_leg_picker_disabled (SwapLeg.canton CantonAsset.cc) (some SwapLeg.evm) all_on
        ≡ not (kind_allowed all_on (resolve_swap_kind SwapLeg.evm (SwapLeg.canton CantonAsset.cc))))
picker_example = picker_agrees (SwapLeg.canton CantonAsset.cc) SwapLeg.evm all_on refl

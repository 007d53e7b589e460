-- ===== src/Legs/Rules.antt =====
-- The legs after normalization are a pair that can be swapped.
use cantonbit.Legs.{
  swap_leg_picker_disabled, CantonAsset, SwapLeg, SwapKind, same_asset, resolve_swap_kind,
  SwapFeatureFlags, alternate_canton_token, normalize_swap_legs,
}
use cantonbit.Shared.{
  ◌≡◌, inl, inr, Bool, true, false, not, ◌||◌, some, List, [], ◌∷◌, arith, Bool-cases, any,
}

-- The kinds that the flags allow.
abbrev pub kind_allowed : SwapFeatureFlags → SwapKind → Bool
kind_allowed flags SwapKind.evm_to_canton = flags.cross_chain_enabled
kind_allowed flags SwapKind.canton_to_evm = flags.cross_chain_enabled
kind_allowed flags SwapKind.canton_to_canton = flags.c2c_enabled
kind_allowed flags _ = false

-- Another token than CBTC is enabled.
abbrev pub has_other : List CantonAsset → Bool
has_other enabled = any (λ a. not (same_asset a CantonAsset.cbtc)) enabled

alternate_differs :
    (current : CantonAsset) (enabled : List CantonAsset)
    → (not (same_asset current CantonAsset.cbtc) || has_other enabled) ≡ true
    → same_asset current (alternate_canton_token current enabled) ≡ false
unfolding alternate_canton_token
alternate_differs current [] h = ground arith
alternate_differs current (a ∷ enabled) h = elim (Bool-cases (same_asset a current)) [
  | inl e ↦ rw e (alternate_differs current enabled (ground arith))
  | inr e ↦ rw e (ground arith)
]

-- Whatever the user picks, if a swap of some kind is on and a token besides CBTC is enabled, the
-- normalized legs can be swapped, in a way that the flags allow.
pub normalized_allowed :
    (p r : SwapLeg) (enabled : List CantonAsset) (flags : SwapFeatureFlags)
    → (flags.cross_chain_enabled || flags.c2c_enabled) ≡ true
    → has_other enabled ≡ true
    → kind_allowed flags (
        resolve_swap_kind
          (normalize_swap_legs (p, r) enabled flags).0
          (normalize_swap_legs (p, r) enabled flags).1)
      ≡ true
unfolding normalize_swap_legs resolve_swap_kind
normalized_allowed SwapLeg.evm SwapLeg.evm enabled flags on other =
    ground (arith, alternate_differs CantonAsset.cbtc enabled other)
normalized_allowed SwapLeg.evm (SwapLeg.canton b) enabled flags on other =
    ground (arith, alternate_differs CantonAsset.cbtc enabled other)
normalized_allowed (SwapLeg.canton a) SwapLeg.evm enabled flags on other =
    ground (arith, alternate_differs CantonAsset.cbtc enabled other)
normalized_allowed (SwapLeg.canton a) (SwapLeg.canton b) enabled flags on other =
    ground (arith, alternate_differs a enabled (ground arith))

-- Legs that can be swapped in a way that the flags allow are left as the user picked them.
pub normalized_same :
    (p r : SwapLeg) (enabled : List CantonAsset) (flags : SwapFeatureFlags)
    → kind_allowed flags (resolve_swap_kind p r) ≡ true
    → normalize_swap_legs (p, r) enabled flags ≡ (p, r)
unfolding normalize_swap_legs resolve_swap_kind
normalized_same SwapLeg.evm SwapLeg.evm enabled flags h = ground arith
normalized_same SwapLeg.evm (SwapLeg.canton b) enabled flags h = ground arith
normalized_same (SwapLeg.canton a) SwapLeg.evm enabled flags h = ground arith
normalized_same (SwapLeg.canton a) (SwapLeg.canton b) enabled flags h = ground arith

-- While cross-chain swaps are on, the picker disables a token next to a chosen leg exactly when the two
-- cannot be swapped in a way that the flags allow, on whichever side the token is.
pub picker_agrees :
    (candidate other : SwapLeg) (flags : SwapFeatureFlags)
    → flags.cross_chain_enabled ≡ true
    → (swap_leg_picker_disabled candidate (some other) flags
        ≡ not (kind_allowed flags (resolve_swap_kind candidate other)))
      × (swap_leg_picker_disabled candidate (some other) flags
          ≡ not (kind_allowed flags (resolve_swap_kind other candidate)))
unfolding swap_leg_picker_disabled resolve_swap_kind
picker_agrees SwapLeg.evm SwapLeg.evm flags on = ground arith
picker_agrees SwapLeg.evm (SwapLeg.canton b) flags on = ground arith
picker_agrees (SwapLeg.canton a) SwapLeg.evm flags on = ground arith
picker_agrees (SwapLeg.canton a) (SwapLeg.canton b) flags on = ground arith

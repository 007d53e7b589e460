-- ===== src/Timelock/Intent.antt =====
-- The window of a prepare request.
use cantonbit.Shared.{ℕ, ◌+◌, ◌≤◌, ◌<◌, ◌≡◌, ◌↔◌, some, arith, ok}
use cantonbit.Timelock.{assert_valid_prepare_created_at}

-- A prepare time is accepted, and returned unchanged, exactly when it is positive, at most a minute
-- ahead of the server's clock and at most half an hour behind it.
pub assert_valid_prepare_created_at_iff :
    (created now : ℕ)
    → (assert_valid_prepare_created_at (some created) now ≡ ok created)
      ↔ ((0 < created) × (created ≤ now + 60) × (now ≤ created + 1800))
unfolding assert_valid_prepare_created_at
assert_valid_prepare_created_at_iff created now = (λ h. ground arith, λ h. ground arith)

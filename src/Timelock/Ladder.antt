-- ===== src/Timelock/Ladder.antt =====
-- The ladder of timelocks: what the server accepts, and that a derived ladder is accepted.
use cantonbit.Shared.{ℕ, ◌+◌, ◌≤◌, ◌<◌, ◌≡◌, ◌↔◌, some, arith, ok}
use cantonbit.Timelock.{
  min_gap_canton, Timelocks, timelocks_from_expiration_canton, assert_valid_timelocks,
}

-- The server accepts a ladder exactly when the solver's timelock is more than a minute away, the
-- user's is at least the gap behind it, and the user's is at most seven days away.
pub assert_valid_timelocks_iff :
    (now user solver gap : ℕ)
    → (assert_valid_timelocks now (some user) (some solver) gap ≡ ok tt)
      ↔ ((now + 60 < solver) × (solver + gap ≤ user) × (user ≤ now + 604800))
unfolding assert_valid_timelocks
assert_valid_timelocks_iff now user solver gap = (λ h. ground arith, λ h. ground arith)

-- The same-ledger derivation leaves the solver at least an hour and a half, and keeps the smaller gap
-- that needs no EVM finality.
pub canton_ladder_bounds :
    (now expiration : ℕ) {t : Timelocks}
    → timelocks_from_expiration_canton now expiration ≡ ok t
    → (t.user_timelock ≡ now + expiration)
      × (now + 5400 ≤ t.solver_timelock)
      × (t.solver_timelock + min_gap_canton ≤ t.user_timelock)
unfolding timelocks_from_expiration_canton
canton_ladder_bounds now expiration made = ground arith

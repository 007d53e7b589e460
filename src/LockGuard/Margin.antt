-- ===== src/LockGuard/Margin.antt =====
-- What an accepted EVM lock guarantees to the solver.
use cantonbit.Shared.{ℕ, ◌+◌, ◌≤◌, ◌<◌, ◌≡◌, ◌↔◌, true, some, arith, ok, err, to_lower, text_eq}
use cantonbit.LockGuard.{
  LockError, some, EvmLockRevealRequirements, EvmLockSnapshot, assert_evm_lock_safe_for_reveal,
}

-- With the order's amount and timelock given, a lock passes exactly when it is there, holds the
-- canonical token and at least the amount, names the solver as receiver, unlocks within two minutes
-- of the order's timelock, and leaves the solver ten minutes to claim.
pub assert_evm_lock_safe_for_reveal_iff :
    (lock : EvmLockSnapshot) (req : EvmLockRevealRequirements) (now units timelock : ℕ)
    → req.wbtc_units ≡ some units
    → req.expected_user_timelock ≡ some timelock
    → (assert_evm_lock_safe_for_reveal lock req now ≡ ok tt) ↔ (
        (0 < lock.amount)
        × (text_eq lock.token_address (to_lower req.expected_wbtc_address) ≡ true)
        × (units ≤ lock.amount)
        × (text_eq lock.receiver (to_lower req.solver_evm_address) ≡ true)
        × (lock.unlock_time ≤ timelock + 120)
        × (timelock ≤ lock.unlock_time + 120)
        × (now + 600 ≤ lock.unlock_time))
unfolding assert_evm_lock_safe_for_reveal
assert_evm_lock_safe_for_reveal_iff lock req now units timelock hu ht =
    (λ h. ground arith, λ h. ground arith)

-- A lock that passes now passed at every earlier moment too, and it is refused at every moment at
-- which less than ten minutes are left.
pub lock_safe_earlier :
    (lock : EvmLockSnapshot) (req : EvmLockRevealRequirements) (earlier now late : ℕ)
    → earlier ≤ now
    → assert_evm_lock_safe_for_reveal lock req now ≡ ok tt
    → lock.unlock_time < late + 600
    → (assert_evm_lock_safe_for_reveal lock req earlier ≡ ok tt)
      × (assert_evm_lock_safe_for_reveal lock req late ≡ err LockError.expires_too_soon)
unfolding assert_evm_lock_safe_for_reveal
lock_safe_earlier lock req earlier now late le h short = ground arith

-- ===== src/Examples/Time.antt =====
-- Timelocks, prepare windows and EVM locks.
use cantonbit.Shared.{
  ℕ, ◌+◌, ◌≤◌, ◌<◌, ◌≡◌, refl, ◌↔◌, true, some, arith, ok, err, codes, text_eq, to_lower,
}
use cantonbit.Timelock.{
  assert_valid_timelocks, timelocks_from_expiration_canton, min_gap_canton,
  assert_valid_prepare_created_at,
}
use cantonbit.Timelock.Ladder.{assert_valid_timelocks_iff, canton_ladder_bounds}
use cantonbit.Timelock.Intent.{assert_valid_prepare_created_at_iff}
use cantonbit.LockGuard.{
  EvmLockSnapshot, EvmLockRevealRequirements, LockError, assert_evm_lock_safe_for_reveal,
}
use cantonbit.LockGuard.Margin.{assert_evm_lock_safe_for_reveal_iff, lock_safe_earlier}

timelocks_example :
    (assert_valid_timelocks 1000 (some 9000) (some 7000) 1260 ≡ ok tt)
    ↔ ((1000 + 60 < 7000) × (7000 + 1260 ≤ 9000) × (9000 ≤ 1000 + 604800))
timelocks_example = assert_valid_timelocks_iff 1000 9000 7000 1260

canton_ladder_example :
    (◌≡◌ {A = ℕ} 8200 (1000 + 7200)) × (1000 + 5400 ≤ 6400) × (6400 + min_gap_canton ≤ 8200)
unfolding timelocks_from_expiration_canton
canton_ladder_example =
    canton_ladder_bounds 1000 7200 {t = record { user_timelock = 8200; solver_timelock = 6400 }}
      refl

intent_example :
    (assert_valid_prepare_created_at (some 1000) 2800 ≡ ok 1000)
    ↔ ((0 < 1000) × (1000 ≤ 2800 + 60) × (2800 ≤ 1000 + 1800))
intent_example = assert_valid_prepare_created_at_iff 1000 2800

abbrev lock : EvmLockSnapshot
lock = record {
  unlock_time = 20000;
  amount = 5000;
  token_address = codes "0xtoken";
  receiver = codes "0x51";
}

abbrev needs : EvmLockRevealRequirements
needs = record {
  wbtc_units = some 5000;
  solver_evm_address = codes "0x51";
  expected_wbtc_address = codes "0xToken";
  expected_user_timelock = some 20060;
}

lock_safe_example : (assert_evm_lock_safe_for_reveal lock needs 19400 ≡ ok tt) ↔ (
    (0 < lock.amount)
    × (text_eq lock.token_address (to_lower needs.expected_wbtc_address) ≡ true)
    × (5000 ≤ lock.amount)
    × (text_eq lock.receiver (to_lower needs.solver_evm_address) ≡ true)
    × (lock.unlock_time ≤ 20060 + 120)
    × (20060 ≤ lock.unlock_time + 120)
    × (19400 + 600 ≤ lock.unlock_time))
lock_safe_example = assert_evm_lock_safe_for_reveal_iff lock needs 19400 5000 20060 refl refl

lock_safe_earlier_example :
    (assert_evm_lock_safe_for_reveal lock needs 100 ≡ ok tt)
    × (assert_evm_lock_safe_for_reveal lock needs 19401 ≡ err LockError.expires_too_soon)
unfolding assert_evm_lock_safe_for_reveal text_eq to_lower
lock_safe_earlier_example =
    lock_safe_earlier lock needs 100 19400 19401 (omega arith) refl (omega arith)

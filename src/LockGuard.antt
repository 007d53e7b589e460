-- ===== src/LockGuard.antt =====
-- lib/htlc-evm-lock-guard.ts: the checks of an EVM lock before CBTC is released.
pub mod Margin
use cantonbit.Shared.{
  to_lower, text_eq, ℕ, zero, suc, ◌+◌, ◌-◌, ◌*◌, ◌/◌, ◌%◌, ◌^◌, ◌≤◌, ◌<◌, ◌≡◌, refl, ◌≢◌, ◌↔◌, ◌⊎◌,
  inl, inr, Bool, true, false, not, ◌&&◌, ◌||◌, Option, none, some, List, [], ◌∷◌, ◌++◌, arith,
  Text, Result, ok, err, ◌>>=◌, ◌>>◌, ltb, leb, ◌==◌, if◌then◌else◌, throw_if,
}

abbrev pub evm_claim_margin_seconds : ℕ
evm_claim_margin_seconds = 10 * 60

abbrev pub evm_timelock_bind_tolerance_seconds : ℕ
evm_timelock_bind_tolerance_seconds = 120

pub record EvmLockSnapshot : Type 0 where
  pub unlock_time : ℕ
  pub amount : ℕ
  pub token_address : Text
  pub receiver : Text

-- `wbtc_units` is `BigInt(req.wbtcAmount)`, `none` where that throws.
pub record EvmLockRevealRequirements : Type 0 where
  pub wbtc_units : Option ℕ
  pub solver_evm_address : Text
  pub expected_wbtc_address : Text
  pub expected_user_timelock : Option ℕ

pub data LockError : Type 0 where
  lock_not_found wrong_token bad_amount amount_too_small wrong_receiver wrong_unlock_time :
      LockError
  expires_too_soon : LockError

-- `Math.abs(a - b)`
abbrev pub distance : ℕ → ℕ → ℕ
distance a b = (a - b) + (b - a)

abbrev is_short : Option ℕ → ℕ → Result LockError (Unit {0})
is_short none amount = err LockError.bad_amount
is_short (some units) amount = throw_if (ltb amount units) LockError.amount_too_small

abbrev is_unbound : Option ℕ → ℕ → Bool
is_unbound none unlock_time = false
is_unbound (some expected) unlock_time =
    ltb evm_timelock_bind_tolerance_seconds (distance unlock_time expected)

unfoldable pub assert_evm_lock_safe_for_reveal :
    EvmLockSnapshot → EvmLockRevealRequirements → ℕ → Result LockError (Unit {0})
assert_evm_lock_safe_for_reveal lock req now_sec = do
  throw_if (lock.amount == 0) LockError.lock_not_found
  throw_if (not (text_eq lock.token_address (to_lower req.expected_wbtc_address)))
      LockError.wrong_token
  is_short req.wbtc_units lock.amount
  throw_if (not (text_eq lock.receiver (to_lower req.solver_evm_address))) LockError.wrong_receiver
  throw_if (is_unbound req.expected_user_timelock lock.unlock_time) LockError.wrong_unlock_time
  throw_if (ltb lock.unlock_time (now_sec + evm_claim_margin_seconds)) LockError.expires_too_soon

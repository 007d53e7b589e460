-- ===== src/Timelock.antt =====
-- lib/htlc-timelock.ts and lib/swap-prepare-intent.ts: the two timelocks of a swap, and the age of a
-- prepare request. Times are whole unix seconds; where the source tests `Number.isFinite`, `none`
-- stands for NaN and the infinities.
pub mod Ladder
pub mod Intent
use cantonbit.Shared.{
  throw_if, ℕ, zero, suc, ◌+◌, ◌-◌, ◌*◌, ◌/◌, ◌%◌, ◌^◌, ◌≤◌, ◌<◌, ◌≡◌, refl, ◌≢◌, ◌↔◌, ◌⊎◌, inl,
  inr, Bool, true, false, not, ◌&&◌, ◌||◌, Option, none, some, List, [], ◌∷◌, ◌++◌, arith, Text,
  Result, ok, err, ◌>>=◌, ◌>>◌, ltb, leb, ◌==◌, if◌then◌else◌, min, max,
}

abbrev pub canton_skew_max_seconds : ℕ
canton_skew_max_seconds = 60

abbrev pub evm_finality_seconds : ℕ
evm_finality_seconds = 15 * 60

abbrev pub exec_buffer_seconds : ℕ
exec_buffer_seconds = 5 * 60

abbrev pub min_gap : ℕ
min_gap = canton_skew_max_seconds + evm_finality_seconds + exec_buffer_seconds

abbrev pub min_gap_canton : ℕ
min_gap_canton = canton_skew_max_seconds + exec_buffer_seconds

abbrev pub default_gap : ℕ
default_gap = 60 * 60

abbrev pub min_canton_expiration_seconds : ℕ
min_canton_expiration_seconds = 2 * 60 * 60

pub record Timelocks : Type 0 where
  pub user_timelock : ℕ
  pub solver_timelock : ℕ

pub data TimelockError : Type 0 where
  not_finite too_soon ladder_invalid too_far expiration_too_short misconfigured : TimelockError

-- `userTimelock - solverTimelock < minGap`, with the difference moved over: it may be negative.
check_ladder : ℕ → ℕ → ℕ → ℕ → Result TimelockError (Unit {0})
check_ladder now_seconds user solver gap = do
  throw_if (leb solver (now_seconds + 60)) TimelockError.too_soon
  throw_if (ltb user (solver + gap)) TimelockError.ladder_invalid
  throw_if (ltb (now_seconds + 7 * 24 * 60 * 60) user) TimelockError.too_far

unfoldable pub assert_valid_timelocks :
    ℕ → Option ℕ → Option ℕ → ℕ → Result TimelockError (Unit {0})
unfolding check_ladder
assert_valid_timelocks now_seconds none solver gap = err TimelockError.not_finite
assert_valid_timelocks now_seconds (some user) none gap = err TimelockError.not_finite
assert_valid_timelocks now_seconds (some user) (some solver) gap =
    check_ladder now_seconds user solver gap

abbrev scaled_gap : ℕ → ℕ → ℕ
scaled_gap least expiration_seconds = max least (min default_gap (expiration_seconds / 4))

unfoldable pub timelocks_from_expiration : ℕ → ℕ → Result TimelockError Timelocks
timelocks_from_expiration now_seconds expiration_seconds =
    let gap = scaled_gap min_gap expiration_seconds in
    let user = now_seconds + expiration_seconds in
    let solver = user - gap in
    if ltb expiration_seconds min_canton_expiration_seconds
    then err TimelockError.expiration_too_short
    else if leb solver now_seconds
    then err TimelockError.misconfigured
    else ok (record { user_timelock = user; solver_timelock = solver })

unfoldable pub timelocks_from_expiration_canton : ℕ → ℕ → Result TimelockError Timelocks
timelocks_from_expiration_canton now_seconds expiration_seconds =
    let gap = scaled_gap min_gap_canton expiration_seconds in
    let user = now_seconds + expiration_seconds in
    let solver = user - gap in
    if ltb expiration_seconds min_canton_expiration_seconds
    then err TimelockError.expiration_too_short
    else if leb solver now_seconds
    then err TimelockError.misconfigured
    else ok (record { user_timelock = user; solver_timelock = solver })

abbrev pub prepare_intent_ttl_seconds : ℕ
prepare_intent_ttl_seconds = 30 * 60

abbrev pub prepare_intent_max_clock_skew_seconds : ℕ
prepare_intent_max_clock_skew_seconds = 60

pub data IntentError : Type 0 where
  invalid_timestamp in_future intent_expired : IntentError

unfoldable pub assert_valid_prepare_created_at : Option ℕ → ℕ → Result IntentError ℕ
assert_valid_prepare_created_at none now_seconds = err IntentError.invalid_timestamp
assert_valid_prepare_created_at (some created_at) now_seconds = do
  throw_if (leb created_at 0) IntentError.invalid_timestamp
  throw_if (ltb (now_seconds + prepare_intent_max_clock_skew_seconds) created_at)
      IntentError.in_future
  throw_if (ltb (created_at + prepare_intent_ttl_seconds) now_seconds) IntentError.intent_expired
  ok created_at

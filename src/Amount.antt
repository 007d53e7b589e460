-- ===== src/Amount.antt =====
-- lib/amount-units.ts: decimal amounts and their base units, with no floating point.
pub mod Digits
pub mod RoundTrip
use cantonbit.Shared.{
  ℕ, zero, suc, ◌+◌, ◌-◌, ◌*◌, ◌/◌, ◌%◌, ◌^◌, ◌≤◌, ◌<◌, ◌≡◌, refl, ◌≢◌, ◌↔◌, ◌⊎◌, inl, inr, Bool,
  true, false, not, ◌&&◌, ◌||◌, Option, none, some, List, [], ◌∷◌, ◌++◌, arith, Text, Result, ok,
  err, ◌>>=◌, ◌>>◌, ltb, leb, ◌==◌, if◌then◌else◌, trim, is_digit, all, length, take, drop,
  replicate,
}

pub data AmountError : Type 0 where
  invalid_decimal too_many_places : AmountError

-- `s.split(".")` of a text with at most one point: what stands before it, and what behind.
unfoldable pub split_point : Text → Text × Option Text
split_point [] = ([], none)
split_point (c ∷ s) =
    let (whole, frac) = split_point s in if c == b'.' then ([], some s) else (c ∷ whole, frac)

abbrev pub is_number : Text → Bool
is_number [] = false
is_number (c ∷ s) = all is_digit (c ∷ s)

abbrev pub is_fraction : Option Text → Bool
is_fraction none = true
is_fraction (some s) = is_number s

-- `/^\d+(\.\d+)?$/.test(s)`
unfoldable pub is_decimal : Text → Bool
unfolding split_point
is_decimal s = is_number (split_point s).0 && is_fraction (split_point s).1

-- `s.padEnd(n, "0")` and `s.padStart(n, "0")`
abbrev pub pad_end : Text → ℕ → Text
pad_end s n = s ++ replicate (n - length s) b'0'

abbrev pub pad_start : Text → ℕ → Text
pad_start s n = replicate (n - length s) b'0' ++ s

abbrev starts_with_digit : Text → Bool
starts_with_digit [] = false
starts_with_digit (c ∷ s) = is_digit c

-- `s.replace(/^0+(?=\d)/, "")`
unfoldable pub strip_leading_zeros : Text → Text
strip_leading_zeros [] = []
strip_leading_zeros (c ∷ s) =
    let rest = strip_leading_zeros s in if c == b'0' && starts_with_digit s then rest else c ∷ s

-- `BigInt(s)` of a text of digits.
unfoldable pub value_from : ℕ → Text → ℕ
value_from acc [] = acc
value_from acc (c ∷ s) = value_from (acc * 10 + (c - b'0')) s

-- `BigInt(stripped || "0")`
unfoldable pub big_int : Text → ℕ
unfolding value_from strip_leading_zeros
big_int s = value_from 0 (strip_leading_zeros s)

abbrev pub fraction : Option Text → Text
fraction none = []
fraction (some s) = s

unfoldable pub to_base_units_floor : Text → ℕ → Result AmountError ℕ
unfolding is_decimal split_point big_int
to_base_units_floor amount decimals =
    let trimmed = trim amount in
    let frac = fraction (split_point trimmed).1 in
    if is_decimal trimmed
    then ok (big_int ((split_point trimmed).0 ++ pad_end (take decimals frac) decimals))
    else err AmountError.invalid_decimal

unfoldable pub to_base_units : Text → ℕ → Result AmountError ℕ
unfolding is_decimal split_point big_int
to_base_units amount decimals =
    let trimmed = trim amount in
    let frac = fraction (split_point trimmed).1 in
    if is_decimal trimmed
    then (if ltb decimals (length frac)
        then err AmountError.too_many_places
        else ok (big_int ((split_point trimmed).0 ++ pad_end frac decimals)))
    else err AmountError.invalid_decimal

-- `n.toString()`, the digits with fuel.
unfoldable pub digits_of : ℕ → ℕ → Text
digits_of zero n = []
digits_of (suc fuel) n =
    let more = digits_of fuel (n / 10) ++ (b'0' + n % 10) ∷ [] in
    if ltb n 10 then (b'0' + n) ∷ [] else more

unfoldable pub to_string : ℕ → Text
unfolding digits_of
to_string n = digits_of (suc n) n

-- `s.replace(/0+$/, "")`
abbrev pub cons_unless_zero : ℕ → Text → Text
cons_unless_zero c [] = if c == b'0' then [] else c ∷ []
cons_unless_zero c (d ∷ s) = c ∷ d ∷ s

unfoldable pub strip_trailing_zeros : Text → Text
strip_trailing_zeros [] = []
strip_trailing_zeros (c ∷ s) = cons_unless_zero c (strip_trailing_zeros s)

-- `whole || "0"`
abbrev pub or_zero : Text → Text
or_zero [] = b'0' ∷ []
or_zero (c ∷ s) = c ∷ s

-- `frac ? whole + "." + frac : whole`
abbrev pub join_point : Text → Text → Text
join_point whole [] = whole
join_point whole (c ∷ s) = whole ++ b'.' ∷ c ∷ s

-- The units are never negative here, so the first guard of the source never fires.
unfoldable pub from_base_units : ℕ → ℕ → Text
unfolding to_string strip_trailing_zeros
from_base_units units decimals =
    let s = pad_start (to_string units) (decimals + 1) in
    let cut = length s - decimals in
    if decimals == 0
    then to_string units
    else join_point (or_zero (take cut s)) (strip_trailing_zeros (drop cut s))

-- ===== src/Amount/RoundTrip.antt =====
-- Printing an amount and parsing it again, and the agreement of the two parsers.
use mathlib.Core.List.{append-nil}
use cantonbit.Shared.{
  ℕ, zero, suc, ◌+◌, ◌-◌, ◌/◌, ◌%◌, ◌≤◌, ◌<◌, ◌≡◌, refl, inl, inr, true, false, ◌&&◌, [], ◌∷◌, ◌++◌,
  arith, Text, ok, ltb, ◌==◌, sym, ◌∙◌, le→ltb, all, is_digit, length, take, drop, replicate,
  Bool-cases, ap, length-append, length-replicate,
}
use cantonbit.Amount.{
  digits_of, to_string, strip_trailing_zeros, pad_start, trim, split_point, fraction, to_base_units,
  to_base_units_floor, from_base_units, pad_end, join_point, or_zero, value_from, is_number,
}
use cantonbit.Amount.Digits.{
  all-strip_trailing_zeros, strip_trailing_zeros_lem, value_from-digits_of, value_from-zeros,
  all_digits-digits_of, split_point_both, value_from-strip_leading_zeros, split_point_whole,
  all_marks_of_digits, trim_marks, is_mark, all-append,
}

take-append-drop : (n : ℕ) (s : Text) → take n s ++ drop n s ≡ s
take-append-drop zero s = refl
take-append-drop (suc n) [] = refl
take-append-drop (suc n) (c ∷ s) = ap (λ (r : Text). c ∷ r) (take-append-drop n s)

length-drop : (n : ℕ) (s : Text) → length (drop n s) ≡ length s - n
length-drop zero s = omega arith
length-drop (suc n) [] = omega arith
length-drop (suc n) (c ∷ s) = omega (arith, length-drop n s)

length-take : (n : ℕ) (s : Text) → n ≤ length s → length (take n s) ≡ n
length-take zero s h = refl
length-take (suc n) [] h = omega arith
length-take (suc n) (c ∷ s) h = omega (arith, length-take n s (omega arith))

take_all : (n : ℕ) (s : Text) → length s ≤ n → take n s ≡ s
take_all zero [] h = refl
take_all zero (c ∷ s) h = absurd (omega arith)
take_all (suc n) [] h = refl
take_all (suc n) (c ∷ s) h = ap (λ (r : Text). c ∷ r) (take_all n s (omega arith))

all-replicate_zeros : (k : ℕ) → all is_digit (replicate k b'0') ≡ true
all-replicate_zeros zero = refl
all-replicate_zeros (suc k) = all-replicate_zeros k

-- Where the strict parser succeeds, the truncating one gives the same units.
pub to_base_units_floor_agrees :
    (amount : Text) (decimals : ℕ) {units : ℕ}
    → to_base_units amount decimals ≡ ok units
    → to_base_units_floor amount decimals ≡ ok units
unfolding to_base_units to_base_units_floor
to_base_units_floor_agrees amount decimals h =
    let frac = fraction (split_point (trim amount)).1 in
    elim (Bool-cases (ltb decimals (length frac))) [
      | inl over ↦ ground arith
      | inr fits ↦ rw (take_all decimals frac (ground arith)) (ground arith)
    ]

is_number_of : (w : Text) → 0 < length w → all is_digit w ≡ true → is_number w ≡ true
is_number_of [] h k = absurd (omega arith)
is_number_of (c ∷ w) h k = k

all_marks_join :
    (w f : Text)
    → all is_digit w ≡ true
    → all is_digit f ≡ true
    → all is_mark (join_point w f) ≡ true
all_marks_join w [] hw hf = all_marks_of_digits w hw
all_marks_join w (c ∷ f) hw hf =
    rw (
      all-append is_mark w (b'.' ∷ c ∷ f),
      all_marks_of_digits w hw,
      all_marks_of_digits (c ∷ f) hf,
    )

-- A joined text parses to the digits of its two parts, padded.
parse_join :
    (w f : Text) (d : ℕ)
    → 0 < length w
    → all is_digit w ≡ true
    → all is_digit f ≡ true
    → length f ≤ d
    → to_base_units (join_point w f) d ≡ ok (value_from 0 (w ++ pad_end f d))
unfolding to_base_units
parse_join w [] d pos hw hf fits = rw (
  trim_marks w (all_marks_of_digits w hw),
  split_point_whole w hw,
  is_number_of w pos hw,
  le→ltb d 0 fits,
  value_from-strip_leading_zeros,
)
parse_join w (c ∷ f) d pos hw hf fits = rw (
  trim_marks (join_point w (c ∷ f)) (all_marks_join w (c ∷ f) hw hf),
  split_point_both w (c ∷ f) hw,
  is_number_of w pos hw,
  hf,
  le→ltb d (length (c ∷ f)) fits,
  value_from-strip_leading_zeros,
)

-- The digits that `from_base_units` cuts into two parts.
padded : ℕ → ℕ → Text
padded units decimals = pad_start (to_string units) (decimals + 1)

all_digits-padded : (u d : ℕ) → all is_digit (padded u d) ≡ true
unfolding padded to_string
all_digits-padded u d = rw (
  all-append is_digit (replicate (d + 1 - length (to_string u)) b'0') (to_string u),
  all-replicate_zeros,
  all_digits-digits_of (suc u) u,
)

value_from-padded : (u d : ℕ) → value_from 0 (padded u d) ≡ u
unfolding padded to_string
value_from-padded u d =
    value_from-zeros (d + 1 - length (to_string u)) (to_string u)
    ∙ value_from-digits_of (suc u) u (omega arith)

length-padded : (u d : ℕ) → d < length (padded u d)
unfolding padded
length-padded u d =
    rw
      (
        length-append (replicate (d + 1 - length (to_string u)) b'0') (to_string u),
        length-replicate,
      )
      (omega arith)

or_zero_of_pos : (w : Text) → 0 < length w → or_zero w ≡ w
or_zero_of_pos [] h = absurd (omega arith)
or_zero_of_pos (c ∷ w) h = refl

all_digits_parts :
    (n : ℕ) (s : Text)
    → all is_digit s ≡ true
    → (all is_digit (take n s) ≡ true) × (all is_digit (drop n s) ≡ true)
all_digits_parts n s h =
    let e : (all is_digit (take n s) && all is_digit (drop n s)) ≡ true =
      sym (all-append is_digit (take n s) (drop n s))
      ∙ ap (all is_digit) (take-append-drop n s)
      ∙ h in
    ground arith

-- Cutting a text of digits and stripping the fraction loses nothing: the parser pads it back.
parse_cut :
    (s : Text) (d : ℕ)
    → d < length s
    → all is_digit s ≡ true
    → to_base_units
        (join_point
          (or_zero (take (length s - d) s))
          (strip_trailing_zeros (drop (length s - d) s)))
        d
      ≡ ok (value_from 0 s)
parse_cut s d long digits =
    let cut = length s - d in
    let f = strip_trailing_zeros (drop cut s) in
    let (hw, hd) = all_digits_parts cut s digits in
    let (k, e, l) = strip_trailing_zeros_lem (drop cut s) in
    let w_len : length (take cut s) ≡ cut = length-take cut s (omega arith) in
    let d_len : length (drop cut s) ≡ length s - cut = length-drop cut s in
    let pad : d - length f ≡ k = omega arith in
    rw (
      or_zero_of_pos (take cut s) (omega arith),
      parse_join (take cut s) f d (omega arith) hw
          (all-strip_trailing_zeros is_digit (drop cut s) hd) (omega arith),
      pad,
      e,
      take-append-drop,
    )

from_base_units-zero : (u : ℕ) → from_base_units u 0 ≡ to_string u
unfolding from_base_units
from_base_units-zero u = refl

from_base_units-suc :
    (u d : ℕ)
    → let s = padded u (suc d) in
      let cut = length s - suc d in
      from_base_units u (suc d)
      ≡ join_point (or_zero (take cut s)) (strip_trailing_zeros (drop cut s))
unfolding from_base_units padded
from_base_units-suc u d = let e : (suc d == 0) ≡ false = ground arith in rw e

length-to_string_pos : (u : ℕ) → 0 < length (to_string u)
unfolding to_string
length-to_string_pos u = elim (Bool-cases (ltb u 10)) [
  | inl small ↦ rw small (omega arith)
  | inr large ↦
      rw (large, length-append (digits_of u (u / 10)) ((b'0' + u % 10) ∷ [])) (omega arith)
]

parse-to_string : (u : ℕ) → to_base_units (to_string u) 0 ≡ ok u
unfolding to_string
parse-to_string u =
    parse_join (to_string u) [] 0 (length-to_string_pos u) (all_digits-digits_of (suc u) u) refl
      (omega arith)
    ∙ ap ok (
        ap (value_from 0) (append-nil (to_string u)) ∙ value_from-digits_of (suc u) u (omega arith))

-- Parsing what was printed gives the units back, for every amount and every scale.
pub to_base_units-from_base_units :
    (units decimals : ℕ) → to_base_units (from_base_units units decimals) decimals ≡ ok units
to_base_units-from_base_units units zero = rw from_base_units-zero (parse-to_string units)
to_base_units-from_base_units units (suc d) =
    rw from_base_units-suc (
      parse_cut (padded units (suc d)) (suc d) (length-padded units (suc d))
        (all_digits-padded units (suc d)))
    ∙ ap ok (value_from-padded units (suc d))

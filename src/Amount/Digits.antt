-- ===== src/Amount/Digits.antt =====
-- Printing and reading digits, and the parts of a decimal text.
use cantonbit.Shared.{
  ℕ, zero, suc, ◌+◌, ◌-◌, ◌*◌, ◌/◌, ◌%◌, ◌<◌, ◌≡◌, refl, inl, inr, Bool, true, not, ◌&&◌, none,
  some, List, [], ◌∷◌, ◌++◌, arith, Text, ltb, ◌==◌, ==_iff, sym, all, is_digit, is_space,
  replicate, length, trim, trim_start, trim_end, Bool-cases, ap,
}
use cantonbit.Amount.{
  strip_leading_zeros, cons_unless_zero, split_point, digits_of, value_from, strip_trailing_zeros,
}

pub all-append {ℓ} :
    {A : Type ℓ} (p : A → Bool) (s t : List A) → all p (s ++ t) ≡ (all p s && all p t)
all-append p [] t = refl
all-append p (x ∷ s) t = ground (arith, all-append p s t)

pub all_digits-digits_of : (fuel n : ℕ) → all is_digit (digits_of fuel n) ≡ true
unfolding digits_of
all_digits-digits_of zero n = refl
all_digits-digits_of (suc fuel) n = elim (Bool-cases (ltb n 10)) [
  | inl small ↦ rw small (ground arith)
  | inr large ↦
      rw
        (
          large,
          all-append is_digit (digits_of fuel (n / 10)) ((b'0' + n % 10) ∷ []),
          all_digits-digits_of fuel (n / 10),
        )
        (ground arith)
]

pub value_from-append :
    (acc : ℕ) (s t : Text) → value_from acc (s ++ t) ≡ value_from (value_from acc s) t
unfolding value_from
value_from-append acc [] t = refl
value_from-append acc (c ∷ s) t = value_from-append (acc * 10 + (c - b'0')) s t

-- Enough fuel prints the number: what is read back is the number.
pub value_from-digits_of : (fuel n : ℕ) → n < fuel → value_from 0 (digits_of fuel n) ≡ n
unfolding digits_of value_from
value_from-digits_of zero n h = elim h [ ]
value_from-digits_of (suc fuel) n h = elim (Bool-cases (ltb n 10)) [
  | inl small ↦ rw small (omega arith)
  | inr large ↦
      rw
        (
          large,
          value_from-append 0 (digits_of fuel (n / 10)) ((b'0' + n % 10) ∷ []),
          value_from-digits_of fuel (n / 10) (ground arith),
        )
        (omega arith)
]

pub value_from-zeros : (k : ℕ) (s : Text) → value_from 0 (replicate k b'0' ++ s) ≡ value_from 0 s
unfolding value_from
value_from-zeros zero s = refl
value_from-zeros (suc k) s = value_from-zeros k s

-- Leading zeros do not count.
pub value_from-strip_leading_zeros :
    (s : Text) → value_from 0 (strip_leading_zeros s) ≡ value_from 0 s
unfolding value_from strip_leading_zeros
value_from-strip_leading_zeros [] = refl
value_from-strip_leading_zeros (c ∷ s) = ground (arith, value_from-strip_leading_zeros s)

cons_unless_zero_lem :
    (c k : ℕ) (t s : Text)
    → t ++ replicate k b'0' ≡ s
    → length t + k ≡ length s
    → (j : ℕ) × (cons_unless_zero c t ++ replicate j b'0' ≡ c ∷ s)
      × (length (cons_unless_zero c t) + j ≡ length (c ∷ s))
cons_unless_zero_lem c k [] s e l = elim (Bool-cases (c == b'0')) [
  | inl z ↦ (
    suc k,
    rw z (rw (← e) (ap (λ (x : ℕ). x ∷ replicate k b'0') (sym ((==_iff c b'0').0 z)))),
    rw z (omega arith),
  )
  | inr nz ↦ (k, rw nz (ap (λ (r : Text). c ∷ r) e), rw nz (omega arith))
]
cons_unless_zero_lem c k (d ∷ t) s e l = (k, ap (λ (r : Text). c ∷ r) e, omega arith)

-- What is cut off at the end are zeros.
pub strip_trailing_zeros_lem :
    (s : Text)
    → (k : ℕ) × (strip_trailing_zeros s ++ replicate k b'0' ≡ s)
      × (length (strip_trailing_zeros s) + k ≡ length s)
unfolding strip_trailing_zeros
strip_trailing_zeros_lem [] = (0, refl, omega arith)
strip_trailing_zeros_lem (c ∷ s) =
    let (k, e, l) = strip_trailing_zeros_lem s in
    cons_unless_zero_lem c k (strip_trailing_zeros s) s e l

pub all-strip_trailing_zeros :
    (p : ℕ → Bool) (s : Text) → all p s ≡ true → all p (strip_trailing_zeros s) ≡ true
unfolding strip_trailing_zeros
all-strip_trailing_zeros p [] h = refl
all-strip_trailing_zeros p (c ∷ s) h = ground (arith, all-strip_trailing_zeros p s)

pub split_point_whole : (w : Text) → all is_digit w ≡ true → split_point w ≡ (w, none)
unfolding split_point
split_point_whole [] h = refl
split_point_whole (c ∷ w) h = ground (arith, split_point_whole w)

pub split_point_both :
    (w f : Text) → all is_digit w ≡ true → split_point (w ++ b'.' ∷ f) ≡ (w, some f)
unfolding split_point
split_point_both [] f h = refl
split_point_both (c ∷ w) f h = ground (arith, split_point_both w f)

abbrev pub is_mark : ℕ → Bool
is_mark c = not (is_space c)

trim_start_marks : (s : Text) → all is_mark s ≡ true → trim_start s ≡ s
unfolding trim_start
trim_start_marks [] h = refl
trim_start_marks (c ∷ s) h = ground arith

trim_end_marks : (s : Text) → all is_mark s ≡ true → trim_end s ≡ s
unfolding trim_end
trim_end_marks [] h = refl
trim_end_marks (c ∷ []) h = ground arith
trim_end_marks (c ∷ d ∷ s) h = ground (arith, trim_end_marks (d ∷ s))

-- A text with no white space in it is its own trimmed form.
pub trim_marks : (s : Text) → all is_mark s ≡ true → trim s ≡ s
unfolding trim
trim_marks s h = rw (trim_start_marks s h) (trim_end_marks s h)

pub all_marks_of_digits : (s : Text) → all is_digit s ≡ true → all is_mark s ≡ true
all_marks_of_digits [] h = refl
all_marks_of_digits (c ∷ s) h = ground (arith, all_marks_of_digits s)

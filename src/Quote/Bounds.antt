-- ===== src/Quote/Bounds.antt =====
-- Bounds on a quote: its rounding, its monotonicity, and that there is no profit in a round trip.
use cantonbit.Shared.{
  ℕ, ◌+◌, ◌-◌, ◌*◌, ◌/◌, ◌≤◌, ◌<◌, ◌≡◌, inl, inr, Option, none, some, arith, ok, ltb, ◌==◌,
  >>=-eq-ok, ap, Bool-cases,
}
use cantonbit.Htlc.Order.{SwapDirection}
use cantonbit.Quote.{quote_gross_out_units, apply_output_fee, quote_out_units}
use native.Mathlib.Nat.{
  le-div_iff_mul-le, mul-le-mul_left, mul-le-mul_right, le_of_mul-le-mul_right, le_trans,
  div-mul-le_self,
}

share_bounds :
    (g f k : ℕ)
    → f + k ≡ 10_000
    → (g * k ≤ (g - g * f / 10_000) * 10_000)
      × ((g - g * f / 10_000) * 10_000 < g * k + 10_000)
      × (g - g * f / 10_000 ≤ g)
share_bounds g f k e = omega (arith, ap (λ (t : ℕ). g * t) e)

-- The fee is rounded down to a whole unit: the output is at most one unit above the exact share, and
-- never below it nor above the gross amount.
pub apply_output_fee_bounds :
    (gross fee : ℕ) {out : ℕ}
    → apply_output_fee gross (some fee) ≡ ok out
    → (gross * (10_000 - fee) ≤ out * 10_000)
      × (out * 10_000 < gross * (10_000 - fee) + 10_000)
      × (out ≤ gross)
unfolding apply_output_fee
apply_output_fee_bounds gross fee {out} h = elim (Bool-cases (ltb 10_000 fee)) [
  | inl over ↦ cc (rw over at h)
  | inr fits ↦
      let e : gross - gross * fee / 10_000 ≡ out = cc (rw fits at h) in
      rw (← e) (share_bounds gross fee (10_000 - fee) (ground arith))
]

abbrev pub opposite : SwapDirection → SwapDirection
opposite SwapDirection.evm_to_canton = SwapDirection.canton_to_evm
opposite SwapDirection.canton_to_evm = SwapDirection.evm_to_canton

fee_le : (gross : ℕ) (fee : Option ℕ) {out : ℕ} → apply_output_fee gross fee ≡ ok out → out ≤ gross
unfolding apply_output_fee
fee_le gross none h = cc
fee_le gross (some fee) h = ground arith

gross_forward :
    (x p : ℕ) {g : ℕ}
    → quote_gross_out_units SwapDirection.evm_to_canton x p ≡ ok g
    → (0 < p) × (g * 100_000_000 ≤ x * p)
unfolding quote_gross_out_units
gross_forward x p h = ground arith

gross_reverse :
    (x p : ℕ) {g : ℕ}
    → quote_gross_out_units SwapDirection.canton_to_evm x p ≡ ok g
    → (0 < p) × (g * p ≤ x * 100_000_000)
unfolding quote_gross_out_units
gross_reverse x p {g} h = elim (Bool-cases (p == 0)) [
  | inl free ↦ cc (rw free at h)
  | inr priced ↦
      let e : x * 100_000_000 / p ≡ g = cc (rw priced at h) in
      (ground arith, rw (← e) (div-mul-le_self (x * 100_000_000) p))
]

-- A quote is a gross amount less a fee.
quote_out_parts :
    (d : SwapDirection) (x p : ℕ) (fee : Option ℕ) {out : ℕ}
    → quote_out_units d x p fee ≡ ok out
    → (g : ℕ) × (quote_gross_out_units d x p ≡ ok g) × (out ≤ g)
unfolding quote_out_units
quote_out_parts d x p fee h =
    let (g, e, k) =
      >>=-eq-ok (quote_gross_out_units d x p) (λ gross. apply_output_fee gross fee) h in
    (g, e, fee_le g fee k)

-- Swapping an amount and swapping the proceeds back at the same price never yields more than the
-- amount, whatever the two fees are.
pub quote_round_trip :
    (d : SwapDirection) (x price : ℕ) (fee fee' : Option ℕ) {there back : ℕ}
    → quote_out_units d x price fee ≡ ok there
    → quote_out_units (opposite d) there price fee' ≡ ok back
    → back ≤ x
quote_round_trip SwapDirection.evm_to_canton x price fee fee' {there} {back} h k =
    let (g, eg, lg) = quote_out_parts SwapDirection.evm_to_canton x price fee h in
    let (g', eg', lg') = quote_out_parts SwapDirection.canton_to_evm there price fee' k in
    let (pos, over) = gross_forward x price eg in
    let (_, under) = gross_reverse there price eg' in
    le_trans lg' (le_of_mul-le-mul_right (le_trans under (le_trans (omega arith) over)) pos)
quote_round_trip SwapDirection.canton_to_evm x price fee fee' {there} {back} h k =
    let (g, eg, lg) = quote_out_parts SwapDirection.canton_to_evm x price fee h in
    let (g', eg', lg') = quote_out_parts SwapDirection.evm_to_canton there price fee' k in
    let (_, over) = gross_reverse x price eg in
    let (_, under) = gross_forward there price eg' in omega (arith, mul-le-mul_right price lg)

gross_mono :
    (d : SwapDirection) (x y p : ℕ) {a b : ℕ}
    → x ≤ y
    → quote_gross_out_units d x p ≡ ok a
    → quote_gross_out_units d y p ≡ ok b
    → a ≤ b
unfolding quote_gross_out_units
gross_mono SwapDirection.evm_to_canton x y p le h k = ground (arith, mul-le-mul_right p le)
gross_mono SwapDirection.canton_to_evm x y p {a} {b} le h k = elim (Bool-cases (p == 0)) [
  | inl free ↦ cc (rw free at h)
  | inr priced ↦
      let e : x * 100_000_000 / p ≡ a = cc (rw priced at h) in
      let e' : y * 100_000_000 / p ≡ b = cc (rw priced at k) in
      let pos : 0 < p = ground arith in
      rw (← e, ← e')
        ((le-div_iff_mul-le pos).1 (le_trans (div-mul-le_self (x * 100_000_000) p) (omega arith)))
]

share_mono : (g g' f : ℕ) → g ≤ g' → f ≤ 10_000 → g - g * f / 10_000 ≤ g' - g' * f / 10_000
share_mono g g' f le cap = omega (arith, ap (λ (t : ℕ). t * f) split, mul-le-mul_left (g' - g) cap)
  where
    split : g' ≡ g + (g' - g)
    split = omega arith

fee_mono :
    (g g' f : ℕ) {a b : ℕ}
    → g ≤ g'
    → apply_output_fee g (some f) ≡ ok a
    → apply_output_fee g' (some f) ≡ ok b
    → a ≤ b
unfolding apply_output_fee
fee_mono g g' f le h k = ground (arith, share_mono g g' f le)

-- At one price and fee, a larger amount is never quoted a smaller output.
pub quote_out_units_mono :
    (d : SwapDirection) (x y price fee : ℕ) {a b : ℕ}
    → x ≤ y
    → quote_out_units d x price (some fee) ≡ ok a
    → quote_out_units d y price (some fee) ≡ ok b
    → a ≤ b
unfolding quote_out_units
quote_out_units_mono d x y price fee le h k =
    let fee_of = λ (gross : ℕ). apply_output_fee gross (some fee) in
    let (g, eg, fg) = >>=-eq-ok (quote_gross_out_units d x price) fee_of h in
    let (g', eg', fg') = >>=-eq-ok (quote_gross_out_units d y price) fee_of k in
    fee_mono g g' fee (gross_mono d x y price le eg eg') fg fg'

-- ===== src/Evidence/FeeChange.antt =====
-- lib/network-fee-verify-logic.ts, signedAmountAtLeast: a change of a balance by at least the fee, as a
-- statement about its text.
use cantonbit.Shared.{
  ℕ, ◌≤◌, ◌≡◌, refl, ◌↔◌, inl, inr, true, false, ◌&&◌, some, List, [], ◌∷◌, arith, Text, Result, ok,
  err, ◌==◌, if◌then◌else◌, ==_iff, text_eq, text_eq→eq, text_eq_of_eq, has_prefix, trim, drop,
  Bool-cases, Option-cases, sym, ap, subst, leb→le, split_and, join_and,
}
use cantonbit.Amount.{AmountError, to_base_units_floor}
use cantonbit.Evidence.Ledger.{BalanceChange}
use cantonbit.Evidence.Delivery.{is_minus}
use cantonbit.Evidence.Fee.{
  cc_decimals, at_least_units, fee_amount_at_least, signed_amount_at_least, has_change,
}
use cantonbit.Evidence.Created.{Among, any_iff}

-- Both amounts are amounts of CC, and the first is no less in base units.
abbrev pub AtLeast : Text → Text → Type 0
AtLeast actual min_fee_cc =
    (units least : ℕ) × (to_base_units_floor actual cc_decimals ≡ ok units)
    × (to_base_units_floor min_fee_cc cc_decimals ≡ ok least)
    × (least ≤ units)

-- The party's balance changes by a negative amount of at least the fee: behind the minus sign stands an
-- amount that is no less.
abbrev pub Leaves : Text → Text → BalanceChange → Type 0
Leaves party min_fee_cc c =
    (value rest : Text) × (c.party ≡ party)
    × (c.change ≡ some value)
    × (trim value ≡ b'-' ∷ rest)
    × AtLeast rest min_fee_cc

-- The party's balance changes by an amount of at least the fee that has no minus sign.
abbrev pub Arrives : Text → Text → BalanceChange → Type 0
Arrives party min_fee_cc c =
    (value : Text) × (c.party ≡ party)
    × (c.change ≡ some value)
    × ((rest : Text) → ¬ (trim value ≡ b'-' ∷ rest))
    × AtLeast (trim value) min_fee_cc

at_least_units_lem :
    (a m : Result AmountError ℕ)
    → at_least_units a m ≡ true
    → (units least : ℕ) × (a ≡ ok units) × (m ≡ ok least) × (least ≤ units)
at_least_units_lem (err _) m h = cc
at_least_units_lem (ok a) (err _) h = cc
at_least_units_lem (ok a) (ok m) h = (a, m, refl, refl, leb→le m a h)

at_least_units_of :
    (a m : Result AmountError ℕ) (units least : ℕ)
    → a ≡ ok units
    → m ≡ ok least
    → least ≤ units
    → at_least_units a m ≡ true
at_least_units_of a m units least p q h = rw p (rw q (ground arith))

pub fee_amount_at_least_iff :
    (actual min_fee_cc : Text)
    → (fee_amount_at_least actual min_fee_cc ≡ true) ↔ AtLeast actual min_fee_cc
unfolding fee_amount_at_least
fee_amount_at_least_iff actual min_fee_cc =
    let a = to_base_units_floor actual cc_decimals in
    let m = to_base_units_floor min_fee_cc cc_decimals in
    (at_least_units_lem a m, λ (units, least, p, q, h). at_least_units_of a m units least p q h)

is_minus_lem : (t : Text) → is_minus t ≡ true → t ≡ b'-' ∷ drop 1 t
unfolding has_prefix
is_minus_lem [] h = cc
is_minus_lem (c ∷ s) h = ap (λ x. x ∷ s) (sym ((==_iff b'-' c).0 (split_and (b'-' == c) true h).0))

is_minus_of : (t rest : Text) → t ≡ b'-' ∷ rest → is_minus t ≡ true
unfolding has_prefix
is_minus_of t rest h = subst (λ u. is_minus u ≡ true) (sym h) refl

-- The amount behind a sign, or the one without.
leaves_text_iff :
    (t min_fee_cc : Text)
    → ((if is_minus t
          then true && fee_amount_at_least (drop 1 t) min_fee_cc
          else false && fee_amount_at_least t min_fee_cc)
        ≡ true)
      ↔ ((rest : Text) × (t ≡ b'-' ∷ rest) × AtLeast rest min_fee_cc)
leaves_text_iff t min_fee_cc = (
  (λ h. elim (Bool-cases (is_minus t)) [
    | inl minus ↦ (
      drop 1 t,
      is_minus_lem t minus,
      (fee_amount_at_least_iff (drop 1 t) min_fee_cc).0 (ground (arith, minus)),
    )
    | inr plus ↦
        (let never =
            subst (λ b. (if b then fee_amount_at_least (drop 1 t) min_fee_cc else false) ≡ true)
              plus h in
          cc)
  ]),
  λ (rest, same, least).
      subst
        (λ u.
          (if is_minus u
            then true && fee_amount_at_least (drop 1 u) min_fee_cc
            else false && fee_amount_at_least u min_fee_cc)
          ≡ true)
        (sym same)
        (rw (is_minus_of (b'-' ∷ rest) rest refl)
          ((fee_amount_at_least_iff rest min_fee_cc).1 least)),
)

arrives_text_iff :
    (t min_fee_cc : Text)
    → ((if is_minus t
          then false && fee_amount_at_least (drop 1 t) min_fee_cc
          else true && fee_amount_at_least t min_fee_cc)
        ≡ true)
      ↔ (((rest : Text) → ¬ (t ≡ b'-' ∷ rest)) × AtLeast t min_fee_cc)
arrives_text_iff t min_fee_cc = (
  (λ h. elim (Bool-cases (is_minus t)) [
    | inl minus ↦
        (let never =
            subst (λ b. (if b then false else fee_amount_at_least t min_fee_cc) ≡ true) minus h in
          cc)
    | inr plus ↦ (
      (λ rest same. (let minus = is_minus_of t rest same in cc)),
      (fee_amount_at_least_iff t min_fee_cc).0 (ground (arith, plus)),
    )
  ]),
  λ (unsigned, least). elim (Bool-cases (is_minus t)) [
    | inl minus ↦ elim (unsigned (drop 1 t) (is_minus_lem t minus)) [ ]
    | inr plus ↦ rw plus ((fee_amount_at_least_iff t min_fee_cc).1 least)
  ],
)

Leaves-iff :
    (party min_fee_cc : Text) (c : BalanceChange)
    → ((text_eq c.party party && signed_amount_at_least c.change min_fee_cc true) ≡ true)
      ↔ Leaves party min_fee_cc c
Leaves-iff party min_fee_cc c = (
  (λ h.
      let (same, change) = split_and (text_eq c.party party) _ h in
      elim (Option-cases c.change) [
        | inl missing ↦
            (let never =
                subst (λ o. signed_amount_at_least o min_fee_cc true ≡ true) missing change in
              cc)
        | inr (value, is_value) ↦
            let (rest, sign, least) =
              (leaves_text_iff (trim value) min_fee_cc).0
                (subst (λ o. signed_amount_at_least o min_fee_cc true ≡ true) is_value change) in
            (value, rest, text_eq→eq c.party party same, is_value, sign, least)
      ]),
  λ (value, rest, same, is_value, sign, least).
      join_and (text_eq c.party party) _ (text_eq_of_eq c.party party same) (
        subst (λ o. signed_amount_at_least o min_fee_cc true ≡ true) (sym is_value)
          ((leaves_text_iff (trim value) min_fee_cc).1 (rest, sign, least))),
)

Arrives-iff :
    (party min_fee_cc : Text) (c : BalanceChange)
    → ((text_eq c.party party && signed_amount_at_least c.change min_fee_cc false) ≡ true)
      ↔ Arrives party min_fee_cc c
Arrives-iff party min_fee_cc c = (
  (λ h.
      let (same, change) = split_and (text_eq c.party party) _ h in
      elim (Option-cases c.change) [
        | inl missing ↦
            (let never =
                subst (λ o. signed_amount_at_least o min_fee_cc false ≡ true) missing change in
              cc)
        | inr (value, is_value) ↦
            let (unsigned, least) =
              (arrives_text_iff (trim value) min_fee_cc).0
                (subst (λ o. signed_amount_at_least o min_fee_cc false ≡ true) is_value change) in
            (value, text_eq→eq c.party party same, is_value, unsigned, least)
      ]),
  λ (value, same, is_value, unsigned, least).
      join_and (text_eq c.party party) _ (text_eq_of_eq c.party party same) (
        subst (λ o. signed_amount_at_least o min_fee_cc false ≡ true) (sym is_value)
          ((arrives_text_iff (trim value) min_fee_cc).1 (unsigned, least))),
)

pub Leaves-any :
    (party min_fee_cc : Text) (cs : List BalanceChange)
    → (has_change party min_fee_cc true cs ≡ true) ↔ Among (Leaves party min_fee_cc) cs
Leaves-any party min_fee_cc cs = any_iff _ _ (Leaves-iff party min_fee_cc) cs

pub Arrives-any :
    (party min_fee_cc : Text) (cs : List BalanceChange)
    → (has_change party min_fee_cc false cs ≡ true) ↔ Among (Arrives party min_fee_cc) cs
Arrives-any party min_fee_cc cs = any_iff _ _ (Arrives-iff party min_fee_cc) cs

-- ===== src/Evidence/Match.antt =====
-- lib/canton-swap-leg-verify-logic.ts, lib/canton-assets.ts: when an amount, an instrument and a memo
-- are those of the leg.
use cantonbit.Shared.{
  ℕ, ◌≡◌, refl, ◌↔◌, ◌⊎◌, inl, inr, Bool, true, false, ◌&&◌, ◌||◌, Option, none, some, [], ◌∷◌,
  arith, Text, Result, ok, err, ◌==◌, if◌then◌else◌, split_or, split_and, join_and, has_prefix, ◌∙◌,
  subst, ==_iff, or_else, sym, Bool-cases, ap, codes, text_eq, text_eq→eq, text_eq_of_eq, truthy,
  includes,
}
use cantonbit.Evidence.Ledger.{
  InstrumentId, SeenInstrument, TransferPayload, Meta, transfer_memo_from_meta,
  is_order_bound_swap_memo, is_legacy_swap_memo, legacy_swap_memo,
}
use cantonbit.Amount.{AmountError, to_base_units, to_base_units_floor}

unfoldable pub is_holding_template : Text → Bool
is_holding_template template_id =
    includes (codes "Utility.Registry.Holding") template_id
    || includes (codes "Splice.Amulet") template_id
    || includes (codes "HoldingV1:Holding") template_id

unfoldable pub is_transfer_instruction_template : Text → Bool
is_transfer_instruction_template template_id =
    includes (codes "TransferInstruction") template_id
    || includes (codes "TransferOffer") template_id

-- An error on either side is caught, and means no.
abbrev pub same_units : Result AmountError ℕ → Result AmountError ℕ → Bool
same_units (err _) expected = false
same_units (ok actual) (err _) = false
same_units (ok actual) (ok expected) = actual == expected

unfoldable pub amounts_equal : Text → Text → ℕ → Bool
unfolding to_base_units to_base_units_floor
amounts_equal expected actual decimals =
    same_units (to_base_units_floor actual decimals) (to_base_units expected decimals)

abbrev pub is_id : Option Text → Text → Bool
is_id none wanted = false
is_id (some seen) wanted = text_eq seen wanted

unfoldable pub matches_instrument : SeenInstrument → InstrumentId → Bool
matches_instrument seen target =
    truthy seen.id
    && is_id seen.id target.id
    && (text_eq target.id (codes "Amulet") || is_id seen.admin target.admin)

abbrev pub memo_accepted : Option Text → Text → Bool
memo_accepted none memo = true
memo_accepted (some expected) memo =
    if text_eq expected []
    then true
    else if text_eq memo expected
    then true
    else if is_order_bound_swap_memo memo
    then false
    else is_legacy_swap_memo memo

unfoldable pub transfer_memo_matches : Option Meta → Option Text → Bool
unfolding transfer_memo_from_meta is_order_bound_swap_memo is_legacy_swap_memo
transfer_memo_matches meta expected = memo_accepted expected (transfer_memo_from_meta meta)

-- Two amounts are the same number of base units, the one seen cut to the asset's decimals.
abbrev pub SameAmount : Text → Text → ℕ → Type 0
SameAmount expected actual decimals =
    (units : ℕ) × (to_base_units_floor actual decimals ≡ ok units)
    × (to_base_units expected decimals ≡ ok units)

-- No memo is wanted, or the memo is the one wanted, or it names no order at all.
abbrev pub MemoFits : Option Text → Text → Type 0
MemoFits expected memo =
    (truthy expected ≡ false) ⊎ (expected ≡ some memo) ⊎ (memo ≡ []) ⊎ (memo ≡ legacy_swap_memo)

same_units_iff :
    (a e : Result AmountError ℕ)
    → (same_units a e ≡ true) ↔ ((units : ℕ) × (a ≡ ok units) × (e ≡ ok units))
same_units_iff (err x) e = ((λ h. cc), λ h. cc)
same_units_iff (ok a) (err x) = ((λ h. cc), λ h. cc)
same_units_iff (ok a) (ok e) = (
  (λ h. (a, refl, ap ok (sym ((==_iff a e).0 h)))),
  λ (u, p, q). (==_iff a e).1 (units_of_ok p ∙ sym (units_of_ok q)),
)
  where
    same_result : Result AmountError ℕ → Result AmountError ℕ → Type 0
    same_result r q = r ≡ q

    units_of : Result AmountError ℕ → ℕ
    units_of (ok n) = n
    units_of (err _) = 0

    units_of_ok : {m n : ℕ} → same_result (ok m) (ok n) → m ≡ n
    units_of_ok p = ap units_of p

pub amounts_equal_iff :
    (expected actual : Text) (decimals : ℕ)
    → (amounts_equal expected actual decimals ≡ true) ↔ SameAmount expected actual decimals
unfolding amounts_equal
amounts_equal_iff expected actual decimals =
    same_units_iff (to_base_units_floor actual decimals) (to_base_units expected decimals)

fits_of_accepted :
    (expected memo : Text)
    → memo_accepted (some expected) memo ≡ true
    → MemoFits (some expected) memo
unfolding is_legacy_swap_memo text_eq
fits_of_accepted [] memo h = inl refl
fits_of_accepted (c ∷ s) memo h = elim (Bool-cases (text_eq memo (c ∷ s))) [
  | inl same ↦ inr (inl (ap some (sym (text_eq→eq memo (c ∷ s) same))))
  | inr differs ↦ elim (Bool-cases (is_order_bound_swap_memo memo)) [
    | inl bound ↦ ground (arith, differs, bound)
    | inr free ↦
        elim (split_or (text_eq memo []) (text_eq memo legacy_swap_memo)
          (ground (arith, differs, free))) [
            | inl empty ↦ inr (inr (inl (text_eq→eq memo [] empty)))
            | inr legacy ↦ inr (inr (inr (text_eq→eq memo legacy_swap_memo legacy)))
          ]
  ]
]

accepted_of_fits :
    (expected memo : Text)
    → MemoFits (some expected) memo
    → memo_accepted (some expected) memo ≡ true
unfolding is_order_bound_swap_memo is_legacy_swap_memo has_prefix text_eq
accepted_of_fits [] memo h = refl
accepted_of_fits (c ∷ s) memo (inl h) = cc
accepted_of_fits (c ∷ s) memo (inr (inl e)) =
    ground (arith, text_eq_of_eq memo (c ∷ s) (sym (some_inj e)))
  where
    some_inj : {a b : Text} → some a ≡ some b → a ≡ b
    some_inj p = ap (λ o. or_else o []) p
accepted_of_fits (c ∷ s) memo (inr (inr (inl e))) =
    subst (λ m. memo_accepted (some (c ∷ s)) m ≡ true) (sym e) refl
accepted_of_fits (c ∷ s) memo (inr (inr (inr e))) =
    subst (λ m. memo_accepted (some (c ∷ s)) m ≡ true) (sym e)
      (either (text_eq legacy_swap_memo (c ∷ s)))
  where
    either : (b : Bool) → (if b then true else true) ≡ true
    either true = refl
    either false = refl

pub memo_accepted_iff :
    (expected : Option Text) (memo : Text)
    → (memo_accepted expected memo ≡ true) ↔ MemoFits expected memo
memo_accepted_iff none memo = ((λ h. inl refl), λ h. refl)
memo_accepted_iff (some expected) memo =
    (fits_of_accepted expected memo, accepted_of_fits expected memo)

-- A transfer that a leg needs: who pays whom, how much, and the memo. It is the part that
-- `CounterOfferMatchParams` and the parameters of the user's leg share.
pub record Leg : Type 0 where
  pub sender_party : Text
  pub receiver_party : Text
  pub amount : Text
  pub amount_decimals : ℕ
  pub expected_memo : Option Text

-- The tests on a transfer instruction, in the order of the loops; `fits` is the one on the instrument.
abbrev pub pays_leg : Leg → (SeenInstrument → Bool) → Option TransferPayload → Bool
pays_leg leg fits none = false
pays_leg leg fits (some t) =
    text_eq t.sender leg.sender_party
    && text_eq t.receiver leg.receiver_party
    && amounts_equal leg.amount t.amount leg.amount_decimals
    && fits t.instrument_id
    && transfer_memo_matches t.meta leg.expected_memo

abbrev pub PaysLeg : Leg → (SeenInstrument → Bool) → TransferPayload → Type 0
PaysLeg leg fits t =
    (t.sender ≡ leg.sender_party)
    × (t.receiver ≡ leg.receiver_party)
    × SameAmount leg.amount t.amount leg.amount_decimals
    × (fits t.instrument_id ≡ true)
    × MemoFits leg.expected_memo (transfer_memo_from_meta t.meta)

pub pays_leg_iff :
    (leg : Leg) (fits : SeenInstrument → Bool) (t : TransferPayload)
    → (pays_leg leg fits (some t) ≡ true) ↔ PaysLeg leg fits t
unfolding transfer_memo_matches
pays_leg_iff leg fits t = (
  (λ h.
      let (h3, memo) = split_and _ (transfer_memo_matches t.meta leg.expected_memo) h in
      let (h2, instrument) = split_and _ (fits t.instrument_id) h3 in
      let (h1, amount) = split_and _ (amounts_equal leg.amount t.amount leg.amount_decimals) h2 in
      let (sender, receiver) = split_and _ (text_eq t.receiver leg.receiver_party) h1 in
      (
        text_eq→eq t.sender leg.sender_party sender,
        text_eq→eq t.receiver leg.receiver_party receiver,
        (amounts_equal_iff leg.amount t.amount leg.amount_decimals).0 amount,
        instrument,
        (memo_accepted_iff leg.expected_memo (transfer_memo_from_meta t.meta)).0 memo,
      )),
  λ (sender, receiver, amount, instrument, memo).
      join_and _ (transfer_memo_matches t.meta leg.expected_memo)
        (join_and _ (fits t.instrument_id)
          (join_and _ (amounts_equal leg.amount t.amount leg.amount_decimals)
            (join_and (text_eq t.sender leg.sender_party) (text_eq t.receiver leg.receiver_party)
              (text_eq_of_eq t.sender leg.sender_party sender)
              (text_eq_of_eq t.receiver leg.receiver_party receiver))
            ((amounts_equal_iff leg.amount t.amount leg.amount_decimals).1 amount))
          instrument)
        ((memo_accepted_iff leg.expected_memo (transfer_memo_from_meta t.meta)).1 memo),
)

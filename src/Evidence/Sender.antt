-- ===== src/Evidence/Sender.antt =====
-- lib/canton-swap-leg-verify-logic.ts: a delivery counts only when the transaction shows the vault
-- paying it.
use cantonbit.Shared.{
  ℕ, ◌≡◌, refl, ◌⊎◌, inl, inr, Bool, true, false, not, ◌&&◌, Option, none, some, List, [], ◌∷◌,
  arith, Text, if◌then◌else◌, split_or, split_and, join_and, Option-cases, codes, text_eq,
  text_eq→eq, or_else, trim, trim_start, trim_end, any, has_prefix, ap, subst,
}
use cantonbit.Amount.{to_base_units_floor, is_decimal, split_point}
use cantonbit.Evidence.Ledger.{
  InstrumentId, Node, ExercisedEvent, TransferFields, BalanceChange, exercised_event_from_node,
}
use cantonbit.Evidence.Match.{
  transfer_memo_matches, Leg, SameAmount, amounts_equal, amounts_equal_iff, is_id,
}
use cantonbit.Evidence.Delivery.{
  instrument_or_none, amulet_memo_matches, amulet_receiver_credited, amulet_sender_debited,
  is_credit, is_debit, signed_amount_matches, is_minus, send_choice, is_amulet_delivery,
  is_exact_send, is_direct_choice, is_credit, transfer_fields_match_direct_settlement,
  binds_sender_by, binds_sender, direct_settlement_binds_sender,
  amulet_direct_delivery_proven_in_events, counter_leg_delivered_to_user_in_events,
}
use cantonbit.Evidence.Created.{Among, here, there}

-- The transfer's fields name the payer, the payee and the amount.
abbrev pub NamesLeg : Leg → TransferFields → Type 0
NamesLeg leg f =
    (f.sender ≡ some leg.sender_party)
    × (f.receiver ≡ some leg.receiver_party)
    × SameAmount leg.amount (or_else f.amount []) leg.amount_decimals

-- The argument names the payer and the amount, and the balances say who was debited and credited.
abbrev pub MovesLeg : Leg → ExercisedEvent → Type 0
MovesLeg leg e =
    (e.choice_argument.own.sender ≡ some leg.sender_party)
    × SameAmount leg.amount (or_else e.choice_argument.own.amount []) leg.amount_decimals
    × (amulet_sender_debited e.exercise_result.balance_changes leg.sender_party ≡ true)
    × (amulet_receiver_credited e.exercise_result.balance_changes leg.receiver_party ≡ true)

-- A node that exercises a choice by which the sender pays the leg.
abbrev pub PaidBy : Leg → Node → Type 0
PaidBy leg node =
    (e : ExercisedEvent) × (exercised_event_from_node node ≡ some e)
    × (NamesLeg leg (or_else e.choice_argument.transfer e.choice_argument.own) ⊎ MovesLeg leg e)

any_mono {ℓ} :
    {A : Type ℓ} (p q : A → Bool)
    → ((a : A) → p a ≡ true → q a ≡ true)
    → (xs : List A) → any p xs ≡ true
    → any q xs ≡ true
any_mono p q more [] h = cc
any_mono p q more (x ∷ xs) h = elim (split_or (p x) (any p xs) h) [
  | inl now ↦ rw (more x now) refl
  | inr later ↦ ground (arith, any_mono p q more xs later)
]

pub is_id→eq : (seen : Option Text) (wanted : Text) → is_id seen wanted ≡ true → seen ≡ some wanted
is_id→eq none wanted h = cc
is_id→eq (some s) wanted h = ap some (text_eq→eq s wanted h)

-- The empty text is no amount.
blank_amount : (amount : Text) (decimals : ℕ) → amounts_equal amount [] decimals ≡ false
unfolding amounts_equal to_base_units_floor is_decimal split_point trim trim_start trim_end
blank_amount amount decimals = refl

plus_of_signed :
    (t amount : Text) (decimals : ℕ)
    → (if is_minus t then false else amounts_equal amount t decimals) ≡ true
    → (not (text_eq t []) && not (is_minus t)) ≡ true
unfolding text_eq has_prefix
plus_of_signed [] amount decimals h = let never = blank_amount amount decimals in cc
plus_of_signed (c ∷ s) amount decimals h = ground arith

credit_of_signed :
    (change : Option Text) (amount : Text) (decimals : ℕ)
    → signed_amount_matches change amount decimals false ≡ true
    → is_credit change ≡ true
credit_of_signed none amount decimals h = cc
credit_of_signed (some value) amount decimals h = plus_of_signed (trim value) amount decimals h

debit_of_signed :
    (change : Option Text) (amount : Text) (decimals : ℕ)
    → signed_amount_matches change amount decimals true ≡ true
    → is_debit change ≡ true
debit_of_signed none amount decimals h = cc
debit_of_signed (some value) amount decimals h = ground arith

names_of_match :
    (leg : Leg) (wanted : InstrumentId) (f : TransferFields)
    → transfer_fields_match_direct_settlement leg wanted f ≡ true
    → NamesLeg leg f
names_of_match leg wanted f h =
    let (h1, _) = split_and _ (transfer_memo_matches f.meta leg.expected_memo) h in
    let (h2, _) = split_and _ (instrument_or_none f.instrument_id wanted) h1 in
    let (h3, amount) =
      split_and _ (amounts_equal leg.amount (or_else f.amount []) leg.amount_decimals) h2 in
    let (sender, receiver) = split_and _ (is_id f.receiver leg.receiver_party) h3 in
    (
      is_id→eq f.sender leg.sender_party sender,
      is_id→eq f.receiver leg.receiver_party receiver,
      (amounts_equal_iff leg.amount (or_else f.amount []) leg.amount_decimals).0 amount,
    )

moves_of_send : (leg : Leg) (e : ExercisedEvent) → is_exact_send leg e ≡ true → MovesLeg leg e
moves_of_send leg e h =
    let arg = e.choice_argument.own in
    let (h1, credit) = split_and _ (any _ e.exercise_result.balance_changes) h in
    let (h2, debit) = split_and _ (any _ e.exercise_result.balance_changes) h1 in
    let (sender, amount) =
      split_and _ (amounts_equal leg.amount (or_else arg.amount []) leg.amount_decimals) h2 in
    (
      is_id→eq arg.sender leg.sender_party sender,
      (amounts_equal_iff leg.amount (or_else arg.amount []) leg.amount_decimals).0 amount,
      any_mono _ _
          (λ (c : BalanceChange) p.
            let (party, change) = split_and (text_eq c.party leg.sender_party) _ p in
            join_and _ (is_debit c.change) party
              (debit_of_signed c.change leg.amount leg.amount_decimals change))
          e.exercise_result.balance_changes debit,
      any_mono _ _
          (λ (c : BalanceChange) p.
            let (party, change) = split_and (text_eq c.party leg.receiver_party) _ p in
            join_and _ (is_credit c.change) party
              (credit_of_signed c.change leg.amount leg.amount_decimals change))
          e.exercise_result.balance_changes credit,
    )

moves_of_amulet :
    (leg : Leg) (e : ExercisedEvent) → is_amulet_delivery leg (some e) ≡ true → MovesLeg leg e
moves_of_amulet leg e h =
    let arg = e.choice_argument.own in
    let changes = e.exercise_result.balance_changes in
    let (h1, credit) = split_and _ (amulet_receiver_credited changes leg.receiver_party) h in
    let (h2, debit) = split_and _ (amulet_sender_debited changes leg.sender_party) h1 in
    let (h3, _) = split_and _ (amulet_memo_matches e.choice_argument leg.expected_memo) h2 in
    let (h4, amount) =
      split_and _ (amounts_equal leg.amount (or_else arg.amount []) leg.amount_decimals) h3 in
    let (_, sender) = split_and _ (is_id arg.sender leg.sender_party) h4 in
    (
      is_id→eq arg.sender leg.sender_party sender,
      (amounts_equal_iff leg.amount (or_else arg.amount []) leg.amount_decimals).0 amount,
      debit,
      credit,
    )

paid_of_binding :
    (leg : Leg) (wanted : InstrumentId) (e : ExercisedEvent) (choice : Option Text)
    → binds_sender_by leg wanted e choice ≡ true
    → NamesLeg leg (or_else e.choice_argument.transfer e.choice_argument.own) ⊎ MovesLeg leg e
paid_of_binding leg wanted e none h = cc
paid_of_binding leg wanted e (some choice) h =
    let (_, how) = split_and (not (text_eq choice [])) _ h in
    elim (split_or _ (text_eq choice send_choice && is_exact_send leg e) how) [
      | inl direct ↦ inl (
          names_of_match leg wanted (or_else e.choice_argument.transfer e.choice_argument.own)
            (split_and (is_direct_choice choice e.exercise_result.receiver_holding_cid) _ direct).1)
      | inr sent ↦ inr (moves_of_send leg e (split_and (text_eq choice send_choice) _ sent).1)
    ]

Among-of_any :
    (p : Option ExercisedEvent → Bool) (P : Node → Type 0)
    → p none ≡ false
    → ((node : Node) (e : ExercisedEvent)
        → exercised_event_from_node node ≡ some e
        → p (some e) ≡ true
        → P node)
    → (nodes : List Node) → any (λ node. p (exercised_event_from_node node)) nodes ≡ true
    → Among P nodes
Among-of_any p P skip found [] h = cc
Among-of_any p P skip found (node ∷ nodes) h =
    elim (split_or (p (exercised_event_from_node node)) _ h) [
      | inr later ↦ there (Among-of_any p P skip found nodes later)
      | inl now ↦ elim (Option-cases (exercised_event_from_node node)) [
        | inl missing ↦ (let never = subst (λ o. p o ≡ true) missing now in cc)
        | inr (e, exercised) ↦ here (found node e exercised (subst (λ o. p o ≡ true) exercised now))
      ]
    ]

-- When a transaction counts as having delivered the counter leg, one of its choices shows the payer:
-- either its transfer goes from the sender to the receiver and is of the leg's amount in base units,
-- or it sends the leg's amount for the sender and the balances show the sender debited and the
-- receiver credited. A holding of the receiver alone is never enough.
pub delivery_is_paid :
    (leg : Leg) (wanted : InstrumentId) (nodes : List Node)
    → counter_leg_delivered_to_user_in_events (some nodes) leg wanted ≡ true
    → Among (PaidBy leg) nodes
unfolding counter_leg_delivered_to_user_in_events amulet_direct_delivery_proven_in_events
    direct_settlement_binds_sender
delivery_is_paid leg wanted nodes h =
    elim (split_or _ (_ && direct_settlement_binds_sender nodes leg wanted) h) [
      | inl amulet ↦
          Among-of_any (is_amulet_delivery leg) (PaidBy leg) refl
            (λ node e exercised p. (e, exercised, inr (moves_of_amulet leg e p))) nodes
            (split_and (text_eq wanted.id (codes "Amulet")) _ amulet).1
      | inr held ↦
          Among-of_any (binds_sender leg wanted) (PaidBy leg) refl
            (λ node e exercised p. (e, exercised, paid_of_binding leg wanted e e.choice p)) nodes
            (split_and _ (direct_settlement_binds_sender nodes leg wanted) held).1
    ]

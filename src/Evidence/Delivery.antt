-- ===== src/Evidence/Delivery.antt =====
-- lib/canton-swap-leg-verify-logic.ts: the counter leg in a transaction, as a pending offer or as a
-- delivery by a direct transfer.
use cantonbit.Shared.{
  to_lower, ℕ, Bool, true, false, not, ◌&&◌, ◌||◌, Option, none, some, List, [], ◌∷◌, ◌++◌, Text,
  if◌then◌else◌, codes, text_eq, truthy, or_else, includes, has_prefix, trim, any, drop,
}
use cantonbit.Evidence.Ledger.{
  InstrumentId, SeenInstrument, Node, ExercisedEvent, ChoiceArgument, BalanceChange, TransferFields,
  created_event_from_node, exercised_event_from_node, first, read_transfer_instruction_payload,
}
use cantonbit.Evidence.Match.{
  Leg, amounts_equal, pays_leg, matches_instrument, is_id, is_holding_template,
  is_transfer_instruction_template, transfer_memo_matches,
}
use cantonbit.Evidence.UserLeg.{Named, named_of, instrument_passes}

abbrev pub is_counter_instrument : Option InstrumentId → SeenInstrument → Bool
is_counter_instrument none seen = true
is_counter_instrument (some target) seen = instrument_passes (some seen) target

-- What one round pushes on the hits.
abbrev pub hit : Leg → Option InstrumentId → Option Named → List Text
hit leg wanted none = []
hit leg wanted (some ev) =
    if is_transfer_instruction_template ev.template_id
      && pays_leg leg (is_counter_instrument wanted) (read_transfer_instruction_payload ev.event)
    then ev.contract_id ∷ []
    else []

unfoldable pub hits_in : Leg → Option InstrumentId → List Node → List Text
unfolding created_event_from_node
hits_in leg wanted [] = []
hits_in leg wanted (node ∷ nodes) =
    hit leg wanted (named_of (created_event_from_node node)) ++ hits_in leg wanted nodes

unfoldable pub last_hit : List Text → Option Text
last_hit [] = none
last_hit (cid ∷ []) = some cid
last_hit (cid ∷ next ∷ hits) = last_hit (next ∷ hits)

unfoldable pub extract_counter_offer_cid_from_events :
    Option (List Node) → Leg → Option InstrumentId → Option Text
unfolding hits_in last_hit
extract_counter_offer_cid_from_events none leg wanted = none
extract_counter_offer_cid_from_events (some nodes) leg wanted = last_hit (hits_in leg wanted nodes)

abbrev pub amulet_memo_matches : ChoiceArgument → Option Text → Bool
amulet_memo_matches arg none = true
amulet_memo_matches arg (some expected) =
    text_eq expected []
    || is_id arg.description expected
    || transfer_memo_matches arg.own.meta (some expected)

abbrev pub is_minus : Text → Bool
is_minus delta = has_prefix (b'-' ∷ []) delta

abbrev pub is_credit : Option Text → Bool
is_credit none = false
is_credit (some delta) = not (text_eq (trim delta) []) && not (is_minus (trim delta))

abbrev pub is_debit : Option Text → Bool
is_debit none = false
is_debit (some delta) = is_minus (trim delta)

abbrev pub amulet_receiver_credited : List BalanceChange → Text → Bool
amulet_receiver_credited changes receiver =
    any (λ c. text_eq c.party receiver && is_credit c.change) changes

abbrev pub amulet_sender_debited : List BalanceChange → Text → Bool
amulet_sender_debited changes sender =
    any (λ c. text_eq c.party sender && is_debit c.change) changes

abbrev pub send_choice : Text
send_choice = codes "TransferPreapproval_SendV2"

abbrev pub is_amulet_delivery : Leg → Option ExercisedEvent → Bool
is_amulet_delivery leg none = false
is_amulet_delivery leg (some e) =
    is_id e.choice send_choice
    && is_id e.choice_argument.own.sender leg.sender_party
    && amounts_equal leg.amount (or_else e.choice_argument.own.amount []) leg.amount_decimals
    && amulet_memo_matches e.choice_argument leg.expected_memo
    && amulet_sender_debited e.exercise_result.balance_changes leg.sender_party
    && amulet_receiver_credited e.exercise_result.balance_changes leg.receiver_party

unfoldable pub amulet_direct_delivery_proven_in_events : List Node → Leg → Bool
unfolding exercised_event_from_node
amulet_direct_delivery_proven_in_events nodes leg =
    any (λ node. is_amulet_delivery leg (exercised_event_from_node node)) nodes

unfoldable pub is_direct_transfer_kind : Text → Bool
is_direct_transfer_kind kind =
    let k = to_lower kind in
    text_eq k (codes "direct") || text_eq k (codes "self") || includes (codes "direct") k

abbrev pub signed_amount_matches : Option Text → Text → ℕ → Bool → Bool
signed_amount_matches none amount decimals negative = false
signed_amount_matches (some value) amount decimals negative =
    if is_minus (trim value)
    then negative && amounts_equal amount (drop 1 (trim value)) decimals
    else not negative && amounts_equal amount (trim value) decimals

abbrev pub instrument_or_none : Option SeenInstrument → InstrumentId → Bool
instrument_or_none none target = true
instrument_or_none (some seen) target = matches_instrument seen target

abbrev pub transfer_fields_match_direct_settlement : Leg → InstrumentId → TransferFields → Bool
transfer_fields_match_direct_settlement leg wanted f =
    is_id f.sender leg.sender_party
    && is_id f.receiver leg.receiver_party
    && amounts_equal leg.amount (or_else f.amount []) leg.amount_decimals
    && instrument_or_none f.instrument_id wanted
    && transfer_memo_matches f.meta leg.expected_memo

-- The choices whose argument names the transfer.
abbrev pub is_direct_choice : Text → Option Text → Bool
is_direct_choice choice receiver_holding_cid =
    (text_eq choice (codes "TransferRule_DirectTransfer") && truthy receiver_holding_cid)
    || text_eq choice (codes "TransferFactory_Transfer")
    || (includes (codes "Transfer") choice
        && not (includes (codes "Accept") choice)
        && not (includes (codes "Reject") choice)
        && not (includes (codes "Factory") choice)
        && not (includes (codes "Rule") choice))

-- The exact amount leaves the sender and arrives at the receiver.
abbrev pub is_exact_send : Leg → ExercisedEvent → Bool
is_exact_send leg e =
    is_id e.choice_argument.own.sender leg.sender_party
    && amounts_equal leg.amount (or_else e.choice_argument.own.amount []) leg.amount_decimals
    && any
        (λ c.
          text_eq c.party leg.sender_party
          && signed_amount_matches c.change leg.amount leg.amount_decimals true)
        e.exercise_result.balance_changes
    && any
        (λ c.
          text_eq c.party leg.receiver_party
          && signed_amount_matches c.change leg.amount leg.amount_decimals false)
        e.exercise_result.balance_changes

abbrev pub binds_sender_by : Leg → InstrumentId → ExercisedEvent → Option Text → Bool
binds_sender_by leg wanted e none = false
binds_sender_by leg wanted e (some choice) =
    not (text_eq choice [])
    && ((is_direct_choice choice e.exercise_result.receiver_holding_cid
          && transfer_fields_match_direct_settlement leg wanted
              (or_else e.choice_argument.transfer e.choice_argument.own))
        || (text_eq choice send_choice && is_exact_send leg e))

abbrev pub binds_sender : Leg → InstrumentId → Option ExercisedEvent → Bool
binds_sender leg wanted none = false
binds_sender leg wanted (some e) = binds_sender_by leg wanted e e.choice

unfoldable pub direct_settlement_binds_sender : List Node → Leg → InstrumentId → Bool
unfolding exercised_event_from_node
direct_settlement_binds_sender nodes leg wanted =
    any (λ node. binds_sender leg wanted (exercised_event_from_node node)) nodes

abbrev pub delivered_instrument : Option SeenInstrument → InstrumentId → Bool
delivered_instrument none target = true
delivered_instrument (some seen) target =
    (not (truthy seen.id) || is_id seen.id target.id)
    && (not (truthy seen.admin) || matches_instrument seen target)

abbrev pub is_delivered_holding : Leg → InstrumentId → Option Named → Bool
is_delivered_holding leg wanted none = false
is_delivered_holding leg wanted (some ev) =
    let arg = ev.event.create_argument in
    is_holding_template ev.template_id
    && is_id arg.owner leg.receiver_party
    && truthy arg.amount
    && amounts_equal leg.amount (or_else arg.amount []) leg.amount_decimals
    && delivered_instrument (first arg.instrument_id arg.instrument) wanted

unfoldable pub counter_leg_delivered_to_user_in_events :
    Option (List Node) → Leg → InstrumentId → Bool
unfolding amulet_direct_delivery_proven_in_events direct_settlement_binds_sender
counter_leg_delivered_to_user_in_events none leg wanted = false
counter_leg_delivered_to_user_in_events (some nodes) leg wanted =
    (text_eq wanted.id (codes "Amulet") && amulet_direct_delivery_proven_in_events nodes leg)
    || (any (λ node. is_delivered_holding leg wanted (named_of (created_event_from_node node)))
          nodes
        && direct_settlement_binds_sender nodes leg wanted)

abbrev pub is_accept_of : Text → Option ExercisedEvent → Bool
is_accept_of offer_cid none = false
is_accept_of offer_cid (some e) =
    truthy e.contract_id
    && is_id e.contract_id offer_cid
    && includes (codes "Accept") (or_else e.choice [])

unfoldable pub counter_offer_consumed_in_events : Option (List Node) → Text → Bool
unfolding exercised_event_from_node
counter_offer_consumed_in_events none offer_cid = false
counter_offer_consumed_in_events (some nodes) offer_cid =
    any (λ node. is_accept_of offer_cid (exercised_event_from_node node)) nodes

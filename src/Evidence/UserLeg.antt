-- ===== src/Evidence/UserLeg.antt =====
-- lib/canton-swap-leg-verify-logic.ts, parseUserLegEvidenceFromEvents: the user's leg in a transaction.
use cantonbit.Shared.{
  Bool, true, false, not, ◌&&◌, ◌||◌, Option, none, some, List, [], ◌∷◌, Text, if◌then◌else◌, codes,
  text_eq, truthy, or_else, includes,
}
use cantonbit.C2c.Order.{SwapAsset}
use cantonbit.C2c.Service.Create.{decimals_of}
use cantonbit.Evidence.Ledger.{
  InstrumentId, SeenInstrument, Node, CreatedEvent, CreateArgument, ExercisedEvent, ChoiceArgument,
  TransferPayload, Meta, created_event_from_node, exercised_event_from_node, first,
  read_transfer_instruction_payload, transfer_memo_from_meta,
}
use cantonbit.Evidence.Match.{
  pays_leg, Leg, amounts_equal, matches_instrument, is_id, is_holding_template,
  is_transfer_instruction_template,
}

pub record UserLegParams : Type 0 where
  pub user_party : Text
  pub solver_party : Text
  pub in_amount : Text
  pub from_asset : SwapAsset
  pub expected_instrument : InstrumentId
  pub expected_memo : Option Text
  pub strict_order_bound_memo : Bool

pub record UserLegEvidence : Type 0 where
  pub offer_cid : Option Text
  pub inbound_holding_cid : Option Text

-- A created event with a contract and a template: the loops skip every other one.
pub record Named : Type 0 where
  pub contract_id : Text
  pub template_id : Text
  pub event : CreatedEvent

abbrev pub named_by : CreatedEvent → Option Text → Option Text → Option Named
named_by e (some cid) (some template) =
    if text_eq template []
    then none
    else some (record { contract_id = cid; template_id = template; event = e })
named_by e none template = none
named_by e (some cid) none = none

abbrev pub named_of : Option CreatedEvent → Option Named
named_of none = none
named_of (some e) = named_by e e.contract_id e.template_id

abbrev pub user_leg : UserLegParams → Leg
user_leg p = record {
  sender_party = p.user_party;
  receiver_party = p.solver_party;
  amount = p.in_amount;
  amount_decimals = decimals_of p.from_asset;
  expected_memo = p.expected_memo;
}

abbrev pub is_wanted : InstrumentId → SeenInstrument → Bool
is_wanted target seen = matches_instrument seen target

abbrev pub is_user_offer : UserLegParams → Option TransferPayload → Bool
is_user_offer p = pays_leg (user_leg p) (is_wanted p.expected_instrument)

-- No instrument id is shown, or the right one.
abbrev pub instrument_passes : Option SeenInstrument → InstrumentId → Bool
instrument_passes none target = true
instrument_passes (some seen) target = not (truthy seen.id) || matches_instrument seen target

abbrev pub is_inbound_holding : UserLegParams → CreateArgument → Bool
is_inbound_holding p arg =
    is_id arg.owner p.solver_party
    && truthy arg.amount
    && amounts_equal p.in_amount (or_else arg.amount []) (decimals_of p.from_asset)
    && instrument_passes (first arg.instrument_id arg.instrument) p.expected_instrument

-- One round of the loop.
abbrev pub with_event : UserLegParams → Option Named → UserLegEvidence → UserLegEvidence
with_event p none seen = seen
with_event p (some e) seen =
    if is_transfer_instruction_template e.template_id
    then (if is_user_offer p (read_transfer_instruction_payload e.event)
        then record seen { offer_cid = some e.contract_id }
        else seen)
    else if is_holding_template e.template_id && is_inbound_holding p e.event.create_argument
    then record seen { inbound_holding_cid = some e.contract_id }
    else seen

unfoldable pub parse_from : UserLegParams → List Node → UserLegEvidence → UserLegEvidence
unfolding created_event_from_node
parse_from p [] seen = seen
parse_from p (node ∷ nodes) seen =
    parse_from p nodes (with_event p (named_of (created_event_from_node node)) seen)

abbrev pub is_transfer_choice : Text → Bool
is_transfer_choice choice =
    includes (codes "Transfer") choice
    && not (includes (codes "Accept") choice)
    && not (includes (codes "Reject") choice)

abbrev pub meta_of : ChoiceArgument → Option Meta
meta_of arg = first (or_else arg.transfer arg.own).meta arg.own.meta

abbrev pub carries_memo : Text → Option ExercisedEvent → Bool
carries_memo memo none = false
carries_memo memo (some e) =
    truthy e.choice
    && is_transfer_choice (or_else e.choice [])
    && text_eq (transfer_memo_from_meta (meta_of e.choice_argument)) memo

unfoldable pub transfer_exercise_with_order_memo : List Node → Text → Bool
unfolding exercised_event_from_node
transfer_exercise_with_order_memo [] memo = false
transfer_exercise_with_order_memo (node ∷ nodes) memo =
    carries_memo memo (exercised_event_from_node node)
    || transfer_exercise_with_order_memo nodes memo

abbrev pub lacks_memo : UserLegParams → List Node → Bool
lacks_memo p nodes =
    p.strict_order_bound_memo
    && truthy p.expected_memo
    && not (transfer_exercise_with_order_memo nodes (or_else p.expected_memo []))

abbrev pub evidence_of : UserLegParams → List Node → UserLegEvidence → Option UserLegEvidence
evidence_of p nodes seen =
    if truthy seen.offer_cid
    then some seen
    else if truthy seen.inbound_holding_cid
    then (if lacks_memo p nodes
        then none
        else some (record { offer_cid = none; inbound_holding_cid = seen.inbound_holding_cid }))
    else none

abbrev pub nothing_seen : UserLegEvidence
nothing_seen = record { offer_cid = none; inbound_holding_cid = none }

-- The nodes are `Object.values(eventsById)`, in its order.
unfoldable pub parse_user_leg_evidence_from_events :
    Option (List Node) → UserLegParams → Option UserLegEvidence
unfolding parse_from
parse_user_leg_evidence_from_events none p = none
parse_user_leg_evidence_from_events (some nodes) p =
    evidence_of p nodes (parse_from p nodes nothing_seen)

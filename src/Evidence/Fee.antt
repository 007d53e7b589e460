-- ===== src/Evidence/Fee.antt =====
-- lib/network-fee-verify-logic.ts, lib/canton-network-fee-math.ts: when a transaction has paid the
-- network fee of an order, and the cap on that fee.
use cantonbit.Shared.{
  ℕ, Bool, true, false, not, ◌&&◌, ◌||◌, Option, none, some, List, [], ◌∷◌, Text, Result, ok, err,
  ◌>>=◌, leb, if◌then◌else◌, codes, text_eq, opt_text_eq, truthy, or_else, includes, trim, any,
  drop,
}
use cantonbit.Amount.{AmountError, to_base_units_floor, from_base_units}
use cantonbit.Evidence.Ledger.{
  InstrumentId, InterfaceView, Node, CreatedEvent, ExercisedEvent, BalanceChange, TransferPayload,
  created_event_from_node, exercised_event_from_node, pick_transfer_instruction_suffix,
  transfer_instruction_interface, read_transfer_instruction_payload,
}
use cantonbit.Evidence.Match.{is_id, matches_instrument}
use cantonbit.Evidence.Delivery.{is_minus, send_choice}

pub record FeeParams : Type 0 where
  pub user_party : Text
  pub receiver_party : Text
  pub min_fee_cc : Text
  pub expected_instrument : InstrumentId
  pub expected_preapproval_cid : Option Text

-- The decimals of CC.
abbrev pub cc_decimals : ℕ
cc_decimals = 10

abbrev pub identifier_matches : Text → Text → Bool
identifier_matches identifier expected =
    text_eq identifier expected
    || text_eq (pick_transfer_instruction_suffix identifier)
        (pick_transfer_instruction_suffix expected)

abbrev pub matches_if_named : Option Text → Bool
matches_if_named none = false
matches_if_named (some template) =
    not (text_eq template []) && identifier_matches template transfer_instruction_interface

unfoldable pub is_transfer_instruction_event : CreatedEvent → Bool
unfolding pick_transfer_instruction_suffix
is_transfer_instruction_event e =
    matches_if_named e.template_id
    || any
        (λ (v : InterfaceView).
          identifier_matches (or_else v.interface_id []) transfer_instruction_interface)
        e.interface_views

abbrev pub at_least_units : Result AmountError ℕ → Result AmountError ℕ → Bool
at_least_units (err _) wanted = false
at_least_units (ok actual) (err _) = false
at_least_units (ok actual) (ok wanted) = leb wanted actual

unfoldable pub fee_amount_at_least : Text → Text → Bool
unfolding to_base_units_floor
fee_amount_at_least actual min_fee_cc =
    at_least_units (to_base_units_floor actual cc_decimals)
      (to_base_units_floor min_fee_cc cc_decimals)

-- The fields of a payload that was read: an instrument is always there.
abbrev pub transfer_fields_match : FeeParams → Option TransferPayload → Bool
transfer_fields_match p none = false
transfer_fields_match p (some t) =
    text_eq t.sender p.user_party
    && text_eq t.receiver p.receiver_party
    && fee_amount_at_least t.amount p.min_fee_cc
    && matches_instrument t.instrument_id p.expected_instrument

abbrev pub signed_amount_at_least : Option Text → Text → Bool → Bool
signed_amount_at_least none min_fee_cc negative = false
signed_amount_at_least (some value) min_fee_cc negative =
    if is_minus (trim value)
    then negative && fee_amount_at_least (drop 1 (trim value)) min_fee_cc
    else not negative && fee_amount_at_least (trim value) min_fee_cc

abbrev pub has_change : Text → Text → Bool → List BalanceChange → Bool
has_change party min_fee_cc negative changes =
    any (λ c. text_eq c.party party && signed_amount_at_least c.change min_fee_cc negative) changes

abbrev pub is_preapproval_template : Option Text → Bool
is_preapproval_template none = false
is_preapproval_template (some template) =
    includes (codes "Splice.AmuletRules:TransferPreapproval") template
    && not (includes (codes "TransferInstruction") template)

abbrev pub is_fee_send : FeeParams → Option ExercisedEvent → Bool
is_fee_send p none = false
is_fee_send p (some e) =
    is_id e.choice send_choice
    && truthy p.expected_preapproval_cid
    && opt_text_eq e.contract_id p.expected_preapproval_cid
    && is_preapproval_template e.template_id
    && text_eq p.expected_instrument.id (codes "Amulet")
    && is_id e.choice_argument.own.sender p.user_party
    && fee_amount_at_least (or_else e.choice_argument.own.amount (codes "0")) p.min_fee_cc
    && has_change p.user_party p.min_fee_cc true e.exercise_result.balance_changes
    && has_change p.receiver_party p.min_fee_cc false e.exercise_result.balance_changes

unfoldable pub preapproval_send_matches : FeeParams → Node → Bool
unfolding exercised_event_from_node
preapproval_send_matches p node = is_fee_send p (exercised_event_from_node node)

abbrev pub exercises : Text → Option ExercisedEvent → Bool
exercises cid none = false
exercises cid (some e) = truthy e.contract_id && is_id e.contract_id cid

-- `exercisedContractIdsInTree(nodes).has(cid)`
unfoldable pub is_exercised_in_tree : List Node → Text → Bool
unfolding exercised_event_from_node
is_exercised_in_tree nodes cid = any (λ node. exercises cid (exercised_event_from_node node)) nodes

abbrev pub is_open_fee_offer : FeeParams → List Node → Option CreatedEvent → Bool
is_open_fee_offer p nodes none = false
is_open_fee_offer p nodes (some e) =
    is_transfer_instruction_event e
    && not (is_exercised_in_tree nodes (or_else e.contract_id []))
    && transfer_fields_match p (read_transfer_instruction_payload e)

unfoldable pub has_unconsumed_pending_fee_transfer_offer : List Node → FeeParams → Bool
unfolding created_event_from_node is_exercised_in_tree
has_unconsumed_pending_fee_transfer_offer nodes p =
    any (λ node. is_open_fee_offer p nodes (created_event_from_node node)) nodes

pub data RejectReason : Type 0 where
  missing_transaction_tree unconsumed_offer no_settled_transfer : RejectReason

unfoldable pub cc_network_fee_reject_reason : Option (List Node) → FeeParams → Option RejectReason
unfolding has_unconsumed_pending_fee_transfer_offer preapproval_send_matches
cc_network_fee_reject_reason none p = some RejectReason.missing_transaction_tree
cc_network_fee_reject_reason (some nodes) p =
    if has_unconsumed_pending_fee_transfer_offer nodes p
    then some RejectReason.unconsumed_offer
    else if any (preapproval_send_matches p) nodes
    then none
    else some RejectReason.no_settled_transfer

abbrev pub is_no_reason : Option RejectReason → Bool
is_no_reason none = true
is_no_reason (some _) = false

unfoldable pub cc_network_fee_paid_in_events : Option (List Node) → FeeParams → Bool
unfolding cc_network_fee_reject_reason
cc_network_fee_paid_in_events nodes p = is_no_reason (cc_network_fee_reject_reason nodes p)

-- A stored fee that is missing or empty is no cap. `toBaseUnitsFloor` may throw on either fee.
abbrev pub capped_at : ℕ → Text → ℕ → Text
capped_at stored fresh_fee_cc fresh =
    if leb fresh stored then fresh_fee_cc else from_base_units stored cc_decimals

unfoldable pub cap_network_fee_at_order : Option Text → Text → Result AmountError Text
unfolding to_base_units_floor from_base_units
cap_network_fee_at_order none fresh = ok fresh
cap_network_fee_at_order (some []) fresh = ok fresh
cap_network_fee_at_order (some (c ∷ s)) fresh =
    to_base_units_floor (c ∷ s) cc_decimals >>= λ stored.
    to_base_units_floor fresh cc_decimals >>= λ units. ok (capped_at stored fresh units)

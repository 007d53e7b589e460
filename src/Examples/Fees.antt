-- ===== src/Examples/Fees.antt =====
-- Payments of the network fee, and its cap.
use cantonbit.Shared.{
  ◌≡◌, refl, true, some, List, [], ◌∷◌, ok, trim, text_eq, codes, includes, has_prefix,
}
use cantonbit.Evidence.Ledger.{Node, created_event_from_node, exercised_event_from_node}
use cantonbit.Evidence.Fee.{
  FeeParams, cc_network_fee_paid_in_events, cc_network_fee_reject_reason,
  has_unconsumed_pending_fee_transfer_offer, preapproval_send_matches, fee_amount_at_least,
  cap_network_fee_at_order,
}
use cantonbit.Evidence.FeePaid.{fee_paid_iff, cap_never_above}
use cantonbit.Evidence.FeeSend.{SendsFee}
use cantonbit.Evidence.FeeChange.{AtLeast}
use cantonbit.Evidence.FeeOffer.{OpenOffer}
use cantonbit.Evidence.Created.{Among}
use cantonbit.Amount.{to_base_units_floor, from_base_units}
use cantonbit.Examples.Transactions.{amulet, sent}

abbrev fee : FeeParams
fee = record {
  user_party = codes "user::1";
  receiver_party = codes "fees::1";
  min_fee_cc = codes "0.25";
  expected_instrument = amulet;
  expected_preapproval_cid = some (codes "preapproval");
}

abbrev fee_nodes : List Node
fee_nodes = sent (codes "user::1") (codes "fees::1") (codes "0.2500000001") (codes "fee") ∷ []

fee_paid : cc_network_fee_paid_in_events (some fee_nodes) fee ≡ true
unfolding cc_network_fee_paid_in_events cc_network_fee_reject_reason
    has_unconsumed_pending_fee_transfer_offer preapproval_send_matches fee_amount_at_least
    created_event_from_node exercised_event_from_node to_base_units_floor text_eq includes
    has_prefix trim
fee_paid = refl

fee_paid_iff_example :
    (¬ Among (OpenOffer fee fee_nodes) fee_nodes) × Among (SendsFee fee) fee_nodes
fee_paid_iff_example = (fee_paid_iff fee fee_nodes).0 fee_paid

-- The price rose since the order was created: the order's fee is charged.
capped : cap_network_fee_at_order (some (codes "0.25")) (codes "0.31") ≡ ok (codes "0.25")
unfolding cap_network_fee_at_order to_base_units_floor from_base_units trim
capped = refl

cap_never_above_example : AtLeast (codes "0.25") (codes "0.25")
cap_never_above_example = cap_never_above b'0' (codes ".25") (codes "0.31") (codes "0.25") capped

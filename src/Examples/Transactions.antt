-- ===== src/Examples/Transactions.antt =====
-- Transactions of both legs of a same-ledger swap, as the service reads them.
use cantonbit.Shared.{
  ◌≡◌, refl, ◌⊎◌, true, false, none, some, List, [], ◌∷◌, Text, ok, trim, text_eq, codes, includes,
  has_prefix,
}
use cantonbit.C2c.Order.{SwapAsset, swap_party}
use cantonbit.Evidence.Ledger.{
  InstrumentId, SeenInstrument, MetaValue, Meta, TransferFields, CreateArgument, Node,
  created_event_from_node, exercised_event_from_node, read_transfer_instruction_payload,
  transfer_memo_from_meta, memo_under, transfer_reason_meta_key, is_order_bound_swap_memo,
  is_legacy_swap_memo, payload_of_views,
}
use cantonbit.Evidence.Match.{
  is_transfer_instruction_template, is_holding_template, amounts_equal, matches_instrument,
  transfer_memo_matches,
}
use cantonbit.Evidence.UserLeg.{
  UserLegParams, UserLegEvidence, user_leg, is_wanted, parse_from,
  parse_user_leg_evidence_from_events,
}
use cantonbit.Evidence.Created.{Among, Offers}
use cantonbit.Evidence.Offers.{user_offer_iff}
use cantonbit.Evidence.Delivery.{
  counter_leg_delivered_to_user_in_events, amulet_direct_delivery_proven_in_events,
  direct_settlement_binds_sender, send_choice, is_counter_instrument, hits_in, last_hit,
  extract_counter_offer_cid_from_events,
}
use cantonbit.Evidence.Sender.{PaidBy, delivery_is_paid}
use cantonbit.Evidence.Outcome.{LoopFillResult, counter_leg, build_loop_fill_result_from_events}
use cantonbit.Evidence.Results.{fill_result_lem}
use cantonbit.Amount.{to_base_units, to_base_units_floor}
use cantonbit.Examples.Canton.{incoming}

abbrev cbtc : InstrumentId
cbtc = record { admin = codes "bitsafe"; id = codes "CBTC" }

abbrev pub amulet : InstrumentId
amulet = record { admin = []; id = codes "Amulet" }

abbrev seen_as : InstrumentId → SeenInstrument
seen_as i = record { admin = some i.admin; id = some i.id }

abbrev memo_meta : Text → Meta
memo_meta memo = record { values = some ((transfer_reason_meta_key, MetaValue.text memo) ∷ []) }

abbrev transfer : Text → Text → Text → InstrumentId → Text → TransferFields
transfer sender receiver amount instrument memo = record {
  sender = some sender;
  receiver = some receiver;
  amount = some amount;
  instrument_id = some (seen_as instrument);
  meta = some (memo_meta memo);
}

abbrev created : Text → Text → CreateArgument → Node
created cid template arg = record {
  created_tree_event = some (record {
    contract_id = some cid;
    template_id = some template;
    create_argument = arg;
    interface_views = [];
  });
  created_event = none;
  exercised_tree_event = none;
  exercised_event = none;
}

abbrev offer : Text → TransferFields → Node
offer cid f = created cid (codes "#pkg:Utility.Registry.App:TransferOffer") (record {
  transfer = some f;
  owner = none;
  amount = none;
  instrument_id = none;
  instrument = none;
})

abbrev holding : Text → Text → Text → InstrumentId → Node
holding cid owner amount instrument = created cid (codes "#pkg:Splice.Amulet:Amulet") (record {
  transfer = none;
  owner = some owner;
  amount = some amount;
  instrument_id = some (seen_as instrument);
  instrument = none;
})

abbrev pub sent : Text → Text → Text → Text → Node
sent sender receiver amount description = record {
  created_tree_event = none;
  created_event = none;
  exercised_tree_event = some (record {
    contract_id = some (codes "preapproval");
    template_id = some (codes "#pkg:Splice.AmuletRules:TransferPreapproval");
    choice = some send_choice;
    choice_argument = record {
      own = record {
        sender = some sender;
        receiver = none;
        amount = some amount;
        instrument_id = none;
        meta = none;
      };
      description = some description;
      transfer = none;
    };
    exercise_result = record {
      receiver_holding_cid = none;
      balance_changes =
          record { party = sender; change = some (b'-' ∷ amount) }
          ∷ record { party = receiver; change = some amount }
          ∷ [];
    };
  });
  exercised_event = none;
}

abbrev memo : Text
memo = codes "oranj.c2c.v1.c2c-1"

abbrev sell : UserLegParams
sell = record {
  user_party = codes "user::1";
  solver_party = codes "vault::1";
  in_amount = codes "0.00005";
  from_asset = SwapAsset.cbtc;
  expected_instrument = cbtc;
  expected_memo = some memo;
  strict_order_bound_memo = true;
}

-- The second offer is bound to another order: it does not replace the first.
abbrev sell_nodes : List Node
sell_nodes =
    offer (codes "o1")
      (transfer (codes "user::1") (codes "vault::1") (codes "0.0000500000") cbtc memo)
    ∷ offer (codes "o2") (
        transfer (codes "user::1") (codes "vault::1") (codes "0.00005") cbtc
          (codes "oranj.c2c.v1.c2c-2"))
    ∷ []

abbrev sell_evidence : UserLegEvidence
sell_evidence = record { offer_cid = some (codes "o1"); inbound_holding_cid = none }

sell_parsed : parse_user_leg_evidence_from_events (some sell_nodes) sell ≡ some sell_evidence
unfolding parse_user_leg_evidence_from_events parse_from created_event_from_node
    read_transfer_instruction_payload payload_of_views transfer_memo_from_meta memo_under
    is_order_bound_swap_memo is_legacy_swap_memo is_transfer_instruction_template
    is_holding_template amounts_equal matches_instrument transfer_memo_matches to_base_units
    to_base_units_floor text_eq includes has_prefix trim
sell_parsed = refl

user_offer_iff_example : Among (Offers (user_leg sell) (is_wanted cbtc) (codes "o1")) sell_nodes
user_offer_iff_example =
    (user_offer_iff sell sell_nodes).0 sell_evidence (codes "o1") sell_parsed refl

abbrev pay_nodes : List Node
pay_nodes = sent (codes "vault::1") (codes "user::1") (codes "40") memo ∷ []

paid :
    counter_leg_delivered_to_user_in_events
      (some pay_nodes)
      (counter_leg incoming (some memo))
      amulet
    ≡ true
unfolding counter_leg_delivered_to_user_in_events amulet_direct_delivery_proven_in_events
    direct_settlement_binds_sender created_event_from_node exercised_event_from_node amounts_equal
    transfer_memo_matches to_base_units to_base_units_floor text_eq has_prefix trim swap_party
paid = refl

delivery_is_paid_example : Among (PaidBy (counter_leg incoming (some memo))) pay_nodes
delivery_is_paid_example = delivery_is_paid (counter_leg incoming (some memo)) amulet pay_nodes paid

abbrev counter_nodes : List Node
counter_nodes =
    offer (codes "c1") (transfer (codes "vault::1") (codes "user::1") (codes "40") amulet memo) ∷ []

abbrev counter_result : LoopFillResult
counter_result = record {
  update_id = codes "u9";
  counter_leg_offer_cid = some (codes "c1");
  counter_leg_pending_accept = true;
}

fill_built :
    build_loop_fill_result_from_events incoming
      (codes "u9")
      counter_nodes
      (codes "offer")
      amulet
      (some memo)
    ≡ ok counter_result
unfolding build_loop_fill_result_from_events counter_leg_delivered_to_user_in_events
    extract_counter_offer_cid_from_events hits_in last_hit amulet_direct_delivery_proven_in_events
    direct_settlement_binds_sender created_event_from_node exercised_event_from_node
    read_transfer_instruction_payload payload_of_views transfer_memo_from_meta memo_under
    is_transfer_instruction_template is_holding_template amounts_equal matches_instrument
    transfer_memo_matches to_base_units to_base_units_floor text_eq includes has_prefix trim
    swap_party
fill_built = refl

fill_result_lem_example :
    ((counter_result.counter_leg_pending_accept ≡ false)
      × (counter_result.counter_leg_offer_cid ≡ none)
      × Among (PaidBy (counter_leg incoming (some memo))) counter_nodes)
    ⊎ ((counter_result.counter_leg_pending_accept ≡ true)
        × ((cid : Text) × (counter_result.counter_leg_offer_cid ≡ some cid)
            × Among
                (Offers
                  (counter_leg incoming (some memo))
                  (is_counter_instrument (some amulet))
                  cid)
                counter_nodes))
fill_result_lem_example =
    (fill_result_lem incoming (codes "u9") counter_nodes (codes "offer") amulet (some memo)).0
      counter_result fill_built

-- A payment whose description is another order's memo, next to a holding, counts as this order's.
other_memo_passes :
    counter_leg_delivered_to_user_in_events
      (some (
        holding (codes "h1") (codes "user::1") (codes "40") amulet
        ∷ sent (codes "vault::1") (codes "user::1") (codes "40") (codes "oranj.c2c.v1.c2c-2")
        ∷ []))
      (counter_leg incoming (some memo))
      amulet
    ≡ true
unfolding counter_leg_delivered_to_user_in_events amulet_direct_delivery_proven_in_events
    direct_settlement_binds_sender created_event_from_node exercised_event_from_node amounts_equal
    transfer_memo_matches transfer_memo_from_meta is_order_bound_swap_memo is_legacy_swap_memo
    matches_instrument is_holding_template to_base_units to_base_units_floor text_eq includes
    has_prefix trim swap_party
other_memo_passes = refl

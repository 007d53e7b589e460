-- ===== src/Evidence/FeeSend.antt =====
-- lib/network-fee-verify-logic.ts, preapprovalSendMatches: a send of the fee, as a statement about one
-- event.
use cantonbit.Shared.{
  ◌≡◌, refl, ◌↔◌, inl, inr, true, false, Option, some, Text, split_and, join_and, codes, text_eq,
  text_eq→eq, text_eq_of_eq, opt_text_eq, opt_text_eq→eq, opt_text_eq_refl, truthy, or_else,
  Option-cases, sym, subst,
}
use cantonbit.Evidence.Created.{Among}
use cantonbit.Evidence.FeeChange.{
  AtLeast, Leaves, Arrives, fee_amount_at_least_iff, Leaves-any, Arrives-any,
}
use cantonbit.Evidence.Ledger.{Node, ExercisedEvent, exercised_event_from_node}
use cantonbit.Evidence.Match.{is_id}
use cantonbit.Evidence.Delivery.{send_choice}
use cantonbit.Evidence.Fee.{
  FeeParams, fee_amount_at_least, is_fee_send, is_preapproval_template, has_change,
  preapproval_send_matches,
}
use cantonbit.Evidence.Sender.{is_id→eq}

-- A node that exercises the receiver's preapproval: the user sends at least the fee, and the balances
-- show at least the fee leaving the user and arriving at the receiver.
abbrev pub SendsFee : FeeParams → Node → Type 0
SendsFee p node =
    (e : ExercisedEvent) × (exercised_event_from_node node ≡ some e)
    × (e.choice ≡ some send_choice)
    × (truthy p.expected_preapproval_cid ≡ true)
    × (e.contract_id ≡ p.expected_preapproval_cid)
    × (is_preapproval_template e.template_id ≡ true)
    × (p.expected_instrument.id ≡ codes "Amulet")
    × (e.choice_argument.own.sender ≡ some p.user_party)
    × AtLeast (or_else e.choice_argument.own.amount (codes "0")) p.min_fee_cc
    × Among (Leaves p.user_party p.min_fee_cc) e.exercise_result.balance_changes
    × Among (Arrives p.receiver_party p.min_fee_cc) e.exercise_result.balance_changes

fee_send→sends :
    (p : FeeParams) (node : Node) → preapproval_send_matches p node ≡ true → SendsFee p node
unfolding preapproval_send_matches
fee_send→sends p node h = elim (Option-cases (exercised_event_from_node node)) [
  | inl missing ↦ (let never = subst (λ o. is_fee_send p o ≡ true) missing h in cc)
  | inr (e, exercised) ↦
      let arg = e.choice_argument.own in
      let changes = e.exercise_result.balance_changes in
      let least = or_else arg.amount (codes "0") in
      let h0 = subst (λ o. is_fee_send p o ≡ true) exercised h in
      let (h1, credit) = split_and _ (has_change p.receiver_party p.min_fee_cc false changes) h0 in
      let (h2, debit) = split_and _ (has_change p.user_party p.min_fee_cc true changes) h1 in
      let (h3, amount) = split_and _ (fee_amount_at_least least p.min_fee_cc) h2 in
      let (h4, sender) = split_and _ (is_id arg.sender p.user_party) h3 in
      let (h5, instrument) = split_and _ (text_eq p.expected_instrument.id (codes "Amulet")) h4 in
      let (h6, template) = split_and _ (is_preapproval_template e.template_id) h5 in
      let (h7, cid) = split_and _ (opt_text_eq e.contract_id p.expected_preapproval_cid) h6 in
      let (choice, known) = split_and _ (truthy p.expected_preapproval_cid) h7 in
      (
        e,
        exercised,
        is_id→eq e.choice send_choice choice,
        known,
        opt_text_eq→eq e.contract_id p.expected_preapproval_cid cid,
        template,
        text_eq→eq p.expected_instrument.id (codes "Amulet") instrument,
        is_id→eq arg.sender p.user_party sender,
        (fee_amount_at_least_iff least p.min_fee_cc).0 amount,
        (Leaves-any p.user_party p.min_fee_cc changes).0 debit,
        (Arrives-any p.receiver_party p.min_fee_cc changes).0 credit,
      )
]

is_id_of_eq : (seen : Option Text) (wanted : Text) → seen ≡ some wanted → is_id seen wanted ≡ true
is_id_of_eq seen wanted h =
    subst (λ o. is_id o wanted ≡ true) (sym h) (text_eq_of_eq wanted wanted refl)

opt_text_eq_of_eq : (a b : Option Text) → a ≡ b → opt_text_eq a b ≡ true
opt_text_eq_of_eq a b h = subst (λ o. opt_text_eq a o ≡ true) h (opt_text_eq_refl a)

sends→fee_send :
    (p : FeeParams) (node : Node) → SendsFee p node → preapproval_send_matches p node ≡ true
unfolding preapproval_send_matches
sends→fee_send p node
      (e, exercised, choice, known, cid, template, instrument, sender, least, debit, credit) =
    let arg = e.choice_argument.own in
    let changes = e.exercise_result.balance_changes in
    let paid = or_else arg.amount (codes "0") in
    subst (λ o. is_fee_send p o ≡ true) (sym exercised)
      (join_and _ (has_change p.receiver_party p.min_fee_cc false changes)
        (join_and _ (has_change p.user_party p.min_fee_cc true changes)
          (join_and _ (fee_amount_at_least paid p.min_fee_cc)
            (join_and _ (is_id arg.sender p.user_party)
              (join_and _ (text_eq p.expected_instrument.id (codes "Amulet"))
                (join_and _ (is_preapproval_template e.template_id)
                  (join_and _ (opt_text_eq e.contract_id p.expected_preapproval_cid)
                    (join_and (is_id e.choice send_choice) (truthy p.expected_preapproval_cid)
                      (is_id_of_eq e.choice send_choice choice) known)
                    (opt_text_eq_of_eq e.contract_id p.expected_preapproval_cid cid))
                  template)
                (text_eq_of_eq p.expected_instrument.id (codes "Amulet") instrument))
              (is_id_of_eq arg.sender p.user_party sender))
            ((fee_amount_at_least_iff paid p.min_fee_cc).1 least))
          ((Leaves-any p.user_party p.min_fee_cc changes).1 debit))
        ((Arrives-any p.receiver_party p.min_fee_cc changes).1 credit))

pub sends_iff :
    (p : FeeParams) (node : Node) → (preapproval_send_matches p node ≡ true) ↔ SendsFee p node
sends_iff p node = (fee_send→sends p node, sends→fee_send p node)

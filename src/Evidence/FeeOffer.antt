-- ===== src/Evidence/FeeOffer.antt =====
-- lib/network-fee-verify-logic.ts, hasUnconsumedPendingFeeTransferOffer: an offer of the fee that the
-- transaction leaves open, as a statement about its nodes.
use cantonbit.Shared.{
  ◌≡◌, refl, ◌↔◌, inl, inr, Bool, true, false, not, ◌&&◌, Option, none, some, List, [], Text,
  text_eq, text_eq→eq, text_eq_of_eq, truthy, or_else, Option-cases, sym, subst, split_and,
  join_and,
}
use cantonbit.Evidence.Ledger.{
  first, Node, CreatedEvent, ExercisedEvent, TransferPayload, created_event_from_node,
  exercised_event_from_node, read_transfer_instruction_payload,
}
use cantonbit.Evidence.Match.{is_id, matches_instrument}
use cantonbit.Evidence.Fee.{
  FeeParams, is_transfer_instruction_event, fee_amount_at_least, transfer_fields_match, exercises,
  is_exercised_in_tree, is_open_fee_offer, has_unconsumed_pending_fee_transfer_offer,
}
use cantonbit.Evidence.Created.{Among, any_iff}
use cantonbit.Evidence.Offers.{with_contract_id_lem}
use cantonbit.Evidence.Sender.{is_id→eq}
use cantonbit.Evidence.FeeChange.{AtLeast, fee_amount_at_least_iff}

-- A node that exercises a choice on the contract.
abbrev pub Exercises : Text → Node → Type 0
Exercises cid node =
    (e : ExercisedEvent) × (exercised_event_from_node node ≡ some e) × (e.contract_id ≡ some cid)

-- A transfer of at least the fee in the expected instrument, from the user to the receiver.
abbrev pub CarriesFee : FeeParams → TransferPayload → Type 0
CarriesFee p t =
    (t.sender ≡ p.user_party)
    × (t.receiver ≡ p.receiver_party)
    × AtLeast t.amount p.min_fee_cc
    × (matches_instrument t.instrument_id p.expected_instrument ≡ true)

-- A node that creates a transfer instruction for the fee, on whose contract no node of the transaction
-- exercises a choice.
abbrev pub OpenOffer : FeeParams → List Node → Node → Type 0
OpenOffer p nodes node =
    (e : CreatedEvent) × (cid : Text) × (t : TransferPayload) × (created_event_from_node node
      ≡ some e)
    × (e.contract_id ≡ some cid)
    × (is_transfer_instruction_event e ≡ true)
    × (¬ Among (Exercises cid) nodes)
    × (read_transfer_instruction_payload e ≡ some t)
    × CarriesFee p t

carries_iff :
    (p : FeeParams) (t : TransferPayload)
    → (transfer_fields_match p (some t) ≡ true) ↔ CarriesFee p t
carries_iff p t = (
  (λ h.
      let (h1, instrument) =
        split_and _ (matches_instrument t.instrument_id p.expected_instrument) h in
      let (h2, amount) = split_and _ (fee_amount_at_least t.amount p.min_fee_cc) h1 in
      let (sender, receiver) = split_and _ (text_eq t.receiver p.receiver_party) h2 in
      (
        text_eq→eq t.sender p.user_party sender,
        text_eq→eq t.receiver p.receiver_party receiver,
        (fee_amount_at_least_iff t.amount p.min_fee_cc).0 amount,
        instrument,
      )),
  λ (sender, receiver, amount, instrument).
      join_and _ (matches_instrument t.instrument_id p.expected_instrument)
        (join_and _ (fee_amount_at_least t.amount p.min_fee_cc)
          (join_and _ (text_eq t.receiver p.receiver_party)
            (text_eq_of_eq t.sender p.user_party sender)
            (text_eq_of_eq t.receiver p.receiver_party receiver))
          ((fee_amount_at_least_iff t.amount p.min_fee_cc).1 amount))
        instrument,
)

exercises_iff :
    (cid : Text)
    → truthy (some cid) ≡ true
    → (node : Node) → (exercises cid (exercised_event_from_node node) ≡ true) ↔ Exercises cid node
exercises_iff cid named node = (
  (λ h. elim (Option-cases (exercised_event_from_node node)) [
    | inl missing ↦ (let never = subst (λ o. exercises cid o ≡ true) missing h in cc)
    | inr (e, exercised) ↦
        let (_, same) =
          split_and (truthy e.contract_id) _ (subst (λ o. exercises cid o ≡ true) exercised h) in
        (e, exercised, is_id→eq e.contract_id cid same)
  ]),
  λ (e, exercised, same).
      subst (λ o. exercises cid o ≡ true) (sym exercised)
        (subst (λ c. (truthy c && is_id c cid) ≡ true) (sym same)
          (join_and _ (text_eq cid cid) named (text_eq_of_eq cid cid refl))),
)

-- What is in the set of the exercised contract ids.
exercised_iff :
    (nodes : List Node) (cid : Text)
    → truthy (some cid) ≡ true
    → (is_exercised_in_tree nodes cid ≡ true) ↔ Among (Exercises cid) nodes
unfolding is_exercised_in_tree
exercised_iff nodes cid named = any_iff _ _ (exercises_iff cid named) nodes

false_iff {ℓ} : (b : Bool) {P : Type ℓ} → (b ≡ true) ↔ P → (not b ≡ true) ↔ (¬ P)
false_iff true same = ((λ h. cc), λ none_is. elim (none_is (same.0 refl)) [ ])
false_iff false same = ((λ h p. (let never = same.1 p in cc)), λ _. refl)

-- A created event that counts has a contract id.
created-truthy :
    (node : Node) (e : CreatedEvent) (cid : Text)
    → created_event_from_node node ≡ some e
    → e.contract_id ≡ some cid
    → truthy (some cid) ≡ true
unfolding created_event_from_node
created-truthy node e cid created is_cid =
    subst (λ c. truthy c ≡ true) is_cid
      (with_contract_id_lem (first node.created_tree_event node.created_event) e created)

created-cid :
    (node : Node) (e : CreatedEvent)
    → created_event_from_node node ≡ some e
    → (cid : Text) × (e.contract_id ≡ some cid)
unfolding created_event_from_node
created-cid node e created =
    let named = with_contract_id_lem (first node.created_tree_event node.created_event) e created in
    elim (Option-cases e.contract_id) [
      | inl missing ↦ (let never = subst (λ c. truthy c ≡ true) missing named in cc)
      | inr found ↦ found
    ]

payload_iff :
    (p : FeeParams) (o : Option TransferPayload)
    → (transfer_fields_match p o ≡ true) ↔ ((t : TransferPayload) × (o ≡ some t) × CarriesFee p t)
payload_iff p none = ((λ h. cc), λ (t, same, _). cc)
payload_iff p (some t) = (
  (λ h. (t, refl, (carries_iff p t).0 h)),
  λ (u, same, carries).
      subst (λ o. transfer_fields_match p o ≡ true) (sym same) ((carries_iff p u).1 carries),
)

OpenOffer-iff :
    (p : FeeParams) (nodes : List Node) (node : Node)
    → (is_open_fee_offer p nodes (created_event_from_node node) ≡ true) ↔ OpenOffer p nodes node
OpenOffer-iff p nodes node = (
  (λ h. elim (Option-cases (created_event_from_node node)) [
    | inl missing ↦ (let never = subst (λ o. is_open_fee_offer p nodes o ≡ true) missing h in cc)
    | inr (e, created) ↦
        let (cid, is_cid) = created-cid node e created in
        let payload = transfer_fields_match p (read_transfer_instruction_payload e) in
        let (h1, fields) =
          split_and _ payload (subst (λ o. is_open_fee_offer p nodes o ≡ true) created h) in
        let (instruction, unused) = split_and (is_transfer_instruction_event e) _ h1 in
        let (t, read, carries) = (payload_iff p (read_transfer_instruction_payload e)).0 fields in
        let same = exercised_iff nodes cid (created-truthy node e cid created is_cid) in
        (
          e,
          cid,
          t,
          created,
          is_cid,
          instruction,
          (false_iff (is_exercised_in_tree nodes cid) same).0
              (subst (λ c. not (is_exercised_in_tree nodes (or_else c [])) ≡ true) is_cid unused),
          read,
          carries,
        )
  ]),
  λ (e, cid, t, created, is_cid, instruction, unused, read, carries).
      let payload = transfer_fields_match p (read_transfer_instruction_payload e) in
      let same = exercised_iff nodes cid (created-truthy node e cid created is_cid) in
      subst (λ o. is_open_fee_offer p nodes o ≡ true) (sym created)
        (join_and _ payload
          (join_and (is_transfer_instruction_event e) _ instruction (
            subst (λ c. not (is_exercised_in_tree nodes (or_else c [])) ≡ true) (sym is_cid)
              ((false_iff (is_exercised_in_tree nodes cid) same).1 unused)))
          ((payload_iff p (read_transfer_instruction_payload e)).1 (t, read, carries))),
)

pub pending_iff :
    (nodes : List Node) (p : FeeParams)
    → (has_unconsumed_pending_fee_transfer_offer nodes p ≡ true) ↔ Among (OpenOffer p nodes) nodes
unfolding has_unconsumed_pending_fee_transfer_offer
pending_iff nodes p = any_iff _ _ (OpenOffer-iff p nodes) nodes

pub not_pending_iff :
    (nodes : List Node) (p : FeeParams)
    → (not (has_unconsumed_pending_fee_transfer_offer nodes p) ≡ true)
      ↔ (¬ Among (OpenOffer p nodes) nodes)
not_pending_iff nodes p =
    false_iff (has_unconsumed_pending_fee_transfer_offer nodes p) (pending_iff nodes p)

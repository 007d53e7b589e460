-- ===== src/Evidence/Offers.antt =====
-- lib/canton-swap-leg-verify-logic.ts: the user's leg is found exactly when the transaction offers it.
use cantonbit.Evidence.Created.{
  Among, here, there, Offers, IsOffered, Offers-of_named, named_of-Offers, named_of_lem,
}
use cantonbit.Shared.{
  ◌≡◌, ◌⊎◌, inl, inr, true, Option, none, some, List, [], ◌∷◌, arith, Text, Bool-cases, truthy,
  subst, Option-cases,
}
use cantonbit.Evidence.Ledger.{first, with_contract_id, Node, CreatedEvent, created_event_from_node}
use cantonbit.Evidence.UserLeg.{
  nothing_seen, parse_from, evidence_of, parse_user_leg_evidence_from_events, Named, named_of,
  UserLegParams, UserLegEvidence, user_leg, is_wanted, with_event,
}

-- One round of the loop: what it leaves as the offer was there before, or is the event's.
round-offers :
    (p : UserLegParams) (ev : Named) (seen : UserLegEvidence) (cid : Text)
    → (with_event p (some ev) seen).offer_cid ≡ some cid
    → (seen.offer_cid ≡ some cid)
      ⊎ (IsOffered (user_leg p) (is_wanted p.expected_instrument) ev × (ev.contract_id ≡ cid))
round-offers p ev seen cid h = ground arith

pub with_contract_id_lem :
    (o : Option CreatedEvent) (e : CreatedEvent)
    → with_contract_id o ≡ some e
    → truthy e.contract_id ≡ true
with_contract_id_lem none e h = cc
with_contract_id_lem (some d) e h = elim (Bool-cases (truthy d.contract_id)) [
  | inl named ↦ ground (arith, named)
  | inr blank ↦ ground (arith, blank)
]

pub named-truthy :
    (node : Node) (ev : Named)
    → named_of (created_event_from_node node) ≡ some ev
    → truthy (some ev.contract_id) ≡ true
unfolding created_event_from_node
named-truthy node ev h =
    let (event, cid, _) = named_of_lem (created_event_from_node node) ev h in
    subst (λ c. truthy c ≡ true) cid
      (with_contract_id_lem (first node.created_tree_event node.created_event) ev.event event)

round-keeps :
    (p : UserLegParams) (node : Node) (seen : UserLegEvidence)
    → truthy seen.offer_cid ≡ true
    → truthy (with_event p (named_of (created_event_from_node node)) seen).offer_cid ≡ true
round-keeps p node seen h = elim (Option-cases (named_of (created_event_from_node node))) [
  | inl skipped ↦ rw skipped h
  | inr (ev, named) ↦ rw named (ground (arith, named-truthy node ev named))
]

round-finds :
    (p : UserLegParams) (ev : Named) (seen : UserLegEvidence)
    → IsOffered (user_leg p) (is_wanted p.expected_instrument) ev
    → (with_event p (some ev) seen).offer_cid ≡ some ev.contract_id
round-finds p ev seen h = ground arith

parse_from_sound :
    (p : UserLegParams) (nodes : List Node) (seen : UserLegEvidence) (cid : Text)
    → (parse_from p nodes seen).offer_cid ≡ some cid
    → (seen.offer_cid ≡ some cid)
      ⊎ Among (Offers (user_leg p) (is_wanted p.expected_instrument) cid) nodes
unfolding parse_from
parse_from_sound p [] seen cid h = inl h
parse_from_sound p (node ∷ nodes) seen cid h = elim (parse_from_sound p nodes _ cid h) [
  | inr later ↦ inr (there later)
  | inl now ↦ elim (Option-cases (named_of (created_event_from_node node))) [
    | inl skipped ↦ inl (subst (λ o. (with_event p o seen).offer_cid ≡ some cid) skipped now)
    | inr (ev, named) ↦
        elim (round-offers p ev seen cid
          (subst (λ o. (with_event p o seen).offer_cid ≡ some cid) named now)) [
            | inl before ↦ inl before
            | inr (offered, same) ↦ inr (
                here (
                  subst (λ c. Offers (user_leg p) (is_wanted p.expected_instrument) c node) same
                    (Offers-of_named (user_leg p) (is_wanted p.expected_instrument) node ev named
                      offered)))
          ]
  ]
]

parse_from-keeps :
    (p : UserLegParams) (nodes : List Node) (seen : UserLegEvidence)
    → truthy seen.offer_cid ≡ true
    → truthy (parse_from p nodes seen).offer_cid ≡ true
unfolding parse_from
parse_from-keeps p [] seen h = h
parse_from-keeps p (node ∷ nodes) seen h = parse_from-keeps p nodes _ (round-keeps p node seen h)

parse_from-finds :
    (p : UserLegParams) (nodes : List Node) (seen : UserLegEvidence) (cid : Text)
    → Among (Offers (user_leg p) (is_wanted p.expected_instrument) cid) nodes
    → truthy (parse_from p nodes seen).offer_cid ≡ true
unfolding parse_from
parse_from-finds p [] seen cid among = elim among [ ]
parse_from-finds p (node ∷ nodes) seen cid (there later) = parse_from-finds p nodes _ cid later
parse_from-finds p (node ∷ nodes) seen cid (here offers) =
    let (ev, named, _, offered) =
      named_of-Offers (user_leg p) (is_wanted p.expected_instrument) cid node offers in
    parse_from-keeps p nodes _
      (rw named (rw (round-finds p ev seen offered) (named-truthy node ev named)))

evidence_of-offer :
    (p : UserLegParams) (nodes : List Node) (found seen : UserLegEvidence) (cid : Text)
    → evidence_of p nodes found ≡ some seen
    → seen.offer_cid ≡ some cid
    → found.offer_cid ≡ some cid
evidence_of-offer p nodes found seen cid h e = ground arith

-- The evidence of a transaction has an offer, and then one whose contract really is a pending
-- transfer of the leg: from the user to the settlement party, of the amount in base units, of the
-- instrument, and under a memo that is the order's own or no order's. Where no such transfer was
-- created, the evidence has no offer; where one was, there is evidence with an offer.
pub user_offer_iff :
    (p : UserLegParams) (nodes : List Node)
    → ((seen : UserLegEvidence) (cid : Text)
        → parse_user_leg_evidence_from_events (some nodes) p ≡ some seen
        → seen.offer_cid ≡ some cid
        → Among (Offers (user_leg p) (is_wanted p.expected_instrument) cid) nodes)
      × ((cid : Text)
          → Among (Offers (user_leg p) (is_wanted p.expected_instrument) cid) nodes
          → (seen : UserLegEvidence) × (parse_user_leg_evidence_from_events (some nodes) p
              ≡ some seen)
            × (truthy seen.offer_cid ≡ true))
unfolding parse_user_leg_evidence_from_events
user_offer_iff p nodes = (
  (λ seen cid parsed offer. sound seen cid (
      parse_from_sound p nodes nothing_seen cid
        (evidence_of-offer p nodes (parse_from p nodes nothing_seen) seen cid parsed offer))),
  λ cid among.
      let found = parse_from-finds p nodes nothing_seen cid among in
      (parse_from p nodes nothing_seen, ground (arith, found), found),
)
  where
    sound :
        (seen : UserLegEvidence) (cid : Text)
        → (Option.none ≡ some cid)
          ⊎ Among (Offers (user_leg p) (is_wanted p.expected_instrument) cid) nodes
        → Among (Offers (user_leg p) (is_wanted p.expected_instrument) cid) nodes
    sound seen cid (inl h) = cc
    sound seen cid (inr among) = among

-- ===== src/Evidence/Filled.antt =====
-- lib/canton-swap-leg-verify-logic.ts: a fill's result says what the transaction shows of the counter
-- leg.
use cantonbit.Shared.{
  ◌≡◌, refl, ◌⊎◌, inl, inr, true, ◌&&◌, Option, some, List, [], ◌∷◌, ◌++◌, arith, Text, truthy,
  or_else, Bool-cases, Option-cases, ap, sym, subst,
}
use cantonbit.Evidence.Ledger.{
  InstrumentId, Node, created_event_from_node, read_transfer_instruction_payload,
}
use cantonbit.Evidence.Match.{Leg, pays_leg, is_transfer_instruction_template}
use cantonbit.Evidence.UserLeg.{Named, named_of}
use cantonbit.Evidence.Delivery.{hit, hits_in, last_hit, is_counter_instrument}
use cantonbit.Evidence.Created.{
  Among, here, there, Offers, IsOffered, Offers-of_named, named_of-Offers,
}
use cantonbit.Evidence.Offers.{named-truthy}

last_cons :
    (c : Text) (hits : List Text) (cid : Text)
    → last_hit (c ∷ hits) ≡ some cid
    → (c ≡ cid) ⊎ (last_hit hits ≡ some cid)
unfolding last_hit
last_cons c [] cid h = inl (ap (λ o. or_else o cid) h)
last_cons c (d ∷ hits) cid h = inr h

last_keeps :
    (c : Text) (hits : List Text)
    → truthy (last_hit hits) ≡ true
    → truthy (last_hit (c ∷ hits)) ≡ true
unfolding last_hit
last_keeps c [] h = cc
last_keeps c (d ∷ hits) h = h

hit_of_offered :
    (leg : Leg) (wanted : Option InstrumentId) (ev : Named)
    → IsOffered leg (is_counter_instrument wanted) ev
    → hit leg wanted (some ev) ≡ ev.contract_id ∷ []
hit_of_offered leg wanted ev h = ground arith

hit-cases :
    (leg : Leg) (wanted : Option InstrumentId) (ev : Named)
    → (hit leg wanted (some ev) ≡ [])
      ⊎ (IsOffered leg (is_counter_instrument wanted) ev
          × (hit leg wanted (some ev) ≡ ev.contract_id ∷ []))
hit-cases leg wanted ev =
    elim (Bool-cases (
      is_transfer_instruction_template ev.template_id
      && pays_leg leg (is_counter_instrument wanted)
          (read_transfer_instruction_payload ev.event))) [
            | inl offered ↦ inr (ground arith)
            | inr other ↦ inl (ground arith)
          ]

pub hits_in_sound :
    (leg : Leg) (wanted : Option InstrumentId) (nodes : List Node) (cid : Text)
    → last_hit (hits_in leg wanted nodes) ≡ some cid
    → Among (Offers leg (is_counter_instrument wanted) cid) nodes
unfolding hits_in last_hit
hits_in_sound leg wanted [] cid h = cc
hits_in_sound leg wanted (node ∷ nodes) cid h =
    let later = hits_in_sound leg wanted nodes cid in
    elim (Option-cases (named_of (created_event_from_node node))) [
      | inl skipped ↦ there (
          later (
            subst (λ o. last_hit (hit leg wanted o ++ hits_in leg wanted nodes) ≡ some cid) skipped
              h))
      | inr (ev, named) ↦
          let shown =
            subst (λ o. last_hit (hit leg wanted o ++ hits_in leg wanted nodes) ≡ some cid) named
              h in
          elim (hit-cases leg wanted ev) [
            | inl none_hit ↦ there (
                later
                  (subst (λ l. last_hit (l ++ hits_in leg wanted nodes) ≡ some cid) none_hit shown))
            | inr (offered, one_hit) ↦
                elim (last_cons ev.contract_id (hits_in leg wanted nodes) cid (
                  subst (λ l. last_hit (l ++ hits_in leg wanted nodes) ≡ some cid) one_hit shown)) [
                    | inl same ↦ here (
                        subst (λ c. Offers leg (is_counter_instrument wanted) c node) same
                          (Offers-of_named leg (is_counter_instrument wanted) node ev named
                            offered))
                    | inr after ↦ there (later after)
                  ]
          ]
    ]

last_of_named :
    (node : Node) (ev : Named) (hits : List Text)
    → named_of (created_event_from_node node) ≡ some ev
    → (hits ≡ []) ⊎ (truthy (last_hit hits) ≡ true)
    → truthy (last_hit (ev.contract_id ∷ hits)) ≡ true
unfolding last_hit
last_of_named node ev hits named (inl empty) =
    subst (λ l. truthy (last_hit (ev.contract_id ∷ l)) ≡ true) (sym empty)
      (named-truthy node ev named)
last_of_named node ev hits named (inr found) = last_keeps ev.contract_id hits found

hits_in-named :
    (leg : Leg) (wanted : Option InstrumentId) (nodes : List Node)
    → (hits_in leg wanted nodes ≡ []) ⊎ (truthy (last_hit (hits_in leg wanted nodes)) ≡ true)
unfolding hits_in
hits_in-named leg wanted [] = inl refl
hits_in-named leg wanted (node ∷ nodes) =
    let rest = hits_in-named leg wanted nodes in
    elim (Option-cases (named_of (created_event_from_node node))) [
      | inl skipped ↦ rw skipped rest
      | inr (ev, named) ↦ elim (hit-cases leg wanted ev) [
        | inl none_hit ↦ rw named (rw none_hit rest)
        | inr (_, one_hit) ↦
            inr
              (rw named (rw one_hit (last_of_named node ev (hits_in leg wanted nodes) named rest)))
      ]
    ]

pub hits_in-finds :
    (leg : Leg) (wanted : Option InstrumentId) (nodes : List Node) (cid : Text)
    → Among (Offers leg (is_counter_instrument wanted) cid) nodes
    → truthy (last_hit (hits_in leg wanted nodes)) ≡ true
unfolding hits_in
hits_in-finds leg wanted [] cid among = elim among [ ]
hits_in-finds leg wanted (node ∷ nodes) cid (here offers) =
    let (ev, named, _, offered) =
      named_of-Offers leg (is_counter_instrument wanted) cid node offers in
    rw named (
      rw (hit_of_offered leg wanted ev offered)
        (last_of_named node ev (hits_in leg wanted nodes) named (hits_in-named leg wanted nodes)))
hits_in-finds leg wanted (node ∷ nodes) cid (there among) =
    let found = hits_in-finds leg wanted nodes cid among in
    elim (Option-cases (named_of (created_event_from_node node))) [
      | inl skipped ↦ rw skipped found
      | inr (ev, named) ↦ elim (hit-cases leg wanted ev) [
        | inl none_hit ↦ rw named (rw none_hit found)
        | inr (_, one_hit) ↦
            rw named (rw one_hit (last_keeps ev.contract_id (hits_in leg wanted nodes) found))
      ]
    ]

-- ===== src/Evidence/Created.antt =====
-- lib/canton-swap-leg-verify-logic.ts: the created events that the loops look at, and when one offers a
-- leg.
use cantonbit.Shared.{
  ◌≡◌, refl, ◌↔◌, inl, inr, Bool, true, Option, none, some, List, [], ◌∷◌, arith, Text, any,
  split_or, text_eq, or_else, includes, sym, ap, subst, ◌∙◌, has_prefix, Option-cases,
}
use cantonbit.Evidence.Ledger.{
  SeenInstrument, Node, CreatedEvent, created_event_from_node, read_transfer_instruction_payload,
  TransferPayload,
}
use cantonbit.Evidence.Match.{
  Leg, PaysLeg, pays_leg, pays_leg_iff, is_transfer_instruction_template,
}
use cantonbit.Evidence.UserLeg.{Named, named_by, named_of}

-- One of the elements is as wanted.
pub data Among {A : Type 0} (P : A → Type 0) : List A → Type 0 where
  here : {x : A} {xs : List A} → P x → Among P (x ∷ xs)
  there : {x : A} {xs : List A} → Among P xs → Among P (x ∷ xs)

-- A search by a test finds exactly what the test stands for.
pub any_iff :
    {A : Type 0} (p : A → Bool) (P : A → Type 0)
    → ((x : A) → (p x ≡ true) ↔ P x)
    → (xs : List A) → (any p xs ≡ true) ↔ Among P xs
any_iff {A} p P same xs = (to xs, from xs)
  where
    to : (ys : List A) → any p ys ≡ true → Among P ys
    to [] h = cc
    to (y ∷ ys) h = elim (split_or (p y) (any p ys) h) [
      | inl now ↦ here ((same y).0 now)
      | inr later ↦ there (to ys later)
    ]

    from : (ys : List A) → Among P ys → any p ys ≡ true
    from [] among = elim among [ ]
    from (y ∷ ys) (here found) = rw ((same y).1 found) refl
    from (y ∷ ys) (there among) = ground (arith, from ys among)

-- A node that creates, under the contract id, a transfer instruction that pays the leg.
abbrev pub Offers : Leg → (SeenInstrument → Bool) → Text → Node → Type 0
Offers leg fits cid node =
    (e : CreatedEvent) × (template : Text) × (t : TransferPayload) × (created_event_from_node node
      ≡ some e)
    × (e.contract_id ≡ some cid)
    × (e.template_id ≡ some template)
    × (is_transfer_instruction_template template ≡ true)
    × (read_transfer_instruction_payload e ≡ some t)
    × PaysLeg leg fits t

-- The same as the loops test it.
abbrev pub IsOffered : Leg → (SeenInstrument → Bool) → Named → Type 0
IsOffered leg fits ev =
    (is_transfer_instruction_template ev.template_id ≡ true)
    × (pays_leg leg fits (read_transfer_instruction_payload ev.event) ≡ true)

named_by_lem :
    (e : CreatedEvent) (cid template : Option Text) (ev : Named)
    → named_by e cid template ≡ some ev
    → (cid ≡ some ev.contract_id) × (template ≡ some ev.template_id) × (e ≡ ev.event)
unfolding text_eq
named_by_lem e none template ev h = cc
named_by_lem e (some cid) none ev h = cc
named_by_lem e (some cid) (some []) ev h = cc
named_by_lem e (some cid) (some (a ∷ s)) ev h =
    let same = ap (λ o. or_else o ev) h in
    (
      ap (λ (x : Named). some x.contract_id) same,
      ap (λ (x : Named). some x.template_id) same,
      ap (λ (x : Named). x.event) same,
    )

pub named_of_lem :
    (o : Option CreatedEvent) (ev : Named)
    → named_of o ≡ some ev
    → (o ≡ some ev.event)
      × (ev.event.contract_id ≡ some ev.contract_id)
      × (ev.event.template_id ≡ some ev.template_id)
named_of_lem none ev h = cc
named_of_lem (some e) ev h =
    let (cid, template, same) = named_by_lem e e.contract_id e.template_id ev h in
    (
      ap some same,
      ap (λ (x : CreatedEvent). x.contract_id) (sym same) ∙ cid,
      ap (λ (x : CreatedEvent). x.template_id) (sym same) ∙ template,
    )

pub Offers-of_named :
    (leg : Leg) (fits : SeenInstrument → Bool) (node : Node) (ev : Named)
    → named_of (created_event_from_node node) ≡ some ev
    → IsOffered leg fits ev
    → Offers leg fits ev.contract_id node
Offers-of_named leg fits node ev h (template, pays) =
    let (event, cid, tmpl) = named_of_lem (created_event_from_node node) ev h in
    elim (Option-cases (read_transfer_instruction_payload ev.event)) [
      | inl none_read ↦ (let stuck = subst (λ r. pays_leg leg fits r ≡ true) none_read pays in cc)
      | inr (t, read) ↦ (
        ev.event,
        ev.template_id,
        t,
        event,
        cid,
        tmpl,
        template,
        read,
        (pays_leg_iff leg fits t).0 (subst (λ r. pays_leg leg fits r ≡ true) read pays),
      )
    ]

pub named_of-Offers :
    (leg : Leg) (fits : SeenInstrument → Bool) (cid : Text) (node : Node)
    → Offers leg fits cid node
    → (ev : Named) × (named_of (created_event_from_node node) ≡ some ev)
      × (ev.contract_id ≡ cid)
      × IsOffered leg fits ev
unfolding is_transfer_instruction_template includes has_prefix text_eq
named_of-Offers leg fits cid node (e, [], t, created, c, tmpl, ti, read, pays) = cc
named_of-Offers leg fits cid node (e, a ∷ s, t, created, c, tmpl, ti, read, pays) = (
  record { contract_id = cid; template_id = a ∷ s; event = e },
  ap named_of created ∙ ap (λ i. named_by e i e.template_id) c ∙ ap (named_by e (some cid)) tmpl,
  refl,
  (ti, subst (λ r. pays_leg leg fits r ≡ true) (sym read) ((pays_leg_iff leg fits t).1 pays)),
)

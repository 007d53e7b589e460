-- ===== src/Htlc/Create/Immutable.antt =====
-- lib/htlc-order-logic.ts, resolveCreateOrder: a second create request with the id of an order never
-- changes that order.
use cantonbit.Shared.{
  ℕ, ◌≡◌, refl, ◌↔◌, ◌⊎◌, inl, inr, Bool, true, false, none, some, List, [], ◌∷◌, ok, err, subst,
  text_eq_of_eq, text_eq→eq, Bool-cases, All,
}
use cantonbit.Htlc.Create.Terms.{SameTerms, terms_of_fields, fields_of_terms}
use cantonbit.Htlc.Create.{
  none, Bool, text_eq, err, ◌∷◌, false, some, true, ok, ℕ, List, SwapOrder, Field, CreateError,
  same_field, immutable_fields, check_fields, new_order, resolve_create_order,
}

check_fields_sound :
    (fs : List Field) (e i : SwapOrder)
    → check_fields fs e i ≡ ok tt
    → All (λ f. same_field f e i ≡ true) fs
unfolding check_fields
check_fields_sound [] e i h = tt
check_fields_sound (f ∷ fs) e i h = elim (Bool-cases (same_field f e i)) [
  | inl same ↦ (same, check_fields_sound fs e i (rw same at h))
  | inr other ↦ cc (rw other at h)
]

check_fields_complete :
    (fs : List Field) (e i : SwapOrder)
    → All (λ f. same_field f e i ≡ true) fs
    → check_fields fs e i ≡ ok tt
unfolding check_fields
check_fields_complete [] e i h = refl
check_fields_complete (f ∷ fs) e i h = rw h.0 (check_fields_complete fs e i h.1)

check_fields-cases :
    (fs : List Field) (e i : SwapOrder)
    → (check_fields fs e i ≡ ok tt)
      ⊎ ((f : Field) × (check_fields fs e i ≡ err (CreateError.different f))
          × (same_field f e i ≡ false))
unfolding check_fields
check_fields-cases [] e i = inl refl
check_fields-cases (f ∷ fs) e i = elim (Bool-cases (same_field f e i)) [
  | inl same ↦ rw same (check_fields-cases fs e i)
  | inr other ↦ inr (f, rw other, other)
]

-- A request for an id that is taken returns the stored order itself, marked as not new, exactly when it
-- agrees with it on the direction, both timelocks, the mode, the chain's number and the user's Canton
-- party, and up to letter case on the hash lock, both EVM addresses, both amounts, the solver's party,
-- and the chain's name, escrow and token.
pub resolve_existing_iff :
    (e i : SwapOrder) (now : ℕ)
    → (resolve_create_order (some e) i now ≡ ok (e, false)) ↔ SameTerms e i
unfolding resolve_create_order
resolve_existing_iff e i now = (accepted, accepts)
  where
    accepted : resolve_create_order (some e) i now ≡ ok (e, false) → SameTerms e i
    accepted h = elim (Bool-cases (text_eq e.user_canton_party i.user_canton_party)) [
      | inl same ↦ elim (check_fields-cases immutable_fields e i) [
        | inl fine ↦
            terms_of_fields e i (text_eq→eq _ _ same) (check_fields_sound immutable_fields e i fine)
        | inr (f, bad, _) ↦ cc (rw (same, bad) at h)
      ]
      | inr other ↦ cc (rw other at h)
    ]

    accepts : SameTerms e i → resolve_create_order (some e) i now ≡ ok (e, false)
    accepts t =
        rw (text_eq_of_eq e.user_canton_party i.user_canton_party t.user_canton_party)
          (rw (check_fields_complete immutable_fields e i (fields_of_terms e i t)) refl)

resolve-new_order :
    (i : SwapOrder) (now later : ℕ)
    → resolve_create_order (some (new_order i now)) i later ≡ ok (new_order i now, false)
resolve-new_order i now later = (resolve_existing_iff (new_order i now) i later).1 (
    unfold new_order in
    record {
      direction = refl;
      hash_lock = refl;
      user_evm_address = refl;
      solver_evm_address = refl;
      wbtc_amount = refl;
      user_timelock = refl;
      user_canton_party = refl;
      solver_canton_party = refl;
      cbtc_amount = refl;
      solver_timelock = refl;
      counter_mode = refl;
      evm_chain_slug = refl;
      evm_chain_id = refl;
      evm_escrow_address = refl;
      evm_wbtc_address = refl;
    })

-- A client that posts the same request again gets the order that its first request made, whatever
-- the clock says by then.
pub resolve_replay :
    (i : SwapOrder) (now later : ℕ) {o : SwapOrder} {is_new : Bool}
    → resolve_create_order none i now ≡ ok (o, is_new)
    → (resolve_create_order (some o) i later ≡ ok (o, false)) × (is_new ≡ true)
unfolding resolve_create_order
resolve_replay i now later {o} {is_new} h =
    let same : new_order i now ≡ o = cc in
    (
      subst (λ u. resolve_create_order (some u) i later ≡ ok (u, false)) same
          (resolve-new_order i now later),
      cc,
    )

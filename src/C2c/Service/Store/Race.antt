-- ===== src/C2c/Service/Store/Race.antt =====
-- Two writes that are guarded by the same counter offer.
use cantonbit.Shared.{
  ◌∙◌, text_eq→eq, text_eq_refl, sym, ap, Bool-cases, subst, ◌≡◌, refl, ◌≢◌, inl, inr, true, ◌&&◌,
  Option, none, some, List, [], ◌∷◌, Text,
}
use cantonbit.C2c.Order.{CantonSwapOrder, CantonSwapStatus, status_eq}
use cantonbit.C2c.Service.Store.{
  any, text_eq, same_value, Guard, Outcome, clash, get, passes, put_if_status, put_over, replace,
  written,
}

get-replace :
    (o : CantonSwapOrder) (rows : List CantonSwapOrder) {row : CantonSwapOrder}
    → get o.id rows ≡ some row
    → get o.id (replace o rows) ≡ some o
unfolding get replace
get-replace o [] e = cc
get-replace o (x ∷ rows) e = elim (Bool-cases (text_eq x.id o.id)) [
  | inl f ↦ rw f (rw (text_eq_refl o.id) refl)
  | inr f ↦ rw f (rw f (get-replace o rows (rw f at e)))
]

same_value→eq : (a : Option Text) (cid : Text) → same_value a (some cid) ≡ true → a ≡ some cid
same_value→eq none cid e = cc
same_value→eq (some a) cid e = ap some (text_eq→eq a cid e)

-- A guarded write that was made leaves an order whose offer is the written one.
put_over-saved :
    (found : Option CantonSwapOrder) (o : CantonSwapOrder) (s : CantonSwapStatus) (g : Guard)
    (rows : List CantonSwapOrder)
    → get o.id rows ≡ found
    → (put_over found o s g rows).1 ≡ Outcome.saved
    → (row : CantonSwapOrder) × (get o.id (put_over found o s g rows).0 ≡ some row)
      × (row.counter_leg_offer_cid ≡ o.counter_leg_offer_cid)
unfolding written
put_over-saved none o s g rows e h = absurd cc
put_over-saved (some row) o s g rows e h =
    elim (Bool-cases (status_eq row.status s && passes g row.counter_leg_offer_cid)) [
      | inr f ↦ absurd (cc (rw f at h))
      | inl f ↦ elim (Bool-cases (any (clash (written row o)) rows)) [
        | inl c ↦ absurd (cc (rw (f, c) at h))
        | inr c ↦ rw (f, c) (written row o, get-replace (written row o) rows e, refl)
      ]
    ]

put_over-stale :
    (row o : CantonSwapOrder) (s : CantonSwapStatus) (cid : Text) (rows : List CantonSwapOrder)
    → row.counter_leg_offer_cid ≢ some cid
    → put_over (some row) o s (Guard.offer_is (some cid)) rows ≡ (rows, Outcome.stale)
put_over-stale row o s cid rows n =
    elim (Bool-cases (same_value row.counter_leg_offer_cid (some cid))) [
      | inl e ↦ absurd (n (same_value→eq row.counter_leg_offer_cid cid e))
      | inr e ↦ elim (Bool-cases (status_eq row.status s)) [
        | inl f ↦ rw (e, f) refl
        | inr f ↦ rw (e, f) refl
      ]
    ]

-- Of two writes to one order that both ask for the counter offer `cid`, of which the first brings
-- another offer, or none: once the first is made, the second finds no row and changes nothing.
pub one_reissue_wins :
    (o p : CantonSwapOrder) (s s' : CantonSwapStatus) (cid : Text) (rows : List CantonSwapOrder)
    → p.id ≡ o.id
    → o.counter_leg_offer_cid ≢ some cid
    → (put_if_status o s (Guard.offer_is (some cid)) rows).1 ≡ Outcome.saved
    → put_if_status p s'
        (Guard.offer_is (some cid))
        (put_if_status o s (Guard.offer_is (some cid)) rows).0
      ≡ ((put_if_status o s (Guard.offer_is (some cid)) rows).0, Outcome.stale)
unfolding put_if_status
one_reissue_wins o p s s' cid rows same n h =
    let g = Guard.offer_is (some cid) in
    let (row, e, offer) = put_over-saved (get o.id rows) o s g rows refl h in
    let there : get p.id (put_over (get o.id rows) o s g rows).0 ≡ some row =
      subst (λ i. get i (put_over (get o.id rows) o s g rows).0 ≡ some row) (sym same) e in
    rw there (put_over-stale row p s' cid _ (λ q. n (sym offer ∙ q)))
